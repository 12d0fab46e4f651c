-- ===== src/QueuedTask/Examples.antt =====
-- A task row, and the theorems at it.
use fastedgy.Prelude.{◌≡◌, refl, false, none, some}
use fastedgy.Prelude.Int.{pos}
use fastedgy.QueuedTask.{QueuedTask, failed, save, restart}

abbrev task : QueuedTask
task = record {
  id = 7;
  name = none;
  module_name = some "app.tasks";
  function_name = some "send";
  serialized_function = none;
  state = failed;
  args = "[]";
  kwargs = "{}";
  context = "{}";
  channel = "default";
  priority = pos 0;
  parent_task = none;
  exception_name = some "ValueError";
  exception_message = none;
  exception_info = none;
  execution_time = some (pos 4);
  date_enqueued = some 10;
  date_started = some 20;
  date_stopped = none;
  date_ended = some 24;
  auto_remove = false;
  claimed_by = some "box";
  retry_count = 3;
  max_retries = none;
  resume_requested = false;
  date_done = none;
  date_cancelled = none;
  date_failed = some 24;
}

-- The name is made from the module and the function.
named : (save 60 task).name ≡ some "app.tasks.send"
unfolding save
named = refl

-- A restarted task keeps the owner of its former run.
keeps_owner : (restart 50 task).claimed_by ≡ some "box"
unfolding restart
keeps_owner = refl
