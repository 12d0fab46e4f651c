-- ===== src/Queue/Samples.antt =====
-- A row of the table, for the tests.
use fastedgy.Prelude.{ℕ, false, Option, none, some, String}
use fastedgy.Prelude.Int.{pos}
use fastedgy.QueuedTask.{QueuedTask, QueuedTaskState}

abbrev pub row : ℕ → QueuedTaskState → ℕ → Option String → QueuedTask
row id state priority owner = record {
  id = id;
  name = some "app.tasks.send";
  module_name = some "app.tasks";
  function_name = some "send";
  serialized_function = none;
  state = state;
  args = "[]";
  kwargs = "{}";
  context = "{}";
  channel = "default";
  priority = pos priority;
  parent_task = none;
  exception_name = none;
  exception_message = none;
  exception_info = none;
  execution_time = some (pos 0);
  date_enqueued = some 10;
  date_started = none;
  date_stopped = none;
  date_ended = none;
  auto_remove = false;
  claimed_by = owner;
  retry_count = 0;
  max_retries = some 1;
  resume_requested = false;
  date_done = none;
  date_cancelled = none;
  date_failed = none;
}
