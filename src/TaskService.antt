-- ===== src/TaskService.antt =====
-- fastedgy/queued_task/services/queued_tasks.py: the rows that create_task and retry_task write. The
-- hooks around the insert are left out. What the insert of a row comes to is an argument.
pub mod Retry
mod Examples
use fastedgy.Prelude.{
  ℕ, Bool, true, false, ◌&&◌, ◌||◌, Option, none, some, String, List, [], ◌∷◌, ◌++◌, ◌==◌,
  if◌then◌else◌, not,
}
use fastedgy.Prelude.Int.{ℤ, pos}
use fastedgy.QueuedTask.{QueuedTask, enqueued, is_truthy, is_enqueued, is_doing, save}
use fastedgy.Queue.{is_stopped, update_id}
use Prim.Native.String.{◌++◌ as str_append}

-- The arguments of create_task. Those that are JSON are the texts of their columns.
pub record NewTask : Type 0 where
  pub module_name : Option String
  pub function_name : Option String
  pub serialized_function : Option String
  pub args : String
  pub kwargs : String
  pub context : String
  pub name : Option String
  pub parent_task : Option ℕ
  pub auto_remove : Bool
  pub date_enqueued : Option ℕ
  pub max_retries : Option ℕ
  pub channel : Option String
  pub priority : Option ℤ

-- `channel or "default"`
abbrev pub channel_or_default : Option String → String
channel_or_default none = "default"
channel_or_default (some c) = if is_truthy (some c) then c else "default"

abbrev pub get_or {ℓ} : {A : Type ℓ} → Option A → A → A
get_or none d = d
get_or (some a) d = a

-- The row that is made, under the id that it is given.
unfoldable pub build_task : ℕ → ℕ → Option ℕ → NewTask → QueuedTask
build_task id now parent a = record {
  id = id;
  name = a.name;
  module_name = a.module_name;
  function_name = a.function_name;
  serialized_function = a.serialized_function;
  state = enqueued;
  args = a.args;
  kwargs = a.kwargs;
  context = a.context;
  channel = channel_or_default a.channel;
  priority = get_or a.priority (pos 0);
  parent_task = parent;
  exception_name = none;
  exception_message = none;
  exception_info = none;
  execution_time = some (pos 0);
  date_enqueued = some (get_or a.date_enqueued now);
  date_started = none;
  date_stopped = none;
  date_ended = none;
  auto_remove = a.auto_remove;
  claimed_by = none;
  retry_count = 0;
  max_retries = a.max_retries;
  resume_requested = false;
  date_done = none;
  date_cancelled = none;
  date_failed = none;
}

-- What an insert comes to: a row, the foreign key of the parent, or another error.
pub data Insert : Type 0 where
  inserted : ℕ → Insert
  parent_gone broken : Insert

abbrev pub is_callable : NewTask → Bool
is_callable a =
    is_truthy a.serialized_function || is_truthy a.module_name && is_truthy a.function_name

abbrev pub add_row : ℕ → QueuedTask → List QueuedTask → List QueuedTask
add_row now t rows = rows ++ save now t ∷ []

-- The insert without the parent that is gone.
abbrev pub insert_unchained :
    Insert → ℕ → Option ℕ → NewTask → List QueuedTask → Option (List QueuedTask)
insert_unchained (inserted id) now (some p) a rows =
    some (add_row now (build_task id now none a) rows)
insert_unchained _ now parent a rows = none

abbrev pub insert_task : Insert → Insert → ℕ → NewTask → List QueuedTask → Option (List QueuedTask)
insert_task (inserted id) again now a rows =
    some (add_row now (build_task id now a.parent_task a) rows)
insert_task parent_gone again now a rows = insert_unchained again now a.parent_task a rows
insert_task broken again now a rows = none

-- `create_task`, with what the first insert comes to, and the second if there is one. None is an
-- error; then no row is made.
unfoldable pub create_task :
    Insert → Insert → ℕ → NewTask → List QueuedTask → Option (List QueuedTask)
unfolding build_task save
create_task first again now a rows =
    if not (is_callable a) then none else insert_task first again now a rows

-- `get_task_by_id`
unfoldable pub get_task_by_id : ℕ → List QueuedTask → Option QueuedTask
get_task_by_id id [] = none
get_task_by_id id (t ∷ ts) = if t.id == id then some t else get_task_by_id id ts

-- The columns that retry_task sets on a stopped task.
unfoldable pub reset_stopped : ℕ → QueuedTask → QueuedTask
reset_stopped now t = record t {
  state = enqueued;
  date_enqueued = some now;
  date_started = none;
  date_stopped = none;
  claimed_by = none;
  exception_name = none;
  exception_message = none;
  exception_info = none;
  retry_count = 0;
  resume_requested = false;
}

-- The clone of any other task.
unfoldable pub clone_task : ℕ → ℕ → QueuedTask → QueuedTask
unfolding build_task
clone_task id now t =
    record (build_task id now t.parent_task (record {
      module_name = t.module_name;
      function_name = t.function_name;
      serialized_function = t.serialized_function;
      args = t.args;
      kwargs = t.kwargs;
      context = t.context;
      name = some (str_append (get_or t.name "None") "_retry");
      parent_task = t.parent_task;
      auto_remove = t.auto_remove;
      date_enqueued = none;
      max_retries = t.max_retries;
      channel = none;
      priority = some t.priority;
    })) { channel = t.channel }

-- What retry_task comes to: a ValueError, the error of a write, or the task that is retried.
pub data Retried : Type 0 where
  not_found refused unsaved : Retried
  retried : QueuedTask → Retried

-- A write of a row: done, under an id if it is new, or an error.
abbrev pub save_stopped : Option ℕ → ℕ → QueuedTask → List QueuedTask → Retried × List QueuedTask
save_stopped none now t rows = (unsaved, rows)
save_stopped (some id) now t rows =
    let new = save now (reset_stopped now t) in (retried new, update_id t.id (λ u. new) rows)

abbrev pub save_clone : Option ℕ → ℕ → QueuedTask → List QueuedTask → Retried × List QueuedTask
save_clone none now t rows = (unsaved, rows)
save_clone (some id) now t rows =
    let new = save now (clone_task id now t) in (retried new, rows ++ new ∷ [])

abbrev pub retry_found :
    Option ℕ → ℕ → Option QueuedTask → List QueuedTask → Retried × List QueuedTask
retry_found o now none rows = (not_found, rows)
retry_found o now (some t) rows =
    if is_enqueued t.state
    then (refused, rows)
    else if is_doing t.state
    then (refused, rows)
    else if is_stopped t.state
    then save_stopped o now t rows
    else save_clone o now t rows

-- `retry_task`
unfoldable pub retry_task : Option ℕ → ℕ → ℕ → List QueuedTask → Retried × List QueuedTask
unfolding get_task_by_id reset_stopped clone_task save
retry_task o now id rows = retry_found o now (get_task_by_id id rows) rows
