-- ===== src/Cron.antt =====
-- fastedgy/queued_task/scheduler/cron_scheduler.py and registry.py: the registry of scheduled tasks, and
-- what the scheduler does in a minute. Time is counted in minutes for the expressions. CronSim is
-- the argument next_fire, none where it raises an error.
pub mod Unique
pub mod Due
mod Examples
use fastedgy.Prelude.{
  ℕ, ◌-◌, Bool, true, false, ◌&&◌, ◌||◌, Option, none, some, String, List, [], ◌∷◌, ◌++◌, ◌==◌, any,
  if◌then◌else◌, not,
}
use fastedgy.Prelude.Dict.{has_name, lookup, insert}
use fastedgy.Prelude.Int.{ℤ}
use fastedgy.QueuedTask.{QueuedTask, is_active}
use fastedgy.TaskService.{NewTask, Insert, create_task}
use text.Mathlib.Text.{◌==◌ as str_eq}

pub record ScheduledTaskDef : Type 0 where
  pub name : String
  pub cron : Option String
  pub module_name : String
  pub function_name : String
  pub auto_remove : Bool
  pub enabled : Bool
  pub context : Option String
  pub channel : Option String
  pub priority : Option ℤ

pub record Settings : Type 0 where
  pub disabled_scheduled_tasks : List String
  pub enabled_scheduled_tasks : List String

abbrev pub Tasks : Type 0
Tasks = List (String × ScheduledTaskDef)

-- `ScheduledTaskRegistry.register`
unfoldable pub register_task : ScheduledTaskDef → Tasks → Tasks
register_task d tasks = insert d.name d tasks

abbrev pub resolve_enabled : Settings → ScheduledTaskDef → Bool
resolve_enabled s d =
    if has_name d.name s.disabled_scheduled_tasks
    then false
    else if has_name d.name s.enabled_scheduled_tasks
    then true
    else if has_name "all" s.disabled_scheduled_tasks || has_name "*" s.disabled_scheduled_tasks
    then false
    else d.enabled

unfoldable pub is_task_enabled : Settings → Tasks → String → Bool
is_task_enabled s tasks name = elim (lookup name tasks) [
  | none ↦ false
  | some d ↦ resolve_enabled s d
]

-- `name = :name AND state IN ('enqueued', 'waiting', 'doing')`
unfoldable pub is_active_of : String → QueuedTask → Bool
is_active_of name t = (elim t.name [ none ↦ false | some n ↦ str_eq n name ]) && is_active t.state

unfoldable pub has_active : String → List QueuedTask → Bool
unfolding is_active_of
has_active name rows = any (is_active_of name) rows

-- The call of create_task for a definition.
abbrev pub new_task_of : ScheduledTaskDef → NewTask
new_task_of d = record {
  module_name = some d.module_name;
  function_name = some d.function_name;
  serialized_function = none;
  args = "[]";
  kwargs = "{}";
  context = elim d.context [ none ↦ "{}" | some c ↦ c ];
  name = some d.name;
  parent_task = none;
  auto_remove = d.auto_remove;
  date_enqueued = none;
  max_retries = none;
  channel = d.channel;
  priority = d.priority;
}

-- One of the two attempts: a fault of the database, or a transaction under the lock of the name.
pub data Attempt : Type 0 where
  faults : Attempt
  locks : Insert → Attempt

-- None is an error, and the transaction is rolled back.
abbrev pub run_attempt : Attempt → ℕ → ScheduledTaskDef → List QueuedTask → Option (List QueuedTask)
run_attempt faults now d rows = none
run_attempt (locks i) now d rows =
    if has_active d.name rows then some rows else create_task i i now (new_task_of d) rows

-- The second attempt after an error of the first; an error of the second is logged.
abbrev pub or_again :
    Option (List QueuedTask) → Option (List QueuedTask) → List QueuedTask → List QueuedTask
or_again (some new) again rows = new
or_again none (some new) rows = new
or_again none none rows = rows

-- `_create_task_if_not_exists`
unfoldable pub create_task_if_not_exists :
    Attempt → Attempt → ℕ → ScheduledTaskDef → List QueuedTask → List QueuedTask
create_task_if_not_exists a b now d rows =
    or_again (run_attempt a now d rows) (run_attempt b now d rows) rows

module _ (next_fire : String → ℕ → Option ℕ) (s : Settings) (tasks : Tasks) where
  -- `_cron_matches`; false where an error is raised, which skips the task.
  abbrev pub cron_matches : String → ℕ → Bool
  cron_matches expr minute = elim (next_fire expr (minute - 1)) [
    | none ↦ false
    | some fire ↦ fire == minute
  ]

  -- The tests of the loop over the tasks.
  unfoldable pub fires_at : ℕ → String → ScheduledTaskDef → Bool
  fires_at minute name d = elim d.cron [
    | none ↦ false
    | some expr ↦ not (str_eq expr "") && (is_task_enabled s tasks name && cron_matches expr minute)
  ]

  -- The loop of a minute, over `registry.get_all()`, with the attempts for each task.
  unfoldable pub run_minute :
      (String → Attempt × Attempt) → ℕ → ℕ → Tasks → List QueuedTask → List QueuedTask
  unfolding fires_at create_task_if_not_exists
  run_minute attempts minute now [] rows = rows
  run_minute attempts minute now ((name, d) ∷ rest) rows =
      let (a, b) = attempts name in
      run_minute attempts minute now rest
        (if fires_at minute name d then create_task_if_not_exists a b now d rows else rows)
