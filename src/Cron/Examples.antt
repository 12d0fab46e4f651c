-- ===== src/Cron/Examples.antt =====
-- A task that is due every fifth minute, and the theorems at it.
use fastedgy.Prelude.{
  ◌+◌, ◌*◌, ◌/◌, ℕ, ◌≡◌, ◌≤◌, refl, true, none, some, Option, String, List, [], ◌∷◌, Bool, map,
  length, if◌then◌else◌, ◌&&◌, inr,
}
use fastedgy.Prelude.Dict.{has_name, lookup}
use fastedgy.QueuedTask.{QueuedTask, is_enqueued, is_active, save}
use fastedgy.Queue.{set_claimed}
use fastedgy.TaskService.{inserted, build_task, create_task}
use fastedgy.Cron.{
  ScheduledTaskDef, Settings, Tasks, is_task_enabled, is_active_of, has_active, Attempt, faults,
  locks, create_task_if_not_exists, fires_at, run_minute,
}
use fastedgy.Cron.Unique.{
  count_active, Reach, nothing_yet, then_writes, fires, claims, Reach-count_active,
}
use fastedgy.Cron.Due.{run_minute-has_active}
use mathlib.Core.List.{Memᴰ}
use text.Mathlib.Text.{◌==◌ as str_eq}

abbrev reminders : ScheduledTaskDef
reminders = record {
  name = "reminders";
  cron = some "*/5 * * * *";
  module_name = "app.tasks";
  function_name = "send_reminders";
  auto_remove = true;
  enabled = true;
  context = none;
  channel = none;
  priority = none;
}

abbrev registry : Tasks
registry = ("reminders", reminders) ∷ []

abbrev settings : Settings
settings = record { disabled_scheduled_tasks = []; enabled_scheduled_tasks = [] }

-- The next minute that a fifth of an hour starts in.
abbrev every_fifth : String → ℕ → Option ℕ
every_fifth expr after = some (after / 5 * 5 + 5)

abbrev both_fault : String → Attempt × Attempt
both_fault name = (faults, faults)

abbrev second_serves : String → Attempt × Attempt
second_serves name = (faults, locks (inserted 4))

abbrev fired : List QueuedTask
fired = create_task_if_not_exists faults (locks (inserted 4)) 900 reminders []

fires_once : length (create_task_if_not_exists (locks (inserted 5)) faults 960 reminders fired) ≡ 1
unfolding create_task_if_not_exists has_active is_active_of is_active create_task build_task save
fires_once = refl

makes_none : length (run_minute every_fifth settings registry both_fault 15 900 registry []) ≡ 0
unfolding run_minute fires_at is_task_enabled lookup has_name create_task_if_not_exists
makes_none = refl

abbrev is_reminders : String → Bool
is_reminders name = str_eq name "reminders"

claimed-Reach :
    Reach is_reminders
      (map (λ t. if true && is_enqueued t.state then set_claimed "a" 905 t else t) fired)
claimed-Reach =
    then_writes (claims "a" 905 (λ t. true))
      (then_writes (fires faults (locks (inserted 4)) 900 reminders refl) nothing_yet)

Reach-count_active_example :
    count_active "reminders"
      (map (λ t. if true && is_enqueued t.state then set_claimed "a" 905 t else t) fired)
    ≤ 1
Reach-count_active_example = Reach-count_active is_reminders "reminders" _ refl claimed-Reach

run_minute-has_active_example :
    has_active "reminders"
      (run_minute every_fifth settings registry second_serves 15 900 registry [])
    ≡ true
unfolding lookup has_name
run_minute-has_active_example =
    run_minute-has_active every_fifth settings registry second_serves 15 900 "reminders"
      "*/5 * * * *" reminders 14 registry [] (Memᴰ.head refl) refl (refl, inr (refl, refl, refl))
      refl refl refl refl (refl, refl, refl) (inr (refl, tt))
