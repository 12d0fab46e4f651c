-- ===== src/QueueWorker/AutoRemove.antt =====
-- The removal of a finished task and of the ancestors that waited for it: `_op_auto_remove` of
-- `run_task` in fastedgy/queued_task/services/queue_worker.py. A row of `queued_task_logs` is the task
-- and the type of the log.
pub mod Ancestors
pub mod Guards
pub mod Collects
use fastedgy.Prelude.{
  ℕ, zero, suc, ◌≡◌, refl, sym, ◌⊎◌, inl, inr, Bool, true, false, ◌&&◌, ◌||◌, Option, none, some,
  String, List, [], ◌∷◌, any, filter, if◌then◌else◌, ◌==◌, not, Bool-cases, Option-cases, ==_iff,
  arith,
}
use mathlib.Core.List.{Memᴰ}
use mathlib.Core.Path.{subst}
use fastedgy.QueuedTask.{QueuedTask}
use fastedgy.Queue.{is_done}
use fastedgy.Queue.Cascade.{is_failed}
use fastedgy.Queue.Purge.{has_children, filter-keeps, filter-IsKept, has_children-of}
use text.Mathlib.Text.{◌==◌ as str_eq}

-- `log_type IN ('error', 'critical')`
abbrev pub is_grave : String → Bool
is_grave log_type = str_eq log_type "error" || str_eq log_type "critical"

unfoldable pub has_grave_log : List (ℕ × String) → ℕ → Bool
has_grave_log [] id = false
has_grave_log ((task, log_type) ∷ logs) id =
    task == id && is_grave log_type || has_grave_log logs id

-- `SELECT state FROM queued_tasks WHERE id = :id` finds a failed row first.
unfoldable pub has_failed : List QueuedTask → ℕ → Bool
has_failed [] id = false
has_failed (t ∷ ts) id =
    let rest = has_failed ts id in if t.id == id then is_failed t.state else rest

-- The parents of the rows that `DELETE ... RETURNING t.parent_task` deletes, of which the first counts.
unfoldable pub returned_parent : (QueuedTask → Bool) → List QueuedTask → Option (Option ℕ)
returned_parent test [] = none
returned_parent test (t ∷ ts) =
    let rest = returned_parent test ts in if test t then some t.parent_task else rest

unfoldable pub delete : (QueuedTask → Bool) → List QueuedTask → List QueuedTask
delete test rows = filter (λ t. not (test t)) rows

-- `WHERE t.id = :id AND NOT EXISTS (SELECT 1 FROM queued_tasks c WHERE c.parent_task = t.id)`
unfoldable pub is_childless : List QueuedTask → ℕ → QueuedTask → Bool
is_childless rows id t = t.id == id && not (has_children rows t.id)

module _ (logs : List (ℕ × String)) where
  -- The WHERE clause for an ancestor.
  unfoldable pub is_collectable : List QueuedTask → ℕ → QueuedTask → Bool
  unfolding is_childless
  is_collectable rows id t =
      is_childless rows id t
      && (is_done t.state && (t.auto_remove && not (has_grave_log logs t.id)))

  -- The loop up the chain, with as many hops left as the number says.
  unfoldable pub remove_ancestors : ℕ → Option ℕ → List QueuedTask → List QueuedTask
  remove_ancestors n none rows = rows
  remove_ancestors zero (some id) rows = rows
  remove_ancestors (suc n) (some id) rows = elim (returned_parent (is_collectable rows id) rows) [
    | none ↦ rows
    | some parent ↦ remove_ancestors n parent (delete (is_collectable rows id) rows)
  ]

  unfoldable pub auto_remove_task : ℕ → List QueuedTask → List QueuedTask
  unfolding remove_ancestors
  auto_remove_task id rows =
      if has_failed rows id || has_grave_log logs id
      then rows
      else elim (returned_parent (is_childless rows id) rows) [
        | none ↦ rows
        | some parent ↦ remove_ancestors 32 parent (delete (is_childless rows id) rows)
      ]
