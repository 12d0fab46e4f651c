-- ===== src/Queue/Orphans.antt =====
-- The passes (3) and (4) of `_reap_stale_tasks` in
-- fastedgy/queued_task/services/queue_worker_manager.py, and the whole round. The formatted message
-- and information about a failed parent are the argument `texts`; `fails` says for which root the
-- cascade raises, which is logged and leaves the table.
pub mod Settled
use fastedgy.Prelude.{
  ℕ, ◌+◌, Bool, true, false, ◌&&◌, ◌||◌, Option, none, some, String, List, [], ◌∷◌, ◌++◌, map,
  filter, if◌then◌else◌, ◌==◌, ltb, not,
}
use fastedgy.QueuedTask.{failed, cancelled, QueuedTask, is_enqueued}
use fastedgy.Queue.{QueuedTaskWorker, reap}
use fastedgy.Queue.Cascade.{
  is_failed, is_cancelled, has_parent, Ending, Cascaded, updated, value_error,
  cascade_to_descendants,
}
use text.Mathlib.Text.{◌==◌ as str_eq}

unfoldable pub ending_of : (QueuedTask → String × String) → QueuedTask → Ending
ending_of texts p =
    if is_failed p.state
    then record {
      new_state = failed;
      exception_name = some "ParentTaskFailed";
      exception_message = some (texts p).0;
      exception_info = some (texts p).1;
    }
    else record {
      new_state = cancelled;
      exception_name = none;
      exception_message = none;
      exception_info = none;
    }

-- `c.state = 'enqueued' AND p.state IN ('failed', 'cancelled')`, for a row of the join.
unfoldable pub is_orphan : QueuedTask → QueuedTask → Bool
is_orphan c p =
    has_parent p.id c.parent_task
    && is_enqueued c.state
    && (is_failed p.state || is_cancelled p.state)

-- The orphans among the children of one row, each with the parent.
unfoldable pub orphans_of : QueuedTask → List QueuedTask → List (ℕ × QueuedTask)
orphans_of c [] = []
orphans_of c (p ∷ ps) =
    let rest = orphans_of c ps in if is_orphan c p then (c.id, p) ∷ rest else rest

unfoldable pub orphans : List QueuedTask → List QueuedTask → List (ℕ × QueuedTask)
orphans parents [] = []
orphans parents (c ∷ cs) = orphans_of c parents ++ orphans parents cs

unfoldable pub table_of : List QueuedTask → Cascaded → List QueuedTask
table_of rows (updated n rows') = rows'
table_of rows value_error = rows

module _ (now : ℕ) (texts : QueuedTask → String × String) (fails : ℕ → Bool) where
  unfoldable pub cascade_orphan : ℕ → QueuedTask → List QueuedTask → List QueuedTask
  cascade_orphan child parent rows =
      if fails child
      then rows
      else table_of rows (cascade_to_descendants now child (ending_of texts parent) 100 rows)

  unfoldable pub cascade_all : List (ℕ × QueuedTask) → List QueuedTask → List QueuedTask
  cascade_all [] rows = rows
  cascade_all ((child, parent) ∷ found) rows = cascade_all found (cascade_orphan child parent rows)

  -- Pass (3)
  unfoldable pub cascade_orphans : List QueuedTask → List QueuedTask
  cascade_orphans rows = cascade_all (orphans rows rows) rows

-- Pass (4): `last_heartbeat < NOW() - interval '10 minutes' AND server_name != :self_name`
unfoldable pub is_dead : ℕ → String → QueuedTaskWorker → Bool
is_dead now self_name w =
    ltb (w.last_heartbeat + 600_000_000) now && not (str_eq w.server_name self_name)

unfoldable pub remove_dead_workers : ℕ → String → List QueuedTaskWorker → List QueuedTaskWorker
remove_dead_workers now self_name workers = filter (λ w. not (is_dead now self_name w)) workers

-- `_reap_stale_tasks`: the table of the tasks and that of the workers after a round without an
-- error of the database.
unfoldable pub reap_stale_tasks :
    ℕ
    → String
    → ℕ
    → ℕ
    → String
    → (QueuedTask → String × String)
    → (ℕ → Bool)
    → List QueuedTask × List QueuedTaskWorker
    → List QueuedTask × List QueuedTaskWorker
reap_stale_tasks now self_name task_timeout default_max message texts fails (rows, workers) = (
  cascade_orphans now texts fails (map (reap now workers task_timeout default_max message) rows),
  remove_dead_workers now self_name workers,
)
