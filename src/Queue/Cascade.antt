-- ===== src/Queue/Cascade.antt =====
-- `_cascade_to_descendants` of fastedgy/queued_task/services/queue_worker_manager.py: the end of a
-- task that failed or was cancelled, passed on to the tasks that wait for it. The rows of the
-- recursive query are the identifiers it finds, level by level.
pub mod Tree
use fastedgy.Prelude.{
  ℕ, zero, suc, ◌+◌, Bool, true, false, ◌&&◌, ◌||◌, Option, none, some, String, List, [], ◌∷◌, ◌++◌,
  map, filter, length, if◌then◌else◌, ◌==◌,
}
use fastedgy.Prelude.Keys.{member}
use fastedgy.QueuedTask.{
  QueuedTaskState, enqueued, doing, failed, cancelled, QueuedTask, is_enqueued, is_doing, or_else,
}

abbrev pub is_failed : QueuedTaskState → Bool
is_failed failed = true
is_failed _ = false

abbrev pub is_cancelled : QueuedTaskState → Bool
is_cancelled cancelled = true
is_cancelled _ = false

-- `SELECT id FROM queued_tasks WHERE id = :root_id`
unfoldable pub anchor : ℕ → List QueuedTask → List ℕ
anchor root [] = []
anchor root (t ∷ ts) = let rest = anchor root ts in if t.id == root then t.id ∷ rest else rest

abbrev pub has_parent : ℕ → Option ℕ → Bool
has_parent p none = false
has_parent p (some q) = q == p

-- `... queued_tasks c ... ON c.parent_task = d.id`, for one `d`.
unfoldable pub children : ℕ → List QueuedTask → List ℕ
children p [] = []
children p (t ∷ ts) =
    let rest = children p ts in if has_parent p t.parent_task then t.id ∷ rest else rest

unfoldable pub next_level : List QueuedTask → List ℕ → List ℕ
next_level rows [] = []
next_level rows (p ∷ ps) = children p rows ++ next_level rows ps

-- The rows of a level and of the `n` levels below it.
unfoldable pub levels : ℕ → List QueuedTask → List ℕ → List ℕ
levels zero rows level = level
levels (suc n) rows level = level ++ levels n rows (next_level rows level)

-- `WITH RECURSIVE descendants`
unfoldable pub descendants : ℕ → ℕ → List QueuedTask → List ℕ
descendants max_depth root rows = levels max_depth rows (anchor root rows)

-- The arguments of a cascade besides its root.
pub record Ending : Type 0 where
  pub new_state : QueuedTaskState
  pub exception_name : Option String
  pub exception_message : Option String
  pub exception_info : Option String

-- `COALESCE(:value, column)` is `or_else`.
unfoldable pub set_cascaded : ℕ → Ending → QueuedTask → QueuedTask
set_cascaded now e t = record t {
  state = e.new_state;
  date_failed = if is_failed e.new_state then some now else t.date_failed;
  date_cancelled = if is_cancelled e.new_state then some now else t.date_cancelled;
  date_ended = some now;
  exception_name = or_else e.exception_name t.exception_name;
  exception_message = or_else e.exception_message t.exception_message;
  exception_info = or_else e.exception_info t.exception_info;
}

-- `t.state IN ('enqueued', 'doing')`
unfoldable pub is_open : QueuedTaskState → Bool
is_open s = is_enqueued s || is_doing s

unfoldable pub is_cascaded : List ℕ → QueuedTask → Bool
is_cascaded ids t = member t.id ids && is_open t.state

unfoldable pub cascade_row : ℕ → Ending → List ℕ → QueuedTask → QueuedTask
cascade_row now e ids t = if is_cascaded ids t then set_cascaded now e t else t

-- What a cascade does: the number of rows it changed and the table, or a ValueError.
pub data Cascaded : Type 0 where
  updated : ℕ → List QueuedTask → Cascaded
  value_error : Cascaded

unfoldable pub cascade_to_descendants : ℕ → ℕ → Ending → ℕ → List QueuedTask → Cascaded
cascade_to_descendants now root e max_depth rows =
    if is_failed e.new_state || is_cancelled e.new_state
    then updated (length (filter (is_cascaded (descendants max_depth root rows)) rows))
        (map (cascade_row now e (descendants max_depth root rows)) rows)
    else value_error
