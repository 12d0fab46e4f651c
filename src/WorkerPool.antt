-- ===== src/WorkerPool.antt =====
-- fastedgy/queued_task/services/worker_pool.py: the pool of queue workers.
-- A worker is its `worker_id`, as the number that `uuid4().hex[:8]` writes. `idle_workers` is the
-- queue, first to leave first; `busy_workers` and `worker_timeout_tasks` are their keys. A timer that
-- is cancelled never fires, so the timers that can fire are those of the dict.
pub mod Invariant
pub mod Replies
mod Examples
use fastedgy.Prelude.{ℕ, ◌+◌, Option, none, some, List, [], ◌∷◌, ◌++◌, length, ltb, if◌then◌else◌}
use fastedgy.Prelude.Keys.{member, remove, put}

pub record WorkerPool : Type 0 where
  pub max_workers : ℕ
  pub idle_workers : List ℕ
  pub busy_workers : List ℕ
  pub worker_timeout_tasks : List ℕ

-- `__init__`
unfoldable pub new_pool : ℕ → WorkerPool
new_pool max_workers = record {
  max_workers = max_workers;
  idle_workers = [];
  busy_workers = [];
  worker_timeout_tasks = [];
}

-- The part of `get_available_worker` behind the idle queue: `fresh` is the identifier that
-- `uuid4()` makes.
create_worker : ℕ → WorkerPool → Option ℕ × WorkerPool
create_worker fresh p =
    if ltb (length p.busy_workers + length p.idle_workers) p.max_workers
    then (some fresh, record p { busy_workers = put fresh p.busy_workers })
    else (none, p)

get_from : List ℕ → ℕ → WorkerPool → Option ℕ × WorkerPool
unfolding create_worker
get_from [] fresh p = create_worker fresh p
get_from (w ∷ ws) fresh p = (
  some w,
  record p {
    idle_workers = ws;
    worker_timeout_tasks = remove w p.worker_timeout_tasks;
    busy_workers = put w p.busy_workers;
  },
)

unfoldable pub get_available_worker : ℕ → WorkerPool → Option ℕ × WorkerPool
unfolding get_from
get_available_worker fresh p = get_from p.idle_workers fresh p

unfoldable pub return_worker : ℕ → WorkerPool → WorkerPool
return_worker w p = record p {
  busy_workers = remove w p.busy_workers;
  idle_workers = p.idle_workers ++ w ∷ [];
  worker_timeout_tasks = put w p.worker_timeout_tasks;
}

-- `_worker_idle_timeout`, from the end of the sleep on.
unfoldable pub idle_timeout : ℕ → WorkerPool → WorkerPool
idle_timeout w p =
    if member w p.worker_timeout_tasks
    then record p {
      idle_workers = remove w p.idle_workers;
      worker_timeout_tasks = remove w p.worker_timeout_tasks;
    }
    else p

unfoldable pub shutdown : WorkerPool → WorkerPool
shutdown p = record p { worker_timeout_tasks = []; busy_workers = []; idle_workers = [] }

-- `total_workers` of `get_pool_stats`
abbrev pub total_workers : WorkerPool → ℕ
total_workers p = length p.busy_workers + length p.idle_workers
