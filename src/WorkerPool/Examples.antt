-- ===== src/WorkerPool/Examples.antt =====
-- A pool of two workers, and the theorems at it.
use fastedgy.Prelude.{◌≡◌, refl, []}
use fastedgy.Prelude.Keys.{member, remove, put}
use fastedgy.WorkerPool.{WorkerPool, new_pool, get_available_worker, return_worker, idle_timeout}
use fastedgy.WorkerPool.Invariant.{IsValid, Step, Reach, Reach-IsValid}
use fastedgy.WorkerPool.Replies.{HandedOut, get_available_worker-HandedOut}

abbrev one_busy : WorkerPool
one_busy = (get_available_worker 11 (new_pool 2)).1

abbrev one_idle : WorkerPool
one_idle = return_worker 11 one_busy

reaches : Reach (new_pool 2) one_idle
unfolding new_pool get_available_worker member put
reaches =
    Reach.next (Reach.next Reach.here (Step.gets (new_pool 2) 11 (refl, refl)))
      (Step.returns one_busy 11 refl)

Reach-IsValid_example : IsValid one_idle
Reach-IsValid_example = Reach-IsValid 2 reaches

get_available_worker-HandedOut_example : HandedOut 11 one_idle (get_available_worker 12 one_idle).1
unfolding new_pool get_available_worker return_worker member put remove
get_available_worker-HandedOut_example =
    get_available_worker-HandedOut 12 one_idle 11 (Reach-IsValid 2 reaches) (refl, refl) refl

-- An idle worker whose time is over leaves the pool.
leaves : (idle_timeout 11 one_idle).idle_workers ≡ []
unfolding new_pool get_available_worker return_worker idle_timeout member put remove
leaves = refl
