-- ===== src/QueueWorker/Examples.antt =====
-- A queue of three tasks, and the theorems about the queue at it.
use fastedgy.Prelude.{
  Option, ◌≤◌, ◌<◌, true, ℕ, ◌≡◌, refl, Bool, false, none, some, List, [], ◌∷◌, arith,
}
use fastedgy.QueuedTask.{QueuedTask, enqueued, doing, done, is_finished}
use fastedgy.Queue.{claim, reap, set_claimed}
use fastedgy.Queue.Samples.{row}
use fastedgy.Queue.Claim.{Claims, claim-Claims}
use fastedgy.Queue.Reaper.{is_stuck, awaits_resume, reap-unstuck}
use fastedgy.QueueWorker.{Failure}
use fastedgy.QueueWorker.AutoRemove.{
  auto_remove_task, remove_ancestors, returned_parent, delete, is_childless, is_collectable,
  has_failed, has_grave_log,
}
use fastedgy.QueueWorker.AutoRemove.Collects.{AutoRemoves, auto_remove_task-AutoRemoves}
use fastedgy.Queue.Purge.{has_children}
use fastedgy.QueueWorker.Steps.{
  marks_failed, reaps_dead_owner, apply, IsOwned, apply-IsOwned, apply-is_finished,
}
use fastedgy.QueueWorker.Retry.{Attempt, attempts, IsRetried, IsGivenUp, attempts-failed}

abbrev rows : List QueuedTask
rows = row 1 enqueued 0 none ∷ row 2 enqueued 5 none ∷ row 3 done 9 (some "box") ∷ []

abbrev unlocked : ℕ → Bool
unlocked _ = false

-- The claim takes the second row, which has the higher priority.
takes_priority :
    (claim "box" 100 [] unlocked rows).0 ≡ some (set_claimed "box" 100 (row 2 enqueued 5 none))
unfolding claim
takes_priority = refl

-- A channel without a free slot is passed over.
passes_saturated : (claim "box" 100 ("default" ∷ []) unlocked rows).0 ≡ none
unfolding claim
passes_saturated = refl

claim-Claims_example : Claims "box" 100 [] unlocked rows (claim "box" 100 [] unlocked rows)
claim-Claims_example = claim-Claims "box" 100 [] unlocked rows

abbrev lost : QueuedTask
lost = row 4 doing 0 (some "gone")

reap-unstuck_example :
    let r = reap 100 [] 300 3 "reaped" lost in
    (is_stuck 100 [] 300 r ≡ false) × (awaits_resume 100 [] r ≡ false)
reap-unstuck_example = reap-unstuck 100 [] 3 300 "reaped" lost

-- A run whose owner is gone goes back to the queue.
lost_is_released : (reap 100 [] 300 3 "reaped" lost).state ≡ enqueued
unfolding reap
lost_is_released = refl

abbrev boom : Failure
boom = record { name = "ValueError"; message = "boom"; info = ""; is_timeout = false }

apply-IsOwned_example : IsOwned (apply (reaps_dead_owner 100 []) lost)
apply-IsOwned_example = apply-IsOwned (reaps_dead_owner 100 []) lost (ground arith)

apply-is_finished_example :
    apply (marks_failed 100 boom) (row 3 done 9 (some "box")) ≡ row 3 done 9 (some "box")
unfolding is_finished
apply-is_finished_example =
    apply-is_finished (marks_failed 100 boom) (row 3 done 9 (some "box")) refl

abbrev once : Attempt
once = record { server = "box"; started = 100; ended = 200; failure = boom }

-- The row has one retry, so that the second of three attempts is the last.
attempts-failed_example :
    let r = attempts 3 (once ∷ once ∷ once ∷ []) (row 1 enqueued 0 none) in
    (3 ≤ 1 → IsRetried 3 3 (row 1 enqueued 0 none) r)
    × (1 < 3 → IsGivenUp 3 (row 1 enqueued 0 none) r)
attempts-failed_example =
    attempts-failed 3 (once ∷ once ∷ once ∷ []) (row 1 enqueued 0 none) (refl, (refl, (refl, tt)))
      refl (omega arith)

-- A finished task whose parent waited for it.
abbrev removable : ℕ → Option ℕ → QueuedTask
removable id parent = record (row id done 0 none) { auto_remove = true; parent_task = parent }

abbrev chain : List QueuedTask
chain = removable 1 none ∷ removable 2 (some 1) ∷ []

collects_chain : auto_remove_task [] 2 chain ≡ []
unfolding auto_remove_task remove_ancestors returned_parent delete is_childless is_collectable
    has_failed has_grave_log has_children
collects_chain = refl

auto_remove_task-AutoRemoves_example : AutoRemoves [] 2 chain (auto_remove_task [] 2 chain)
auto_remove_task-AutoRemoves_example = auto_remove_task-AutoRemoves [] 2 chain
