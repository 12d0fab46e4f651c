-- ===== src/QueueWorker/Steps.antt =====
-- The statements on one row, as the steps of a task's life.
use fastedgy.Prelude.{ℕ, ◌≡◌, Bool, true, false, none, String, List, arith}
use fastedgy.QueuedTask.{enqueued, doing, QueuedTask, is_finished, is_active}
use fastedgy.Queue.{
  QueuedTaskWorker, is_null, set_claimed, release, recover_own, recover_ownerless, reap_dead_owner,
  resume_stopped, reap_retry, reap_fail,
}
use fastedgy.Queue.Cascade.{cascade_row, is_cascaded, set_cascaded, is_open}
use fastedgy.Queue.Orphans.{ending_of}
use fastedgy.QueueWorker.{Failure, mark_done, mark_stopped, retry_enqueue, mark_failed}

-- The statements that the manager and the workers run on a row that was claimed, or that waits to be.
pub data RowStep : Type 0 where
  releases : RowStep
  recovers_own : String → RowStep
  recovers_ownerless : RowStep
  reaps_dead_owner : ℕ → List QueuedTaskWorker → RowStep
  resumes_stopped : ℕ → List QueuedTaskWorker → RowStep
  reaps_retry : ℕ → ℕ → ℕ → RowStep
  reaps_fail : ℕ → ℕ → ℕ → String → RowStep
  marks_done : ℕ → RowStep
  marks_stopped : ℕ → RowStep
  enqueues_retry : ℕ → ℕ → RowStep
  marks_failed : ℕ → Failure → RowStep
  cascades : ℕ → (QueuedTask → String × String) → QueuedTask → List ℕ → RowStep

pub apply : RowStep → QueuedTask → QueuedTask
apply releases t = release t
apply (recovers_own server) t = recover_own server t
apply recovers_ownerless t = recover_ownerless t
apply (reaps_dead_owner now workers) t = reap_dead_owner now workers t
apply (resumes_stopped now workers) t = resume_stopped now workers t
apply (reaps_retry now after default_max) t = reap_retry now after default_max t
apply (reaps_fail now after default_max message) t = reap_fail now after default_max message t
apply (marks_done now) t = mark_done now t
apply (marks_stopped now) t = mark_stopped now t
apply (enqueues_retry now delay) t = retry_enqueue now delay t
apply (marks_failed now e) t = mark_failed now e t
apply (cascades now texts parent ids) t = cascade_row now (ending_of texts parent) ids t

-- A running task has an owner; a task that waits in the queue has none, and no start date.
pub record IsOwned (t : QueuedTask) : Type 0 where
  pub running : t.state ≡ doing → is_null t.claimed_by ≡ false
  pub waits_unowned : t.state ≡ enqueued → t.claimed_by ≡ none
  pub waits_unstarted : t.state ≡ enqueued → t.date_started ≡ none

set_claimed-IsOwned :
    (server : String) (now : ℕ) (t : QueuedTask) → IsOwned (set_claimed server now t)
set_claimed-IsOwned server now t = ground arith

-- No statement leaves a running task without an owner, or a waiting one with an owner or a start
-- date.
pub apply-IsOwned : (s : RowStep) (t : QueuedTask) → IsOwned t → IsOwned (apply s t)
unfolding apply release recover_own recover_ownerless reap_dead_owner resume_stopped reap_retry
    reap_fail mark_done mark_stopped retry_enqueue mark_failed cascade_row is_cascaded set_cascaded
    is_open ending_of
apply-IsOwned releases t h = ground arith
apply-IsOwned _ t h = ground arith

-- A task that is done, failed or cancelled stays as it is, whichever statement comes late for it.
pub apply-is_finished : (s : RowStep) (t : QueuedTask) → is_finished t.state ≡ true → apply s t ≡ t
unfolding apply release recover_own recover_ownerless reap_dead_owner resume_stopped reap_retry
    reap_fail mark_done mark_stopped retry_enqueue mark_failed is_finished cascade_row is_cascaded
    is_open
apply-is_finished releases t h = ground arith
apply-is_finished _ t h = ground arith

-- A statement that takes a task up again that had come to rest.
abbrev pub resumes : RowStep → Bool
resumes (resumes_stopped now workers) = true
resumes _ = false

pub apply-is_active :
    (s : RowStep) (t : QueuedTask)
    → resumes s ≡ false
    → is_active (apply s t).state ≡ true
    → is_active t.state ≡ true
unfolding apply release recover_own recover_ownerless reap_dead_owner resume_stopped reap_retry
    reap_fail mark_done mark_stopped retry_enqueue mark_failed is_active cascade_row is_cascaded
    set_cascaded is_open ending_of
apply-is_active releases t h k = ground arith
apply-is_active _ t h k = ground arith

pub apply-name : (s : RowStep) (t : QueuedTask) → (apply s t).name ≡ t.name
unfolding apply release recover_own recover_ownerless reap_dead_owner resume_stopped reap_retry
    reap_fail mark_done mark_stopped retry_enqueue mark_failed cascade_row is_cascaded set_cascaded
    is_open ending_of
apply-name releases t = ground arith
apply-name _ t = ground arith
