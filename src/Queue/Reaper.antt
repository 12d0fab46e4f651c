-- ===== src/Queue/Reaper.antt =====
-- What a round of the reaper leaves behind.
use fastedgy.Prelude.{ℕ, ◌≡◌, Bool, false, ◌&&◌, ◌||◌, String, List, arith, not}
use fastedgy.QueuedTask.{QueuedTask, is_doing}
use fastedgy.Queue.{
  QueuedTaskWorker, is_stopped, is_null, owner_alive, is_stale, stale_after_of, reap_dead_owner,
  resume_stopped, reap_retry, reap_fail, reap,
}

-- A run that nobody will end: its owner no longer beats, or it started longer ago than a run may
-- take.
abbrev pub is_stuck : ℕ → List QueuedTaskWorker → ℕ → QueuedTask → Bool
is_stuck now workers task_timeout t =
    is_doing t.state
    && (not (is_null t.claimed_by) && not (owner_alive now workers t.claimed_by)
        || is_stale now (stale_after_of task_timeout) t.date_started)

-- A stopped task that asked to be resumed, with nobody left to resume it.
abbrev pub awaits_resume : ℕ → List QueuedTaskWorker → QueuedTask → Bool
awaits_resume now workers t =
    is_stopped t.state
    && t.resume_requested
    && (is_null t.claimed_by || not (owner_alive now workers t.claimed_by))

module _ (now : ℕ) (workers : List QueuedTaskWorker) (default_max : ℕ) where
  dead_owner_gone :
      (t : QueuedTask)
      → let r = reap_dead_owner now workers t in
        is_doing r.state
          && (not (is_null r.claimed_by) && not (owner_alive now workers r.claimed_by))
        ≡ false
  unfolding reap_dead_owner
  dead_owner_gone t = ground arith

  -- The later passes start no run.
  still_gone :
      (after : ℕ) (message : String) (t : QueuedTask)
      → is_doing t.state
          && (not (is_null t.claimed_by) && not (owner_alive now workers t.claimed_by))
        ≡ false
      → let r =
          reap_fail now after default_max message
            (reap_retry now after default_max (resume_stopped now workers t)) in
        is_doing r.state
          && (not (is_null r.claimed_by) && not (owner_alive now workers r.claimed_by))
        ≡ false
  unfolding resume_stopped reap_retry reap_fail
  still_gone after message t h = ground arith

  stale_gone :
      (after : ℕ) (message : String) (t : QueuedTask)
      → let r = reap_fail now after default_max message (reap_retry now after default_max t) in
        is_doing r.state && is_stale now after r.date_started ≡ false
  unfolding reap_retry reap_fail
  stale_gone after message t = ground arith

  resumed :
      (after : ℕ) (message : String) (t : QueuedTask)
      → let r =
          reap_fail now after default_max message
            (reap_retry now after default_max (resume_stopped now workers t)) in
        awaits_resume now workers r ≡ false
  unfolding resume_stopped reap_retry reap_fail
  resumed after message t = ground arith

  -- After a round of the reaper no run is stuck: each that was going on has an owner that beats, or
  -- none recorded, and is no older than twice the task timeout. And no stopped task still waits to
  -- be resumed without an owner that beats.
  pub reap-unstuck :
      (task_timeout : ℕ) (message : String) (t : QueuedTask)
      → let r = reap now workers task_timeout default_max message t in
        (is_stuck now workers task_timeout r ≡ false) × (awaits_resume now workers r ≡ false)
  unfolding reap
  reap-unstuck task_timeout message t =
      let after = stale_after_of task_timeout in
      let s = reap_dead_owner now workers t in
      (
        ground (
          arith,
          still_gone after message s (dead_owner_gone t),
          stale_gone after message (resume_stopped now workers s),
        ),
        resumed after message s,
      )
