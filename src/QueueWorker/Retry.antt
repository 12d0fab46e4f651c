-- ===== src/QueueWorker/Retry.antt =====
-- How often a task that keeps failing runs.
use fastedgy.Prelude.{
  refl, ◌∙◌, ◌⊎◌, inl, inr, if◌then◌else◌, ℕ, suc, ◌+◌, ◌≤◌, ◌<◌, ◌≡◌, ap, true, false, String,
  List, [], ◌∷◌, All, length, arith,
}
use fastedgy.QueuedTask.{enqueued, failed, QueuedTask, is_enqueued}
use fastedgy.Queue.{coalesce, set_claimed}
use fastedgy.QueueWorker.{Failure, Writes, fail_run}

abbrev written : Writes
written = record { first = true; second = true }

-- A claim, and a run that raises.
pub record Attempt : Type 0 where
  pub server : String
  pub started : ℕ
  pub ended : ℕ
  pub failure : Failure

-- A claim takes only a row that is enqueued.
pub attempt : ℕ → Attempt → QueuedTask → QueuedTask
attempt default_max a t =
    let claimed = set_claimed a.server a.started t in
    if is_enqueued t.state
    then (fail_run default_max a.ended written a.failure claimed claimed).1
    else t

pub attempts : ℕ → List Attempt → QueuedTask → QueuedTask
attempts default_max [] t = t
attempts default_max (a ∷ as') t = attempts default_max as' (attempt default_max a t)

lt_or_eq : (m n : ℕ) → m ≤ n → (m < n) ⊎ (m ≡ n)
lt_or_eq m n h = ground arith

module _ (default_max : ℕ) where
  -- The runs that a task may still fail without failing for good.
  abbrev pub budget_of : QueuedTask → ℕ
  budget_of t = coalesce t.max_retries default_max

  attempt-within :
      (a : Attempt) (t : QueuedTask)
      → a.failure.is_timeout ≡ false
      → t.state ≡ enqueued
      → t.retry_count < budget_of t
      → let r = attempt default_max a t in
        (r.state ≡ enqueued) × (r.retry_count ≡ suc t.retry_count) × (r.max_retries ≡ t.max_retries)
  unfolding attempt fail_run
  attempt-within a t h e lt = ground arith

  attempt-past :
      (a : Attempt) (t : QueuedTask)
      → a.failure.is_timeout ≡ false
      → t.state ≡ enqueued
      → budget_of t ≤ t.retry_count
      → let r = attempt default_max a t in (r.state ≡ failed) × (r.retry_count ≡ t.retry_count)
  unfolding attempt fail_run
  attempt-past a t h e le = ground arith

  attempt-stays : (a : Attempt) (t : QueuedTask) → t.state ≡ failed → attempt default_max a t ≡ t
  unfolding attempt
  attempt-stays a t e = rw e refl

  attempts-stay :
      (as' : List Attempt) (t : QueuedTask) → t.state ≡ failed → attempts default_max as' t ≡ t
  unfolding attempts
  attempts-stay [] t e = refl
  attempts-stay (a ∷ as') t e =
      ap (attempts default_max as') (attempt-stays a t e) ∙ attempts-stay as' t e

  abbrev pub NoTimeout : List Attempt → Type 0
  NoTimeout as' = All (λ a. a.failure.is_timeout ≡ false) as'

  -- While no more attempts than the budget still grants.
  abbrev pub IsRetried : ℕ → QueuedTask → QueuedTask → Type 0
  IsRetried n t r = (r.state ≡ enqueued) × (r.retry_count ≡ t.retry_count + n)

  -- After more attempts than the budget still grants.
  abbrev pub IsGivenUp : QueuedTask → QueuedTask → Type 0
  IsGivenUp t r = (r.state ≡ failed) × (r.retry_count ≡ budget_of t)

  attempts-within :
      (as' : List Attempt) (t : QueuedTask)
      → NoTimeout as'
      → t.state ≡ enqueued
      → t.retry_count + length as' ≤ budget_of t
      → IsRetried (length as') t (attempts default_max as' t)
  unfolding attempts
  attempts-within [] t n e le = (e, omega arith)
  attempts-within (a ∷ as') t n e le =
      let one = attempt-within a t n.0 e (omega arith) in
      let budget_kept : budget_of (attempt default_max a t) ≡ budget_of t =
        ap (λ m. coalesce m default_max) one.2 in
      let rest = attempts-within as' (attempt default_max a t) n.1 one.0 (omega arith) in
      (rest.0, omega (arith))

  attempts-past :
      (as' : List Attempt) (t : QueuedTask)
      → NoTimeout as'
      → t.state ≡ enqueued
      → t.retry_count ≤ budget_of t
      → budget_of t < t.retry_count + length as'
      → IsGivenUp t (attempts default_max as' t)
  unfolding attempts
  attempts-past [] t n e le lt = absurd (omega arith)
  attempts-past (a ∷ as') t n e le lt = elim (lt_or_eq t.retry_count (budget_of t) le) [
    | inl more ↦
        let one = attempt-within a t n.0 e more in
        let budget_kept : budget_of (attempt default_max a t) ≡ budget_of t =
          ap (λ m. coalesce m default_max) one.2 in
        let rest =
          attempts-past as' (attempt default_max a t) n.1 one.0 (omega arith) (omega arith) in
        (rest.0, rest.1 ∙ budget_kept)
    | inr last ↦
        let one = attempt-past a t n.0 e (omega arith) in
        let kept = attempts-stay as' (attempt default_max a t) one.0 in
        (
          ap (λ (x : QueuedTask). x.state) kept ∙ one.0,
          ap (λ (x : QueuedTask). x.retry_count) kept ∙ (one.1 ∙ last),
        )
  ]

  -- An enqueued task is claimed and run again and again, and each run raises, none by a timeout. As
  -- long as no more runs have failed than its budget still grants, it is enqueued with each of them
  -- counted. From the next run on it has failed for good, with the budget as its count; no claim takes
  -- it any more.
  pub attempts-failed :
      (as' : List Attempt) (t : QueuedTask)
      → NoTimeout as'
      → t.state ≡ enqueued
      → t.retry_count ≤ budget_of t
      → (t.retry_count + length as' ≤ budget_of t
          → IsRetried (length as') t (attempts default_max as' t))
        × (budget_of t < t.retry_count + length as' → IsGivenUp t (attempts default_max as' t))
  attempts-failed as' t n e le = (attempts-within as' t n e, attempts-past as' t n e le)
