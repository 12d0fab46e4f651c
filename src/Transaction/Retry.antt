-- ===== src/Transaction/Retry.antt =====
-- fastedgy/orm/transaction.py: retry_on_serialization, which replays an operation that manages its
-- own transactions. The operation is a parameter: its n-th run, on what the runs before it left.
use fastedgy.Prelude.{
  ℕ, zero, suc, ◌+◌, ◌-◌, ◌<◌, ◌≡◌, ◌≢◌, refl, ap, sym, ◌∙◌, Bool, true, false, ◌||◌, ◌&&◌, Option,
  none, some, ◌==◌, not, if◌then◌else◌, arith, Bool-cases, inl, inr,
}
use mathlib.Core.Path.{subst}
use fastedgy.Transaction.{
  Error, is_serialization_error, is_disconnect_error, Outcome, returned, raised,
}

unfoldable pub is_retryable : Bool → Error → Bool
is_retryable retry_on_disconnect e =
    is_serialization_error e || retry_on_disconnect && is_disconnect_error e

-- `not retryable or attempt == max_attempts - 1`, behind `except DBAPIError`.
unfoldable pub stops : Bool → ℕ → ℕ → Error → Bool
unfolding is_retryable
stops retry_on_disconnect max_attempts attempt e =
    not e.is_dbapi || not (is_retryable retry_on_disconnect e) || attempt == max_attempts - 1

module _ {V Store : Type 0} (op : ℕ → Store → Outcome V × Store) (retry_on_disconnect : Bool)
    (max_attempts : ℕ) where
  -- How a round ends: by the run, or by the rounds behind it.
  end_round : ℕ → Outcome V → Store → Option (Outcome V) × Store → Option (Outcome V) × Store
  unfolding stops
  end_round attempt (returned v) store replay = (some (returned v), store)
  end_round attempt (raised e) store replay =
      if stops retry_on_disconnect max_attempts attempt e then (some (raised e), store) else replay

  -- The loop. `left` counts the rounds of `range(max_attempts)` that are left; `none` is the
  -- `AssertionError` behind the loop.
  retry_rounds : ℕ → ℕ → Store → Option (Outcome V) × Store
  unfolding end_round
  retry_rounds zero attempt store = (none, store)
  retry_rounds (suc left) attempt store =
      let (outcome, after) = op attempt store in
      let replay = retry_rounds left (attempt + 1) after in end_round attempt outcome after replay

  unfoldable pub retry_on_serialization : Store → Option (Outcome V) × Store
  unfolding retry_rounds
  retry_on_serialization store = retry_rounds max_attempts 0 store

  -- The `n`-th run from the run `first` on: its outcome, and what it leaves.
  pub run : ℕ → ℕ → Store → Outcome V × Store
  run first zero s = op first s
  run first (suc n) s = run (first + 1) n (op first s).1

  -- The run was ended by an error that is replayed.
  abbrev pub IsReplayed : Outcome V → Type 0
  IsReplayed o =
      (e : Error) × (o ≡ raised e)
      × (e.is_dbapi ≡ true)
      × (is_retryable retry_on_disconnect e ≡ true)

  -- The rounds from `first` on end with the `n`-th of them: its outcome and what it leaves are the
  -- call's, all before it are replayed, and it is not to be replayed or is the last one allowed.
  abbrev pub EndsAfter : ℕ → Store → Option (Outcome V) × Store → ℕ → Type 0
  EndsAfter first s r n =
      (first + n < max_attempts)
      × ((k : ℕ) → k < n → IsReplayed (run first k s).0)
      × (r.0 ≡ some (run first n s).0)
      × (r.1 ≡ (run first n s).1)
      × (IsReplayed (run first n s).0 → first + n + 1 ≡ max_attempts)

  stops-last :
      (first : ℕ) (e : Error)
      → stops retry_on_disconnect max_attempts first e ≡ true
      → (e.is_dbapi ≡ true)
      → (is_retryable retry_on_disconnect e ≡ true)
      → first < max_attempts
      → first + 1 ≡ max_attempts
  unfolding stops
  stops-last first e h d r lt = ground arith

  goes_on :
      (first : ℕ) (e : Error)
      → stops retry_on_disconnect max_attempts first e ≡ false
      → (e.is_dbapi ≡ true)
        × (is_retryable retry_on_disconnect e ≡ true)
        × (first + 1 ≢ max_attempts)
  unfolding stops
  goes_on first e h = (ground arith, ground arith, λ l. ground arith)

  last_error :
      (first : ℕ) (e : Error) (o : Outcome V)
      → o ≡ raised e
      → stops retry_on_disconnect max_attempts first e ≡ true
      → first < max_attempts
      → IsReplayed o
      → first + 1 ≡ max_attempts
  last_error first e o p h lt (e', q, d, r) =
      let same : e' ≡ e = cc in
      stops-last first e h (ap (λ x. x.is_dbapi) (sym same) ∙ d)
        (ap (is_retryable retry_on_disconnect) (sym same) ∙ r) lt

  earlier :
      (first : ℕ) (s : Store) (n : ℕ)
      → IsReplayed (op first s).0
      → ((k : ℕ) → k < n → IsReplayed (run (first + 1) k (op first s).1).0)
      → (k : ℕ) → k < suc n
      → IsReplayed (run first k s).0
  unfolding run
  earlier first s n h before zero lt = h
  earlier first s n h before (suc k) lt = before k (omega arith)

  round :
      (first : ℕ) (s : Store) (replay : Option (Outcome V) × Store) (o : Outcome V)
      → first < max_attempts
      → (op first s).0 ≡ o
      → ((first + 1 ≢ max_attempts) → (n : ℕ) × EndsAfter (first + 1) (op first s).1 replay n)
      → (n : ℕ) × EndsAfter first s (end_round first o (op first s).1 replay) n
  unfolding end_round run
  round first s replay (returned v) lt p more =
      (0, (omega arith, λ k h. absurd (omega arith), ap some (sym p), refl, λ (e, q, d, h). cc))
  round first s replay (raised e) lt p more =
      elim (Bool-cases (stops retry_on_disconnect max_attempts first e)) [
        | inl stop ↦ rw stop (
          0,
          (
            omega arith,
            λ k h. absurd (omega arith),
            ap some (sym p),
            refl,
            λ h. omega (arith, last_error first e _ p stop lt h),
          ),
        )
        | inr go ↦
            let (d, r, l) = goes_on first e go in
            let (n, (below, before, value, store, last)) = more l in
            rw go (
              suc n,
              (
                omega arith,
                earlier first s n (e, p, d, r) before,
                value,
                store,
                λ h. omega (arith, last h),
              ),
            )
      ]

  rounds :
      (left first : ℕ) (s : Store)
      → suc left + first ≡ max_attempts
      → (n : ℕ) × EndsAfter first s (retry_rounds (suc left) first s) n
  unfolding retry_rounds
  rounds zero first s l =
      round first s _ (op first s).0 (omega arith) refl (λ h. absurd (h (omega arith)))
  rounds (suc left) first s l =
      round first s _ (op first s).0 (omega arith) refl
        (λ h. rounds left (first + 1) (op first s).1 (omega arith))

  -- With at least one attempt the call ends, within `max_attempts` runs, with the outcome of its last
  -- run and what that run leaves. The runs before it were all ended by an error that is replayed, and
  -- the last one is ended by such an error only where no attempt is left.
  pub retry_on_serialization-EndsAfter :
      (s : Store) → 0 < max_attempts → (n : ℕ) × EndsAfter 0 s (retry_on_serialization s) n
  unfolding retry_on_serialization
  retry_on_serialization-EndsAfter s h =
      let left : suc (max_attempts - 1) ≡ max_attempts = omega arith in
      subst (λ m. (n : ℕ) × EndsAfter 0 s (retry_rounds m 0 s) n) left
        (rounds (max_attempts - 1) 0 s (omega arith))
