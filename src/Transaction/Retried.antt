-- ===== src/Transaction/Retried.antt =====
-- What a retried transaction leaves behind.
use fastedgy.Prelude.{
  ◌∙◌, ◌⊎◌, Bool, String, not, ℕ, zero, suc, ◌+◌, ◌≤◌, ◌<◌, ◌≡◌, ◌≢◌, refl, ap, sym, true, false,
  Option, none, some, ◌++◌, ◌==◌, arith, Bool-cases, inl, inr,
}
use fastedgy.Prelude.Any.{any-none, any-member}
use mathlib.Core.List.{Memᴰ}
use mathlib.Core.Path.{subst}
use text.Mathlib.Text.{◌==◌ as str_eq}
use native.Mathlib.Numerals.{add-one}
use fastedgy.Transaction.{
  Error, is_serialization_error, is_disconnect_error, Ended, value_error, ended, isolation_levels,
  is_invalid_level, Outcome, returned, raised, Attempt, Session, gives_up, tried, after_run,
  run_attempts, with_transaction,
}

-- The run was rolled back by a conflict that replaying may resolve.
abbrev pub IsConflict : {V : Type 0} → Outcome V → Type 0
IsConflict o =
    (e : Error) × (o ≡ raised e) × (e.is_dbapi ≡ true) × (is_serialization_error e ≡ true)

-- What the database documents of a run that raised: a conflict was rolled back, and only a run that
-- lost its connection may have been applied.
abbrev pub IsDocumented :
    {V Write Context Callback : Type 0} → Attempt V Write Context Callback → Type 0
IsDocumented a =
    (e : Error)
    → a.outcome ≡ raised e
    → (a.applied ≡ false) ⊎ ((is_disconnect_error e ≡ true) × (is_serialization_error e ≡ false))

not-true : (b : Bool) → not b ≡ true → b ≡ false
not-true b h = ground arith

not-false : (b : Bool) → not b ≡ false → b ≡ true
not-false b h = ground arith

some-injective : {j l : String} → some j ≡ some l → j ≡ l
some-injective e = cc

module _ {V Write Context Callback : Type 0} where
  -- What the last run leaves: all it wrote and deferred where it returned. Where it raised nothing it
  -- deferred has run, and nothing it wrote stays, or all of it where the connection was lost.
  abbrev pub Leaves :
      ℕ
      → ℕ
      → Session Write Context Callback
      → Attempt V Write Context Callback
      → Outcome V
      → Session Write Context Callback
      → Type 0
  Leaves retries n s a (returned v) s' =
      (s'.committed ≡ s.committed ++ a.writes)
      × (s'.ran ≡ s.ran ++ a.deferred)
      × (s'.context ≡ a.context)
  Leaves retries n s a (raised e) s' =
      (gives_up retries n e ≡ true)
      × ((s'.committed ≡ s.committed)
          ⊎ ((is_disconnect_error e ≡ true) × (s'.committed ≡ s.committed ++ a.writes)))
      × (s'.ran ≡ s.ran)
      × (s'.context ≡ a.context)

  module _ (factory : ℕ → Context → Attempt V Write Context Callback) (retries : ℕ)
      (documented : (n : ℕ) (c : Context) → IsDocumented (factory n c)) where
    -- The call ends with its `n`-th run, counted from `first`.
    abbrev pub EndsWith :
        ℕ
        → Session Write Context Callback
        → Option (Outcome V) × Session Write Context Callback
        → ℕ
        → Type 0
    EndsWith first s r n =
        (first ≤ n)
        × (n ≤ retries)
        × ((k : ℕ) → first ≤ k → k < n → IsConflict (factory k s.context).outcome)
        × (r.0 ≡ some (factory n s.context).outcome)
        × (r.1.tries + first ≡ s.tries + n + 1)
        × Leaves retries n s (factory n s.context) (factory n s.context).outcome r.1

    conflict :
        (n : ℕ) (e : Error) (o : Outcome V)
        → o ≡ raised e
        → gives_up retries n e ≡ false
        → IsConflict o
    unfolding gives_up
    conflict n e o p h = (e, p, ground arith, ground arith)

    earlier :
        (first n : ℕ) (c : Context)
        → IsConflict (factory first c).outcome
        → ((k : ℕ) → suc first ≤ k → k < n → IsConflict (factory k c).outcome)
        → (k : ℕ) → first ≤ k
        → k < n
        → IsConflict (factory k c).outcome
    earlier first n c h rest k le lt = elim (Bool-cases (k == first)) [
      | inl same ↦ let e : k ≡ first = ground arith in rw e h
      | inr other ↦ rest k (ground arith) lt
    ]

    gave_up_last : (e : Error) → gives_up retries retries e ≡ true
    unfolding gives_up
    gave_up_last e = ground arith

    raised-Leaves :
        (first : ℕ) (s : Session Write Context Callback) (x : Error)
        → (factory first s.context).outcome ≡ raised x
        → gives_up retries first x ≡ true
        → Leaves retries first s
            (factory first s.context)
            (raised x)
            (tried s (factory first s.context))
    raised-Leaves first s x e stop = elim (documented first s.context x e) [
      | inl n ↦ (stop, inl (rw n refl), refl, refl)
      | inr (lost, c) ↦ elim (Bool-cases (factory first s.context).applied) [
        | inl y ↦ (stop, inr (lost, rw y refl), refl, refl)
        | inr n ↦ (stop, inl (rw n refl), refl, refl)
      ]
    ]

    -- A conflict was rolled back.
    conflict-committed :
        (n : ℕ) (s : Session Write Context Callback)
        → IsConflict (factory n s.context).outcome
        → (tried s (factory n s.context)).committed ≡ s.committed
    conflict-committed n s (x, e, d, c) = elim (documented n s.context x e) [
      | inl no_trace ↦ rw no_trace refl
      | inr (lost, other) ↦ ground arith
    ]

    -- The first round decides, or the rounds behind it do.
    round :
        (first : ℕ) (s : Session Write Context Callback)
        (replay : Option (Outcome V) × Session Write Context Callback) (o : Outcome V)
        → first ≤ retries
        → (factory first s.context).outcome ≡ o
        → ((e : Error)
            → gives_up retries first e ≡ false
            → IsConflict o
            → (n : ℕ) × EndsWith first s replay n)
        → (n : ℕ) × EndsWith first s
            (after_run retries first s (factory first s.context) o replay)
            n
    unfolding after_run
    round first s replay (returned v) le e more = (
      first,
      (
        omega arith,
        le,
        λ k h lt. absurd (omega arith),
        ap some (sym e),
        omega arith,
        rw e (refl, refl, refl),
      ),
    )
    round first s replay (raised x) le e more = elim (Bool-cases (gives_up retries first x)) [
      | inl stop ↦ rw stop (
        first,
        (
          omega arith,
          le,
          λ k h lt. absurd (omega arith),
          ap some (sym e),
          omega arith,
          rw e (raised-Leaves first s x e stop),
        ),
      )
      | inr go ↦ rw go (more x go (conflict first x (raised x) refl go))
    ]

    not_last : (first : ℕ) (e : Error) → gives_up retries first e ≡ false → first ≢ retries
    unfolding gives_up
    not_last first e h = ground arith

    -- What the rounds from the next one on leave is what the rounds from `first` on leave.
    shift :
        (first : ℕ) (s : Session Write Context Callback)
        (r : Option (Outcome V) × Session Write Context Callback) (n : ℕ)
        → IsConflict (factory first s.context).outcome
        → EndsWith
            (first + 1)
            (record (tried s (factory first s.context)) { context = s.context })
            r
            n
        → EndsWith first s r n
    shift first s r n h e = (
      omega arith,
      e.1,
      earlier first n s.context h (λ k le lt. e.2 k (omega arith) lt),
      e.3,
      omega arith,
      leaves (factory n s.context).outcome e.5,
    )
      where
        kept : (tried s (factory first s.context)).committed ≡ s.committed
        kept = conflict-committed first s h

        leaves :
            (o : Outcome V)
            → Leaves retries n
                (record (tried s (factory first s.context)) { context = s.context })
                (factory n s.context)
                o
                r.1
            → Leaves retries n s (factory n s.context) o r.1
        leaves (returned v) l = (l.0 ∙ ap (λ ws. ws ++ (factory n s.context).writes) kept, l.1, l.2)
        leaves (raised x) (g, c, ran, left) = (
          g,
          elim c [
            | inl none_left ↦ inl (none_left ∙ kept)
            | inr (lost, all) ↦ inr (lost, all ∙ ap (λ ws. ws ++ (factory n s.context).writes) kept)
          ],
          ran,
          left,
        )

    rounds :
        (left first : ℕ) (s : Session Write Context Callback)
        → left + first ≡ retries
        → (n : ℕ) × EndsWith first s (run_attempts factory retries s.context (suc left) first s) n
    unfolding run_attempts
    rounds zero first s l =
        round first s _ (factory first s.context).outcome (omega arith) refl
          (λ e go h. absurd (not_last first e go (omega arith)))
    rounds (suc left) first s l =
        round first s _ (factory first s.context).outcome (omega arith) refl (λ e go h.
          let s' = record (tried s (factory first s.context)) { context = s.context } in
          let (n, ends) = rounds left (first + 1) s' (omega arith) in (n, shift first s _ n h ends))

    -- How a call ends: by a ValueError before any run just where the level of isolation is not one of
    -- those it knows, or with a run.
    abbrev pub Settles :
        (String → String)
        → Option String
        → Session Write Context Callback
        → Ended V × Session Write Context Callback
        → Type 0
    Settles upper level s (value_error, s') =
        (l : String) × (level ≡ some l)
        × ((k : String) → Memᴰ k isolation_levels → str_eq (upper l) k ≡ false)
        × (s' ≡ s)
    Settles upper level s (ended o, s') =
        ((l : String)
          → level ≡ some l
          → (k : String) × Memᴰ k isolation_levels × (str_eq (upper l) k ≡ true))
        × (n : ℕ) × EndsWith 0 s (o, s') n

    refused-level :
        (upper : String → String) (level : Option String) (s : Session Write Context Callback)
        → is_invalid_level upper level ≡ true
        → Settles upper level s (value_error, s)
    unfolding is_invalid_level
    refused-level upper none s h = ground arith
    refused-level upper (some l) s h =
        (l, refl, (λ k m. any-none (str_eq (upper l)) k isolation_levels (not-true _ h) m), refl)

    allowed-level :
        (upper : String → String) (level : Option String)
        → is_invalid_level upper level ≡ false
        → (l : String) → level ≡ some l
        → (k : String) × Memᴰ k isolation_levels × (str_eq (upper l) k ≡ true)
    unfolding is_invalid_level
    allowed-level upper none h l e = ground arith
    allowed-level upper (some j) h l e =
        subst (λ x. (k : String) × Memᴰ k isolation_levels × (str_eq (upper x) k ≡ true))
          (some-injective e) (any-member (str_eq (upper j)) isolation_levels (not-false _ h))

    -- Where the database does what it documents, a transaction called outside any other raises a
    -- ValueError before any run just where it asks for an unknown level of isolation. Else it ends,
    -- after at most `retries + 1` runs of the factory, with the outcome of its last run: all the runs
    -- before it met a conflict, and each started in the context of the call. Where the last run
    -- returned, just what it wrote is committed and just what it deferred has run, in order. Where it
    -- raised, because it was the last one allowed or met no conflict, nothing deferred has run, and
    -- nothing is committed, or all that this run wrote where it lost the connection.
    pub with_transaction-EndsWith :
        (upper : String → String) (level : Option String) (s : Session Write Context Callback)
        → Settles upper level s (with_transaction factory retries upper level s)
    unfolding with_transaction
    with_transaction-EndsWith upper level s = elim (Bool-cases (is_invalid_level upper level)) [
      | inl y ↦ rw y (refused-level upper level s y)
      | inr n ↦
          let (last, ends) = rounds retries 0 s (omega arith) in
          rw n (rw (add-one retries) (allowed-level upper level n, last, ends))
    ]
