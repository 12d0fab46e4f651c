-- ===== src/Queue/Purge.antt =====
-- `_purge_expired_tasks` of fastedgy/queued_task/services/queue_worker_manager.py. `touched` is
-- COALESCE(updated_at, created_at) of a row; `clock` is the monotonic clock in seconds.
use fastedgy.Prelude.{
  ap, ==_iff, ◌<◌, ◌≤◌, ℕ, ◌+◌, ◌*◌, ◌≡◌, refl, sym, Bool, true, false, ◌&&◌, ◌||◌, Option, none,
  some, List, [], ◌∷◌, any, filter, if◌then◌else◌, ◌==◌, ltb, not, ◌⊎◌, inl, inr, Bool-cases, arith,
}
use fastedgy.Prelude.Any.{none-any}
use mathlib.Core.List.{Memᴰ}
use mathlib.Core.Path.{subst}
use fastedgy.QueuedTask.{
  QueuedTask, QueuedTaskState, is_finished, enqueued, waiting, doing, stopped, done, failed,
  cancelled,
}
use fastedgy.Queue.{is_stopped, seconds, coalesce}
use fastedgy.Queue.Cascade.{has_parent}

-- `t.state IN ('done', 'failed', 'cancelled', 'stopped')`
unfoldable pub is_terminal : QueuedTaskState → Bool
unfolding is_finished
is_terminal s = is_finished s || is_stopped s

abbrev pub days : ℕ → ℕ
days n = seconds (n * 86_400)

-- `NOT EXISTS (SELECT 1 FROM queued_tasks c WHERE c.parent_task = t.id)` fails.
unfoldable pub has_children : List QueuedTask → ℕ → Bool
has_children rows i = any (λ c. has_parent i c.parent_task) rows

-- The rows that the statement deletes.
unfoldable pub is_expired : ℕ → ℕ → (QueuedTask → ℕ) → List QueuedTask → QueuedTask → Bool
unfolding is_terminal has_children
is_expired now retention_days touched rows t =
    is_terminal t.state
    && (ltb (coalesce t.date_ended (touched t) + days retention_days) now
        && not (has_children rows t.id))

-- `self._last_retention_purge is not None and now - self._last_retention_purge < 3600`
abbrev pub is_recent : ℕ → Option ℕ → Bool
is_recent clock none = false
is_recent clock (some last) = ltb clock (last + 3600)

-- The table and `_last_retention_purge` after the call.
unfoldable pub purge_expired_tasks :
    ℕ → ℕ → ℕ → (QueuedTask → ℕ) → Option ℕ × List QueuedTask → Option ℕ × List QueuedTask
purge_expired_tasks retention_days clock now touched (last, rows) =
    if retention_days == 0
    then (last, rows)
    else if is_recent clock last
    then (last, rows)
    else (some clock, filter (λ t. not (is_expired now retention_days touched rows t)) rows)

pub filter-keeps :
    (keep : QueuedTask → Bool) (t : QueuedTask) (rows : List QueuedTask)
    → Memᴰ t rows
    → keep t ≡ true
    → Memᴰ t (filter keep rows)
filter-keeps keep t [] m h = elim m [ ]
filter-keeps keep t (u ∷ us) (Memᴰ.head e) h = rw (subst (λ x. keep x ≡ true) e h) (Memᴰ.head e)
filter-keeps keep t (u ∷ us) (Memᴰ.tail m) h = elim (Bool-cases (keep u)) [
  | inl y ↦ rw y (Memᴰ.tail (filter-keeps keep t us m h))
  | inr n ↦ rw n (filter-keeps keep t us m h)
]

-- What is in the table and passes.
abbrev pub IsKept : (QueuedTask → Bool) → List QueuedTask → QueuedTask → Type 0
IsKept keep rows t = Memᴰ t rows × (keep t ≡ true)

IsKept-behind :
    (keep : QueuedTask → Bool) (t u : QueuedTask) (us : List QueuedTask)
    → IsKept keep us t
    → IsKept keep (u ∷ us) t
IsKept-behind keep t u us (m, h) = (Memᴰ.tail m, h)

IsKept-cons :
    (keep : QueuedTask → Bool) (t u : QueuedTask) (us rest : List QueuedTask) (b : Bool)
    → keep u ≡ b
    → (Memᴰ t rest → IsKept keep us t)
    → Memᴰ t (if b then u ∷ rest else rest)
    → IsKept keep (u ∷ us) t
IsKept-cons keep t u us rest true h f (Memᴰ.head e) =
    (Memᴰ.head e, subst (λ x. keep x ≡ true) (sym e) h)
IsKept-cons keep t u us rest true h f (Memᴰ.tail m) = IsKept-behind keep t u us (f m)
IsKept-cons keep t u us rest false h f m = IsKept-behind keep t u us (f m)

pub filter-IsKept :
    (keep : QueuedTask → Bool) (t : QueuedTask) (rows : List QueuedTask)
    → Memᴰ t (filter keep rows)
    → IsKept keep rows t
filter-IsKept keep t [] m = elim m [ ]
filter-IsKept keep t (u ∷ us) m =
    IsKept-cons keep t u us (filter keep us) (keep u) refl (filter-IsKept keep t us) m

pub has_children-of :
    (p : ℕ) (t : QueuedTask) (rows : List QueuedTask)
    → Memᴰ t rows
    → t.parent_task ≡ some p
    → has_children rows p ≡ true
unfolding has_children
has_children-of p t [] m h = elim m [ ]
has_children-of p t (u ∷ us) (Memᴰ.head e) h =
    let parent : u.parent_task ≡ some p = subst (λ (x : QueuedTask). x.parent_task ≡ some p) e h in
    ground arith
has_children-of p t (u ∷ us) (Memᴰ.tail m) h = let rest = has_children-of p t us m h in ground arith

other_parent : (p : ℕ) (o : Option ℕ) → ¬ (o ≡ some p) → has_parent p o ≡ false
other_parent p none n = refl
other_parent p (some q) n = elim (Bool-cases (q == p)) [
  | inl y ↦ elim (n (ap some ((==_iff q p).0 y))) [ ]
  | inr other ↦ other
]

pub childless-has_children :
    (rows : List QueuedTask) (p : ℕ)
    → ((c : QueuedTask) → Memᴰ c rows → ¬ (c.parent_task ≡ some p))
    → has_children rows p ≡ false
unfolding has_children
childless-has_children rows p l = none-any _ rows (λ c m. other_parent p c.parent_task (l c m))

-- The purge runs: it is enabled, and its last run was an hour ago or more.
abbrev pub is_due : ℕ → ℕ → Option ℕ → Bool
is_due retention_days clock last = not (retention_days == 0) && not (is_recent clock last)

-- The purge is enabled, and its last run, if any, was an hour ago or more.
abbrev pub PurgeIsDue : ℕ → ℕ → Option ℕ → Type 0
PurgeIsDue retention_days clock none = 0 < retention_days
PurgeIsDue retention_days clock (some last) = (0 < retention_days) × (last + 3600 ≤ clock)

abbrev pub IsEnded : QueuedTaskState → Type 0
IsEnded s = (s ≡ done) ⊎ ((s ≡ failed) ⊎ ((s ≡ cancelled) ⊎ (s ≡ stopped)))

-- The end of the row, or the time it was touched, lies more than that many days back.
abbrev pub IsPast : ℕ → ℕ → Option ℕ → ℕ → Type 0
IsPast now retention_days (some ended) touched = ended + retention_days * 86_400_000_000 < now
IsPast now retention_days none touched = touched + retention_days * 86_400_000_000 < now

-- No row waits for the one with the identifier.
abbrev pub IsLeaf : List QueuedTask → ℕ → Type 0
IsLeaf rows id = (c : QueuedTask) → Memᴰ c rows → ¬ (c.parent_task ≡ some id)

module _ (retention_days now : ℕ) (touched : QueuedTask → ℕ) (rows : List QueuedTask) where
  -- What a purge may delete.
  abbrev pub Expired : QueuedTask → Type 0
  Expired t =
      IsEnded t.state × IsPast now retention_days t.date_ended (touched t) × IsLeaf rows t.id

  -- What a purge does to the table.
  pub record Purges (Due : Type 0) (rows' : List QueuedTask) : Type 0 where
    pub adds_none : (t : QueuedTask) → Memᴰ t rows' → Memᴰ t rows
    pub deletes_expired : (t : QueuedTask) → Memᴰ t rows → Memᴰ t rows' ⊎ (Due × Expired t)
    pub leaves_none : Due → (t : QueuedTask) → Memᴰ t rows' → ¬ Expired t
    pub keeps_parents :
        (t p : QueuedTask) → Memᴰ t rows' → Memᴰ p rows → t.parent_task ≡ some p.id → Memᴰ p rows'

  abbrev expired : QueuedTask → Bool
  expired = is_expired now retention_days touched rows

  abbrev keep : QueuedTask → Bool
  keep t = not (expired t)

  terminal-IsEnded : (s : QueuedTaskState) → is_terminal s ≡ true → IsEnded s
  unfolding is_terminal is_finished
  terminal-IsEnded done h = inl refl
  terminal-IsEnded failed h = inr (inl refl)
  terminal-IsEnded cancelled h = inr (inr (inl refl))
  terminal-IsEnded stopped h = inr (inr (inr refl))
  terminal-IsEnded enqueued h = ground arith
  terminal-IsEnded waiting h = ground arith
  terminal-IsEnded doing h = ground arith

  of-ended : (s : QueuedTaskState) → IsEnded s → is_terminal s ≡ true
  unfolding is_terminal is_finished
  of-ended s (inl e) = rw e refl
  of-ended s (inr (inl e)) = rw e refl
  of-ended s (inr (inr (inl e))) = rw e refl
  of-ended s (inr (inr (inr e))) = rw e refl

  before-IsPast :
      (o : Option ℕ) (n : ℕ)
      → ltb (coalesce o n + days retention_days) now ≡ true
      → IsPast now retention_days o n
  before-IsPast none n h = ground arith
  before-IsPast (some d) n h = ground arith

  of-past :
      (o : Option ℕ) (n : ℕ)
      → IsPast now retention_days o n
      → ltb (coalesce o n + days retention_days) now ≡ true
  of-past none n h = ground arith
  of-past (some d) n h = ground arith

  expired-Expired : (t : QueuedTask) → expired t ≡ true → Expired t
  unfolding is_expired
  expired-Expired t h = (
    terminal-IsEnded t.state (ground arith),
    before-IsPast t.date_ended (touched t) (ground arith),
    (λ c m e. let child = has_children-of t.id c rows m e in ground arith),
  )

  Expired-expired : (t : QueuedTask) → Expired t → expired t ≡ true
  unfolding is_expired
  Expired-expired t (e, p, l) =
      rw (of-ended t.state e)
        (rw (of-past t.date_ended (touched t) p) (rw (childless-has_children rows t.id l) refl))

  due-cases :
      (clock : ℕ) (last : Option ℕ)
      → is_due retention_days clock last ≡ true
      → PurgeIsDue retention_days clock last
  due-cases clock none h = ground arith
  due-cases clock (some l) h = ground arith

  not_due :
      (clock : ℕ) (last : Option ℕ)
      → is_due retention_days clock last ≡ false
      → ¬ PurgeIsDue retention_days clock last
  not_due clock none h = λ d. ground arith
  not_due clock (some l) h = λ d. ground arith

  nothing_due : (Due : Type 0) → ¬ Due → Purges Due rows
  nothing_due Due idle = record {
    adds_none = λ t m. m;
    deletes_expired = λ t m. inl m;
    leaves_none = λ h t m. elim (idle h) [ ];
    keeps_parents = λ t p m k h. k;
  }

  parent_kept : (t p : QueuedTask) → Memᴰ t rows → t.parent_task ≡ some p.id → keep p ≡ true
  unfolding is_expired
  parent_kept t p m h = let child = has_children-of p.id t rows m h in ground arith

  deletes-Purges : (Due : Type 0) → Due → Purges Due (filter keep rows)
  deletes-Purges Due due = record {
    adds_none = λ t m. (filter-IsKept keep t rows m).0;
    deletes_expired = λ t m. elim (Bool-cases (expired t)) [
      | inl y ↦ inr (due, expired-Expired t y)
      | inr n ↦ inl (filter-keeps keep t rows m (rw n refl))
    ];
    leaves_none = λ h t m e.
        let kept = (filter-IsKept keep t rows m).1 in
        let gone = Expired-expired t e in ground arith;
    keeps_parents =
        λ t p m k h. filter-keeps keep p rows k (parent_kept t p (filter-IsKept keep t rows m).0 h);
  }

  -- The purge deletes nothing unless it is enabled and its last run was an hour ago or more. Then it
  -- deletes just the rows that are done, failed, cancelled or stopped, ended longer ago than the
  -- retention and have no child. It adds no row, and no remaining row loses a parent.
  pub purge_expired_tasks-Purges :
      (clock : ℕ) (last : Option ℕ)
      → Purges
          (PurgeIsDue retention_days clock last)
          (purge_expired_tasks retention_days clock now touched (last, rows)).1
  unfolding purge_expired_tasks
  purge_expired_tasks-Purges clock last =
      let Due : Type 0 = PurgeIsDue retention_days clock last in
      elim (Bool-cases (retention_days == 0)) [
        | inl off ↦ rw off (nothing_due Due (not_due clock last (rw off refl)))
        | inr on ↦ elim (Bool-cases (is_recent clock last)) [
          | inl recent ↦
              rw on (rw recent (nothing_due Due (not_due clock last (rw on (rw recent refl)))))
          | inr old ↦
              rw on (rw old (deletes-Purges Due (due-cases clock last (rw on (rw old refl)))))
        ]
      ]
