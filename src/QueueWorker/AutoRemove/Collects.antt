-- ===== src/QueueWorker/AutoRemove/Collects.antt =====
-- What the removal of a finished task leaves in the table.
use fastedgy.Prelude.{
  ℕ, zero, suc, ◌≡◌, refl, sym, ◌⊎◌, inl, inr, Bool, true, false, ◌||◌, Option, none, some, String,
  List, ◌==◌, not, Bool-cases, Option-cases, ==_iff, arith,
}
use mathlib.Core.List.{Memᴰ}
use mathlib.Core.Path.{subst}
use text.Mathlib.Text.{◌==◌ as str_eq}
use fastedgy.QueuedTask.{QueuedTask, done, failed}
use fastedgy.Queue.Purge.{
  IsLeaf, childless-has_children, has_children, filter-keeps, filter-IsKept, has_children-of,
}
use fastedgy.QueueWorker.AutoRemove.Ancestors.{IsAncestor, itself, Leads, returned-Leads}
use fastedgy.QueueWorker.AutoRemove.Guards.{
  done-of, log-has_grave_log, no_grave-has_grave_log, failed-has_failed, open-has_failed,
  returned_parent-none,
}
use fastedgy.QueueWorker.AutoRemove.{
  has_grave_log, has_failed, returned_parent, delete, is_childless, is_collectable,
  remove_ancestors, auto_remove_task,
}

module _ (logs : List (ℕ × String)) where
  -- No log of an error or of a critical error.
  abbrev pub NoGraveLog : ℕ → Type 0
  NoGraveLog id =
      (l : String) → Memᴰ (id, l) logs → (str_eq l "error" ≡ false) × (str_eq l "critical" ≡ false)

  -- A row that the worker may remove after the task, where `table` is the table at the start.
  abbrev pub MayGo : ℕ → List QueuedTask → QueuedTask → Type 0
  MayGo id table t =
      (t.id ≡ id)
      ⊎ (IsAncestor table id t.id × (t.state ≡ done) × (t.auto_remove ≡ true) × NoGraveLog t.id)

  -- What the removal does to the table.
  pub record Collects (id : ℕ) (table rows rows' : List QueuedTask) : Type 0 where
    pub adds_none : (t : QueuedTask) → Memᴰ t rows' → Memᴰ t rows
    pub removes : (t : QueuedTask) → Memᴰ t rows → Memᴰ t rows' ⊎ MayGo id table t
    pub keeps_parents :
        (t p : QueuedTask) → Memᴰ t rows' → Memᴰ p rows → t.parent_task ≡ some p.id → Memᴰ p rows'

  Collects-refl : (id : ℕ) (table rows : List QueuedTask) → Collects id table rows rows
  Collects-refl id table rows = record {
    adds_none = λ t m. m;
    removes = λ t m. inl m;
    keeps_parents = λ t p m k h. k;
  }

  Collects-trans :
      (id : ℕ) (table rows rows' rows'' : List QueuedTask)
      → Collects id table rows rows'
      → Collects id table rows' rows''
      → Collects id table rows rows''
  Collects-trans id table rows rows' rows'' c d = record {
    adds_none = λ t m. c.adds_none t (d.adds_none t m);
    removes = λ t m. elim (c.removes t m) [ inl k ↦ d.removes t k | inr g ↦ inr g ];
    keeps_parents =
        λ t p m k h. d.keeps_parents t p m (c.keeps_parents t p (d.adds_none t m) k h) h;
  }

  -- A statement that deletes only rows without children.
  delete-Collects :
      (id : ℕ) (test : QueuedTask → Bool) (table rows : List QueuedTask)
      → ((t : QueuedTask) → test t ≡ true → has_children rows t.id ≡ false)
      → ((t : QueuedTask) → test t ≡ true → MayGo id table t)
      → Collects id table rows (delete test rows)
  unfolding delete
  delete-Collects id test table rows childless goes = record {
    adds_none = λ t m. (filter-IsKept (λ u. not (test u)) t rows m).0;
    removes = λ t m. elim (Bool-cases (test t)) [
      | inl y ↦ inr (goes t y)
      | inr n ↦ inl (filter-keeps (λ u. not (test u)) t rows m (rw n refl))
    ];
    keeps_parents = λ t p m k h.
        let child = has_children-of p.id t rows (filter-IsKept (λ u. not (test u)) t rows m).0 h in
        filter-keeps (λ u. not (test u)) p rows k (ground (arith, childless p));
  }

  collectable-childless :
      (rows : List QueuedTask) (id : ℕ) (t : QueuedTask)
      → is_collectable logs rows id t ≡ true
      → has_children rows t.id ≡ false
  unfolding is_collectable is_childless
  collectable-childless rows id t h = ground arith

  collectable-MayGo :
      (table rows : List QueuedTask) (id root : ℕ) (t : QueuedTask)
      → IsAncestor table root id
      → is_collectable logs rows id t ≡ true
      → MayGo root table t
  unfolding is_collectable is_childless
  collectable-MayGo table rows id root t a h =
      let same = (==_iff t.id id).0 (ground arith) in
      let clean : has_grave_log logs t.id ≡ false = ground arith in
      inr (
        subst (IsAncestor table root) (sym same) a,
        done-of t.state (ground arith),
        ground arith,
        (λ l m. log-has_grave_log logs t.id l m clean),
      )

  collectable-id :
      (rows : List QueuedTask) (id : ℕ) (t : QueuedTask)
      → is_collectable logs rows id t ≡ true
      → t.id ≡ id
  unfolding is_collectable is_childless
  collectable-id rows id t h = (==_iff t.id id).0 (ground arith)

  remove_ancestors-Collects :
      (n root : ℕ) (o : Option ℕ) (table rows : List QueuedTask)
      → Leads table root o
      → ((t : QueuedTask) → Memᴰ t rows → Memᴰ t table)
      → Collects root table rows (remove_ancestors logs n o rows)
  unfolding remove_ancestors delete
  remove_ancestors-Collects n root none table rows a sub = Collects-refl root table rows
  remove_ancestors-Collects zero root (some id) table rows a sub = Collects-refl root table rows
  remove_ancestors-Collects (suc n) root (some id) table rows a sub =
      elim (Option-cases (returned_parent (is_collectable logs rows id) rows)) [
        | inl e ↦ rw (remove_ancestors, e) (Collects-refl root table rows)
        | inr (parent, e) ↦
            let test = is_collectable logs rows id in
            rw (remove_ancestors, e)
              (Collects-trans root table rows (delete test rows) _
                (delete-Collects root test table rows (collectable-childless rows id)
                  (λ t. collectable-MayGo table rows id root t (a id refl)))
                (remove_ancestors-Collects n root parent table (delete test rows)
                  (returned-Leads test root id table rows parent (collectable-id rows id)
                    (a id refl) sub e)
                  (λ t m. sub t (filter-IsKept (λ u. not (test u)) t rows m).0)))
      ]

  childless-childless :
      (rows : List QueuedTask) (id : ℕ) (t : QueuedTask)
      → is_childless rows id t ≡ true
      → has_children rows t.id ≡ false
  unfolding is_childless
  childless-childless rows id t h = ground arith

  childless-MayGo :
      (rows : List QueuedTask) (id : ℕ) (t : QueuedTask)
      → is_childless rows id t ≡ true
      → MayGo id rows t
  unfolding is_childless
  childless-MayGo rows id t h = inl ((==_iff t.id id).0 (ground arith))

  childless-id :
      (rows : List QueuedTask) (id : ℕ) (t : QueuedTask) → is_childless rows id t ≡ true → t.id ≡ id
  unfolding is_childless
  childless-id rows id t h = (==_iff t.id id).0 (ground arith)

  -- No row of the task is left.
  abbrev pub IsRemoved : ℕ → List QueuedTask → Type 0
  IsRemoved id rows = (t : QueuedTask) → Memᴰ t rows → (t.id == id) ≡ false

  fails_childless :
      (rows : List QueuedTask) (id : ℕ) (t : QueuedTask)
      → has_children rows id ≡ false
      → is_childless rows id t ≡ false
      → (t.id == id) ≡ false
  unfolding is_childless
  fails_childless rows id t h e = elim (Bool-cases (t.id == id)) [
    | inl y ↦
        let same : has_children rows t.id ≡ false =
          subst (λ i. has_children rows i ≡ false) (sym ((==_iff t.id id).0 y)) h in
        ground arith
    | inr n ↦ n
  ]

  -- The rows of the task have failed, or it has a log of an error.
  abbrev pub IsSpared : ℕ → List QueuedTask → Type 0
  IsSpared id rows =
      (((u : QueuedTask) → Memᴰ u rows → u.id ≡ id → u.state ≡ failed)
        × (t : QueuedTask) × Memᴰ t rows
        × (t.id ≡ id))
      ⊎ ((l : String) × Memᴰ (id, l) logs × (str_eq l "error" || str_eq l "critical" ≡ true))

  -- No row of the task has failed, it has no log of an error, and no row waits for it.
  abbrev pub IsRemovable : ℕ → List QueuedTask → Type 0
  IsRemovable id rows =
      ((u : QueuedTask) → Memᴰ u rows → u.id ≡ id → ¬ (u.state ≡ failed))
      × NoGraveLog id
      × IsLeaf rows id

  IsSpared-stays :
      (id : ℕ) (rows : List QueuedTask)
      → IsSpared id rows
      → has_failed rows id || has_grave_log logs id ≡ true
  IsSpared-stays id rows (inl (all, t, m, e)) =
      let ended = failed-has_failed id t rows all m e in ground arith
  IsSpared-stays id rows (inr (l, m, g)) = elim (Bool-cases (has_grave_log logs id)) [
    | inl y ↦ ground arith
    | inr n ↦ let kind = log-has_grave_log logs id l m n in ground arith
  ]

  IsRemovable-goes :
      (id : ℕ) (rows : List QueuedTask)
      → IsRemovable id rows
      → has_failed rows id || has_grave_log logs id ≡ false
  IsRemovable-goes id rows (all, clean, leaf) =
      rw (open-has_failed id rows all) (rw (no_grave-has_grave_log logs id clean) refl)

  -- What the removal of a finished task does to the table.
  pub record AutoRemoves (id : ℕ) (rows rows' : List QueuedTask) : Type 0 where
    pub collects : Collects id rows rows rows'
    pub stays : IsSpared id rows → rows' ≡ rows
    pub removes_task : IsRemovable id rows → IsRemoved id rows'

  spared-AutoRemoves :
      (id : ℕ) (rows : List QueuedTask)
      → has_failed rows id || has_grave_log logs id ≡ true
      → AutoRemoves id rows rows
  spared-AutoRemoves id rows y = record {
    collects = Collects-refl id rows rows;
    stays = λ _. refl;
    removes_task = λ h. let goes = IsRemovable-goes id rows h in ground arith;
  }

  waited-AutoRemoves :
      (id : ℕ) (rows : List QueuedTask)
      → returned_parent (is_childless rows id) rows ≡ none
      → AutoRemoves id rows rows
  waited-AutoRemoves id rows e = record {
    collects = Collects-refl id rows rows;
    stays = λ _. refl;
    removes_task = λ h t m.
        fails_childless rows id t (childless-has_children rows id h.2)
          (returned_parent-none (is_childless rows id) t rows e m);
  }

  removed-AutoRemoves :
      (id : ℕ) (rows : List QueuedTask) (parent : Option ℕ)
      → has_failed rows id || has_grave_log logs id ≡ false
      → returned_parent (is_childless rows id) rows ≡ some parent
      → AutoRemoves id rows (remove_ancestors logs 32 parent (delete (is_childless rows id) rows))
  unfolding delete
  removed-AutoRemoves id rows parent n e =
      let test = is_childless rows id in
      let up =
        remove_ancestors-Collects 32 id parent rows (delete test rows)
          (returned-Leads test id id rows rows parent (childless-id rows id) itself (λ t m. m) e)
          (λ t m. (filter-IsKept (λ u. not (test u)) t rows m).0) in
      record {
        collects =
            Collects-trans id rows rows (delete test rows) _
              (delete-Collects id test rows rows (childless-childless rows id)
                (childless-MayGo rows id))
              up;
        stays = λ s. let spared = IsSpared-stays id rows s in ground arith;
        removes_task = λ h t m. fails_childless rows id t (childless-has_children rows id h.2) (
            let kept = (filter-IsKept (λ u. not (test u)) t rows (up.adds_none t m)).1 in
            ground arith);
      }

  -- The removal of a finished task takes out only that task and tasks up the chain of its parents
  -- that are done, marked for removal and have no log of an error, adds none, and leaves no remaining
  -- row without a parent that was in the table. Where the task has failed or has a log of an error,
  -- nothing changes. Where it has not failed, has no log of an error and no child, it is gone.
  pub auto_remove_task-AutoRemoves :
      (id : ℕ) (rows : List QueuedTask) → AutoRemoves id rows (auto_remove_task logs id rows)
  unfolding auto_remove_task
  auto_remove_task-AutoRemoves id rows =
      elim (Bool-cases (has_failed rows id || has_grave_log logs id)) [
        | inl y ↦ rw y (spared-AutoRemoves id rows y)
        | inr n ↦ elim (Option-cases (returned_parent (is_childless rows id) rows)) [
          | inl e ↦ rw n (rw e (waited-AutoRemoves id rows e))
          | inr (parent, e) ↦ rw n (rw e (removed-AutoRemoves id rows parent n e))
        ]
      ]
