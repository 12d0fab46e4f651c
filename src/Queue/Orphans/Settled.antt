-- ===== src/Queue/Orphans/Settled.antt =====
-- What a round of the reaper leaves of the tasks whose parent failed or was cancelled.
use fastedgy.Prelude.{
  refl, some, ◌⊎◌, ==_iff, ℕ, ◌≡◌, ap, Bool, true, false, ◌||◌, String, List, [], ◌∷◌, map, All,
  inl, inr, Bool-cases, arith,
}
use mathlib.Core.List.{Memᴰ}
use mathlib.Core.List.Memᴰ
use mathlib.Core.Path.{subst}
use fastedgy.Prelude.Keys.{member}
use fastedgy.QueuedTask.{QueuedTask, enqueued, failed, cancelled}
use fastedgy.Queue.{QueuedTaskWorker, reap}
use fastedgy.Queue.Cascade.{
  anchor, descendants, is_open, is_cascaded, Ending, set_cascaded, cascade_row, is_failed,
  is_cancelled, cascade_to_descendants,
}
use fastedgy.Queue.Cascade.Tree.{here, Within-levels}
use fastedgy.Queue.Orphans.{
  ending_of, is_orphan, orphans_of, orphans, table_of, cascade_orphan, cascade_all, cascade_orphans,
  reap_stale_tasks,
}

-- No row with the identifier is enqueued or running.
abbrev pub IsSettled : ℕ → List QueuedTask → Type 0
IsSettled i rows = All (λ t. t.id ≡ i → is_open t.state ≡ false) rows

module _ (now : ℕ) (e : Ending)
    (ended : is_failed e.new_state || is_cancelled e.new_state ≡ true) where
  cascade_row-keeps :
      (i : ℕ) (ids : List ℕ) (t : QueuedTask)
      → (t.id ≡ i → is_open t.state ≡ false)
      → (cascade_row now e ids t).id ≡ i
      → is_open (cascade_row now e ids t).state ≡ false
  unfolding cascade_row is_cascaded set_cascaded is_open
  cascade_row-keeps i ids t h k = ground arith

  cascade_row-ends :
      (i : ℕ) (ids : List ℕ) (t : QueuedTask)
      → member i ids ≡ true
      → (cascade_row now e ids t).id ≡ i
      → is_open (cascade_row now e ids t).state ≡ false
  unfolding cascade_row is_cascaded set_cascaded is_open
  cascade_row-ends i ids t h k = ground arith

  map-keeps :
      (i : ℕ) (ids : List ℕ) (rows : List QueuedTask)
      → IsSettled i rows
      → IsSettled i (map (cascade_row now e ids) rows)
  map-keeps i ids [] s = tt
  map-keeps i ids (t ∷ ts) s = (cascade_row-keeps i ids t s.0, map-keeps i ids ts s.1)

  map-ends :
      (i : ℕ) (ids : List ℕ) (rows : List QueuedTask)
      → member i ids ≡ true
      → IsSettled i (map (cascade_row now e ids) rows)
  map-ends i ids [] h = tt
  map-ends i ids (t ∷ ts) h = (cascade_row-ends i ids t h, map-ends i ids ts h)

  cascade-keeps :
      (i root max_depth : ℕ) (rows : List QueuedTask)
      → IsSettled i rows
      → IsSettled i (table_of rows (cascade_to_descendants now root e max_depth rows))
  unfolding table_of cascade_to_descendants
  cascade-keeps i root max_depth rows s =
      rw ended (map-keeps i (descendants max_depth root rows) rows s)

  absent-IsSettled :
      (i : ℕ) (rows : List QueuedTask) → member i (anchor i rows) ≡ false → IsSettled i rows
  unfolding member anchor
  absent-IsSettled i [] h = tt
  absent-IsSettled i (t ∷ ts) h = (λ k. ground arith, absent-IsSettled i ts (ground arith))

  cascade-ends :
      (i max_depth : ℕ) (rows : List QueuedTask)
      → IsSettled i (table_of rows (cascade_to_descendants now i e max_depth rows))
  unfolding table_of cascade_to_descendants descendants
  cascade-ends i max_depth rows = elim (Bool-cases (member i (anchor i rows))) [
    | inl y ↦ rw ended (
        map-ends i (descendants max_depth i rows) rows
          (Within-levels max_depth 0 rows (anchor i rows) i (omega arith) (here y)))
    | inr n ↦ cascade-keeps i i max_depth rows (absent-IsSettled i rows n)
  ]

ending_of-ended :
    (texts : QueuedTask → String × String) (p : QueuedTask)
    → is_failed (ending_of texts p).new_state || is_cancelled (ending_of texts p).new_state ≡ true
unfolding ending_of
ending_of-ended texts p = ground arith

orphans_of-member :
    (c p : QueuedTask) (rows : List QueuedTask)
    → Memᴰ p rows
    → is_orphan c p ≡ true
    → Memᴰ (c.id, p) (orphans_of c rows)
unfolding orphans_of
orphans_of-member c p [] m h = elim m [ ]
orphans_of-member c p (q ∷ qs) (Memᴰ.head e) h =
    rw (subst (λ x. is_orphan c x ≡ true) e h) (Memᴰ.head (ap (λ x. (c.id, x)) e))
orphans_of-member c p (q ∷ qs) (Memᴰ.tail m) h = elim (Bool-cases (is_orphan c q)) [
  | inl y ↦ rw y (Memᴰ.tail (orphans_of-member c p qs m h))
  | inr n ↦ rw n (orphans_of-member c p qs m h)
]

orphans-member :
    (c p : QueuedTask) (parents rows : List QueuedTask)
    → Memᴰ c rows
    → Memᴰ p parents
    → is_orphan c p ≡ true
    → Memᴰ (c.id, p) (orphans parents rows)
unfolding orphans
orphans-member c p parents [] k m h = elim k [ ]
orphans-member c p parents (d ∷ ds) (Memᴰ.head e) m h =
    Memᴰ.append_left (orphans parents ds)
      (subst (λ x. Memᴰ (c.id, p) (orphans_of x parents)) e (orphans_of-member c p parents m h))
orphans-member c p parents (d ∷ ds) (Memᴰ.tail k) m h =
    Memᴰ.append_right (orphans_of d parents) (orphans-member c p parents ds k m h)

module _ (now : ℕ) (texts : QueuedTask → String × String) (fails : ℕ → Bool) where
  orphan-keeps :
      (i child : ℕ) (parent : QueuedTask) (rows : List QueuedTask)
      → IsSettled i rows
      → IsSettled i (cascade_orphan now texts fails child parent rows)
  unfolding cascade_orphan
  orphan-keeps i child parent rows s = elim (Bool-cases (fails child)) [
    | inl y ↦ rw y s
    | inr n ↦ rw n (
        cascade-keeps now (ending_of texts parent) (ending_of-ended texts parent) i child 100 rows
          s)
  ]

  all-keeps :
      (i : ℕ) (found : List (ℕ × QueuedTask)) (rows : List QueuedTask)
      → IsSettled i rows
      → IsSettled i (cascade_all now texts fails found rows)
  unfolding cascade_all
  all-keeps i [] rows s = s
  all-keeps i ((child, parent) ∷ found) rows s =
      all-keeps i found (cascade_orphan now texts fails child parent rows)
        (orphan-keeps i child parent rows s)

  orphan-ends :
      (i : ℕ) (parent : QueuedTask) (rows : List QueuedTask)
      → fails i ≡ false
      → IsSettled i (cascade_orphan now texts fails i parent rows)
  unfolding cascade_orphan
  orphan-ends i parent rows k =
      rw k (cascade-ends now (ending_of texts parent) (ending_of-ended texts parent) i 100 rows)

  all-ends :
      (i : ℕ) (parent : QueuedTask) (found : List (ℕ × QueuedTask)) (rows : List QueuedTask)
      → fails i ≡ false
      → Memᴰ (i, parent) found
      → IsSettled i (cascade_all now texts fails found rows)
  unfolding cascade_all
  all-ends i parent [] rows k m = elim m [ ]
  all-ends i parent ((child, p) ∷ found) rows k (Memᴰ.head e) =
      let first : i ≡ child = ap (λ (x : ℕ × QueuedTask). x.0) e in
      all-keeps i found (cascade_orphan now texts fails child p rows) (
        subst (λ j. IsSettled i (cascade_orphan now texts fails j p rows)) first
          (orphan-ends i p rows k))
  all-ends i parent ((child, p) ∷ found) rows k (Memᴰ.tail m) =
      all-ends i parent found (cascade_orphan now texts fails child p rows) k m

  pub cascade_orphans-IsSettled :
      (c p : QueuedTask) (rows : List QueuedTask)
      → Memᴰ c rows
      → Memᴰ p rows
      → is_orphan c p ≡ true
      → fails c.id ≡ false
      → IsSettled c.id (cascade_orphans now texts fails rows)
  unfolding cascade_orphans
  cascade_orphans-IsSettled c p rows k m h f =
      all-ends c.id p (orphans rows rows) rows f (orphans-member c p rows rows k m h)

  ended-is_orphan :
      (c p : QueuedTask)
      → c.parent_task ≡ some p.id
      → c.state ≡ enqueued
      → (p.state ≡ failed) ⊎ (p.state ≡ cancelled)
      → is_orphan c p ≡ true
  unfolding is_orphan
  ended-is_orphan c p h e (inl f) = rw h (rw e (rw f (rw ((==_iff p.id p.id).1 refl) refl)))
  ended-is_orphan c p h e (inr f) = rw h (rw e (rw f (rw ((==_iff p.id p.id).1 refl) refl)))

  -- Take a task that is enqueued under a failed or cancelled parent once the first passes of a round
  -- of the reaper are over. Where its cascade does not raise, the round leaves no row with its
  -- identifier enqueued or running.
  pub reap_stale_tasks-IsSettled :
      (self_name : String) (task_timeout default_max : ℕ) (message : String)
      (rows : List QueuedTask) (workers : List QueuedTaskWorker) (c p : QueuedTask)
      → Memᴰ c (map (reap now workers task_timeout default_max message) rows)
      → Memᴰ p (map (reap now workers task_timeout default_max message) rows)
      → c.parent_task ≡ some p.id
      → c.state ≡ enqueued
      → (p.state ≡ failed) ⊎ (p.state ≡ cancelled)
      → fails c.id ≡ false
      → IsSettled c.id
          (reap_stale_tasks now self_name task_timeout default_max message texts fails
            (rows, workers)).0
  unfolding reap_stale_tasks
  reap_stale_tasks-IsSettled self_name task_timeout default_max message rows workers c p k m h s e
        f =
      cascade_orphans-IsSettled c p (map (reap now workers task_timeout default_max message) rows) k
        m (ended-is_orphan c p h s e) f
