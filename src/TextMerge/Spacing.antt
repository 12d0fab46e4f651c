-- ===== src/TextMerge/Spacing.antt =====
-- The hunks of one script lie apart from one another.
use fastedgy.Prelude.{ℕ, ◌≤◌, ◌<◌, ◌≡◌, ◌≢◌, List, [], ◌∷◌, All, arith}
use fastedgy.TextMerge.{Tag, equal, Opcode, Hunk, cons_edit, hunks_of, overlaps}
use fastedgy.TextMerge.Script.{IsScript, IsSeparated}
use fastedgy.TextMerge.OneSided.{After}
use fastedgy.TextMerge.Conflicts.{Clear, Disjoint}

module _ {L : Type 0} where
  After-weaken : (k m : ℕ) (hs : List (Hunk L)) → m ≤ k → All (After k) hs → All (After m) hs
  After-weaken k m [] le a = tt
  After-weaken k m (h ∷ hs) le a = ((omega arith, a.0.1), After-weaken k m hs le a.1)

  All-cons_edit :
      (P : Hunk L → Type 0) (t : Tag) (h : Hunk L) (hs : List (Hunk L))
      → P h
      → All P hs
      → All P (cons_edit t h hs)
  unfolding cons_edit
  All-cons_edit P equal h hs p ps = ps
  All-cons_edit P _ h hs p ps = (p, ps)

  -- All hunks of a script from `i` on lie behind `i`.
  pub After-hunks_of :
      (base other : List L) (i j : ℕ) (ops : List Opcode)
      → IsScript base other i j ops
      → All (After i) (hunks_of other ops)
  unfolding hunks_of
  After-hunks_of base other i j [] s = tt
  After-hunks_of base other i j (op ∷ ops) s =
      All-cons_edit (After i) op.tag _ (hunks_of other ops) (omega arith, omega arith)
        (After-weaken op.i2 i (hunks_of other ops) (omega arith)
          (After-hunks_of base other op.i2 op.j2 ops s.5))

  Clear-After :
      (h : Hunk L) (k : ℕ) (hs : List (Hunk L))
      → h.start ≤ h.stop
      → h.stop < k
      → All (After k) hs
      → Clear h hs
  unfolding overlaps
  Clear-After h k [] le lt a = tt
  Clear-After h k (g ∷ gs) le lt a = (ground arith, Clear-After h k gs le lt a.1)

  -- Behind an edit the other hunks keep a distance.
  Clear-behind :
      (base other : List L) (h : Hunk L) (op : Opcode) (ops : List Opcode)
      → h.start ≤ h.stop
      → h.stop ≡ op.i1
      → op.tag ≡ equal
      → op.i1 < op.i2
      → IsScript base other op.i2 op.j2 ops
      → Clear h (hunks_of other (op ∷ ops))
  unfolding hunks_of cons_edit
  Clear-behind base other h op ops le e t lt s = rw t (
      Clear-After h op.i2 (hunks_of other ops) le (omega arith)
        (After-hunks_of base other op.i2 op.j2 ops s))

  Disjoint-cons_edit :
      (t : Tag) (h : Hunk L) (hs : List (Hunk L))
      → (t ≢ equal → Clear h hs)
      → Disjoint hs
      → Disjoint (cons_edit t h hs)
  unfolding cons_edit
  Disjoint-cons_edit equal h hs c d = d
  Disjoint-cons_edit _ h hs c d = (c (λ e. cc), d)

  pub Disjoint-hunks_of :
      (base other : List L) (i j : ℕ) (ops : List Opcode)
      → IsScript base other i j ops
      → IsSeparated ops
      → Disjoint (hunks_of other ops)
  unfolding hunks_of
  Disjoint-hunks_of base other i j [] s p = tt
  Disjoint-hunks_of base other i j (op ∷ []) s p = Disjoint-cons_edit op.tag _ [] (λ _. tt) tt
  Disjoint-hunks_of base other i j (op ∷ op' ∷ ops) s p =
      Disjoint-cons_edit op.tag _ (hunks_of other (op' ∷ ops))
        (λ edit.
          Clear-behind base other _ op' ops (omega arith) (omega arith) (p.0 edit).0 (p.0 edit).1
            s.5.5)
        (Disjoint-hunks_of base other op.i2 op.j2 (op' ∷ ops) s.5 p.1)
