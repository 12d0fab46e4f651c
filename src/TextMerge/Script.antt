-- ===== src/TextMerge/Script.antt =====
-- What difflib documents of `get_opcodes`, and what the last loop of the merge makes of the hunks of
-- one script.
use fastedgy.Prelude.{
  ℕ, ◌≤◌, max, ◌<◌, ◌≡◌, ◌≢◌, refl, sym, ap, ◌∙◌, Bool, List, [], ◌∷◌, ◌++◌, length, drop, slice,
  slice-append, slice_self, slice-append_drop, drop-length, append_assoc, All, arith, le→leb,
}
use fastedgy.TextMerge.{Tag, equal, Opcode, Hunk, cons_edit, hunks_of, entries, emit_one, emit}

-- Behind an edit stands a span that is equal and not empty: matching blocks never touch.
abbrev pub IsSeparated : List Opcode → Type 0
IsSeparated [] = Unit
IsSeparated (op ∷ []) = Unit
IsSeparated (op ∷ op' ∷ ops) =
    (op.tag ≢ equal → (op'.tag ≡ equal) × (op'.i1 < op'.i2)) × IsSeparated (op' ∷ ops)

module _ {L : Type 0} where
  -- The opcodes walk both sequences from `i` and `j` to their ends without a gap, and an `equal`
  -- opcode spans equal slices.
  abbrev pub IsScript : List L → List L → ℕ → ℕ → List Opcode → Type 0
  IsScript base other i j [] = (i ≡ length base) × (j ≡ length other)
  IsScript base other i j (op ∷ ops) =
      (op.i1 ≡ i)
      × (op.j1 ≡ j)
      × (i ≤ op.i2)
      × (j ≤ op.j2)
      × (op.tag ≡ equal → slice base i op.i2 ≡ slice other j op.j2)
      × IsScript base other op.i2 op.j2 ops

  -- Documented of `get_opcodes(a, b)`: a script of the two sequences, edits apart from one another,
  -- with no edit where the sequences are the same.
  pub record IsDiffer (get_opcodes : List L → List L → List Opcode) : Type 0 where
    pub script : (base other : List L) → IsScript base other 0 0 (get_opcodes base other)
    pub separated : (base other : List L) → IsSeparated (get_opcodes base other)
    pub same : (base : List L) → All (λ op. op.tag ≡ equal) (get_opcodes base base)

  -- The whole text that a state of the loop stands for, if no entry follows.
  abbrev pub closed : List L → List L × ℕ → List L
  closed base (merged, cursor) = merged ++ drop cursor base

  pub emit_one-in_order :
      (base : List L) (h : Hunk L) (merged : List L) (cursor : ℕ)
      → cursor ≤ h.start
      → emit_one base (merged, cursor) h
        ≡ (merged ++ (slice base cursor h.start ++ h.replacement), max cursor h.stop)
  unfolding emit_one
  emit_one-in_order base h merged cursor le = rw (le→leb cursor h.start le)

  abbrev edit : List L → Opcode → Hunk L
  edit other op = record { start = op.i1; stop = op.i2; replacement = slice other op.j1 op.j2 }

  -- What is known of the loop behind an opcode that ends at `i'` and `j'`.
  abbrev Continues : List L → List L → Bool → ℕ → ℕ → List (Hunk L) → Type 0
  Continues base other c i' j' hs =
      (merged : List L) (cursor : ℕ)
      → cursor ≤ i'
      → closed base (emit base (merged, cursor) (entries c hs))
        ≡ merged ++ (slice base cursor i' ++ drop j' other)

  module _ (base other : List L) (c : Bool) (op : Opcode) (hs : List (Hunk L)) where
    emit-equal :
        op.i1 ≤ op.i2
        → op.j1 ≤ op.j2
        → slice base op.i1 op.i2 ≡ slice other op.j1 op.j2
        → Continues base other c op.i2 op.j2 hs
        → Continues base other c op.i1 op.j1 hs
    emit-equal hi hj same ih merged cursor h =
        ih merged cursor (omega arith)
        ∙ ap (λ r. merged ++ r)
            (ap (λ r. r ++ drop op.j2 other)
                (slice-append base cursor op.i1 op.i2 h hi
                  ∙ ap (λ r. slice base cursor op.i1 ++ r) same)
              ∙ append_assoc (slice base cursor op.i1) (slice other op.j1 op.j2) (drop op.j2 other)
              ∙ ap (λ r. slice base cursor op.i1 ++ r)
                  (sym (slice-append_drop other op.j1 op.j2 hj)))

    emit-edit :
        op.i1 ≤ op.i2
        → op.j1 ≤ op.j2
        → Continues base other c op.i2 op.j2 hs
        → Continues base other c op.i1 op.j1 (edit other op ∷ hs)
    unfolding emit entries
    emit-edit hi hj ih merged cursor h =
        let m = merged ++ (slice base cursor op.i1 ++ slice other op.j1 op.j2) in
        ap (λ s. closed base (emit base s (entries c hs)))
          (emit_one-in_order base (edit other op) merged cursor h
            ∙ ap (λ (k : ℕ). (m, k)) (let e : max cursor op.i2 ≡ op.i2 = omega arith in e))
        ∙ ih m op.i2 (omega arith)
        ∙ simp (slice_self, append_assoc, ← slice-append_drop other op.j1 op.j2 hj)

    emit-cons_edit :
        op.i1 ≤ op.i2
        → op.j1 ≤ op.j2
        → (t : Tag) → (t ≡ equal → slice base op.i1 op.i2 ≡ slice other op.j1 op.j2)
        → Continues base other c op.i2 op.j2 hs
        → Continues base other c op.i1 op.j1 (cons_edit t (edit other op) hs)
    unfolding cons_edit
    emit-cons_edit hi hj equal same ih = emit-equal hi hj (same refl) ih
    emit-cons_edit hi hj _ same ih = emit-edit hi hj ih

  -- From a cursor at `i` or before it, the hunks of a script that starts at `i` and `j` complete the
  -- text with what stands before `i` and with the other text from `j` on: none of them is skipped.
  pub emit-script :
      (base other : List L) (c : Bool) (i j : ℕ) (ops : List Opcode)
      → IsScript base other i j ops
      → Continues base other c i j (hunks_of other ops)
  unfolding emit hunks_of entries
  emit-script base other c i j [] s merged cursor h =
      ap (λ r. merged ++ r)
        (slice-append_drop base cursor i h
          ∙ ap (λ r. slice base cursor i ++ r)
              (ap (λ n. drop n base) s.0
                ∙ drop-length base
                ∙ sym (ap (λ n. drop n other) s.1 ∙ drop-length other)))
  emit-script base other c i j (op ∷ ops) s merged cursor h =
      rw (← s.0, ← s.1)
        (emit-cons_edit base other c op (hunks_of other ops) (omega arith) (omega arith) op.tag
          (λ e. rw (s.0, s.1) (s.4 e)) (emit-script base other c op.i2 op.j2 ops s.5) merged cursor
          (omega arith))
