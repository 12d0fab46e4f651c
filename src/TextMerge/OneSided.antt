-- ===== src/TextMerge/OneSided.antt =====
-- The merge where only one side has edited.
use fastedgy.Prelude.{
  ℕ, ◌≤◌, ◌≡◌, refl, sym, ap, ◌∙◌, Bool, true, false, List, [], ◌∷◌, ◌++◌, All, append_assoc,
  append-nil, arith,
}
use fastedgy.TextMerge.{
  Tag, equal, Opcode, Hunk, Entry, cons_edit, hunks_of, hunks, entries, insert_sorted, key_le,
  sort_entries, keep_server, select, kept_entries, emit_all, merge_lines,
}
use fastedgy.TextMerge.Script.{IsScript, IsDiffer, emit-script}

module _ {L : Type 0} where
  -- The hunk lies behind `k`.
  abbrev pub After : ℕ → Hunk L → Type 0
  After k h = (k ≤ h.start) × (h.start ≤ h.stop)

  -- Each hunk ends before the next one starts.
  abbrev pub Ordered : ℕ → List (Hunk L) → Type 0
  Ordered k [] = Unit
  Ordered k (h ∷ hs) = After k h × Ordered h.stop hs

  Ordered-weaken : (k m : ℕ) (hs : List (Hunk L)) → m ≤ k → Ordered k hs → Ordered m hs
  Ordered-weaken k m [] le o = tt
  Ordered-weaken k m (h ∷ hs) le o = ((omega arith, o.0.1), o.1)

  Ordered-cons_edit :
      (t : Tag) (k : ℕ) (h : Hunk L) (hs : List (Hunk L))
      → After k h
      → Ordered h.stop hs
      → Ordered k (cons_edit t h hs)
  unfolding cons_edit
  Ordered-cons_edit equal k h hs a o = Ordered-weaken h.stop k hs (omega arith) o
  Ordered-cons_edit _ k h hs a o = (a, o)

  -- The hunks of a script do not overlap and stand in order.
  pub Ordered-hunks_of :
      (base other : List L) (i j : ℕ) (ops : List Opcode)
      → IsScript base other i j ops
      → Ordered i (hunks_of other ops)
  unfolding hunks_of
  Ordered-hunks_of base other i j [] s = tt
  Ordered-hunks_of base other i j (op ∷ ops) s =
      Ordered-cons_edit op.tag i _ (hunks_of other ops) (omega arith, omega arith)
        (Ordered-hunks_of base other op.i2 op.j2 ops s.5)

  insert_sorted-first :
      (c : Bool) (h : Hunk L) (hs : List (Hunk L))
      → h.start ≤ h.stop
      → Ordered h.stop hs
      → insert_sorted (record { hunk = h; from_client = c }) (entries c hs)
        ≡ record { hunk = h; from_client = c } ∷ entries c hs
  unfolding insert_sorted entries key_le
  insert_sorted-first c h [] le o = refl
  insert_sorted-first c h (f ∷ fs) le o = ground arith

  pub sort_entries-Ordered :
      (c : Bool) (k : ℕ) (hs : List (Hunk L))
      → Ordered k hs
      → sort_entries (entries c hs) ≡ entries c hs
  unfolding sort_entries entries
  sort_entries-Ordered c k [] o = refl
  sort_entries-Ordered c k (h ∷ hs) o =
      ap (insert_sorted _) (sort_entries-Ordered c h.stop hs o.1)
      ∙ insert_sorted-first c h hs o.0.1 o.1

  hunks_of-same :
      (other : List L) (ops : List Opcode)
      → All (λ op. op.tag ≡ equal) ops
      → hunks_of other ops ≡ []
  unfolding hunks_of cons_edit
  hunks_of-same other [] h = refl
  hunks_of-same other (op ∷ ops) h = rw h.0 (hunks_of-same other ops h.1)

  select-no_client :
      (p : Bool) (kept : List (Entry L)) (hs : List (Hunk L))
      → select [] p kept hs ≡ kept ++ entries false hs
  unfolding select keep_server entries
  select-no_client p kept [] = sym (append-nil kept)
  select-no_client p kept (h ∷ hs) =
      select-no_client p (kept ++ record { hunk = h; from_client = false } ∷ []) hs
      ∙ append_assoc kept (record { hunk = h; from_client = false } ∷ []) (entries false hs)

  module _ (get_opcodes : List L → List L → List Opcode) (d : IsDiffer get_opcodes) where
    -- Applying the hunks of one side alone gives that side's lines.
    pub emit_all-script :
        (c : Bool) (base other : List L)
        → emit_all base (sort_entries (entries c (hunks get_opcodes base other))) ≡ other
    unfolding hunks emit_all
    emit_all-script c base other =
        ap (emit_all base) (
          sort_entries-Ordered c 0 _
            (Ordered-hunks_of base other 0 0 (get_opcodes base other) (d.script base other)))
        ∙ emit-script base other c 0 0 (get_opcodes base other) (d.script base other) [] 0
            (omega arith)

    hunks-same : (base : List L) → hunks get_opcodes base base ≡ []
    unfolding hunks
    hunks-same base = hunks_of-same base (get_opcodes base base) (d.same base)

    -- Let the opcodes be as difflib documents them. Then, where the server's text is the base, the
    -- merge is the client's text, whichever side is
    -- preferred.
    pub merge_lines-client_only :
        (base client : List L) (prefer_client : Bool)
        → merge_lines get_opcodes base base client prefer_client ≡ client
    unfolding merge_lines kept_entries
    merge_lines-client_only base client p =
        rw (hunks-same base) (unfold select in emit_all-script true base client)

    -- Let the opcodes be as difflib documents them. Then, where the client's text is the base, the
    -- merge is the server's text, whichever side is
    -- preferred.
    pub merge_lines-server_only :
        (base server : List L) (prefer_client : Bool)
        → merge_lines get_opcodes base server base prefer_client ≡ server
    unfolding merge_lines kept_entries
    merge_lines-server_only base server p =
        rw (hunks-same base)
          (unfold entries in rw (select-no_client p []) (emit_all-script false base server))
