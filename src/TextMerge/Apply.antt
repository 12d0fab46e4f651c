-- ===== src/TextMerge/Apply.antt =====
-- The last loop applies every entry that it is given: the guard on `cursor` never skips one.
use fastedgy.Prelude.{
  ℕ, max, ◌≤◌, ◌≡◌, refl, ap, ◌∙◌, true, false, List, [], ◌∷◌, ◌++◌, map, All, drop, slice,
  append_assoc, arith, Bool-cases, inl, inr,
}
use fastedgy.TextMerge.{Hunk, Entry, overlaps, key_le, insert_sorted, sort_entries, emit}
use fastedgy.TextMerge.Script.{closed, emit_one-in_order}
use fastedgy.TextMerge.OneSided.{After, Ordered}

module _ {L : Type 0} where
  -- Each hunk replaces the lines it spans, and the other lines stay.
  pub patch : List L → ℕ → List (Hunk L) → List L
  patch base k [] = drop k base
  patch base k (h ∷ hs) = slice base k h.start ++ (h.replacement ++ patch base h.stop hs)

  abbrev pub hunks_in : List (Entry L) → List (Hunk L)
  hunks_in es = map (λ e. e.hunk) es

  pub emit-patch :
      (base merged : List L) (cursor : ℕ) (es : List (Entry L))
      → Ordered cursor (hunks_in es)
      → closed base (emit base (merged, cursor) es) ≡ merged ++ patch base cursor (hunks_in es)
  unfolding emit patch
  emit-patch base merged cursor [] o = refl
  emit-patch base merged cursor (e ∷ es) o =
      let h = e.hunk in
      let m : max cursor h.stop ≡ h.stop = omega arith in
      let m' = merged ++ (slice base cursor h.start ++ h.replacement) in
      ap (λ s. closed base (emit base s es))
        (emit_one-in_order base h merged cursor o.0.0 ∙ ap (λ (k : ℕ). (m', k)) m)
      ∙ emit-patch base m' h.stop es o.1
      ∙ append_assoc merged (slice base cursor h.start ++ h.replacement)
          (patch base h.stop (hunks_in es))
      ∙ ap (λ r. merged ++ r)
          (append_assoc (slice base cursor h.start) h.replacement (patch base h.stop (hunks_in es)))

  -- No entry of `es` overlaps `e`.
  abbrev pub NoClash : Entry L → List (Entry L) → Type 0
  NoClash e es = All (λ f. overlaps e.hunk f.hunk ≡ false) es

  abbrev pub Apart : List (Entry L) → Type 0
  Apart [] = Unit
  Apart (e ∷ es) = NoClash e es × Apart es

  first_ends :
      (e f : Entry L)
      → key_le e f ≡ true
      → overlaps e.hunk f.hunk ≡ false
      → e.hunk.start ≤ e.hunk.stop
      → f.hunk.start ≤ f.hunk.stop
      → e.hunk.stop ≤ f.hunk.start
  unfolding key_le overlaps
  first_ends e f k o he hf = ground arith

  second_ends :
      (e f : Entry L)
      → key_le e f ≡ false
      → overlaps e.hunk f.hunk ≡ false
      → e.hunk.start ≤ e.hunk.stop
      → f.hunk.start ≤ f.hunk.stop
      → f.hunk.stop ≤ e.hunk.start
  unfolding key_le overlaps
  second_ends e f k o he hf = ground arith

  insert_sorted-Ordered :
      (k : ℕ) (e : Entry L) (es : List (Entry L))
      → After k e.hunk
      → NoClash e es
      → Ordered k (hunks_in es)
      → Ordered k (hunks_in (insert_sorted e es))
  unfolding insert_sorted
  insert_sorted-Ordered k e [] a c o = (a, tt)
  insert_sorted-Ordered k e (f ∷ fs) a c o = elim (Bool-cases (key_le e f)) [
    | inl before ↦ rw before (a, ((first_ends e f before c.0 a.1 o.0.1, o.0.1), o.1))
    | inr behind ↦ rw behind (
      o.0,
      insert_sorted-Ordered f.hunk.stop e fs (second_ends e f behind c.0 a.1 o.0.1, a.1) c.1 o.1,
    )
  ]

  module _ (P : Entry L → Type 0) where
    All-insert_sorted :
        (e : Entry L) (es : List (Entry L)) → P e → All P es → All P (insert_sorted e es)
    unfolding insert_sorted
    All-insert_sorted e [] h hs = (h, tt)
    All-insert_sorted e (f ∷ fs) h hs = elim (Bool-cases (key_le e f)) [
      | inl before ↦ rw before (h, hs)
      | inr behind ↦ rw behind (hs.0, All-insert_sorted e fs h hs.1)
    ]

    All-sort_entries : (es : List (Entry L)) → All P es → All P (sort_entries es)
    unfolding sort_entries
    All-sort_entries [] h = tt
    All-sort_entries (e ∷ es) h =
        All-insert_sorted e (sort_entries es) h.0 (All-sort_entries es h.1)

  abbrev pub Valid : Entry L → Type 0
  Valid e = e.hunk.start ≤ e.hunk.stop

  -- Entries that do not overlap stand in order when sorted.
  pub sort_entries-Apart :
      (es : List (Entry L)) → All Valid es → Apart es → Ordered 0 (hunks_in (sort_entries es))
  unfolding sort_entries
  sort_entries-Apart [] v a = tt
  sort_entries-Apart (e ∷ es) v a =
      insert_sorted-Ordered 0 e (sort_entries es) (omega arith, v.0)
        (All-sort_entries (λ f. overlaps e.hunk f.hunk ≡ false) es a.0)
        (sort_entries-Apart es v.1 a.1)
