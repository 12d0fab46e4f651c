-- ===== src/TaskContext/Paths.antt =====
-- What a write into the context changes.
use fastedgy.Prelude.{
  ◌≡◌, refl, sym, ◌∙◌, Bool, true, false, ◌||◌, Option, none, some, String, List, [], ◌∷◌,
  Bool-cases, inl, inr, if◌then◌else◌, not, eq_iff, eq_refl, arith,
}
use mathlib.Core.Path.{subst}
use fastedgy.TaskContext.{
  Value, other_value, dict, Entries, no_entry, entry_cons, value_at, put_at, entries_of, descend,
  nested_of, set_context,
}
use text.Mathlib.Text.{◌==◌ as str_eq}

-- Neither path is a part of the other in front.
unfoldable pub are_apart : String → List String → String → List String → Bool
are_apart k [] j [] = not (str_eq k j)
are_apart k [] j (_ ∷ _) = not (str_eq k j)
are_apart k (_ ∷ _) j [] = not (str_eq k j)
are_apart k (k' ∷ ks) j (j' ∷ js) = not (str_eq k j) || are_apart k' ks j' js

value_at-put_at :
    (k j : String) (v : Value) (d : Entries)
    → value_at j (put_at k v d) ≡ (if str_eq k j then some v else value_at j d)
unfolding value_at put_at
value_at-put_at k j v no_entry = refl
value_at-put_at k j v (entry_cons i w d) =
    ground (arith, eq_iff k j, eq_iff i k, eq_iff i j, value_at-put_at k j v d)

-- A shorter path leads to a value that is no dict.
unfoldable pub is_blocked : String → List String → Entries → Bool
is_blocked k [] d = false
is_blocked k (j ∷ ks) d = elim (value_at k d) [
  | none ↦ false
  | some v ↦ elim (entries_of v) [ none ↦ true | some e ↦ is_blocked j ks e ]
]

-- What a write does: the value is read back at its path, and no path apart from it reads another
-- value than before. It fails only where a shorter path leads to a value that is no dict.
abbrev pub IsWritten : String → List String → Value → Entries → Option Entries → Type 0
IsWritten k ks v d none = is_blocked k ks d ≡ true
IsWritten k ks v d (some e) =
    (descend k ks e ≡ some v)
    × ((j : String) (js : List String)
        → are_apart k ks j js ≡ true
        → descend j js e ≡ descend j js d)

put_at-elsewhere :
    (k j : String) (js : List String) (v : Value) (d : Entries)
    → str_eq k j ≡ false
    → descend j js (put_at k v d) ≡ descend j js d
unfolding descend
put_at-elsewhere k j [] v d h = rw (value_at-put_at k j v d) (rw h refl)
put_at-elsewhere k j (i ∷ is) v d h = rw (descend, value_at-put_at k j v d) (rw h refl)

put_at-below :
    (k j : String) (js : List String) (e d : Entries)
    → descend k (j ∷ js) (put_at k (dict e) d) ≡ descend j js e
unfolding descend
put_at-below k j js e d = rw (descend, value_at-put_at k k (dict e) d) (rw (eq_refl k) refl)

no_entry-blocked : (k : String) (ks : List String) → is_blocked k ks no_entry ≡ false
unfolding is_blocked value_at
no_entry-blocked k [] = refl
no_entry-blocked k (j ∷ ks) = refl

descend-no_entry : (k : String) (ks : List String) → descend k ks no_entry ≡ none
unfolding descend value_at
descend-no_entry k [] = refl
descend-no_entry k (j ∷ ks) = refl

-- The entries that a write goes on in: below the key they read as the context does.
record Enters (k : String) (d e : Entries) : Type 0 where
  reads : (j : String) (js : List String) → descend j js e ≡ descend k (j ∷ js) d
  blocks : (j : String) (js : List String) → is_blocked j js e ≡ is_blocked k (j ∷ js) d

module _ (k j : String) (ks : List String) (v : Value) (d e : Entries) (n : Enters k d e) where
  below_key :
      (e' : Entries) (is : List String)
      → IsWritten j ks v e (some e')
      → are_apart k (j ∷ ks) k is ≡ true
      → descend k is (put_at k (dict e') d) ≡ descend k is d
  unfolding are_apart
  below_key e' [] w h = ground (arith, eq_refl k)
  below_key e' (i ∷ is) w h =
      put_at-below k i is e' d ∙ (w.1 i is (ground (arith, eq_refl k)) ∙ n.reads i is)

  below_apart :
      (e' : Entries) (i : String) (is : List String)
      → IsWritten j ks v e (some e')
      → are_apart k (j ∷ ks) i is ≡ true
      → descend i is (put_at k (dict e') d) ≡ descend i is d
  below_apart e' i is w h = elim (Bool-cases (str_eq k i)) [
    | inr other ↦ put_at-elsewhere k i is (dict e') d other
    | inl same ↦
        let equal : k ≡ i = (eq_iff k i).0 same in
        subst (λ x. descend x is (put_at k (dict e') d) ≡ descend x is d) equal
          (below_key e' is w (subst (λ x. are_apart k (j ∷ ks) x is ≡ true) (sym equal) h))
  ]

  write_below :
      (r : Option Entries)
      → IsWritten j ks v e r
      → IsWritten k (j ∷ ks) v d (elim r [ none ↦ none | some e' ↦ some (put_at k (dict e') d) ])
  write_below none w = sym (n.blocks j ks) ∙ w
  write_below (some e') w = (put_at-below k j ks e' d ∙ w.0, λ i is h. below_apart e' i is w h)

Enters-new : (k : String) (d : Entries) → value_at k d ≡ none → Enters k d no_entry
unfolding descend is_blocked
Enters-new k d h = record {
  reads = λ j js. rw (descend, h) (descend-no_entry j js);
  blocks = λ j js. rw (is_blocked, h) (no_entry-blocked j js);
}

Enters-old : (k : String) (d e : Entries) → value_at k d ≡ some (dict e) → Enters k d e
unfolding descend is_blocked
Enters-old k d e h = record {
  reads = λ j js. rw (descend, h) refl;
  blocks = λ j js. rw (is_blocked, h) refl;
}

blocked_at :
    (k j x : String) (ks : List String) (d : Entries)
    → value_at k d ≡ some (other_value x)
    → is_blocked k (j ∷ ks) d ≡ true
unfolding is_blocked
blocked_at k j x ks d h = rw (is_blocked, h) refl

write_into :
    (k j : String) (ks : List String) (v : Value) (d : Entries) (o : Option Value)
    → ((e : Entries) → IsWritten j ks v e (set_context j ks v e))
    → value_at k d ≡ o
    → IsWritten k (j ∷ ks) v d (elim (nested_of o) [
      | none ↦ none
      | some e ↦ elim (set_context j ks v e) [ none ↦ none | some e' ↦ some (put_at k (dict e') d) ]
    ])
unfolding nested_of is_blocked
write_into k j ks v d none w h =
    write_below k j ks v d no_entry (Enters-new k d h) (set_context j ks v no_entry) (w no_entry)
write_into k j ks v d (some (other_value x)) w h = blocked_at k j x ks d h
write_into k j ks v d (some (dict e)) w h =
    write_below k j ks v d e (Enters-old k d e h) (set_context j ks v e) (w e)

apart_keys : (k j : String) (js : List String) → are_apart k [] j js ≡ true → str_eq k j ≡ false
unfolding are_apart
apart_keys k j [] h = ground arith
apart_keys k j (i ∷ is) h = ground arith

-- A value that is written into the context is read back at its path, and no path apart from it reads
-- another value than before. The write fails only where a shorter path leads to a value that is no
-- dict.
pub set_context-IsWritten :
    (k : String) (ks : List String) (v : Value) (d : Entries)
    → IsWritten k ks v d (set_context k ks v d)
unfolding set_context descend
set_context-IsWritten k [] v d = (
  rw (value_at-put_at k k v d) (rw (eq_refl k) refl),
  λ j js h. put_at-elsewhere k j js v d (apart_keys k j js h),
)
set_context-IsWritten k (j ∷ ks) v d =
    write_into k j ks v d (value_at k d) (set_context-IsWritten j ks v) refl
