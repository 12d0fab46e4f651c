-- ===== src/FieldSelector/Allowed.antt =====
-- A selection that asks only for what may be read, and the walk along a path.
pub mod Parsed
use fastedgy.Prelude.{
  ◌≡◌, refl, sym, ap, Bool, true, false, ◌||◌, inl, inr, Option, none, some, String, List, [], ◌∷◌,
  any, All, Bool-cases, not, eq_iff, eq_refl, arith,
}
use mathlib.Core.Path.{subst}
use fastedgy.Prelude.Dict.{lookup, has_name}
use fastedgy.FieldSelector.{
  Target, Field, Schema, Selection, leaf, one, many, Selections, no_selection, selection_cons,
  selected, select, only_id, selector_of, add_field_selector, Place, at, anywhere, nowhere,
  place_after, contents, with_contents, is_nowhere, is_some, field_at, is_computed, passes,
  add_leaf, enter, walk, has_extra, select_name, select_path, select_paths, is_plus, add_fields,
  add_names, start_with, parse_field_selector_input,
}
use text.Mathlib.Text.{◌==◌ as str_eq}

abbrev pub is_shown : Option Field → Bool
is_shown none = false
is_shown (some f) = not f.exclude

module _ (s : Schema) where
  -- The names that may be read of a record of a model.
  abbrev pub may_read : Place → String → Bool
  may_read (at m) name =
      is_shown (lookup name (s.fields m))
      || (is_computed s m name || has_extra s m (s.extra_name name))
  may_read anywhere name = true
  may_read nowhere name = false

  -- Each value that is selected is the id or may be read; below a relation this holds for the model
  -- that it refers to, and below anything else only the id is selected.
  mutual
    pub IsAllowed : Place → Selections → Type 0
    IsAllowed place no_selection = Unit
    IsAllowed place (selection_cons name v d) = IsEntry place name v × IsAllowed place d

    pub IsEntry : Place → String → Selection → Type 0
    IsEntry place name leaf = str_eq name "id" || may_read place name ≡ true
    IsEntry place name (one d) = IsAllowed (place_after (field_at s place name)) d
    IsEntry place name (many d) = IsAllowed (place_after (field_at s place name)) d

  pub select-IsAllowed :
      (place : Place) (k : String) (v : Selection) (d : Selections)
      → IsEntry place k v
      → IsAllowed place d
      → IsAllowed place (select k v d)
  unfolding select IsAllowed
  select-IsAllowed place k v no_selection e a = (e, tt)
  select-IsAllowed place k v (selection_cons j w d) e a = elim (Bool-cases (str_eq j k)) [
    | inl y ↦ rw y (subst (λ x. IsEntry place x v) (sym ((eq_iff j k).0 y)) e, a.1)
    | inr n ↦ rw n (a.0, select-IsAllowed place k v d e a.1)
  ]

  pub only_id-IsAllowed : (place : Place) → IsAllowed place only_id
  unfolding IsAllowed
  only_id-IsAllowed place = (refl, tt)

  abbrev IsOption : Place → String → Option Selection → Type 0
  IsOption place name none = Unit
  IsOption place name (some v) = IsEntry place name v

  selected-IsOption :
      (place : Place) (k : String) (d : Selections)
      → IsAllowed place d
      → IsOption place k (selected k d)
  unfolding selected IsAllowed
  selected-IsOption place k no_selection a = tt
  selected-IsOption place k (selection_cons j v d) a = elim (Bool-cases (str_eq j k)) [
    | inl y ↦ rw y (subst (λ x. IsEntry place x v) ((eq_iff j k).0 y) a.0)
    | inr n ↦ rw n (selected-IsOption place k d a.1)
  ]

  contents-IsAllowed :
      (place : Place) (name : String) (o : Option Selection)
      → IsOption place name o
      → IsAllowed (place_after (field_at s place name)) (contents o)
  unfolding contents IsAllowed
  contents-IsAllowed place name none a = only_id-IsAllowed (place_after (field_at s place name))
  contents-IsAllowed place name (some leaf) a =
      only_id-IsAllowed (place_after (field_at s place name))
  contents-IsAllowed place name (some (one d)) a = a
  contents-IsAllowed place name (some (many d)) a = a

  with_contents-IsEntry :
      (place : Place) (name : String) (o : Option Selection) (d : Selections)
      → IsAllowed (place_after (field_at s place name)) d
      → IsEntry place name (with_contents o d)
  unfolding with_contents IsAllowed
  with_contents-IsEntry place name none d a = a
  with_contents-IsEntry place name (some leaf) d a = a
  with_contents-IsEntry place name (some (one e)) d a = a
  with_contents-IsEntry place name (some (many e)) d a = a

  select-select :
      (k : String) (v w : Selection) (d : Selections) → select k v (select k w d) ≡ select k v d
  unfolding select
  select-select k v w no_selection = rw (eq_refl k) refl
  select-select k v w (selection_cons j x d) = elim (Bool-cases (str_eq j k)) [
    | inl y ↦ rw y (rw y refl)
    | inr n ↦ rw n (rw n (ap (selection_cons j x) (select-select k v w d)))
  ]

  selected-select :
      (k : String) (v : Selection) (d : Selections) → selected k (select k v d) ≡ some v
  unfolding select selected
  selected-select k v no_selection = rw (eq_refl k) refl
  selected-select k v (selection_cons j x d) = ground (arith, eq_iff k k, selected-select k v d)

  selector_of-contents : (t : Target) → contents (some (selector_of t)) ≡ only_id
  unfolding contents selector_of
  selector_of-contents (Target.scalar) = refl
  selector_of-contents (Target.m2m t) = refl
  selector_of-contents (Target.related_from t) = refl
  selector_of-contents (Target.generic_foreign_key c i) = refl
  selector_of-contents (Target.foreign_key t) = refl

  -- What the path finds at a name, and what it may put there.
  abbrev Entered : Place → String → Selections → Selections → Type 0
  Entered place name d entered =
      IsAllowed (place_after (field_at s place name)) (contents (selected name entered))
      × ((v : Selection) → IsEntry place name v → IsAllowed place (select name v entered))

  as_it_was :
      (place : Place) (name : String) (d : Selections) → IsAllowed place d → Entered place name d d
  as_it_was place name d a = (
    contents-IsAllowed place name (selected name d) (selected-IsOption place name d a),
    λ v e. select-IsAllowed place name v d e a,
  )

  add-Entered :
      (place : Place) (name : String) (f : Option Field) (d : Selections)
      → IsAllowed place d
      → Entered place name d (add_field_selector name f true d)
  unfolding add_field_selector
  add-Entered place name none d a = as_it_was place name d a
  add-Entered place name (some f) d a =
      let forced : not f.exclude || true ≡ true = ground arith in
      rw forced (
        rw (selected-select name (selector_of f.target) d) (
            rw (selector_of-contents f.target)
              (only_id-IsAllowed (place_after (field_at s place name)))),
        λ v e.
            rw (select-select name v (selector_of f.target) d)
              (select-IsAllowed place name v d e a),
      )

  enter-Entered :
      (place : Place) (name : String) (f : Option Field) (d : Selections)
      → IsAllowed place d
      → Entered place name d (enter s f name d)
  unfolding enter
  enter-Entered place name f d a = elim (Bool-cases (is_some (selected name d))) [
    | inl y ↦ rw y (as_it_was place name d a)
    | inr n ↦ rw n (add-Entered place name f d a)
  ]

  add_leaf-IsAllowed :
      (place : Place) (name : String) (d : Selections)
      → IsAllowed place d
      → IsAllowed place (add_leaf s place name d)
  unfolding add_leaf IsAllowed
  add_leaf-IsAllowed (at m) name d a =
      elim (Bool-cases (passes (lookup name (s.fields m)) || is_computed s m name)) [
        | inl y ↦ rw y (select-IsAllowed (at m) name leaf d (ground arith) a)
        | inr n ↦ rw n a
      ]
  add_leaf-IsAllowed anywhere name d a = select-IsAllowed anywhere name leaf d (ground arith) a
  add_leaf-IsAllowed nowhere name d a = a

  pub walk-IsAllowed :
      (place : Place) (names : List String) (d : Selections)
      → IsAllowed place d
      → IsAllowed place (walk s place names d)
  unfolding walk
  walk-IsAllowed place [] d a = a
  walk-IsAllowed place (name ∷ []) d a = add_leaf-IsAllowed place name d a
  walk-IsAllowed place (name ∷ next ∷ rest) d a =
      let field = field_at s place name in
      let entered = enter s field name d in
      let (below, put) = enter-Entered place name field d a in
      let entry = selected name entered in
      elim (Bool-cases (is_nowhere place)) [
        | inl y ↦ rw y a
        | inr n ↦ rw n (
            put (with_contents entry (walk s (place_after field) (next ∷ rest) (contents entry))) (
              with_contents-IsEntry place name entry
                (walk s (place_after field) (next ∷ rest) (contents entry))
                (walk-IsAllowed (place_after field) (next ∷ rest) (contents entry) below)))
      ]
