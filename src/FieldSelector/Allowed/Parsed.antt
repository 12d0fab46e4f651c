-- ===== src/FieldSelector/Allowed/Parsed.antt =====
-- A parsed selection asks only for what may be read.
use fastedgy.Prelude.{
  ◌≡◌, refl, Bool, true, false, ◌||◌, inl, inr, Option, none, some, String, List, [], ◌∷◌, any, All,
  Bool-cases, not, eq_refl, arith,
}
use fastedgy.Prelude.Dict.{lookup, has_name}
use fastedgy.FieldSelector.{
  Target, Field, Schema, leaf, Selections, select, only_id, selector_of, add_field_selector, Place,
  at, place_after, is_some, field_at, is_computed, has_extra, select_name, select_path,
  select_paths, is_plus, add_fields, add_names, start_with, parse_field_selector_input,
}
use text.Mathlib.Text.{◌==◌ as str_eq}
use fastedgy.FieldSelector.Allowed.{
  may_read, IsAllowed, IsEntry, select-IsAllowed, only_id-IsAllowed, walk-IsAllowed,
}

module _ (s : Schema) where
  readable : (m name : String) → may_read s (at m) name ≡ true → IsEntry s (at m) name leaf
  unfolding IsAllowed
  readable m name h = ground arith

  selector-IsEntry :
      (place : Place) (name : String) (t : Target)
      → IsEntry s place name leaf
      → IsEntry s place name (selector_of t)
  unfolding selector_of IsAllowed
  selector-IsEntry place name (Target.scalar) e = e
  selector-IsEntry place name (Target.m2m t) e =
      only_id-IsAllowed s (place_after (field_at s place name))
  selector-IsEntry place name (Target.related_from t) e =
      only_id-IsAllowed s (place_after (field_at s place name))
  selector-IsEntry place name (Target.generic_foreign_key c i) e =
      only_id-IsAllowed s (place_after (field_at s place name))
  selector-IsEntry place name (Target.foreign_key t) e =
      only_id-IsAllowed s (place_after (field_at s place name))

  add_field-IsAllowed :
      (m name : String) (f : Option Field) (d : Selections)
      → lookup name (s.fields m) ≡ f
      → IsAllowed s (at m) d
      → IsAllowed s (at m) (add_field_selector name f false d)
  unfolding add_field_selector
  add_field-IsAllowed m name none d e a = a
  add_field-IsAllowed m name (some f) d e a = elim (Bool-cases (not f.exclude || false)) [
    | inl y ↦ rw y (
        select-IsAllowed s (at m) name (selector_of f.target) d
          (selector-IsEntry (at m) name f.target (readable m name (rw e (ground arith)))) a)
    | inr n ↦ rw n a
  ]

  select_name-IsAllowed :
      (m name : String) (d : Selections)
      → IsAllowed s (at m) d
      → IsAllowed s (at m) (select_name s m name d)
  unfolding select_name
  select_name-IsAllowed m name d a = elim (Bool-cases (is_some (s.extra_name name))) [
    | inl y ↦ elim (Bool-cases (has_extra s m (s.extra_name name))) [
      | inl z ↦
          rw y (rw z (select-IsAllowed s (at m) name leaf d (readable m name (ground arith)) a))
      | inr z ↦ rw y (rw z a)
    ]
    | inr n ↦ elim (Bool-cases (is_computed s m name)) [
      | inl z ↦
          rw n (rw z (select-IsAllowed s (at m) name leaf d (readable m name (ground arith)) a))
      | inr z ↦ rw n (rw z (add_field-IsAllowed m name (lookup name (s.fields m)) d refl a))
    ]
  ]

  select_path-IsAllowed :
      (m : String) (p : List String) (d : Selections)
      → IsAllowed s (at m) d
      → IsAllowed s (at m) (select_path s m p d)
  unfolding select_path
  select_path-IsAllowed m [] d a = a
  select_path-IsAllowed m (name ∷ []) d a = elim (Bool-cases (str_eq name "+")) [
    | inl y ↦ rw y a
    | inr n ↦ rw n (select_name-IsAllowed m name d a)
  ]
  select_path-IsAllowed m (name ∷ next ∷ rest) d a =
      walk-IsAllowed s (at m) (name ∷ next ∷ rest) d a

  select_paths-IsAllowed :
      (m : String) (ps : List (List String)) (d : Selections)
      → IsAllowed s (at m) d
      → IsAllowed s (at m) (select_paths s m ps d)
  unfolding select_paths
  select_paths-IsAllowed m [] d a = a
  select_paths-IsAllowed m (p ∷ ps) d a =
      select_paths-IsAllowed m ps (select_path s m p d) (select_path-IsAllowed m p d a)

  -- No field is listed twice, as in a dict.
  abbrev pub IsDict : String → Type 0
  IsDict m = All (λ (p : String × Field). lookup p.0 (s.fields m) ≡ some p.1) (s.fields m)

  add_fields-IsAllowed :
      (m : String) (fs : List (String × Field)) (d : Selections)
      → All (λ (p : String × Field). lookup p.0 (s.fields m) ≡ some p.1) fs
      → IsAllowed s (at m) d
      → IsAllowed s (at m) (add_fields fs d)
  unfolding add_fields
  add_fields-IsAllowed m [] d k a = a
  add_fields-IsAllowed m ((name, f) ∷ fs) d k a =
      add_fields-IsAllowed m fs (add_field_selector name (some f) false d) k.1
        (add_field-IsAllowed m name (some f) d k.0 a)

  add_names-IsAllowed :
      (m : String) (names : List String) (d : Selections)
      → ((n : String) → has_name n names ≡ true → is_computed s m n ≡ true)
      → IsAllowed s (at m) d
      → IsAllowed s (at m) (add_names names d)
  unfolding add_names has_name
  add_names-IsAllowed m [] d k a = a
  add_names-IsAllowed m (name ∷ names) d k a =
      let first : is_computed s m name ≡ true = k name (rw (eq_refl name) refl) in
      add_names-IsAllowed m names (select name leaf d) (λ n h. k n (ground arith))
        (select-IsAllowed s (at m) name leaf d (readable m name (ground arith)) a)

  start_with-IsAllowed :
      (m : String) (plus : Bool) → IsDict m → IsAllowed s (at m) (start_with s plus m)
  unfolding start_with
  start_with-IsAllowed m true k =
      add_names-IsAllowed m (s.model_computed_fields m) (add_fields (s.fields m) only_id) (λ n h. h)
        (add_fields-IsAllowed m (s.fields m) only_id k (only_id-IsAllowed s (at m)))
  start_with-IsAllowed m false k = only_id-IsAllowed s (at m)

  abbrev pub AllowedOption : String → Option Selections → Type 0
  AllowedOption m none = Unit
  AllowedOption m (some d) = IsAllowed s (at m) d

  -- Whatever a client asks for, each value in the parsed selection is the id, a field that is not
  -- excluded, a computed field or a registered extra field of the model that the path leads to, or a
  -- name of a record of any model. Below a name that is no relation only the id is selected. No field
  -- of the model may be listed twice.
  pub parse_field_selector_input-IsAllowed :
      (m : String) (paths : List (List String))
      → IsDict m
      → AllowedOption m (parse_field_selector_input s m paths)
  unfolding parse_field_selector_input
  parse_field_selector_input-IsAllowed m [] k = tt
  parse_field_selector_input-IsAllowed m (p ∷ ps) k =
      select_paths-IsAllowed m (p ∷ ps) (start_with s (any (is_plus) (p ∷ ps)) m)
        (start_with-IsAllowed m (any (is_plus) (p ∷ ps)) k)
