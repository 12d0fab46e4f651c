-- ===== src/Filters/Validate.antt =====
-- fastedgy/orm/filter/validator.py: whether the fields of a filter exist and may be filtered, and its
-- operators fit their fields. The models are the record Models.
pub mod Accepted
use fastedgy.Prelude.{
  Bool, true, false, ◌&&◌, ◌||◌, Option, none, some, String, List, [], ◌∷◌, if◌then◌else◌, not,
}
use fastedgy.Prelude.Dict.{lookup, has_name}
use fastedgy.Text.{split_on, remove_prefix}
use fastedgy.Filters.{
  Json, FilterConditionType, Filter, rule, condition, Filters, no_filter, filter_cons,
  InvalidFilterError, invalid_expression, invalid_field, invalid_operator, Parsed, parsed, invalid,
}
use fastedgy.Filters.Operators.{get_filter_operators}
use text.Mathlib.Text.{◌==◌ as str_eq}

pub record FieldInfo : Type 0 where
  -- its class
  pub type : String
  -- `hasattr(field_info, "getter")`
  pub has_getter : Bool
  pub exclude : Bool
  pub filterable : Option Bool
  -- `target`, else `related_from`
  pub leads_to : Option String

-- The models by their names.
pub record Models : Type 0 where
  -- `meta.fields`
  pub fields : String → List (String × FieldInfo)
  -- the column that `resolve_generic_pair` finds for a path
  pub generic_pair : String → String → Option String
  -- `get_map_workspace_extra_fields`: the class of each extra field, if its type has one
  pub extra_fields : String → List (String × Option String)
  -- `issubclass`
  pub is_instance : String → String → Bool

abbrev pub is_some {ℓ} : {A : Type ℓ} → Option A → Bool
is_some none = false
is_some (some _) = true

abbrev pub attr_or : Option Bool → Bool → Bool
attr_or none d = d
attr_or (some b) d = b

-- Whether the last field of a path may be filtered.
unfoldable pub is_filterable : Bool → FieldInfo → Bool
is_filterable allow_excluded f =
    if f.exclude && not allow_excluded
    then attr_or f.filterable false
    else if not f.exclude
    then attr_or f.filterable true
    else true

module _ (ms : Models) where
  -- The loop of `validate_filter_field` over the parts of a path.
  unfoldable pub field_passes : Bool → String → List String → Bool
  field_passes allow m [] = true
  field_passes allow m (part ∷ []) = elim (lookup part (ms.fields m)) [
    | none ↦ false
    | some f ↦ not f.has_getter && is_filterable allow f
  ]
  field_passes allow m (part ∷ next ∷ rest) = elim (lookup part (ms.fields m)) [
    | none ↦ false
    | some f ↦ elim f.leads_to [
      | none ↦ false
      | some t ↦ not f.has_getter && field_passes allow t (next ∷ rest)
    ]
  ]

  unfoldable pub operators_of : String → List String
  operators_of type = get_filter_operators ms.is_instance type

  -- The loop of `validate_filter_operator`.
  unfoldable pub operator_passes : String → String → List String → Bool
  unfolding operators_of
  operator_passes op m [] = false
  operator_passes op m (part ∷ []) = elim (lookup part (ms.fields m)) [
    | none ↦ false
    | some f ↦ has_name op (operators_of f.type)
  ]
  operator_passes op m (part ∷ next ∷ rest) = elim (lookup part (ms.fields m)) [
    | none ↦ false
    | some f ↦ elim f.leads_to [ none ↦ false | some t ↦ operator_passes op t (next ∷ rest) ]
  ]

  -- An extra field, and the operators of its class.
  unfoldable pub extra_passes : String → String → Bool
  extra_passes m name =
      is_some (lookup "extra" (ms.fields m)) && is_some (lookup name (ms.extra_fields m))

  unfoldable pub extra_operators : String → String → List String
  unfolding operators_of
  extra_operators m name = elim (lookup name (ms.extra_fields m)) [
    | none ↦ []
    | some o ↦ elim o [ none ↦ [] | some type ↦ operators_of type ]
  ]

  unfoldable pub column_operators : String → String → List String
  unfolding operators_of
  column_operators m column = elim (lookup column (ms.fields m)) [
    | none ↦ []
    | some f ↦ operators_of f.type
  ]

  -- `field_path.split(".")`
  unfoldable pub parts_of : String → List String
  parts_of path = split_on 46 path

  -- The tests by the generic column and the extra field that the path names, if any.
  unfoldable pub field_at_place : Bool → String → List String → Option String → Option String → Bool
  unfolding field_passes extra_passes
  field_at_place allow m parts (some column) o = true
  field_at_place allow m parts none (some name) = extra_passes m name
  field_at_place allow m parts none none = field_passes allow m parts

  unfoldable pub operator_at_place :
      String → String → List String → Option String → Option String → Bool
  unfolding operator_passes extra_passes extra_operators column_operators
  operator_at_place op m parts (some column) o = has_name op (column_operators m column)
  operator_at_place op m parts none (some name) =
      extra_passes m name && has_name op (extra_operators m name)
  operator_at_place op m parts none none = operator_passes op m parts

  unfoldable pub validate_filter_field : Bool → String → String → Bool
  unfolding field_at_place
  validate_filter_field allow m path =
      if str_eq path ""
      then false
      else field_at_place allow m (parts_of path) (ms.generic_pair m path)
          (remove_prefix "extra_" path)

  unfoldable pub validate_filter_operator : String → String → String → Bool
  unfolding operator_at_place
  validate_filter_operator m path op =
      if str_eq path "" || str_eq op ""
      then false
      else operator_at_place op m (parts_of path) (ms.generic_pair m path)
          (remove_prefix "extra_" path)

  -- A rule of a filter.
  unfoldable pub validate_rule : Bool → String → String → String → Json → Parsed Filter
  validate_rule allow m path op value =
      if not (validate_filter_field allow m path)
      then invalid (invalid_field path)
      else if not (validate_filter_operator m path op)
      then invalid (invalid_operator op path)
      else parsed (rule path op value)

  abbrev pub push_rule : Parsed Filter → Parsed Filters → Parsed Filters
  push_rule (invalid e) rest = invalid e
  push_rule (parsed f) (invalid e) = invalid e
  push_rule (parsed f) (parsed fs) = parsed (filter_cons f fs)

  -- `And(*rules)` or `Or(*rules)`; without rules the filter is refused.
  abbrev pub combine_rules : FilterConditionType → Parsed Filters → Parsed Filter
  combine_rules c (invalid e) = invalid e
  combine_rules c (parsed no_filter) = invalid invalid_expression
  combine_rules c (parsed (filter_cons f fs)) = parsed (condition c (filter_cons f fs))

  -- `validate_filters`
  unfoldable mutual
    unfolding validate_rule

    pub validate_filters : Bool → String → Filter → Parsed Filter
    validate_filters allow m (rule path op value) = validate_rule allow m path op value
    validate_filters allow m (condition c fs) = combine_rules c (validate_all allow m fs)

    pub validate_all : Bool → String → Filters → Parsed Filters
    validate_all allow m no_filter = parsed no_filter
    validate_all allow m (filter_cons f fs) =
        push_rule (validate_filters allow m f) (validate_all allow m fs)
