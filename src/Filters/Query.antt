-- ===== src/Filters/Query.antt =====
-- fastedgy/orm/filter/builder.py: from a filter to the expression of a query. The expressions of the
-- ORM for one rule are the constructors of Expression; what decides between them is the record
-- Builder, for one model.
pub mod Restricted
mod Examples
use fastedgy.Prelude.{
  Bool, true, false, ◌&&◌, ◌||◌, Option, none, some, String, List, [], ◌∷◌, if◌then◌else◌, not,
}
use fastedgy.Prelude.Dict.{has_name}
use fastedgy.Text.{has_char}
use fastedgy.Filters.{
  Json, arr, Jsons, no_json, json_cons, FilterConditionType, and_type, or_type, Filter, rule,
  condition, Filters, no_filter, filter_cons, filter_operators, InvalidFilterError,
  unsupported_operator, invalid_expression, invalid_field, needs_values, invalid_reference, Parsed,
  parsed, invalid, parse_filter_input,
}
use fastedgy.Filters.Validate.{Models, validate_filters}
use text.Mathlib.Text.{◌==◌ as str_eq}

-- An expression of a rule, by the way it is built, or of a condition.
mutual
  pub data Expression : Type 0 where
    search search_fuzzy exists generic_reference pattern between column lookup :
        String → String → Json → Expression
    all_of any_of : Expressions → Expression

  pub data Expressions : Type 0 where
    no_expression : Expressions
    expression_cons : Expression → Expressions → Expressions

pub record Builder : Type 0 where
  -- `parse_search_input(value)` finds a word, and so does `_tokenize`
  pub has_words : Json → Bool
  pub has_tokens : Json → Bool
  -- `_path_crosses_generic_relation`
  pub crosses_generic : String → Bool
  -- `_build_exists_expression` gives an expression, or raises an error
  pub exists_for : String → String → Json → Parsed Bool
  -- what `_find_field_type_in_model` raises, and `_find_column_in_model` behind the column of a relation
  pub find_field : String → Option InvalidFilterError
  pub find_column : String → Option InvalidFilterError
  -- `field.startswith("extra_") or resolve_generic_pair(model_cls, field) is not None`
  pub uses_column : String → Bool
  -- `is_generic_foreign_key` of the field's class
  pub is_generic_reference : String → Bool
  -- `isinstance(field_type, UUIDField)`
  pub is_uuid : String → Bool
  -- `generic_field._decompose` takes the model and the id
  pub decomposes : String → Json → Json → Bool
  -- `_has_duplicating_relation_filter`
  pub duplicates : Filter → Bool

-- `_PATTERN_OPERATORS`
abbrev pub pattern_operators : List String
pattern_operators =
    "like" ∷ "ilike" ∷ "not like" ∷ "not ilike" ∷ "starts with" ∷ "ends with" ∷ "not starts with"
    ∷ "not ends with" ∷ "contains" ∷ "icontains" ∷ "not contains" ∷ "not icontains" ∷ []

-- `FILTER_OPERATORS_SQL_UNPACK`, each with two values.
abbrev pub unpack_operators : List String
unpack_operators =
    "between" ∷ "l1 distance <" ∷ "l1 distance <=" ∷ "l1 distance >" ∷ "l1 distance >="
    ∷ "l2 distance <" ∷ "l2 distance <=" ∷ "l2 distance >" ∷ "l2 distance >=" ∷ "cosine distance <"
    ∷ "cosine distance <=" ∷ "cosine distance >" ∷ "cosine distance >=" ∷ "inner product <"
    ∷ "inner product <=" ∷ "inner product >" ∷ "inner product >=" ∷ "spatial distance <"
    ∷ "spatial distance <=" ∷ "spatial distance >" ∷ "spatial distance >="
    ∷ "spatial within distance" ∷ []

-- `isinstance(value, (list, tuple)) and len(value) >= 2`
abbrev pub has_two : Json → Bool
has_two (arr (json_cons a (json_cons b rest))) = true
has_two _ = false

abbrev pub is_or : FilterConditionType → Bool
is_or or_type = true
is_or and_type = false

-- `"." in field`
unfoldable pub is_path : String → Bool
is_path field = has_char 46 field

abbrev pub built : Expression → Parsed (Option Expression)
built e = parsed (some e)

module _ (b : Builder) where
  -- `_pair` raises no error.
  abbrev pub is_pair : String → Json → Bool
  is_pair field (arr (json_cons model (json_cons id no_json))) = b.decomposes field model id
  is_pair field _ = false

  unfoldable pub are_pairs : String → Jsons → Bool
  are_pairs field no_json = true
  are_pairs field (json_cons j js) = is_pair field j && are_pairs field js

  -- A list of references, with one at least.
  abbrev pub has_pairs : String → Json → Bool
  has_pairs field (arr no_json) = false
  has_pairs field (arr (json_cons j js)) = are_pairs field (json_cons j js)
  has_pairs field _ = false

  -- `_build_generic_reference_expression`
  unfoldable pub build_reference : String → String → Json → Parsed (Option Expression)
  unfolding are_pairs
  build_reference field op value =
      if has_name op ("=" ∷ "!=" ∷ [])
      then if is_pair field value
        then built (generic_reference field op value)
        else invalid (invalid_reference field)
      else if has_name op ("in" ∷ "not in" ∷ [])
      then if has_pairs field value
        then built (generic_reference field op value)
        else invalid (invalid_reference field)
      else if has_name op ("is empty" ∷ "is not empty" ∷ [])
      then built (generic_reference field op value)
      else invalid (unsupported_operator op)

  -- A rule whose column is found.
  unfoldable pub build_column : String → String → Json → Parsed (Option Expression)
  unfolding is_path
  build_column field op value =
      if not (is_path field) && (has_name op pattern_operators && b.is_uuid field)
      then built (pattern field op value)
      else if has_name op unpack_operators
      then if not (has_two value)
        then invalid (needs_values op)
        else if b.uses_column field
        then built (between field op value)
        else built (lookup field op value)
      else if b.uses_column field
      then built (column field op value)
      else built (lookup field op value)

  -- A rule whose field is found.
  unfoldable pub build_found : String → String → Json → Parsed (Option Expression)
  unfolding build_reference build_column
  build_found field op value =
      if not (is_path field) && b.is_generic_reference field
      then build_reference field op value
      else elim (b.find_column field) [ some e ↦ invalid e | none ↦ build_column field op value ]

  -- A rule, behind the full text operators and the test that its operator is supported.
  unfoldable pub build_test : String → String → Json → Parsed (Option Expression)
  unfolding build_found
  build_test field op value =
      if is_path field && b.crosses_generic field
      then elim (b.exists_for field op value) [
        | invalid e ↦ invalid e
        | parsed found ↦
            if found then built (exists field op value) else invalid (invalid_field field)
      ]
      else elim (b.find_field field) [ some e ↦ invalid e | none ↦ build_found field op value ]

  unfoldable pub build_rule : String → String → Json → Parsed (Option Expression)
  unfolding build_test
  build_rule field op value =
      if str_eq op "search"
      then parsed (if b.has_words value then some (search field op value) else none)
      else if str_eq op "search_fuzzy"
      then parsed (if b.has_tokens value then some (search_fuzzy field op value) else none)
      else if not (has_name op filter_operators)
      then invalid (unsupported_operator op)
      else build_test field op value

  -- `expressions.append(expr)`, unless it is None.
  abbrev pub push_expression : Parsed (Option Expression) → Parsed Expressions → Parsed Expressions
  push_expression (invalid e) rest = invalid e
  push_expression (parsed none) rest = rest
  push_expression (parsed (some x)) (invalid e) = invalid e
  push_expression (parsed (some x)) (parsed xs) = parsed (expression_cons x xs)

  abbrev pub combine_expressions :
      FilterConditionType → Parsed Expressions → Parsed (Option Expression)
  combine_expressions c (invalid e) = invalid e
  combine_expressions c (parsed no_expression) = parsed none
  combine_expressions c (parsed (expression_cons x no_expression)) = built x
  combine_expressions or_type (parsed xs) = built (any_of xs)
  combine_expressions and_type (parsed xs) = built (all_of xs)

  abbrev pub or_rule : Parsed Bool → String → String → Json → Parsed (Option Expression)
  or_rule (invalid e) field op value = invalid e
  or_rule (parsed true) field op value = built (exists field op value)
  or_rule (parsed false) field op value = build_rule field op value

  -- A rule with a path, below `|`, tests the path on its own, where that can be expressed.
  abbrev pub build_branch :
      FilterConditionType → String → String → Json → Parsed (Option Expression)
  build_branch c field op value =
      if is_or c && is_path field
      then or_rule (b.exists_for field op value) field op value
      else build_rule field op value

  -- `build_filter_expression`
  unfoldable mutual
    unfolding build_rule is_path

    pub build_filter_expression : Filter → Parsed (Option Expression)
    build_filter_expression (rule field op value) = build_rule field op value
    build_filter_expression (condition c fs) = combine_expressions c (build_rules c fs)

    pub build_rules : FilterConditionType → Filters → Parsed Expressions
    build_rules c no_filter = parsed no_expression
    build_rules c (filter_cons (rule field op value) fs) =
        push_expression (build_branch c field op value) (build_rules c fs)
    build_rules c (filter_cons (condition d gs) fs) =
        push_expression (combine_expressions d (build_rules d gs)) (build_rules c fs)

-- What becomes of a query: it stays, it selects nothing, it gets an expression and may be made
-- distinct, or the error of the filter is raised.
pub data Selected : Type 0 where
  whole nothing : Selected
  those : Expression → Bool → Selected
  raised : InvalidFilterError → Selected

abbrev pub refuse : Bool → InvalidFilterError → Selected
refuse restricted e = if restricted then nothing else raised e

unfoldable pub select_expression : Bool → Parsed (Option Expression) → Selected
select_expression distinct (invalid e) = raised e
select_expression distinct (parsed none) = whole
select_expression distinct (parsed (some x)) = those x distinct

-- `filter_query` of a filter that is a list, or of none, without the rank that
-- `_add_fulltext_rank_extra_select` adds to the columns. `restricted` is `restrict_error` on a model
-- that has a primary key, and `undistinct` is a query without `distinct_on` on such a model.
module _ (ms : Models) (b : Builder) (allow restricted undistinct : Bool) (m : String) where
  unfoldable pub select_valid : Parsed Filter → Selected
  unfolding select_expression
  select_valid (invalid e) = refuse restricted e
  select_valid (parsed f) =
      select_expression (b.duplicates f && undistinct) (build_filter_expression b f)

  unfoldable pub select_parsed : Parsed (Option Filter) → Selected
  unfolding select_valid
  select_parsed (invalid e) = refuse restricted e
  select_parsed (parsed none) = refuse restricted invalid_expression
  select_parsed (parsed (some f)) = select_valid (validate_filters ms allow m f)

  unfoldable pub filter_query : Option Jsons → Selected
  unfolding select_parsed
  filter_query none = whole
  filter_query (some js) = select_parsed (parse_filter_input js)
