-- ===== src/Filters/Printed.antt =====
-- Filters written as JSON lists, and read back.
use fastedgy.Prelude.{true, some, String, ◌≡◌, refl, ap, sym, ◌∙◌}
use fastedgy.Prelude.Dict.{has_name}
use fastedgy.Filters.{
  str, arr, Jsons, no_json, json_cons, FilterTuple, rule3, condition_tuple, raw, FilterTuples,
  no_tuple, tuple_cons, FilterConditionType, and_type, or_type, Filter, rule, condition, Filters,
  no_filter, filter_cons, Parsed, parsed, condition_type, tuple_of, parse_array, parse_items,
  filter_operators, combine, push_filter, push_tuple, create_condition, create_filter,
  create_filters, parse_tuple, parse_next, parse_filter_input, list_form, flat_form, condition_form,
}

-- Every operator is supported, and no condition is without rules.
unfoldable mutual
  pub IsSupported : Filter → Type 0
  IsSupported (rule field operator value) = has_name operator filter_operators ≡ true
  IsSupported (condition type fs) = AreRules fs

  pub AreRules : Filters → Type 0
  AreRules no_filter = ⊥
  AreRules (filter_cons f fs) = IsSupported f × AreSupported fs

  pub AreSupported : Filters → Type 0
  AreSupported no_filter = Unit
  AreSupported (filter_cons f fs) = IsSupported f × AreSupported fs

abbrev pub symbol : FilterConditionType → String
symbol and_type = "&"
symbol or_type = "|"

-- A rule as `[field, operator, value]` and a condition as `["&", rules]`.
unfoldable mutual
  pub elements : Filter → Jsons
  elements (rule field operator value) =
      json_cons (str field) (json_cons (str operator) (json_cons value no_json))
  elements (condition type fs) =
      json_cons (str (symbol type)) (json_cons (arr (print_all fs)) no_json)

  pub print_all : Filters → Jsons
  print_all no_filter = no_json
  print_all (filter_cons f fs) = json_cons (arr (elements f)) (print_all fs)

-- What the first pass reads of it.
unfoldable mutual
  tuple_form : Filter → FilterTuple
  tuple_form (rule field operator value) = rule3 field operator value
  tuple_form (condition type fs) = condition_tuple (symbol type) (tuple_forms fs)

  tuple_forms : Filters → FilterTuples
  tuple_forms no_filter = no_tuple
  tuple_forms (filter_cons f fs) = tuple_cons (tuple_form f) (tuple_forms fs)

mutual
  unfolding parse_array elements tuple_form tuple_of

  parse_array-elements : (f : Filter) → parse_array (elements f) ≡ parsed (some (tuple_form f))
  parse_array-elements (rule field operator value) = refl
  parse_array-elements (condition type fs) =
      ap (condition_form (symbol type)) (parse_items-print_all fs)

  parse_items-print_all : (fs : Filters) → parse_items (print_all fs) ≡ parsed (tuple_forms fs)
  parse_items-print_all no_filter = refl
  parse_items-print_all (filter_cons f fs) =
      rw (parse_array-elements f) (rw (parse_items-print_all fs) refl)

create_condition-symbol :
    (type : FilterConditionType) (r : Parsed Filters)
    → create_condition (symbol type) r ≡ combine type r
unfolding create_condition condition_type
create_condition-symbol and_type r = refl
create_condition-symbol or_type r = refl

mutual
  unfolding create_filter tuple_form IsSupported

  create_filter-tuple_form :
      (f : Filter) → IsSupported f → create_filter (tuple_form f) ≡ parsed (some f)
  create_filter-tuple_form (rule field operator value) h = rw h refl
  create_filter-tuple_form (condition type no_filter) h = absurd h
  create_filter-tuple_form (condition type (filter_cons f fs)) (h, hs) =
      let rules : push_filter (create_filter (tuple_form f)) (create_filters (tuple_forms fs))
          ≡ parsed (filter_cons f fs) =
        rw (create_filter-tuple_form f h) (rw (create_filters-tuple_forms fs hs) refl) in
      create_condition-symbol type _ ∙ ap (combine type) rules

  create_filters-tuple_forms :
      (fs : Filters) → AreSupported fs → create_filters (tuple_forms fs) ≡ parsed fs
  create_filters-tuple_forms no_filter h = refl
  create_filters-tuple_forms (filter_cons f fs) (h, hs) =
      rw (create_filter-tuple_form f h) (rw (create_filters-tuple_forms fs hs) refl)

-- The parser always gives a condition.
abbrev pub as_condition : Filter → Filter
as_condition (rule field operator value) =
    condition and_type (filter_cons (rule field operator value) no_filter)
as_condition (condition type fs) = condition type fs

-- A filter whose operators are supported and whose conditions all have rules, written as a JSON
-- list, is read back as itself, a single rule as the condition of just that rule.
pub parse_filter_input-elements :
    (f : Filter) → IsSupported f → parse_filter_input (elements f) ≡ parsed (some (as_condition f))
unfolding parse_filter_input parse_tuple tuple_form
parse_filter_input-elements (rule field operator value) h =
    rw (parse_array-elements (rule field operator value))
      (rw (create_filter-tuple_form (rule field operator value) h) refl)
parse_filter_input-elements (condition type fs) h =
    rw (parse_array-elements (condition type fs)) (create_filter-tuple_form (condition type fs) h)

flat-elements :
    (type : FilterConditionType) (f g : Filter) (fs : Filters)
    → parse_filter_input
        (json_cons (str (symbol type)) (print_all (filter_cons f (filter_cons g fs))))
      ≡ parse_filter_input (elements (condition type (filter_cons f (filter_cons g fs))))
unfolding parse_filter_input parse_array elements tuple_form tuple_of condition_type
flat-elements and_type f g fs =
    let all = parse_items-print_all (filter_cons f (filter_cons g fs)) in
    ap (λ r. parse_next (flat_form "&" r (push_tuple (parsed (some (raw (str "&")))) r))) all
    ∙ sym (ap (λ r. parse_next (condition_form "&" r)) all)
flat-elements or_type f g fs =
    let all = parse_items-print_all (filter_cons f (filter_cons g fs)) in
    ap (λ r. parse_next (flat_form "|" r (push_tuple (parsed (some (raw (str "|")))) r))) all
    ∙ sym (ap (λ r. parse_next (condition_form "|" r)) all)

-- The notations of a condition. Two or more filters, each written as a list, are read as the
-- condition of all of them where they stand in a list, and as the condition that its first element
-- names where that is "&" or "|": just as if they stood in a list behind it.
pub parse_filter_input-notations :
    (type : FilterConditionType) (f g : Filter) (fs : Filters)
    → AreSupported (filter_cons f (filter_cons g fs))
    → (parse_filter_input (print_all (filter_cons f (filter_cons g fs)))
        ≡ parsed (some (condition and_type (filter_cons f (filter_cons g fs)))))
      × (parse_filter_input
            (json_cons (str (symbol type)) (print_all (filter_cons f (filter_cons g fs))))
          ≡ parse_filter_input (elements (condition type (filter_cons f (filter_cons g fs)))))
unfolding parse_filter_input parse_array elements tuple_form tuple_of create_filter parse_tuple
    IsSupported
parse_filter_input-notations type f g fs h =
    let all = parse_items-print_all (filter_cons f (filter_cons g fs)) in
    (
      ap (λ r. parse_next (list_form r)) all
          ∙ create_filter-tuple_form (condition and_type (filter_cons f (filter_cons g fs))) h,
      flat-elements type f g fs,
    )
