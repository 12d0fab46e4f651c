-- ===== src/Filters/WellFormed.antt =====
-- What every filter that the parser accepts is, and the notations that mean the same.
use fastedgy.Prelude.{Option, none, some, String, ◌≡◌, refl, ap, ◌∙◌, Bool-cases, inl, inr}
use fastedgy.Prelude.Dict.{has_name}
use mathlib.Core.Path.{subst}
use fastedgy.Filters.{
  Json, null, Jsons, FilterTuple, rule2, rule3, condition_tuple, raw, FilterTuples, no_tuple,
  tuple_cons, FilterConditionType, Filter, Filters, no_filter, filter_cons, Parsed, parsed, invalid,
  condition_type, parse_array, filter_operators, create_rule, combine, combine_as, and_rule,
  push_filter, create_condition, create_filter, create_filters, parse_tuple, parse_next,
  parse_filter_input,
}
use fastedgy.Filters.Printed.{
  IsSupported, AreSupported, elements, as_condition, parse_filter_input-elements,
}

-- A filter comes out as a condition in which every operator is supported and every condition has
-- rules.
abbrev pub IsResult : Parsed (Option Filter) → Type 0
IsResult (invalid e) = Unit
IsResult (parsed none) = Unit
IsResult (parsed (some f)) = (as_condition f ≡ f) × IsSupported f

abbrev IsSound : Parsed (Option Filter) → Type 0
IsSound (invalid e) = Unit
IsSound (parsed none) = Unit
IsSound (parsed (some f)) = IsSupported f

abbrev AreSound : Parsed Filters → Type 0
AreSound (invalid e) = Unit
AreSound (parsed fs) = AreSupported fs

combine-IsResult :
    (type : FilterConditionType) (rules : Parsed Filters)
    → AreSound rules
    → IsResult (combine type rules)
unfolding IsSupported
combine-IsResult type (invalid e) h = tt
combine-IsResult type (parsed no_filter) h = tt
combine-IsResult type (parsed (filter_cons f fs)) h = (refl, h)

combine_as-IsResult :
    (type : Option FilterConditionType) (c : String) (rules : Parsed Filters)
    → AreSound rules
    → IsResult (combine_as type c rules)
combine_as-IsResult none c rules h = tt
combine_as-IsResult (some type) c rules h = combine-IsResult type rules h

IsResult-IsSound : (r : Parsed (Option Filter)) → IsResult r → IsSound r
IsResult-IsSound (invalid e) h = tt
IsResult-IsSound (parsed none) h = tt
IsResult-IsSound (parsed (some f)) h = h.1

create_rule-IsSound :
    (field operator : String) (value : Json) → IsSound (create_rule field operator value)
unfolding IsSupported
create_rule-IsSound field operator value = elim (Bool-cases (has_name operator filter_operators)) [
  | inl y ↦ rw y y
  | inr n ↦ rw n tt
]

push_filter-AreSound :
    (first : Parsed (Option Filter)) (rest : Parsed Filters)
    → IsSound first
    → AreSound rest
    → AreSound (push_filter first rest)
unfolding IsSupported
push_filter-AreSound (invalid e) rest h hs = tt
push_filter-AreSound (parsed none) rest h hs = hs
push_filter-AreSound (parsed (some f)) (invalid e) h hs = tt
push_filter-AreSound (parsed (some f)) (parsed fs) h hs = (h, hs)

mutual
  unfolding create_filter create_condition IsSupported

  create_filter-IsSound : (t : FilterTuple) → IsSound (create_filter t)
  create_filter-IsSound (rule2 field operator) = create_rule-IsSound field operator null
  create_filter-IsSound (rule3 field operator value) = create_rule-IsSound field operator value
  create_filter-IsSound (condition_tuple c ts) =
      IsResult-IsSound _ (combine_as-IsResult (condition_type c) c _ (create_filters-AreSound ts))
  create_filter-IsSound (raw j) = tt

  create_filters-AreSound : (ts : FilterTuples) → AreSound (create_filters ts)
  create_filters-AreSound no_tuple = tt
  create_filters-AreSound (tuple_cons t ts) =
      push_filter-AreSound _ _ (create_filter-IsSound t) (create_filters-AreSound ts)

and_rule-IsResult : (r : Parsed (Option Filter)) → IsSound r → IsResult (and_rule r)
unfolding IsSupported
and_rule-IsResult (invalid e) h = tt
and_rule-IsResult (parsed none) h = tt
and_rule-IsResult (parsed (some f)) h = (refl, (h, tt))

parse_tuple-IsResult : (t : FilterTuple) → IsResult (parse_tuple t)
unfolding parse_tuple create_filter create_condition
parse_tuple-IsResult (rule2 field operator) =
    and_rule-IsResult _ (create_filter-IsSound (rule2 field operator))
parse_tuple-IsResult (rule3 field operator value) =
    and_rule-IsResult _ (create_filter-IsSound (rule3 field operator value))
parse_tuple-IsResult (condition_tuple c ts) =
    combine_as-IsResult (condition_type c) c _ (create_filters-AreSound ts)
parse_tuple-IsResult (raw j) = tt

parse_next-IsResult : (r : Parsed (Option FilterTuple)) → IsResult (parse_next r)
parse_next-IsResult (invalid e) = tt
parse_next-IsResult (parsed none) = tt
parse_next-IsResult (parsed (some t)) = parse_tuple-IsResult t

-- Whatever list is parsed, the filter that comes out, if one does, is a condition; every operator in
-- it is supported, and every condition in it has rules.
pub parse_filter_input-IsResult : (js : Jsons) → IsResult (parse_filter_input js)
unfolding parse_filter_input
parse_filter_input-IsResult js = parse_next-IsResult (parse_array js)

-- A filter that was read, written as a list again, is read as the same filter.
pub parse_filter_input-again :
    (js : Jsons) (f : Filter)
    → parse_filter_input js ≡ parsed (some f)
    → parse_filter_input (elements f) ≡ parsed (some f)
parse_filter_input-again js f e =
    let (same, supported) : IsResult (parsed (some f)) =
      subst IsResult e (parse_filter_input-IsResult js) in
    parse_filter_input-elements f supported ∙ ap (λ g. parsed (some g)) same
