-- ===== src/Filters/Examples.antt =====
-- A filter with a condition inside, and the theorems at it.
use fastedgy.Prelude.{none, some, ◌≡◌, refl}
use fastedgy.Prelude.Dict.{has_name}
use fastedgy.Filters.{
  null, str, other, arr, Jsons, no_json, json_cons, and_type, or_type, Filter, rule, condition,
  no_filter, filter_cons, parsed, invalid, unsupported_operator, invalid_expression, parse_array,
  create_filter, condition_type, create_condition, parse_tuple, parse_filter_input,
}
use fastedgy.Filters.Printed.{IsSupported, elements, parse_filter_input-elements}
use fastedgy.Filters.WellFormed.{IsResult, parse_filter_input-IsResult}

abbrev by_name : Filter
by_name = rule "name" "ilike" (str "%a%")

abbrev no_owner : Filter
no_owner = rule "owner.id" "is empty" null

abbrev either : Filter
either = condition or_type (filter_cons by_name (filter_cons no_owner no_filter))

abbrev both : Filter
both = condition and_type (filter_cons by_name (filter_cons either no_filter))

-- `["name", "ilike", "%a%"]`
abbrev name_list : Jsons
name_list = json_cons (str "name") (json_cons (str "ilike") (json_cons (str "%a%") no_json))

reads_rule :
    parse_filter_input name_list
    ≡ parsed (some (condition and_type (filter_cons by_name no_filter)))
unfolding parse_filter_input parse_array parse_tuple create_filter has_name
reads_rule = refl

-- `["name", "is"]`
refuses_operator :
    parse_filter_input (json_cons (str "name") (json_cons (str "is") no_json))
    ≡ invalid (unsupported_operator "is")
unfolding parse_filter_input parse_array parse_tuple create_filter has_name
refuses_operator = refl

-- `[[]]`
refuses_empty : parse_filter_input (json_cons (arr no_json) no_json) ≡ invalid invalid_expression
unfolding parse_filter_input parse_array
refuses_empty = refl

-- `["&", [5]]` is read as no filter.
drops_number :
    parse_filter_input
      (json_cons (str "&") (json_cons (arr (json_cons (other "5") no_json)) no_json))
    ≡ parsed none
unfolding parse_filter_input parse_array parse_tuple create_filter create_condition condition_type
drops_number = refl

parse_filter_input-elements_example : parse_filter_input (elements both) ≡ parsed (some both)
unfolding IsSupported has_name
parse_filter_input-elements_example =
    parse_filter_input-elements both (refl, ((refl, (refl, tt)), tt))

parse_filter_input-IsResult_example : IsResult (parse_filter_input name_list)
parse_filter_input-IsResult_example = parse_filter_input-IsResult name_list
