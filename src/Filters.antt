-- ===== src/Filters.antt =====
-- fastedgy/orm/filter/parser.py and types.py: a filter read from a JSON list.
-- The text of the JSON is read by json.loads, so that what is modelled starts at the list that it
-- gives. Of a JSON value the parser looks at lists and texts only; any other is its dump.
pub mod Operators
pub mod Printed
pub mod WellFormed
pub mod Validate
pub mod Query
mod Examples
use fastedgy.Prelude.{
  Bool, true, false, Option, none, some, String, List, [], ◌∷◌, if◌then◌else◌, ◌||◌,
}
use fastedgy.Prelude.Dict.{has_name}
use text.Mathlib.Text.{◌==◌ as str_eq}

mutual
  pub data Json : Type 0 where
    null : Json
    str : String → Json
    other : String → Json
    arr : Jsons → Json

  pub data Jsons : Type 0 where
    no_json : Jsons
    json_cons : Json → Jsons → Jsons

-- The tuples that the first pass makes: a rule of two or three elements, a condition, and an element
-- that it leaves as it is.
mutual
  pub data FilterTuple : Type 0 where
    rule2 : String → String → FilterTuple
    rule3 : String → String → Json → FilterTuple
    condition_tuple : String → FilterTuples → FilterTuple
    raw : Json → FilterTuple

  pub data FilterTuples : Type 0 where
    no_tuple : FilterTuples
    tuple_cons : FilterTuple → FilterTuples → FilterTuples

pub data FilterConditionType : Type 0 where
  and_type or_type : FilterConditionType

-- `FilterRule` and `FilterCondition`
mutual
  pub data Filter : Type 0 where
    rule : String → String → Json → Filter
    condition : FilterConditionType → Filters → Filter

  pub data Filters : Type 0 where
    no_filter : Filters
    filter_cons : Filter → Filters → Filters

pub data InvalidFilterError : Type 0 where
  invalid_expression : InvalidFilterError
  unsupported_operator unsupported_condition invalid_field : String → InvalidFilterError
  invalid_operator : String → String → InvalidFilterError
  needs_values invalid_reference : String → InvalidFilterError

pub data Parsed (A : Type 0) : Type 0 where
  parsed : A → Parsed A
  invalid : InvalidFilterError → Parsed A

-- `("&", "|")`
unfoldable pub condition_type : String → Option FilterConditionType
condition_type c =
    if str_eq c "&" then some and_type else if str_eq c "|" then some or_type else none

-- What a loop over items appends for one of them.
abbrev pub push_tuple : Parsed (Option FilterTuple) → Parsed FilterTuples → Parsed FilterTuples
push_tuple (invalid e) rest = invalid e
push_tuple (parsed none) rest = rest
push_tuple (parsed (some t)) (invalid e) = invalid e
push_tuple (parsed (some t)) (parsed ts) = parsed (tuple_cons t ts)

-- The list form, once its items are parsed.
abbrev pub list_form : Parsed FilterTuples → Parsed (Option FilterTuple)
list_form (invalid e) = invalid e
list_form (parsed no_tuple) = invalid invalid_expression
list_form (parsed (tuple_cons t ts)) = parsed (some (condition_tuple "&" (tuple_cons t ts)))

-- The flat form, once the items behind the operator, and all items, are parsed.
abbrev pub flat_form :
    String → Parsed FilterTuples → Parsed FilterTuples → Parsed (Option FilterTuple)
flat_form c (invalid e) all = invalid e
flat_form c (parsed no_tuple) all = list_form all
flat_form c (parsed (tuple_cons t ts)) all = parsed (some (condition_tuple c (tuple_cons t ts)))

abbrev pub condition_form : String → Parsed FilterTuples → Parsed (Option FilterTuple)
condition_form c (invalid e) = invalid e
condition_form c (parsed ts) = parsed (some (condition_tuple c ts))

-- The list of `first` and `rest`, by the tuples of the elements of its second element, of its
-- elements but the first, and of all its elements.
pub tuple_of :
    Json
    → Jsons
    → Parsed FilterTuples
    → Parsed FilterTuples
    → Parsed FilterTuples
    → Parsed (Option FilterTuple)
unfolding condition_type
tuple_of (str c) (json_cons (arr js) no_json) second tail all = condition_form c second
tuple_of (str f) (json_cons (str op) no_json) second tail all = parsed (some (rule2 f op))
tuple_of (str f) (json_cons (str op) (json_cons v no_json)) second tail all =
    parsed (some (rule3 f op v))
tuple_of (str c) (json_cons j js) second tail all = elim (condition_type c) [
  | none ↦ list_form all
  | some _ ↦ flat_form c tail all
]
tuple_of _ _ second tail all = list_form all

unfoldable mutual
  unfolding tuple_of

  -- `parse_filter_input_array_to_tuple`
  pub parse_array : Jsons → Parsed (Option FilterTuple)
  parse_array no_json = parsed none
  parse_array (json_cons j js) =
      let tail = parse_items js in
      tuple_of j js (parse_second js) tail (push_tuple (parse_item j) tail)

  -- An item of a list: a list is parsed, anything else kept.
  pub parse_item : Json → Parsed (Option FilterTuple)
  parse_item (arr js) = parse_array js
  parse_item null = parsed (some (raw null))
  parse_item (str s) = parsed (some (raw (str s)))
  parse_item (other s) = parsed (some (raw (other s)))

  pub parse_items : Jsons → Parsed FilterTuples
  parse_items no_json = parsed no_tuple
  parse_items (json_cons j js) = push_tuple (parse_item j) (parse_items js)

  parse_second : Jsons → Parsed FilterTuples
  parse_second no_json = parsed no_tuple
  parse_second (json_cons j js) = parse_content j

  parse_content : Json → Parsed FilterTuples
  parse_content (arr js) = parse_items js
  parse_content null = parsed no_tuple
  parse_content (str s) = parsed no_tuple
  parse_content (other s) = parsed no_tuple

-- `get_args(FilterOperator)`
abbrev pub filter_operators : List String
filter_operators =
    "=" ∷ "!=" ∷ "<" ∷ "<=" ∷ ">" ∷ ">=" ∷ "between" ∷ "like" ∷ "ilike" ∷ "not like" ∷ "not ilike"
    ∷ "starts with" ∷ "ends with" ∷ "not starts with" ∷ "not ends with" ∷ "contains" ∷ "icontains"
    ∷ "not contains" ∷ "not icontains" ∷ "match" ∷ "in" ∷ "not in" ∷ "is true" ∷ "is false"
    ∷ "is empty" ∷ "is not empty" ∷ "l1 distance" ∷ "l1 distance <" ∷ "l1 distance <="
    ∷ "l1 distance >" ∷ "l1 distance >=" ∷ "l2 distance" ∷ "l2 distance <" ∷ "l2 distance <="
    ∷ "l2 distance >" ∷ "l2 distance >=" ∷ "cosine distance" ∷ "cosine distance <"
    ∷ "cosine distance <=" ∷ "cosine distance >" ∷ "cosine distance >=" ∷ "inner product"
    ∷ "inner product <" ∷ "inner product <=" ∷ "inner product >" ∷ "inner product >="
    ∷ "spatial distance" ∷ "spatial distance <" ∷ "spatial distance <=" ∷ "spatial distance >"
    ∷ "spatial distance >=" ∷ "spatial within distance" ∷ "spatial contains" ∷ "spatial within"
    ∷ "spatial intersects" ∷ "spatial equals" ∷ "spatial disjoint" ∷ "spatial touches"
    ∷ "spatial crosses" ∷ "spatial overlaps" ∷ "search" ∷ "search_fuzzy" ∷ []

-- `create_rule_from_tuple`
abbrev pub create_rule : String → String → Json → Parsed (Option Filter)
create_rule field operator value =
    if has_name operator filter_operators
    then parsed (some (rule field operator value))
    else invalid (unsupported_operator operator)

abbrev pub push_filter : Parsed (Option Filter) → Parsed Filters → Parsed Filters
push_filter (invalid e) rest = invalid e
push_filter (parsed none) rest = rest
push_filter (parsed (some f)) (invalid e) = invalid e
push_filter (parsed (some f)) (parsed fs) = parsed (filter_cons f fs)

-- `And(*rules) if rules else None`, and the same for `Or`.
abbrev pub combine : FilterConditionType → Parsed Filters → Parsed (Option Filter)
combine type (invalid e) = invalid e
combine type (parsed no_filter) = parsed none
combine type (parsed (filter_cons f fs)) = parsed (some (condition type (filter_cons f fs)))

abbrev pub combine_as :
    Option FilterConditionType → String → Parsed Filters → Parsed (Option Filter)
combine_as none c rules = invalid (unsupported_condition c)
combine_as (some type) c rules = combine type rules

-- `create_condition_from_tuple`, by its rules.
unfoldable pub create_condition : String → Parsed Filters → Parsed (Option Filter)
create_condition c rules = combine_as (condition_type c) c rules

unfoldable mutual
  unfolding create_condition

  -- One round of the loop over the rules: anything but a rule or a condition is left out.
  pub create_filter : FilterTuple → Parsed (Option Filter)
  create_filter (rule2 field operator) = create_rule field operator null
  create_filter (rule3 field operator value) = create_rule field operator value
  create_filter (condition_tuple c ts) = create_condition c (create_filters ts)
  create_filter (raw j) = parsed none

  pub create_filters : FilterTuples → Parsed Filters
  create_filters no_tuple = parsed no_filter
  create_filters (tuple_cons t ts) = push_filter (create_filter t) (create_filters ts)

-- `And(rule) if rule else None`
abbrev pub and_rule : Parsed (Option Filter) → Parsed (Option Filter)
and_rule (invalid e) = invalid e
and_rule (parsed none) = parsed none
and_rule (parsed (some f)) = parsed (some (condition and_type (filter_cons f no_filter)))

-- `parse_filter_input_tuple`, on what the first pass gives.
unfoldable pub parse_tuple : FilterTuple → Parsed (Option Filter)
unfolding create_filter
parse_tuple (rule2 field operator) = and_rule (create_filter (rule2 field operator))
parse_tuple (rule3 field operator value) = and_rule (create_filter (rule3 field operator value))
parse_tuple (condition_tuple c ts) = create_filter (condition_tuple c ts)
parse_tuple (raw j) = invalid invalid_expression

abbrev pub parse_next : Parsed (Option FilterTuple) → Parsed (Option Filter)
parse_next (invalid e) = invalid e
parse_next (parsed none) = parsed none
parse_next (parsed (some t)) = parse_tuple t

-- `parse_filter_input` of a list
unfoldable pub parse_filter_input : Jsons → Parsed (Option Filter)
unfolding parse_array parse_tuple
parse_filter_input js = parse_next (parse_array js)
