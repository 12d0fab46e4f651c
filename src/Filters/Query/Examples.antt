-- ===== src/Filters/Query/Examples.antt =====
-- Two models, filters on them, and the theorems at them.
use fastedgy.Prelude.{
  ◌≡◌, refl, true, false, none, some, Option, String, List, [], ◌∷◌, Bool, if◌then◌else◌,
}
use fastedgy.Prelude.Dict.{has_name, lookup as at_name}
use fastedgy.Text.{split_on, remove_prefix, has_char}
use fastedgy.Filters.{
  null, str, Jsons, no_json, json_cons, and_type, Filter, rule, condition, no_filter, filter_cons,
  parsed, invalid, invalid_field, parse_array, parse_filter_input, create_filter, parse_tuple,
}
use fastedgy.Filters.Operators.{inherited, get_filter_operators}
use fastedgy.Filters.Validate.{
  FieldInfo, Models, field_passes, is_filterable, operators_of, operator_passes, field_at_place,
  operator_at_place, validate_filter_field, validate_filter_operator, validate_rule,
  validate_filters, validate_all, parts_of,
}
use fastedgy.Filters.Validate.Accepted.{Judges, validate_filters-Judges}
use fastedgy.Filters.Query.{
  Builder, lookup, those, nothing, is_path, build_reference, build_column, build_found, build_test,
  build_rule, build_filter_expression, build_rules, select_expression, select_valid, select_parsed,
  filter_query,
}
use fastedgy.Filters.Query.Restricted.{Restricts, filter_query-Restricts}
use text.Mathlib.Text.{◌==◌ as str_eq}

abbrev field_of : String → Bool → Option String → FieldInfo
field_of class excluded target = record {
  type = class;
  has_getter = false;
  exclude = excluded;
  filterable = none;
  leads_to = target;
}

abbrev fields : String → List (String × FieldInfo)
fields m =
    if str_eq m "Contact"
    then ("name", field_of "CharField" false none)
      ∷ ("owner", field_of "ForeignKey" false (some "User"))
      ∷ []
    else ("email", field_of "CharField" false none)
      ∷ ("password", field_of "CharField" true none)
      ∷ []

abbrev models : Models
models = record {
  fields = fields;
  generic_pair = λ m path. none;
  extra_fields = λ m. [];
  is_instance = λ a b. str_eq a b;
}

abbrev builder : Builder
builder = record {
  has_words = λ v. false;
  has_tokens = λ v. false;
  crosses_generic = λ p. false;
  exists_for = λ f o v. parsed true;
  find_field = λ f. none;
  find_column = λ f. none;
  uses_column = λ f. false;
  is_generic_reference = λ f. false;
  is_uuid = λ f. false;
  decomposes = λ f m i. true;
  duplicates = λ f. false;
}

abbrev by_email : Filter
by_email = condition and_type (filter_cons (rule "owner.email" "ilike" (str "%a%")) no_filter)

-- `["owner.email", "ilike", "%a%"]`
abbrev email_list : Jsons
email_list = json_cons (str "owner.email") (json_cons (str "ilike") (json_cons (str "%a%") no_json))

-- `["owner.password", "ilike", "%a%"]`
abbrev password_list : Jsons
password_list =
    json_cons (str "owner.password") (json_cons (str "ilike") (json_cons (str "%a%") no_json))

accepts_email : validate_filters models false "Contact" by_email ≡ parsed by_email
unfolding at_name has_name split_on remove_prefix inherited get_filter_operators field_passes
    is_filterable operators_of operator_passes field_at_place operator_at_place
    validate_filter_field validate_filter_operator validate_rule validate_filters validate_all
    parts_of
accepts_email = refl

refuses_password :
    validate_filters models false "Contact" (rule "owner.password" "ilike" null)
    ≡ invalid (invalid_field "owner.password")
unfolding at_name has_name split_on remove_prefix inherited get_filter_operators field_passes
    is_filterable operators_of operator_passes field_at_place operator_at_place
    validate_filter_field validate_filter_operator validate_rule validate_filters validate_all
    parts_of
refuses_password = refl

selects_email :
    filter_query models builder false true true "Contact" (some email_list)
    ≡ those (lookup "owner.email" "ilike" (str "%a%")) false
unfolding at_name has_name split_on remove_prefix inherited get_filter_operators field_passes
    is_filterable operators_of operator_passes field_at_place operator_at_place
    validate_filter_field validate_filter_operator validate_rule validate_filters validate_all
    parts_of has_char parse_filter_input parse_array parse_tuple create_filter is_path
    build_reference build_column build_found build_test build_rule build_filter_expression
    build_rules select_expression select_valid select_parsed filter_query
selects_email = refl

selects_nothing :
    filter_query models builder false true true "Contact" (some password_list) ≡ nothing
unfolding at_name has_name split_on remove_prefix inherited get_filter_operators field_passes
    is_filterable operators_of operator_passes field_at_place operator_at_place
    validate_filter_field validate_filter_operator validate_rule validate_filters validate_all
    parts_of has_char parse_filter_input parse_array parse_tuple create_filter is_path
    build_reference build_column build_found build_test build_rule build_filter_expression
    build_rules select_expression select_valid select_parsed filter_query
selects_nothing = refl

validate_filters-Judges_example :
    Judges models false "Contact" by_email (validate_filters models false "Contact" by_email)
validate_filters-Judges_example = validate_filters-Judges models false "Contact" by_email

filter_query-Restricts_example :
    Restricts models builder false true true "Contact"
      (parse_filter_input email_list)
      (filter_query models builder false true true "Contact" (some email_list))
filter_query-Restricts_example =
    filter_query-Restricts models builder false true true "Contact" email_list
