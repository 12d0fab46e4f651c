-- ===== src/FieldSelector/Examples.antt =====
-- Selections over two models: tasks with an owner, and users with a password.
use fastedgy.Prelude.{
  ◌≡◌, refl, true, false, Option, none, some, String, List, [], ◌∷◌, if◌then◌else◌,
}
use fastedgy.Prelude.Dict.{lookup, has_name, insert}
use fastedgy.FieldSelector.{
  Target, Field, Schema, leaf, one, Selections, no_selection, selection_cons,
  parse_field_selector_input, select_paths, select_path, select_name, walk, add_leaf, select,
  selected, contents, with_contents, place_after, is_nowhere, start_with,
}
use fastedgy.FieldSelector.Allowed.Parsed.{AllowedOption, parse_field_selector_input-IsAllowed}
use fastedgy.FieldSelector.Columns.{
  Storage, empty_plan, collect, build_defer_paths, collect_entries, only_key, keep_field, add_path,
  join_path, keep_in, level_of, defer_fields, merge_computed_dep, follow, merge_all, joined,
}
use fastedgy.FieldSelector.Columns.Reads.{Loads, LeavesOut, collect-Loads}
use text.Mathlib.Text.{◌==◌ as str_eq}

abbrev plain : Field
plain = record { exclude = false; secret = false; target = Target.scalar }

abbrev password : Field
password = record { exclude = true; secret = true; target = Target.scalar }

abbrev owner : Field
owner = record { exclude = false; secret = false; target = Target.foreign_key "User" }

abbrev fields_of : String → List (String × Field)
fields_of m =
    if str_eq m "Task"
    then ("id", plain) ∷ ("title", plain) ∷ ("body", plain) ∷ ("owner", owner) ∷ []
    else ("id", plain) ∷ ("name", plain) ∷ ("password", password) ∷ []

abbrev no_names : String → List String
no_names _ = []

abbrev no_extra : String → Option String
no_extra _ = none

abbrev models : Schema
models = record {
  fields = fields_of;
  model_computed_fields = no_names;
  extra_fields = no_names;
  extra_name = no_extra;
}

abbrev storage : Storage
storage = record {
  primary_key = λ _. some "id";
  computed_deps = λ _ _. none;
  has_columns = λ _ _. true;
}

abbrev asked : List (List String)
asked = ("title" ∷ []) ∷ ("owner" ∷ "name" ∷ []) ∷ ("owner" ∷ "password" ∷ []) ∷ []

abbrev chosen : Selections
chosen = selection_cons "id" leaf (
    selection_cons "title" leaf (
      selection_cons "owner"
        (one (selection_cons "id" leaf (selection_cons "name" leaf no_selection))) no_selection))

-- The password is left out.
leaves_password : parse_field_selector_input models "Task" asked ≡ some chosen
unfolding parse_field_selector_input select_paths select_path select_name walk is_nowhere select
    selected has_name lookup start_with with_contents add_leaf place_after contents
leaves_password = refl

-- The columns that are not asked for are left out.
defers_others :
    build_defer_paths models storage (collect models storage chosen "Task" "" empty_plan)
    ≡ "body" ∷ "owner__password" ∷ []
unfolding build_defer_paths collect collect_entries lookup only_key has_name keep_field insert
    add_path empty_plan join_path keep_in level_of defer_fields
defers_others = refl

parse_field_selector_input-IsAllowed_example :
    AllowedOption models "Task" (parse_field_selector_input models "Task" asked)
unfolding lookup
parse_field_selector_input-IsAllowed_example =
    parse_field_selector_input-IsAllowed models "Task" asked (refl, (refl, (refl, (refl, tt))))

-- A task has a computed summary, which reads the name of its owner.
abbrev summarised : Schema
summarised = record models {
  model_computed_fields = λ m. if str_eq m "Task" then "summary" ∷ [] else [];
}

abbrev declared : Storage
declared = record storage { computed_deps = λ m name. some (("owner" ∷ "name" ∷ []) ∷ []) }

abbrev only_summary : Selections
only_summary = selection_cons "summary" leaf no_selection

-- The name of the owner is loaded for it.
loads_dependency :
    build_defer_paths summarised declared
      (collect summarised declared only_summary "Task" "" empty_plan)
    ≡ "title" ∷ "body" ∷ "owner__password" ∷ []
unfolding build_defer_paths collect collect_entries lookup only_key has_name keep_field insert
    add_path empty_plan join_path keep_in level_of defer_fields merge_computed_dep follow merge_all
    joined
loads_dependency = refl

collect-Loads_example :
    let q = collect summarised declared only_summary "Task" "" empty_plan in
    Loads summarised declared only_summary "Task" "" q × LeavesOut summarised declared q
collect-Loads_example = collect-Loads summarised declared only_summary "Task" "" empty_plan
