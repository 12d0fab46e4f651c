-- ===== src/TaskContext/Examples.antt =====
-- A context with a step and a user.
use fastedgy.Prelude.{◌≡◌, refl, none, [], ◌∷◌}
use fastedgy.TaskContext.{
  other_value, dict, Entries, no_entry, entry_cons, value_at, descend, or_default, get_context,
  nested_of, set_context,
}
use fastedgy.TaskContext.Paths.{IsWritten, set_context-IsWritten}

abbrev started : Entries
started =
    entry_cons "step" (other_value "1")
      (entry_cons "user" (dict (entry_cons "name" (other_value "Ada") no_entry)) no_entry)

reads_name : get_context "user" ("name" ∷ []) (other_value "Unknown") started ≡ other_value "Ada"
unfolding get_context descend value_at or_default
reads_name = refl

-- A step is no dict that a key could be set in.
refuses_step : set_context "step" ("count" ∷ []) (other_value "2") started ≡ none
unfolding set_context value_at nested_of
refuses_step = refl

set_context-IsWritten_example :
    IsWritten "user"
      ("age" ∷ [])
      (other_value "36")
      started
      (set_context "user" ("age" ∷ []) (other_value "36") started)
set_context-IsWritten_example = set_context-IsWritten "user" ("age" ∷ []) (other_value "36") started
