-- ===== src/TaskContext.antt =====
-- fastedgy/queued_task/context.py: the execution context of a task, a tree of dicts that is read and
-- written by dotted paths. A path is its first key and the list of the others. The new context is
-- modelled as a value; what the code shares with the former one is not seen here.
pub mod Paths
mod Examples
use fastedgy.Prelude.{Bool, true, false, Option, none, some, String, List, [], ◌∷◌, if◌then◌else◌}
use text.Mathlib.Text.{◌==◌ as str_eq}

-- A value of the context: a dict, or anything else, as its stored text.
mutual
  pub data Value : Type 0 where
    other_value : String → Value
    dict : Entries → Value

  pub data Entries : Type 0 where
    no_entry : Entries
    entry_cons : String → Value → Entries → Entries

-- `context.get(key)`
unfoldable pub value_at : String → Entries → Option Value
value_at k no_entry = none
value_at k (entry_cons j v d) = if str_eq j k then some v else value_at k d

-- `context[key] = value`
unfoldable pub put_at : String → Value → Entries → Entries
put_at k v no_entry = entry_cons k v no_entry
put_at k v (entry_cons j w d) =
    let rest = put_at k v d in if str_eq j k then entry_cons j v d else entry_cons j w rest

abbrev pub entries_of : Value → Option Entries
entries_of (other_value x) = none
entries_of (dict d) = some d

-- The loop of `get_context`: the value at a path, if there is one.
unfoldable pub descend : String → List String → Entries → Option Value
descend k [] d = value_at k d
descend k (j ∷ ks) d = elim (value_at k d) [
  | none ↦ none
  | some v ↦ elim (entries_of v) [ none ↦ none | some e ↦ descend j ks e ]
]

unfoldable pub or_default : Value → Option Value → Value
or_default default none = default
or_default default (some v) = v

-- `get_context`
unfoldable pub get_context : String → List String → Value → Entries → Value
get_context k ks default no_entry = default
get_context k ks default (entry_cons j v d) = or_default default (descend k ks (entry_cons j v d))

-- `nested_context.setdefault(key, {})`, where it gives a dict.
unfoldable pub nested_of : Option Value → Option Entries
nested_of none = some no_entry
nested_of (some v) = entries_of v

-- The context that `set_context` makes, or none where it writes into a value that is no dict, which
-- Python refuses.
unfoldable pub set_context : String → List String → Value → Entries → Option Entries
set_context k [] v d = some (put_at k v d)
set_context k (j ∷ ks) v d = elim (nested_of (value_at k d)) [
  | none ↦ none
  | some e ↦ elim (set_context j ks v e) [ none ↦ none | some e' ↦ some (put_at k (dict e') d) ]
]
