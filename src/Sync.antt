-- ===== src/Sync.antt =====
-- fastedgy/api_route_model/actions/sync_action.py: applying a client's buffered writes with a merge
-- field by field.
-- A JSON value is null, a text, a number, an object with an id (its other members as their dump), or
-- any other value as its dump with sorted keys. What the model declares of its fields is a
-- parameter. Sync/Batch applies a batch of operations.

pub mod Batch
pub mod Rounds
pub mod Names
pub mod Fields
pub mod Results
mod Examples
use fastedgy.Prelude.{
  ℕ, Bool, true, false, ◌||◌, ◌&&◌, Option, none, some, String, List, [], ◌∷◌, ◌++◌, filter, ltb,
  ◌==◌, if◌then◌else◌, not,
}
use fastedgy.Prelude.Dict.{has_name, lookup, insert, pop, keys, keep_keys}
use fastedgy.Text.{Text}
use fastedgy.TextMerge.{Opcode, merge_text_blocks}
use text.Mathlib.Text.{◌==◌ as str_eq}

pub data Value : Type 0 where
  null : Value
  str : Text → Value
  number : ℕ → Value
  related : ℕ → String → Value
  dump : String → Value

same_text : Text → Text → Bool
same_text [] [] = true
same_text (c ∷ cs) (d ∷ ds) = c == d && same_text cs ds
same_text _ _ = false

-- Equal dumps, as `json.dumps(..., sort_keys=True)` makes them.
unfoldable pub same_dump : Value → Value → Bool
unfolding same_text
same_dump null null = true
same_dump (str s) (str t) = same_text s t
same_dump (number m) (number n) = m == n
same_dump (related m s) (related n t) = m == n && str_eq s t
same_dump (dump s) (dump t) = str_eq s t
same_dump _ _ = false

-- `_comparable`
unfoldable pub comparable : Value → Value
comparable (related id rest) = number id
comparable v = v

-- `d.get(k)`, where a missing key reads as null.
abbrev pub get : String → List (String × Value) → Value
get k d = elim (lookup k d) [ none ↦ null | some v ↦ v ]

pub data Op : Type 0 where
  update delete : Op

pub record SyncOperation : Type 0 where
  pub op : Op
  pub id : ℕ
  pub payload : Option (List (String × Value))
  pub base : Option (List (String × Value))
  pub created_at : Option ℕ

pub data Status : Type 0 where
  applied merged conflict deleted rejected : Status

pub record SyncOperationResult : Type 0 where
  pub id : ℕ
  pub status : Status
  pub returned : Option (List (String × Value))
  pub applied_fields : Option (List String)
  pub discarded_fields : Option (List String)
  pub detail : Option String

-- What a model says of its fields: those of the PATCH schema, `_server_managed_fields` and
-- `_block_merge_fields`.
pub record Model : Type 0 where
  pub writable : String → Bool
  pub server_managed : String → Bool
  pub merge_blocks : String → Bool

-- A stored record: its `updated_at`, and its fields as `filter_selected_fields` shows them.
pub record Item : Type 0 where
  pub updated_at : Option ℕ
  pub current : List (String × Value)

later : Option ℕ → Option ℕ → Bool
later (some updated) (some created) = ltb created updated
later _ _ = false

-- `_server_is_newer`
unfoldable pub server_is_newer : Item → SyncOperation → Bool
unfolding later
server_is_newer item operation = later item.updated_at operation.created_at

-- `field in _changed_fields(model_cls, base, current)`
unfoldable pub is_changed : Model → List (String × Value) → List (String × Value) → String → Bool
unfolding same_dump comparable has_name keys
is_changed model base current field =
    (has_name field (keys base) || has_name field (keys current))
    && not (model.server_managed field)
    && not (same_dump (comparable (get field base)) (comparable (get field current)))

-- `field in server_changed`
unfoldable pub in_server_changed :
    Model → Option (List (String × Value)) → List (String × Value) → String → Bool
unfolding is_changed
in_server_changed model none current field = true
in_server_changed model (some base) current field = is_changed model base current field

-- `conflicts.remove(field)`: the first occurrence.
abbrev pub remove_first : String → List String → List String
remove_first k [] = []
remove_first k (j ∷ js) = let rest = remove_first k js in if str_eq j k then js else j ∷ rest

-- The payload and the conflicts, while the conflicts are resolved.
pub record Merging : Type 0 where
  pub payload : List (String × Value)
  pub conflicts : List String

pub merge_texts :
    (List Text → List Text → List Opcode) → Bool → Value → Value → Value → Option Value
merge_texts get_opcodes newer (str base) (str server) (str client) =
    some (str (merge_text_blocks get_opcodes base server client (not newer)))
merge_texts get_opcodes newer _ _ _ = none

-- `payload[field] = merge_text_blocks(...)` and `conflicts.remove(field)`, where all three values
-- are texts.
abbrev settle : String → Option Value → Merging → Merging
settle field none m = m
settle field (some v) m = record m {
  payload = insert field v m.payload;
  conflicts = remove_first field m.conflicts;
}

module _ (get_opcodes : List Text → List Text → List Opcode) (newer : Bool)
    (base current : List (String × Value)) where
  -- The merge of one field, if it is one of texts.
  unfoldable pub merged_value : List (String × Value) → String → Option Value
  unfolding merge_texts
  merged_value payload field =
      merge_texts get_opcodes newer (get field base) (get field current) (get field payload)

  -- One round of `for field in [f for f in conflicts if f in block_fields]`.
  pub merge_field : String → Merging → Merging
  unfolding merged_value
  merge_field field m = settle field (merged_value m.payload field) m

  pub merge_fields : List String → Merging → Merging
  unfolding merge_field
  merge_fields [] m = m
  merge_fields (f ∷ fs) m = merge_fields fs (merge_field f m)

-- `for field in conflicts: payload.pop(field, None)`
pub pop_all : List String → List (String × Value) → List (String × Value)
pop_all [] d = d
pop_all (f ∷ fs) d = pop_all fs (pop f d)

abbrev pub dict_or_empty : Option (List (String × Value)) → List (String × Value)
dict_or_empty none = []
dict_or_empty (some d) = d

module _ (get_opcodes : List Text → List Text → List Opcode) (model : Model) where
  -- The payload reduced to the PATCH schema, and the fields in conflict, before any is resolved.
  unfoldable pub reduce : Item → SyncOperation → Merging
  unfolding in_server_changed
  reduce item operation =
      let payload = keep_keys model.writable (dict_or_empty operation.payload) in
      record {
        payload = payload;
        conflicts = filter (in_server_changed model operation.base item.current) (keys payload);
      }

  -- The conflicts of long texts are settled by a merge.
  unfoldable pub merge_conflicts : Item → SyncOperation → Merging
  unfolding reduce merge_fields
  merge_conflicts item operation =
      let m = reduce item operation in
      merge_fields get_opcodes (server_is_newer item operation) (dict_or_empty operation.base)
        item.current (filter model.merge_blocks m.conflicts) m

  abbrev pub has_any : List String → Bool
  has_any [] = false
  has_any (_ ∷ _) = true

  -- The patch that an update comes to: what it writes, and what it discards.
  unfoldable pub resolve : Item → SyncOperation → Merging
  unfolding merge_conflicts pop_all
  resolve item operation =
      let m = merge_conflicts item operation in
      if has_any m.conflicts && server_is_newer item operation
      then record m { payload = pop_all m.conflicts m.payload }
      else record m { conflicts = [] }
