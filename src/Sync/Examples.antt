-- ===== src/Sync/Examples.antt =====
-- Batches on a store of one record, and the theorems at them.
use fastedgy.Prelude.{
  true, ◌≡◌, refl, false, none, some, List, String, Option, [], ◌∷◌, if◌then◌else◌,
}
use fastedgy.Prelude.Dict.{lookup, insert, pop, keys, keep_keys, has_name}
use fastedgy.Text.{Text}
use fastedgy.TextMerge.{Opcode}
use fastedgy.Sync.{
  Value, number, update, SyncOperation, merged, conflict, rejected, Model, Item, resolve,
  server_is_newer,
}
use fastedgy.Sync.Batch.{
  invalid, done, fault, Route, plain, sync_items, guarded_apply, has_forbidden, sorted,
}
use fastedgy.Sync.{in_server_changed}
use fastedgy.Sync.Rounds.{no_repeat, seen}
use fastedgy.Sync.Fields.{resolve-resolved}
use fastedgy.Sync.Results.{BatchOutcome, sync_items-BatchOutcome}

abbrev no_opcodes : List Text → List Text → List Opcode
no_opcodes a b = []

-- The id is managed by the server, and everything else can be patched.
abbrev spots : Model
spots = record {
  writable = λ f. has_name f ("name" ∷ "rank" ∷ "color" ∷ []);
  server_managed = λ f. has_name f ("id" ∷ []);
  merge_blocks = λ f. false;
}

abbrev write_all : List (String × Value) → List (String × Value) → List (String × Value)
write_all [] d = d
write_all ((k, v) ∷ kvs) d = write_all kvs (insert k v d)

-- A patch of the color is invalid.
abbrev one_record : Route (Option Item)
one_record = record {
  get_or_none = λ id store. store;
  patch = λ id payload store. elim store [
    | none ↦ fault (invalid "gone")
    | some item ↦
        if has_name "color" (keys payload)
        then fault (invalid "color")
        else (let current = write_all payload item.current in
            done (current, some (record { updated_at = some 9; current = current })))
  ];
  delete_item = λ id store. done none;
}

abbrev stored : Item
stored = record {
  updated_at = some 5;
  current = ("id", number 1) ∷ ("name", number 20) ∷ ("rank", number 30) ∷ [];
}

abbrev change : List (String × Value) → SyncOperation
change payload = record {
  op = update;
  id = 1;
  payload = some payload;
  base = some (("id", number 1) ∷ ("name", number 20) ∷ ("rank", number 31) ∷ []);
  created_at = some 4;
}

-- The name is the client's to change, the rank was changed since by the server, and the color is
-- refused.
abbrev buffered : List SyncOperation
buffered =
    change (("name", number 21) ∷ ("rank", number 32) ∷ [])
    ∷ change (("color", number 1) ∷ [])
    ∷ change (("rank", number 33) ∷ [])
    ∷ []

abbrev left : List (String × Value)
left = ("id", number 1) ∷ ("name", number 21) ∷ ("rank", number 30) ∷ []

batch :
    sync_items no_opcodes spots one_record (update ∷ []) buffered (some stored)
    ≡ done (
      record (plain 1 merged) {
        returned = some left;
        applied_fields = some ("name" ∷ []);
        discarded_fields = some ("rank" ∷ []);
      }
          ∷ record (plain 1 rejected) { detail = some "color" }
          ∷ record (plain 1 conflict) {
            returned = some left;
            discarded_fields = some ("rank" ∷ []);
          }
          ∷ [],
      some (record { updated_at = some 9; current = left }),
    )
unfolding sync_items guarded_apply resolve has_forbidden keep_keys lookup server_is_newer pop insert
    sorted
batch = refl

sync_items-BatchOutcome_example :
    BatchOutcome no_opcodes spots one_record
      (update ∷ [])
      buffered
      (some stored)
      (sync_items no_opcodes spots one_record (update ∷ []) buffered (some stored))
sync_items-BatchOutcome_example =
    sync_items-BatchOutcome no_opcodes spots one_record (update ∷ []) buffered (some stored)

-- The server changed the rank later than the client did, so the client's value is discarded.
resolve-resolved_example :
    seen "rank"
      (resolve no_opcodes spots stored (change (("name", number 21) ∷ ("rank", number 32) ∷ [])))
    ≡ (none, true)
unfolding no_repeat has_name keys lookup server_is_newer in_server_changed
resolve-resolved_example =
    resolve-resolved no_opcodes spots stored
      (change (("name", number 21) ∷ ("rank", number 32) ∷ [])) refl "rank"
