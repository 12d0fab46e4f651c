-- ===== src/Sync/Batch.antt =====
-- fastedgy/api_route_model/actions/sync_action.py: one operation in its savepoint, and the batch.
-- The query and the patch and delete actions of the route are parameters, as is what a fault of
-- theirs carries; a savepoint that is rolled back gives the store it started with.
use fastedgy.Prelude.{
  ℕ, Bool, true, false, ◌||◌, ◌&&◌, Option, none, some, String, List, [], ◌∷◌, ◌++◌, any, ltb, leb,
  ◌==◌, if◌then◌else◌, not,
}
use fastedgy.Prelude.Dict.{keys}
use fastedgy.Text.{Text, codes}
use fastedgy.TextMerge.{Opcode}
use fastedgy.Sync.{
  Value, Op, update, delete, SyncOperation, Status, applied, merged, conflict, deleted, rejected,
  SyncOperationResult, Model, Item, server_is_newer, resolve,
}

-- `RequestValidationError` or `ValidationError`, `IntegrityError`, `HTTPException` with its code,
-- and any other exception.
pub data Fault : Type 0 where
  invalid : String → Fault
  integrity : String → Fault
  http : ℕ → String → Fault
  other : Fault

pub data Reply (A : Type 0) : Type 0 where
  done : A → Reply A
  fault : Fault → Reply A

-- Python's order of strings, by code points.
text_le : Text → Text → Bool
text_le [] _ = true
text_le (c ∷ cs) [] = false
text_le (c ∷ cs) (d ∷ ds) = ltb c d || c == d && text_le cs ds

insert_sorted : String → List String → List String
unfolding text_le
insert_sorted k [] = k ∷ []
insert_sorted k (j ∷ js) =
    let rest = insert_sorted k js in if text_le (codes k) (codes j) then k ∷ j ∷ js else j ∷ rest

unfoldable pub sorted : List String → List String
unfolding insert_sorted
sorted [] = []
sorted (k ∷ ks) = insert_sorted k (sorted ks)

abbrev pub has_op : Op → Op → Bool
has_op update update = true
has_op delete delete = true
has_op _ _ = false

-- Some operation is not among the allowed ones.
unfoldable pub has_forbidden : List Op → List SyncOperation → Bool
has_forbidden allowed operations =
    any (λ operation. not (any (has_op operation.op) allowed)) operations

-- `allowed_sync_ops`, by whether the patch and the delete action are registered.
abbrev pub allowed_sync_ops : Bool → Bool → List Op
allowed_sync_ops has_patch has_delete =
    (if has_patch then update ∷ [] else []) ++ (if has_delete then delete ∷ [] else [])

-- A result without a record.
abbrev pub plain : ℕ → Status → SyncOperationResult
plain id status = record {
  id = id;
  status = status;
  returned = none;
  applied_fields = none;
  discarded_fields = none;
  detail = none;
}

pub record Route (Store : Type 0) : Type 0 where
  pub get_or_none : ℕ → Store → Option Item
  pub patch : ℕ → List (String × Value) → Store → Reply (List (String × Value) × Store)
  pub delete_item : ℕ → Store → Reply Store

module _ {Store : Type 0} (get_opcodes : List Text → List Text → List Opcode) (model : Model)
    (route : Route Store) where
  -- `_patch`, and the result that reports it.
  abbrev pub patched :
      SyncOperation
      → Status
      → List (String × Value)
      → Option (List String)
      → Reply (List (String × Value) × Store)
      → Reply (SyncOperationResult × Store)
  patched operation status payload discarded (fault f) = fault f
  patched operation status payload discarded (done (returned, store)) = done (
    record (plain operation.id status) {
      returned = some returned;
      applied_fields = some (sorted (keys payload));
      discarded_fields = discarded;
    },
    store,
  )

  -- The part of `_apply` behind the merge: the payload that is left, and the discarded fields.
  unfoldable pub write_merge :
      Item
      → SyncOperation
      → List (String × Value)
      → List String
      → Store
      → Reply (SyncOperationResult × Store)
  write_merge item operation payload [] store =
      patched operation applied payload none (route.patch operation.id payload store)
  write_merge item operation [] (c ∷ cs) store = done (
    record (plain operation.id conflict) {
      returned = some item.current;
      discarded_fields = some (c ∷ cs);
    },
    store,
  )
  write_merge item operation (p ∷ ps) (c ∷ cs) store =
      patched operation merged (p ∷ ps) (some (c ∷ cs)) (route.patch operation.id (p ∷ ps) store)

  abbrev pub removed : SyncOperation → Reply Store → Reply (SyncOperationResult × Store)
  removed operation (fault f) = fault f
  removed operation (done store) = done (plain operation.id applied, store)

  unfoldable pub apply_delete : Item → SyncOperation → Store → Reply (SyncOperationResult × Store)
  apply_delete item operation store =
      if server_is_newer item operation
      then done (record (plain operation.id conflict) { returned = some item.current }, store)
      else removed operation (route.delete_item operation.id store)

  unfoldable pub apply_found :
      Op → Option Item → SyncOperation → Store → Reply (SyncOperationResult × Store)
  unfolding apply_delete write_merge
  apply_found update none operation store = done (plain operation.id deleted, store)
  apply_found delete none operation store = done (plain operation.id applied, store)
  apply_found delete (some item) operation store = apply_delete item operation store
  apply_found update (some item) operation store =
      let m = resolve get_opcodes model item operation in
      write_merge item operation m.payload m.conflicts store

  -- `_apply`
  unfoldable pub apply : SyncOperation → Store → Reply (SyncOperationResult × Store)
  unfolding apply_found
  apply operation store =
      apply_found operation.op (route.get_or_none operation.id store) operation store

  abbrev reject : SyncOperation → Store → String → Reply (SyncOperationResult × Store)
  reject operation store detail =
      done (record (plain operation.id rejected) { detail = some detail }, store)

  unfoldable pub guard :
      SyncOperation
      → Store
      → Reply (SyncOperationResult × Store)
      → Reply (SyncOperationResult × Store)
  guard operation store (done r) = done r
  guard operation store (fault (invalid detail)) = reject operation store detail
  guard operation store (fault (integrity detail)) = reject operation store detail
  guard operation store (fault (http code detail)) =
      if leb 500 code then fault (http code detail) else reject operation store detail
  guard operation store (fault other) = fault other

  -- `_guarded_apply`
  unfoldable pub guarded_apply : SyncOperation → Store → Reply (SyncOperationResult × Store)
  unfolding apply guard
  guarded_apply operation store = guard operation store (apply operation store)

  abbrev pub cons_result :
      SyncOperationResult
      → Reply (List SyncOperationResult × Store)
      → Reply (List SyncOperationResult × Store)
  cons_result r (fault f) = fault f
  cons_result r (done (rs, store)) = done (r ∷ rs, store)

  unfoldable pub and_then :
      Reply (SyncOperationResult × Store)
      → (Store → Reply (List SyncOperationResult × Store))
      → Reply (List SyncOperationResult × Store)
  and_then (fault f) rest = fault f
  and_then (done (r, store)) rest = cons_result r (rest store)

  -- `[await _guarded_apply(...) for operation in operations]`
  unfoldable pub apply_all : List SyncOperation → Store → Reply (List SyncOperationResult × Store)
  unfolding guarded_apply and_then
  apply_all [] store = done ([], store)
  apply_all (operation ∷ operations) store =
      and_then (guarded_apply operation store) (λ s. apply_all operations s)

  -- `sync_items_action`
  unfoldable pub sync_items :
      List Op → List SyncOperation → Store → Reply (List SyncOperationResult × Store)
  unfolding apply_all
  sync_items allowed operations store =
      if has_forbidden allowed operations
      then fault (http 403 "Sync operation is not allowed")
      else apply_all operations store
