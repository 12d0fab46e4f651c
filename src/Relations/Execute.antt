-- ===== src/Relations/Execute.antt =====
-- fastedgy/orm/relations/processor.py: process_relation_operations.
use fastedgy.Prelude.{
  ℕ, Bool, true, false, Option, none, some, String, List, [], ◌∷◌, not, if◌then◌else◌,
}
use fastedgy.Prelude.Dict.{has_name, keys, insert}
use fastedgy.Prelude.Keys.{member}
use fastedgy.Prelude.Int.{pos}
use fastedgy.Relations.{
  Scalar, int, RelationOperationError, Result, ok, err, ◌>>=◌, positive, positive_or_raise,
  Operation, create, update, link, unlink, delete, clear, set, Request, read_operation,
}
use fastedgy.Relations.Manager.{Manager}

-- A field of the related model: its name, whether its target is the instance's model, and `null`.
pub record Candidate : Type 0 where
  pub name : String
  pub targets_parent : Bool
  pub null_allowed : Bool

-- The first foreign key of the related model that points to the instance's.
unfoldable pub find_foreign_key : List Candidate → Option Candidate
find_foreign_key [] = none
find_foreign_key (c ∷ cs) =
    let rest = find_foreign_key cs in if c.targets_parent then some c else rest

-- The GenericForeignKey behind a generic reverse relation: the values of its two columns, and
-- `relation_nullable`.
pub record GenericField : Type 0 where
  pub parent_values : List (String × Scalar)
  pub relation_nullable : Bool

-- `values.setdefault(column_name, column_value)`
abbrev pub set_default : String → Scalar → List (String × Scalar) → List (String × Scalar)
set_default k v d = if has_name k (keys d) then d else insert k v d

unfoldable pub set_defaults :
    List (String × Scalar) → List (String × Scalar) → List (String × Scalar)
set_defaults [] d = d
set_defaults ((k, v) ∷ kvs) d = set_defaults kvs (set_default k v d)

module _ {Store : Type 0} (m : Manager Store) (generic_field : Option GenericField)
    (instance_id : ℕ) (fields : List Candidate) where
  -- The values of a new record with the reference to its parent.
  unfoldable pub with_parent : List (String × Scalar) → List (String × Scalar)
  unfolding find_foreign_key set_defaults
  with_parent values = elim generic_field [
    | some g ↦ set_defaults g.parent_values values
    | none ↦ elim (find_foreign_key fields) [
      | none ↦ values
      | some c ↦ set_default c.name (int (pos instance_id)) values
    ]
  ]

  -- `is_fk_nullable`
  unfoldable pub is_fk_nullable : Bool
  unfolding find_foreign_key
  is_fk_nullable = elim generic_field [
    | some g ↦ g.relation_nullable
    | none ↦ elim (find_foreign_key fields) [ none ↦ true | some c ↦ c.null_allowed ]
  ]

  abbrev pub is_generic : Option GenericField → Bool
  is_generic none = false
  is_generic (some g) = true

  -- What an exception of the ORM is turned into.
  abbrev pub wrapped {ℓ} : {A : Type ℓ} → Option A → Result A
  wrapped none = err RelationOperationError.executing
  wrapped (some a) = ok a

  abbrev pub get_or_raise : ℕ → Store → Result Store
  get_or_raise i s = if m.exists i s then ok s else err RelationOperationError.not_found

  -- `if record.id not in current_ids: await relation_manager.add(record)`
  abbrev pub ensure_linked : ℕ → Store → Result Store
  ensure_linked i s = if member i (m.all s) then ok s else wrapped (m.add i s)

  -- The record is unlinked, or deleted where its foreign key is required.
  unfoldable pub take_out : ℕ → Store → Result Store
  take_out i s = if is_fk_nullable then wrapped (m.remove i s) else wrapped (m.delete_record i s)

  -- `for record in current`, of those that `gone` says.
  unfoldable pub take_out_all : (ℕ → Bool) → List ℕ → Store → Result Store
  unfolding take_out
  take_out_all gone [] s = ok s
  take_out_all gone (i ∷ is) s =
      (if gone i then take_out i s else ok s) >>= λ s'. take_out_all gone is s'

  -- `for record in records_to_link`, of those that `wanted` says.
  unfoldable pub add_all : (ℕ → Bool) → List ℕ → Store → Result Store
  add_all wanted [] s = ok s
  add_all wanted (i ∷ is) s =
      (if wanted i then wrapped (m.add i s) else ok s) >>= λ s'. add_all wanted is s'

  -- The ids of a set operation, each of which must be valid and exist.
  unfoldable pub ids_of : List Scalar → Store → Result (List ℕ)
  ids_of [] s = ok []
  ids_of (v ∷ vs) s = positive_or_raise (positive v) >>= λ i.
      get_or_raise i s >>= λ s'. ids_of vs s >>= λ is. ok (i ∷ is)

  -- The part of the set operation behind the checks: the current records, and the wanted ids.
  unfoldable pub replace : List ℕ → List ℕ → Store → Result Store
  unfolding take_out_all add_all
  replace current ids s = take_out_all (λ i. not (member i ids)) current s >>= λ s'.
      add_all (λ i. not (member i current)) ids s'

  -- One round of the loop, behind the reading of the operation.
  unfoldable pub execute : Operation → Store → Result Store
  unfolding with_parent take_out_all ids_of replace
  execute (create values) s =
      wrapped (m.create_record (with_parent values) s) >>= λ (i, s'). wrapped (m.add i s')
  execute (update i values) s =
      get_or_raise i s >>= λ s'. wrapped (m.save_values i values s') >>= λ s''. ensure_linked i s''
  execute (link i) s = get_or_raise i s >>= λ s'. wrapped (m.add i s')
  execute (unlink i) s = get_or_raise i s >>= λ s'. wrapped (m.remove i s')
  execute (delete i) s = get_or_raise i s >>= λ s'.
      (if is_generic generic_field then ok s' else wrapped (m.remove i s')) >>= λ s''.
      wrapped (m.delete_record i s'')
  execute clear s = take_out_all (λ i. true) (m.all s) s
  execute (set vs) s = ids_of vs s >>= λ ids. replace (m.all s) ids s

  -- `process_relation_operations`
  unfoldable pub process_relation_operations : List Request → Store → Result Store
  unfolding read_operation execute
  process_relation_operations [] s = ok s
  process_relation_operations (r ∷ rs) s =
      read_operation r >>= λ op. execute op s >>= λ s'. process_relation_operations rs s'
