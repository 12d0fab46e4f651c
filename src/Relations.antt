-- ===== src/Relations.antt =====
-- fastedgy/orm/relations/utils.py and processor.py: operations on the related records of an instance.
-- A value of the request is a scalar, a dict or a list; what stands inside a dict or a list is a
-- scalar or its dump. All that the code raises is a RelationOperationError, here by its reason.
pub mod Manager
pub mod Execute
pub mod Links
pub mod Refines
pub mod ForeignKey
mod Rows
mod Examples
use fastedgy.Prelude.{
  ℕ, suc, Bool, true, false, Option, none, some, String, List, [], ◌∷◌, if◌then◌else◌,
}
use fastedgy.Prelude.Dict.{lookup, pop}
use fastedgy.Prelude.Int.{ℤ, pos, negsuc}
use text.Mathlib.Text.{◌==◌ as str_eq}

pub data Scalar : Type 0 where
  null : Scalar
  flag : Bool → Scalar
  int : ℤ → Scalar
  text_value : String → Scalar
  dump : String → Scalar

pub data Value : Type 0 where
  scalar : Scalar → Value
  dict : List (String × Scalar) → Value
  list : List Scalar → Value

pub data RelationOperationError : Type 0 where
  bad_id bad_format bad_arguments requires_dict requires_id : RelationOperationError
  not_found unknown required executing : RelationOperationError

pub data Result {ℓ} (A : Type ℓ) : Type ℓ where
  ok : A → Result A
  err : RelationOperationError → Result A

infixl 5 ◌>>=◌
abbrev pub ◌>>=◌ {ℓ κ} : {A : Type ℓ} {B : Type κ} → Result A → (A → Result B) → Result B
ok a >>= f = f a
err e >>= f = err e

-- `isinstance(value, int)`, which a bool passes, and `value > 0`.
unfoldable pub positive : Scalar → Option ℕ
positive (flag true) = some 1
positive (int (pos (suc n))) = some (suc n)
positive _ = none

abbrev pub positive_or_raise : Option ℕ → Result ℕ
positive_or_raise none = err RelationOperationError.bad_id
positive_or_raise (some id) = ok id

-- `extract_id`
unfoldable pub extract_id : Value → Result ℕ
unfolding positive
extract_id (scalar v) = positive_or_raise (positive v)
extract_id (dict d) = elim (lookup "id" d) [
  | none ↦ err RelationOperationError.bad_id
  | some v ↦ positive_or_raise (positive v)
]
extract_id (list vs) = err RelationOperationError.bad_id

-- `extract_id_and_values`
unfoldable pub extract_id_and_values : Value → Result (ℕ × List (String × Scalar))
unfolding positive
extract_id_and_values (dict d) = elim (lookup "id" d) [
  | none ↦ err RelationOperationError.requires_id
  | some v ↦ positive_or_raise (positive v) >>= λ id. ok (id, pop "id" d)
]
extract_id_and_values (scalar v) = err RelationOperationError.requires_dict
extract_id_and_values (list vs) = err RelationOperationError.requires_dict

-- An operation that has been read.
pub data Operation : Type 0 where
  create : List (String × Scalar) → Operation
  update : ℕ → List (String × Scalar) → Operation
  link unlink delete : ℕ → Operation
  clear : Operation
  set : List Scalar → Operation

-- `create requires dict of values`
abbrev pub dict_of : Value → Result (List (String × Scalar))
dict_of (dict d) = ok d
dict_of (scalar v) = err RelationOperationError.requires_dict
dict_of (list vs) = err RelationOperationError.requires_dict

-- `set requires list of IDs`
abbrev pub list_of : Value → Result (List Scalar)
list_of (list vs) = ok vs
list_of (scalar v) = err RelationOperationError.bad_arguments
list_of (dict d) = err RelationOperationError.bad_arguments

-- `_, value = op_tuple`, on what stands behind the action.
abbrev pub one_argument : List Value → Result Value
one_argument [] = err RelationOperationError.executing
one_argument (v ∷ []) = ok v
one_argument (v ∷ w ∷ vs) = err RelationOperationError.executing

-- The part of each branch of `process_relation_operations` that reads the operation.
unfoldable pub read_action : String → List Value → Result Operation
unfolding extract_id extract_id_and_values
read_action action args =
    if str_eq action "create"
    then (one_argument args >>= λ v. dict_of v >>= λ d. ok (create d))
    else if str_eq action "update"
    then (one_argument args >>= λ v. extract_id_and_values v >>= λ (id, d). ok (update id d))
    else if str_eq action "link"
    then (one_argument args >>= λ v. extract_id v >>= λ id. ok (link id))
    else if str_eq action "unlink"
    then (one_argument args >>= λ v. extract_id v >>= λ id. ok (unlink id))
    else if str_eq action "delete"
    then (one_argument args >>= λ v. extract_id v >>= λ id. ok (delete id))
    else if str_eq action "clear"
    then ok clear
    else if str_eq action "set"
    then (one_argument args >>= λ v. list_of v >>= λ ids. ok (set ids))
    else err RelationOperationError.unknown

-- An operation of the request is no list, or a list.
pub data Request : Type 0 where
  no_list : Request
  items : List Value → Request

unfoldable pub read_operation : Request → Result Operation
unfolding read_action
read_operation no_list = err RelationOperationError.bad_format
read_operation (items []) = err RelationOperationError.bad_format
read_operation (items (scalar (text_value action) ∷ args)) = read_action action args
read_operation (items (v ∷ args)) = err RelationOperationError.bad_format
