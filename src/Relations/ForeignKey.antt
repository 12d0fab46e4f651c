-- ===== src/Relations/ForeignKey.antt =====
-- fastedgy/orm/relations/processor.py: process_foreign_key_operation.
use fastedgy.Prelude.{
  ℕ, suc, Bool, true, false, Option, none, some, String, List, [], ◌∷◌, if◌then◌else◌, ◌≡◌, refl,
  ◌∙◌, Bool-cases, inl, inr, arith,
}
use fastedgy.Prelude.Int.{pos, negsuc}
use fastedgy.Prelude.Dict.{lookup, pop}
use text.Mathlib.Text.{◌==◌ as str_eq}
use fastedgy.Relations.{
  Scalar, null, flag, int, text_value, dump, Value, scalar, dict, list, RelationOperationError,
  Result, ok, err, ◌>>=◌, positive, extract_id, extract_id_and_values, dict_of,
}
use fastedgy.Relations.Manager.{Manager, IsManager}

pub data ForeignKeyInput : Type 0 where
  scalar_input : Scalar → ForeignKeyInput
  dict_input : List (String × Scalar) → ForeignKeyInput
  list_input : List Value → ForeignKeyInput

-- The id to store, the record to delete once the instance is saved, and the store.
pub record Resolved (Store : Type 0) : Type 0 where
  pub id : Option ℕ
  pub to_delete : Option ℕ
  pub store : Store

module _ {Store : Type 0} (m : Manager Store) (nullable : Bool) where
  abbrev linked_to : ℕ → Store → Result (Resolved Store)
  linked_to i s = ok (record { id = some i; to_delete = none; store = s })

  -- `_require_nullable`, and no id.
  abbrev unlinked : Option ℕ → Store → Result (Resolved Store)
  unlinked deleted s =
      if nullable
      then ok (record { id = none; to_delete = deleted; store = s })
      else err RelationOperationError.required

  -- `_get_related_or_raise`
  abbrev get_related : ℕ → Store → Result ℕ
  get_related i s = if m.exists i s then ok i else err RelationOperationError.not_found

  abbrev saved : ℕ → Option Store → Result (Resolved Store)
  saved i none = err RelationOperationError.executing
  saved i (some s) = linked_to i s

  abbrev created : Option (ℕ × Store) → Result (Resolved Store)
  created none = err RelationOperationError.executing
  created (some (i, s)) = linked_to i s

  -- `if update_values:`, the record saved.
  abbrev save_any : ℕ → List (String × Scalar) → Store → Result (Resolved Store)
  save_any i [] s = linked_to i s
  save_any i (v ∷ vs) s = saved i (m.save_values i (v ∷ vs) s)

  -- `value[1]`
  abbrev second_item : List Value → Result Value
  second_item [] = err RelationOperationError.bad_arguments
  second_item (v ∷ vs) = ok v

  -- An operation, by its action and what stands behind it.
  unfoldable pub resolve_action : String → List Value → Store → Result (Resolved Store)
  resolve_action action args s =
      if str_eq action "link"
      then (second_item args >>= λ v. extract_id v >>= λ i. get_related i s >>= λ i. linked_to i s)
      else if str_eq action "unlink"
      then unlinked none s
      else if str_eq action "create"
      then (second_item args >>= λ v. dict_of v >>= λ d. created (m.create_record d s))
      else if str_eq action "update"
      then (second_item args >>= λ v. extract_id_and_values v >>= λ (i, d).
          get_related i s >>= λ i. saved i (m.save_values i d s))
      else if str_eq action "delete"
      then (if nullable
          then (second_item args >>= λ v.
              extract_id v >>= λ i. get_related i s >>= λ i. unlinked (some i) s)
          else err RelationOperationError.required)
      else err RelationOperationError.unknown

  unfoldable pub process_foreign_key_operation : ForeignKeyInput → Store → Result (Resolved Store)
  unfolding resolve_action
  process_foreign_key_operation (scalar_input null) s = unlinked none s
  process_foreign_key_operation (scalar_input (int (pos i))) s =
      get_related i s >>= λ i. linked_to i s
  process_foreign_key_operation (scalar_input (int (negsuc i))) s =
      err RelationOperationError.not_found
  process_foreign_key_operation (scalar_input v) s = err RelationOperationError.bad_id
  process_foreign_key_operation (dict_input d) s =
      extract_id_and_values (dict d) >>= λ (i, values). get_related i s >>= λ i. save_any i values s
  process_foreign_key_operation (list_input (scalar (text_value action) ∷ args)) s =
      resolve_action action args s
  process_foreign_key_operation (list_input vs) s = err RelationOperationError.bad_format

  -- An id to store is that of a record, none is stored only where the key may be null, and what is to
  -- be deleted is a record.
  abbrev pub Names : Option ℕ → Option ℕ → Store → Type 0
  Names (some i) none s = m.exists i s ≡ true
  Names (some i) (some j) s = ⊥
  Names none none s = nullable ≡ true
  Names none (some i) s = (nullable ≡ true) × (m.exists i s ≡ true)

  abbrev pub IsResolved : Result (Resolved Store) → Type 0
  IsResolved (err e) = Unit
  IsResolved (ok r) = Names r.id r.to_delete r.store

  bind-IsResolved {ℓ} :
      {A : Type ℓ} (r : Result A) (f : A → Result (Resolved Store))
      → ((a : A) → IsResolved (f a))
      → IsResolved (r >>= f)
  bind-IsResolved (ok a) f h = h a
  bind-IsResolved (err e) f h = tt

  related-IsResolved :
      (i : ℕ) (s : Store) (f : ℕ → Result (Resolved Store))
      → (m.exists i s ≡ true → IsResolved (f i))
      → IsResolved (get_related i s >>= f)
  related-IsResolved i s f h = elim (Bool-cases (m.exists i s)) [
    | inl y ↦ rw y (h y)
    | inr n ↦ rw n tt
  ]

  unlinked-IsResolved : (s : Store) → IsResolved (unlinked none s)
  unlinked-IsResolved s = elim (Bool-cases nullable) [ inl y ↦ rw y refl | inr n ↦ rw n tt ]

  deleted-IsResolved : (i : ℕ) (s : Store) → m.exists i s ≡ true → IsResolved (unlinked (some i) s)
  deleted-IsResolved i s h = elim (Bool-cases nullable) [ inl y ↦ rw y (refl, h) | inr n ↦ rw n tt ]

  module _ (laws : IsManager m nullable) where
    saved-IsResolved :
        (i : ℕ) (d : List (String × Scalar)) (s : Store) (o : Option Store)
        → m.exists i s ≡ true
        → m.save_values i d s ≡ o
        → IsResolved (saved i o)
    saved-IsResolved i d s none h e = tt
    saved-IsResolved i d s (some s') h e = (laws.save-Changes i d s s' e).1 i ∙ h

    save_any-IsResolved :
        (i : ℕ) (d : List (String × Scalar)) (s : Store)
        → m.exists i s ≡ true
        → IsResolved (save_any i d s)
    save_any-IsResolved i [] s h = h
    save_any-IsResolved i (v ∷ vs) s h = saved-IsResolved i (v ∷ vs) s _ h refl

    created-IsResolved :
        (d : List (String × Scalar)) (s : Store) (o : Option (ℕ × Store))
        → m.create_record d s ≡ o
        → IsResolved (created o)
    created-IsResolved d s none e = tt
    created-IsResolved d s (some (i, s')) e =
        let (new, present, same) = laws.create-Changes d s s' i e in ground (arith, present i)

    link-IsResolved :
        (args : List Value) (s : Store)
        → IsResolved
            (second_item args >>= λ v. extract_id v >>= λ i. get_related i s >>= λ i. linked_to i s)
    link-IsResolved args s =
        bind-IsResolved (second_item args) _
          (λ v. bind-IsResolved (extract_id v) _ (λ i. related-IsResolved i s _ (λ h. h)))

    create-IsResolved :
        (args : List Value) (s : Store)
        → IsResolved (second_item args >>= λ v. dict_of v >>= λ d. created (m.create_record d s))
    create-IsResolved args s =
        bind-IsResolved (second_item args) _
          (λ v. bind-IsResolved (dict_of v) _ (λ d. created-IsResolved d s _ refl))

    update-IsResolved :
        (args : List Value) (s : Store)
        → IsResolved (
            second_item args >>= λ v. extract_id_and_values v >>= λ (i, d).
            get_related i s >>= λ i. saved i (m.save_values i d s))
    update-IsResolved args s = bind-IsResolved (second_item args) _ (λ v.
        bind-IsResolved (extract_id_and_values v) _
          (λ (i, d). related-IsResolved i s _ (λ h. saved-IsResolved i d s _ h refl)))

    delete-IsResolved :
        (args : List Value) (s : Store)
        → IsResolved (
            second_item args >>= λ v.
            extract_id v >>= λ i. get_related i s >>= λ i. unlinked (some i) s)
    delete-IsResolved args s = bind-IsResolved (second_item args) _ (λ v.
        bind-IsResolved (extract_id v) _ (λ i. related-IsResolved i s _ (deleted-IsResolved i s)))

    if-IsResolved :
        (test : Bool) (a b : Result (Resolved Store))
        → IsResolved a
        → IsResolved b
        → IsResolved (if test then a else b)
    if-IsResolved true a b h k = h
    if-IsResolved false a b h k = k

    resolve_action-IsResolved :
        (action : String) (args : List Value) (s : Store)
        → IsResolved (resolve_action action args s)
    unfolding resolve_action
    resolve_action-IsResolved action args s =
        if-IsResolved (str_eq action "link") _ _ (link-IsResolved args s) (
          if-IsResolved (str_eq action "unlink") _ _ (unlinked-IsResolved s) (
            if-IsResolved (str_eq action "create") _ _ (create-IsResolved args s) (
              if-IsResolved (str_eq action "update") _ _ (update-IsResolved args s) (
                if-IsResolved (str_eq action "delete") _ _
                  (if-IsResolved nullable _ _ (delete-IsResolved args s) tt) tt))))

    -- What a foreign key input resolves to, if it is not refused: the id of a record that exists, with
    -- nothing to delete; or no id, for a key that may be null, and at most one record to delete, which
    -- exists. This is for an ORM as documented.
    pub process_foreign_key_operation-IsResolved :
        (v : ForeignKeyInput) (s : Store) → IsResolved (process_foreign_key_operation v s)
    unfolding process_foreign_key_operation
    process_foreign_key_operation-IsResolved (scalar_input null) s = unlinked-IsResolved s
    process_foreign_key_operation-IsResolved (scalar_input (int (pos i))) s =
        related-IsResolved i s _ (λ h. h)
    process_foreign_key_operation-IsResolved (scalar_input (int (negsuc i))) s = tt
    process_foreign_key_operation-IsResolved (scalar_input (flag b)) s = tt
    process_foreign_key_operation-IsResolved (scalar_input (text_value t)) s = tt
    process_foreign_key_operation-IsResolved (scalar_input (dump t)) s = tt
    process_foreign_key_operation-IsResolved (dict_input d) s =
        bind-IsResolved (extract_id_and_values (dict d)) _
          (λ (i, values). related-IsResolved i s _ (save_any-IsResolved i values s))
    process_foreign_key_operation-IsResolved (list_input []) s = tt
    process_foreign_key_operation-IsResolved (list_input (scalar (text_value action) ∷ args)) s =
        resolve_action-IsResolved action args s
    process_foreign_key_operation-IsResolved (list_input (scalar null ∷ args)) s = tt
    process_foreign_key_operation-IsResolved (list_input (scalar (flag b) ∷ args)) s = tt
    process_foreign_key_operation-IsResolved (list_input (scalar (int z) ∷ args)) s = tt
    process_foreign_key_operation-IsResolved (list_input (scalar (dump t) ∷ args)) s = tt
    process_foreign_key_operation-IsResolved (list_input (dict d ∷ args)) s = tt
    process_foreign_key_operation-IsResolved (list_input (list vs ∷ args)) s = tt

  -- The notations of a link: an id, an object of just that id, and a link operation on either resolve
  -- to the same.
  pub process_foreign_key_operation-notations :
      (n : ℕ) (s : Store)
      → let v = int (pos (suc n)) in
        let plain = process_foreign_key_operation (scalar_input v) s in
        (process_foreign_key_operation (dict_input (("id", v) ∷ [])) s ≡ plain)
        × (process_foreign_key_operation (list_input (scalar (text_value "link") ∷ scalar v ∷ [])) s
            ≡ plain)
        × (process_foreign_key_operation
              (list_input (scalar (text_value "link") ∷ dict (("id", v) ∷ []) ∷ []))
              s
            ≡ plain)
  unfolding process_foreign_key_operation extract_id extract_id_and_values positive lookup pop
  process_foreign_key_operation-notations n s = (refl, refl, refl)
