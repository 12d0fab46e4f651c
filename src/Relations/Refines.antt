-- ===== src/Relations/Refines.antt =====
-- The relation operations as operations on a set of ids.
use fastedgy.Prelude.{
  ℕ, Bool, true, false, Option, none, some, List, [], ◌∷◌, not, ◌==◌, ◌||◌, if◌then◌else◌, ◌≡◌,
  refl, ◌∙◌, Bool-cases, inl, inr, arith,
}
use fastedgy.Prelude.Keys.{member}
use fastedgy.Relations.{
  Scalar, ok, ◌>>=◌, positive, Operation, create, update, link, unlink, delete, clear, set,
}
use fastedgy.Relations.Manager.{Manager, is_linked, Changes, IsManager}
use fastedgy.Relations.Execute.{
  Candidate, GenericField, with_parent, is_fk_nullable, is_generic, wrapped, get_or_raise,
  ensure_linked, take_out_all, add_all, ids_of, replace, execute,
}
use fastedgy.Relations.Links.{
  Returns, Returns-bind, Returns-mono, nullable, wrapped-Leaves, take_out_all-Leaves,
  add_all-Leaves, same_test,
}

abbrev add_named : Option ℕ → List ℕ → List ℕ
add_named none is = is
add_named (some i) is = i ∷ is

-- The numbers that the ids of a set operation are.
unfoldable pub named : List Scalar → List ℕ
named [] = []
named (v ∷ vs) = add_named (positive v) (named vs)

module _ {Store : Type 0} (m : Manager Store) (generic_field : Option GenericField)
    (instance_id : ℕ) (fields : List Candidate) where
  -- Each is the id of a record.
  abbrev pub AreRecords : List Scalar → Store → Type 0
  AreRecords [] s = Unit
  AreRecords (v ∷ vs) s =
      ((i : ℕ) × (positive v ≡ some i) × (m.exists i s ≡ true)) × AreRecords vs s

  -- The records that an operation names are there, those to be unlinked are linked by a foreign key
  -- that may be null, and the ORM saves the values.
  abbrev pub Accepts : Operation → Store → Type 0
  Accepts (create values) s =
      (i : ℕ) × (s' : Store) × (m.create_record
          (with_parent m generic_field instance_id fields values) s
        ≡ some (i, s'))
  Accepts (update i values) s =
      (m.exists i s ≡ true) × ((s' : Store) × (m.save_values i values s ≡ some s'))
  Accepts (link i) s = m.exists i s ≡ true
  Accepts (unlink i) s =
      (is_linked m i s ≡ true) × (is_fk_nullable m generic_field instance_id fields ≡ true)
  Accepts (delete i) s =
      (m.exists i s ≡ true)
      × (is_generic m generic_field instance_id fields generic_field ≡ false
          → (is_linked m i s ≡ true) × (is_fk_nullable m generic_field instance_id fields ≡ true))
  Accepts clear s = Unit
  Accepts (set vs) s = AreRecords vs s

  -- The set of linked records `linked` becomes the set `linked'`.
  abbrev pub Becomes : Operation → (ℕ → Bool) → (ℕ → Bool) → Type 0
  Becomes (create values) linked linked' = (i : ℕ) × ((j : ℕ) → linked' j ≡ i == j || linked j)
  Becomes (update i values) linked linked' = (j : ℕ) → linked' j ≡ i == j || linked j
  Becomes (link i) linked linked' = (j : ℕ) → linked' j ≡ i == j || linked j
  Becomes (unlink i) linked linked' = (j : ℕ) → linked' j ≡ (if i == j then false else linked j)
  Becomes (delete i) linked linked' = (j : ℕ) → linked' j ≡ (if i == j then false else linked j)
  Becomes clear linked linked' = (j : ℕ) → linked' j ≡ false
  Becomes (set vs) linked linked' = (j : ℕ) → linked' j ≡ member j (named vs)

module _ {Store : Type 0} (m : Manager Store) (generic_field : Option GenericField)
    (instance_id : ℕ) (fields : List Candidate)
    (laws : IsManager m (is_fk_nullable m generic_field instance_id fields)) where
  get_or_raise-ok :
      (i : ℕ) (s : Store)
      → m.exists i s ≡ true
      → get_or_raise m generic_field instance_id fields i s ≡ ok s
  get_or_raise-ok i s h = rw h refl

  ids_of-ok :
      (vs : List Scalar) (s : Store)
      → AreRecords m generic_field instance_id fields vs s
      → (ids_of m generic_field instance_id fields vs s ≡ ok (named vs))
        × ((j : ℕ) → member j (named vs) ≡ true → m.exists j s ≡ true)
  unfolding ids_of named member
  ids_of-ok [] s h = (refl, λ j k. ground (arith, k))
  ids_of-ok (v ∷ vs) s ((i, e, x), h) =
      let (rest, present) = ids_of-ok vs s h in
      (
        rw (e, x, rest) refl,
        λ j k. ground (arith, e, k, present j, x, same_test (λ y. m.exists y s) i j),
      )

  set-Becomes :
      (vs : List Scalar) (s : Store)
      → AreRecords m generic_field instance_id fields vs s
      → Returns
          (replace m generic_field instance_id fields (m.all s) (named vs) s)
          (λ s'. (j : ℕ) → is_linked m j s' ≡ member j (named vs))
  unfolding replace
  set-Becomes vs s h =
      let (_, present) = ids_of-ok vs s h in
      Returns-bind
        (take_out_all m generic_field instance_id fields (λ i. not (member i (named vs))) (m.all s)
          s)
        _ _ _
        (take_out_all-Leaves m generic_field instance_id fields laws
          (λ i. not (member i (named vs))) (m.all s) s (laws.all-Distinct s) (λ j k. k))
        (λ s' (linked, kept).
          Returns-mono
            (add_all m generic_field instance_id fields (λ i. not (member i (m.all s))) (named vs)
              s')
            _ _
            (add_all-Leaves m generic_field instance_id fields laws (λ i. not (member i (m.all s)))
              (named vs) s' (λ j k. kept j (ground (arith, present j, k))))
            (λ s'' (linked', _) j. ground (arith, linked j, linked' j)))

  clear-Becomes :
      (s : Store)
      → Returns
          (take_out_all m generic_field instance_id fields (λ i. true) (m.all s) s)
          (λ s'. (j : ℕ) → is_linked m j s' ≡ false)
  clear-Becomes s =
      Returns-mono (take_out_all m generic_field instance_id fields (λ i. true) (m.all s) s) _ _
        (take_out_all-Leaves m generic_field instance_id fields laws (λ i. true) (m.all s) s
          (laws.all-Distinct s) (λ j k. k))
        (λ s' (linked, _) j. ground (arith, linked j))

  -- What a change leaves is what it becomes, where its links are those.
  changed :
      (o : Option Store) (linked present wanted : ℕ → Bool)
      → Changes m o linked present
      → ((j : ℕ) → linked j ≡ wanted j)
      → Returns
          (wrapped m generic_field instance_id fields o)
          (λ s'. (j : ℕ) → is_linked m j s' ≡ wanted j)
  changed none linked present wanted h k = h
  changed (some s') linked present wanted h k = λ j. h.0 j ∙ k j

  add-Becomes :
      (i : ℕ) (s s' : Store)
      → m.exists i s' ≡ true
      → ((j : ℕ) → (i == j) ≡ false → is_linked m j s' ≡ is_linked m j s)
      → Returns
          (wrapped m generic_field instance_id fields (m.add i s'))
          (λ s''. (j : ℕ) → is_linked m j s'' ≡ i == j || is_linked m j s)
  add-Becomes i s s' h k =
      changed (m.add i s') _ _ _ (laws.add-Changes i s' h) (λ j. ground (arith, k j))

  ensure_linked-Becomes :
      (i : ℕ) (s s' : Store)
      → m.exists i s' ≡ true
      → ((j : ℕ) → (i == j) ≡ false → is_linked m j s' ≡ is_linked m j s)
      → Returns
          (ensure_linked m generic_field instance_id fields i s')
          (λ s''. (j : ℕ) → is_linked m j s'' ≡ i == j || is_linked m j s)
  ensure_linked-Becomes i s s' h k = elim (Bool-cases (is_linked m i s')) [
    | inl y ↦ rw y (λ j. ground (arith, y, k j, same_test (λ x. member x (m.all s')) i j))
    | inr n ↦ rw n (add-Becomes i s s' h k)
  ]

  delete-Becomes :
      (generic : Bool) (i : ℕ) (s : Store)
      → m.exists i s ≡ true
      → (generic ≡ false
          → (is_linked m i s ≡ true) × (nullable m generic_field instance_id fields laws ≡ true))
      → Returns
          ((if generic then ok s else wrapped m generic_field instance_id fields (m.remove i s))
            >>= λ s'. wrapped m generic_field instance_id fields (m.delete_record i s'))
          (λ s'. (j : ℕ) → is_linked m j s' ≡ (if i == j then false else is_linked m j s))
  delete-Becomes true i s h k =
      changed (m.delete_record i s) _ _ _ (laws.deletes_alone.delete-Changes i s h) (λ j. refl)
  delete-Becomes false i s h k =
      let (linked, null) = k refl in
      Returns-bind (wrapped m generic_field instance_id fields (m.remove i s)) _ _ _
        (wrapped-Leaves m generic_field instance_id fields laws (m.remove i s) _ _
          (λ j. m.exists j s) (laws.remove-Changes i s null linked) (λ j e. e))
        (λ s' (gone, kept).
          changed (m.delete_record i s') _ _ _ (laws.deletes_alone.delete-Changes i s' (kept i h))
            (λ j. ground (arith, gone j)))

  -- An operation that is accepted succeeds, and makes of the set of linked records what its name
  -- says: `create`, `update` and `link` add a record, `unlink` and `delete` take one out, `clear`
  -- empties the set, and `set` makes it just the ids that it lists. This is for an ORM as documented,
  -- and a schema where deleting a record is never refused and takes no other record along.
  pub execute-Becomes :
      (op : Operation) (s : Store)
      → Accepts m generic_field instance_id fields op s
      → Returns (execute m generic_field instance_id fields op s) (λ s'.
        Becomes m generic_field instance_id fields op
          (λ j. is_linked m j s)
          (λ j. is_linked m j s'))
  unfolding execute
  execute-Becomes (create values) s (i, s', e) =
      let (new, present, same) = laws.create-Changes _ s s' i e in
      rw e (
        Returns-mono (wrapped m generic_field instance_id fields (m.add i s')) _ _
          (add-Becomes i s s' (ground (arith, present i)) same) (λ s'' h. (i, h)))
  execute-Becomes (update i values) s (h, (s', e)) =
      let (same, present) = laws.save-Changes i values s s' e in
      rw (h, e) (ensure_linked-Becomes i s s' (present i ∙ h) same)
  execute-Becomes (link i) s h = rw h (add-Becomes i s s h (λ j _. refl))
  execute-Becomes (unlink i) s (h, null) =
      rw (laws.linked-exists i s h)
        (changed (m.remove i s) _ _ _ (laws.remove-Changes i s null h) (λ j. refl))
  execute-Becomes (delete i) s (h, k) =
      rw h (delete-Becomes (is_generic m generic_field instance_id fields generic_field) i s h k)
  execute-Becomes clear s h = clear-Becomes s
  execute-Becomes (set vs) s h = rw (ids_of-ok vs s h).0 (set-Becomes vs s h)
