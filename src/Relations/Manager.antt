-- ===== src/Relations/Manager.antt =====
-- What the relation operations use of the ORM: the related model's queries, the manager of the
-- relation, and the records.
use fastedgy.Prelude.{
  ℕ, Bool, true, false, Option, none, some, String, List, ◌≡◌, ◌==◌, if◌then◌else◌, ◌||◌,
}
use fastedgy.Prelude.Keys.{member, Distinct}
use fastedgy.Relations.{Scalar}

-- A call that raises gives none.
pub record Manager (Store : Type 0) : Type 0 where
  -- `query.get(id=...)` finds the record.
  pub exists : ℕ → Store → Bool
  -- `relation_manager.all()`, by the ids
  pub all : Store → List ℕ
  -- `relation_manager.add`, `relation_manager.remove`, `record.delete`
  pub add : ℕ → Store → Option Store
  pub remove : ℕ → Store → Option Store
  pub delete_record : ℕ → Store → Option Store
  -- `setattr` of the values and `save`
  pub save_values : ℕ → List (String × Scalar) → Store → Option Store
  -- `related_model(**values)` and `save`, or `query.create(**values)`
  pub create_record : List (String × Scalar) → Store → Option (ℕ × Store)

module _ {Store : Type 0} (m : Manager Store) where
  abbrev pub is_linked : ℕ → Store → Bool
  is_linked i s = member i (m.all s)

  -- A change that succeeds: what is linked and what exists then.
  abbrev pub Changes : Option Store → (ℕ → Bool) → (ℕ → Bool) → Type 0
  Changes none linked present = ⊥
  Changes (some s') linked present =
      ((j : ℕ) → is_linked j s' ≡ linked j) × ((j : ℕ) → m.exists j s' ≡ present j)

  -- A condition on the schema: no constraint refuses to delete a record, and no other record of the
  -- related model is deleted or unlinked along with it.
  pub record DeletesAlone : Type 0 where
    pub delete-Changes :
        (i : ℕ) (s : Store)
        → m.exists i s ≡ true
        → Changes
            (m.delete_record i s)
            (λ j. if i == j then false else is_linked j s)
            (λ j. if i == j then false else m.exists j s)

  -- Documented of the ORM: a relation has each of its records once, and they exist; `add` links a
  -- record and changes nothing where it is linked, `remove` takes a linked record out of the relation
  -- where its foreign key may be null, saving a record moves no other one (its own foreign key may be
  -- among the values), and a new record is one that there was not.
  pub record IsManager (nullable : Bool) : Type 0 where
    pub all-Distinct : (s : Store) → Distinct (m.all s)
    pub linked-exists : (i : ℕ) (s : Store) → is_linked i s ≡ true → m.exists i s ≡ true
    pub add-Changes :
        (i : ℕ) (s : Store)
        → m.exists i s ≡ true
        → Changes (m.add i s) (λ j. i == j || is_linked j s) (λ j. m.exists j s)
    pub remove-Changes :
        (i : ℕ) (s : Store)
        → nullable ≡ true
        → is_linked i s ≡ true
        → Changes (m.remove i s) (λ j. if i == j then false else is_linked j s) (λ j. m.exists j s)
    pub deletes_alone : DeletesAlone
    pub save-Changes :
        (i : ℕ) (d : List (String × Scalar)) (s s' : Store)
        → m.save_values i d s ≡ some s'
        → ((j : ℕ) → (i == j) ≡ false → is_linked j s' ≡ is_linked j s)
          × ((j : ℕ) → m.exists j s' ≡ m.exists j s)
    pub create-Changes :
        (d : List (String × Scalar)) (s s' : Store) (i : ℕ)
        → m.create_record d s ≡ some (i, s')
        → (m.exists i s ≡ false)
          × ((j : ℕ) → m.exists j s' ≡ i == j || m.exists j s)
          × ((j : ℕ) → (i == j) ≡ false → is_linked j s' ≡ is_linked j s)
