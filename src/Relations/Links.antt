-- ===== src/Relations/Links.antt =====
-- What the operations make of the set of linked records.
use fastedgy.Prelude.{
  ℕ, Bool, true, false, Option, none, some, List, [], ◌∷◌, ◌==◌, ◌||◌, ◌&&◌, if◌then◌else◌, ◌≡◌,
  refl, ap, ◌∙◌, Bool-cases, inl, inr, arith,
}
use fastedgy.Prelude.Keys.{member, Distinct}
use fastedgy.Relations.{Result, ok, err, ◌>>=◌}
use fastedgy.Relations.Manager.{Manager, is_linked, Changes, IsManager}
use fastedgy.Relations.Execute.{
  Candidate, GenericField, is_fk_nullable, wrapped, take_out, take_out_all, add_all,
}

-- A result that is returned, and of what kind.
abbrev pub Returns {ℓ} : {A : Type ℓ} → Result A → (A → Type 0) → Type 0
Returns (ok a) P = P a
Returns (err e) P = ⊥

pub Returns-bind {ℓ κ} :
    {A : Type ℓ} {B : Type κ} (r : Result A) (f : A → Result B) (P : A → Type 0) (Q : B → Type 0)
    → Returns r P
    → ((a : A) → P a → Returns (f a) Q)
    → Returns (r >>= f) Q
Returns-bind (ok a) f P Q h k = k a h
Returns-bind (err e) f P Q h k = absurd h

pub Returns-mono {ℓ} :
    {A : Type ℓ} (r : Result A) (P Q : A → Type 0)
    → Returns r P
    → ((a : A) → P a → Q a)
    → Returns r Q
Returns-mono (ok a) P Q h k = k a h
Returns-mono (err e) P Q h k = absurd h

pub same_test : (test : ℕ → Bool) (i j : ℕ) → (i == j) ≡ true → test i ≡ test j
same_test test i j h = let e : i ≡ j = ground arith in ap test e

module _ {Store : Type 0} (m : Manager Store) (generic_field : Option GenericField)
    (instance_id : ℕ) (fields : List Candidate)
    (laws : IsManager m (is_fk_nullable m generic_field instance_id fields)) where
  abbrev pub nullable : Bool
  nullable = is_fk_nullable m generic_field instance_id fields

  -- The linked records are just those that `linked` says, and those that `present` says exist.
  abbrev pub Leaves : (ℕ → Bool) → (ℕ → Bool) → Store → Type 0
  Leaves linked present s =
      ((j : ℕ) → is_linked m j s ≡ linked j) × ((j : ℕ) → present j ≡ true → m.exists j s ≡ true)

  pub wrapped-Leaves :
      (o : Option Store) (linked present kept : ℕ → Bool)
      → Changes m o linked present
      → ((j : ℕ) → kept j ≡ true → present j ≡ true)
      → Returns (wrapped m generic_field instance_id fields o) (Leaves linked kept)
  wrapped-Leaves none linked present kept h k = h
  wrapped-Leaves (some s) linked present kept h k = (h.0, λ j p. h.1 j ∙ k j p)

  take_out-Leaves :
      (i : ℕ) (s : Store)
      → is_linked m i s ≡ true
      → Returns (take_out m generic_field instance_id fields i s) (
          Leaves
            (λ j. if i == j then false else is_linked m j s)
            (λ j. if i == j then false else m.exists j s))
  unfolding take_out
  take_out-Leaves i s h = elim (Bool-cases nullable) [
    | inl y ↦
        rw y
          (wrapped-Leaves (m.remove i s) _ _ _ (laws.remove-Changes i s y h) (λ j k. ground arith))
    | inr n ↦ rw n (
        wrapped-Leaves (m.delete_record i s) _ _ _
          (laws.deletes_alone.delete-Changes i s (laws.linked-exists i s h)) (λ j k. k))
  ]

  take_out_if-Leaves :
      (gone : Bool) (i : ℕ) (s : Store)
      → is_linked m i s ≡ true
      → Returns (if gone then take_out m generic_field instance_id fields i s else ok s) (
          Leaves
            (λ j. if gone && i == j then false else is_linked m j s)
            (λ j. if gone && i == j then false else m.exists j s))
  take_out_if-Leaves true i s h = take_out-Leaves i s h
  take_out_if-Leaves false i s h = (λ j. refl, λ j k. k)

  pub take_out_all-Leaves :
      (gone : ℕ → Bool) (is : List ℕ) (s : Store)
      → Distinct is
      → ((j : ℕ) → member j is ≡ true → is_linked m j s ≡ true)
      → Returns (take_out_all m generic_field instance_id fields gone is s) (
          Leaves
            (λ j. if gone j && member j is then false else is_linked m j s)
            (λ j. if gone j && member j is then false else m.exists j s))
  unfolding take_out_all member
  take_out_all-Leaves gone [] s d h = (λ j. ground arith, λ j k. ground arith)
  take_out_all-Leaves gone (i ∷ is) s d h =
      Returns-bind (if gone i then take_out m generic_field instance_id fields i s else ok s) _ _ _
        (take_out_if-Leaves (gone i) i s (h i (ground arith)))
        (λ s' (linked, kept).
          Returns-mono (take_out_all m generic_field instance_id fields gone is s') _ _
            (take_out_all-Leaves gone is s' d.1
              (λ j k. ground (arith, linked j, h j, d.0, same_test (λ x. member x is) i j)))
            (λ s'' (linked', kept'). (
              λ j. ground (arith, linked j, linked' j, same_test gone i j),
              λ j k. ground (arith, kept j, kept' j, same_test gone i j),
            )))

  pub add_all-Leaves :
      (wanted : ℕ → Bool) (is : List ℕ) (s : Store)
      → ((j : ℕ) → member j is ≡ true → m.exists j s ≡ true)
      → Returns
          (add_all m generic_field instance_id fields wanted is s)
          (Leaves (λ j. wanted j && member j is || is_linked m j s) (λ j. m.exists j s))
  unfolding add_all member
  add_all-Leaves wanted [] s h = (λ j. ground arith, λ j k. k)
  add_all-Leaves wanted (i ∷ is) s h =
      Returns-bind
        (if wanted i then wrapped m generic_field instance_id fields (m.add i s) else ok s) _
        (Leaves (λ j. wanted i && i == j || is_linked m j s) (λ j. m.exists j s)) _
        (elim (Bool-cases (wanted i)) [
          | inl y ↦ rw y (
              wrapped-Leaves (m.add i s) _ _ _ (laws.add-Changes i s (h i (ground arith)))
                (λ j k. k))
          | inr n ↦ rw n (λ j. refl, λ j k. k)
        ])
        (λ s' (linked, kept).
          Returns-mono (add_all m generic_field instance_id fields wanted is s') _ _
            (add_all-Leaves wanted is s' (λ j k. kept j (h j (ground arith))))
            (λ s'' (linked', kept'). (
              λ j. ground (arith, linked j, linked' j, same_test wanted i j),
              λ j k. ground (arith, kept j, kept' j),
            )))
