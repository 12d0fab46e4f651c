-- ===== src/Relations/Rows.antt =====
-- A store of rows that behaves as the ORM is documented to.
use fastedgy.Prelude.{
  Bool-cases, inl, inr, ℕ, zero, suc, Bool, true, false, Option, none, some, List, [], ◌∷◌, ◌++◌,
  ◌==◌, ◌||◌, if◌then◌else◌, ◌≡◌, refl, sym, ap, ◌∙◌, arith, ◌+◌, ◌<◌, length,
}
use fastedgy.Prelude.Dict.{has_name, keys}
use fastedgy.Prelude.Keys.{member, Distinct}
use fastedgy.Relations.Manager.{Manager, is_linked, IsManager, Changes}

-- Record `i` is the `i`-th row: deleted, in no relation, or linked.
pub data Row : Type 0 where
  gone free tied : Row

abbrev is_tied : Row → Bool
is_tied tied = true
is_tied _ = false

abbrev is_there : Row → Bool
is_there gone = false
is_there _ = true

unfoldable pub row : ℕ → List Row → Row
row i [] = gone
row zero (r ∷ rs) = r
row (suc i) (r ∷ rs) = row i rs

unfoldable pub put_row : ℕ → Row → List Row → List Row
put_row i r [] = []
put_row zero r (x ∷ xs) = r ∷ xs
put_row (suc i) r (x ∷ xs) = x ∷ put_row i r xs

unfoldable pub tied_from : ℕ → List Row → List ℕ
tied_from k [] = []
tied_from k (gone ∷ rs) = tied_from (suc k) rs
tied_from k (free ∷ rs) = tied_from (suc k) rs
tied_from k (tied ∷ rs) = k ∷ tied_from (suc k) rs

abbrev put_there : ℕ → Row → List Row → Option (List Row)
put_there i r s = if is_there (row i s) then some (put_row i r s) else none

-- A record saved with another parent is in the relation no more.
unfoldable pub saved_with : Bool → ℕ → List Row → Option (List Row)
saved_with moves i s = if moves then put_there i free s else some s

unfoldable pub rows : Manager (List Row)
unfolding row put_row tied_from saved_with
rows = record {
  exists = λ i s. is_there (row i s);
  all = λ s. tied_from 0 s;
  add = λ i s. put_there i tied s;
  remove = λ i s. put_there i free s;
  delete_record = λ i s. put_there i gone s;
  save_values = λ i d s. saved_with (has_name "parent" (keys d)) i s;
  create_record = λ d s. some (length s, s ++ free ∷ []);
}

row-put_row :
    (i j : ℕ) (r : Row) (s : List Row)
    → is_there (row i s) ≡ true
    → row j (put_row i r s) ≡ (if i == j then r else row j s)
unfolding row put_row
row-put_row i j r [] h = ground (arith, h)
row-put_row zero zero r (x ∷ xs) h = refl
row-put_row zero (suc j) r (x ∷ xs) h = ground arith
row-put_row (suc i) zero r (x ∷ xs) h = ground arith
row-put_row (suc i) (suc j) r (x ∷ xs) h = ground (arith, row-put_row i j r xs h)

row-append :
    (j : ℕ) (s : List Row) → row j (s ++ free ∷ []) ≡ (if length s == j then free else row j s)
unfolding row
row-append zero [] = refl
row-append (suc j) [] = ground arith
row-append zero (x ∷ xs) = ground arith
row-append (suc j) (x ∷ xs) = ground (arith, row-append j xs)

row_past : (s : List Row) → row (length s) s ≡ gone
unfolding row
row_past [] = refl
row_past (x ∷ xs) = row_past xs

below_tied_from : (j k : ℕ) (s : List Row) → j < k → member j (tied_from k s) ≡ false
unfolding tied_from member
below_tied_from j k [] h = refl
below_tied_from j k (gone ∷ rs) h = below_tied_from j (suc k) rs (omega arith)
below_tied_from j k (free ∷ rs) h = below_tied_from j (suc k) rs (omega arith)
below_tied_from j k (tied ∷ rs) h = ground (arith, below_tied_from j (suc k) rs)

tied_from-Distinct : (k : ℕ) (s : List Row) → Distinct (tied_from k s)
unfolding tied_from
tied_from-Distinct k [] = tt
tied_from-Distinct k (gone ∷ rs) = tied_from-Distinct (suc k) rs
tied_from-Distinct k (free ∷ rs) = tied_from-Distinct (suc k) rs
tied_from-Distinct k (tied ∷ rs) =
    (below_tied_from k (suc k) rs (omega arith), tied_from-Distinct (suc k) rs)

member-tied_from :
    (i j k : ℕ) (s : List Row) → i ≡ k + j → member i (tied_from k s) ≡ is_tied (row j s)
unfolding tied_from member row
member-tied_from i j k [] e = refl
member-tied_from i zero k (gone ∷ rs) e = below_tied_from i (suc k) rs (omega arith)
member-tied_from i zero k (free ∷ rs) e = below_tied_from i (suc k) rs (omega arith)
member-tied_from i zero k (tied ∷ rs) e = ground arith
member-tied_from i (suc j) k (gone ∷ rs) e = member-tied_from i j (suc k) rs (omega arith)
member-tied_from i (suc j) k (free ∷ rs) e = member-tied_from i j (suc k) rs (omega arith)
member-tied_from i (suc j) k (tied ∷ rs) e = ground (arith, member-tied_from i j (suc k) rs)

linked_rows : (j : ℕ) (s : List Row) → is_linked rows j s ≡ is_tied (row j s)
unfolding rows
linked_rows j s = member-tied_from j j 0 s (omega arith)

put_there-Changes :
    (i : ℕ) (r : Row) (s : List Row) (linked present : ℕ → Bool)
    → is_there (row i s) ≡ true
    → ((j : ℕ) → is_tied (if i == j then r else row j s) ≡ linked j)
    → ((j : ℕ) → is_there (if i == j then r else row j s) ≡ present j)
    → Changes rows (put_there i r s) linked present
unfolding rows
put_there-Changes i r s linked present h k l = rw h (
  λ j. linked_rows j (put_row i r s) ∙ ap is_tied (row-put_row i j r s h) ∙ k j,
  λ j. ap is_there (row-put_row i j r s h) ∙ l j,
)

tied_there : (r : Row) → is_tied r ≡ true → is_there r ≡ true
tied_there gone h = cc
tied_there free h = refl
tied_there tied h = refl

same_there : (i j : ℕ) (s : List Row) → (i == j) ≡ true → row i s ≡ row j s
same_there i j s h = let e : i ≡ j = ground arith in ap (λ k. row k s) e

some-parts :
    {i j : ℕ} {s t : List Row}
    → ◌≡◌ {A = Option (ℕ × List Row)} (some (i, s)) (some (j, t))
    → (i ≡ j) × (s ≡ t)
some-parts e = (cc, cc)

created_row :
    (s : List Row)
    → (is_there (row (length s) s) ≡ false)
      × ((j : ℕ) → is_there (row j (s ++ free ∷ [])) ≡ length s == j || is_there (row j s))
      × ((j : ℕ) → (length s == j) ≡ false → is_linked rows j (s ++ free ∷ []) ≡ is_linked rows j s)
created_row s = (
  rw (row_past s) refl,
  λ j. ground (arith, row-append j s),
  λ j h.
      linked_rows j (s ++ free ∷ [])
      ∙ ap is_tied (row-append j s ∙ ground (arith, h))
      ∙ sym (linked_rows j s),
)

-- What a save leaves of the links of the other records, and of all records.
abbrev Saves : ℕ → List Row → List Row → Type 0
Saves i s s' =
    ((j : ℕ) → (i == j) ≡ false → is_linked rows j s' ≡ is_linked rows j s)
    × ((j : ℕ) → is_there (row j s') ≡ is_there (row j s))

put_row-Saves : (i : ℕ) (s : List Row) → is_there (row i s) ≡ true → Saves i s (put_row i free s)
put_row-Saves i s h = (
  λ j n.
      linked_rows j (put_row i free s)
      ∙ ap is_tied (row-put_row i j free s h ∙ ground (arith, n))
      ∙ sym (linked_rows j s),
  λ j. ap is_there (row-put_row i j free s h) ∙ ground (arith, h, same_there i j s),
)

saved-row : (moves : Bool) (i : ℕ) (s s' : List Row) → saved_with moves i s ≡ some s' → Saves i s s'
unfolding saved_with
saved-row false i s s' e = let same : s ≡ s' = cc in rw (← same) (λ j n. refl, λ j. refl)
saved-row true i s s' e = elim (Bool-cases (is_there (row i s))) [
  | inl y ↦
      let same : put_row i free s ≡ s' = ground (arith, y, e) in rw (← same) (put_row-Saves i s y)
  | inr n ↦ ground (arith, n, e)
]

pub rows-IsManager : IsManager rows true
unfolding rows
rows-IsManager = record {
  all-Distinct = λ s. tied_from-Distinct 0 s;
  linked-exists = λ i s h. tied_there (row i s) (sym (linked_rows i s) ∙ h);
  add-Changes = λ i s h.
      put_there-Changes i tied s _ _ h (λ j. ground (arith, linked_rows j s))
        (λ j. ground (arith, h, same_there i j s));
  remove-Changes = λ i s n h.
      put_there-Changes i free s _ _ (tied_there (row i s) (sym (linked_rows i s) ∙ h))
        (λ j. ground (arith, linked_rows j s))
        (λ j. ground (arith, tied_there (row i s) (sym (linked_rows i s) ∙ h), same_there i j s));
  deletes_alone = record {
    delete-Changes = λ i s h.
        put_there-Changes i gone s _ _ h (λ j. ground (arith, linked_rows j s)) (λ j. ground arith);
  };
  save-Changes = λ i d s s' e. saved-row (has_name "parent" (keys d)) i s s' e;
  create-Changes =
      λ d s s' i e. let (same_id, same) = some-parts e in rw (← same_id, ← same) (created_row s);
}
