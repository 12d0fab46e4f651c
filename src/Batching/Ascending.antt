-- ===== src/Batching/Ascending.antt =====
-- Lists of ids in ascending order, each once, and what stands where in them.
use fastedgy.Prelude.{
  ◌≡◌, refl, sym, ap, ℕ, ◌<◌, ◌≤◌, suc, Bool, true, false, ◌||◌, List, [], ◌∷◌, ◌++◌, ltb, ◌==◌,
  ltb→lt, lt→ltb, ==_iff, if◌then◌else◌, filter, All, Bool-cases, inl, inr, arith, length,
}
use fastedgy.Prelude.Keys.{member}
use fastedgy.Batching.{insert_id, sorted_set}

abbrev pub Ascends : List ℕ → Type 0
Ascends [] = Unit
Ascends (i ∷ is) = All (λ j. i < j) is × Ascends is

pub All-weaken : (P Q : ℕ → Type 0) (xs : List ℕ) → ((i : ℕ) → P i → Q i) → All P xs → All Q xs
All-weaken P Q [] f a = tt
All-weaken P Q (x ∷ xs) f a = (f x a.0, All-weaken P Q xs f a.1)

All-insert_id : (P : ℕ → Type 0) (i : ℕ) (xs : List ℕ) → P i → All P xs → All P (insert_id i xs)
unfolding insert_id
All-insert_id P i [] p a = (p, tt)
All-insert_id P i (x ∷ xs) p a = elim (Bool-cases (ltb i x)) [
  | inl y ↦ rw y (p, a)
  | inr n ↦ elim (Bool-cases (i == x)) [
    | inl y ↦ rw n (rw y a)
    | inr k ↦ rw n (rw k (a.0, All-insert_id P i xs p a.1))
  ]
]

insert_id-Ascends : (i : ℕ) (xs : List ℕ) → Ascends xs → Ascends (insert_id i xs)
unfolding insert_id
insert_id-Ascends i [] a = (tt, tt)
insert_id-Ascends i (x ∷ xs) a = elim (Bool-cases (ltb i x)) [
  | inl y ↦
      let less = ltb→lt i x y in
      rw y ((less, All-weaken (λ j. x < j) (λ j. i < j) xs (λ j h. omega arith) a.0), a)
  | inr n ↦ elim (Bool-cases (i == x)) [
    | inl y ↦ rw n (rw y a)
    | inr k ↦
        rw n (rw k (All-insert_id (λ j. x < j) i xs (ground arith) a.0, insert_id-Ascends i xs a.1))
  ]
]

pub sorted_set-Ascends : (ids : List ℕ) → Ascends (sorted_set ids)
unfolding sorted_set
sorted_set-Ascends [] = tt
sorted_set-Ascends (i ∷ is) = insert_id-Ascends i (sorted_set is) (sorted_set-Ascends is)

member-insert_id : (k i : ℕ) (xs : List ℕ) → member k (insert_id i xs) ≡ (i == k) || member k xs
unfolding insert_id member
member-insert_id k i [] = refl
member-insert_id k i (x ∷ xs) = let below = member-insert_id k i xs in ground arith

pub member-sorted_set : (k : ℕ) (ids : List ℕ) → member k (sorted_set ids) ≡ member k ids
unfolding sorted_set member
member-sorted_set k [] = refl
member-sorted_set k (i ∷ is) =
    let below = member-sorted_set k is in rw (member-insert_id k i (sorted_set is)) (rw below refl)

pub All-split : (P : ℕ → Type 0) (xs ys : List ℕ) → All P (xs ++ ys) → All P xs × All P ys
All-split P [] ys a = (tt, a)
All-split P (x ∷ xs) ys a = let (h, k) = All-split P xs ys a.1 in ((a.0, h), k)

pub Ascends-parts :
    (xs ys : List ℕ)
    → Ascends (xs ++ ys)
    → All (λ x. All (λ y. x < y) ys) xs × Ascends xs × Ascends ys
Ascends-parts [] ys a = (tt, tt, a)
Ascends-parts (x ∷ xs) ys a =
    let (h, k, l) = Ascends-parts xs ys a.1 in
    let (m, n) = All-split (λ y. x < y) xs ys a.0 in ((n, h), (m, k), l)

-- What all pass stays, and what none passes goes.
pub filter-all : (keep : ℕ → Bool) (xs : List ℕ) → All (λ i. keep i ≡ true) xs → filter keep xs ≡ xs
filter-all keep [] a = refl
filter-all keep (x ∷ xs) a = rw a.0 (ap (λ ys. x ∷ ys) (filter-all keep xs a.1))

pub filter-none :
    (keep : ℕ → Bool) (xs : List ℕ) → All (λ i. keep i ≡ false) xs → filter keep xs ≡ []
filter-none keep [] a = refl
filter-none keep (x ∷ xs) a = rw a.0 (filter-none keep xs a.1)

insert_id-least : (i : ℕ) (xs : List ℕ) → All (λ j. i < j) xs → insert_id i xs ≡ i ∷ xs
unfolding insert_id
insert_id-least i [] a = refl
insert_id-least i (x ∷ xs) a = rw (lt→ltb i x a.0) refl

insert_id_head : (i : ℕ) (xs : List ℕ) → insert_id i (i ∷ xs) ≡ i ∷ xs
unfolding insert_id
insert_id_head i xs = ground arith

pub All-filter :
    (P : ℕ → Type 0) (keep : ℕ → Bool) (xs : List ℕ) → All P xs → All P (filter keep xs)
All-filter P keep [] a = tt
All-filter P keep (x ∷ xs) a = elim (Bool-cases (keep x)) [
  | inl y ↦ rw y (a.0, All-filter P keep xs a.1)
  | inr n ↦ rw n (All-filter P keep xs a.1)
]

filter-insert_id :
    (keep : ℕ → Bool) (i : ℕ) (xs : List ℕ)
    → Ascends xs
    → filter keep (insert_id i xs)
      ≡ (if keep i then insert_id i (filter keep xs) else filter keep xs)
unfolding insert_id
filter-insert_id keep i [] a = refl
filter-insert_id keep i (x ∷ xs) a =
    let below = filter-insert_id keep i xs a.1 in
    elim (Bool-cases (ltb i x)) [
      | inl y ↦
          let less = ltb→lt i x y in
          let above = All-weaken (λ j. x < j) (λ j. i < j) xs (λ j h. omega arith) a.0 in
          let kept = All-filter (λ j. i < j) keep (x ∷ xs) (less, above) in
          elim (Bool-cases (keep i)) [
            | inl k ↦ rw y (rw k (sym (insert_id-least i (filter keep (x ∷ xs)) kept)))
            | inr k ↦ rw y (rw k refl)
          ]
      | inr n ↦ elim (Bool-cases (i == x)) [
        | inl e ↦
            let same = (==_iff i x).0 e in
            elim (Bool-cases (keep x)) [
              | inl k ↦ rw n (rw e (rw (same, k) (sym (insert_id_head x (filter keep xs)))))
              | inr k ↦ rw n (rw e (rw (same, k) refl))
            ]
        | inr d ↦ ground arith
      ]
    ]

-- Sorting and choosing commute.
pub sorted_set-filter :
    (keep : ℕ → Bool) (ids : List ℕ) → sorted_set (filter keep ids) ≡ filter keep (sorted_set ids)
unfolding sorted_set
sorted_set-filter keep [] = refl
sorted_set-filter keep (i ∷ is) =
    let below = sorted_set-filter keep is in
    let inserted = filter-insert_id keep i (sorted_set is) (sorted_set-Ascends is) in
    elim (Bool-cases (keep i)) [
      | inl y ↦ rw inserted (rw y (ap (insert_id i) below))
      | inr n ↦ rw inserted (rw n below)
    ]

pub filter-passes : (keep : ℕ → Bool) (xs : List ℕ) → All (λ i. keep i ≡ true) (filter keep xs)
filter-passes keep [] = tt
filter-passes keep (x ∷ xs) = elim (Bool-cases (keep x)) [
  | inl y ↦ rw y (y, filter-passes keep xs)
  | inr n ↦ rw n (filter-passes keep xs)
]

pub filter-Ascends : (keep : ℕ → Bool) (xs : List ℕ) → Ascends xs → Ascends (filter keep xs)
filter-Ascends keep [] a = tt
filter-Ascends keep (x ∷ xs) a = elim (Bool-cases (keep x)) [
  | inl y ↦ rw y (All-filter (λ j. x < j) keep xs a.0, filter-Ascends keep xs a.1)
  | inr n ↦ rw n (filter-Ascends keep xs a.1)
]

length-insert_id-le : (i : ℕ) (xs : List ℕ) → length (insert_id i xs) ≤ suc (length xs)
unfolding insert_id
length-insert_id-le i [] = omega arith
length-insert_id-le i (x ∷ xs) = let below = length-insert_id-le i xs in ground arith

pub length-sorted_set-le : (ids : List ℕ) → length (sorted_set ids) ≤ length ids
unfolding sorted_set
length-sorted_set-le [] = omega arith
length-sorted_set-le (i ∷ is) =
    omega (arith, length-insert_id-le i (sorted_set is), length-sorted_set-le is)
