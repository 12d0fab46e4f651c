-- ===== src/Prelude/Any.antt =====
-- What the test of a list for an element says of its members.
use fastedgy.Prelude.{◌≡◌, refl, Bool, true, false, List, [], ◌∷◌, any, Bool-cases, inl, inr, arith}
use mathlib.Core.List.{Memᴰ}
use mathlib.Core.Path.{subst}

pub any-member {ℓ} :
    {A : Type ℓ} (test : A → Bool) (xs : List A)
    → any test xs ≡ true
    → (x : A) × Memᴰ x xs × (test x ≡ true)
any-member test [] h = ground arith
any-member test (x ∷ xs) h = elim (Bool-cases (test x)) [
  | inl y ↦ (x, Memᴰ.head refl, y)
  | inr n ↦ let (z, m, e) = any-member test xs (ground arith) in (z, Memᴰ.tail m, e)
]

pub member-any {ℓ} :
    {A : Type ℓ} (test : A → Bool) (x : A) (xs : List A)
    → Memᴰ x xs
    → test x ≡ true
    → any test xs ≡ true
member-any test x [] m h = elim m [ ]
member-any test x (y ∷ ys) (Memᴰ.head e) h =
    let here : test y ≡ true = subst (λ z. test z ≡ true) e h in ground arith
member-any test x (y ∷ ys) (Memᴰ.tail m) h = let rest = member-any test x ys m h in ground arith

pub any-none {ℓ} :
    {A : Type ℓ} (test : A → Bool) (x : A) (xs : List A)
    → any test xs ≡ false
    → Memᴰ x xs
    → test x ≡ false
any-none test x xs h m = elim (Bool-cases (test x)) [
  | inl y ↦ let found = member-any test x xs m y in ground arith
  | inr n ↦ n
]

pub none-any {ℓ} :
    {A : Type ℓ} (test : A → Bool) (xs : List A)
    → ((x : A) → Memᴰ x xs → test x ≡ false)
    → any test xs ≡ false
none-any test [] h = refl
none-any test (x ∷ xs) h =
    let here = h x (Memᴰ.head refl) in
    let rest = none-any test xs (λ y m. h y (Memᴰ.tail m)) in ground arith
