-- ===== src/Prelude/Keys.antt =====
-- Lists of numbers as the keys of a Python dict: distinct, in the order of insertion.
use Prim.Native.Nat.{ℕ, ◌+◌}
use mathlib.Core.Path.{◌≡◌, refl}
use mathlib.Core.Bool.{Bool, true, false, ◌||◌}
use mathlib.Core.List.{List, [], ◌∷◌, ◌++◌}
use native.Mathlib.Omega.{arith}
use fastedgy.Prelude.Tests.{◌==◌, if◌then◌else◌, not}
use fastedgy.Prelude.Lists.{length, filter}

-- `k in d`
unfoldable pub member : ℕ → List ℕ → Bool
member k [] = false
member k (j ∷ js) = j == k || member k js

-- `del d[k]`
unfoldable pub remove : ℕ → List ℕ → List ℕ
remove k js = filter (λ j. not (j == k)) js

-- `d[k] = v`, on the keys.
unfoldable pub put : ℕ → List ℕ → List ℕ
unfolding member
put k js = if member k js then js else js ++ k ∷ []

abbrev pub Distinct : List ℕ → Type 0
Distinct [] = Unit
Distinct (j ∷ js) = (member j js ≡ false) × Distinct js

pub member-append : (k : ℕ) (xs ys : List ℕ) → member k (xs ++ ys) ≡ member k xs || member k ys
unfolding member
member-append k [] ys = refl
member-append k (x ∷ xs) ys = ground (arith, member-append k xs ys)

pub member-remove :
    (k j : ℕ) (xs : List ℕ) → member k (remove j xs) ≡ (if k == j then false else member k xs)
unfolding member remove
member-remove k j [] = ground arith
member-remove k j (x ∷ xs) = ground (arith, member-remove k j xs)

pub member-put :
    (k j : ℕ) (xs : List ℕ) → member k (put j xs) ≡ (if k == j then true else member k xs)
unfolding put
member-put k j [] = ground arith
member-put k j (x ∷ xs) = ground (arith, member-append k (x ∷ xs) (j ∷ []))

pub Distinct-remove : (k : ℕ) (xs : List ℕ) → Distinct xs → Distinct (remove k xs)
unfolding remove
Distinct-remove k [] d = tt
Distinct-remove k (x ∷ xs) d = ground (arith, Distinct-remove k xs d.1, member-remove x k xs)

pub Distinct-snoc :
    (k : ℕ) (xs : List ℕ) → member k xs ≡ false → Distinct xs → Distinct (xs ++ k ∷ [])
unfolding member
Distinct-snoc k [] h d = (refl, tt)
Distinct-snoc k (x ∷ xs) h d =
    (ground (arith, member-append x xs (k ∷ [])), Distinct-snoc k xs (ground arith) d.1)

pub length-remove :
    (k : ℕ) (xs : List ℕ)
    → Distinct xs
    → length (remove k xs) + (if member k xs then 1 else 0) ≡ length xs
unfolding remove member
length-remove k [] d = refl
length-remove k (x ∷ xs) d = ground (arith, length-remove k xs d.1)
