-- ===== src/Prelude/Slices.antt =====
-- Laws of slices.
use Prim.Native.Nat.{ℕ, zero, suc, ◌+◌, ◌-◌, ◌≤◌}
use mathlib.Core.Path.{◌≡◌, refl, ap, sym, ◌∙◌}
use mathlib.Core.List.{List, [], ◌∷◌, ◌++◌}
use native.Mathlib.Nat.{suc-add, zero-add}
use native.Mathlib.Omega.{arith}
use fastedgy.Prelude.Lists.{length, take, drop, slice, take-append-drop}

module _ {ℓ} {A : Type ℓ} where
  drop-nil : (n : ℕ) → drop {A = A} n [] ≡ []
  drop-nil zero = refl
  drop-nil (suc n) = refl

  drop-drop : (i d : ℕ) (xs : List A) → drop d (drop i xs) ≡ drop (i + d) xs
  drop-drop zero d xs = simp zero-add
  drop-drop (suc i) d [] = simp drop-nil
  drop-drop (suc i) d (x ∷ xs) = simp suc-add (drop-drop i d xs)

  pub drop-length : (xs : List A) → drop (length xs) xs ≡ []
  drop-length [] = refl
  drop-length (x ∷ xs) = drop-length xs

  take-add : (d e : ℕ) (xs : List A) → take (d + e) xs ≡ take d xs ++ take e (drop d xs)
  take-add zero e xs = simp zero-add
  take-add (suc d) zero [] = simp suc-add
  take-add (suc d) (suc e) [] = simp suc-add
  take-add (suc d) e (x ∷ xs) = simp (suc-add, take-add d e xs)

  pub slice_self : (xs : List A) (a : ℕ) → slice xs a a ≡ []
  slice_self xs a = let e : a - a ≡ 0 = omega arith in rw e

  -- Two slices that meet make one.
  pub slice-append :
      (xs : List A) (a b c : ℕ) → a ≤ b → b ≤ c → slice xs a c ≡ slice xs a b ++ slice xs b c
  slice-append xs a b c h k =
      let e : c - a ≡ (b - a) + (c - b) = omega arith in
      let f : a + (b - a) ≡ b = omega arith in
      rw e (
        take-add (b - a) (c - b) (drop a xs)
        ∙ ap (λ r. take (b - a) (drop a xs) ++ take (c - b) r)
            (drop-drop a (b - a) xs ∙ ap (λ n. drop n xs) f))

  -- The rest from `a` on is the slice up to `b` and the rest from there.
  pub slice-append_drop : (xs : List A) (a b : ℕ) → a ≤ b → drop a xs ≡ slice xs a b ++ drop b xs
  slice-append_drop xs a b h =
      let f : a + (b - a) ≡ b = omega arith in
      sym (take-append-drop (b - a) (drop a xs))
      ∙ ap (λ r. take (b - a) (drop a xs) ++ r) (drop-drop a (b - a) xs ∙ ap (λ n. drop n xs) f)
