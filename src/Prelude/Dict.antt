-- ===== src/Prelude/Dict.antt =====
-- Python's dict with text keys, as the list of its items in the order of insertion.
use mathlib.Core.Path.{◌≡◌, refl}
use mathlib.Core.Bool.{Bool, true, false, ◌||◌}
use mathlib.Core.Option.{Option, none, some}
use mathlib.Core.List.{List, [], ◌∷◌}
use Prim.Native.String.{String}
use native.Mathlib.Omega.{arith}
use text.Mathlib.Text.{◌==◌}
use text.Mathlib.TextEquality.{eq_iff}
use fastedgy.Prelude.Tests.{if◌then◌else◌}

-- `k in names`
unfoldable pub has_name : String → List String → Bool
has_name k [] = false
has_name k (j ∷ js) = j == k || has_name k js

module _ {ℓ} {V : Type ℓ} where
  -- `d.get(k)`
  unfoldable pub lookup : String → List (String × V) → Option V
  lookup k [] = none
  lookup k ((j, v) ∷ d) = if j == k then some v else lookup k d

  -- `d[k] = v`
  unfoldable pub insert : String → V → List (String × V) → List (String × V)
  insert k v [] = (k, v) ∷ []
  insert k v ((j, w) ∷ d) = let rest = insert k v d in if j == k then (j, v) ∷ d else (j, w) ∷ rest

  -- `d.pop(k, None)`
  unfoldable pub pop : String → List (String × V) → List (String × V)
  pop k [] = []
  pop k ((j, w) ∷ d) = let rest = pop k d in if j == k then rest else (j, w) ∷ rest

  unfoldable pub keys : List (String × V) → List String
  keys [] = []
  keys ((j, w) ∷ d) = j ∷ keys d

  -- `{k: v for k, v in d.items() if keep(k)}`
  unfoldable pub keep_keys : (String → Bool) → List (String × V) → List (String × V)
  keep_keys keep [] = []
  keep_keys keep ((j, w) ∷ d) =
      let rest = keep_keys keep d in if keep j then (j, w) ∷ rest else rest

  pub lookup-insert :
      (k j : String) (v : V) (d : List (String × V))
      → lookup j (insert k v d) ≡ (if k == j then some v else lookup j d)
  unfolding lookup insert
  lookup-insert k j v [] = refl
  lookup-insert k j v ((i, w) ∷ d) =
      ground (arith, eq_iff k j, eq_iff i k, eq_iff i j, lookup-insert k j v d)

  pub lookup-pop :
      (k j : String) (d : List (String × V))
      → lookup j (pop k d) ≡ (if k == j then none else lookup j d)
  unfolding lookup pop
  lookup-pop k j [] = ground arith
  lookup-pop k j ((i, w) ∷ d) = ground (arith, eq_iff k j, eq_iff i k, eq_iff i j, lookup-pop k j d)

  pub lookup-keep_keys :
      (keep : String → Bool) (j : String) (d : List (String × V))
      → lookup j (keep_keys keep d) ≡ (if keep j then lookup j d else none)
  unfolding lookup keep_keys
  lookup-keep_keys keep j [] = ground arith
  lookup-keep_keys keep j ((i, w) ∷ d) = ground (arith, eq_iff i j, lookup-keep_keys keep j d)

  abbrev pub is_some : Option V → Bool
  is_some none = false
  is_some (some v) = true

  pub has_name-keys :
      (j : String) (d : List (String × V)) → has_name j (keys d) ≡ is_some (lookup j d)
  unfolding has_name keys lookup
  has_name-keys j [] = refl
  has_name-keys j ((i, w) ∷ d) = ground (arith, has_name-keys j d)
