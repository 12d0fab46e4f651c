-- ===== src/FieldSelector/Columns/Pruned.antt =====
-- Which columns a query leaves out.
use fastedgy.Prelude.{
  ◌≡◌, refl, Bool, true, false, ◌||◌, Option, some, none, String, List, [], ◌∷◌, ◌++◌, not,
  if◌then◌else◌, inl, inr, ◌⊎◌, arith,
}
use fastedgy.Prelude.Dict.{has_name}
use fastedgy.FieldSelector.{Field, Schema}
use fastedgy.FieldSelector.Columns.{
  Storage, Level, Plan, join_path, defer_fields, defer_level, defer_levels, build_defer_paths,
}
use mathlib.Core.List.{Memᴰ}

Memᴰ-append : (x : String) (xs ys : List String) → Memᴰ x (xs ++ ys) → Memᴰ x xs ⊎ Memᴰ x ys
Memᴰ-append x [] ys m = inr m
Memᴰ-append x (z ∷ zs) ys (Memᴰ.head e) = inl (Memᴰ.head e)
Memᴰ-append x (z ∷ zs) ys (Memᴰ.tail m) = elim (Memᴰ-append x zs ys m) [
  | inl k ↦ inl (Memᴰ.tail k)
  | inr k ↦ inr k
]

module _ (s : Schema) (st : Storage) where
  -- A path to a field of the model that has columns, is not kept and is not joined.
  abbrev pub IsOmitted :
      List String → String → String → List String → List (String × Field) → String → Type 0
  IsOmitted paths m prefix kept fields path =
      (name : String) × (f : Field) × Memᴰ (name, f) fields
      × (path ≡ join_path prefix name)
      × (has_name name kept ≡ false)
      × (st.has_columns m name ≡ true)
      × (has_name path paths ≡ false)

  -- A path that a level of the plan leaves out, which leaves columns out at all.
  abbrev pub IsPruned : Plan → List (String × Level) → String → Type 0
  IsPruned p levels path =
      (prefix : String) × (l : Level) × (kept : List String) × Memᴰ (prefix, l) levels
      × (l.kept ≡ some kept)
      × IsOmitted p.select_paths l.model prefix kept (s.fields l.model) path

  IsOmitted-behind :
      (paths : List String) (m prefix : String) (kept : List String) (z : String × Field)
      (fields : List (String × Field)) (path : String)
      → IsOmitted paths m prefix kept fields path
      → IsOmitted paths m prefix kept (z ∷ fields) path
  IsOmitted-behind paths m prefix kept z fields path (name, f, k, q, n, c, j) =
      (name, f, Memᴰ.tail k, q, n, c, j)

  first-IsOmitted :
      (paths : List String) (m prefix : String) (kept : List String) (name : String) (f : Field)
      (fields : List (String × Field)) (path : String) (rest : List String) (b : Bool)
      → has_name name kept
          || (not (st.has_columns m name) || has_name (join_path prefix name) paths)
        ≡ b
      → (Memᴰ path rest → IsOmitted paths m prefix kept fields path)
      → Memᴰ path (if b then rest else join_path prefix name ∷ rest)
      → IsOmitted paths m prefix kept ((name, f) ∷ fields) path
  first-IsOmitted paths m prefix kept name f fields path rest true e h k =
      IsOmitted-behind paths m prefix kept (name, f) fields path (h k)
  first-IsOmitted paths m prefix kept name f fields path rest false e h (Memᴰ.head q) =
      (name, f, Memᴰ.head refl, q, ground arith, ground arith, rw q (ground arith))
  first-IsOmitted paths m prefix kept name f fields path rest false e h (Memᴰ.tail k) =
      IsOmitted-behind paths m prefix kept (name, f) fields path (h k)

  defer_fields-IsOmitted :
      (paths : List String) (m prefix : String) (kept : List String)
      (fields : List (String × Field)) (path : String)
      → Memᴰ path (defer_fields s st paths m prefix kept fields)
      → IsOmitted paths m prefix kept fields path
  unfolding defer_fields
  defer_fields-IsOmitted paths m prefix kept [] path k = elim k [ ]
  defer_fields-IsOmitted paths m prefix kept ((name, f) ∷ fs) path k =
      first-IsOmitted paths m prefix kept name f fs path (defer_fields s st paths m prefix kept fs)
        _ refl (defer_fields-IsOmitted paths m prefix kept fs path) k

  defer_level-IsPruned :
      (p : Plan) (prefix model : String) (o : Option (List String)) (levels : List (String × Level))
      (path : String)
      → Memᴰ path (defer_level s st p.select_paths prefix (record { model = model; kept = o }))
      → IsPruned p ((prefix, record { model = model; kept = o }) ∷ levels) path
  unfolding defer_level
  defer_level-IsPruned p prefix model none levels path k = elim k [ ]
  defer_level-IsPruned p prefix model (some kept) levels path k = (
    prefix,
    record { model = model; kept = some kept },
    kept,
    Memᴰ.head refl,
    refl,
    defer_fields-IsOmitted p.select_paths model prefix kept (s.fields model) path k,
  )

  defer_levels-IsPruned :
      (p : Plan) (levels : List (String × Level)) (path : String)
      → Memᴰ path (defer_levels s st p.select_paths levels)
      → IsPruned p levels path
  unfolding defer_levels
  defer_levels-IsPruned p [] path k = elim k [ ]
  defer_levels-IsPruned p ((prefix, l) ∷ levels) path k =
      elim (Memᴰ-append path (defer_level s st p.select_paths prefix l)
        (defer_levels s st p.select_paths levels) k) [
          | inl here ↦ defer_level-IsPruned p prefix l.model l.kept levels path here
          | inr below ↦
              let (at, m, kept, n, q, o) = defer_levels-IsPruned p levels path below in
              (at, m, kept, Memᴰ.tail n, q, o)
        ]

  pub build_defer_paths-IsPruned :
      (p : Plan) (path : String) → Memᴰ path (build_defer_paths s st p) → IsPruned p p.levels path
  unfolding build_defer_paths
  build_defer_paths-IsPruned p path k = defer_levels-IsPruned p p.levels path k
