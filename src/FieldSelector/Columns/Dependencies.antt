-- ===== src/FieldSelector/Columns/Dependencies.antt =====
-- What the declared dependencies of a computed field read is loaded.
use fastedgy.Prelude.{
  ℕ, zero, suc, ◌≡◌, sym, Bool, true, false, Option, none, some, String, List, [], ◌∷◌,
}
use fastedgy.Prelude.Dict.{lookup, has_name}
use fastedgy.FieldSelector.{Field, Schema, is_some, is_computed}
use fastedgy.FieldSelector.Columns.{
  Storage, Plan, join_path, keep_field, add_path, joined, has_extra_column, follow, merge_all,
  merge_computed, merge_name, merge_parts, merge_computed_dep,
}
use fastedgy.FieldSelector.Columns.Loaded.{
  keeps, leaves_all, added, Grows, Grows-trans, Extends, keep_field-Grows, add_path-Grows,
  keep_field-keeps, opt_out-leaves, merge_computed_dep-Grows, merge_parts-Grows, merge_all-Grows,
}
use mathlib.Core.List.{Memᴰ}
use mathlib.Core.Path.{subst}

-- One statement or the other, by a test or by what is found.
abbrev pub Either : Bool → Type 0 → Type 0 → Type 0
Either true P Q = P
Either false P Q = Q

abbrev pub Found : {A : Type 0} → Option A → Type 0 → (A → Type 0) → Type 0
Found none P Q = P
Found (some a) P Q = Q a

-- It stays so when more is loaded.
abbrev pub IsStable : (Plan → Type 0) → Type 0
IsStable P = (p q : Plan) → Grows p q → P p → P q

Either-IsStable :
    (b : Bool) (P Q : Plan → Type 0)
    → IsStable P
    → IsStable Q
    → IsStable (λ p. Either b (P p) (Q p))
Either-IsStable true P Q h k = h
Either-IsStable false P Q h k = k

Found-IsStable :
    {A : Type 0} (o : Option A) (P : Plan → Type 0) (Q : A → Plan → Type 0)
    → IsStable P
    → ((a : A) → IsStable (Q a))
    → IsStable (λ p. Found o (P p) (λ a. Q a p))
Found-IsStable none P Q h k = h
Found-IsStable (some a) P Q h k = k a

pub test-Either :
    (b : Bool) (P Q : Plan → Type 0) (x y : Plan)
    → P x
    → Q y
    → Either b (P (elim b [ true ↦ x | false ↦ y ])) (Q (elim b [ true ↦ x | false ↦ y ]))
test-Either true P Q x y h k = h
test-Either false P Q x y h k = k

case-Found :
    {A : Type 0} (o : Option A) (P : Plan → Type 0) (Q : A → Plan → Type 0) (x : Plan)
    (go : A → Plan)
    → P x
    → ((a : A) → Q a (go a))
    → Found o
        (P (elim o [ none ↦ x | some a ↦ go a ]))
        (λ a. Q a (elim o [ none ↦ x | some b ↦ go b ]))
case-Found none P Q x go h k = h
case-Found (some a) P Q x go h k = k a

pub some-Found :
    {A : Type 0} (o : Option A) (P Q : Plan → Type 0) (x y : Plan)
    → Q x
    → P y
    → Found o
        (P (elim (is_some o) [ true ↦ x | false ↦ y ]))
        (λ _. Q (elim (is_some o) [ true ↦ x | false ↦ y ]))
some-Found none P Q x y h k = k
some-Found (some a) P Q x y h k = h

-- The column of the field is kept, or no column of the level is left out.
abbrev pub Keeps : String → String → Plan → Type 0
Keeps prefix name p = keeps p prefix name ≡ true

abbrev pub LeavesAll : String → Plan → Type 0
LeavesAll prefix p = leaves_all p prefix ≡ true

-- All that the dependencies read is loaded; a computed field without them may read any column.
abbrev pub ComputedLoaded :
    (List String → Plan → Type 0) → String → Option (List (List String)) → Plan → Type 0
ComputedLoaded Dep prefix none p = LeavesAll prefix p
ComputedLoaded Dep prefix (some deps) p = (dep : List String) → Memᴰ dep deps → Dep dep p

ComputedLoaded-IsStable :
    (Dep : List String → Plan → Type 0) (prefix : String) (o : Option (List (List String)))
    → ((dep : List String) → IsStable (Dep dep))
    → IsStable (ComputedLoaded Dep prefix o)
ComputedLoaded-IsStable Dep prefix none h p q g l = g.leaves_too prefix l
ComputedLoaded-IsStable Dep prefix (some deps) h p q g l = λ dep m. h dep p q g (l dep m)

module _ (s : Schema) (st : Storage) where
  -- What a name reads: the dependencies of a computed field, the column of all extra fields, what a
  -- field of the model needs, or any column where the name is unknown.
  abbrev pub NameLoaded :
      (List String → Plan → Type 0)
      → (Field → Plan → Type 0)
      → String
      → String
      → String
      → Plan
      → Type 0
  NameLoaded Dep Go m prefix name p =
      Either (is_computed s m name) (ComputedLoaded Dep prefix (st.computed_deps m name) p) (
        Either (has_extra_column s st m name) (Keeps prefix "extra" p)
          (Found (lookup name (s.fields m)) (LeavesAll prefix p) (λ f. Go f p)))

  pub NameLoaded-IsStable :
      (Dep : List String → Plan → Type 0) (Go : Field → Plan → Type 0) (m prefix name : String)
      → ((dep : List String) → IsStable (Dep dep))
      → ((f : Field) → IsStable (Go f))
      → IsStable (NameLoaded Dep Go m prefix name)
  NameLoaded-IsStable Dep Go m prefix name h k =
      Either-IsStable (is_computed s m name) _ _
        (ComputedLoaded-IsStable Dep prefix (st.computed_deps m name) h)
        (Either-IsStable (has_extra_column s st m name) _ _
          (λ p q g l. g.keeps_too prefix "extra" l)
          (Found-IsStable (lookup name (s.fields m)) _ Go (λ p q g l. g.leaves_too prefix l) k))

  -- What the names of a dependency read: the column of the last one, and of each relation before it
  -- the column and the join.
  abbrev pub PartsLoaded :
      (String → String → List String → Plan → Type 0)
      → String
      → String
      → List String
      → Plan
      → Type 0
  PartsLoaded Dep m prefix [] p = Unit
  PartsLoaded Dep m prefix (name ∷ []) p =
      NameLoaded (Dep m prefix) (λ _. Keeps prefix name) m prefix name p
  PartsLoaded Dep m prefix (name ∷ next ∷ rest) p =
      NameLoaded (Dep m prefix)
        (λ f q. Found (joined f.target) (LeavesAll prefix q) (λ t.
          (keeps q prefix name ≡ true)
          × (has_name (join_path prefix name) q.select_paths ≡ true)
          × PartsLoaded Dep t (join_path prefix name) (next ∷ rest) q))
        m prefix name p

  PartsLoaded-IsStable :
      (Dep : String → String → List String → Plan → Type 0) (m prefix : String) (dep : List String)
      → ((m prefix : String) (dep : List String) → IsStable (Dep m prefix dep))
      → IsStable (PartsLoaded Dep m prefix dep)
  PartsLoaded-IsStable Dep m prefix [] h = λ p q g l. tt
  PartsLoaded-IsStable Dep m prefix (name ∷ []) h =
      NameLoaded-IsStable (Dep m prefix) (λ _. Keeps prefix name) m prefix name (h m prefix)
        (λ _ p q g l. g.keeps_too prefix name l)
  PartsLoaded-IsStable Dep m prefix (name ∷ next ∷ rest) h =
      NameLoaded-IsStable (Dep m prefix) _ m prefix name (h m prefix) (λ f.
        Found-IsStable (joined f.target) (LeavesAll prefix) _ (λ p q g l. g.leaves_too prefix l)
          (λ t p q g l. (
            g.keeps_too prefix name l.0,
            g.joins_too (join_path prefix name) l.1,
            PartsLoaded-IsStable Dep t (join_path prefix name) (next ∷ rest) h p q g l.2,
          )))

  -- What a dependency reads is loaded, through as many levels of computed fields as the number says;
  -- behind them no column is left out.
  unfoldable pub DepLoaded : ℕ → String → String → List String → Plan → Type 0
  DepLoaded zero m prefix dep p = LeavesAll prefix p
  DepLoaded (suc n) m prefix dep p = PartsLoaded (DepLoaded n) m prefix dep p

  pub DepLoaded-IsStable :
      (n : ℕ) (m prefix : String) (dep : List String) → IsStable (DepLoaded n m prefix dep)
  unfolding DepLoaded
  DepLoaded-IsStable zero m prefix dep = λ p q g l. g.leaves_too prefix l
  DepLoaded-IsStable (suc n) m prefix dep =
      PartsLoaded-IsStable (DepLoaded n) m prefix dep (DepLoaded-IsStable n)

  merge_all-loads :
      (merge : List String → Plan → Plan) (Dep : List String → Plan → Type 0)
      (deps : List (List String)) (p : Plan)
      → ((dep : List String) → Extends (merge dep))
      → ((dep : List String) → IsStable (Dep dep))
      → ((dep : List String) (q : Plan) → Dep dep (merge dep q))
      → (dep : List String) → Memᴰ dep deps
      → Dep dep (merge_all s st merge deps p)
  unfolding merge_all
  merge_all-loads merge Dep [] p x h l dep m = elim m [ ]
  merge_all-loads merge Dep (d ∷ ds) p x h l dep (Memᴰ.head e) =
      subst (λ a. Dep a (merge_all s st merge ds (merge d p))) (sym e)
        (h d (merge d p) _ (merge_all-Grows s st merge ds (merge d p) x) (l d p))
  merge_all-loads merge Dep (d ∷ ds) p x h l dep (Memᴰ.tail m) =
      merge_all-loads merge Dep ds (merge d p) x h l dep m

  pub merge_computed-loads :
      (merge : List String → Plan → Plan) (Dep : List String → Plan → Type 0) (m prefix : String)
      (o : Option (List (List String))) (p : Plan)
      → ((dep : List String) → Extends (merge dep))
      → ((dep : List String) → IsStable (Dep dep))
      → ((dep : List String) (q : Plan) → Dep dep (merge dep q))
      → ComputedLoaded Dep prefix o (merge_computed s st merge m prefix o p)
  unfolding merge_computed
  merge_computed-loads merge Dep m prefix none p x h l = opt_out-leaves m prefix p
  merge_computed-loads merge Dep m prefix (some deps) p x h l =
      merge_all-loads merge Dep deps p x h l

  merge_name-loads :
      (merge : List String → Plan → Plan) (go : Field → Plan) (Dep : List String → Plan → Type 0)
      (Go : Field → Plan → Type 0) (m prefix name : String) (p : Plan)
      → ((dep : List String) → Extends (merge dep))
      → ((dep : List String) → IsStable (Dep dep))
      → ((dep : List String) (q : Plan) → Dep dep (merge dep q))
      → ((f : Field) → Go f (go f))
      → NameLoaded Dep Go m prefix name (merge_name s st merge go m prefix name p)
  unfolding merge_name
  merge_name-loads merge go Dep Go m prefix name p x h l k =
      test-Either (is_computed s m name) (ComputedLoaded Dep prefix (st.computed_deps m name))
        (λ q.
          Either (has_extra_column s st m name) (Keeps prefix "extra" q)
            (Found (lookup name (s.fields m)) (LeavesAll prefix q) (λ f. Go f q)))
        _ _ (merge_computed-loads merge Dep m prefix (st.computed_deps m name) p x h l)
        (test-Either (has_extra_column s st m name) (Keeps prefix "extra")
          (λ q. Found (lookup name (s.fields m)) (LeavesAll prefix q) (λ f. Go f q)) _ _
          (keep_field-keeps m prefix "extra" p)
          (case-Found (lookup name (s.fields m)) (LeavesAll prefix) Go _ go
            (opt_out-leaves m prefix p) k))

  merge_parts-loads :
      (merge : String → String → List String → Plan → Plan)
      (Dep : String → String → List String → Plan → Type 0) (m prefix : String) (dep : List String)
      (p : Plan)
      → ((m prefix : String) (dep : List String) → Extends (merge m prefix dep))
      → ((m prefix : String) (dep : List String) → IsStable (Dep m prefix dep))
      → ((m prefix : String) (dep : List String) (q : Plan)
          → Dep m prefix dep (merge m prefix dep q))
      → PartsLoaded Dep m prefix dep (merge_parts s st merge m prefix dep p)
  unfolding merge_parts follow
  merge_parts-loads merge Dep m prefix [] p x h l = tt
  merge_parts-loads merge Dep m prefix (name ∷ []) p x h l =
      merge_name-loads (merge m prefix) _ (Dep m prefix) (λ _. Keeps prefix name) m prefix name p
        (x m prefix) (h m prefix) (l m prefix) (λ _. keep_field-keeps m prefix name p)
  merge_parts-loads merge Dep m prefix (name ∷ next ∷ rest) p x h l =
      let Behind : String → Plan → Type 0 = λ t q.
        (keeps q prefix name ≡ true)
        × (has_name (join_path prefix name) q.select_paths ≡ true)
        × PartsLoaded Dep t (join_path prefix name) (next ∷ rest) q in
      merge_name-loads (merge m prefix) _ (Dep m prefix)
        (λ f q. Found (joined f.target) (LeavesAll prefix q) (λ t. Behind t q)) m prefix name p
        (x m prefix) (h m prefix) (l m prefix)
        (λ f.
          case-Found (joined f.target) (LeavesAll prefix) Behind _ _ (opt_out-leaves m prefix p)
            (λ t.
              let path = join_path prefix name in
              let kept = keep_field m prefix (some name) p in
              let wide = add_path path kept in
              let more =
                Grows-trans wide (follow s st m prefix name t p) _
                  (keep_field-Grows t path (st.primary_key t) wide)
                  (merge_parts-Grows s st merge t path (next ∷ rest) (follow s st m prefix name t p)
                    x) in
              (
                more.keeps_too prefix name (
                    (add_path-Grows path kept).keeps_too prefix name
                      (keep_field-keeps m prefix name p)),
                more.joins_too path (added path kept),
                merge_parts-loads merge Dep t path (next ∷ rest) (follow s st m prefix name t p) x h
                    l,
              )))

  pub merge_computed_dep-DepLoaded :
      (n : ℕ) (m prefix : String) (dep : List String) (p : Plan)
      → DepLoaded n m prefix dep (merge_computed_dep s st n m prefix dep p)
  unfolding DepLoaded merge_computed_dep
  merge_computed_dep-DepLoaded zero m prefix dep p = opt_out-leaves m prefix p
  merge_computed_dep-DepLoaded (suc n) m prefix dep p =
      merge_parts-loads (merge_computed_dep s st n) (DepLoaded n) m prefix dep p
        (merge_computed_dep-Grows s st n) (DepLoaded-IsStable n) (merge_computed_dep-DepLoaded n)
