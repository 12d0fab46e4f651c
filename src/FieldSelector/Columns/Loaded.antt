-- ===== src/FieldSelector/Columns/Loaded.antt =====
-- A query loads what its selection reads.
use fastedgy.Prelude.{
  ℕ, zero, suc, ◌≡◌, refl, Bool, true, false, Option, none, some, String, List, [], ◌∷◌, eq_iff,
  eq_refl, arith,
}
use fastedgy.Prelude.Dict.{lookup, has_name, lookup-insert}
use fastedgy.FieldSelector.{Field, Schema, is_computed}
use fastedgy.FieldSelector.Columns.{
  Storage, Level, Plan, join_path, level_of, keep_in, keep_field, opt_out, add_path, joined,
  has_extra_column, follow, merge_all, merge_computed, merge_name, merge_parts, merge_computed_dep,
}

abbrev pub keeps_in : String → Option Level → Bool
keeps_in name none = false
keeps_in name (some l) = elim l.kept [ none ↦ true | some names ↦ has_name name names ]

-- The level leaves nothing out, or keeps the field.
unfoldable pub keeps : Plan → String → String → Bool
keeps p prefix name = keeps_in name (lookup prefix p.levels)

abbrev pub leaves_all_in : Option Level → Bool
leaves_all_in none = false
leaves_all_in (some l) = elim l.kept [ none ↦ true | some names ↦ false ]

-- The level leaves nothing out.
unfoldable pub leaves_all : Plan → String → Bool
leaves_all p prefix = leaves_all_in (lookup prefix p.levels)

-- What one plan loads the other loads as well.
pub record Grows (p q : Plan) : Type 0 where
  pub keeps_too : (prefix name : String) → keeps p prefix name ≡ true → keeps q prefix name ≡ true
  pub leaves_too : (prefix : String) → leaves_all p prefix ≡ true → leaves_all q prefix ≡ true
  pub joins_too :
      (path : String) → has_name path p.select_paths ≡ true → has_name path q.select_paths ≡ true

pub Grows-refl : (p : Plan) → Grows p p
Grows-refl p = record {
  keeps_too = λ prefix name h. h;
  leaves_too = λ prefix h. h;
  joins_too = λ path h. h;
}

pub Grows-trans : (p q r : Plan) → Grows p q → Grows q r → Grows p r
Grows-trans p q r g h = record {
  keeps_too = λ prefix name k. h.keeps_too prefix name (g.keeps_too prefix name k);
  leaves_too = λ prefix k. h.leaves_too prefix (g.leaves_too prefix k);
  joins_too = λ path k. h.joins_too path (g.joins_too path k);
}

keep_in-keeps :
    (name : Option String) (m k : String) (o : Option Level)
    → keeps_in k o ≡ true
    → keeps_in k (some (keep_in name (level_of m o))) ≡ true
unfolding keep_in level_of has_name
keep_in-keeps name m k o h = ground arith

keep_in-leaves :
    (name : Option String) (m : String) (o : Option Level)
    → leaves_all_in o ≡ true
    → leaves_all_in (some (keep_in name (level_of m o))) ≡ true
unfolding keep_in level_of has_name
keep_in-leaves name m o h = ground arith

pub keep_field-Grows :
    (m prefix : String) (name : Option String) (p : Plan) → Grows p (keep_field m prefix name p)
unfolding keep_field keeps leaves_all
keep_field-Grows m prefix name p =
    let level = keep_in name (level_of m (lookup prefix p.levels)) in
    record {
      keeps_too = λ other k h. ground (
        arith,
        eq_iff prefix other,
        lookup-insert prefix other level p.levels,
        keep_in-keeps name m k (lookup prefix p.levels),
      );
      leaves_too = λ other h. ground (
        arith,
        eq_iff prefix other,
        lookup-insert prefix other level p.levels,
        keep_in-leaves name m (lookup prefix p.levels),
      );
      joins_too = λ path h. h;
    }

pub opt_out-Grows : (m prefix : String) (p : Plan) → Grows p (opt_out m prefix p)
unfolding opt_out keeps leaves_all
opt_out-Grows m prefix p =
    let level : Level = record { model = m; kept = none } in
    record {
      keeps_too = λ other k h. ground (arith, lookup-insert prefix other level p.levels);
      leaves_too = λ other h. ground (arith, lookup-insert prefix other level p.levels);
      joins_too = λ path h. h;
    }

pub add_path-Grows : (path : String) (p : Plan) → Grows p (add_path path p)
unfolding add_path keeps leaves_all has_name
add_path-Grows path p = record {
  keeps_too = λ prefix name h. h;
  leaves_too = λ prefix h. h;
  joins_too = λ other h. ground arith;
}

pub keep_field-keeps :
    (m prefix name : String) (p : Plan)
    → keeps (keep_field m prefix (some name) p) prefix name ≡ true
unfolding keep_field keeps keep_in level_of has_name
keep_field-keeps m prefix name p =
    let level = keep_in (some name) (level_of m (lookup prefix p.levels)) in
    ground (arith, eq_refl prefix, eq_refl name, lookup-insert prefix prefix level p.levels)

pub opt_out-leaves : (m prefix : String) (p : Plan) → leaves_all (opt_out m prefix p) prefix ≡ true
unfolding opt_out leaves_all
opt_out-leaves m prefix p =
    let level : Level = record { model = m; kept = none } in
    ground (arith, eq_refl prefix, lookup-insert prefix prefix level p.levels)

pub added : (path : String) (p : Plan) → has_name path (add_path path p).select_paths ≡ true
unfolding add_path has_name
added path p = rw (eq_refl path) refl

-- Whichever way a test goes.
pub Grows-test :
    (b : Bool) (p x y : Plan) → Grows p x → Grows p y → Grows p (elim b [ true ↦ x | false ↦ y ])
Grows-test true p x y g h = g
Grows-test false p x y g h = h

Grows-option {ℓ} :
    {A : Type ℓ} (o : Option A) (p x : Plan) (go : A → Plan)
    → Grows p x
    → ((a : A) → Grows p (go a))
    → Grows p (elim o [ none ↦ x | some a ↦ go a ])
Grows-option none p x go g h = g
Grows-option (some a) p x go g h = h a

-- A step that loads more, from whatever plan.
abbrev pub Extends : (Plan → Plan) → Type 0
Extends step = (p : Plan) → Grows p (step p)

module _ (s : Schema) (st : Storage) where
  pub merge_all-Grows :
      (merge : List String → Plan → Plan) (deps : List (List String)) (p : Plan)
      → ((dep : List String) → Extends (merge dep))
      → Grows p (merge_all s st merge deps p)
  unfolding merge_all
  merge_all-Grows merge [] p h = Grows-refl p
  merge_all-Grows merge (dep ∷ deps) p h =
      Grows-trans p (merge dep p) (merge_all s st merge deps (merge dep p)) (h dep p)
        (merge_all-Grows merge deps (merge dep p) h)

  pub merge_computed-Grows :
      (merge : List String → Plan → Plan) (m prefix : String) (o : Option (List (List String)))
      (p : Plan)
      → ((dep : List String) → Extends (merge dep))
      → Grows p (merge_computed s st merge m prefix o p)
  unfolding merge_computed
  merge_computed-Grows merge m prefix none p h = opt_out-Grows m prefix p
  merge_computed-Grows merge m prefix (some deps) p h = merge_all-Grows merge deps p h

  merge_name-Grows :
      (merge : List String → Plan → Plan) (go : Field → Plan) (m prefix name : String) (p : Plan)
      → ((dep : List String) → Extends (merge dep))
      → ((f : Field) → Grows p (go f))
      → Grows p (merge_name s st merge go m prefix name p)
  unfolding merge_name
  merge_name-Grows merge go m prefix name p h g =
      let out = opt_out-Grows m prefix p in
      let extra = keep_field-Grows m prefix (some "extra") p in
      let computed = merge_computed-Grows merge m prefix (st.computed_deps m name) p h in
      let field = Grows-option (lookup name (s.fields m)) p (opt_out m prefix p) go out g in
      Grows-test (is_computed s m name) p _ _ computed
        (Grows-test (has_extra_column s st m name) p _ _ extra field)

  pub follow-Grows :
      (m prefix name target : String) (p : Plan) → Grows p (follow s st m prefix name target p)
  unfolding follow
  follow-Grows m prefix name target p =
      let kept = keep_field m prefix (some name) p in
      let path = join_path prefix name in
      Grows-trans p kept _ (keep_field-Grows m prefix (some name) p) (
        Grows-trans kept (add_path path kept) _ (add_path-Grows path kept)
          (keep_field-Grows target path (st.primary_key target) (add_path path kept)))

  pub merge_parts-Grows :
      (merge : String → String → List String → Plan → Plan) (m prefix : String) (dep : List String)
      (p : Plan)
      → ((m prefix : String) (dep : List String) → Extends (merge m prefix dep))
      → Grows p (merge_parts s st merge m prefix dep p)
  unfolding merge_parts
  merge_parts-Grows merge m prefix [] p h = Grows-refl p
  merge_parts-Grows merge m prefix (name ∷ []) p h =
      merge_name-Grows (merge m prefix) _ m prefix name p (h m prefix)
        (λ _. keep_field-Grows m prefix (some name) p)
  merge_parts-Grows merge m prefix (name ∷ next ∷ rest) p h =
      merge_name-Grows (merge m prefix) _ m prefix name p (h m prefix) (λ f.
        Grows-option (joined f.target) p (opt_out m prefix p) _ (opt_out-Grows m prefix p) (λ t.
          Grows-trans p (follow s st m prefix name t p) _ (follow-Grows m prefix name t p) (
            merge_parts-Grows merge t (join_path prefix name) (next ∷ rest)
              (follow s st m prefix name t p) h)))

  pub merge_computed_dep-Grows :
      (n : ℕ) (m prefix : String) (dep : List String)
      → Extends (merge_computed_dep s st n m prefix dep)
  unfolding merge_computed_dep
  merge_computed_dep-Grows zero m prefix dep p = opt_out-Grows m prefix p
  merge_computed_dep-Grows (suc n) m prefix dep p =
      merge_parts-Grows (merge_computed_dep s st n) m prefix dep p (merge_computed_dep-Grows n)
