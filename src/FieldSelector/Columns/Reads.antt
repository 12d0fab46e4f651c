-- ===== src/FieldSelector/Columns/Reads.antt =====
-- Every value and relation that a selection reads is loaded by the query that is built for it.
use fastedgy.Prelude.{◌≡◌, refl, ◌⊎◌, true, Option, none, some, String, List, Bool-cases, inl, inr}
use fastedgy.Prelude.Dict.{lookup, has_name}
use fastedgy.FieldSelector.{
  Target, Field, Schema, Selection, leaf, one, many, Selections, no_selection, selection_cons,
  is_some, is_computed,
}
use fastedgy.FieldSelector.Columns.{
  Storage, Plan, join_path, keep_field, add_path, only_key, has_extra_column, merge_computed_dep,
  collect_leaf, collect_target, collect_one, collect_entries, collect_entry, collect,
  build_defer_paths,
}
use fastedgy.FieldSelector.Columns.Loaded.{
  keeps, Grows, Grows-refl, Grows-trans, Grows-test, Extends, keep_field-Grows, opt_out-Grows,
  add_path-Grows, keep_field-keeps, opt_out-leaves, merge_computed-Grows, merge_computed_dep-Grows,
  added,
}
use fastedgy.FieldSelector.Columns.Pruned.{IsPruned, build_defer_paths-IsPruned}
use mathlib.Core.List.{Memᴰ}
use fastedgy.FieldSelector.Columns.Dependencies.{
  Either, Found, Keeps, LeavesAll, ComputedLoaded, NameLoaded, NameLoaded-IsStable, DepLoaded,
  DepLoaded-IsStable, test-Either, some-Found, merge_computed-loads, merge_computed_dep-DepLoaded,
}

module _ (s : Schema) (st : Storage) where
  -- A selected value is loaded: its column is kept, or that of all extra fields, or no column of the
  -- level is left out; of a computed field all that its declared dependencies read is loaded.
  abbrev pub ValueLoaded : String → String → String → Plan → Type 0
  ValueLoaded m prefix name p =
      NameLoaded s st (DepLoaded s st 11 m prefix) (λ _. Keeps prefix name) m prefix name p

  -- A selected relation to one record is loaded: the columns of a generic one are kept; that of
  -- another is kept, and unless just the key of the target is selected it is joined and what is
  -- selected of it is loaded at its path.
  abbrev pub TargetLoaded :
      (String → String → Plan → Type 0) → Selections → Target → String → String → Plan → Type 0
  TargetLoaded below d (Target.generic_foreign_key column id) prefix name p =
      (keeps p prefix column ≡ true) × (keeps p prefix id ≡ true)
  TargetLoaded below d (Target.foreign_key t) prefix name p =
      (keeps p prefix name ≡ true)
      × ((only_key (st.primary_key t) d ≡ true)
          ⊎ ((has_name (join_path prefix name) p.select_paths ≡ true)
              × below t (join_path prefix name) p))
  TargetLoaded below d _ prefix name p = Unit

  abbrev pub RelationLoaded :
      (String → String → Plan → Type 0)
      → Selections
      → Option Field
      → String
      → String
      → Plan
      → Type 0
  RelationLoaded below d none prefix name p = Unit
  RelationLoaded below d (some f) prefix name p = TargetLoaded below d f.target prefix name p

  mutual
    pub Loads : Selections → String → String → Plan → Type 0
    Loads no_selection m prefix p = Unit
    Loads (selection_cons name v d) m prefix p = LoadsEntry v m prefix name p × Loads d m prefix p

    pub LoadsEntry : Selection → String → String → String → Plan → Type 0
    LoadsEntry leaf m prefix name p = ValueLoaded m prefix name p
    LoadsEntry (one d) m prefix name p =
        RelationLoaded (Loads d) d (lookup name (s.fields m)) prefix name p
    LoadsEntry (many d) m prefix name p = Unit

  merge-Extends :
      (m prefix : String) (dep : List String) → Extends (merge_computed_dep s st 11 m prefix dep)
  merge-Extends m prefix dep = merge_computed_dep-Grows s st 11 m prefix dep

  collect_leaf-Grows :
      (m prefix name : String) (p : Plan) → Grows p (collect_leaf s st m prefix name p)
  unfolding collect_leaf
  collect_leaf-Grows m prefix name p =
      let merge = merge_computed_dep s st 11 m prefix in
      Grows-test (is_computed s m name) p _ _
        (merge_computed-Grows s st merge m prefix (st.computed_deps m name) p
          (merge-Extends m prefix))
        (Grows-test (has_extra_column s st m name) p _ _
          (keep_field-Grows m prefix (some "extra") p)
          (Grows-test (is_some (lookup name (s.fields m))) p _ _
            (keep_field-Grows m prefix (some name) p) (opt_out-Grows m prefix p)))

  collect_leaf-loads :
      (m prefix name : String) (p : Plan)
      → ValueLoaded m prefix name (collect_leaf s st m prefix name p)
  unfolding collect_leaf
  collect_leaf-loads m prefix name p =
      let Value : Plan → Type 0 =
        λ q. Found (lookup name (s.fields m)) (LeavesAll prefix q) (λ _. Keeps prefix name q) in
      test-Either (is_computed s m name)
        (ComputedLoaded (DepLoaded s st 11 m prefix) prefix (st.computed_deps m name))
        (λ q. Either (has_extra_column s st m name) (Keeps prefix "extra" q) (Value q)) _ _
        (merge_computed-loads s st (merge_computed_dep s st 11 m prefix)
          (DepLoaded s st 11 m prefix) m prefix (st.computed_deps m name) p (merge-Extends m prefix)
          (DepLoaded-IsStable s st 11 m prefix) (merge_computed_dep-DepLoaded s st 11 m prefix))
        (test-Either (has_extra_column s st m name) (Keeps prefix "extra") Value _ _
          (keep_field-keeps m prefix "extra" p)
          (some-Found (lookup name (s.fields m)) (LeavesAll prefix) (Keeps prefix name) _ _
            (keep_field-keeps m prefix name p) (opt_out-leaves m prefix p)))

  ValueLoaded-Grows :
      (m prefix name : String) (p q : Plan)
      → Grows p q
      → ValueLoaded m prefix name p
      → ValueLoaded m prefix name q
  ValueLoaded-Grows m prefix name =
      NameLoaded-IsStable s st (DepLoaded s st 11 m prefix) (λ _. Keeps prefix name) m prefix name
        (DepLoaded-IsStable s st 11 m prefix) (λ _ p q g l. g.keeps_too prefix name l)

  TargetLoaded-Grows :
      (below : String → String → Plan → Type 0) (d : Selections) (t : Target) (prefix name : String)
      (p q : Plan)
      → Grows p q
      → ((t path : String) → below t path p → below t path q)
      → TargetLoaded below d t prefix name p
      → TargetLoaded below d t prefix name q
  TargetLoaded-Grows below d (Target.scalar) prefix name p q g h l = tt
  TargetLoaded-Grows below d (Target.m2m t) prefix name p q g h l = tt
  TargetLoaded-Grows below d (Target.related_from t) prefix name p q g h l = tt
  TargetLoaded-Grows below d (Target.generic_foreign_key c i) prefix name p q g h l =
      (g.keeps_too prefix c l.0, g.keeps_too prefix i l.1)
  TargetLoaded-Grows below d (Target.foreign_key t) prefix name p q g h (k, inl only) =
      (g.keeps_too prefix name k, inl only)
  TargetLoaded-Grows below d (Target.foreign_key t) prefix name p q g h (k, inr (j, l)) =
      let path = join_path prefix name in
      (g.keeps_too prefix name k, inr (g.joins_too path j, h t path l))

  RelationLoaded-Grows :
      (below : String → String → Plan → Type 0) (d : Selections) (o : Option Field)
      (prefix name : String) (p q : Plan)
      → Grows p q
      → ((t path : String) → below t path p → below t path q)
      → RelationLoaded below d o prefix name p
      → RelationLoaded below d o prefix name q
  RelationLoaded-Grows below d none prefix name p q g h l = tt
  RelationLoaded-Grows below d (some f) prefix name p q g h l =
      TargetLoaded-Grows below d f.target prefix name p q g h l

  Loads-Grows :
      (d : Selections) (m prefix : String) (p q : Plan)
      → Grows p q
      → Loads d m prefix p
      → Loads d m prefix q
  unfolding Loads
  Loads-Grows no_selection m prefix p q g l = tt
  Loads-Grows (selection_cons name leaf d) m prefix p q g l =
      (ValueLoaded-Grows m prefix name p q g l.0, Loads-Grows d m prefix p q g l.1)
  Loads-Grows (selection_cons name (many e) d) m prefix p q g l =
      (tt, Loads-Grows d m prefix p q g l.1)
  Loads-Grows (selection_cons name (one e) d) m prefix p q g l = (
    RelationLoaded-Grows (Loads e) e (lookup name (s.fields m)) prefix name p q g
        (λ t path. Loads-Grows e t path p q g) l.0,
    Loads-Grows d m prefix p q g l.1,
  )

  -- What the collection of a relation does, where `below` loads what `Below` says.
  module _ (below : String → String → Plan → Plan) (Below : String → String → Plan → Type 0)
      (d : Selections) (extends : (t path : String) → Extends (below t path))
      (loads : (t path : String) (q : Plan) → Below t path (below t path q)) where
    collect_target-loads :
        (t : Target) (m prefix name : String) (p : Plan)
        → Grows p (collect_target s st below d t m prefix name p)
          × TargetLoaded Below d t prefix name (collect_target s st below d t m prefix name p)
    unfolding collect_target
    collect_target-loads (Target.scalar) m prefix name p = (Grows-refl p, tt)
    collect_target-loads (Target.m2m t) m prefix name p = (Grows-refl p, tt)
    collect_target-loads (Target.related_from t) m prefix name p = (Grows-refl p, tt)
    collect_target-loads (Target.generic_foreign_key c i) m prefix name p =
        let kept = keep_field m prefix (some c) p in
        let more = keep_field-Grows m prefix (some i) kept in
        (
          Grows-trans p kept _ (keep_field-Grows m prefix (some c) p) more,
          (
            more.keeps_too prefix c (keep_field-keeps m prefix c p),
            keep_field-keeps m prefix i kept,
          ),
        )
    collect_target-loads (Target.foreign_key t) m prefix name p =
        let kept = keep_field m prefix (some name) p in
        let path = join_path prefix name in
        let first = keep_field-Grows m prefix (some name) p in
        let more =
          Grows-trans kept (add_path path kept) _ (add_path-Grows path kept)
            (extends t path (add_path path kept)) in
        elim (Bool-cases (only_key (st.primary_key t) d)) [
          | inl y ↦ rw y (first, (keep_field-keeps m prefix name p, inl refl))
          | inr n ↦ rw n (
            Grows-trans p kept _ first more,
            (
              more.keeps_too prefix name (keep_field-keeps m prefix name p),
              inr (
                (extends t path (add_path path kept)).joins_too path (added path kept),
                loads t path (add_path path kept),
              ),
            ),
          )
        ]

    collect_one-loads :
        (o : Option Field) (m prefix name : String) (p : Plan)
        → Grows p (collect_one s st below d o m prefix name p)
          × RelationLoaded Below d o prefix name (collect_one s st below d o m prefix name p)
    unfolding collect_one
    collect_one-loads none m prefix name p = (Grows-refl p, tt)
    collect_one-loads (some f) m prefix name p = collect_target-loads f.target m prefix name p

  abbrev Collected : Selections → String → String → Plan → Plan → Type 0
  Collected d m prefix p q = Grows p q × Loads d m prefix q

  entries-Collected :
      (d : Selections) (m prefix : String) (p : Plan)
      → Collected d m prefix p (collect_entries s st d m prefix p)
  unfolding collect_entries Loads
  entries-Collected no_selection m prefix p = (Grows-refl p, tt)
  entries-Collected (selection_cons name leaf d) m prefix p =
      let first = collect_leaf s st m prefix name p in
      let (more, rest) = entries-Collected d m prefix first in
      let loaded = collect_leaf-loads m prefix name p in
      (
        Grows-trans p first _ (collect_leaf-Grows m prefix name p) more,
        (ValueLoaded-Grows m prefix name first _ more loaded, rest),
      )
  entries-Collected (selection_cons name (many e) d) m prefix p =
      let (more, rest) = entries-Collected d m prefix p in (more, (tt, rest))
  entries-Collected (selection_cons name (one e) d) m prefix p =
      let field = lookup name (s.fields m) in
      let first = collect_entry s st (one e) m prefix name p in
      let (grown, loaded) =
        collect_one-loads
          (λ t path q. collect_entries s st e t path (keep_field t path (st.primary_key t) q))
          (Loads e) e
          (λ t path q.
            Grows-trans q (keep_field t path (st.primary_key t) q) _
              (keep_field-Grows t path (st.primary_key t) q)
              (entries-Collected e t path (keep_field t path (st.primary_key t) q)).0)
          (λ t path q. (entries-Collected e t path (keep_field t path (st.primary_key t) q)).1)
          field m prefix name p in
      let (more, rest) = entries-Collected d m prefix first in
      (
        Grows-trans p first _ grown more,
        (
          RelationLoaded-Grows (Loads e) e field prefix name first _ more
              (λ t path. Loads-Grows e t path first (collect_entries s st d m prefix first) more)
              loaded,
          rest,
        ),
      )

  -- What the query leaves out is neither kept at its level nor joined.
  abbrev pub LeavesOut : Plan → Type 0
  LeavesOut p =
      (path : String) → Memᴰ path (build_defer_paths s st p) → IsPruned s st p p.levels path

  -- For any selection the query keeps the columns and joins the relations that serialising it reads:
  -- the column of each selected field and of each relation to one record, the two of a generic
  -- reference, and for a record of which more than the key is selected the join, with all this for
  -- what is selected of it; for a computed field all this along each dependency that it declares,
  -- through eleven levels of computed fields. At a level with an unknown field, or a computed one
  -- without declared dependencies, no column is left out. What is left out is a field with columns
  -- that its level does not keep, at a path that is not joined.
  pub collect-Loads :
      (d : Selections) (m prefix : String) (p : Plan)
      → Loads d m prefix (collect s st d m prefix p) × LeavesOut (collect s st d m prefix p)
  unfolding collect
  collect-Loads d m prefix p = (
    (entries-Collected d m prefix (keep_field m prefix (st.primary_key m) p)).1,
    build_defer_paths-IsPruned s st _,
  )
