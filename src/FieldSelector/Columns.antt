-- ===== src/FieldSelector/Columns.antt =====
-- fastedgy/orm/field_selector.py: which relations a query joins and which columns it leaves out, for
-- a parsed selection. A dependency of a computed field is the list of its names, those that are empty
-- left out.
pub mod Loaded
pub mod Dependencies
pub mod Pruned
pub mod Reads
use fastedgy.Prelude.{
  ℕ, zero, suc, Bool, true, false, ◌&&◌, ◌||◌, Option, none, some, String, List, [], ◌∷◌, ◌++◌, any,
  all, if◌then◌else◌, not,
}
use fastedgy.Prelude.Dict.{lookup, insert, has_name}
use fastedgy.FieldSelector.{
  Target, Field, Schema, Selection, leaf, one, many, Selections, no_selection, selection_cons,
  is_some, is_computed,
}
use Prim.Native.String.{◌++◌ as append}
use text.Mathlib.Text.{◌==◌ as str_eq}

-- What the query needs of the models besides their fields.
pub record Storage : Type 0 where
  -- `find_primary_key_field`
  pub primary_key : String → Option String
  -- `get_computed_field_deps`
  pub computed_deps : String → String → Option (List (List String))
  -- `meta.field_to_column_names` is not empty for the field
  pub has_columns : String → String → Bool

-- A level of the query: its model, and the fields to keep, where columns may be left out.
pub record Level : Type 0 where
  pub model : String
  pub kept : Option (List String)

pub record Plan : Type 0 where
  pub select_paths : List String
  pub levels : List (String × Level)

unfoldable pub empty_plan : Plan
empty_plan = record { select_paths = []; levels = [] }

-- `f"{prefix}__{name}" if prefix else name`
unfoldable pub join_path : String → String → String
join_path prefix name = if str_eq prefix "" then name else append prefix (append "__" name)

-- `levels.get(prefix)`, a new one for a missing prefix.
unfoldable pub level_of : String → Option Level → Level
level_of m none = record { model = m; kept = some [] }
level_of m (some l) = l

unfoldable pub keep_in : Option String → Level → Level
keep_in none l = l
keep_in (some name) l = elim l.kept [
  | none ↦ l
  | some names ↦ record l { kept = some (name ∷ names) }
]

-- `_keep_field`
unfoldable pub keep_field : String → String → Option String → Plan → Plan
keep_field m prefix name p = record p {
  levels = insert prefix (keep_in name (level_of m (lookup prefix p.levels))) p.levels;
}

-- `_opt_out_column_pruning`
unfoldable pub opt_out : String → String → Plan → Plan
opt_out m prefix p = record p {
  levels = insert prefix (record { model = m; kept = none }) p.levels;
}

-- `select_paths.add(path)`
unfoldable pub add_path : String → Plan → Plan
add_path path p = record p { select_paths = path ∷ p.select_paths }

-- The model that a join leads to: `target`, where the field is not many to many.
unfoldable pub joined : Target → Option String
joined (Target.foreign_key t) = some t
joined _ = none

abbrev pub joined_field : Option Field → Option String
joined_field none = none
joined_field (some f) = joined f.target

unfoldable pub selection_names : Selections → List String
selection_names no_selection = []
selection_names (selection_cons name v d) = name ∷ selection_names d

-- `target_pk and set(field_value.keys()) <= {target_pk}`
unfoldable pub only_key : Option String → Selections → Bool
unfolding selection_names
only_key none d = false
only_key (some key) d = all (λ n. str_eq n key) (selection_names d)

module _ (s : Schema) (st : Storage) where
  abbrev pub has_extra_column : String → String → Bool
  has_extra_column m name = is_some (s.extra_name name) && is_some (lookup "extra" (s.fields m))

  -- The rest of a dependency behind a relation: the relation is kept and joined.
  unfoldable pub follow : String → String → String → String → Plan → Plan
  follow m prefix name target p =
      let path = join_path prefix name in
      keep_field target path (st.primary_key target)
        (add_path path (keep_field m prefix (some name) p))

  -- The dependencies of a computed field, where `merge` merges one.
  unfoldable pub merge_all : (List String → Plan → Plan) → List (List String) → Plan → Plan
  merge_all merge [] p = p
  merge_all merge (dep ∷ deps) p = merge_all merge deps (merge dep p)

  unfoldable pub merge_computed :
      (List String → Plan → Plan) → String → String → Option (List (List String)) → Plan → Plan
  merge_computed merge m prefix none p = opt_out m prefix p
  merge_computed merge m prefix (some deps) p = merge_all merge deps p

  -- One name of a dependency, where `go` goes on with a field of the model.
  unfoldable pub merge_name :
      (List String → Plan → Plan) → (Field → Plan) → String → String → String → Plan → Plan
  unfolding merge_computed
  merge_name merge go m prefix name p = elim (is_computed s m name) [
    | true ↦ merge_computed merge m prefix (st.computed_deps m name) p
    | false ↦ elim (has_extra_column m name) [
      | true ↦ keep_field m prefix (some "extra") p
      | false ↦ elim (lookup name (s.fields m)) [ none ↦ opt_out m prefix p | some f ↦ go f ]
    ]
  ]

  -- The loop over the names of a dependency; `merge` is the call for those of a computed field.
  unfoldable pub merge_parts :
      (String → String → List String → Plan → Plan) → String → String → List String → Plan → Plan
  unfolding merge_name
  merge_parts merge m prefix [] p = p
  merge_parts merge m prefix (name ∷ []) p =
      merge_name (merge m prefix) (λ _. keep_field m prefix (some name) p) m prefix name p
  merge_parts merge m prefix (name ∷ next ∷ rest) p =
      let go : Field → Plan = λ f. elim (joined f.target) [
        | none ↦ opt_out m prefix p
        | some t ↦
            merge_parts merge t (join_path prefix name) (next ∷ rest) (follow m prefix name t p)
      ] in
      merge_name (merge m prefix) go m prefix name p

  -- `_merge_computed_dep`, with as many levels left as the number says.
  unfoldable pub merge_computed_dep : ℕ → String → String → List String → Plan → Plan
  unfolding merge_parts
  merge_computed_dep zero m prefix dep p = opt_out m prefix p
  merge_computed_dep (suc n) m prefix dep p = merge_parts (merge_computed_dep n) m prefix dep p

  -- A selected value.
  unfoldable pub collect_leaf : String → String → String → Plan → Plan
  unfolding merge_computed
  collect_leaf m prefix name p = elim (is_computed s m name) [
    | true ↦ merge_computed (merge_computed_dep 11 m prefix) m prefix (st.computed_deps m name) p
    | false ↦ elim (has_extra_column m name) [
      | true ↦ keep_field m prefix (some "extra") p
      | false ↦ elim (is_some (lookup name (s.fields m))) [
        | true ↦ keep_field m prefix (some name) p
        | false ↦ opt_out m prefix p
      ]
    ]
  ]

  -- A selected relation to one record, by what it refers to; `below` collects what is selected of it
  -- at a path.
  unfoldable pub collect_target :
      (String → String → Plan → Plan) → Selections → Target → String → String → String → Plan → Plan
  collect_target below d (Target.generic_foreign_key column id) m prefix name p =
      keep_field m prefix (some id) (keep_field m prefix (some column) p)
  collect_target below d (Target.foreign_key t) m prefix name p =
      let kept = keep_field m prefix (some name) p in
      let path = join_path prefix name in
      if only_key (st.primary_key t) d then kept else below t path (add_path path kept)
  collect_target below d _ m prefix name p = p

  unfoldable pub collect_one :
      (String → String → Plan → Plan)
      → Selections
      → Option Field
      → String
      → String
      → String
      → Plan
      → Plan
  unfolding collect_target
  collect_one below d none m prefix name p = p
  collect_one below d (some f) m prefix name p = collect_target below d f.target m prefix name p

  -- The loop of `_collect_query_optimizations` over the entries of a selection.
  unfoldable mutual
    unfolding collect_leaf collect_one

    pub collect_entries : Selections → String → String → Plan → Plan
    collect_entries no_selection m prefix p = p
    collect_entries (selection_cons name v d) m prefix p =
        collect_entries d m prefix (collect_entry v m prefix name p)

    pub collect_entry : Selection → String → String → String → Plan → Plan
    collect_entry leaf m prefix name p = collect_leaf m prefix name p
    collect_entry (one d) m prefix name p =
        collect_one (λ t path q. collect_entries d t path (keep_field t path (st.primary_key t) q))
          d (lookup name (s.fields m)) m prefix name p
    collect_entry (many d) m prefix name p = p

  -- `_collect_query_optimizations`
  unfoldable pub collect : Selections → String → String → Plan → Plan
  collect d m prefix p = collect_entries d m prefix (keep_field m prefix (st.primary_key m) p)

  -- The fields of one level that are left out.
  unfoldable pub defer_fields :
      List String → String → String → List String → List (String × Field) → List String
  defer_fields paths m prefix kept [] = []
  defer_fields paths m prefix kept ((name, f) ∷ fs) =
      let rest = defer_fields paths m prefix kept fs in
      let path = join_path prefix name in
      if has_name name kept || (not (st.has_columns m name) || has_name path paths)
      then rest
      else path ∷ rest

  unfoldable pub defer_level : List String → String → Level → List String
  defer_level paths prefix l = elim l.kept [
    | none ↦ []
    | some kept ↦ defer_fields paths l.model prefix kept (s.fields l.model)
  ]

  unfoldable pub defer_levels : List String → List (String × Level) → List String
  unfolding defer_level
  defer_levels paths [] = []
  defer_levels paths ((prefix, l) ∷ levels) =
      defer_level paths prefix l ++ defer_levels paths levels

  -- `_build_defer_paths`
  unfoldable pub build_defer_paths : Plan → List String
  unfolding defer_levels
  build_defer_paths p = defer_levels p.select_paths p.levels
