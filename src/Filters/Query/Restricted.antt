-- ===== src/Filters/Query/Restricted.antt =====
-- What a query becomes under a filter, with the errors of the filter turned into no row at all.
use fastedgy.Prelude.{
  ◌≡◌, refl, Bool, true, false, ◌&&◌, Option, none, some, String, Bool-cases, inl, inr, arith, ◌⊎◌,
}
use fastedgy.Filters.{
  Json, Jsons, FilterConditionType, or_type, and_type, Filter, rule, condition, Filters, no_filter,
  filter_cons, InvalidFilterError, invalid_expression, Parsed, parsed, invalid, parse_filter_input,
}
use fastedgy.Filters.Validate.{Models, validate_filters}
use fastedgy.Filters.Validate.Accepted.{IsValid, Judges, validate_filters-Judges}
use fastedgy.Filters.Query.{
  Expression, Expressions, no_expression, expression_cons, Builder, is_or, is_path, or_rule,
  build_reference, build_column, build_found, build_test, build_rule, push_expression,
  combine_expressions, build_branch, build_filter_expression, build_rules, Selected, whole, nothing,
  those, raised, refuse, select_expression, select_valid, select_parsed, filter_query,
}
use text.Mathlib.Text.{◌==◌ as str_eq}

module _ (b : Builder) where
  -- A text search without a word in it.
  abbrev pub RuleSilent : String → Json → Type 0
  RuleSilent op value =
      ((str_eq op "search" ≡ true) × (b.has_words value ≡ false))
      ⊎ ((str_eq op "search_fuzzy" ≡ true) × (b.has_tokens value ≡ false))

  -- Every rule is such a search.
  mutual
    pub IsSilent : Filter → Type 0
    IsSilent (rule field op value) = RuleSilent op value
    IsSilent (condition c fs) = AreSilent fs

    pub AreSilent : Filters → Type 0
    AreSilent no_filter = Unit
    AreSilent (filter_cons f fs) = IsSilent f × AreSilent fs

  build_reference-some :
      (field op : String) (value : Json) → ¬ (build_reference b field op value ≡ parsed none)
  unfolding build_reference
  build_reference-some field op value = λ e. ground arith

  build_column-some :
      (field op : String) (value : Json) → ¬ (build_column b field op value ≡ parsed none)
  unfolding build_column
  build_column-some field op value = λ e. ground arith

  build_found-some :
      (field op : String) (value : Json) → ¬ (build_found b field op value ≡ parsed none)
  unfolding build_found
  build_found-some field op value = λ e.
      let reference = build_reference-some field op value in
      let column = build_column-some field op value in ground arith

  build_test-some :
      (field op : String) (value : Json) → ¬ (build_test b field op value ≡ parsed none)
  unfolding build_test
  build_test-some field op value = λ e. let found = build_found-some field op value in ground arith

  build_rule-RuleSilent :
      (field op : String) (value : Json)
      → build_rule b field op value ≡ parsed none
      → RuleSilent op value
  unfolding build_rule
  build_rule-RuleSilent field op value e =
      let some_test = build_test-some field op value in
      elim (Bool-cases (str_eq op "search")) [
        | inl y ↦ inl (y, ground arith)
        | inr n ↦ elim (Bool-cases (str_eq op "search_fuzzy")) [
          | inl y ↦ inr (y, ground arith)
          | inr k ↦ ground arith
        ]
      ]

  push_expression-none :
      (r : Parsed (Option Expression)) (rs : Parsed Expressions)
      → push_expression b r rs ≡ parsed no_expression
      → (r ≡ parsed none) × (rs ≡ parsed no_expression)
  push_expression-none (invalid e) rs h = cc
  push_expression-none (parsed none) rs h = (refl, h)
  push_expression-none (parsed (some x)) (invalid e) h = cc
  push_expression-none (parsed (some x)) (parsed xs) h = ground arith

  combine_expressions-none :
      (c : FilterConditionType) (rs : Parsed Expressions)
      → combine_expressions b c rs ≡ parsed none
      → rs ≡ parsed no_expression
  combine_expressions-none c (invalid e) h = cc
  combine_expressions-none c (parsed no_expression) h = refl
  combine_expressions-none c (parsed (expression_cons x no_expression)) h = ground arith
  combine_expressions-none or_type (parsed (expression_cons x (expression_cons y xs))) h =
      ground arith
  combine_expressions-none and_type (parsed (expression_cons x (expression_cons y xs))) h =
      ground arith

  or_rule-RuleSilent :
      (r : Parsed Bool) (field op : String) (value : Json)
      → or_rule b r field op value ≡ parsed none
      → RuleSilent op value
  or_rule-RuleSilent (invalid e) field op value h = ground arith
  or_rule-RuleSilent (parsed true) field op value h = ground arith
  or_rule-RuleSilent (parsed false) field op value h = build_rule-RuleSilent field op value h

  build_branch-RuleSilent :
      (c : FilterConditionType) (field op : String) (value : Json)
      → build_branch b c field op value ≡ parsed none
      → RuleSilent op value
  build_branch-RuleSilent c field op value e = elim (Bool-cases (is_or c && is_path field)) [
    | inl y ↦ or_rule-RuleSilent (b.exists_for field op value) field op value (ground arith)
    | inr n ↦ build_rule-RuleSilent field op value (ground arith)
  ]

  mutual
    unfolding build_filter_expression IsSilent

    none-IsSilent : (f : Filter) → build_filter_expression b f ≡ parsed none → IsSilent f
    none-IsSilent (rule field op value) e = build_rule-RuleSilent field op value e
    none-IsSilent (condition c fs) e =
        none-AreSilent c fs (combine_expressions-none c (build_rules b c fs) e)

    none-AreSilent :
        (c : FilterConditionType) (fs : Filters)
        → build_rules b c fs ≡ parsed no_expression
        → AreSilent fs
    none-AreSilent c no_filter e = tt
    none-AreSilent c (filter_cons (rule field op value) fs) e =
        let (h, k) =
          push_expression-none (build_branch b c field op value) (build_rules b c fs) e in
        (build_branch-RuleSilent c field op value h, none-AreSilent c fs k)
    none-AreSilent c (filter_cons (condition d gs) fs) e =
        let (h, k) =
          push_expression-none (combine_expressions b d (build_rules b d gs)) (build_rules b c fs)
            e in
        (
          none-AreSilent d gs (combine_expressions-none d (build_rules b d gs) h),
          none-AreSilent c fs k,
        )

module _ (ms : Models) (b : Builder) (allow restricted undistinct : Bool) (m : String) where
  -- What the query may be, for what the parser made of its filter.
  abbrev pub Restricts : Parsed (Option Filter) → Selected → Type 0
  Restricts p whole = (f : Filter) × (p ≡ parsed (some f)) × IsValid ms allow m f × IsSilent b f
  Restricts p nothing =
      (restricted ≡ true) × ((f : Filter) → p ≡ parsed (some f) → ¬ (IsValid ms allow m f))
  Restricts p (those x distinct) =
      (f : Filter) × (p ≡ parsed (some f))
      × IsValid ms allow m f
      × (build_filter_expression b f ≡ parsed (some x))
      × (distinct ≡ b.duplicates f && undistinct)
  Restricts p (raised e) =
      restricted ≡ true
      → (f : Filter) × (p ≡ parsed (some f))
        × IsValid ms allow m f
        × (build_filter_expression b f ≡ invalid e)

  refuse-Restricts :
      (p : Parsed (Option Filter)) (r : Bool) (e : InvalidFilterError)
      → restricted ≡ r
      → ((f : Filter) → p ≡ parsed (some f) → ¬ (IsValid ms allow m f))
      → Restricts p (refuse r e)
  refuse-Restricts p true e h k = (h, k)
  refuse-Restricts p false e h k = λ y. ground arith

  select_expression-Restricts :
      (f : Filter) (r : Parsed (Option Expression))
      → IsValid ms allow m f
      → build_filter_expression b f ≡ r
      → Restricts (parsed (some f)) (select_expression (b.duplicates f && undistinct) r)
  unfolding select_expression
  select_expression-Restricts f (invalid e) v h = λ y. (f, refl, v, h)
  select_expression-Restricts f (parsed none) v h = (f, refl, v, none-IsSilent b f h)
  select_expression-Restricts f (parsed (some x)) v h = (f, refl, v, h, refl)

  select_valid-Restricts :
      (f : Filter) (v : Parsed Filter)
      → Judges ms allow m f v
      → Restricts (parsed (some f)) (select_valid ms b allow restricted undistinct m v)
  unfolding select_valid
  select_valid-Restricts f (invalid e) j =
      refuse-Restricts (parsed (some f)) restricted e refl
        (λ g h v. j (let same : f ≡ g = cc in rw same v))
  select_valid-Restricts f (parsed g) (e, v) =
      rw e (select_expression-Restricts f (build_filter_expression b f) v refl)

  select_parsed-Restricts :
      (p : Parsed (Option Filter))
      → Restricts p (select_parsed ms b allow restricted undistinct m p)
  unfolding select_parsed
  select_parsed-Restricts (invalid e) =
      refuse-Restricts (invalid e) restricted e refl (λ f h. ground arith)
  select_parsed-Restricts (parsed none) =
      refuse-Restricts (parsed none) restricted invalid_expression refl (λ f h. ground arith)
  select_parsed-Restricts (parsed (some f)) =
      select_valid-Restricts f (validate_filters ms allow m f)
        (validate_filters-Judges ms allow m f)

  -- The filter of a list leaves the query whole only where it is valid and each of its rules is a
  -- text search without a word. It selects no row only under `restrict_error` and where no valid
  -- filter can be read. An expression is the one of a valid filter, and the query is made distinct
  -- just where the filter can duplicate rows and the query was not distinct. Under `restrict_error`
  -- only an error in building the expression of a valid filter is raised.
  pub filter_query-Restricts :
      (js : Jsons)
      → Restricts
          (parse_filter_input js)
          (filter_query ms b allow restricted undistinct m (some js))
  unfolding filter_query
  filter_query-Restricts js = select_parsed-Restricts (parse_filter_input js)
