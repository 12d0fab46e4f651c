-- ===== src/Filters/Validate/Accepted.antt =====
-- What an accepted filter is.
use fastedgy.Prelude.{
  ◌≡◌, refl, ap, ◌∙◌, ◌↔◌, Bool, true, false, ◌&&◌, Option, none, some, String, List, [], ◌∷◌,
  Bool-cases, Option-cases, inl, inr, arith,
}
use fastedgy.Prelude.Dict.{lookup, has_name}
use fastedgy.Text.{remove_prefix}
use fastedgy.Filters.{
  Json, FilterConditionType, Filter, rule, condition, Filters, no_filter, filter_cons, Parsed,
  parsed, invalid,
}
use fastedgy.Filters.Validate.{
  FieldInfo, Models, is_filterable, field_passes, operators_of, operator_passes, extra_passes,
  extra_operators, column_operators, parts_of, field_at_place, operator_at_place,
  validate_filter_field, validate_filter_operator, validate_rule, push_rule, combine_rules,
  validate_filters, validate_all,
}
use text.Mathlib.Text.{◌==◌ as str_eq}

-- The parts lead over relations to the field, from the model on; none of the fields is computed.
pub data Leads (ms : Models) : String → List String → FieldInfo → Type 0 where
  last :
      {m part : String} {f : FieldInfo}
      → lookup part (ms.fields m) ≡ some f
      → f.has_getter ≡ false
      → Leads ms m (part ∷ []) f
  further :
      {m part next t : String} {rest : List String} {g f : FieldInfo}
      → lookup part (ms.fields m) ≡ some g
      → g.has_getter ≡ false
      → g.leads_to ≡ some t
      → Leads ms t (next ∷ rest) f
      → Leads ms m (part ∷ next ∷ rest) f

-- An excluded field has to say that it may be filtered, unless excluded ones are allowed; any other
-- field must not say that it may not.
abbrev pub MayFilter : Bool → FieldInfo → Type 0
MayFilter allow f =
    (f.exclude ≡ true → allow ≡ false → f.filterable ≡ some true)
    × (f.exclude ≡ false → ¬ (f.filterable ≡ some false))

is_filterable_iff :
    (allow : Bool) (f : FieldInfo) → (is_filterable allow f ≡ true) ↔ MayFilter allow f
unfolding is_filterable
is_filterable_iff allow f = elim (Option-cases f.filterable) [
  | inl n ↦ (λ h. (λ e a. ground arith, λ e w. ground arith), λ (h, k). ground arith)
  | inr (b, n) ↦ (λ h. (λ e a. ground arith, λ e w. ground arith), λ (h, k). ground arith)
]

module _ (ms : Models) (allow : Bool) where
  -- A field that may be filtered by the operator.
  abbrev pub Fits : String → List String → String → Type 0
  Fits m parts op =
      (f : FieldInfo) × Leads ms m parts f
      × MayFilter allow f
      × (has_name op (operators_of ms f.type) ≡ true)

  passes-Fits :
      (op m : String) (parts : List String)
      → field_passes ms allow m parts ≡ true
      → operator_passes ms op m parts ≡ true
      → Fits m parts op
  unfolding field_passes operator_passes
  passes-Fits op m [] h k = ground arith
  passes-Fits op m (part ∷ []) h k = elim (Option-cases (lookup part (ms.fields m))) [
    | inl e ↦ ground arith
    | inr (f, e) ↦
        (f, last e (ground arith), (is_filterable_iff allow f).0 (ground arith), ground arith)
  ]
  passes-Fits op m (part ∷ next ∷ rest) h k = elim (Option-cases (lookup part (ms.fields m))) [
    | inl e ↦ ground arith
    | inr (g, e) ↦ elim (Option-cases g.leads_to) [
      | inl n ↦ ground arith
      | inr (t, n) ↦
          let (f, l, a, b) = passes-Fits op t (next ∷ rest) (ground arith) (ground arith) in
          (f, further e (ground arith) n l, a, b)
    ]
  ]

  Leads-field_passes :
      (m : String) (parts : List String) (f : FieldInfo)
      → Leads ms m parts f
      → is_filterable allow f ≡ true
      → field_passes ms allow m parts ≡ true
  unfolding field_passes
  Leads-field_passes m [] f l a = elim l [ ]
  Leads-field_passes m (part ∷ []) f (last e n) a = ground arith
  Leads-field_passes m (part ∷ next ∷ rest) f (further {t = t} e n w l) a =
      let below = Leads-field_passes t (next ∷ rest) f l a in ground arith

  Leads-operator_passes :
      (op m : String) (parts : List String) (f : FieldInfo)
      → Leads ms m parts f
      → operator_passes ms op m parts ≡ has_name op (operators_of ms f.type)
  unfolding operator_passes
  Leads-operator_passes op m [] f l = elim l [ ]
  Leads-operator_passes op m (part ∷ []) f (last e n) = ground arith
  Leads-operator_passes op m (part ∷ next ∷ rest) f (further {t = t} e n w l) =
      let below = Leads-operator_passes op t (next ∷ rest) f l in ground arith

  -- What a path and an operator may be, by the generic column and the extra field that the path names.
  abbrev pub PlaceValid : String → List String → String → Option String → Option String → Type 0
  PlaceValid m parts op (some column) o = has_name op (column_operators ms m column) ≡ true
  PlaceValid m parts op none (some name) =
      (extra_passes ms m name ≡ true) × (has_name op (extra_operators ms m name) ≡ true)
  PlaceValid m parts op none none = Fits m parts op

  abbrev pub RuleValid : String → String → String → Type 0
  RuleValid m path op =
      (str_eq path "" ≡ false)
      × (str_eq op "" ≡ false)
      × PlaceValid m (parts_of ms path) op (ms.generic_pair m path) (remove_prefix "extra_" path)

  -- Each rule is valid, and no condition is empty.
  mutual
    pub IsValid : String → Filter → Type 0
    IsValid m (rule path op value) = RuleValid m path op
    IsValid m (condition c no_filter) = ⊥
    IsValid m (condition c (filter_cons f fs)) = IsValid m f × AreValid m fs

    pub AreValid : String → Filters → Type 0
    AreValid m no_filter = Unit
    AreValid m (filter_cons f fs) = IsValid m f × AreValid m fs

  place-PlaceValid :
      (m : String) (parts : List String) (op : String) (g o : Option String)
      → field_at_place ms allow m parts g o ≡ true
      → operator_at_place ms op m parts g o ≡ true
      → PlaceValid m parts op g o
  unfolding field_at_place operator_at_place
  place-PlaceValid m parts op (some column) o h k = k
  place-PlaceValid m parts op none (some name) h k = (h, ground arith)
  place-PlaceValid m parts op none none h k = passes-Fits op m parts h k

  PlaceValid-place :
      (m : String) (parts : List String) (op : String) (g o : Option String)
      → PlaceValid m parts op g o
      → field_at_place ms allow m parts g o && operator_at_place ms op m parts g o ≡ true
  unfolding field_at_place operator_at_place
  PlaceValid-place m parts op (some column) o v = v
  PlaceValid-place m parts op none (some name) v = ground arith
  PlaceValid-place m parts op none none (f, l, a, b) = ground (
    arith,
    Leads-field_passes m parts f l ((is_filterable_iff allow f).1 a),
    Leads-operator_passes op m parts f l,
  )

  -- A rule that passes both tests, and only such a rule, is valid.
  rule_tests :
      (m path op : String)
      → ((validate_filter_field ms allow m path && validate_filter_operator ms m path op) ≡ true)
        ↔ RuleValid m path op
  unfolding validate_filter_field validate_filter_operator
  rule_tests m path op =
      let g = ms.generic_pair m path in
      let o = remove_prefix "extra_" path in
      (
        λ h. (
          ground arith,
          ground arith,
          place-PlaceValid m (parts_of ms path) op g o (ground arith) (ground arith),
        ),
        λ (p, q, v). ground (arith, PlaceValid-place m (parts_of ms path) op g o v),
      )

  -- What the validation makes of a filter.
  abbrev pub Judges : String → Filter → Parsed Filter → Type 0
  Judges m f (parsed g) = (g ≡ f) × IsValid m f
  Judges m f (invalid e) = ¬ (IsValid m f)

  abbrev JudgesAll : String → Filters → Parsed Filters → Type 0
  JudgesAll m fs (parsed gs) = (gs ≡ fs) × AreValid m fs
  JudgesAll m fs (invalid e) = ¬ (AreValid m fs)

  validate_rule-Judges :
      (m path op : String) (value : Json)
      → Judges m (rule path op value) (validate_rule ms allow m path op value)
  unfolding validate_rule IsValid
  validate_rule-Judges m path op value =
      let (accepts, refuses) = rule_tests m path op in
      elim (Bool-cases (validate_filter_field ms allow m path)) [
        | inr n ↦ rw n (λ v. let both = refuses v in ground arith)
        | inl y ↦ elim (Bool-cases (validate_filter_operator ms m path op)) [
          | inr n ↦ rw y (rw n (λ v. let both = refuses v in ground arith))
          | inl z ↦ let valid = accepts (ground arith) in rw y (rw z (refl, valid))
        ]
      ]

  push_rule-JudgesAll :
      (m : String) (f : Filter) (fs : Filters) (r : Parsed Filter) (rs : Parsed Filters)
      → Judges m f r
      → JudgesAll m fs rs
      → JudgesAll m (filter_cons f fs) (push_rule ms r rs)
  unfolding IsValid
  push_rule-JudgesAll m f fs (invalid e) rs h k = λ v. h v.0
  push_rule-JudgesAll m f fs (parsed g) (invalid e) h k = λ v. k v.1
  push_rule-JudgesAll m f fs (parsed g) (parsed gs) h k =
      (ap (λ x. filter_cons x gs) h.0 ∙ ap (filter_cons f) k.0, (h.1, k.1))

  combine_rules-Judges :
      (m : String) (c : FilterConditionType) (fs : Filters) (rs : Parsed Filters)
      → JudgesAll m fs rs
      → Judges m (condition c fs) (combine_rules ms c rs)
  unfolding IsValid
  combine_rules-Judges m c no_filter (invalid e) h = λ v. v
  combine_rules-Judges m c (filter_cons f fs) (invalid e) h = h
  combine_rules-Judges m c no_filter (parsed no_filter) h = λ v. v
  combine_rules-Judges m c no_filter (parsed (filter_cons g gs)) h = let e = h.0 in cc
  combine_rules-Judges m c (filter_cons f fs) (parsed no_filter) h = λ v. let e = h.0 in cc
  combine_rules-Judges m c (filter_cons f fs) (parsed (filter_cons g gs)) h =
      (ap (condition c) h.0, h.1)

  mutual
    unfolding validate_filters IsValid

    filter-Judges : (m : String) (f : Filter) → Judges m f (validate_filters ms allow m f)
    filter-Judges m (rule path op value) = validate_rule-Judges m path op value
    filter-Judges m (condition c fs) =
        combine_rules-Judges m c fs (validate_all ms allow m fs) (validate_all-JudgesAll m fs)

    validate_all-JudgesAll :
        (m : String) (fs : Filters) → JudgesAll m fs (validate_all ms allow m fs)
    validate_all-JudgesAll m no_filter = (refl, tt)
    validate_all-JudgesAll m (filter_cons f fs) =
        push_rule-JudgesAll m f fs (validate_filters ms allow m f) (validate_all ms allow m fs)
          (filter-Judges m f) (validate_all-JudgesAll m fs)

  -- A filter is accepted just where every rule of it names a field over relations that exists, is
  -- stored and may be filtered, by an operator of its class, or a column or an extra field with
  -- such an operator, and no condition is empty. An accepted filter is left as it is.
  pub validate_filters-Judges :
      (m : String) (f : Filter) → Judges m f (validate_filters ms allow m f)
  validate_filters-Judges m f = filter-Judges m f
