-- ===== src/AccessGuard/Granted.antt =====
-- Which checks pass, after any registrations and look-ups.
use fastedgy.Prelude.{
  ◌≡◌, ◌↔◌, refl, sym, ap, ◌∙◌, true, false, Option, none, some, String, List, [], ◌∷◌, ◌++◌, All,
  if◌then◌else◌, append-nil, Bool-cases, Option-cases, inl, inr, arith,
}
use fastedgy.Prelude.Dict.{lookup, insert, lookup-insert}
use mathlib.Core.Path.{subst}
use fastedgy.AccessGuard.{
  ModelAction, Heard, returns, raises, awaitable, Guard, Checked, passes, ends_sync, ends_async,
  ModelAccessGuardRegistry, guards_of, register_guard, collect_guards, is_for, check_guards,
  resolve_guards, get_guards, check_access, acheck_access, Reach, unregistered, registers, looks_up,
}
use text.Mathlib.Text.{◌==◌ as str_eq}
use text.Mathlib.TextEquality.{eq_iff}

sync-goes_on : (h : Heard) → ¬ (ends_sync h ≡ some passes)
sync-goes_on returns = λ e. ground arith
sync-goes_on raises = λ e. ground arith
sync-goes_on (awaitable b) = λ e. ground arith

async-goes_on : (h : Heard) → ¬ (ends_async h ≡ some passes)
async-goes_on returns = λ e. ground arith
async-goes_on raises = λ e. ground arith
async-goes_on (awaitable true) = λ e. ground arith
async-goes_on (awaitable false) = λ e. ground arith

module _ {ℓ} {I : Type ℓ} where
  -- The guards registered for a class, in their order.
  abbrev of_class : String → List (String × Guard I) → List (Guard I)
  of_class k [] = []
  of_class k ((j, g) ∷ known) = let rest = of_class k known in if str_eq j k then g ∷ rest else rest

  of_class-snoc :
      (k j : String) (g : Guard I) (known : List (String × Guard I))
      → of_class k (known ++ (j, g) ∷ []) ≡ of_class k known ++ (if str_eq j k then g ∷ [] else [])
  of_class-snoc k j g [] = refl
  of_class-snoc k j g ((i, h) ∷ known) = elim (Bool-cases (str_eq i k)) [
    | inl y ↦ rw y (ap (λ gs. h ∷ gs) (of_class-snoc k j g known))
    | inr n ↦ rw n (of_class-snoc k j g known)
  ]

  guards_of-insert :
      (k j : String) (gs : List (Guard I)) (guards : List (String × List (Guard I)))
      → guards_of k (insert j gs guards) ≡ (if str_eq j k then gs else guards_of k guards)
  guards_of-insert k j gs guards = elim (Bool-cases (str_eq j k)) [
    | inl y ↦ rw (lookup-insert j k gs guards) (rw y refl)
    | inr n ↦ rw (lookup-insert j k gs guards) (rw n refl)
  ]

  -- The guards are those that were registered, and the cache has what they come to for a class.
  module _ (mro : String → List String) where
    abbrev Coherent : List (String × Guard I) → ModelAccessGuardRegistry I → Type ℓ
    Coherent known r =
        ((k : String) → guards_of k r.guards ≡ of_class k known)
        × ((c : String) (gs : List (Guard I))
            → lookup c r.resolved ≡ some gs
            → gs ≡ collect_guards r.guards (mro c))

    register_guard-Coherent :
        (k : String) (g : Guard I) (known : List (String × Guard I))
        (r : ModelAccessGuardRegistry I)
        → Coherent known r
        → Coherent (known ++ (k, g) ∷ []) (register_guard k g r)
    unfolding register_guard lookup
    register_guard-Coherent k g known r (h, m) = (
      λ j.
          guards_of-insert j k (guards_of k r.guards ++ g ∷ []) r.guards
          ∙ (elim (Bool-cases (str_eq k j)) [
            | inl y ↦
                let same = (eq_iff k j).0 y in
                let here = h k ∙ ap (λ i. of_class i known) same in
                rw y
                  (ap (λ gs. gs ++ g ∷ []) here ∙ sym (rw (of_class-snoc j k g known) (rw y refl)))
            | inr n ↦
                rw n (
                  h j ∙ sym (rw (of_class-snoc j k g known) (rw n (append-nil (of_class j known)))))
          ]),
      λ c gs e. ground arith,
    )

    resolve_guards-Coherent :
        (o : Option (List (Guard I))) (c : String) (known : List (String × Guard I))
        (r : ModelAccessGuardRegistry I)
        → lookup c r.resolved ≡ o
        → Coherent known r
        → Coherent known (resolve_guards mro o c r).1
          × ((resolve_guards mro o c r).0 ≡ collect_guards r.guards (mro c))
    resolve_guards-Coherent (some gs) c known r e (h, m) = ((h, m), m c gs e)
    resolve_guards-Coherent none c known r e (h, m) = (
      (
        h,
        λ d gs f. elim (Bool-cases (str_eq c d)) [
          | inl y ↦
              let new = collect_guards r.guards (mro c) in
              let found = sym (lookup-insert c d new r.resolved) ∙ f in
              let same = (eq_iff c d).0 y in
              let here = rw y at found in
              let e' = ap (λ i. collect_guards r.guards (mro i)) same in cc
          | inr n ↦
              let new = collect_guards r.guards (mro c) in
              let found = sym (lookup-insert c d new r.resolved) ∙ f in m d gs (rw n at found)
        ],
      ),
      refl,
    )

    Reach-Coherent :
        (known : List (String × Guard I)) (r : ModelAccessGuardRegistry I)
        → Reach mro known r
        → Coherent known r
    unfolding get_guards lookup
    Reach-Coherent known r unregistered = (λ k. refl, λ c gs e. ground arith)
    Reach-Coherent known r (registers {known = before} {r = old} k g s) =
        register_guard-Coherent k g before old (Reach-Coherent before old s)
    Reach-Coherent known r (looks_up {r = old} c s) =
        (resolve_guards-Coherent (lookup c old.resolved) c known old refl
          (Reach-Coherent known old s)).0

  -- A guard that applies to the class lets the check go on.
  abbrev pub Grants : (Heard → Option Checked) → String → ModelAction → Option I → Guard I → Type 0
  Grants ends c a i g = is_for c g ≡ true → ends (g.listener c a i) ≡ none

  -- Of the registrations, those for a class of the list let the check go on.
  abbrev pub AllGrant :
      (Heard → Option Checked)
      → String
      → ModelAction
      → Option I
      → List (String × Guard I)
      → List String
      → Type 0
  AllGrant ends c a i known ks =
      All (λ k. All (λ e. str_eq e.0 k ≡ true → Grants ends c a i e.1) known) ks

  module _ (P : Guard I → Type 0) where
    All-split_guards : (xs ys : List (Guard I)) → All P (xs ++ ys) ↔ (All P xs × All P ys)
    All-split_guards [] ys = (λ h. (tt, h), λ h. h.1)
    All-split_guards (x ∷ xs) ys =
        let (f, g) = All-split_guards xs ys in
        (λ h. let (k, l) = f h.1 in ((h.0, k), l), λ (h, l). (h.0, g (h.1, l)))

    All-of_class :
        (k : String) (known : List (String × Guard I))
        → All P (of_class k known) ↔ All (λ e. str_eq e.0 k ≡ true → P e.1) known
    All-of_class k [] = (λ h. tt, λ h. tt)
    All-of_class k ((j, g) ∷ known) =
        let (f, b) = All-of_class k known in
        elim (Bool-cases (str_eq j k)) [
          | inl y ↦ rw y (λ h. (λ e. h.0, f h.1), λ (h, l). (h refl, b l))
          | inr n ↦ rw n (λ h. (λ e. ground arith, f h), λ (h, l). b l)
        ]

  ends-decide :
      (ends : Heard → Option Checked) (c : String) (a : ModelAction) (i : Option I)
      (gs : List (Guard I))
      → ((h : Heard) → ¬ (ends h ≡ some passes))
      → (check_guards ends c a i gs ≡ passes) ↔ All (Grants ends c a i) gs
  unfolding check_guards
  ends-decide ends c a i [] n = (λ h. tt, λ h. refl)
  ends-decide ends c a i (g ∷ gs) n =
      let (f, b) = ends-decide ends c a i gs n in
      elim (Bool-cases (is_for c g)) [
        | inr m ↦ rw m (λ h. (λ e. ground arith, f h), λ (h, l). b l)
        | inl y ↦ elim (Option-cases (ends (g.listener c a i))) [
          | inl e ↦ rw y (rw e (λ h. (λ x. refl, f h), λ (h, l). b l))
          | inr (o, e) ↦ rw y (
              rw e (
                λ h. elim (n (g.listener c a i) (e ∙ ap some h)) [ ],
                λ (h, l). let x = h refl in ground arith,
              ))
        ]
      ]

  All-collect :
      (P : Guard I → Type 0) (guards : List (String × List (Guard I)))
      (known : List (String × Guard I)) (ks : List String)
      → ((k : String) → guards_of k guards ≡ of_class k known)
      → All P (collect_guards guards ks)
        ↔ All (λ k. All (λ e. str_eq e.0 k ≡ true → P e.1) known) ks
  All-collect P guards known [] h = (λ a. tt, λ a. tt)
  All-collect P guards known (k ∷ ks) h =
      let (f, b) = All-collect P guards known ks h in
      let (split, join) = All-split_guards P (guards_of k guards) (collect_guards guards ks) in
      let (to, from) = All-of_class P k known in
      (
        λ a. let (x, y) = split a in (to (subst (All P) (h k) x), f y),
        λ (x, y). join (subst (All P) (sym (h k)) (from x), b y),
      )

  module _ (mro : String → List String) where
    check-AllGrant :
        (ends : Heard → Option Checked) (known : List (String × Guard I))
        (r : ModelAccessGuardRegistry I) (c : String) (a : ModelAction) (i : Option I)
        → ((h : Heard) → ¬ (ends h ≡ some passes))
        → Coherent mro known r
        → (check_guards ends c a i (get_guards mro c r).0 ≡ passes)
          ↔ AllGrant ends c a i known (mro c)
    unfolding get_guards
    check-AllGrant ends known r c a i n h =
        let found = (resolve_guards-Coherent mro (lookup c r.resolved) c known r refl h).1 in
        let gs = collect_guards r.guards (mro c) in
        let (f, b) = ends-decide ends c a i gs n in
        let (to, from) = All-collect (Grants ends c a i) r.guards known (mro c) h.0 in
        let same = ap (λ xs. check_guards ends c a i xs) found in
        (λ e. to (f (sym same ∙ e)), λ x. same ∙ b (from x))

    -- Whatever was registered and looked up before, in any order: a check of a class passes just where
    -- each guard that was registered for the class or a base of it, and applies to it, returns, or in
    -- a check that awaits returns an awaitable that ends without an error. The cache never holds a
    -- guard back.
    pub Reach-AllGrant :
        (known : List (String × Guard I)) (r : ModelAccessGuardRegistry I) (c : String)
        (a : ModelAction) (i : Option I)
        → Reach mro known r
        → (((check_access mro c a i r).0 ≡ passes) ↔ AllGrant ends_sync c a i known (mro c))
          × (((acheck_access mro c a i r).0 ≡ passes) ↔ AllGrant ends_async c a i known (mro c))
    unfolding check_access acheck_access
    Reach-AllGrant known r c a i h =
        let coherent = Reach-Coherent mro known r h in
        (
          check-AllGrant ends_sync known r c a i sync-goes_on coherent,
          check-AllGrant ends_async known r c a i async-goes_on coherent,
        )
