-- ===== src/TaskCreation/Pending.antt =====
-- Requests that are still to do, in their order, and the parents they wait for.
use fastedgy.Prelude.{
  ◌≡◌, refl, ◌∙◌, ℕ, Bool, true, false, ◌||◌, Option, none, some, List, [], ◌∷◌, ◌++◌, ◌==◌, not,
  filter, Bool-cases, inl, inr, arith,
}
use fastedgy.TaskCreation.{TaskCreationRequest, is_child}

abbrev pub has_ref : ℕ → List TaskCreationRequest → Bool
has_ref p [] = false
has_ref p (r ∷ rs) = p == r.ref || has_ref p rs

abbrev pub no_parent : TaskCreationRequest → Bool
no_parent r = not (is_child r)

-- The parent of a request, if it has one, passes.
abbrev pub backed : (ℕ → Bool) → Option ℕ → Bool
backed ok none = true
backed ok (some p) = ok p

-- Each parent passes or is the reference of a request in front.
abbrev pub Backed : (ℕ → Bool) → List TaskCreationRequest → Type 0
Backed ok [] = Unit
Backed ok (r ∷ rs) = (backed ok r.parent_ref ≡ true) × Backed (λ p. p == r.ref || ok p) rs

abbrev pub Within : (ℕ → Bool) → (ℕ → Bool) → Type 0
Within ok also = (p : ℕ) → ok p ≡ true → also p ≡ true

pub has_ref-append :
    (p : ℕ) (xs ys : List TaskCreationRequest) → has_ref p (xs ++ ys) ≡ has_ref p xs || has_ref p ys
has_ref-append p [] ys = refl
has_ref-append p (x ∷ xs) ys = let below = has_ref-append p xs ys in ground arith

backed-Within :
    (ok also : ℕ → Bool) (o : Option ℕ) → Within ok also → backed ok o ≡ true → backed also o ≡ true
backed-Within ok also none w h = refl
backed-Within ok also (some p) w h = w p h

Within-or :
    (r : ℕ) (ok also : ℕ → Bool)
    → Within ok also
    → Within (λ p. p == r || ok p) (λ p. p == r || also p)
Within-or r ok also w p h = let below = w p in ground arith

pub Backed-Within :
    (ok also : ℕ → Bool) (rs : List TaskCreationRequest)
    → Within ok also
    → Backed ok rs
    → Backed also rs
Backed-Within ok also [] w b = tt
Backed-Within ok also (r ∷ rs) w b = (
  backed-Within ok also r.parent_ref w b.0,
  Backed-Within (λ p. p == r.ref || ok p) (λ p. p == r.ref || also p) rs (Within-or r.ref ok also w)
      b.1,
)

pub Backed-append :
    (ok : ℕ → Bool) (xs ys : List TaskCreationRequest)
    → Backed ok xs
    → Backed (λ p. has_ref p xs || ok p) ys
    → Backed ok (xs ++ ys)
Backed-append ok [] ys b c = c
Backed-append ok (x ∷ xs) ys b c = (
  b.0,
  Backed-append (λ p. p == x.ref || ok p) xs ys b.1
      (Backed-Within (λ p. has_ref p (x ∷ xs) || ok p) (λ p. has_ref p xs || (p == x.ref || ok p))
        ys (λ p h. ground arith) c),
)

pub Backed-parts :
    (ok : ℕ → Bool) (xs ys : List TaskCreationRequest)
    → Backed ok (xs ++ ys)
    → Backed ok xs × Backed (λ p. has_ref p xs || ok p) ys
Backed-parts ok [] ys b = (tt, b)
Backed-parts ok (x ∷ xs) ys b =
    let (h, k) = Backed-parts (λ p. p == x.ref || ok p) xs ys b.1 in
    (
      (b.0, h),
      Backed-Within (λ p. has_ref p xs || (p == x.ref || ok p)) (λ p. has_ref p (x ∷ xs) || ok p) ys
          (λ p m. ground arith) k,
    )

no_parent-none : (r : TaskCreationRequest) → is_child r ≡ false → r.parent_ref ≡ none
no_parent-none r h = ground arith

-- Requests without a parent wait for nothing.
Backed-no_parent : (ok : ℕ → Bool) (q : List TaskCreationRequest) → Backed ok (filter no_parent q)
Backed-no_parent ok [] = tt
Backed-no_parent ok (r ∷ rs) = elim (Bool-cases (is_child r)) [
  | inl y ↦ rw y (Backed-no_parent ok rs)
  | inr n ↦
      let none_there = no_parent-none r n in
      rw n (rw none_there refl, Backed-no_parent (λ p. p == r.ref || ok p) rs)
]

Backed-with_parent :
    (ok also : ℕ → Bool) (q : List TaskCreationRequest)
    → Within ok also
    → Within (λ p. has_ref p (filter no_parent q)) also
    → Backed ok q
    → Backed also (filter is_child q)
Backed-with_parent ok also [] w v b = tt
Backed-with_parent ok also (r ∷ rs) w v b = elim (Bool-cases (is_child r)) [
  | inl y ↦
      let below =
        Backed-with_parent (λ p. p == r.ref || ok p) (λ p. p == r.ref || also p) rs
          (Within-or r.ref ok also w) (λ p h. let front = v p (rw y h) in ground arith) b.1 in
      rw y (backed-Within ok also r.parent_ref w b.0, below)
  | inr n ↦
      let both : Within (λ p. p == r.ref || ok p) also = λ p h. elim (Bool-cases (p == r.ref)) [
        | inl e ↦ v p (rw n (rw e refl))
        | inr d ↦ w p (ground arith)
      ] in
      let later : Within (λ p. has_ref p (filter no_parent rs)) also =
        λ p h. v p (rw n (ground arith)) in
      rw n (Backed-with_parent (λ p. p == r.ref || ok p) also rs both later b.1)
]

has_ref_parts :
    (p : ℕ) (q : List TaskCreationRequest)
    → has_ref p (filter no_parent q) || has_ref p (filter is_child q) ≡ has_ref p q
has_ref_parts p [] = refl
has_ref_parts p (r ∷ rs) = let below = has_ref_parts p rs in ground arith

-- A round has the requests of the queue, and none waits for one behind it.
pub has_ref-filter :
    (p : ℕ) (q : List TaskCreationRequest)
    → has_ref p (filter no_parent q ++ filter is_child q) ≡ has_ref p q
has_ref-filter p q = has_ref-append p (filter no_parent q) (filter is_child q) ∙ has_ref_parts p q

pub Backed-filter :
    (ok : ℕ → Bool) (q : List TaskCreationRequest)
    → Backed ok q
    → Backed ok (filter no_parent q ++ filter is_child q)
Backed-filter ok q b =
    Backed-append ok (filter no_parent q) (filter is_child q) (Backed-no_parent ok q) (
      Backed-with_parent ok (λ p. has_ref p (filter no_parent q) || ok p) q (λ p h. ground arith)
        (λ p h. ground arith) b)
