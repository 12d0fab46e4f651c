-- ===== src/Batching/Covered.antt =====
-- Which ids the tasks of ranges have before them.
use fastedgy.Prelude.{
  ◌≡◌, refl, sym, ap, ◌∙◌, ℕ, ◌≤◌, ◌<◌, zero, suc, Bool, true, false, ◌&&◌, Option, none, some,
  List, [], ◌∷◌, ◌++◌, leb, le→leb, length, filter-append, take, drop, filter, All, append_assoc,
  append-nil, take-append-drop, length-take-le, length-drop-le, arith,
}
use fastedgy.Prelude.Keys.{member}
use mathlib.Core.Path.{subst}
use fastedgy.Batching.{sorted_set, Range, last_of, chunk_tasks, enqueue_id_range_tasks}
use fastedgy.Batching.Ascending.{
  Ascends, Ascends-parts, All-weaken, filter-all, filter-none, sorted_set-Ascends,
  member-sorted_set,
}

-- The ids that a task finds in its range.
abbrev pub within : List ℕ → Range → List ℕ
within ids r = filter (λ i. leb r.min_id i && leb i r.max_id) ids

-- Those of all tasks, one task behind the other.
abbrev pub within_all : List ℕ → List Range → List ℕ
within_all ids [] = []
within_all ids (r ∷ rs) = within ids r ++ within_all ids rs

All-last_of : (P : ℕ → Type 0) (i : ℕ) (is : List ℕ) → All P (i ∷ is) → P (last_of i is)
All-last_of P i [] a = a.0
All-last_of P i (j ∷ js) a = All-last_of P j js a.1

le-last_of : (i : ℕ) (is : List ℕ) → Ascends (i ∷ is) → All (λ j. j ≤ last_of i is) (i ∷ is)
le-last_of i [] a = (omega arith, tt)
le-last_of i (j ∷ js) a =
    let less = All-last_of (λ k. i < k) j js a.0 in (omega (arith, less), le-last_of j js a.1)

All-between :
    (a b : ℕ) (xs : List ℕ)
    → All (λ j. a ≤ j) xs
    → All (λ j. j ≤ b) xs
    → All (λ j. leb a j && leb j b ≡ true) xs
All-between a b [] h k = tt
All-between a b (x ∷ xs) h k =
    let from_a = le→leb a x h.0 in
    let to_b = le→leb x b k.0 in (rw from_a to_b, All-between a b xs h.1 k.1)

filter-middle :
    (keep : ℕ → Bool) (before middle after : List ℕ)
    → All (λ x. keep x ≡ false) before
    → All (λ x. keep x ≡ true) middle
    → All (λ x. keep x ≡ false) after
    → filter keep (before ++ (middle ++ after)) ≡ middle
filter-middle keep before middle after h k l =
    filter-append keep before (middle ++ after)
    ∙ (rw (filter-none keep before h) (
        filter-append keep middle after
        ∙ rw (filter-all keep middle k) (rw (filter-none keep after l) (append-nil middle))))

-- The range of a part of the ids has just that part in it.
within-part :
    (before : List ℕ) (i : ℕ) (is after : List ℕ)
    → Ascends (before ++ ((i ∷ is) ++ after))
    → within (before ++ ((i ∷ is) ++ after)) (record { min_id = i; max_id = last_of i is }) ≡ i ∷ is
within-part before i is after a =
    let keep : ℕ → Bool = λ j. leb i j && leb j (last_of i is) in
    let (h, k, l) = Ascends-parts before ((i ∷ is) ++ after) a in
    let (m, n, o) = Ascends-parts (i ∷ is) after l in
    let low = All-weaken (λ j. i < j) (λ j. i ≤ j) is (λ j q. omega (arith, q)) n.0 in
    let inside = All-between i (last_of i is) (i ∷ is) (omega arith, low) (le-last_of i is n) in
    filter-middle keep before (i ∷ is) after
      (All-weaken (λ x. All (λ y. x < y) ((i ∷ is) ++ after)) (λ x. keep x ≡ false) before
        (λ x q. let less = q.0 in ground arith) h)
      inside
      (All-weaken (λ y. last_of i is < y) (λ y. keep y ≡ false) after (λ y q. ground arith)
        (All-last_of (λ x. All (λ y. x < y) after) i is m))

-- A task has at least one id and at most so many.
abbrev pub Sized : ℕ → List ℕ → Range → Type 0
Sized size ids r = (1 ≤ length (within ids r)) × (length (within ids r) ≤ size)

abbrev Parts : ℕ → List ℕ → List ℕ → List Range → Type 0
Parts size ids left rs = (within_all ids rs ≡ left) × All (Sized size ids) rs

chunk_tasks-Parts :
    (fuel s : ℕ) (ids before left : List ℕ)
    → ids ≡ before ++ left
    → Ascends ids
    → length left ≤ fuel
    → Parts (suc s) ids left (chunk_tasks fuel (suc s) left)
unfolding chunk_tasks
chunk_tasks-Parts zero s ids before [] e a h = (refl, tt)
chunk_tasks-Parts zero s ids before (i ∷ is) e a h = ground arith
chunk_tasks-Parts (suc fuel) s ids before [] e a h = (refl, tt)
chunk_tasks-Parts (suc fuel) s ids before (i ∷ is) e a h =
    let c = take s is in
    let d = drop s is in
    let apart : i ∷ is ≡ (i ∷ c) ++ d = ap (λ ys. i ∷ ys) (sym (take-append-drop s is)) in
    let cut : ids ≡ before ++ ((i ∷ c) ++ d) = e ∙ ap (λ ys. before ++ ys) apart in
    let fewer = length-drop-le s is in
    let (p, q) =
      chunk_tasks-Parts fuel s ids (before ++ (i ∷ c)) d (cut ∙ sym (append_assoc before (i ∷ c) d))
        a (omega (arith, fewer, h)) in
    let here : within ids (record { min_id = i; max_id = last_of i c }) ≡ i ∷ c =
      ap (λ xs. within xs (record { min_id = i; max_id = last_of i c })) cut
      ∙ within-part before i c d (subst Ascends cut a) in
    let few = length-take-le s is in
    (rw here (rw p (sym apart)), (rw here (omega arith, omega (arith, few)), q))

-- What the call makes: what the tasks have before them, of the ids sorted and each once.
abbrev pub Covers : ℕ → List ℕ → Option (List Range) → Type 0
Covers size ids none = size ≡ 0
Covers size ids (some rs) =
    Ascends (within_all (sorted_set ids) rs)
    × ((k : ℕ) → member k (within_all (sorted_set ids) rs) ≡ member k ids)
    × All (Sized size (sorted_set ids)) rs

-- Unless the chunk size is 0, tasks are made whose ranges, one behind the other, have just the given
-- ids before them, ascending and each once, and each task has at least one id and at most as many
-- as the chunk size.
pub enqueue_id_range_tasks-Covers :
    (size : ℕ) (ids : List ℕ) → Covers size ids (enqueue_id_range_tasks size ids)
unfolding enqueue_id_range_tasks
enqueue_id_range_tasks-Covers zero ids = refl
enqueue_id_range_tasks-Covers (suc s) ids =
    let sorted = sorted_set ids in
    let ascends = sorted_set-Ascends ids in
    let (e, sized) =
      chunk_tasks-Parts (length sorted) s sorted [] sorted refl ascends (omega arith) in
    (rw e ascends, λ k. ap (member k) e ∙ member-sorted_set k ids, sized)
