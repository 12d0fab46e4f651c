-- ===== src/Batching/Resumed.antt =====
-- Where an iteration goes on after a run that was cut off.
use fastedgy.Prelude.{
  ◌≡◌, ◌⊎◌, refl, sym, ap, ◌∙◌, ℕ, ◌+◌, ◌%◌, ◌≤◌, ◌<◌, zero, suc, true, false, Option, none, some,
  List, [], ◌∷◌, ◌++◌, ltb, lt→ltb, ◌==◌, ==_iff, length, filter-append, take, filter, All,
  Bool-cases, length-append, inl, inr, append_assoc, append-nil, arith,
}
use mathlib.Core.Path.{subst}
use native.Mathlib.Nat.{suc-mod, mod_self, mod-eq_of_lt}
use fastedgy.Batching.{
  sorted_set, is_after, pending, Progress, Run, process, final_cursor, iterate, iter_with_cursor,
}
use fastedgy.Batching.Ascending.{
  Ascends, Ascends-parts, All-weaken, All-split, filter-all, filter-none, filter-passes,
  filter-Ascends, sorted_set-Ascends, sorted_set-filter,
}

-- Ids behind a cursor are behind a later one just where they are behind it.
later_passes :
    (cursor : Option ℕ) (i x : ℕ)
    → is_after cursor i ≡ true
    → is_after cursor x ≡ false
    → ltb i x ≡ false
later_passes none i x h k = ground arith
later_passes (some c) i x h k = ground arith

later_after :
    (cursor : Option ℕ) (i : ℕ) (xs : List ℕ)
    → is_after cursor i ≡ true
    → filter (is_after (some i)) xs ≡ filter (is_after (some i)) (filter (is_after cursor) xs)
later_after cursor i [] h = refl
later_after cursor i (x ∷ xs) h =
    let below = later_after cursor i xs h in
    elim (Bool-cases (is_after cursor x)) [
      | inl y ↦ rw y (ground (arith, below))
      | inr n ↦ rw n (rw (later_passes cursor i x h n) below)
    ]

-- After a commit of an id, what is behind it is left.
commit_leaves :
    (cursor : Option ℕ) (xs before : List ℕ) (i : ℕ) (after : List ℕ)
    → Ascends xs
    → filter (is_after cursor) xs ≡ before ++ (i ∷ after)
    → filter (is_after (some i)) xs ≡ after
commit_leaves cursor xs before i after a e =
    let sorted = subst Ascends e (filter-Ascends (is_after cursor) xs a) in
    let passes =
      subst (All (λ j. is_after cursor j ≡ true)) e (filter-passes (is_after cursor) xs) in
    let behind = (All-split (λ j. is_after cursor j ≡ true) before (i ∷ after) passes).1.0 in
    let (h, k, l) = Ascends-parts before (i ∷ after) sorted in
    let none_before = filter-none (is_after (some i)) before (
      All-weaken (λ x. All (λ y. x < y) (i ∷ after)) (λ x. ltb i x ≡ false) before
        (λ x q. let less = q.0 in ground arith) h) in
    let all_after =
      filter-all (is_after (some i)) after
        (All-weaken (λ y. i < y) (λ y. ltb i y ≡ true) after (λ y q. lt→ltb i y q) l.0) in
    let itself : ltb i i ≡ false = ground arith in
    later_after cursor i xs behind
    ∙ ap (filter (is_after (some i))) e
    ∙ filter-append (is_after (some i)) before (i ∷ after)
    ∙ rw none_before (rw itself all_after)

-- The remainder of a count that goes on by one.
count_on : (every n k : ℕ) → n % every ≡ k → suc n % every ≡ suc k % every
count_on every n k e = suc-mod n every ∙ ap (λ m. suc m % every) e

module _ (every : ℕ) (xs : List ℕ) where
  -- The ids behind the cursor, of all.
  abbrev left_by : Option ℕ → List ℕ
  left_by cursor = filter (is_after cursor) xs

  -- The last of the ids since the last commit.
  abbrev EndsIn : Option ℕ → List ℕ → Type 0
  EndsIn o ys = (ys ≡ []) ⊎ ((before : List ℕ) × (i : ℕ) × (ys ≡ before ++ i ∷ []) × (o ≡ some i))

  -- The loop, with `ys` processed since the last commit and `rest` to come.
  abbrev Stands : Progress → List ℕ → List ℕ → Type 0
  Stands p ys rest =
      (left_by p.cursor ≡ ys ++ rest)
      × (p.processed % every ≡ length ys)
      × (length ys < every)
      × EndsIn p.last ys

  -- What a run leaves: the ids behind its cursor are left of those before it. It gives at most so many
  -- ids that are left nevertheless, and leaves none if it comes to its end.
  abbrev Leaves : List ℕ → List ℕ → Run → Type 0
  Leaves ys rest r =
      (done : List ℕ) × (ys ++ rest ≡ done ++ left_by r.cursor)
      × (length done ≤ length ys + length r.seen)
      × (length ys + length r.seen ≤ length done + every)
      × (r.finished ≡ true → left_by r.cursor ≡ [])

  step_commits :
      (p : Progress) (ys : List ℕ) (i : ℕ) (rest : List ℕ)
      → Ascends xs
      → Stands p ys (i ∷ rest)
      → suc (length ys) ≡ every
      → Stands (process every i p) [] rest
  unfolding process
  step_commits p ys i rest a (e, c, l, o) h =
      let full : suc p.processed % every ≡ 0 =
        count_on every p.processed (length ys) c ∙ rw h (mod_self every) in
      let test : suc p.processed % every == 0 ≡ true = rw full refl in
      (rw test (commit_leaves p.cursor xs ys i rest a e), full, omega (arith, l), inl refl)

  step_counts :
      (p : Progress) (ys : List ℕ) (i : ℕ) (rest : List ℕ)
      → Stands p ys (i ∷ rest)
      → suc (length ys) < every
      → Stands (process every i p) (ys ++ i ∷ []) rest
  unfolding process
  step_counts p ys i rest (e, c, l, o) h =
      let more : suc p.processed % every ≡ suc (length ys) =
        count_on every p.processed (length ys) c ∙ mod-eq_of_lt h in
      let test : suc p.processed % every == 0 ≡ false = ground (arith, more) in
      let long = length-append ys (i ∷ []) in
      (
        rw test (e ∙ sym (append_assoc ys (i ∷ []) rest)),
        more ∙ omega (arith, long),
        omega (arith, long, h),
        inr (ys, i, refl, refl),
      )

  final_leaves :
      (p : Progress) (o : Option ℕ) (ys : List ℕ)
      → Ascends xs
      → left_by p.cursor ≡ ys ++ []
      → p.processed % every ≡ length ys
      → EndsIn o ys
      → left_by (final_cursor every p o) ≡ []
  final_leaves p none ys a e c (inl n) = e ∙ append-nil ys ∙ n
  final_leaves p none ys a e c (inr (before, i, n, k)) = ground arith
  final_leaves p (some j) ys a e c (inl n) =
      let none_open : p.processed % every == 0 ≡ true = rw c (rw n refl) in
      rw none_open (e ∙ append-nil ys ∙ n)
  final_leaves p (some j) ys a e c (inr (before, i, n, k)) =
      let some_open : p.processed % every == 0 ≡ false =
        ground (arith, c, ap length n, length-append before (i ∷ [])) in
      let here = e ∙ append-nil ys ∙ n in
      let same : j ≡ i = cc in rw some_open (rw same (commit_leaves p.cursor xs before i [] a here))

  iterate-Leaves :
      (n : ℕ) (p : Progress) (ys rest : List ℕ)
      → Ascends xs
      → Stands p ys rest
      → Leaves ys rest (iterate every n p rest)
  unfolding iterate
  iterate-Leaves zero p ys rest a (e, c, l, o) =
      ([], sym e, omega arith, omega (arith, l), λ h. ground arith)
  iterate-Leaves (suc n) p ys [] a (e, c, l, o) =
      let nothing = final_leaves p p.last ys a e c o in
      (ys, rw nothing refl, omega arith, omega (arith, l), λ h. nothing)
  iterate-Leaves (suc zero) p ys (i ∷ rest) a (e, c, l, o) =
      ([], sym e, omega arith, omega (arith, l), λ h. ground arith)
  iterate-Leaves (suc (suc n)) p ys (i ∷ rest) a s =
      let some_every : every == 0 ≡ false = let l = s.2 in ground arith in
      elim (Bool-cases (suc (length ys) == every)) [
        | inl y ↦
            let (done, h, m, k, f) =
              iterate-Leaves (suc n) (process every i p) [] rest a
                (step_commits p ys i rest a s ((==_iff (suc (length ys)) every).0 y)) in
            rw some_every (
              ys ++ (i ∷ done),
              ap (λ zs. ys ++ i ∷ zs) h
                  ∙ sym (
                      append_assoc ys (i ∷ done)
                        (left_by (iterate every (suc n) (process every i p) rest).cursor)),
              omega (arith, m, length-append ys (i ∷ done)),
              omega (arith, k, length-append ys (i ∷ done)),
              f,
            )
        | inr d ↦
            let l = s.2 in
            let (done, h, m, k, f) =
              iterate-Leaves (suc n) (process every i p) (ys ++ i ∷ []) rest a
                (step_counts p ys i rest s (ground arith)) in
            rw some_every (
              done,
              sym (append_assoc ys (i ∷ []) rest) ∙ h,
              omega (arith, m, length-append ys (i ∷ [])),
              omega (arith, k, length-append ys (i ∷ [])),
              f,
            )
      ]

  -- What a run gives out, and whether it ends.
  iterate_seen :
      (n : ℕ) (p : Progress) (rest : List ℕ)
      → 0 < every
      → ((iterate every n p rest).seen ≡ take n rest)
        × ((iterate every n p rest).finished ≡ ltb (length rest) n)
  unfolding iterate
  iterate_seen zero p rest h = (refl, ground arith)
  iterate_seen (suc n) p [] h = (refl, ground arith)
  iterate_seen (suc zero) p (i ∷ rest) h = (refl, ground arith)
  iterate_seen (suc (suc n)) p (i ∷ rest) h =
      let some_every : every == 0 ≡ false = ground arith in
      let (k, l) = iterate_seen (suc n) (process every i p) rest h in
      rw some_every (ap (λ zs. i ∷ zs) k, l ∙ ground arith)

pending-filter :
    (cursor : Option ℕ) (ids : List ℕ)
    → pending cursor ids ≡ filter (is_after cursor) (sorted_set ids)
unfolding pending
pending-filter cursor ids = sorted_set-filter (is_after cursor) ids

-- A run with the cursor in the context and so many ids asked for.
abbrev pub Resumes : ℕ → ℕ → Option ℕ → List ℕ → Run → Type 0
Resumes every n cursor ids r =
    (r.seen ≡ take n (pending cursor ids))
    × ((done : List ℕ) × (pending cursor ids ≡ done ++ pending r.cursor ids)
        × (length done ≤ length r.seen)
        × (length r.seen ≤ length done + every))
    × (length (pending cursor ids) < n → pending r.cursor ids ≡ [])

-- A run gives out the first ids behind the cursor, ascending, as many as it is asked for, wherever it
-- is cut off. Those that the next run has before it are the last of them: the cursor leaves out none
-- that was not given out, and at most `commit_every` ids are given out again. None is left by a run
-- that is asked for more ids than there are. `commit_every` must not be 0.
pub iter_with_cursor-Resumes :
    (every n : ℕ) (cursor : Option ℕ) (ids : List ℕ)
    → 0 < every
    → Resumes every n cursor ids (iter_with_cursor every n cursor ids)
unfolding iter_with_cursor
iter_with_cursor-Resumes every n cursor ids h =
    let xs = sorted_set ids in
    let rest = pending cursor ids in
    let p : Progress = record { cursor = cursor; processed = 0; last = none } in
    let (s, t) = iterate_seen every xs n p rest h in
    let (done, e, m, k, f) =
      iterate-Leaves every xs n p [] rest (sorted_set-Ascends ids)
        (sym (pending-filter cursor ids), mod-eq_of_lt h, h, inl refl) in
    let here = pending-filter (iterate every n p rest).cursor ids in
    (
      s,
      (done, e ∙ ap (λ zs. done ++ zs) (sym here), omega (arith, m), omega (arith, k)),
      λ l. here ∙ f (t ∙ lt→ltb (length rest) n l),
    )
