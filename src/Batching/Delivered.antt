-- ===== src/Batching/Delivered.antt =====
-- What several runs of an iteration give out, the later ones behind what the former ones left.
use fastedgy.Prelude.{
  ◌≡◌, sym, ap, ◌∙◌, ℕ, ◌≤◌, ◌<◌, zero, suc, true, ◌||◌, Option, List, [], ◌∷◌, ◌++◌, length, take,
  filter, length-filter-le, length-take-le, arith,
}
use fastedgy.Prelude.Keys.{member, member-append}
use fastedgy.Batching.{is_after, pending, Run, iter_with_cursor, runs}
use fastedgy.Batching.Ascending.{length-sorted_set-le}
use fastedgy.Batching.Resumed.{Resumes, iter_with_cursor-Resumes}

abbrev pub seen_all : List Run → List ℕ
seen_all [] = []
seen_all (r ∷ rs) = r.seen ++ seen_all rs

member-take : (k n : ℕ) (xs : List ℕ) → member k (take n xs) ≡ true → member k xs ≡ true
unfolding member
member-take k zero xs h = ground arith
member-take k (suc n) [] h = ground arith
member-take k (suc n) (x ∷ xs) h = let below = member-take k n xs in ground arith

-- What stands in a list stands in its first elements or behind fewer of them.
member-prefix :
    (k n : ℕ) (done behind : List ℕ)
    → length done ≤ n
    → member k (done ++ behind) ≡ member k (take n (done ++ behind)) || member k behind
unfolding member
member-prefix k n [] behind h = let below = member-take k n behind in ground arith
member-prefix k zero (x ∷ xs) behind h = ground arith
member-prefix k (suc n) (x ∷ xs) behind h =
    let below = member-prefix k n xs behind (omega (arith, h)) in ground arith

run_members :
    (every n k : ℕ) (cursor : Option ℕ) (ids : List ℕ) (r : Run)
    → Resumes every n cursor ids r
    → member k (pending cursor ids) ≡ member k r.seen || member k (pending r.cursor ids)
run_members every n k cursor ids r (s, (done, e, m, l), f) =
    let few = length-take-le n (pending cursor ids) in
    let short = ap length s in
    let at_most = member-prefix k n done (pending r.cursor ids) (omega (arith, m, few, short)) in
    rw s (rw e at_most)

length-pending-le : (cursor : Option ℕ) (ids : List ℕ) → length (pending cursor ids) ≤ length ids
unfolding pending
length-pending-le cursor ids = omega (
  arith,
  length-sorted_set-le (filter (is_after cursor) ids),
  length-filter-le (is_after cursor) ids,
)

-- After any number of runs that are cut off anywhere, and one that is asked for more ids than there
-- are, just the ids behind the first cursor have been given out. `commit_every` must not be 0.
pub runs-Delivered :
    (every : ℕ) (cuts : List ℕ) (n : ℕ) (cursor : Option ℕ) (ids : List ℕ)
    → 0 < every
    → length ids < n
    → (k : ℕ)
    → member k (seen_all (runs every (cuts ++ n ∷ []) cursor ids)) ≡ member k (pending cursor ids)
unfolding runs
runs-Delivered every [] n cursor ids h l k =
    let r = iter_with_cursor every n cursor ids in
    let resumes = iter_with_cursor-Resumes every n cursor ids h in
    let none_left = resumes.2 (omega (arith, l, length-pending-le cursor ids)) in
    member-append k r.seen []
    ∙ (ap (λ zs. member k r.seen || member k zs) (sym none_left)
        ∙ sym (run_members every n k cursor ids r resumes))
runs-Delivered every (m ∷ ms) n cursor ids h l k =
    let r = iter_with_cursor every m cursor ids in
    let below = runs-Delivered every ms n r.cursor ids h l k in
    member-append k r.seen (seen_all (runs every (ms ++ n ∷ []) r.cursor ids))
    ∙ ap (λ b. member k r.seen || b) below
    ∙ sym (run_members every m k cursor ids r (iter_with_cursor-Resumes every m cursor ids h))
