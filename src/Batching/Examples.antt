-- ===== src/Batching/Examples.antt =====
-- Ids in chunks of two and a run that is cut off, and the theorems at them.
use fastedgy.Prelude.{ℕ, ◌≡◌, refl, none, some, false, List, [], ◌∷◌, ◌++◌, arith}
use fastedgy.Prelude.Keys.{member}
use fastedgy.Batching.{
  insert_id, sorted_set, chunk_tasks, enqueue_id_range_tasks, pending, process, iterate,
  iter_with_cursor, runs,
}
use fastedgy.Batching.Covered.{Covers, enqueue_id_range_tasks-Covers}
use fastedgy.Batching.Resumed.{Resumes, iter_with_cursor-Resumes}
use fastedgy.Batching.Delivered.{seen_all, runs-Delivered}

abbrev ids : List ℕ
ids = 7 ∷ 3 ∷ 5 ∷ 3 ∷ 9 ∷ 4 ∷ []

makes_tasks :
    enqueue_id_range_tasks 2 ids
    ≡ some (
        record { min_id = 3; max_id = 4 }
        ∷ record { min_id = 5; max_id = 7 }
        ∷ record { min_id = 9; max_id = 9 }
        ∷ [])
unfolding enqueue_id_range_tasks chunk_tasks sorted_set insert_id
makes_tasks = refl

-- The work on 5 fails, which is the third id.
keeps_cursor :
    iter_with_cursor 2 3 none ids
    ≡ record { seen = 3 ∷ 4 ∷ 5 ∷ []; cursor = some 4; finished = false }
unfolding iter_with_cursor iterate process pending sorted_set insert_id
keeps_cursor = refl

goes_on : seen_all (runs 2 (3 ∷ 10 ∷ []) none ids) ≡ 3 ∷ 4 ∷ 5 ∷ 5 ∷ 7 ∷ 9 ∷ []
unfolding runs iter_with_cursor iterate process pending sorted_set insert_id
goes_on = refl

enqueue_id_range_tasks-Covers_example : Covers 2 ids (enqueue_id_range_tasks 2 ids)
enqueue_id_range_tasks-Covers_example = enqueue_id_range_tasks-Covers 2 ids

iter_with_cursor-Resumes_example : Resumes 2 3 (some 3) ids (iter_with_cursor 2 3 (some 3) ids)
iter_with_cursor-Resumes_example = iter_with_cursor-Resumes 2 3 (some 3) ids (omega arith)

runs-Delivered_example :
    member 5 (seen_all (runs 2 ((3 ∷ 0 ∷ []) ++ 10 ∷ []) none ids)) ≡ member 5 (pending none ids)
runs-Delivered_example = runs-Delivered 2 (3 ∷ 0 ∷ []) 10 none ids (omega arith) (omega arith) 5
