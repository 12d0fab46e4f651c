-- ===== src/Batching.antt =====
-- fastedgy/queued_task/batching.py: the tasks of ranges of ids, and the iteration of ids with a cursor
-- that is kept in the context of a task. Ids are natural numbers. The other arguments of a task go
-- along unchanged and are left out.
pub mod Ascending
pub mod Covered
pub mod Resumed
pub mod Delivered
mod Examples
use fastedgy.Prelude.{
  ℕ, zero, suc, ◌+◌, ◌%◌, Bool, true, false, Option, none, some, List, [], ◌∷◌, ltb, ◌==◌,
  if◌then◌else◌, not, take, drop, length, filter,
}

-- `sorted(set(ids))`
unfoldable pub insert_id : ℕ → List ℕ → List ℕ
insert_id i [] = i ∷ []
insert_id i (j ∷ js) =
    let rest = insert_id i js in if ltb i j then i ∷ j ∷ js else if i == j then j ∷ js else j ∷ rest

unfoldable pub sorted_set : List ℕ → List ℕ
sorted_set [] = []
sorted_set (i ∷ is) = insert_id i (sorted_set is)

-- The arguments of the task of one chunk.
pub record Range : Type 0 where
  pub min_id : ℕ
  pub max_id : ℕ

-- `chunk[-1]`, behind a first element.
abbrev pub last_of : ℕ → List ℕ → ℕ
last_of i [] = i
last_of i (j ∷ js) = last_of j js

abbrev pub add_task : List ℕ → List Range → List Range
add_task [] tasks = tasks
add_task (i ∷ is) tasks = record { min_id = i; max_id = last_of i is } ∷ tasks

-- The loop over the starts of the chunks, on fuel. What is left is `sorted_ids[start:]`.
unfoldable pub chunk_tasks : ℕ → ℕ → List ℕ → List Range
chunk_tasks zero size left = []
chunk_tasks (suc fuel) size [] = []
chunk_tasks (suc fuel) size (i ∷ is) =
    add_task (take size (i ∷ is)) (chunk_tasks fuel size (drop size (i ∷ is)))

-- The step of a `range` may not be 0.
unfoldable pub enqueue_id_range_tasks : ℕ → List ℕ → Option (List Range)
unfolding chunk_tasks sorted_set
enqueue_id_range_tasks zero ids = none
enqueue_id_range_tasks (suc s) ids =
    some (chunk_tasks (length (sorted_set ids)) (suc s) (sorted_set ids))

abbrev pub is_after : Option ℕ → ℕ → Bool
is_after none i = true
is_after (some c) i = ltb c i

-- The ids that an iteration has before it.
unfoldable pub pending : Option ℕ → List ℕ → List ℕ
pending cursor ids = sorted_set (filter (is_after cursor) ids)

-- What the iteration has behind it: the cursor in the context, the number of ids that are processed
-- and the last of them.
pub record Progress : Type 0 where
  pub cursor : Option ℕ
  pub processed : ℕ
  pub last : Option ℕ

-- A run of the iteration: the ids it gave out, the cursor it leaves and whether it came to its end.
pub record Run : Type 0 where
  pub seen : List ℕ
  pub cursor : Option ℕ
  pub finished : Bool

module _ (commit_every : ℕ) where
  -- Behind the `yield` of an id.
  unfoldable pub process : ℕ → Progress → Progress
  process i p = record {
    cursor = if suc p.processed % commit_every == 0 then some i else p.cursor;
    processed = suc p.processed;
    last = some i;
  }

  -- The commit behind the loop.
  abbrev pub final_cursor : Progress → Option ℕ → Option ℕ
  final_cursor p none = p.cursor
  final_cursor p (some i) = if not (p.processed % commit_every == 0) then some i else p.cursor

  abbrev pub cut_off : Progress → Run
  cut_off p = record { seen = []; cursor = p.cursor; finished = false }

  abbrev pub gives : ℕ → Run → Run
  gives i r = record { seen = i ∷ r.seen; cursor = r.cursor; finished = r.finished }

  -- The loop, for a caller that asks for an id so many times, and is cut off in the work on the last
  -- one it was given. The remainder of a division by 0 raises an error.
  unfoldable pub iterate : ℕ → Progress → List ℕ → Run
  unfolding process
  iterate zero p ids = cut_off p
  iterate (suc n) p [] = record { seen = []; cursor = final_cursor p p.last; finished = true }
  iterate (suc zero) p (i ∷ is) = gives i (cut_off p)
  iterate (suc (suc n)) p (i ∷ is) =
      let rest = iterate (suc n) (process i p) is in
      gives i (if commit_every == 0 then cut_off p else rest)

  -- `iter_with_cursor`, from the cursor in the context, with the number of ids asked for.
  unfoldable pub iter_with_cursor : ℕ → Option ℕ → List ℕ → Run
  unfolding iterate pending
  iter_with_cursor n cursor ids =
      iterate n (record { cursor = cursor; processed = 0; last = none }) (pending cursor ids)

  -- Runs one after the other, each from the cursor that the one before left: what all of them gave
  -- out, and the last cursor.
  unfoldable pub runs : List ℕ → Option ℕ → List ℕ → List Run
  unfolding iter_with_cursor
  runs [] cursor ids = []
  runs (n ∷ ns) cursor ids = let r = iter_with_cursor n cursor ids in r ∷ runs ns r.cursor ids
