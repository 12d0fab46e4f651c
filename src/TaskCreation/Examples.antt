-- ===== src/TaskCreation/Examples.antt =====
-- A task with a child, one that is added while the first row is made, and the theorems at them.
use fastedgy.Prelude.{ℕ, ◌≤◌, ◌≡◌, refl, none, some, Option, List, [], ◌∷◌, arith}
use fastedgy.TaskCreation.{
  identified, failed, QueuedTasks, new_service, add_task, settle_ref, next_round, tick, Reach,
  fresh, adds, ticks, run_ticks,
}
use fastedgy.TaskCreation.Covered.{steps}
use fastedgy.TaskCreation.Settled.{AllSettled, Reach-AllSettled}
use fastedgy.TaskCreation.Linked.{IsLinked, Reach-IsLinked}

-- A child is asked for before its parent's row is made, and one more in the middle of the work.
abbrev asked : QueuedTasks
asked = add_task (some 0) (add_task none new_service)

abbrev busy : QueuedTasks
busy = add_task (some 1) (tick (some 7) (tick none asked))

asked-Reach : Reach asked
unfolding add_task
asked-Reach = adds (some 0) (omega arith) (adds none tt fresh)

busy-Reach : Reach busy
unfolding tick add_task
busy-Reach = adds (some 1) (omega arith) (ticks (some 7) (ticks none asked-Reach))

abbrev outcomes : List (Option ℕ)
outcomes = some 8 ∷ none ∷ some 9 ∷ none ∷ []

makes_rows : (run_ticks outcomes busy).refs 2 ≡ identified 9
unfolding run_ticks tick settle_ref next_round add_task
makes_rows = refl

steps-busy : steps busy ≤ 4
unfolding tick settle_ref next_round add_task
steps-busy = omega arith

-- The row of the parent cannot be made, and so its child has an error as well.
fails_child : (run_ticks (none ∷ none ∷ some 8 ∷ []) asked).refs 1 ≡ failed
unfolding run_ticks tick settle_ref next_round add_task
fails_child = refl

Reach-AllSettled_example : AllSettled (run_ticks outcomes busy)
Reach-AllSettled_example = Reach-AllSettled busy outcomes busy-Reach steps-busy

Reach-IsLinked_example : IsLinked (tick (some 8) busy).log
Reach-IsLinked_example = Reach-IsLinked (tick (some 8) busy) (ticks (some 8) busy-Reach)
