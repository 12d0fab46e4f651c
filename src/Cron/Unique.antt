-- ===== src/Cron/Unique.antt =====
-- How many open rows a scheduled task has.
use fastedgy.Prelude.{
  ◌≡◌, refl, sym, ap, ◌∙◌, ℕ, ◌+◌, ◌≤◌, Bool, true, false, ◌&&◌, Option, none, some, String, List,
  [], ◌∷◌, ◌++◌, map, filter, filter-append, length, length-append, if◌then◌else◌, Bool-cases, inl,
  inr, arith,
}
use fastedgy.QueuedTask.{QueuedTask, is_active, is_enqueued, save}
use fastedgy.Queue.{set_claimed}
use fastedgy.QueueWorker.Steps.{RowStep, apply, resumes, apply-is_active, apply-name}
use fastedgy.TaskService.{Insert, inserted, parent_gone, broken, build_task, create_task}
use fastedgy.Cron.{
  ScheduledTaskDef, is_active_of, has_active, new_task_of, Attempt, faults, locks, run_attempt,
  or_again, create_task_if_not_exists,
}
use text.Mathlib.Text.{◌==◌ as str_eq}
use text.Mathlib.TextEquality.{eq_iff}

abbrev pub count_active : String → List QueuedTask → ℕ
count_active name rows = length (filter (is_active_of name) rows)

-- A row that becomes active of a name was so before.
abbrev KeepsInactive : String → (QueuedTask → QueuedTask) → Type 0
KeepsInactive name f =
    (t : QueuedTask) → is_active_of name (f t) ≡ true → is_active_of name t ≡ true

is_active_of_later :
    (name : String) (t u : QueuedTask)
    → t.name ≡ u.name
    → (is_active t.state ≡ true → is_active u.state ≡ true)
    → is_active_of name t ≡ true
    → is_active_of name u ≡ true
unfolding is_active_of
is_active_of_later name t u e f h = ground arith

step-KeepsInactive :
    (name : String) (s : RowStep) (picks : QueuedTask → Bool)
    → resumes s ≡ false
    → KeepsInactive name (λ t. if picks t then apply s t else t)
step-KeepsInactive name s picks h t k =
    let later = is_active_of_later name (apply s t) t (apply-name s t) (apply-is_active s t h) in
    ground arith

map-count_active :
    (name : String) (f : QueuedTask → QueuedTask) (rows : List QueuedTask)
    → KeepsInactive name f
    → count_active name (map f rows) ≤ count_active name rows
map-count_active name f [] h = omega arith
map-count_active name f (t ∷ ts) h =
    let below = map-count_active name f ts h in let here = h t in ground arith

filter-count_active :
    (name : String) (keep : QueuedTask → Bool) (rows : List QueuedTask)
    → count_active name (filter keep rows) ≤ count_active name rows
filter-count_active name keep [] = omega arith
filter-count_active name keep (t ∷ ts) =
    let below = filter-count_active name keep ts in ground arith

snoc-count_active :
    (name : String) (t : QueuedTask) (rows : List QueuedTask)
    → count_active name (rows ++ t ∷ [])
      ≡ count_active name rows + (if is_active_of name t then 1 else 0)
snoc-count_active name t rows =
    let long =
      length-append (filter (is_active_of name) rows) (filter (is_active_of name) (t ∷ [])) in
    let parts = filter-append (is_active_of name) rows (t ∷ []) in
    let e = ap length parts ∙ long in ground arith

has_active-count_active :
    (name : String) (rows : List QueuedTask)
    → has_active name rows ≡ false
    → count_active name rows ≡ 0
unfolding has_active
has_active-count_active name [] h = refl
has_active-count_active name (t ∷ ts) h =
    let below = has_active-count_active name ts in ground arith

-- The row of a scheduled task has its name.
new_row-name :
    (id now : ℕ) (d : ScheduledTaskDef)
    → str_eq d.name "" ≡ false
    → (save now (build_task id now none (new_task_of d))).name ≡ some d.name
unfolding save build_task
new_row-name id now d h = ground arith

is_active_of_same :
    (name other : String) (t : QueuedTask)
    → t.name ≡ some other
    → is_active_of name t ≡ true
    → other ≡ name
unfolding is_active_of
is_active_of_same name other t e h = let same = eq_iff other name in ground arith

-- What create_task makes for a scheduled task.
pub create_task-snoc :
    (i : Insert) (now : ℕ) (d : ScheduledTaskDef) (rows new : List QueuedTask)
    → create_task i i now (new_task_of d) rows ≡ some new
    → (id : ℕ) × (new ≡ rows ++ save now (build_task id now none (new_task_of d)) ∷ [])
unfolding create_task
create_task-snoc (inserted id) now d rows new e = (id, ground arith)
create_task-snoc parent_gone now d rows new e = ground arith
create_task-snoc broken now d rows new e = ground arith

attempted-count_active :
    (name : String) (b : Bool) (i : Insert) (now : ℕ) (d : ScheduledTaskDef)
    (rows new : List QueuedTask)
    → str_eq d.name "" ≡ false
    → has_active d.name rows ≡ b
    → (if b then some rows else create_task i i now (new_task_of d) rows) ≡ some new
    → count_active name rows ≤ 1
    → count_active name new ≤ 1
attempted-count_active name true i now d rows new h y e c = ground arith
attempted-count_active name false i now d rows new h y e c =
    let (id, f) = create_task-snoc i now d rows new e in
    let row = save now (build_task id now none (new_task_of d)) in
    let longer = snoc-count_active name row rows in
    let absent = has_active-count_active d.name rows y in
    let named = new_row-name id now d h in
    rw f (elim (Bool-cases (is_active_of name row)) [
      | inl z ↦
          let same = is_active_of_same name d.name row named z in
          let zero_before = ap (λ n. count_active n rows) (sym same) ∙ absent in
          ground (arith, longer)
      | inr n ↦ ground (arith, longer)
    ])

run_attempt-count_active :
    (name : String) (a : Attempt) (now : ℕ) (d : ScheduledTaskDef) (rows new : List QueuedTask)
    → str_eq d.name "" ≡ false
    → run_attempt a now d rows ≡ some new
    → count_active name rows ≤ 1
    → count_active name new ≤ 1
run_attempt-count_active name faults now d rows new h e c = ground arith
run_attempt-count_active name (locks i) now d rows new h e c =
    attempted-count_active name (has_active d.name rows) i now d rows new h refl e c

again-count_active :
    (name : String) (o p : Option (List QueuedTask)) (rows : List QueuedTask)
    → ((new : List QueuedTask) → o ≡ some new → count_active name new ≤ 1)
    → ((new : List QueuedTask) → p ≡ some new → count_active name new ≤ 1)
    → count_active name rows ≤ 1
    → count_active name (or_again o p rows) ≤ 1
again-count_active name (some new) p rows h k c = h new refl
again-count_active name none (some new) rows h k c = k new refl
again-count_active name none none rows h k c = c

create-count_active :
    (name : String) (a b : Attempt) (now : ℕ) (d : ScheduledTaskDef) (rows : List QueuedTask)
    → str_eq d.name "" ≡ false
    → count_active name rows ≤ 1
    → count_active name (create_task_if_not_exists a b now d rows) ≤ 1
unfolding create_task_if_not_exists
create-count_active name a b now d rows h c =
    again-count_active name (run_attempt a now d rows) (run_attempt b now d rows) rows
      (λ new e. run_attempt-count_active name a now d rows new h e c)
      (λ new e. run_attempt-count_active name b now d rows new h e c) c

-- The writes on the table: a fire of any scheduler, a claim of waiting rows, a statement of the manager
-- or of a worker on rows it picks, a deletion, and a row that is made elsewhere, for no scheduled
-- task.
pub data Write (scheduled : String → Bool) : List QueuedTask → List QueuedTask → Type 0 where
  fires :
      {rows : List QueuedTask} (a b : Attempt) (now : ℕ) (d : ScheduledTaskDef)
      → str_eq d.name "" ≡ false
      → Write scheduled rows (create_task_if_not_exists a b now d rows)
  claims :
      {rows : List QueuedTask} (server : String) (now : ℕ) (picks : QueuedTask → Bool)
      → Write scheduled rows
          (map (λ t. if picks t && is_enqueued t.state then set_claimed server now t else t) rows)
  applies :
      {rows : List QueuedTask} (s : RowStep) (picks : QueuedTask → Bool)
      → resumes s ≡ false
      → Write scheduled rows (map (λ t. if picks t then apply s t else t) rows)
  deletes :
      {rows : List QueuedTask} (keep : QueuedTask → Bool) → Write scheduled rows (filter keep rows)
  inserts :
      {rows : List QueuedTask} (t : QueuedTask)
      → ((name : String) → scheduled name ≡ true → is_active_of name t ≡ false)
      → Write scheduled rows (rows ++ t ∷ [])

pub data Reach (scheduled : String → Bool) : List QueuedTask → Type 0 where
  nothing_yet : Reach scheduled []
  then_writes :
      {rows new : List QueuedTask}
      → Write scheduled rows new
      → Reach scheduled rows
      → Reach scheduled new

claim-KeepsInactive :
    (name server : String) (now : ℕ) (picks : QueuedTask → Bool)
    → KeepsInactive name
        (λ t. if picks t && is_enqueued t.state then set_claimed server now t else t)
unfolding is_active_of is_active
claim-KeepsInactive name server now picks t h = ground arith

Write-count_active :
    (scheduled : String → Bool) (name : String) (rows new : List QueuedTask)
    → scheduled name ≡ true
    → Write scheduled rows new
    → count_active name rows ≤ 1
    → count_active name new ≤ 1
Write-count_active scheduled name rows new h (fires a b now d n) c =
    create-count_active name a b now d rows n c
Write-count_active scheduled name rows new h (claims server now picks) c =
    let fewer =
      map-count_active name
        (λ t. if picks t && is_enqueued t.state then set_claimed server now t else t) rows
        (claim-KeepsInactive name server now picks) in
    omega (arith, fewer, c)
Write-count_active scheduled name rows new h (applies s picks n) c =
    let fewer =
      map-count_active name (λ t. if picks t then apply s t else t) rows
        (step-KeepsInactive name s picks n) in
    omega (arith, fewer, c)
Write-count_active scheduled name rows new h (deletes keep) c =
    omega (arith, filter-count_active name keep rows, c)
Write-count_active scheduled name rows new h (inserts t k) c =
    let other = k name h in let longer = snoc-count_active name t rows in ground arith

-- However schedulers fire, with whatever faults, between the writes of the queue: a scheduled task has
-- at most one row that is enqueued, waiting or running. This leaves out the resumption of a stopped
-- task, and names that are empty.
pub Reach-count_active :
    (scheduled : String → Bool) (name : String) (rows : List QueuedTask)
    → scheduled name ≡ true
    → Reach scheduled rows
    → count_active name rows ≤ 1
Reach-count_active scheduled name rows h nothing_yet = omega arith
Reach-count_active scheduled name rows h (then_writes {rows = before} w r) =
    Write-count_active scheduled name before rows h w (Reach-count_active scheduled name before h r)
