-- ===== src/Cron/Due.antt =====
-- A scheduled task whose minute has come is open after it.
use fastedgy.Prelude.{
  ◌+◌, ◌-◌, ◌==◌, ◌≡◌, refl, ◌∙◌, ℕ, Bool, true, false, ◌||◌, Option, none, some, String, List, [],
  ◌∷◌, ◌++◌, if◌then◌else◌, Bool-cases, inl, inr, ◌⊎◌, arith,
}
use fastedgy.Prelude.Dict.{has_name, lookup}
use mathlib.Core.List.{Memᴰ}
use mathlib.Core.Path.{subst}
use fastedgy.QueuedTask.{QueuedTask, is_active, is_truthy, save}
use fastedgy.TaskService.{Insert, inserted, parent_gone, broken, build_task, create_task}
use fastedgy.Cron.{
  ScheduledTaskDef, Settings, Tasks, is_active_of, has_active, new_task_of, Attempt, faults, locks,
  resolve_enabled, is_task_enabled, run_attempt, or_again, create_task_if_not_exists, fires_at,
  run_minute, cron_matches,
}
use fastedgy.Cron.Unique.{create_task-snoc}
use text.Mathlib.Text.{◌==◌ as str_eq}
use text.Mathlib.TextPositions.{eq_refl}

-- An attempt that is not stopped by the database.
abbrev Commits : Attempt → Type 0
Commits faults = ⊥
Commits (locks (inserted id)) = Unit
Commits (locks _) = ⊥

-- One of the two attempts goes through, after a fault at most.
abbrev pub Served : Attempt × Attempt → Type 0
Served (a, b) = Commits a ⊎ ((a ≡ faults) × Commits b)

-- A definition as the decorator makes it: of a function, and with a name.
abbrev pub IsNamed : ScheduledTaskDef → Type 0
IsNamed d =
    (str_eq d.name "" ≡ false)
    × (is_truthy (some d.module_name) ≡ true)
    × (is_truthy (some d.function_name) ≡ true)

-- The settings let the task run: the names that are disabled come first, then those enabled.
abbrev pub IsEnabled : Settings → ScheduledTaskDef → Type 0
IsEnabled s d =
    (has_name d.name s.disabled_scheduled_tasks ≡ false)
    × ((has_name d.name s.enabled_scheduled_tasks ≡ true)
        ⊎ ((has_name "all" s.disabled_scheduled_tasks ≡ false)
            × (has_name "*" s.disabled_scheduled_tasks ≡ false)
            × (d.enabled ≡ true)))

enabled-resolves :
    (s : Settings) (d : ScheduledTaskDef) → IsEnabled s d → resolve_enabled s d ≡ true
enabled-resolves s d (n, inl e) = rw n (rw e refl)
enabled-resolves s d (n, inr (a, b, e)) = ground arith

has_active-append :
    (name : String) (xs ys : List QueuedTask)
    → has_active name (xs ++ ys) ≡ has_active name xs || has_active name ys
unfolding has_active
has_active-append name [] ys = refl
has_active-append name (x ∷ xs) ys = let below = has_active-append name xs ys in ground arith

new_row-is_active :
    (id now : ℕ) (d : ScheduledTaskDef)
    → IsNamed d
    → is_active_of d.name (save now (build_task id now none (new_task_of d))) ≡ true
unfolding save build_task is_active_of is_active
new_row-is_active id now d (n, m, f) = let same = eq_refl d.name in ground arith

has_active-row :
    (name : String) (t : QueuedTask) → is_active_of name t ≡ true → has_active name (t ∷ []) ≡ true
unfolding has_active
has_active-row name t h = rw h refl

create_task-inserted :
    (id now : ℕ) (d : ScheduledTaskDef) (rows : List QueuedTask)
    → IsNamed d
    → create_task (inserted id) (inserted id) now (new_task_of d) rows
      ≡ some (rows ++ save now (build_task id now none (new_task_of d)) ∷ [])
unfolding create_task
create_task-inserted id now d rows (n, m, f) = rw m (rw f refl)

-- A transaction that goes through leaves an open row.
commit-has_active :
    (a : Attempt) (now : ℕ) (d : ScheduledTaskDef) (rows : List QueuedTask)
    → IsNamed d
    → Commits a
    → (new : List QueuedTask) × (run_attempt a now d rows ≡ some new)
      × (has_active d.name new ≡ true)
commit-has_active faults now d rows n c = elim c [ ]
commit-has_active (locks parent_gone) now d rows n c = elim c [ ]
commit-has_active (locks broken) now d rows n c = elim c [ ]
commit-has_active (locks (inserted id)) now d rows n c =
    let row = save now (build_task id now none (new_task_of d)) in
    elim (Bool-cases (has_active d.name rows)) [
      | inl y ↦ (rows, rw y refl, y)
      | inr m ↦ (
        rows ++ row ∷ [],
        rw m (create_task-inserted id now d rows n),
        has_active-append d.name rows (row ∷ [])
            ∙ rw m (has_active-row d.name row (new_row-is_active id now d n)),
      )
    ]

serve-has_active :
    (a b : Attempt) (now : ℕ) (d : ScheduledTaskDef) (rows : List QueuedTask)
    → IsNamed d
    → Served (a, b)
    → has_active d.name (create_task_if_not_exists a b now d rows) ≡ true
unfolding create_task_if_not_exists
serve-has_active a b now d rows n (inl c) =
    let (new, e, h) = commit-has_active a now d rows n c in rw e h
serve-has_active a b now d rows n (inr (f, c)) =
    let (new, e, h) = commit-has_active b now d rows n c in rw f (rw e h)

-- An open row stays while other tasks fire.
attempted-keeps :
    (name : String) (b : Bool) (i : Insert) (now : ℕ) (d : ScheduledTaskDef)
    (rows new : List QueuedTask)
    → (if b then some rows else create_task i i now (new_task_of d) rows) ≡ some new
    → has_active name rows ≡ true
    → has_active name new ≡ true
attempted-keeps name true i now d rows new e h = ground arith
attempted-keeps name false i now d rows new e h =
    let (id, f) = create_task-snoc i now d rows new e in
    let row = save now (build_task id now none (new_task_of d)) in
    rw f (has_active-append name rows (row ∷ []) ∙ rw h refl)

attempt-keeps :
    (name : String) (a : Attempt) (now : ℕ) (d : ScheduledTaskDef) (rows new : List QueuedTask)
    → run_attempt a now d rows ≡ some new
    → has_active name rows ≡ true
    → has_active name new ≡ true
attempt-keeps name faults now d rows new e h = ground arith
attempt-keeps name (locks i) now d rows new e h =
    attempted-keeps name (has_active d.name rows) i now d rows new e h

again-keeps :
    (name : String) (o p : Option (List QueuedTask)) (rows : List QueuedTask)
    → ((new : List QueuedTask) → o ≡ some new → has_active name new ≡ true)
    → ((new : List QueuedTask) → p ≡ some new → has_active name new ≡ true)
    → has_active name rows ≡ true
    → has_active name (or_again o p rows) ≡ true
again-keeps name (some new) p rows h k c = h new refl
again-keeps name none (some new) rows h k c = k new refl
again-keeps name none none rows h k c = c

create-keeps :
    (name : String) (a b : Attempt) (now : ℕ) (d : ScheduledTaskDef) (rows : List QueuedTask)
    → has_active name rows ≡ true
    → has_active name (create_task_if_not_exists a b now d rows) ≡ true
unfolding create_task_if_not_exists
create-keeps name a b now d rows h =
    again-keeps name (run_attempt a now d rows) (run_attempt b now d rows) rows
      (λ new e. attempt-keeps name a now d rows new e h)
      (λ new e. attempt-keeps name b now d rows new e h) h

module _ (next_fire : String → ℕ → Option ℕ) (s : Settings) (tasks : Tasks)
    (attempts : String → Attempt × Attempt) (minute now : ℕ) where
  run_minute-keeps :
      (name : String) (rest : Tasks) (rows : List QueuedTask)
      → has_active name rows ≡ true
      → has_active name (run_minute next_fire s tasks attempts minute now rest rows) ≡ true
  unfolding run_minute
  run_minute-keeps name [] rows h = h
  run_minute-keeps name ((key, d) ∷ rest) rows h =
      let (a, b) = attempts key in
      elim (Bool-cases (fires_at next_fire s tasks minute key d)) [
        | inl y ↦ rw y (run_minute-keeps name rest _ (create-keeps name a b now d rows h))
        | inr n ↦ rw n (run_minute-keeps name rest rows h)
      ]

  fires-has_active :
      (key : String) (d : ScheduledTaskDef) (rest : Tasks) (rows : List QueuedTask)
      → Memᴰ (key, d) rest
      → fires_at next_fire s tasks minute key d ≡ true
      → IsNamed d
      → Served (attempts key)
      → has_active d.name (run_minute next_fire s tasks attempts minute now rest rows) ≡ true
  unfolding run_minute
  fires-has_active key d [] rows m f n v = elim m [ ]
  fires-has_active key d ((other, c) ∷ rest) rows (Memᴰ.head e) f n v =
      subst
        (λ p.
          has_active d.name (
            run_minute next_fire s tasks attempts minute now rest (
              if fires_at next_fire s tasks minute p.0 p.1
              then create_task_if_not_exists (attempts p.0).0 (attempts p.0).1 now p.1 rows
              else rows))
          ≡ true)
        e
        (rw f (
          run_minute-keeps d.name rest _
            (serve-has_active (attempts key).0 (attempts key).1 now d rows n v)))
  fires-has_active key d ((other, c) ∷ rest) rows (Memᴰ.tail m) f n v =
      fires-has_active key d rest _ m f n v

  matched :
      (o : Option ℕ) (at : ℕ)
      → o ≡ some at
      → elim o [ none ↦ false | some fire ↦ fire == at ] ≡ true
  matched none at e = ground arith
  matched (some fire) at e = ground arith

  matches :
      (at before : ℕ) (expr : String)
      → at ≡ before + 1
      → next_fire expr before ≡ some at
      → cron_matches next_fire s tasks expr at ≡ true
  matches at before expr m f =
      let earlier : before ≡ at - 1 = omega arith in
      matched (next_fire expr (at - 1)) at (subst (λ b. next_fire expr b ≡ some at) earlier f)

  matches-fires :
      (key expr : String) (d : ScheduledTaskDef) (before : ℕ)
      → lookup key tasks ≡ some d
      → IsEnabled s d
      → d.cron ≡ some expr
      → str_eq expr "" ≡ false
      → minute ≡ before + 1
      → next_fire expr before ≡ some minute
      → fires_at next_fire s tasks minute key d ≡ true
  unfolding fires_at is_task_enabled
  matches-fires key expr d before l e c q m f = rw c (
      rw q (rw (is_task_enabled, l) (rw (enabled-resolves s d e) (matches minute before expr m f))))

  -- After the round of a minute, a task of the registry has an open row under these conditions: the
  -- settings do not disable it; from the minute before on, the first minute that its expression
  -- matches is this one; its first attempt goes through, or the second after a fault of the first.
  -- Its definition has a name and is that of a function, and the expression is not empty.
  pub run_minute-has_active :
      (key expr : String) (d : ScheduledTaskDef) (before : ℕ) (rest : Tasks)
      (rows : List QueuedTask)
      → Memᴰ (key, d) rest
      → lookup key tasks ≡ some d
      → IsEnabled s d
      → d.cron ≡ some expr
      → str_eq expr "" ≡ false
      → minute ≡ before + 1
      → next_fire expr before ≡ some minute
      → IsNamed d
      → Served (attempts key)
      → has_active d.name (run_minute next_fire s tasks attempts minute now rest rows) ≡ true
  run_minute-has_active key expr d before rest rows m l e c q b f n v =
      fires-has_active key d rest rows m (matches-fires key expr d before l e c q b f) n v
