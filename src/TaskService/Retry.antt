-- ===== src/TaskService/Retry.antt =====
-- The task that a retry gives.
use fastedgy.Prelude.{
  ◌≡◌, ◌≢◌, refl, ℕ, true, false, Option, none, some, List, [], ◌∷◌, ◌++◌, Bool-cases, inl, inr,
  ◌⊎◌, arith,
}
use fastedgy.QueuedTask.{
  QueuedTask, QueuedTaskState, enqueued, doing, stopped, is_enqueued, is_doing, save,
}
use fastedgy.Queue.{is_stopped, update_id, is_ready, contains}
use fastedgy.TaskService.{
  build_task, get_task_by_id, reset_stopped, clone_task, Retried, not_found, refused, unsaved,
  retried, save_stopped, save_clone, retry_found, retry_task,
}

-- The work of a task, in the queue as if it had never run.
pub record IsFresh (now : ℕ) (t r : QueuedTask) : Type 0 where
  pub waits : r.state ≡ enqueued
  pub unowned : r.claimed_by ≡ none
  pub unstarted : r.date_started ≡ none
  pub no_error : r.exception_message ≡ none
  pub fresh_budget : r.retry_count ≡ 0
  pub not_resumed : r.resume_requested ≡ false
  pub same_budget : r.max_retries ≡ t.max_retries
  pub same_module : r.module_name ≡ t.module_name
  pub same_function : r.function_name ≡ t.function_name
  pub same_blob : r.serialized_function ≡ t.serialized_function
  pub same_args : r.args ≡ t.args
  pub same_kwargs : r.kwargs ≡ t.kwargs
  pub same_parent : r.parent_task ≡ t.parent_task
  pub is_claimable : (rows : List QueuedTask) → t.parent_task ≡ none → is_ready now [] rows r ≡ true

reset_stopped-IsFresh : (now : ℕ) (t : QueuedTask) → IsFresh now t (save now (reset_stopped now t))
unfolding reset_stopped save is_ready contains
reset_stopped-IsFresh now t = record {
  waits = refl;
  unowned = refl;
  unstarted = refl;
  no_error = refl;
  fresh_budget = refl;
  not_resumed = refl;
  same_budget = refl;
  same_module = refl;
  same_function = refl;
  same_blob = refl;
  same_args = refl;
  same_kwargs = refl;
  same_parent = refl;
  is_claimable = λ rows h. rw h (ground arith);
}

clone_task-IsFresh : (id now : ℕ) (t : QueuedTask) → IsFresh now t (save now (clone_task id now t))
unfolding clone_task build_task save is_ready contains
clone_task-IsFresh id now t = record {
  waits = refl;
  unowned = refl;
  unstarted = refl;
  no_error = refl;
  fresh_budget = refl;
  not_resumed = refl;
  same_budget = refl;
  same_module = refl;
  same_function = refl;
  same_blob = refl;
  same_args = refl;
  same_kwargs = refl;
  same_parent = refl;
  is_claimable = λ rows h. rw h (ground arith);
}

-- What a retry of a task comes to, and what becomes of the table.
abbrev pub Retries : ℕ → ℕ → List QueuedTask → Retried → List QueuedTask → Type 0
Retries now id rows not_found new = (new ≡ rows) × (get_task_by_id id rows ≡ none)
Retries now id rows refused new =
    (new ≡ rows)
    × ((t : QueuedTask) × (get_task_by_id id rows ≡ some t)
        × ((t.state ≡ enqueued) ⊎ (t.state ≡ doing)))
Retries now id rows unsaved new = new ≡ rows
Retries now id rows (retried r) new =
    (t : QueuedTask) × (get_task_by_id id rows ≡ some t)
    × IsFresh now t r
    × (((t.state ≡ stopped) × (new ≡ update_id t.id (λ u. r) rows))
        ⊎ ((t.state ≢ stopped) × (new ≡ rows ++ r ∷ [])))

stopped-Retries :
    (o : Option ℕ) (now id : ℕ) (t : QueuedTask) (rows : List QueuedTask)
    → get_task_by_id id rows ≡ some t
    → t.state ≡ stopped
    → Retries now id rows (save_stopped o now t rows).0 (save_stopped o now t rows).1
stopped-Retries none now id t rows e s = refl
stopped-Retries (some new) now id t rows e s = (t, e, reset_stopped-IsFresh now t, inl (s, refl))

clone-Retries :
    (o : Option ℕ) (now id : ℕ) (t : QueuedTask) (rows : List QueuedTask)
    → get_task_by_id id rows ≡ some t
    → t.state ≢ stopped
    → Retries now id rows (save_clone o now t rows).0 (save_clone o now t rows).1
clone-Retries none now id t rows e s = refl
clone-Retries (some new) now id t rows e s = (t, e, clone_task-IsFresh new now t, inr (s, refl))

is_enqueued_eq : (s : QueuedTaskState) → is_enqueued s ≡ true → s ≡ enqueued
is_enqueued_eq s h = ground arith

is_doing_eq : (s : QueuedTaskState) → is_doing s ≡ true → s ≡ doing
is_doing_eq s h = ground arith

is_stopped_eq : (s : QueuedTaskState) → is_stopped s ≡ true → s ≡ stopped
is_stopped_eq s h = ground arith

not_stopped : (s : QueuedTaskState) → is_stopped s ≡ false → s ≢ stopped
not_stopped s h = λ e. ground arith

retry_found-Retries :
    (o : Option ℕ) (now id : ℕ) (found : Option QueuedTask) (rows : List QueuedTask)
    → get_task_by_id id rows ≡ found
    → Retries now id rows (retry_found o now found rows).0 (retry_found o now found rows).1
retry_found-Retries o now id none rows e = (refl, e)
retry_found-Retries o now id (some t) rows e = elim (Bool-cases (is_enqueued t.state)) [
  | inl y ↦ rw y (refl, (t, e, inl (is_enqueued_eq t.state y)))
  | inr n ↦ elim (Bool-cases (is_doing t.state)) [
    | inl y ↦ rw n (rw y (refl, (t, e, inr (is_doing_eq t.state y))))
    | inr m ↦ elim (Bool-cases (is_stopped t.state)) [
      | inl y ↦ rw n (rw m (rw y (stopped-Retries o now id t rows e (is_stopped_eq t.state y))))
      | inr k ↦ rw n (rw m (rw k (clone-Retries o now id t rows e (not_stopped t.state k))))
    ]
  ]
]

-- Only an unknown task and one that is enqueued or running are refused, without a change. A retry
-- gives the work of the task with its own budget of retries, in the queue without an owner, a start,
-- an error or a retry counted, to be claimed at once if it has no parent: a stopped task itself, and
-- for any other a new row beside it. No other row is changed.
pub retry_task-Retries :
    (o : Option ℕ) (now id : ℕ) (rows : List QueuedTask)
    → Retries now id rows (retry_task o now id rows).0 (retry_task o now id rows).1
unfolding retry_task
retry_task-Retries o now id rows = retry_found-Retries o now id (get_task_by_id id rows) rows refl
