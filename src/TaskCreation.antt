-- ===== src/TaskCreation.antt =====
-- fastedgy/queued_task/services/queued_tasks.py and queued_task_ref.py: the queue of the requests for
-- new tasks, the task that works it off, and the references that the callers hold; the lock of
-- fastedgy/lifecycle.py. References are numbered in the order in which add_task makes them. What is
-- to run goes along unchanged and is left out.
pub mod Pending
pub mod Covered
pub mod Settled
pub mod Linked
mod Examples
use fastedgy.Prelude.{
  ℕ, zero, suc, ◌+◌, ◌-◌, ◌<◌, Bool, true, false, Option, none, some, List, [], ◌∷◌, ◌++◌, ◌==◌,
  ◌≡◌, if◌then◌else◌, not, filter,
}

-- The state of a QueuedTaskRef: `_task_id` and its future.
pub data RefState : Type 0 where
  unresolved failed : RefState
  identified : ℕ → RefState

pub record TaskCreationRequest : Type 0 where
  pub ref : ℕ
  pub parent_ref : Option ℕ

-- A row that was made, with the parent that `_create_task_for_request` was given.
pub record Creation : Type 0 where
  pub id : ℕ
  pub request : TaskCreationRequest
  pub parent_id : Option ℕ

-- The two lists of a round of `_process_creation_queue`, as far as they are still to do.
pub record Round : Type 0 where
  pub no_parent_requests : List TaskCreationRequest
  pub with_parent_requests : List TaskCreationRequest

-- The service, the references and the locks of AppLifecycle. `creation_task` is none where no task is
-- working off the queue. A reference not made yet is unresolved, as a new one is.
pub record QueuedTasks : Type 0 where
  pub refs : ℕ → RefState
  pub next_ref : ℕ
  pub creation_queue : List TaskCreationRequest
  pub creation_task : Option Round
  pub locks : ℕ
  pub log : List Creation

abbrev pub new_service : QueuedTasks
new_service = record {
  refs = λ r. unresolved;
  next_ref = 0;
  creation_queue = [];
  creation_task = none;
  locks = 0;
  log = [];
}

abbrev pub no_round : Round
no_round = record { no_parent_requests = []; with_parent_requests = [] }

abbrev pub set_ref : ℕ → RefState → (ℕ → RefState) → ℕ → RefState
set_ref r x refs p = if p == r then x else refs p

abbrev pub is_child : TaskCreationRequest → Bool
is_child r = elim r.parent_ref [ none ↦ false | some p ↦ true ]

-- The start of the task that works off the queue, unless one is at it, with `lifecycle.lock()`.
abbrev pub start_creation : Option Round → QueuedTasks → QueuedTasks
start_creation (some b) s = s
start_creation none s = record s { creation_task = some no_round; locks = s.locks + 1 }

-- `add_task`, behind its tests of the function and the arguments.
unfoldable pub add_task : Option ℕ → QueuedTasks → QueuedTasks
add_task parent s = start_creation s.creation_task (record s {
  creation_queue = s.creation_queue ++ record { ref = s.next_ref; parent_ref = parent } ∷ [];
  next_ref = s.next_ref + 1;
})

-- `_set_task_id` of the new row, or `_set_creation_error`.
unfoldable pub settle_ref : TaskCreationRequest → Option ℕ → Option ℕ → QueuedTasks → QueuedTasks
settle_ref r parent (some id) s = record s {
  refs = set_ref r.ref (identified id) s.refs;
  log = s.log ++ record { id = id; request = r; parent_id = parent } ∷ [];
}
settle_ref r parent none s = record s { refs = set_ref r.ref failed s.refs }

abbrev pub with_round : Round → QueuedTasks → QueuedTasks
with_round b s = record s { creation_task = some b }

-- A request with a parent, once the parent has its id, or an error. Until then it waits.
abbrev pub create_child :
    TaskCreationRequest → Round → Option ℕ → RefState → QueuedTasks → QueuedTasks
create_child r rest o unresolved s = s
create_child r rest o failed s = settle_ref r none none (with_round rest s)
create_child r rest o (identified p) s = settle_ref r (some p) o (with_round rest s)

abbrev pub create_next :
    TaskCreationRequest → Round → Option ℕ → Option ℕ → QueuedTasks → QueuedTasks
create_next r rest o none s = with_round rest s
create_next r rest o (some p) s = create_child r rest o (s.refs p) s

-- The next round, or the end with `lifecycle.unlock()`.
unfoldable pub next_round : List TaskCreationRequest → QueuedTasks → QueuedTasks
next_round [] s = record s { creation_task = none; locks = s.locks - 1 }
next_round (r ∷ rs) s = record s {
  creation_queue = [];
  creation_task = some (record {
    no_parent_requests = filter (λ q. not (is_child q)) (r ∷ rs);
    with_parent_requests = filter is_child (r ∷ rs);
  });
}

abbrev pub tick_round :
    List TaskCreationRequest → List TaskCreationRequest → Option ℕ → QueuedTasks → QueuedTasks
tick_round (r ∷ rs) ws o s =
    settle_ref r none o
      (with_round (record { no_parent_requests = rs; with_parent_requests = ws }) s)
tick_round [] (w ∷ ws) o s =
    create_next w (record { no_parent_requests = []; with_parent_requests = ws }) o w.parent_ref s
tick_round [] [] o s = next_round s.creation_queue s

abbrev pub tick_task : Option Round → Option ℕ → QueuedTasks → QueuedTasks
tick_task none o s = s
tick_task (some b) o s = tick_round b.no_parent_requests b.with_parent_requests o s

-- `_process_creation_queue` up to its next `await`. The outcome is the id of the row that
-- `_create_task_for_request` makes, or its error.
unfoldable pub tick : Option ℕ → QueuedTasks → QueuedTasks
unfolding settle_ref next_round
tick o s = tick_task s.creation_task o s

-- A caller knows the references that were made.
abbrev pub Known : Option ℕ → QueuedTasks → Type 0
Known none s = Unit
Known (some p) s = p < s.next_ref

-- The calls of add_task, and the steps of the task between them, in any order.
pub data Reach : QueuedTasks → Type 0 where
  fresh : Reach new_service
  adds :
      {s : QueuedTasks} (parent : Option ℕ) → Known parent s → Reach s → Reach (add_task parent s)
  ticks : {s : QueuedTasks} (o : Option ℕ) → Reach s → Reach (tick o s)

-- So many steps of the task, with nothing added between them.
unfoldable pub run_ticks : List (Option ℕ) → QueuedTasks → QueuedTasks
unfolding tick
run_ticks [] s = s
run_ticks (o ∷ os) s = run_ticks os (tick o s)
