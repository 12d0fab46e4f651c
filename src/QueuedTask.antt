-- ===== src/QueuedTask.antt =====
-- fastedgy/queued_task/models/queued_task.py: the row of a queued task and the methods that change
-- it. A method that mutates the record returns the new one; `datetime.now(...)` is the argument
-- `now`; instants and durations are counted in microseconds. The JSON columns are their stored
-- texts. `hasattr` is true of every declared column. A negative `max_retries` grants what 0 grants,
-- so the budget is a natural number.

pub mod Completion
mod Examples
use fastedgy.Prelude.{
  ℕ, Bool, true, false, ◌||◌, ◌&&◌, Option, none, some, String, if◌then◌else◌, not,
}
use fastedgy.Prelude.Int.{ℤ, pos, sub_ℕ}
use Prim.Native.String.{◌++◌}
use text.Mathlib.Text.{◌==◌ as str_eq}

pub data QueuedTaskState : Type 0 where
  enqueued waiting doing stopped done failed cancelled : QueuedTaskState

pub record QueuedTask : Type 0 where
  pub id : ℕ
  pub name : Option String
  pub module_name : Option String
  pub function_name : Option String
  pub serialized_function : Option String
  pub state : QueuedTaskState
  pub args : String
  pub kwargs : String
  pub context : String
  pub channel : String
  pub priority : ℤ
  pub parent_task : Option ℕ
  pub exception_name : Option String
  pub exception_message : Option String
  pub exception_info : Option String
  pub execution_time : Option ℤ
  pub date_enqueued : Option ℕ
  pub date_started : Option ℕ
  pub date_stopped : Option ℕ
  pub date_ended : Option ℕ
  pub auto_remove : Bool
  pub claimed_by : Option String
  pub retry_count : ℕ
  pub max_retries : Option ℕ
  pub resume_requested : Bool
  pub date_done : Option ℕ
  pub date_cancelled : Option ℕ
  pub date_failed : Option ℕ

-- The truth value of an optional text.
abbrev pub is_truthy : Option String → Bool
is_truthy none = false
is_truthy (some s) = not (str_eq s "")

abbrev pub is_set {ℓ} : {A : Type ℓ} → Option A → Bool
is_set none = false
is_set (some _) = true

-- `a or b` on optional values.
abbrev pub or_else {ℓ} : {A : Type ℓ} → Option A → Option A → Option A
or_else none b = b
or_else (some a) b = some a

abbrev pub is_enqueued : QueuedTaskState → Bool
is_enqueued enqueued = true
is_enqueued _ = false

abbrev pub is_doing : QueuedTaskState → Bool
is_doing doing = true
is_doing _ = false

-- The four tests of `_compute_date_ended`, in their order.
compute_date_ended : QueuedTask → QueuedTask
compute_date_ended t = record t {
  date_ended =
      or_else t.date_done (or_else t.date_cancelled (or_else t.date_failed t.date_stopped));
}

abbrev execution_time_of : Option ℕ → Option ℕ → Option ℤ → Option ℤ
execution_time_of (some start) (some end) old = some (sub_ℕ end start)
execution_time_of _ _ none = some (pos 0)
execution_time_of _ _ (some d) = some d

compute_execution_time : QueuedTask → QueuedTask
compute_execution_time t = record t {
  execution_time = execution_time_of t.date_started t.date_ended t.execution_time;
}

-- `f"{module_name}.{function_name}"`
abbrev dotted : Option String → Option String → String
dotted (some m) (some f) = m ++ ("." ++ f)
dotted _ _ = "local_function"

-- The name that `save` gives to a task without one.
abbrev default_name : QueuedTask → Option String
default_name t =
    if is_truthy t.name
    then t.name
    else if is_truthy t.module_name && is_truthy t.function_name
    then some (dotted t.module_name t.function_name)
    else some "local_function"

abbrev enqueued_at : ℕ → QueuedTask → Option ℕ
enqueued_at now t =
    if not (is_set t.date_enqueued) && is_enqueued t.state then some now else t.date_enqueued

-- `save`, up to the call of the parent class: the columns that it writes.
unfoldable pub save : ℕ → QueuedTask → QueuedTask
unfolding compute_date_ended compute_execution_time
save now t =
    let named = record t { name = default_name t } in
    let dated = record named { date_enqueued = enqueued_at now named } in
    compute_execution_time (compute_date_ended dated)

unfoldable pub mark_as_doing : ℕ → QueuedTask → QueuedTask
mark_as_doing now t = record t {
  state = doing;
  date_started = some now;
  date_stopped = none;
  date_done = none;
  date_cancelled = none;
  date_failed = none;
  date_ended = none;
  exception_name = none;
  exception_message = none;
  exception_info = none;
}

unfoldable pub mark_as_done : ℕ → QueuedTask → QueuedTask
mark_as_done now t = record t { state = done; date_done = some now }

-- `if value: self.field = value`
abbrev set_if : Option String → Option String → Option String
set_if value old = if is_truthy value then value else old

unfoldable pub mark_as_failed :
    ℕ → Option String → Option String → Option String → QueuedTask → QueuedTask
mark_as_failed now name message info t = record t {
  state = failed;
  date_failed = some now;
  exception_name = set_if name t.exception_name;
  exception_message = set_if message t.exception_message;
  exception_info = set_if info t.exception_info;
}

unfoldable pub mark_as_stopped : ℕ → QueuedTask → QueuedTask
mark_as_stopped now t = record t { state = stopped; date_stopped = some now }

unfoldable pub mark_as_cancelled : ℕ → QueuedTask → QueuedTask
mark_as_cancelled now t = record t { state = cancelled; date_cancelled = some now }

unfoldable pub mark_as_waiting : QueuedTask → QueuedTask
mark_as_waiting t = record t { state = waiting }

reset_execution_fields : QueuedTask → QueuedTask
reset_execution_fields t = record t {
  date_started = none;
  date_stopped = none;
  date_ended = none;
  date_done = none;
  date_cancelled = none;
  date_failed = none;
  execution_time = some (pos 0);
  exception_name = none;
  exception_message = none;
  exception_info = none;
  retry_count = 0;
  resume_requested = false;
}

unfoldable pub restart : ℕ → QueuedTask → QueuedTask
unfolding reset_execution_fields
restart now t = reset_execution_fields (record t { state = enqueued; date_enqueued = some now })

unfoldable pub is_finished : QueuedTaskState → Bool
is_finished done = true
is_finished failed = true
is_finished cancelled = true
is_finished _ = false

unfoldable pub is_active : QueuedTaskState → Bool
is_active enqueued = true
is_active waiting = true
is_active doing = true
is_active _ = false

unfoldable pub can_be_restarted : QueuedTaskState → Bool
can_be_restarted stopped = true
can_be_restarted failed = true
can_be_restarted _ = false

unfoldable pub can_be_cancelled : QueuedTaskState → Bool
can_be_cancelled enqueued = true
can_be_cancelled waiting = true
can_be_cancelled doing = true
can_be_cancelled _ = false
