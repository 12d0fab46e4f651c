-- ===== src/QueueWorker.antt =====
-- fastedgy/queued_task/services/queue_worker.py: one run of a task and what it writes to the row.
-- A write is the row before it to the row after it; `_run_write_with_retry` either makes it or
-- raises, which the flags of `Writes` say. The hooks, the function and what they raise are the
-- argument `body`.
pub mod Steps
pub mod Retry
pub mod AutoRemove
mod Examples
use fastedgy.Prelude.{
  ℕ, ◌+◌, ◌*◌, ◌^◌, Bool, true, false, ◌&&◌, ◌||◌, Option, none, some, String, min, ltb,
  if◌then◌else◌, not,
}
use fastedgy.Prelude.Int.{ℤ, pos, sub_ℕ}
use fastedgy.QueuedTask.{
  QueuedTaskState, enqueued, waiting, doing, stopped, done, failed, cancelled, QueuedTask, is_doing,
  mark_as_failed, save,
}
use fastedgy.Queue.{is_done, retry_delay, set_retried, elapsed, coalesce}

-- `_op_mark_done`
unfoldable pub mark_done : ℕ → QueuedTask → QueuedTask
mark_done now t =
    if is_doing t.state
    then record t {
      state = done;
      date_done = some now;
      date_ended = some now;
      execution_time = elapsed now t.date_started;
    }
    else t

-- `_op_mark_stopped`, and the same statement in `stop_workers`.
unfoldable pub mark_stopped : ℕ → QueuedTask → QueuedTask
mark_stopped now t =
    if is_doing t.state
    then record t {
      state = stopped;
      resume_requested = true;
      date_stopped = some now;
      date_ended = some now;
      execution_time = elapsed now t.date_started;
    }
    else t

-- `_op_retry_enqueue`
unfoldable pub retry_enqueue : ℕ → ℕ → QueuedTask → QueuedTask
retry_enqueue now delay t = if is_doing t.state then set_retried now delay t else t

-- An exception that ended a run: its class name, its text, the traceback, and whether it is a
-- `TaskTimeoutError`.
pub record Failure : Type 0 where
  pub name : String
  pub message : String
  pub info : String
  pub is_timeout : Bool

-- `_op_mark_failed`
unfoldable pub mark_failed : ℕ → Failure → QueuedTask → QueuedTask
mark_failed now e t =
    if is_doing t.state
    then record t {
      state = failed;
      exception_name = some e.name;
      exception_message = some e.message;
      exception_info = some e.info;
      date_failed = some now;
      date_ended = some now;
      execution_time = elapsed now t.date_started;
    }
    else t

-- The retry budget of a task at a failure; `default_max` is `max(int(config.max_retries or 0), 0)`.
unfoldable pub budget : ℕ → Failure → QueuedTask → ℕ
budget default_max e task =
    let b = coalesce task.max_retries default_max in if e.is_timeout then min b 1 else b

pub data Status : Type 0 where
  success retry error : Status

-- Whether the writes of a run reach the database.
pub record Writes : Type 0 where
  pub first : Bool
  pub second : Bool

abbrev write : Bool → (QueuedTask → QueuedTask) → QueuedTask → QueuedTask
write ok change row = if ok then change row else row

-- The `except Exception` branch of `run_task`. `task` is the model that the run was given, `row` the
-- row as it stands when the branch writes.
unfoldable pub fail_run : ℕ → ℕ → Writes → Failure → QueuedTask → QueuedTask → Status × QueuedTask
unfolding budget retry_delay retry_enqueue mark_failed
fail_run default_max now writes e task row =
    let retried = writes.first && is_doing row.state in
    if ltb task.retry_count (budget default_max e task)
    then (if retried
        then (retry, retry_enqueue now (retry_delay task.retry_count) row)
        else (error, write writes.second (mark_failed now e) row))
    else (error, write writes.first (mark_failed now e) row)

-- How the hooks and the function end.
pub data Body : Type 0 where
  returned : Body
  raised : Failure → Body
  cancelled_run : Body

-- A task's parent as the worker finds it: the task has none, the row is gone, or its state.
pub data Parent : Type 0 where
  no_parent missing : Parent
  in_state : QueuedTaskState → Parent

-- `not parent or parent.state != done`, for a task with a parent.
abbrev blocks_start : Parent → Bool
blocks_start no_parent = false
blocks_start missing = true
blocks_start (in_state s) = not (is_done s)

-- `parent and parent.state != done`
abbrev blocks_finish : Parent → Bool
blocks_finish no_parent = false
blocks_finish missing = false
blocks_finish (in_state s) = not (is_done s)

-- `task.mark_as_failed(...)` and `task.save()`: the whole row is written from the model.
abbrev fail_child : ℕ → Failure → QueuedTask → QueuedTask
fail_child now e task =
    save now (mark_as_failed now (some e.name) (some e.message) (some e.info) task)

-- The circumstances of a run.
pub record Run : Type 0 where
  pub now : ℕ
  pub before : Parent
  pub after : Parent
  pub body : Body
  pub writes : Writes
  pub not_ready : Failure
  pub parent_failed : Failure

finish_returned : Run → QueuedTask → QueuedTask → Status × QueuedTask
finish_returned run task row =
    if blocks_finish run.after
    then (error, fail_child run.now run.parent_failed task)
    else (success, mark_done run.now row)

run_body : ℕ → Run → Body → QueuedTask → QueuedTask → Option Status × QueuedTask
unfolding finish_returned
run_body default_max run returned task row =
    let (status, row') = finish_returned run task row in (some status, row')
run_body default_max run (raised e) task row =
    let (status, row') = fail_run default_max run.now run.writes e task row in (some status, row')
run_body default_max run cancelled_run task row =
    (none, write run.writes.first (mark_stopped run.now) row)

-- `run_task` up to the removal of the row, where the writes of a run that returned reach the
-- database. `none` stands for the `CancelledError` that is raised again.
unfoldable pub run_task : ℕ → Run → QueuedTask → QueuedTask → Option Status × QueuedTask
unfolding run_body
run_task default_max run task row =
    if blocks_start run.before
    then (some error, fail_child run.now run.not_ready task)
    else run_body default_max run run.body task row
