-- ===== src/QueuedTask/Completion.antt =====
-- What a saved task row says of its run.
use fastedgy.Prelude.{ℕ, ◌≡◌, refl, true, false, Option, none, some, String, arith}
use fastedgy.Prelude.Int.{pos, sub_ℕ}
use fastedgy.QueuedTask.{
  QueuedTaskState, enqueued, stopped, done, failed, cancelled, QueuedTask, save, mark_as_doing,
  mark_as_done, mark_as_failed, mark_as_stopped, mark_as_cancelled, restart, is_active,
}

-- The ways in which a run ends.
pub data Ending : Type 0 where
  with_success with_stop with_cancellation : Ending
  with_failure : Option String → Option String → Option String → Ending

pub mark : Ending → ℕ → QueuedTask → QueuedTask
unfolding mark_as_done mark_as_stopped mark_as_cancelled mark_as_failed
mark with_success now t = mark_as_done now t
mark with_stop now t = mark_as_stopped now t
mark with_cancellation now t = mark_as_cancelled now t
mark (with_failure n m i) now t = mark_as_failed now n m i t

abbrev pub ending_state : Ending → QueuedTaskState
ending_state with_success = done
ending_state with_stop = stopped
ending_state with_cancellation = cancelled
ending_state (with_failure n m i) = failed

-- Whatever the row held before, a task that was marked as doing and then as ended, in any of the
-- four ways, is saved with the state of that ending, with the instant of the ending as its end
-- date, and with the time between the two marks as its execution time, negative where the clock
-- went back.
pub save-mark :
    (t : QueuedTask) (how : Ending) (started ended saved : ℕ)
    → let r = save saved (mark how ended (mark_as_doing started t)) in
      (r.state ≡ ending_state how)
      × (r.date_ended ≡ some ended)
      × (r.execution_time ≡ some (sub_ℕ ended started))
unfolding save mark mark_as_doing
save-mark t with_success started ended saved = (refl, refl, refl)
save-mark t with_stop started ended saved = (refl, refl, refl)
save-mark t with_cancellation started ended saved = (refl, refl, refl)
save-mark t (with_failure n m i) started ended saved = (refl, refl, refl)

-- A restarted task, however its former run went, is saved as enqueued at the instant of the
-- restart, active, with no trace of that run: no start or end date, no time, no error, a fresh
-- retry budget, and no request to resume.
pub save-restart :
    (t : QueuedTask) (now saved : ℕ)
    → let r = save saved (restart now t) in
      (r.state ≡ enqueued)
      × (is_active r.state ≡ true)
      × (r.date_enqueued ≡ some now)
      × (r.date_started ≡ none)
      × (r.date_ended ≡ none)
      × (r.execution_time ≡ some (pos 0))
      × (r.exception_name ≡ none)
      × (r.retry_count ≡ 0)
      × (r.resume_requested ≡ false)
unfolding save restart is_active
save-restart t now saved = (refl, refl, refl, refl, refl, refl, refl, refl, refl)

-- Saving a row again, at any later instant, writes what the first save wrote.
pub save-save : (t : QueuedTask) (now later : ℕ) → save later (save now t) ≡ save now t
unfolding save
save-save t now later = ground (arith)
