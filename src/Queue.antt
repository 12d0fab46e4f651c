-- ===== src/Queue.antt =====
-- The queue in the database: the statements of fastedgy/queued_task/services/queue_worker_manager.py
-- and fastedgy/queued_task/services/queue_worker.py on the rows of `queued_tasks`.
-- A table is the list of its rows; `NOW()` is the argument `now`, in microseconds. A comparison with
-- NULL is not true. A row that another transaction has locked is one for which `locked` is true.

pub mod Claim
pub mod Reaper
pub mod Channels
pub mod Cascade
pub mod Orphans
pub mod Purge
pub mod Samples
mod Examples
use fastedgy.Prelude.{
  ℕ, ◌+◌, ◌-◌, ◌*◌, ◌^◌, Bool, true, false, ◌&&◌, ◌||◌, Option, none, some, String, List, [], ◌∷◌,
  map, any, max, min, ltb, leb, ◌==◌, if◌then◌else◌, not,
}
use fastedgy.Prelude.Int.{ℤ, pos, ltb_ℤ, sub_ℕ}
use fastedgy.QueuedTask.{
  QueuedTaskState, enqueued, waiting, doing, stopped, done, failed, cancelled, QueuedTask,
  is_enqueued, is_doing, or_else,
}
use text.Mathlib.Text.{◌==◌ as str_eq}

-- A row of `queued_task_workers`.
pub record QueuedTaskWorker : Type 0 where
  pub server_name : String
  pub is_running : Bool
  pub last_heartbeat : ℕ

abbrev pub seconds : ℕ → ℕ
seconds s = s * 1_000_000

abbrev pub is_done : QueuedTaskState → Bool
is_done done = true
is_done _ = false

abbrev pub is_stopped : QueuedTaskState → Bool
is_stopped stopped = true
is_stopped _ = false

-- `channel = ANY(excluded)`
unfoldable pub contains : String → List String → Bool
contains name names = any (λ n. str_eq n name) names

-- `d IS NULL OR d <= NOW()`
abbrev pub is_due : ℕ → Option ℕ → Bool
is_due now none = true
is_due now (some d) = leb d now

-- `parent_task IS NULL OR EXISTS (... p.state = 'done')`
abbrev pub parent_is_done : List QueuedTask → Option ℕ → Bool
parent_is_done rows none = true
parent_is_done rows (some p) = any (λ r. r.id == p && is_done r.state) rows

-- The WHERE clause of the claim.
unfoldable pub is_ready : ℕ → List String → List QueuedTask → QueuedTask → Bool
unfolding contains
is_ready now excluded rows t =
    is_enqueued t.state
    && is_due now t.date_enqueued
    && not (contains t.channel excluded)
    && parent_is_done rows t.parent_task

-- `date_enqueued` ascending, a NULL last.
abbrev pub date_before : Option ℕ → Option ℕ → Bool
date_before (some a) (some b) = ltb a b
date_before (some a) none = true
date_before none _ = false

-- `ORDER BY priority DESC, date_enqueued`: strictly before.
unfoldable pub ranks_before : QueuedTask → QueuedTask → Bool
ranks_before a b =
    ltb_ℤ b.priority a.priority
    || not (ltb_ℤ a.priority b.priority) && date_before a.date_enqueued b.date_enqueued

pub better : QueuedTask → Option QueuedTask → QueuedTask
unfolding ranks_before
better t none = t
better t (some best) = if ranks_before best t then best else t

-- The first of the rows that pass `test`, in the order of the claim. Where rows rank alike the
-- statement leaves the choice open; here the first in the table is taken.
pub pick : (QueuedTask → Bool) → List QueuedTask → Option QueuedTask
unfolding better
pick test [] = none
pick test (t ∷ ts) = let rest = pick test ts in if test t then some (better t rest) else rest

abbrev pub set_claimed : String → ℕ → QueuedTask → QueuedTask
set_claimed server now t = record t {
  state = doing;
  date_started = some now;
  claimed_by = some server;
}

-- `UPDATE queued_tasks SET ... WHERE id = :id AND ...`
abbrev pub update_id : ℕ → (QueuedTask → QueuedTask) → List QueuedTask → List QueuedTask
update_id id change rows = map (λ t. if t.id == id then change t else t) rows

-- The claim statement of `_claim_next_ready_task`: the row it returns, and the table.
unfoldable pub claim :
    String → ℕ → List String → (ℕ → Bool) → List QueuedTask → Option QueuedTask × List QueuedTask
unfolding is_ready pick
claim server now excluded locked rows =
    elim (pick (λ t. is_ready now excluded rows t && not (locked t.id)) rows) [
      | none ↦ (none, rows)
      | some t ↦ (some (set_claimed server now t), update_id t.id (set_claimed server now) rows)
    ]

-- The SET list that puts a running row back: shared by the release and by the recoveries.
abbrev pub set_released : QueuedTask → QueuedTask
set_released t = record t { state = enqueued; date_started = none; claimed_by = none }

-- `_release_claimed_task`
unfoldable pub release : QueuedTask → QueuedTask
release t = if is_doing t.state then set_released t else t

abbrev owned_by : Option String → String → Bool
owned_by none server = false
owned_by (some s) server = str_eq s server

abbrev pub is_null {ℓ} : {A : Type ℓ} → Option A → Bool
is_null none = true
is_null (some _) = false

-- The two statements of `_recover_orphaned_doing_tasks`.
unfoldable pub recover_own : String → QueuedTask → QueuedTask
recover_own server t =
    if is_doing t.state && owned_by t.claimed_by server then set_released t else t

unfoldable pub recover_ownerless : QueuedTask → QueuedTask
recover_ownerless t = if is_doing t.state && is_null t.claimed_by then set_released t else t

-- `datetime.now() - timedelta(minutes=2)`, `NOW() - interval '2 minutes'`
abbrev lease : ℕ
lease = 120_000_000

-- A worker row that still beats. (`a >= now - lease`, without going below 0.)
abbrev pub beats : ℕ → QueuedTaskWorker → Bool
beats now w = w.is_running && leb now (w.last_heartbeat + lease)

-- `other_alive` is found.
unfoldable pub other_alive : String → ℕ → List QueuedTaskWorker → Bool
other_alive server now workers = any (λ w. beats now w && not (str_eq w.server_name server)) workers

unfoldable pub recover_orphaned :
    String → ℕ → List QueuedTaskWorker → List QueuedTask → List QueuedTask
unfolding recover_own recover_ownerless other_alive
recover_orphaned server now workers rows =
    let own = map (recover_own server) rows in
    if other_alive server now workers then own else map recover_ownerless own

-- `EXISTS (SELECT 1 FROM queued_task_workers w WHERE w.server_name = t.claimed_by AND ...)`
unfoldable pub owner_alive : ℕ → List QueuedTaskWorker → Option String → Bool
owner_alive now workers none = false
owner_alive now workers (some owner) = any (λ w. str_eq w.server_name owner && beats now w) workers

-- Pass (1) of `_reap_stale_tasks`.
unfoldable pub reap_dead_owner : ℕ → List QueuedTaskWorker → QueuedTask → QueuedTask
unfolding owner_alive
reap_dead_owner now workers t =
    if is_doing t.state && not (is_null t.claimed_by) && not (owner_alive now workers t.claimed_by)
    then set_released t
    else t

-- Pass (1b).
unfoldable pub resume_stopped : ℕ → List QueuedTaskWorker → QueuedTask → QueuedTask
unfolding owner_alive
resume_stopped now workers t =
    if is_stopped t.state
      && t.resume_requested
      && (is_null t.claimed_by || not (owner_alive now workers t.claimed_by))
    then record t {
      state = enqueued;
      resume_requested = false;
      retry_count = 0;
      claimed_by = none;
      date_started = none;
      date_stopped = none;
      date_ended = none;
      execution_time = some (pos 0);
      date_enqueued = some now;
    }
    else t

-- `LEAST(30 * power(4, n), 1800)` and `min(30 * 4**n, 1800)`, in seconds.
unfoldable pub retry_delay : ℕ → ℕ
retry_delay n = min (30 * 4 ^ n) 1800

-- The SET list of a retry, in the worker and in the reaper.
abbrev pub set_retried : ℕ → ℕ → QueuedTask → QueuedTask
set_retried now delay t = record t {
  state = enqueued;
  retry_count = t.retry_count + 1;
  claimed_by = none;
  date_started = none;
  date_ended = none;
  date_failed = none;
  execution_time = some (pos 0);
  exception_name = none;
  exception_message = none;
  exception_info = none;
  date_enqueued = some (now + seconds delay);
}

-- `EXTRACT(EPOCH FROM (NOW() - COALESCE(date_started, NOW())))`
abbrev pub elapsed : ℕ → Option ℕ → Option ℤ
elapsed now none = some (pos 0)
elapsed now (some start) = some (sub_ℕ now start)

abbrev pub coalesce : Option ℕ → ℕ → ℕ
coalesce none d = d
coalesce (some n) d = n

-- `date_started < NOW() - make_interval(secs => :stale_after)`
abbrev pub is_stale : ℕ → ℕ → Option ℕ → Bool
is_stale now stale_after none = false
is_stale now stale_after (some start) = ltb (start + seconds stale_after) now

-- `max(int(self.config.task_timeout or 0), 1) * 2`
abbrev pub stale_after_of : ℕ → ℕ
stale_after_of task_timeout = max task_timeout 1 * 2

-- Pass (2), within the budget.
unfoldable pub reap_retry : ℕ → ℕ → ℕ → QueuedTask → QueuedTask
unfolding retry_delay
reap_retry now stale_after default_max t =
    if is_doing t.state
      && is_stale now stale_after t.date_started
      && ltb t.retry_count (coalesce t.max_retries default_max)
    then set_retried now (retry_delay t.retry_count) t
    else t

-- Pass (2), past the budget. The message is the argument.
unfoldable pub reap_fail : ℕ → ℕ → ℕ → String → QueuedTask → QueuedTask
reap_fail now stale_after default_max message t =
    if is_doing t.state
      && is_stale now stale_after t.date_started
      && leb (coalesce t.max_retries default_max) t.retry_count
    then record t {
      state = failed;
      exception_name = some "TaskReaped";
      exception_message = some message;
      date_failed = some now;
      date_ended = some now;
      execution_time = elapsed now t.date_started;
    }
    else t

-- Passes (1) to (2) of `_reap_stale_tasks`, in their order, on one row: each statement decides on
-- the row and on the worker rows alone.
unfoldable pub reap : ℕ → List QueuedTaskWorker → ℕ → ℕ → String → QueuedTask → QueuedTask
unfolding reap_dead_owner resume_stopped reap_retry reap_fail
reap now workers task_timeout default_max message t =
    let after = stale_after_of task_timeout in
    reap_fail now after default_max message (
      reap_retry now after default_max (resume_stopped now workers (reap_dead_owner now workers t)))
