-- ===== src/Queue/Channels.antt =====
-- The slots of the channels in one container: `_claim_next_ready_task`, `_channel_release_name` and
-- the paths of fastedgy/queued_task/services/queue_worker_manager.py that give a slot back.
-- A claim runs under `_claim_lock` and is one step; the load of the claimed row, the end of a run and
-- the end of a thread come in any order after it. The loaded task is the row as it was claimed.
pub mod Counts
pub mod Bounds
use fastedgy.Prelude.{
  ℕ, zero, suc, ◌+◌, ◌-◌, Bool, true, false, Option, none, some, String, List, [], ◌∷◌, leb,
  if◌then◌else◌,
}
use fastedgy.Prelude.Dict.{lookup, insert, pop}
use fastedgy.QueuedTask.{QueuedTask}
use fastedgy.Queue.{claim, release, update_id}
use text.Mathlib.Text.{◌==◌ as str_eq}

-- A task that holds a slot: its row is being loaded, it runs, or its run timed out and the thread of
-- its synchronous function still runs.
pub data Held : Type 0 where
  loading executing pending_sync : QueuedTask → Held

pub record Container : Type 0 where
  -- `config.channels`
  pub channels : List (String × ℕ)
  -- `_channel_running`
  pub channel_running : List (String × ℕ)
  pub held : List Held

unfoldable pub new_container : List (String × ℕ) → Container
new_container channels = record { channels = channels; channel_running = []; held = [] }

abbrev or_zero : Option ℕ → ℕ
or_zero none = 0
or_zero (some n) = n

-- `_channel_running[name]`: a missing key of the Counter reads as 0.
unfoldable pub running_of : String → List (String × ℕ) → ℕ
running_of name running = or_zero (lookup name running)

-- `excluded_channels`
unfoldable pub saturated : List (String × ℕ) → List (String × ℕ) → List String
saturated running [] = []
saturated running ((name, capacity) ∷ items) =
    let rest = saturated running items in
    if leb capacity (running_of name running) then name ∷ rest else rest

-- `task.channel or "default"`
unfoldable pub channel_of : QueuedTask → String
channel_of t = if str_eq t.channel "" then "default" else t.channel

-- `_channel_running[channel] += 1`
unfoldable pub count_claim : String → List (String × ℕ) → List (String × ℕ)
unfolding running_of
count_claim channel running = insert channel (running_of channel running + 1) running

unfoldable pub channel_release_name : String → List (String × ℕ) → List (String × ℕ)
unfolding running_of
channel_release_name channel running =
    if leb (running_of channel running) 1
    then pop channel running
    else insert channel (running_of channel running - 1) running

-- `_channel_release`, of a task that no longer is among those that hold a slot.
unfoldable pub channel_release : QueuedTask → List Held → Container → Container
channel_release t rest c = record c {
  channel_running = channel_release_name (channel_of t) c.channel_running;
  held = rest;
}

-- What becomes of the claim query: its answer comes, or it is abandoned after 15 seconds, its
-- transaction rolled back or, in spite of that, committed.
pub data Query : Type 0 where
  answered abandoned committed : Query

counted : Container → Option QueuedTask × List QueuedTask → List QueuedTask × Container
counted c (none, rows) = (rows, c)
counted c (some t, rows) = (
  rows,
  record c {
    channel_running = count_claim (channel_of t) c.channel_running;
    held = loading t ∷ c.held;
  },
)

-- `_claim_next_ready_task` under its lock: the table and the container after it.
unfoldable pub claim_next :
    Query → String → ℕ → (ℕ → Bool) → List QueuedTask → Container → List QueuedTask × Container
unfolding counted
claim_next answered server now locked rows c =
    counted c (claim server now (saturated c.channel_running c.channels) locked rows)
claim_next abandoned server now locked rows c = (rows, c)
claim_next committed server now locked rows c =
    ((claim server now (saturated c.channel_running c.channels) locked rows).1, c)

-- The load of a claimed row: the task, an exception, a cancellation, or no row any more.
pub data Load : Type 0 where
  loaded failed cancelled deleted : Load

-- The rest of `_claim_next_ready_task` and of the round of `_process_pending_tasks` that called it,
-- where `is_running` is the flag of the manager then. The row is put back where it is still there.
unfoldable pub launch :
    Load → Bool → QueuedTask → List Held → List QueuedTask → Container → List QueuedTask × Container
launch loaded true t rest rows c = (rows, record c { held = executing t ∷ rest })
launch deleted is_running t rest rows c = (rows, channel_release t rest c)
launch _ is_running t rest rows c = (update_id t.id release rows, channel_release t rest c)

-- The `finally` of `_execute_task_with_worker`: `pending` tells that the thread of the function still
-- runs.
unfoldable pub finish : Bool → QueuedTask → List Held → Container → Container
finish true t rest c = record c { held = pending_sync t ∷ rest }
finish false t rest c = channel_release t rest c

-- The element at an index, and the others.
unfoldable pub take_at : ℕ → List Held → Option (Held × List Held)
take_at i [] = none
take_at zero (h ∷ hs) = some (h, hs)
take_at (suc i) (h ∷ hs) = elim (take_at i hs) [ none ↦ none | some (g, rest) ↦ some (g, h ∷ rest) ]

-- What happens in a container. The table is another one at each event, since others write to it.
pub data Event : Type 0 where
  claims : Query → String → ℕ → (ℕ → Bool) → List QueuedTask → Event
  loads : ℕ → Load → Bool → List QueuedTask → Event
  ends : ℕ → Bool → Event
  thread_ends : ℕ → Event

-- A task at another stage is not concerned by the event.
unfoldable pub loads_held :
    Load → Bool → List QueuedTask → Option (Held × List Held) → Container → Container
loads_held load is_running rows (some (loading t, rest)) c =
    (launch load is_running t rest rows c).1
loads_held _ _ _ _ c = c

unfoldable pub ends_held : Bool → Option (Held × List Held) → Container → Container
ends_held pending (some (executing t, rest)) c = finish pending t rest c
ends_held _ _ c = c

-- `_release_channel_when_thread_ends`, when its wait is over.
unfoldable pub thread_ends_held : Option (Held × List Held) → Container → Container
thread_ends_held (some (pending_sync t, rest)) c = channel_release t rest c
thread_ends_held _ c = c

unfoldable pub handle : Event → Container → Container
unfolding loads_held ends_held thread_ends_held
handle (claims query server now locked rows) c = (claim_next query server now locked rows c).1
handle (loads i load is_running rows) c = loads_held load is_running rows (take_at i c.held) c
handle (ends i pending) c = ends_held pending (take_at i c.held) c
handle (thread_ends i) c = thread_ends_held (take_at i c.held) c

unfoldable pub run : List Event → Container → Container
run [] c = c
run (e ∷ es) c = run es (handle e c)
