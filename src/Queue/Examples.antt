-- ===== src/Queue/Examples.antt =====
-- The statements and the counters of the queue, at small tables.
use fastedgy.Prelude.{inl, ℕ, ◌≡◌, ◌≤◌, refl, Bool, true, false, none, some, String, List, [], ◌∷◌}
use mathlib.Core.List.{Memᴰ}
use fastedgy.QueuedTask.{QueuedTask, QueuedTaskState, enqueued, failed}
use fastedgy.Prelude.Keys.{member}
use fastedgy.Prelude.Dict.{lookup, insert}
use fastedgy.Queue.{claim, reap, set_claimed}
use fastedgy.Queue.Samples.{row}
use fastedgy.Queue.Cascade.{
  Ending, Cascaded, descendants, levels, is_cascaded, anchor, next_level, children, is_open,
  cascade_to_descendants, updated,
}
use fastedgy.Queue.Cascade.Tree.{Cascades, cascade_to_descendants-Cascades}
use fastedgy.Queue.Orphans.{reap_stale_tasks}
use fastedgy.Queue.Orphans.Settled.{IsSettled, reap_stale_tasks-IsSettled}
use fastedgy.Queue.Purge.{
  Purges, PurgeIsDue, is_expired, purge_expired_tasks, purge_expired_tasks-Purges,
}
use fastedgy.Queue.Channels.{
  Held, Query, Load, Event, claims, loads, ends, new_container, run, running_of, handle, take_at,
  claim_next, saturated, launch, count_claim, channel_of, finish,
}
use fastedgy.Queue.Channels.Counts.{held_on}
use fastedgy.Queue.Channels.Bounds.{run-IsCounted, run-IsBounded}

abbrev two_tasks : List QueuedTask
two_tasks = row 1 enqueued 0 none ∷ row 2 enqueued 5 none ∷ []

abbrev unlocked : ℕ → Bool
unlocked _ = false

-- Two claims, of which the second finds the channel full, and a run whose thread outlives it.
abbrev events : List Event
events =
    claims Query.answered "box" 100 unlocked two_tasks
    ∷ loads 0 Load.loaded true two_tasks
    ∷ claims Query.answered "box" 101 unlocked two_tasks
    ∷ ends 0 true
    ∷ []

abbrev capacities : List (String × ℕ)
capacities = ("default", 1) ∷ []

zombie_holds_slot :
    (run events (new_container capacities)).held
    ≡ Held.pending_sync (set_claimed "box" 100 (row 2 enqueued 5 none)) ∷ []
unfolding run handle take_at claim_next claim saturated new_container running_of lookup launch
    count_claim insert channel_of finish
zombie_holds_slot = refl

run-IsCounted_example :
    running_of "default" (run events (new_container capacities)).channel_running
    ≡ held_on "default" (run events (new_container capacities)).held
run-IsCounted_example = run-IsCounted capacities events "default"

run-IsBounded_example : held_on "default" (run events (new_container capacities)).held ≤ 1
unfolding lookup
run-IsBounded_example =
    run-IsBounded capacities events ((refl, (refl, tt)), (tt, ((refl, (refl, tt)), (tt, tt))))
      "default" 1 refl

-- A failed task, its child and the child of that.
abbrev child_of : ℕ → QueuedTask → QueuedTask
child_of p t = record t { parent_task = some p }

abbrev failed_parent : QueuedTask
failed_parent = row 1 failed 0 none

abbrev orphan : QueuedTask
orphan = child_of 1 (row 2 enqueued 0 none)

abbrev family : List QueuedTask
family = failed_parent ∷ orphan ∷ child_of 2 (row 3 enqueued 0 none) ∷ []

abbrev cancelled_now : Ending
cancelled_now = record {
  new_state = QueuedTaskState.cancelled;
  exception_name = none;
  exception_message = none;
  exception_info = none;
}

-- The cascade from the orphan ends it and its child.
number_cascaded : Cascaded → ℕ
number_cascaded (updated n rows) = n
number_cascaded _ = 0

cascades_to_two : number_cascaded (cascade_to_descendants 50 2 cancelled_now 100 family) ≡ 2
unfolding number_cascaded cascade_to_descendants descendants levels is_cascaded member anchor
    next_level children is_open
cascades_to_two = refl

cascade_to_descendants-Cascades_example :
    Cascades 50 2 cancelled_now 100 family (cascade_to_descendants 50 2 cancelled_now 100 family)
cascade_to_descendants-Cascades_example =
    cascade_to_descendants-Cascades 50 2 cancelled_now 100 family

abbrev no_texts : QueuedTask → String × String
no_texts _ = ("failed", "failed")

abbrev never : ℕ → Bool
never _ = false

reap_stale_tasks-IsSettled_example :
    IsSettled 2 (reap_stale_tasks 50 "box" 60 3 "stuck" no_texts never (family, [])).0
unfolding reap
reap_stale_tasks-IsSettled_example =
    reap_stale_tasks-IsSettled 50 no_texts never "box" 60 3 "stuck" family [] orphan failed_parent
      (Memᴰ.tail (Memᴰ.head refl)) (Memᴰ.head refl) refl refl (inl refl) refl

abbrev touched_at : QueuedTask → ℕ
touched_at _ = 10

-- A failed task that ended long ago, and a running one.
abbrev ended_family : List QueuedTask
ended_family = failed_parent ∷ row 2 QueuedTaskState.doing 0 none ∷ []

-- A month after the start of time, the first is deleted.
purges_failed :
    (purge_expired_tasks 30 7200 2_592_000_000_011 touched_at (some 0, ended_family)).1
    ≡ row 2 QueuedTaskState.doing 0 none ∷ []
unfolding purge_expired_tasks is_expired
purges_failed = refl

purge_expired_tasks-Purges_example :
    Purges 30 2_592_000_000_011 touched_at ended_family
      (PurgeIsDue 30 7200 (some 0))
      (purge_expired_tasks 30 7200 2_592_000_000_011 touched_at (some 0, ended_family)).1
purge_expired_tasks-Purges_example =
    purge_expired_tasks-Purges 30 2_592_000_000_011 touched_at ended_family 7200 (some 0)
