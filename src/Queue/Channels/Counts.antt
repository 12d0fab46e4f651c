-- ===== src/Queue/Channels/Counts.antt =====
-- The counters of the channels agree with the tasks that hold a slot, and stay within the capacities.
use fastedgy.Prelude.{
  ℕ, zero, suc, ◌+◌, ◌-◌, ◌≤◌, ◌≡◌, refl, ap, Bool, true, false, Option, none, some, String, List,
  [], ◌∷◌, leb, if◌then◌else◌, eq_iff, arith,
}
use fastedgy.Prelude.Dict.{lookup, lookup-insert, lookup-pop}
use fastedgy.QueuedTask.{QueuedTask}
use fastedgy.Queue.{contains}
use fastedgy.Queue.Channels.{
  Held, loading, executing, pending_sync, Container, running_of, saturated, channel_of, count_claim,
  channel_release_name, channel_release, Load, launch, finish, take_at, loads_held, ends_held,
  thread_ends_held,
}
use text.Mathlib.Text.{◌==◌ as str_eq}

abbrev pub task_of : Held → QueuedTask
task_of (loading t) = t
task_of (executing t) = t
task_of (pending_sync t) = t

abbrev pub one_on : String → QueuedTask → ℕ
one_on name t = if str_eq (channel_of t) name then 1 else 0

-- How many of the tasks hold a slot of the channel.
unfoldable pub held_on : String → List Held → ℕ
held_on name [] = 0
held_on name (h ∷ hs) = one_on name (task_of h) + held_on name hs

pub running_of-count_claim :
    (name channel : String) (running : List (String × ℕ))
    → running_of name (count_claim channel running)
      ≡ (if str_eq channel name then 1 else 0) + running_of name running
unfolding running_of count_claim
running_of-count_claim name channel running = ground (
  arith,
  eq_iff channel name,
  lookup-insert channel name (running_of channel running + 1) running,
)

running_of-release :
    (name channel : String) (running : List (String × ℕ))
    → running_of name (channel_release_name channel running)
      ≡ running_of name running - (if str_eq channel name then 1 else 0)
unfolding running_of channel_release_name
running_of-release name channel running = ground (
  arith,
  eq_iff channel name,
  lookup-insert channel name (running_of channel running - 1) running,
  lookup-pop channel name running,
)

-- Taking a task out leaves the others.
abbrev pub TakesFrom : List Held → Option (Held × List Held) → Type 0
TakesFrom hs none = Unit
TakesFrom hs (some (g, rest)) =
    (name : String) → held_on name hs ≡ one_on name (task_of g) + held_on name rest

TakesFrom-behind :
    (h : Held) (hs : List Held) (o : Option (Held × List Held))
    → TakesFrom hs o
    → TakesFrom (h ∷ hs) (elim o [ none ↦ none | some (g, rest) ↦ some (g, h ∷ rest) ])
unfolding held_on
TakesFrom-behind h hs none e = tt
TakesFrom-behind h hs (some (g, rest)) e = λ name. omega (arith, e name)

pub take_at-TakesFrom : (i : ℕ) (hs : List Held) → TakesFrom hs (take_at i hs)
unfolding take_at held_on
take_at-TakesFrom i [] = tt
take_at-TakesFrom zero (h ∷ hs) = λ name. refl
take_at-TakesFrom (suc i) (h ∷ hs) = TakesFrom-behind h hs (take_at i hs) (take_at-TakesFrom i hs)

-- Each counter is the number of the tasks that hold a slot of its channel.
abbrev pub IsCounted : Container → Type 0
IsCounted c = (name : String) → running_of name c.channel_running ≡ held_on name c.held

-- A change of the container that takes no slot: the capacities stay, and no channel gains a task.
abbrev pub Eases : Container → Container → Type 0
Eases c d =
    (d.channels ≡ c.channels)
    × IsCounted d
    × ((name : String) → held_on name d.held ≤ held_on name c.held)

abbrev pub same : (c : Container) → IsCounted c → Eases c c
same c k = (refl, k, λ name. omega arith)

module _ (c : Container) (k : IsCounted c) where
  release_eases :
      (g : Held) (rest : List Held)
      → TakesFrom c.held (some (g, rest))
      → Eases c (channel_release (task_of g) rest c)
  unfolding channel_release
  release_eases g rest e = (
    refl,
    λ name.
        ground (
          arith,
          running_of-release name (channel_of (task_of g)) c.channel_running,
          k name,
          e name,
        ),
    λ name. omega (arith, e name),
  )

  keeps_slot :
      (g h : Held) (rest : List Held)
      → task_of g ≡ task_of h
      → TakesFrom c.held (some (g, rest))
      → Eases c (record c { held = h ∷ rest })
  unfolding held_on
  keeps_slot g h rest s e = (
    refl,
    λ name. omega (arith, k name, e name, ap (one_on name) s),
    λ name. omega (arith, e name, ap (one_on name) s),
  )

  launch-Eases :
      (load : Load) (is_running : Bool) (t : QueuedTask) (rest : List Held) (rows : List QueuedTask)
      → TakesFrom c.held (some (loading t, rest))
      → Eases c (launch load is_running t rest rows c).1
  unfolding launch
  launch-Eases Load.loaded true t rest rows e = keeps_slot (loading t) (executing t) rest refl e
  launch-Eases Load.loaded false t rest rows e = release_eases (loading t) rest e
  launch-Eases Load.failed is_running t rest rows e = release_eases (loading t) rest e
  launch-Eases Load.cancelled is_running t rest rows e = release_eases (loading t) rest e
  launch-Eases Load.deleted is_running t rest rows e = release_eases (loading t) rest e

  pub loads-Eases :
      (load : Load) (is_running : Bool) (rows : List QueuedTask) (o : Option (Held × List Held))
      → TakesFrom c.held o
      → Eases c (loads_held load is_running rows o c)
  unfolding loads_held
  loads-Eases load is_running rows (some (loading t, rest)) e =
      launch-Eases load is_running t rest rows e
  loads-Eases load is_running rows (some (executing t, rest)) e = same c k
  loads-Eases load is_running rows (some (pending_sync t, rest)) e = same c k
  loads-Eases load is_running rows none e = same c k

  pub ends-Eases :
      (pending : Bool) (o : Option (Held × List Held))
      → TakesFrom c.held o
      → Eases c (ends_held pending o c)
  unfolding ends_held finish
  ends-Eases true (some (executing t, rest)) e =
      keeps_slot (executing t) (pending_sync t) rest refl e
  ends-Eases false (some (executing t, rest)) e = release_eases (executing t) rest e
  ends-Eases pending (some (loading t, rest)) e = same c k
  ends-Eases pending (some (pending_sync t, rest)) e = same c k
  ends-Eases pending none e = same c k

  pub thread_ends-Eases :
      (o : Option (Held × List Held)) → TakesFrom c.held o → Eases c (thread_ends_held o c)
  unfolding thread_ends_held
  thread_ends-Eases (some (pending_sync t, rest)) e = release_eases (pending_sync t) rest e
  thread_ends-Eases (some (loading t, rest)) e = same c k
  thread_ends-Eases (some (executing t, rest)) e = same c k
  thread_ends-Eases none e = same c k

-- A channel whose capacity is reached is excluded from the claim.
pub contains-saturated :
    (name : String) (capacity : ℕ) (running items : List (String × ℕ))
    → lookup name items ≡ some capacity
    → contains name (saturated running items) ≡ false
    → leb capacity (running_of name running) ≡ false
unfolding lookup contains saturated
contains-saturated name capacity running [] h e = ground arith
contains-saturated name capacity running ((j, n) ∷ items) h e =
    ground (arith, eq_iff j name, eq_iff name j, contains-saturated name capacity running items)
