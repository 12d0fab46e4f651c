-- ===== src/Queue/Channels/Bounds.antt =====
-- No channel is given more tasks than its capacity, by any sequence of events.
use fastedgy.Prelude.{
  ℕ, ◌≤◌, ◌<◌, ◌≡◌, refl, sym, ap, ◌∙◌, Bool, true, false, Option, none, some, String, List, [],
  ◌∷◌, All, Bool-cases, inl, inr, eq_iff, arith,
}
use mathlib.Core.List.{Memᴰ}
use mathlib.Core.Path.{subst}
use fastedgy.Prelude.Dict.{lookup}
use fastedgy.QueuedTask.{QueuedTask}
use fastedgy.Queue.{claim, contains}
use fastedgy.Queue.Claim.Ready.{of-allowed}
use fastedgy.Queue.Claim.{Claims, claim-Claims}
use fastedgy.Queue.Channels.{
  Container, new_container, running_of, saturated, channel_of, answered, abandoned, committed,
  counted, claim_next, take_at, Event, claims, loads, ends, thread_ends, handle, run,
}
use fastedgy.Queue.Channels.Counts.{
  held_on, IsCounted, Eases, running_of-count_claim, contains-saturated, take_at-TakesFrom,
  loads-Eases, ends-Eases, thread_ends-Eases,
}
use text.Mathlib.Text.{◌==◌ as str_eq}

-- The column of the channel is not the empty text.
abbrev pub HasChannel : QueuedTask → Type 0
HasChannel t = str_eq t.channel "" ≡ false

HasChannel-of :
    (t : QueuedTask) (rows : List QueuedTask) → Memᴰ t rows → All HasChannel rows → HasChannel t
HasChannel-of t [] m h = elim m [ ]
HasChannel-of t (u ∷ us) (Memᴰ.head e) h = subst HasChannel (sym e) h.0
HasChannel-of t (u ∷ us) (Memᴰ.tail m) h = HasChannel-of t us m h.1

-- A capacity that is kept.
abbrev pub IsBounded : Container → Type 0
IsBounded c =
    (name : String) (capacity : ℕ)
    → lookup name c.channels ≡ some capacity
    → held_on name c.held ≤ capacity

Eases-IsBounded : (c d : Container) → Eases c d → IsBounded c → IsBounded d
Eases-IsBounded c d e b =
    λ name capacity h. omega (arith, b name capacity (ap (lookup name) (sym e.0) ∙ h), e.2 name)

channel_of-named : (t : QueuedTask) → HasChannel t → channel_of t ≡ t.channel
unfolding channel_of
channel_of-named t h = rw h refl

-- The row that the answer of a claim names comes from a channel with a free slot.
HasSlot : Container → Option QueuedTask × List QueuedTask → Type 0
HasSlot c (none, rows) = Unit
HasSlot c (some t, rows) =
    (name : String) (capacity : ℕ)
    → lookup name c.channels ≡ some capacity
    → str_eq (channel_of t) name ≡ true
    → running_of name c.channel_running < capacity

module _ (server : String) (now : ℕ) (locked : ℕ → Bool) (rows : List QueuedTask)
    (c : Container) where
  abbrev excluded : List String
  excluded = saturated c.channel_running c.channels

  claim-HasSlot :
      (r : Option QueuedTask × List QueuedTask)
      → Claims server now excluded locked rows r
      → All HasChannel rows
      → HasSlot c r
  unfolding HasSlot channel_of
  claim-HasSlot (none, rows') k a = tt
  claim-HasSlot (some u, rows') (t, m, p, first, s, _) a = λ name capacity l h.
      let named : t.channel ≡ name =
        sym (channel_of-named t (HasChannel-of t rows m a))
        ∙ (sym (ap channel_of s) ∙ (eq_iff (channel_of u) name).0 h) in
      let free =
        contains-saturated name capacity c.channel_running c.channels l
          (subst (λ x. contains x excluded ≡ false) named (of-allowed excluded t.channel p.2)) in
      ground (arith, free)

  counted-IsCounted :
      (r : Option QueuedTask × List QueuedTask) → IsCounted c → IsCounted (counted c r).1
  unfolding counted held_on
  counted-IsCounted (none, rows') k = k
  counted-IsCounted (some t, rows') k =
      λ name. omega (arith, running_of-count_claim name (channel_of t) c.channel_running, k name)

  counted-IsBounded :
      (r : Option QueuedTask × List QueuedTask)
      → IsCounted c
      → IsBounded c
      → HasSlot c r
      → IsBounded (counted c r).1
  unfolding counted held_on HasSlot
  counted-IsBounded (none, rows') k b s = b
  counted-IsBounded (some t, rows') k b s = λ name capacity l.
      elim (Bool-cases (str_eq (channel_of t) name)) [
        | inl h ↦ rw h (omega (arith, k name, s name capacity l h))
        | inr h ↦ rw h (omega (arith, b name capacity l))
      ]

-- The tables that the claims of a run see have a channel in every row.
abbrev pub HasChannels : Event → Type 0
HasChannels (claims query server now locked rows) = All HasChannel rows
HasChannels _ = Unit

handle-IsCounted : (e : Event) (c : Container) → IsCounted c → IsCounted (handle e c)
unfolding handle claim_next
handle-IsCounted (claims answered server now locked rows) c k =
    counted-IsCounted server now locked rows c
      (claim server now (saturated c.channel_running c.channels) locked rows) k
handle-IsCounted (claims abandoned server now locked rows) c k = k
handle-IsCounted (claims committed server now locked rows) c k = k
handle-IsCounted (loads i load is_running rows) c k =
    (loads-Eases c k load is_running rows (take_at i c.held) (take_at-TakesFrom i c.held)).1
handle-IsCounted (ends i pending) c k =
    (ends-Eases c k pending (take_at i c.held) (take_at-TakesFrom i c.held)).1
handle-IsCounted (thread_ends i) c k =
    (thread_ends-Eases c k (take_at i c.held) (take_at-TakesFrom i c.held)).1

handle-IsBounded :
    (e : Event) (c : Container) → HasChannels e → IsCounted c → IsBounded c → IsBounded (handle e c)
unfolding handle claim_next
handle-IsBounded (claims answered server now locked rows) c a k b =
    let excluded = saturated c.channel_running c.channels in
    counted-IsBounded server now locked rows c (claim server now excluded locked rows) k b (
      claim-HasSlot server now locked rows c (claim server now excluded locked rows)
        (claim-Claims server now excluded locked rows) a)
handle-IsBounded (claims abandoned server now locked rows) c a k b = b
handle-IsBounded (claims committed server now locked rows) c a k b = b
handle-IsBounded (loads i load is_running rows) c a k b =
    Eases-IsBounded c (handle (loads i load is_running rows) c)
      (loads-Eases c k load is_running rows (take_at i c.held) (take_at-TakesFrom i c.held)) b
handle-IsBounded (ends i pending) c a k b =
    Eases-IsBounded c (handle (ends i pending) c)
      (ends-Eases c k pending (take_at i c.held) (take_at-TakesFrom i c.held)) b
handle-IsBounded (thread_ends i) c a k b =
    Eases-IsBounded c (handle (thread_ends i) c)
      (thread_ends-Eases c k (take_at i c.held) (take_at-TakesFrom i c.held)) b

counted-channels :
    (c : Container) (r : Option QueuedTask × List QueuedTask)
    → (counted c r).1.channels ≡ c.channels
unfolding counted
counted-channels c (none, rows) = refl
counted-channels c (some t, rows) = refl

-- No event changes the configuration.
handle-channels : (e : Event) (c : Container) → IsCounted c → (handle e c).channels ≡ c.channels
unfolding handle claim_next
handle-channels (claims answered server now locked rows) c k =
    counted-channels c (claim server now (saturated c.channel_running c.channels) locked rows)
handle-channels (claims abandoned server now locked rows) c k = refl
handle-channels (claims committed server now locked rows) c k = refl
handle-channels (loads i load is_running rows) c k =
    (loads-Eases c k load is_running rows (take_at i c.held) (take_at-TakesFrom i c.held)).0
handle-channels (ends i pending) c k =
    (ends-Eases c k pending (take_at i c.held) (take_at-TakesFrom i c.held)).0
handle-channels (thread_ends i) c k =
    (thread_ends-Eases c k (take_at i c.held) (take_at-TakesFrom i c.held)).0

run-channels : (es : List Event) (c : Container) → IsCounted c → (run es c).channels ≡ c.channels
unfolding run
run-channels [] c k = refl
run-channels (e ∷ es) c k =
    run-channels es (handle e c) (handle-IsCounted e c k) ∙ handle-channels e c k

run-IsCounted_from : (es : List Event) (c : Container) → IsCounted c → IsCounted (run es c)
unfolding run
run-IsCounted_from [] c k = k
run-IsCounted_from (e ∷ es) c k = run-IsCounted_from es (handle e c) (handle-IsCounted e c k)

run-IsBounded_from :
    (es : List Event) (c : Container)
    → All HasChannels es
    → IsCounted c
    → IsBounded c
    → IsBounded (run es c)
unfolding run
run-IsBounded_from [] c a k b = b
run-IsBounded_from (e ∷ es) c a k b =
    run-IsBounded_from es (handle e c) a.1 (handle-IsCounted e c k) (handle-IsBounded e c a.0 k b)

-- After any sequence of events in a container that started without tasks, the counter of each
-- channel is the number of the tasks that hold a slot of it: no exit path of a claimed task keeps
-- the slot or gives it back twice.
pub run-IsCounted :
    (channels : List (String × ℕ)) (es : List Event) → IsCounted (run es (new_container channels))
unfolding new_container running_of held_on lookup
run-IsCounted channels es = run-IsCounted_from es (new_container channels) (λ name. refl)

-- After any sequence of events in a container that started without tasks, where no row that a claim
-- saw had the empty text as its channel, no channel of the configuration has more tasks that hold a
-- slot than its capacity, tasks whose thread outlived a timeout included.
pub run-IsBounded :
    (channels : List (String × ℕ)) (es : List Event)
    → All HasChannels es
    → (name : String) (capacity : ℕ) → lookup name channels ≡ some capacity
    → held_on name (run es (new_container channels)).held ≤ capacity
unfolding new_container running_of held_on lookup
run-IsBounded channels es a name capacity h =
    let start = new_container channels in
    let same_channels = run-channels es start (λ name. refl) in
    run-IsBounded_from es start a (λ name. refl) (λ name capacity h. omega arith) name capacity
      (ap (lookup name) same_channels ∙ h)
