-- ===== src/Queue/Claim/Ready.antt =====
-- What the claim asks of a row, and which of two rows comes first.
use fastedgy.Prelude.{
  ◌≤◌, ◌==◌, ==_iff, ℕ, ◌≡◌, refl, true, false, ◌&&◌, Option, none, some, String, List, arith,
}
use mathlib.Core.List.{Memᴰ}
use fastedgy.Prelude.Int.{ltb_ℤ}
use fastedgy.Prelude.Any.{any-member, member-any, any-none, none-any}
use fastedgy.QueuedTask.{QueuedTask, QueuedTaskState, enqueued, done, is_enqueued}
use text.Mathlib.Text.{◌==◌ as str_eq}
use fastedgy.Queue.{is_due, parent_is_done, contains, is_done, date_before, ranks_before}

-- Due: no date, or one that is not ahead.
abbrev pub DueAt : ℕ → Option ℕ → Type 0
DueAt now none = Unit
DueAt now (some d) = d ≤ now

pub due-of : (now : ℕ) (o : Option ℕ) → is_due now o ≡ true → DueAt now o
due-of now none h = tt
due-of now (some d) h = ground arith

pub of-due : (now : ℕ) (o : Option ℕ) → DueAt now o → is_due now o ≡ true
of-due now none h = refl
of-due now (some d) h = ground arith

abbrev pub IsAllowed : List String → String → Type 0
IsAllowed excluded channel = (c : String) → Memᴰ c excluded → str_eq c channel ≡ false

pub contains-IsAllowed :
    (excluded : List String) (channel : String)
    → contains channel excluded ≡ false
    → IsAllowed excluded channel
unfolding contains
contains-IsAllowed excluded channel h c m = any-none (λ n. str_eq n channel) c excluded h m

pub of-allowed :
    (excluded : List String) (channel : String)
    → IsAllowed excluded channel
    → contains channel excluded ≡ false
unfolding contains
of-allowed excluded channel h = none-any (λ n. str_eq n channel) excluded h

-- No parent, or one whose row is done.
abbrev pub ParentIsDone : List QueuedTask → Option ℕ → Type 0
ParentIsDone rows none = Unit
ParentIsDone rows (some p) = (r : QueuedTask) × Memᴰ r rows × (r.id ≡ p) × (r.state ≡ done)

done-of : (s : QueuedTaskState) → is_done s ≡ true → s ≡ done
done-of s h = ground arith

pub enqueued-of : (s : QueuedTaskState) → is_enqueued s ≡ true → s ≡ enqueued
enqueued-of s h = ground arith

pub parent-of :
    (rows : List QueuedTask) (o : Option ℕ) → parent_is_done rows o ≡ true → ParentIsDone rows o
parent-of rows none h = tt
parent-of rows (some p) h =
    let (r, m, e) = any-member (λ r. r.id == p && is_done r.state) rows h in
    (r, m, (==_iff r.id p).0 (ground arith), done-of r.state (ground arith))

pub of-parent :
    (rows : List QueuedTask) (o : Option ℕ) → ParentIsDone rows o → parent_is_done rows o ≡ true
of-parent rows none h = refl
of-parent rows (some p) (r, m, i, d) =
    member-any (λ r. r.id == p && is_done r.state) r rows m (rw ((==_iff r.id p).1 i) (rw d refl))

-- Of two dates of the same priority the earlier comes first, and none comes last.
abbrev pub DateFrom : Option ℕ → Option ℕ → Type 0
DateFrom (some a) (some b) = a ≤ b
DateFrom (some a) none = Unit
DateFrom none (some b) = ⊥
DateFrom none none = Unit

-- No row of a higher priority, nor one of the same priority and an earlier date.
abbrev pub ComesFirst : QueuedTask → QueuedTask → Type 0
ComesFirst t u =
    (ltb_ℤ t.priority u.priority ≡ false)
    × (ltb_ℤ u.priority t.priority ≡ false → DateFrom t.date_enqueued u.date_enqueued)

date_before-DateFrom : (a b : Option ℕ) → date_before b a ≡ false → DateFrom a b
date_before-DateFrom none none h = tt
date_before-DateFrom none (some b) h = ground arith
date_before-DateFrom (some a) none h = tt
date_before-DateFrom (some a) (some b) h = ground arith

pub unranked-ComesFirst : (t u : QueuedTask) → ranks_before u t ≡ false → ComesFirst t u
unfolding ranks_before
unranked-ComesFirst t u h =
    (ground arith, (λ e. date_before-DateFrom t.date_enqueued u.date_enqueued (ground arith)))
