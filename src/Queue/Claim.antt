-- ===== src/Queue/Claim.antt =====
-- Which row the claim takes.
pub mod Ready
use fastedgy.Prelude.{
  ◌≤◌, ◌==◌, ==_iff, ℕ, ◌≡◌, refl, sym, Bool, true, false, ◌&&◌, ◌⊎◌, Option, none, some, String,
  List, [], ◌∷◌, All, not, arith, Bool-cases, inl, inr,
}
use mathlib.Core.Path.{subst}
use mathlib.Core.List.{Memᴰ}
use fastedgy.Prelude.Int.{ltb_ℤ}
use fastedgy.Prelude.Any.{any-member, member-any, any-none, none-any}
use fastedgy.QueuedTask.{QueuedTask, QueuedTaskState, enqueued, doing, done, is_enqueued}
use text.Mathlib.Text.{◌==◌ as str_eq}
use fastedgy.Queue.Claim.Ready.{
  DueAt, due-of, of-due, IsAllowed, contains-IsAllowed, of-allowed, ParentIsDone, enqueued-of,
  parent-of, of-parent, ComesFirst, unranked-ComesFirst,
}
use fastedgy.Queue.{
  is_due, parent_is_done, contains, is_done, date_before, is_ready, ranks_before, better, pick,
  claim, set_claimed, update_id,
}

ranks_before_asym : (a b : QueuedTask) → ranks_before a b ≡ true → ranks_before b a ≡ false
unfolding ranks_before
ranks_before_asym a b h = ground arith

ranks_before_trans :
    (a b c : QueuedTask)
    → ranks_before a b ≡ false
    → ranks_before b c ≡ false
    → ranks_before a c ≡ false
unfolding ranks_before
ranks_before_trans a b c h k = ground arith

-- No row that passes `test` stands before `t`.
abbrev pub NoneBefore : (QueuedTask → Bool) → QueuedTask → List QueuedTask → Type 0
NoneBefore test t rows = All (λ u. test u ≡ true → ranks_before u t ≡ false) rows

NoneBefore-trans :
    (test : QueuedTask → Bool) (t best : QueuedTask) (rows : List QueuedTask)
    → ranks_before best t ≡ false
    → NoneBefore test best rows
    → NoneBefore test t rows
NoneBefore-trans test t best [] h a = tt
NoneBefore-trans test t best (u ∷ us) h a =
    (λ p. ranks_before_trans u best t (a.0 p) h, NoneBefore-trans test t best us h a.1)

ranks_before_irrefl : (t : QueuedTask) → ranks_before t t ≡ false
unfolding ranks_before
ranks_before_irrefl t = ground arith

-- What `pick` promises of the row it returns.
abbrev pub IsPick : (QueuedTask → Bool) → List QueuedTask → QueuedTask → Type 0
IsPick test rows t = Memᴰ t rows × (test t ≡ true) × NoneBefore test t rows

abbrev Picked : (QueuedTask → Bool) → List QueuedTask → Option QueuedTask → Type 0
Picked test rows none = All (λ u. test u ≡ false) rows
Picked test rows (some t) = IsPick test rows t

none_passes :
    (test : QueuedTask → Bool) (t : QueuedTask) (rows : List QueuedTask)
    → All (λ u. test u ≡ false) rows
    → NoneBefore test t rows
none_passes test t [] a = tt
none_passes test t (u ∷ us) a = (λ p. cc a.0, none_passes test t us a.1)

Picked-skip :
    (test : QueuedTask → Bool) (t : QueuedTask) (rows : List QueuedTask) (o : Option QueuedTask)
    → test t ≡ false
    → Picked test rows o
    → Picked test (t ∷ rows) o
Picked-skip test t rows none h a = (h, a)
Picked-skip test t rows (some u) h a = (Memᴰ.tail a.0, a.1, (λ p. cc h, a.2))

better-cases :
    (t best : QueuedTask)
    → ((ranks_before best t ≡ true) × (better t (some best) ≡ best))
      ⊎ ((ranks_before best t ≡ false) × (better t (some best) ≡ t))
unfolding better
better-cases t best = ground arith

better-none : (t : QueuedTask) → better t none ≡ t
unfolding better
better-none t = refl

Picked-better :
    (test : QueuedTask → Bool) (t : QueuedTask) (rows : List QueuedTask) (o : Option QueuedTask)
    → test t ≡ true
    → Picked test rows o
    → IsPick test (t ∷ rows) (better t o)
Picked-better test t rows none h a =
    subst (IsPick test (t ∷ rows)) (sym (better-none t))
      (Memᴰ.head refl, h, (λ _. ranks_before_irrefl t, none_passes test t rows a))
Picked-better test t rows (some best) h a = elim (better-cases t best) [
  | inl (first, e) ↦
      subst (IsPick test (t ∷ rows)) (sym e)
        (Memᴰ.tail a.0, a.1, (λ _. ranks_before_asym best t first, a.2))
  | inr (other, e) ↦
      subst (IsPick test (t ∷ rows)) (sym e) (
        Memᴰ.head refl,
        h,
        (λ _. ranks_before_irrefl t, NoneBefore-trans test t best rows other a.2),
      )
]

pick-Picked :
    (test : QueuedTask → Bool) (rows : List QueuedTask) → Picked test rows (pick test rows)
unfolding pick
pick-Picked test [] = tt
pick-Picked test (t ∷ ts) = elim (Bool-cases (test t)) [
  | inl h ↦ rw h (Picked-better test t ts (pick test ts) h (pick-Picked test ts))
  | inr h ↦ rw h (Picked-skip test t ts (pick test ts) h (pick-Picked test ts))
]

All-Memᴰ :
    (P : QueuedTask → Type 0) (u : QueuedTask) (rows : List QueuedTask)
    → All P rows
    → Memᴰ u rows
    → P u
All-Memᴰ P u [] a m = elim m [ ]
All-Memᴰ P u (v ∷ vs) a (Memᴰ.head e) = subst P (sym e) a.0
All-Memᴰ P u (v ∷ vs) a (Memᴰ.tail m) = All-Memᴰ P u vs a.1 m

module _ (server : String) (now : ℕ) (excluded : List String) (locked : ℕ → Bool)
    (rows : List QueuedTask) where
  abbrev pub can_claim : QueuedTask → Bool
  can_claim t = is_ready now excluded rows t && not (locked t.id)

  -- A row that the claim may take.
  abbrev pub Claimable : QueuedTask → Type 0
  Claimable t =
      (t.state ≡ enqueued)
      × DueAt now t.date_enqueued
      × IsAllowed excluded t.channel
      × ParentIsDone rows t.parent_task
      × (locked t.id ≡ false)

  can_claim-Claimable : (t : QueuedTask) → can_claim t ≡ true → Claimable t
  unfolding is_ready
  can_claim-Claimable t h = (
    enqueued-of t.state (ground arith),
    due-of now t.date_enqueued (ground arith),
    contains-IsAllowed excluded t.channel (ground arith),
    parent-of rows t.parent_task (ground arith),
    ground arith,
  )

  Claimable-can_claim : (t : QueuedTask) → Claimable t → can_claim t ≡ true
  unfolding is_ready
  Claimable-can_claim t (e, d, c, p, l) = rw e (
      rw (of-due now t.date_enqueued d)
        (rw (of-allowed excluded t.channel c) (rw (of-parent rows t.parent_task p) (rw l refl))))

  -- What a claim does, by the row it returns.
  abbrev pub Claims : Option QueuedTask × List QueuedTask → Type 0
  Claims (none, rows') = (rows' ≡ rows) × ((u : QueuedTask) → Memᴰ u rows → ¬ Claimable u)
  Claims (some c, rows') =
      (t : QueuedTask) × Memᴰ t rows
      × Claimable t
      × ((u : QueuedTask) → Memᴰ u rows → Claimable u → ComesFirst t u)
      × (c ≡ record t { state = doing; date_started = some now; claimed_by = some server })
      × (rows' ≡ update_id t.id (set_claimed server now) rows)

  claim_of :
      (o : Option QueuedTask)
      → Picked can_claim rows o
      → Claims (elim o [
        | none ↦ (none, rows)
        | some t ↦ (some (set_claimed server now t), update_id t.id (set_claimed server now) rows)
      ])
  claim_of none a = (
    refl,
    (λ u m c.
        let yes = Claimable-can_claim u c in
        let no = All-Memᴰ (λ v. can_claim v ≡ false) u rows a m in cc),
  )
  claim_of (some t) (m, y, b) = (
    t,
    m,
    can_claim-Claimable t y,
    (λ u k c. unranked-ComesFirst t u (
        All-Memᴰ (λ v. can_claim v ≡ true → ranks_before v t ≡ false) u rows b k
          (Claimable-can_claim u c))),
    refl,
    refl,
  )

  -- A claim takes a row of the table that is enqueued and due, whose channel is not excluded, whose
  -- parent, if any, is done, and that no other transaction holds; no other such row has a higher
  -- priority, or the same priority and an earlier date. It marks that row as doing since now and as
  -- owned by the server, and changes no row with another id. It returns nothing only where there is
  -- no such row, and then changes nothing.
  pub claim-Claims : Claims (claim server now excluded locked rows)
  unfolding claim
  claim-Claims = claim_of (pick can_claim rows) (pick-Picked can_claim rows)
