-- ===== src/Queue/Cascade/Tree.antt =====
-- Which rows a cascade reaches.
use fastedgy.Prelude.{
  ℕ, zero, suc, ◌≤◌, ◌≡◌, ◌⊎◌, refl, sym, ap, ◌∙◌, true, false, ◌&&◌, ◌||◌, some, List, [], ◌∷◌,
  map, inl, inr, Bool-cases, ◌==◌, ==_iff, arith,
}
use mathlib.Core.List.{Memᴰ}
use mathlib.Core.Path.{subst}
use fastedgy.Prelude.Keys.{member, member-append}
use fastedgy.QueuedTask.{QueuedTask}
use fastedgy.Queue.Cascade.{
  anchor, has_parent, children, next_level, levels, descendants, is_open, is_cascaded, Ending,
  set_cascaded, cascade_row, is_failed, is_cancelled, cascade_to_descendants, Cascaded, updated,
  value_error,
}

-- The row with the second number stands that many levels below one of the identifiers.
pub data Below (rows : List QueuedTask) (ids : List ℕ) : ℕ → ℕ → Type 0 where
  here : {i : ℕ} → member i ids ≡ true → Below rows ids 0 i
  child :
      {n p : ℕ} (t : QueuedTask)
      → Below rows ids n p
      → Memᴰ t rows
      → t.parent_task ≡ some p
      → Below rows ids (suc n) t.id

-- `t` is in the table, is `i`, and has the parent `p`.
abbrev IsChild : List QueuedTask → ℕ → ℕ → QueuedTask → Type 0
IsChild rows p i t = Memᴰ t rows × (t.parent_task ≡ some p) × (t.id ≡ i)

member-children :
    (p i : ℕ) (rows : List QueuedTask)
    → member i (children p rows) ≡ true
    → (t : QueuedTask) × IsChild rows p i t
unfolding member children
member-children p i [] h = ground arith
member-children p i (t ∷ ts) h = elim (Bool-cases (has_parent p t.parent_task && t.id == i)) [
  | inl y ↦ (t, (Memᴰ.head refl, ground arith, ground arith))
  | inr n ↦ let (u, c) = member-children p i ts (ground arith) in (u, (Memᴰ.tail c.0, c.1, c.2))
]

children-member :
    (p i : ℕ) (t : QueuedTask) (rows : List QueuedTask)
    → IsChild rows p i t
    → member i (children p rows) ≡ true
unfolding member children
children-member p i t [] (m, _, _) = elim m [ ]
children-member p i t (u ∷ us) (Memᴰ.head e, h, s) =
    let parent : u.parent_task ≡ some p = ap (λ (x : QueuedTask). x.parent_task) (sym e) ∙ h in
    let same : u.id ≡ i = ap (λ (x : QueuedTask). x.id) (sym e) ∙ s in ground arith
children-member p i t (u ∷ us) (Memᴰ.tail m, h, s) =
    let rest = children-member p i t us (m, h, s) in ground arith

member-next_level :
    (rows : List QueuedTask) (i : ℕ) (ids : List ℕ)
    → member i (next_level rows ids) ≡ true
    → (p : ℕ) × (member p ids ≡ true) × (t : QueuedTask) × IsChild rows p i t
unfolding member next_level
member-next_level rows i [] h = ground arith
member-next_level rows i (p ∷ ps) h = elim (Bool-cases (member i (children p rows))) [
  | inl y ↦ let (u, c) = member-children p i rows y in (p, ground arith, u, c)
  | inr n ↦
      let split = member-append i (children p rows) (next_level rows ps) in
      let (q, m, u, c) = member-next_level rows i ps (ground arith) in (q, ground arith, u, c)
]

next_level-member :
    (rows : List QueuedTask) (i p : ℕ) (t : QueuedTask) (ids : List ℕ)
    → member p ids ≡ true
    → IsChild rows p i t
    → member i (next_level rows ids) ≡ true
unfolding member next_level
next_level-member rows i p t [] m c = ground arith
next_level-member rows i p t (q ∷ qs) m c =
    let split = member-append i (children q rows) (next_level rows qs) in
    elim (Bool-cases (q == p)) [
      | inl y ↦
          let found =
            children-member q i t rows (c.0, c.1 ∙ ap some (sym ((==_iff q p).0 y)), c.2) in
          ground arith
      | inr n ↦ let found = next_level-member rows i p t qs (ground arith) c in ground arith
    ]

module _ (rows : List QueuedTask) (ids : List ℕ) where
  -- A level further up.
  Below-up : {n i : ℕ} → Below rows (next_level rows ids) n i → Below rows ids (suc n) i
  Below-up (here {i = i} h) =
      let (p, m, t, k) = member-next_level rows i ids h in
      subst (Below rows ids 1) k.2 (child t (here m) k.0 k.1)
  Below-up (child t b m h) = child t (Below-up b) m h

  Below-down : {n i : ℕ} → Below rows ids (suc n) i → Below rows (next_level rows ids) n i
  Below-down (child {n = zero} {p = p} t (here k) m h) =
      here (next_level-member rows t.id p t ids k (m, h, refl))
  Below-down (child {n = suc n} t b m h) = child t (Below-down b) m h

-- Within `n` levels.
abbrev pub Within : List QueuedTask → List ℕ → ℕ → ℕ → Type 0
Within rows ids n i = (k : ℕ) × (k ≤ n) × Below rows ids k i

levels-Within :
    (n : ℕ) (rows : List QueuedTask) (ids : List ℕ) (i : ℕ)
    → member i (levels n rows ids) ≡ true
    → Within rows ids n i
unfolding levels
levels-Within zero rows ids i h = (0, omega arith, here h)
levels-Within (suc n) rows ids i h = elim (Bool-cases (member i ids)) [
  | inl y ↦ (0, omega arith, here y)
  | inr n0 ↦
      let split = member-append i ids (levels n rows (next_level rows ids)) in
      let (k, le, b) = levels-Within n rows (next_level rows ids) i (ground arith) in
      (suc k, omega arith, Below-up rows ids b)
]

pub Within-levels :
    (n k : ℕ) (rows : List QueuedTask) (ids : List ℕ) (i : ℕ)
    → k ≤ n
    → Below rows ids k i
    → member i (levels n rows ids) ≡ true
unfolding levels
Within-levels zero zero rows ids i le (here h) = h
Within-levels zero (suc k) rows ids i le b = ground arith
Within-levels (suc n) zero rows ids i le (here h) =
    let split = member-append i ids (levels n rows (next_level rows ids)) in ground arith
Within-levels (suc n) (suc k) rows ids i le b =
    let split = member-append i ids (levels n rows (next_level rows ids)) in
    let rest =
      Within-levels n k rows (next_level rows ids) i (omega arith) (Below-down rows ids b) in
    ground arith

-- A task that fails or is cancelled ends the open rows of its tree.
abbrev pub Reached : ℕ → ℕ → List QueuedTask → QueuedTask → Type 0
Reached root max_depth rows t =
    Within rows (anchor root rows) max_depth t.id × (is_open t.state ≡ true)

-- What a cascade does, by what it returns.
abbrev pub Cascades : ℕ → ℕ → Ending → ℕ → List QueuedTask → Cascaded → Type 0
Cascades now root e max_depth rows value_error =
    is_failed e.new_state || is_cancelled e.new_state ≡ false
Cascades now root e max_depth rows (updated n rows') =
    (is_failed e.new_state || is_cancelled e.new_state ≡ true)
    × (change : QueuedTask → QueuedTask) × (rows' ≡ map change rows)
    × ((t : QueuedTask)
        → (Reached root max_depth rows t → change t ≡ set_cascaded now e t)
          × ((change t ≡ t) ⊎ Reached root max_depth rows t))

module _ (now root : ℕ) (e : Ending) (max_depth : ℕ) (rows : List QueuedTask) where
  abbrev tree : List ℕ
  tree = descendants max_depth root rows

  cascade_row-Reached :
      (t : QueuedTask)
      → Reached root max_depth rows t
      → cascade_row now e tree t ≡ set_cascaded now e t
  unfolding cascade_row is_cascaded descendants
  cascade_row-Reached t ((k, le, b), o) =
      let found = Within-levels max_depth k rows (anchor root rows) t.id le b in ground arith

  cascade_row-cases :
      (t : QueuedTask) → (cascade_row now e tree t ≡ t) ⊎ Reached root max_depth rows t
  unfolding cascade_row is_cascaded descendants
  cascade_row-cases t = elim (Bool-cases (is_cascaded tree t)) [
    | inl y ↦
        inr (levels-Within max_depth rows (anchor root rows) t.id (ground arith), ground arith)
    | inr n ↦ inl (ground arith)
  ]

  -- A cascade raises a ValueError just where the new state is neither failed nor cancelled. Otherwise
  -- it gives the new state to every enqueued or running row that stands at most `max_depth` levels
  -- below the row of the root, or is that row, and changes no other row.
  pub cascade_to_descendants-Cascades :
      Cascades now root e max_depth rows (cascade_to_descendants now root e max_depth rows)
  unfolding cascade_to_descendants
  cascade_to_descendants-Cascades =
      elim (Bool-cases (is_failed e.new_state || is_cancelled e.new_state)) [
        | inl y ↦
            rw y
              (y, cascade_row now e tree, refl, λ t. (cascade_row-Reached t, cascade_row-cases t))
        | inr n ↦ rw n n
      ]
