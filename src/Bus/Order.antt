-- ===== src/Bus/Order.antt =====
-- The order in which the listeners of an event stand.
use fastedgy.Prelude.{
  Bool, true, false, List, [], ◌∷◌, ◌++◌, filter, not, ◌&&◌, if◌then◌else◌, ◌≡◌, refl, ap, ◌∙◌,
  arith, Bool-cases, inl, inr, all,
}
use fastedgy.Prelude.Int.{ltb_ℤ}
use fastedgy.Bus.{Listener, insert_by_priority, sort_by_priority}

-- No listener in `ls` goes before `l`.
unfoldable pub none_before : Listener → List Listener → Bool
none_before l ls = all (λ m. not (ltb_ℤ m.priority l.priority)) ls

unfoldable pub in_order : List Listener → Bool
in_order [] = true
in_order (l ∷ ls) = none_before l ls && in_order ls

-- `l` behind all listeners that do not come after it.
unfoldable pub place : Listener → List Listener → List Listener
place l [] = l ∷ []
place l (m ∷ ms) =
    let rest = place l ms in if ltb_ℤ l.priority m.priority then l ∷ m ∷ ms else m ∷ rest

none_before_trans :
    (l m : Listener) (ls : List Listener)
    → ltb_ℤ m.priority l.priority ≡ false
    → none_before m ls ≡ true
    → none_before l ls ≡ true
unfolding none_before
none_before_trans l m [] h k = refl
none_before_trans l m (x ∷ xs) h k = ground (arith, none_before_trans l m xs h)

none_before-place :
    (l m : Listener) (ls : List Listener)
    → none_before l (place m ls) ≡ (not (ltb_ℤ m.priority l.priority) && none_before l ls)
unfolding none_before place
none_before-place l m [] = ground arith
none_before-place l m (x ∷ xs) = ground (arith, none_before-place l m xs)

insert_by_priority-first :
    (l : Listener) (ls : List Listener) → none_before l ls ≡ true → insert_by_priority l ls ≡ l ∷ ls
unfolding insert_by_priority none_before
insert_by_priority-first l [] h = refl
insert_by_priority-first l (m ∷ ms) h =
    let first : ltb_ℤ m.priority l.priority ≡ false = ground arith in rw first refl

pub in_order-place :
    (l : Listener) (ls : List Listener) → in_order ls ≡ true → in_order (place l ls) ≡ true
unfolding in_order place none_before
in_order-place l [] h = refl
in_order-place l (m ∷ ms) h = elim (Bool-cases (ltb_ℤ l.priority m.priority)) [
  | inl y ↦ let rest = none_before_trans l m ms (ground arith) (ground arith) in rw y (ground arith)
  | inr n ↦
      let rest = in_order-place l ms (ground arith) in
      let first = none_before-place m l ms in rw n (ground arith)
]

-- A listener that goes before the first of a list in order goes before it.
place-first :
    (l m : Listener) (ms : List Listener)
    → ltb_ℤ l.priority m.priority ≡ true
    → none_before m ms ≡ true
    → place l ms ≡ l ∷ ms
unfolding place none_before
place-first l m [] h k = refl
place-first l m (x ∷ xs) h k =
    let before : ltb_ℤ l.priority x.priority ≡ true = ground arith in rw before refl

-- The sort of a list in order with one listener more.
pub sort-append :
    (ls : List Listener) (l : Listener)
    → in_order ls ≡ true
    → sort_by_priority (ls ++ l ∷ []) ≡ place l ls
unfolding sort_by_priority insert_by_priority in_order place
sort-append [] l h = refl
sort-append (m ∷ ms) l h = elim (Bool-cases (ltb_ℤ l.priority m.priority)) [
  | inl y ↦
      ap (insert_by_priority m)
        (sort-append ms l (ground arith) ∙ place-first l m ms y (ground arith))
      ∙ rw y (ap (λ r. l ∷ r) (insert_by_priority-first m ms (ground arith)))
  | inr n ↦
      let behind = none_before-place m l ms in
      ap (insert_by_priority m) (sort-append ms l (ground arith))
      ∙ insert_by_priority-first m (place l ms) (ground arith)
      ∙ rw n refl
]

none_before-filter :
    (l : Listener) (keep : Listener → Bool) (ls : List Listener)
    → none_before l ls ≡ true
    → none_before l (filter keep ls) ≡ true
unfolding none_before
none_before-filter l keep [] h = refl
none_before-filter l keep (m ∷ ms) h =
    let rest = none_before-filter l keep ms (ground arith) in ground arith

pub in_order-filter :
    (keep : Listener → Bool) (ls : List Listener)
    → in_order ls ≡ true
    → in_order (filter keep ls) ≡ true
unfolding in_order
in_order-filter keep [] h = refl
in_order-filter keep (m ∷ ms) h =
    let rest = in_order-filter keep ms (ground arith) in
    let first = none_before-filter m keep ms (ground arith) in ground arith
