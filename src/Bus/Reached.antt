-- ===== src/Bus/Reached.antt =====
-- The buses that the calls reach: the order of their listeners, and where a listener is registered.
use fastedgy.Prelude.{
  ℕ, true, Option, none, some, String, List, [], ◌∷◌, not, ◌==◌, if◌then◌else◌, ◌≡◌, refl,
  Bool-cases, inl, inr,
}
use fastedgy.Prelude.Dict.{lookup, insert, pop, lookup-insert, lookup-pop}
use fastedgy.Prelude.Int.{ℤ, ltb_ℤ}
use text.Mathlib.Text.{◌==◌ as str_eq}
use fastedgy.Bus.{
  Listener, listeners, listeners_or_empty, is_filled, register, assign, unregister_from, unregister,
  clear,
}
use fastedgy.Bus.Order.{in_order, place, sort-append, in_order-place, in_order-filter}

-- An entry of the bus is in order and not empty.
abbrev pub IsEntry : Option (List Listener) → Type 0
IsEntry none = Unit
IsEntry (some ls) = (in_order ls ≡ true) × (is_filled ls ≡ true)

abbrev pub IsValid : List (String × List Listener) → Type 0
IsValid bus = (key : String) → IsEntry (lookup key bus)

in_order-listeners :
    (o : Option (List Listener)) → IsEntry o → in_order (listeners_or_empty o) ≡ true
unfolding in_order
in_order-listeners none h = refl
in_order-listeners (some ls) h = h.0

-- In a valid bus a listener is registered behind those of its key that do not come after it by
-- priority and before the others, and the listeners of no other key change.
pub register-place :
    (key : String) (handler : ℕ) (priority : ℤ) (bus : List (String × List Listener)) (k : String)
    → IsValid bus
    → listeners k (register key handler priority bus) ≡ (
        if str_eq key k
        then place (record { priority = priority; handler = handler }) (listeners key bus)
        else listeners k bus)
unfolding register
register-place key handler priority bus k v =
    let sorted =
      sort-append (listeners key bus) (record { priority = priority; handler = handler })
        (in_order-listeners (lookup key bus) (v key)) in
    rw sorted (
      rw
        (lookup-insert key k
          (place (record { priority = priority; handler = handler }) (listeners key bus)) bus)
        (elim (Bool-cases (str_eq key k)) [ inl y ↦ rw y refl | inr n ↦ rw n refl ]))

is_filled-place : (l : Listener) (ls : List Listener) → is_filled (place l ls) ≡ true
unfolding place
is_filled-place l [] = refl
is_filled-place l (m ∷ ms) = elim (Bool-cases (ltb_ℤ l.priority m.priority)) [
  | inl y ↦ rw y refl
  | inr n ↦ rw n refl
]

-- The calls that change a bus.
pub data Step : List (String × List Listener) → List (String × List Listener) → Type 0 where
  registers :
      (key : String) (handler : ℕ) (priority : ℤ) (bus : List (String × List Listener))
      → Step bus (register key handler priority bus)
  unregisters :
      (key : String) (handler : ℕ) (bus : List (String × List Listener))
      → Step bus (unregister key handler bus)
  clears : (key : Option String) (bus : List (String × List Listener)) → Step bus (clear key bus)

pub data Reach : List (String × List Listener) → Type 0 where
  fresh : Reach []
  next : {a b : List (String × List Listener)} → Reach a → Step a b → Reach b

insert-IsValid :
    (key : String) (ls : List Listener) (bus : List (String × List Listener))
    → IsValid bus
    → IsEntry (some ls)
    → IsValid (insert key ls bus)
insert-IsValid key ls bus v e k =
    rw (lookup-insert key k ls bus)
      (elim (Bool-cases (str_eq key k)) [ inl y ↦ rw y e | inr n ↦ rw n (v k) ])

pop-IsValid :
    (key : String) (bus : List (String × List Listener)) → IsValid bus → IsValid (pop key bus)
pop-IsValid key bus v k =
    rw (lookup-pop key k bus)
      (elim (Bool-cases (str_eq key k)) [ inl y ↦ rw y tt | inr n ↦ rw n (v k) ])

register-IsValid :
    (key : String) (handler : ℕ) (priority : ℤ) (bus : List (String × List Listener))
    → IsValid bus
    → IsValid (register key handler priority bus)
unfolding register
register-IsValid key handler priority bus v =
    let l : Listener = record { priority = priority; handler = handler } in
    let ordered = in_order-listeners (lookup key bus) (v key) in
    rw (sort-append (listeners key bus) l ordered) (
      insert-IsValid key (place l (listeners key bus)) bus v
        (in_order-place l (listeners key bus) ordered, is_filled-place l (listeners key bus)))

assign-IsValid :
    (key : String) (ls : List Listener) (bus : List (String × List Listener))
    → IsValid bus
    → in_order ls ≡ true
    → IsValid (assign key ls bus)
assign-IsValid key [] bus v h = pop-IsValid key bus v
assign-IsValid key (l ∷ ls) bus v h = insert-IsValid key (l ∷ ls) bus v (h, refl)

unregister_from-IsValid :
    (o : Option (List Listener)) (key : String) (handler : ℕ) (bus : List (String × List Listener))
    → IsEntry o
    → IsValid bus
    → IsValid (unregister_from o key handler bus)
unregister_from-IsValid none key handler bus e v = v
unregister_from-IsValid (some ls) key handler bus e v =
    assign-IsValid key _ bus v (in_order-filter (λ l. not (l.handler == handler)) ls e.0)

Step-IsValid : {a b : List (String × List Listener)} → Step a b → IsValid a → IsValid b
unfolding unregister clear lookup
Step-IsValid (registers key handler priority bus) v = register-IsValid key handler priority bus v
Step-IsValid (unregisters key handler bus) v =
    unregister_from-IsValid (lookup key bus) key handler bus (v key) v
Step-IsValid (clears none bus) v = λ k. tt
Step-IsValid (clears (some key) bus) v = pop-IsValid key bus v

-- In every bus that the calls reach from an empty one, the listeners of each key stand in the order
-- of their priorities, and no key is kept without listeners.
pub Reach-IsOrdered : {bus : List (String × List Listener)} → Reach bus → IsValid bus
unfolding lookup
Reach-IsOrdered fresh k = tt
Reach-IsOrdered (next r s) k = Step-IsValid s (Reach-IsOrdered r) k
