-- ===== src/Bus.antt =====
-- fastedgy/bus/service.py: the event bus and its listeners by priority.
-- A key is normalised, so that equal keys are equal texts, and a handler is its identity. What a
-- handler does to the store, and how it ends, is a parameter.
pub mod Order
pub mod Reached
mod Examples
use fastedgy.Prelude.{
  ℕ, Bool, true, false, Option, none, some, String, List, [], ◌∷◌, ◌++◌, filter, not, ◌==◌,
  if◌then◌else◌,
}
use fastedgy.Prelude.Dict.{lookup, insert, pop}
use fastedgy.Prelude.Int.{ℤ, ltb_ℤ}

pub record Listener : Type 0 where
  pub priority : ℤ
  pub handler : ℕ

abbrev pub listeners_or_empty : Option (List Listener) → List Listener
listeners_or_empty none = []
listeners_or_empty (some ls) = ls

-- `self._listeners.get(normalized_key, [])`
abbrev pub listeners : String → List (String × List Listener) → List Listener
listeners key bus = listeners_or_empty (lookup key bus)

-- A stable sort by priority, as Python's is.
unfoldable pub insert_by_priority : Listener → List Listener → List Listener
insert_by_priority l [] = l ∷ []
insert_by_priority l (m ∷ ms) =
    let rest = insert_by_priority l ms in
    if ltb_ℤ m.priority l.priority then m ∷ rest else l ∷ m ∷ ms

unfoldable pub sort_by_priority : List Listener → List Listener
sort_by_priority [] = []
sort_by_priority (l ∷ ls) = insert_by_priority l (sort_by_priority ls)

unfoldable pub register :
    String → ℕ → ℤ → List (String × List Listener) → List (String × List Listener)
unfolding sort_by_priority
register key handler priority bus =
    insert key
      (sort_by_priority
        (listeners key bus ++ (record { priority = priority; handler = handler }) ∷ []))
      bus

-- `if not self._listeners[key]: del self._listeners[key]`, on assigning `ls`.
abbrev pub assign :
    String → List Listener → List (String × List Listener) → List (String × List Listener)
assign key [] bus = pop key bus
assign key (l ∷ ls) bus = insert key (l ∷ ls) bus

abbrev pub unregister_from :
    Option (List Listener)
    → String
    → ℕ
    → List (String × List Listener)
    → List (String × List Listener)
unregister_from none key handler bus = bus
unregister_from (some ls) key handler bus =
    assign key (filter (λ l. not (l.handler == handler)) ls) bus

unfoldable pub unregister :
    String → ℕ → List (String × List Listener) → List (String × List Listener)
unregister key handler bus = unregister_from (lookup key bus) key handler bus

unfoldable pub clear : Option String → List (String × List Listener) → List (String × List Listener)
clear none bus = []
clear (some key) bus = pop key bus

abbrev pub is_filled : List Listener → Bool
is_filled [] = false
is_filled (_ ∷ _) = true

unfoldable pub has_listeners : String → List (String × List Listener) → Bool
has_listeners key bus = is_filled (listeners key bus)

-- How a handler ends: well, by an exception that is logged, or by one of `critical_exceptions`.
pub data Ending : Type 0 where
  handled logged critical : Ending

module _ {Store : Type 0} (handle : ℕ → Store → Ending × Store) where
  abbrev pub go_on : Ending → Store → Bool × Store → Bool × Store
  go_on handled store rest = rest
  go_on logged store rest = rest
  go_on critical store rest = (true, store)

  -- The loop over the listeners: whether an exception is raised, and what they leave.
  pub dispatch_to : List Listener → Store → Bool × Store
  dispatch_to [] store = (false, store)
  dispatch_to (l ∷ ls) store =
      let (ending, after) = handle l.handler store in go_on ending after (dispatch_to ls after)

  unfoldable pub dispatch : String → List (String × List Listener) → Store → Bool × Store
  unfolding dispatch_to
  dispatch key bus store = dispatch_to (listeners key bus) store
