-- ===== src/Bus/Examples.antt =====
-- A bus with three listeners, and the theorems at it.
use fastedgy.Prelude.{◌==◌, ℕ, true, false, String, List, [], ◌∷◌, ◌≡◌, refl, map}
use fastedgy.Prelude.Dict.{lookup, insert}
use fastedgy.Prelude.Int.{pos}
use fastedgy.Bus.{
  Listener, listeners, insert_by_priority, register, Ending, logged, critical, dispatch,
}
use fastedgy.Bus.Reached.{Step, Reach, IsValid, Reach-IsOrdered, register-place}
use fastedgy.Bus.Order.{place}

abbrev two : List (String × List Listener)
two = register "saved" 2 (pos 50) (register "saved" 1 (pos 100) [])

abbrev three : List (String × List Listener)
three = register "saved" 3 (pos 50) two

two-Reach : Reach two
two-Reach =
    Reach.next (Reach.next Reach.fresh (Step.registers "saved" 1 (pos 100) []))
      (Step.registers "saved" 2 (pos 50) (register "saved" 1 (pos 100) []))

-- The later of two listeners of one priority is called later.
called_in_order : map (λ l. l.handler) (listeners "saved" three) ≡ 2 ∷ 3 ∷ 1 ∷ []
unfolding register lookup insert insert_by_priority
called_in_order = refl

-- A handler that adds itself to what was called; the third raises a critical exception.
abbrev notes : ℕ → List ℕ → Ending × List ℕ
notes n called = elim (n == 3) [ true ↦ (critical, n ∷ called) | false ↦ (logged, n ∷ called) ]

stops_at_critical : dispatch notes "saved" three [] ≡ (true, 3 ∷ 2 ∷ [])
unfolding dispatch register lookup insert insert_by_priority
stops_at_critical = refl

Reach-IsOrdered_example : IsValid two
Reach-IsOrdered_example = Reach-IsOrdered two-Reach

register-place_example :
    listeners "saved" three
    ≡ place (record { priority = pos 50; handler = 3 }) (listeners "saved" two)
register-place_example = register-place "saved" 3 (pos 50) two "saved" (Reach-IsOrdered two-Reach)
