-- ===== src/AccessGuard/Examples.antt =====
-- Two guards on a base and a class, a look-up between their registrations, and the theorem at them.
use fastedgy.Prelude.{◌≡◌, ◌↔◌, refl, false, none, some, Bool, String, List, [], ◌∷◌, if◌then◌else◌}
use fastedgy.Prelude.Dict.{lookup, insert}
use fastedgy.AccessGuard.{
  ModelAction, read_action, delete_action, Heard, returns, raises, awaitable, Guard, passes, denied,
  not_synchronous, ends_sync, ends_async, ModelAccessGuardRegistry, new_registry, register_guard,
  check_guards, get_guards, check_access, acheck_access, Reach, unregistered, registers, looks_up,
}
use fastedgy.AccessGuard.Granted.{AllGrant, Reach-AllGrant}
use text.Mathlib.Text.{◌==◌ as str_eq}

abbrev mro : String → List String
mro c = if str_eq c "Invoice" then "Invoice" ∷ "Document" ∷ [] else c ∷ []

abbrev reads_only : ModelAction → Heard
reads_only delete_action = raises
reads_only _ = returns

abbrev keeps : Guard Bool
keeps = record { listener = λ c a i. reads_only a; apply_to = none }

abbrev audits : Guard Bool
audits = record { listener = λ c a i. awaitable false; apply_to = some (λ c. str_eq c "Invoice") }

-- The guard of the base comes after the first look-up of the class.
abbrev registry : ModelAccessGuardRegistry Bool
registry =
    register_guard "Document" keeps
      (get_guards mro "Invoice" (register_guard "Invoice" audits new_registry)).1

abbrev known : List (String × Guard Bool)
known = ("Invoice", audits) ∷ ("Document", keeps) ∷ []

registry-Reach : Reach mro known registry
registry-Reach =
    registers "Document" keeps (looks_up "Invoice" (registers "Invoice" audits unregistered))

denies_delete : (acheck_access mro "Invoice" delete_action none registry).0 ≡ denied
unfolding acheck_access check_guards get_guards register_guard lookup insert
denies_delete = refl

refuses_awaitable : (check_access mro "Invoice" read_action none registry).0 ≡ not_synchronous
unfolding check_access check_guards get_guards register_guard lookup insert
refuses_awaitable = refl

Reach-AllGrant_example :
    (((check_access mro "Invoice" read_action none registry).0 ≡ passes)
      ↔ AllGrant ends_sync "Invoice" read_action none known (mro "Invoice"))
    × (((acheck_access mro "Invoice" read_action none registry).0 ≡ passes)
        ↔ AllGrant ends_async "Invoice" read_action none known (mro "Invoice"))
Reach-AllGrant_example = Reach-AllGrant mro known registry "Invoice" read_action none registry-Reach
