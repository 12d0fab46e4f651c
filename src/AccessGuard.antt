-- ===== src/AccessGuard.antt =====
-- fastedgy/orm/access_guard.py: the guards of the models, the cache of those that hold for a class, and
-- the checks before a read and before a write. Classes are their names; the bases of a class, itself
-- first, are the argument mro.
pub mod Granted
mod Examples
use fastedgy.Prelude.{
  Bool, true, false, Option, none, some, String, List, [], ◌∷◌, ◌++◌, if◌then◌else◌, not,
}
use fastedgy.Prelude.Dict.{lookup, insert}

pub data ModelAction : Type 0 where
  read_action create_action update_action delete_action : ModelAction

-- What a listener does: it returns, raises an error or returns an awaitable, which raises an error or
-- not once it is awaited.
pub data Heard : Type 0 where
  returns raises : Heard
  awaitable : Bool → Heard

-- The listener, for an instance on the write path, and the test of the class that it applies to.
pub record Guard {ℓ} (I : Type ℓ) : Type ℓ where
  pub listener : String → ModelAction → Option I → Heard
  pub apply_to : Option (String → Bool)

-- How a check ends: it passes, an error of a listener, or the RuntimeError for an awaitable.
pub data Checked : Type 0 where
  passes denied not_synchronous : Checked

-- What ends a synchronous check, and what ends one that awaits.
abbrev pub ends_sync : Heard → Option Checked
ends_sync returns = none
ends_sync raises = some denied
ends_sync (awaitable b) = some not_synchronous

abbrev pub ends_async : Heard → Option Checked
ends_async returns = none
ends_async raises = some denied
ends_async (awaitable b) = if b then some denied else none

abbrev pub ended_or : Option Checked → Checked → Checked
ended_or none rest = rest
ended_or (some e) rest = e

pub record ModelAccessGuardRegistry {ℓ} (I : Type ℓ) : Type ℓ where
  pub guards : List (String × List (Guard I))
  pub resolved : List (String × List (Guard I))

module _ {ℓ} {I : Type ℓ} where
  abbrev pub new_registry : ModelAccessGuardRegistry I
  new_registry = record { guards = []; resolved = [] }

  abbrev pub or_empty : Option (List (Guard I)) → List (Guard I)
  or_empty none = []
  or_empty (some gs) = gs

  -- `self._guards.get(klass, ())`
  abbrev pub guards_of : String → List (String × List (Guard I)) → List (Guard I)
  guards_of k guards = or_empty (lookup k guards)

  -- `register`
  unfoldable pub register_guard :
      String → Guard I → ModelAccessGuardRegistry I → ModelAccessGuardRegistry I
  register_guard k g r = record {
    guards = insert k (guards_of k r.guards ++ g ∷ []) r.guards;
    resolved = [];
  }

  abbrev pub collect_guards : List (String × List (Guard I)) → List String → List (Guard I)
  collect_guards guards [] = []
  collect_guards guards (k ∷ ks) = guards_of k guards ++ collect_guards guards ks

  abbrev pub is_for : String → Guard I → Bool
  is_for c g = elim g.apply_to [ none ↦ true | some test ↦ test c ]

  -- The loop of the two checks, which differ in what ends them.
  unfoldable pub check_guards :
      (Heard → Option Checked) → String → ModelAction → Option I → List (Guard I) → Checked
  check_guards ends c a i [] = passes
  check_guards ends c a i (g ∷ gs) =
      let rest = check_guards ends c a i gs in
      if not (is_for c g) then rest else ended_or (ends (g.listener c a i)) rest

  module _ (mro : String → List String) where
    abbrev pub resolve_guards :
        Option (List (Guard I))
        → String
        → ModelAccessGuardRegistry I
        → List (Guard I) × ModelAccessGuardRegistry I
    resolve_guards (some gs) c r = (gs, r)
    resolve_guards none c r =
        let gs = collect_guards r.guards (mro c) in
        (gs, record r { resolved = insert c gs r.resolved })

    -- `get_guards`
    unfoldable pub get_guards :
        String → ModelAccessGuardRegistry I → List (Guard I) × ModelAccessGuardRegistry I
    get_guards c r = resolve_guards (lookup c r.resolved) c r

    -- `check_access` and `acheck_access`, with the registry that they leave.
    unfoldable pub check_access :
        String
        → ModelAction
        → Option I
        → ModelAccessGuardRegistry I
        → Checked × ModelAccessGuardRegistry I
    unfolding check_guards get_guards
    check_access c a i r = let (gs, new) = get_guards c r in (check_guards ends_sync c a i gs, new)

    unfoldable pub acheck_access :
        String
        → ModelAction
        → Option I
        → ModelAccessGuardRegistry I
        → Checked × ModelAccessGuardRegistry I
    unfolding check_guards get_guards
    acheck_access c a i r =
        let (gs, new) = get_guards c r in (check_guards ends_async c a i gs, new)

    -- The registrations in their order, with look-ups of any class between them.
    pub data Reach : List (String × Guard I) → ModelAccessGuardRegistry I → Type ℓ where
      unregistered : Reach [] new_registry
      registers :
          {known : List (String × Guard I)} {r : ModelAccessGuardRegistry I} (k : String)
          (g : Guard I)
          → Reach known r
          → Reach (known ++ (k, g) ∷ []) (register_guard k g r)
      looks_up :
          {known : List (String × Guard I)} {r : ModelAccessGuardRegistry I} (c : String)
          → Reach known r
          → Reach known (get_guards c r).1
