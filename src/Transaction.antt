-- ===== src/Transaction.antt =====
-- fastedgy/orm/transaction.py: the retried transaction and what is deferred until it commits.
-- The factory is a parameter: `factory n c` is what its n-th run does, started in the request context
-- `c`, with its SET TRANSACTION and its COMMIT; concurrent sessions are what makes the runs differ. A
-- run whose COMMIT fails raises, and `applied` says whether the database applied it all the same.
-- Outside a request the context is that of no request and nothing changes it. `upper` is `str.upper`.
pub mod Retried
pub mod Retry
mod Examples
use fastedgy.Prelude.{
  ℕ, zero, suc, ◌+◌, Bool, true, false, ◌||◌, ◌&&◌, Option, none, some, String, List, [], ◌∷◌, ◌++◌,
  any, ◌==◌, if◌then◌else◌, not,
}
use fastedgy.Text.{Text, contains_text, codes}
use text.Mathlib.Text.{◌==◌ as str_eq}

-- An exception: whether it is a `DBAPIError`, the SQLSTATE of its `orig` as the driver names it, the
-- `connection_invalidated` mark, and the text `f"{exc} {orig}".lower()`.
pub record Error : Type 0 where
  pub is_dbapi : Bool
  pub sqlstate : Option String
  pub pgcode : Option String
  pub connection_invalidated : Bool
  pub text : Text

abbrev has_code : String → Option String → Bool
has_code code none = false
has_code code (some c) = str_eq c code

-- `getattr(orig, "sqlstate", None) or getattr(orig, "pgcode", None)`
abbrev code_of : Error → Option String
code_of e = elim e.sqlstate [ none ↦ e.pgcode | some c ↦ if str_eq c "" then e.pgcode else some c ]

unfoldable pub is_serialization_error : Error → Bool
unfolding contains_text
is_serialization_error e =
    has_code "40001" (code_of e)
    || has_code "40P01" (code_of e)
    || contains_text (codes "could not serialize access") e.text
    || contains_text (codes "deadlock detected") e.text

-- `_DISCONNECT_MARKERS`
abbrev disconnect_markers : List String
disconnect_markers =
    "connection was closed" ∷ "connection is closed" ∷ "connection does not exist"
    ∷ "connection reset" ∷ "server closed the connection" ∷ "connection refused" ∷ []

unfoldable pub is_disconnect_error : Error → Bool
unfolding contains_text
is_disconnect_error e =
    e.connection_invalidated
    || any (λ marker. contains_text (codes marker) e.text) disconnect_markers

-- How a call ends.
pub data Outcome (V : Type 0) : Type 0 where
  returned : V → Outcome V
  raised : Error → Outcome V

-- A run of a factory: how it ends, what it writes, whether that was applied although it raised, the
-- request context it leaves, and what it defers.
pub record Attempt (V Write Context Callback : Type 0) : Type 0 where
  pub outcome : Outcome V
  pub writes : List Write
  pub applied : Bool
  pub context : Context
  pub deferred : List Callback

-- What stays of a call: the committed writes, the request context, the callbacks that have run, and
-- how often the factory was run.
pub record Session (Write Context Callback : Type 0) : Type 0 where
  pub committed : List Write
  pub context : Context
  pub ran : List Callback
  pub tries : ℕ

-- The end of a call: `ValueError` before any run, or the end of the loop.
pub data Ended (V : Type 0) : Type 0 where
  value_error : Ended V
  ended : Option (Outcome V) → Ended V

-- `_ISOLATION_LEVELS`
abbrev pub isolation_levels : List String
isolation_levels = "READ UNCOMMITTED" ∷ "READ COMMITTED" ∷ "REPEATABLE READ" ∷ "SERIALIZABLE" ∷ []

-- `isolation_level is not None and isolation_level.upper() not in _ISOLATION_LEVELS`
unfoldable pub is_invalid_level : (String → String) → Option String → Bool
is_invalid_level upper none = false
is_invalid_level upper (some level) = not (any (str_eq (upper level)) isolation_levels)

-- `attempt == retries or not is_serialization_error(e)`, behind `except DBAPIError`.
unfoldable pub gives_up : ℕ → ℕ → Error → Bool
gives_up retries attempt e = not e.is_dbapi || attempt == retries || not (is_serialization_error e)

module _ {V Write Context Callback : Type 0} where
  -- The session at the end of a run that raised: the context is its, and its writes where applied.
  abbrev pub tried :
      Session Write Context Callback
      → Attempt V Write Context Callback
      → Session Write Context Callback
  tried s a = record s {
    committed = if a.applied then s.committed ++ a.writes else s.committed;
    context = a.context;
    tries = s.tries + 1;
  }

  -- How a round of the loop ends: the commit and its callbacks, the exception, or `replay`.
  pub after_run :
      ℕ
      → ℕ
      → Session Write Context Callback
      → Attempt V Write Context Callback
      → Outcome V
      → Option (Outcome V) × Session Write Context Callback
      → Option (Outcome V) × Session Write Context Callback
  after_run retries attempt s a (returned v) replay = (
    some (returned v),
    record (tried s a) { committed = s.committed ++ a.writes; ran = s.ran ++ a.deferred },
  )
  after_run retries attempt s a (raised e) replay =
      if gives_up retries attempt e then (some (raised e), tried s a) else replay

  module _ (factory : ℕ → Context → Attempt V Write Context Callback) (retries : ℕ) where
    -- The loop. `left` counts the rounds of `range(retries + 1)` that are left; `none` is the
    -- `AssertionError` behind the loop.
    pub run_attempts :
        Context
        → ℕ
        → ℕ
        → Session Write Context Callback
        → Option (Outcome V) × Session Write Context Callback
    unfolding after_run
    run_attempts snapshot zero attempt s = (none, s)
    run_attempts snapshot (suc left) attempt s =
        let a = factory attempt s.context in
        let replay =
          run_attempts snapshot left (attempt + 1) (record (tried s a) { context = snapshot }) in
        after_run retries attempt s a a.outcome replay

    -- `with_transaction`, called outside any retried transaction.
    unfoldable pub with_transaction :
        (String → String)
        → Option String
        → Session Write Context Callback
        → Ended V × Session Write Context Callback
    unfolding run_attempts is_invalid_level
    with_transaction upper isolation_level s =
        if is_invalid_level upper isolation_level
        then (value_error, s)
        else let (outcome, s') = run_attempts s.context (retries + 1) 0 s in (ended outcome, s')
