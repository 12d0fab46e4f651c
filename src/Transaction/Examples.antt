-- ===== src/Transaction/Examples.antt =====
-- A call whose first run conflicts and whose second run commits.
use fastedgy.Prelude.{ℕ, inl, String, ◌+◌, ◌≡◌, refl, true, false, none, some, [], ◌∷◌, ◌==◌, ◌+◌}
use fastedgy.Transaction.{
  Outcome, Error, ended, is_invalid_level, returned, raised, Attempt, Session, gives_up,
  is_serialization_error, with_transaction,
}
use fastedgy.Prelude.{arith}
use fastedgy.Transaction.Retry.{
  is_retryable, stops, retry_on_serialization, EndsAfter, retry_on_serialization-EndsAfter,
}
use fastedgy.Transaction.Retried.{IsDocumented, Settles, with_transaction-EndsWith}

abbrev conflict : Error
conflict = record {
  is_dbapi = true;
  sqlstate = some "40001";
  pgcode = none;
  connection_invalidated = false;
  text = [];
}

-- A run that writes its number, defers a callback of that number and counts the context up.
abbrev counts : ℕ → ℕ → Attempt ℕ ℕ ℕ ℕ
counts n c = record {
  outcome = elim (n == 0) [ true ↦ raised conflict | false ↦ returned n ];
  writes = n ∷ [];
  applied = false;
  context = c + 1;
  deferred = n ∷ [];
}

abbrev fresh : Session ℕ ℕ ℕ
fresh = record { committed = 9 ∷ []; context = 5; ran = []; tries = 0 }

-- `str.upper` on a text in capitals.
abbrev as_is : String → String
as_is level = level

-- Only the second run is left behind, in the context that the call started with.
retried : with_transaction counts 3 as_is none fresh ≡ (
  ended (some (returned 1)),
  record { committed = 9 ∷ 1 ∷ []; context = 6; ran = 1 ∷ []; tries = 2 },
)
unfolding with_transaction is_invalid_level gives_up is_serialization_error
retried = refl

counts_rolls_back : (n c : ℕ) → IsDocumented (counts n c)
counts_rolls_back n c = λ e h. inl refl

with_transaction-EndsWith_example :
    Settles counts 3 counts_rolls_back as_is
      (some "SERIALIZABLE")
      fresh
      (with_transaction counts 3 as_is (some "SERIALIZABLE") fresh)
with_transaction-EndsWith_example =
    with_transaction-EndsWith counts 3 counts_rolls_back as_is (some "SERIALIZABLE") fresh

-- An upsert that conflicts at first, and counts its runs in the store.
abbrev upsert : ℕ → ℕ → Outcome ℕ × ℕ
upsert n store = (elim (n == 0) [ true ↦ raised conflict | false ↦ returned n ], store + 1)

replayed_once : retry_on_serialization upsert false 3 7 ≡ (some (returned 1), 9)
unfolding retry_on_serialization stops is_retryable is_serialization_error
replayed_once = refl

retry_on_serialization-EndsAfter_example :
    (n : ℕ) × EndsAfter upsert false 3 0 7 (retry_on_serialization upsert false 3 7) n
retry_on_serialization-EndsAfter_example =
    retry_on_serialization-EndsAfter upsert false 3 7 (omega arith)
