-- ===== src/Sync/Results.antt =====
-- What a batch of buffered writes reports, and what it leaves of the store.
use fastedgy.Prelude.{
  Bool, true, false, Option, none, some, String, List, [], ◌∷◌, if◌then◌else◌, map, ◌≡◌, ◌⊎◌, refl,
  sym, Bool-cases, inl, inr, arith, leb,
}
use fastedgy.Text.{Text}
use fastedgy.TextMerge.{Opcode}
use fastedgy.Sync.{
  Value, Op, update, delete, SyncOperation, Status, applied, merged, rejected, SyncOperationResult,
  Model, Item, server_is_newer, resolve,
}
use fastedgy.Sync.Batch.{
  Fault, invalid, integrity, http, other, Reply, done, fault, Route, patched, write_merge, removed,
  apply_delete, has_forbidden, apply_found, apply, guard, guarded_apply, cons_result, and_then,
  apply_all, sync_items,
}

-- Whether `_guarded_apply` raises the exception again.
abbrev pub is_fatal : Fault → Bool
is_fatal (invalid d) = false
is_fatal (integrity d) = false
is_fatal (http code d) = leb 500 code
is_fatal other = true

abbrev pub is_rejected : Status → Bool
is_rejected rejected = true
is_rejected _ = false

-- The operations whose result is not a rejection.
pub accepted : List SyncOperation → List SyncOperationResult → List SyncOperation
accepted (o ∷ os) (r ∷ rs) =
    let rest = accepted os rs in if is_rejected r.status then rest else o ∷ rest
accepted _ _ = []

-- The results that are not rejections.
pub kept : List SyncOperationResult → List SyncOperationResult
kept [] = []
kept (r ∷ rs) = let rest = kept rs in if is_rejected r.status then rest else r ∷ rest

module _ {Store : Type 0} (get_opcodes : List Text → List Text → List Opcode) (model : Model)
    (route : Route Store) where
  -- A result of `_apply` is about its operation, and is no rejection.
  abbrev IsReport : SyncOperation → Reply (SyncOperationResult × Store) → Type 0
  IsReport operation (fault f) = Unit
  IsReport operation (done (r, s)) = (r.id ≡ operation.id) × (is_rejected r.status ≡ false)

  patched-IsReport :
      (operation : SyncOperation) (status : Status) (payload : List (String × Value))
      (discarded : Option (List String)) (reply : Reply (List (String × Value) × Store))
      → is_rejected status ≡ false
      → IsReport operation
          (patched get_opcodes model route operation status payload discarded reply)
  patched-IsReport operation status payload discarded (fault f) h = tt
  patched-IsReport operation status payload discarded (done (r, s)) h = (refl, h)

  write_merge-IsReport :
      (item : Item) (operation : SyncOperation) (payload : List (String × Value))
      (conflicts : List String) (store : Store)
      → IsReport operation
          (write_merge get_opcodes model route item operation payload conflicts store)
  unfolding write_merge
  write_merge-IsReport item operation payload [] store =
      patched-IsReport operation applied payload none _ refl
  write_merge-IsReport item operation [] (c ∷ cs) store = (refl, refl)
  write_merge-IsReport item operation (p ∷ ps) (c ∷ cs) store =
      patched-IsReport operation merged (p ∷ ps) (some (c ∷ cs)) _ refl

  removed-IsReport :
      (operation : SyncOperation) (reply : Reply Store)
      → IsReport operation (removed get_opcodes model route operation reply)
  removed-IsReport operation (fault f) = tt
  removed-IsReport operation (done s) = (refl, refl)

  apply_delete-IsReport :
      (item : Item) (operation : SyncOperation) (store : Store)
      → IsReport operation (apply_delete get_opcodes model route item operation store)
  unfolding apply_delete
  apply_delete-IsReport item operation store = elim (Bool-cases (server_is_newer item operation)) [
    | inl y ↦ rw y (refl, refl)
    | inr n ↦ rw n (removed-IsReport operation (route.delete_item operation.id store))
  ]

  apply_found-IsReport :
      (op : Op) (found : Option Item) (operation : SyncOperation) (store : Store)
      → IsReport operation (apply_found get_opcodes model route op found operation store)
  unfolding apply_found
  apply_found-IsReport update none operation store = (refl, refl)
  apply_found-IsReport delete none operation store = (refl, refl)
  apply_found-IsReport delete (some item) operation store =
      apply_delete-IsReport item operation store
  apply_found-IsReport update (some item) operation store =
      let m = resolve get_opcodes model item operation in
      write_merge-IsReport item operation m.payload m.conflicts store

  apply-IsReport :
      (operation : SyncOperation) (store : Store)
      → IsReport operation (apply get_opcodes model route operation store)
  unfolding apply
  apply-IsReport operation store = apply_found-IsReport operation.op _ operation store

  -- What the savepoint makes of a reply: only a fault of the server gets out of it, a result is
  -- about its operation, and a rejection leaves the store.
  abbrev pub Verdict : SyncOperation → Store → Reply (SyncOperationResult × Store) → Type 0
  Verdict operation store (fault f) = is_fatal f ≡ true
  Verdict operation store (done (r, s)) =
      (r.id ≡ operation.id) × (is_rejected r.status ≡ true → s ≡ store)

  guard-Verdict :
      (operation : SyncOperation) (store : Store) (reply : Reply (SyncOperationResult × Store))
      → IsReport operation reply
      → Verdict operation store (guard get_opcodes model route operation store reply)
  unfolding guard
  guard-Verdict operation store (done (r, s)) (h, k) = (h, λ j. ground (arith, j, k))
  guard-Verdict operation store (fault (invalid d)) h = (refl, λ j. refl)
  guard-Verdict operation store (fault (integrity d)) h = (refl, λ j. refl)
  guard-Verdict operation store (fault (http code d)) h = elim (Bool-cases (leb 500 code)) [
    | inl y ↦ rw y y
    | inr n ↦ rw n (refl, λ j. refl)
  ]
  guard-Verdict operation store (fault other) h = refl

  -- The savepoint of an operation lets out only a fault of the server; else it gives a result about
  -- that operation, and an operation that it rejects leaves the store as it was.
  pub guarded_apply-Verdict :
      (operation : SyncOperation) (store : Store)
      → Verdict operation store (guarded_apply get_opcodes model route operation store)
  unfolding guarded_apply
  guarded_apply-Verdict operation store =
      guard-Verdict operation store _ (apply-IsReport operation store)

  -- What a batch reports: a result per operation, in order; and without the operations that it
  -- rejects the batch reports the other results and leaves the same store.
  abbrev pub BatchReport :
      List SyncOperation → Store → Reply (List SyncOperationResult × Store) → Type 0
  BatchReport operations store (fault f) = is_fatal f ≡ true
  BatchReport operations store (done (rs, s)) =
      (map (λ r. r.id) rs ≡ map (λ o. o.id) operations)
      × (apply_all get_opcodes model route (accepted operations rs) store ≡ done (kept rs, s))

  -- An accepted operation runs again as it ran.
  apply_all-cons :
      (operation : SyncOperation) (operations : List SyncOperation) (store s s' : Store)
      (r : SyncOperationResult) (rs : List SyncOperationResult)
      → guarded_apply get_opcodes model route operation store ≡ done (r, s)
      → apply_all get_opcodes model route operations s ≡ done (rs, s')
      → apply_all get_opcodes model route (operation ∷ operations) store ≡ done (r ∷ rs, s')
  unfolding apply_all and_then
  apply_all-cons operation operations store s s' r rs e h = rw (apply_all, e) (rw h refl)

  join_report :
      (operation : SyncOperation) (operations : List SyncOperation) (store s : Store)
      (r : SyncOperationResult) (reply : Reply (List SyncOperationResult × Store))
      → guarded_apply get_opcodes model route operation store ≡ done (r, s)
      → Verdict operation store (done (r, s))
      → BatchReport operations s reply
      → BatchReport (operation ∷ operations) store (cons_result get_opcodes model route r reply)
  unfolding accepted kept
  join_report operation operations store s r (fault f) e v rest = rest
  join_report operation operations store s r (done (rs, s')) e (id, leaves) (ids, again) = (
    rw id (rw ids refl),
    elim (Bool-cases (is_rejected r.status)) [
      | inl y ↦ rw y (rw (sym (leaves y)) again)
      | inr n ↦ rw n (apply_all-cons operation _ store s s' r _ e again)
    ],
  )

  step_report :
      (operation : SyncOperation) (operations : List SyncOperation) (store : Store)
      (first : Reply (SyncOperationResult × Store))
      → guarded_apply get_opcodes model route operation store ≡ first
      → Verdict operation store first
      → ((s : Store) → BatchReport operations s (apply_all get_opcodes model route operations s))
      → BatchReport
          (operation ∷ operations)
          store
          (and_then get_opcodes model route first (apply_all get_opcodes model route operations))
  unfolding and_then
  step_report operation operations store (fault f) e v rest = v
  step_report operation operations store (done (r, s)) e v rest =
      join_report operation operations store s r _ e v (rest s)

  apply_all-BatchReport :
      (operations : List SyncOperation) (store : Store)
      → BatchReport operations store (apply_all get_opcodes model route operations store)
  unfolding apply_all accepted kept
  apply_all-BatchReport [] store = (refl, refl)
  apply_all-BatchReport (o ∷ os) store =
      step_report o os store _ refl (guarded_apply-Verdict o store) (apply_all-BatchReport os)

  -- What `sync_items_action` comes to.
  abbrev pub BatchOutcome :
      List Op → List SyncOperation → Store → Reply (List SyncOperationResult × Store) → Type 0
  BatchOutcome allowed operations store (fault f) =
      ((has_forbidden allowed operations ≡ true) × (f ≡ http 403 "Sync operation is not allowed"))
      ⊎ ((has_forbidden allowed operations ≡ false) × (is_fatal f ≡ true))
  BatchOutcome allowed operations store (done (rs, s)) =
      (has_forbidden allowed operations ≡ false)
      × (map (λ r. r.id) rs ≡ map (λ o. o.id) operations)
      × (sync_items get_opcodes model route allowed (accepted operations rs) store
          ≡ done (kept rs, s))

  has_forbidden-accepted :
      (allowed : List Op) (operations : List SyncOperation) (rs : List SyncOperationResult)
      → has_forbidden allowed operations ≡ false
      → has_forbidden allowed (accepted operations rs) ≡ false
  unfolding has_forbidden accepted
  has_forbidden-accepted allowed [] rs h = refl
  has_forbidden-accepted allowed (o ∷ os) [] h = refl
  has_forbidden-accepted allowed (o ∷ os) (r ∷ rs) h =
      let rest = has_forbidden-accepted allowed os rs in ground arith

  permitted :
      (allowed : List Op) (operations : List SyncOperation) (store : Store)
      (reply : Reply (List SyncOperationResult × Store))
      → has_forbidden allowed operations ≡ false
      → BatchReport operations store reply
      → BatchOutcome allowed operations store reply
  unfolding sync_items
  permitted allowed operations store (fault f) h fatal = inr (h, fatal)
  permitted allowed operations store (done (rs, s)) h (ids, again) =
      (h, ids, rw (has_forbidden-accepted allowed operations rs h) again)

  -- A batch with an operation that is not allowed is refused as a whole, with a 403. Any other
  -- either meets a fault of the server, or gives a result per operation, in order; and without the
  -- operations that it rejects the batch gives the other results and leaves the same store.
  pub sync_items-BatchOutcome :
      (allowed : List Op) (operations : List SyncOperation) (store : Store)
      → BatchOutcome allowed operations store
          (sync_items get_opcodes model route allowed operations store)
  unfolding sync_items
  sync_items-BatchOutcome allowed operations store =
      elim (Bool-cases (has_forbidden allowed operations)) [
        | inl y ↦ rw y (inl (y, refl))
        | inr n ↦
            rw n (permitted allowed operations store _ n (apply_all-BatchReport operations store))
      ]
