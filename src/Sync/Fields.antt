-- ===== src/Sync/Fields.antt =====
-- What becomes of each field of a buffered update.
use fastedgy.Prelude.{
  Bool, true, false, Option, none, some, String, List, [], ◌∷◌, filter, if◌then◌else◌, ◌≡◌, refl,
  ap, sym, ◌∙◌, Bool-cases, inl, inr, ◌&&◌,
}
use fastedgy.Prelude.Dict.{
  is_some, has_name, lookup, keys, keep_keys, lookup-keep_keys, has_name-keys,
}
use fastedgy.Text.{Text}
use fastedgy.TextMerge.{Opcode}
use fastedgy.Sync.{
  Value, dict_or_empty, Model, Item, SyncOperation, Merging, server_is_newer, in_server_changed,
  pop_all, reduce, has_any, merge_conflicts, resolve,
}
use fastedgy.Sync.Names.{
  has_name-filter, no_repeat-filter, no_repeat-keep_keys, has_name-remove_own, lookup-pop_all,
}
use fastedgy.Sync.Rounds.{
  View, view, no_repeat, view-merge_fields, merged_as, seen, settled, merge_fields-settled,
}

-- What becomes of a field that the client wrote: its value in the patch, and whether it is discarded.
-- A field that no one changed since goes through; of two changes the merge is taken where there is
-- one, and else the later change.
abbrev pub resolved : Option Value → Bool → Bool → Option Value → Option Value × Bool
resolved none conflict newer merged = (none, false)
resolved (some client) false newer merged = (some client, false)
resolved (some client) true newer (some merged) = (some merged, false)
resolved (some client) true true none = (none, true)
resolved (some client) true false none = (some client, false)

abbrev finished : Bool → Option Value × Bool → Option Value × Bool
finished newer (v, c) = ((if c && newer then none else v), c && newer)

abbrev before : Option Value → Bool → View
before v c = record { value = v; in_conflict = c; still_in_conflict = false }

finished-resolved :
    (v w : Option Value) (block conflict newer : Bool)
    → finished newer (
        if block && (conflict && is_some v)
        then settled w (before v (conflict && is_some v))
        else (v, conflict && is_some v))
      ≡ resolved v conflict newer (if block then w else none)
finished-resolved none w true true newer = refl
finished-resolved none w true false newer = refl
finished-resolved none w false true newer = refl
finished-resolved none w false false newer = refl
finished-resolved (some v) w true false newer = refl
finished-resolved (some v) w false false newer = refl
finished-resolved (some v) w false true true = refl
finished-resolved (some v) w false true false = refl
finished-resolved (some v) (some w) true true newer = refl
finished-resolved (some v) none true true true = refl
finished-resolved (some v) none true true false = refl

module _ (get_opcodes : List Text → List Text → List Opcode) (model : Model) (item : Item)
    (operation : SyncOperation) where
  -- The client's value of a field that the PATCH schema has.
  abbrev pub written : String → Option Value
  written g = if model.writable g then lookup g (dict_or_empty operation.payload) else none

  abbrev pub changed_since : String → Bool
  changed_since g = in_server_changed model operation.base item.current g

  -- The merge of a long text.
  abbrev pub merge_of : String → Option Value
  merge_of g =
      merged_as get_opcodes (server_is_newer item operation) (dict_or_empty operation.base)
        item.current g (written g)

  abbrev conflicts_of : List String
  conflicts_of = (reduce get_opcodes model item operation).conflicts

  lookup-reduce :
      (g : String) → lookup g (reduce get_opcodes model item operation).payload ≡ written g
  unfolding reduce
  lookup-reduce g = lookup-keep_keys model.writable g (dict_or_empty operation.payload)

  has_name-reduce :
      (g : String) → has_name g conflicts_of ≡ (changed_since g && is_some (written g))
  unfolding reduce
  has_name-reduce g =
      let payload = keep_keys model.writable (dict_or_empty operation.payload) in
      has_name-filter g changed_since (keys payload)
      ∙ ap (λ b. changed_since g && b) (has_name-keys g payload ∙ ap is_some (lookup-reduce g))

  no_repeat-reduce :
      no_repeat (keys (dict_or_empty operation.payload)) ≡ true → no_repeat conflicts_of ≡ true
  unfolding reduce
  no_repeat-reduce u =
      no_repeat-filter changed_since _
        (no_repeat-keep_keys model.writable (dict_or_empty operation.payload) u)

  view-reduce :
      (g : String)
      → no_repeat (keys (dict_or_empty operation.payload)) ≡ true
      → view g (reduce get_opcodes model item operation)
        ≡ before (written g) (changed_since g && is_some (written g))
  view-reduce g u =
      rw (lookup-reduce g)
        (rw (has_name-reduce g) (rw (has_name-remove_own g conflicts_of (no_repeat-reduce u)) refl))

  -- What is seen of a field behind the merges.
  seen-merge_conflicts :
      (g : String)
      → no_repeat (keys (dict_or_empty operation.payload)) ≡ true
      → seen g (merge_conflicts get_opcodes model item operation) ≡ (
          if model.merge_blocks g && (changed_since g && is_some (written g))
          then settled (merge_of g) (before (written g) (changed_since g && is_some (written g)))
          else (written g, changed_since g && is_some (written g)))
  unfolding merge_conflicts
  seen-merge_conflicts g u =
      let newer = server_is_newer item operation in
      let base = dict_or_empty operation.base in
      let m = reduce get_opcodes model item operation in
      let named : has_name g (filter model.merge_blocks conflicts_of)
          ≡ (model.merge_blocks g && (changed_since g && is_some (written g))) =
        has_name-filter g model.merge_blocks conflicts_of
        ∙ ap (λ b. model.merge_blocks g && b) (has_name-reduce g) in
      let once = no_repeat-filter model.merge_blocks conflicts_of (no_repeat-reduce u) in
      let first = before (written g) (changed_since g && is_some (written g)) in
      let finish =
        λ (b : Bool). if b then settled (merge_of g) first else (first.value, first.in_conflict) in
      elim (Bool-cases (model.merge_blocks g && (changed_since g && is_some (written g)))) [
        | inl y ↦
            merge_fields-settled get_opcodes newer base item.current g _ m (named ∙ y) once
            ∙ ap (λ v. settled (merged_as get_opcodes newer base item.current g v) (view g m))
                (lookup-reduce g)
            ∙ ap (settled (merge_of g)) (view-reduce g u)
            ∙ ap finish (sym y)
        | inr n ↦
            ap (λ (v : View). (v.value, v.in_conflict))
              (view-merge_fields get_opcodes newer base item.current g _ m (named ∙ n)
                ∙ view-reduce g u)
            ∙ ap finish (sym n)
      ]

  after_popping :
      (g : String) (newer : Bool) (payload : List (String × Value)) (conflicts : List String)
      → let m : Merging = record { payload = payload; conflicts = conflicts } in
        seen g (
          if has_any get_opcodes model conflicts && newer
          then record m { payload = pop_all conflicts payload }
          else record m { conflicts = [] })
        ≡ finished newer (seen g m)
  unfolding has_name
  after_popping g newer payload [] = refl
  after_popping g false payload (c ∷ cs) = elim (Bool-cases (has_name g (c ∷ cs))) [
    | inl y ↦ rw y refl
    | inr n ↦ rw n refl
  ]
  after_popping g true payload (c ∷ cs) = elim (Bool-cases (has_name g (c ∷ cs))) [
    | inl y ↦ rw (lookup-pop_all g (c ∷ cs) payload, y) refl
    | inr n ↦ rw (lookup-pop_all g (c ∷ cs) payload, n) refl
  ]

  seen-resolve :
      (g : String)
      → seen g (resolve get_opcodes model item operation)
        ≡ finished
            (server_is_newer item operation)
            (seen g (merge_conflicts get_opcodes model item operation))
  unfolding resolve
  seen-resolve g =
      reduced (server_is_newer item operation) (merge_conflicts get_opcodes model item operation)
    where
      reduced :
          (newer : Bool) (m : Merging)
          → seen g (
              if has_any get_opcodes model m.conflicts && newer
              then record m { payload = pop_all m.conflicts m.payload }
              else record m { conflicts = [] })
            ≡ finished newer (seen g m)
      reduced newer m = after_popping g newer m.payload m.conflicts

  -- An update, whose payload is a dict, comes to the patch in which each field is as follows. A field
  -- that the client did not write or that the PATCH schema does not have is left out. One that no
  -- one has changed since the client's base is the client's. Of one that was changed since, the
  -- merge of the texts is taken where there is one; else the client's value where the server is not
  -- newer, and nothing where it is. Just the fields of the last kind are reported as discarded.
  pub resolve-resolved :
      no_repeat (keys (dict_or_empty operation.payload)) ≡ true
      → (g : String)
      → (
        lookup g (resolve get_opcodes model item operation).payload,
        has_name g (resolve get_opcodes model item operation).conflicts,
      )
        ≡ resolved
            (written g)
            (changed_since g)
            (server_is_newer item operation)
            (if model.merge_blocks g then merge_of g else none)
  resolve-resolved u g =
      seen-resolve g
      ∙ ap (finished (server_is_newer item operation)) (seen-merge_conflicts g u)
      ∙ finished-resolved (written g) (merge_of g) (model.merge_blocks g) (changed_since g)
          (server_is_newer item operation)
