-- ===== src/Sync/Rounds.antt =====
-- What the rounds over the conflicts do to one field.
use fastedgy.Prelude.{
  Bool, true, false, Option, none, some, String, List, [], ◌∷◌, not, ◌≡◌, refl, ap, ◌∙◌, Bool-cases,
  inl, inr, arith, ◌&&◌, eq_iff, eq_refl,
}
use fastedgy.Prelude.Dict.{has_name, lookup, lookup-insert}
use mathlib.Core.Path.{subst}
use text.Mathlib.Text.{◌==◌ as str_eq}
use fastedgy.Text.{Text}
use fastedgy.TextMerge.{Opcode}
use fastedgy.Sync.{
  Value, get, remove_first, Merging, settle, merge_texts, null, merged_value, merge_field,
  merge_fields,
}

pub has_name-remove_first :
    (f g : String) (js : List String)
    → str_eq f g ≡ false
    → has_name g (remove_first f js) ≡ has_name g js
unfolding has_name
has_name-remove_first f g [] h = refl
has_name-remove_first f g (j ∷ js) h =
    ground (arith, eq_iff j f, eq_iff j g, eq_iff f g, has_name-remove_first f g js h)

pub remove_first-remove_first :
    (f g : String) (js : List String)
    → str_eq f g ≡ false
    → has_name g (remove_first g (remove_first f js)) ≡ has_name g (remove_first g js)
unfolding has_name
remove_first-remove_first f g [] h = refl
remove_first-remove_first f g (j ∷ js) h = ground (
  arith,
  eq_iff j f,
  eq_iff j g,
  eq_iff f g,
  has_name-remove_first f g js h,
  remove_first-remove_first f g js h,
)

-- What is seen of one field: its value in the payload, whether it is in conflict, and whether it
-- would be after one removal.
pub record View : Type 0 where
  pub value : Option Value
  pub in_conflict : Bool
  pub still_in_conflict : Bool

abbrev pub view : String → Merging → View
view g m = record {
  value = lookup g m.payload;
  in_conflict = has_name g m.conflicts;
  still_in_conflict = has_name g (remove_first g m.conflicts);
}

-- A name that a list has no second time.
unfoldable pub no_repeat : List String → Bool
no_repeat [] = true
no_repeat (k ∷ ks) = not (has_name k ks) && no_repeat ks

settle-view :
    (f g : String) (v : Option Value) (m : Merging)
    → str_eq f g ≡ false
    → view g (settle f v m) ≡ view g m
settle-view f g none m h = refl
settle-view f g (some v) m h = rw (lookup-insert f g v m.payload) (
    rw h (
      rw (has_name-remove_first f g m.conflicts h)
        (rw (remove_first-remove_first f g m.conflicts h) refl)))

abbrev pub seen : String → Merging → Option Value × Bool
seen g m = (lookup g m.payload, has_name g m.conflicts)

-- What the round of a field leaves of it: its value, and whether it is in conflict.
abbrev pub settled : Option Value → View → Option Value × Bool
settled none v = (v.value, v.in_conflict)
settled (some w) v = (some w, v.still_in_conflict)

module _ (get_opcodes : List Text → List Text → List Opcode) (newer : Bool)
    (base current : List (String × Value)) where
  pub view-merge_fields :
      (g : String) (fs : List String) (m : Merging)
      → has_name g fs ≡ false
      → view g (merge_fields get_opcodes newer base current fs m) ≡ view g m
  unfolding has_name merge_fields merge_field
  view-merge_fields g [] m h = refl
  view-merge_fields g (f ∷ fs) m h =
      view-merge_fields g fs (merge_field get_opcodes newer base current f m) (ground arith)
      ∙ settle-view f g (merged_value get_opcodes newer base current m.payload f) m (ground arith)

  -- The merge of a field by its value in the payload.
  abbrev pub merged_as : String → Option Value → Option Value
  merged_as g v =
      merge_texts get_opcodes newer (get g base) (get g current)
        (elim v [ none ↦ null | some w ↦ w ])

  settle-settled :
      (g : String) (o : Option Value) (m : Merging) → seen g (settle g o m) ≡ settled o (view g m)
  settle-settled g none m = refl
  settle-settled g (some w) m = rw (lookup-insert g g w m.payload) (rw (eq_refl g) refl)

  -- The rounds over names that do not repeat settle each of them once.
  pub merge_fields-settled :
      (g : String) (fs : List String) (m : Merging)
      → has_name g fs ≡ true
      → no_repeat fs ≡ true
      → seen g (merge_fields get_opcodes newer base current fs m)
        ≡ settled (merged_as g (lookup g m.payload)) (view g m)
  unfolding has_name merge_fields merge_field no_repeat merged_value
  merge_fields-settled g [] m h u = ground (arith, h)
  merge_fields-settled g (f ∷ fs) m h u =
      let m' = merge_field get_opcodes newer base current f m in
      elim (Bool-cases (str_eq f g)) [
        | inl same ↦
            let e : f ≡ g = ground (arith, eq_iff f g) in
            ap (λ (v : View). (v.value, v.in_conflict))
              (view-merge_fields g fs m' (ground (arith, e)))
            ∙ subst (λ x. seen x m' ≡ settled (merged_as x (lookup x m.payload)) (view x m)) e
                (settle-settled f _ m)
        | inr other ↦
            merge_fields-settled g fs m' (ground arith) (ground arith)
            ∙ ap (λ (v : View). settled (merged_as g v.value) v) (settle-view f g _ m other)
      ]
