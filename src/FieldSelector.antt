-- ===== src/FieldSelector.antt =====
-- fastedgy/orm/field_selector.py: the fields that a client asks for, as a tree over the models.
-- A field path is the list of its names: the split of the text at commas and dots, and the reading of
-- `extra_` in front of a name, are Python's. The models are the record Schema.
pub mod Allowed
pub mod Columns
mod Examples
use fastedgy.Prelude.{
  Bool, true, false, ◌&&◌, ◌||◌, Option, none, some, String, List, [], ◌∷◌, any, if◌then◌else◌, not,
}
use fastedgy.Prelude.Dict.{lookup, has_name}
use text.Mathlib.Text.{◌==◌ as str_eq}

-- What a field refers to, in the order in which the attributes are tested: many records of a model
-- (`is_m2m`, `related_from`), a record of any model, with the columns of its name and id, one record
-- of a model (`target`), or nothing.
pub data Target : Type 0 where
  scalar : Target
  m2m related_from foreign_key : String → Target
  generic_foreign_key : String → String → Target

pub record Field : Type 0 where
  pub exclude : Bool
  pub secret : Bool
  pub target : Target

-- The models by their names.
pub record Schema : Type 0 where
  -- `meta.fields`
  pub fields : String → List (String × Field)
  -- `model_computed_fields`
  pub model_computed_fields : String → List String
  -- `context.get_map_workspace_extra_fields(generate_metadata_name(model_cls))`
  pub extra_fields : String → List String
  -- `name[6:]`, where the name starts with `extra_`
  pub extra_name : String → Option String

-- A selection: the value, the selected fields of one record, or those of each of many.
mutual
  pub data Selection : Type 0 where
    leaf : Selection
    one many : Selections → Selection

  pub data Selections : Type 0 where
    no_selection : Selections
    selection_cons : String → Selection → Selections → Selections

-- `fields.get(name)`
unfoldable pub selected : String → Selections → Option Selection
selected k no_selection = none
selected k (selection_cons j s d) = if str_eq j k then some s else selected k d

-- `fields[name] = value`
unfoldable pub select : String → Selection → Selections → Selections
select k v no_selection = selection_cons k v no_selection
select k v (selection_cons j s d) =
    let rest = select k v d in if str_eq j k then selection_cons j v d else selection_cons j s rest

-- `{"id": True}`
abbrev pub only_id : Selections
only_id = selection_cons "id" leaf no_selection

unfoldable pub selector_of : Target → Selection
selector_of scalar = leaf
selector_of (m2m t) = many only_id
selector_of (related_from t) = many only_id
selector_of (generic_foreign_key c i) = one only_id
selector_of (foreign_key t) = one only_id

-- `_add_field_selector`
unfoldable pub add_field_selector : String → Option Field → Bool → Selections → Selections
unfolding selector_of
add_field_selector name none force d = d
add_field_selector name (some f) force d =
    if not f.exclude || force then select name (selector_of f.target) d else d

-- `_is_selectable_leaf`
abbrev pub is_selectable_leaf : Field → Bool
is_selectable_leaf f = not f.exclude && not f.secret

-- `current_model` and `generic_tail`: a model, any model at all, or none.
pub data Place : Type 0 where
  at : String → Place
  anywhere nowhere : Place

unfoldable pub place_of : Target → Place
place_of scalar = nowhere
place_of (m2m t) = at t
place_of (related_from t) = at t
place_of (generic_foreign_key c i) = anywhere
place_of (foreign_key t) = at t

unfoldable pub place_after : Option Field → Place
unfolding place_of
place_after none = nowhere
place_after (some f) = place_of f.target

-- The nested dict that a path goes on in.
unfoldable pub contents : Option Selection → Selections
contents (some (many d)) = d
contents (some (one d)) = d
contents (some leaf) = only_id
contents none = only_id

-- The entry with another nested dict.
unfoldable pub with_contents : Option Selection → Selections → Selection
with_contents (some (many _)) d = many d
with_contents _ d = one d

unfoldable pub is_nowhere : Place → Bool
is_nowhere nowhere = true
is_nowhere _ = false

abbrev pub is_some {ℓ} : {A : Type ℓ} → Option A → Bool
is_some none = false
is_some (some _) = true

abbrev pub passes : Option Field → Bool
passes none = false
passes (some f) = is_selectable_leaf f

-- `"+" in parts`
abbrev pub is_plus : List String → Bool
is_plus [] = false
is_plus (name ∷ []) = str_eq name "+"
is_plus (name ∷ next ∷ rest) = false

unfoldable pub add_fields : List (String × Field) → Selections → Selections
unfolding add_field_selector
add_fields [] d = d
add_fields ((name, f) ∷ fs) d = add_fields fs (add_field_selector name (some f) false d)

unfoldable pub add_names : List String → Selections → Selections
add_names [] d = d
add_names (name ∷ names) d = add_names names (select name leaf d)

module _ (s : Schema) where
  unfoldable pub field_at : Place → String → Option Field
  field_at (at m) name = lookup name (s.fields m)
  field_at anywhere name = none
  field_at nowhere name = none

  abbrev pub is_computed : String → String → Bool
  is_computed m name = has_name name (s.model_computed_fields m)

  -- The last name of a path of two or more.
  unfoldable pub add_leaf : Place → String → Selections → Selections
  add_leaf (at m) name d =
      if passes (lookup name (s.fields m)) || is_computed m name then select name leaf d else d
  add_leaf anywhere name d = select name leaf d
  add_leaf nowhere name d = d

  -- `if field_name not in current: _add_field_selector(current, field, True)`
  unfoldable pub enter : Option Field → String → Selections → Selections
  unfolding add_field_selector
  enter field name d = if is_some (selected name d) then d else add_field_selector name field true d

  -- The loop over the names before the last, and what follows it.
  unfoldable pub walk : Place → List String → Selections → Selections
  unfolding enter field_at
  walk place [] d = d
  walk place (name ∷ []) d = add_leaf place name d
  walk place (name ∷ next ∷ rest) d =
      let field = field_at place name in
      let entered = enter field name d in
      let entry = selected name entered in
      let below = walk (place_after field) (next ∷ rest) (contents entry) in
      if is_nowhere place then d else select name (with_contents entry below) entered

  unfoldable pub has_extra : String → Option String → Bool
  has_extra m none = false
  has_extra m (some name) = has_name name (s.extra_fields m)

  -- A path of one name.
  unfoldable pub select_name : String → String → Selections → Selections
  unfolding add_field_selector has_extra
  select_name m name d =
      if is_some (s.extra_name name)
      then if has_extra m (s.extra_name name) then select name leaf d else d
      else if is_computed m name
      then select name leaf d
      else add_field_selector name (lookup name (s.fields m)) false d

  unfoldable pub select_path : String → List String → Selections → Selections
  select_path m [] d = d
  select_path m (name ∷ []) d = if str_eq name "+" then d else select_name m name d
  select_path m (name ∷ next ∷ rest) d = walk (at m) (name ∷ next ∷ rest) d

  unfoldable pub select_paths : String → List (List String) → Selections → Selections
  select_paths m [] d = d
  select_paths m (p ∷ ps) d = select_paths m ps (select_path m p d)

  unfoldable pub start_with : Bool → String → Selections
  start_with true m = add_names (s.model_computed_fields m) (add_fields (s.fields m) only_id)
  start_with false m = only_id

  unfoldable pub parse_field_selector_input : String → List (List String) → Option Selections
  parse_field_selector_input m [] = none
  parse_field_selector_input m (p ∷ ps) =
      some (select_paths m (p ∷ ps) (start_with (any is_plus (p ∷ ps)) m))
