-- ===== src/Filters/Operators.antt =====
-- fastedgy/orm/filter/operators.py: the operators that a field may be filtered by, by its class. A
-- class is its name; `is_instance` says which classes it is a kind of.
use fastedgy.Prelude.{Bool, ◌&&◌, not, none, some, String, List, [], ◌∷◌, if◌then◌else◌}
use fastedgy.Prelude.Dict.{lookup}
use text.Mathlib.Text.{◌==◌ as str_eq}

-- `FILTER_OPERATORS_FIELD_MAP`
unfoldable pub field_map : List (String × List String)
field_map =
    (
      "IntegerField",
      "=" ∷ "!=" ∷ "<" ∷ "<=" ∷ ">" ∷ ">=" ∷ "between" ∷ "in" ∷ "not in" ∷ "is empty"
          ∷ "is not empty" ∷ [],
    )
    ∷ ("BooleanField", "is true" ∷ "is false" ∷ [])
    ∷ (
      "CharField",
      "=" ∷ "!=" ∷ "like" ∷ "ilike" ∷ "not like" ∷ "not ilike" ∷ "starts with" ∷ "ends with"
          ∷ "not starts with" ∷ "not ends with" ∷ "contains" ∷ "icontains" ∷ "not contains"
          ∷ "not icontains" ∷ "match" ∷ "in" ∷ "not in" ∷ "is empty" ∷ "is not empty" ∷ [],
    )
    ∷ (
      "EmailField",
      "=" ∷ "!=" ∷ "like" ∷ "ilike" ∷ "not like" ∷ "not ilike" ∷ "starts with" ∷ "ends with"
          ∷ "not starts with" ∷ "not ends with" ∷ "contains" ∷ "icontains" ∷ "not contains"
          ∷ "not icontains" ∷ "match" ∷ "in" ∷ "not in" ∷ "is empty" ∷ "is not empty" ∷ [],
    )
    ∷ (
      "TextField",
      "=" ∷ "!=" ∷ "like" ∷ "ilike" ∷ "not like" ∷ "not ilike" ∷ "starts with" ∷ "ends with"
          ∷ "not starts with" ∷ "not ends with" ∷ "contains" ∷ "icontains" ∷ "not contains"
          ∷ "not icontains" ∷ "match" ∷ "in" ∷ "not in" ∷ "is empty" ∷ "is not empty" ∷ [],
    )
    ∷ ("ChoiceField", "=" ∷ "!=" ∷ "in" ∷ "not in" ∷ "is empty" ∷ "is not empty" ∷ [])
    ∷ (
      "DateField",
      "=" ∷ "!=" ∷ "<" ∷ "<=" ∷ ">" ∷ ">=" ∷ "between" ∷ "is empty" ∷ "is not empty" ∷ [],
    )
    ∷ (
      "DateTimeField",
      "=" ∷ "!=" ∷ "<" ∷ "<=" ∷ ">" ∷ ">=" ∷ "between" ∷ "is empty" ∷ "is not empty" ∷ [],
    )
    ∷ (
      "DurationField",
      "=" ∷ "!=" ∷ "<" ∷ "<=" ∷ ">" ∷ ">=" ∷ "between" ∷ "in" ∷ "not in" ∷ "is empty"
          ∷ "is not empty" ∷ [],
    )
    ∷ (
      "DecimalField",
      "=" ∷ "!=" ∷ "<" ∷ "<=" ∷ ">" ∷ ">=" ∷ "between" ∷ "in" ∷ "not in" ∷ "is empty"
          ∷ "is not empty" ∷ [],
    )
    ∷ ("FileField", "is empty" ∷ "is not empty" ∷ [])
    ∷ (
      "FloatField",
      "=" ∷ "!=" ∷ "<" ∷ "<=" ∷ ">" ∷ ">=" ∷ "between" ∷ "in" ∷ "not in" ∷ "is empty"
          ∷ "is not empty" ∷ [],
    )
    ∷ ("ForeignKey", "=" ∷ "!=" ∷ "in" ∷ "not in" ∷ "is empty" ∷ "is not empty" ∷ [])
    ∷ ("RefForeignKey", "=" ∷ "!=" ∷ "in" ∷ "not in" ∷ "is empty" ∷ "is not empty" ∷ [])
    ∷ ("ManyToMany", "in" ∷ "not in" ∷ "is empty" ∷ "is not empty" ∷ [])
    ∷ ("GenericForeignKey", "=" ∷ "!=" ∷ "in" ∷ "not in" ∷ "is empty" ∷ "is not empty" ∷ [])
    ∷ ("GenericRelatedField", "in" ∷ "not in" ∷ "is empty" ∷ "is not empty" ∷ [])
    ∷ (
      "IPAddressField",
      "=" ∷ "!=" ∷ "like" ∷ "ilike" ∷ "not like" ∷ "not ilike" ∷ "starts with" ∷ "ends with"
          ∷ "not starts with" ∷ "not ends with" ∷ "contains" ∷ "icontains" ∷ "not contains"
          ∷ "not icontains" ∷ "match" ∷ "in" ∷ "not in" ∷ "is empty" ∷ "is not empty" ∷ [],
    )
    ∷ ("JSONField", "is empty" ∷ "is not empty" ∷ [])
    ∷ ("BinaryField", "is empty" ∷ "is not empty" ∷ [])
    ∷ ("OneToOneField", "=" ∷ "!=" ∷ "in" ∷ "not in" ∷ "is empty" ∷ "is not empty" ∷ [])
    ∷ (
      "TimeField",
      "=" ∷ "!=" ∷ "<" ∷ "<=" ∷ ">" ∷ ">=" ∷ "between" ∷ "in" ∷ "not in" ∷ "is empty"
          ∷ "is not empty" ∷ [],
    )
    ∷ (
      "UUIDField",
      "=" ∷ "!=" ∷ "like" ∷ "ilike" ∷ "not like" ∷ "not ilike" ∷ "starts with" ∷ "ends with"
          ∷ "not starts with" ∷ "not ends with" ∷ "contains" ∷ "icontains" ∷ "not contains"
          ∷ "not icontains" ∷ "match" ∷ "in" ∷ "not in" ∷ "is empty" ∷ "is not empty" ∷ [],
    )
    ∷ (
      "VectorField",
      "l1 distance" ∷ "l1 distance <" ∷ "l1 distance <=" ∷ "l1 distance >" ∷ "l1 distance >="
          ∷ "l2 distance" ∷ "l2 distance <" ∷ "l2 distance <=" ∷ "l2 distance >" ∷ "l2 distance >="
          ∷ "cosine distance" ∷ "cosine distance <" ∷ "cosine distance <=" ∷ "cosine distance >"
          ∷ "cosine distance >=" ∷ "inner product" ∷ "inner product <" ∷ "inner product <="
          ∷ "inner product >" ∷ "inner product >=" ∷ [],
    )
    ∷ (
      "PointField",
      "spatial distance" ∷ "spatial distance <" ∷ "spatial distance <=" ∷ "spatial distance >"
          ∷ "spatial distance >=" ∷ "spatial within distance" ∷ "spatial contains"
          ∷ "spatial within" ∷ "spatial intersects" ∷ "spatial equals" ∷ "spatial disjoint"
          ∷ "spatial touches" ∷ "spatial crosses" ∷ "spatial overlaps" ∷ "is empty" ∷ "is not empty"
          ∷ [],
    )
    ∷ ("OneToMany", "in" ∷ "not in" ∷ "is empty" ∷ "is not empty" ∷ [])
    ∷ ("FulltextField", "search" ∷ "search_fuzzy" ∷ [])
    ∷ []

-- The first entry of a class that the field's is a kind of; the key "OneToMany" is no class.
unfoldable pub inherited : (String → Bool) → List (String × List String) → List String
inherited is_instance [] = []
inherited is_instance ((name, operators) ∷ rest) =
    let later = inherited is_instance rest in
    if not (str_eq name "OneToMany") && is_instance name then operators else later

-- `get_filter_operators`, for a field of a class.
unfoldable pub get_filter_operators : (String → String → Bool) → String → List String
unfolding field_map
get_filter_operators is_instance type = elim (lookup type field_map) [
  | some operators ↦ operators
  | none ↦ inherited (is_instance type) field_map
]
