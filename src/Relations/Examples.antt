-- ===== src/Relations/Examples.antt =====
-- Relations on a store of rows, and the theorems at it.
use fastedgy.Prelude.{true, none, List, [], ◌∷◌, ◌≡◌, refl}
use fastedgy.Prelude.Int.{pos}
use fastedgy.Prelude.Dict.{has_name, keys}
use fastedgy.Prelude.Keys.{member}
use fastedgy.Relations.{
  int, text_value, scalar, list, ok, err, RelationOperationError, set, update, items, positive,
}
use fastedgy.Relations.Manager.{is_linked}
use fastedgy.Relations.Execute.{is_fk_nullable, execute, process_relation_operations}
use fastedgy.Relations.Links.{Returns}
use fastedgy.Relations.Refines.{Becomes, execute-Becomes}
use fastedgy.Relations.ForeignKey.{
  list_input, process_foreign_key_operation, IsResolved, process_foreign_key_operation-IsResolved,
}
use fastedgy.Relations.Rows.{
  Row, gone, free, tied, row, put_row, tied_from, saved_with, rows, rows-IsManager,
}

-- Records 1 and 3 are linked, record 2 is in no relation.
abbrev three : List Row
three = gone ∷ tied ∷ free ∷ tied ∷ []

-- `[["set", [2, 3]]]`
set_two_three :
    process_relation_operations rows none 7 []
      (items (scalar (text_value "set") ∷ list (int (pos 2) ∷ int (pos 3) ∷ []) ∷ []) ∷ [])
      three
    ≡ ok (gone ∷ free ∷ tied ∷ tied ∷ [])
unfolding process_relation_operations rows member is_fk_nullable
set_two_three = refl

refuses_zero :
    process_relation_operations rows none 7 []
      (items (scalar (text_value "link") ∷ scalar (int (pos 0)) ∷ []) ∷ [])
      three
    ≡ err RelationOperationError.bad_id
unfolding process_relation_operations
refuses_zero = refl

-- An update that names another parent is linked again.
update_links_again :
    execute rows none 7 [] (update 1 (("parent", int (pos 9)) ∷ [])) three ≡ ok three
unfolding execute rows row put_row tied_from saved_with has_name keys member
update_links_again = refl

execute-Becomes_example :
    Returns (execute rows none 7 [] (set (int (pos 2) ∷ int (pos 3) ∷ [])) three) (λ s'.
      Becomes rows none 7 []
        (set (int (pos 2) ∷ int (pos 3) ∷ []))
        (λ j. is_linked rows j three)
        (λ j. is_linked rows j s'))
unfolding rows row positive is_fk_nullable
execute-Becomes_example =
    execute-Becomes rows none 7 [] rows-IsManager (set (int (pos 2) ∷ int (pos 3) ∷ [])) three
      ((2, refl, refl), ((3, refl, refl), tt))

process_foreign_key_operation-IsResolved_example : IsResolved rows true (
    process_foreign_key_operation rows true
      (list_input (scalar (text_value "delete") ∷ scalar (int (pos 3)) ∷ []))
      three)
process_foreign_key_operation-IsResolved_example =
    process_foreign_key_operation-IsResolved rows true rows-IsManager
      (list_input (scalar (text_value "delete") ∷ scalar (int (pos 3)) ∷ [])) three
