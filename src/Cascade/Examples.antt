-- ===== src/Cascade/Examples.antt =====
-- Two interviews, one of which is the candidate's who is deleted.
use circle_core.Prelude.{◌≡◌, refl, [], ◌∷◌}
use circle_core.Text.{Text, codes, is_empty, text_eq}
use circle_core.Value.{text, text_of, Fields, field, closed, get}
use circle_core.Dict.{insert}
use circle_core.Resources.{Table, remove}
use circle_core.Routes.{Tables, table_of, is_among}
use circle_core.Cascade.{
  is_value, refers, ids_of, remove_all, sweep, sweep_tables, remove_keyed, delete_candidate,
}
use circle_core.Cascade.Gone.{IsKeyed, IsClear, delete_candidate-IsClear}

abbrev interview : Text → Text → Fields
interview id candidate_id = field "id" (text id) (field "candidateId" (text candidate_id) closed)

abbrev kept : Table
kept = (codes "i2", interview (codes "i2") (codes "c2")) ∷ []

abbrev tables : Tables
tables = ("interviews", (codes "i1", interview (codes "i1") (codes "c1")) ∷ kept) ∷ []

others_stay : table_of "interviews" (delete_candidate (codes "c1") tables) ≡ kept
unfolding delete_candidate sweep_tables remove_keyed sweep ids_of remove_all refers is_value remove
    table_of insert get text_of is_empty text_eq
others_stay = refl

interviews-IsKeyed : IsKeyed (refers (codes "c1")) (table_of "interviews" tables)
unfolding table_of get is_empty
interviews-IsKeyed = ((λ h. (refl, refl)), ((λ h. (refl, refl)), tt))

delete_candidate-IsClear_example :
    IsClear (codes "c1") (table_of "interviews" (delete_candidate (codes "c1") tables))
delete_candidate-IsClear_example =
    delete_candidate-IsClear (codes "c1") "interviews" tables (unfold is_among in refl)
      interviews-IsKeyed
