-- ===== src/Resources/Laws.antt =====
-- What is found in a table after a document was saved or removed.
use circle_core.Prelude.{
  ◌≡◌, refl, sym, ◌∙◌, ap, String, Option, none, some, [], ◌∷◌, if◌then◌else◌, arith, Bool-cases,
  inl, inr,
}
use circle_core.Value.{Value, Fields, get}
use circle_core.Text.{Text, text_eq, text_eq_iff}
use circle_core.Resources.{Rows, Table, find, upsert, remove}

module _ {ℓ} {D : Type ℓ} where
  pub find-upsert :
      (j id : Text) (d : D) (rows : Rows D)
      → find j (upsert id d rows) ≡ (if text_eq id j then some d else find j rows)
  unfolding find upsert
  find-upsert j id d [] = ground arith
  find-upsert j id d ((key, old) ∷ rows) =
      ground
        (arith, find-upsert j id d rows, text_eq_iff id j, text_eq_iff key id, text_eq_iff key j)

  pub find-remove :
      (j id : Text) (rows : Rows D)
      → find j (remove id rows) ≡ (if text_eq id j then none else find j rows)
  unfolding find remove
  find-remove j id [] = ground arith
  find-remove j id ((key, old) ∷ rows) =
      ground (arith, find-remove j id rows, text_eq_iff id j, text_eq_iff key id, text_eq_iff key j)

-- A field of a document, `none` where there is no document.
unfoldable pub value_in : String → Option Fields → Option Value
value_in key none = none
value_in key (some document) = some (get key document)

unfoldable pub field_of : String → Text → Table → Option Value
unfolding value_in find
field_of key id rows = value_in key (find id rows)

pub field_of-upsert :
    (key : String) (j id : Text) (existing d : Fields) (rows : Table)
    → find id rows ≡ some existing
    → get key d ≡ get key existing
    → field_of key j (upsert id d rows) ≡ field_of key j rows
unfolding field_of value_in
field_of-upsert key j id existing d rows h same =
    ap (value_in key) (find-upsert j id d rows) ∙ elim (Bool-cases (text_eq id j)) [
      | inl e ↦
          let found : find j rows ≡ some existing =
            ap (λ i. find i rows) (sym ((text_eq_iff id j).0 e)) ∙ h in
          rw (e, found) (ap some same)
      | inr e ↦ rw e refl
    ]
