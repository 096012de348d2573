-- ===== src/DocRequests/Fields.antt =====
-- The values of a document after the candidate has corrected them.
use circle_core.Prelude.{
  ◌≡◌, refl, ◌∙◌, ap, true, false, Option, some, List, [], ◌∷◌, if◌then◌else◌, arith, Bool-cases,
  inl, inr,
}
use circle_core.Text.{Text, text_eq, text_eq_iff, strip}
use circle_core.Resources.{Rows, find, upsert}
use circle_core.Resources.Laws.{find-upsert}
use circle_core.DocRequests.{Extraction, Outside, is_in}
use circle_core.DocRequests.Portal.{apply_candidate_edits, confirmed}

-- The last correction of a value, stripped; else the value before.
unfoldable pub last_edit : Text → Option Text → Rows Text → Option Text
last_edit key before [] = before
last_edit key before ((k, value) ∷ edits) =
    let kept = last_edit key before edits in
    let changed = last_edit key (some (strip value)) edits in
    if text_eq k key then changed else kept

edits_of_protected :
    (protected : List Text) (key : Text) (merged edits : Rows Text)
    → is_in key protected ≡ true
    → find key (apply_candidate_edits protected merged edits) ≡ find key merged
unfolding apply_candidate_edits
edits_of_protected protected key merged [] h = refl
edits_of_protected protected key merged ((k, value) ∷ edits) h =
    let changed = upsert k (strip value) merged in
    ground (
      arith,
      h,
      edits_of_protected protected key merged edits h,
      edits_of_protected protected key changed edits h,
      find-upsert key k (strip value) merged,
      text_eq_iff k key,
    )

edits_of_open :
    (protected : List Text) (key : Text) (merged edits : Rows Text)
    → is_in key protected ≡ false
    → find key (apply_candidate_edits protected merged edits)
      ≡ last_edit key (find key merged) edits
unfolding apply_candidate_edits last_edit
edits_of_open protected key merged [] h = refl
edits_of_open protected key merged ((k, value) ∷ edits) h =
    let changed = upsert k (strip value) merged in
    let kept = edits_of_open protected key merged edits h in
    let edited =
      edits_of_open protected key changed edits h
      ∙ ap (λ before. last_edit key before edits) (find-upsert key k (strip value) merged) in
    elim (Bool-cases (text_eq k key)) [
      | inl e ↦
          let free : is_in k protected ≡ false =
            ap (λ t. is_in t protected) ((text_eq_iff k key).0 e) ∙ h in
          rw (e, free) (rw e at edited)
      | inr e ↦ ground (arith, e, kept, (rw e at edited))
    ]

-- After a candidate's corrections each value that the machine has validated is as it was read, and
-- each other one is its last correction without the spaces around it, or as it was read if it has
-- none.
pub confirmed_fields :
    (w : Outside) (edits : Rows Text) (e : Extraction) (key : Text)
    → find key (confirmed w (some edits) e).fields ≡ (
        if is_in key e.validated_fields
        then find key e.fields
        else last_edit key (find key e.fields) edits)
unfolding confirmed
confirmed_fields w edits e key = elim (Bool-cases (is_in key e.validated_fields)) [
  | inl h ↦ rw h (edits_of_protected e.validated_fields key e.fields edits h)
  | inr h ↦ rw h (edits_of_open e.validated_fields key e.fields edits h)
]
