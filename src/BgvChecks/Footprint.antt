-- ===== src/BgvChecks/Footprint.antt =====
-- What one check registers.
use circle_core.Prelude.{
  ℕ, ◌+◌, ◌≡◌, refl, ◌∙◌, Bool, true, false, not, ◌&&◌, String, Option, some, List, [], ◌∷◌,
  if◌then◌else◌, ◌⊎◌, inl, inr, arith, Option-cases,
}
use circle_core.Text.{Text, is_empty}
use circle_core.Value.{Fields}
use circle_core.Dict.{lookup}
use circle_core.Builtins.{Builtins}
use circle_core.BgvRecords.{Letters, Sent, education, employment, permanent_address}
use circle_core.BgvChecks.{
  File, CandidateData, Request, check, extract, add_education, add_employment, add_address, Client,
  Reason, Run, refuse, start, start_with, record_id, registered, register, run_uan_check,
  run_document_check, run_education, run_employment, run_permanent_address, reference_with,
  run_reference, send, id_field, address_field,
}

abbrev pub is_upload : Request → Bool
is_upload (check code payload) = false
is_upload (extract slug image) = true
is_upload (add_education fields f) = false
is_upload (add_employment fields fs) = false
is_upload (add_address fields) = false

-- Whether an answer has an identifier.
abbrev pub has_id : Builtins → Text ⊎ Fields → Bool
has_id o (inl message) = false
has_id o (inr created) = not (is_empty (record_id o created))

-- How many of the requests sent, the last of them first, were uploads that OnGrid registered.
unfoldable pub registrations : Builtins → Client → List Request → ℕ
registrations o c [] = 0
registrations o c (q ∷ sent) =
    let rest = registrations o c sent in
    if is_upload q && has_id o (c.answer sent q) then rest + 1 else rest

-- How many documents a run has registered, and under which identifiers.
pub record Footprint : Type 0 where
  pub count : ℕ
  pub registered_ids : List (String × Text)

abbrev pub footprint : Builtins → Client → Run → Footprint
footprint o c r = record { count = registrations o c r.sent; registered_ids = r.document_ids }

module _ (o : Builtins) (c : Client) (code : String) where
  pub start-footprint :
      (payload : List Sent) (id : Option Text) (r : Run)
      → footprint o c (start o c code payload id r).1 ≡ footprint o c r
  unfolding start send registrations
  start-footprint payload id r = ground (arith)

  pub start_with-footprint :
      (payload : ℕ → List Sent) (id : Text) (r : Run)
      → footprint o c (start_with o c code payload id r).1 ≡ footprint o c r
  unfolding start_with
  start_with-footprint payload id r = elim (Option-cases (c.to_int id)) [
    | inl e ↦ rw (e, start_with) refl
    | inr (n, e) ↦ rw (e, start_with) (start-footprint (payload n) (some id) r)
  ]

  pub refuse-footprint :
      (why : Reason) (r : Run) → footprint o c (refuse code why r).1 ≡ footprint o c r
  unfolding refuse
  refuse-footprint why r = refl

  registered-footprint :
      (payload : ℕ → List Sent) (a : Text ⊎ Fields) (r : Run)
      → footprint o c (registered o c code payload a r).1 ≡ footprint o c r
  unfolding registered refuse
  registered-footprint payload (inl message) r = refl
  registered-footprint payload (inr created) r =
      ground (arith, start_with-footprint payload (record_id o created) r)

  register-footprint :
      (q : Request) (payload : ℕ → List Sent) (r : Run)
      → is_upload q ≡ false
      → footprint o c (register o c code q payload r).1 ≡ footprint o c r
  unfolding register send registrations
  register-footprint q payload r h =
      registered-footprint payload (c.answer r.sent q) (send q r) ∙ ground (arith, h)

  module _ (data' : CandidateData) (r : Run) where
    pub run_uan_check-footprint : footprint o c (run_uan_check o c code data' r).1 ≡ footprint o c r
    unfolding run_uan_check refuse start send registrations
    run_uan_check-footprint = ground (arith)

    pub run_education-footprint :
        (l : Letters) → footprint o c (run_education o l c code data' r).1 ≡ footprint o c r
    unfolding run_education refuse
    run_education-footprint l = elim (Option-cases data'.education_file) [
      | inl e ↦ ground (arith, e)
      | inr (f, e) ↦
          let filled = education o l data'.education in
          ground (
            arith,
            e,
            register-footprint (add_education filled.fields f) (id_field "educationDocumentId") r
                refl,
          )
    ]

    pub run_employment-footprint :
        (l : Letters) → footprint o c (run_employment o l c code data' r).1 ≡ footprint o c r
    unfolding run_employment refuse
    run_employment-footprint l =
        let filled = employment o l data'.employment in
        ground (
          arith,
          register-footprint (add_employment filled.fields data'.employment_files)
              (id_field "employmentRecordId") r refl,
        )

    pub run_permanent_address-footprint :
        (n : ℕ) → footprint o c (run_permanent_address o c code n data' r).1 ≡ footprint o c r
    unfolding run_permanent_address refuse
    run_permanent_address-footprint n =
        let filled = permanent_address o data'.permanent_address in
        ground (arith, register-footprint (add_address filled.fields) (address_field n) r refl)

    pub run_reference-footprint :
        (l : Letters) → footprint o c (run_reference o l c code data' r).1 ≡ footprint o c r
    unfolding run_reference reference_with refuse start send registrations
    run_reference-footprint l = ground (arith)

  pub run_document_check-footprint :
      (document : Option File) (id : Text) (r : Run)
      → lookup "PAN card" r.document_ids ≡ some id
      → footprint o c (run_document_check o c code document r).1 ≡ footprint o c r
  unfolding run_document_check
  run_document_check-footprint document id r h =
      rw (h, run_document_check) (start_with-footprint (id_field "documentId") id r)
