-- ===== src/BgvChecks.antt =====
-- app/services/bgv_checks.py: starting one background check, in whichever of the four ways it needs.
-- What OnGrid answers is a parameter; each request that is sent is kept in a list, the newest first.
mod Outcomes
pub mod Started
mod Footprint
pub mod Uploads
mod Examples
use circle_core.Prelude.{
  ℕ, Bool, true, false, ◌&&◌, ◌||◌, not, String, Option, none, some, List, [], ◌∷◌, if◌then◌else◌,
  str_eq, find, map, ◌⊎◌, inl, inr,
}
use circle_core.Dict.{Dict, lookup, insert}
use circle_core.Text.{Text, codes, is_empty}
use circle_core.Value.{
  Value, text, number, array, Values, end, item, Fields, closed, field, get, is_falsy,
}
use circle_core.Builtins.{Builtins, str, str_or_empty}
use circle_core.BgvRecords.{
  Letters, Sent, Record, ok, education, employment, reference, permanent_address,
}
pub use Outcomes.*
unfoldable pub use Outcomes.{missing, request_id_of, started}

-- The outcome, or none where the source raises what nobody catches.
abbrev pub Result : Type 0
Result = Option CheckOutcome × Run

pub send : Request → Run → Run
send q r = record r { sent = q ∷ r.sent }

pub start : Builtins → Client → String → List Sent → Option Text → Run → Result
unfolding started send
start o c code payload document_id r = (
  some (started o code document_id (c.answer r.sent (check code payload))),
  send (check code payload) r,
)

-- The check that names a registered thing by its number.
pub start_with : Builtins → Client → String → (ℕ → List Sent) → Text → Run → Result
unfolding start
start_with o c code payload id r = elim (c.to_int id) [
  | none ↦ (none, r)
  | some n ↦ start o c code (payload n) (some id) r
]

pub refuse : String → Reason → Run → Result
unfolding missing
refuse code reason r = (some (missing code reason), r)

-- `_record_id`
pub record_id : Builtins → Fields → Text
record_id o created = str_or_empty o (get "id" created)

-- After the answer to a registration.
pub registered : Builtins → Client → String → (ℕ → List Sent) → Text ⊎ Fields → Run → Result
unfolding refuse start_with record_id
registered o c code payload (inl message) r = refuse code (provider_said message) r
registered o c code payload (inr created) r =
    if is_empty (record_id o created)
    then refuse code not_registered r
    else start_with o c code payload (record_id o created) r

register : Builtins → Client → String → Request → (ℕ → List Sent) → Run → Result
unfolding registered send
register o c code q payload r = registered o c code payload (c.answer r.sent q) (send q r)

id_field : String → ℕ → List Sent
id_field name n = record { name = name; value = number n } ∷ []

is_blank : Fields → Bool
is_blank closed = true
is_blank (field k v d) = false

pub run_uan_check : Builtins → Client → String → CandidateData → Run → Result
unfolding refuse start
run_uan_check o c code data' r =
    if is_empty data'.uan
    then refuse code (if data'.is_fresher then first_job else no_uan) r
    else start o c code (record { name = "uans"; value = array (item (text data'.uan) end) } ∷ [])
        none r

run_self_contained : Builtins → Client → String → Run → Result
unfolding start
run_self_contained o c code r = start o c code [] none r

-- The cached identifier of the document, which is then not uploaded again.
pub cache : Text → Run → Run
cache id r = record r { document_ids = insert "PAN card" id r.document_ids }

-- After the answer to an upload.
pub extracted : Builtins → Client → String → Text ⊎ Fields → Run → Result
unfolding refuse start_with id_field cache record_id
extracted o c code (inl message) r = refuse code (provider_said message) r
extracted o c code (inr created) r =
    if is_empty (record_id o created)
    then refuse code not_registered r
    else start_with o c code (id_field "documentId") (record_id o created)
        (cache (record_id o created) r)

pub upload : Builtins → Client → String → Option File → Run → Result
unfolding refuse extracted send
upload o c code none r = refuse code no_document r
upload o c code (some f) r = elim (c.prepare f) [
  | none ↦ refuse code unreadable r
  | some image ↦
      extracted o c code (c.answer r.sent (extract "pan" image)) (send (extract "pan" image) r)
]

pub run_document_check : Builtins → Client → String → Option File → Run → Result
unfolding upload start_with id_field
run_document_check o c code document r = elim (lookup "PAN card" r.document_ids) [
  | some id ↦ start_with o c code (id_field "documentId") id r
  | none ↦ upload o c code document r
]

pub run_education : Builtins → Letters → Client → String → CandidateData → Run → Result
unfolding refuse register id_field is_blank
run_education o l c code data' r =
    if is_blank data'.education then refuse code no_details r else elim data'.education_file [
      | none ↦ refuse code no_certificate r
      | some f ↦
          let filled = education o l data'.education in
          if not (ok filled)
          then refuse code (incomplete filled.missing) r
          else register o c code (add_education filled.fields f) (id_field "educationDocumentId") r
    ]

pub run_employment : Builtins → Letters → Client → String → CandidateData → Run → Result
unfolding refuse register id_field is_blank
run_employment o l c code data' r =
    let filled = employment o l data'.employment in
    if is_blank data'.employment
    then refuse code (if data'.is_fresher then first_job else no_details) r
    else if not (ok filled)
    then refuse code (incomplete filled.missing) r
    else if is_empty data'.employment_files
    then refuse code no_proof r
    else register o c code (add_employment filled.fields data'.employment_files)
        (id_field "employmentRecordId") r

-- The one check that repeats the individual's identifier.
address_field : ℕ → ℕ → List Sent
unfolding id_field
address_field individual_id n =
    record { name = "individualId"; value = number individual_id } ∷ id_field "addressId" n

pub run_permanent_address : Builtins → Client → String → ℕ → CandidateData → Run → Result
unfolding refuse register address_field is_blank
run_permanent_address o c code individual_id data' r =
    let filled = permanent_address o data'.permanent_address in
    if is_blank data'.permanent_address
    then refuse code no_details r
    else if not (ok filled)
    then refuse code (incomplete filled.missing) r
    else register o c code (add_address filled.fields) (address_field individual_id) r

-- The labels that the first of the attempts lacks.
first_missing : List Record → List String
first_missing [] = []
first_missing (a ∷ attempts) = a.missing

reference_with : Builtins → Letters → Client → String → ℕ → CandidateData → Run → Result
unfolding refuse start first_missing
reference_with o l c code schema data' r =
    let attempts = map (λ e. reference o l e schema) data'.references in
    if is_empty data'.references then refuse code no_details r else elim (find ok attempts) [
      | none ↦ refuse code (incomplete (first_missing attempts)) r
      | some filled ↦ start o c code filled.fields none r
    ]

pub run_reference : Builtins → Letters → Client → String → CandidateData → Run → Result
unfolding refuse reference_with
run_reference o l c code data' r = elim data'.prc_schema_id [
  | none ↦ refuse code no_questionnaire r
  | some schema ↦ reference_with o l c code schema data' r
]

-- `run_check`; the individual's identifier is a number.
pub run_check :
    Builtins → Letters → Client → ℕ → String → Option File → CandidateData → Run → Result
unfolding run_uan_check run_self_contained run_education run_employment run_permanent_address
    run_reference run_document_check refuse
run_check o l c individual_id code document data' r =
    let name = c.upper code in
    if str_eq name "EHC"
    then run_uan_check o c code data' r
    else if str_eq name "CCRV" || str_eq name "LAV"
    then run_self_contained o c code r
    else if str_eq name "EDUV"
    then run_education o l c code data' r
    else if str_eq name "EMPV"
    then run_employment o l c code data' r
    else if str_eq name "PAV"
    then run_permanent_address o c code individual_id data' r
    else if str_eq name "PRC"
    then run_reference o l c code data' r
    else if str_eq name "PANV"
    then run_document_check o c code document r
    else refuse code unsupported r
