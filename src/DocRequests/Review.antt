-- ===== src/DocRequests/Review.antt =====
-- What HR does with a document that was handed in: reading it again, and the review.
use circle_core.Prelude.{
  Bool, true, false, ◌&&◌, ◌||◌, not, Option, none, some, List, [], ◌∷◌, if◌then◌else◌, all,
  keep_if,
}
use circle_core.Text.{Text, codes, text_eq, is_empty}
use circle_core.Resources.{Rows, find, upsert}
use circle_core.DocRequests.{
  Extraction, Submission, DocRequest, Verification, Tables, Outside, or_else, is_verified,
  find_submission, change_submission,
}

-- The answer: the request as it is now, the error that was raised, or that the text of documents
-- cannot be read here.
pub data Answer : Type 0 where
  reviewed : DocRequest → Answer
  extracted : Option Extraction → Answer
  not_configured : Answer
  not_found : Answer
  invalid : Answer

pub record Step : Type 0 where
  pub answer : Answer
  pub tables : Tables

abbrev pub fail : Answer → Tables → Step
fail why tables = record { answer = why; tables = tables }

-- `{s.get("docType"): s for s in submissions}.get(...)`: the last of a type.
unfoldable pub last_submission : Text → List Submission → Option Submission
last_submission doc_type [] = none
last_submission doc_type (s ∷ ss) = elim (last_submission doc_type ss) [
  | some later ↦ some later
  | none ↦ if text_eq s.doc_type doc_type then some s else none
]

unfoldable pub is_uploaded : List Submission → Text → Bool
unfolding last_submission
is_uploaded ss doc = elim (last_submission doc ss) [ none ↦ false | some s ↦ true ]

unfoldable pub is_approved : List Submission → Text → Bool
unfolding last_submission is_verified
is_approved ss doc = elim (last_submission doc ss) [ none ↦ false | some s ↦ is_verified s.status ]

-- `_overall_status`
unfoldable pub overall_status : DocRequest → Text
unfolding is_uploaded is_approved is_verified or_else
overall_status request =
    let file_types = keep_if (is_uploaded request.submissions) request.required_docs in
    if not (is_empty file_types) && all (is_approved request.submissions) file_types
    then codes "Verified"
    else if is_verified request.status
    then codes "Verified"
    else or_else request.status (codes "Pending")

-- `doc_extraction.manual_block()`, as far as it is read here.
abbrev pub manual_block : Extraction
manual_block = record {
  fields = [];
  validated_fields = [];
  edited_by_candidate = false;
  edited_by_hr = false;
  candidate_confirmed_at = [];
}

-- The body of a review.
pub record SubmissionReview : Type 0 where
  pub status : Text
  pub reason : Text
  pub fields : Option (Rows Text)

-- The corrections, if there are any.
unfoldable pub corrected : Option (Rows Text) → Option Extraction → Option Extraction
corrected none e = e
corrected (some fields) none = some (record manual_block { fields = fields; edited_by_hr = true })
corrected (some fields) (some e) = some (record e { fields = fields; edited_by_hr = true })

unfoldable pub decided : Outside → SubmissionReview → Submission → Submission
unfolding corrected
decided w body s = record s {
  extraction = corrected body.fields s.extraction;
  status = body.status;
  reviewed_at = w.now_text;
  review_reason = if text_eq body.status (codes "Rejected") then body.reason else [];
}

-- The fields of a submission, empty if nothing was read.
unfoldable pub fields_of : Submission → Rows Text
fields_of s = elim s.extraction [ none ↦ [] | some e ↦ e.fields ]

-- `_mirror_to_bgv`
unfoldable pub mirror_to_bgv : DocRequest → Text → Submission → Tables → Tables
unfolding fields_of find upsert
mirror_to_bgv request doc_type s tables =
    let fresh : Verification = record {
      candidate_name = request.candidate_name;
      overall_status = codes "Pending";
      extracted_fields = [];
    } in
    let bgv : Verification = elim (find request.candidate_id tables.bgvs) [
      | none ↦ fresh
      | some known ↦ known
    ] in
    let mirrored = record bgv {
      extracted_fields = upsert doc_type (fields_of s) bgv.extracted_fields;
    } in
    if is_empty request.candidate_id || is_empty (fields_of s)
    then tables
    else record tables { bgvs = upsert request.candidate_id mirrored tables.bgvs }

unfoldable pub review_document :
    Outside → SubmissionReview → Text → Text → DocRequest → Submission → Tables → Step
unfolding decided change_submission overall_status mirror_to_bgv upsert
review_document w body token doc_type request s tables =
    let changed = record request {
      submissions = change_submission doc_type (decided w body) request.submissions;
    } in
    let updated = record changed { status = overall_status changed; updated_at = w.now_text } in
    let saved = record tables { requests = upsert token updated tables.requests } in
    record {
      answer = reviewed updated;
      tables =
          if text_eq body.status (codes "Verified")
          then mirror_to_bgv updated doc_type (decided w body s) saved
          else saved;
    }

unfoldable pub review_submission : Outside → SubmissionReview → Text → Text → Tables → Step
unfolding find find_submission review_document
review_submission w body token doc_type tables =
    let found : Step = elim (find token tables.requests) [
      | none ↦ fail not_found tables
      | some request ↦ elim (find_submission doc_type request.submissions) [
        | none ↦ fail not_found tables
        | some s ↦ review_document w body token doc_type request s tables
      ]
    ] in
    if text_eq body.status (codes "Verified") || text_eq body.status (codes "Rejected")
    then found
    else fail invalid tables

-- `extract_submission_fields`, for what reading the stored document gives and whether it can be read.
unfoldable pub extract_submission_fields :
    Outside → Bool → Option Extraction → Text → Text → Tables → Step
unfolding find find_submission change_submission upsert
extract_submission_fields w ocr_available extraction token doc_type tables =
    let found : Step = elim (find token tables.requests) [
      | none ↦ fail not_found tables
      | some request ↦ elim (find_submission doc_type request.submissions) [
        | none ↦ fail not_found tables
        | some s ↦
            let changed = record request {
              submissions =
                  change_submission doc_type
                    (λ (x : Submission). record x { extraction = extraction }) request.submissions;
              updated_at = w.now_text;
            } in
            record {
              answer = extracted extraction;
              tables = record tables { requests = upsert token changed tables.requests };
            }
      ]
    ] in
    if ocr_available then found else fail not_configured tables
