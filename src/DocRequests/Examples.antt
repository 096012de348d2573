-- ===== src/DocRequests/Examples.antt =====
-- A request for two documents, one of them approved, and what a candidate then does.
use circle_core.Prelude.{◌≡◌, ◌↔◌, ◌⊎◌, refl, true, false, none, some, List, [], ◌∷◌, if◌then◌else◌}
use circle_core.Text.{Text, codes, text_eq, strip, lstrip, rstrip, is_space, is_empty}
use circle_core.Value.{null}
use circle_core.Resources.{Rows, find}
use circle_core.DocRequests.{
  Extraction, Submission, DocRequest, Tables, Upload, Outside, is_in, is_expired, has_consent,
  needs_consent, is_verified, find_submission, or_else,
}
use circle_core.DocRequests.Portal.{
  submitted, invalid, accepts_type, accepts_file, submission_of, upload_request_document, confirmed,
}
use circle_core.DocRequests.Review.{overall_status, is_uploaded, is_approved, last_submission}
use circle_core.DocRequests.Approvals.{approved, is_verified_request}
use circle_core.DocRequests.Locked.{Action, upload, act_all, act_all-IsHarmless}
use circle_core.DocRequests.Fields.{last_edit, confirmed_fields}
use circle_core.DocRequests.Overall.{overall_status_verified}

abbrev world : Outside
world = record {
  now = 5;
  now_text = codes "now";
  parse_time = λ t. some 9;
  max_upload_mb = 10;
  lower = λ t. t;
  extract = λ t f. none;
}

abbrev read : Extraction
read = record {
  fields = (codes "aadhaarNumber", codes "XXXX1234") ∷ (codes "name", codes "asha") ∷ [];
  validated_fields = codes "aadhaarNumber" ∷ [];
  edited_by_candidate = false;
  edited_by_hr = false;
  candidate_confirmed_at = [];
}

abbrev aadhaar : Submission
aadhaar = record {
  doc_type = codes "Aadhaar";
  document_id = codes "d1";
  file_name = codes "aadhaar.pdf";
  size = 3;
  uploaded_at = codes "before";
  status = codes "Verified";
  extraction = some read;
  reviewed_at = [];
  review_reason = [];
}

abbrev joining : DocRequest
joining = record {
  kind = [];
  entity_type = [];
  candidate_id = codes "c1";
  candidate_name = null;
  expires_at = codes "later";
  consent_agreed = true;
  consent_text = codes "I agree";
  required_docs = codes "Aadhaar" ∷ codes "PAN" ∷ [];
  account_number = [];
  ifsc_code = [];
  references = [];
  submissions = aadhaar ∷ [];
  status = codes "Pending";
  updated_at = [];
}

abbrev tables : Tables
tables = record { requests = (codes "t1", joining) ∷ []; documents = []; bgvs = [] }

abbrev scan : Upload
scan = record { filename = codes "scan.pdf"; content_type = codes "application/pdf"; size = 7 }

-- The approved document is locked, the other one is taken.
aadhaar_locked :
    (upload_request_document world (codes "d2") (codes "t1") (codes "Aadhaar") scan tables).answer
    ≡ invalid
unfolding upload_request_document find accepts_type is_expired needs_consent has_consent is_in
    or_else is_empty text_eq strip lstrip rstrip is_space find_submission is_verified accepts_file
aadhaar_locked = refl

pan_taken :
    (upload_request_document world (codes "d2") (codes "t1") (codes "PAN") scan tables).answer
    ≡ submitted (submission_of world (codes "d2") (codes "PAN") scan)
unfolding upload_request_document find accepts_type is_expired needs_consent has_consent is_in
    or_else is_empty text_eq strip lstrip rstrip is_space find_submission is_verified accepts_file
pan_taken = refl

abbrev actions : List (Outside × Action)
actions =
    (world, upload (codes "d2") (codes "t1") (codes "Aadhaar") scan)
    ∷ (world, upload (codes "d3") (codes "t1") (codes "PAN") scan)
    ∷ []

act_all-IsHarmless_example :
    (approved (codes "Aadhaar") (codes "t1") (act_all actions tables)
      ≡ approved (codes "Aadhaar") (codes "t1") tables)
    × (is_verified_request (codes "t1") (act_all actions tables)
        ≡ is_verified_request (codes "t1") tables)
act_all-IsHarmless_example = act_all-IsHarmless actions tables (codes "t1") (codes "Aadhaar")

abbrev edits : Rows Text
edits = (codes "aadhaarNumber", codes "XXXX9999") ∷ (codes "name", codes " asha rao ") ∷ []

name_corrected : last_edit (codes "name") (some (codes "asha")) edits ≡ some (codes "asha rao")
unfolding last_edit text_eq strip lstrip rstrip is_space
name_corrected = refl

confirmed_fields_example :
    find (codes "aadhaarNumber") (confirmed world (some edits) read).fields ≡ (
      if is_in (codes "aadhaarNumber") read.validated_fields
      then find (codes "aadhaarNumber") read.fields
      else last_edit (codes "aadhaarNumber") (find (codes "aadhaarNumber") read.fields) edits)
confirmed_fields_example = confirmed_fields world edits read (codes "aadhaarNumber")

-- The PAN card is still missing.
early : overall_status joining ≡ codes "Verified"
unfolding overall_status is_uploaded is_approved last_submission is_verified text_eq is_empty
early = refl

overall_status_verified_example : (overall_status joining ≡ codes "Verified") ↔ (
    (is_verified joining.status ≡ true)
    ⊎ (((t : Text) × (is_in t joining.required_docs ≡ true)
          × (is_uploaded joining.submissions t ≡ true))
        × ((t : Text)
            → is_in t joining.required_docs ≡ true
            → is_uploaded joining.submissions t ≡ true
            → is_approved joining.submissions t ≡ true)))
overall_status_verified_example = overall_status_verified joining
