-- ===== src/DocRequests.antt =====
-- app/api/routes/doc_requests.py: the links by which candidates hand in their documents, and the
-- review of what was handed in. A field that is missing is an empty text, list or row.
pub mod Portal
pub mod Review
pub mod Approvals
pub mod Locked
pub mod Fields
pub mod Overall
mod Examples
use circle_core.Prelude.{
  ℕ, Bool, true, false, ◌&&◌, ◌||◌, not, Option, none, some, List, [], ◌∷◌, ◌++◌, if◌then◌else◌,
  any, all, ltb, keep_if,
}
use circle_core.Text.{Text, codes, text_eq, strip, is_empty}
use circle_core.Value.{Value}
use circle_core.Resources.{Rows}

-- What was read off a document, with the fields that the machine has validated.
pub record Extraction : Type 0 where
  pub fields : Rows Text
  pub validated_fields : List Text
  pub edited_by_candidate : Bool
  pub edited_by_hr : Bool
  pub candidate_confirmed_at : Text

pub record Submission : Type 0 where
  pub doc_type : Text
  pub document_id : Text
  pub file_name : Text
  pub size : ℕ
  pub uploaded_at : Text
  pub status : Text
  pub extraction : Option Extraction
  pub reviewed_at : Text
  pub review_reason : Text

pub record DocRequest : Type 0 where
  pub kind : Text
  pub entity_type : Text
  pub candidate_id : Text
  pub candidate_name : Value
  pub expires_at : Text
  pub consent_agreed : Bool
  pub consent_text : Text
  pub required_docs : List Text
  pub account_number : Text
  pub ifsc_code : Text
  pub references : List Value
  pub submissions : List Submission
  pub status : Text
  pub updated_at : Text

-- A row of the table of documents, and what a verification record says of one candidate's documents.
pub record Document : Type 0 where
  pub entity_type : Text
  pub entity_id : Text
  pub category : Text
  pub file_name : Text
  pub content_type : Text
  pub size : ℕ
  pub storage_key : Text
  pub uploaded_at : Text

pub record Verification : Type 0 where
  pub candidate_name : Value
  pub overall_status : Text
  pub extracted_fields : Rows (Rows Text)

-- The three tables that the routes write.
pub record Tables : Type 0 where
  pub requests : Rows DocRequest
  pub documents : Rows Document
  pub bgvs : Rows Verification

-- A file as it is uploaded. Of its bytes only their number matters here, and what is read off them.
pub record Upload : Type 0 where
  pub filename : Text
  pub content_type : Text
  pub size : ℕ

-- What the code takes from outside: the clock, reading ISO times as numbers (`none` is an error), the
-- limit from the settings, the case map, and the reading of documents.
pub record Outside : Type 0 where
  pub now : ℕ
  pub now_text : Text
  pub parse_time : Text → Option ℕ
  pub max_upload_mb : ℕ
  pub lower : Text → Text
  pub extract : Text → Upload → Option Extraction

-- `x in xs`
unfoldable pub is_in : Text → List Text → Bool
is_in x xs = any (λ y. text_eq y x) xs

-- `_is_expired` with `_parse_iso`.
unfoldable pub is_expired : Outside → DocRequest → Bool
is_expired w request =
    if is_empty request.expires_at
    then false
    else elim (w.parse_time request.expires_at) [ none ↦ false | some expires ↦ ltb expires w.now ]

unfoldable pub has_consent : DocRequest → Bool
has_consent request = request.consent_agreed && not (is_empty (strip request.consent_text))

abbrev pub letter_kinds : List Text
letter_kinds = codes "signed-offer" ∷ codes "signed-appointment" ∷ codes "signed-internship" ∷ []

abbrev pub signed_letter_docs : List Text
signed_letter_docs =
    codes "Signed Offer Letter"
    ∷ codes "Signed Appointment Letter"
    ∷ codes "Signed Internship Letter"
    ∷ []

abbrev pub bank_doc_type : Text
bank_doc_type = codes "Bank details"

abbrev pub references_doc_type : Text
references_doc_type = codes "Reference contacts"

-- `a or b` on texts.
unfoldable pub or_else : Text → Text → Text
or_else a b = if is_empty a then b else a

unfoldable pub is_form : Text → Bool
is_form doc = text_eq doc bank_doc_type || text_eq doc references_doc_type

unfoldable pub is_fully_submitted : DocRequest → List Text → Bool
unfolding is_form is_in
is_fully_submitted request uploaded_types =
    let required = request.required_docs in
    let files = keep_if (λ doc. not (is_form doc)) required in
    let has_bank =
      not (is_empty (strip request.account_number)) && not (is_empty (strip request.ifsc_code)) in
    if is_empty required
    then false
    else if not (all (λ doc. is_in doc uploaded_types) files)
    then false
    else if is_in bank_doc_type required && not has_bank
    then false
    else if is_in references_doc_type required && is_empty request.references
    then false
    else true

unfoldable pub needs_consent : DocRequest → Bool
unfolding is_in or_else
needs_consent request =
    if is_in request.kind letter_kinds
    then false
    else not (text_eq (or_else request.entity_type (codes "candidate")) (codes "employee"))

-- `s.get("status") == "Verified"`
unfoldable pub is_verified : Text → Bool
is_verified status = text_eq status (codes "Verified")

-- `next((s for s in submissions if s.get("docType") == docType), None)`
unfoldable pub find_submission : Text → List Submission → Option Submission
find_submission doc_type [] = none
find_submission doc_type (s ∷ ss) =
    let rest = find_submission doc_type ss in if text_eq s.doc_type doc_type then some s else rest

-- What `submission[...] = ...` does to the list: it is the first one of its type that changes.
unfoldable pub change_submission :
    Text → (Submission → Submission) → List Submission → List Submission
change_submission doc_type f [] = []
change_submission doc_type f (s ∷ ss) =
    let rest = change_submission doc_type f ss in
    if text_eq s.doc_type doc_type then f s ∷ ss else s ∷ rest
