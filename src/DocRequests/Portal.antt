-- ===== src/DocRequests/Portal.antt =====
-- What a candidate does through the link: handing in a document, and confirming what was read off it.
use circle_core.Prelude.{
  ℕ, Bool, true, false, ◌&&◌, ◌||◌, not, Option, none, some, List, [], ◌∷◌, ◌++◌, ◌*◌,
  if◌then◌else◌, ltb, leb, ◌==◌, keep_if, map, take,
}
use circle_core.Text.{Text, codes, text_eq, strip, is_empty}
use circle_core.Text.Ops.{ends_with}
use circle_core.Resources.{Rows, find, upsert}
use circle_core.DocRequests.{
  Extraction, Submission, DocRequest, Document, Tables, Upload, Outside, is_in, is_expired,
  has_consent, signed_letter_docs, or_else, is_fully_submitted, needs_consent, is_verified,
  find_submission, change_submission,
}

-- The answer: a submission, or the error that was raised.
pub data Answer : Type 0 where
  submitted : Submission → Answer
  not_found : Answer
  invalid : Answer

pub record Step : Type 0 where
  pub answer : Answer
  pub tables : Tables

abbrev pub fail : Answer → Tables → Step
fail why tables = record { answer = why; tables = tables }

-- `_safe_name` of app/api/routes/documents.py.
unfoldable pub is_safe : ℕ → Bool
is_safe c =
    (leb b'A' c && leb c b'Z')
    || ((leb b'a' c && leb c b'z')
        || ((leb b'0' c && leb c b'9') || ((c == b'.') || ((c == b'_') || (c == b'-')))))

-- `s.strip("_")`, each end in turn.
unfoldable pub lstrip_line : Text → Text
lstrip_line [] = []
lstrip_line (c ∷ s) = let rest = lstrip_line s in if c == b'_' then rest else c ∷ s

unfoldable pub rstrip_line : Text → Text
rstrip_line [] = []
rstrip_line (c ∷ s) = elim (rstrip_line s) [
  | [] ↦ if c == b'_' then [] else c ∷ []
  | d ∷ t ↦ c ∷ d ∷ t
]

unfoldable pub safe_name : Text → Text
unfolding is_safe lstrip_line rstrip_line or_else
safe_name name =
    let sure = map (λ c. if is_safe c then c else b'_') name in
    or_else (take 120 (rstrip_line (lstrip_line sure))) (codes "file")

abbrev allowed_types : List Text
allowed_types =
    codes "application/pdf"
    ∷ codes "application/msword"
    ∷ codes "application/vnd.openxmlformats-officedocument.wordprocessingml.document"
    ∷ []

-- Whether a file passes for a signed letter by its type or its name.
unfoldable pub is_letter_file : Outside → Upload → Bool
unfolding is_in ends_with
is_letter_file w file =
    let name = w.lower file.filename in
    is_in file.content_type allowed_types
    || (ends_with name (codes ".pdf")
        || (ends_with name (codes ".doc") || ends_with name (codes ".docx")))

-- The checks on the request, and the checks on the file, that `upload_request_document` makes before
-- it stores anything.
unfoldable pub accepts_type : Outside → Text → DocRequest → Bool
unfolding is_expired has_consent needs_consent is_in find_submission is_verified
accepts_type w doc_type request =
    let is_locked : Bool = elim (find_submission doc_type request.submissions) [
      | none ↦ false
      | some s ↦ is_verified s.status
    ] in
    if is_expired w request
    then false
    else if needs_consent request && not (has_consent request)
    then false
    else if not (is_empty request.required_docs) && not (is_in doc_type request.required_docs)
    then false
    else not is_locked

unfoldable pub accepts_file : Outside → Text → Upload → Bool
unfolding is_in is_letter_file
accepts_file w doc_type file =
    if file.size == 0
    then false
    else if ltb (w.max_upload_mb * 1024 * 1024) file.size
    then false
    else if is_in doc_type signed_letter_docs
    then is_letter_file w file && leb file.size (5 * 1024 * 1024)
    else true

unfoldable pub document_of : Outside → Text → Text → DocRequest → Text → Upload → Document
unfolding or_else safe_name
document_of w token doc_id request doc_type file =
    let entity_id = or_else request.candidate_id token in
    let entity_type = or_else request.entity_type (codes "candidate") in
    let filename = or_else file.filename (codes "file") in
    record {
      entity_type = entity_type;
      entity_id = entity_id;
      category = doc_type;
      file_name = filename;
      content_type = file.content_type;
      size = file.size;
      storage_key =
          codes "documents/"
          ++ (entity_type
              ++ (codes "/"
                  ++ (entity_id ++ (codes "/" ++ (doc_id ++ (codes "_" ++ safe_name filename))))));
      uploaded_at = w.now_text;
    }

unfoldable pub submission_of : Outside → Text → Text → Upload → Submission
unfolding or_else
submission_of w doc_id doc_type file = record {
  doc_type = doc_type;
  document_id = doc_id;
  file_name = or_else file.filename (codes "file");
  size = file.size;
  uploaded_at = w.now_text;
  status = codes "Submitted";
  extraction = w.extract doc_type file;
  reviewed_at = [];
  review_reason = [];
}

-- The request with the submission, in the place of any other of its type.
unfoldable pub add_submission : Outside → Submission → DocRequest → DocRequest
unfolding is_fully_submitted is_verified
add_submission w s request =
    let others = keep_if (λ x. not (text_eq x.doc_type s.doc_type)) request.submissions in
    let submissions = others ++ (s ∷ []) in
    let is_complete = is_fully_submitted request (map (λ x. x.doc_type) submissions) in
    record request {
      submissions = submissions;
      status =
          if is_complete && not (is_verified request.status)
          then codes "Submitted"
          else request.status;
      updated_at = w.now_text;
    }

unfoldable pub upload_request_document : Outside → Text → Text → Text → Upload → Tables → Step
unfolding find upsert accepts_type accepts_file document_of submission_of add_submission
upload_request_document w doc_id token doc_type file tables = elim (find token tables.requests) [
  | none ↦ fail not_found tables
  | some request ↦
      let s = submission_of w doc_id doc_type file in
      let stored = record tables {
        requests = upsert token (add_submission w s request) tables.requests;
        documents =
            upsert doc_id (document_of w token doc_id request doc_type file) tables.documents;
      } in
      if accepts_type w doc_type request && accepts_file w doc_type file
      then record { answer = submitted s; tables = stored }
      else fail invalid tables
]

-- `_apply_candidate_edits`
unfoldable pub apply_candidate_edits : List Text → Rows Text → Rows Text → Rows Text
unfolding is_in upsert
apply_candidate_edits protected merged [] = merged
apply_candidate_edits protected merged ((key, value) ∷ edits) =
    let kept = apply_candidate_edits protected merged edits in
    let changed = apply_candidate_edits protected (upsert key (strip value) merged) edits in
    if is_in key protected then kept else changed

-- The values confirmed, with the corrections if there are any.
unfoldable pub confirmed : Outside → Option (Rows Text) → Extraction → Extraction
unfolding apply_candidate_edits
confirmed w none e = record e { candidate_confirmed_at = w.now_text }
confirmed w (some edits) e = record e {
  fields = apply_candidate_edits e.validated_fields e.fields edits;
  edited_by_candidate = true;
  candidate_confirmed_at = w.now_text;
}

unfoldable pub confirm_document :
    Outside
    → Text
    → Option (Rows Text)
    → DocRequest
    → Submission
    → Extraction
    → Tables
    → Text
    → Step
unfolding confirmed change_submission upsert
confirm_document w doc_type edits request s e tables token =
    let confirm = λ (x : Submission). record x { extraction = some (confirmed w edits e) } in
    let changed = record request {
      submissions = change_submission doc_type confirm request.submissions;
      updated_at = w.now_text;
    } in
    record {
      answer = submitted (confirm s);
      tables = record tables { requests = upsert token changed tables.requests };
    }

unfoldable pub confirm_submission : Outside → Text → Text → Option (Rows Text) → Tables → Step
unfolding find is_expired find_submission is_verified confirm_document
confirm_submission w token doc_type edits tables = elim (find token tables.requests) [
  | none ↦ fail not_found tables
  | some request ↦
      let found : Step = elim (find_submission doc_type request.submissions) [
        | none ↦ fail not_found tables
        | some s ↦
            let read : Step = elim s.extraction [
              | none ↦ fail invalid tables
              | some e ↦ confirm_document w doc_type edits request s e tables token
            ] in
            if is_verified s.status then fail invalid tables else read
      ] in
      if is_expired w request then fail invalid tables else found
]
