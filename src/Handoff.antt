-- ===== src/Handoff.antt =====
-- app/api/routes/candidate_handoff.py: which documents of a candidate who has arrived go to the
-- onboarding system, out of the requests of DocRequests.
pub mod Latest
mod Examples
use circle_core.Prelude.{
  ℕ, Bool, true, false, ◌&&◌, ◌||◌, not, Option, none, some, List, [], ◌∷◌, ◌++◌, if◌then◌else◌,
  ltb, ◌==◌, keep_if, map,
}
use circle_core.Text.{Text, codes, text_eq, strip, is_empty}
use circle_core.Resources.{Rows, find, upsert}
use circle_core.DocRequests.{DocRequest, Submission, Document, or_else, is_verified}

-- `a <= b` on texts: by code points, a prefix first.
unfoldable pub text_le : Text → Text → Bool
text_le [] t = true
text_le (c ∷ s) [] = false
text_le (c ∷ s) (d ∷ t) = ltb c d || ((c == d) && text_le s t)

-- `sub.get("docType") or sub.get("documentId") or ""`
unfoldable pub key_of : Submission → Text
unfolding or_else
key_of s = or_else s.doc_type s.document_id

-- `sub.get("reviewedAt") or sub.get("uploadedAt") or ""`
unfoldable pub stamp_of : Submission → Text
unfolding or_else
stamp_of s = or_else s.reviewed_at s.uploaded_at

-- Whether a submission takes the place of the one that is there.
unfoldable pub replaces : Option Submission → Submission → Bool
unfolding stamp_of text_le
replaces none s = true
replaces (some prev) s = text_le (stamp_of prev) (stamp_of s)

-- The loop that fills `best`.
unfoldable pub best_of : List Submission → Rows Submission → Rows Submission
unfolding is_verified key_of replaces find upsert
best_of [] best = best
best_of (s ∷ ss) best =
    let kept = best_of ss best in
    let changed = best_of ss (upsert (key_of s) s best) in
    if is_verified s.status && replaces (find (key_of s) best) s then changed else kept

-- What was handed in for a candidate, over all the requests.
unfoldable pub submissions_of : Text → Rows DocRequest → List Submission
submissions_of candidate_id [] = []
submissions_of candidate_id ((id, request) ∷ rows) =
    let rest = submissions_of candidate_id rows in
    if text_eq request.candidate_id candidate_id then request.submissions ++ rest else rest

-- A document of the feed; the link is what the storage gives, `none` where it fails.
pub record FeedDocument : Type 0 where
  pub doc_type : Text
  pub file_name : Text
  pub content_type : Text
  pub size : ℕ
  pub verified_at : Text
  pub download_url : Option Text

unfoldable pub feed_document : (Document → Option Text) → Rows Document → Submission → FeedDocument
unfolding or_else find
feed_document presign documents s = elim (find s.document_id documents) [
  | none ↦ record {
    doc_type = s.doc_type;
    file_name = s.file_name;
    content_type = [];
    size = s.size;
    verified_at = s.reviewed_at;
    download_url = none;
  }
  | some doc ↦ record {
    doc_type = s.doc_type;
    file_name = or_else s.file_name doc.file_name;
    content_type = doc.content_type;
    size = if s.size == 0 then doc.size else s.size;
    verified_at = s.reviewed_at;
    download_url = if is_empty doc.storage_key then none else presign doc;
  }
]

-- `_verified_documents`
unfoldable pub verified_documents :
    (Document → Option Text) → Text → Rows DocRequest → Rows Document → List FeedDocument
unfolding best_of submissions_of feed_document
verified_documents presign candidate_id requests documents =
    map (λ row. feed_document presign documents row.1)
      (best_of (submissions_of candidate_id requests) [])
