-- ===== src/Joining.antt =====
-- app/api/routes/joining_confirmations.py: what candidates answer through a link before they join. The
-- store of files is taken to answer; the mail to HR is a flag of the answer.
pub mod Owned
mod Examples
use circle_core.Prelude.{
  ℕ, Bool, true, false, ◌&&◌, ◌||◌, not, String, Option, none, some, List, [], ◌∷◌, if◌then◌else◌,
  ◌++◌, ltb, any, str_eq, ◌==◌,
}
use circle_core.Text.{Text, codes, is_empty}
use circle_core.Text.Ops.{ends_with}
use circle_core.Value.{Value, text, number, text_of, Fields, field, closed, get, is_falsy}
use circle_core.Value.Update.{set, update, has_key}
use circle_core.Builtins.{Builtins, str}
use circle_core.Resources.{Table, find, upsert}
use circle_core.DocRequests.{Upload, is_in, or_else}
use circle_core.DocRequests.Portal.{safe_name}

-- The two tables that the routes write.
pub record Site : Type 0 where
  pub confirmations : Table
  pub documents : Table

-- The clock, the identifier that is drawn, and reading ISO times as numbers (`none` is an error).
pub record Outside : Type 0 where
  pub builtins : Builtins
  pub now : ℕ
  pub now_text : Text
  pub doc_id : Text
  pub parse_time : Text → Option ℕ

-- The answers: 404, 422, an exception of another kind, and the body with whether HR gets a mail.
pub data Answer : Type 0 where
  not_found : Answer
  invalid : Answer
  failed : Answer
  success : Fields → Bool → Answer

pub record Step : Type 0 where
  pub answer : Answer
  pub site : Site

abbrev pub fail : Answer → Site → Step
fail answer site = record { answer = answer; site = site }

-- `_is_expired` with `_parse_iso`; a value that is no string has no `replace`, which is `none`.
unfoldable pub is_expired : Outside → Fields → Option Bool
unfolding is_falsy text_of
is_expired w request =
    let read : Option Bool = elim (text_of (get "expiresAt" request)) [
      | none ↦ none
      | some t ↦ elim (w.parse_time t) [
        | none ↦ some false
        | some expires ↦ some (ltb expires w.now)
      ]
    ] in
    if is_falsy (get "expiresAt" request) then some false else read

-- What both routes do first.
unfoldable pub with_record : Outside → Text → Site → (Fields → Step) → Step
unfolding find is_expired
with_record w token site next = elim (find token site.confirmations) [
  | none ↦ fail not_found site
  | some request ↦ elim (is_expired w request) [
    | none ↦ fail failed site
    | some expired ↦ let step = next request in if expired then fail invalid site else step
  ]
]

abbrev pub candidate_writable : List String
candidate_writable =
    "canJoin" ∷ "suggestedDate" ∷ "meal" ∷ "plantChoice" ∷ "introduction" ∷ "respondedAt" ∷ []

unfoldable pub is_candidate_writable : String → Bool
is_candidate_writable key = any (λ k. str_eq k key) candidate_writable

-- The changes under the keys that are allowed.
unfoldable pub allowed_of : Fields → Fields
unfolding is_candidate_writable
allowed_of closed = closed
allowed_of (field k v changes) =
    let rest = allowed_of changes in if is_candidate_writable k then field k v rest else rest

unfoldable pub is_no_change : Fields → Bool
is_no_change closed = true
is_no_change (field k v changes) = false

unfoldable pub update_joining_confirmation : Outside → Text → Fields → Site → Step
unfolding with_record allowed_of is_no_change update set upsert has_key
update_joining_confirmation w token changes site = with_record w token site (λ request.
    let allowed = allowed_of changes in
    let saved = set "updatedAt" (text w.now_text) (update request allowed) in
    if is_no_change allowed then fail invalid site else record {
      answer = success saved (has_key "respondedAt" allowed);
      site = record site { confirmations = upsert token saved site.confirmations };
    })

abbrev pub photo_types : List Text
photo_types =
    codes "image/jpeg"
    ∷ codes "image/png"
    ∷ codes "image/webp"
    ∷ codes "image/heic"
    ∷ codes "image/heif"
    ∷ []

abbrev pub photo_exts : List Text
photo_exts =
    codes ".jpg" ∷ codes ".jpeg" ∷ codes ".png" ∷ codes ".webp" ∷ codes ".heic" ∷ codes ".heif" ∷ []

abbrev pub photo_max_bytes : ℕ
photo_max_bytes = 5242880

-- The document of a photo.
unfoldable pub photo_document : Outside → Text → Fields → Upload → Fields
unfolding is_falsy str or_else safe_name
photo_document w token request file =
    let candidate_id =
      if is_falsy (get "candidateId" request) then text token else get "candidateId" request in
    let filename = or_else file.filename (codes "photo") in
    let folder = codes "documents/candidate/" ++ (str w.builtins candidate_id ++ codes "/") in
    field "id" (text w.doc_id) (
      field "entityType" (text (codes "candidate")) (
        field "entityId" candidate_id (
          field "category" (text (codes "Welcome Photo")) (
            field "fileName" (text filename) (
              field "contentType" (text file.content_type) (
                field "size" (number file.size) (
                  field "storageKey"
                    (text (folder ++ (w.doc_id ++ (codes "_" ++ safe_name filename))))
                    (field "uploadedAt" (text w.now_text) closed))))))))

unfoldable pub is_photo : Outside → Upload → Bool
unfolding is_in ends_with or_else
is_photo w file =
    is_in file.content_type photo_types
    || any (ends_with (w.builtins.lower (or_else file.filename (codes "photo")))) photo_exts

unfoldable pub upload_joining_photo : Outside → Text → Upload → Site → Step
unfolding with_record is_photo photo_document or_else set upsert
upload_joining_photo w token file site = with_record w token site (λ request.
    let filename = or_else file.filename (codes "photo") in
    let saved =
      set "updatedAt" (text w.now_text)
        (set "photoFileName" (text filename) (set "photoDocumentId" (text w.doc_id) request)) in
    let body =
      field "documentId" (text w.doc_id)
        (field "fileName" (text filename) (field "size" (number file.size) closed)) in
    if file.size == 0
    then fail invalid site
    else if ltb photo_max_bytes file.size
    then fail invalid site
    else if not (is_photo w file)
    then fail invalid site
    else record {
      answer = success body false;
      site = record {
        confirmations = upsert token saved site.confirmations;
        documents = upsert w.doc_id (photo_document w token request file) site.documents;
      };
    })
