-- ===== src/DocRequests/Locked.antt =====
-- What a candidate cannot do through the link: approve a document, or touch an approved one.
use circle_core.Prelude.{
  ◌≡◌, refl, sym, ◌∙◌, ap, false, ◌&&◌, Option, some, List, [], ◌∷◌, if◌then◌else◌, arith,
  Bool-cases, Option-cases, inl, inr,
}
use circle_core.Text.{Text, text_eq, text_eq_iff}
use circle_core.Resources.{Rows, find, upsert}
use circle_core.Resources.Laws.{find-upsert}
use circle_core.DocRequests.{
  Extraction, Submission, DocRequest, Tables, Upload, Outside, is_expired, is_verified,
  find_submission,
}
use circle_core.DocRequests.Portal.{
  accepts_type, accepts_file, submission_of, add_submission, upload_request_document,
  confirm_document, confirm_submission,
}
use circle_core.DocRequests.Approvals.{
  approved_in, is_closed, approved, is_verified_request, add_submission_approval,
  add_submission_status, accepts_type_open, confirmed_approval,
}

-- What the holders of links do.
pub data Action : Type 0 where
  upload : Text → Text → Text → Upload → Action
  confirm : Text → Text → Option (Rows Text) → Action

unfoldable pub act : Outside → Action → Tables → Tables
unfolding upload_request_document confirm_submission
act w (upload doc_id token doc_type file) tables =
    (upload_request_document w doc_id token doc_type file tables).tables
act w (confirm token doc_type edits) tables =
    (confirm_submission w token doc_type edits tables).tables

-- A step leaves approvals as they were.
abbrev pub IsHarmless : Tables → Tables → Type 0
IsHarmless before after =
    (token doc : Text)
    → (approved doc token after ≡ approved doc token before)
      × (is_verified_request token after ≡ is_verified_request token before)

-- A request saved again, with the same approvals in it.
resaved-IsHarmless :
    (token : Text) (request changed : DocRequest) (before after : Tables)
    → find token before.requests ≡ some request
    → after.requests ≡ upsert token changed before.requests
    → ((doc : Text) → approved_in doc (some changed) ≡ approved_in doc (some request))
    → is_closed (some changed) ≡ is_closed (some request)
    → IsHarmless before after
unfolding approved is_verified_request
resaved-IsHarmless token request changed before after h saved same closed other doc =
    let found : find other after.requests
        ≡ (if text_eq token other then some changed else find other before.requests) =
      ap (find other) saved ∙ find-upsert other token changed before.requests in
    elim (Bool-cases (text_eq token other)) [
      | inl e ↦
          let one : find other before.requests ≡ some request =
            ap (λ t. find t before.requests) (sym ((text_eq_iff token other).0 e)) ∙ h in
          rw (found, one) (rw e (same doc, closed))
      | inr e ↦ rw found (rw e (refl, refl))
    ]

upload-IsHarmless :
    (w : Outside) (doc_id token doc_type : Text) (file : Upload) (tables : Tables)
    → IsHarmless tables (act w (upload doc_id token doc_type file) tables)
unfolding act upload_request_document
upload-IsHarmless w doc_id token doc_type file tables =
    elim (Option-cases (find token tables.requests)) [
      | inl e ↦ rw (e, act, upload_request_document) (λ t d. (refl, refl))
      | inr (request, e) ↦
          elim (Bool-cases (accepts_type w doc_type request && accepts_file w doc_type file)) [
            | inl a ↦
                let s = submission_of w doc_id doc_type file in
                let open_type = accepts_type_open w doc_type request (ground (arith, a)) in
                let new : is_verified s.status ≡ false =
                  unfold submission_of is_verified text_eq in refl in
                rw (e, act, upload_request_document)
                  (rw a (
                    resaved-IsHarmless token request (add_submission w s request) tables _ e refl
                      (λ doc. add_submission_approval w doc s request new open_type)
                      (add_submission_status w s request)))
            | inr a ↦ rw (e, act, upload_request_document) (rw a (λ t d. (refl, refl)))
          ]
    ]

confirm_document-IsHarmless :
    (w : Outside) (token doc_type : Text) (edits : Option (Rows Text)) (request : DocRequest)
    (s : Submission) (e : Extraction) (tables : Tables)
    → find token tables.requests ≡ some request
    → find_submission doc_type request.submissions ≡ some s
    → is_verified s.status ≡ false
    → IsHarmless tables (confirm_document w doc_type edits request s e tables token).tables
unfolding confirm_document approved_in is_closed
confirm_document-IsHarmless w token doc_type edits request s e tables h k unverified =
    resaved-IsHarmless token request _ tables _ h refl
      (λ doc. confirmed_approval w doc doc_type edits e s request.submissions k unverified) refl

confirm-IsHarmless :
    (w : Outside) (token doc_type : Text) (edits : Option (Rows Text)) (tables : Tables)
    → IsHarmless tables (act w (confirm token doc_type edits) tables)
unfolding act confirm_submission
confirm-IsHarmless w token doc_type edits tables =
    elim (Option-cases (find token tables.requests)) [
      | inl h ↦ rw (h, act, confirm_submission) (λ t d. (refl, refl))
      | inr (request, h) ↦ elim (Bool-cases (is_expired w request)) [
        | inl x ↦ rw (h, act, confirm_submission) (rw x (λ t d. (refl, refl)))
        | inr x ↦ elim (Option-cases (find_submission doc_type request.submissions)) [
          | inl k ↦ rw (h, act, confirm_submission) (rw (x, k) (λ t d. (refl, refl)))
          | inr (s, k) ↦ elim (Bool-cases (is_verified s.status)) [
            | inl v ↦ rw (h, act, confirm_submission) (rw (x, k) (rw v (λ t d. (refl, refl))))
            | inr v ↦ elim (Option-cases s.extraction) [
              | inl r ↦
                  rw (h, act, confirm_submission) (rw (x, k) (rw (v, r) (λ t d. (refl, refl))))
              | inr (e, r) ↦
                  rw (h, act, confirm_submission)
                    (rw (x, k)
                      (rw (v, r)
                        (confirm_document-IsHarmless w token doc_type edits request s e tables h k
                          v)))
            ]
          ]
        ]
      ]
    ]

act-IsHarmless :
    (w : Outside) (action : Action) (tables : Tables) → IsHarmless tables (act w action tables)
act-IsHarmless w (upload doc_id token doc_type file) tables =
    upload-IsHarmless w doc_id token doc_type file tables
act-IsHarmless w (confirm token doc_type edits) tables =
    confirm-IsHarmless w token doc_type edits tables

-- A sequence of such actions, each at its own time.
unfoldable pub act_all : List (Outside × Action) → Tables → Tables
unfolding act
act_all [] tables = tables
act_all ((w, action) ∷ actions) tables = act_all actions (act w action tables)

-- Whatever the holders of links do, in whatever order and with whatever files and corrections: the
-- approved documents of every request stay exactly as they are, none is added to them, and no
-- request becomes or stops being verified.
pub act_all-IsHarmless :
    (actions : List (Outside × Action)) (tables : Tables)
    → IsHarmless tables (act_all actions tables)
unfolding act_all
act_all-IsHarmless [] tables token doc = (refl, refl)
act_all-IsHarmless ((w, action) ∷ actions) tables token doc =
    let first = act-IsHarmless w action tables token doc in
    let rest = act_all-IsHarmless actions (act w action tables) token doc in
    (rest.0 ∙ first.0, rest.1 ∙ first.1)
