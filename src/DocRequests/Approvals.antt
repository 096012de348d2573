-- ===== src/DocRequests/Approvals.antt =====
-- The approved documents of a request, and what a new or a confirmed submission does to them.
use circle_core.Prelude.{
  ◌≡◌, refl, sym, ◌∙◌, ap, Bool, true, false, not, Option, none, some, List, [], ◌∷◌, ◌++◌,
  if◌then◌else◌, keep_if, arith, Bool-cases, Option-cases, inl, inr,
}
use circle_core.Text.{Text, text_eq, text_eq_iff}
use circle_core.Resources.{Rows, find}
use circle_core.DocRequests.{
  Extraction, Submission, DocRequest, Tables, Outside, is_verified, find_submission,
  change_submission,
}
use circle_core.DocRequests.Portal.{accepts_type, add_submission, confirmed}

-- A submission, if it is approved.
unfoldable pub if_verified : Option Submission → Option Submission
if_verified none = none
if_verified (some s) = if is_verified s.status then some s else none

-- Of a request: its approved submission of a type, and whether it counts as verified as a whole.
unfoldable pub approved_in : Text → Option DocRequest → Option Submission
unfolding if_verified find_submission
approved_in doc none = none
approved_in doc (some request) = if_verified (find_submission doc request.submissions)

unfoldable pub is_closed : Option DocRequest → Bool
is_closed none = false
is_closed (some request) = is_verified request.status

find_submission-replaced :
    (doc t : Text) (s : Submission) (ss : List Submission)
    → s.doc_type ≡ t
    → find_submission doc (keep_if (λ x. not (text_eq x.doc_type t)) ss ++ (s ∷ []))
      ≡ (if text_eq t doc then some s else find_submission doc ss)
unfolding find_submission
find_submission-replaced doc t s [] same = rw same refl
find_submission-replaced doc t s (x ∷ ss) same = ground (
  arith,
  find_submission-replaced doc t s ss same,
  text_eq_iff x.doc_type t,
  text_eq_iff x.doc_type doc,
  text_eq_iff t doc,
)

find_submission-change_submission :
    (doc t : Text) (f : Submission → Submission) (ss : List Submission) (s : Submission)
    → ((x : Submission) → (f x).doc_type ≡ x.doc_type)
    → find_submission t ss ≡ some s
    → find_submission doc (change_submission t f ss)
      ≡ (if text_eq t doc then some (f s) else find_submission doc ss)
unfolding find_submission change_submission
find_submission-change_submission doc t f [] s same h = ground (arith, h)
find_submission-change_submission doc t f (x ∷ ss) s same h =
    elim (Bool-cases (text_eq x.doc_type t)) [
      | inl e ↦
          let found : some x ≡ some s = rw e at h in
          let one : x ≡ s = cc in
          let typed : x.doc_type ≡ t = (text_eq_iff x.doc_type t).0 e in
          rw e (
            ap (λ u. if text_eq u doc then some (f x) else find_submission doc ss) (same x ∙ typed)
            ∙ elim (Bool-cases (text_eq t doc)) [
              | inl d ↦ rw d (ap (λ u. some (f u)) one)
              | inr d ↦
                  let other : text_eq x.doc_type doc ≡ false = ap (λ u. text_eq u doc) typed ∙ d in
                  rw (d, other) refl
            ])
      | inr e ↦ ground (
        arith,
        h,
        e,
        find_submission-change_submission doc t f ss s same,
        text_eq_iff x.doc_type t,
        text_eq_iff x.doc_type doc,
        text_eq_iff t doc,
      )
    ]

pub add_submission_approval :
    (w : Outside) (doc : Text) (s : Submission) (request : DocRequest)
    → is_verified s.status ≡ false
    → if_verified (find_submission s.doc_type request.submissions) ≡ none
    → approved_in doc (some (add_submission w s request)) ≡ approved_in doc (some request)
unfolding approved_in add_submission
add_submission_approval w doc s request fresh open_type =
    ap if_verified (find_submission-replaced doc s.doc_type s request.submissions refl)
    ∙ elim (Bool-cases (text_eq s.doc_type doc)) [
      | inl e ↦
          let one : s.doc_type ≡ doc = (text_eq_iff s.doc_type doc).0 e in
          let open_doc : if_verified (find_submission doc request.submissions) ≡ none =
            ap (λ t. if_verified (find_submission t request.submissions)) (sym one) ∙ open_type in
          rw (e, if_verified, fresh) (sym open_doc)
      | inr e ↦ rw e refl
    ]

pub add_submission_status :
    (w : Outside) (s : Submission) (request : DocRequest)
    → is_closed (some (add_submission w s request)) ≡ is_closed (some request)
unfolding is_closed add_submission is_verified text_eq
add_submission_status w s request = ground arith

-- Where a type is accepted, its submission is not approved.
pub accepts_type_open :
    (w : Outside) (t : Text) (request : DocRequest)
    → accepts_type w t request ≡ true
    → if_verified (find_submission t request.submissions) ≡ none
unfolding accepts_type if_verified
accepts_type_open w t request h = elim (Option-cases (find_submission t request.submissions)) [
  | inl e ↦ rw e refl
  | inr (s, e) ↦ ground (arith, h, e)
]

-- Of the tables: an approved submission behind a link, and whether its request is verified.
unfoldable pub approved : Text → Text → Tables → Option Submission
unfolding approved_in find
approved doc token tables = approved_in doc (find token tables.requests)

unfoldable pub is_verified_request : Text → Tables → Bool
unfolding is_closed find
is_verified_request token tables = is_closed (find token tables.requests)

pub confirmed_approval :
    (w : Outside) (doc t : Text) (edits : Option (Rows Text)) (e : Extraction) (s : Submission)
    (ss : List Submission)
    → find_submission t ss ≡ some s
    → is_verified s.status ≡ false
    → if_verified (
        find_submission doc
          (change_submission t (λ x. record x { extraction = some (confirmed w edits e) }) ss))
      ≡ if_verified (find_submission doc ss)
unfolding if_verified
confirmed_approval w doc t edits e s ss h unverified =
    ap if_verified (
      find_submission-change_submission doc t
        (λ x. record x { extraction = some (confirmed w edits e) }) ss s (λ x. refl) h)
    ∙ elim (Bool-cases (text_eq t doc)) [
      | inl d ↦
          let found : find_submission doc ss ≡ some s =
            ap (λ u. find_submission u ss) (sym ((text_eq_iff t doc).0 d)) ∙ h in
          rw (d, found, unverified) refl
      | inr d ↦ rw d refl
    ]
