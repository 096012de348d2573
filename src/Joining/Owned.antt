-- ===== src/Joining/Owned.antt =====
-- About the fields that the holder of a link does not write.
use circle_core.Prelude.{
  ◌≡◌, refl, ap, ◌∙◌, Bool, true, false, ◌||◌, String, some, List, [], ◌∷◌, arith, str_eq, eq_iff,
  ◌==◌, ltb, Option-cases, Bool-cases, inl, inr,
}
use circle_core.Text.{Text}
use circle_core.Value.{Value, text, Fields, field, closed, get}
use circle_core.Value.Update.{set, update, has_key, get-set, get-update}
use circle_core.Resources.{find}
use circle_core.Resources.Laws.{field_of, field_of-upsert}
use circle_core.DocRequests.{Upload}
use circle_core.Joining.{
  Site, Outside, Step, with_record, is_expired, is_candidate_writable, allowed_of, is_no_change,
  is_photo, photo_max_bytes, update_joining_confirmation, upload_joining_photo,
}

-- The fields that the routes write: the answers, the photo, and when it was.
unfoldable pub is_written : String → Bool
unfolding is_candidate_writable
is_written key =
    is_candidate_writable key
    || (str_eq "photoDocumentId" key || (str_eq "photoFileName" key || str_eq "updatedAt" key))

-- What the holders of links do, in turn, each at its time.
pub data Act : Type 0 where
  answers : Outside → Text → Fields → Act
  sends_photo : Outside → Text → Upload → Act

unfoldable pub act : Act → Site → Site
unfolding update_joining_confirmation upload_joining_photo
act (answers w token changes) site = (update_joining_confirmation w token changes site).site
act (sends_photo w token file) site = (upload_joining_photo w token file site).site

unfoldable pub act_all : List Act → Site → Site
unfolding act
act_all [] site = site
act_all (a ∷ acts) site = act_all acts (act a site)

-- A key that may be written is not one that may not.
str_eq-other :
    (key k : String)
    → is_candidate_writable key ≡ false
    → is_candidate_writable k ≡ true
    → str_eq k key ≡ false
str_eq-other key k h e = elim (Bool-cases (str_eq k key)) [
  | inl same ↦ ground (arith, h, e, ap is_candidate_writable ((eq_iff k key).0 same))
  | inr other ↦ other
]

allowed_of_lacks :
    (key : String) (changes : Fields)
    → is_candidate_writable key ≡ false
    → has_key key (allowed_of changes) ≡ false
unfolding allowed_of has_key
allowed_of_lacks key closed h = refl
allowed_of_lacks key (field k v changes) h =
    let rest = allowed_of_lacks key changes h in
    elim (Bool-cases (is_candidate_writable k)) [
      | inl e ↦ let other = str_eq-other key k h e in rw (allowed_of, e, has_key, other) rest
      | inr e ↦ rw (allowed_of, e) rest
    ]

module _ (key : String) (h : is_written key ≡ false) (j : Text) (site : Site) where
  -- A step leaves the field as it was.
  abbrev IsKept : Step → Type 0
  IsKept step = field_of key j step.site.confirmations ≡ field_of key j site.confirmations

  with_record-IsKept :
      (w : Outside) (token : Text) (next : Fields → Step)
      → ((request : Fields) → find token site.confirmations ≡ some request → IsKept (next request))
      → IsKept (with_record w token site next)
  unfolding with_record field_of
  with_record-IsKept w token next k = elim (Option-cases (find token site.confirmations)) [
    | inl e ↦ rw (with_record, e) refl
    | inr (request, e) ↦ elim (Option-cases (is_expired w request)) [
      | inl f ↦ rw (with_record, e, f) refl
      | inr (true, f) ↦ rw (with_record, e, f) refl
      | inr (false, f) ↦ rw (with_record, e, f) (k request e)
    ]
  ]

  answers-IsKept :
      (w : Outside) (token : Text) (changes : Fields)
      → IsKept (update_joining_confirmation w token changes site)
  unfolding update_joining_confirmation is_written
  answers-IsKept w token changes = with_record-IsKept w token _ (λ request e.
      let allowed = allowed_of changes in
      let lacks = allowed_of_lacks key changes (ground (arith, h)) in
      let same : get key (set "updatedAt" (text w.now_text) (update request allowed))
          ≡ get key request =
        ground (
          arith,
          h,
          get-set key "updatedAt" (text w.now_text) (update request allowed),
          get-update key request allowed lacks,
        ) in
      let kept = field_of-upsert key j token request _ site.confirmations e same in
      elim (Bool-cases (is_no_change allowed)) [ inl f ↦ rw f refl | inr f ↦ rw f kept ])

  photo-IsKept :
      (w : Outside) (token : Text) (file : Upload) → IsKept (upload_joining_photo w token file site)
  unfolding upload_joining_photo is_written
  photo-IsKept w token file = with_record-IsKept w token _ (λ request e.
      let kept = λ (name : Value).
        field_of-upsert key j token request
          (set "updatedAt" (text w.now_text)
            (set "photoFileName" name (set "photoDocumentId" (text w.doc_id) request)))
          site.confirmations e
          (ground (
            arith,
            h,
            get-set key "updatedAt" (text w.now_text)
                (set "photoFileName" name (set "photoDocumentId" (text w.doc_id) request)),
            get-set key "photoFileName" name (set "photoDocumentId" (text w.doc_id) request),
            get-set key "photoDocumentId" (text w.doc_id) request,
          )) in
      elim (Bool-cases (file.size == 0)) [
        | inl e0 ↦ rw e0 refl
        | inr e0 ↦ elim (Bool-cases (ltb photo_max_bytes file.size)) [
          | inl e1 ↦ rw (e0, e1) refl
          | inr e1 ↦ elim (Bool-cases (is_photo w file)) [
            | inl e2 ↦ rw (e0, e1, e2) (kept _)
            | inr e2 ↦ rw (e0, e1, e2) refl
          ]
        ]
      ])

act-IsKept :
    (key : String)
    → is_written key ≡ false
    → (j : Text) (a : Act) (site : Site)
    → field_of key j (act a site).confirmations ≡ field_of key j site.confirmations
unfolding act
act-IsKept key h j (answers w token changes) site = answers-IsKept key h j site w token changes
act-IsKept key h j (sends_photo w token file) site = photo-IsKept key h j site w token file

-- Whatever the holders of links send in, at any times, a field other than the answers, the photo and
-- the time of the update stays as it is on every confirmation; none appears or goes.
pub act_all-IsKept :
    (key : String)
    → is_written key ≡ false
    → (j : Text) (acts : List Act) (site : Site)
    → field_of key j (act_all acts site).confirmations ≡ field_of key j site.confirmations
unfolding act_all
act_all-IsKept key h j [] site = refl
act_all-IsKept key h j (a ∷ acts) site =
    act_all-IsKept key h j acts (act a site) ∙ act-IsKept key h j a site
