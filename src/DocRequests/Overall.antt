-- ===== src/DocRequests/Overall.antt =====
-- When a request counts as verified as a whole.
use circle_core.Prelude.{
  ◌≡◌, ◌↔◌, ◌⊎◌, refl, sym, ◌∙◌, ap, Bool, true, false, ◌&&◌, not, List, [], ◌∷◌, all, keep_if,
  arith, Bool-cases, inl, inr,
}
use circle_core.Text.{Text, codes, text_eq, text_eq_iff, text_eq_refl, is_empty}
use circle_core.DocRequests.{DocRequest, is_verified, is_in, or_else}
use circle_core.DocRequests.Review.{is_uploaded, is_approved, overall_status}

-- Lists of texts picked by a test, read by what is in them.
module _ (p : Text → Bool) where
  picked_one :
      (docs : List Text)
      → is_empty (keep_if p docs) ≡ false
      → (t : Text) × (is_in t docs ≡ true) × (p t ≡ true)
  unfolding is_in is_empty
  picked_one [] h = absurd (cc)
  picked_one (d ∷ docs) h = elim (Bool-cases (p d)) [
    | inl e ↦ (d, ground (arith, text_eq_refl d), e)
    | inr e ↦ let (t, among, fits) = picked_one docs (rw e at h) in (t, ground (arith, among), fits)
  ]

  one_picked :
      (t : Text) (docs : List Text)
      → is_in t docs ≡ true
      → p t ≡ true
      → is_empty (keep_if p docs) ≡ false
  unfolding is_in is_empty
  one_picked t [] h fits = absurd (cc)
  one_picked t (d ∷ docs) h fits = elim (Bool-cases (p d)) [
    | inl e ↦ rw e refl
    | inr e ↦ rw e (one_picked t docs (ground (arith, h, e, fits, text_eq_iff d t)) fits)
  ]

  all_picked :
      (q : Text → Bool) (docs : List Text)
      → all q (keep_if p docs) ≡ true
      → (t : Text) → is_in t docs ≡ true
      → p t ≡ true
      → q t ≡ true
  unfolding is_in
  all_picked q [] h t among fits = absurd (cc)
  all_picked q (d ∷ docs) h t among fits = elim (Bool-cases (p d)) [
    | inl e ↦
        let both : q d && all q (keep_if p docs) ≡ true = rw e at h in
        elim (Bool-cases (text_eq d t)) [
          | inl same ↦
              let fits_d : q d ≡ true = ground (arith, both) in
              ap q (sym ((text_eq_iff d t).0 same)) ∙ fits_d
          | inr other ↦
              all_picked q docs (ground (arith, both)) t (ground (arith, among, other)) fits
        ]
    | inr e ↦ all_picked q docs (rw e at h) t (ground (arith, among, e, fits, text_eq_iff d t)) fits
  ]

  picked_all :
      (q : Text → Bool) (docs : List Text)
      → ((t : Text) → is_in t docs ≡ true → p t ≡ true → q t ≡ true)
      → all q (keep_if p docs) ≡ true
  unfolding is_in
  picked_all q [] h = refl
  picked_all q (d ∷ docs) h =
      let rest = picked_all q docs (λ t among. h t (ground (arith, among))) in
      let first = h d (ground (arith, text_eq_refl d)) in ground (arith, first, rest)

unverified_status :
    (status : Text)
    → is_verified status ≡ false
    → text_eq (or_else status (codes "Pending")) (codes "Verified") ≡ false
unfolding or_else is_verified is_empty text_eq
unverified_status [] h = refl
unverified_status (c ∷ status) h = h

-- The three outcomes of the rule.
abbrev all_approved : DocRequest → Bool
all_approved request =
    let files = keep_if (is_uploaded request.submissions) request.required_docs in
    not (is_empty files) && all (is_approved request.submissions) files

overall_status_approved :
    (request : DocRequest) → all_approved request ≡ true → overall_status request ≡ codes "Verified"
unfolding overall_status
overall_status_approved request h = rw (h, overall_status) refl

overall_status_kept :
    (request : DocRequest)
    → is_verified request.status ≡ true
    → overall_status request ≡ codes "Verified"
unfolding overall_status
overall_status_kept request h = ground (arith, h)

overall_status_else :
    (request : DocRequest)
    → is_verified request.status ≡ false
    → all_approved request ≡ false
    → text_eq (overall_status request) (codes "Verified") ≡ false
unfolding overall_status
overall_status_else request h k = rw (k, overall_status) (rw h (unverified_status request.status h))

-- A review makes the status of the whole request Verified exactly if it was so before, or if a
-- required document was handed in and of each required document that was handed in the last one is
-- approved. Required documents that were not handed in do not count, and neither does a rejection
-- once the status is Verified.
pub overall_status_verified :
    (request : DocRequest)
    → (overall_status request ≡ codes "Verified") ↔ (
        (is_verified request.status ≡ true)
        ⊎ (((t : Text) × (is_in t request.required_docs ≡ true)
              × (is_uploaded request.submissions t ≡ true))
            × ((t : Text)
                → is_in t request.required_docs ≡ true
                → is_uploaded request.submissions t ≡ true
                → is_approved request.submissions t ≡ true)))
overall_status_verified request =
    let ss = request.submissions in
    let docs = request.required_docs in
    let files = keep_if (is_uploaded ss) docs in
    (
      λ h. elim (Bool-cases (is_verified request.status)) [
        | inl v ↦ inl v
        | inr v ↦ elim (Bool-cases (all_approved request)) [
          | inl c ↦
              let every : all (is_approved ss) files ≡ true = ground (arith, c) in
              inr (
                picked_one (is_uploaded ss) docs (ground (arith, c)),
                all_picked (is_uploaded ss) (is_approved ss) docs every,
              )
          | inr c ↦
              let same : text_eq (overall_status request) (codes "Verified") ≡ true =
                rw h (text_eq_refl (codes "Verified")) in
              ground (arith, same, overall_status_else request v c)
        ]
      ],
      λ h. elim h [
        | inl v ↦ overall_status_kept request v
        | inr ((t, among, fits), approved) ↦
            let some_file : is_empty files ≡ false =
              one_picked (is_uploaded ss) t docs among fits in
            let every : all (is_approved ss) files ≡ true =
              picked_all (is_uploaded ss) (is_approved ss) docs approved in
            overall_status_approved request (rw (some_file, every) refl)
      ],
    )
