-- ===== src/Applications/Single.antt =====
-- One application for each address and posting.
use circle_core.Prelude.{
  ℕ, ◌+◌, ◌≤◌, ◌≡◌, refl, ap, Bool, true, false, List, [], ◌∷◌, if◌then◌else◌, any, count_if, arith,
  Bool-cases, Option-cases, inl, inr,
}
use circle_core.Text.{Text, text_eq, text_eq_iff}
use circle_core.Resources.{Rows, find, upsert}
use circle_core.Applications.{norm_email}
use circle_core.Applications
use circle_core.Applications.Forms.{Job, Application, Resume, Candidate, Site, Outside, Drawn}
use circle_core.Applications.Apply.{
  referral_needs_name, is_by, already_applied, candidate_of, store_application, admits, apply_to,
  apply,
}

count_if-upsert :
    (p : Text × Candidate → Bool) (id : Text) (d : Candidate) (rows : Rows Candidate)
    → count_if p (upsert id d rows) ≤ (if p (id, d) then 1 else 0) + count_if p rows
unfolding upsert
count_if-upsert p id d [] = ground arith
count_if-upsert p id d ((key, old) ∷ rows) = elim (Bool-cases (text_eq key id)) [
  | inl e ↦
      let same : p (key, d) ≡ p (id, d) = ap (λ k. p (k, d)) ((text_eq_iff key id).0 e) in
      rw (e, same) (omega arith)
  | inr e ↦ rw e (ground (arith, count_if-upsert p id d rows))
]

any-count_if :
    (p : Text × Candidate → Bool) (rows : Rows Candidate) → any p rows ≡ false → count_if p rows ≡ 0
any-count_if p [] h = refl
any-count_if p (row ∷ rows) h = ground (arith, h, any-count_if p rows)

-- No two applications for one posting come from one address.
abbrev pub IsSingle : Applications.Outside → Rows Candidate → Type 0
IsSingle w candidates = (job_id address : Text) → count_if (is_by w job_id address) candidates ≤ 1

is_by_new :
    (w : Outside) (now : ℕ) (r : Drawn) (a : Application) (resume : Resume) (job : Job)
    (job_id address : Text)
    → is_by w.codes_side job_id address (r.candidate_id, candidate_of w now a resume job) ≡ true
    → (a.job_id ≡ job_id) × (norm_email w.codes_side a.email ≡ address)
unfolding is_by candidate_of
is_by_new w now r a resume job job_id address h = (
  (text_eq_iff a.job_id job_id).0 (ground (arith, h)),
  (text_eq_iff (norm_email w.codes_side a.email) address).0 (ground (arith, h)),
)

stored-IsSingle :
    (w : Outside) (now : ℕ) (r : Drawn) (a : Application) (resume : Resume) (job : Job)
    (site : Site)
    → IsSingle w.codes_side site.candidates
    → already_applied w.codes_side a.job_id a.email site.candidates ≡ false
    → IsSingle w.codes_side (store_application w now r a resume job site).candidates
unfolding store_application already_applied
stored-IsSingle w now r a resume job site single free job_id address =
    let o = w.codes_side in
    let c = candidate_of w now a resume job in
    let bound = count_if-upsert (is_by o job_id address) r.candidate_id c site.candidates in
    elim (Bool-cases (is_by o job_id address (r.candidate_id, c))) [
      | inl e ↦
          let (posting, applicant) = is_by_new w now r a resume job job_id address e in
          let none_yet : count_if (is_by o job_id address) site.candidates ≡ 0 =
            rw (posting, applicant) at
              (any-count_if (is_by o a.job_id (norm_email o a.email)) site.candidates free) in
          omega (arith, (rw e at bound), none_yet)
      | inr e ↦ omega (arith, (rw e at bound), single job_id address)
    ]

apply_to-IsSingle :
    (w : Outside) (now : ℕ) (r : Drawn) (resume : Resume) (site : Site) (a : Application)
    → IsSingle w.codes_side site.candidates
    → IsSingle w.codes_side (apply_to w now r resume site a).site.candidates
unfolding apply_to admits
apply_to-IsSingle w now r resume site a single = elim (Option-cases (find a.job_id site.jobs)) [
  | inl e ↦ rw (e, apply_to) single
  | inr (job, e) ↦ elim (Bool-cases (admits w now a resume job site)) [
    | inl h ↦
        rw (e, apply_to)
          (rw h (stored-IsSingle w now r a resume job site single (ground (arith, h))))
    | inr h ↦ rw (e, apply_to) (rw h single)
  ]
]

-- What arrives at the route: the time, what is drawn, the form and the resume.
abbrev pub Arrival : Type 0
Arrival = ℕ × (Drawn × (Application × Resume))

unfoldable pub apply_all : Outside → List Arrival → Site → Site
unfolding apply
apply_all w [] site = site
apply_all w ((now, (r, (form, resume))) ∷ more) site =
    apply_all w more (apply w now r form resume site).site

-- Whatever applications arrive, with whatever identifiers are drawn for them: if there is at most
-- one candidate for each posting and address, however the address is spelled, then there still is.
pub apply_all-IsSingle :
    (w : Outside) (arrivals : List Arrival) (site : Site)
    → IsSingle w.codes_side site.candidates
    → IsSingle w.codes_side (apply_all w arrivals site).candidates
unfolding apply_all apply
apply_all-IsSingle w [] site single = single
apply_all-IsSingle w ((now, (r, (form, resume))) ∷ more) site single =
    apply_all-IsSingle w more (apply w now r form resume site).site
      (elim (Option-cases (referral_needs_name form)) [
        | inl e ↦ rw (e, apply) single
        | inr (a, e) ↦ rw (e, apply) (apply_to-IsSingle w now r resume site a single)
      ])
