-- ===== src/Applications/Apply.antt =====
-- app/api/routes/public.py, `apply`: a job application, from the form that its schema has let through.
use circle_core.Prelude.{
  ℕ, Bool, true, false, ◌&&◌, ◌||◌, not, Option, none, some, List, [], ◌++◌, ◌*◌, if◌then◌else◌,
  any, keep_if, leb, ◌==◌, length, map,
}
use circle_core.Text.{Text, codes, text_eq, strip, is_empty, starts_with}
use circle_core.Text.Ops.{ends_with}
use circle_core.Resources.{Rows, find, upsert}
use circle_core.Screening.{build_answers, compute_fit, build_extra_answers, missing_required_extra}
use circle_core.Applications.{Otp, norm_email, email_is_verified, consume}
use circle_core.Applications
use circle_core.Applications.Forms.{
  Job, referral, Application, Resume, Candidate, ResumeDocument, Site, Outside, Drawn,
}

-- `_clean`
unfoldable pub is_control : ℕ → Bool
is_control c = leb c 8 || ((c == 11) || ((c == 12) || ((leb 14 c && leb c 31) || (c == 127))))

unfoldable pub clean : Text → Text
unfolding is_control
clean s = strip (keep_if (λ c. not (is_control c || ((c == b'<') || (c == b'>')))) s)

-- `_referral_needs_name`: `none` is a refusal.
unfoldable pub referral_needs_name : Application → Option Application
referral_needs_name a = elim a.source [
  | referral ↦ if is_empty (strip a.referred_by) then none else some a
  | _ ↦ some (record a { referred_by = [] })
]

-- `_already_applied`
unfoldable pub is_by : Applications.Outside → Text → Text → Text × Candidate → Bool
unfolding norm_email
is_by w job_id address row =
    text_eq row.1.job_id job_id && text_eq (norm_email w row.1.email) address

unfoldable pub already_applied : Applications.Outside → Text → Text → Rows Candidate → Bool
unfolding is_by norm_email
already_applied w job_id email candidates = any (is_by w job_id (norm_email w email)) candidates

-- The job takes applications, and this one has what the job asks for.
unfoldable pub fits_job : Application → Job → Bool
fits_job a job =
    let is_employed =
      not (is_empty (strip a.current_designation))
      && (not (is_empty (strip a.current_ctc)) && not (is_empty (strip a.expected_ctc))) in
    if not (text_eq job.status (codes "Open"))
    then false
    else if not (text_eq job.employment_type (codes "Internship")) && not is_employed
    then false
    else not (
        job.extra_questions_enabled && missing_required_extra job.extra_questions a.extra_responses)

unfoldable pub is_good_resume : Outside → Resume → Bool
is_good_resume w resume =
    not (is_empty resume.content)
    && (leb (length resume.content) (w.max_upload_mb * 1024 * 1024)
        && starts_with resume.content (codes "%PDF-"))

-- `match_keywords` of app/services/resume_keywords.py.
unfoldable pub match_keywords : Outside → Text → List Text → List Text
match_keywords w resume_text keywords =
    if is_empty resume_text
    then []
    else keep_if (λ k. not (is_empty (strip k)) && w.occurs (strip k) resume_text) keywords

-- The name that the resume is kept under.
unfoldable pub resume_name : Outside → Resume → Text
unfolding ends_with
resume_name w resume =
    let filename = if is_empty resume.filename then codes "resume.pdf" else resume.filename in
    if ends_with (w.codes_side.lower filename) (codes ".pdf")
    then filename
    else filename ++ codes ".pdf"

unfoldable pub candidate_of : Outside → ℕ → Application → Resume → Job → Candidate
unfolding clean match_keywords resume_name
candidate_of w now a resume job =
    let answers = build_answers job.screening_questions a.responses in
    let resume_text = w.extract_text resume.content in
    record {
      full_name = clean a.full_name;
      email = a.email;
      phone = codes "+91 " ++ a.phone;
      location = clean a.location;
      gender =
          if text_eq a.gender (codes "Male")
            || (text_eq a.gender (codes "Female") || text_eq a.gender (codes "Other"))
          then a.gender
          else [];
      current_company = clean a.current_company;
      current_designation = clean a.current_designation;
      total_experience_years = a.total_experience_years;
      relevant_experience_years = a.total_experience_years;
      current_ctc = clean a.current_ctc;
      expected_ctc = clean a.expected_ctc;
      notice_period_days = a.notice_period_days;
      resume_url = if is_empty a.resume_url then resume_name w resume else a.resume_url;
      linked_in_url = a.linked_in_url;
      applied_role = job.title;
      department = job.department;
      source_of_application = a.source;
      referral_details = elim a.source [
        | referral ↦ clean a.referred_by
        | _ ↦ codes "Applied via public posting " ++ a.job_id
      ];
      hr_remarks = clean a.cover_note;
      status = codes "New Application";
      applied_at = now;
      job_id = a.job_id;
      screening_answers = answers;
      extra_answers =
          if job.extra_questions_enabled
          then build_extra_answers job.extra_questions a.extra_responses
          else [];
      fit_rating = if is_empty answers then none else some (compute_fit answers);
      resume_text = resume_text;
      keyword_matches = match_keywords w resume_text job.keywords;
    }

-- `_SAFE_NAME.sub("_", filename)`
unfoldable pub plain_name : Text → Text
plain_name = map (λ c.
    if (leb b'A' c && leb c b'Z')
      || ((leb b'a' c && leb c b'z')
          || ((leb b'0' c && leb c b'9') || ((c == b'.') || ((c == b'_') || (c == b'-')))))
    then c
    else b'_')

unfoldable pub resume_document : Outside → ℕ → Drawn → Resume → ResumeDocument
unfolding resume_name plain_name
resume_document w now r resume = record {
  entity_id = r.candidate_id;
  file_name = resume_name w resume;
  size = length resume.content;
  storage_key =
      codes "documents/candidate/"
      ++ (r.candidate_id
          ++ (codes "/" ++ (r.doc_id ++ (codes "_" ++ plain_name (resume_name w resume)))));
  uploaded_at = now;
}

-- What an application that is accepted writes.
unfoldable pub store_application : Outside → ℕ → Drawn → Application → Resume → Job → Site → Site
unfolding candidate_of resume_document consume upsert
store_application w now r a resume job site = record site {
  documents = upsert r.doc_id (resume_document w now r resume) site.documents;
  candidates = upsert r.candidate_id (candidate_of w now a resume job) site.candidates;
  otps = consume w.codes_side a.email site.otps;
}

-- Whether the application was accepted, and the tables afterwards.
pub record Step : Type 0 where
  pub accepted : Bool
  pub site : Site

-- The checks behind the schema, in the source's order.
unfoldable pub admits : Outside → ℕ → Application → Resume → Job → Site → Bool
unfolding fits_job email_is_verified already_applied is_good_resume
admits w now a resume job site =
    fits_job a job
    && (email_is_verified w.codes_side now a.email site.otps
        && (not (already_applied w.codes_side a.job_id a.email site.candidates)
            && is_good_resume w resume))

unfoldable pub apply_to : Outside → ℕ → Drawn → Resume → Site → Application → Step
unfolding find admits store_application
apply_to w now r resume site a = elim (find a.job_id site.jobs) [
  | none ↦ record { accepted = false; site = site }
  | some job ↦
      if admits w now a resume job site
      then record { accepted = true; site = store_application w now r a resume job site }
      else record { accepted = false; site = site }
]

unfoldable pub apply : Outside → ℕ → Drawn → Application → Resume → Site → Step
unfolding referral_needs_name apply_to
apply w now r form resume site = elim (referral_needs_name form) [
  | none ↦ record { accepted = false; site = site }
  | some a ↦ apply_to w now r resume site a
]
