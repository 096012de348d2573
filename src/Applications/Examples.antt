-- ===== src/Applications/Examples.antt =====
-- Codes guessed for one address, and two applications, of which the second replaces the first since
-- the same identifier is drawn for it.
use circle_core.Prelude.{◌≤◌, ◌*◌, ◌≡◌, refl, true, false, some, List, [], ◌∷◌, arith, map}
use circle_core.Text.{Text, codes, text_eq, strip, lstrip, rstrip, is_space, is_empty, starts_with}
use circle_core.Resources.{find, upsert, remove}
use circle_core.Applications
use circle_core.Applications.{
  Otp, max_attempts, norm_email, recent_issues, last_of, in_cooldown, new_otp, otp_request,
  check_code, otp_verify, email_is_verified, consume,
}
use circle_core.Applications.Guesses.{
  Event, request, verify, mailed, missed, handle, is_for, mails, misses, misses-le-mails,
}
use circle_core.Applications.Forms.{Job, other, Application, Resume, Site, Outside}
use circle_core.Applications.Apply.{
  referral_needs_name, is_by, already_applied, fits_job, is_good_resume, store_application, admits,
  apply_to, apply, candidate_of,
}
use circle_core.Applications.Single.{IsSingle, Arrival, apply_all, apply_all-IsSingle}

abbrev outside : Applications.Outside
outside = record { lower = λ t. t; max_per_email_per_hour = 5; resend_cooldown = 30000000 }

abbrev address : Text
address = codes "asha@home.in"

-- A code is mailed; of seven guesses five are compared.
abbrev guesses : List Event
guesses =
    request 1 (codes "1234") address
    ∷ map (λ c. verify 2 c address)
        (codes "0000"
          ∷ codes "0001"
          ∷ codes "0002"
          ∷ codes "0003"
          ∷ codes "0004"
          ∷ codes "0005"
          ∷ codes "1234"
          ∷ [])

five_compared : (misses outside address guesses [] ≡ 5) × (mails outside address guesses [] ≡ 1)
unfolding misses mails handle missed mailed is_for otp_request otp_verify check_code norm_email
    recent_issues in_cooldown last_of new_otp find upsert text_eq strip lstrip rstrip is_space
five_compared = (refl, refl)

misses-le-mails_example : misses outside address guesses [] ≤ 5 * mails outside address guesses []
misses-le-mails_example = misses-le-mails outside address guesses

abbrev world : Outside
world = record {
  codes_side = outside;
  max_upload_mb = 10;
  extract_text = λ d. [];
  occurs = λ k t. false;
}

abbrev form_of : Text → Application
form_of email = record {
  job_id = codes "J1";
  full_name = codes "Asha";
  email = email;
  phone = codes "9876543210";
  current_designation = [];
  current_ctc = [];
  expected_ctc = [];
  total_experience_years = 0;
  notice_period_days = 0;
  linked_in_url = codes "https://linkedin.com/in/asha";
  cover_note = codes "Hello";
  location = [];
  gender = [];
  current_company = [];
  source = other;
  referred_by = [];
  resume_url = [];
  responses = [];
  extra_responses = [];
}

abbrev internship : Job
internship = record {
  status = codes "Open";
  employment_type = codes "Internship";
  title = codes "Designer";
  department = codes "Design";
  screening_questions = [];
  extra_questions_enabled = false;
  extra_questions = [];
  keywords = [];
}

abbrev checked : Otp
checked = record {
  code = codes "1234";
  issued_times = 1 ∷ [];
  expires_at = 9;
  attempts = 0;
  verified = true;
  verified_at = some 3;
}

abbrev careers_site : Site
careers_site = record {
  otps = (address, checked) ∷ (codes "ravi@home.in", checked) ∷ [];
  jobs = (codes "J1", internship) ∷ [];
  candidates = [];
  documents = [];
}

abbrev pdf : Resume
pdf = record { filename = codes "cv.pdf"; content = codes "%PDF-1.7" }

abbrev arrivals : List Arrival
arrivals =
    (4, (record { candidate_id = codes "CAN-100001"; doc_id = codes "d1" }, (form_of address, pdf)))
    ∷ (
      5,
      (
        record { candidate_id = codes "CAN-100001"; doc_id = codes "d2" },
        (form_of (codes "ravi@home.in"), pdf),
      ),
    )
    ∷ []

-- Both are accepted, and one candidate is left.
one_left :
    map (λ row. row.1.email) (apply_all world arrivals careers_site).candidates
    ≡ (codes "ravi@home.in" ∷ [])
unfolding apply_all apply apply_to referral_needs_name admits fits_job email_is_verified
    already_applied is_by is_good_resume store_application candidate_of consume norm_email find
    upsert remove text_eq strip lstrip rstrip is_space is_empty starts_with
one_left = refl

apply_all-IsSingle_example : IsSingle outside (apply_all world arrivals careers_site).candidates
apply_all-IsSingle_example =
    apply_all-IsSingle world arrivals careers_site (λ job_id email. omega arith)
