-- ===== src/Applications/Forms.antt =====
-- What an application is made of, and what it leaves.
use circle_core.Prelude.{ℕ, Bool, Option, List}
use circle_core.Text.{Text}
use circle_core.Dict.{Dict}
use circle_core.Resources.{Rows}
use circle_core.Screening.{Question, Answer, Rating, ExtraAnswer}
use circle_core.Applications.{Otp, norm_email, email_is_verified, consume}
use circle_core.Applications

pub record Job : Type 0 where
  pub status : Text
  pub employment_type : Text
  pub title : Text
  pub department : Text
  pub screening_questions : List Question
  pub extra_questions_enabled : Bool
  pub extra_questions : List Question
  pub keywords : List Text

pub data Source : Type 0 where
  linked_in : Source
  careers : Source
  referral : Source
  other : Source

-- `ApplicationIn`; a number is an opaque code.
pub record Application : Type 0 where
  pub job_id : Text
  pub full_name : Text
  pub email : Text
  pub phone : Text
  pub current_designation : Text
  pub current_ctc : Text
  pub expected_ctc : Text
  pub total_experience_years : ℕ
  pub notice_period_days : ℕ
  pub linked_in_url : Text
  pub cover_note : Text
  pub location : Text
  pub gender : Text
  pub current_company : Text
  pub source : Source
  pub referred_by : Text
  pub resume_url : Text
  pub responses : Dict Text
  pub extra_responses : Dict Text

pub record Resume : Type 0 where
  pub filename : Text
  pub content : List ℕ

pub record Candidate : Type 0 where
  pub full_name : Text
  pub email : Text
  pub phone : Text
  pub location : Text
  pub gender : Text
  pub current_company : Text
  pub current_designation : Text
  pub total_experience_years : ℕ
  pub relevant_experience_years : ℕ
  pub current_ctc : Text
  pub expected_ctc : Text
  pub notice_period_days : ℕ
  pub resume_url : Text
  pub linked_in_url : Text
  pub applied_role : Text
  pub department : Text
  pub source_of_application : Source
  pub referral_details : Text
  pub hr_remarks : Text
  pub status : Text
  pub applied_at : ℕ
  pub job_id : Text
  pub screening_answers : List Answer
  pub extra_answers : List ExtraAnswer
  pub fit_rating : Option Rating
  pub resume_text : Text
  pub keyword_matches : List Text

pub record ResumeDocument : Type 0 where
  pub entity_id : Text
  pub file_name : Text
  pub size : ℕ
  pub storage_key : Text
  pub uploaded_at : ℕ

-- The tables that the route reads and writes.
pub record Site : Type 0 where
  pub otps : Rows Otp
  pub jobs : Rows Job
  pub candidates : Rows Candidate
  pub documents : Rows ResumeDocument

-- What is taken from outside: what Applications takes, the limit of the settings, the text of a PDF,
-- and the search for a term between word boundaries.
pub record Outside : Type 0 where
  pub codes_side : Applications.Outside
  pub max_upload_mb : ℕ
  pub extract_text : List ℕ → Text
  pub occurs : Text → Text → Bool

-- The identifiers that a request draws.
pub record Drawn : Type 0 where
  pub candidate_id : Text
  pub doc_id : Text
