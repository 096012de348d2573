-- ===== src/Calls.antt =====
-- app/services/screening_calls.py: the rows of the calls and the rules they are found by. A call is
-- begun (Start) and then reported on by the provider's webhooks (Events, with Sarvam).
pub mod Table
pub mod Sarvam
pub mod Start
pub mod Events
pub mod Examples
use circle_core.Prelude.{
  ℕ, ◌*◌, ◌-◌, Bool, true, false, ◌&&◌, not, String, Option, none, some, List, [], ◌∷◌, ◌++◌,
  if◌then◌else◌, ltb, ◌==◌, any,
}
use circle_core.Dict.{Dict}
use circle_core.Text.{Text, text_eq}
use circle_core.Builtins.{Builtins}
use circle_core.Value.{Value}
use circle_core.Screening.{Question, Rating}
use circle_core.Screening.Results.{CallAnswer}

pub data Mode : Type 0 where
  phone : Mode
  web : Mode

pub data Status : Type 0 where
  queued : Status
  ringing : Status
  in_progress : Status
  completed : Status
  failed : Status
  no_answer : Status
  declined : Status

unfoldable pub is_terminal : Status → Bool
is_terminal queued = false
is_terminal ringing = false
is_terminal in_progress = false
is_terminal completed = true
is_terminal failed = true
is_terminal no_answer = true
is_terminal declined = true

pub is_active : Status → Bool
is_active queued = true
is_active ringing = true
is_active in_progress = true
is_active completed = false
is_active failed = false
is_active no_answer = false
is_active declined = false

pub is_queued : Status → Bool
is_queued queued = true
is_queued ringing = false
is_queued in_progress = false
is_queued completed = false
is_queued failed = false
is_queued no_answer = false
is_queued declined = false

pub record Actor : Type 0 where
  pub email : Option Text
  pub name : Option Text

-- A row of `screening_calls`.
pub record Call : Type 0 where
  pub id : Text
  pub candidate_id : Text
  pub job_id : Text
  pub mode : Mode
  pub status : Status
  pub provider_call_id : Option Text
  pub vapi_call_id : Option Text
  pub web_call_url : Option Text
  pub questions : List Question
  pub started_by : Actor
  pub started_at : Text
  pub ended_at : Option Text
  pub ended_reason : Option Text
  pub duration_seconds : Option ℕ
  pub transcript : Option Text
  pub recording_url : Option Text
  pub interaction_id : Option Text
  pub summary : Option Text
  pub answers : List CallAnswer
  pub fit_rating : Option Rating
  pub needs_review : Bool
  pub cost_usd : Option ℕ

pub record Candidate : Type 0 where
  pub id : Text
  pub job_id : Text
  pub full_name : Text
  pub phone : Option Text
  pub screening_answers : Dict Text

pub record Job : Type 0 where
  pub id : Text
  pub title : Text
  pub screening_questions : List Question

pub data Action : Type 0 where
  started : Action
  finished : Action

-- A line of the audit log.
pub record Logged : Type 0 where
  pub action : Action
  pub call_id : Text
  pub mode : Mode
  pub status : Status

-- What the service reads and writes. The tables of candidates and jobs are only read.
pub record State : Type 0 where
  pub calls : List Call
  pub audit : List Logged
  pub candidates : Text → Option Candidate
  pub jobs : Text → Option Job

-- Built-ins of the language: those on values, and a time as text.
pub record Outside : Type 0 where
  pub builtins : Builtins
  pub open builtins use *
  pub iso : ℕ → Text

-- `repo.get`, and `repo.upsert`, which appends a new row: rows are found oldest first.
unfoldable pub row : Text → List Call → Option Call
row id [] = none
row id (c ∷ cs) = let rest = row id cs in if text_eq c.id id then some c else rest

unfoldable pub upsert : Call → List Call → List Call
upsert c [] = c ∷ []
upsert c (d ∷ cs) = let rest = upsert c cs in if text_eq d.id c.id then c ∷ cs else d ∷ rest

-- `a < b` on texts, by code points.
pub text_lt : Text → Text → Bool
text_lt [] [] = false
text_lt [] (d ∷ t) = true
text_lt (c ∷ s) [] = false
text_lt (c ∷ s) (d ∷ t) = let rest = text_lt s t in if c == d then rest else ltb c d

-- Times are microseconds.
abbrev pub max_call_seconds : ℕ
max_call_seconds = 420

pub window : Status → ℕ
unfolding is_queued
window s = if is_queued s then 3 * 60 * 1000000 else 2 * max_call_seconds * 1000000

unfoldable pub is_blocking : Outside → ℕ → Call → Bool
unfolding is_active window text_lt
is_blocking o now c = is_active c.status && text_lt (o.iso (now - window c.status)) c.started_at

pub record_audit : Action → Call → State → State
record_audit action c s = record s {
  audit =
      s.audit
      ++ (record { action = action; call_id = c.id; mode = c.mode; status = c.status } ∷ []);
}
