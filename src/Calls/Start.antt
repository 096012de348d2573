-- ===== src/Calls/Start.antt =====
-- ScreeningCallService.start_call, in the two steps between which the provider dials, since its
-- webhooks may come in before it answers.
pub mod Alone
mod Examples
use circle_core.Prelude.{
  ℕ, Bool, true, false, ◌&&◌, ◌||◌, not, Option, none, some, List, [], ◌∷◌, if◌then◌else◌, any,
  keep_if, ◌⊎◌, inl, inr,
}
use circle_core.Text.{Text, codes, text_eq, is_empty, DigitTable}
use circle_core.Phone.{normalize_indian_mobile}
use circle_core.Calls.{
  Mode, phone, web, Status, queued, failed, Actor, Call, Candidate, Job, State, Outside, row,
  upsert, is_blocking, record_audit, started,
}

pub data StartError : Type 0 where
  candidate_not_found : StartError
  call_already_active : StartError
  cannot_call : StartError
  calling_not_configured : StartError
  provider_rejected : StartError

-- What the service was made with: the provider, whether it shapes its own request, the assistant's
-- settings, and whether phone calls are set up.
pub record Setup : Type 0 where
  pub has_provider : Bool
  pub builds_payload : Bool
  pub has_settings : Bool
  pub phone_enabled : Bool

pub is_phone : Mode → Bool
is_phone phone = true
is_phone web = false

-- `_require_configured` raises nothing.
unfoldable pub is_configured : Setup → Mode → Bool
is_configured s m =
    (s.has_provider && (s.builds_payload || s.has_settings))
    && (not (is_phone m) || s.phone_enabled)

-- `_ensure_no_active_call` raises.
unfoldable pub has_active_call : Outside → ℕ → Text → List Call → Bool
has_active_call o now candidate calls =
    any (is_blocking o now) (keep_if (λ c. text_eq c.candidate_id candidate) calls)

pub new_call : Outside → ℕ → Text → Candidate → Job → Mode → Actor → Call
new_call o now id c j m actor = record {
  id = id;
  candidate_id = c.id;
  job_id = j.id;
  mode = m;
  status = queued;
  provider_call_id = none;
  vapi_call_id = none;
  web_call_url = none;
  questions = j.screening_questions;
  started_by = actor;
  started_at = o.iso now;
  ended_at = none;
  ended_reason = none;
  duration_seconds = none;
  transcript = none;
  recording_url = none;
  interaction_id = none;
  summary = none;
  answers = [];
  fit_rating = none;
  needs_review = false;
  cost_usd = none;
}

-- `_phone_for`, for a call by phone: the number to dial, if any is needed and there is one.
pub data Dial : Type 0 where
  no_number : Dial
  to_number : Text → Dial
  bad_number : Dial

dial : DigitTable → Mode → Candidate → Dial
dial dt web c = no_number
dial dt phone c = elim c.phone [
  | none ↦ bad_number
  | some raw ↦ elim (normalize_indian_mobile dt raw) [ none ↦ bad_number | some n ↦ to_number n ]
]

pub is_bad : Dial → Bool
is_bad no_number = false
is_bad (to_number n) = false
is_bad bad_number = true

-- A call that was begun: its row, the number to dial, and the tables with the row in them.
pub record Begun : Type 0 where
  pub call : Call
  pub number : Dial
  pub state : State

pub with_calls : State → List Call → State
with_calls s calls = record s { calls = calls }

pub begun_of : Outside → DigitTable → ℕ → Text → Mode → Actor → Candidate → Job → State → Begun
unfolding dial new_call with_calls
begun_of o dt now id m actor c j s = record {
  call = new_call o now id c j m actor;
  number = dial dt m c;
  state = with_calls s (upsert (new_call o now id c j m actor) s.calls);
}

-- Up to the request to the provider. `id` is the fresh identifier.
pub begin_for :
    Outside
    → DigitTable
    → ℕ
    → Text
    → Mode
    → Actor
    → Candidate
    → Job
    → Text
    → State
    → StartError ⊎ Begun
unfolding dial is_bad begun_of
begin_for o dt now id m actor c j candidate_id s =
    if is_empty j.screening_questions
    then inl cannot_call
    else if is_bad (dial dt m c)
    then inl cannot_call
    else if has_active_call o now candidate_id s.calls
    then inl call_already_active
    else inr (begun_of o dt now id m actor c j s)

pub begin_call :
    Setup → Outside → DigitTable → ℕ → Text → Text → Mode → Actor → State → StartError ⊎ Begun
unfolding begin_for is_configured
begin_call setup o dt now id candidate_id m actor s =
    if not (is_configured setup m)
    then inl calling_not_configured
    else elim (s.candidates candidate_id) [
      | none ↦ inl candidate_not_found
      | some c ↦ elim (s.jobs c.job_id) [
        | none ↦ inl cannot_call
        | some j ↦ begin_for o dt now id m actor c j candidate_id s
      ]
    ]

-- The provider's answer to the request.
pub data Placed : Type 0 where
  created : Text → Option Text → Placed
  rejected : Placed

-- `repo.get(...) or call`
unfoldable pub current_row : Call → List Call → Call
current_row call calls = elim (row call.id calls) [ none ↦ call | some c ↦ c ]

-- `_bind_provider_call`: into the current row, not the copy from before.
pub bind_provider_call : Call → Text → Option Text → List Call → Call
unfolding current_row
bind_provider_call call provider_id url calls = record (current_row call calls) {
  provider_call_id = some provider_id;
  vapi_call_id = some provider_id;
  web_call_url = url;
}

-- `_place_call` where the provider refuses.
pub reject_call : Outside → ℕ → Call → Call
reject_call o now call = record call {
  status = failed;
  ended_at = some (o.iso now);
  ended_reason = some (codes "provider-rejected");
}

-- After the provider has answered.
pub finish_start : Outside → ℕ → Call → Placed → State → (StartError ⊎ Call) × State
unfolding reject_call bind_provider_call with_calls record_audit
finish_start o now call rejected s =
    (inl provider_rejected, with_calls s (upsert (reject_call o now call) s.calls))
finish_start o now call (created provider_id url) s =
    let bound = bind_provider_call call provider_id url s.calls in
    (inr bound, record_audit started bound (with_calls s (upsert bound s.calls)))
