-- ===== src/Calls/Events.antt =====
-- ScreeningCallService.apply_event and apply_sarvam_event: what the webhooks of the two providers
-- do to the calls. Each returns whether the message was taken.
mod Lookup
pub mod Frozen
pub mod Found
pub mod Reads
mod Examples
use circle_core.Prelude.{
  ℕ, Bool, true, false, ◌&&◌, ◌||◌, not, String, Option, none, some, List, [], ◌∷◌, if◌then◌else◌,
  any, find, take, length,
}
use circle_core.Dict.{Dict}
use circle_core.Text.{Text, codes, text_eq, is_empty, starts_with}
use circle_core.Text.Ops.{contains}
use circle_core.Value.{
  Value, null, text, Fields, get, get_in, object_of, text_of, number_of, is_true, is_falsy, is_text,
}
use circle_core.Screening.Results.{Entry, Structured, CallScore, score_call}
use circle_core.Calls.{
  Status, queued, ringing, in_progress, completed, failed, no_answer, declined, is_terminal, Call,
  Candidate, State, Outside, row, upsert, record_audit, finished,
}
use circle_core.Builtins.{str, str_or_empty}
use circle_core.Calls.Sarvam.{
  answer_key, call_status, outcome_status, transcript_text, to_structured_data,
}
pub use Lookup.*
unfoldable pub use Lookup.{
  bounded, holds_id, bound_elsewhere, id_in, metadata_call_id, find_by_provider, find_by_metadata,
  find_call,
}

-- `_PROVIDER_STATUSES.get(...)`
provider_status : Text → Option Status
provider_status s =
    if text_eq s (codes "queued")
    then some queued
    else if text_eq s (codes "ringing")
    then some ringing
    else if text_eq s (codes "in-progress")
    then some in_progress
    else none

pub put : Call → State → State
put c s = record s { calls = upsert c s.calls }

-- `_apply_status`
apply_status : Outside → Call → Fields → State → Bool × State
unfolding provider_status
apply_status o c message s = elim (provider_status (str o.builtins (get "status" message))) [
  | none ↦ (false, s)
  | some status ↦ (true, put (record c { status = status }) s)
]

-- The structured data as the scorer reads them: what is no dictionary is empty, and an answer that
-- is no string is none.
pub entry_of : Value → Entry
entry_of v = record {
  answer = text_of (get_in "answer" v);
  evidence = text_of (get_in "evidence" v);
  follow_up_strength = text_of (get_in "followUpStrength" v);
}

pub structured_of : Outside → Value → Structured
unfolding entry_of
structured_of o v = record {
  declined = is_true (get_in "declined" v);
  entry = λ i. entry_of (get_in (answer_key i) v);
}

form_answers : State → Text → Dict Text
form_answers s id = elim (s.candidates id) [ none ↦ [] | some c ↦ c.screening_answers ]

-- `_score`
pub score : Outside → Call → Value → State → Call
unfolding structured_of form_answers
score o c structured s =
    let result =
      score_call c.questions (structured_of o structured) (form_answers s c.candidate_id) in
    record c {
      status = (if result.declined then declined else completed);
      answers = result.answers;
      fit_rating = result.fit_rating;
      needs_review = result.needs_review;
    }

contains_any : List Text → Text → Bool
contains_any markers s = any (λ m. contains m s) markers

-- `_recording_url`: the first of the two that is an https address.
secure_url : Value → Option Text
secure_url v = elim (text_of v) [
  | none ↦ none
  | some t ↦ if starts_with t (codes "https://") then some t else none
]

recording_url_of : Fields → Option Text
unfolding secure_url
recording_url_of message = elim (secure_url (get "recordingUrl" message)) [
  | some t ↦ some t
  | none ↦ secure_url (get_in "recordingUrl" (get "artifact" message))
]

is_object : Value → Bool
is_object v = elim (object_of v) [ none ↦ false | some d ↦ true ]

reason_of : Outside → Fields → Text
reason_of o message = take max_reason_chars (str_or_empty o.builtins (get "endedReason" message))

-- The row with what the report says of the call, before its verdict.
reported : Outside → ℕ → Fields → Call → Call
unfolding reason_of bounded recording_url_of
reported o now message c = record c {
  ended_at = some (o.iso now);
  ended_reason = (if is_empty (reason_of o message) then none else some (reason_of o message));
  duration_seconds = number_of (get "durationSeconds" message);
  cost_usd = number_of (get "cost" message);
  transcript = bounded (get "transcript" message) max_transcript_chars;
  recording_url = recording_url_of message;
}

with_status : Status → Call → Call
with_status status c = record c { status = status }

-- The verdict of the report.
judged : Outside → Text → Value → Call → State → Call
unfolding contains_any is_object with_status
judged o reason structured c s =
    if contains_any (codes "did-not-answer" ∷ codes "busy" ∷ codes "voicemail" ∷ []) reason
    then with_status no_answer c
    else if not (is_object structured) && contains_any (codes "error" ∷ codes "failed" ∷ []) reason
    then with_status failed c
    else score o c structured s

log_end : Call → State → State
log_end c s = record_audit finished c s

-- `_apply_report`
apply_report : Outside → ℕ → Call → Fields → State → State
unfolding judged reported log_end
apply_report o now c message s =
    let structured = get_in "structuredData" (get "analysis" message) in
    let call = judged o (reason_of o message) structured (reported o now message c) s in
    log_end call (put call s)

-- The message for a call that was found.
pub apply_found : Outside → ℕ → Fields → Call → State → Bool × State
unfolding apply_status apply_report
apply_found o now message c s =
    if is_terminal c.status
    then (false, s)
    else if is_text "status-update" (get "type" message)
    then apply_status o c message s
    else if is_text "end-of-call-report" (get "type" message)
    then (true, apply_report o now c message s)
    else (false, s)

pub apply_event : Outside → ℕ → Fields → State → Bool × State
unfolding apply_found find_call
apply_event o now message s = elim (find_call (get "call" message) s.calls) [
  | none ↦ (false, s)
  | some c ↦ apply_found o now message c s
]

-- `_sarvam_metadata_call_id`
claimed_id : Fields → Text
claimed_id payload =
    elim (text_of (get_in "screeningCallId" (get_in "metadata" (get "webhook_config" payload)))) [
      | none ↦ []
      | some t ↦ t
    ]

sarvam_result : Outside → ℕ → Fields → Call → Call
sarvam_result o now payload c = record c {
  ended_at = some (o.iso now);
  ended_reason = bounded (get "failure_reason" payload) max_reason_chars;
  duration_seconds = number_of (get "duration" payload);
  transcript = transcript_text o max_transcript_chars payload;
  interaction_id = bounded (get "interaction_id" payload) 128;
  status = outcome_status o (get "final_agent_variables" payload) (call_status o payload);
}

-- The summary, if the model left one.
summarised : Value → Call → Call
summarised variables c = elim (bounded (get_in "call_summary" variables) 2000) [
  | none ↦ c
  | some t ↦ if is_empty t then c else record c { summary = some t }
]

is_completed : Status → Bool
is_completed queued = false
is_completed ringing = false
is_completed in_progress = false
is_completed completed = true
is_completed failed = false
is_completed no_answer = false
is_completed declined = false

sarvam_scored : Outside → Value → Call → State → Call
unfolding is_completed summarised
sarvam_scored o variables c s =
    if is_completed c.status
    then summarised variables (score o c (to_structured_data o variables (length c.questions)) s)
    else c

-- The result for a call that was found.
pub apply_sarvam_found : Outside → ℕ → Fields → Call → State → Bool × State
unfolding claimed_id sarvam_result sarvam_scored
apply_sarvam_found o now payload c s =
    if is_terminal c.status
    then (false, s)
    else if not (is_empty (claimed_id payload)) && not (text_eq (claimed_id payload) c.id)
    then (false, s)
    else let call =
        sarvam_scored o (get "final_agent_variables" payload) (sarvam_result o now payload c) s in
      (true, log_end call (put call s))

pub apply_sarvam_event : Outside → ℕ → Fields → State → Bool × State
unfolding apply_sarvam_found
apply_sarvam_event o now payload s =
    let attempt = str_or_empty o.builtins (get "attempt_id" payload) in
    if is_empty attempt
    then (false, s)
    else elim (find (λ c. holds_id c.provider_call_id attempt) s.calls) [
      | none ↦ (false, s)
      | some c ↦ apply_sarvam_found o now payload c s
    ]
