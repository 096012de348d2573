-- ===== src/Calls/Examples.antt =====
-- A call that is started, reported on, and reported on again.
use circle_core.Prelude.{◌≡◌, refl, true, false, none, some, [], ◌∷◌}
use circle_core.Text.{codes, text_eq, is_empty}
use circle_core.Value.{text, object, Fields, field, closed, get, text_of, is_falsy}
use circle_core.Screening.{Question}
use circle_core.Calls.{web, completed, Call, Candidate, Job, State, Outside, row}
use circle_core.Calls.Table.{Distinct}
use circle_core.Builtins.{simple, str, str_or_empty}
use circle_core.Calls.Events.{apply_sarvam_event, holds_id}
use circle_core.Calls.Events.Frozen.{
  vapi, sarvam, receive_all, Kept, receive_all-Kept, apply_sarvam_event_row,
}

-- Built-ins on the texts below: no capitals, and times that all print alike.
abbrev pub plain : Outside
plain = record { builtins = simple; iso = λ t. codes "2026" }

abbrev pub license : Question
license = record {
  id = "license";
  kind = some "yesno";
  text = codes "Do you have a licence?";
  category = none;
  importance = some "Must Have";
  expected_answer = true;
  expected_option = none;
  options = [];
  required = true;
}

abbrev pub candidate : Candidate
candidate = record {
  id = codes "c1";
  job_id = codes "j1";
  full_name = codes "Asha";
  phone = none;
  screening_answers = [];
}

abbrev pub job : Job
job = record { id = codes "j1"; title = codes "Driver"; screening_questions = license ∷ [] }

abbrev pub empty : State
empty = record { calls = []; audit = []; candidates = λ id. some candidate; jobs = λ id. some job }

-- A call that has ended, with the identifier of the provider.
abbrev pub call : Call
call = record {
  id = codes "SC-1";
  candidate_id = codes "c1";
  job_id = codes "j1";
  mode = web;
  status = completed;
  provider_call_id = some (codes "v1");
  vapi_call_id = some (codes "v1");
  web_call_url = none;
  questions = license ∷ [];
  started_by = record { email = none; name = none };
  started_at = codes "2026";
  ended_at = some (codes "2026");
  ended_reason = none;
  duration_seconds = none;
  transcript = none;
  recording_url = none;
  interaction_id = none;
  summary = none;
  answers = [];
  fit_rating = none;
  needs_review = false;
  cost_usd = none;
}

abbrev pub ended : State
ended = record empty { calls = call ∷ [] }

-- What the provider says of the call: that it rings.
abbrev rings : Fields
rings = field "type" (text (codes "status-update")) (
    field "status" (text (codes "ringing"))
      (field "call" (object (field "id" (text (codes "v1")) closed)) closed))

ended_Distinct : Distinct ended.calls
unfolding row
ended_Distinct = (refl, tt)

pub ended_row : row (codes "SC-1") ended.calls ≡ some call
unfolding row text_eq
ended_row = refl

receive_all-Kept_example :
    Kept
      (codes "SC-1")
      call
      (receive_all plain
        (vapi 2000 rings ∷ sarvam 3000 (field "attempt_id" (text (codes "v1")) closed) ∷ [])
        ended).calls
receive_all-Kept_example =
    receive_all-Kept plain
      (vapi 2000 rings ∷ sarvam 3000 (field "attempt_id" (text (codes "v1")) closed) ∷ []) ended
      (codes "SC-1") call ended_Distinct ended_row

other_attempt :
    holds_id call.provider_call_id (
      str_or_empty plain.builtins
        (get "attempt_id" (field "attempt_id" (text (codes "v2")) closed)))
    ≡ false
unfolding holds_id str_or_empty str text_eq get text_of is_falsy is_empty
other_attempt = refl

apply_sarvam_event_row_example :
    row
      (codes "SC-1")
      (apply_sarvam_event plain 3000 (field "attempt_id" (text (codes "v2")) closed) ended).1.calls
    ≡ some call
apply_sarvam_event_row_example =
    apply_sarvam_event_row plain 3000 (field "attempt_id" (text (codes "v2")) closed) ended
      (codes "SC-1") call ended_Distinct ended_row other_attempt
