-- ===== src/Calls/Events/Found.antt =====
-- What a webhook may do to the table of calls: replace one row that it found by a report on it.
use circle_core.Prelude.{
  ℕ, ◌≡◌, refl, ◌∙◌, false, ◌&&◌, not, Option, List, arith, Bool-cases, inl, inr, Option-cases,
}
use circle_core.Text.{Text, text_eq, is_empty}
use circle_core.Value.{Value, Fields, get, get_in, is_text}
use circle_core.Screening.{Question}
use circle_core.Calls.{Mode, Actor, Call, State, Outside, record_audit, is_terminal, upsert}
use circle_core.Builtins.{str}
use circle_core.Calls.Events.{
  provider_status, apply_status, score, judged, reported, apply_report, apply_found, sarvam_result,
  sarvam_scored, apply_sarvam_found, put, log_end, summarised, with_status, bounded, claimed_id,
  is_completed,
}

-- What a report leaves alone: whose call it is, what was asked, and which call of the provider.
pub record Origin : Type 0 where
  pub id : Text
  pub candidate_id : Text
  pub job_id : Text
  pub mode : Mode
  pub questions : List Question
  pub started_by : Actor
  pub started_at : Text
  pub provider_call_id : Option Text
  pub vapi_call_id : Option Text

abbrev pub origin : Call → Origin
origin c = record {
  id = c.id;
  candidate_id = c.candidate_id;
  job_id = c.job_id;
  mode = c.mode;
  questions = c.questions;
  started_by = c.started_by;
  started_at = c.started_at;
  provider_call_id = c.provider_call_id;
  vapi_call_id = c.vapi_call_id;
}

-- The table afterwards, if the message was for the row `c`.
pub data Touched (c : Call) (before : List Call) : List Call → Type 0 where
  same : Touched c before before
  report :
      (d : Call)
      → is_terminal c.status ≡ false
      → origin d ≡ origin c
      → Touched c before (upsert d before)

judged-origin :
    (o : Outside) (reason : Text) (v : Value) (c : Call) (s : State)
    → origin (judged o reason v c s) ≡ origin c
unfolding judged score with_status
judged-origin o reason v c s = ground (arith)

reported-origin :
    (o : Outside) (now : ℕ) (message : Fields) (c : Call)
    → origin (reported o now message c) ≡ origin c
unfolding reported
reported-origin o now message c = refl

apply_status-Touched :
    (o : Outside) (c : Call) (message : Fields) (s : State)
    → is_terminal c.status ≡ false
    → Touched c s.calls (apply_status o c message s).1.calls
unfolding apply_status put
apply_status-Touched o c message s h =
    elim (Option-cases (provider_status (str o.builtins (get "status" message)))) [
      | inl e ↦ rw (e, apply_status) same
      | inr (status, e) ↦ rw (e, apply_status) (report (record c { status = status }) h refl)
    ]

pub apply_found-Touched :
    (o : Outside) (now : ℕ) (message : Fields) (c : Call) (s : State)
    → Touched c s.calls (apply_found o now message c s).1.calls
unfolding apply_found apply_report put log_end record_audit
apply_found-Touched o now message c s = elim (Bool-cases (is_terminal c.status)) [
  | inl e ↦ rw e same
  | inr e ↦ elim (Bool-cases (is_text "status-update" (get "type" message))) [
    | inl k ↦ rw (e, k) (apply_status-Touched o c message s e)
    | inr k ↦ elim (Bool-cases (is_text "end-of-call-report" (get "type" message))) [
      | inl m ↦
          rw (e, k, m) (report _ e (judged-origin o _ _ _ s ∙ reported-origin o now message c))
      | inr m ↦ rw (e, k, m) same
    ]
  ]
]

sarvam_result-origin :
    (o : Outside) (now : ℕ) (payload : Fields) (c : Call)
    → origin (sarvam_result o now payload c) ≡ origin c
unfolding sarvam_result
sarvam_result-origin o now payload c = refl

summarised-origin : (v : Value) (c : Call) → origin (summarised v c) ≡ origin c
unfolding summarised
summarised-origin v c = elim (Option-cases (bounded (get_in "call_summary" v) 2000)) [
  | inl e ↦ rw (e, summarised) refl
  | inr (t, e) ↦ rw (e, summarised) (ground (arith))
]

score-origin : (o : Outside) (c : Call) (v : Value) (s : State) → origin (score o c v s) ≡ origin c
unfolding score
score-origin o c v s = refl

sarvam_scored-origin :
    (o : Outside) (v : Value) (c : Call) (s : State) → origin (sarvam_scored o v c s) ≡ origin c
unfolding sarvam_scored
sarvam_scored-origin o v c s = elim (Bool-cases (is_completed c.status)) [
  | inl e ↦ rw e (summarised-origin v _ ∙ score-origin o c _ s)
  | inr e ↦ rw e refl
]

pub apply_sarvam_found-Touched :
    (o : Outside) (now : ℕ) (payload : Fields) (c : Call) (s : State)
    → Touched c s.calls (apply_sarvam_found o now payload c s).1.calls
unfolding apply_sarvam_found put log_end record_audit
apply_sarvam_found-Touched o now payload c s = elim (Bool-cases (is_terminal c.status)) [
  | inl e ↦ rw e same
  | inr e ↦
      elim (Bool-cases
        (not (is_empty (claimed_id payload)) && not (text_eq (claimed_id payload) c.id))) [
          | inl k ↦ rw (e, k) same
          | inr k ↦
              rw (e, k)
                (report _ e (sarvam_scored-origin o _ _ s ∙ sarvam_result-origin o now payload c))
        ]
]
