-- ===== src/Calls/Sarvam.antt =====
-- app/services/sarvam_results.py: the result of a call at Sarvam, in the words of the others.
use circle_core.Prelude.{
  ℕ, zero, suc, ◌+◌, Bool, ◌||◌, String, Option, none, some, List, [], ◌∷◌, ◌++◌, if◌then◌else◌,
  take, leb,
}
use circle_core.Text.{Text, codes, text_eq, is_empty, strip}
use circle_core.Builtins.{str, str_or_empty}
use circle_core.Text.Ops.{join}
use circle_core.Text.Decimal.{decimal_then}
use circle_core.Value.{
  Value, null, boolean, number, text, array, object, Values, end, item, Fields, closed, field, get,
  get_in, object_of, array_of,
}
use circle_core.Calls.{Outside, Status, completed, failed, no_answer}

abbrev pub max_questions : ℕ
max_questions = 10

-- `_clean`; a Boolean is an `int` there.
unfoldable pub clean : Outside → Value → Text
unfolding str
clean o null = []
clean o (boolean b) = strip (str o.builtins (boolean b))
clean o (number n) = strip (str o.builtins (number n))
clean o (text t) = strip t
clean o (array vs) = []
clean o (object d) = []

-- `_STATUS.get(..., FAILED)`
unfoldable pub status_of : Text → Status
status_of s =
    if text_eq s (codes "connected")
    then completed
    else if text_eq s (codes "no_answer") || text_eq s (codes "busy")
    then no_answer
    else failed

unfoldable pub call_status : Outside → Fields → Status
unfolding status_of str_or_empty
call_status o payload = status_of (o.lower (strip (str_or_empty o.builtins (get "status" payload))))

-- One line of the transcript.
transcript_line : Outside → Value → List Text
unfolding str str_or_empty
transcript_line o turn = elim (object_of turn) [
  | none ↦ []
  | some d ↦
      if is_empty (strip (str_or_empty o.builtins (get "en_text" d)))
      then []
      else ((if text_eq (str o.builtins (get "role" d)) (codes "agent")
            then codes "Agent"
            else codes "Candidate")
          ++ (codes ": " ++ strip (str_or_empty o.builtins (get "en_text" d))))
        ∷ []
]

transcript_lines : Outside → Values → List Text
unfolding transcript_line
transcript_lines o end = []
transcript_lines o (item turn turns) = transcript_line o turn ++ transcript_lines o turns

-- `text or None`
unfoldable pub or_none : Text → Option Text
or_none t = if is_empty t then none else some t

unfoldable pub transcript_text : Outside → ℕ → Fields → Option Text
unfolding transcript_lines
transcript_text o limit payload = elim (array_of (get "interaction_transcript" payload)) [
  | none ↦ none
  | some turns ↦ or_none (take limit (join (codes "\n") (transcript_lines o turns)))
]

-- `answer_key` of app/services/screening_call_assistant.py, for the question at a place.
unfoldable pub answer_key : ℕ → String
unfolding decimal_then
answer_key index = String.◌∷◌ "q" (decimal_then (index + 1) "")

-- The variables of a question by its number: `f"q{number}_answer"` and so on.
unfoldable pub answer_name : ℕ → String
unfolding decimal_then
answer_name n = String.◌∷◌ "q" (decimal_then n "_answer")

unfoldable pub evidence_name : ℕ → String
unfolding decimal_then
evidence_name n = String.◌∷◌ "q" (decimal_then n "_evidence")

unfoldable pub followup_name : ℕ → String
unfolding decimal_then
followup_name n = String.◌∷◌ "q" (decimal_then n "_followup")

-- The entry of the question at a place.
unfoldable pub sarvam_entry : Outside → Value → ℕ → Value
unfolding answer_name evidence_name followup_name
sarvam_entry o variables i = object (
    field "answer" (text (clean o (get_in (answer_name (i + 1)) variables))) (
      field "evidence" (text (clean o (get_in (evidence_name (i + 1)) variables))) (
        field "followUpStrength" (text (clean o (get_in (followup_name (i + 1)) variables)))
          closed)))

-- The entries of `n` questions from place `i` on, before those of `rest`.
unfoldable pub entries_from : Outside → Value → ℕ → ℕ → Fields → Fields
unfolding sarvam_entry answer_key
entries_from o variables i zero rest = rest
entries_from o variables i (suc n) rest =
    field (answer_key i) (sarvam_entry o variables i) (entries_from o variables (i + 1) n rest)

unfoldable pub call_outcome : Outside → Value → Text
call_outcome o variables = o.lower (clean o (get_in "call_outcome" variables))

pub is_declined : Text → Bool
is_declined outcome = text_eq outcome (codes "declined") || text_eq outcome (codes "wrong_person")

-- The dictionary that the scorer reads. Variables that are no dictionary give an empty one.
unfoldable pub to_structured_data : Outside → Value → ℕ → Value
unfolding entries_from
to_structured_data o variables question_count = elim (object_of variables) [
  | none ↦ object closed
  | some d ↦ object (
      entries_from o variables 0
        (if leb question_count max_questions then question_count else max_questions)
        (field "declined" (boolean (is_declined (call_outcome o variables))) closed))
]

unfoldable pub outcome_status : Outside → Value → Status → Status
outcome_status o variables fallback = elim (object_of variables) [
  | none ↦ fallback
  | some d ↦
      if text_eq (call_outcome o variables) (codes "no_response") then no_answer else fallback
]
