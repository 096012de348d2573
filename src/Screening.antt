-- ===== src/Screening.antt =====
-- app/services/screening.py: the answers to a job's screening questions and the rating they give.
-- The fields of a question document are read as the source reads them: a missing type is `none`.
pub mod Fit
pub mod Results
mod Examples
use circle_core.Prelude.{
  ℕ, ◌+◌, ◌*◌, Bool, true, false, ◌&&◌, ◌||◌, not, String, Option, none, some, List, [], ◌∷◌, map,
  leb, if◌then◌else◌, str_eq, any, keep_if, count_if, length,
}
use circle_core.Dict.{Dict, lookup}
use circle_core.Text.{Text, codes, text_eq, is_empty, strip}

pub record Question : Type 0 where
  pub id : String
  pub kind : Option String
  pub text : Text
  pub category : Option String
  pub importance : Option String
  pub expected_answer : Bool
  pub expected_option : Option Text
  pub options : List Text
  pub required : Bool

pub record Answer : Type 0 where
  pub question_id : String
  pub text : Text
  pub category : Option String
  pub importance : Option String
  pub type_of : String
  pub answer : Text
  pub passed : Bool

-- `q.get("type") or "yesno"`
pub question_type : Question → String
question_type q = elim q.kind [ none ↦ "yesno" | some k ↦ if str_eq k "" then "yesno" else k ]

-- `str(responses.get(qid, ""))`
response : Dict Text → String → Text
response responses id = elim (lookup id responses) [ none ↦ [] | some a ↦ a ]

same : Bool → Bool → Bool
same true b = b
same false b = not b

-- What a choice question expects; an empty option expects nothing.
expects : Option Text → Text → Bool
expects none answer = true
expects (some o) answer = if is_empty o then true else text_eq answer o

pub passes : Question → Text → Bool
unfolding same expects
passes q answer =
    if str_eq (question_type q) "yesno"
    then same (text_eq answer (codes "Yes")) q.expected_answer
    else if str_eq (question_type q) "choice"
    then expects q.expected_option answer
    else true

pub scored : Question → Text → Answer
scored q answer = record {
  question_id = q.id;
  text = q.text;
  category = q.category;
  importance = q.importance;
  type_of = question_type q;
  answer = answer;
  passed = passes q answer;
}

pub build_answers : List Question → Dict Text → List Answer
unfolding response scored
build_answers [] responses = []
build_answers (q ∷ qs) responses = scored q (response responses q.id) ∷ build_answers qs responses

pub data Rating : Type 0 where
  fit : Rating
  borderline : Rating
  unfit : Rating

-- `a.get("importance") == ...`
pub has_importance : String → Answer → Bool
has_importance wanted a = elim a.importance [ none ↦ false | some i ↦ str_eq i wanted ]

pub failed_must_have : Answer → Bool
failed_must_have a = has_importance "Must Have" a && not a.passed

pub good_to_have : Answer → Bool
good_to_have a = has_importance "Good to Have" a

-- `compute_fit`; `rate >= 0.6` is compared as 5 * passed >= 3 * asked.
pub compute_fit : List Answer → Rating
compute_fit [] = fit
compute_fit (a ∷ rest) =
    let answers = a ∷ rest in
    let good = keep_if good_to_have answers in
    if any failed_must_have answers
    then unfit
    else if is_empty good
    then fit
    else if leb (3 * length good) (5 * count_if (λ g. g.passed) good)
    then fit
    else borderline

-- `build_extra_answers`: a snapshot, with `q.get("type", "text")` for the type.
pub record ExtraAnswer : Type 0 where
  pub question_id : String
  pub text : Text
  pub type_of : String
  pub answer : Text

extra_type : Option String → String
extra_type none = "text"
extra_type (some k) = k

pub build_extra_answers : List Question → Dict Text → List ExtraAnswer
unfolding extra_type response
build_extra_answers [] responses = []
build_extra_answers (q ∷ qs) responses =
    record {
      question_id = q.id;
      text = q.text;
      type_of = extra_type q.kind;
      answer = response responses q.id;
    }
    ∷ build_extra_answers qs responses

pub missing_required_extra : List Question → Dict Text → Bool
unfolding response
missing_required_extra [] responses = false
missing_required_extra (q ∷ qs) responses =
    let rest = missing_required_extra qs responses in
    if not q.required
    then rest
    else if is_empty (strip (response responses q.id))
    then true
    else rest
