-- ===== src/Screening/Results.antt =====
-- app/services/screening_call_results.py: scored answers out of a finished call. What the model of
-- the provider says is untrusted; a value that is no string is `none`.
pub mod Scores
use circle_core.Prelude.{
  ℕ, suc, ◌+◌, Bool, true, false, ◌&&◌, ◌||◌, not, String, Option, none, some, List, [], ◌∷◌, map,
  if◌then◌else◌, str_eq, any, length, take,
}
use circle_core.Dict.{Dict, lookup, insert}
use circle_core.Text.{Text, codes, text_eq, is_empty, strip}
use circle_core.Screening.{Question, Answer, Rating, question_type, build_answers, compute_fit}

-- One entry of the structured data: `data.get(answer_key(index))`.
pub record Entry : Type 0 where
  pub answer : Option Text
  pub evidence : Option Text
  pub follow_up_strength : Option Text

abbrev pub blank : Entry
blank = record { answer = none; evidence = none; follow_up_strength = none }

-- The structured data: `declined is True`, and the entry of each question by its place. Data that
-- is no dictionary has neither.
pub record Structured : Type 0 where
  pub declined : Bool
  pub entry : ℕ → Entry

abbrev pub unclear : Text
unclear = codes "Unclear"

abbrev pub max_text_answer_chars : ℕ
max_text_answer_chars = 2000

abbrev pub max_evidence_chars : ℕ
max_evidence_chars = 500

pub is_one_of : Text → List Text → Bool
is_one_of a = any (text_eq a)

abbrev pub yes_no_answers : List Text
yes_no_answers = codes "Yes" ∷ codes "No" ∷ []

-- The answers that a question other than a text question admits.
pub allowed : Question → List Text
allowed q = if str_eq (question_type q) "choice" then q.options else yes_no_answers

validated_text : Question → Text → Text
unfolding allowed is_one_of
validated_text q answer =
    if str_eq (question_type q) "text"
    then take max_text_answer_chars answer
    else if is_one_of answer (allowed q)
    then answer
    else unclear

pub validated_answer : Question → Option Text → Text
unfolding validated_text
validated_answer q none = unclear
validated_answer q (some raw) =
    if is_empty (strip raw) then unclear else validated_text q (strip raw)

-- The entries, in the order of the questions from place `i` on.
entries : ℕ → List Question → Structured → List Entry
entries i [] s = []
entries i (q ∷ qs) s = s.entry i ∷ entries (i + 1) qs s

-- The dictionary of validated answers: of two questions with one id the later wins.
responses_of : List Question → List Entry → Dict Text → Dict Text
responses_of [] es d = d
responses_of (q ∷ qs) [] d = d
responses_of (q ∷ qs) (e ∷ es) d = responses_of qs es (insert q.id (validated_answer q e.answer) d)

pub record CallAnswer : Type 0 where
  pub base : Answer
  pub open base use *
  pub call_passed : Bool
  pub evidence : Text
  pub follow_up_strength : Text
  pub form_answer : Option Text
  pub contradicts_form : Bool

-- `_text`
bounded_text : Option Text → ℕ → Text
bounded_text none limit = []
bounded_text (some raw) limit = take limit (strip raw)

abbrev no_follow_up : Text
no_follow_up = codes "n/a"

-- `_follow_up_strength`
follow_up : Option Text → Text
unfolding is_one_of
follow_up none = no_follow_up
follow_up (some raw) =
    if is_one_of raw (codes "strong" ∷ codes "weak" ∷ no_follow_up ∷ []) then raw else no_follow_up

differs_from : Option Text → Text → Bool
differs_from none answer = false
differs_from (some f) answer = not (text_eq f answer)

-- `_enrich`
pub enrich : Answer → Entry → Dict Text → CallAnswer
unfolding bounded_text follow_up differs_from
enrich a e form =
    let is_unclear = text_eq a.answer unclear in
    let not_text = not (str_eq a.type_of "text") in
    let form_answer = lookup a.question_id form in
    record {
      base = a;
      call_passed = a.passed && not (is_unclear && not_text);
      evidence = bounded_text e.evidence max_evidence_chars;
      follow_up_strength = follow_up e.follow_up_strength;
      form_answer = form_answer;
      contradicts_form = differs_from form_answer a.answer && (not is_unclear && not_text);
    }

enrich_all : List Answer → List Entry → Dict Text → List CallAnswer
unfolding enrich
enrich_all [] es form = []
enrich_all (a ∷ as') [] form = []
enrich_all (a ∷ as') (e ∷ es) form = enrich a e form ∷ enrich_all as' es form

-- The answer as `compute_fit` reads it: with the verdict of the call.
pub call_verdict : CallAnswer → Answer
call_verdict c = record c.base { passed = c.call_passed }

pub record CallScore : Type 0 where
  pub answers : List CallAnswer
  pub fit_rating : Option Rating
  pub needs_review : Bool
  pub declined : Bool

-- The score of a call that was not declined. `_form_answers_by_id` is the argument `form`: the
-- answers of the web form by question.
pub undeclined : List Question → Structured → Dict Text → CallScore
unfolding enrich_all responses_of
undeclined questions s form =
    let es = entries 0 questions s in
    let answers = enrich_all (build_answers questions (responses_of questions es [])) es form in
    record {
      answers = answers;
      fit_rating = some (compute_fit (map call_verdict answers));
      needs_review = any (λ c. text_eq c.answer unclear) answers;
      declined = false;
    }

pub score_call : List Question → Structured → Dict Text → CallScore
score_call questions s form =
    if s.declined
    then record { answers = []; fit_rating = none; needs_review = false; declined = true }
    else undeclined questions s form
