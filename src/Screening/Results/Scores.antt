-- ===== src/Screening/Results/Scores.antt =====
-- What the scores of a call are worth, whatever the provider's model says.
use circle_core.Prelude.{
  ℕ, ◌+◌, ◌≡◌, ◌≢◌, refl, ap, ◌∙◌, true, false, String, Option, none, some, List, [], ◌∷◌, str_eq,
  eq_iff, arith, All, inr, ◌⊎◌,
}
use circle_core.Dict.{Dict, lookup, insert, lookup-insert}
use circle_core.Text.{Text, text_eq}
use circle_core.Screening.{Question, question_type, scored, build_answers, response}
use circle_core.Screening.Results.{
  Entry, Structured, unclear, is_one_of, allowed, validated_text, validated_answer, entries,
  responses_of, CallAnswer, enrich, enrich_all, score_call, undeclined,
}

-- No two questions have one id.
abbrev pub Fresh : String → List Question → Type 0
Fresh id = All (λ q. q.id ≢ id)

abbrev pub Unlike : List Question → Type 0
Unlike [] = Unit
Unlike (q ∷ qs) = Fresh q.id qs × Unlike qs

responses_of_other :
    (id : String) (qs : List Question) (es : List Entry) (d : Dict Text)
    → Fresh id qs
    → lookup id (responses_of qs es d) ≡ lookup id d
unfolding responses_of
responses_of_other id [] es d h = refl
responses_of_other id (q ∷ qs) [] d h = refl
responses_of_other id (q ∷ qs) (e ∷ es) d h =
    responses_of_other id qs es (insert q.id (validated_answer q e.answer) d) h.1
    ∙ ground (arith, lookup-insert q.id id (validated_answer q e.answer) d, eq_iff q.id id)

-- What the call's answers should be, question by question, with no dictionary in between.
pub direct : ℕ → List Question → Structured → Dict Text → List CallAnswer
direct i [] s form = []
direct i (q ∷ qs) s form =
    enrich (scored q (validated_answer q (s.entry i).answer)) (s.entry i) form
    ∷ direct (i + 1) qs s form

-- The dictionary gives each question its own answer.
Answered : Dict Text → ℕ → List Question → Structured → Type 0
Answered d i [] s = Unit
Answered d i (q ∷ qs) s =
    (lookup q.id d ≡ some (validated_answer q (s.entry i).answer)) × Answered d (i + 1) qs s

enrich_all-direct :
    (d : Dict Text) (i : ℕ) (qs : List Question) (s : Structured) (form : Dict Text)
    → Answered d i qs s
    → enrich_all (build_answers qs d) (entries i qs s) form ≡ direct i qs s form
unfolding enrich_all build_answers entries direct Answered
enrich_all-direct d i [] s form h = refl
enrich_all-direct d i (q ∷ qs) s form h =
    rw (h.0, response)
      (ap (◌∷◌ (enrich (scored q (validated_answer q (s.entry i).answer)) (s.entry i) form))
        (enrich_all-direct d (i + 1) qs s form h.1))

responses_of-Answered :
    (i : ℕ) (qs : List Question) (s : Structured) (d : Dict Text)
    → Unlike qs
    → Answered (responses_of qs (entries i qs s) d) i qs s
unfolding Answered responses_of entries
responses_of-Answered i [] s d h = tt
responses_of-Answered i (q ∷ qs) s d h = (
  responses_of_other q.id qs (entries (i + 1) qs s) _ h.0
      ∙ ground (
        arith,
        lookup-insert q.id q.id (validated_answer q (s.entry i).answer) d,
        eq_iff q.id q.id,
      ),
  responses_of-Answered (i + 1) qs s (insert q.id (validated_answer q (s.entry i).answer) d) h.1,
)

-- An answer that scoring may trust: to a question that is no text question it is one that the
-- question admits, or the mark of an unclear one, and an unclear one has not passed.
pub record IsTrusted (q : Question) (c : CallAnswer) : Type 0 where
  pub about : c.question_id ≡ q.id
  pub admitted :
      (str_eq (question_type q) "text" ≡ true)
      ⊎ (is_one_of c.answer (allowed q) ≡ true)
      ⊎ (c.answer ≡ unclear)
  pub unclear_fails :
      (str_eq (question_type q) "text" ≡ true)
      ⊎ (text_eq c.answer unclear ≡ false)
      ⊎ (c.call_passed ≡ false)

validated_answer_admitted :
    (q : Question) (raw : Option Text)
    → (str_eq (question_type q) "text" ≡ true)
      ⊎ (is_one_of (validated_answer q raw) (allowed q) ≡ true)
      ⊎ (validated_answer q raw ≡ unclear)
unfolding validated_answer validated_text
validated_answer_admitted q none = inr (inr refl)
validated_answer_admitted q (some raw) = ground (arith)

enrich-IsTrusted :
    (q : Question) (e : Entry) (form : Dict Text)
    → IsTrusted q (enrich (scored q (validated_answer q e.answer)) e form)
unfolding enrich scored validated_answer
enrich-IsTrusted q e form = record {
  about = refl;
  admitted = validated_answer_admitted q e.answer;
  unclear_fails = ground (arith);
}

-- Question by question.
abbrev pub Trusted : List Question → List CallAnswer → Type 0
Trusted [] [] = Unit
Trusted [] (c ∷ cs) = ⊥
Trusted (q ∷ qs) [] = ⊥
Trusted (q ∷ qs) (c ∷ cs) = IsTrusted q c × Trusted qs cs

direct-Trusted :
    (i : ℕ) (qs : List Question) (s : Structured) (form : Dict Text)
    → Trusted qs (direct i qs s form)
unfolding direct
direct-Trusted i [] s form = tt
direct-Trusted i (q ∷ qs) s form =
    (enrich-IsTrusted q (s.entry i) form, direct-Trusted (i + 1) qs s form)

score_call-undeclined :
    (qs : List Question) (s : Structured) (form : Dict Text)
    → s.declined ≡ false
    → score_call qs s form ≡ undeclined qs s form
unfolding score_call
score_call-undeclined qs s form h = ground (arith)

undeclined-answers :
    (qs : List Question) (s : Structured) (form : Dict Text)
    → Unlike qs
    → (undeclined qs s form).answers ≡ direct 0 qs s form
unfolding undeclined
undeclined-answers qs s form u = enrich_all-direct _ 0 qs s form (responses_of-Answered 0 qs s [] u)

-- A call that was not declined has one answer for each question, in order, if no two questions
-- have one id. Whatever the model of the provider said, each answer to a question that is no text
-- question is one that the question admits or is marked unclear, and an unclear one has not
-- passed.
pub score_call-Trusted :
    (qs : List Question) (s : Structured) (form : Dict Text)
    → Unlike qs
    → s.declined ≡ false
    → Trusted qs (score_call qs s form).answers
score_call-Trusted qs s form u h =
    rw (score_call-undeclined qs s form h, undeclined-answers qs s form u)
      (direct-Trusted 0 qs s form)
