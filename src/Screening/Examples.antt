-- ===== src/Screening/Examples.antt =====
-- A call about one question.
use circle_core.Prelude.{refl, true, false, none, some, [], ◌∷◌}
use circle_core.Text.{codes}
use circle_core.Screening.{Question}
use circle_core.Screening.Results.{Structured, score_call}
use circle_core.Screening.Results.Scores.{Trusted, score_call-Trusted}

abbrev license : Question
license = record {
  id = "license";
  kind = some "yesno";
  text = codes "Do you have a licence?";
  category = none;
  importance = some "Must Have";
  expected_answer = true;
  expected_option = none;
  options = [];
  required = true;
}

-- The model of the provider says something that is no answer.
abbrev odd : Structured
odd = record {
  declined = false;
  entry = λ i. record { answer = some (codes "maybe"); evidence = none; follow_up_strength = none };
}

score_call-Trusted_example : Trusted (license ∷ []) (score_call (license ∷ []) odd []).answers
score_call-Trusted_example = score_call-Trusted (license ∷ []) odd [] (tt, tt) refl
