-- ===== src/Backfill/Examples.antt =====
-- A plan for two employees, one of whom is on the domain already.
use circle_core.Prelude.{◌≡◌, refl, [], ◌∷◌, length}
use circle_core.Prelude.{All}
use circle_core.Text.{Text, codes, text_eq, strip, is_empty, starts_with}
use circle_core.Text.Ops.{contains}
use circle_core.Builtins.{str_or_empty, simple}
use circle_core.Value.{text, Fields, field, closed, get, is_text, is_falsy}
use circle_core.Backfill.{plan_backfill, is_passed_over, on_domain, is_taken}
use circle_core.Backfill.Plan.{IsSafe, plan_backfill-IsSafe}

abbrev asha : Fields
asha = field "id" (text (codes "e1")) (field "email" (text (codes "asha@home.in")) closed)

abbrev ravi : Fields
ravi = field "id" (text (codes "e2")) (field "email" (text (codes "ravi@corp.in")) closed)

abbrev record_of_asha : Fields
record_of_asha =
    field "employeeId" (text (codes "e1"))
      (field "allocationEmail" (text (codes " asha@corp.in ")) closed)

abbrev domain : Text
domain = codes "corp.in"

one_move : length (plan_backfill simple (asha ∷ ravi ∷ []) (record_of_asha ∷ []) domain).moves ≡ 1
unfolding plan_backfill is_passed_over is_text get on_domain strip str_or_empty is_falsy is_empty
    text_eq contains starts_with is_taken
one_move = refl

plan_backfill-IsSafe_example :
    All
      (IsSafe simple domain
        (asha ∷ ravi ∷ [])
        (plan_backfill simple (asha ∷ ravi ∷ []) (record_of_asha ∷ []) domain).moves)
      (plan_backfill simple (asha ∷ ravi ∷ []) (record_of_asha ∷ []) domain).moves
plan_backfill-IsSafe_example =
    plan_backfill-IsSafe simple (asha ∷ ravi ∷ []) (record_of_asha ∷ []) domain
