-- ===== src/RateLimit/Examples.antt =====
-- Runs of the limiter with a burst rule of 2 hits in 10 ticks and a looser one of 3 in 100.
use circle_core.Prelude.{ℕ, ◌≤◌, ◌≡◌, refl, true, false, String, List, [], ◌∷◌, arith, All}
use circle_core.Dict.{lookup, insert, erase}
use circle_core.RateLimit.{Rule, insert_rule, new_limiter, allow, run}
use circle_core.RateLimit.Reference.{reference_run}
use circle_core.RateLimit.Refines.{run-reference_run}
use circle_core.RateLimit.Bounds.{accepted, load, run-load-le}

abbrev rules : List Rule
rules = (3, 100) ∷ (2, 10) ∷ []

abbrev calls : List (String × ℕ)
calls = ("a", 1) ∷ ("a", 2) ∷ ("a", 3) ∷ ("b", 3) ∷ ("a", 12) ∷ ("a", 70) ∷ ("a", 103) ∷ []

run_calls :
    (run calls (new_limiter 1 rules)).0 ≡ true ∷ true ∷ false ∷ true ∷ true ∷ false ∷ true ∷ []
unfolding run allow new_limiter insert_rule lookup insert erase
run_calls = refl

run-reference_run_example : (run calls (new_limiter 1 rules)).0 ≡ (reference_run rules calls []).0
run-reference_run_example = run-reference_run 1 rules calls (omega arith)

run-load-le_example :
    All (λ r. load "a" r.1 12 (accepted calls (run calls (new_limiter 1 rules)).0 []) ≤ r.0) rules
run-load-le_example = run-load-le 1 rules calls "a" 12 (omega arith)
