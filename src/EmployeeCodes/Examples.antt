-- ===== src/EmployeeCodes/Examples.antt =====
-- Numbers printed in unary: two codes are taken, and the third is given out.
use circle_core.Prelude.{
  ℕ, zero, suc, ◌≤◌, ◌<◌, ◌≡◌, ◌≢◌, refl, ap, sym, ◌∙◌, true, some, List, [], ◌∷◌, arith, length,
  replicate,
}
use circle_core.Text.{Text, codes, text_eq}
use circle_core.EmployeeCodes.{code_of, is_used, allocate_within, allocate_employee_code}
use circle_core.EmployeeCodes.Fresh.{allocate_employee_code_differs, allocate_employee_code_first}

abbrev unary : ℕ → Text
unary n = replicate n b'I'

length-unary : (n : ℕ) → length (unary n) ≡ n
length-unary zero = refl
length-unary (suc n) = ap suc (length-unary n)

unary-injective : (m n : ℕ) → unary m ≡ unary n → m ≡ n
unary-injective m n h = sym (length-unary m) ∙ ap length h ∙ length-unary n

abbrev used_ids : List Text
used_ids = codes "EMP-I" ∷ codes "EMP-II" ∷ []

used_below_three : (j : ℕ) → 1 ≤ j → j < 3 → is_used used_ids (code_of unary j) ≡ true
unfolding is_used text_eq
used_below_three zero h k = absurd (omega (arith, h))
used_below_three (suc zero) h k = refl
used_below_three (suc (suc zero)) h k = refl
used_below_three (suc (suc (suc j))) h k = absurd (omega (arith, k))

allocate_employee_code_first_example :
    allocate_employee_code unary used_ids 1 ≡ record { code = some (codes "EMP-III"); next = 4 }
allocate_employee_code_first_example =
    allocate_employee_code_first 3 unary used_ids 1 (omega arith) (omega arith) used_below_three
      (unfold is_used text_eq in refl)

allocate_employee_code_differs_example : codes "EMP-III" ≢ codes "EMP-IIII"
allocate_employee_code_differs_example =
    allocate_employee_code_differs unary unary-injective used_ids used_ids 1 4 (codes "EMP-III")
      (codes "EMP-IIII") (unfold allocate_employee_code allocate_within is_used text_eq in refl)
      (unfold allocate_employee_code allocate_within is_used text_eq in omega arith)
      (unfold allocate_employee_code allocate_within is_used text_eq in refl)
