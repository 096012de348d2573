-- ===== src/EmployeeCodes.antt =====
-- app/services/employee_codes.py: new employee codes out of a database sequence.
pub mod Fresh
mod Examples
use circle_core.Prelude.{
  ℕ, zero, suc, ◌+◌, Bool, Option, none, some, List, ◌++◌, if◌then◌else◌, any,
}
use circle_core.Text.{Text, codes, text_eq}

-- The code, or `none` for the `RepositoryError`, and the number that the sequence gives next.
pub record Allocation : Type 0 where
  pub code : Option Text
  pub next : ℕ

abbrev pub max_attempts : ℕ
max_attempts = 5

-- `f"{CODE_PREFIX}{number}"`, for a printer of numbers.
abbrev pub code_of : (ℕ → Text) → ℕ → Text
code_of print number = codes "EMP-" ++ print number

-- `SELECT 1 FROM employees WHERE id = :id`
unfoldable pub is_used : List Text → Text → Bool
is_used ids code = any (λ id. text_eq id code) ids

-- The loop, for the attempts that are left.
unfoldable pub allocate_within : ℕ → (ℕ → Text) → List Text → ℕ → Allocation
unfolding is_used
allocate_within zero print ids next = record { code = none; next = next }
allocate_within (suc attempts) print ids next =
    let another = allocate_within attempts print ids (next + 1) in
    if is_used ids (code_of print next)
    then another
    else record { code = some (code_of print next); next = next + 1 }

unfoldable pub allocate_employee_code : (ℕ → Text) → List Text → ℕ → Allocation
unfolding allocate_within
allocate_employee_code = allocate_within max_attempts
