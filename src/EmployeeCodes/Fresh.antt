-- ===== src/EmployeeCodes/Fresh.antt =====
-- A code is found while one of the next five numbers is free, and no code is given twice.
use circle_core.Prelude.{
  ℕ, zero, suc, ◌+◌, ◌≤◌, ◌<◌, ◌≡◌, ◌≢◌, sym, ◌∙◌, ap, true, false, some, List, arith, drop, ◌==◌,
  ==_iff, Bool-cases, inl, inr,
}
use circle_core.Text.{Text}
use circle_core.EmployeeCodes.{
  Allocation, max_attempts, code_of, is_used, allocate_within, allocate_employee_code,
}

-- Where a code comes from: a number that the sequence gave in between, whose code no employee has.
abbrev pub IsFresh : (ℕ → Text) → List Text → ℕ → Allocation → Type 0
IsFresh print ids next a =
    (code : Text)
    → a.code ≡ some code
    → (n : ℕ) × (code ≡ code_of print n) × (next ≤ n) × (n < a.next) × (is_used ids code ≡ false)

allocate_within-next :
    (attempts : ℕ) (print : ℕ → Text) (ids : List Text) (next : ℕ)
    → next ≤ (allocate_within attempts print ids next).next
unfolding allocate_within
allocate_within-next zero print ids next = omega arith
allocate_within-next (suc attempts) print ids next =
    ground (arith, allocate_within-next attempts print ids (next + 1))

allocate_within-IsFresh :
    (attempts : ℕ) (print : ℕ → Text) (ids : List Text) (next : ℕ)
    → IsFresh print ids next (allocate_within attempts print ids next)
unfolding allocate_within
allocate_within-IsFresh zero print ids next code h = ground (arith, h)
allocate_within-IsFresh (suc attempts) print ids next code h =
    elim (Bool-cases (is_used ids (code_of print next))) [
      | inl e ↦
          let (n, same, from, to, free) =
            allocate_within-IsFresh attempts print ids (next + 1) code (rw e at h) in
          (n, same, omega (arith, from), (rw e to), free)
      | inr e ↦
          let given : some (code_of print next) ≡ some code = rw e at h in
          let same : code ≡ code_of print next = cc in
          (next, same, omega arith, rw e (omega arith), rw same e)
    ]

-- Whatever was added or removed in between, a code from a later number is another one.
module _ (print : ℕ → Text) (injective : (m n : ℕ) → print m ≡ print n → m ≡ n) where
  code_of-injective : (m n : ℕ) → code_of print m ≡ code_of print n → m ≡ n
  code_of-injective m n h = injective m n (ap (drop 4) h)

  -- If a printed number determines the number: two requests that draw from the sequence one after
  -- the other get different codes, even if the employee of the first is not saved yet, or was
  -- deleted, when the second one looks.
  pub allocate_employee_code_differs :
      (ids later_ids : List Text) (next next2 : ℕ) (a b : Text)
      → (allocate_employee_code print ids next).code ≡ some a
      → (allocate_employee_code print ids next).next ≤ next2
      → (allocate_employee_code print later_ids next2).code ≡ some b
      → a ≢ b
  unfolding allocate_employee_code
  allocate_employee_code_differs ids later_ids next next2 a b first after second same =
      let (m, is_a, from, to, free) = allocate_within-IsFresh max_attempts print ids next a first in
      let (n, is_b, from2, to2, free2) =
        allocate_within-IsFresh max_attempts print later_ids next2 b second in
      let one : m ≡ n = code_of-injective m n (sym is_a ∙ same ∙ is_b) in
      absurd (omega (arith, one, to, after, from2))

-- The first free number within the attempts is taken.
allocate_within_first :
    (attempts m : ℕ) (print : ℕ → Text) (ids : List Text) (next : ℕ)
    → next ≤ m
    → m < next + attempts
    → ((j : ℕ) → next ≤ j → j < m → is_used ids (code_of print j) ≡ true)
    → is_used ids (code_of print m) ≡ false
    → allocate_within attempts print ids next
      ≡ record { code = some (code_of print m); next = m + 1 }
unfolding allocate_within
allocate_within_first zero m print ids next h k used free = absurd (omega (arith, h, k))
allocate_within_first (suc attempts) m print ids next h k used free =
    elim (Bool-cases (next == m)) [
      | inl e ↦
          let same : next ≡ m = (==_iff next m).0 e in
          rw (ap (λ n. is_used ids (code_of print n)) same ∙ free)
            (ap (λ n. record { code = some (code_of print n); next = n + 1 }) same)
      | inr e ↦
          let later : next + 1 ≤ m = ground (arith, e, h) in
          rw (used next (omega arith) (omega (arith, later))) (
            allocate_within_first attempts m print ids (next + 1) later (omega (arith, k))
              (λ j from. used j (omega (arith, from))) free)
    ]

-- The code of the first free number is given out, and the sequence moves just past it, if that is
-- one of the five numbers that come next.
pub allocate_employee_code_first :
    (m : ℕ) (print : ℕ → Text) (ids : List Text) (next : ℕ)
    → next ≤ m
    → m < next + 5
    → ((j : ℕ) → next ≤ j → j < m → is_used ids (code_of print j) ≡ true)
    → is_used ids (code_of print m) ≡ false
    → allocate_employee_code print ids next ≡ record { code = some (code_of print m); next = m + 1 }
unfolding allocate_employee_code
allocate_employee_code_first = allocate_within_first max_attempts
