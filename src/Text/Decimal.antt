-- ===== src/Text/Decimal.antt =====
-- `str` of a natural number, and that no two numbers are spelt alike.
use circle_core.Prelude.{
  ℕ, zero, suc, ◌+◌, ◌*◌, ◌-◌, ◌≤◌, ◌≡◌, refl, sym, ◌∙◌, ap, String, List, [], ◌∷◌, if◌then◌else◌,
  ◌==◌, All, arith, Bool-cases, inl, inr, ==_iff,
}
use circle_core.Text.{Text, codes}

-- The digits of a number, the last first.
unfoldable pub increment : List ℕ → List ℕ
increment [] = 1 ∷ []
increment (d ∷ ds) = let rest = increment ds in if d == 9 then 0 ∷ rest else (d + 1) ∷ ds

unfoldable pub digits : ℕ → List ℕ
unfolding increment
digits zero = 0 ∷ []
digits (suc n) = increment (digits n)

-- A digit before a text.
unfoldable pub digit_then : ℕ → String → String
digit_then d s =
    if d == 0
    then String.◌∷◌ "0" s
    else if d == 1
    then String.◌∷◌ "1" s
    else if d == 2
    then String.◌∷◌ "2" s
    else if d == 3
    then String.◌∷◌ "3" s
    else if d == 4
    then String.◌∷◌ "4" s
    else if d == 5
    then String.◌∷◌ "5" s
    else if d == 6
    then String.◌∷◌ "6" s
    else if d == 7
    then String.◌∷◌ "7" s
    else if d == 8
    then String.◌∷◌ "8" s
    else String.◌∷◌ "9" s

unfoldable pub spell : List ℕ → String → String
unfolding digit_then
spell [] s = s
spell (d ∷ ds) s = spell ds (digit_then d s)

-- `f"{n}..."`
unfoldable pub decimal_then : ℕ → String → String
unfolding digits spell
decimal_then n s = spell (digits n) s

-- Reading digits on from a number.
read : Text → ℕ → ℕ
read [] n = n
read (c ∷ t) n = read t (10 * n + (c - 48))

value : List ℕ → ℕ
value [] = 0
value (d ∷ ds) = d + 10 * value ds

value-increment : (ds : List ℕ) → value (increment ds) ≡ value ds + 1
unfolding value increment
value-increment [] = refl
value-increment (d ∷ ds) = elim (Bool-cases (d == 9)) [
  | inl e ↦ rw e (omega (arith, value-increment ds, (==_iff d 9).0 e))
  | inr e ↦ rw e (omega arith)
]

value-digits : (n : ℕ) → value (digits n) ≡ n
unfolding digits
value-digits zero = unfold value in refl
value-digits (suc n) = omega (arith, value-increment (digits n), value-digits n)

increment_small : (ds : List ℕ) → All (λ d. d ≤ 9) ds → All (λ d. d ≤ 9) (increment ds)
unfolding increment
increment_small [] h = (omega arith, tt)
increment_small (d ∷ ds) h = elim (Bool-cases (d == 9)) [
  | inl e ↦ rw e (omega arith, increment_small ds h.1)
  | inr e ↦ rw e (ground (arith, h.0), h.1)
]

digits_small : (n : ℕ) → All (λ d. d ≤ 9) (digits n)
unfolding digits
digits_small zero = (omega arith, tt)
digits_small (suc n) = increment_small (digits n) (digits_small n)

read-digit_then :
    (d n : ℕ) (s : String) → d ≤ 9 → read (codes (digit_then d s)) n ≡ read (codes s) (d + 10 * n)
unfolding read digit_then
read-digit_then d n s h = ground (arith, h)

read-spell :
    (ds : List ℕ) (s : String)
    → All (λ d. d ≤ 9) ds
    → read (codes (spell ds s)) 0 ≡ read (codes s) (value ds)
unfolding spell value
read-spell [] s h = refl
read-spell (d ∷ ds) s h = read-spell ds (digit_then d s) h.1 ∙ read-digit_then d (value ds) s h.0

pub decimal_then_injective : (m n : ℕ) → decimal_then m "" ≡ decimal_then n "" → m ≡ n
unfolding decimal_then
decimal_then_injective m n h =
    let spelt : (k : ℕ) → read (codes (spell (digits k) "")) 0 ≡ k =
      λ k. read-spell (digits k) "" (digits_small k) ∙ (unfold read in value-digits k) in
    sym (spelt m) ∙ (ap (λ s. read (codes s) 0) h ∙ spelt n)
