-- ===== src/Workbook/Columns.antt =====
-- A column's letters tell the column.
use circle_core.Prelude.{
  ℕ, zero, suc, ◌+◌, ◌-◌, ◌*◌, ◌/◌, ◌%◌, ◌<◌, ◌≡◌, refl, ◌∙◌, ap, Bool, true, ◌&&◌, [], ◌∷◌, ◌==◌,
  leb, all, arith, Bool-cases, inl, inr,
}
use circle_core.Text.{Text}
use circle_core.Workbook.{letters_from, column_letter}

-- What letters stand for as digits from A = 1 to Z = 26, after letters that stand for `acc`.
unfoldable pub value_from : ℕ → Text → ℕ
value_from acc [] = acc
value_from acc (c ∷ letters) = value_from (26 * acc + (c - 64)) letters

letters_from_value :
    (fuel index : ℕ) (letters : Text)
    → index < fuel
    → value_from 0 (letters_from fuel index letters) ≡ value_from index letters
unfolding letters_from value_from
letters_from_value zero index letters h = absurd (omega (arith, h))
letters_from_value (suc fuel) index letters h = elim (Bool-cases (index == 0)) [
  | inl e ↦ ground (arith, e)
  | inr e ↦
      let step =
        letters_from_value fuel ((index - 1) / 26) ((65 + (index - 1) % 26) ∷ letters)
          (ground (arith, h, e)) in
      let digit : 26 * ((index - 1) / 26) + (65 + (index - 1) % 26 - 64) ≡ index =
        ground (arith, e) in
      rw e (step ∙ ap (λ v. value_from v letters) digit)
]

abbrev pub capital : ℕ → Bool
capital c = leb b'A' c && leb c b'Z'

letters_from_capitals :
    (fuel index : ℕ) (letters : Text)
    → all capital letters ≡ true
    → all capital (letters_from fuel index letters) ≡ true
unfolding letters_from
letters_from_capitals zero index letters h = h
letters_from_capitals (suc fuel) index letters h =
    ground
      (arith, h, letters_from_capitals fuel ((index - 1) / 26) ((65 + (index - 1) % 26) ∷ letters))

-- The letters of a column are capitals, and read as digits from A = 1 to Z = 26 in base 26 they give
-- back its place, counted from 1: so the loop ends, and no two columns have one name.
pub column_letter_value :
    (index : ℕ)
    → (value_from 0 (column_letter index) ≡ index + 1) × (all capital (column_letter index) ≡ true)
unfolding column_letter
column_letter_value index = (
  letters_from_value (index + 2) (index + 1) [] (omega arith) ∙ (unfold value_from in refl),
  letters_from_capitals (index + 2) (index + 1) [] refl,
)
