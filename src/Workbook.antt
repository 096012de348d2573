-- ===== src/Workbook.antt =====
-- app/services/xlsx_writer.py: the names of columns. Its XML is not modelled.
pub mod Columns
mod Examples
use circle_core.Prelude.{ℕ, zero, suc, ◌+◌, ◌-◌, ◌/◌, ◌%◌, List, [], ◌∷◌, if◌then◌else◌, ◌==◌}
use circle_core.Text.{Text}

-- The loop of `column_letter`, on fuel.
unfoldable pub letters_from : ℕ → ℕ → Text → Text
letters_from zero index letters = letters
letters_from (suc fuel) index letters =
    let more = letters_from fuel ((index - 1) / 26) ((65 + (index - 1) % 26) ∷ letters) in
    if index == 0 then letters else more

-- 0 is A, 25 is Z, 26 is AA.
unfoldable pub column_letter : ℕ → Text
unfolding letters_from
column_letter index = letters_from (index + 2) (index + 1) []
