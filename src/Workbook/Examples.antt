-- ===== src/Workbook/Examples.antt =====
-- The first columns, and two after the letters have run out.
use circle_core.Prelude.{◌≡◌, refl}
use circle_core.Text.{codes}
use circle_core.Workbook.{letters_from, column_letter}

z_then_aa :
    (column_letter 0 ≡ codes "A")
    × (column_letter 25 ≡ codes "Z")
    × (column_letter 26 ≡ codes "AA")
    × (column_letter 702 ≡ codes "AAA")
unfolding column_letter letters_from
z_then_aa = (refl, refl, refl, refl)
