-- ===== src/Phone/Examples.antt =====
-- A number as a candidate may have typed it.
use circle_core.Prelude.{◌≡◌, refl, some}
use circle_core.Text.{codes, starts_with}
use circle_core.Text.Ascii.{ascii}
use circle_core.Phone.{normalize_indian_mobile, national_part, is_mobile}
use circle_core.Phone.Laws.{IsMobileNumber, normalize_indian_mobile-IsMobileNumber}

typed : normalize_indian_mobile ascii (codes "0 98765-43210") ≡ some (codes "+919876543210")
unfolding normalize_indian_mobile national_part is_mobile starts_with
typed = refl

normalize_indian_mobile-IsMobileNumber_example :
    IsMobileNumber ascii (codes "+919876543210")
    × (normalize_indian_mobile ascii (codes "+919876543210") ≡ some (codes "+919876543210"))
normalize_indian_mobile-IsMobileNumber_example =
    normalize_indian_mobile-IsMobileNumber ascii (codes "0 98765-43210") (codes "+919876543210")
      refl typed
