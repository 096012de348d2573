-- ===== src/Phone.antt =====
-- app/services/phone.py: any spelling of an Indian mobile number as E.164, or none.
pub mod Laws
mod Examples
use circle_core.Prelude.{
  ℕ, ◌+◌, Bool, true, false, ◌&&◌, Option, none, some, List, [], ◌∷◌, ◌++◌, if◌then◌else◌, leb,
  ◌==◌, length, drop, keep_if, all,
}
use circle_core.Text.{Text, codes, DigitTable, is_digit, starts_with}

abbrev pub country_code : Text
country_code = codes "91"

-- Strip a leading country code or trunk 0 from a digits-only string.
unfoldable pub national_part : Text → Text
national_part digits =
    if (length digits == 12) && starts_with digits country_code
    then drop 2 digits
    else if (length digits == 11) && starts_with digits (codes "0")
    then drop 1 digits
    else digits

-- `re.compile(r"[6-9]\d{9}").fullmatch`
unfoldable pub is_mobile : DigitTable → Text → Bool
is_mobile dt [] = false
is_mobile dt (c ∷ s) = (leb b'6' c && leb c b'9') && ((length s == 9) && all (is_digit dt) s)

unfoldable pub normalize_indian_mobile : DigitTable → Text → Option Text
unfolding national_part is_mobile
normalize_indian_mobile dt raw =
    let national = national_part (keep_if (is_digit dt) raw) in
    if is_mobile dt national then some (b'+' ∷ (country_code ++ national)) else none
