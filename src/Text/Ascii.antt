-- ===== src/Text/Ascii.antt =====
-- Test data: the digits of ASCII as a table of digits.
use circle_core.Prelude.{ℕ, ◌+◌, ◌-◌, ◌<◌, ◌≡◌, Option, none, some, ◌&&◌, arith, leb, if◌then◌else◌}
use circle_core.Text.{DigitTable}

abbrev pub ascii_value : ℕ → Option ℕ
ascii_value c = if leb 48 c && leb c 57 then some (c - 48) else none

pub ascii_value_lt : (c v : ℕ) → ascii_value c ≡ some v → v < 10
ascii_value_lt c v h = ground arith

pub ascii_value-add : (d : ℕ) → d < 10 → ascii_value (48 + d) ≡ some d
ascii_value-add d h = ground arith

abbrev pub ascii : DigitTable
ascii = record { value = ascii_value; value_lt = ascii_value_lt; ascii = ascii_value-add }
