-- ===== src/DocFields.antt =====
-- app/services/doc_fields.py: structured fields out of the text that OCR read from a joining
-- document. A missing text (`None`) is the empty text, as `text or ""` makes it.
mod Patterns
pub mod Verhoeff
pub mod Extract
pub mod Aadhaar
pub mod Extractors
mod Examples
use mathlib.Core.List.{reverse}
use circle_core.Prelude.{
  ℕ, zero, suc, ◌+◌, ◌-◌, ◌*◌, Bool, true, false, ◌&&◌, ◌||◌, not, String, Option, none, some, List,
  [], ◌∷◌, ◌++◌, map, leb, ◌==◌, if◌then◌else◌, length, take, drop, replicate, any, keep_if,
}
use circle_core.Dict.{Dict}
use circle_core.Text.{
  Text, codes, strip, is_space, text_eq, is_empty, is_digit, digits_of, digit_value, DigitTable,
}
use circle_core.Text.Ops.{contains, is_line_end, split_at, strip_all, after_colon, join}
use circle_core.DocFields.Patterns.{
  Chars, first, pan_re, pincode_re, dob_re, year_re, has_word, is_name_token,
}
use circle_core.DocFields.Verhoeff.{checksum_from}

pub record FieldResult : Type 0 where
  pub fields : Dict Text
  pub warnings : List Text
  pub validated : Bool
  pub validated_fields : List String

-- `digits[0] in ("0", "1")`
invalid_first : Text → Bool
invalid_first [] = false
invalid_first (c ∷ s) = (c == b'0') || (c == b'1')

pub is_valid_aadhaar : DigitTable → Text → Bool
unfolding invalid_first
is_valid_aadhaar t number =
    let digits = digits_of t number in
    if not (length digits == 12)
    then false
    else if invalid_first digits
    then false
    else checksum_from 0 0 (map (digit_value t) (reverse digits)) == 0

-- `digits[-4:]` of a text of at least four characters
last_four : Text → Text
last_four s = drop (length s - 4) s

pub mask_aadhaar : DigitTable → Text → Text
unfolding last_four
mask_aadhaar t number =
    let digits = digits_of t number in
    if not (length digits == 12) then [] else replicate 8 b'X' ++ last_four digits

-- `_lines`
pub lines : Text → List Text
lines s = strip_all (split_at is_line_end s)

-- `_labelled_value`: on the label's line after a colon, or else the next line.
pub labelled_value : Chars → List Text → Text → Text
labelled_value t [] label = []
labelled_value t (line ∷ ls) label =
    let later = labelled_value t ls label in
    if contains label (t.lower line)
    then (if not (is_empty (strip (after_colon line)))
        then strip (after_colon line)
        else elim ls [ [] ↦ [] | next ∷ more ↦ next ])
    else later

-- `_clean_name`
clean_name : Text → Text
clean_name line =
    let tokens = keep_if is_name_token (strip_all (split_at is_space line)) in
    if leb 2 (length tokens) then join (codes " ") tokens else []

-- `_name_above_dob`: the line above the first one, not counting the top one, that has a date.
name_above_dob : Chars → List Text → Text
unfolding clean_name
name_above_dob t [] = []
name_above_dob t (above ∷ []) = []
name_above_dob t (above ∷ line ∷ ls) =
    let later = name_above_dob t (line ∷ ls) in
    if is_empty (first t (dob_re t) line) then later else clean_name above

-- `_GENDER_PATTERNS`, the two in Devanagari by their code points.
abbrev stri : Text
stri = 0x938 ∷ 0x94d ∷ 0x924 ∷ 0x94d ∷ 0x930 ∷ 0x940 ∷ []

abbrev purush : Text
purush = 0x92a ∷ 0x941 ∷ 0x930 ∷ 0x941 ∷ 0x937 ∷ []

pub find_gender : Chars → Text → Text
find_gender t text =
    if has_word t (codes "FEMALE") text
    then codes "Female"
    else if has_word t (codes "TRANSGENDER") text
    then codes "Other"
    else if has_word t (codes "MALE") text
    then codes "Male"
    else if contains stri text
    then codes "Female"
    else if contains purush text
    then codes "Male"
    else []

-- `[\d \t-]`: the characters of a run besides digits
is_separator : ℕ → Bool
is_separator c = (c == 32) || (c == 9) || (c == b'-')

-- The digits of each match of `\d[\d \t-]*\d`: of each longest stretch of digits and separators
-- that has at least two digits.
close_run : Text → List Text → List Text
close_run run rest = if leb 2 (length run) then run ∷ rest else rest

digit_runs : DigitTable → Text → Text → List Text
unfolding close_run is_separator
digit_runs t run [] = close_run run []
digit_runs t run (c ∷ s) =
    let longer = digit_runs t (run ++ c ∷ []) s in
    let same = digit_runs t run s in
    let next = digit_runs t [] s in
    if is_digit t c then longer else if is_separator c then same else close_run run next

-- The runs of twelve digits.
pub aadhaar_candidates : DigitTable → Text → List Text
unfolding digit_runs
aadhaar_candidates t text = keep_if (λ run. length run == 12) (digit_runs t [] text)

-- The first candidate that the checksum accepts, or else the first one.
choose_candidate : DigitTable → Text → List Text → Text
choose_candidate t fallback [] = fallback
choose_candidate t fallback (digits ∷ more) =
    let rest = choose_candidate t fallback more in
    if is_valid_aadhaar t digits then digits else rest

pub first_candidate : List Text → Text
first_candidate [] = []
first_candidate (digits ∷ more) = digits

pub find_aadhaar_candidate : DigitTable → Text → Text
unfolding choose_candidate first_candidate
find_aadhaar_candidate t text =
    choose_candidate t (first_candidate (aadhaar_candidates t text)) (aadhaar_candidates t text)
