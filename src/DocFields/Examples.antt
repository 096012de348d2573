-- ===== src/DocFields/Examples.antt =====
-- Sample numbers and texts.
use circle_core.Prelude.{◌≡◌, refl, true, false, ◌∷◌, ◌++◌, arith}
use circle_core.Text.{Text, codes}
use circle_core.Text.Ascii.{ascii}
use circle_core.DocFields.Patterns.{Chars}
use circle_core.DocFields.{is_valid_aadhaar, find_aadhaar_candidate, aadhaar_candidates, digit_runs}
use circle_core.DocFields.Extract.{extract_fields}
use circle_core.DocFields.Verhoeff.{checksum_from}
use circle_core.DocFields.Aadhaar.{is_valid_aadhaar_misread, is_valid_aadhaar_swapped}
use circle_core.DocFields.Extractors.{IsSound, extract_fields-IsSound}

valid_sample : is_valid_aadhaar ascii (codes "2341 2341 2346") ≡ true
unfolding is_valid_aadhaar checksum_from
valid_sample = refl

is_valid_aadhaar_misread_example :
    is_valid_aadhaar ascii (codes "2341 2" ++ b'8' ∷ codes "41 2346") ≡ false
is_valid_aadhaar_misread_example =
    is_valid_aadhaar_misread ascii (codes "2341 2") (codes "41 2346") b'3' b'8' 3 8 refl refl
      (omega arith) valid_sample

is_valid_aadhaar_swapped_example :
    is_valid_aadhaar ascii (codes "2341 2" ++ b'4' ∷ b'3' ∷ codes "1 2346") ≡ false
is_valid_aadhaar_swapped_example =
    is_valid_aadhaar_swapped ascii (codes "2341 2") (codes "1 2346") b'3' b'4' 3 4 refl refl
      (omega arith) valid_sample

abbrev card : Text
card = codes "VID 9999 8888 7777 6666\nNo 111122223333\n2341 2341 2346"

candidate_sample : find_aadhaar_candidate ascii card ≡ codes "234123412346"
unfolding find_aadhaar_candidate aadhaar_candidates digit_runs is_valid_aadhaar checksum_from
candidate_sample = refl

abbrev plain : Chars
plain = record {
  digits = ascii;
  word = λ c. true;
  fold = λ c. c;
  lower = λ s. s;
  upper = λ s. s;
  casefold = λ s. s;
}

extract_fields-IsSound_example :
    IsSound (extract_fields plain (codes " PAN card") (codes "ABCDE1234F"))
extract_fields-IsSound_example =
    extract_fields-IsSound plain (codes " PAN card") (codes "ABCDE1234F")
