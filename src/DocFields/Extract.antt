-- ===== src/DocFields/Extract.antt =====
-- The extractor of each type of document, and `extract_fields`, which picks one.
use circle_core.Prelude.{
  ℕ, suc, ◌+◌, ◌-◌, ◌*◌, Bool, true, false, ◌&&◌, not, String, Option, none, some, List, [], ◌∷◌,
  ◌++◌, leb, if◌then◌else◌, take, drop, any,
}
use circle_core.Dict.{Dict}
use circle_core.Text.{Text, codes, strip, text_eq, is_empty, digit_value, DigitTable}
use circle_core.Text.Ops.{contains, join}
use circle_core.DocFields.Patterns.{Chars, first, pan_re, pincode_re, dob_re, year_re, has_word}
use circle_core.DocFields.{
  FieldResult, is_valid_aadhaar, mask_aadhaar, lines, labelled_value, name_above_dob, find_gender,
  find_aadhaar_candidate,
}

-- `if value: fields[key] = value`
unfoldable pub add_field : String → Text → Dict Text → Dict Text
add_field key value fields = if is_empty value then fields else fields ++ (key, value) ∷ []

-- The keys that a machine check confirmed: the one that was checked, or none.
unfoldable pub confirmed : Bool → String → List String
confirmed validated key = if validated then key ∷ [] else []

module _ (t : Chars) where
  pub aadhaar_name : Text → Text
  unfolding name_above_dob labelled_value lines
  aadhaar_name text =
      let above = name_above_dob t (lines text) in
      if is_empty above then labelled_value t (lines text) (codes "name") else above

  unfoldable pub extract_aadhaar : Text → FieldResult
  extract_aadhaar text =
      let raw = find_aadhaar_candidate t.digits text in
      let validated = not (is_empty raw) && is_valid_aadhaar t.digits raw in
      record {
        fields = add_field "name" (aadhaar_name text) (
            add_field "gender" (find_gender t text) (
              add_field "dob" (first t (dob_re t) text)
                (if is_empty raw then [] else ("number", mask_aadhaar t.digits raw) ∷ [])));
        warnings =
            if is_empty raw
            then codes "No 12-digit Aadhaar number found in the image." ∷ []
            else if is_valid_aadhaar t.digits raw
            then []
            else codes "Aadhaar checksum did not match - a digit was likely misread." ∷ [];
        validated = validated;
        validated_fields = confirmed validated "number";
      }

  unfoldable pub extract_pan : Text → FieldResult
  extract_pan text =
      let number = first t (pan_re t) (t.upper text) in
      let validated = not (is_empty number) in
      record {
        fields = add_field "dob" (first t (dob_re t) text) (
            add_field "fatherName" (labelled_value t (lines text) (codes "father")) (
              add_field "name" (labelled_value t (lines text) (codes "name"))
                (if is_empty number then [] else ("number", number) ∷ [])));
        warnings =
            if is_empty number
            then codes "No valid PAN number (ABCDE1234F) found in the image." ∷ []
            else [];
        validated = validated;
        validated_fields = confirmed validated "number";
      }

-- The place of the first line that carries the pincode.
line_with : Text → List Text → Option ℕ
line_with pincode [] = none
line_with pincode (l ∷ ls) = elim (line_with pincode ls) [
  | none ↦ if contains pincode l then some 0 else none
  | some i ↦ if contains pincode l then some 0 else some (suc i)
]

-- `_lines_around_pincode`: that line and at most two above it.
pub lines_around_pincode : List Text → Text → List Text
unfolding line_with
lines_around_pincode ls pincode = if is_empty pincode then [] else elim (line_with pincode ls) [
  | none ↦ []
  | some index ↦ take (index + 1 - (index - 2)) (drop (index - 2) ls)
]

abbrev best_effort : Text
best_effort = codes "Address is a best-effort read - please check it against the image."

-- `_match_hint`: the first line with one of the hints.
pub match_hint : Chars → List Text → List Text → Text
match_hint t hints [] = []
match_hint t hints (l ∷ ls) =
    let later = match_hint t hints ls in if any (λ h. has_word t h l) hints then l else later

abbrev degree_hints : List Text
degree_hints =
    codes "bachelor"
    ∷ codes "master"
    ∷ codes "b.tech"
    ∷ codes "b.e"
    ∷ codes "b.sc"
    ∷ codes "b.com"
    ∷ codes "b.a"
    ∷ codes "m.tech"
    ∷ codes "m.sc"
    ∷ codes "m.com"
    ∷ codes "m.a"
    ∷ codes "mba"
    ∷ codes "mca"
    ∷ codes "bca"
    ∷ codes "phd"
    ∷ codes "diploma"
    ∷ []

abbrev institution_hints : List Text
institution_hints =
    codes "university" ∷ codes "institute" ∷ codes "college" ∷ codes "board" ∷ codes "school" ∷ []

-- `int(year)`
number_value : DigitTable → ℕ → Text → ℕ
number_value t n [] = n
number_value t n (c ∷ s) = number_value t (n * 10 + digit_value t c) s

module _ (t : Chars) where
  unfoldable pub extract_address_proof : Text → FieldResult
  extract_address_proof text =
      let pincode = first t (pincode_re t) text in
      let block = lines_around_pincode (lines text) pincode in
      let validated = not (is_empty pincode) in
      record {
        fields =
            (if is_empty pincode then [] else ("pincode", pincode) ∷ [])
            ++ (if is_empty block then [] else ("address", join (codes ", ") block) ∷ []);
        warnings =
            (if is_empty pincode
              then codes "No 6-digit pincode found - please enter the address manually." ∷ []
              else [])
            ++ (if is_empty block then [] else best_effort ∷ []);
        validated = validated;
        validated_fields = confirmed validated "pincode";
      }

  pub plausible_year : Text → Bool
  unfolding number_value
  plausible_year year =
      not (is_empty year)
      && (leb 1950 (number_value t.digits 0 year) && leb (number_value t.digits 0 year) 2049)

  unfoldable pub extract_education : Text → FieldResult
  extract_education text =
      let year = first t (year_re t) text in
      let validated = plausible_year year in
      record {
        fields = add_field "degree" (match_hint t degree_hints (lines text)) (
            add_field "institution" (match_hint t institution_hints (lines text))
              (if validated then ("year", year) ∷ [] else []));
        warnings =
            (if validated then [] else codes "No plausible year of passing found." ∷ [])
            ++ codes "Certificate layouts vary - please check every field against the image." ∷ [];
        validated = validated;
        validated_fields = confirmed validated "year";
      }

  unfoldable pub empty_result : Text → FieldResult
  empty_result warning = record {
    fields = [];
    warnings = warning ∷ [];
    validated = false;
    validated_fields = [];
  }

  -- `_EXTRACTORS.get(...)`
  unfoldable pub extractor_for : Text → Option (Text → FieldResult)
  extractor_for label =
      if text_eq label (t.casefold (codes "Aadhaar card"))
      then some (extract_aadhaar t)
      else if text_eq label (t.casefold (codes "PAN card"))
      then some (extract_pan t)
      else if text_eq label (t.casefold (codes "Address proof"))
      then some extract_address_proof
      else if text_eq label (t.casefold (codes "Education certificates"))
      then some extract_education
      else none

  pub supports : Text → Bool
  unfolding extractor_for
  supports doc_type = elim (extractor_for (t.casefold (strip doc_type))) [
    | none ↦ false
    | some f ↦ true
  ]

  -- What `extract_fields` does with the extractor that it looked up.
  unfoldable pub extract_with : Text → Text → Option (Text → FieldResult) → FieldResult
  extract_with doc_type text none =
      empty_result
        (codes "No extraction rules for '" ++ (doc_type ++ codes "' - enter values manually."))
  extract_with doc_type text (some extractor) =
      if is_empty (strip text)
      then empty_result (codes "No text could be read from the image.")
      else extractor text

  unfoldable pub extract_fields : Text → Text → FieldResult
  unfolding extract_with
  extract_fields doc_type text =
      extract_with doc_type text (extractor_for (t.casefold (strip doc_type)))
