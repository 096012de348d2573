-- ===== src/DocFields/Extractors.antt =====
-- What every extractor promises of its result.
use circle_core.Prelude.{
  ◌≡◌, refl, Bool, true, false, not, String, Option, none, some, List, [], ◌∷◌, ◌++◌, arith, All,
  if◌then◌else◌, eq_iff, Bool-cases, inl, inr, any, ◌&&◌, ◌∙◌,
}
use circle_core.Dict.{Dict, lookup}
use circle_core.Text.{Text, is_empty, strip}
use circle_core.DocFields.Patterns.{Chars, first, pincode_re}
use circle_core.DocFields.{FieldResult, aadhaar_candidates, is_valid_aadhaar}
use circle_core.DocFields.Extract.{
  add_field, confirmed, extract_aadhaar, extract_pan, extract_address_proof, extract_education,
  extractor_for, extract_with, extract_fields, empty_result,
}
use circle_core.DocFields.Aadhaar.{find_aadhaar_candidate_valid}

-- The keys said to be confirmed are there, and there are some exactly if the result is validated.
pub record IsSound (r : FieldResult) : Type 0 where
  pub present : All (λ k. (v : Text) × (lookup k r.fields ≡ some v)) r.validated_fields
  pub confirmed_iff : is_empty r.validated_fields ≡ not r.validated

Has : String → Dict Text → Type 0
Has k d = (v : Text) × (lookup k d ≡ some v)

lookup-append :
    (k : String) (v : Text) (d e : Dict Text) → lookup k d ≡ some v → lookup k (d ++ e) ≡ some v
unfolding lookup
lookup-append k v [] e h = cc
lookup-append k v ((j, w) ∷ d) e h = ground (arith, lookup-append k v d e)

add_field-Has : (k j : String) (w : Text) (d : Dict Text) → Has k d → Has k (add_field j w d)
unfolding add_field Has
add_field-Has k j w d (v, h) = elim (Bool-cases (is_empty w)) [
  | inl e ↦ rw e (v, h)
  | inr e ↦ rw e (v, lookup-append k v d _ h)
]

confirmed-IsSound :
    (fields : Dict Text) (warnings : List Text) (validated : Bool) (key : String)
    → (validated ≡ true → Has key fields)
    → IsSound (record {
      fields = fields;
      warnings = warnings;
      validated = validated;
      validated_fields = confirmed validated key;
    })
unfolding confirmed Has is_empty
confirmed-IsSound fields warnings true key h = record {
  present = (h refl, tt);
  confirmed_iff = refl;
}
confirmed-IsSound fields warnings false key h = record { present = tt; confirmed_iff = refl }

flip_false : (b : Bool) → not b ≡ true → b ≡ false
flip_false b h = ground arith

Has-singleton :
    (b : Bool) (k : String) (v : Text) → b ≡ false → Has k (if b then [] else (k, v) ∷ [])
unfolding Has lookup
Has-singleton b k v e = (v, ground (arith, eq_iff k k))

Has-first :
    (k : String) (b : Bool) (v : Text) (e : Dict Text)
    → b ≡ false
    → Has k ((if b then [] else (k, v) ∷ []) ++ e)
unfolding Has lookup
Has-first k b v e h = (v, ground (arith, eq_iff k k))

module _ (t : Chars) (text : Text) where
  extract_aadhaar-IsSound : IsSound (extract_aadhaar t text)
  unfolding extract_aadhaar
  extract_aadhaar-IsSound = confirmed-IsSound _ _ _ "number" (λ h.
      add_field-Has "number" "name" _ _ (
        add_field-Has "number" "gender" _ _
          (add_field-Has "number" "dob" _ _ (Has-singleton _ "number" _ (ground arith)))))

  extract_pan-IsSound : IsSound (extract_pan t text)
  unfolding extract_pan
  extract_pan-IsSound = confirmed-IsSound _ _ _ "number" (λ h. add_field-Has "number" "dob" _ _ (
      add_field-Has "number" "fatherName" _ _
        (add_field-Has "number" "name" _ _ (Has-singleton _ "number" _ (ground arith)))))

  extract_address_proof-IsSound : IsSound (extract_address_proof t text)
  unfolding extract_address_proof
  extract_address_proof-IsSound =
      let pincode = first t (pincode_re t) text in
      confirmed-IsSound _ _ _ "pincode"
        (λ h. Has-first "pincode" (is_empty pincode) pincode _ (flip_false _ h))

  Has-year : (b : Bool) (v : Text) → b ≡ true → Has "year" (if b then ("year", v) ∷ [] else [])
  unfolding Has lookup
  Has-year b v e = (v, ground (arith, eq_iff "year" "year"))

  extract_education-IsSound : IsSound (extract_education t text)
  unfolding extract_education
  extract_education-IsSound = confirmed-IsSound _ _ _ "year" (λ h.
      add_field-Has "year" "degree" _ _ (add_field-Has "year" "institution" _ _ (Has-year _ _ h)))

  empty_result-IsSound : (w : Text) → IsSound (empty_result t w)
  unfolding empty_result is_empty
  empty_result-IsSound w = record { present = tt; confirmed_iff = refl }

Sound-extractor : (t : Chars) → Option (Text → FieldResult) → Type 0
Sound-extractor t none = Unit
Sound-extractor t (some f) = (text : Text) → IsSound (f text)

Sound-extractor-none : (t : Chars) → Sound-extractor t none
unfolding Sound-extractor
Sound-extractor-none t = tt

Sound-extractor-if :
    (t : Chars) (b : Bool) (f : Text → FieldResult) (o : Option (Text → FieldResult))
    → ((text : Text) → IsSound (f text))
    → Sound-extractor t o
    → Sound-extractor t (if b then some f else o)
unfolding Sound-extractor
Sound-extractor-if t true f o hf ho = hf
Sound-extractor-if t false f o hf ho = ho

extractor_for-IsSound : (t : Chars) (label : Text) → Sound-extractor t (extractor_for t label)
unfolding extractor_for
extractor_for-IsSound t label = Sound-extractor-if t _ _ _ (extract_aadhaar-IsSound t) (
    Sound-extractor-if t _ _ _ (extract_pan-IsSound t) (
      Sound-extractor-if t _ _ _ (extract_address_proof-IsSound t)
        (Sound-extractor-if t _ _ _ (extract_education-IsSound t) (Sound-extractor-none t))))

extract_with-IsSound :
    (t : Chars) (doc_type text : Text) (o : Option (Text → FieldResult))
    → Sound-extractor t o
    → IsSound (extract_with t doc_type text o)
unfolding extract_with Sound-extractor
extract_with-IsSound t doc_type text none h = empty_result-IsSound t text _
extract_with-IsSound t doc_type text (some f) h = elim (Bool-cases (is_empty (strip text))) [
  | inl blank ↦ rw blank (empty_result-IsSound t text _)
  | inr more ↦ rw more (h text)
]

-- For every document type and every text, the result says that fields are confirmed exactly if it
-- is validated, and each field that it says is confirmed is among its fields.
pub extract_fields-IsSound :
    (t : Chars) (doc_type text : Text) → IsSound (extract_fields t doc_type text)
unfolding extract_fields
extract_fields-IsSound t doc_type text =
    extract_with-IsSound t doc_type text (extractor_for t (t.casefold (strip doc_type)))
      (extractor_for-IsSound t _)

valid_not_empty :
    (t : Chars) (s : Text)
    → (not (is_empty s) && is_valid_aadhaar t.digits s) ≡ is_valid_aadhaar t.digits s
unfolding is_empty is_valid_aadhaar
valid_not_empty t [] = refl
valid_not_empty t (c ∷ s) = refl

-- The result for an Aadhaar card is validated exactly if some run of twelve digits in the text
-- passes the checksum.
pub extract_aadhaar_validated :
    (t : Chars) (text : Text)
    → (extract_aadhaar t text).validated
      ≡ any (is_valid_aadhaar t.digits) (aadhaar_candidates t.digits text)
unfolding extract_aadhaar
extract_aadhaar_validated t text =
    valid_not_empty t _ ∙ (find_aadhaar_candidate_valid t.digits text).0
