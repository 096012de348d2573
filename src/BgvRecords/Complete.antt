-- ===== src/BgvRecords/Complete.antt =====
-- The fields of a record that is ready to send.
use circle_core.Prelude.{
  ℕ, ◌≡◌, refl, sym, ap, ◌∙◌, if◌then◌else◌, Bool, true, ◌&&◌, not, String, List, [], ◌∷◌, ◌++◌,
  any, arith, str_eq, Bool-cases, inl, inr,
}
use circle_core.Text.{Text, codes, text_eq, text_eq_iff, is_empty}
use circle_core.Value.{text, boolean, number, Fields, is_falsy}
use circle_core.Builtins.{Builtins}
use circle_core.BgvRecords.{
  Letters, Record, Sent, Pair, ok, fields_of, label_of, missing_of, collect, education_pairs,
  education, employment_pairs, employment, reference_pairs, reference, address_pairs,
  permanent_address, complete_with, required, optional, reference_type, country_of, typed,
}

-- A field of this name is sent, and is not blank.
abbrev pub carries : List Sent → String → Bool
carries fs name = any (λ f. str_eq f.name name && not (is_falsy f.value)) fs

abbrev pub is_one : List String → String → Bool
is_one names name = any (λ n. str_eq n name) names

-- A pair of this name must not be blank.
abbrev requires : List Pair → String → Bool
requires ps name = any (λ p. not (is_empty (label_of p)) && str_eq p.name name) ps

append_nil : (xs ys : List String) → xs ++ ys ≡ [] → (is_empty xs ≡ true) × (ys ≡ [])
unfolding is_empty
append_nil [] ys h = (refl, h)
append_nil (x ∷ xs) ys h = ground (arith)

missing_of_blank :
    (p : Pair) (ps : List Pair)
    → is_empty p.value ≡ true
    → missing_of (p ∷ ps) ≡ []
    → (is_empty (label_of p) ≡ true) × (missing_of ps ≡ [])
unfolding missing_of
missing_of_blank p ps e h = append_nil (label_of p) (missing_of ps) (ground (arith))

fields_of-carries :
    (ps : List Pair) (name : String)
    → missing_of ps ≡ []
    → requires ps name ≡ true
    → carries (fields_of ps) name ≡ true
unfolding fields_of missing_of is_falsy is_empty
fields_of-carries [] name h r = r
fields_of-carries (p ∷ ps) name h r = elim (Bool-cases (is_empty p.value)) [
  | inl e ↦ ground (arith, missing_of_blank p ps e h, fields_of-carries ps name)
  | inr e ↦ ground (arith, fields_of-carries ps name)
]

any-append :
    {A : Type 0} (p : A → Bool) (xs ys : List A) → any p xs ≡ true → any p (xs ++ ys) ≡ true
any-append p [] ys h = ground (arith)
any-append p (x ∷ xs) ys h = ground (arith, any-append p xs ys)

append_empty : {A : Type 0} (xs : List A) → xs ++ [] ≡ xs
append_empty [] = refl
append_empty (x ∷ xs) = ap (λ l. x ∷ l) (append_empty xs)

collect-carries :
    (ps : List Pair) (name : String)
    → ok (collect ps) ≡ true
    → requires ps name ≡ true
    → carries (collect ps).fields name ≡ true
unfolding collect ok is_empty
collect-carries ps name h r = fields_of-carries ps name (ground (arith)) r

complete_with-carries :
    (extra : List Sent) (ps : List Pair) (name : String)
    → ok (complete_with extra (collect ps)) ≡ true
    → requires ps name ≡ true
    → carries (complete_with extra (collect ps)).fields name ≡ true
unfolding complete_with
complete_with-carries extra ps name h r = elim (Bool-cases (ok (collect ps))) [
  | inl e ↦ rw e (any-append _ (collect ps).fields extra (collect-carries ps name e r))
  | inr e ↦ ground (arith)
]

-- What is set and not collected stands last.
complete_with_fields :
    (extra : List Sent) (ps : List Pair)
    → ok (complete_with extra (collect ps)) ≡ true
    → (complete_with extra (collect ps)).fields ≡ (collect ps).fields ++ extra
unfolding complete_with
complete_with_fields extra ps h = elim (Bool-cases (ok (collect ps))) [
  | inl e ↦ rw e refl
  | inr e ↦ ground (arith)
]

-- The fields of a referee's record that are set: a reporting manager and any other kind but an
-- academic referee are `Professional`.
abbrev pub set_fields : Text → ℕ → List Sent
set_fields kind schema_id =
    record {
      name = "referenceType";
      value = text (
          if text_eq kind (codes "academic referee")
          then codes "Academic"
          else codes "Professional");
    }
    ∷ record {
      name = "reportingManager";
      value = boolean (text_eq kind (codes "reporting manager"));
    }
    ∷ record { name = "schemaId"; value = number schema_id }
    ∷ []

set_fields_lem :
    (kind : Text) (schema_id : ℕ)
    → (record { name = "referenceType"; value = text (reference_type kind).0 }
        ∷ record { name = "reportingManager"; value = boolean (reference_type kind).1 }
        ∷ record { name = "schemaId"; value = number schema_id }
        ∷ [])
      ≡ set_fields kind schema_id
unfolding reference_type
set_fields_lem kind schema_id = elim (Bool-cases (text_eq kind (codes "reporting manager"))) [
  | inl e ↦
      let same = (text_eq_iff kind (codes "reporting manager")).0 e in
      rw same (unfold text_eq in refl)
  | inr e ↦ elim (Bool-cases (text_eq kind (codes "academic referee"))) [
    | inl f ↦ rw (e, f) refl
    | inr f ↦ rw (e, f) refl
  ]
]

-- The four kinds of record.
pub data Kind : Type 0 where
  an_education : Kind
  an_employment : Kind
  a_reference : Kind
  an_address : Kind

abbrev pub record_of : Kind → Builtins → Letters → Fields → ℕ → Record
record_of an_education o l entry schema_id = education o l entry
record_of an_employment o l entry schema_id = employment o l entry
record_of a_reference o l entry schema_id = reference o l entry schema_id
record_of an_address o l entry schema_id = permanent_address o entry

-- The fields that must be typed.
abbrev pub required_of : Kind → List String
required_of an_education =
    "level" ∷ "nameOfInstitute" ∷ "degree" ∷ "nameAsPerDocument" ∷ "registrationNumber"
    ∷ "issueDate" ∷ []
required_of an_employment = "employerName" ∷ "nameAsPerEmployerRecords" ∷ []
required_of a_reference =
    "referenceProviderName" ∷ "referenceProviderEmail" ∷ "organisation" ∷ "designation" ∷ []
required_of an_address = "line1" ∷ "vtc" ∷ "state" ∷ "pincode" ∷ []

-- The fields that are set: what was chosen for the referee, and the country.
abbrev pub set_of : Kind → Builtins → Letters → Fields → ℕ → List Sent
set_of an_education o l entry schema_id = []
set_of an_employment o l entry schema_id = []
set_of a_reference o l entry schema_id =
    set_fields (l.casefold (typed o entry "referenceType")) schema_id
set_of an_address o l entry schema_id =
    let country = typed o entry "country" in
    record { name = "country"; value = text (if is_empty country then codes "India" else country) }
    ∷ []

-- It carries the field, not blank, and ends with the fields that are set.
pub record IsReady (r : Record) (name : String) (set : List Sent) : Type 0 where
  pub carried : carries r.fields name ≡ true
  pub collected : List Sent
  pub ends : r.fields ≡ collected ++ set

-- A record that is ready to send carries, not blank, each field that the code requires of its kind:
-- the six of an education, the two of an employment, the four typed ones of a reference and the four
-- of a permanent address. A reference ends with its type, whether the referee was the reporting
-- manager, both by what the candidate chose, and the given schema; an address ends with the country
-- typed, or else India.
pub record_carries :
    (kind : Kind) (o : Builtins) (l : Letters) (entry : Fields) (schema_id : ℕ) (name : String)
    → ok (record_of kind o l entry schema_id) ≡ true
    → is_one (required_of kind) name ≡ true
    → IsReady (record_of kind o l entry schema_id) name (set_of kind o l entry schema_id)
unfolding education employment reference permanent_address education_pairs employment_pairs
    reference_pairs address_pairs required optional label_of is_empty country_of
record_carries an_education o l entry schema_id name h r = record {
  carried = collect-carries (education_pairs o l entry) name h r;
  collected = (collect (education_pairs o l entry)).fields;
  ends = sym (append_empty (collect (education_pairs o l entry)).fields);
}
record_carries an_employment o l entry schema_id name h r = record {
  carried = collect-carries (employment_pairs o l entry) name h r;
  collected = (collect (employment_pairs o l entry)).fields;
  ends = sym (append_empty (collect (employment_pairs o l entry)).fields);
}
record_carries a_reference o l entry schema_id name h r = record {
  carried = complete_with-carries _ (reference_pairs o entry) name h r;
  collected = (collect (reference_pairs o entry)).fields;
  ends =
      complete_with_fields _ (reference_pairs o entry) h
      ∙ ap (λ set. (collect (reference_pairs o entry)).fields ++ set)
          (set_fields_lem (l.casefold (typed o entry "referenceType")) schema_id);
}
record_carries an_address o l entry schema_id name h r = record {
  carried = complete_with-carries _ (address_pairs o entry) name h r;
  collected = (collect (address_pairs o entry)).fields;
  ends = complete_with_fields _ (address_pairs o entry) h;
}
