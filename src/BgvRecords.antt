-- ===== src/BgvRecords.antt =====
-- app/services/bgv_records.py: what a candidate typed, as the records that OnGrid verifies.
pub mod Complete
pub mod Examples
use circle_core.Prelude.{
  ℕ, zero, suc, Bool, str_eq, true, false, ◌&&◌, String, Option, none, some, List, [], ◌∷◌, ◌++◌,
  if◌then◌else◌, any, all, ◌==◌, length, map,
}
use circle_core.Text.{Text, codes, text_eq, is_empty, strip, DigitTable, is_digit}
use circle_core.Value.{
  Value, null, boolean, number, text, array, object, Fields, get, is_falsy, text_of,
}
use circle_core.Builtins.{str, Builtins}

-- `casefold`, `upper`, `str.isdigit` of one character, and `\d`.
pub record Letters : Type 0 where
  pub upper : Text → Text
  pub casefold : Text → Text
  pub digit_like : ℕ → Bool
  pub digits : DigitTable

abbrev pub education_levels : List String
education_levels =
    "NO_EDUCATION" ∷ "LESS_THEN_FIFTH_STD" ∷ "FIFTH_STD" ∷ "EIGHT_STD" ∷ "TENTH_STD" ∷ "TWELFTH_STD"
    ∷ "DIPLOMA" ∷ "GRADUATE" ∷ "PROFESSIONAL_COURSE" ∷ "MASTERS" ∷ "PHD" ∷ "POST_DOC"
    ∷ "POT_GRADUATE_DIPLOMA" ∷ "OTHER" ∷ "NA" ∷ []

-- A field to send: a name and what it holds.
pub record Sent : Type 0 where
  pub name : String
  pub value : Value

-- `Record`: an OnGrid record ready to send, or the labels of what is missing.
pub record Record : Type 0 where
  pub fields : List Sent
  pub missing : List String

unfoldable pub ok : Record → Bool
ok r = is_empty r.missing

-- `(field, value, required-label)`
pub record Pair : Type 0 where
  pub name : String
  pub value : Text
  pub label : Option String

required : String → Text → String → Pair
required name value label = record { name = name; value = value; label = some label }

optional : String → Text → Pair
optional name value = record { name = name; value = value; label = none }

-- `_text`
pub typed : Builtins → Fields → String → Text
typed o source key = elim (get key source) [
  | null ↦ []
  | boolean b ↦ strip (str o (boolean b))
  | number n ↦ strip (str o (number n))
  | text t ↦ strip t
  | array vs ↦ strip (str o (array vs))
  | object d ↦ strip (str o (object d))
]

-- `re.compile(r"^\d{4}-\d{2}-\d{2}$").match`, where `$` also stands before a final newline; the text
-- is stripped, so it has none.
digits_then : DigitTable → ℕ → (Text → Bool) → Text → Bool
digits_then dt zero rest s = rest s
digits_then dt (suc n) rest [] = false
digits_then dt (suc n) rest (c ∷ s) = is_digit dt c && digits_then dt n rest s

dash_then : (Text → Bool) → Text → Bool
dash_then rest [] = false
dash_then rest (c ∷ s) = (c == b'-') && rest s

pub is_date : DigitTable → Text → Bool
unfolding digits_then dash_then
is_date dt = digits_then dt 4 (dash_then (digits_then dt 2 (dash_then (digits_then dt 2 is_empty))))

-- `_date`
pub dated : Builtins → Letters → Fields → String → Text
dated o l source key = if is_date l.digits (typed o source key) then typed o source key else []

-- `_integer`; `str.isdigit` is false of the empty string.
pub integral : Builtins → Letters → Fields → String → Text
integral o l source key = if all l.digit_like (typed o source key) then typed o source key else []

fields_of : List Pair → List Sent
fields_of [] = []
fields_of (p ∷ ps) =
    let rest = fields_of ps in
    if is_empty p.value then rest else record { name = p.name; value = text p.value } ∷ rest

label_of : Pair → List String
label_of p = elim p.label [ none ↦ [] | some l ↦ if str_eq l "" then [] else l ∷ [] ]

missing_of : List Pair → List String
unfolding label_of
missing_of [] = []
missing_of (p ∷ ps) =
    let rest = missing_of ps in if is_empty p.value then label_of p ++ rest else rest

-- `_collect`, into a record.
pub collect : List Pair → Record
unfolding fields_of missing_of
collect ps = record { fields = fields_of ps; missing = missing_of ps }

known_level : Letters → Text → Text
known_level l level = if any (λ x. text_eq level (codes x)) education_levels then level else []

pub education_pairs : Builtins → Letters → Fields → List Pair
unfolding required optional known_level
education_pairs o l entry =
    required "level" (known_level l (l.upper (typed o entry "level"))) "level of education"
    ∷ required "nameOfInstitute" (typed o entry "institute") "name of institute"
    ∷ required "degree" (typed o entry "degree") "degree"
    ∷ required "nameAsPerDocument" (typed o entry "nameAsPerDocument") "name as on the certificate"
    ∷ required "registrationNumber" (typed o entry "registrationNumber") "registration number"
    ∷ required "issueDate" (dated o l entry "issueDate") "issue date"
    ∷ optional "nameOfBoardUniversity" (typed o entry "boardUniversity")
    ∷ optional "yearOfPassing" (integral o l entry "yearOfPassing")
    ∷ optional "fieldOfStudy" (typed o entry "fieldOfStudy")
    ∷ optional "grade" (typed o entry "grade")
    ∷ []

pub education : Builtins → Letters → Fields → Record
unfolding education_pairs collect
education o l entry = collect (education_pairs o l entry)

pub employment_pairs : Builtins → Letters → Fields → List Pair
unfolding required optional
employment_pairs o l entry =
    required "employerName" (typed o entry "employerName") "employer name"
    ∷ required "nameAsPerEmployerRecords" (typed o entry "nameAsPerEmployerRecords")
        "name as per employer records"
    ∷ optional "employeeId" (typed o entry "employeeId")
    ∷ optional "lastDesignation" (typed o entry "designation")
    ∷ optional "lastWorkingCity" (typed o entry "city")
    ∷ optional "joiningDate" (dated o l entry "joiningDate")
    ∷ optional "lastWorkingDate" (dated o l entry "lastWorkingDate")
    ∷ optional "managerName" (typed o entry "managerName")
    ∷ optional "managerEmail" (typed o entry "managerEmail")
    ∷ optional "managerPhone" (typed o entry "managerPhone")
    ∷ optional "hrName" (typed o entry "hrName")
    ∷ optional "hrEmail" (typed o entry "hrEmail")
    ∷ optional "hrPhone" (typed o entry "hrPhone")
    ∷ []

pub employment : Builtins → Letters → Fields → Record
unfolding employment_pairs collect
employment o l entry = collect (employment_pairs o l entry)

-- `_REFERENCE_TYPES.get(...)`: the kind of reference, and whether they were the reporting manager.
pub reference_type : Text → Text × Bool
reference_type kind =
    if text_eq kind (codes "reporting manager")
    then (codes "Professional", true)
    else if text_eq kind (codes "academic referee")
    then (codes "Academic", false)
    else (codes "Professional", false)

pub reference_pairs : Builtins → Fields → List Pair
unfolding required optional
reference_pairs o entry =
    required "referenceProviderName" (typed o entry "name") "the referee's name"
    ∷ required "referenceProviderEmail" (typed o entry "email") "the referee's email"
    ∷ required "organisation" (typed o entry "organization") "their organization"
    ∷ required "designation" (typed o entry "designation") "their designation"
    ∷ optional "referenceProviderPhone" (typed o entry "phone")
    ∷ []

-- The fields that are set and not collected, added to a record that lacks nothing.
complete_with : List Sent → Record → Record
complete_with extra r = if ok r then record r { fields = r.fields ++ extra } else r

pub reference : Builtins → Letters → Fields → ℕ → Record
unfolding complete_with
reference o l entry schema_id =
    let kind = reference_type (l.casefold (typed o entry "referenceType")) in
    complete_with
      (record { name = "referenceType"; value = text kind.0 }
        ∷ record { name = "reportingManager"; value = boolean kind.1 }
        ∷ record { name = "schemaId"; value = number schema_id }
        ∷ [])
      (collect (reference_pairs o entry))

pub address_pairs : Builtins → Fields → List Pair
unfolding required optional
address_pairs o entry =
    required "line1" (typed o entry "line1") "house / street"
    ∷ required "vtc" (typed o entry "city") "village, town or city"
    ∷ required "state" (typed o entry "state") "state"
    ∷ required "pincode" (typed o entry "pincode") "pincode"
    ∷ optional "line2" (typed o entry "line2")
    ∷ optional "locality" (typed o entry "locality")
    ∷ optional "landmark" (typed o entry "landmark")
    ∷ optional "district" (typed o entry "district")
    ∷ []

country_of : Text → Text
country_of t = if is_empty t then codes "India" else t

pub permanent_address : Builtins → Fields → Record
unfolding complete_with country_of
permanent_address o entry =
    complete_with
      (record { name = "country"; value = text (country_of (typed o entry "country")) } ∷ [])
      (collect (address_pairs o entry))
