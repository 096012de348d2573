-- ===== src/BgvChecks/Started.antt =====
-- An outcome says that a check was started only if OnGrid took the request for it.
use circle_core.Prelude.{
  ℕ, ◌≡◌, refl, Bool, true, false, String, Option, none, some, List, [], ◌∷◌, if◌then◌else◌, find,
  map, ◌⊎◌, inl, inr, Bool-cases, Option-cases,
}
use circle_core.Text.{Text, is_empty}
use circle_core.Value.{Fields}
use circle_core.Dict.{lookup}
use circle_core.Builtins.{Builtins}
use circle_core.BgvRecords.{Letters, Sent, ok, education, employment, reference, permanent_address}
use circle_core.BgvChecks.{
  File, CandidateData, Request, check, Client, Reason, CheckOutcome, Run, request_id_of, Result,
  refuse, start, start_with, record_id, registered, register, run_uan_check, run_self_contained,
  extracted, upload, run_document_check, run_education, run_employment, run_permanent_address,
  reference_with, run_reference, run_check, started, send, missing, is_blank,
}

-- The last request was for this check, and OnGrid answered it with the identifier in the outcome.
pub record IsStarted (o : Builtins) (c : Client) (code : String) (out : CheckOutcome) (r : Run)
    : Type 0 where
  pub payload : List Sent
  pub earlier : List Request
  pub last_sent : r.sent ≡ check code payload ∷ earlier
  pub result : Fields
  pub answered : c.answer earlier (check code payload) ≡ inr result
  pub request : out.request_id ≡ some (request_id_of o result)

-- The outcome of a run, if nothing was raised, is of the check that was asked for; it is not ok and
-- has a reason, or is ok, has none, and the check was started.
pub data IsHonest (o : Builtins) (c : Client) (code : String) : Result → Type 0 where
  raised : (r : Run) → IsHonest o c code (none, r)
  refused :
      (out : CheckOutcome) (r : Run) (why : Reason)
      → out.code ≡ code
      → out.ok ≡ false
      → out.reason ≡ some why
      → IsHonest o c code (some out, r)
  taken :
      (out : CheckOutcome) (r : Run)
      → out.code ≡ code
      → out.ok ≡ true
      → out.reason ≡ none
      → IsStarted o c code out r
      → IsHonest o c code (some out, r)

module _ (o : Builtins) (c : Client) (code : String) where
  refuse-IsHonest : (why : Reason) (r : Run) → IsHonest o c code (refuse code why r)
  unfolding refuse missing
  refuse-IsHonest why r = refused (missing code why) r why refl refl refl

  started-IsHonest :
      (payload : List Sent) (id : Option Text) (r : Run) (a : Text ⊎ Fields)
      → c.answer r.sent (check code payload) ≡ a
      → IsHonest o c code (some (started o code id a), send (check code payload) r)
  unfolding started send
  started-IsHonest payload id r (inl message) e = refused _ _ _ refl refl refl
  started-IsHonest payload id r (inr result) e = taken _ _ refl refl refl (record {
    payload = payload;
    earlier = r.sent;
    last_sent = refl;
    result = result;
    answered = e;
    request = refl;
  })

  start-IsHonest :
      (payload : List Sent) (id : Option Text) (r : Run)
      → IsHonest o c code (start o c code payload id r)
  unfolding start
  start-IsHonest payload id r =
      started-IsHonest payload id r (c.answer r.sent (check code payload)) refl

  start_with-IsHonest :
      (payload : ℕ → List Sent) (id : Text) (r : Run)
      → IsHonest o c code (start_with o c code payload id r)
  unfolding start_with
  start_with-IsHonest payload id r = elim (Option-cases (c.to_int id)) [
    | inl e ↦ rw (e, start_with) (raised r)
    | inr (n, e) ↦ rw (e, start_with) (start-IsHonest (payload n) (some id) r)
  ]

  registered-IsHonest :
      (payload : ℕ → List Sent) (a : Text ⊎ Fields) (r : Run)
      → IsHonest o c code (registered o c code payload a r)
  unfolding registered
  registered-IsHonest payload (inl message) r = refuse-IsHonest _ r
  registered-IsHonest payload (inr created) r = elim (Bool-cases (is_empty (record_id o created))) [
    | inl e ↦ rw (e, registered) (refuse-IsHonest _ r)
    | inr e ↦ rw (e, registered) (start_with-IsHonest payload (record_id o created) r)
  ]

  register-IsHonest :
      (q : Request) (payload : ℕ → List Sent) (r : Run)
      → IsHonest o c code (register o c code q payload r)
  unfolding register
  register-IsHonest q payload r = registered-IsHonest payload (c.answer r.sent q) (send q r)

  extracted-IsHonest : (a : Text ⊎ Fields) (r : Run) → IsHonest o c code (extracted o c code a r)
  unfolding extracted
  extracted-IsHonest (inl message) r = refuse-IsHonest _ r
  extracted-IsHonest (inr created) r = elim (Bool-cases (is_empty (record_id o created))) [
    | inl e ↦ rw (e, extracted) (refuse-IsHonest _ r)
    | inr e ↦ rw (e, extracted) (start_with-IsHonest _ (record_id o created) _)
  ]

  upload-IsHonest :
      (document : Option File) (r : Run) → IsHonest o c code (upload o c code document r)
  unfolding upload
  upload-IsHonest none r = refuse-IsHonest _ r
  upload-IsHonest (some f) r = elim (Option-cases (c.prepare f)) [
    | inl e ↦ rw (e, upload) (refuse-IsHonest _ r)
    | inr (image, e) ↦ rw (e, upload) (extracted-IsHonest _ _)
  ]

  run_document_check-IsHonest :
      (document : Option File) (r : Run)
      → IsHonest o c code (run_document_check o c code document r)
  unfolding run_document_check
  run_document_check-IsHonest document r = elim (Option-cases (lookup "PAN card" r.document_ids)) [
    | inl e ↦ rw (e, run_document_check) (upload-IsHonest document r)
    | inr (id, e) ↦ rw (e, run_document_check) (start_with-IsHonest _ id r)
  ]

  module _ (data' : CandidateData) (r : Run) where
    run_uan_check-IsHonest : IsHonest o c code (run_uan_check o c code data' r)
    unfolding run_uan_check
    run_uan_check-IsHonest = elim (Bool-cases (is_empty data'.uan)) [
      | inl e ↦ rw (e, run_uan_check) (refuse-IsHonest _ r)
      | inr e ↦ rw (e, run_uan_check) (start-IsHonest _ none r)
    ]

    run_education-IsHonest : (l : Letters) → IsHonest o c code (run_education o l c code data' r)
    unfolding run_education
    run_education-IsHonest l = elim (Bool-cases (is_blank data'.education)) [
      | inl e ↦ rw (e, run_education) (refuse-IsHonest _ r)
      | inr e ↦ elim (Option-cases data'.education_file) [
        | inl f ↦ rw (e, f, run_education) (refuse-IsHonest _ r)
        | inr (file, f) ↦ elim (Bool-cases (ok (education o l data'.education))) [
          | inl k ↦ rw (e, f, k, run_education) (register-IsHonest _ _ r)
          | inr k ↦ rw (e, f, k, run_education) (refuse-IsHonest _ r)
        ]
      ]
    ]

    run_employment-IsHonest : (l : Letters) → IsHonest o c code (run_employment o l c code data' r)
    unfolding run_employment
    run_employment-IsHonest l = elim (Bool-cases (is_blank data'.employment)) [
      | inl e ↦ rw (e, run_employment) (refuse-IsHonest _ r)
      | inr e ↦ elim (Bool-cases (ok (employment o l data'.employment))) [
        | inr k ↦ rw (e, k, run_employment) (refuse-IsHonest _ r)
        | inl k ↦ elim (Bool-cases (is_empty data'.employment_files)) [
          | inl f ↦ rw (e, k, f, run_employment) (refuse-IsHonest _ r)
          | inr f ↦ rw (e, k, f, run_employment) (register-IsHonest _ _ r)
        ]
      ]
    ]

    run_permanent_address-IsHonest :
        (n : ℕ) → IsHonest o c code (run_permanent_address o c code n data' r)
    unfolding run_permanent_address
    run_permanent_address-IsHonest n = elim (Bool-cases (is_blank data'.permanent_address)) [
      | inl e ↦ rw (e, run_permanent_address) (refuse-IsHonest _ r)
      | inr e ↦ elim (Bool-cases (ok (permanent_address o data'.permanent_address))) [
        | inr k ↦ rw (e, k, run_permanent_address) (refuse-IsHonest _ r)
        | inl k ↦ rw (e, k, run_permanent_address) (register-IsHonest _ _ r)
      ]
    ]

    reference_with-IsHonest :
        (l : Letters) (schema : ℕ) → IsHonest o c code (reference_with o l c code schema data' r)
    unfolding reference_with
    reference_with-IsHonest l schema = elim (Bool-cases (is_empty data'.references)) [
      | inl e ↦ rw (e, reference_with) (refuse-IsHonest _ r)
      | inr e ↦ elim (Option-cases (find ok (map (λ x. reference o l x schema) data'.references))) [
        | inl k ↦ rw (e, k, reference_with) (refuse-IsHonest _ r)
        | inr (filled, k) ↦ rw (e, k, reference_with) (start-IsHonest filled.fields none r)
      ]
    ]

    run_reference-IsHonest : (l : Letters) → IsHonest o c code (run_reference o l c code data' r)
    unfolding run_reference
    run_reference-IsHonest l = elim (Option-cases data'.prc_schema_id) [
      | inl e ↦ rw (e, run_reference) (refuse-IsHonest _ r)
      | inr (schema, e) ↦ rw (e, run_reference) (reference_with-IsHonest l schema)
    ]

if-IsHonest :
    (o : Builtins) (c : Client) (code : String) (b : Bool) (x y : Result)
    → IsHonest o c code x
    → IsHonest o c code y
    → IsHonest o c code (if b then x else y)
if-IsHonest o c code true x y h k = h
if-IsHonest o c code false x y h k = k

-- Whatever OnGrid answers, the outcome of a check, unless an identifier that is no number raised an
-- error, is of that check: not ok and with a reason, or ok and without one. It is ok only if the
-- last request was for this check and OnGrid answered it with the identifier that the outcome has.
pub run_check-IsHonest :
    (o : Builtins) (l : Letters) (c : Client) (individual_id : ℕ) (code : String)
    (document : Option File) (data' : CandidateData) (r : Run)
    → IsHonest o c code (run_check o l c individual_id code document data' r)
unfolding run_check run_self_contained
run_check-IsHonest o l c n code document data' r =
    if-IsHonest o c code _ _ _ (run_uan_check-IsHonest o c code data' r) (
      if-IsHonest o c code _ _ _ (start-IsHonest o c code [] none r) (
        if-IsHonest o c code _ _ _ (run_education-IsHonest o c code data' r l) (
          if-IsHonest o c code _ _ _ (run_employment-IsHonest o c code data' r l) (
            if-IsHonest o c code _ _ _ (run_permanent_address-IsHonest o c code data' r n) (
              if-IsHonest o c code _ _ _ (run_reference-IsHonest o c code data' r l) (
                if-IsHonest o c code _ _ _ (run_document_check-IsHonest o c code document r)
                  (refuse-IsHonest o c code _ r)))))))
