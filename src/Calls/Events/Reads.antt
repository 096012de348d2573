-- ===== src/Calls/Events/Reads.antt =====
-- What the scorer reads of a result from Sarvam.
use circle_core.Prelude.{
  ap, sym, ◌∙◌, ℕ, zero, suc, ◌+◌, ◌≡◌, ◌≢◌, refl, Bool, true, false, ◌&&◌, some, String, [], ◌∷◌,
  if◌then◌else◌, leb, ltb, str_eq, eq_iff, arith, Bool-cases, inl, inr,
}
use circle_core.Text.{Text, codes}
use circle_core.Text.Decimal.{decimal_then, decimal_then_injective}
use circle_core.Value.{
  Value, null, boolean, object, Fields, closed, field, get, get_in, object_of, text_of, is_true,
}
use circle_core.Screening.Results.{Entry, blank}
use circle_core.Calls.{Outside}
use circle_core.Calls.Sarvam.{
  clean, answer_key, answer_name, evidence_name, followup_name, sarvam_entry, entries_from,
  to_structured_data, call_outcome, is_declined, max_questions,
}
use circle_core.Calls.Events.{entry_of, structured_of}

after_first : String → String
after_first String.[] = ""
after_first (String.◌∷◌ c s) = s

answer_key_injective : (i j : ℕ) → answer_key i ≡ answer_key j → i ≡ j
unfolding answer_key after_first
answer_key_injective i j h =
    omega (arith, decimal_then_injective (i + 1) (j + 1) (ap after_first h))

first_code : Text → ℕ
first_code [] = 0
first_code (c ∷ s) = c

answer_key_declined : (i : ℕ) → answer_key i ≢ "declined"
unfolding answer_key first_code
answer_key_declined i h = absurd (omega (arith, ap (λ s. first_code (codes s)) h))

-- A question at place j of n that start at i.
within_places : ℕ → ℕ → ℕ → Bool
within_places i n j = leb i j && ltb j (i + n)

get-entries_from :
    (o : Outside) (v : Value) (j i n : ℕ) (rest : Fields)
    → get (answer_key j) (entries_from o v i n rest)
      ≡ (if within_places i n j then sarvam_entry o v j else get (answer_key j) rest)
unfolding get entries_from within_places
get-entries_from o v j i zero rest = ground (arith)
get-entries_from o v j i (suc n) rest =
    let later = get-entries_from o v j (i + 1) n rest in
    elim (Bool-cases (str_eq (answer_key i) (answer_key j))) [
      | inl e ↦
          let same_place : i ≡ j =
            answer_key_injective i j ((eq_iff (answer_key i) (answer_key j)).0 e) in
          ground (arith, e, same_place, ap (sarvam_entry o v) same_place)
      | inr e ↦
          let other_place : i ≢ j =
            λ p. ground (arith, e, ap answer_key p, eq_iff (answer_key i) (answer_key j)) in
          ground (arith, e, later, other_place)
    ]

get_declined :
    (o : Outside) (v : Value) (i n : ℕ) (rest : Fields)
    → get "declined" (entries_from o v i n rest) ≡ get "declined" rest
unfolding get entries_from
get_declined o v i zero rest = refl
get_declined o v i (suc n) rest = ground (
  arith,
  get_declined o v (i + 1) n rest,
  answer_key_declined i,
  eq_iff (answer_key i) "declined",
)

-- The entry of the question at a place, from the variables of its number, which is one more.
abbrev pub told : Outside → Fields → ℕ → Entry
told o d j = record {
  answer = some (clean o (get (String.◌∷◌ "q" (decimal_then (j + 1) "_answer")) d));
  evidence = some (clean o (get (String.◌∷◌ "q" (decimal_then (j + 1) "_evidence")) d));
  follow_up_strength = some (clean o (get (String.◌∷◌ "q" (decimal_then (j + 1) "_followup")) d));
}

entry_of-sarvam_entry :
    (o : Outside) (d : Fields) (j : ℕ) → entry_of (sarvam_entry o (object d) j) ≡ told o d j
unfolding entry_of sarvam_entry answer_name evidence_name followup_name get_in get object_of text_of
entry_of-sarvam_entry o d j = refl

entry_of-null : entry_of null ≡ blank
unfolding entry_of get_in get object_of text_of
entry_of-null = refl

abbrev asked : ℕ → ℕ
asked n = if leb n max_questions then n else max_questions

asked_places : (n j : ℕ) → within_places 0 (asked n) j ≡ ltb j n && ltb j max_questions
unfolding within_places
asked_places n j = ground (arith)

entry_or_blank :
    (o : Outside) (d : Fields) (j : ℕ) (b : Bool)
    → entry_of (if b then sarvam_entry o (object d) j else null) ≡ (if b then told o d j else blank)
entry_or_blank o d j true = entry_of-sarvam_entry o d j
entry_or_blank o d j false = entry_of-null

-- A key of a question is not that of the refusal.
no_other_key : (j : ℕ) (v : Value) → get (answer_key j) (field "declined" v closed) ≡ null
unfolding get
no_other_key j v =
    let other : "declined" ≢ answer_key j = λ p. answer_key_declined j (sym p) in
    ground (arith, other, eq_iff "declined" (answer_key j))

-- What the scorer reads of the variables of a result from Sarvam, for a call about n questions: for
-- each of the first ten of these the variables q1_answer, q1_evidence and q1_followup with its own
-- number in place of 1, for any other place nothing, and a refusal exactly if the outcome is one.
pub structured_of-to_structured_data :
    (o : Outside) (d : Fields) (n j : ℕ)
    → ((structured_of o (to_structured_data o (object d) n)).entry j
        ≡ (if ltb j n && ltb j max_questions then told o d j else blank))
      × ((structured_of o (to_structured_data o (object d) n)).declined
          ≡ is_declined (call_outcome o (object d)))
unfolding structured_of to_structured_data object_of get_in is_true
structured_of-to_structured_data o d n j =
    let final = field "declined" (boolean (is_declined (call_outcome o (object d)))) closed in
    (
      ap entry_of (get-entries_from o (object d) j 0 (asked n) final)
          ∙ rw
              (asked_places n j, no_other_key j (boolean (is_declined (call_outcome o (object d)))))
              (entry_or_blank o d j (ltb j n && ltb j max_questions)),
      ap is_true (get_declined o (object d) 0 (asked n) final) ∙ unfold get in refl,
    )
