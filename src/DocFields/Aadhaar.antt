-- ===== src/DocFields/Aadhaar.antt =====
-- The Aadhaar number: what the checksum refuses, what the mask hides, which candidate is taken.
use mathlib.Core.List.{reverse, reverse-append, map-append, append_assoc}
use circle_core.Prelude.{
  ℕ, ◌<◌, ◌≡◌, ◌≢◌, refl, sym, ap, ◌∙◌, Bool, true, false, some, List, [], ◌∷◌, ◌++◌, map, arith,
  length, drop, keep_if, Option-cases, inl, inr, any, find, Bool-cases, replicate, Option, none,
  some,
}
use circle_core.Text.{Text, DigitTable, is_digit, digits_of, digit_value}
use circle_core.DocFields.Verhoeff.{checksum_from}
use circle_core.DocFields.Verhoeff.Detects.{
  Digits, checksum_from-ne_substituted, checksum_from-ne_swapped,
}
use circle_core.DocFields.{
  is_valid_aadhaar, mask_aadhaar, choose_candidate, first_candidate, aadhaar_candidates,
  find_aadhaar_candidate,
}

keep_if-append {ℓ} :
    {A : Type ℓ} (p : A → Bool) (xs ys : List A)
    → keep_if p (xs ++ ys) ≡ keep_if p xs ++ keep_if p ys
keep_if-append p [] ys = refl
keep_if-append p (x ∷ xs) ys = ground (arith, keep_if-append p xs ys)

-- The value of an option, or a default.
abbrev pub or_else : Option Text → Text → Text
or_else none d = d
or_else (some x) d = x

module _ (t : DigitTable) where
  values : Text → List ℕ
  values s = map (digit_value t) (reverse s)

  digit_value_lt : (c : ℕ) → digit_value t c < 10
  digit_value_lt c = elim (Option-cases (t.value c)) [
    | inl e ↦ rw (e, digit_value) (omega arith)
    | inr (v, e) ↦ rw (e, digit_value) (t.value_lt c v e)
  ]

  values-Digits : (s : Text) → Digits (map (digit_value t) s)
  values-Digits [] = tt
  values-Digits (c ∷ s) = (digit_value_lt c, values-Digits s)

  checksum_of_valid :
      (n : Text) → is_valid_aadhaar t n ≡ true → checksum_from 0 0 (values (digits_of t n)) ≡ 0
  unfolding is_valid_aadhaar values
  checksum_of_valid n h = ground arith

  invalid_of_checksum :
      (n : Text) → checksum_from 0 0 (values (digits_of t n)) ≢ 0 → is_valid_aadhaar t n ≡ false
  unfolding is_valid_aadhaar values
  invalid_of_checksum n h = ground arith

  values-append : (xs ys : Text) → values (xs ++ ys) ≡ values ys ++ values xs
  unfolding values
  values-append xs ys = simp (reverse-append, map-append)

  digits_of-cons :
      (c v : ℕ) (s : Text) → t.value c ≡ some v → digits_of t (c ∷ s) ≡ c ∷ digits_of t s
  digits_of-cons c v s e = ground arith

  digit_value_eq : (c v : ℕ) → t.value c ≡ some v → digit_value t c ≡ v
  digit_value_eq c v e = ground arith

  values-digit :
      (c v : ℕ) (s : Text)
      → t.value c ≡ some v
      → values (digits_of t (c ∷ s)) ≡ values (digits_of t s) ++ v ∷ []
  values-digit c v s e = rw (digits_of-cons c v s e) (
      values-append (c ∷ []) (digits_of t s)
      ∙ (unfold values in ap (λ x. values (digits_of t s) ++ x ∷ []) (digit_value_eq c v e)))

  values-split :
      (xs ys : Text)
      → values (digits_of t (xs ++ ys)) ≡ values (digits_of t ys) ++ values (digits_of t xs)
  values-split xs ys =
      ap values (keep_if-append (is_digit t) xs ys)
      ∙ values-append (digits_of t xs) (digits_of t ys)

  values-middle :
      (pre suf : Text) (c v : ℕ)
      → t.value c ≡ some v
      → values (digits_of t (pre ++ c ∷ suf))
        ≡ values (digits_of t suf) ++ v ∷ values (digits_of t pre)
  values-middle pre suf c v e =
      values-split pre (c ∷ suf)
      ∙ (ap (λ l. l ++ values (digits_of t pre)) (values-digit c v suf e)
          ∙ append_assoc (values (digits_of t suf)) (v ∷ []) (values (digits_of t pre)))

  values-middle_two :
      (pre suf : Text) (c d v w : ℕ)
      → t.value c ≡ some v
      → t.value d ≡ some w
      → values (digits_of t (pre ++ c ∷ d ∷ suf))
        ≡ values (digits_of t suf) ++ w ∷ v ∷ values (digits_of t pre)
  values-middle_two pre suf c d v w e f =
      values-middle pre (d ∷ suf) c v e
      ∙ (ap (λ l. l ++ v ∷ values (digits_of t pre)) (values-digit d w suf f)
          ∙ append_assoc (values (digits_of t suf)) (w ∷ []) (v ∷ values (digits_of t pre)))

  values_lt : (s : Text) → Digits (values s)
  unfolding values
  values_lt s = values-Digits (reverse s)

  module _ (pre suf : Text) (c d v w : ℕ) (hc : t.value c ≡ some v) (hd : t.value d ≡ some w)
      (n : v ≢ w) where
    -- The checksum refuses a number in which one digit of a valid number has been misread as a
    -- digit of another value, whatever else stands around it.
    pub is_valid_aadhaar_misread :
        is_valid_aadhaar t (pre ++ c ∷ suf) ≡ true → is_valid_aadhaar t (pre ++ d ∷ suf) ≡ false
    is_valid_aadhaar_misread h = invalid_of_checksum _ (λ e.
        checksum_from-ne_substituted (values (digits_of t suf)) (values (digits_of t pre))
          (values_lt _) (values_lt _) v w (t.value_lt c v hc) (t.value_lt d w hd) n
          (sym (ap (checksum_from 0 0) (values-middle pre suf c v hc))
            ∙ (checksum_of_valid _ h
                ∙ (sym e ∙ ap (checksum_from 0 0) (values-middle pre suf d w hd)))))

    -- The checksum refuses a number in which two neighbouring digits of a valid number, of
    -- different values, have changed places.
    pub is_valid_aadhaar_swapped :
        is_valid_aadhaar t (pre ++ c ∷ d ∷ suf) ≡ true
        → is_valid_aadhaar t (pre ++ d ∷ c ∷ suf) ≡ false
    is_valid_aadhaar_swapped h = invalid_of_checksum _ (λ e.
        checksum_from-ne_swapped (values (digits_of t suf)) (values (digits_of t pre)) (values_lt _)
          (values_lt _) w v (t.value_lt d w hd) (t.value_lt c v hc) (λ q. n (sym q))
          (sym (ap (checksum_from 0 0) (values-middle_two pre suf c d v w hc hd))
            ∙ (checksum_of_valid _ h
                ∙ (sym e ∙ ap (checksum_from 0 0) (values-middle_two pre suf d c w v hd hc)))))

  -- Masked numbers of twelve digits that agree on the last four are equal: the mask tells nothing
  -- of the other eight. It shows eight X and those four.
  mask_aadhaar_hides :
      (m n : Text)
      → length (digits_of t m) ≡ 12
      → length (digits_of t n) ≡ 12
      → drop 8 (digits_of t m) ≡ drop 8 (digits_of t n)
      → (mask_aadhaar t m ≡ mask_aadhaar t n)
        × (mask_aadhaar t m ≡ replicate 8 b'X' ++ drop 8 (digits_of t m))
  unfolding mask_aadhaar
  mask_aadhaar_hides m n hm hn e = (simp (hm, hn, e), simp hm)

  choose_candidate-valid :
      (fallback : Text) (cs : List Text)
      → any (is_valid_aadhaar t) cs ≡ true
      → is_valid_aadhaar t (choose_candidate t fallback cs) ≡ true
  unfolding choose_candidate
  choose_candidate-valid fallback [] h = cc
  choose_candidate-valid fallback (c ∷ cs) h = ground (arith, choose_candidate-valid fallback cs)

  choose_candidate-fallback :
      (fallback : Text) (cs : List Text)
      → any (is_valid_aadhaar t) cs ≡ false
      → choose_candidate t fallback cs ≡ fallback
  unfolding choose_candidate
  choose_candidate-fallback fallback [] h = refl
  choose_candidate-fallback fallback (c ∷ cs) h =
      ground (arith, choose_candidate-fallback fallback cs)

  first_candidate-invalid :
      (cs : List Text)
      → any (is_valid_aadhaar t) cs ≡ false
      → is_valid_aadhaar t (first_candidate cs) ≡ false
  unfolding first_candidate
  first_candidate-invalid [] h = unfold is_valid_aadhaar in refl
  first_candidate-invalid (c ∷ cs) h = ground arith

  choose_candidate-find :
      (fallback : Text) (cs : List Text)
      → choose_candidate t fallback cs ≡ or_else (find (is_valid_aadhaar t) cs) fallback
  unfolding choose_candidate
  choose_candidate-find fallback [] = refl
  choose_candidate-find fallback (c ∷ cs) = ground (arith, choose_candidate-find fallback cs)

  -- The chosen candidate passes the checksum exactly when some run of twelve digits in the text
  -- does. It is the first run of twelve digits that passes, or else the first one, or else empty.
  pub find_aadhaar_candidate_valid :
      (text : Text)
      → (is_valid_aadhaar t (find_aadhaar_candidate t text)
          ≡ any (is_valid_aadhaar t) (aadhaar_candidates t text))
        × (find_aadhaar_candidate t text
            ≡ or_else
                (find (is_valid_aadhaar t) (aadhaar_candidates t text))
                (first_candidate (aadhaar_candidates t text)))
  unfolding find_aadhaar_candidate
  find_aadhaar_candidate_valid text =
      let cs = aadhaar_candidates t text in
      let fallback = first_candidate cs in
      (
        elim (Bool-cases (any (is_valid_aadhaar t) cs)) [
          | inl some_valid ↦ choose_candidate-valid fallback cs some_valid ∙ sym some_valid
          | inr none_valid ↦
              ap (is_valid_aadhaar t) (choose_candidate-fallback fallback cs none_valid)
              ∙ (first_candidate-invalid cs none_valid ∙ sym none_valid)
        ],
        choose_candidate-find fallback cs,
      )
