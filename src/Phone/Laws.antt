-- ===== src/Phone/Laws.antt =====
-- What a normalised number looks like, and that it is its own.
use mathlib.Core.Path.{subst}
use circle_core.Prelude.{
  ℕ, ◌+◌, ◌-◌, ◌<◌, ◌≤◌, ◌≡◌, refl, Bool, true, false, some, [], ◌∷◌, ◌++◌, length, keep_if, all,
  arith, Bool-cases, inl, inr,
}
use circle_core.Text.{Text, DigitTable, is_digit, starts_with}
use circle_core.Phone.{country_code, national_part, is_mobile, normalize_indian_mobile}

-- An Indian mobile number: +91, a first digit of 6 to 9, and nine more characters that count as
-- digits.
pub record IsMobileNumber (dt : DigitTable) (t : Text) : Type 0 where
  pub first : ℕ
  pub rest : Text
  pub shape : t ≡ b'+' ∷ b'9' ∷ b'1' ∷ first ∷ rest
  pub from_six : 54 ≤ first
  pub to_nine : first ≤ 57
  pub nine_more : length rest ≡ 9
  pub digits : all (is_digit dt) rest ≡ true

-- An accepted number and its national part, which the check has let through.
record Accepted (dt : DigitTable) (t : Text) : Type 0 where
  national : Text
  spelt : t ≡ b'+' ∷ (country_code ++ national)
  mobile : is_mobile dt national ≡ true

is_mobile-IsMobileNumber :
    (dt : DigitTable) (n : Text)
    → is_mobile dt n ≡ true
    → IsMobileNumber dt (b'+' ∷ (country_code ++ n))
unfolding is_mobile
is_mobile-IsMobileNumber dt [] h = ground (arith)
is_mobile-IsMobileNumber dt (c ∷ s) h = record {
  first = c;
  rest = s;
  shape = refl;
  from_six = ground (arith);
  to_nine = ground (arith);
  nine_more = ground (arith);
  digits = ground (arith);
}

keep_if-all : (p : ℕ → Bool) (s : Text) → all p s ≡ true → keep_if p s ≡ s
keep_if-all p [] h = refl
keep_if-all p (c ∷ s) h = ground (arith, keep_if-all p s)

normalize-Accepted :
    (dt : DigitTable) (raw t : Text) → normalize_indian_mobile dt raw ≡ some t → Accepted dt t
unfolding normalize_indian_mobile
normalize-Accepted dt raw t h =
    elim (Bool-cases (is_mobile dt (national_part (keep_if (is_digit dt) raw)))) [
      | inl e ↦ record {
        national = national_part (keep_if (is_digit dt) raw);
        spelt = ground (arith);
        mobile = e;
      }
      | inr e ↦ ground (arith)
    ]

is_digit_ascii : (dt : DigitTable) (d : ℕ) → d < 10 → is_digit dt (48 + d) ≡ true
is_digit_ascii dt d h = ground (arith, dt.ascii d h)

first_digit : (dt : DigitTable) (c : ℕ) → (48 ≤ c) × (c < 58) → is_digit dt c ≡ true
first_digit dt c h =
    subst (λ d. is_digit dt d ≡ true) (omega (arith, h))
      (is_digit_ascii dt (c - 48) (omega (arith, h)))

is_mobile-digits :
    (dt : DigitTable) (n : Text)
    → is_mobile dt n ≡ true
    → (length n ≡ 10) × (all (is_digit dt) n ≡ true)
unfolding is_mobile
is_mobile-digits dt [] h = ground (arith)
is_mobile-digits dt (c ∷ s) h = (ground (arith), ground (arith, first_digit dt c (ground arith)))

digits_with_prefix :
    (dt : DigitTable) (n : Text)
    → is_digit dt b'+' ≡ false
    → all (is_digit dt) n ≡ true
    → keep_if (is_digit dt) (b'+' ∷ (country_code ++ n)) ≡ country_code ++ n
digits_with_prefix dt n plus h = ground (
  arith,
  keep_if-all (is_digit dt) n,
  is_digit_ascii dt 9 (omega arith),
  is_digit_ascii dt 1 (omega arith),
)

national_with_prefix : (n : Text) → length n ≡ 10 → national_part (country_code ++ n) ≡ n
unfolding national_part starts_with
national_with_prefix n h = ground (arith)

normalize_again :
    (dt : DigitTable) (n : Text)
    → is_digit dt b'+' ≡ false
    → is_mobile dt n ≡ true
    → normalize_indian_mobile dt (b'+' ∷ (country_code ++ n)) ≡ some (b'+' ∷ (country_code ++ n))
unfolding normalize_indian_mobile
normalize_again dt n plus h =
    let d = is_mobile-digits dt n h in
    rw (digits_with_prefix dt n plus d.1, national_with_prefix n d.0, h) refl

-- A number that is accepted comes out as +91 and ten characters more, of which the first is one of
-- the digits 6 to 9 and the others count as digits, be they of ASCII or not. It is accepted again, and
-- then stays as it is, if `+` does not count as a digit.
pub normalize_indian_mobile-IsMobileNumber :
    (dt : DigitTable) (raw t : Text)
    → is_digit dt b'+' ≡ false
    → normalize_indian_mobile dt raw ≡ some t
    → IsMobileNumber dt t × (normalize_indian_mobile dt t ≡ some t)
normalize_indian_mobile-IsMobileNumber dt raw t plus h =
    let e = normalize-Accepted dt raw t h in
    (
      rw e.spelt (is_mobile-IsMobileNumber dt e.national e.mobile),
      rw e.spelt (normalize_again dt e.national plus e.mobile),
    )
