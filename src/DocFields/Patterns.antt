-- ===== src/DocFields/Patterns.antt =====
-- The regular expressions of app/services/doc_fields.py. Each is a fixed row of character classes
-- between word boundaries, or a literal between non-word characters, so a search is a scan.
use circle_core.Prelude.{
  ℕ, Bool, true, false, ◌&&◌, ◌||◌, not, Option, none, some, List, [], ◌∷◌, leb, ◌==◌,
  if◌then◌else◌,
}
use circle_core.Text.{Text, DigitTable, is_digit, is_empty}

-- What Python knows of characters: digits, `\w`, the case that IGNORECASE ignores, and the case
-- maps of `str`.
pub record Chars : Type 0 where
  pub digits : DigitTable
  pub word : ℕ → Bool
  pub fold : ℕ → ℕ
  pub lower : Text → Text
  pub upper : Text → Text
  pub casefold : Text → Text

abbrev pub Class : Type 0
Class = ℕ → Bool

differ : Bool → Bool → Bool
differ true b = not b
differ false b = b

word_at : Chars → Option ℕ → Bool
word_at t none = false
word_at t (some c) = t.word c

next_of : Text → Option ℕ
next_of [] = none
next_of (c ∷ s) = some c

-- A row of classes and a word boundary behind it: the characters matched.
match_row : Chars → Option ℕ → List Class → Text → Option Text
unfolding differ word_at next_of
match_row t prev [] s = if differ (word_at t prev) (word_at t (next_of s)) then some [] else none
match_row t prev (p ∷ ps) [] = none
match_row t prev (p ∷ ps) (c ∷ s) = elim (match_row t (some c) ps s) [
  | none ↦ none
  | some m ↦ if p c then some (c ∷ m) else none
]

-- The alternatives in turn.
match_rows : Chars → List (List Class) → Text → Option Text
unfolding match_row
match_rows t [] s = none
match_rows t (r ∷ rs) s = elim (match_row t none r s) [ none ↦ match_rows t rs s | some m ↦ some m ]

-- `_first`: the first match of `\b(...)\b`, empty if there is none.
search_from : Chars → List (List Class) → Option ℕ → Text → Text
unfolding match_rows
search_from t rows prev [] = []
search_from t rows prev (c ∷ s) =
    elim (if differ (word_at t prev) (t.word c) then match_rows t rows (c ∷ s) else none) [
      | none ↦ search_from t rows (some c) s
      | some m ↦ m
    ]

unfoldable pub first : Chars → List (List Class) → Text → Text
unfolding search_from
first t rows s = search_from t rows none s

abbrev between : ℕ → ℕ → Class
between lo hi c = leb lo c && leb c hi

abbrev is_char : ℕ → Class
is_char d c = c == d

module _ (t : Chars) where
  abbrev digit : Class
  digit = is_digit t.digits

  abbrev capital : Class
  capital = between b'A' b'Z'

  abbrev figure : Class
  figure = between b'0' b'9'

  -- `[A-Z]{5}[0-9]{4}[A-Z]`
  abbrev pub pan_re : List (List Class)
  pan_re =
      (capital ∷ capital ∷ capital ∷ capital ∷ capital ∷ figure ∷ figure ∷ figure ∷ figure ∷ capital
        ∷ [])
      ∷ []

  -- `[1-9]\d{5}`
  abbrev pub pincode_re : List (List Class)
  pincode_re = (between b'1' b'9' ∷ digit ∷ digit ∷ digit ∷ digit ∷ digit ∷ []) ∷ []

  abbrev slash : Class
  slash c = (c == b'/') || (c == b'-')

  -- `\d{2}[/-]\d{2}[/-]\d{4}`
  abbrev pub dob_re : List (List Class)
  dob_re = (digit ∷ digit ∷ slash ∷ digit ∷ digit ∷ slash ∷ digit ∷ digit ∷ digit ∷ digit ∷ []) ∷ []

  -- `19[5-9]\d|20[0-4]\d`
  abbrev pub year_re : List (List Class)
  year_re =
      (is_char b'1' ∷ is_char b'9' ∷ between b'5' b'9' ∷ digit ∷ [])
      ∷ (is_char b'2' ∷ is_char b'0' ∷ between b'0' b'4' ∷ digit ∷ [])
      ∷ []

  -- A literal read from the front, case ignored, and not followed by a word character.
  literal_here : Text → Text → Bool
  unfolding word_at next_of
  literal_here [] s = not (word_at t (next_of s))
  literal_here (l ∷ ls) [] = false
  literal_here (l ∷ ls) (c ∷ s) = (t.fold l == t.fold c) && literal_here ls s

  -- `(?<!\w)literal(?!\w)` with IGNORECASE: `re.search(...) is not None`.
  search_literal : Option ℕ → Text → Text → Bool
  unfolding literal_here word_at
  search_literal prev literal [] = not (word_at t prev) && literal_here literal []
  search_literal prev literal (c ∷ s) =
      (not (word_at t prev) && literal_here literal (c ∷ s)) || search_literal (some c) literal s

  unfoldable pub has_word : Text → Text → Bool
  unfolding search_literal
  has_word literal s = search_literal none literal s

-- `_NAME_TOKEN_RE.fullmatch`: `[A-Za-z][A-Za-z.'-]+`
letter : Class
letter c = between b'A' b'Z' c || between b'a' b'z' c

name_rest : Text → Bool
unfolding letter
name_rest [] = true
name_rest (c ∷ s) = (letter c || (c == b'.') || (c == 39) || (c == b'-')) && name_rest s

unfoldable pub is_name_token : Text → Bool
unfolding name_rest
is_name_token [] = false
is_name_token (c ∷ s) = letter c && (not (is_empty s) && name_rest s)
