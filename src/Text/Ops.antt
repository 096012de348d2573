-- ===== src/Text/Ops.antt =====
-- More of Python's `str`: substrings, lines, words, joining.
use circle_core.Prelude.{ℕ, Bool, ◌&&◌, ◌||◌, List, [], ◌∷◌, ◌++◌, leb, ◌==◌, if◌then◌else◌}
use circle_core.Text.{Text, starts_with, is_empty, strip, text_eq}

-- `part in s`
unfoldable pub contains : Text → Text → Bool
contains part [] = is_empty part
contains part (c ∷ s) = starts_with (c ∷ s) part || contains part s

-- `s.endswith(suffix)`
unfoldable pub ends_with : Text → Text → Bool
ends_with [] suffix = is_empty suffix
ends_with (c ∷ s) suffix = text_eq (c ∷ s) suffix || ends_with s suffix

-- The characters at which `str.splitlines` ends a line.
unfoldable pub is_line_end : ℕ → Bool
is_line_end c =
    (leb 10 c && leb c 13)
    || (leb 28 c && leb c 30)
    || (c == 0x85)
    || (c == 0x2028)
    || (c == 0x2029)

-- The pieces between the characters that pass a test. For `splitlines` this has an empty piece
-- more between the two characters of "\r\n" and at the end; the caller drops empty pieces.
unfoldable pub split_at : (ℕ → Bool) → Text → List Text
split_at p [] = [] ∷ []
split_at p (c ∷ s) =
    let rest = split_at p s in
    if p c then [] ∷ rest else elim rest [ [] ↦ (c ∷ []) ∷ [] | l ∷ ls ↦ (c ∷ l) ∷ ls ]

-- Each piece stripped, the empty ones left out.
unfoldable pub strip_all : List Text → List Text
strip_all [] = []
strip_all (l ∷ ls) = let rest = strip_all ls in if is_empty (strip l) then rest else strip l ∷ rest

-- `s.partition(":")[2]`: what follows the first colon, empty if there is none.
unfoldable pub after_colon : Text → Text
after_colon [] = []
after_colon (c ∷ s) = let rest = after_colon s in if c == b':' then s else rest

-- `sep.join(parts)`
unfoldable pub join : Text → List Text → Text
join sep [] = []
join sep (p ∷ []) = p
join sep (p ∷ q ∷ ps) = p ++ (sep ++ join sep (q ∷ ps))
