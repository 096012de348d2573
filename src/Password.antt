-- ===== src/Password.antt =====
-- app/services/password.py: the stored form of a password, and checking one against it.
pub mod Stored
use circle_core.Prelude.{
  ℕ, zero, suc, ◌≡◌, Bool, true, false, Option, none, some, List, [], ◌∷◌, ◌++◌, if◌then◌else◌,
  ◌==◌, all, not,
}
use circle_core.Text.{Text, codes, text_eq, starts_with}

-- `hashlib.pbkdf2_hmac` for SHA-256 on the bytes of a text, `base64`, and `int` where its result can
-- be a count of rounds; `none` where they raise.
pub record Crypto : Type 0 where
  pub pbkdf2 : Text → List ℕ → ℕ → List ℕ
  pub b64e : List ℕ → Text
  pub b64d : Text → Option (List ℕ)
  pub rounds : Text → Option ℕ

abbrev pub iterations : ℕ
iterations = 240000

-- `f"{_ALGO}$"`
abbrev pub algo_mark : Text
algo_mark = codes "pbkdf2_sha256$"

-- The random salt is an argument.
unfoldable pub hash_password : Crypto → List ℕ → Text → Text
hash_password c salt plaintext =
    codes "pbkdf2_sha256$240000$"
    ++ (c.b64e salt ++ (b'$' ∷ c.b64e (c.pbkdf2 plaintext salt iterations)))

unfoldable pub looks_hashed : Text → Bool
looks_hashed stored = starts_with stored algo_mark

-- `s.split(sep, n)` for a separator of one character.
unfoldable pub split_most : ℕ → ℕ → Text → List Text
split_most zero sep s = s ∷ []
split_most (suc n) sep [] = [] ∷ []
split_most (suc n) sep (c ∷ s) =
    let rest = split_most (suc n) sep s in
    if c == sep
    then [] ∷ split_most n sep s
    else elim rest [ [] ↦ (c ∷ []) ∷ [] | l ∷ ls ↦ (c ∷ l) ∷ ls ]

-- The three fields after the name of the algorithm, compared with the password.
unfoldable pub matches : Crypto → Text → Text → Text → Text → Bool
matches c plaintext iters salt_b64 hash_b64 = elim (c.b64d hash_b64) [
  | none ↦ false
  | some expected ↦ elim (c.b64d salt_b64) [
    | none ↦ false
    | some salt ↦ elim (c.rounds iters) [
      | none ↦ false
      | some n ↦ text_eq (c.pbkdf2 plaintext salt n) expected
    ]
  ]
]

unfoldable pub verify_parts : Crypto → Text → List Text → Bool
unfolding matches
verify_parts c plaintext (algo ∷ iters ∷ salt ∷ hash ∷ []) = matches c plaintext iters salt hash
verify_parts c plaintext _ = false

unfoldable pub verify_password : Crypto → Text → Text → Bool
unfolding looks_hashed split_most verify_parts
verify_password c plaintext stored =
    if looks_hashed stored then verify_parts c plaintext (split_most 3 b'$' stored) else false
