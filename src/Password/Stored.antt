-- ===== src/Password/Stored.antt =====
-- A stored password taken apart again.
use circle_core.Prelude.{
  ℕ, suc, ◌≡◌, refl, ◌∙◌, ap, true, some, List, [], ◌∷◌, ◌++◌, ◌==◌, all, not, arith,
}
use circle_core.Text.{Text, codes, text_eq, starts_with}
use circle_core.Password.{
  Crypto, iterations, hash_password, looks_hashed, split_most, matches, verify_parts,
  verify_password,
}

-- What the library says of base 64, and of `int`: decoding undoes encoding, no code has a `$`, and
-- the digits of the number of rounds read as that number.
pub record IsCodec (c : Crypto) : Type 0 where
  pub decodes : (bytes : List ℕ) → c.b64d (c.b64e bytes) ≡ some bytes
  pub no_dollar : (bytes : List ℕ) → all (λ x. not (x == b'$')) (c.b64e bytes) ≡ true
  pub reads_rounds : c.rounds (codes "240000") ≡ some iterations

split_most-append :
    (n sep : ℕ) (part rest : Text)
    → all (λ x. not (x == sep)) part ≡ true
    → split_most (suc n) sep (part ++ (sep ∷ rest)) ≡ part ∷ split_most n sep rest
unfolding split_most
split_most-append n sep [] rest h = ground arith
split_most-append n sep (x ∷ part) rest h = ground (arith, h, split_most-append n sep part rest)

hash_password-split :
    (c : Crypto) (w : IsCodec c) (salt : List ℕ) (p : Text)
    → split_most 3 b'$' (hash_password c salt p) ≡ (
        codes "pbkdf2_sha256"
        ∷ codes "240000"
        ∷ c.b64e salt
        ∷ c.b64e (c.pbkdf2 p salt iterations)
        ∷ [])
unfolding hash_password
hash_password-split c w salt p =
    let hash = c.b64e (c.pbkdf2 p salt iterations) in
    let tail = c.b64e salt ++ (b'$' ∷ hash) in
    let end : split_most 1 b'$' tail ≡ (c.b64e salt ∷ hash ∷ []) =
      split_most-append 0 b'$' (c.b64e salt) hash (w.no_dollar salt)
      ∙ (unfold split_most in refl) in
    split_most-append 2 b'$' (codes "pbkdf2_sha256") (codes "240000" ++ (b'$' ∷ tail)) refl
    ∙ ap (◌∷◌ (codes "pbkdf2_sha256"))
        (split_most-append 1 b'$' (codes "240000") tail refl ∙ ap (◌∷◌ (codes "240000")) end)

matches_own :
    (c : Crypto) (w : IsCodec c) (salt : List ℕ) (p q : Text)
    → matches c q (codes "240000") (c.b64e salt) (c.b64e (c.pbkdf2 p salt iterations))
      ≡ text_eq (c.pbkdf2 q salt iterations) (c.pbkdf2 p salt iterations)
unfolding matches
matches_own c w salt p q =
    rw (w.decodes (c.pbkdf2 p salt iterations), matches)
      (rw (w.decodes salt) (rw w.reads_rounds refl))

-- A stored password fits a text exactly if the two give one hash under the stored salt, so above all
-- it fits the text it was made from.
pub verify_password-hash_password :
    (c : Crypto) (w : IsCodec c) (salt : List ℕ) (p q : Text)
    → verify_password c q (hash_password c salt p)
      ≡ text_eq (c.pbkdf2 q salt iterations) (c.pbkdf2 p salt iterations)
unfolding verify_password verify_parts
verify_password-hash_password c w salt p q =
    let hashed : looks_hashed (hash_password c salt p) ≡ true =
      unfold looks_hashed hash_password starts_with in refl in
    rw (hashed, hash_password-split c w salt p) (matches_own c w salt p q)

pub hash_password-looks_hashed :
    (c : Crypto) (salt : List ℕ) (p : Text) → looks_hashed (hash_password c salt p) ≡ true
unfolding looks_hashed hash_password starts_with
hash_password-looks_hashed c salt p = refl
