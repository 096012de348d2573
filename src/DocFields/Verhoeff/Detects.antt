-- ===== src/DocFields/Verhoeff/Detects.antt =====
-- The checksum notices every single misread digit and every swap of neighbours.
use circle_core.Prelude.{ℕ, suc, ◌+◌, ◌<◌, ◌≡◌, ◌≢◌, List, [], ◌∷◌, ◌++◌, arith, All, length}
use circle_core.DocFields.Verhoeff.{step, checksum_from}
use circle_core.DocFields.Verhoeff.Tables.{step_lt, step-ne_digit, step-ne_checksum, step-ne_swap}

abbrev pub Digits : List ℕ → Type 0
Digits = All (λ x. x < 10)

pub checksum_from-append :
    (p c : ℕ) (xs ys : List ℕ)
    → checksum_from p c (xs ++ ys) ≡ checksum_from (p + length xs) (checksum_from p c xs) ys
unfolding checksum_from
checksum_from-append p c [] ys = let e : p + 0 ≡ p = omega arith in rw e
checksum_from-append p c (x ∷ xs) ys =
    let e : p + suc (length xs) ≡ p + 1 + length xs = omega arith in
    rw e (checksum_from-append (p + 1) (step p c x) xs ys)

pub checksum_from_lt : (p c : ℕ) (xs : List ℕ) → c < 10 → Digits xs → checksum_from p c xs < 10
unfolding checksum_from
checksum_from_lt p c [] hc h = hc
checksum_from_lt p c (x ∷ xs) hc h =
    checksum_from_lt (p + 1) (step p c x) xs (step_lt p c x hc h.0) h.1

-- Two different checksums stay different over the same digits.
checksum_from-ne :
    (p c d : ℕ) (xs : List ℕ)
    → c < 10
    → d < 10
    → Digits xs
    → c ≢ d
    → checksum_from p c xs ≢ checksum_from p d xs
unfolding checksum_from
checksum_from-ne p c d [] hc hd h n = n
checksum_from-ne p c d (x ∷ xs) hc hd h n =
    checksum_from-ne (p + 1) (step p c x) (step p d x) xs (step_lt p c x hc h.0)
      (step_lt p d x hd h.0) h.1 (step-ne_checksum p c d x hc hd h.0 n)

module _ (xs ys : List ℕ) (hx : Digits xs) (hy : Digits ys) (a b : ℕ) (ha : a < 10) (hb : b < 10)
    (n : a ≢ b) where
  pub checksum_from-ne_substituted :
      checksum_from 0 0 (xs ++ a ∷ ys) ≢ checksum_from 0 0 (xs ++ b ∷ ys)
  checksum_from-ne_substituted =
      let c = checksum_from 0 0 xs in
      let hc = checksum_from_lt 0 0 xs (omega arith) hx in
      let p = 0 + length xs in
      rw (checksum_from-append 0 0 xs (a ∷ ys), checksum_from-append 0 0 xs (b ∷ ys))
        (unfold checksum_from in
          checksum_from-ne (p + 1) (step p c a) (step p c b) ys (step_lt p c a hc ha)
            (step_lt p c b hc hb) hy (step-ne_digit p c a b hc ha hb n))

  pub checksum_from-ne_swapped :
      checksum_from 0 0 (xs ++ a ∷ b ∷ ys) ≢ checksum_from 0 0 (xs ++ b ∷ a ∷ ys)
  checksum_from-ne_swapped =
      let c = checksum_from 0 0 xs in
      let hc = checksum_from_lt 0 0 xs (omega arith) hx in
      let p = 0 + length xs in
      rw (checksum_from-append 0 0 xs (a ∷ b ∷ ys), checksum_from-append 0 0 xs (b ∷ a ∷ ys))
        (unfold checksum_from in
          checksum_from-ne (p + 1 + 1) (step (p + 1) (step p c a) b) (step (p + 1) (step p c b) a)
            ys (step_lt (p + 1) (step p c a) b (step_lt p c a hc ha) hb)
            (step_lt (p + 1) (step p c b) a (step_lt p c b hc hb) ha) hy
            (step-ne_swap p c a b hc ha hb n))
