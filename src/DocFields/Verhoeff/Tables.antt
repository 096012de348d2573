-- ===== src/DocFields/Verhoeff/Tables.antt =====
-- What the two tables are good for, checked at every entry.
use circle_core.Prelude.{
  ℕ, ◌+◌, ◌%◌, ◌<◌, ◌≡◌, ◌≢◌, refl, Bool, true, ltb→lt, not, ◌||◌, arith, ◌==◌, ltb, all_below,
  all_below_sound,
}
use circle_core.DocFields.Verhoeff.{step}

differs : ℕ → ℕ → ℕ → ℕ → Bool
differs a b x y = (a == b) || not (x == y)

differs→ne : (a b x y : ℕ) → differs a b x y ≡ true → a ≢ b → x ≢ y
unfolding differs
differs→ne a b x y h n = ground arith

step_table : all_below 8 (λ i. all_below 10 (λ c. all_below 10 (λ x. ltb (step i c x) 10))) ≡ true
unfolding all_below step
step_table = refl

digit_table :
    all_below 8 (λ i.
      all_below 10
        (λ c. all_below 10 (λ x. all_below 10 (λ y. differs x y (step i c x) (step i c y)))))
    ≡ true
unfolding all_below step differs
digit_table = refl

checksum_table :
    all_below 8 (λ i.
      all_below 10
        (λ x. all_below 10 (λ c. all_below 10 (λ d. differs c d (step i c x) (step i d x)))))
    ≡ true
unfolding all_below step differs
checksum_table = refl

swap_table :
    all_below 8 (λ i. all_below 10 (λ c. all_below 10 (λ x.
      all_below 10 (λ y. differs x y (step (i + 1) (step i c x) y) (step (i + 1) (step i c y) x)))))
    ≡ true
unfolding all_below step differs
swap_table = refl

step-mod : (p c x : ℕ) → step (p % 8) c x ≡ step p c x
unfolding step
step-mod p c x = let e : (p % 8) % 8 ≡ p % 8 = omega arith in rw e

step-mod_suc : (p c x : ℕ) → step (p % 8 + 1) c x ≡ step (p + 1) c x
unfolding step
step-mod_suc p c x = let e : (p % 8 + 1) % 8 ≡ (p + 1) % 8 = omega arith in rw e

mod_lt : (p : ℕ) → p % 8 < 8
mod_lt p = omega arith

-- The checksum stays a digit.
pub step_lt : (p c x : ℕ) → c < 10 → x < 10 → step p c x < 10
step_lt p c x hc hx = rw (← step-mod) (
    ltb→lt _ _ (
      all_below_sound 10 _ x
        (all_below_sound 10 _ c (all_below_sound 8 _ (p % 8) step_table (mod_lt p)) hc) hx))

module _ (i : ℕ) (hi : i < 8) where
  below_ne_digit : (c x y : ℕ) → c < 10 → x < 10 → y < 10 → x ≢ y → step i c x ≢ step i c y
  below_ne_digit c x y hc hx hy = differs→ne x y _ _ (
      all_below_sound 10 _ y
        (all_below_sound 10 _ x (all_below_sound 10 _ c (all_below_sound 8 _ i digit_table hi) hc)
          hx)
        hy)

  below_ne_checksum : (c d x : ℕ) → c < 10 → d < 10 → x < 10 → c ≢ d → step i c x ≢ step i d x
  below_ne_checksum c d x hc hd hx = differs→ne c d _ _ (
      all_below_sound 10 _ d
        (all_below_sound 10 _ c
          (all_below_sound 10 _ x (all_below_sound 8 _ i checksum_table hi) hx) hc)
        hd)

  below_ne_swap :
      (c x y : ℕ)
      → c < 10
      → x < 10
      → y < 10
      → x ≢ y
      → step (i + 1) (step i c x) y ≢ step (i + 1) (step i c y) x
  below_ne_swap c x y hc hx hy = differs→ne x y _ _ (
      all_below_sound 10 _ y
        (all_below_sound 10 _ x (all_below_sound 10 _ c (all_below_sound 8 _ i swap_table hi) hc)
          hx)
        hy)

-- A round tells digits apart,
pub step-ne_digit : (p c x y : ℕ) → c < 10 → x < 10 → y < 10 → x ≢ y → step p c x ≢ step p c y
step-ne_digit p c x y hc hx hy n =
    rw (← step-mod p c x, ← step-mod p c y) (below_ne_digit (p % 8) (mod_lt p) c x y hc hx hy n)

-- checksums apart,
pub step-ne_checksum : (p c d x : ℕ) → c < 10 → d < 10 → x < 10 → c ≢ d → step p c x ≢ step p d x
step-ne_checksum p c d x hc hd hx n =
    rw (← step-mod p c x, ← step-mod p d x) (below_ne_checksum (p % 8) (mod_lt p) c d x hc hd hx n)

-- and two rounds tell apart the two orders of two digits.
pub step-ne_swap :
    (p c x y : ℕ)
    → c < 10
    → x < 10
    → y < 10
    → x ≢ y
    → step (p + 1) (step p c x) y ≢ step (p + 1) (step p c y) x
step-ne_swap p c x y hc hx hy n =
    rw
      (
        ← step-mod_suc p (step p c x) y,
        ← step-mod_suc p (step p c y) x,
        ← step-mod p c x,
        ← step-mod p c y,
      )
      (below_ne_swap (p % 8) (mod_lt p) c x y hc hx hy n)
