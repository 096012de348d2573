-- ===== src/Outbox/Retry.antt =====
-- The back-off of a failing delivery.
use circle_core.Prelude.{
  ℕ, ◌*◌, ◌^◌, ◌≤◌, ◌≡◌, refl, true, arith, ltb, ◌==◌, ==_iff, if◌then◌else◌, all_below,
  all_below_sound, Bool-cases, inl, inr, ◌∙◌,
}
use circle_core.Outbox.{retry_delay_seconds, smaller}

doubling : ℕ → ℕ
doubling n = if ltb n 7 then 30 * 2 ^ n else 3600

delay_table : all_below 17 (λ n. retry_delay_seconds n == doubling n) ≡ true
unfolding all_below retry_delay_seconds doubling
delay_table = refl

-- Past sixteen attempts the delay is that of the sixteenth.
delay_capped : (n : ℕ) → 16 ≤ n → retry_delay_seconds n ≡ retry_delay_seconds 16
unfolding retry_delay_seconds smaller
delay_capped n h = elim (Bool-cases (ltb 16 n)) [
  | inl e ↦ rw e
  | inr e ↦ let same : n ≡ 16 = ground arith in rw same
]

retry_delay-doubling : (n : ℕ) → retry_delay_seconds n ≡ doubling n
retry_delay-doubling n = elim (Bool-cases (ltb n 17)) [
  | inl e ↦ (==_iff _ _).0 (all_below_sound 17 _ n delay_table (ground arith))
  | inr e ↦
      let capped = delay_capped n (ground arith) in
      let last = (==_iff _ _).0 (all_below_sound 17 _ 16 delay_table (omega arith)) in
      capped ∙ (last ∙ (unfold doubling in ground arith))
]

-- After n attempts the delay is 30 * 2 ^ n seconds for the first seven values of n, and an hour
-- from then on.
pub retry_delay_seconds_lem :
    (n : ℕ) → retry_delay_seconds n ≡ (if ltb n 7 then 30 * 2 ^ n else 3600)
unfolding doubling
retry_delay_seconds_lem n = retry_delay-doubling n
