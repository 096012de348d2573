-- ===== src/Audio/Frames.antt =====
-- Frames of samples, one of each channel, and one channel picked out of them.
use circle_core.Prelude.{
  ℕ, zero, suc, ◌+◌, ◌-◌, ◌*◌, ◌%◌, ◌≤◌, ◌<◌, ◌≡◌, refl, ◌∙◌, ap, some, List, [], ◌∷◌, ◌++◌, length,
  take, take-length, drop, All, arith, length-append,
}
use circle_core.Audio.{Sample, samples, to_bytes, every, channel_from_interleaved}

-- One frame after the other.
abbrev pub interleave : List (List Sample) → List Sample
interleave [] = []
interleave (f ∷ fs) = f ++ interleave fs

-- The sample of one channel in each frame.
abbrev pub column : ℕ → List (List Sample) → List Sample
column c [] = []
column c (f ∷ fs) = take 1 (drop c f) ++ column c fs

samples-to_bytes : (ss : List Sample) → samples (to_bytes ss) ≡ ss
unfolding samples to_bytes
samples-to_bytes [] = refl
samples-to_bytes (s ∷ ss) = ap (◌∷◌ s) (samples-to_bytes ss)

length-to_bytes : (ss : List Sample) → length (to_bytes ss) ≡ 2 * length ss
unfolding to_bytes
length-to_bytes [] = refl
length-to_bytes (s ∷ ss) = omega (arith, length-to_bytes ss)

-- Skipping over what is left of a frame, its sample taken or not.
every-append :
    (skip step : ℕ) (f ss : List Sample)
    → length f ≤ skip
    → every skip step (f ++ ss) ≡ every (skip - length f) step ss
unfolding every
every-append skip step [] ss h = ap (λ k. every k step ss) (omega arith)
every-append zero step (x ∷ f) ss h = absurd (omega (arith, h))
every-append (suc skip) step (x ∷ f) ss h =
    every-append skip step f ss (omega (arith, h)) ∙ ap (λ k. every k step ss) (omega arith)

every-frame :
    (c n : ℕ) (f ss : List Sample)
    → c < length f
    → length f ≤ n
    → every c n (f ++ ss) ≡ take 1 (drop c f) ++ every (c + n - length f) n ss
unfolding every
every-frame c n [] ss h k = absurd (omega (arith, h))
every-frame zero n (x ∷ f) ss h k =
    ap (◌∷◌ x)
      (every-append (n - 1) n f ss (omega (arith, k)) ∙ ap (λ i. every i n ss) (omega (arith, k)))
every-frame (suc c) n (x ∷ f) ss h k =
    every-frame c n f ss (omega (arith, h)) (omega (arith, k))
    ∙ ap (λ i. take 1 (drop c f) ++ every i n ss) (omega (arith, k))

every-interleave :
    (c n : ℕ) (fs : List (List Sample))
    → c < n
    → All (λ f. length f ≡ n) fs
    → every c n (interleave fs) ≡ column c fs
unfolding every
every-interleave c n [] h w = refl
every-interleave c n (f ∷ fs) h w =
    every-frame c n f (interleave fs) (omega (arith, h, w.0)) (omega (arith, w.0))
    ∙ ap (λ i. take 1 (drop c f) ++ every i n (interleave fs)) (omega (arith, w.0))
    ∙ ap (◌++◌ (take 1 (drop c f))) (every-interleave c n fs h w.1)

length-interleave :
    (n : ℕ) (fs : List (List Sample))
    → All (λ f. length f ≡ n) fs
    → length (interleave fs) ≡ length fs * n
length-interleave n [] w = omega arith
length-interleave n (f ∷ fs) w =
    grind (arith, length-append f (interleave fs), w.0, length-interleave n fs w.1)

whole_frames : (m n : ℕ) → 0 < n → (2 * (m * n)) % (2 * n) ≡ 0
whole_frames m n h = grind (arith, h)

-- Whatever frames are interleaved, each of one sample for each channel, the samples of a channel
-- come out again, in order.
pub channel_from_interleaved-interleave :
    (channel channels : ℕ) (fs : List (List Sample))
    → channel < channels
    → All (λ f. length f ≡ channels) fs
    → channel_from_interleaved (to_bytes (interleave fs)) channel channels
      ≡ some (to_bytes (column channel fs))
unfolding channel_from_interleaved
channel_from_interleaved-interleave c n fs h w =
    let pcm = to_bytes (interleave fs) in
    let size : length pcm ≡ 2 * (length fs * n) =
      length-to_bytes (interleave fs) ∙ ap (λ k. 2 * k) (length-interleave n fs w) in
    let whole : length pcm % (2 * n) ≡ 0 =
      ap (λ k. k % (2 * n)) size ∙ whole_frames (length fs) n (omega (arith, h)) in
    let all_of_it : take (length pcm - length pcm % (2 * n)) pcm ≡ pcm =
      ap (λ k. take (length pcm - k) pcm) whole
      ∙ ap (λ k. take k pcm) (omega arith)
      ∙ take-length pcm in
    let picked : every c n (samples (take (length pcm - length pcm % (2 * n)) pcm)) ≡ column c fs =
      ap (λ p. every c n (samples p)) all_of_it
      ∙ ap (every c n) (samples-to_bytes (interleave fs))
      ∙ every-interleave c n fs h w in
    ground (arith, h, picked)
