-- ===== src/Audio.antt =====
-- voice_bridge/bridge/audio.py: sample data out of interleaved PCM and out of a WAV file. A byte is a
-- number below 256; a channel is not negative.
pub mod Frames
pub mod Wav
mod Examples
use circle_core.Prelude.{
  ℕ, zero, suc, ◌+◌, ◌-◌, ◌*◌, ◌%◌, Bool, true, false, ◌&&◌, ◌||◌, not, Option, none, some, List,
  [], ◌∷◌, ◌++◌, if◌then◌else◌, leb, ltb, ◌==◌, length, take, drop,
}
use circle_core.Text.{codes, text_eq}

abbrev pub Bytes : Type 0
Bytes = List ℕ

-- A sample of 16 bits: its two bytes, in the order in which they stand.
pub record Sample : Type 0 where
  pub low : ℕ
  pub high : ℕ

-- `array("h", ...)` of a whole number of samples, and `tobytes`; where the machine is big-endian the
-- two swaps of the source cancel.
unfoldable pub samples : Bytes → List Sample
samples [] = []
samples (b ∷ []) = []
samples (b ∷ c ∷ pcm) = record { low = b; high = c } ∷ samples pcm

unfoldable pub to_bytes : List Sample → Bytes
to_bytes [] = []
to_bytes (s ∷ ss) = s.low ∷ s.high ∷ to_bytes ss

-- `samples[channel::channels]`: after `skip` samples every `step`-th.
unfoldable pub every {ℓ} : {A : Type ℓ} → ℕ → ℕ → List A → List A
every skip step [] = []
every zero step (x ∷ xs) = x ∷ every (step - 1) step xs
every (suc skip) step (x ∷ xs) = every skip step xs

abbrev pub sample_width_bytes : ℕ
sample_width_bytes = 2

unfoldable pub channel_from_interleaved : Bytes → ℕ → ℕ → Option Bytes
unfolding samples to_bytes every
channel_from_interleaved pcm channel channels =
    let frame = sample_width_bytes * channels in
    if ltb channel channels
    then some
        (to_bytes (every channel channels (samples (take (length pcm - length pcm % frame) pcm))))
    else none

-- What `pcm_from_wav` gives or raises: `AudioFormatError` with its reason, and the error of
-- `struct.unpack` for a format chunk that is cut short.
pub data WavResult : Type 0 where
  sample_data : Bytes → WavResult
  not_wav : WavResult
  wrong_format : WavResult
  no_data : WavResult
  struct_error : WavResult
  unfinished : WavResult

-- `wav[i:j]`
unfoldable pub slice : ℕ → ℕ → Bytes → Bytes
slice i j wav = take (j - i) (drop i wav)

-- `struct.unpack` of one little-endian number.
unfoldable pub little_endian : Bytes → ℕ
little_endian [] = 0
little_endian (b ∷ bs) = b + 256 * little_endian bs

unfoldable pub rate_fits : Option ℕ → ℕ → Bool
rate_fits none rate = true
rate_fits (some expected) rate = rate == expected

-- The fields of a format chunk of 16 bytes.
unfoldable pub format_fits : Option ℕ → Bytes → Bool
unfolding slice little_endian rate_fits
format_fits expected chunk =
    (little_endian (slice 0 2 chunk) == 1)
    && ((little_endian (slice 2 4 chunk) == 1)
        && ((little_endian (slice 14 16 chunk) == sample_width_bytes * 8)
            && rate_fits expected (little_endian (slice 4 8 chunk))))

-- `min(a, b)`
unfoldable pub smaller_of : ℕ → ℕ → ℕ
smaller_of a b = if leb a b then a else b

-- The loop over the chunks; `unfinished` means that the fuel ran out.
unfoldable pub chunks : ℕ → Option ℕ → Bytes → ℕ → Bool → WavResult
unfolding slice little_endian format_fits smaller_of
chunks zero expected wav offset format_ok = unfinished
chunks (suc fuel) expected wav offset format_ok =
    let chunk_id = slice offset (offset + 4) wav in
    let size = little_endian (slice (offset + 4) (offset + 8) wav) in
    let body = offset + 8 in
    let next = body + size + size % 2 in
    let fmt = slice body (body + 16) wav in
    let after_fmt = chunks fuel expected wav next (format_fits expected fmt) in
    let after_other = chunks fuel expected wav next format_ok in
    if not (leb (offset + 8) (length wav))
    then no_data
    else if text_eq chunk_id (codes "fmt ")
    then (if length fmt == 16 then after_fmt else struct_error)
    else if text_eq chunk_id (codes "data")
    then (if format_ok
        then sample_data (slice body (smaller_of (body + size) (length wav)) wav)
        else wrong_format)
    else after_other

unfoldable pub pcm_from_wav : Bytes → Option ℕ → WavResult
unfolding chunks slice
pcm_from_wav wav expected =
    if ltb (length wav) 12
      || (not (text_eq (slice 0 4 wav) (codes "RIFF"))
          || not (text_eq (slice 8 12 wav) (codes "WAVE")))
    then not_wav
    else chunks (length wav) expected wav 12 false
