-- ===== src/Audio/Wav.antt =====
-- A WAV file as an encoder would write it, and what comes back out of it.
use circle_core.Prelude.{
  ℕ, zero, suc, ◌+◌, ◌-◌, ◌*◌, ◌/◌, ◌%◌, ◌^◌, ◌<◌, ◌≡◌, ◌≢◌, refl, ◌∙◌, ap, Bool, true, false, not,
  Option, [], ◌∷◌, ◌++◌, leb, ltb, leb→le, ◌||◌, length, take, take-length, drop, arith, Bool-cases,
  inl, inr,
}
use circle_core.Text.{codes, text_eq}
use circle_core.Audio.{
  Bytes, sample_data, unfinished, slice, little_endian, rate_fits, format_fits, smaller_of, chunks,
  pcm_from_wav,
}

-- A number in two and in four bytes, the lowest first.
abbrev pub word16 : ℕ → Bytes
word16 n = n % 256 ∷ n / 256 ∷ []

abbrev pub word32 : ℕ → Bytes
word32 n = n % 256 ∷ n / 256 % 256 ∷ n / 65536 % 256 ∷ n / 16777216 ∷ []

-- A mono file of 16-bit PCM at a rate: the RIFF header with any size field, the format chunk and the
-- data chunk.
abbrev pub wav_file : ℕ → ℕ → Bytes → Bytes
wav_file total rate pcm =
    codes "RIFF"
    ++ (word32 total
        ++ (codes "WAVEfmt "
            ++ (word32 16
                ++ (word16 1
                    ++ (word16 1
                        ++ (word32 rate
                            ++ (word32 (2 * rate)
                                ++ (word16 2
                                    ++ (word16 16
                                        ++ (codes "data" ++ (word32 (length pcm) ++ pcm)))))))))))

little_endian-word32 : (n : ℕ) → n < 2 ^ 32 → little_endian (word32 n) ≡ n
unfolding little_endian
little_endian-word32 n h = omega (arith, h)

-- With enough fuel the loop over the chunks ends.
chunks_end :
    (fuel : ℕ) (expected : Option ℕ) (wav : Bytes) (offset : ℕ) (format_ok : Bool)
    → length wav - offset < fuel
    → chunks fuel expected wav offset format_ok ≢ unfinished
unfolding chunks
chunks_end zero expected wav offset format_ok h = absurd (omega (arith, h))
chunks_end (suc fuel) expected wav offset format_ok h =
    let size = little_endian (slice (offset + 4) (offset + 8) wav) in
    let next = offset + 8 + size + size % 2 in
    elim (Bool-cases (leb (offset + 8) (length wav))) [
      | inr e ↦ ground (arith, e)
      | inl e ↦
          let shorter : length wav - next < fuel = omega (arith, h, leb→le _ _ e) in
          ground (
            arith,
            e,
            chunks_end fuel expected wav next
                (format_fits expected (slice (offset + 8) (offset + 24) wav)) shorter,
            chunks_end fuel expected wav next format_ok shorter,
          )
    ]

-- Whatever bytes come in, the loop over the chunks of a WAV file ends: there is data, or an error.
pub pcm_from_wav-ne-unfinished :
    (wav : Bytes) (expected : Option ℕ) → pcm_from_wav wav expected ≢ unfinished
unfolding pcm_from_wav
pcm_from_wav-ne-unfinished wav expected =
    elim (Bool-cases (
      ltb (length wav) 12
      || (not (text_eq (slice 0 4 wav) (codes "RIFF"))
          || not (text_eq (slice 8 12 wav) (codes "WAVE"))))) [
            | inl e ↦ ground (arith, e)
            | inr e ↦
                let shorter : length wav - 12 < length wav = ground (arith, e) in
                ground (arith, e, chunks_end (length wav) expected wav 12 false shorter)
          ]

-- The step of the loop over a format chunk, and over the data chunk.
chunks_fmt :
    (fuel : ℕ) (expected : Option ℕ) (wav : Bytes) (offset : ℕ) (format_ok : Bool)
    → leb (offset + 8) (length wav) ≡ true
    → text_eq (slice offset (offset + 4) wav) (codes "fmt ") ≡ true
    → length (slice (offset + 8) (offset + 8 + 16) wav) ≡ 16
    → chunks (suc fuel) expected wav offset format_ok
      ≡ chunks fuel expected wav
          (offset
            + 8
            + little_endian (slice (offset + 4) (offset + 8) wav)
            + little_endian (slice (offset + 4) (offset + 8) wav) % 2)
          (format_fits expected (slice (offset + 8) (offset + 8 + 16) wav))
unfolding chunks
chunks_fmt fuel expected wav offset format_ok long id size = rw (long, id, size) refl

chunks_data :
    (fuel : ℕ) (expected : Option ℕ) (wav : Bytes) (offset : ℕ)
    → leb (offset + 8) (length wav) ≡ true
    → text_eq (slice offset (offset + 4) wav) (codes "fmt ") ≡ false
    → text_eq (slice offset (offset + 4) wav) (codes "data") ≡ true
    → chunks (suc fuel) expected wav offset true
      ≡ sample_data (
          slice
            (offset + 8)
            (smaller_of
              (offset + 8 + little_endian (slice (offset + 4) (offset + 8) wav))
              (length wav))
            wav)
unfolding chunks
chunks_data fuel expected wav offset long no_fmt id = rw (long, no_fmt, id) refl

fields_fit :
    (total rate : ℕ) (pcm : Bytes) (expected : Option ℕ)
    → rate < 2 ^ 32
    → rate_fits expected rate ≡ true
    → format_fits expected (slice 20 36 (wav_file total rate pcm)) ≡ true
unfolding format_fits slice little_endian
fields_fit total rate pcm expected fits h =
    ap (rate_fits expected) (little_endian-word32 rate fits) ∙ h

all_of_it :
    (total rate : ℕ) (pcm : Bytes)
    → smaller_of (44 + length pcm) (length (wav_file total rate pcm)) - 44 ≡ length pcm
unfolding smaller_of
all_of_it total rate pcm = ground arith

whole_data :
    (total rate : ℕ) (pcm : Bytes)
    → length pcm < 2 ^ 32
    → slice 44
        (smaller_of (44 + little_endian (word32 (length pcm))) (length (wav_file total rate pcm)))
        (wav_file total rate pcm)
      ≡ pcm
unfolding slice
whole_data total rate pcm small =
    let wav = wav_file total rate pcm in
    ap (λ n. take (smaller_of (44 + n) (length wav) - 44) pcm)
      (little_endian-word32 (length pcm) small)
    ∙ ap (λ n. take n pcm) (all_of_it total rate pcm)
    ∙ take-length pcm

after_header :
    (total rate : ℕ) (pcm : Bytes) (expected : Option ℕ)
    → pcm_from_wav (wav_file total rate pcm) expected
      ≡ chunks (length (wav_file total rate pcm)) expected (wav_file total rate pcm) 12 false
unfolding pcm_from_wav slice text_eq
after_header total rate pcm expected =
    let short : ltb (length (wav_file total rate pcm)) 12 ≡ false = ground arith in rw short refl

-- The data of a mono file of 16-bit PCM comes back whole if it is shorter than 4 GB and the rate is
-- the expected one, or none is expected, and fits its field.
pub pcm_from_wav-wav_file :
    (total rate : ℕ) (pcm : Bytes) (expected : Option ℕ)
    → length pcm < 2 ^ 32
    → rate < 2 ^ 32
    → rate_fits expected rate ≡ true
    → pcm_from_wav (wav_file total rate pcm) expected ≡ sample_data pcm
unfolding slice little_endian text_eq
pcm_from_wav-wav_file total rate pcm expected small fits h =
    let wav = wav_file total rate pcm in
    after_header total rate pcm expected
    ∙ chunks_fmt (length (drop 1 wav)) expected wav 12 false (ground arith) refl refl
    ∙ ap (chunks (length (drop 1 wav)) expected wav 36) (fields_fit total rate pcm expected fits h)
    ∙ chunks_data (length (drop 2 wav)) expected wav 36 (ground arith) refl refl
    ∙ ap sample_data (whole_data total rate pcm small)
