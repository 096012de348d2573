-- ===== src/Audio/Examples.antt =====
-- Two channels of three frames, and a file of three bytes and a half.
use circle_core.Prelude.{ℕ, ◌≡◌, ◌≢◌, refl, none, some, List, [], ◌∷◌, arith}
use circle_core.Text.{codes, text_eq}
use circle_core.Audio.{
  Sample, to_bytes, channel_from_interleaved, sample_data, not_wav, struct_error, unfinished, slice,
  little_endian, rate_fits, chunks, pcm_from_wav,
}
use circle_core.Audio.Frames.{interleave, column, channel_from_interleaved-interleave}
use circle_core.Audio.Wav.{wav_file, pcm_from_wav-ne-unfinished, pcm_from_wav-wav_file}

abbrev sample_of : ℕ → Sample
sample_of n = record { low = n; high = 0 }

abbrev three_frames : List (List Sample)
three_frames =
    (sample_of 1 ∷ sample_of 2 ∷ [])
    ∷ (sample_of 3 ∷ sample_of 4 ∷ [])
    ∷ (sample_of 5 ∷ sample_of 6 ∷ [])
    ∷ []

second_channel : to_bytes (column 1 three_frames) ≡ (2 ∷ 0 ∷ 4 ∷ 0 ∷ 6 ∷ 0 ∷ [])
unfolding to_bytes
second_channel = refl

channel_from_interleaved-interleave_example :
    channel_from_interleaved (to_bytes (interleave three_frames)) 1 2
    ≡ some (to_bytes (column 1 three_frames))
channel_from_interleaved-interleave_example =
    channel_from_interleaved-interleave 1 2 three_frames (omega arith) (refl, (refl, (refl, tt)))

not_a_wav : pcm_from_wav (codes "OggS and so on") none ≡ not_wav
unfolding pcm_from_wav slice text_eq
not_a_wav = refl

-- A format chunk that ends before its sixteen bytes.
cut_short : pcm_from_wav (codes "RIFF....WAVEfmt .....") none ≡ struct_error
unfolding pcm_from_wav chunks slice text_eq little_endian
cut_short = refl

pcm_from_wav-ne-unfinished_example : pcm_from_wav (codes "RIFF....WAVEfmt .....") none ≢ unfinished
pcm_from_wav-ne-unfinished_example = pcm_from_wav-ne-unfinished (codes "RIFF....WAVEfmt .....") none

pcm_from_wav-wav_file_example :
    pcm_from_wav (wav_file 40 8000 (1 ∷ 0 ∷ 2 ∷ 0 ∷ [])) (some 8000)
    ≡ sample_data (1 ∷ 0 ∷ 2 ∷ 0 ∷ [])
pcm_from_wav-wav_file_example =
    pcm_from_wav-wav_file 40 8000 (1 ∷ 0 ∷ 2 ∷ 0 ∷ []) (some 8000) (omega arith) (omega arith)
      (unfold rate_fits in refl)
