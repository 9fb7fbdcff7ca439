-- ===== src/Filter/Tests.antt =====
-- The theorems on the filters at stereo frames.
use putv.Prelude.{
  some, ℕ, zero, suc, ◌+◌, ◌-◌, ◌*◌, ◌%◌, ◌^◌, ◌≡◌, refl, arith, true, List, [], ◌∷◌, ◌++◌, get_or,
  replicate,
}
use putv.Prelude.Int.{ℤ, pos, negsuc}
use putv.Filter.Format.{pcm_24bits4_le_stereo, Inout, filter_setformat, format_value}
use putv.Filter.Bytes.{bits16, little_endian, sample_bytes, sample_bytes_scaled}
use putv.Filter.Mono.{Mono}
use putv.Filter.Mixed.{Mixed, Within}
use putv.Filter.Boost.{Boost}
use putv.Filter.Run.{Audio, Sampled, mono, boost, filter_run}
use putv.Filter.Stream.{convert_frames}
use putv.Filter.Output.{Output, output_loop, written}
use putv.Filter.Written.{Filled, output_loop_lem}
use putv.Rtp.Demux.{JitterOps}
use putv.Filter.Cut.{filter_run-add}

abbrev frame : List ℤ
frame = pos 100 ∷ negsuc 6 ∷ []

abbrev left : Mono
left = record { sample = pos 5; channel = 0 }

abbrev pair : Mixed
pair = record { sample = pos 0; samples = pos 40 ∷ negsuc 9 ∷ replicate 8 (pos 0); nchannels = 2 }

abbrev loud : Boost
loud = record { replaygain = 3; max = pos 32767 }

-- A gain of 3 decibels doubles the sample.
abbrev doubled : ℤ → ℕ → ℤ
doubled sample db = sample

abbrev stereo : Inout
stereo = record { samplesize = 2; shift = 16; nchannels = 2 }

abbrev audio : Audio
audio = record {
  samples = λ c x. pos (1000 * c + x);
  interleaved = true;
  nchannels = 2;
  nsamples = 3;
  bitspersample = 16;
}

abbrev chain : List Sampled
chain = mono left ∷ boost loud ∷ []

sample_bytes_scaled_example :
    little_endian (sample_bytes (filter_setformat (format_value pcm_24bits4_le_stereo)) 16 1000)
    ≡ (1000 * 2 ^ (24 - 16)) % 2 ^ 32
sample_bytes_scaled_example =
    sample_bytes_scaled pcm_24bits4_le_stereo bits16 1000 (omega arith) (omega arith)

silent : (n j : ℕ) → Within 40 (get_or (replicate n (pos 0)) j (pos 0))
silent zero j = (omega arith, omega arith)
silent (suc n) zero = (omega arith, omega arith)
silent (suc n) (suc j) = silent n j

pair-Within : (j : ℕ) → Within 40 (get_or pair.samples j (pos 0))
pair-Within zero = (omega arith, omega arith)
pair-Within (suc zero) = (omega arith, omega arith)
pair-Within (suc (suc j)) = silent 8 j

-- A jitter that keeps what is pushed to it, in buffers of two frames.
kept_same : (j k : List ℕ) → some j ≡ some k → k ≡ j
kept_same j k e = cc

abbrev kept : JitterOps (List ℕ)
kept = record {
  size = λ j. 8;
  pull = λ j. some j;
  push = λ bytes beat j. j ++ bytes;
  content = λ j. j;
  size-pull = λ j k e. refl;
  size-push = λ bytes beat j. refl;
  content-pull = kept_same;
  content-push = λ bytes beat j. refl;
}

abbrev always : (j : List ℕ) → (k : List ℕ) × (kept.pull j ≡ some k)
always j = (j, refl)

-- One frame is in the buffer already.
abbrev begun : Output (List ℕ)
begun = record { outbuffer = some (1 ∷ 2 ∷ 3 ∷ 4 ∷ []); jitter = []; frequence = 0 }

begun-Filled : Filled kept 4 begun
begun-Filled = record { used = 1; room = 1; some_room = omega arith; whole = refl; holds = refl }

output_loop_lem_example :
    (let c = convert_frames doubled stereo audio chain 0 3 in
      (after : Output (List ℕ)) × (output_loop kept doubled 4 stereo chain audio 44100 begun
        ≡ some (true, c.0, after))
      × (written kept after ≡ written kept begun ++ c.1)
      × Filled kept 4 after)
output_loop_lem_example =
    output_loop_lem kept doubled always 4 stereo chain audio 44100 begun (omega arith) (omega arith)
      (omega arith) (omega arith) begun-Filled

filter_run-add_example :
    (let first = filter_run doubled stereo chain audio (1 * 4) in
      let second = filter_run doubled stereo first.1 first.0 (1 * 4) in
      let whole = filter_run doubled stereo chain audio (2 * 4) in
      (whole.1 ≡ second.1)
      × (whole.2 ≡ first.2 ++ second.2)
      × (whole.0.nsamples ≡ second.0.nsamples))
filter_run-add_example =
    filter_run-add doubled stereo chain audio 1 1 (omega arith) (omega arith) (omega arith)
      (omega arith)
