-- ===== src/Filter/Run.antt =====
-- src/filter_pcm.c, built without FILTER_STATS and FILTER_DUMP: the chain of installed filters and the
-- loop of `filter_run`.
use putv.Prelude.{
  ℕ, zero, suc, ◌+◌, ◌-◌, ◌*◌, ◌%◌, ◌^◌, Bool, true, false, List, [], ◌∷◌, ◌++◌, ltb, leb,
  if◌then◌else◌, length,
}
use putv.Prelude.Int.{ℤ, pos, negsuc}
use putv.Filter.Format.{Inout}
use putv.Filter.Bytes.{sample_bytes}
use putv.Filter.Mono.{Mono, mono_cb}
use putv.Filter.Mixed.{Mixed, mixed_cb}
use putv.Filter.Boost.{Boost, boost_multi}

-- `sampled_ctx_t`: a function with the filter that it belongs to.
pub data Sampled : Type 0 where
  boost : Boost → Sampled
  mono : Mono → Sampled
  mixed : Mixed → Sampled

-- `filter_audio_t`: `samples c x` is the sample x places past the pointer of channel c.
pub record Audio : Type 0 where
  pub samples : ℕ → ℕ → ℤ
  pub interleaved : Bool
  pub nchannels : ℕ
  pub nsamples : ℕ
  pub bitspersample : ℕ

-- A signed int's pattern of 32 bits.
pub pattern_of : ℤ → ℕ
pattern_of (pos n) = n % 2 ^ 32
pattern_of (negsuc n) = 2 ^ 32 - 1 - n % 2 ^ 32

-- `filter_get` and `filter_getinterleaved`, of the channel and the index.
unfoldable pub filter_get : Audio → ℕ → ℕ → ℤ
filter_get audio channel index =
    if audio.interleaved
    then audio.samples 0 (index * audio.nchannels + channel)
    else audio.samples (channel % audio.nchannels) index

-- The lines under `filter_exit`: the pointer of channel 0 moves once for every channel where the
-- samples are interleaved.
unfoldable pub filter_exit : Audio → ℕ → Audio
filter_exit audio i = record {
  samples = λ c x.
      if audio.interleaved
      then (if leb 1 c then audio.samples c x else audio.samples 0 (audio.nchannels * i + x))
      else if ltb c audio.nchannels
      then audio.samples c (i + x)
      else audio.samples c x;
  interleaved = audio.interleaved;
  nchannels = audio.nchannels;
  nsamples = audio.nsamples - i;
  bitspersample = audio.bitspersample;
}

module _ (times_coef : ℤ → ℕ → ℤ) where
  pub sampled_call : Sampled → ℤ → ℕ → ℕ → Sampled × ℤ
  sampled_call (boost b) sample bits channel =
      let r = boost_multi times_coef b sample bits in (boost r.0, r.1)
  sampled_call (mono m) sample bits channel = let r = mono_cb m sample channel in (mono r.0, r.1)
  sampled_call (mixed m) sample bits channel = let r = mixed_cb m sample channel in (mixed r.0, r.1)

  -- The loop over the chain in `sampled_change`.
  pub sampled_chain : List Sampled → ℤ → ℕ → ℕ → List Sampled × ℤ
  unfolding sampled_call
  sampled_chain [] sample bits channel = ([], sample)
  sampled_chain (f ∷ fs) sample bits channel =
      let r = sampled_call f sample bits channel in
      let rest = sampled_chain fs r.1 bits channel in (r.0 ∷ rest.0, rest.1)

  unfoldable pub sampled_change : Inout → List Sampled → ℤ → ℕ → ℕ → List Sampled × List ℕ
  unfolding sampled_chain pattern_of
  sampled_change format fs sample bits channel =
      let r = sampled_chain fs sample bits channel in
      (r.0, sample_bytes format bits (pattern_of r.1))

  -- The inner loop: `n` channels from the `j`th on of the frame `i`; the test says whether the frame
  -- was finished.
  unfoldable pub run_channels :
      Inout → Audio → ℕ → ℕ → List Sampled → List ℕ → ℕ → ℕ → Bool × List Sampled × List ℕ
  unfolding sampled_change filter_get
  run_channels format audio size i fs buffer j zero = (true, fs, buffer)
  run_channels format audio size i fs buffer j (suc n) =
      let r = sampled_change format fs (filter_get audio j i) audio.bitspersample j in
      let rest = run_channels format audio size i r.0 (buffer ++ r.1) (suc j) n in
      if leb size (length buffer) then (false, fs, buffer) else rest

  -- The outer loop: `n` frames from the `i`th on; it gives the index where it stopped.
  unfoldable pub run_frames :
      Inout → Audio → ℕ → List Sampled → List ℕ → ℕ → ℕ → ℕ × List Sampled × List ℕ
  unfolding run_channels
  run_frames format audio size fs buffer i zero = (i, fs, buffer)
  run_frames format audio size fs buffer i (suc n) =
      let r = run_channels format audio size i fs buffer 0 format.nchannels in
      let rest = run_frames format audio size r.1 r.2 (suc i) n in
      if r.0 then rest else (i, r.1, r.2)

  -- `filter_run`: the audio and the chain afterwards, and what is written in the buffer, whose length
  -- is the result.
  unfoldable pub filter_run : Inout → List Sampled → Audio → ℕ → Audio × List Sampled × List ℕ
  unfolding run_frames filter_exit
  filter_run format fs audio size =
      let r = run_frames format audio size fs [] 0 audio.nsamples in
      (filter_exit audio r.0, r.1, r.2)
