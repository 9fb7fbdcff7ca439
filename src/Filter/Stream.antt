-- ===== src/Filter/Stream.antt =====
-- src/filter_pcm.c, `filter_run`: how much it converts.
use putv.Prelude.{
  ℕ, zero, suc, ◌+◌, ◌*◌, ◌<◌, ◌≤◌, min, ◌≡◌, refl, sym, ap, ◌∙◌, arith, true, false, List, [],
  ◌++◌, leb, length, length-append, append-[], append_assoc,
}
use putv.Prelude.Int.{ℤ}
use putv.Filter.Format.{Inout}
use putv.Filter.Bytes.{sample_bytes, length-out_bytes}
use putv.Filter.Run.{
  Audio, Sampled, filter_get, filter_exit, pattern_of, sampled_change, sampled_chain, run_channels,
  run_frames, filter_run,
}

module _ (times_coef : ℤ → ℕ → ℤ) where
  length-sampled_change :
      (format : Inout) (fs : List Sampled) (sample : ℤ) (bits channel : ℕ)
      → length (sampled_change times_coef format fs sample bits channel).1 ≡ format.samplesize
  unfolding sampled_change sample_bytes
  length-sampled_change format fs sample bits channel =
      length-out_bytes format.shift bits
        (pattern_of (sampled_chain times_coef fs sample bits channel).1) 0 0 format.samplesize

  -- What the loops convert where the buffer never fills up: the chain afterwards and the bytes, of n
  -- channels from the j-th on, and of n frames from the i-th on.
  unfoldable pub convert_channels : Inout → Audio → ℕ → List Sampled → ℕ → ℕ → List Sampled × List ℕ
  convert_channels format audio i fs j zero = (fs, [])
  convert_channels format audio i fs j (suc n) =
      let r = sampled_change times_coef format fs (filter_get audio j i) audio.bitspersample j in
      let rest = convert_channels format audio i r.0 (suc j) n in (rest.0, r.1 ++ rest.1)

  unfoldable pub convert_frames : Inout → Audio → List Sampled → ℕ → ℕ → List Sampled × List ℕ
  convert_frames format audio fs i zero = (fs, [])
  convert_frames format audio fs i (suc n) =
      let r = convert_channels format audio i fs 0 format.nchannels in
      let rest = convert_frames format audio r.0 (suc i) n in (rest.0, r.1 ++ rest.1)

  pub length-convert_channels :
      (format : Inout) (audio : Audio) (i : ℕ) (fs : List Sampled) (j n : ℕ)
      → length (convert_channels format audio i fs j n).1 ≡ n * format.samplesize
  unfolding convert_channels
  length-convert_channels format audio i fs j zero = omega arith
  length-convert_channels format audio i fs j (suc n) =
      let r = sampled_change times_coef format fs (filter_get audio j i) audio.bitspersample j in
      let rest = convert_channels format audio i r.0 (suc j) n in
      omega (
        arith,
        length-append r.1 rest.1,
        length-sampled_change format fs (filter_get audio j i) audio.bitspersample j,
        length-convert_channels format audio i r.0 (suc j) n,
      )

  -- A frame that has room is finished.
  run_channels_room :
      (format : Inout) (audio : Audio) (size i : ℕ) (fs : List Sampled) (buffer : List ℕ) (j n : ℕ)
      → 0 < format.samplesize
      → length buffer + n * format.samplesize ≤ size
      → let c = convert_channels format audio i fs j n in
        run_channels times_coef format audio size i fs buffer j n ≡ (true, c.0, buffer ++ c.1)
  unfolding run_channels convert_channels
  run_channels_room format audio size i fs buffer j zero p h =
      ap (λ b. (true, fs, b)) (sym (append-[] buffer))
  run_channels_room format audio size i fs buffer j (suc n) p h =
      let r = sampled_change times_coef format fs (filter_get audio j i) audio.bitspersample j in
      let rest = convert_channels format audio i r.0 (suc j) n in
      let e : length (buffer ++ r.1) ≡ length buffer + format.samplesize = omega (
        arith,
        length-append buffer r.1,
        length-sampled_change format fs (filter_get audio j i) audio.bitspersample j,
      ) in
      let room : leb size (length buffer) ≡ false = ground arith in
      rw room (
        run_channels_room format audio size i r.0 (buffer ++ r.1) (suc j) n p (omega arith)
        ∙ ap (λ b. (true, rest.0, b)) (append_assoc buffer r.1 rest.1))

  -- A full buffer stops the loop before it converts anything.
  run_channels_full :
      (format : Inout) (audio : Audio) (size i : ℕ) (fs : List Sampled) (buffer : List ℕ) (j n : ℕ)
      → 0 < n
      → size ≤ length buffer
      → run_channels times_coef format audio size i fs buffer j n ≡ (false, fs, buffer)
  unfolding run_channels
  run_channels_full format audio size i fs buffer j zero p h = absurd (omega arith)
  run_channels_full format audio size i fs buffer j (suc n) p h = ground arith

  -- In a buffer with room for k more frames, the loop over n frames converts the smaller number.
  run_frames_whole :
      (format : Inout) (audio : Audio) (size k : ℕ) (fs : List Sampled) (buffer : List ℕ) (i n : ℕ)
      → 0 < format.samplesize
      → 0 < format.nchannels
      → size ≡ length buffer + k * (format.nchannels * format.samplesize)
      → let c = convert_frames format audio fs i (min k n) in
        run_frames times_coef format audio size fs buffer i n ≡ (i + min k n, c.0, buffer ++ c.1)
  unfolding run_frames convert_frames
  run_frames_whole format audio size k fs buffer i zero p q e =
      let none_left : min k 0 ≡ 0 = omega arith in
      let at_i : i + 0 ≡ i = omega arith in rw (none_left, at_i, append-[] buffer) refl
  run_frames_whole format audio size zero fs buffer i (suc n) p q e =
      let no_room : min 0 (suc n) ≡ 0 = omega arith in
      let at_i : i + 0 ≡ i = omega arith in
      rw
        (
          no_room,
          at_i,
          append-[] buffer,
          run_channels_full format audio size i fs buffer 0 format.nchannels q (omega arith),
        )
        refl
  run_frames_whole format audio size (suc k) fs buffer i (suc n) p q e =
      let more : min (suc k) (suc n) ≡ suc (min k n) = omega arith in
      let c = convert_channels format audio i fs 0 format.nchannels in
      let rest = convert_frames format audio c.0 (suc i) (min k n) in
      let written : length (buffer ++ c.1) ≡ length buffer + format.nchannels * format.samplesize =
        omega (
          arith,
          length-append buffer c.1,
          length-convert_channels format audio i fs 0 format.nchannels,
        ) in
      let next : suc i + min k n ≡ i + suc (min k n) = omega arith in
      rw (more, run_channels_room format audio size i fs buffer 0 format.nchannels p (grind arith))
        (run_frames_whole format audio size k c.0 (buffer ++ c.1) (suc i) n p q (grind arith)
          ∙ ap (λ i2. (i2, rest.0, (buffer ++ c.1) ++ rest.1)) next
          ∙ ap (λ b. (i + suc (min k n), rest.0, b)) (append_assoc buffer c.1 rest.1))

  -- In a buffer of k whole frames, `filter_run` converts the frames that are there, k at most, each
  -- once and in order, and leaves the others for the next run.
  pub filter_run_lem :
      (format : Inout) (fs : List Sampled) (audio : Audio) (k : ℕ)
      → 0 < format.samplesize
      → 0 < format.nchannels
      → let n = min k audio.nsamples in
        let c = convert_frames format audio fs 0 n in
        filter_run times_coef format fs audio (k * (format.nchannels * format.samplesize))
        ≡ (filter_exit audio n, c.0, c.1)
  unfolding filter_run
  filter_run_lem format fs audio k p q =
      let run =
        run_frames_whole format audio (k * (format.nchannels * format.samplesize)) k fs [] 0
          audio.nsamples p q (omega arith) in
      let from_0 : 0 + min k audio.nsamples ≡ min k audio.nsamples = omega arith in
      rw (run, from_0) refl
