-- ===== src/Filter/Cut.antt =====
-- src/filter_pcm.c, `filter_run`: a stream may be cut into runs.
use native.Mathlib.Nat.{mod-lt}
use putv.Prelude.{
  ℕ, zero, suc, ◌+◌, ◌-◌, ◌*◌, ◌%◌, ◌<◌, ◌≤◌, min, ◌≡◌, refl, sym, ap, arith, Bool-cases, lt→ltb,
  true, inl, inr, List, ◌++◌, ltb, append_assoc,
}
use putv.Prelude.Int.{ℤ}
use putv.Filter.Format.{Inout}
use putv.Filter.Run.{Audio, Sampled, filter_get, filter_exit, sampled_change, filter_run}
use putv.Filter.Stream.{convert_channels, convert_frames, filter_run_lem}

module _ (times_coef : ℤ → ℕ → ℤ) where
  -- Reading the rest of the audio is reading further in the audio.
  filter_get-filter_exit :
      (audio : Audio) (done channel index : ℕ)
      → 0 < audio.nchannels
      → filter_get (filter_exit audio done) channel index ≡ filter_get audio channel (done + index)
  unfolding filter_get filter_exit
  filter_get-filter_exit audio done channel index h =
      let same_channel : ltb (channel % audio.nchannels) audio.nchannels ≡ true =
        lt→ltb (channel % audio.nchannels) audio.nchannels (mod-lt channel h) in
      elim (Bool-cases audio.interleaved) [
        | inl e ↦ rw e (ap (λ x. audio.samples 0 x) (grind arith))
        | inr e ↦ rw (e, same_channel) refl
      ]

  bitspersample-filter_exit :
      (audio : Audio) (done : ℕ) → (filter_exit audio done).bitspersample ≡ audio.bitspersample
  unfolding filter_exit
  bitspersample-filter_exit audio done = refl

  convert_channels-filter_exit :
      (format : Inout) (audio : Audio) (done i : ℕ) (fs : List Sampled) (j n : ℕ)
      → 0 < audio.nchannels
      → convert_channels times_coef format (filter_exit audio done) i fs j n
        ≡ convert_channels times_coef format audio (done + i) fs j n
  unfolding convert_channels
  convert_channels-filter_exit format audio done i fs j zero h = refl
  convert_channels-filter_exit format audio done i fs j (suc n) h =
      rw
        (
          filter_get-filter_exit audio done j i h,
          bitspersample-filter_exit audio done,
          convert_channels-filter_exit format audio done i
              (sampled_change times_coef format fs (filter_get audio j (done + i))
                audio.bitspersample j).0
              (suc j) n h,
        )
        refl

  pub convert_frames-filter_exit :
      (format : Inout) (audio : Audio) (done : ℕ) (fs : List Sampled) (i n : ℕ)
      → 0 < audio.nchannels
      → convert_frames times_coef format (filter_exit audio done) fs i n
        ≡ convert_frames times_coef format audio fs (done + i) n
  unfolding convert_frames
  convert_frames-filter_exit format audio done fs i zero h = refl
  convert_frames-filter_exit format audio done fs i (suc n) h =
      let next : done + suc i ≡ suc (done + i) = omega arith in
      rw
        (
          convert_channels-filter_exit format audio done i fs 0 format.nchannels h,
          convert_frames-filter_exit format audio done
              (convert_channels times_coef format audio (done + i) fs 0 format.nchannels).0 (suc i)
              n h,
          next,
        )
        refl

  pub convert_frames-add :
      (format : Inout) (audio : Audio) (fs : List Sampled) (i a b : ℕ)
      → let first = convert_frames times_coef format audio fs i a in
        let second = convert_frames times_coef format audio first.0 (i + a) b in
        convert_frames times_coef format audio fs i (a + b) ≡ (second.0, first.1 ++ second.1)
  unfolding convert_frames
  convert_frames-add format audio fs i zero b =
      let none_before : 0 + b ≡ b = omega arith in
      let at_i : i + 0 ≡ i = omega arith in rw (none_before, at_i) refl
  convert_frames-add format audio fs i (suc a) b =
      let c = convert_channels times_coef format audio i fs 0 format.nchannels in
      let more : suc a + b ≡ suc (a + b) = omega arith in
      let next : suc i + a ≡ i + suc a = omega arith in
      let first = convert_frames times_coef format audio c.0 (suc i) a in
      let second = convert_frames times_coef format audio first.0 (i + suc a) b in
      rw (more, convert_frames-add format audio c.0 (suc i) a b, next)
        (ap (λ l. (second.0, l)) (sym (append_assoc c.1 first.1 second.1)))

  pub nsamples-filter_exit :
      (audio : Audio) (done : ℕ) → (filter_exit audio done).nsamples ≡ audio.nsamples - done
  unfolding filter_exit
  nsamples-filter_exit audio done = refl

  -- A stream may be cut: a buffer of a whole frames, then one of b whole frames, get the bytes and
  -- leave the chain of filters that one buffer of a + b frames would, and as many samples are left,
  -- if the audio has a frames.
  pub filter_run-add :
      (format : Inout) (fs : List Sampled) (audio : Audio) (a b : ℕ)
      → 0 < format.samplesize
      → 0 < format.nchannels
      → 0 < audio.nchannels
      → a ≤ audio.nsamples
      → let frame = format.nchannels * format.samplesize in
        let first = filter_run times_coef format fs audio (a * frame) in
        let second = filter_run times_coef format first.1 first.0 (b * frame) in
        let whole = filter_run times_coef format fs audio ((a + b) * frame) in
        (whole.1 ≡ second.1)
        × (whole.2 ≡ first.2 ++ second.2)
        × (whole.0.nsamples ≡ second.0.nsamples)
  filter_run-add format fs audio a b p q h le =
      let n = min b (audio.nsamples - a) in
      let first = convert_frames times_coef format audio fs 0 a in
      let all_a : min a audio.nsamples ≡ a = omega arith in
      let parts : min (a + b) audio.nsamples ≡ a + n = omega arith in
      let from_a : a + 0 ≡ a = omega arith in
      let at_a : 0 + a ≡ a = omega arith in
      rw
        (
          filter_run_lem times_coef format fs audio (a + b) p q,
          filter_run_lem times_coef format fs audio a p q,
          all_a,
          filter_run_lem times_coef format first.0 (filter_exit audio a) b p q,
          convert_frames-filter_exit format audio a first.0 0 (min b (filter_exit audio a).nsamples)
              h,
          nsamples-filter_exit audio a,
          parts,
          from_a,
          convert_frames-add format audio fs 0 a n,
          at_a,
        )
        (refl, refl, simp nsamples-filter_exit (omega arith))
