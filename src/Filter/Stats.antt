-- ===== src/Filter/Stats.antt =====
-- src/filter_stats.c: the samples' peak and mean square.
use putv.Prelude.{
  ℕ, ◌+◌, ◌-◌, ◌*◌, ◌/◌, ◌%◌, ◌^◌, ◌<◌, ◌≡◌, refl, ap, ◌∙◌, arith, inl, inr, Bool, true, false,
  ◌&&◌, not, Option, none, some, List, [], ◌∷◌, length, ltb, ◌==◌, if◌then◌else◌, Bool-cases,
}
use putv.Prelude.Int.{ℤ, negsuc, pos_part, neg_part}
use putv.Filter.Rescale.{shift_right}

-- `stats_t`, without `mean`, which nothing sets.
pub record Stats : Type 0 where
  pub nbs : ℕ
  pub rms : ℕ
  pub peak : ℕ
  pub bitspersample : ℕ
  pub lapswindow : ℕ

-- `stats_init`
pub stats_init : Stats
stats_init = record { nbs = 0; rms = 0; peak = 0; bitspersample = 0; lapswindow = 0 }

-- `labs`
abbrev pub labs : ℤ → ℕ
labs x = pos_part x + neg_part x

-- `filter_rms_sqappend`; the square is that of the sample's upper half.
pub rms_sqappend : ℕ → ℤ → ℕ → ℕ
unfolding shift_right
rms_sqappend sqrms sample bitspersample =
    let scale = labs (shift_right sample (bitspersample / 2)) in (sqrms + scale * scale) % 2 ^ 32

-- `INT32_MIN`, which `filter_destroy` calls each filter with at the end.
abbrev pub is_end : ℤ → Bool
is_end sample = neg_part sample == 2 ^ 31

-- `stats_cb`, a sample of the first channel.
pub stats_sample : ℤ → ℕ → Stats → Stats
stats_sample sample bitspersample ctx =
    let nbs = (ctx.nbs + 1) % 2 ^ 64 in
    record ctx {
      nbs = nbs;
      peak = if ltb ctx.peak (labs sample) then labs sample else ctx.peak;
      bitspersample = if ctx.bitspersample == 0 then bitspersample else ctx.bitspersample;
      rms = if nbs % ctx.lapswindow == 0 then 0 else rms_sqappend ctx.rms sample bitspersample;
    }

-- `stats_cb`: the sample that it returns and the statistics; what it prints is left out. `none` is a
-- division by 0.
pub stats_cb : ℤ → ℕ → ℕ → ℕ → Stats → Option (ℤ × Stats)
unfolding stats_sample
stats_cb sample bitspersample samplerate channel ctx =
    let windowed =
      if ctx.lapswindow == 0 then record ctx { lapswindow = samplerate * 10 } else ctx in
    if not (channel == 0)
    then some (sample, ctx)
    else if is_end sample
    then (if ctx.peak == 0 then none else some (sample, windowed))
    else if windowed.lapswindow == 0
    then none
    else some (sample, stats_sample sample bitspersample windowed)

-- The samples of a stream's first channel, one after the other.
pub stats_run : ℕ → ℕ → List ℤ → Stats → Option (List ℤ × Stats)
stats_run bits samplerate [] ctx = some ([], ctx)
stats_run bits samplerate (sample ∷ samples) ctx = elim (stats_cb sample bits samplerate 0 ctx) [
  | none ↦ none
  | some one ↦ elim (stats_run bits samplerate samples one.1) [
    | none ↦ none
    | some rest ↦ some (one.0 ∷ rest.0, rest.1)
  ]
]

-- The largest size of samples.
abbrev pub largest : ℕ → List ℤ → ℕ
largest m [] = m
largest m (sample ∷ samples) = largest (if ltb m (labs sample) then labs sample else m) samples

abbrev pub no_end : List ℤ → Bool
no_end [] = true
no_end (sample ∷ samples) = not (is_end sample) && no_end samples

one_sample :
    (sample : ℤ) (bits samplerate : ℕ) (ctx : Stats)
    → 0 < samplerate
    → is_end sample ≡ false
    → (after : Stats) × (stats_cb sample bits samplerate 0 ctx ≡ some (sample, after))
      × (after.peak ≡ (if ltb ctx.peak (labs sample) then labs sample else ctx.peak))
      × (after.nbs ≡ (ctx.nbs + 1) % 2 ^ 64)
unfolding stats_cb stats_sample
one_sample sample bits samplerate ctx rated inner = elim (Bool-cases (ctx.lapswindow == 0)) [
  | inl e ↦
      let set : (samplerate * 10 == 0) ≡ false = ground arith in
      (
        stats_sample sample bits (record ctx { lapswindow = samplerate * 10 }),
        rw (e, inner, set) refl,
        refl,
        refl,
      )
  | inr e ↦ (stats_sample sample bits ctx, rw (e, inner, e) refl, refl, refl)
]

-- Samples of a stream with a rate, none of them INT32_MIN, go through the filter unchanged; then the peak
-- is the largest size of the samples and of those before, and the samples were counted.
pub stats_run_lem :
    (samples : List ℤ) (bits samplerate : ℕ) (ctx : Stats)
    → 0 < samplerate
    → no_end samples ≡ true
    → (after : Stats) × (stats_run bits samplerate samples ctx ≡ some (samples, after))
      × (after.peak ≡ largest ctx.peak samples)
      × (after.nbs % 2 ^ 64 ≡ (ctx.nbs + length samples) % 2 ^ 64)
unfolding stats_run
stats_run_lem [] bits samplerate ctx rated inner = (ctx, refl, refl, omega arith)
stats_run_lem (sample ∷ samples) bits samplerate ctx rated inner =
    let first : is_end sample ≡ false = ground arith in
    let others : no_end samples ≡ true = ground arith in
    let one = one_sample sample bits samplerate ctx rated first in
    let rest = stats_run_lem samples bits samplerate one.0 rated others in
    (
      rest.0,
      rw (stats_run, one.1, rest.1) refl,
      rest.2 ∙ ap (λ m. largest m samples) one.2,
      omega (arith, rest.3, one.3),
    )

ends_badly :
    (bits samplerate : ℕ) (ctx : Stats)
    → ctx.peak ≡ 0
    → stats_cb (negsuc (2 ^ 31 - 1)) bits samplerate 0 ctx ≡ none
unfolding stats_cb
ends_badly bits samplerate ctx silent = rw silent refl

-- When the filter is destroyed after a stream whose samples were all 0, or none came, the statistics
-- divide by 0.
pub silence_divides :
    (samples : List ℤ) (bits samplerate : ℕ)
    → 0 < samplerate
    → no_end samples ≡ true
    → largest 0 samples ≡ 0
    → (after : Stats) × (stats_run bits samplerate samples stats_init ≡ some (samples, after))
      × (stats_cb (negsuc (2 ^ 31 - 1)) bits samplerate 0 after ≡ none)
unfolding stats_init
silence_divides samples bits samplerate rated inner silent =
    let run = stats_run_lem samples bits samplerate stats_init rated inner in
    (run.0, run.1, ends_badly bits samplerate run.0 (run.2 ∙ silent))
