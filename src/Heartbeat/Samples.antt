-- ===== src/Heartbeat/Samples.antt =====
-- src/heartbeat_samples.c, with TIMERTYPE 0: a beat every so many samples.
use native.Mathlib.Nat.{div-mul-le_self, lt-div-mul-add, div-le_self, div-eq_of_lt}
use putv.Prelude.{
  ℕ, ◌+◌, ◌-◌, ◌*◌, ◌/◌, ◌%◌, ◌^◌, ◌≤◌, ◌<◌, ◌≡◌, ◌≢◌, refl, arith, Bool, true, false, ◌&&◌, Option,
  none, some, ltb, ◌==◌, if◌then◌else◌,
}
use putv.Prelude.Int.{ℤ, pos, negsuc}
use putv.Filter.Format.{PcmFormat, format_value, format_nchannels, format_samplesize}

-- `heartbeat_ctx_t`; `tv_sec` and `tv_nsec` are those of `clock`.
pub record Heartbeat : Type 0 where
  pub tv_sec : ℕ
  pub tv_nsec : ℕ
  pub nsamples : ℕ
  pub samplerate : ℕ
  pub samplesize : ℕ
  pub nchannels : ℕ

-- `heartbeat_init`
pub heartbeat_init : ℕ → PcmFormat → ℕ → Heartbeat
heartbeat_init samplerate format nchannels = record {
  tv_sec = 0;
  tv_nsec = 0;
  nsamples = 0;
  samplerate = samplerate;
  samplesize = format_samplesize (format_value format) / 8;
  nchannels = if nchannels == 0 then format_nchannels (format_value format) else nchannels;
}

-- `heartbeat_start`, at the time that `clock_gettime` gives.
pub heartbeat_start : ℕ → ℕ → Heartbeat → Heartbeat
heartbeat_start sec nsec ctx = record ctx { tv_sec = sec; tv_nsec = nsec; nsamples = 0 }

-- `usec`, in unsigned longs of 64 bits. `divider` is not 0 where it is used.
pub usec_of : ℕ → ℕ → ℕ
usec_of nsamples divider = (nsamples * 1000 % 2 ^ 64) / divider * 10 % 2 ^ 64

-- The clock is set to the duration, and its seconds carry.
pub set_clock : ℕ → Heartbeat → Heartbeat
set_clock usec ctx =
    let nsec = usec % 1000000 * 1000 in
    if ltb 1000000000 nsec
    then record ctx { tv_nsec = nsec - 1000000000; tv_sec = usec / 1000000 + 1 }
    else record ctx { tv_nsec = nsec; tv_sec = usec / 1000000 }

-- `heartbeat_wait`, of a beat of so many samples: what it returns, and the beat's samples afterwards.
-- `slept` is whether `clock_nanosleep` succeeds in the end. `none` is a division by 0.
pub heartbeat_wait : Bool → ℕ → Heartbeat → Option (ℤ × ℕ × Heartbeat)
unfolding usec_of set_clock
heartbeat_wait slept beat ctx =
    let timed = set_clock (usec_of beat (ctx.samplerate / 100)) (record ctx { nsamples = beat }) in
    if ctx.samplerate == 0
    then some (negsuc 0, beat, ctx)
    else if ctx.tv_sec == 0 && ctx.tv_nsec == 0
    then some (negsuc 0, beat, ctx)
    else if beat == 0
    then some (pos 0, beat, ctx)
    else if ctx.samplerate / 100 == 0
    then none
    else if slept
    then some (pos 0, 0, record timed { nsamples = 0 })
    else some (negsuc 0, beat, timed)

-- The time that the clock stands for, in nanoseconds.
abbrev pub nanoseconds : Heartbeat → ℕ
nanoseconds ctx = ctx.tv_sec * 1000000000 + ctx.tv_nsec

set_clock_lem :
    (usec : ℕ) (ctx : Heartbeat)
    → (nanoseconds (set_clock usec ctx) ≡ usec * 1000) × ((set_clock usec ctx).tv_nsec < 1000000000)
unfolding set_clock
set_clock_lem usec ctx = (ground arith, ground arith)

usec_of_lem : (n d : ℕ) → n < 2 ^ 16 → usec_of n d ≡ n * 1000 / d * 10
unfolding usec_of
usec_of_lem n d h =
    let inner : n * 1000 % 2 ^ 64 ≡ n * 1000 = omega arith in
    rw inner (omega (arith, div-le_self (n * 1000) d))

waits_for :
    (ctx : Heartbeat) (n d : ℕ)
    → 0 < nanoseconds ctx
    → 0 < n
    → 0 < d
    → ctx.samplerate ≡ 100 * d
    → heartbeat_wait true n ctx
      ≡ some (
        pos 0,
        0,
        record (set_clock (usec_of n d) (record ctx { nsamples = n })) { nsamples = 0 },
      )
unfolding heartbeat_wait
waits_for ctx n d started some_beat some_rate rate =
    let divider : ctx.samplerate / 100 ≡ d = omega arith in
    let rated : (ctx.samplerate == 0) ≡ false = ground arith in
    let set : (ctx.tv_sec == 0 && ctx.tv_nsec == 0) ≡ false = ground arith in
    let beats : (n == 0) ≡ false = ground arith in
    let divides : (d == 0) ≡ false = ground arith in rw (divider, rated, set, beats, divides) refl

-- At a rate that is a multiple of 100 samples a second, and where the sleep succeeds, a started heartbeat waits for n samples, at least 1 and less than
-- 2 ^ 16, as long as they last: the time t that it sleeps is theirs to 10 microseconds, never more. The
-- nanoseconds stay below a second, and the beat's samples are used up.
pub heartbeat_wait_lem :
    (ctx : Heartbeat) (n d : ℕ)
    → 0 < nanoseconds ctx
    → 0 < n
    → n < 2 ^ 16
    → 0 < d
    → ctx.samplerate ≡ 100 * d
    → (after : Heartbeat) × (heartbeat_wait true n ctx ≡ some (pos 0, 0, after))
      × (nanoseconds after * ctx.samplerate ≤ n * 1000000000)
      × (n * 1000000000 < (nanoseconds after + 10000) * ctx.samplerate)
      × (after.tv_nsec < 1000000000)
heartbeat_wait_lem ctx n d started some_beat small some_rate rate =
    let timed = set_clock (usec_of n d) (record ctx { nsamples = n }) in
    let time = set_clock_lem (usec_of n d) (record ctx { nsamples = n }) in
    let usec = usec_of_lem n d small in
    let below = div-mul-le_self (n * 1000) d in
    let above = lt-div-mul-add {a = n * 1000} some_rate in
    (
      record timed { nsamples = 0 },
      waits_for ctx n d started some_beat some_rate rate,
      rw (time.0, usec, rate) (grind (arith, below)),
      rw (time.0, usec, rate) (grind (arith, above)),
      time.1,
    )

usec_of_short : (n d : ℕ) → n * 1000 < d → n * 1000 < 2 ^ 64 → usec_of n d ≡ 0
unfolding usec_of
usec_of_short n d h w =
    let inner : n * 1000 % 2 ^ 64 ≡ n * 1000 = omega arith in rw (inner, div-eq_of_lt h) refl

stopped :
    (n next : ℕ) (ctx : Heartbeat)
    → ctx.samplerate ≢ 0
    → heartbeat_wait true next (record (set_clock 0 (record ctx { nsamples = n })) { nsamples = 0 })
      ≡ some (negsuc 0, next, record (set_clock 0 (record ctx { nsamples = n })) { nsamples = 0 })
unfolding heartbeat_wait set_clock
stopped n next ctx rated = ground arith

-- At a rate of 100 * d samples a second, a beat of n samples that lasts less than 10 microseconds leaves
-- the clock at 0, and the next wait takes the heartbeat for one that was not started.
pub short_beat_stops :
    (ctx : Heartbeat) (n d next : ℕ)
    → 0 < nanoseconds ctx
    → 0 < n
    → n * 1000 < d
    → n < 2 ^ 16
    → ctx.samplerate ≡ 100 * d
    → (after : Heartbeat) × (heartbeat_wait true n ctx ≡ some (pos 0, 0, after))
      × (heartbeat_wait true next after ≡ some (negsuc 0, next, after))
short_beat_stops ctx n d next started some_beat short small rate =
    let timed = set_clock (usec_of n d) (record ctx { nsamples = n }) in
    let no_usec : usec_of n d ≡ 0 = usec_of_short n d short (omega arith) in
    (
      record timed { nsamples = 0 },
      waits_for ctx n d started some_beat (omega arith) rate,
      rw no_usec (stopped n next ctx (λ e. omega arith)),
    )
