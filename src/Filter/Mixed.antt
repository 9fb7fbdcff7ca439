-- ===== src/Filter/Mixed.antt =====
-- src/filter_mixed.c.
use native.Mathlib.Nat.{div-mul-le_self, le-div_iff_mul-le}
use putv.Prelude.{
  ℕ, zero, suc, ◌+◌, ◌-◌, ◌*◌, ◌/◌, ◌<◌, ◌≤◌, ◌≡◌, refl, ap, ◌∙◌, arith, ◌⊎◌, inl, inr, List, [],
  ◌∷◌, ltb, ◌==◌, if◌then◌else◌, length, get_or, set, replicate, length-set, get_or-set,
}
use putv.Prelude.Int.{ℤ, pos, negsuc, ◌+ℤ◌, pos_part, neg_part, sub_ℕ}

-- `mixed_t`: the array has ten samples.
pub record Mixed : Type 0 where
  pub sample : ℤ
  pub samples : List ℤ
  pub nchannels : ℕ

-- `mixed_init` on the zeroed filter that `_filter_build_pcm` gives it.
pub mixed_init : ℕ → Mixed
mixed_init nchannels = record {
  sample = pos 0;
  samples = replicate 10 (pos 0);
  nchannels = nchannels;
}

-- C's division, towards 0.
pub div_to_zero : ℤ → ℕ → ℤ
div_to_zero (pos n) d = pos (n / d)
div_to_zero (negsuc n) d = sub_ℕ 0 (suc n / d)

-- The loop over `samples`, from the `j`th on, `k` of them.
pub mixed_sum : Mixed → ℤ → ℕ → ℕ → ℤ
mixed_sum ctx sample j zero = sample
mixed_sum ctx sample j (suc k) =
    mixed_sum ctx (sample +ℤ div_to_zero (get_or ctx.samples j (pos 0)) ctx.nchannels) (suc j) k

pub mixed_cb : Mixed → ℤ → ℕ → Mixed × ℤ
unfolding mixed_sum
mixed_cb ctx sample channel =
    let mean = if channel == 0 then mixed_sum ctx (pos 0) 0 ctx.nchannels else ctx.sample in
    (
      record {
        sample = mean;
        samples = if ltb channel 10 then set ctx.samples channel sample else ctx.samples;
        nchannels = ctx.nchannels;
      },
      mean,
    )

-- The channels of a frame from the `j`th on, in the order of `filter_run`.
pub mixed_frame : Mixed → ℕ → List ℤ → Mixed × List ℤ
unfolding mixed_cb
mixed_frame ctx j [] = (ctx, [])
mixed_frame ctx j (s ∷ frame) =
    let r = mixed_cb ctx s j in let rest = mixed_frame r.0 (suc j) frame in (rest.0, r.1 ∷ rest.1)

abbrev pub Within : ℕ → ℤ → Type 0
Within m s = (pos_part s ≤ m) × (neg_part s ≤ m)

div_mono : (a b d : ℕ) → 0 < d → a ≤ b → a / d ≤ b / d
div_mono a b d p h = (le-div_iff_mul-le p).1 (omega (arith, div-mul-le_self a d))

div_to_zero-Within : (s : ℤ) (m d : ℕ) → 0 < d → Within m s → Within (m / d) (div_to_zero s d)
unfolding div_to_zero
div_to_zero-Within (pos n) m d p h = (div_mono n m d p h.0, omega arith)
div_to_zero-Within (negsuc n) m d p h = ground (arith, div_mono (suc n) m d p h.1)

sum-Within : (a b : ℤ) (m n : ℕ) → Within m a → Within n b → Within (m + n) (a +ℤ b)
unfolding ◌+ℤ◌
sum-Within a b m n h k = ground arith

-- Each channel adds at most the share `m / n` of the bound.
mixed_sum_bound :
    (ctx : Mixed) (m : ℕ)
    → 0 < ctx.nchannels
    → ((j : ℕ) → Within m (get_or ctx.samples j (pos 0)))
    → (sample : ℤ) (b j k : ℕ) → Within b sample
    → Within (b + k * (m / ctx.nchannels)) (mixed_sum ctx sample j k)
unfolding mixed_sum
mixed_sum_bound ctx m p small sample b j zero h = ground arith
mixed_sum_bound ctx m p small sample b j (suc k) h =
    let d = div_to_zero (get_or ctx.samples j (pos 0)) ctx.nchannels in
    let share : Within (m / ctx.nchannels) d =
      div_to_zero-Within (get_or ctx.samples j (pos 0)) m ctx.nchannels p (small j) in
    let rest =
      mixed_sum_bound ctx m p small (sample +ℤ d) (b + m / ctx.nchannels) (suc j) k
        (sum-Within sample d b (m / ctx.nchannels) h share) in
    (omega (arith, rest.0), omega (arith, rest.1))

-- Samples within a bound m have a mean within m: what `mixed_cb` adds up never leaves the range of the
-- samples.
mean-Within :
    (ctx : Mixed) (m : ℕ)
    → 0 < ctx.nchannels
    → ((j : ℕ) → Within m (get_or ctx.samples j (pos 0)))
    → Within m (mixed_sum ctx (pos 0) 0 ctx.nchannels)
mean-Within ctx m p small =
    let sum = mixed_sum_bound ctx m p small (pos 0) 0 0 ctx.nchannels (omega arith, omega arith) in
    let share = div-mul-le_self m ctx.nchannels in (omega (arith, sum.0), omega (arith, sum.1))

-- What the channels of a frame write in the array, from the `j`th on.
abbrev store : List ℤ → ℕ → List ℤ → List ℤ
store samples j [] = samples
store samples j (s ∷ frame) = store (set samples j s) (suc j) frame

get_or-cons :
    (s : ℤ) (frame : List ℤ) (k : ℕ)
    → 0 < k
    → get_or (s ∷ frame) k (pos 0) ≡ get_or frame (k - 1) (pos 0)
get_or-cons s frame zero h = absurd (omega arith)
get_or-cons s frame (suc k) h = ap (λ n. get_or frame n (pos 0)) (omega arith)

lt_or_ge : (a b : ℕ) → (a < b) ⊎ (b ≤ a)
lt_or_ge a b = ground arith

get_or-store :
    (samples : List ℤ) (j : ℕ) (frame : List ℤ) (i : ℕ)
    → j + length frame ≤ length samples
    → get_or (store samples j frame) i (pos 0) ≡ (
        if ltb i j
        then get_or samples i (pos 0)
        else if ltb i (j + length frame)
        then get_or frame (i - j) (pos 0)
        else get_or samples i (pos 0))
get_or-store samples j [] i h = ground arith
get_or-store samples j (s ∷ frame) i h =
    let rest =
      get_or-store (set samples j s) (suc j) frame i (omega (arith, length-set samples j s)) in
    let here = get_or-set samples j i s (pos 0) (omega arith) in
    elim (lt_or_ge j i) [
      | inl past ↦ let tail = get_or-cons s frame (i - j) (omega arith) in ground arith
      | inr at_most ↦ elim (lt_or_ge i j) [
        | inl before ↦ ground arith
        | inr ge ↦ let same : i - j ≡ 0 = omega arith in rw same (ground arith)
      ]
    ]

-- Past channel 0 the filter gives out the mean that it holds, and stores the samples.
mixed_frame_after :
    (ctx : Mixed) (j : ℕ) (frame : List ℤ)
    → 0 < j
    → j + length frame ≤ 10
    → mixed_frame ctx j frame ≡ (
      record {
        sample = ctx.sample;
        samples = store ctx.samples j frame;
        nchannels = ctx.nchannels;
      },
      replicate (length frame) ctx.sample,
    )
unfolding mixed_frame mixed_cb
mixed_frame_after ctx j [] p h = refl
mixed_frame_after ctx j (s ∷ frame) p h = ground (
  arith,
  mixed_frame_after
      (record { sample = ctx.sample; samples = set ctx.samples j s; nchannels = ctx.nchannels })
      (suc j) frame,
)

stored :
    (s : ℤ) (frame samples : List ℤ) (i : ℕ)
    → suc (length frame) ≤ length samples
    → i < suc (length frame)
    → get_or (store (set samples 0 s) 1 frame) i (pos 0) ≡ get_or (s ∷ frame) i (pos 0)
stored s frame samples i l h =
    let all = get_or-store samples 0 (s ∷ frame) i (omega arith) in
    let same : i - 0 ≡ i = omega arith in ground (arith, same)

-- For at least one channel, while the samples of the frame before are within m, each channel of a
-- frame of at most ten gets their mean, which is within m too, and the filter holds the samples of
-- this frame afterwards.
pub mixed_frame_lem :
    (ctx : Mixed) (frame : List ℤ) (m i : ℕ)
    → 0 < ctx.nchannels
    → length ctx.samples ≡ 10
    → i < length frame
    → length frame ≤ 10
    → ((j : ℕ) → Within m (get_or ctx.samples j (pos 0)))
    → let mean = mixed_sum ctx (pos 0) 0 ctx.nchannels in
      ((mixed_frame ctx 0 frame).1 ≡ replicate (length frame) mean)
      × Within m mean
      × (get_or (mixed_frame ctx 0 frame).0.samples i (pos 0) ≡ get_or frame i (pos 0))
unfolding mixed_frame mixed_cb
mixed_frame_lem ctx [] m i n l p h small = absurd (omega arith)
mixed_frame_lem ctx (s ∷ frame) m i n l p h small =
    let mean = mixed_sum ctx (pos 0) 0 ctx.nchannels in
    let first : Mixed = record {
      sample = mean;
      samples = set ctx.samples 0 s;
      nchannels = ctx.nchannels;
    } in
    let after = mixed_frame_after first 1 frame (omega arith) (omega arith) in
    (
      ap (λ r. mean ∷ r.1) after,
      mean-Within ctx m n small,
      ap (λ r. get_or r.0.samples i (pos 0)) after ∙ stored s frame ctx.samples i (omega arith) p,
    )
