-- ===== src/Filter/Boost.antt =====
-- src/filter_boost.c, and the extreme values of src/filter_pcm.c.
use putv.Prelude.{
  ℕ, ◌+◌, ◌-◌, ◌^◌, ◌≤◌, ◌≡◌, refl, arith, ◌⊎◌, inl, inr, Bool-cases, ltb, if◌then◌else◌,
}
use putv.Prelude.Int.{ℤ, pos, negsuc, ◌+ℤ◌, ◌-ℤ◌, ltb_ℤ, pos_part, neg_part, sub_ℕ}
use putv.Filter.Rescale.{pow2_pos, wrap_int}

-- C's `~` and unary `-`.
abbrev lognot : ℤ → ℤ
lognot (pos n) = negsuc n
lognot (negsuc n) = pos n

abbrev pub neg : ℤ → ℤ
neg (pos n) = sub_ℕ 0 n
neg (negsuc n) = pos (n + 1)

pub filter_minvalue : ℕ → ℤ
filter_minvalue bitspersample = lognot (pos (2 ^ (bitspersample - 1))) +ℤ pos 1

pub filter_maxvalue : ℕ → ℤ
filter_maxvalue bitspersample = neg (lognot (pos (2 ^ (bitspersample - 1)))) -ℤ pos 2

-- The extreme values are those of a signed number of that many bits.
pub extremes_lem :
    (bits : ℕ)
    → (filter_maxvalue bits ≡ pos (2 ^ (bits - 1) - 1))
      × (filter_minvalue bits ≡ sub_ℕ 0 (2 ^ (bits - 1)))
unfolding filter_maxvalue filter_minvalue ◌+ℤ◌ ◌-ℤ◌
extremes_lem bits = (ground (arith, pow2_pos (bits - 1)), ground (arith, pow2_pos (bits - 1)))

-- `boost_t`: the gain in decibels and the extreme value, 0 while it is unknown.
pub record Boost : Type 0 where
  pub replaygain : ℕ
  pub max : ℤ

-- `boost_init` on the zeroed filter that `_filter_build_pcm` gives it, for the gains above 0 that it
-- installs the filter for.
pub boost_init : ℕ → Boost
boost_init db = record { replaygain = db; max = pos 0 }

-- `times_coef sample db` is the float product `sample * (db / 3.0)`, as an int.
module _ (times_coef : ℤ → ℕ → ℤ) where
  pub known_max : Boost → ℕ → ℤ
  unfolding filter_maxvalue
  known_max ctx bitspersample =
      if ltb (pos_part ctx.max + neg_part ctx.max) 1 then filter_maxvalue bitspersample else ctx.max

  -- `boost_cb` calls `boost_multi`, the only function that `boost_init` installs.
  pub boost_multi : Boost → ℤ → ℕ → Boost × ℤ
  unfolding known_max
  boost_multi ctx sample bitspersample =
      let max = known_max ctx bitspersample in
      let boosted = wrap_int (sample +ℤ times_coef sample ctx.replaygain) in
      (
        record { replaygain = ctx.replaygain; max = max },
        if ltb_ℤ boosted (neg max) then neg max else if ltb_ℤ max boosted then max else boosted,
      )

  known_max_lem :
      (ctx : Boost) (bits : ℕ)
      → (ctx.max ≡ pos 0) ⊎ (ctx.max ≡ pos (2 ^ (bits - 1) - 1))
      → known_max ctx bits ≡ pos (2 ^ (bits - 1) - 1)
  unfolding known_max
  known_max_lem ctx bits (inl e) = rw e ((extremes_lem bits).0)
  known_max_lem ctx bits (inr e) = elim (Bool-cases (ltb (2 ^ (bits - 1) - 1 + 0) 1)) [
    | inl f ↦ rw (e, f) ((extremes_lem bits).0)
    | inr f ↦ rw (e, f) refl
  ]

  bound :
      (ctx : Boost) (sample : ℤ) (bits m : ℕ)
      → known_max ctx bits ≡ pos m
      → let r = boost_multi ctx sample bits in
        (r.0.max ≡ pos m) × (pos_part r.1 ≤ m) × (neg_part r.1 ≤ m)
  unfolding boost_multi
  bound ctx sample bits m e = rw e (ground arith, ground arith, ground arith)

  -- At samples of one width, from the filter's start or from any sample on, `boost_multi` gives out a
  -- sample between the extreme values of that width, whatever the sample and the gain, and holds
  -- the width's extreme value afterwards.
  pub boost_multi_bound :
      (ctx : Boost) (sample : ℤ) (bits : ℕ)
      → (ctx.max ≡ pos 0) ⊎ (ctx.max ≡ pos (2 ^ (bits - 1) - 1))
      → let r = boost_multi ctx sample bits in
        (r.0.max ≡ pos (2 ^ (bits - 1) - 1))
        × (pos_part r.1 ≤ 2 ^ (bits - 1) - 1)
        × (neg_part r.1 ≤ 2 ^ (bits - 1) - 1)
  boost_multi_bound ctx sample bits h =
      bound ctx sample bits (2 ^ (bits - 1) - 1) (known_max_lem ctx bits h)
