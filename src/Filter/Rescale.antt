-- ===== src/Filter/Rescale.antt =====
-- src/filter_rescale.c. `sample_t` is a signed int of 32 bits.
use native.Mathlib.Nat.{
  div-mul-le_self, lt-div-mul-add, div-lt_iff_lt-mul, pow-suc, pow-le-pow_right,
}
use putv.Prelude.{
  ℕ, zero, suc, ◌+◌, ◌-◌, ◌*◌, ◌/◌, ◌%◌, ◌^◌, ◌<◌, ◌≤◌, ◌≡◌, refl, ap, ◌∙◌, arith, false, Option,
  none, some, ltb, leb, if◌then◌else◌,
}
use putv.Prelude.Int.{ℤ, pos, negsuc, ◌+ℤ◌, ltb_ℤ, pos_part, neg_part, sub_ℕ}
use putv.Filter.Format.{PcmFormat, meaning}

-- `rescale_t`, less the field `one`, which nothing reads.
pub record Rescale : Type 0 where
  pub outbits : ℕ

-- `rescale_init`: format 0, here `none`, keeps the bits that the caller asks for.
pub rescale_init : ℕ → Option PcmFormat → Rescale
rescale_init outbits none = record { outbits = outbits }
rescale_init outbits (some f) = record { outbits = (meaning f).1 }

-- What a signed int of 32 bits keeps of a number.
pub wrap_int : ℤ → ℤ
wrap_int (pos n) = let r = n % 2 ^ 32 in if ltb r (2 ^ 31) then pos r else negsuc (2 ^ 32 - 1 - r)
wrap_int (negsuc n) =
    let r = n % 2 ^ 32 in if ltb r (2 ^ 31) then negsuc r else pos (2 ^ 32 - 1 - r)

-- `sample >> k` of a signed int.
unfoldable pub shift_right : ℤ → ℕ → ℤ
shift_right (pos n) k = pos (n / 2 ^ k)
shift_right (negsuc n) k = negsuc (n / 2 ^ k)

-- The lines under `clip`.
pub clip : ℕ → ℤ → ℤ
clip one sample =
    if ltb_ℤ sample (pos one)
    then (if ltb_ℤ sample (sub_ℕ 0 one) then sub_ℕ 0 one else sample)
    else pos (one - 1)

pub rescale_cb : Rescale → ℤ → ℕ → ℤ
unfolding wrap_int shift_right clip
rescale_cb ctx sample bitspersample =
    if leb bitspersample ctx.outbits
    then sample
    else shift_right
        (clip (2 ^ bitspersample) (wrap_int (sample +ℤ pos (2 ^ (bitspersample - ctx.outbits)))))
        (bitspersample + 1 - ctx.outbits)

clip_bound :
    (one : ℕ) (s : ℤ) → 0 < one → (pos_part (clip one s) < one) × (neg_part (clip one s) ≤ one)
unfolding clip
clip_bound one s h = ground arith

pow2_add : (a b : ℕ) → 2 ^ (a + b) ≡ 2 ^ a * 2 ^ b
pow2_add a zero = let e : a + 0 ≡ a = omega arith in rw e (omega arith)
pow2_add a (suc b) =
    let e : a + suc b ≡ suc (a + b) = omega arith in
    rw (e, pow-suc 2 (a + b), pow-suc 2 b, pow2_add a b) (grind arith)

pub pow2_pos : (k : ℕ) → 0 < 2 ^ k
pow2_pos zero = omega arith
pow2_pos (suc k) = omega (arith, pow2_pos k)

le→leb_false : (a b : ℕ) → b < a → leb a b ≡ false
le→leb_false a b h = ground arith

-- The bound of a sample of `out` bits: `2 ^ out` is half a step of the quantizer times the clip.
shift_bound :
    (one m k : ℕ) (s : ℤ)
    → 0 < 2 ^ k
    → one ≡ m * 2 ^ k
    → pos_part s < one
    → neg_part s ≤ one
    → (pos_part (shift_right s k) < m) × (neg_part (shift_right s k) ≤ m)
unfolding shift_right
shift_bound one m k (pos n) p e a b = ((div-lt_iff_lt-mul p).1 (omega arith), omega arith)
shift_bound one m k (negsuc n) p e a b =
    let small : n / 2 ^ k < m = (div-lt_iff_lt-mul p).1 (omega arith) in (omega arith, omega arith)

-- A sample wider than `outbits` leaves the filter as a signed number of `outbits` bits.
pub rescale_bound :
    (ctx : Rescale) (sample : ℤ) (bits : ℕ)
    → 0 < ctx.outbits
    → ctx.outbits < bits
    → (pos_part (rescale_cb ctx sample bits) < 2 ^ (ctx.outbits - 1))
      × (neg_part (rescale_cb ctx sample bits) ≤ 2 ^ (ctx.outbits - 1))
unfolding rescale_cb
rescale_bound ctx sample bits p h =
    let one = 2 ^ bits in
    let c = clip one (wrap_int (sample +ℤ pos (2 ^ (bits - ctx.outbits)))) in
    let in_clip =
      clip_bound one (wrap_int (sample +ℤ pos (2 ^ (bits - ctx.outbits)))) (pow2_pos bits) in
    let k = bits + 1 - ctx.outbits in
    let split : one ≡ 2 ^ (ctx.outbits - 1) * 2 ^ k =
      rw (← pow2_add (ctx.outbits - 1) k) (ap (λ n. 2 ^ n) (omega arith)) in
    rw (le→leb_false bits ctx.outbits h)
      (shift_bound one (2 ^ (ctx.outbits - 1)) k c (pow2_pos k) split in_clip.0 in_clip.1)

unclipped :
    (ctx : Rescale) (n bits : ℕ)
    → 2 ^ bits ≤ 2 ^ 30
    → n + 2 ^ (bits - ctx.outbits) < 2 ^ bits
    → clip (2 ^ bits) (wrap_int (pos n +ℤ pos (2 ^ (bits - ctx.outbits))))
      ≡ pos (n + 2 ^ (bits - ctx.outbits))
unfolding clip wrap_int ◌+ℤ◌
unclipped ctx n bits low fits = ground arith

-- A positive sample that stays in the clip is rounded: the result times the quantizer's step, 2 to the
-- number of bits that go and one more, is the sample to half a step.
pub rescale_round :
    (ctx : Rescale) (n bits : ℕ)
    → ctx.outbits < bits
    → bits ≤ 30
    → n + 2 ^ (bits - ctx.outbits) < 2 ^ bits
    → (q : ℕ) × (rescale_cb ctx (pos n) bits ≡ pos q)
      × (q * 2 ^ (bits + 1 - ctx.outbits) ≤ n + 2 ^ (bits - ctx.outbits))
      × (n < q * 2 ^ (bits + 1 - ctx.outbits) + 2 ^ (bits - ctx.outbits))
unfolding rescale_cb shift_right
rescale_round ctx n bits h top fits =
    let half = 2 ^ (bits - ctx.outbits) in
    let k = bits + 1 - ctx.outbits in
    let low : 2 ^ bits ≤ 2 ^ 30 = pow-le-pow_right (omega arith) top in
    let step : 2 ^ k ≡ half * 2 = ap (λ x. 2 ^ x) (omega arith) ∙ pow-suc 2 (bits - ctx.outbits) in
    let below = div-mul-le_self (n + half) (2 ^ k) in
    let above = lt-div-mul-add {a = n + half} (pow2_pos k) in
    let wider = le→leb_false bits ctx.outbits h in
    ((n + half) / 2 ^ k, rw (wider, unclipped ctx n bits low fits) refl, below, omega arith)
