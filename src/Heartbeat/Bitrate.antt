-- ===== src/Heartbeat/Bitrate.antt =====
-- src/heartbeat_bitrate.c: a beat every so many bytes.
use putv.Prelude.{
  ℕ, ◌+◌, ◌-◌, ◌*◌, ◌/◌, ◌%◌, ◌^◌, ◌≤◌, ◌<◌, ◌≡◌, sym, ap, ◌∙◌, arith, Bool, true, false, ◌&&◌,
  List, [], ◌∷◌, ltb, leb, ◌==◌, if◌then◌else◌,
}
use putv.Prelude.Int.{ℤ, pos, negsuc}

-- `heartbeat_ctx_t`
pub record Bitrate : Type 0 where
  pub bitrate : ℕ
  pub ms : ℕ
  pub length : ℕ
  pub previous : ℕ
  pub thredhold : ℕ

-- `heartbeat_init`; the product is one of unsigned ints, and the threshold has 16 bits.
pub bitrate_init : ℕ → ℕ → Bitrate
bitrate_init bitrate ms = record {
  bitrate = bitrate;
  ms = ms;
  length = 0;
  previous = 0;
  thredhold = bitrate * ms % 2 ^ 32 / 8 % 2 ^ 16;
}

-- `heartbeat_wait` of a beat of so many bytes: what it returns, whether it waited for the next ring, and
-- the heartbeat afterwards.
pub bitrate_wait : ℕ → Bitrate → ℤ × Bool × Bitrate
bitrate_wait beat ctx =
    let length = (ctx.length + beat) % 2 ^ 16 in
    if ctx.bitrate == 0
    then (negsuc 0, false, ctx)
    else if ltb length ctx.thredhold
    then (pos 0, false, record ctx { length = length })
    else (
      pos 0,
      true,
      record ctx { length = length - ctx.thredhold; previous = length - ctx.thredhold },
    )

-- Beats one after the other: how often it waited, and the heartbeat.
pub bitrate_waits : List ℕ → Bitrate → ℕ × Bitrate
bitrate_waits [] ctx = (0, ctx)
bitrate_waits (beat ∷ beats) ctx =
    let one = bitrate_wait beat ctx in
    let rest = bitrate_waits beats one.2 in ((if one.1 then 1 else 0) + rest.0, rest.1)

abbrev pub sum : List ℕ → ℕ
sum [] = 0
sum (n ∷ ns) = n + sum ns

abbrev pub within : ℕ → List ℕ → Bool
within bound [] = true
within bound (n ∷ ns) = leb n bound && within bound ns

step_lem :
    (beat : ℕ) (ctx : Bitrate)
    → 0 < ctx.bitrate
    → ctx.length < ctx.thredhold
    → beat ≤ ctx.thredhold
    → 2 * ctx.thredhold ≤ 2 ^ 16
    → ((if (bitrate_wait beat ctx).1 then 1 else 0) * ctx.thredhold
          + (bitrate_wait beat ctx).2.length
        ≡ ctx.length + beat)
      × ((bitrate_wait beat ctx).2.length < ctx.thredhold)
      × ((bitrate_wait beat ctx).2.thredhold ≡ ctx.thredhold)
      × ((bitrate_wait beat ctx).2.bitrate ≡ ctx.bitrate)
unfolding bitrate_wait
step_lem beat ctx rated low fits small = (ground arith, ground arith, ground arith, ground arith)

-- Beats of no more than the threshold, which is at most 2 ^ 15: the heartbeat waits once for each
-- threshold that was reached, so that the bytes of all beats are those of the waits and less than one
-- threshold more.
pub bitrate_waits_lem :
    (beats : List ℕ) (ctx : Bitrate)
    → 0 < ctx.bitrate
    → ctx.length < ctx.thredhold
    → within ctx.thredhold beats ≡ true
    → 2 * ctx.thredhold ≤ 2 ^ 16
    → ((bitrate_waits beats ctx).0 * ctx.thredhold + (bitrate_waits beats ctx).1.length
        ≡ ctx.length + sum beats)
      × ((bitrate_waits beats ctx).1.length < ctx.thredhold)
unfolding bitrate_waits
bitrate_waits_lem [] ctx rated low all small = (omega arith, low)
bitrate_waits_lem (beat ∷ beats) ctx rated low all small =
    let first : beat ≤ ctx.thredhold = ground arith in
    let others : within ctx.thredhold beats ≡ true = ground arith in
    let one = step_lem beat ctx rated low first small in
    let next = (bitrate_wait beat ctx).2 in
    let rest =
      bitrate_waits_lem beats next (omega (arith, one.3)) (omega (arith, one.1, one.2))
        (rw one.2 others) (omega (arith, one.2)) in
    let total : (bitrate_waits beats next).0 * ctx.thredhold + (bitrate_waits beats next).1.length
        ≡ next.length + sum beats =
      ap (λ t. (bitrate_waits beats next).0 * t + (bitrate_waits beats next).1.length) (sym one.2)
      ∙ rest.0 in
    (grind (arith, one.0, total), omega (arith, rest.1, one.2))
