-- ===== src/Filter/Mono.antt =====
-- src/filter_mono.c.
use putv.Prelude.{
  ℕ, zero, suc, ◌+◌, ◌-◌, ◌<◌, ◌≡◌, refl, arith, List, [], ◌∷◌, ◌++◌, ◌==◌, if◌then◌else◌, length,
  get_or, replicate,
}
use putv.Prelude.Int.{ℤ, pos}

-- `mono_t`.
pub record Mono : Type 0 where
  pub sample : ℤ
  pub channel : ℕ

-- `mono_init` on the zeroed filter that `_filter_build_pcm` gives it.
pub mono_init : ℕ → Mono
mono_init channel = record { sample = pos 0; channel = channel }

-- The filter afterwards and the sample that it returns.
pub mono_cb : Mono → ℤ → ℕ → Mono × ℤ
mono_cb ctx sample channel = (
  if channel == ctx.channel then record { sample = sample; channel = ctx.channel } else ctx,
  ctx.sample,
)

-- The channels of a frame from the `j`th on, in the order of `filter_run`.
pub mono_frame : Mono → ℕ → List ℤ → Mono × List ℤ
unfolding mono_cb
mono_frame ctx j [] = (ctx, [])
mono_frame ctx j (s ∷ frame) =
    let r = mono_cb ctx s j in let rest = mono_frame r.0 (suc j) frame in (rest.0, r.1 ∷ rest.1)

-- Past its channel the filter gives out what it holds.
mono_frame_after :
    (ctx : Mono) (j : ℕ) (frame : List ℤ)
    → ctx.channel < j
    → mono_frame ctx j frame ≡ (ctx, replicate (length frame) ctx.sample)
unfolding mono_frame mono_cb
mono_frame_after ctx j [] h = refl
mono_frame_after ctx j (s ∷ frame) h = ground (arith, mono_frame_after ctx (suc j) frame)

mono_frame_from :
    (ctx : Mono) (j k : ℕ) (frame : List ℤ)
    → ctx.channel ≡ j + k
    → k < length frame
    → mono_frame ctx j frame ≡ (
      record { sample = get_or frame k (pos 0); channel = ctx.channel },
      replicate (suc k) ctx.sample ++ replicate (length frame - suc k) (get_or frame k (pos 0)),
    )
unfolding mono_frame mono_cb
mono_frame_from ctx j k [] e h = absurd (omega arith)
mono_frame_from ctx j zero (s ∷ frame) e h =
    ground (arith, mono_frame_after (record { sample = s; channel = ctx.channel }) (suc j) frame)
mono_frame_from ctx j (suc k) (s ∷ frame) e h = ground (arith, mono_frame_from ctx (suc j) k frame)

-- Over a frame that has the filter's channel c, the channels up to c get the sample that channel c had
-- in the frame before, the channels past c the one that it has in this frame, which the filter then
-- holds.
pub mono_frame_lem :
    (ctx : Mono) (frame : List ℤ)
    → ctx.channel < length frame
    → let s = get_or frame ctx.channel (pos 0) in
      mono_frame ctx 0 frame ≡ (
        record { sample = s; channel = ctx.channel },
        replicate (suc ctx.channel) ctx.sample ++ replicate (length frame - suc ctx.channel) s,
      )
mono_frame_lem ctx frame h = mono_frame_from ctx 0 ctx.channel frame (omega arith) h
