-- ===== src/Rtp/Attach.antt =====
-- src/mux_rtp.c: the streams that encoders attach.
use putv.Prelude.{
  ℕ, zero, suc, ◌-◌, ◌*◌, ◌/◌, Bool, ◌||◌, Option, none, some, List, [], ◌∷◌, ◌++◌, ◌==◌,
  if◌then◌else◌,
}
use putv.Media.Mime.{Mime, audiomp3, audiopcm, audioflac}
use putv.Rtp.Wire.{put_le}
use putv.Rtp.Mux.{Estream}

-- `rtpext_pcm_t`, whose rate has 16 bits, with the padding at its end.
abbrev pub pcm_ext : ℕ → ℕ → List ℕ
pcm_ext format samplerate = put_le 4 format ++ put_le 2 samplerate ++ 0 ∷ 0 ∷ []

-- The jitter that `mux_attach` makes of a stream.
pub record InJitter : Type 0 where
  pub depth : ℕ
  pub size : ℕ
  pub frequence : ℕ
  pub thredhold : ℕ
  pub format : ℕ

-- `mux_attach`: the type and the jitter's depth of an encoder's mime.
abbrev pub attach_pt : Mime → ℕ
attach_pt audiomp3 = 14
attach_pt audiopcm = 11
attach_pt audioflac = 46
attach_pt _ = 99

abbrev pub attach_depth : Mime → ℕ
attach_depth audioflac = 8 * 15
attach_depth _ = 8

pub attach_stream : Mime → ℕ → ℕ → Estream → Estream
attach_stream mime format samplerate es = record es {
  mime = mime;
  chunks = [];
  pt = if es.pt == 0 then attach_pt mime else es.pt;
  ext = elim mime [ audiopcm ↦ pcm_ext format samplerate | _ ↦ es.ext ];
}

-- `mux_attach`, the search of the stream: the first that is free or has the encoder's mime, none where
-- both are taken. `same` is `strcmp` of two mime types.
pub attach_search : (Mime → Mime → Bool) → Mime → ℕ → ℕ → List Estream → Option (List Estream)
unfolding attach_stream
attach_search same mime format samplerate [] = none
attach_search same mime format samplerate (es ∷ streams) =
    let rest = attach_search same mime format samplerate streams in
    if es.pt == 0 || same es.mime mime
    then some (attach_stream mime format samplerate es ∷ streams)
    else elim rest [ none ↦ none | some after ↦ some (es ∷ after) ]

-- `mux_attach` of an encoder: the streams, and the jitter where one was made. The flag is whether `out`
-- is set; where it is not, -1 is returned.
pub mux_attach :
    (Mime → Mime → Bool)
    → Bool
    → ℕ
    → Mime
    → ℕ
    → ℕ
    → List Estream
    → Option (List Estream × Option InJitter)
unfolding attach_search
mux_attach same has_out out_size mime format samplerate streams =
    let jitter : InJitter = record {
      depth = attach_depth mime;
      size = out_size - 16;
      frequence = samplerate;
      thredhold = attach_depth mime / 2;
      format = format;
    } in
    if has_out
    then some (elim (attach_search same mime format samplerate streams) [
      | none ↦ (streams, none)
      | some after ↦ (after, some jitter)
    ])
    else none

-- `mux_mime`, of the two streams.
pub mux_mime : ℕ → List Estream → Option Mime
mux_mime index [] = none
mux_mime zero (es ∷ streams) = some es.mime
mux_mime (suc index) (es ∷ streams) = mux_mime index streams
