-- ===== src/Filter/Output.antt =====
-- src/filter_pcm.c, `filter_filloutput`, built without DECODER_HEARTBEAT, and the loop in which the
-- decoders call it (src/decoder_mad.c, src/decoder_flac.c, src/decoder_faad2.c).
use putv.Prelude.{
  ℕ, zero, suc, ◌-◌, Bool, true, false, Option, none, some, List, [], ◌++◌, ◌==◌, leb,
  if◌then◌else◌, length, take,
}
use putv.Prelude.Int.{ℤ, pos, negsuc}
use putv.Filter.Format.{Inout}
use putv.Filter.Run.{Audio, Sampled, filter_run}
use putv.Rtp.Demux.{JitterOps}

-- The static variables of `filter_filloutput`, `outbuffer` with the `outbufferlen` bytes that are in it,
-- and the jitter `out` with its `frequence`.
pub record Output (J : Type 0) : Type 0 where
  pub outbuffer : Option (List ℕ)
  pub jitter : J
  pub frequence : ℕ

-- The bytes in the buffer, and all that the output has.
abbrev pub held : {J : Type 0} → Output J → List ℕ
held out = elim out.outbuffer [ none ↦ [] | some bytes ↦ bytes ]

abbrev pub written : {J : Type 0} → JitterOps J → Output J → List ℕ
written ops out = ops.content out.jitter ++ held out

module _ {J : Type 0} (ops : JitterOps J) (times_coef : ℤ → ℕ → ℤ) where
  -- The buffer that is filled, and the jitter; `none` where `pull` returns NULL.
  unfoldable pub pull_outbuffer : Output J → Option (List ℕ × J)
  pull_outbuffer out = elim out.outbuffer [
    | some bytes ↦ some (bytes, out.jitter)
    | none ↦ elim (ops.pull out.jitter) [ none ↦ none | some j ↦ some ([], j) ]
  ]

  -- The call of `run` and what follows it.
  unfoldable pub fill :
      Inout → List Sampled → Audio → ℕ → List ℕ → J → ℤ × List Sampled × Audio × Output J
  fill format fs audio frequence old j =
      let r = filter_run times_coef format fs audio (ops.size j - length old) in
      let bytes = old ++ r.2 in
      if leb (ops.size j) (length bytes)
      then (
        pos 0,
        r.1,
        r.0,
        record {
          outbuffer = none;
          jitter = ops.push (take (ops.size j) bytes) none j;
          frequence = frequence;
        },
      )
      else (
        pos (length bytes),
        r.1,
        r.0,
        record { outbuffer = some bytes; jitter = j; frequence = frequence },
      )

  -- `filter_filloutput`: what it returns, the chain of filters, the audio and the output afterwards.
  unfoldable pub filloutput :
      Inout → List Sampled → Audio → ℕ → Output J → ℤ × List Sampled × Audio × Output J
  filloutput format fs audio samplerate out =
      let frequence = if out.frequence == 0 then samplerate else out.frequence in
      elim (pull_outbuffer out) [
        | none ↦ (negsuc 0, fs, audio, record out { frequence = frequence })
        | some b ↦ fill format fs audio frequence b.0 b.1
      ]

  -- The decoders' loop: whether all of the audio was output. `none` where the fuel runs out.
  unfoldable pub output_loop :
      ℕ → Inout → List Sampled → Audio → ℕ → Output J → Option (Bool × List Sampled × Output J)
  output_loop zero format fs audio samplerate out = none
  output_loop (suc fuel) format fs audio samplerate out =
      let r = filloutput format fs audio samplerate out in
      if audio.nsamples == 0 then some (true, fs, out) else elim r.0 [
        | negsuc n ↦ some (false, r.1, r.3)
        | pos n ↦ output_loop fuel format r.1 r.2 samplerate r.3
      ]
