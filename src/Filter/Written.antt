-- ===== src/Filter/Written.antt =====
-- src/filter_pcm.c, `filter_filloutput`: what the decoders' loop writes to the jitter.
use putv.Prelude.{
  ℕ, zero, suc, ◌+◌, ◌-◌, ◌*◌, ◌<◌, ◌≤◌, min, ◌≡◌, refl, sym, ap, ◌∙◌, arith, inl, inr, true, false,
  Option, none, some, List, [], ◌++◌, ◌==◌, leb, length, append_assoc, append-[], take_all,
  Bool-cases, length-append, if◌then◌else◌, ==→eq,
}
use putv.Prelude.Int.{ℤ, pos}
use putv.Filter.Format.{Inout}
use putv.Filter.Run.{Audio, Sampled, filter_exit}
use putv.Filter.Stream.{convert_frames, filter_run_lem, length-convert_channels, convert_channels}
use putv.Filter.Cut.{convert_frames-filter_exit, convert_frames-add, nsamples-filter_exit}
use putv.Filter.Output.{Output, pull_outbuffer, fill, filloutput, output_loop, held, written}
use putv.Rtp.Demux.{JitterOps}

sum_frames : (a b frame : ℕ) → (a + b) * frame ≡ a * frame + b * frame
sum_frames a b frame = grind arith

frame_positive : (a b : ℕ) → 0 < a → 0 < b → 0 < a * b
frame_positive zero b p q = absurd (omega arith)
frame_positive (suc a) zero p q = absurd (omega arith)
frame_positive (suc a) (suc b) p q = ground arith

fewer_frames :
    (used n room frame : ℕ) → n < room → 0 < frame → (used + n) * frame < (used + room) * frame
fewer_frames used n room frame h p =
    let d = room - n - 1 in
    let parts : room ≡ n + suc d = omega arith in
    let sum = sum_frames (used + n) (suc d) frame in
    let assoc : used + (n + suc d) ≡ used + n + suc d = omega arith in
    let one : suc d * frame ≡ frame + d * frame = grind arith in
    rw (parts, assoc, sum, one) (omega arith)

module _ (times_coef : ℤ → ℕ → ℤ) where
  length-convert_frames :
      (format : Inout) (audio : Audio) (fs : List Sampled) (i n : ℕ)
      → length (convert_frames times_coef format audio fs i n).1
        ≡ n * (format.nchannels * format.samplesize)
  unfolding convert_frames
  length-convert_frames format audio fs i zero = omega arith
  length-convert_frames format audio fs i (suc n) =
      let c = convert_channels times_coef format audio i fs 0 format.nchannels in
      let rest = convert_frames times_coef format audio c.0 (suc i) n in
      omega (
        arith,
        length-append c.1 rest.1,
        length-convert_channels times_coef format audio i fs 0 format.nchannels,
        length-convert_frames format audio c.0 (suc i) n,
      )

-- The output's buffer has `used` whole frames and room for `room` more.
pub record Filled {J : Type 0} (ops : JitterOps J) (frame : ℕ) (out : Output J) : Type 0 where
  pub used : ℕ
  pub room : ℕ
  pub some_room : 0 < room
  pub whole : ops.size out.jitter ≡ (used + room) * frame
  pub holds : length (held out) ≡ used * frame

module _ {J : Type 0} (ops : JitterOps J) (times_coef : ℤ → ℕ → ℤ)
    (pulls : (j : J) → (k : J) × (ops.pull j ≡ some k)) where
  pulled :
      (buffer : Option (List ℕ)) (j : J) (frequence : ℕ)
      → let out : Output J = record { outbuffer = buffer; jitter = j; frequence = frequence } in
        (k : J) × (pull_outbuffer ops times_coef out ≡ some (held out, k))
        × (ops.content k ≡ ops.content j)
        × (ops.size k ≡ ops.size j)
  unfolding pull_outbuffer
  pulled (some bytes) j frequence = (j, refl, refl, refl)
  pulled none j frequence =
      let p = pulls j in
      (p.0, rw (pull_outbuffer, p.1) refl, ops.content-pull j p.0 p.1, ops.size-pull j p.0 p.1)

  fill_lem :
      (format : Inout) (fs : List Sampled) (audio : Audio) (frequence : ℕ) (old : List ℕ) (j : J)
      (used room : ℕ)
      → 0 < format.samplesize
      → 0 < format.nchannels
      → 0 < room
      → ops.size j ≡ (used + room) * (format.nchannels * format.samplesize)
      → length old ≡ used * (format.nchannels * format.samplesize)
      → let n = min room audio.nsamples in
        let c = convert_frames times_coef format audio fs 0 n in
        (l : ℕ) × (after : Output J) × (fill ops times_coef format fs audio frequence old j
          ≡ (pos l, c.0, filter_exit audio n, after))
        × (written ops after ≡ ops.content j ++ (old ++ c.1))
        × Filled ops (format.nchannels * format.samplesize) after
  unfolding fill
  fill_lem format fs audio frequence old j used room p q some_room size holds =
      let frame = format.nchannels * format.samplesize in
      let n = min room audio.nsamples in
      let c = convert_frames times_coef format audio fs 0 n in
      let left : ops.size j - length old ≡ room * frame =
        rw (size, holds, sum_frames used room frame) (omega arith) in
      let run = filter_run_lem times_coef format fs audio room p q in
      let new : length (old ++ c.1) ≡ (used + n) * frame = omega (
        arith,
        length-append old c.1,
        length-convert_frames times_coef format audio fs 0 n,
        sum_frames used n frame,
        holds,
      ) in
      elim (Bool-cases (leb room audio.nsamples)) [
        | inl e ↦
            let all : n ≡ room = ground arith in
            let same : length (old ++ c.1) ≡ ops.size j =
              new ∙ ap (λ x. (used + x) * frame) all ∙ sym size in
            let full : leb (ops.size j) (length (old ++ c.1)) ≡ true = ground arith in
            let after : Output J = record {
              outbuffer = none;
              jitter = ops.push (old ++ c.1) none j;
              frequence = frequence;
            } in
            (
              0,
              after,
              rw (left, run, full, sym same, take_all (old ++ c.1)) refl,
              append-[] (ops.content after.jitter) ∙ ops.content-push (old ++ c.1) none j,
              record {
                used = 0;
                room = used + room;
                some_room = omega arith;
                whole =
                    ops.size-push (old ++ c.1) none j ∙ size ∙ ap (λ x. x * frame) (omega arith);
                holds = omega arith;
              },
            )
        | inr e ↦
            let all : n ≡ audio.nsamples = ground arith in
            let less : length (old ++ c.1) < ops.size j =
              rw (new, size)
                (fewer_frames used n room frame (ground arith)
                  (frame_positive format.nchannels format.samplesize q p)) in
            let part : leb (ops.size j) (length (old ++ c.1)) ≡ false = ground arith in
            let after : Output J = record {
              outbuffer = some (old ++ c.1);
              jitter = j;
              frequence = frequence;
            } in
            (
              length (old ++ c.1),
              after,
              rw (left, run, part) refl,
              refl,
              record {
                used = used + n;
                room = room - n;
                some_room = ground arith;
                whole = size ∙ ap (λ x. x * frame) (ground arith);
                holds = new;
              },
            )
      ]

  -- One call outputs as many frames as the buffer has room for.
  filloutput_lem :
      (format : Inout) (fs : List Sampled) (audio : Audio) (samplerate : ℕ) (out : Output J)
      → 0 < format.samplesize
      → 0 < format.nchannels
      → (filled : Filled ops (format.nchannels * format.samplesize) out)
      → let n = min filled.room audio.nsamples in
        let c = convert_frames times_coef format audio fs 0 n in
        (l : ℕ) × (after : Output J) × (filloutput ops times_coef format fs audio samplerate out
          ≡ (pos l, c.0, filter_exit audio n, after))
        × (written ops after ≡ written ops out ++ c.1)
        × Filled ops (format.nchannels * format.samplesize) after
  unfolding filloutput
  filloutput_lem format fs audio samplerate out p q filled =
      let frequence = if out.frequence == 0 then samplerate else out.frequence in
      let n = min filled.room audio.nsamples in
      let c = convert_frames times_coef format audio fs 0 n in
      let got = pulled out.outbuffer out.jitter out.frequence in
      let r =
        fill_lem format fs audio frequence (held out) got.0 filled.used filled.room p q
          filled.some_room (got.3 ∙ filled.whole) filled.holds in
      (
        r.0,
        r.1,
        rw (filloutput, got.1) r.2,
        r.3
            ∙ ap (λ x. x ++ (held out ++ c.1)) got.2
            ∙ sym (append_assoc (ops.content out.jitter) (held out) c.1),
        r.4,
      )

  -- The frames of a first call and those of the calls for the rest are the frames of the audio.
  convert_frames_rest :
      (format : Inout) (audio : Audio) (fs : List Sampled) (n : ℕ)
      → 0 < audio.nchannels
      → n ≤ audio.nsamples
      → let first = convert_frames times_coef format audio fs 0 n in
        let exit = filter_exit audio n in
        let rest = convert_frames times_coef format exit first.0 0 exit.nsamples in
        convert_frames times_coef format audio fs 0 audio.nsamples ≡ (rest.0, first.1 ++ rest.1)
  convert_frames_rest format audio fs n h le =
      let first = convert_frames times_coef format audio fs 0 n in
      let exit = filter_exit audio n in
      let left = audio.nsamples - n in
      let parts : audio.nsamples ≡ n + left = omega arith in
      let at_n : n + 0 ≡ 0 + n = omega arith in
      let same =
        convert_frames-filter_exit times_coef format audio n first.0 0 exit.nsamples h
        ∙ ap (λ x. convert_frames times_coef format audio first.0 (n + 0) x)
            (nsamples-filter_exit times_coef audio n)
        ∙ ap (λ i. convert_frames times_coef format audio first.0 i left) at_n in
      ap (λ x. convert_frames times_coef format audio fs 0 x) parts
      ∙ convert_frames-add times_coef format audio fs 0 n left
      ∙ ap (λ r. (r.0, first.1 ++ r.1)) (sym same)

  convert_frames_none :
      (format : Inout) (audio : Audio) (fs : List Sampled) (n : ℕ)
      → n ≡ 0
      → convert_frames times_coef format audio fs 0 n ≡ (fs, [])
  unfolding convert_frames
  convert_frames_none format audio fs n e =
      ap (λ x. convert_frames times_coef format audio fs 0 x) e

  nchannels-filter_exit :
      (audio : Audio) (n : ℕ) → (filter_exit audio n).nchannels ≡ audio.nchannels
  unfolding filter_exit
  nchannels-filter_exit audio n = refl

  -- A turn of the loop.
  output_loop_turn :
      (fuel : ℕ) (format : Inout) (fs : List Sampled) (audio : Audio) (samplerate : ℕ)
      (out : Output J) (l : ℕ) (r : List Sampled × Audio × Output J)
      → (audio.nsamples == 0) ≡ false
      → filloutput ops times_coef format fs audio samplerate out ≡ (pos l, r.0, r.1, r.2)
      → output_loop ops times_coef (suc fuel) format fs audio samplerate out
        ≡ output_loop ops times_coef fuel format r.0 r.1 samplerate r.2
  unfolding output_loop
  output_loop_turn fuel format fs audio samplerate out l r e step = rw (e, step, step) refl

  -- The decoders' loop ends, where the jitter always gives a buffer, the output format is not empty and
  -- the buffer holds whole frames, fewer than it has room for: the audio's frames, converted in order, follow
  -- what the jitter and the buffer had.
  pub output_loop_lem :
      (fuel : ℕ) (format : Inout) (fs : List Sampled) (audio : Audio) (samplerate : ℕ)
      (out : Output J)
      → audio.nsamples < fuel
      → 0 < format.samplesize
      → 0 < format.nchannels
      → 0 < audio.nchannels
      → Filled ops (format.nchannels * format.samplesize) out
      → let c = convert_frames times_coef format audio fs 0 audio.nsamples in
        (after : Output J) × (output_loop ops times_coef fuel format fs audio samplerate out
          ≡ some (true, c.0, after))
        × (written ops after ≡ written ops out ++ c.1)
        × Filled ops (format.nchannels * format.samplesize) after
  unfolding output_loop
  output_loop_lem zero format fs audio samplerate out enough p q h filled = absurd (omega arith)
  output_loop_lem (suc fuel) format fs audio samplerate out enough p q h filled =
      elim (Bool-cases (audio.nsamples == 0)) [
        | inl e ↦
            let none_left : audio.nsamples ≡ 0 = ==→eq audio.nsamples 0 e in
            let no_bytes = convert_frames_none format audio fs audio.nsamples none_left in
            (out, rw (e, no_bytes) refl, rw no_bytes (sym (append-[] (written ops out))), filled)
        | inr e ↦
            let n = min filled.room audio.nsamples in
            let step = filloutput_lem format fs audio samplerate out p q filled in
            let first = convert_frames times_coef format audio fs 0 n in
            let exit = filter_exit audio n in
            let fewer : exit.nsamples < fuel =
              rw (nsamples-filter_exit times_coef audio n) (ground arith) in
            let channels : 0 < exit.nchannels = rw (nchannels-filter_exit audio n) h in
            let after = convert_frames times_coef format exit first.0 0 exit.nsamples in
            let rest =
              output_loop_lem fuel format first.0 exit samplerate step.1 fewer p q channels
                step.4 in
            let whole = convert_frames_rest format audio fs n h (omega arith) in
            (
              rest.0,
              output_loop_turn fuel format fs audio samplerate out step.0 (first.0, exit, step.1) e
                    step.2
                  ∙ rw whole rest.1,
              rw whole (
                  rest.2
                  ∙ ap (λ x. x ++ after.1) step.3
                  ∙ append_assoc (written ops out) first.1 after.1),
              rest.3,
            )
      ]
