-- ===== src/Rtp/Losses.antt =====
-- src/mux_rtp.c and src/demux_rtp.c: buffers that are lost or held up, and the extension of PCM streams.
use putv.Prelude.{
  ℕ, ◌+◌, ◌*◌, ◌/◌, ◌%◌, ◌^◌, ◌<◌, ◌≤◌, ◌≡◌, refl, ap, ◌∙◌, arith, true, false, none, some, List,
  [], ◌∷◌, ◌++◌, ltb, leb, ◌==◌, length, get_elem?, get_elem?-set_self, lt→ltb, concat,
  length-append,
}
use putv.Rtp.Wire.{bswap_16, bswap_32, RtpHeader, header_bytes, length-header_bytes, putvctrl_pt}
use putv.Rtp.Mux.{Estream, Mux, next_seqnum, mux_beat, fill_packet, open_packet, mux_run}
use putv.Rtp.Attach.{pcm_ext}
use putv.Rtp.Send.{open_packet_lem}
use putv.Rtp.Header.{Plain, stamped}
use putv.Rtp.Demux.{
  Out, Demux, JitterOps, Located, locate, payload, find_out, is_other, is_copy, fed,
}
use putv.Rtp.Parse.{handle, deliver, consumed}
use putv.Rtp.Deliver.{delivered, handle_delivers, getout_known, opened_lem}

-- The clock's seconds stay: what is carried to them was reduced modulo a second before.
pub beat_seconds_stay : (sec nsec : ℕ) (ctx : Mux) → (mux_beat sec nsec ctx).0.tv_sec ≡ ctx.tv_sec
unfolding mux_beat
beat_seconds_stay sec nsec ctx = ground arith

runs_out :
    (size : ℕ) (packet : List ℕ) (chunks : List (List ℕ))
    → length packet + length (concat chunks) < size
    → fill_packet size packet chunks ≡ none
unfolding fill_packet
runs_out size packet [] room = refl
runs_out size packet (chunk ∷ chunks) room =
    let all = length-append chunk (concat chunks) in
    let total = length-append packet chunk in
    let fits : ltb (length packet + length chunk) size ≡ true =
      lt→ltb (length packet + length chunk) size (omega (arith, all)) in
    rw fits (runs_out size (packet ++ chunk) chunks (omega (arith, all, total)))

lost_step :
    (sec nsec : ℕ) (es : Estream) (ctx : Mux) (chunk : List ℕ) (chunks : List (List ℕ))
    (header : List ℕ) (beat : ℕ) (next : Mux)
    → es.chunks ≡ chunk ∷ chunks
    → open_packet sec nsec es ctx ≡ (header, beat, next)
    → fill_packet ctx.out_size header (chunk ∷ chunks) ≡ none
    → mux_run sec nsec es ctx ≡ (0, record es { chunks = [] }, next)
unfolding mux_run
lost_step sec nsec es ctx chunk chunks header beat next first opened none_left =
    rw (mux_run, first, opened, first, none_left, opened) refl

-- Less is queued than fills the packet before `peer` returns NULL: 0 is returned, no packet is sent, and
-- the buffers are gone.
pub tail_lost :
    (sec nsec : ℕ) (es : Estream) (ctx : Mux) (chunk : List ℕ) (chunks : List (List ℕ))
    → Plain ctx
    → es.pt < 2 ^ 7
    → es.ext ≡ []
    → es.chunks ≡ chunk ∷ chunks
    → 16 + length (concat es.chunks) < ctx.out_size
    → (next : Mux) × (mux_run sec nsec es ctx ≡ (0, record es { chunks = [] }, next))
      × (next.sent ≡ ctx.sent)
tail_lost sec nsec es ctx chunk chunks p small no_ext first few =
    let header = header_bytes (stamped es.pt ctx) in
    let opened = open_packet_lem sec nsec es ctx p small no_ext in
    let size = length-header_bytes (stamped es.pt ctx) in
    let room : length header + length (concat (chunk ∷ chunks)) < ctx.out_size =
      omega (arith, size, few, ap (λ c. length (concat c)) first) in
    (
      opened.1,
      lost_step sec nsec es ctx chunk chunks header opened.0 opened.1 first opened.2
          (runs_out ctx.out_size header (chunk ∷ chunks) room),
      opened.4.sent_kept,
    )

-- A stream with an extension is opened by the header as it is and the extension; the next header has its
-- flag set.
open_extended :
    (sec nsec : ℕ) (es : Estream) (ctx : Mux) (b : ℕ) (bs : List ℕ)
    → es.ext ≡ b ∷ bs
    → (beat : ℕ) × (next : Mux) × (open_packet sec nsec es ctx
        ≡ (header_bytes (stamped es.pt ctx) ++ es.ext, beat, next))
      × (next.header.x ≡ 1)
unfolding open_packet
open_extended sec nsec es ctx b bs extended =
    let stepped = next_seqnum (record ctx { header = stamped es.pt ctx }) in
    let timed = mux_beat sec nsec stepped in
    (
      timed.1,
      record (timed.0) { header = record (timed.0.header) { x = 1 } },
      rw (open_packet, extended, extended) refl,
      refl,
    )

locate_extended :
    (h : RtpHeader) (format samplerate n : ℕ) (bs : List ℕ)
    → h.cc ≡ 0
    → h.x ≡ 1
    → format / 2 ^ 16 ≡ 0x8001
    → (locate (header_bytes h ++ pcm_ext format samplerate ++ bs) n h).start ≡ 32789
unfolding locate header_bytes
locate_extended h format samplerate n bs no_csrc extended audio =
    let length : format / 256 / 256 % 256 + 256 * (format / 256 / 256 / 256 % 256 + 256 * 0)
        ≡ 32769 =
      omega arith in
    rw (no_csrc, extended, length) refl

payload_beyond : (input : List ℕ) (at : Located) → length input < at.start → payload input at ≡ none
payload_beyond input at beyond =
    let outside : leb (at.start + at.len) (length input) ≡ false = ground arith in rw outside refl

module _ {J : Type 0} (ops : JitterOps J) (notify : ℕ → Demux J → Demux J)
    (pulls : (j : J) → (k : J) × (ops.pull j ≡ some k)) where
  delivers_nothing :
      (h : RtpHeader) (orig i : ℕ) (out : Out J) (j : J) (ctx : Demux J)
      → deliver ops h orig none i out j ctx ≡ none
  unfolding deliver
  delivers_nothing h orig i out j ctx = rw (deliver, (opened_lem ops pulls out.pulled j).1) refl

  -- A packet with the extension of a PCM stream, whose format has 0x8001 as its upper half, of at most
  -- 32000 bytes of payload: the demuxer takes that half for the extension's length and reads past the end
  -- of the packet.
  pub pcm_overruns :
      (h : RtpHeader) (format samplerate : ℕ) (bs : List ℕ) (i : ℕ) (out : Out J) (j : J)
      (ctx : Demux J)
      → h.cc ≡ 0
      → h.x ≡ 1
      → format / 2 ^ 16 ≡ 0x8001
      → length bs ≤ 32000
      → is_other (bswap_32 h.ssrc) ctx ≡ false
      → is_copy (bswap_32 h.ssrc) (bswap_16 h.seqnum) ctx ≡ false
      → (h.pt == putvctrl_pt) ≡ false
      → find_out (bswap_32 h.ssrc) h.pt ctx.outs ≡ some i
      → get_elem? ctx.outs i ≡ some out
      → out.jitter ≡ some j
      → handle ops notify h (header_bytes h ++ pcm_ext format samplerate ++ bs) (24 + length bs) ctx
        ≡ none
  unfolding handle header_bytes deliver
  pcm_overruns h format samplerate bs i out j ctx no_csrc extended audio_format short own fresh
        audio found at_i has_jitter =
      let input = header_bytes h ++ pcm_ext format samplerate ++ bs in
      let at = locate input (24 + length bs) h in
      let size : length input ≡ 24 + length bs =
        length-append (header_bytes h) (pcm_ext format samplerate ++ bs)
        ∙ ap (λ n. n + length (pcm_ext format samplerate ++ bs)) (length-header_bytes h)
        ∙ omega arith in
      let start =
        locate_extended h format samplerate (24 + length bs) bs no_csrc extended audio_format in
      let nothing = payload_beyond input at (omega (arith, size, start)) in
      let got = getout_known notify h i (bswap_32 h.ssrc) ctx found in
      rw (handle, own, audio, fresh, got, got, at_i, has_jitter, got, nothing)
        (delivers_nothing h (24 + length bs) i (record out { jitter = some j }) j ctx)

  -- The first packet of a stream with an extension does not have the flag for it: the demuxer gives the
  -- extension to the decoder as the first bytes of the stream.
  pub first_extension_played :
      (m : Mux) (es : Estream) (b : ℕ) (ext bs : List ℕ) (i : ℕ) (out : Out J) (j : J)
      (ctx : Demux J) (sec nsec : ℕ)
      → Plain m
      → es.ext ≡ b ∷ ext
      → 16 + length (es.ext ++ bs) < 2 ^ 64
      → is_other (bswap_32 m.header.ssrc) ctx ≡ false
      → is_copy (bswap_32 m.header.ssrc) (bswap_16 m.header.seqnum) ctx ≡ false
      → (es.pt == putvctrl_pt) ≡ false
      → find_out (bswap_32 m.header.ssrc) es.pt ctx.outs ≡ some i
      → get_elem? ctx.outs i ≡ some out
      → out.jitter ≡ some j
      → 0 < ops.size j
      → (beat : ℕ) × (next : Mux) × (l : J) × (after : Demux J) × (open_packet sec nsec es m
          ≡ (header_bytes (stamped es.pt m) ++ es.ext, beat, next))
        × (handle ops notify
              (stamped es.pt m)
              (header_bytes (stamped es.pt m) ++ (es.ext ++ bs))
              (16 + length (es.ext ++ bs))
              ctx
            ≡ some (consumed (16 + length (es.ext ++ bs)), after))
        × (ops.content l ≡ ops.content j ++ (es.ext ++ bs))
        × (get_elem? after.outs i ≡ some (fed out l))
  first_extension_played m es b ext bs i out j ctx sec nsec plain extended small own fresh audio
        found at_i has_jitter positive =
      let sent = open_extended sec nsec es m b ext extended in
      let got =
        handle_delivers ops pulls notify (stamped es.pt m) (es.ext ++ bs) i out j ctx plain.no_csrc
          plain.no_ext small own fresh audio found at_i has_jitter positive in
      (
        sent.0,
        sent.1,
        got.0,
        delivered (stamped es.pt m) i out got.0 ctx,
        sent.2,
        got.1,
        got.2,
        get_elem?-set_self ctx.outs i out (fed out got.0) at_i,
      )
