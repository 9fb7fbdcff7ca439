-- ===== src/Rtp/Send.antt =====
-- src/mux_rtp.c, `_mux_run`: the packets that it sends and the buffers that it takes.
use putv.Prelude.{
  ℕ, ◌+◌, ◌^◌, ◌<◌, ◌≤◌, ◌≡◌, refl, ap, ◌∙◌, inl, inr, arith, false, none, some, List, [], ◌∷◌,
  ◌++◌, ltb, length, Bool-cases, ltb→lt, append_assoc, append-[], concat, length-append,
}
use putv.Rtp.Wire.{header_bytes, length-header_bytes}
use putv.Rtp.Header.{
  Plain, Kept, Kept-trans, stamped, next_seqnum-Plain, mux_beat-Plain, mux_beat-Kept,
  next_seqnum-Kept,
}
use putv.Rtp.Mux.{
  Estream, Mux, Packet, next_seqnum, mux_beat, fill_packet, send_packet, send_control, open_packet,
  mux_run,
}

-- Where more is queued than the packet holds, the loop ends with the longest row of whole buffers, from the
-- first on, with which the packet is not full: the next buffer would fill it, and that and the others stay.
pub fill_packet_lem :
    (size : ℕ) (packet : List ℕ) (chunks : List (List ℕ))
    → length packet < size
    → size ≤ length packet + length (concat chunks)
    → (taken : List (List ℕ)) × (next : List ℕ) × (rest : List (List ℕ)) × (fill_packet size packet
          chunks
        ≡ some (packet ++ concat taken, next ∷ rest))
      × (chunks ≡ taken ++ next ∷ rest)
      × (length packet + length (concat taken) < size)
      × (size ≤ length packet + length (concat taken) + length next)
unfolding fill_packet
fill_packet_lem size packet [] room queued = absurd (omega arith)
fill_packet_lem size packet (chunk ∷ chunks) room queued =
    elim (Bool-cases (ltb (length packet + length chunk) size)) [
      | inr e ↦ ([], chunk, chunks, rw (e, append-[] packet) refl, refl, omega arith, ground arith)
      | inl e ↦
          let total = length-append packet chunk in
          let all = length-append chunk (concat chunks) in
          let fits = ltb→lt (length packet + length chunk) size e in
          let more =
            fill_packet_lem size (packet ++ chunk) chunks (omega (arith, total, fits))
              (omega (arith, total, all)) in
          let both = length-append chunk (concat more.0) in
          (
            chunk ∷ more.0,
            more.1,
            more.2,
            rw e (
                more.3
                ∙ ap (λ p. some (p, more.1 ∷ more.2)) (append_assoc packet chunk (concat more.0))),
            ap (λ c. chunk ∷ c) more.4,
            omega (arith, more.5, total, both),
            omega (arith, more.6, total, both),
          )
    ]

-- A packet without extension is opened by the header alone.
pub open_packet_lem :
    (sec nsec : ℕ) (es : Estream) (ctx : Mux)
    → Plain ctx
    → es.pt < 2 ^ 7
    → es.ext ≡ []
    → (beat : ℕ) × (next : Mux) × (open_packet sec nsec es ctx
        ≡ (header_bytes (stamped es.pt ctx), beat, next))
      × Plain next
      × Kept ctx next
unfolding open_packet
open_packet_lem sec nsec es ctx p small no_ext =
    let stepped = next_seqnum (record ctx { header = stamped es.pt ctx }) in
    let timed = mux_beat sec nsec stepped in
    (
      timed.1,
      timed.0,
      rw no_ext refl,
      mux_beat-Plain sec nsec stepped (next_seqnum-Plain es.pt ctx p small),
      Kept-trans ctx stepped timed.0 (next_seqnum-Kept es.pt ctx) (mux_beat-Kept sec nsec stepped),
    )

-- The muxer after it sent one packet.
abbrev pub appended : List ℕ → ℕ → Mux → Mux
appended packet beat ctx = record ctx {
  sent = ctx.sent ++ record { bytes = packet; pulses = some beat } ∷ [];
}

pub sends_once :
    (packet : List ℕ) (beat : ℕ) (ctx : Mux)
    → ctx.doubled ≡ false
    → ctx.putvctrl ≡ none
    → send_control (send_packet packet beat ctx) ≡ appended packet beat ctx
unfolding send_control send_packet
sends_once packet beat ctx single idle = rw (idle, single) refl

pub sent-Plain : (sent : List Packet) (ctx : Mux) → Plain ctx → Plain (record ctx { sent = sent })
sent-Plain sent ctx p = record {
  fits = p.fits;
  no_csrc = p.no_csrc;
  no_ext = p.no_ext;
  ssrc_fits = p.ssrc_fits;
  seqnum_fits = p.seqnum_fits;
  same_ssrc = p.same_ssrc;
  same_seqnum = p.same_seqnum;
}

fills_nothing : (size : ℕ) (packet : List ℕ) → fill_packet size packet [] ≡ none
unfolding fill_packet
fills_nothing size packet = refl

pub run_step :
    (sec nsec : ℕ) (es : Estream) (ctx : Mux) (chunks : List (List ℕ)) (header packet : List ℕ)
    (rest : List (List ℕ)) (beat : ℕ) (next : Mux)
    → es.chunks ≡ chunks
    → open_packet sec nsec es ctx ≡ (header, beat, next)
    → fill_packet ctx.out_size header chunks ≡ some (packet, rest)
    → mux_run sec nsec es ctx
      ≡ (1, record es { chunks = rest }, send_control (send_packet packet beat next))
unfolding mux_run
run_step sec nsec es ctx [] header packet rest beat next same opened filled =
    let nothing = fills_nothing ctx.out_size header in absurd cc
run_step sec nsec es ctx (c ∷ chunks) header packet rest beat next same opened filled =
    rw (mux_run, same, opened, same, filled, opened) refl

-- A stream without extension, with no control to send and a packet's worth of data queued, of a muxer that
-- sends each packet once, in packets with room for more than the header: one packet is sent. It has the muxer's header and the longest row of whole buffers,
-- from the first on, with which it is not full; the others stay.
pub mux_run_lem :
    (sec nsec : ℕ) (es : Estream) (ctx : Mux)
    → Plain ctx
    → es.pt < 2 ^ 7
    → es.ext ≡ []
    → ctx.doubled ≡ false
    → ctx.putvctrl ≡ none
    → 16 < ctx.out_size
    → ctx.out_size ≤ 16 + length (concat es.chunks)
    → (taken : List (List ℕ)) × (first : List ℕ) × (rest : List (List ℕ)) × (beat : ℕ)
      × (next : Mux) × (mux_run sec nsec es ctx ≡ (
        1,
        record es { chunks = first ∷ rest },
        appended (header_bytes (stamped es.pt ctx) ++ concat taken) beat next,
      ))
      × (es.chunks ≡ taken ++ first ∷ rest)
      × (16 + length (concat taken) < ctx.out_size)
      × (ctx.out_size ≤ 16 + length (concat taken) + length first)
      × Plain next
      × Kept ctx next
unfolding mux_run
mux_run_lem sec nsec es ctx p small no_ext single idle room queued =
    let opened = open_packet_lem sec nsec es ctx p small no_ext in
    let header = header_bytes (stamped es.pt ctx) in
    let kept = opened.4 in
    let size = length-header_bytes (stamped es.pt ctx) in
    let filled =
      fill_packet_lem ctx.out_size header es.chunks (omega (arith, size)) (omega (arith, size)) in
    let bytes = concat filled.0 in
    let left = filled.1 ∷ filled.2 in
    let sent =
      sends_once (header ++ bytes) opened.0 opened.1 (kept.doubled_kept ∙ single)
        (kept.putvctrl_kept ∙ idle) in
    (
      filled.0,
      filled.1,
      filled.2,
      opened.0,
      opened.1,
      run_step sec nsec es ctx es.chunks header (header ++ bytes) left opened.0 opened.1 refl
            opened.2 filled.3
          ∙ ap (λ m. (1, record es { chunks = left }, m)) sent,
      filled.4,
      omega (arith, size, filled.5),
      omega (arith, size, filled.6),
      opened.3,
      kept,
    )
