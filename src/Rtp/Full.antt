-- ===== src/Rtp/Full.antt =====
-- src/mux_rtp.c, `_mux_run`: a buffer that fills a packet.
use putv.Prelude.{
  ℕ, suc, ◌+◌, ◌^◌, ◌<◌, ◌≤◌, ◌≡◌, refl, sym, ap, ◌∙◌, arith, false, none, some, List, [], ◌∷◌,
  ◌++◌, ltb, length, append_assoc, append-[],
}
use putv.Rtp.Wire.{header_bytes, length-header_bytes}
use putv.Rtp.Mux.{Estream, Mux, Packet, fill_packet, mux_run}
use putv.Rtp.Send.{open_packet_lem, run_step, sends_once, sent-Plain, appended}
use putv.Rtp.Header.{Plain, Kept, stamped}

refuses :
    (size : ℕ) (packet chunk : List ℕ) (chunks : List (List ℕ))
    → size ≤ length packet + length chunk
    → fill_packet size packet (chunk ∷ chunks) ≡ some (packet, chunk ∷ chunks)
unfolding fill_packet
refuses size packet chunk chunks full =
    let big : ltb (length packet + length chunk) size ≡ false = ground arith in rw big refl

-- The first buffer does not fit: the packet is sent with its header alone, and the buffer stays.
full_chunk_turn :
    (sec nsec : ℕ) (es : Estream) (ctx : Mux) (chunk : List ℕ) (chunks : List (List ℕ))
    → Plain ctx
    → es.pt < 2 ^ 7
    → es.ext ≡ []
    → ctx.doubled ≡ false
    → ctx.putvctrl ≡ none
    → es.chunks ≡ chunk ∷ chunks
    → ctx.out_size ≤ 16 + length chunk
    → (beat : ℕ) × (next : Mux) × (mux_run sec nsec es ctx
        ≡ (1, es, appended (header_bytes (stamped es.pt ctx)) beat next))
      × Plain next
      × Kept ctx next
full_chunk_turn sec nsec es ctx chunk chunks p small no_ext single idle first full =
    let header = header_bytes (stamped es.pt ctx) in
    let opened = open_packet_lem sec nsec es ctx p small no_ext in
    let size = length-header_bytes (stamped es.pt ctx) in
    let stays : fill_packet ctx.out_size header (chunk ∷ chunks) ≡ some (header, chunk ∷ chunks) =
      refuses ctx.out_size header chunk chunks (omega (arith, size)) in
    let sent =
      sends_once header opened.0 opened.1 (opened.4.doubled_kept ∙ single)
        (opened.4.putvctrl_kept ∙ idle) in
    (
      opened.0,
      opened.1,
      run_step sec nsec es ctx (chunk ∷ chunks) header header (chunk ∷ chunks) opened.0 opened.1
            first opened.2 stays
          ∙ ap (λ m. (1, record es { chunks = chunk ∷ chunks }, m)) sent
          ∙ ap (λ c. (1, record es { chunks = c }, appended header opened.0 opened.1)) (sym first),
      opened.3,
      opened.4,
    )

-- Turns of the muxer, at the times given, for one stream.
abbrev pub mux_turns : List (ℕ × ℕ) → Estream → Mux → Estream × Mux
mux_turns [] es ctx = (es, ctx)
mux_turns (t ∷ ts) es ctx = let r = mux_run t.0 t.1 es ctx in mux_turns ts r.1 r.2

abbrev pub HeadersAlone : List Packet → Type 0
HeadersAlone [] = Unit {0}
HeadersAlone (p ∷ ps) = (length p.bytes ≡ 16) × HeadersAlone ps

-- A stream without extension, of a muxer that sends each packet once and has no control to send, whose first
-- buffer does not fit into a packet beside the header: over any number of turns, each turn sends a packet that
-- is a header alone, and all the buffers stay.
pub full_chunk_stays :
    (ts : List (ℕ × ℕ)) (es : Estream) (ctx : Mux) (chunk : List ℕ) (chunks : List (List ℕ))
    → Plain ctx
    → es.pt < 2 ^ 7
    → es.ext ≡ []
    → ctx.doubled ≡ false
    → ctx.putvctrl ≡ none
    → es.chunks ≡ chunk ∷ chunks
    → ctx.out_size ≤ 16 + length chunk
    → (next : Mux) × (packets : List Packet) × (mux_turns ts es ctx ≡ (es, next))
      × (next.sent ≡ ctx.sent ++ packets)
      × (length packets ≡ length ts)
      × HeadersAlone packets
full_chunk_stays [] es ctx chunk chunks p small no_ext single idle first full =
    (ctx, [], refl, sym (append-[] ctx.sent), refl, tt)
full_chunk_stays (t ∷ ts) es ctx chunk chunks p small no_ext single idle first full =
    let one = full_chunk_turn t.0 t.1 es ctx chunk chunks p small no_ext single idle first full in
    let header = header_bytes (stamped es.pt ctx) in
    let sent : Packet = record { bytes = header; pulses = some one.0 } in
    let after = appended header one.0 one.1 in
    let kept = one.4 in
    let rest =
      full_chunk_stays ts es after chunk chunks (sent-Plain _ one.1 one.3) small no_ext
        (kept.doubled_kept ∙ single) (kept.putvctrl_kept ∙ idle) first
        (rw kept.out_size_kept full) in
    (
      rest.0,
      sent ∷ rest.1,
      ap (λ r. mux_turns ts r.1 r.2) one.2 ∙ rest.2,
      rest.3
          ∙ append_assoc one.1.sent (sent ∷ []) rest.1
          ∙ ap (λ l. l ++ sent ∷ rest.1) kept.sent_kept,
      ap suc rest.4,
      (length-header_bytes (stamped es.pt ctx), rest.5),
    )
