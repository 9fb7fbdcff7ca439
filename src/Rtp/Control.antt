-- ===== src/Rtp/Control.antt =====
-- src/mux_rtp.c and src/demux_rtp.c: the player's volume and stop, from the one to the other.
use putv.Prelude.{
  ℕ, ◌+◌, ◌*◌, ◌/◌, ◌%◌, ◌^◌, ◌<◌, ◌≡◌, refl, ap, ◌∙◌, arith, true, false, some, [], ◌∷◌, ◌++◌,
  length, drop,
}
use putv.Prelude.Int.{pos}
use putv.Rtp.Wire.{
  put_le, bswap_32, bswap_32_twice, RtpHeader, Fits, header_bytes, read_header, read-header_bytes,
  Putvctrl, putvctrl_pt, putvctrl_size, putvctrl_bytes, read_putvctrl,
}
use putv.Rtp.Mux.{Packet, Mux, volume_event, changed, mux_player_cb, control_packet, send_control}
use putv.Rtp.Mux
use putv.Rtp.Demux
use putv.Rtp.Demux.{Demux, JitterOps, set_volume, Located, locate, is_other, stopped}
use putv.Rtp.Parse.{consumed, handle, parseheader}
use putv.Rtp.Header.{Plain}

abbrev flagged : RtpHeader → RtpHeader
flagged h = record h { pt = putvctrl_pt; x = 1 }

-- A control packet is 28 bytes long, and all of it is skipped.
length-control_packet : (h : RtpHeader) (c : Putvctrl) → length (control_packet h c).bytes ≡ 28
unfolding control_packet header_bytes
length-control_packet h c = refl

locate_control :
    (h : RtpHeader) (c : Putvctrl)
    → h.cc ≡ 0
    → locate (control_packet h c).bytes 28 (flagged h)
      ≡ record { start = 28; len = 0; extheader = some 16 }
unfolding locate control_packet header_bytes
locate_control h c no_csrc = rw no_csrc refl

read_command :
    (h : RtpHeader) (id value : ℕ)
    → id < 256
    → read_putvctrl (drop 20 (control_packet h (Mux.control id value)).bytes) ≡ Mux.control id value
unfolding read_putvctrl control_packet header_bytes Mux.control
read_command h id value small =
    let name : id % 256 + 256 * 0 ≡ id = omega arith in
    let word : value % 65536 % 256 + 256 * (value % 65536 / 256 % 256 + 256 * 0) ≡ value % 65536 =
      omega arith in
    rw (name, word) refl

read-flagged :
    (h : RtpHeader) (c : Putvctrl)
    → Fits (flagged h)
    → read_header (control_packet h c).bytes ≡ flagged h
unfolding control_packet
read-flagged h c fits =
    read-header_bytes (flagged h)
      (put_le 2 putvctrl_pt ++ put_le 2 putvctrl_size ++ putvctrl_bytes c) fits

obeys_volume :
    {J : Type 0} (h : RtpHeader) (v : ℕ) (ctx : Demux J)
    → v < 2 ^ 16
    → Demux.control (control_packet h (Mux.control 2 v)).bytes 16 ctx
      ≡ record ctx { requests = set_volume (v % 100) ∷ ctx.requests }
unfolding Demux.control Demux.obey Mux.control
obeys_volume h v ctx small =
    let word : v % 2 ^ 16 ≡ v = omega arith in
    ap (λ c. Demux.obey c ctx) (read_command h 2 v (omega arith))
    ∙ ap (λ n. record ctx { requests = set_volume (n % 100) ∷ ctx.requests }) word

obeys_stop :
    {J : Type 0} (h : RtpHeader) (ctx : Demux J)
    → Demux.control (control_packet h (Mux.control 1 1)).bytes 16 ctx ≡ stopped ctx
unfolding Demux.control Demux.obey Mux.control stopped
obeys_stop h ctx = ap (λ c. Demux.obey c ctx) (read_command h 1 1 (omega arith))

module _ {J : Type 0} (ops : JitterOps J) (notify : ℕ → Demux J → Demux J) where
  control_arrives :
      (h : RtpHeader) (id value : ℕ) (ctx : Demux J)
      → Fits h
      → h.cc ≡ 0
      → id < 256
      → is_other (bswap_32 h.ssrc) ctx ≡ false
      → parseheader ops notify
          (control_packet h (Mux.control id value)).bytes
          (length (control_packet h (Mux.control id value)).bytes)
          ctx
        ≡ some (consumed 36, Demux.control (control_packet h (Mux.control id value)).bytes 16 ctx)
  unfolding parseheader handle
  control_arrives h id value ctx fits no_csrc small own =
      let c = Mux.control id value in
      let input = (control_packet h c).bytes in
      let fits' : Fits (flagged h) = record {
        cc_fits = fits.cc_fits;
        x_fits = omega arith;
        p_fits = fits.p_fits;
        v_fits = fits.v_fits;
        pt_fits = omega arith;
        m_fits = fits.m_fits;
        seqnum_fits = fits.seqnum_fits;
        timestamp_fits = fits.timestamp_fits;
        ssrc_fits = fits.ssrc_fits;
        csrc_fits = fits.csrc_fits;
      } in
      let read : read_header input ≡ flagged h = read-flagged h c fits' in
      ap (λ n. parseheader ops notify input n ctx) (length-control_packet h c)
      ∙ ap (λ g. handle ops notify g input 28 ctx) read
      ∙ rw (handle, locate_control h c no_csrc, own, locate_control h c no_csrc) refl

  -- The player's volume, of 16 bits, reaches the player at the other end modulo 100, where the demuxer
  -- plays the muxer's source: as it is below 100, and as 0 at 100.
  pub volume_arrives :
      (v : ℕ) (m : Mux) (ctx : Demux J)
      → v < 2 ^ 16
      → Plain m
      → is_other m.ssrc ctx ≡ false
      → (packet : Packet) × ((send_control (mux_player_cb (volume_event (pos v)) m).0).sent
          ≡ m.sent ++ packet ∷ [])
        × (parseheader ops notify packet.bytes (length packet.bytes) ctx
            ≡ some (consumed 36, record ctx { requests = set_volume (v % 100) ∷ ctx.requests }))
  unfolding send_control mux_player_cb
  volume_arrives v m ctx small plain own =
      let source : bswap_32 m.header.ssrc ≡ m.ssrc =
        ap bswap_32 plain.same_ssrc ∙ bswap_32_twice m.ssrc plain.ssrc_fits in
      (
        control_packet m.header (Mux.control 2 v),
        refl,
        control_arrives m.header 2 v ctx plain.fits plain.no_csrc (omega arith) (rw source own)
            ∙ ap (λ d. some (consumed 36, d)) (obeys_volume m.header v ctx small),
      )

  -- The player's stop, STATE_STOP being 1, ends the demuxer's session, where that is the muxer's source.
  pub stop_arrives :
      (m : Mux) (ctx : Demux J)
      → Plain m
      → is_other m.ssrc ctx ≡ false
      → (packet : Packet) × ((send_control (mux_player_cb (changed true 1) m).0).sent
          ≡ m.sent ++ packet ∷ [])
        × (parseheader ops notify packet.bytes (length packet.bytes) ctx
            ≡ some (consumed 36, stopped ctx))
  unfolding send_control mux_player_cb
  stop_arrives m ctx plain own =
      let source : bswap_32 m.header.ssrc ≡ m.ssrc =
        ap bswap_32 plain.same_ssrc ∙ bswap_32_twice m.ssrc plain.ssrc_fits in
      (
        control_packet m.header (Mux.control 1 1),
        refl,
        control_arrives m.header 1 1 ctx plain.fits plain.no_csrc (omega arith) (rw source own)
            ∙ ap (λ d. some (consumed 36, d)) (obeys_stop m.header ctx),
      )
