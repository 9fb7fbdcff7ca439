-- ===== src/Rtp/Sessions.antt =====
-- src/demux_rtp.c: sequence numbers, copies of a stream and other sessions.
use putv.Prelude.{
  ℕ, ◌+◌, ◌%◌, ◌^◌, ◌<◌, ◌≤◌, ◌≡◌, refl, sym, ap, ◌∙◌, inl, inr, arith, true, false, some, List,
  ◌∷◌, ◌++◌, leb, ◌==◌, length, get_elem?, Bool-cases, get_elem?-set_self,
}
use putv.Rtp.Wire.{
  bswap_16, bswap_16-lt, bswap_32, bswap_32-lt, bswap_32_twice, RtpHeader, Fits, header_bytes,
  read_header, read-header_bytes, rtpbits, putvctrl_pt,
}
use putv.Rtp.Mux.{second_source}
use putv.Rtp.Demux.{
  Out, Demux, JitterOps, find_out, is_other, is_copy, count_missing, fed, other_session, member,
  stopped,
}
use putv.Rtp.Parse.{consumed, unknown, handle, parseheader}
use putv.Rtp.Deliver.{delivered, handle_delivers}

module _ {J : Type 0} where
  -- After packet s, the first of which is not 0, packet s + 1 + k is played and the k between are
  -- counted as missing.
  pub count_missing_lem :
      (s k : ℕ) (ctx : Demux J)
      → ctx.seqnum ≡ s
      → 0 < s
      → s + 1 + k < 2 ^ 16
      → ctx.missing + k < 2 ^ 64
      → count_missing (s + 1 + k) ctx ≡ record ctx { seqnum = s + 1 + k; missing = ctx.missing + k }
  unfolding count_missing
  count_missing_lem s k ctx last some_seqnum small room = ground arith

  seqnum-count_missing :
      (seqnum : ℕ) (ctx : Demux J) → seqnum < 2 ^ 16 → (count_missing seqnum ctx).seqnum ≡ seqnum
  unfolding count_missing
  seqnum-count_missing seqnum ctx small = ground arith

  sessionid-count_missing :
      (seqnum : ℕ) (ctx : Demux J) → (count_missing seqnum ctx).sessionid ≡ ctx.sessionid
  unfolding count_missing
  sessionid-count_missing seqnum ctx = ground arith

  stopped-is_other : (ssrc : ℕ) (ctx : Demux J) → is_other ssrc (stopped ctx) ≡ false
  unfolding is_other stopped
  stopped-is_other ssrc ctx = refl

  sessions-count_missing :
      (seqnum : ℕ) (ctx : Demux J) → (count_missing seqnum ctx).sessionid2 ≡ ctx.sessionid2
  unfolding count_missing
  sessions-count_missing seqnum ctx = ground arith

-- The second source's copy of a packet is the packet with the next source in its header.
pub second_source_lem :
    (ssrc : ℕ) (h : RtpHeader) (bs : List ℕ)
    → second_source ssrc (header_bytes h ++ bs)
      ≡ header_bytes (record h { ssrc = bswap_32 ((ssrc + 1) % 2 ^ 32) }) ++ bs
unfolding second_source header_bytes rtpbits
second_source_lem ssrc h bs = refl

member_self : (ssrc : ℕ) (list : List ℕ) → member ssrc (ssrc ∷ list) ≡ true
member_self ssrc list = ground arith

module _ {J : Type 0} (ops : JitterOps J) (notify : ℕ → Demux J → Demux J) where
  -- A copy that its packet came before changes nothing.
  drops_copy :
      (h : RtpHeader) (input : List ℕ) (len : ℕ) (ctx : Demux J)
      → ctx.sessionid2 ≡ bswap_32 h.ssrc
      → bswap_16 h.seqnum ≤ ctx.seqnum
      → (h.pt == putvctrl_pt) ≡ false
      → handle ops notify h input len ctx ≡ some (consumed len, ctx)
  unfolding handle is_copy is_other
  drops_copy h input len ctx second late audio =
      let own : (ctx.sessionid2 == bswap_32 h.ssrc) ≡ true = ground arith in
      let copy : leb (bswap_16 h.seqnum) ctx.seqnum ≡ true = ground arith in
      elim (Bool-cases (ctx.sessionid == 0)) [
        | inl e ↦ rw (handle, e, audio, own, copy) refl
        | inr e ↦ elim (Bool-cases (ctx.sessionid == bswap_32 h.ssrc)) [
          | inl f ↦ rw (handle, e, f, audio, own, copy) refl
          | inr f ↦ rw (handle, e, f, own, audio, own, copy) refl
        ]
      ]

  other_twice :
      (ssrc pt : ℕ) (ctx : Demux J)
      → other_session ssrc pt (other_session ssrc pt ctx) ≡ other_session ssrc pt ctx
  unfolding other_session
  other_twice ssrc pt ctx = elim (Bool-cases (member ssrc ctx.sessionlist)) [
    | inl e ↦ rw (e, e) refl
    | inr e ↦ rw (e, member_self ssrc ctx.sessionlist) refl
  ]

  is_other-other_session :
      (ssrc pt : ℕ) (ctx : Demux J) → is_other ssrc (other_session ssrc pt ctx) ≡ is_other ssrc ctx
  unfolding is_other other_session
  is_other-other_session ssrc pt ctx = elim (Bool-cases (member ssrc ctx.sessionlist)) [
    | inl e ↦ rw e refl
    | inr e ↦ rw e refl
  ]

  outs-other_session : (ssrc pt : ℕ) (ctx : Demux J) → (other_session ssrc pt ctx).outs ≡ ctx.outs
  unfolding other_session
  outs-other_session ssrc pt ctx = elim (Bool-cases (member ssrc ctx.sessionlist)) [
    | inl e ↦ rw e refl
    | inr e ↦ rw e refl
  ]

  -- A packet of another session is answered -1 and leaves the substreams as they are, and one more like
  -- it changes nothing: its source is offered to the media list once.
  pub offered_once :
      (h : RtpHeader) (input : List ℕ) (len : ℕ) (ctx : Demux J)
      → is_other (bswap_32 h.ssrc) ctx ≡ true
      → (after : Demux J) × (handle ops notify h input len ctx ≡ some (unknown, after))
        × (after.outs ≡ ctx.outs)
        × (handle ops notify h input len after ≡ some (unknown, after))
  unfolding handle
  offered_once h input len ctx other =
      let after = other_session (bswap_32 h.ssrc) h.pt ctx in
      let still = is_other-other_session (bswap_32 h.ssrc) h.pt ctx ∙ other in
      (
        after,
        rw other refl,
        outs-other_session (bswap_32 h.ssrc) h.pt ctx,
        rw (still, other_twice (bswap_32 h.ssrc) h.pt ctx) refl,
      )

  -- Where the demuxer's second session is the muxer's second source, ssrc + 1: of a stream that is sent twice,
  -- the second copy of a packet that is no control and whose first was delivered changes nothing.
  pub second_source_dropped :
      (ssrc : ℕ) (h : RtpHeader) (bs : List ℕ) (len i : ℕ) (out : Out J) (l : J) (ctx : Demux J)
      → Fits h
      → (h.pt == putvctrl_pt) ≡ false
      → ctx.sessionid2 ≡ (ssrc + 1) % 2 ^ 32
      → parseheader ops notify
          (second_source ssrc (header_bytes h ++ bs))
          len
          (delivered h i out l ctx)
        ≡ some (consumed len, delivered h i out l ctx)
  unfolding parseheader
  second_source_dropped ssrc h bs len i out l ctx fits audio second =
      let copy = record h { ssrc = bswap_32 ((ssrc + 1) % 2 ^ 32) } in
      let seqnum = bswap_16 h.seqnum in
      let kept =
        sessions-count_missing seqnum ctx
        ∙ second
        ∙ sym (bswap_32_twice ((ssrc + 1) % 2 ^ 32) (omega arith)) in
      let counted = seqnum-count_missing seqnum ctx (bswap_16-lt h.seqnum) in
      let fits_copy : Fits copy = record {
        cc_fits = fits.cc_fits;
        x_fits = fits.x_fits;
        p_fits = fits.p_fits;
        v_fits = fits.v_fits;
        pt_fits = fits.pt_fits;
        m_fits = fits.m_fits;
        seqnum_fits = fits.seqnum_fits;
        timestamp_fits = fits.timestamp_fits;
        ssrc_fits = bswap_32-lt ((ssrc + 1) % 2 ^ 32) (omega arith);
        csrc_fits = fits.csrc_fits;
      } in
      let input = second_source ssrc (header_bytes h ++ bs) in
      let ctx' = delivered h i out l ctx in
      let read : read_header input ≡ copy =
        ap read_header (second_source_lem ssrc h bs) ∙ read-header_bytes copy bs fits_copy in
      ap (λ g. handle ops notify g input len ctx') read
      ∙ drops_copy copy input len ctx' kept (omega (arith, counted)) audio

module _ {J : Type 0} (ops : JitterOps J) (notify : ℕ → Demux J → Demux J)
    (pulls : (j : J) → (k : J) × (ops.pull j ≡ some k)) where
  -- After the player stopped, a packet of whatever source is played, where its type is one that plays,
  -- and the source is not kept: the next packet may be of another one.
  stopped_plays_any :
      (h : RtpHeader) (bs : List ℕ) (i : ℕ) (out : Out J) (j : J) (ctx : Demux J)
      → h.cc ≡ 0
      → h.x ≡ 0
      → 16 + length bs < 2 ^ 64
      → is_copy (bswap_32 h.ssrc) (bswap_16 h.seqnum) ctx ≡ false
      → (h.pt == putvctrl_pt) ≡ false
      → find_out (bswap_32 h.ssrc) h.pt ctx.outs ≡ some i
      → get_elem? ctx.outs i ≡ some out
      → out.jitter ≡ some j
      → 0 < ops.size j
      → (l : J) × (after : Demux J) × (handle ops notify h
            (header_bytes h ++ bs)
            (16 + length bs)
            (stopped ctx)
          ≡ some (consumed (16 + length bs), after))
        × (get_elem? after.outs i ≡ some (fed out l))
        × (ops.content l ≡ ops.content j ++ bs)
        × (after.sessionid ≡ 0)
  unfolding stopped is_copy
  stopped_plays_any h bs i out j ctx no_csrc no_ext small fresh audio found at_i has_jitter
        positive =
      let got =
        handle_delivers ops pulls notify h bs i out j (stopped ctx) no_csrc no_ext small
          (stopped-is_other (bswap_32 h.ssrc) ctx) fresh audio found at_i has_jitter positive in
      (
        got.0,
        delivered h i out got.0 (stopped ctx),
        got.1,
        get_elem?-set_self ctx.outs i out (fed out got.0) at_i,
        got.2,
        sessionid-count_missing (bswap_16 h.seqnum) (stopped ctx),
      )
