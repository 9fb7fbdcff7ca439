-- ===== src/Rtp/Header.antt =====
-- src/mux_rtp.c: the header from one packet to the next.
use putv.Prelude.{ℕ, ◌+◌, ◌^◌, ◌<◌, ◌≡◌, refl, ◌∙◌, inl, inr, arith, ◌||◌, ltb, Bool-cases}
use putv.Rtp.Wire.{bswap_16, bswap_16-lt, bswap_32, RtpHeader, Fits}
use putv.Rtp.Mux.{Mux, next_seqnum, mux_beat}

-- The muxer's header is one that a packet without extension can have: its fields fit, and the source and
-- the sequence number are the muxer's, the first byte the highest.
pub record Plain (ctx : Mux) : Type 0 where
  pub fits : Fits ctx.header
  pub no_csrc : ctx.header.cc ≡ 0
  pub no_ext : ctx.header.x ≡ 0
  pub ssrc_fits : ctx.ssrc < 2 ^ 32
  pub seqnum_fits : ctx.seqnum < 2 ^ 16
  pub same_ssrc : ctx.header.ssrc ≡ bswap_32 ctx.ssrc
  pub same_seqnum : ctx.header.seqnum ≡ bswap_16 ctx.seqnum

-- A stream's type fits in its bits and has no extension.
abbrev pub stamped : ℕ → Mux → RtpHeader
stamped pt ctx = record (ctx.header) { pt = pt }

pub stamped-Fits : (pt : ℕ) (ctx : Mux) → Plain ctx → pt < 2 ^ 7 → Fits (stamped pt ctx)
stamped-Fits pt ctx p small = record {
  cc_fits = p.fits.cc_fits;
  x_fits = p.fits.x_fits;
  p_fits = p.fits.p_fits;
  v_fits = p.fits.v_fits;
  pt_fits = small;
  m_fits = p.fits.m_fits;
  seqnum_fits = p.fits.seqnum_fits;
  timestamp_fits = p.fits.timestamp_fits;
  ssrc_fits = p.fits.ssrc_fits;
  csrc_fits = p.fits.csrc_fits;
}

pub next_seqnum-Plain :
    (pt : ℕ) (ctx : Mux)
    → Plain ctx
    → pt < 2 ^ 7
    → Plain (next_seqnum (record ctx { header = stamped pt ctx }))
unfolding next_seqnum
next_seqnum-Plain pt ctx p small = record {
  fits = record {
    cc_fits = p.fits.cc_fits;
    x_fits = p.fits.x_fits;
    p_fits = p.fits.p_fits;
    v_fits = p.fits.v_fits;
    pt_fits = small;
    m_fits = ground arith;
    seqnum_fits = bswap_16-lt _;
    timestamp_fits = p.fits.timestamp_fits;
    ssrc_fits = p.fits.ssrc_fits;
    csrc_fits = p.fits.csrc_fits;
  };
  no_csrc = p.no_csrc;
  no_ext = p.no_ext;
  ssrc_fits = p.ssrc_fits;
  seqnum_fits = ground arith;
  same_ssrc = p.same_ssrc;
  same_seqnum = refl;
}

pub mux_beat-Plain : (sec nsec : ℕ) (ctx : Mux) → Plain ctx → Plain (mux_beat sec nsec ctx).0
unfolding mux_beat
mux_beat-Plain sec nsec ctx p =
    elim (Bool-cases (ltb ctx.tv_sec sec || ltb (ctx.tv_nsec + 10000000) nsec)) [
      | inr e ↦ rw e p
      | inl e ↦ rw e (record {
        fits = record {
          cc_fits = p.fits.cc_fits;
          x_fits = p.fits.x_fits;
          p_fits = p.fits.p_fits;
          v_fits = p.fits.v_fits;
          pt_fits = p.fits.pt_fits;
          m_fits = p.fits.m_fits;
          seqnum_fits = p.fits.seqnum_fits;
          timestamp_fits = ground arith;
          ssrc_fits = p.fits.ssrc_fits;
          csrc_fits = p.fits.csrc_fits;
        };
        no_csrc = p.no_csrc;
        no_ext = p.no_ext;
        ssrc_fits = p.ssrc_fits;
        seqnum_fits = p.seqnum_fits;
        same_ssrc = p.same_ssrc;
        same_seqnum = p.same_seqnum;
      })
    ]

-- What opening a packet leaves as it was.
pub record Kept (ctx after : Mux) : Type 0 where
  pub out_size_kept : after.out_size ≡ ctx.out_size
  pub sent_kept : after.sent ≡ ctx.sent
  pub ssrc_kept : after.ssrc ≡ ctx.ssrc
  pub doubled_kept : after.doubled ≡ ctx.doubled
  pub putvctrl_kept : after.putvctrl ≡ ctx.putvctrl

pub mux_beat-Kept : (sec nsec : ℕ) (ctx : Mux) → Kept ctx (mux_beat sec nsec ctx).0
unfolding mux_beat
mux_beat-Kept sec nsec ctx =
    elim (Bool-cases (ltb ctx.tv_sec sec || ltb (ctx.tv_nsec + 10000000) nsec)) [
      | inr e ↦ rw e (record {
        out_size_kept = refl;
        sent_kept = refl;
        ssrc_kept = refl;
        doubled_kept = refl;
        putvctrl_kept = refl;
      })
      | inl e ↦ rw e (record {
        out_size_kept = refl;
        sent_kept = refl;
        ssrc_kept = refl;
        doubled_kept = refl;
        putvctrl_kept = refl;
      })
    ]

pub next_seqnum-Kept :
    (pt : ℕ) (ctx : Mux) → Kept ctx (next_seqnum (record ctx { header = stamped pt ctx }))
unfolding next_seqnum
next_seqnum-Kept pt ctx = record {
  out_size_kept = refl;
  sent_kept = refl;
  ssrc_kept = refl;
  doubled_kept = refl;
  putvctrl_kept = refl;
}

pub Kept-trans : (a b c : Mux) → Kept a b → Kept b c → Kept a c
Kept-trans a b c p q = record {
  out_size_kept = q.out_size_kept ∙ p.out_size_kept;
  sent_kept = q.sent_kept ∙ p.sent_kept;
  ssrc_kept = q.ssrc_kept ∙ p.ssrc_kept;
  doubled_kept = q.doubled_kept ∙ p.doubled_kept;
  putvctrl_kept = q.putvctrl_kept ∙ p.putvctrl_kept;
}
