-- ===== src/Rtp/Deliver.antt =====
-- src/demux_rtp.c: what `demux_parseheader` gives to the decoder's jitter.
use putv.Prelude.{
  ℕ, zero, suc, ◌+◌, ◌-◌, ◌%◌, ◌^◌, ◌<◌, ◌≡◌, refl, ap, ◌∙◌, inl, inr, arith, Bool, true, false,
  none, some, List, ◌++◌, ltb, leb, ◌==◌, take, drop, length, get_elem?, set, Bool-cases, ltb→lt,
  take-drop, length-drop, take_all, append_assoc,
}
use putv.Rtp.Wire.{bswap_16, bswap_32, RtpHeader, header_bytes, putvctrl_pt}
use putv.Rtp.Demux.{
  Out, Demux, JitterOps, locate, payload, fed, find_out, getout, is_other, is_copy, count_missing,
}
use putv.Rtp.Parse.{consumed, push_parts, opened, deliver, handle}

locate_plain :
    (input : List ℕ) (n : ℕ) (h : RtpHeader)
    → h.cc ≡ 0
    → h.x ≡ 0
    → 16 + n < 2 ^ 64
    → locate input (16 + n) h ≡ record { start = 16; len = n; extheader = none }
unfolding locate
locate_plain input n h no_csrc no_ext small =
    let first : (16 + n + 2 ^ 64 - 16) % 2 ^ 64 ≡ n = omega arith in
    let second : (n + 2 ^ 64 - 0) % 2 ^ 64 ≡ n = omega arith in rw (no_csrc, no_ext) (ground arith)

module _ {J : Type 0} (ops : JitterOps J) (pulls : (j : J) → (k : J) × (ops.pull j ≡ some k)) where
  -- Where the jitter's buffers hold something and it always gives one, the loop ends with all the bytes
  -- in the jitter, in their order.
  pub push_parts_lem :
      (fuel : ℕ) (bytes : List ℕ) (beat : ℕ) (j : J)
      → length bytes < fuel
      → 0 < ops.size j
      → (l : J) × (push_parts ops fuel bytes beat j ≡ some l)
        × (ops.content l ≡ ops.content j ++ bytes)
        × (ops.size l ≡ ops.size j)
  unfolding push_parts
  push_parts_lem zero bytes beat j h positive = absurd (omega arith)
  push_parts_lem (suc fuel) bytes beat j h positive =
      elim (Bool-cases (ltb (ops.size j) (length bytes))) [
        | inr e ↦ (
          ops.push bytes (some beat) j,
          rw e refl,
          ops.content-push bytes (some beat) j,
          ops.size-push bytes (some beat) j,
        )
        | inl e ↦
            let part = take (ops.size j) bytes in
            let left = drop (ops.size j) bytes in
            let next = pulls (ops.push part none j) in
            let k = next.0 in
            let same : ops.size k ≡ ops.size j =
              ops.size-pull (ops.push part none j) k next.1 ∙ ops.size-push part none j in
            let shorter : length left < fuel =
              omega (arith, length-drop (ops.size j) bytes, ltb→lt (ops.size j) (length bytes) e) in
            let rest = push_parts_lem fuel left beat k shorter (omega (arith, same)) in
            let held : ops.content k ≡ ops.content j ++ part =
              ops.content-pull (ops.push part none j) k next.1 ∙ ops.content-push part none j in
            (
              rest.0,
              rw (e, next.1) rest.1,
              rest.2
                  ∙ ap (λ c. c ++ left) held
                  ∙ append_assoc (ops.content j) part left
                  ∙ ap (λ c. ops.content j ++ c) (take-drop (ops.size j) bytes),
              rest.3 ∙ same,
            )
      ]

payload_plain :
    (h : RtpHeader) (bs : List ℕ)
    → payload (header_bytes h ++ bs) (record { start = 16; len = length bs; extheader = none })
      ≡ some bs
unfolding header_bytes
payload_plain h bs =
    let fits : leb (16 + length bs) (16 + length bs) ≡ true = ground arith in
    let size : length (header_bytes h ++ bs) ≡ 16 + length bs = omega arith in
    rw (size, fits, take_all bs) refl

-- The demuxer after it delivered a packet: l is its substream's jitter.
abbrev pub delivered : {J : Type 0} → RtpHeader → ℕ → Out J → J → Demux J → Demux J
delivered h i out l ctx = record (count_missing (bswap_16 h.seqnum) ctx) {
  outs = set ctx.outs i (fed out l);
  lasttimestamp = h.timestamp;
}

outs-count_missing :
    {J : Type 0} (seqnum : ℕ) (ctx : Demux J) → (count_missing seqnum ctx).outs ≡ ctx.outs
unfolding count_missing
outs-count_missing seqnum ctx = ground arith

pub getout_known :
    {J : Type 0} (notify : ℕ → Demux J → Demux J) (h : RtpHeader) (i ssrc : ℕ) (ctx : Demux J)
    → find_out ssrc h.pt ctx.outs ≡ some i
    → getout notify ssrc h ctx ≡ (some i, ctx)
unfolding getout
getout_known notify h i ssrc ctx found = rw (getout, found) refl

module _ {J : Type 0} (ops : JitterOps J) (pulls : (j : J) → (k : J) × (ops.pull j ≡ some k)) where
  pub opened_lem :
      (pulled : Bool) (j : J)
      → (k : J) × (opened ops pulled j ≡ some k)
        × (ops.content k ≡ ops.content j)
        × (ops.size k ≡ ops.size j)
  unfolding opened
  opened_lem true j = (j, refl, refl, refl)
  opened_lem false j =
      let next = pulls j in
      (next.0, next.1, ops.content-pull j next.0 next.1, ops.size-pull j next.0 next.1)

  deliver_lem :
      (h : RtpHeader) (bs : List ℕ) (orig i : ℕ) (out : Out J) (j : J) (ctx : Demux J)
      → 0 < ops.size j
      → (l : J) × (deliver ops h orig (some bs) i out j ctx
          ≡ some (consumed orig, delivered h i out l ctx))
        × (ops.content l ≡ ops.content j ++ bs)
        × (ops.size l ≡ ops.size j)
  unfolding deliver
  deliver_lem h bs orig i out j ctx positive =
      let got = opened_lem out.pulled j in
      let pushed =
        push_parts_lem ops pulls (suc (length bs)) bs
          ((h.timestamp + 2 ^ 32 - ctx.lasttimestamp) % 2 ^ 32) got.0 (omega arith)
          (omega (arith, got.3)) in
      (
        pushed.0,
        rw (deliver, got.1, pushed.1, outs-count_missing (bswap_16 h.seqnum) ctx) refl,
        pushed.2 ∙ ap (λ c. c ++ bs) got.2,
        pushed.3 ∙ got.3,
      )

  pub handle_delivers :
      (notify : ℕ → Demux J → Demux J) (h : RtpHeader) (bs : List ℕ) (i : ℕ) (out : Out J) (j : J)
      (ctx : Demux J)
      → h.cc ≡ 0
      → h.x ≡ 0
      → 16 + length bs < 2 ^ 64
      → is_other (bswap_32 h.ssrc) ctx ≡ false
      → is_copy (bswap_32 h.ssrc) (bswap_16 h.seqnum) ctx ≡ false
      → (h.pt == putvctrl_pt) ≡ false
      → find_out (bswap_32 h.ssrc) h.pt ctx.outs ≡ some i
      → get_elem? ctx.outs i ≡ some out
      → out.jitter ≡ some j
      → 0 < ops.size j
      → (l : J) × (handle ops notify h (header_bytes h ++ bs) (16 + length bs) ctx
          ≡ some (consumed (16 + length bs), delivered h i out l ctx))
        × (ops.content l ≡ ops.content j ++ bs)
        × (ops.size l ≡ ops.size j)
  unfolding handle deliver
  handle_delivers notify h bs i out j ctx no_csrc no_ext small own fresh audio found at_i has_jitter
        positive =
      let at = locate_plain (header_bytes h ++ bs) (length bs) h no_csrc no_ext small in
      let got = getout_known notify h i (bswap_32 h.ssrc) ctx found in
      let all = deliver_lem h bs (16 + length bs) i out j ctx positive in
      let reaches : handle ops notify h (header_bytes h ++ bs) (16 + length bs) ctx
          ≡ deliver ops h (16 + length bs) (some bs) i out j ctx =
        rw (handle, at, own, audio, fresh, got, got, at_i, has_jitter, got, at, payload_plain h bs)
          refl in
      (all.0, reaches ∙ all.1, all.2, all.3)
