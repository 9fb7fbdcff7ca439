-- ===== src/Rtp/Parse.antt =====
-- src/demux_rtp.c, `demux_parseheader`: what becomes of a packet.
use putv.Prelude.{
  ℕ, zero, suc, ◌+◌, ◌-◌, ◌%◌, ◌^◌, Bool, Option, none, some, List, ltb, ◌==◌, if◌then◌else◌, take,
  drop, length, get_elem?, set,
}
use putv.Rtp.Wire.{bswap_16, bswap_32, RtpHeader, read_header, putvctrl_pt, putvctrl_size}
use putv.Rtp.Demux.{
  Demux, JitterOps, Out, control, count_missing, fed, getout, is_copy, is_other, locate,
  other_session, payload, sub_size,
}

-- What `demux_parseheader` returns: the number of bytes that it took, or -1.
pub data Parsed : Type 0 where
  consumed : ℕ → Parsed
  unknown : Parsed

module _ {J : Type 0} (ops : JitterOps J) where
  -- `demux_parseheader`, pushing the payload in parts of the jitter's size, the last one with a beat.
  -- `none` where `pull` returns NULL for a further part, through which the code would write, or where
  -- the fuel runs out: the loop has no end for a size of 0.
  unfoldable pub push_parts : ℕ → List ℕ → ℕ → J → Option J
  push_parts zero bytes beat j = none
  push_parts (suc fuel) bytes beat j =
      if ltb (ops.size j) (length bytes)
      then elim (ops.pull (ops.push (take (ops.size j) bytes) none j)) [
        | none ↦ none
        | some k ↦ push_parts fuel (drop (ops.size j) bytes) beat k
      ]
      else some (ops.push bytes (some beat) j)

  -- The buffer that a payload is written to: the one that was pulled, or a new one.
  unfoldable pub opened : Bool → J → Option J
  opened pulled j = if pulled then some j else ops.pull j

  -- `demux_parseheader`, a packet of the substream at the place i.
  unfoldable pub deliver :
      RtpHeader → ℕ → Option (List ℕ) → ℕ → Out J → J → Demux J → Option (Parsed × Demux J)
  deliver header orig bytes i out j ctx =
      let counted = count_missing (bswap_16 header.seqnum) ctx in
      elim (opened out.pulled j) [
        | none ↦ some (unknown, counted)
        | some k ↦ elim bytes [
          | none ↦ none
          | some bs ↦
              elim (push_parts (suc (length bs)) bs
                ((header.timestamp + 2 ^ 32 - ctx.lasttimestamp) % 2 ^ 32) k) [
                  | none ↦ none
                  | some l ↦ some (
                    consumed orig,
                    record counted {
                      outs = set counted.outs i (fed out l);
                      lasttimestamp = header.timestamp;
                    },
                  )
                ]
        ]
      ]

  -- `demux_parseheader` of the `len` bytes that are in the buffer `input`, whose header is given. `none`
  -- where the code reads or writes outside its buffers, or does not return.
  unfoldable pub handle :
      (ℕ → Demux J → Demux J) → RtpHeader → List ℕ → ℕ → Demux J → Option (Parsed × Demux J)
  handle notify header input len ctx =
      let ssrc = bswap_32 header.ssrc in
      let seqnum = bswap_16 header.seqnum in
      let at = locate input len header in
      if is_other ssrc ctx
      then some (unknown, other_session ssrc header.pt ctx)
      else elim (if header.pt == putvctrl_pt then at.extheader else none) [
        | some ext ↦
            some (consumed (sub_size len (sub_size at.len putvctrl_size)), control input ext ctx)
        | none ↦
            if is_copy ssrc seqnum ctx
            then some (consumed len, ctx)
            else let got = getout notify ssrc header ctx in
              elim got.0 [
                | none ↦ some (unknown, got.1)
                | some i ↦ elim (get_elem? got.1.outs i) [
                  | none ↦ some (unknown, got.1)
                  | some out ↦ elim out.jitter [
                    | none ↦ some (unknown, got.1)
                    | some j ↦ deliver header len (payload input at) i out j got.1
                  ]
                ]
              ]
      ]

  -- `demux_parseheader`
  unfoldable pub parseheader :
      (ℕ → Demux J → Demux J) → List ℕ → ℕ → Demux J → Option (Parsed × Demux J)
  parseheader notify input len ctx = handle notify (read_header input) input len ctx
