-- ===== src/Rtp/Relay.antt =====
-- src/mux_rtp.c and src/demux_rtp.c together: what the muxer sends is what the demuxer delivers, over a
-- network that brings every packet once and in order.
use putv.Prelude.{
  ℕ, zero, suc, ◌+◌, ◌*◌, ◌^◌, ◌<◌, ◌≤◌, ◌≡◌, refl, sym, ap, ◌∙◌, arith, false, Option, none, some,
  List, [], ◌∷◌, ◌++◌, ◌==◌, length, get_elem?, set, append-[], concat, length-append,
  get_elem?-set_self,
}
use putv.Rtp.Wire.{
  bswap_16, bswap_32, bswap_32_twice, header_bytes, length-header_bytes, read-header_bytes,
  putvctrl_pt,
}
use putv.Rtp.Mux.{Estream, Mux, Packet, mux_run}
use putv.Rtp.Demux.{Out, Demux, JitterOps, fed, find_out, is_other, is_copy, count_missing}
use putv.Rtp.Parse.{consumed, handle, parseheader}
use putv.Rtp.Send.{sent-Plain, appended, mux_run_lem}
use putv.Rtp.Chunks.{AllFit, AllFit-rest, some_taken, concat-append, taken_on, moved_on}
use putv.Rtp.Header.{Plain, Kept, stamped, stamped-Fits}
use putv.Rtp.Deliver.{delivered, handle_delivers}

module _ {J : Type 0} where
  -- A delivered packet changes nothing that the substream is found by.
  find_out-set :
      (ssrc pt i : ℕ) (out : Out J) (l : J) (outs : List (Out J))
      → get_elem? outs i ≡ some out
      → find_out ssrc pt (set outs i (fed out l)) ≡ find_out ssrc pt outs
  unfolding find_out
  find_out-set ssrc pt i out l [] h = refl
  find_out-set ssrc pt zero out l (o ∷ outs) h = cc
  find_out-set ssrc pt (suc i) out l (o ∷ outs) h = rw (find_out-set ssrc pt i out l outs h) refl

  sessionid-count_missing :
      (seqnum : ℕ) (ctx : Demux J)
      → ((count_missing seqnum ctx).sessionid ≡ ctx.sessionid)
        × ((count_missing seqnum ctx).sessionid2 ≡ ctx.sessionid2)
  unfolding count_missing
  sessionid-count_missing seqnum ctx = (ground arith, ground arith)

  own-is_other : (ssrc : ℕ) (ctx : Demux J) → ctx.sessionid ≡ ssrc → is_other ssrc ctx ≡ false
  unfolding is_other
  own-is_other ssrc ctx own = ground arith

  single-is_copy :
      (ssrc seqnum : ℕ) (ctx : Demux J)
      → (ctx.sessionid2 == ssrc) ≡ false
      → is_copy ssrc seqnum ctx ≡ false
  unfolding is_copy
  single-is_copy ssrc seqnum ctx single = rw single refl

module _ {J : Type 0} (ops : JitterOps J) (notify : ℕ → Demux J → Demux J) where
  -- The demuxer takes packets, each from a buffer that holds no more; `none` where it goes wrong.
  pub receive : List Packet → Demux J → Option (Demux J)
  receive [] d = some d
  receive (p ∷ ps) d = elim (parseheader ops notify p.bytes (length p.bytes) d) [
    | none ↦ none
    | some r ↦ receive ps r.1
  ]

  -- Turns of the muxer, at the times given, whose packets the demuxer takes.
  pub relay : List (ℕ × ℕ) → Estream → Mux → Demux J → Option (Estream × Mux × Demux J)
  relay [] es m d = some (es, m, d)
  relay (t ∷ ts) es m d =
      let r = mux_run t.0 t.1 es (record m { sent = [] }) in
      elim (receive r.2.sent d) [ none ↦ none | some d' ↦ relay ts r.1 r.2 d' ]

-- The muxer sends a stream's packets once, with no extension and no control, and the demuxer plays that
-- source and knows the stream: its decoder's jitter is j.
pub record Linked {J : Type 0} (ops : JitterOps J) (es : Estream) (m : Mux) (d : Demux J) (i : ℕ)
    (out : Out J) (j : J) : Type 0 where
  pub plain : Plain m
  pub single : m.doubled ≡ false
  pub idle : m.putvctrl ≡ none
  pub room : 16 < m.out_size
  pub small : m.out_size < 2 ^ 64
  pub no_ext : es.ext ≡ []
  pub pt_fits : es.pt < 2 ^ 7
  pub audio : (es.pt == putvctrl_pt) ≡ false
  pub own : d.sessionid ≡ m.ssrc
  pub alone : (d.sessionid2 == m.ssrc) ≡ false
  pub found : find_out m.ssrc es.pt d.outs ≡ some i
  pub at_i : get_elem? d.outs i ≡ some out
  pub has_jitter : out.jitter ≡ some j
  pub positive : 0 < ops.size j

module _ {J : Type 0} (ops : JitterOps J) (notify : ℕ → Demux J → Demux J)
    (pulls : (j : J) → (k : J) × (ops.pull j ≡ some k)) where
  -- One packet arrives.
  arrives :
      (es : Estream) (m : Mux) (d : Demux J) (i : ℕ) (out : Out J) (j : J) (bs : List ℕ)
      (pulses : Option ℕ)
      → Linked ops es m d i out j
      → 16 + length bs < 2 ^ 64
      → (l : J) × (receive ops notify
            (record { bytes = header_bytes (stamped es.pt m) ++ bs; pulses = pulses } ∷ [])
            d
          ≡ some (delivered (stamped es.pt m) i out l d))
        × (ops.content l ≡ ops.content j ++ bs)
        × (ops.size l ≡ ops.size j)
  unfolding receive parseheader
  arrives es m d i out j bs pulses k small =
      let p = k.plain in
      let h = stamped es.pt m in
      let source : bswap_32 h.ssrc ≡ m.ssrc =
        ap bswap_32 p.same_ssrc ∙ bswap_32_twice m.ssrc p.ssrc_fits in
      let got =
        handle_delivers ops pulls notify h bs i out j d p.no_csrc p.no_ext small
          (rw source (own-is_other m.ssrc d k.own))
          (rw source (single-is_copy m.ssrc (bswap_16 h.seqnum) d k.alone)) k.audio
          (rw source k.found) k.at_i k.has_jitter k.positive in
      let size : length (header_bytes h ++ bs) ≡ 16 + length bs =
        length-append (header_bytes h) bs ∙ ap (λ n. n + length bs) (length-header_bytes h) in
      let read = read-header_bytes h bs (stamped-Fits es.pt m p k.pt_fits) in
      let parsed : parseheader ops notify (header_bytes h ++ bs) (length (header_bytes h ++ bs)) d
          ≡ some (consumed (16 + length bs), delivered h i out got.0 d) =
        ap (λ n. parseheader ops notify (header_bytes h ++ bs) n d) size
        ∙ ap (λ g. handle ops notify g (header_bytes h ++ bs) (16 + length bs) d) read
        ∙ got.1 in
      (got.0, rw (receive, parsed) refl, got.2, got.3)

  -- The stream stays linked when a packet was sent and delivered.
  linked_on :
      (es : Estream) (m next : Mux) (d : Demux J) (i : ℕ) (out : Out J) (j l : J)
      (rest : List (List ℕ)) (packet : List ℕ) (beat : ℕ)
      → Linked ops es m d i out j
      → Plain next
      → Kept (record m { sent = [] }) next
      → ops.size l ≡ ops.size j
      → Linked ops
          (record es { chunks = rest })
          (appended packet beat next)
          (delivered (stamped es.pt m) i out l d)
          i
          (fed out l)
          l
  linked_on es m next d i out j l rest packet beat k plain kept size =
      let ids = sessionid-count_missing (bswap_16 (stamped es.pt m).seqnum) d in
      record {
        plain = sent-Plain _ next plain;
        single = kept.doubled_kept ∙ k.single;
        idle = kept.putvctrl_kept ∙ k.idle;
        room = rw kept.out_size_kept k.room;
        small = rw kept.out_size_kept k.small;
        no_ext = k.no_ext;
        pt_fits = k.pt_fits;
        audio = k.audio;
        own = ids.0 ∙ k.own ∙ sym kept.ssrc_kept;
        alone = rw (ids.1, kept.ssrc_kept) k.alone;
        found = rw kept.ssrc_kept (find_out-set m.ssrc es.pt i out l d.outs k.at_i ∙ k.found);
        at_i = get_elem?-set_self d.outs i out (fed out l) k.at_i;
        has_jitter = refl;
        positive = rw size k.positive;
      }

  turn :
      (t : ℕ × ℕ) (es : Estream) (m : Mux) (d : Demux J) (i : ℕ) (out : Out J) (j : J)
      → Linked ops es m d i out j
      → m.out_size ≤ 16 + length (concat es.chunks)
      → AllFit m.out_size es.chunks
      → (es' : Estream) × (m' : Mux) × (d' : Demux J) × (out' : Out J) × (l : J) × (taken : List
          (List ℕ))
        × (mux_run t.0 t.1 es (record m { sent = [] }) ≡ (1, es', m'))
        × (receive ops notify m'.sent d ≡ some d')
        × Linked ops es' m' d' i out' l
        × (es.chunks ≡ taken ++ es'.chunks)
        × (ops.content l ≡ ops.content j ++ concat taken)
        × (1 ≤ length taken)
        × (m'.out_size ≡ m.out_size)
        × (length (concat es.chunks) ≤ length (concat es'.chunks) + m.out_size)
  turn t es m d i out j k queued fit =
      let empty = record m { sent = [] } in
      let run =
        mux_run_lem t.0 t.1 es empty (sent-Plain [] m k.plain) k.pt_fits k.no_ext k.single k.idle
          k.room queued in
      let taken = run.0 in
      let bs = concat taken in
      let rest = run.1 ∷ run.2 in
      let beat = run.3 in
      let next = run.4 in
      let split = run.6 in
      let kept = run.10 in
      let got = arrives es m d i out j bs (some beat) k (omega (arith, run.7, k.small)) in
      let packet = header_bytes (stamped es.pt m) ++ bs in
      let fit' : AllFit m.out_size (taken ++ rest) = (rw split at fit) in
      (
        record es { chunks = rest },
        appended packet beat next,
        delivered (stamped es.pt m) i out got.0 d,
        fed out got.0,
        got.0,
        taken,
        run.5,
        ap (λ s. receive ops notify (s ++ record { bytes = packet; pulses = some beat } ∷ []) d)
              kept.sent_kept
            ∙ got.1,
        linked_on es m next d i out j got.0 rest packet beat k run.9 kept got.3,
        split,
        got.2,
        some_taken m.out_size taken run.1 run.2 fit' run.8,
        kept.out_size_kept,
        omega (
          arith,
          run.7,
          length-append bs (concat rest),
          ap length (ap concat split ∙ concat-append taken rest),
        ),
      )

  -- A muxer that sends each packet once and has no control to send, for one stream without extension that the
  -- demuxer knows as its only source, and packets that arrive once and in order; the decoder's jitter always
  -- gives a buffer, each queued buffer fits into a packet, which has room for more than the header, and a
  -- packet's worth of data is queued for each turn. Every turn succeeds and moves at least one buffer. What is moved are the first
  -- buffers, whole: the others stay queued, and the decoder's jitter has their bytes behind its own, in order.
  pub relay_lem :
      (ts : List (ℕ × ℕ)) (es : Estream) (m : Mux) (d : Demux J) (i : ℕ) (out : Out J) (j : J)
      → Linked ops es m d i out j
      → length ts * m.out_size ≤ length (concat es.chunks)
      → AllFit m.out_size es.chunks
      → (es' : Estream) × (m' : Mux) × (d' : Demux J) × (out' : Out J) × (l : J) × (taken : List
          (List ℕ))
        × (relay ops notify ts es m d ≡ some (es', m', d'))
        × (get_elem? d'.outs i ≡ some out')
        × (out'.jitter ≡ some l)
        × (es.chunks ≡ taken ++ es'.chunks)
        × (ops.content l ≡ ops.content j ++ concat taken)
        × (length ts ≤ length taken)
  unfolding relay
  relay_lem [] es m d i out j k queued fit = (
    es,
    m,
    d,
    out,
    j,
    [],
    refl,
    k.at_i,
    k.has_jitter,
    refl,
    sym (append-[] (ops.content j)),
    omega arith,
  )
  relay_lem (t ∷ ts) es m d i out j k queued fit =
      let enough : m.out_size + length ts * m.out_size ≤ length (concat es.chunks) = grind arith in
      let one = turn t es m d i out j k (omega (arith, enough)) fit in
      let taken = one.5 in
      let split = one.9 in
      let left : length ts * one.1.out_size ≤ length (concat one.0.chunks) =
        rw one.12 (omega (arith, enough, one.13)) in
      let fit' : AllFit m.out_size (taken ++ one.0.chunks) = (rw split at fit) in
      let fit_left : AllFit one.1.out_size one.0.chunks =
        rw one.12 (AllFit-rest m.out_size taken one.0.chunks fit') in
      let rest = relay_lem ts one.0 one.1 one.2 i one.3 one.4 one.8 left fit_left in
      (
        rest.0,
        rest.1,
        rest.2,
        rest.3,
        rest.4,
        taken ++ rest.5,
        rw (relay, one.6, one.7, one.6) rest.6,
        rest.7,
        rest.8,
        taken_on es.chunks taken one.0.chunks rest.5 rest.0.chunks split rest.9,
        moved_on (ops.content j) (ops.content one.4) (ops.content rest.4) taken rest.5 one.10
            rest.10,
        omega (arith, one.11, rest.11, length-append taken rest.5),
      )
