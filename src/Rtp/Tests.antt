-- ===== src/Rtp/Tests.antt =====
-- src/mux_rtp.c and src/demux_rtp.c: the theorems at a stream of MP3 from one muxer to one demuxer.
use putv.Prelude.{
  ◌≤◌, ◌+◌, ◌<◌, ℕ, ◌≡◌, refl, arith, true, false, none, some, List, [], ◌∷◌, ◌++◌, length,
}
use putv.Media.Mime.{audiomp3}
use putv.Rtp.Wire.{RtpHeader, Fits, header_bytes, bswap_16, bswap_32}
use putv.Prelude.{replicate, concat, get_elem?}
use putv.Prelude.Int.{pos}
use putv.Rtp.Mux.{
  Estream, Mux, Packet, volume_event, mux_player_cb, send_control, second_source, mux_run,
}
use putv.Rtp.Attach.{pcm_ext}
use putv.Rtp.Demux.{Out, Demux, JitterOps, set_volume, find_out, is_other, is_copy}
use putv.Rtp.Parse.{consumed, handle, parseheader}
use putv.Rtp.Send.{appended}
use putv.Rtp.Header.{Plain, Kept, stamped, stamped-Fits}
use putv.Rtp.Deliver.{delivered}
use putv.Rtp.Send.{mux_run_lem}
use putv.Rtp.Chunks.{AllFit}
use putv.Rtp.Relay.{Linked, relay, relay_lem}
use putv.Rtp.Sessions.{second_source_dropped}
use putv.Rtp.Control.{volume_arrives}
use putv.Rtp.Losses.{pcm_overruns}
use putv.Rtp.Full.{mux_turns, HeadersAlone, full_chunk_stays}

pulled_same : (j k : List ℕ) → some j ≡ some k → k ≡ j
pulled_same j k e = cc

-- A jitter that keeps what is pushed to it, in buffers of 1400 bytes.
abbrev kept_bytes : JitterOps (List ℕ)
kept_bytes = record {
  size = λ j. 1400;
  pull = λ j. some j;
  push = λ bytes beat j. j ++ bytes;
  content = λ j. j;
  size-pull = λ j k e. refl;
  size-push = λ bytes beat j. refl;
  content-pull = pulled_same;
  content-push = λ bytes beat j. refl;
}

abbrev always_pulls : (j : List ℕ) → (k : List ℕ) × (kept_bytes.pull j ≡ some k)
always_pulls j = (j, refl)

abbrev silent : ℕ → Demux (List ℕ) → Demux (List ℕ)
silent l d = d

abbrev header : RtpHeader
header = record {
  cc = 0;
  x = 0;
  p = 0;
  v = 2;
  pt = 0;
  m = 1;
  seqnum = 0x0700;
  timestamp = 5;
  ssrc = 0x0a00_0000;
  csrc = 0;
}

abbrev muxer : Mux
muxer = record {
  out_size = 20;
  sent = [];
  header = header;
  putvctrl = none;
  ssrc = 10;
  seqnum = 7;
  tv_sec = 0;
  tv_nsec = 0;
  volume = 20;
  doubled = false;
}

abbrev stream : Estream
stream = record {
  mime = audiomp3;
  chunks = (1 ∷ 2 ∷ []) ∷ (3 ∷ []) ∷ (4 ∷ 5 ∷ 6 ∷ []) ∷ [];
  pt = 14;
  ext = [];
}

abbrev substream : Out (List ℕ)
substream = record {
  estream = some 0;
  ssrc = 10;
  ssrc2 = 11;
  jitter = some (0 ∷ []);
  pulled = false;
  mime = audiomp3;
  cc = 0;
  pt = 14;
}

abbrev demuxer : Demux (List ℕ)
demuxer = record {
  outs = substream ∷ [];
  jitte = 0;
  seqnum = 6;
  seqorig = 6;
  missing = 0;
  lasttimestamp = 0;
  mime = audiomp3;
  sessionid = 10;
  sessionid2 = 11;
  listeners = [];
  profiles = record { pt = 14; mime = audiomp3 } ∷ [];
  sessionlist = [];
  has_media = true;
  requests = [];
}

header-Fits : Fits header
header-Fits = record {
  cc_fits = omega arith;
  x_fits = omega arith;
  p_fits = omega arith;
  v_fits = omega arith;
  pt_fits = omega arith;
  m_fits = omega arith;
  seqnum_fits = omega arith;
  timestamp_fits = omega arith;
  ssrc_fits = omega arith;
  csrc_fits = omega arith;
}

muxer-Plain : Plain muxer
unfolding bswap_16 bswap_32
muxer-Plain = record {
  fits = header-Fits;
  no_csrc = refl;
  no_ext = refl;
  ssrc_fits = omega arith;
  seqnum_fits = omega arith;
  same_ssrc = refl;
  same_seqnum = refl;
}

demuxer_finds : find_out 10 14 demuxer.outs ≡ some 0
unfolding find_out
demuxer_finds = refl

abbrev one_long : Estream
one_long = record stream { chunks = replicate 30 9 ∷ [] }

abbrev queued : Estream
queued = record stream { chunks = (1 ∷ 2 ∷ []) ∷ (3 ∷ []) ∷ replicate 7 (7 ∷ 8 ∷ 9 ∷ []) }

linked : Linked kept_bytes queued muxer demuxer 0 substream (0 ∷ [])
linked = record {
  plain = muxer-Plain;
  single = refl;
  idle = refl;
  room = omega arith;
  small = omega arith;
  no_ext = refl;
  pt_fits = omega arith;
  audio = refl;
  own = refl;
  alone = refl;
  found = demuxer_finds;
  at_i = refl;
  has_jitter = refl;
  positive = omega arith;
}

queued-AllFit : AllFit 20 queued.chunks
queued-AllFit = (
  omega arith,
  (
    omega arith,
    (
      omega arith,
      (omega arith, (omega arith, (omega arith, (omega arith, (omega arith, (omega arith, tt)))))),
    ),
  ),
)

relay_lem_example :
    (es' : Estream) × (m' : Mux) × (d' : Demux (List ℕ)) × (out' : Out (List ℕ)) × (l : List ℕ)
    × (taken : List (List ℕ)) × (relay kept_bytes silent ((1, 0) ∷ []) queued muxer demuxer
        ≡ some (es', m', d'))
    × (get_elem? d'.outs 0 ≡ some out')
    × (out'.jitter ≡ some l)
    × (queued.chunks ≡ taken ++ es'.chunks)
    × (l ≡ (0 ∷ []) ++ concat taken)
    × (1 ≤ length taken)
relay_lem_example =
    relay_lem kept_bytes silent always_pulls ((1, 0) ∷ []) queued muxer demuxer 0 substream (0 ∷ [])
      linked (omega arith) queued-AllFit

second_source_dropped_example :
    parseheader kept_bytes silent
      (second_source 10 (header_bytes (stamped 14 muxer) ++ 1 ∷ 2 ∷ []))
      18
      (delivered (stamped 14 muxer) 0 substream (0 ∷ 1 ∷ 2 ∷ []) demuxer)
    ≡ some (consumed 18, delivered (stamped 14 muxer) 0 substream (0 ∷ 1 ∷ 2 ∷ []) demuxer)
second_source_dropped_example =
    second_source_dropped kept_bytes silent 10 (stamped 14 muxer) (1 ∷ 2 ∷ []) 18 0 substream
      (0 ∷ 1 ∷ 2 ∷ []) demuxer (stamped-Fits 14 muxer muxer-Plain (omega arith)) refl refl

volume_arrives_example :
    (packet : Packet) × ((send_control (mux_player_cb (volume_event (pos 100)) muxer).0).sent
      ≡ [] ++ packet ∷ [])
    × (parseheader kept_bytes silent packet.bytes (length packet.bytes) demuxer
        ≡ some (consumed 36, record demuxer { requests = set_volume 0 ∷ [] }))
unfolding is_other
volume_arrives_example =
    volume_arrives kept_bytes silent 100 muxer demuxer (omega arith) muxer-Plain refl

full_chunk_stays_example :
    (next : Mux) × (packets : List Packet) × (mux_turns ((1, 0) ∷ (1, 5) ∷ []) one_long muxer
      ≡ (one_long, next))
    × (next.sent ≡ muxer.sent ++ packets)
    × (length packets ≡ 2)
    × HeadersAlone packets
full_chunk_stays_example =
    full_chunk_stays ((1, 0) ∷ (1, 5) ∷ []) one_long muxer (replicate 30 9) [] muxer-Plain
      (omega arith) refl refl refl refl (omega arith)

abbrev pcm_format : ℕ
pcm_format = 0x8001_0202

abbrev flagged_header : RtpHeader
flagged_header = record header { x = 1; pt = 14 }

pcm_overruns_example :
    handle kept_bytes silent flagged_header
      (header_bytes flagged_header ++ pcm_ext pcm_format 44100 ++ 1 ∷ 2 ∷ [])
      26
      demuxer
    ≡ none
unfolding is_other is_copy find_out bswap_32 bswap_16
pcm_overruns_example =
    pcm_overruns kept_bytes silent always_pulls flagged_header pcm_format 44100 (1 ∷ 2 ∷ []) 0
      substream (0 ∷ []) demuxer refl refl refl (omega arith) refl refl refl refl refl refl

mux_run_lem_example :
    (taken : List (List ℕ)) × (first : List ℕ) × (rest : List (List ℕ)) × (beat : ℕ) × (next : Mux)
    × (mux_run 1 0 queued muxer ≡ (
      1,
      record queued { chunks = first ∷ rest },
      appended (header_bytes (stamped 14 muxer) ++ concat taken) beat next,
    ))
    × (queued.chunks ≡ taken ++ first ∷ rest)
    × (16 + length (concat taken) < 20)
    × (20 ≤ 16 + length (concat taken) + length first)
    × Plain next
    × Kept muxer next
mux_run_lem_example =
    mux_run_lem 1 0 queued muxer muxer-Plain (omega arith) refl refl refl (omega arith)
      (omega arith)
