-- ===== src/Rtp/Mux.antt =====
-- src/mux_rtp.c: the packets that the muxer sends.
use putv.Prelude.{
  ℕ, zero, suc, ◌+◌, ◌-◌, ◌*◌, ◌/◌, ◌%◌, ◌^◌, Bool, true, false, ◌||◌, Option, none, some, List, [],
  ◌∷◌, ◌++◌, ltb, ◌==◌, if◌then◌else◌, take, drop, length,
}
use putv.Prelude.Int.{ℤ, pos, negsuc}
use putv.Media.Mime.{Mime}
use putv.Rtp.Wire.{
  put_le, bswap_16, bswap_32, RtpHeader, header_bytes, Putvctrl, putvctrl_pt, putvctrl_size,
  putvctrl_bytes,
}

-- A packet as it is pushed to the sink's jitter: its bytes, and the pulses of its beat where it has one.
pub record Packet : Type 0 where
  pub bytes : List ℕ
  pub pulses : Option ℕ

-- `mux_estream_t`. The jitter `in` is here the buffers that its `peer` is to return, in their order;
-- after the last one `peer` returns NULL. `ext` is empty where the pointer is NULL.
pub record Estream : Type 0 where
  pub mime : Mime
  pub chunks : List (List ℕ)
  pub pt : ℕ
  pub ext : List ℕ

-- `mux_ctx_t`, but for its streams. The sink's jitter `out` is its size and the packets pushed to it.
pub record Mux : Type 0 where
  pub out_size : ℕ
  pub sent : List Packet
  pub header : RtpHeader
  pub putvctrl : Option Putvctrl
  pub ssrc : ℕ
  pub seqnum : ℕ
  pub tv_sec : ℕ
  pub tv_nsec : ℕ
  pub volume : ℕ
  pub doubled : Bool

-- The control packet of a command.
unfoldable pub control : ℕ → ℕ → Putvctrl
control id value = record {
  version = 1;
  ncmds = 1;
  reserved = 0;
  cmd_id = id;
  cmd_len = 2;
  cmd_data = value % 2 ^ 16;
}

-- `mux_init` with no search part of its url, where `random` returns `seed`, `number` and `time`.
pub mux_init : ℕ → ℕ → ℕ → ℕ → Mux
unfolding control bswap_16 bswap_32
mux_init size seed number time =
    let ssrc = seed * 2 % 2 ^ 32 in
    record {
      out_size = size;
      sent = [];
      header = record {
        cc = 0;
        x = 0;
        p = 0;
        v = 2;
        pt = 0;
        m = 1;
        seqnum = bswap_16 (number % 2 ^ 16);
        timestamp = time % 2 ^ 32;
        ssrc = bswap_32 ssrc;
        csrc = 0;
      };
      putvctrl = some (control 2 20);
      ssrc = ssrc;
      seqnum = number % 2 ^ 16;
      tv_sec = 0;
      tv_nsec = 0;
      volume = 20;
      doubled = false;
    }

-- The player's events that the muxer hears: a new state, by its number, or a volume, -1 to ask for it.
pub data MuxEvent : Type 0 where
  changed : Bool → ℕ → MuxEvent
  volume_event : ℤ → MuxEvent

-- `_mux_player_cb`: the muxer and the event's volume afterwards. The flag is whether the state is
-- STATE_STOP.
unfoldable pub mux_player_cb : MuxEvent → Mux → Mux × Option ℤ
unfolding control
mux_player_cb (changed true value) ctx = (record ctx { putvctrl = some (control 1 value) }, none)
mux_player_cb (changed false value) ctx = (ctx, none)
mux_player_cb (volume_event (negsuc zero)) ctx = (ctx, some (pos ctx.volume))
mux_player_cb (volume_event (negsuc (suc n))) ctx =
    let v = (2 ^ 16 - (n + 2) % 2 ^ 16) % 2 ^ 16 in
    (record ctx { putvctrl = some (control 2 v); volume = v }, some (negsuc (suc n)))
mux_player_cb (volume_event (pos n)) ctx =
    (record ctx { putvctrl = some (control 2 n); volume = n % 2 ^ 16 }, some (pos n))

-- `_mux_run`, the sequence number of the next packet.
unfoldable pub next_seqnum : Mux → Mux
unfolding bswap_16
next_seqnum ctx =
    let next = (ctx.seqnum + 1) % 2 ^ 16 in
    let last = next == 2 ^ 16 - 1 in
    let seqnum = if last then 0 else next in
    record ctx {
      seqnum = seqnum;
      header = record (ctx.header) { m = if last then 1 else 0; seqnum = bswap_16 seqnum };
    }

-- `_mux_run`, the beat at the time `sec` and `nsec`: the muxer and the beat's pulses.
unfoldable pub mux_beat : ℕ → ℕ → Mux → Mux × ℕ
mux_beat sec nsec ctx =
    if ltb ctx.tv_sec sec || ltb (ctx.tv_nsec + 10000000) nsec
    then (
      record ctx {
        header = record (ctx.header) {
          timestamp = if ctx.header.timestamp == 2 ^ 32 - 1 then 0 else ctx.header.timestamp + 1;
        };
        tv_nsec = (ctx.tv_nsec + 10000000) % 1000000000;
        tv_sec = ctx.tv_sec + (ctx.tv_nsec + 10000000) % 1000000000 / 1000000000;
      },
      1,
    )
    else (ctx, 0)

-- `_mux_run`, the loop over the payload: the packet and the buffers that are left. `none` where `peer`
-- returns NULL.
unfoldable pub fill_packet : ℕ → List ℕ → List (List ℕ) → Option (List ℕ × List (List ℕ))
fill_packet size packet [] = none
fill_packet size packet (chunk ∷ chunks) =
    let more = fill_packet size (packet ++ chunk) chunks in
    if ltb (length packet + length chunk) size then more else some (packet, chunk ∷ chunks)

-- `header->ssrc = __bswap_32(ctx->ssrc + 1)`, in the packet's bytes.
unfoldable pub second_source : ℕ → List ℕ → List ℕ
unfolding bswap_32
second_source ssrc packet =
    take 8 packet ++ put_le 4 (bswap_32 ((ssrc + 1) % 2 ^ 32)) ++ drop 12 packet

-- `_mux_run`, pushing the packet, with MUX_DOUBLESSRC twice.
unfoldable pub send_packet : List ℕ → ℕ → Mux → Mux
unfolding second_source
send_packet packet beat ctx =
    let once : Packet = record { bytes = packet; pulses = some beat } in
    let twice : Packet = record { bytes = second_source ctx.ssrc packet; pulses = some beat } in
    record ctx { sent = ctx.sent ++ (if ctx.doubled then once ∷ twice ∷ [] else once ∷ []) }

-- `_mux_run`, the packet of `putvctrl`
unfoldable pub control_packet : RtpHeader → Putvctrl → Packet
unfolding header_bytes
control_packet header c = record {
  bytes =
      header_bytes (record header { pt = putvctrl_pt; x = 1 })
      ++ put_le 2 putvctrl_pt
      ++ put_le 2 putvctrl_size
      ++ putvctrl_bytes c;
  pulses = none;
}

unfoldable pub send_control : Mux → Mux
unfolding control_packet
send_control ctx = elim ctx.putvctrl [
  | none ↦ ctx
  | some c ↦ record ctx { sent = ctx.sent ++ control_packet ctx.header c ∷ []; putvctrl = none }
]

-- `_mux_run` before the payload: the bytes of the header and of the extension, the beat's pulses and the
-- muxer.
unfoldable pub open_packet : ℕ → ℕ → Estream → Mux → List ℕ × ℕ × Mux
open_packet sec nsec estream ctx =
    let header = record (ctx.header) { pt = estream.pt } in
    let timed = mux_beat sec nsec (next_seqnum (record ctx { header = header })) in
    elim estream.ext [
      | [] ↦ (header_bytes header, timed.1, timed.0)
      | b ∷ bs ↦ (
        header_bytes header ++ estream.ext,
        timed.1,
        record (timed.0) { header = record (timed.0.header) { x = 1 } },
      )
    ]

-- `_mux_run` at the time `sec` and `nsec`: what it returns, the stream and the muxer. The sink's `pull`
-- is taken to return a buffer; where it returns NULL the code writes through it.
unfoldable pub mux_run : ℕ → ℕ → Estream → Mux → ℕ × Estream × Mux
mux_run sec nsec estream ctx = elim estream.chunks [
  | [] ↦ (0, estream, ctx)
  | chunk ∷ chunks ↦
      let opened = open_packet sec nsec estream ctx in
      elim (fill_packet ctx.out_size opened.0 estream.chunks) [
        | none ↦ (0, record estream { chunks = [] }, opened.2)
        | some filled ↦ (
          1,
          record estream { chunks = filled.1 },
          send_control (send_packet filled.0 opened.1 opened.2),
        )
      ]
]
