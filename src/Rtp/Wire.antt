-- ===== src/Rtp/Wire.antt =====
-- src/rtp.h: the packet's header and the control extension, as the bytes that are sent. The structures
-- are copied from and to memory, whose numbers and bit fields have their lowest bits first.
use putv.Prelude.{
  ℕ, zero, suc, ◌+◌, ◌*◌, ◌/◌, ◌%◌, ◌^◌, ◌<◌, ◌≡◌, refl, arith, List, [], ◌∷◌, ◌++◌, drop, length,
}

-- The bytes of a number, the lowest first.
abbrev pub put_le : ℕ → ℕ → List ℕ
put_le zero n = []
put_le (suc k) n = n % 256 ∷ put_le k (n / 256)

-- The number in the first bytes; past the end of the bytes it reads 0.
abbrev pub get_le : ℕ → List ℕ → ℕ
get_le zero bs = 0
get_le (suc k) [] = 0
get_le (suc k) (b ∷ bs) = b + 256 * get_le k bs

-- `__bswap_16` and `__bswap_32`
unfoldable pub bswap_16 : ℕ → ℕ
bswap_16 n = n % 256 * 256 + n / 256 % 256

unfoldable pub bswap_32 : ℕ → ℕ
bswap_32 n =
    n % 256 * 2 ^ 24 + n / 2 ^ 8 % 256 * 2 ^ 16 + n / 2 ^ 16 % 256 * 2 ^ 8 + n / 2 ^ 24 % 256

-- `rtpheader_t`, with the fields of its `struct rtpbits`
pub record RtpHeader : Type 0 where
  pub cc : ℕ
  pub x : ℕ
  pub p : ℕ
  pub v : ℕ
  pub pt : ℕ
  pub m : ℕ
  pub seqnum : ℕ
  pub timestamp : ℕ
  pub ssrc : ℕ
  pub csrc : ℕ

-- Each field is in its bits.
pub record Fits (h : RtpHeader) : Type 0 where
  pub cc_fits : h.cc < 2 ^ 4
  pub x_fits : h.x < 2
  pub p_fits : h.p < 2
  pub v_fits : h.v < 2 ^ 2
  pub pt_fits : h.pt < 2 ^ 7
  pub m_fits : h.m < 2
  pub seqnum_fits : h.seqnum < 2 ^ 16
  pub timestamp_fits : h.timestamp < 2 ^ 32
  pub ssrc_fits : h.ssrc < 2 ^ 32
  pub csrc_fits : h.csrc < 2 ^ 32

-- `struct rtpbits` as the number whose bytes it is.
unfoldable pub rtpbits : RtpHeader → ℕ
rtpbits h =
    h.cc + 2 ^ 4 * h.x + 2 ^ 5 * h.p + 2 ^ 6 * h.v + 2 ^ 8 * h.pt + 2 ^ 15 * h.m + 2 ^ 16 * h.seqnum

-- `memcpy(outbuffer, &ctx->header, sizeof(ctx->header))`
unfoldable pub header_bytes : RtpHeader → List ℕ
header_bytes h = put_le 4 (rtpbits h) ++ put_le 4 h.timestamp ++ put_le 4 h.ssrc ++ put_le 4 h.csrc

-- `(rtpheader_t *)input`
pub read_header : List ℕ → RtpHeader
read_header input =
    let bits = get_le 4 input in
    record {
      cc = bits % 2 ^ 4;
      x = bits / 2 ^ 4 % 2;
      p = bits / 2 ^ 5 % 2;
      v = bits / 2 ^ 6 % 2 ^ 2;
      pt = bits / 2 ^ 8 % 2 ^ 7;
      m = bits / 2 ^ 15 % 2;
      seqnum = bits / 2 ^ 16 % 2 ^ 16;
      timestamp = get_le 4 (drop 4 input);
      ssrc = get_le 4 (drop 8 input);
      csrc = get_le 4 (drop 12 input);
    }

abbrev pub header_size : ℕ
header_size = 16

pub bswap_16_twice : (n : ℕ) → n < 2 ^ 16 → bswap_16 (bswap_16 n) ≡ n
unfolding bswap_16
bswap_16_twice n h = omega arith

pub bswap_32_twice : (n : ℕ) → n < 2 ^ 32 → bswap_32 (bswap_32 n) ≡ n
unfolding bswap_32
bswap_32_twice n h = omega arith

pub bswap_16-lt : (n : ℕ) → bswap_16 n < 2 ^ 16
unfolding bswap_16
bswap_16-lt n = omega arith

pub bswap_32-lt : (n : ℕ) → n < 2 ^ 32 → bswap_32 n < 2 ^ 32
unfolding bswap_32
bswap_32-lt n h = omega arith

get-put_le : (n : ℕ) (rest : List ℕ) → n < 2 ^ 32 → get_le 4 (put_le 4 n ++ rest) ≡ n
get-put_le n rest h = omega arith

rtpbits_fields :
    (h : RtpHeader)
    → Fits h
    → (rtpbits h < 2 ^ 32)
      × (rtpbits h % 2 ^ 4 ≡ h.cc)
      × (rtpbits h / 2 ^ 4 % 2 ≡ h.x)
      × (rtpbits h / 2 ^ 5 % 2 ≡ h.p)
      × (rtpbits h / 2 ^ 6 % 2 ^ 2 ≡ h.v)
      × (rtpbits h / 2 ^ 8 % 2 ^ 7 ≡ h.pt)
      × (rtpbits h / 2 ^ 15 % 2 ≡ h.m)
      × (rtpbits h / 2 ^ 16 % 2 ^ 16 ≡ h.seqnum)
unfolding rtpbits
rtpbits_fields h f =
    let a = f.cc_fits in
    let b = f.x_fits in
    let c = f.p_fits in
    let d = f.v_fits in
    let e = f.pt_fits in
    let g = f.m_fits in
    let i = f.seqnum_fits in
    (
      omega arith,
      omega arith,
      omega arith,
      omega arith,
      omega arith,
      omega arith,
      omega arith,
      omega arith,
    )

-- A header whose fields fit in their bits is read back as it was written, whatever follows it.
pub read-header_bytes :
    (h : RtpHeader) (rest : List ℕ) → Fits h → read_header (header_bytes h ++ rest) ≡ h
unfolding read_header header_bytes
read-header_bytes h rest f =
    let bits = rtpbits_fields h f in
    let word = get-put_le (rtpbits h) [] bits.0 in
    let time = get-put_le h.timestamp [] f.timestamp_fits in
    let src = get-put_le h.ssrc [] f.ssrc_fits in
    let mixed = get-put_le h.csrc [] f.csrc_fits in
    rw (word, time, src, mixed, bits.1, bits.2, bits.3, bits.4, bits.5, bits.6, bits.7) refl

pub length-header_bytes : (h : RtpHeader) → length (header_bytes h) ≡ 16
unfolding header_bytes
length-header_bytes h = refl

-- `rtpext_putvctrl_t` with its `cmd`
pub record Putvctrl : Type 0 where
  pub version : ℕ
  pub ncmds : ℕ
  pub reserved : ℕ
  pub cmd_id : ℕ
  pub cmd_len : ℕ
  pub cmd_data : ℕ

abbrev pub putvctrl_pt : ℕ
putvctrl_pt = 0x76

abbrev pub putvctrl_size : ℕ
putvctrl_size = 8

-- `memcpy(outbuffer + len, ctx->putvctrl, sizeof(*ctx->putvctrl))`
abbrev pub putvctrl_bytes : Putvctrl → List ℕ
putvctrl_bytes c =
    put_le 1 c.version
    ++ put_le 1 c.ncmds
    ++ put_le 2 c.reserved
    ++ put_le 1 c.cmd_id
    ++ put_le 1 c.cmd_len
    ++ put_le 2 c.cmd_data

-- `(rtpext_putvctrl_t *)`
unfoldable pub read_putvctrl : List ℕ → Putvctrl
read_putvctrl input = record {
  version = get_le 1 input;
  ncmds = get_le 1 (drop 1 input);
  reserved = get_le 2 (drop 2 input);
  cmd_id = get_le 1 (drop 4 input);
  cmd_len = get_le 1 (drop 5 input);
  cmd_data = get_le 2 (drop 6 input);
}
