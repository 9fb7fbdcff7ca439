-- ===== src/Filter/Format.antt =====
-- src/jitter.h and src/filter_pcm.c: what a PCM format says of its samples.
use Prim.Native.Nat.{bit_and, bit_or}
use putv.Prelude.{ℕ, ◌+◌, ◌*◌, ◌/◌, ◌%◌, ◌^◌, ◌≡◌, refl}

abbrev pub jitter_audio : ℕ
jitter_audio = 0x80000000

abbrev pub jitter_audio_interleaved : ℕ
jitter_audio_interleaved = 0x00010000

abbrev pub jitter_int_le : ℕ
jitter_int_le = 0x00008000

abbrev pub jitter_int_extra : ℕ
jitter_int_extra = 0x00000800

abbrev pub jitter_int_mask : ℕ
jitter_int_mask = 0x00000700

abbrev pub jitter_channel_mask : ℕ
jitter_channel_mask = 0x0000000f

-- The PCM formats of `jitter_format_t`.
pub data PcmFormat : Type 0 where
  pcm_8bits_mono pcm_16bits_le_mono pcm_16bits_le_stereo : PcmFormat
  pcm_24bits3_le_stereo pcm_24bits4_le_stereo : PcmFormat
  pcm_32bits_le_stereo pcm_32bits_be_stereo : PcmFormat

-- `JITTER_INT_8` to `JITTER_INT_32`, by the number of bytes.
abbrev jitter_int : ℕ → ℕ
jitter_int n = n * 0x100

abbrev interleaved : ℕ → ℕ
interleaved n =
    bit_or (bit_or (bit_or jitter_audio jitter_audio_interleaved) jitter_int_le) (jitter_int n)

-- The numbers of the formats.
unfoldable pub format_value : PcmFormat → ℕ
format_value pcm_8bits_mono = bit_or (bit_or (bit_or jitter_audio jitter_int_le) (jitter_int 1)) 1
format_value pcm_16bits_le_mono =
    bit_or (bit_or (bit_or jitter_audio jitter_int_le) (jitter_int 2)) 1
format_value pcm_16bits_le_stereo = bit_or (interleaved 2) 2
format_value pcm_24bits3_le_stereo = bit_or (interleaved 3) 2
format_value pcm_24bits4_le_stereo = bit_or (bit_or (interleaved 3) jitter_int_extra) 2
format_value pcm_32bits_le_stereo = bit_or (interleaved 4) 2
format_value pcm_32bits_be_stereo =
    bit_or (bit_or (bit_or jitter_audio jitter_audio_interleaved) (jitter_int 4)) 2

-- `FORMAT_NCHANNELS`, `FORMAT_SAMPLESIZE` and `FORMAT_SHIFT`.
pub format_nchannels : ℕ → ℕ
format_nchannels format = bit_and format jitter_channel_mask

pub format_samplesize : ℕ → ℕ
format_samplesize format =
    (bit_and format jitter_int_mask / 2 ^ 8 + bit_and format jitter_int_extra / 2 ^ 11) * 8

pub format_shift : ℕ → ℕ
format_shift format = bit_and format jitter_int_mask / 2 ^ 8 * 8

-- `filter_inout_t`, without its sample rate.
pub record Inout : Type 0 where
  pub samplesize : ℕ
  pub shift : ℕ
  pub nchannels : ℕ

-- `filter_setformat`: the fields are unsigned chars.
unfoldable pub filter_setformat : ℕ → Inout
unfolding format_nchannels format_samplesize format_shift
filter_setformat format = record {
  samplesize = (format_samplesize format / 8) % 256;
  shift = format_shift format % 256;
  nchannels = format_nchannels format % 256;
}

-- What a format means: bytes for a sample, bits of them that carry it, and channels.
abbrev pub meaning : PcmFormat → ℕ × ℕ × ℕ
meaning pcm_8bits_mono = (1, 8, 1)
meaning pcm_16bits_le_mono = (2, 16, 1)
meaning pcm_16bits_le_stereo = (2, 16, 2)
meaning pcm_24bits3_le_stereo = (3, 24, 2)
meaning pcm_24bits4_le_stereo = (4, 24, 2)
meaning pcm_32bits_le_stereo = (4, 32, 2)
meaning pcm_32bits_be_stereo = (4, 32, 2)

-- `filter_setformat` reads each PCM format's number as the format's meaning.
pub setformat_lem :
    (f : PcmFormat)
    → ((filter_setformat (format_value f)).samplesize ≡ (meaning f).0)
      × ((filter_setformat (format_value f)).shift ≡ (meaning f).1)
      × ((filter_setformat (format_value f)).nchannels ≡ (meaning f).2)
unfolding filter_setformat format_value
setformat_lem pcm_8bits_mono = (refl, refl, refl)
setformat_lem _ = (refl, refl, refl)
