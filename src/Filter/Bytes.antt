-- ===== src/Filter/Bytes.antt =====
-- src/filter_pcm.c, `sampled_change`: the bytes that a sample is written as.
use putv.Prelude.{
  ℕ, zero, suc, ◌+◌, ◌-◌, ◌*◌, ◌/◌, ◌%◌, ◌^◌, ◌≤◌, ◌<◌, ◌≡◌, refl, arith, List, [], ◌∷◌, ltb,
  if◌then◌else◌, length,
}
use putv.Filter.Format.{
  PcmFormat, Inout, pcm_8bits_mono, pcm_16bits_le_mono, pcm_16bits_le_stereo, pcm_24bits3_le_stereo,
  pcm_24bits4_le_stereo, pcm_32bits_le_stereo, pcm_32bits_be_stereo, meaning, filter_setformat,
  format_value,
}

-- The loop over the bytes of the output: `n` bytes from the `i`th on, of which `j` were filled up with
-- 0. `sample >> k` is taken of the pattern; its low byte is the same for the signed value while
-- `k ≤ 24`.
pub out_bytes : ℕ → ℕ → ℕ → ℕ → ℕ → ℕ → List ℕ
out_bytes shift bits sample i j zero = []
out_bytes shift bits sample i j (suc n) =
    if ltb (i * 8) (shift - bits)
    then 0 ∷ out_bytes shift bits sample (i + 1) (j + 1) n
    else if ltb shift (i * 8)
    then 0 ∷ out_bytes shift bits sample (i + 1) j n
    else sample / 2 ^ ((i - j) * 8) % 256 ∷ out_bytes shift bits sample (i + 1) j n

unfoldable pub sample_bytes : Inout → ℕ → ℕ → List ℕ
unfolding out_bytes
sample_bytes format bits sample = out_bytes format.shift bits sample 0 0 format.samplesize

pub length-out_bytes :
    (shift bits sample i j n : ℕ) → length (out_bytes shift bits sample i j n) ≡ n
unfolding out_bytes
length-out_bytes shift bits sample i j zero = refl
length-out_bytes shift bits sample i j (suc n) = ground (
  arith,
  length-out_bytes shift bits sample (i + 1) (j + 1) n,
  length-out_bytes shift bits sample (i + 1) j n,
)

-- The number that bytes stand for, the lowest first.
abbrev pub little_endian : List ℕ → ℕ
little_endian [] = 0
little_endian (b ∷ bs) = b + 256 * little_endian bs

-- A number of whole bytes up to what the format carries.
pub data Bits : Type 0 where
  bits8 bits16 bits24 bits32 : Bits

abbrev pub bit_count : Bits → ℕ
bit_count bits8 = 8
bit_count bits16 = 16
bit_count bits24 = 24
bit_count bits32 = 32

-- A sample of 8, 16, 24 or 32 bits, no wider than the format, is written as the number that it is in the
-- format's full scale: times two to the number of missing bits, in two's complement, the lowest byte first.
-- So are the samples of PCM_32bits_BE_stereo, whose name says the highest byte first.
pub sample_bytes_scaled :
    (f : PcmFormat) (b : Bits) (sample : ℕ)
    → sample < 2 ^ 32
    → bit_count b ≤ (meaning f).1
    → little_endian (sample_bytes (filter_setformat (format_value f)) (bit_count b) sample)
      ≡ (sample * 2 ^ ((meaning f).1 - bit_count b)) % 2 ^ (8 * (meaning f).0)
unfolding sample_bytes filter_setformat format_value
sample_bytes_scaled pcm_8bits_mono bits8 sample h k = omega arith
sample_bytes_scaled pcm_8bits_mono bits16 sample h k = absurd (omega arith)
sample_bytes_scaled pcm_8bits_mono bits24 sample h k = absurd (omega arith)
sample_bytes_scaled pcm_8bits_mono bits32 sample h k = absurd (omega arith)
sample_bytes_scaled pcm_16bits_le_mono bits8 sample h k = omega arith
sample_bytes_scaled pcm_16bits_le_mono bits16 sample h k = omega arith
sample_bytes_scaled pcm_16bits_le_mono bits24 sample h k = absurd (omega arith)
sample_bytes_scaled pcm_16bits_le_mono bits32 sample h k = absurd (omega arith)
sample_bytes_scaled pcm_16bits_le_stereo bits8 sample h k = omega arith
sample_bytes_scaled pcm_16bits_le_stereo bits16 sample h k = omega arith
sample_bytes_scaled pcm_16bits_le_stereo bits24 sample h k = absurd (omega arith)
sample_bytes_scaled pcm_16bits_le_stereo bits32 sample h k = absurd (omega arith)
sample_bytes_scaled pcm_24bits3_le_stereo bits8 sample h k = omega arith
sample_bytes_scaled pcm_24bits3_le_stereo bits16 sample h k = omega arith
sample_bytes_scaled pcm_24bits3_le_stereo bits24 sample h k = omega arith
sample_bytes_scaled pcm_24bits3_le_stereo bits32 sample h k = absurd (omega arith)
sample_bytes_scaled pcm_24bits4_le_stereo bits8 sample h k = omega arith
sample_bytes_scaled pcm_24bits4_le_stereo bits16 sample h k = omega arith
sample_bytes_scaled pcm_24bits4_le_stereo bits24 sample h k = omega arith
sample_bytes_scaled pcm_24bits4_le_stereo bits32 sample h k = absurd (omega arith)
sample_bytes_scaled pcm_32bits_le_stereo bits8 sample h k = omega arith
sample_bytes_scaled pcm_32bits_le_stereo bits16 sample h k = omega arith
sample_bytes_scaled pcm_32bits_le_stereo bits24 sample h k = omega arith
sample_bytes_scaled pcm_32bits_le_stereo bits32 sample h k = omega arith
sample_bytes_scaled pcm_32bits_be_stereo bits8 sample h k = omega arith
sample_bytes_scaled pcm_32bits_be_stereo bits16 sample h k = omega arith
sample_bytes_scaled pcm_32bits_be_stereo bits24 sample h k = omega arith
sample_bytes_scaled pcm_32bits_be_stereo bits32 sample h k = omega arith
