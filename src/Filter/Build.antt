-- ===== src/Filter/Build.antt =====
-- src/filter_pcm.c, `filter_build`, built without FILTER_STATS. What `media_boost` reads of a media's
-- information is an argument.
use Prim.Native.Nat.{bit_and, bit_or}
use putv.Prelude.{
  ℕ, zero, suc, ◌-◌, ◌≡◌, refl, ◌∙◌, arith, Bool, true, false, ◌&&◌, ◌||◌, Option, none, some, List,
  [], ◌∷◌, ◌++◌, ◌==◌, leb, if◌then◌else◌, length, length-append, drop,
}
use putv.Prelude.Int.{ℤ, pos, ltb_ℤ, pos_part}
use putv.Text.{strchr, strncmp, strstr, starts_with, strchr-append, strncmp-append}
use putv.Media.Mime.{codes}
use putv.Sinks.Settings.{atoi, is_digit}
use putv.Filter.Format.{
  PcmFormat, Inout, filter_setformat, format_value, jitter_audio, jitter_audio_interleaved,
}
use putv.Filter.Mono.{mono_init}
use putv.Filter.Mixed.{mixed_init}
use putv.Filter.Boost.{boost_init}
use putv.Filter.Run.{Sampled, boost, mono, mixed}

-- `filter_t` with its context: the format, and the chain of installed functions, the last one first.
pub record Filter : Type 0 where
  pub format : Inout
  pub sampled : List Sampled

abbrev pub contains : List ℕ → List ℕ → Bool
contains text word = elim (strstr text word) [ none ↦ false | some at ↦ true ]

-- Whether `sscanf` reads a number with `%d`.
abbrev starts_digit : List ℕ → Bool
starts_digit [] = false
starts_digit (c ∷ text) = is_digit c

unfoldable starts_number : List ℕ → Bool
starts_number [] = false
starts_number (c ∷ text) =
    let rest = starts_number text in
    if c == b' ' || leb b'\t' c && leb c b'\r'
    then rest
    else if c == b'-' || c == b'+'
    then starts_digit text
    else is_digit c

-- `_filter_build_pcm`, the gain: that of the media's information, or the one of the query.
pub replaygain : Option ℤ → Option (List ℕ) → ℤ
unfolding starts_number
replaygain info query =
    let of_info : ℤ = elim info [ none ↦ pos 0 | some gain ↦ gain ] in
    elim query [
      | none ↦ of_info
      | some text ↦ elim (strstr text (codes "boost=")) [
        | none ↦ of_info
        | some at ↦ if starts_number (drop 6 at) then atoi (drop 6 at) else of_info
      ]
    ]

abbrev asks : Option (List ℕ) → List ℕ → Bool
asks query word = elim query [ none ↦ false | some text ↦ contains text word ]

abbrev pub when : Bool → Sampled → List Sampled → List Sampled
when wanted f chain = if wanted then f ∷ chain else chain

abbrev pub stereo_bits : ℕ
stereo_bits = bit_or jitter_audio jitter_audio_interleaved

-- `_filter_build_pcm`. Both mono filters are the one in `filter_t`, whose channel is the last one set.
pub filter_build_pcm : Option (List ℕ) → PcmFormat → Option ℤ → Filter
filter_build_pcm query format info =
    let gain = replaygain info query in
    let left = asks query (codes "mono=left") in
    let right = asks query (codes "mono=right") in
    let mix = asks query (codes "mono=mixed") in
    let channel = if right then 1 else 0 in
    let nchannels = if bit_and (format_value format) stereo_bits == stereo_bits then 2 else 1 in
    record {
      format = filter_setformat (format_value format);
      sampled = when mix (mixed (mixed_init nchannels)) (
          when right (mono (mono_init channel)) (
            when left (mono (mono_init channel))
              (when (ltb_ℤ (pos 0) gain) (boost (boost_init (pos_part gain))) [])));
    }

-- `filter_build`
pub filter_build : List ℕ → PcmFormat → Option ℤ → Option Filter
filter_build name format info = elim (strchr b'?' name) [
  | none ↦
      if strncmp (length name) name (codes "pcm")
      then some (filter_build_pcm none format info)
      else none
  | some query ↦
      if strncmp (length name - length query) name (codes "pcm")
      then some (filter_build_pcm (some (drop 1 query)) format info)
      else none
]

strncmp_comm : (n : ℕ) (a b : List ℕ) → strncmp n a b ≡ strncmp n b a
unfolding strncmp
strncmp_comm zero a b = refl
strncmp_comm (suc n) [] [] = refl
strncmp_comm (suc n) [] (y ∷ b) = refl
strncmp_comm (suc n) (x ∷ a) [] = refl
strncmp_comm (suc n) (x ∷ a) (y ∷ b) =
    let swap : (x == y) ≡ (y == x) = ground arith in rw (swap, strncmp_comm n a b) refl

-- The filter is built for a name that is any beginning of "pcm", also none, and for no other name.
pub filter_build_lem :
    (name query : List ℕ) (format : PcmFormat) (info : Option ℤ)
    → strchr b'?' name ≡ none
    → filter_build (name ++ b'?' ∷ query) format info ≡ (
        if starts_with (codes "pcm") name
        then some (filter_build_pcm (some query) format info)
        else none)
unfolding filter_build
filter_build_lem name query format info h =
    let found = strchr-append b'?' name query h in
    let size : length (name ++ b'?' ∷ query) - length (b'?' ∷ query) ≡ length name =
      omega (arith, length-append name (b'?' ∷ query)) in
    let same : strncmp (length name) (name ++ b'?' ∷ query) (codes "pcm")
        ≡ starts_with (codes "pcm") name =
      strncmp_comm (length name) (name ++ b'?' ∷ query) (codes "pcm")
      ∙ strncmp-append (codes "pcm") name (b'?' ∷ query) in
    rw (filter_build, found, size, same) refl
