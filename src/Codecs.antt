-- ===== src/Codecs.antt =====
-- src/decoder_common.c and src/encoder_common.c: the decoder and the encoder of a type of data.
mod Tests
use putv.Prelude.{
  ℕ, zero, suc, ◌+◌, ◌-◌, ◌≡◌, refl, sym, ap, ◌∙◌, arith, inl, inr, Bool, true, false, ◌&&◌, Option,
  none, some, List, [], ◌∷◌, ◌++◌, ◌==◌, if◌then◌else◌, length, length-append, Bool-cases,
  Option-cases,
}
use putv.Text.{strchr, strrchr, strncmp, strcmp, strchr-append, strchr-append_none}
use putv.Media.Mime.{
  Mime, octetstream, audiomp3, audioflac, audioalac, audioaac, audiopcm, imagejpg, imagepng,
  directory, mime_text, codes,
}

-- `decoder_ops_t`: the type that it decodes, and whether it takes a path.
pub record DecoderOps : Type 0 where
  pub mime : Mime
  pub checkin : List ℕ → Bool

-- `decoder_mime`, over the list of decoders.
pub decoder_mime : List DecoderOps → List ℕ → Option Mime
decoder_mime [] path = none
decoder_mime (ops ∷ list) path =
    let rest = decoder_mime list path in if ops.checkin path then some ops.mime else rest

-- `decoder_build`: the decoder whose type has the same text, and its context from `init`.
module _ {C : Type 0} (init : DecoderOps → Option C) where
  pub decoder_find : List DecoderOps → List ℕ → Option DecoderOps
  decoder_find [] mime = none
  decoder_find (ops ∷ list) mime =
      let rest = decoder_find list mime in
      if strcmp mime (mime_text ops.mime) then some ops else rest

  pub decoder_build : List DecoderOps → Option (List ℕ) → Option (DecoderOps × C)
  decoder_build list none = none
  decoder_build list (some mime) = elim (decoder_find list mime) [
    | none ↦ none
    | some ops ↦ elim (init ops) [ none ↦ none | some ctx ↦ some (ops, ctx) ]
  ]

-- `utils_getmime`: of the decoders, else of the sources, else by what is at the path.
pub utils_getmime : List DecoderOps → Option Mime → Bool → List ℕ → Mime
utils_getmime list source is_directory path = elim (decoder_mime list path) [
  | some mime ↦ mime
  | none ↦ elim source [ some mime ↦ mime | none ↦ if is_directory then directory else octetstream ]
]

-- The encoders of a build with LAME and FLAC, and the one that is built in for all else.
pub data Encoder : Type 0 where
  encoder_default encoder_lame encoder_flac : Encoder

-- `encoder_check`, how much of the path is compared.
pub compared : List ℕ → ℕ
compared path = elim (strchr b'?' path) [
  | some end ↦ length path - length end
  | none ↦ elim (strchr b'&' path) [ some end ↦ length path - length end | none ↦ length path ]
]

-- `encoder_check`, without FAAC.
pub encoder_check : List ℕ → Encoder
encoder_check path =
    let len = compared path in
    elim (strrchr b'.' path) [
      | some ext ↦
          if strncmp len ext (codes ".flac")
          then encoder_flac
          else if strncmp len ext (codes ".mp3")
          then encoder_lame
          else encoder_default
      | none ↦
          if strncmp len path (mime_text audioflac)
          then encoder_flac
          else if strncmp len path (mime_text audiomp3)
          then encoder_lame
          else encoder_default
    ]

strcmp_refl : (text : List ℕ) → strcmp text text ≡ true
unfolding strcmp
strcmp_refl [] = refl
strcmp_refl (x ∷ text) = ground (arith, strcmp_refl text)

abbrev text_of : Option Mime → List ℕ
text_of none = []
text_of (some m) = mime_text m

module _ {C : Type 0} (init : DecoderOps → Option C) where
  find_known :
      (list : List DecoderOps) (path : List ℕ) (mime : Mime)
      → decoder_mime list path ≡ some mime
      → (ops : DecoderOps) × (decoder_find init list (mime_text mime) ≡ some ops)
        × (strcmp (mime_text mime) (mime_text ops.mime) ≡ true)
  unfolding decoder_mime decoder_find
  find_known [] path mime h = absurd cc
  find_known (ops ∷ list) path mime h =
      elim (Bool-cases (strcmp (mime_text mime) (mime_text ops.mime))) [
        | inl e ↦ (ops, rw (decoder_find, e) refl, e)
        | inr e ↦ elim (Bool-cases (ops.checkin path)) [
          | inl taken ↦
              let same : some ops.mime ≡ some mime = (rw taken at h) in
              let equal : strcmp (mime_text mime) (mime_text ops.mime) ≡ true =
                ap (λ o. strcmp (mime_text mime) (text_of o)) same ∙ strcmp_refl (mime_text mime) in
              absurd cc
          | inr other ↦
              let rest = find_known list path mime (rw other at h) in
              (rest.0, rw (decoder_find, e) rest.1, rest.2)
        ]
      ]

  -- Where the decoders know a path's type, and all of them can be made, one is built for that type.
  pub known_mime_built :
      (list : List DecoderOps) (path : List ℕ) (mime : Mime)
      (inits : (ops : DecoderOps) → (ctx : C) × (init ops ≡ some ctx))
      → decoder_mime list path ≡ some mime
      → (ops : DecoderOps) × (ctx : C) × (decoder_build init list (some (mime_text mime))
          ≡ some (ops, ctx))
        × (strcmp (mime_text mime) (mime_text ops.mime) ≡ true)
  unfolding decoder_build
  known_mime_built list path mime inits h =
      let found = find_known list path mime h in
      let made = inits found.0 in
      (found.0, made.0, rw (decoder_build, found.1, made.1) refl, found.2)

-- What is expected of a type with an encoder.
abbrev pub encoder_of : Mime → Encoder
encoder_of audiomp3 = encoder_lame
encoder_of audioflac = encoder_flac
encoder_of _ = encoder_default

plain_text : (m : Mime) → (strchr b'?' (mime_text m) ≡ none) × (strchr b'&' (mime_text m) ≡ none)
unfolding strchr
plain_text octetstream = (refl, refl)
plain_text audiomp3 = (refl, refl)
plain_text audioflac = (refl, refl)
plain_text audioalac = (refl, refl)
plain_text audioaac = (refl, refl)
plain_text audiopcm = (refl, refl)
plain_text imagejpg = (refl, refl)
plain_text imagepng = (refl, refl)
plain_text directory = (refl, refl)

no_dot_before :
    (m : Mime) (rest : List ℕ)
    → strrchr b'.' rest ≡ none
    → strrchr b'.' (mime_text m ++ b'&' ∷ rest) ≡ none
unfolding strrchr
no_dot_before octetstream rest h = rw h refl
no_dot_before audiomp3 rest h = rw h refl
no_dot_before audioflac rest h = rw h refl
no_dot_before audioalac rest h = rw h refl
no_dot_before audioaac rest h = rw h refl
no_dot_before audiopcm rest h = rw h refl
no_dot_before imagejpg rest h = rw h refl
no_dot_before imagepng rest h = rw h refl
no_dot_before directory rest h = rw h refl

behind_ampersand : (rest : List ℕ) → strchr b'?' rest ≡ none → strchr b'?' (b'&' ∷ rest) ≡ none
unfolding strchr
behind_ampersand rest h = h

compared-mime :
    (m : Mime) (rest : List ℕ)
    → strchr b'?' rest ≡ none
    → compared (mime_text m ++ b'&' ∷ rest) ≡ length (mime_text m)
unfolding compared
compared-mime m rest no_query =
    let plain = plain_text m in
    let behind : strchr b'?' (b'&' ∷ rest) ≡ none = behind_ampersand rest no_query in
    let query = strchr-append_none b'?' (mime_text m) (b'&' ∷ rest) plain.0 behind in
    let ampersand = strchr-append b'&' (mime_text m) rest plain.1 in
    rw (compared, query, ampersand) (omega (arith, length-append (mime_text m) (b'&' ∷ rest)))

compare_types :
    (m : Mime) (rest : List ℕ)
    → (if strncmp (length (mime_text m)) (mime_text m ++ b'&' ∷ rest) (mime_text audioflac)
        then encoder_flac
        else if strncmp (length (mime_text m)) (mime_text m ++ b'&' ∷ rest) (mime_text audiomp3)
        then encoder_lame
        else encoder_default)
      ≡ encoder_of m
unfolding strncmp
compare_types octetstream rest = refl
compare_types audiomp3 rest = refl
compare_types audioflac rest = refl
compare_types audioalac rest = refl
compare_types audioaac rest = refl
compare_types audiopcm rest = refl
compare_types imagejpg rest = refl
compare_types imagepng rest = refl
compare_types directory rest = refl

-- The type of an url's search, up to a `&` behind it, has its encoder, where what follows has no dot and
-- no question mark: LAME for MP3, FLAC for FLAC and the default one for all others.
pub encoder_check-mime :
    (m : Mime) (rest : List ℕ)
    → strchr b'?' rest ≡ none
    → strrchr b'.' rest ≡ none
    → encoder_check (mime_text m ++ b'&' ∷ rest) ≡ encoder_of m
unfolding encoder_check
encoder_check-mime m rest no_query no_dot =
    rw (encoder_check, no_dot_before m rest no_dot, compared-mime m rest no_query)
      (compare_types m rest)
