-- ===== src/Media/Mime.antt =====
-- src/media_common.c: the mime types that the program knows, and reading one from a text.
use Prim.Native.Char.{code}
use Prim.Native.String.{String}
use putv.Prelude.{ℕ, ◌≡◌, refl, Option, none, some, List, [], ◌∷◌, ◌++◌, if◌then◌else◌}
use putv.Text.{starts_with}

-- The constants `mime_octetstream` to `mime_directory`, which the code compares as pointers.
pub data Mime : Type 0 where
  octetstream audiomp3 audioflac audioalac audioaac audiopcm imagejpg imagepng directory : Mime

-- The code points of a text: its bytes, as it is ASCII.
abbrev pub codes : String → List ℕ
codes String.[] = []
codes (String.◌∷◌ c s) = code c ∷ codes s

abbrev pub mime_text : Mime → List ℕ
mime_text octetstream = codes "octet/stream"
mime_text audiomp3 = codes "audio/mp3"
mime_text audioflac = codes "audio/flac"
mime_text audioalac = codes "audio/alac"
mime_text audioaac = codes "audio/aac"
mime_text audiopcm = codes "audio/pcm"
mime_text imagejpg = codes "image/jpg"
mime_text imagepng = codes "image/png"
mime_text directory = codes "inode/directory"

-- `utils_mime2mime`; `none` is the null pointer. `!strncmp(mime, type, strlen(type))` is whether the
-- text starts with the type.
pub utils_mime2mime : Option (List ℕ) → Mime
unfolding starts_with
utils_mime2mime none = octetstream
utils_mime2mime (some mime) =
    if starts_with mime (mime_text audiomp3)
    then audiomp3
    else if starts_with mime (mime_text audioflac)
    then audioflac
    else if starts_with mime (mime_text audioalac)
    then audioalac
    else if starts_with mime (mime_text audiopcm)
    then audiopcm
    else if starts_with mime (mime_text audioaac)
    then audioaac
    else if starts_with mime (mime_text imagejpg)
    then imagejpg
    else if starts_with mime (mime_text imagepng)
    then imagepng
    else octetstream

-- What is read back of a mime type.
abbrev pub known : Mime → Mime
known directory = octetstream
known m = m

-- The text of a mime type, whatever follows it, is read back as that type, that of a directory as
-- octetstream.
pub mime2mime-text :
    (m : Mime) (rest : List ℕ) → utils_mime2mime (some (mime_text m ++ rest)) ≡ known m
unfolding utils_mime2mime
mime2mime-text octetstream rest = refl
mime2mime-text audiomp3 rest = refl
mime2mime-text audioflac rest = refl
mime2mime-text audioalac rest = refl
mime2mime-text audioaac rest = refl
mime2mime-text audiopcm rest = refl
mime2mime-text imagejpg rest = refl
mime2mime-text imagepng rest = refl
mime2mime-text directory rest = refl
