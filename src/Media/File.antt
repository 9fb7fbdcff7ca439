-- ===== src/Media/File.antt =====
-- src/media_file.c, built with MEDIA_FILE_LIST: a list of urls in memory.
-- A pointer to an entry is the entry's `id`. `utils_getmime`, `media_fillinfo` and `mime_directory`
-- are of src/media_common.c, and are parameters here.
pub mod Valid
pub mod Ids
pub mod Order
mod Tests
use Prim.Native.String.{String}
use text.Mathlib.Text.{◌==◌ as str_eq}
use putv.Prelude.{
  ℕ, zero, suc, ◌+◌, Bool, true, false, Option, none, some, List, [], ◌∷◌, ◌++◌, ◌==◌, ltb, ◌-◌,
  ◌%◌, ◌^◌, if◌then◌else◌,
}
use putv.Prelude.Int.{ℤ, pos, negsuc}

-- `media_url_t`. A `freed` entry is one whose strings `media_remove` has freed.
pub record Url : Type 0 where
  pub url : String
  pub info : Option String
  pub mime : String
  pub id : ℕ
  pub freed : Bool

-- `media_ctx_t`; of `options`, the flag OPTION_LOOP.
pub record File : Type 0 where
  pub media : List Url
  pub current : Option ℕ
  pub loop : Bool
  pub lastid : ℕ

pub media_count : List Url → ℕ
media_count [] = 0
media_count (u ∷ us) = suc (media_count us)

-- `_media_find`
unfoldable pub find_id : ℕ → List Url → Option Url
find_id id [] = none
find_id id (u ∷ us) = if u.id == id then some u else find_id id us

-- The loop of `strcmp`s over the urls. `none` is a read of a freed string; else the entry, if any.
unfoldable pub find_url : String → List Url → Option (Option Url)
find_url path [] = some none
find_url path (u ∷ us) =
    if u.freed then none else if str_eq path u.url then some (some u) else find_url path us

-- The entry that follows the one with this id, and the first.
pub next_of : ℕ → List Url → Option Url
next_of id [] = none
next_of id (u ∷ []) = none
next_of id (u ∷ (w ∷ us)) = if u.id == id then some w else next_of id (w ∷ us)

abbrev pub first : List Url → Option Url
first [] = none
first (u ∷ us) = some u

abbrev pub id_of : Option Url → Option ℕ
id_of none = none
id_of (some u) = some u.id

-- An unsigned int that is returned as an int.
abbrev pub as_int : ℕ → ℤ
as_int n = if ltb n (2 ^ 31) then pos n else negsuc (2 ^ 32 - 1 - n)

-- An int of the code that is an id, or -1.
abbrev pub or_minus_1 : Option ℕ → ℤ
or_minus_1 none = negsuc 0
or_minus_1 (some n) = as_int n

-- The entry that `media_next` moves to.
pub advance : File → Option ℕ → Option ℕ
advance f none = id_of (first f.media)
advance f (some id) = elim (next_of id f.media) [
  | none ↦ if f.loop then id_of (first f.media) else none
  | some u ↦ some u.id
]

unfoldable pub media_next : File → ℤ × File
unfolding advance next_of
media_next f = (or_minus_1 (advance f f.current), record f { current = advance f f.current })

pub media_end : File → ℤ × File
media_end f = (pos 0, record f { current = none })

-- `option_state_t`, and what `media_loop` returns.
pub data OptionState : Type 0 where
  request disable enable : OptionState

abbrev new_loop : OptionState → Bool → Bool
new_loop enable b = true
new_loop disable b = false
new_loop request b = b

unfoldable pub media_loop : File → OptionState → OptionState × File
media_loop f o =
    (if new_loop o f.loop then enable else disable, record f { loop = new_loop o f.loop })

-- `media_find` for one id, and for all of the list: what it returns (1 or -1). The callback is
-- whether it accepts an entry (a result of at least 0). A negative id but -1 is compared as an unsigned int.
pub find_one : (Url → Bool) → Option Url → ℤ
find_one cb none = negsuc 0
find_one cb (some u) = if cb u then pos 1 else negsuc 0

pub find_all : (Url → Bool) → List Url → ℤ
find_all cb [] = pos 1
find_all cb (u ∷ us) = let rest = find_all cb us in if cb u then rest else negsuc 0

pub media_find : File → ℤ → (Url → Bool) → ℤ
unfolding find_one find_all find_id
media_find f (pos id) cb = find_one cb (find_id id f.media)
media_find f (negsuc zero) cb = find_all cb f.media
media_find f (negsuc (suc n)) cb = find_one cb (find_id (2 ^ 32 - 2 - n) f.media)

-- `media_play`, with a callback: it plays the entry of that id, and returns the id of `current`.
pub media_play : File → ℤ → (Url → Bool) → ℤ
unfolding media_find
media_play f id cb = elim f.current [
  | none ↦ negsuc 0
  | some c ↦ elim (media_find f id cb) [ negsuc n ↦ negsuc n | pos n ↦ as_int c ]
]

-- `media_remove` frees the strings of the entry, and leaves the entry in the list.
unfoldable pub free_id : ℕ → List Url → List Url
free_id id [] = []
free_id id (u ∷ us) = if u.id == id then record u { freed = true } ∷ us else u ∷ free_id id us

unfoldable pub media_remove : File → ℕ → ℤ × File
unfolding free_id
media_remove f id = (pos 0, record f { media = free_id id f.media })

-- The id of a new entry, an unsigned int.
abbrev pub new_id : List Url → ℕ → ℕ
new_id [] lastid = 0
new_id (u ∷ us) lastid = (lastid + 1) % 2 ^ 32

module _ (getmime : String → String) (fillinfo : String → Option String → Option String)
    (mime_directory : String) where
  abbrev mime_or : String → Option String → String
  mime_or path none = getmime path
  mime_or path (some m) = m

  abbrev info_or : String → Option String → Option String → Option String
  info_or path none mime = fillinfo path mime
  info_or path (some i) mime = some i

  abbrev pub entry : File → String → Option String → Option String → Url
  entry f path info mime = record {
    url = path;
    info = info_or path info mime;
    mime = mime_or path mime;
    id = new_id f.media f.lastid;
    freed = false;
  }

  -- `none` is the use of a string that `media_remove` freed.
  unfoldable pub media_insert : File → String → Option String → Option String → Option (ℤ × File)
  unfolding find_url
  media_insert f path info mime = elim (find_url path f.media) [
    | none ↦ none
    | some (some u) ↦ some (as_int u.id, f)
    | some none ↦
        if str_eq (mime_or path mime) mime_directory
        then some (negsuc 0, f)
        else some (
          as_int f.lastid,
          record f { lastid = new_id f.media f.lastid; media = entry f path info mime ∷ f.media },
        )
  ]

  pub media_append : File → String → Option String → Option String → Option (ℤ × File)
  unfolding find_url
  media_append f path info mime = elim (find_url path f.media) [
    | none ↦ none
    | some (some u) ↦ some (as_int u.id, f)
    | some none ↦ some (
      as_int f.lastid,
      record f {
        lastid = new_id f.media f.lastid;
        media = f.media ++ (entry f path info mime ∷ []);
      },
    )
  ]
