-- ===== src/Media/File/Tests.antt =====
-- src/media_file.c: the theorems at a list of three urls.
use Prim.Native.String.{String}
use text.Mathlib.Text.{◌==◌ as str_eq}
use text.Mathlib.TextEquality.{eq_iff}
use putv.Prelude.{ℕ, ◌≡◌, ◌≢◌, refl, arith, true, false, Option, none, some, List, [], ◌∷◌}
use putv.Prelude.Int.{ℤ, pos}
use putv.Media.File.{Url, File, find_url, media_insert, media_append, media_next}
use putv.Media.File.Valid.{IsValid, insert_append-IsValid}
use putv.Media.File.Order.{visits, next_visits_all}

-- What the functions of src/media_common.c might answer.
abbrev getmime : String → String
getmime path = "audio/mp3"

abbrev fillinfo : String → Option String → Option String
fillinfo path mime = none

abbrev url : String → ℕ → Url
url name id = record { url = name; info = none; mime = "audio/mp3"; id = id; freed = false }

abbrev urls : List Url
urls = url "b.mp3" 1 ∷ url "a.mp3" 0 ∷ url "c.mp3" 2 ∷ []

abbrev list : File
list = record { media = urls; current = none; loop = true; lastid = 2 }

abbrev insert : File → String → Option (ℤ × File)
insert f path = media_insert getmime fillinfo "directory" f path none none

abbrev longer : File
longer = record list { lastid = 3; media = url "d.mp3" 3 ∷ urls }

differ : (a b : String) → str_eq a b ≡ false → a ≢ b
differ a b h e = ground (arith, eq_iff a b)

list-IsValid : IsValid list
list-IsValid = record {
  live = (refl, (refl, (refl, tt)));
  below = (omega arith, (omega arith, (omega arith, tt)));
  distinct = (
    ((λ e. cc), differ "b.mp3" "a.mp3" refl, ((λ e. cc), differ "b.mp3" "c.mp3" refl, tt)),
    (((λ e. cc), differ "a.mp3" "c.mp3" refl, tt), (tt, tt)),
  );
}

insert-list : insert list "d.mp3" ≡ some (pos 2, longer)
unfolding media_insert find_url
insert-list = refl

insert_append-IsValid_example :
    ((r : ℤ) × (g : File) × (media_insert getmime fillinfo "directory" list "d.mp3" none none
        ≡ some (r, g))
      × IsValid g)
    × ((r : ℤ) × (g : File) × (media_append getmime fillinfo "directory" list "d.mp3" none none
          ≡ some (r, g))
        × IsValid g)
insert_append-IsValid_example =
    insert_append-IsValid getmime fillinfo "directory" list "d.mp3" none none (omega arith)
      list-IsValid

next_visits_all_example :
    (visits 3 list ≡ (pos 1 ∷ pos 0 ∷ pos 2 ∷ [], record list { current = some 2 }))
    × ((media_next (record list { current = some 2 })).0 ≡ pos 1)
next_visits_all_example =
    next_visits_all list (url "b.mp3" 1) (url "a.mp3" 0 ∷ url "c.mp3" 2 ∷ []) list-IsValid refl refl
