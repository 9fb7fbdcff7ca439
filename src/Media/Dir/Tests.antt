-- ===== src/Media/Dir/Tests.antt =====
-- src/media_dir.c: the theorems at a small tree.
use putv.Prelude.{
  ℕ, ◌≡◌, refl, arith, true, false, none, some, List, [], ◌∷◌, length, get_elem?, ◌==◌,
  if◌then◌else◌,
}
use putv.Prelude.Int.{pos, negsuc}
use putv.Media.Mime.{Mime, octetstream, audiomp3, codes}
use putv.Media.Dir.{regular, directory, Entries, end, entry}
use putv.Media.Dir.Api.{Dir, media_init, media_list, media_find, media_next, media_play}
use putv.Media.Dir.Medias.{medias, ending, numbered}
use putv.Media.Dir.Next.{all, Playing, over}
use putv.Media.Dir.Visits.{visits, ids}
use putv.Media.Dir.Listing.{media_list_lem, media_find_lem, visits_init, lookup_answer}
use putv.Media.Dir.Past.{past_end, loop_diverges}

-- The names of music end with a 3.
unfoldable kind : List ℕ → Mime
kind [] = octetstream
kind (c ∷ []) = if c == b'3' then audiomp3 else octetstream
kind (c ∷ (d ∷ name)) = kind (d ∷ name)

abbrev inner : Entries
inner = entry (codes "b.mp3") regular end

abbrev tree : Entries
tree = entry (codes ".x.mp3") regular (
    entry (codes "a.mp3") regular
      (entry (codes "d") (directory false inner) (entry (codes "e") (directory true inner) end)))

-- A picture stands behind the music.
abbrev pictured : Entries
pictured = entry (codes "a.mp3") regular (entry (codes "z.jpg") regular end)

abbrev counted_tree : Dir
counted_tree = record {
  root = codes "/m";
  items = tree;
  count = pos 2;
  mediaid = negsuc 0;
  firstmediaid = negsuc 0;
  current = [];
  loop = false;
  random = false;
}

media_list_lem_example :
    media_list kind counted_tree
    ≡ (ending kind 0 (negsuc 1) tree, numbered 0 (all kind counted_tree), counted_tree)
unfolding medias kind
media_list_lem_example = media_list_lem kind counted_tree refl

media_find_lem_example :
    media_find kind counted_tree (pos 1)
    ≡ lookup_answer counted_tree 1 (get_elem? (all kind counted_tree) 1)
unfolding medias kind
media_find_lem_example = media_find_lem kind counted_tree 1 refl

visits_init_example :
    visits kind
      (length (medias kind (codes "/m") 0 tree))
      (media_init kind (codes "/m") tree)
      (negsuc 0)
      (λ n c. c)
    ≡ some (ids 0 (length (medias kind (codes "/m") 0 tree)))
visits_init_example = visits_init kind (codes "/m") tree (λ n c. c)

-- The second media plays, in the directory.
abbrev last_playing : Dir
last_playing = record counted_tree {
  firstmediaid = pos 0;
  current =
      record { path = codes "/m/d"; level = 1; items = inner; index = 0 }
      ∷ record { path = codes "/m"; level = 0; items = tree; index = 2 }
      ∷ [];
}

last_playing-Playing : Playing kind last_playing 1
unfolding medias kind
last_playing-Playing = record {
  counted = refl;
  straight = refl;
  inside = omega arith;
  stands = refl;
}

past_end_example :
    (media_next kind 1 last_playing (pos 1) (λ n c. c) ≡ some (pos 2, over last_playing 2))
    × (media_play kind (over last_playing 2) (pos 2)
        ≡ (negsuc 0, [], record (over last_playing 2) { mediaid = negsuc 0 }))
unfolding medias kind ending
past_end_example = past_end kind 0 last_playing 1 (λ n c. c) last_playing-Playing refl refl refl

abbrev picture_next : Dir
picture_next = record {
  root = codes "/m";
  items = pictured;
  count = pos 1;
  mediaid = pos 0;
  firstmediaid = pos 0;
  current = record { path = codes "/m"; level = 0; items = pictured; index = 0 } ∷ [];
  loop = true;
  random = false;
}

picture_next-Playing : Playing kind picture_next 0
unfolding medias kind
picture_next-Playing = record {
  counted = refl;
  straight = refl;
  inside = omega arith;
  stands = refl;
}

loop_diverges_example : media_next kind 1000 picture_next (pos 0) (λ n c. c) ≡ none
unfolding medias kind ending
loop_diverges_example =
    loop_diverges kind 1000 picture_next 0 (λ n c. c) picture_next-Playing refl refl refl refl refl
