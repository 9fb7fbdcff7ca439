-- ===== src/Media/Dir/Medias.antt =====
-- src/media_dir.c: the audio files of a tree in the order of a walk, and how a walk over it ends.
use putv.Prelude.{ℕ, suc, not, ◌&&◌, List, [], ◌∷◌, ◌++◌, leb, if◌then◌else◌}
use putv.Prelude.Int.{ℤ, pos, negsuc}
use putv.Media.Mime.{Mime, codes}
use putv.Media.Dir.{
  Entry, regular, directory, other, Entries, end, entry, Dirlist, Item, is_octetstream, is_hidden,
  drop_items, is_empty, below,
}

abbrev pub Media : Type 0
Media = List ℕ × Mime

abbrev pub item_at : ℕ → Media → Item
item_at id m = record { id = pos id; url = m.0; mime = m.1 }

abbrev pub numbered : ℕ → List Media → List Item
numbered id [] = []
numbered id (m ∷ ms) = item_at id m ∷ numbered (suc id) ms

module _ (getmime : List ℕ → Mime) where
  unfoldable mutual
    pub medias : List ℕ → ℕ → Entries → List Media
    medias path level end = []
    medias path level (entry name e rest) =
        let others = medias path level rest in
        if is_hidden name then others else entry_medias path level e name ++ others

    pub entry_medias : List ℕ → ℕ → Entry → List ℕ → List Media
    entry_medias path level regular name =
        if is_octetstream (getmime name)
        then []
        else (codes "file://" ++ below path name, getmime name) ∷ []
    entry_medias path level other name = []
    entry_medias path level (directory barred items) name =
        let inner = medias (below path name) (suc level) items in
        if leb level 10 && not barred then inner else []

  -- The medias from the entry on where a walk stopped, and those behind the directories above it.
  abbrev pub above : List Dirlist → List Media
  above [] = []
  above (d ∷ ds) = medias d.path d.level (drop_items (suc d.index) d.items) ++ above ds

  abbrev pub rest_of : List Dirlist → List Media
  rest_of [] = []
  rest_of (d ∷ ds) = medias d.path d.level (drop_items d.index d.items) ++ above ds

  -- The value of `ret` behind a walk that found nothing: the last file or directory decides.
  unfoldable mutual
    pub ending : ℕ → ℤ → Entries → ℤ
    ending level ret end = ret
    ending level ret (entry name e rest) =
        ending level (if is_hidden name then ret else entry_ending level ret e name) rest

    pub entry_ending : ℕ → ℤ → Entry → List ℕ → ℤ
    entry_ending level ret regular name = if is_octetstream (getmime name) then negsuc 0 else pos 1
    entry_ending level ret other name = ret
    entry_ending level ret (directory barred items) name =
        let inner = ending (suc level) (negsuc 1) items in
        let entered = if is_empty items then ret else inner in
        if leb level 10 && not barred then entered else ret

  abbrev pub ending_above : ℤ → List Dirlist → ℤ
  ending_above ret [] = ret
  ending_above ret (d ∷ ds) =
      ending_above (ending d.level ret (drop_items (suc d.index) d.items)) ds

  abbrev pub ending_rest : List Dirlist → ℤ
  ending_rest [] = negsuc 1
  ending_rest (d ∷ ds) = ending_above (ending d.level (negsuc 1) (drop_items d.index d.items)) ds
