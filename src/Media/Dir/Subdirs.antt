-- ===== src/Media/Dir/Subdirs.antt =====
-- src/media_dir.c, `_find` with `_find_mediaid`: an entry of each kind.
use putv.Prelude.{
  ℕ, suc, ◌+◌, ◌≡◌, refl, inl, inr, Bool, true, false, not, ◌&&◌, Option, List, [], ◌++◌, leb,
  length, Bool-cases,
}
use putv.Prelude.Int.{ℤ, pos, negsuc}
use putv.Media.Mime.{Mime}
use putv.Media.Dir.{
  Entry, regular, directory, other, Entries, end, entry, Dirlist, Search, find_mediaid, Item,
  Outcome, done, below, find_loop, find_entry,
}
use putv.Media.Dir.Medias.{Media, medias, entry_medias, above, rest_of, ending, entry_ending}
use putv.Media.Dir.Sought.{Room, walk, Sought, Miss-none}
use putv.Media.Dir.Files.{file_lem}

module _ (getmime : List ℕ → Mime) where
  -- A directory that is not entered.
  pub dir_skipped :
      (sought : Search) (path : List ℕ) (level : ℕ) (barred : Bool) (items : Entries)
      (name : List ℕ) (ret : ℤ) (m : ℕ) (count : Option ℤ) (calls : List Item)
      → (leb level 10 && not barred) ≡ false
      → (entry_medias getmime path level (directory barred items) name ≡ [])
        × (entry_ending getmime level ret (directory barred items) name ≡ ret)
        × (find_entry getmime sought path level
              (directory barred items)
              name
              ret
              (walk m count calls)
            ≡ done ret (walk m count calls))
  unfolding find_loop medias ending
  dir_skipped sought path level barred end name ret m count calls h =
      (rw h refl, rw h refl, rw h refl)
  dir_skipped sought path level barred (entry n f items) name ret m count calls h =
      (rw h refl, rw h refl, rw h refl)

  -- An empty directory, as if it were not there.
  pub dir_empty :
      (sought : Search) (path : List ℕ) (level : ℕ) (barred : Bool) (name : List ℕ) (ret : ℤ)
      (m : ℕ) (count : Option ℤ) (calls : List Item)
      → (leb level 10 && not barred) ≡ true
      → (entry_medias getmime path level (directory barred end) name ≡ [])
        × (entry_ending getmime level ret (directory barred end) name ≡ ret)
        × (find_entry getmime sought path level (directory barred end) name ret (walk m count calls)
            ≡ done ret (walk m count calls))
  unfolding find_loop medias ending
  dir_empty sought path level barred name ret m count calls h = (rw h refl, rw h refl, rw h refl)

  pub dir_entered :
      (sought : Search) (path : List ℕ) (level : ℕ) (barred : Bool) (n : List ℕ) (f : Entry)
      (rest : Entries) (name : List ℕ) (ret : ℤ) (m : ℕ) (count : Option ℤ) (calls : List Item)
      → (leb level 10 && not barred) ≡ true
      → let items = entry n f rest in
        let at = below path name in
        (entry_medias getmime path level (directory barred items) name
          ≡ medias getmime at (suc level) items)
        × (entry_ending getmime level ret (directory barred items) name
            ≡ ending getmime (suc level) (negsuc 1) items)
        × (find_entry getmime sought path level
              (directory barred items)
              name
              ret
              (walk m count calls)
            ≡ find_loop getmime sought at (suc level) items 0 items (negsuc 1) (walk m count calls))
  unfolding find_loop medias ending
  dir_entered sought path level barred n f rest name ret m count calls h =
      (rw h refl, rw h refl, rw h refl)

  -- A search that an entry without medias, and without a change, passes.
  pub missed :
      (parents : List Dirlist) (id m : ℕ) (ms : List Media) (count : Option ℤ) (calls : List Item)
      (ret ret' : ℤ) (o : Outcome)
      → (ms ≡ []) × (ret' ≡ ret) × (o ≡ done ret (walk m count calls))
      → Sought getmime parents id m ms count calls ret' o
  missed parents id m ms count calls ret ret' o h =
      rw (h.0, h.1) (inr (Miss-none getmime id m count calls ret o h.2))

  pub regular_lem :
      (path : List ℕ) (level : ℕ) (name : List ℕ) (ret : ℤ) (parents : List Dirlist) (id m : ℕ)
      (count : Option ℤ) (calls : List Item)
      → rest_of getmime parents
        ≡ entry_medias getmime path level regular name ++ above getmime parents
      → Room count (m + length (entry_medias getmime path level regular name))
      → Sought getmime parents id m
          (entry_medias getmime path level regular name)
          count
          calls
          (entry_ending getmime level ret regular name)
          (find_entry getmime
            (find_mediaid (pos id))
            path
            level
            regular
            name
            ret
            (walk m count calls))
  unfolding find_loop
  regular_lem path level name ret parents id m count calls at room =
      file_lem getmime parents path name level ret id m count calls at room

  pub dir_lem :
      (path : List ℕ) (level : ℕ) (barred : Bool) (items : Entries) (name : List ℕ) (ret : ℤ)
      (parents : List Dirlist) (id m : ℕ) (count : Option ℤ) (calls : List Item)
      → let e = directory barred items in
        let at = below path name in
        let ms = medias getmime at (suc level) items in
        Room count (m + length (entry_medias getmime path level e name))
        → (Room count (m + length ms)
            → Sought getmime parents id m ms count calls
                (ending getmime (suc level) (negsuc 1) items)
                (find_loop getmime
                  (find_mediaid (pos id))
                  at
                  (suc level)
                  items
                  0
                  items
                  (negsuc 1)
                  (walk m count calls)))
        → Sought getmime parents id m
            (entry_medias getmime path level e name)
            count
            calls
            (entry_ending getmime level ret e name)
            (find_entry getmime (find_mediaid (pos id)) path level e name ret (walk m count calls))
  dir_lem path level barred end name ret parents id m count calls room inner =
      let sought = find_mediaid (pos id) in
      missed parents id m (entry_medias getmime path level (directory barred end) name) count calls
        ret (entry_ending getmime level ret (directory barred end) name)
        (find_entry getmime sought path level (directory barred end) name ret (walk m count calls))
        (elim (Bool-cases (leb level 10 && not barred)) [
          | inl h ↦ dir_empty sought path level barred name ret m count calls h
          | inr h ↦ dir_skipped sought path level barred end name ret m count calls h
        ])
  dir_lem path level barred (entry n f rest) name ret parents id m count calls room inner =
      let sought = find_mediaid (pos id) in
      let items = entry n f rest in
      elim (Bool-cases (leb level 10 && not barred)) [
        | inl h ↦
            let same = dir_entered sought path level barred n f rest name ret m count calls h in
            rw (same.0, same.1, same.2) (inner (rw same.0 at room))
        | inr h ↦
            missed parents id m (entry_medias getmime path level (directory barred items) name)
              count calls ret (entry_ending getmime level ret (directory barred items) name)
              (find_entry getmime sought path level (directory barred items) name ret
                (walk m count calls))
              (dir_skipped sought path level barred items name ret m count calls h)
      ]

  pub end_lem :
      (path : List ℕ) (level : ℕ) (items : Entries) (index : ℕ) (ret : ℤ) (parents : List Dirlist)
      (id m : ℕ) (count : Option ℤ) (calls : List Item)
      → Sought getmime parents id m
          (medias getmime path level end)
          count
          calls
          (ending getmime level ret end)
          (find_loop getmime
            (find_mediaid (pos id))
            path
            level
            items
            index
            end
            ret
            (walk m count calls))
  unfolding find_loop medias ending
  end_lem path level items index ret parents id m count calls =
      inr (Miss-none getmime id m count calls ret (done ret (walk m count calls)) refl)

  pub other_lem :
      (path : List ℕ) (level : ℕ) (name : List ℕ) (ret : ℤ) (parents : List Dirlist) (id m : ℕ)
      (count : Option ℤ) (calls : List Item)
      → Sought getmime parents id m
          (entry_medias getmime path level other name)
          count
          calls
          (entry_ending getmime level ret other name)
          (find_entry getmime
            (find_mediaid (pos id))
            path
            level
            other
            name
            ret
            (walk m count calls))
  unfolding find_loop medias ending
  other_lem path level name ret parents id m count calls =
      inr (Miss-none getmime id m count calls ret (done ret (walk m count calls)) refl)
