-- ===== src/Media/Dir/Count.antt =====
-- src/media_dir.c, `_find` with `_find_count`: a walk over all of the tree.
use putv.Prelude.{
  ℕ, suc, ◌+◌, ◌≡◌, refl, sym, ap, ◌∙◌, inl, inr, arith, Bool, not, ◌&&◌, Option, List, [], ◌∷◌,
  ◌++◌, leb, length, Bool-cases, append_assoc, length-append, append-[],
}
use putv.Prelude.Int.{ℤ, pos, negsuc}
use putv.Media.Mime.{Mime}
use putv.Media.Dir.{
  Entry, regular, directory, other, Entries, end, entry, find_count, Item, Walk, Outcome, done,
  is_octetstream, is_hidden, below, find_cb, find_file, find_loop, find_entry,
}
use putv.Media.Dir.Medias.{Media, item_at, numbered, medias, entry_medias, ending, entry_ending}
use putv.Media.Dir.Sought.{
  Room, Room-le, walk, raise-Room, loop_hidden, loop_done, medias_hidden, medias_shown,
  ending_hidden, ending_shown,
}
use putv.Media.Dir.Files.{media_of}
use putv.Media.Dir.Subdirs.{dir_skipped, dir_empty, dir_entered}

numbered-append :
    (id : ℕ) (xs ys : List Media)
    → numbered id (xs ++ ys) ≡ numbered id xs ++ numbered (id + length xs) ys
numbered-append id [] ys = ap (λ n. numbered n ys) (omega arith)
numbered-append id (x ∷ xs) ys =
    let at : suc id + length xs ≡ id + suc (length xs) = omega arith in
    rw (← at) (ap (λ l. item_at id x ∷ l) (numbered-append (suc id) xs ys))

-- The walk that called back for each of the medias.
abbrev pub listed : ℕ → Option ℤ → List Item → List Media → Walk
listed m count calls ms = walk (m + length ms) count (calls ++ numbered m ms)

listed_none :
    (m : ℕ) (count : Option ℤ) (calls : List Item) → listed m count calls [] ≡ walk m count calls
listed_none m count calls = let same : m + 0 ≡ m = omega arith in rw (same, append-[] calls) refl

listed-append :
    (m : ℕ) (count : Option ℤ) (calls : List Item) (xs ys : List Media)
    → listed (m + length xs) count (calls ++ numbered m xs) ys ≡ listed m count calls (xs ++ ys)
listed-append m count calls xs ys =
    let sum : m + length xs + length ys ≡ m + length (xs ++ ys) =
      omega (arith, length-append xs ys) in
    rw
      (
        sum,
        append_assoc calls (numbered m xs) (numbered (m + length xs) ys),
        numbered-append m xs ys,
      )
      refl

module _ (getmime : List ℕ → Mime) where
  file_listed :
      (path name : List ℕ) (level : ℕ) (ret : ℤ) (m : ℕ) (count : Option ℤ) (calls : List Item)
      → Room count (m + length (entry_medias getmime path level regular name))
      → find_file getmime find_count path name (walk m count calls)
        ≡ done
            (entry_ending getmime level ret regular name)
            (listed m count calls (entry_medias getmime path level regular name))
  unfolding find_file medias ending find_cb
  file_listed path name level ret m count calls room =
      elim (Bool-cases (is_octetstream (getmime name))) [
        | inl e ↦
            let same : m + 0 ≡ m = omega arith in
            let fits : Room count (m + 0) = rw e at room in
            let kept = raise-Room count m calls (Room-le count m (m + 0) (omega arith) fits) in
            rw (e, append-[] calls, same) (ap (done (negsuc 0)) kept)
        | inr e ↦
            let more : m + 1 ≡ suc m = omega arith in
            let fits : Room count (m + 1) = rw e at room in
            let item = item_at m (media_of getmime path name) in
            let kept =
              raise-Room count (suc m) (calls ++ item ∷ [])
                (Room-le count (suc m) (m + 1) (omega arith) fits) in
            rw (e, more) (ap (done (pos 1)) kept)
      ]

  same_walk :
      (ms : List Media) (ret ret' : ℤ) (m : ℕ) (count : Option ℤ) (calls : List Item) (o : Outcome)
      → (ms ≡ []) × (ret' ≡ ret) × (o ≡ done ret (walk m count calls))
      → o ≡ done ret' (listed m count calls ms)
  same_walk ms ret ret' m count calls o h =
      rw (h.0, h.1) (h.2 ∙ ap (done ret) (sym (listed_none m count calls)))

  end_listed :
      (path : List ℕ) (level : ℕ) (items : Entries) (index : ℕ) (ret : ℤ) (m : ℕ) (count : Option ℤ)
      (calls : List Item)
      → find_loop getmime find_count path level items index end ret (walk m count calls)
        ≡ done (ending getmime level ret end) (listed m count calls (medias getmime path level end))
  unfolding find_loop medias ending
  end_listed path level items index ret m count calls =
      ap (done ret) (sym (listed_none m count calls))

  leaf_listed :
      (path : List ℕ) (level : ℕ) (name : List ℕ) (ret : ℤ) (m : ℕ) (count : Option ℤ)
      (calls : List Item)
      → find_entry getmime find_count path level other name ret (walk m count calls)
        ≡ done
            (entry_ending getmime level ret other name)
            (listed m count calls (entry_medias getmime path level other name))
  unfolding find_loop medias ending
  leaf_listed path level name ret m count calls = ap (done ret) (sym (listed_none m count calls))

  regular_listed :
      (path : List ℕ) (level : ℕ) (name : List ℕ) (ret : ℤ) (m : ℕ) (count : Option ℤ)
      (calls : List Item)
      → Room count (m + length (entry_medias getmime path level regular name))
      → find_entry getmime find_count path level regular name ret (walk m count calls)
        ≡ done
            (entry_ending getmime level ret regular name)
            (listed m count calls (entry_medias getmime path level regular name))
  unfolding find_loop
  regular_listed path level name ret m count calls room =
      file_listed path name level ret m count calls room

  dir_listed :
      (path : List ℕ) (level : ℕ) (barred : Bool) (items : Entries) (name : List ℕ) (ret : ℤ)
      (m : ℕ) (count : Option ℤ) (calls : List Item)
      → let e = directory barred items in
        let at = below path name in
        let ms = medias getmime at (suc level) items in
        Room count (m + length (entry_medias getmime path level e name))
        → (Room count (m + length ms)
            → find_loop getmime find_count at
                (suc level)
                items
                0
                items
                (negsuc 1)
                (walk m count calls)
              ≡ done (ending getmime (suc level) (negsuc 1) items) (listed m count calls ms))
        → find_entry getmime find_count path level e name ret (walk m count calls)
          ≡ done
              (entry_ending getmime level ret e name)
              (listed m count calls (entry_medias getmime path level e name))
  dir_listed path level barred end name ret m count calls room inner =
      same_walk (entry_medias getmime path level (directory barred end) name) ret
        (entry_ending getmime level ret (directory barred end) name) m count calls
        (find_entry getmime find_count path level (directory barred end) name ret
          (walk m count calls))
        (elim (Bool-cases (leb level 10 && not barred)) [
          | inl h ↦ dir_empty getmime find_count path level barred name ret m count calls h
          | inr h ↦ dir_skipped getmime find_count path level barred end name ret m count calls h
        ])
  dir_listed path level barred (entry n f rest) name ret m count calls room inner =
      let items = entry n f rest in
      elim (Bool-cases (leb level 10 && not barred)) [
        | inl h ↦
            let same =
              dir_entered getmime find_count path level barred n f rest name ret m count calls h in
            rw (same.0, same.1, same.2) (inner (rw same.0 at room))
        | inr h ↦
            same_walk (entry_medias getmime path level (directory barred items) name) ret
              (entry_ending getmime level ret (directory barred items) name) m count calls
              (find_entry getmime find_count path level (directory barred items) name ret
                (walk m count calls))
              (dir_skipped getmime find_count path level barred items name ret m count calls h)
      ]

  mutual
    pub loop_listed :
        (path : List ℕ) (level : ℕ) (items : Entries) (index : ℕ) (es : Entries) (ret : ℤ) (m : ℕ)
        (count : Option ℤ) (calls : List Item)
        → Room count (m + length (medias getmime path level es))
        → find_loop getmime find_count path level items index es ret (walk m count calls)
          ≡ done (ending getmime level ret es) (listed m count calls (medias getmime path level es))
    loop_listed path level items index end ret m count calls room =
        end_listed path level items index ret m count calls
    loop_listed path level items index (entry name e rest) ret m count calls room =
        let w = walk m count calls in
        let others = medias getmime path level rest in
        elim (Bool-cases (is_hidden name)) [
          | inl h ↦
              rw
                (
                  medias_hidden getmime path level name e rest h,
                  ending_hidden getmime level ret name e rest h,
                  loop_hidden getmime find_count path level items index name e rest ret w h,
                )
                (loop_listed path level items (suc index) rest ret m count calls
                  (rw (medias_hidden getmime path level name e rest h) at room))
          | inr h ↦
              let first = entry_medias getmime path level e name in
              let ret' = entry_ending getmime level ret e name in
              let fits : Room count (m + length (first ++ others)) =
                rw (medias_shown getmime path level name e rest h) at room in
              let size = length-append first others in
              let here = entry_listed path level e name ret m count calls (
                Room-le count (m + length first) (m + length (first ++ others)) (omega arith)
                  fits) in
              rw
                (
                  medias_shown getmime path level name e rest h,
                  ending_shown getmime level ret name e rest h,
                  loop_done getmime find_count path level items index name e rest ret ret' w
                      (listed m count calls first) h here,
                )
                (loop_listed path level items (suc index) rest ret' (m + length first) count
                    (calls ++ numbered m first)
                    (Room-le count (m + length first + length others) (m + length (first ++ others))
                      (omega arith) fits)
                  ∙ ap (done (ending getmime level ret' rest))
                      (listed-append m count calls first others))
        ]

    entry_listed :
        (path : List ℕ) (level : ℕ) (e : Entry) (name : List ℕ) (ret : ℤ) (m : ℕ) (count : Option ℤ)
        (calls : List Item)
        → Room count (m + length (entry_medias getmime path level e name))
        → find_entry getmime find_count path level e name ret (walk m count calls)
          ≡ done
              (entry_ending getmime level ret e name)
              (listed m count calls (entry_medias getmime path level e name))
    entry_listed path level regular name ret m count calls room =
        regular_listed path level name ret m count calls room
    entry_listed path level other name ret m count calls room =
        leaf_listed path level name ret m count calls
    entry_listed path level (directory barred items) name ret m count calls room =
        dir_listed path level barred items name ret m count calls room (λ fits.
          loop_listed (below path name) (suc level) items 0 items (negsuc 1) m count calls fits)
