-- ===== src/Media/Dir/Cursor.antt =====
-- src/media_dir.c, `_find`: a list of directories is a cursor in the list of the tree's medias.
use putv.Prelude.{
  drop-append_left, get_elem?-append_left, ℕ, suc, ◌+◌, ◌≡◌, refl, sym, ap, ◌∙◌, inl, inr, arith,
  Option, List, [], ◌∷◌, ◌++◌, length, drop, length-append, append-[],
}
use putv.Prelude.Int.{ℤ, pos, negsuc}
use putv.Media.Mime.{Mime}
use putv.Media.Dir.{
  Entries, Dirlist, find_mediaid, Item, Outcome, Walk, drop_items, find_loop, climb, find,
}
use putv.Media.Dir.Medias.{Media, medias, above, rest_of, ending, ending_above, ending_rest}
use putv.Media.Dir.Sought.{Room, Room-le, walk, Hit, Sought}
use putv.Media.Dir.Behind.{Sought-behind}
use putv.Media.Dir.Seek.{loop_lem}

module _ (getmime : List ℕ → Mime) where
  climb-Hit :
      (parents : List Dirlist) (id m : ℕ) (ms : List Media) (count : Option ℤ) (calls : List Item)
      (o : Outcome)
      → Hit getmime parents id m ms count calls o
      → Hit getmime [] id m
          (ms ++ above getmime parents)
          count
          calls
          (climb getmime (find_mediaid (pos id)) o parents)
  unfolding climb
  climb-Hit parents id m ms count calls o h =
      let others = above getmime parents in
      record {
        at = h.at;
        media = h.media;
        dirs = h.dirs ++ parents;
        id_at = h.id_at;
        here = get_elem?-append_left h.at ms others h.media h.here;
        finds = ap (λ x. climb getmime (find_mediaid (pos id)) x parents) h.finds;
        left =
            ap (rest_of getmime) (append-[] (h.dirs ++ parents))
            ∙ h.left
            ∙ sym (drop-append_left h.at ms others h.media h.here)
            ∙ sym (append-[] (drop h.at (ms ++ others)));
      }

  climb_lem :
      (parents : List Dirlist) (id m : ℕ) (ms : List Media) (count : Option ℤ) (calls : List Item)
      (ret : ℤ) (o : Outcome)
      → Room count (m + length (ms ++ above getmime parents))
      → Sought getmime parents id m ms count calls ret o
      → Sought getmime [] id m
          (ms ++ above getmime parents)
          count
          calls
          (ending_above getmime ret parents)
          (climb getmime (find_mediaid (pos id)) o parents)
  unfolding climb
  climb_lem parents id m ms count calls ret o room (inl h) =
      inl (climb-Hit parents id m ms count calls o h)
  climb_lem [] id m ms count calls ret o room (inr h) = rw (append-[] ms) (
      inr (record {
        outside = h.outside;
        ends = ap (λ x. climb getmime (find_mediaid (pos id)) x []) h.ends;
      }))
  climb_lem (d ∷ ds) id m ms count calls ret o room (inr h) =
      let sought = find_mediaid (pos id) in
      let here = drop_items (suc d.index) d.items in
      let others = medias getmime d.path d.level here in
      let all = others ++ above getmime ds in
      let at = m + length ms in
      let w = walk at count calls in
      let ret' = ending getmime d.level ret here in
      let o' = find_loop getmime sought d.path d.level d.items (suc d.index) here ret w in
      let size = length-append ms all in
      let others_size = length-append others (above getmime ds) in
      let next =
        loop_lem getmime d.path d.level d.items (suc d.index) here ret ds id at count calls refl
          (Room-le count (at + length others) (m + length (ms ++ all)) (omega arith) room) in
      let rest =
        climb_lem ds id at others count calls ret' o'
          (Room-le count (at + length all) (m + length (ms ++ all)) (omega arith) room) next in
      let up : climb getmime sought o (d ∷ ds) ≡ climb getmime sought o' ds =
        ap (λ x. climb getmime sought x (d ∷ ds)) h.ends in
      rw up (
        Sought-behind getmime [] id m ms all count calls (ending_above getmime ret' ds)
          (climb getmime sought o' ds) h.outside rest)

  -- A call of `_find` with the list at any place, and with no list.
  pub find_from :
      (root : List ℕ) (items : Entries) (d : Dirlist) (ds : List Dirlist) (id m : ℕ)
      (count : Option ℤ) (calls : List Item)
      → Room count (m + length (rest_of getmime (d ∷ ds)))
      → Sought getmime [] id m
          (rest_of getmime (d ∷ ds))
          count
          calls
          (ending_rest getmime (d ∷ ds))
          (find getmime (find_mediaid (pos id)) root items (d ∷ ds) (walk m count calls))
  unfolding find
  find_from root items d ds id m count calls room =
      let here = drop_items d.index d.items in
      let ms = medias getmime d.path d.level here in
      let size = length-append ms (above getmime ds) in
      climb_lem ds id m ms count calls (ending getmime d.level (negsuc 1) here)
        (find_loop getmime (find_mediaid (pos id)) d.path d.level d.items d.index here (negsuc 1)
          (walk m count calls))
        room
        (loop_lem getmime d.path d.level d.items d.index here (negsuc 1) ds id m count calls refl (
          Room-le count (m + length ms) (m + length (rest_of getmime (d ∷ ds))) (omega arith) room))

  pub find_first :
      (root : List ℕ) (items : Entries) (id : ℕ) (w : Walk)
      → Room w.count (length (medias getmime root 0 items))
      → Sought getmime [] id 0
          (medias getmime root 0 items)
          w.count
          w.calls
          (ending getmime 0 (negsuc 1) items)
          (find getmime (find_mediaid (pos id)) root items [] w)
  unfolding find
  find_first root items id w room =
      loop_lem getmime root 0 items 0 items (negsuc 1) [] id 0 w.count w.calls refl (
        Room-le w.count (0 + length (medias getmime root 0 items))
          (length (medias getmime root 0 items)) (omega arith) room)
