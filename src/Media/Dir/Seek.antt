-- ===== src/Media/Dir/Seek.antt =====
-- src/media_dir.c, `_find`: a search from any place of the tree, in the order of the medias.
use putv.Prelude.{
  ℕ, suc, ◌+◌, ◌≡◌, refl, sym, ap, ◌∙◌, inl, inr, arith, Option, List, [], ◌∷◌, ◌++◌, length,
  Bool-cases, append_assoc, length-append,
}
use putv.Prelude.Int.{ℤ, pos, negsuc}
use putv.Media.Mime.{Mime}
use putv.Media.Dir.{
  Entry, regular, directory, other, Entries, end, entry, Dirlist, find_mediaid, Item, is_hidden,
  drop_items, below, find_loop, find_entry,
}
use putv.Media.Dir.Medias.{item_at, medias, entry_medias, above, rest_of, ending, entry_ending}
use putv.Media.Dir.Sought.{
  Room, Room-le, walk, drop_items-suc, Sought, loop_hidden, loop_found, loop_done, medias_hidden,
  medias_shown, ending_hidden, ending_shown,
}
use putv.Media.Dir.Behind.{Sought-behind, Hit-in_loop}
use putv.Media.Dir.Subdirs.{regular_lem, dir_lem, end_lem, other_lem}

module _ (getmime : List ℕ → Mime) where
  mutual
    pub loop_lem :
        (path : List ℕ) (level : ℕ) (items : Entries) (index : ℕ) (es : Entries) (ret : ℤ)
        (parents : List Dirlist) (id m : ℕ) (count : Option ℤ) (calls : List Item)
        → drop_items index items ≡ es
        → Room count (m + length (medias getmime path level es))
        → Sought getmime parents id m
            (medias getmime path level es)
            count
            calls
            (ending getmime level ret es)
            (find_loop getmime
              (find_mediaid (pos id))
              path
              level
              items
              index
              es
              ret
              (walk m count calls))
    loop_lem path level items index end ret parents id m count calls at room =
        end_lem getmime path level items index ret parents id m count calls
    loop_lem path level items index (entry name e rest) ret parents id m count calls at room =
        let sought = find_mediaid (pos id) in
        let w = walk m count calls in
        let behind = drop_items-suc index items name e rest at in
        elim (Bool-cases (is_hidden name)) [
          | inl h ↦
              let fits : Room count (m + length (medias getmime path level rest)) =
                rw (medias_hidden getmime path level name e rest h) at room in
              rw
                (
                  medias_hidden getmime path level name e rest h,
                  ending_hidden getmime level ret name e rest h,
                  loop_hidden getmime sought path level items index name e rest ret w h,
                )
                (loop_lem path level items (suc index) rest ret parents id m count calls behind
                  fits)
          | inr h ↦
              let first = entry_medias getmime path level e name in
              let others = medias getmime path level rest in
              let fits : Room count (m + length (first ++ others)) =
                rw (medias_shown getmime path level name e rest h) at room in
              let dir : Dirlist = record {
                path = path;
                level = level;
                items = items;
                index = index;
              } in
              let size = length-append first others in
              let at_dir : rest_of getmime (dir ∷ parents)
                  ≡ first ++ above getmime (dir ∷ parents) =
                ap (λ x. medias getmime path level x ++ above getmime parents) at
                ∙ ap (λ l. l ++ above getmime parents)
                    (medias_shown getmime path level name e rest h)
                ∙ append_assoc first others (above getmime parents)
                ∙ ap (λ x. first ++ (medias getmime path level x ++ above getmime parents))
                    (sym behind) in
              let ret' = entry_ending getmime level ret e name in
              let here = entry_lem path level e name ret (dir ∷ parents) id m count calls at_dir (
                Room-le count (m + length first) (m + length (first ++ others)) (omega arith)
                  fits) in
              rw
                (
                  medias_shown getmime path level name e rest h,
                  ending_shown getmime level ret name e rest h,
                )
                (elim here [
                  | inl hit ↦ inl (
                      rw behind at (
                        Hit-in_loop getmime parents id m first count calls dir
                          (find_entry getmime sought path level e name ret w)
                          (find_loop getmime sought path level items index (entry name e rest) ret
                            w)
                          hit
                          (loop_found getmime sought path level items index name e rest ret w
                            (walk id count (calls ++ item_at id hit.media ∷ [])) hit.dirs h
                            hit.finds)))
                  | inr miss ↦
                      let after = walk (m + length first) count calls in
                      let enough : Room count (m + length first + length others) =
                        Room-le count (m + length first + length others)
                          (m + length (first ++ others)) (omega arith) fits in
                      rw
                        (loop_done getmime sought path level items index name e rest ret ret' w
                          after h miss.ends)
                        (Sought-behind getmime parents id m first others count calls
                          (ending getmime level ret' rest)
                          (find_loop getmime sought path level items (suc index) rest ret' after)
                          miss.outside
                          (loop_lem path level items (suc index) rest ret' parents id
                            (m + length first) count calls behind enough))
                ])
        ]

    entry_lem :
        (path : List ℕ) (level : ℕ) (e : Entry) (name : List ℕ) (ret : ℤ) (parents : List Dirlist)
        (id m : ℕ) (count : Option ℤ) (calls : List Item)
        → rest_of getmime parents ≡ entry_medias getmime path level e name ++ above getmime parents
        → Room count (m + length (entry_medias getmime path level e name))
        → Sought getmime parents id m
            (entry_medias getmime path level e name)
            count
            calls
            (entry_ending getmime level ret e name)
            (find_entry getmime (find_mediaid (pos id)) path level e name ret (walk m count calls))
    entry_lem path level regular name ret parents id m count calls at room =
        regular_lem getmime path level name ret parents id m count calls at room
    entry_lem path level other name ret parents id m count calls at room =
        other_lem getmime path level name ret parents id m count calls
    entry_lem path level (directory barred items) name ret parents id m count calls at room =
        dir_lem getmime path level barred items name ret parents id m count calls room (λ fits.
          loop_lem (below path name) (suc level) items 0 items (negsuc 1) parents id m count calls
            refl fits)
