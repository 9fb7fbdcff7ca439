-- ===== src/Media/Dir/Files.antt =====
-- src/media_dir.c, `_find` with `_find_mediaid` at a file.
use putv.Prelude.{
  ℕ, suc, ◌+◌, ◌≡◌, refl, sym, ap, ◌∙◌, inl, inr, arith, true, false, Option, List, [], ◌∷◌, ◌++◌,
  ◌==◌, length, Bool-cases, ==→eq,
}
use putv.Prelude.Int.{ℤ, pos, negsuc, ltb_ℤ}
use putv.Media.Mime.{Mime, codes}
use putv.Media.Dir.{
  regular, Dirlist, Search, find_mediaid, Item, found, done, is_octetstream, below, find_cb,
  find_file,
}
use putv.Media.Dir.Medias.{
  Media, item_at, medias, entry_medias, above, rest_of, ending, entry_ending,
}
use putv.Media.Dir.Sought.{Room, Room-le, walk, raise-Room, Sought, Miss-none}

module _ (getmime : List ℕ → Mime) where
  cb_hit :
      (id m : ℕ) (media : Media) (count : Option ℤ) (calls : List Item)
      → id ≡ m
      → find_cb (find_mediaid (pos id)) media.0 media.1 (walk m count calls)
        ≡ (pos 0, walk m count (calls ++ item_at m media ∷ []))
  unfolding find_cb
  cb_hit id m media count calls h =
      let yes_id : ltb_ℤ (negsuc 0) (pos id) ≡ true = ground arith in
      let same : (id == m) ≡ true = ground arith in rw (yes_id, same) refl

  cb_miss :
      (id m : ℕ) (media : Media) (count : Option ℤ) (calls : List Item)
      → (id == m) ≡ false
      → find_cb (find_mediaid (pos id)) media.0 media.1 (walk m count calls)
        ≡ (pos 1, walk m count calls)
  unfolding find_cb
  cb_miss id m media count calls h =
      let yes_id : ltb_ℤ (negsuc 0) (pos id) ≡ true = ground arith in rw (yes_id, h) refl

  pub file_octet :
      (sought : Search) (path name : List ℕ) (m : ℕ) (count : Option ℤ) (calls : List Item)
      → is_octetstream (getmime name) ≡ true
      → Room count m
      → find_file getmime sought path name (walk m count calls)
        ≡ done (negsuc 0) (walk m count calls)
  unfolding find_file
  file_octet sought path name m count calls e room =
      rw e (ap (done (negsuc 0)) (raise-Room count m calls room))

  abbrev pub media_of : List ℕ → List ℕ → Media
  media_of path name = (codes "file://" ++ below path name, getmime name)

  file_hit :
      (id : ℕ) (path name : List ℕ) (m : ℕ) (count : Option ℤ) (calls : List Item)
      → is_octetstream (getmime name) ≡ false
      → id ≡ m
      → Room count m
      → find_file getmime (find_mediaid (pos id)) path name (walk m count calls)
        ≡ found [] (walk m count (calls ++ item_at m (media_of path name) ∷ []))
  unfolding find_file
  file_hit id path name m count calls e h room =
      let cb = cb_hit id m (media_of path name) count calls h in
      let kept = raise-Room count m (calls ++ item_at m (media_of path name) ∷ []) room in
      rw (e, cb, cb) (ap (found []) kept)

  file_passed :
      (id : ℕ) (path name : List ℕ) (m : ℕ) (count : Option ℤ) (calls : List Item)
      → is_octetstream (getmime name) ≡ false
      → (id == m) ≡ false
      → Room count (suc m)
      → find_file getmime (find_mediaid (pos id)) path name (walk m count calls)
        ≡ done (pos 1) (walk (suc m) count calls)
  unfolding find_file
  file_passed id path name m count calls e h room =
      let cb = cb_miss id m (media_of path name) count calls h in
      let kept = raise-Room count (suc m) calls room in rw (e, cb, cb) (ap (done (pos 1)) kept)

  pub file_lem :
      (parents : List Dirlist) (path name : List ℕ) (level : ℕ) (ret : ℤ) (id m : ℕ)
      (count : Option ℤ) (calls : List Item)
      → rest_of getmime parents
        ≡ entry_medias getmime path level regular name ++ above getmime parents
      → Room count (m + length (entry_medias getmime path level regular name))
      → Sought getmime parents id m
          (entry_medias getmime path level regular name)
          count
          calls
          (entry_ending getmime level ret regular name)
          (find_file getmime (find_mediaid (pos id)) path name (walk m count calls))
  unfolding medias ending
  file_lem parents path name level ret id m count calls at_it room =
      elim (Bool-cases (is_octetstream (getmime name))) [
        | inl e ↦
            let same : m + 0 ≡ m = omega arith in
            let fits : Room count (m + 0) = rw e at room in
            rw e (
              inr (
                Miss-none getmime id m count calls (negsuc 0)
                  (find_file getmime (find_mediaid (pos id)) path name (walk m count calls))
                  (file_octet (find_mediaid (pos id)) path name m count calls e
                    (Room-le count m (m + 0) (omega arith) fits))))
        | inr e ↦
            let fits : Room count (m + 1) = rw e at room in
            let more : suc m ≡ m + 1 = omega arith in
            elim (Bool-cases (id == m)) [
              | inl h ↦ rw e (
                  inl (record {
                    at = 0;
                    media = media_of path name;
                    dirs = [];
                    id_at = ground arith;
                    here = refl;
                    finds =
                        file_hit id path name m count calls e (==→eq id m h)
                          (Room-le count m (m + 1) (omega arith) fits)
                        ∙ ap
                            (λ x.
                              found []
                                (walk x count (calls ++ item_at x (media_of path name) ∷ [])))
                            (sym (==→eq id m h));
                    left = rw e at at_it;
                  }))
              | inr h ↦ rw e (
                  inr (record {
                    outside = ground arith;
                    ends =
                        file_passed id path name m count calls e h
                          (Room-le count (suc m) (m + 1) (omega arith) fits)
                        ∙ ap (λ x. done (pos 1) (walk x count calls)) more;
                  }))
            ]
      ]
