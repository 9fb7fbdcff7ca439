-- ===== src/Media/Dir/Behind.antt =====
-- src/media_dir.c, `_find` with `_find_mediaid`: one part of a list behind another.
use putv.Prelude.{
  ℕ, suc, ◌+◌, ◌≤◌, ◌<◌, ◌≡◌, sym, ap, ◌∙◌, ◌⊎◌, inl, inr, arith, Option, List, [], ◌∷◌, ◌++◌,
  length, drop, append_assoc, length-append, get_elem?-append_right, get_elem?-append_left,
  drop-append_left, drop-append_right,
}
use putv.Prelude.Int.{ℤ}
use putv.Media.Mime.{Mime}
use putv.Media.Dir.{Dirlist, Item, Outcome, found, done, drop_items}
use putv.Media.Dir.Medias.{Media, item_at, medias, above, rest_of}
use putv.Media.Dir.Sought.{walk, Hit, Sought}

module _ (getmime : List ℕ → Mime) where
  -- What is searched behind medias that are passed.
  pub Sought-behind :
      (parents : List Dirlist) (id m : ℕ) (passed ms : List Media) (count : Option ℤ)
      (calls : List Item) (ret : ℤ) (o : Outcome)
      → (id < m) ⊎ (m + length passed ≤ id)
      → Sought getmime parents id (m + length passed) ms count calls ret o
      → Sought getmime parents id m (passed ++ ms) count calls ret o
  Sought-behind parents id m passed ms count calls ret o out (inl h) = inl (record {
    at = length passed + h.at;
    media = h.media;
    dirs = h.dirs;
    id_at = omega (arith, h.id_at);
    here = get_elem?-append_right h.at passed ms ∙ h.here;
    finds = h.finds;
    left = h.left ∙ ap (λ l. l ++ above getmime parents) (sym (drop-append_right h.at passed ms));
  })
  Sought-behind parents id m passed ms count calls ret o out (inr h) =
      let size = length-append passed ms in
      let where_at : m + length passed + length ms ≡ m + length (passed ++ ms) = omega arith in
      inr (record {
        outside = elim out [
          | inl before ↦ inl before
          | inr behind ↦ elim h.outside [ inl k ↦ absurd (omega arith) | inr k ↦ inr (omega arith) ]
        ];
        ends = h.ends ∙ ap (λ x. done ret (walk x count calls)) where_at;
      })

  -- What an entry's search stops at is what the loop over the directory stops at.
  pub Hit-in_loop :
      (parents : List Dirlist) (id m : ℕ) (ms : List Media) (count : Option ℤ) (calls : List Item)
      (dir : Dirlist) (o o' : Outcome)
      → (h : Hit getmime (dir ∷ parents) id m ms count calls o)
      → o' ≡ found (h.dirs ++ dir ∷ []) (walk id count (calls ++ item_at id h.media ∷ []))
      → Hit getmime parents id m
          (ms ++ medias getmime dir.path dir.level (drop_items (suc dir.index) dir.items))
          count
          calls
          o'
  Hit-in_loop parents id m ms count calls dir o o' h finds =
      let rest = medias getmime dir.path dir.level (drop_items (suc dir.index) dir.items) in
      record {
        at = h.at;
        media = h.media;
        dirs = h.dirs ++ dir ∷ [];
        id_at = h.id_at;
        here = get_elem?-append_left h.at ms rest h.media h.here;
        finds = finds;
        left =
            ap (rest_of getmime) (append_assoc h.dirs (dir ∷ []) parents)
            ∙ h.left
            ∙ sym (append_assoc (drop h.at ms) rest (above getmime parents))
            ∙ ap (λ l. l ++ above getmime parents)
                (sym (drop-append_left h.at ms rest h.media h.here));
      }
