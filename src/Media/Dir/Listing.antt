-- ===== src/Media/Dir/Listing.antt =====
-- src/media_dir.c: counting, listing and finding the medias, and playing them all.
use putv.Prelude.{
  get_elem?-inside, ℕ, ◌+◌, ◌≡◌, refl, ap, ◌∙◌, inl, inr, arith, false, Option, none, some, List,
  [], ◌∷◌, length, get_elem?, Option-cases,
}
use putv.Prelude.Int.{ℤ, pos, negsuc}
use putv.Media.Mime.{Mime}
use putv.Media.Dir.{Entries, find_count, Item, done, find}
use putv.Media.Dir.Api.{Dir, media_init, media_list, media_find, find_new}
use putv.Media.Dir.Medias.{Media, item_at, numbered, medias, ending}
use putv.Media.Dir.Sought.{Room, walk}
use putv.Media.Dir.Count.{loop_listed}
use putv.Media.Dir.Cursor.{find_first}
use putv.Media.Dir.Next.{all, Room-of}
use putv.Media.Dir.Visits.{visits, visits-all, ids}

-- What `media_find` returns for the media with an id, or without one.
abbrev pub lookup_answer : Dir → ℕ → Option Media → ℤ × List Item × Dir
lookup_answer ctx id none = (pos 0, [], ctx)
lookup_answer ctx id (some media) = (pos 1, item_at id media ∷ [], ctx)

module _ (getmime : List ℕ → Mime) where
  walk_all :
      (root : List ℕ) (items : Entries) (count : Option ℤ)
      → Room count (length (medias getmime root 0 items))
      → find getmime find_count root items [] (walk 0 count [])
        ≡ done (ending getmime 0 (negsuc 1) items) (
            walk
              (length (medias getmime root 0 items))
              count
              (numbered 0 (medias getmime root 0 items)))
  unfolding find
  walk_all root items count room =
      let n = length (medias getmime root 0 items) in
      let start : 0 + n ≡ n = omega arith in
      loop_listed getmime root 0 items 0 items (negsuc 1) 0 count [] (rw start room)
      ∙ ap
          (λ m.
            done (ending getmime 0 (negsuc 1) items)
              (walk m count (numbered 0 (medias getmime root 0 items))))
          start

  -- `media_init` counts the medias of the tree.
  pub media_init_lem :
      (root : List ℕ) (items : Entries)
      → media_init getmime root items ≡ record {
        root = root;
        items = items;
        count = pos (length (medias getmime root 0 items));
        mediaid = negsuc 0;
        firstmediaid = negsuc 0;
        current = [];
        loop = false;
        random = false;
      }
  unfolding media_init
  media_init_lem root items = rw (walk_all root items none tt) refl

  -- `media_list` of a counted tree calls back for each media, in order, with the ids from 0 on, and changes nothing.
  pub media_list_lem :
      (ctx : Dir)
      → ctx.count ≡ pos (length (all getmime ctx))
      → media_list getmime ctx
        ≡ (ending getmime 0 (negsuc 1) ctx.items, numbered 0 (all getmime ctx), ctx)
  unfolding media_list find_new
  media_list_lem ctx counted =
      let n = length (all getmime ctx) in
      rw
        (walk_all ctx.root ctx.items (some ctx.count) (Room-of ctx.count n n counted (omega arith)))
        refl

  -- `media_find` of a counted tree is the lookup of the id in the list of the medias: it calls back for
  -- the media that has the id and returns 1, and else returns 0 without a call. It changes nothing.
  pub media_find_lem :
      (ctx : Dir) (id : ℕ)
      → ctx.count ≡ pos (length (all getmime ctx))
      → media_find getmime ctx (pos id) ≡ lookup_answer ctx id (get_elem? (all getmime ctx) id)
  unfolding media_find find_new
  media_find_lem ctx id counted =
      let n = length (all getmime ctx) in
      let room = Room-of ctx.count n n counted (omega arith) in
      elim (find_first getmime ctx.root ctx.items id (walk 0 (some ctx.count) []) room) [
        | inl hit ↦
            let at : id ≡ hit.at = omega (arith, hit.id_at) in
            let here : get_elem? (all getmime ctx) id ≡ some hit.media =
              ap (get_elem? (all getmime ctx)) at ∙ hit.here in
            rw (here, hit.finds) refl
        | inr miss ↦
            let gone : get_elem? (all getmime ctx) id ≡ none =
              elim (Option-cases (get_elem? (all getmime ctx) id)) [
                | inl e ↦ e
                | inr (media, e) ↦
                    let inside = get_elem?-inside id (all getmime ctx) media e in
                    absurd (elim miss.outside [ inl a ↦ omega arith | inr b ↦ omega arith ])
              ] in
            rw (gone, miss.ends) refl
      ]

  -- After `media_init`, as many calls of `media_next` as the tree has medias return the ids of all of
  -- them, in their order.
  pub visits_init :
      (root : List ℕ) (items : Entries) (draws : ℕ → ℤ → ℤ)
      → let n = length (medias getmime root 0 items) in
        visits getmime n (media_init getmime root items) (negsuc 0) draws ≡ some (ids 0 n)
  visits_init root items draws = rw (media_init_lem root items) (
      visits-all getmime
        (record {
          root = root;
          items = items;
          count = pos (length (medias getmime root 0 items));
          mediaid = negsuc 0;
          firstmediaid = negsuc 0;
          current = [];
          loop = false;
          random = false;
        })
        draws refl refl refl refl)
