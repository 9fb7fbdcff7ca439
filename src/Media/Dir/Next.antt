-- ===== src/Media/Dir/Next.antt =====
-- src/media_dir.c, `media_next`: where it moves to.
use putv.Prelude.{
  ℕ, suc, ◌+◌, ◌≤◌, ◌<◌, ◌≡◌, refl, sym, ap, ◌∙◌, inl, inr, arith, false, some, List, [], ◌∷◌, ◌++◌,
  length, length-drop, drop, drop-drop, append-[], if◌then◌else◌,
}
use putv.Prelude.Int.{ℤ, pos, negsuc, ltb_ℤ}
use putv.Media.Mime.{Mime}
use putv.Media.Dir.{Dirlist, find_mediaid, Item, Outcome, Walk, found, done, find, next_id, eq_ℤ}
use putv.Media.Dir.Api.{Dir, wanted, seek, settle, media_next}
use putv.Media.Dir.Medias.{Media, item_at, medias, rest_of, ending_rest}
use putv.Media.Dir.Sought.{Room, walk, Sought}
use putv.Media.Dir.Cursor.{find_from, find_first}

-- The media after a call that found an id.
abbrev pub moved : Dir → ℕ → List Dirlist → Dir
moved ctx id dirs = record {
  root = ctx.root;
  items = ctx.items;
  count = ctx.count;
  mediaid = pos id;
  firstmediaid = if eq_ℤ ctx.firstmediaid (negsuc 0) then pos id else ctx.firstmediaid;
  current = dirs;
  loop = ctx.loop;
  random = ctx.random;
}

-- The media after a call that found none.
abbrev pub over : Dir → ℕ → Dir
over ctx n = record {
  root = ctx.root;
  items = ctx.items;
  count = ctx.count;
  mediaid = pos n;
  firstmediaid = ctx.firstmediaid;
  current = [];
  loop = ctx.loop;
  random = ctx.random;
}

pub Room-of : (count : ℤ) (n k : ℕ) → count ≡ pos n → k ≤ n → Room (some count) k
Room-of count n k h le = rw h le

pub count_within : (count : ℤ) (n id : ℕ) → count ≡ pos n → id ≤ n → ltb_ℤ count (pos id) ≡ false
count_within count n id h le = rw h (ground arith)

module _ (getmime : List ℕ → Mime) where
  abbrev pub all : Dir → List Media
  all ctx = medias getmime ctx.root 0 ctx.items

  -- The list was counted, and plays in order; the cursor stands at the k-th media.
  pub record Playing (ctx : Dir) (k : ℕ) : Type 0 where
    pub counted : ctx.count ≡ pos (length (all ctx))
    pub straight : ctx.random ≡ false
    pub inside : k < length (all ctx)
    pub stands : rest_of getmime ctx.current ≡ drop k (all ctx)

  cursor_cases :
      (dirs : List Dirlist) (ms : List Media) (k : ℕ)
      → k < length ms
      → rest_of getmime dirs ≡ drop k ms
      → (d : Dirlist) × (ds : List Dirlist) × (dirs ≡ d ∷ ds)
  cursor_cases [] ms k h e =
      let same : 0 ≡ length (drop k ms) = ap length e in
      let left = length-drop k ms in absurd (omega arith)
  cursor_cases (d ∷ ds) ms k h e = (d, ds, refl)

  settle_found :
      (ctx : Dir) (id : ℕ) (dirs : List Dirlist) (calls : List Item)
      → eq_ℤ ctx.firstmediaid (pos id) ≡ false
      → settle ctx (found dirs (walk id (some ctx.count) calls)) ≡ (pos 0, moved ctx id dirs)
  unfolding settle
  settle_found ctx id dirs calls h = rw h refl

  pub settle_done :
      (ctx : Dir) (n : ℕ) (ret : ℤ) (calls : List Item)
      → eq_ℤ ctx.firstmediaid (pos n) ≡ false
      → eq_ℤ ret (pos 0) ≡ false
      → settle ctx (done ret (walk n (some ctx.count) calls)) ≡ (ret, over ctx n)
  unfolding settle
  settle_done ctx n ret calls h k = rw h (rw k refl)

  pub wanted_next :
      (ctx : Dir) (playing : ℤ) (draw : ℤ → ℤ)
      → ctx.random ≡ false
      → ltb_ℤ ctx.count (next_id playing) ≡ false
      → wanted ctx playing draw ≡ next_id playing
  unfolding wanted
  wanted_next ctx playing draw h k = rw (h, k) refl

  pub seek_on :
      (ctx : Dir) (k : ℕ)
      → seek getmime ctx (pos k) (pos (suc k))
        ≡ find getmime
            (find_mediaid (pos (suc k)))
            ctx.root
            ctx.items
            ctx.current
            (walk k (some ctx.count) [])
  unfolding seek
  seek_on ctx k = let on : ltb_ℤ (pos (suc k)) (pos k) ≡ false = ground arith in rw on refl

  pub answer :
      (fuel : ℕ) (ctx after : Dir) (playing ret : ℤ) (draws : ℕ → ℤ → ℤ) (o : Outcome)
      → seek getmime ctx playing (wanted ctx playing (draws fuel)) ≡ o
      → settle ctx o ≡ (ret, after)
      → eq_ℤ ret (negsuc 0) ≡ false
      → media_next getmime (suc fuel) ctx playing draws ≡ some (after.mediaid, after)
  unfolding media_next
  answer fuel ctx after playing ret draws o h k e = rw (h, k, e) refl

  -- The search for the media behind the one where the cursor stands.
  pub cursor-Sought :
      (ctx : Dir) (k : ℕ)
      → Playing ctx k
      → Sought getmime []
          (suc k)
          k
          (drop k (all ctx))
          (some ctx.count)
          []
          (ending_rest getmime ctx.current)
          (seek getmime ctx (pos k) (pos (suc k)))
  cursor-Sought ctx k p =
      let c = cursor_cases ctx.current (all ctx) k p.inside p.stands in
      let left = length-drop k (all ctx) in
      let same : rest_of getmime (c.0 ∷ c.1) ≡ drop k (all ctx) =
        ap (rest_of getmime) (sym c.2) ∙ p.stands in
      let room : Room (some ctx.count) (k + length (rest_of getmime (c.0 ∷ c.1))) =
        Room-of ctx.count (length (all ctx)) (k + length (rest_of getmime (c.0 ∷ c.1))) p.counted
          (rw same (omega (arith, p.inside))) in
      rw (seek_on ctx k, c.2)
        (rw same at
          (find_from getmime ctx.root ctx.items c.0 c.1 (suc k) k (some ctx.count) [] room))

  -- The media behind the one that is playing.
  pub next_lem :
      (fuel : ℕ) (ctx : Dir) (k : ℕ) (draws : ℕ → ℤ → ℤ)
      → Playing ctx k
      → suc k < length (all ctx)
      → eq_ℤ ctx.firstmediaid (pos (suc k)) ≡ false
      → (dirs : List Dirlist) × (media_next getmime (suc fuel) ctx (pos k) draws
          ≡ some (pos (suc k), moved ctx (suc k) dirs))
        × Playing (moved ctx (suc k) dirs) (suc k)
  next_lem fuel ctx k draws p more fresh =
      let within : ltb_ℤ ctx.count (pos (suc k)) ≡ false =
        count_within ctx.count (length (all ctx)) (suc k) p.counted (omega arith) in
      let id = wanted_next ctx (pos k) (draws fuel) p.straight within in
      let left = length-drop k (all ctx) in
      elim (cursor-Sought ctx k p) [
        | inl hit ↦ (
          hit.dirs,
          answer fuel ctx (moved ctx (suc k) hit.dirs) (pos k) (pos 0) draws
              (found hit.dirs
                (walk (suc k) (some ctx.count) ([] ++ item_at (suc k) hit.media ∷ [])))
              (ap (seek getmime ctx (pos k)) id ∙ hit.finds)
              (settle_found ctx (suc k) hit.dirs (item_at (suc k) hit.media ∷ []) fresh) refl,
          record {
            counted = p.counted;
            straight = p.straight;
            inside = more;
            stands =
                ap (rest_of getmime) (sym (append-[] hit.dirs))
                ∙ hit.left
                ∙ append-[] (drop hit.at (drop k (all ctx)))
                ∙ drop-drop hit.at k (all ctx)
                ∙ ap (λ n. drop n (all ctx)) (sym hit.id_at);
          },
        )
        | inr miss ↦ absurd (elim miss.outside [ inl a ↦ omega arith | inr b ↦ omega arith ])
      ]

  -- The first media, when nothing plays and the list is at its start.
  pub next_first :
      (fuel : ℕ) (ctx : Dir) (draws : ℕ → ℤ → ℤ)
      → ctx.count ≡ pos (length (all ctx))
      → ctx.random ≡ false
      → 0 < length (all ctx)
      → ctx.current ≡ []
      → eq_ℤ ctx.firstmediaid (pos 0) ≡ false
      → (dirs : List Dirlist) × (media_next getmime (suc fuel) ctx (negsuc 0) draws
          ≡ some (pos 0, moved ctx 0 dirs))
        × Playing (moved ctx 0 dirs) 0
  unfolding seek
  next_first fuel ctx draws counted straight some_media fresh_list fresh =
      let within = count_within ctx.count (length (all ctx)) 0 counted (omega arith) in
      let id = wanted_next ctx (negsuc 0) (draws fuel) straight within in
      let w : Walk = record { mediaid = negsuc 0; count = some ctx.count; calls = [] } in
      let at_start : seek getmime ctx (negsuc 0) (pos 0)
          ≡ find getmime (find_mediaid (pos 0)) ctx.root ctx.items [] w =
        ap (λ l. find getmime (find_mediaid (pos 0)) ctx.root ctx.items l w) fresh_list in
      let room = Room-of ctx.count (length (all ctx)) (length (all ctx)) counted (omega arith) in
      elim (find_first getmime ctx.root ctx.items 0 w room) [
        | inl hit ↦ (
          hit.dirs,
          answer fuel ctx (moved ctx 0 hit.dirs) (negsuc 0) (pos 0) draws
              (found hit.dirs (walk 0 (some ctx.count) ([] ++ item_at 0 hit.media ∷ [])))
              (ap (seek getmime ctx (negsuc 0)) id ∙ at_start ∙ hit.finds)
              (settle_found ctx 0 hit.dirs (item_at 0 hit.media ∷ []) fresh) refl,
          record {
            counted = counted;
            straight = straight;
            inside = some_media;
            stands =
                ap (rest_of getmime) (sym (append-[] hit.dirs))
                ∙ hit.left
                ∙ append-[] (drop hit.at (all ctx))
                ∙ ap (λ n. drop n (all ctx)) {y = 0} (omega (arith, hit.id_at));
          },
        )
        | inr miss ↦ absurd (elim miss.outside [ inl a ↦ omega arith | inr b ↦ omega arith ])
      ]
