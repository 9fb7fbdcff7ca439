-- ===== src/Media/Dir/Past.antt =====
-- src/media_dir.c, `media_next` behind the last media.
use putv.Prelude.{
  get_elem?-inside, get_elem?, Option-cases, ℕ, zero, suc, ◌+◌, ◌≡◌, refl, ap, ◌∙◌, inl, inr, arith,
  true, false, none, some, List, [], ◌∷◌, length, length-drop, drop, if◌then◌else◌,
}
use putv.Prelude.Int.{ℤ, pos, negsuc}
use putv.Media.Mime.{Mime}
use putv.Media.Dir.{
  Entry, regular, directory, other, Entries, end, entry, Dirlist, find_mediaid, done, find, eq_ℤ,
  is_hidden, drop_items,
}
use putv.Media.Dir.Api.{Dir, wanted, seek, settle, media_next, media_play}
use putv.Media.Dir.Medias.{ending, entry_ending, ending_above, ending_rest}
use putv.Media.Dir.Sought.{walk}
use putv.Media.Dir.Cursor.{find_first}
use putv.Media.Dir.Next.{
  all, Playing, over, answer, seek_on, wanted_next, cursor-Sought, settle_done, count_within,
  Room-of,
}
use putv.Media.Dir.Listing.{media_find_lem, lookup_answer}

module _ (getmime : List ℕ → Mime) where
  -- A walk that found nothing never ends with 0.
  mutual
    unfolding ending

    ending_ne_0 :
        (level : ℕ) (ret : ℤ) (es : Entries)
        → eq_ℤ ret (pos 0) ≡ false
        → eq_ℤ (ending getmime level ret es) (pos 0) ≡ false
    ending_ne_0 level ret end h = h
    ending_ne_0 level ret (entry name e rest) h =
        ending_ne_0 level (if is_hidden name then ret else entry_ending getmime level ret e name)
          rest (ground (arith, entry_ending_ne_0 level ret e name h))

    entry_ending_ne_0 :
        (level : ℕ) (ret : ℤ) (e : Entry) (name : List ℕ)
        → eq_ℤ ret (pos 0) ≡ false
        → eq_ℤ (entry_ending getmime level ret e name) (pos 0) ≡ false
    entry_ending_ne_0 level ret regular name h = ground arith
    entry_ending_ne_0 level ret other name h = h
    entry_ending_ne_0 level ret (directory barred items) name h =
        ground (arith, ending_ne_0 (suc level) (negsuc 1) items refl)

  ending_above_ne_0 :
      (ret : ℤ) (ds : List Dirlist)
      → eq_ℤ ret (pos 0) ≡ false
      → eq_ℤ (ending_above getmime ret ds) (pos 0) ≡ false
  ending_above_ne_0 ret [] h = h
  ending_above_ne_0 ret (d ∷ ds) h =
      let rest = drop_items (suc d.index) d.items in
      ending_above_ne_0 (ending getmime d.level ret rest) ds (ending_ne_0 d.level ret rest h)

  ending_rest_ne_0 : (ds : List Dirlist) → eq_ℤ (ending_rest getmime ds) (pos 0) ≡ false
  ending_rest_ne_0 [] = refl
  ending_rest_ne_0 (d ∷ ds) =
      let rest = drop_items d.index d.items in
      ending_above_ne_0 (ending getmime d.level (negsuc 1) rest) ds
        (ending_ne_0 d.level (negsuc 1) rest refl)

  -- The call of `_find` when the last media plays.
  past :
      (ctx : Dir) (k : ℕ) (draw : ℤ → ℤ)
      → Playing getmime ctx k
      → suc k ≡ length (all getmime ctx)
      → eq_ℤ ctx.firstmediaid (pos (suc k)) ≡ false
      → settle ctx (seek getmime ctx (pos k) (wanted ctx (pos k) draw))
        ≡ (ending_rest getmime ctx.current, over ctx (suc k))
  past ctx k draw p last fresh =
      let within =
        count_within ctx.count (length (all getmime ctx)) (suc k) p.counted (omega arith) in
      let id = wanted_next getmime ctx (pos k) draw p.straight within in
      let left = length-drop k (all getmime ctx) in
      elim (cursor-Sought getmime ctx k p) [
        | inl hit ↦
            let inside = get_elem?-inside hit.at (drop k (all getmime ctx)) hit.media hit.here in
            absurd (omega (arith, hit.id_at, p.inside))
        | inr miss ↦
            let stop : k + length (drop k (all getmime ctx)) ≡ suc k = omega (arith, p.inside) in
            ap (λ x. settle ctx (seek getmime ctx (pos k) x)) id
            ∙ ap (settle ctx) miss.ends
            ∙ ap
                (λ n.
                  settle ctx (done (ending_rest getmime ctx.current) (walk n (some ctx.count) [])))
                stop
            ∙ settle_done getmime ctx (suc k) (ending_rest getmime ctx.current) [] fresh
                (ending_rest_ne_0 ctx.current)
      ]

  -- Where the walk does not end at a file that is no media, `media_next` answers behind the last media
  -- with an id that no media has, whether the list is played in a loop or not, and `media_play` of that id
  -- calls nothing back and returns -1.
  pub past_end :
      (fuel : ℕ) (ctx : Dir) (k : ℕ) (draws : ℕ → ℤ → ℤ)
      → Playing getmime ctx k
      → suc k ≡ length (all getmime ctx)
      → eq_ℤ ctx.firstmediaid (pos (suc k)) ≡ false
      → eq_ℤ (ending_rest getmime ctx.current) (negsuc 0) ≡ false
      → (media_next getmime (suc fuel) ctx (pos k) draws ≡ some (pos (suc k), over ctx (suc k)))
        × (media_play getmime (over ctx (suc k)) (pos (suc k))
            ≡ (negsuc 0, [], record (over ctx (suc k)) { mediaid = negsuc 0 }))
  unfolding media_play
  past_end fuel ctx k draws p last fresh no_file =
      let after = over ctx (suc k) in
      let gone : get_elem? (all getmime ctx) (suc k) ≡ none =
        elim (Option-cases (get_elem? (all getmime ctx) (suc k))) [
          | inl e ↦ e
          | inr (media, e) ↦
              let inside = get_elem?-inside (suc k) (all getmime ctx) media e in
              absurd (omega arith)
        ] in
      let answer_none =
        media_find_lem getmime after (suc k) p.counted ∙ ap (lookup_answer after (suc k)) gone in
      (
        answer getmime fuel ctx after (pos k) (ending_rest getmime ctx.current) draws
            (seek getmime ctx (pos k) (wanted ctx (pos k) (draws fuel))) refl
            (past ctx k (draws fuel) p last fresh) no_file,
        rw (media_play, answer_none, answer_none) refl,
      )

  -- The walk from the root, when the last media plays and the list was used up.
  again :
      (ctx : Dir) (k : ℕ) (draw : ℤ → ℤ)
      → ctx.count ≡ pos (length (all getmime ctx))
      → ctx.random ≡ false
      → ctx.current ≡ []
      → suc k ≡ length (all getmime ctx)
      → eq_ℤ ctx.firstmediaid (pos (suc k)) ≡ false
      → settle ctx (seek getmime ctx (pos k) (wanted ctx (pos k) draw))
        ≡ (ending getmime 0 (negsuc 1) ctx.items, over ctx (suc k))
  again ctx k draw counted straight at_start last fresh =
      let n = length (all getmime ctx) in
      let ret = ending getmime 0 (negsuc 1) ctx.items in
      let w = walk k (some ctx.count) [] in
      let within = count_within ctx.count n (suc k) counted (omega arith) in
      let id = wanted_next getmime ctx (pos k) draw straight within in
      let room = Room-of ctx.count n n counted (omega arith) in
      let from_root : seek getmime ctx (pos k) (pos (suc k))
          ≡ find getmime (find_mediaid (pos (suc k))) ctx.root ctx.items [] w =
        seek_on getmime ctx k
        ∙ ap (λ l. find getmime (find_mediaid (pos (suc k))) ctx.root ctx.items l w) at_start in
      let stop : 0 + n ≡ suc k = omega arith in
      elim (find_first getmime ctx.root ctx.items (suc k) w room) [
        | inl hit ↦
            let inside = get_elem?-inside hit.at (all getmime ctx) hit.media hit.here in
            absurd (omega (arith, hit.id_at))
        | inr miss ↦
            ap (λ x. settle ctx (seek getmime ctx (pos k) x)) id
            ∙ ap (settle ctx) (from_root ∙ miss.ends)
            ∙ ap (λ m. settle ctx (done ret (walk m (some ctx.count) []))) stop
            ∙ settle_done getmime ctx (suc k) ret [] fresh (ending_ne_0 0 (negsuc 1) ctx.items refl)
      ]

  turn_again :
      (fuel : ℕ) (ctx after : Dir) (playing : ℤ) (draws : ℕ → ℤ → ℤ)
      → settle ctx (seek getmime ctx playing (wanted ctx playing (draws fuel))) ≡ (negsuc 0, after)
      → after.loop ≡ true
      → eq_ℤ after.firstmediaid after.mediaid ≡ false
      → media_next getmime (suc fuel) ctx playing draws
        ≡ media_next getmime fuel after playing draws
  unfolding media_next
  turn_again fuel ctx after playing draws h l f = rw (h, l, f) refl

  -- With a file that is no media at the end of the tree, a list that is played in a loop and used up
  -- searches the id behind the last one for ever.
  used_up_diverges :
      (fuel : ℕ) (ctx : Dir) (k : ℕ) (draws : ℕ → ℤ → ℤ)
      → ctx.count ≡ pos (length (all getmime ctx))
      → ctx.random ≡ false
      → ctx.current ≡ []
      → suc k ≡ length (all getmime ctx)
      → eq_ℤ ctx.firstmediaid (pos (suc k)) ≡ false
      → ctx.loop ≡ true
      → ending getmime 0 (negsuc 1) ctx.items ≡ negsuc 0
      → media_next getmime fuel ctx (pos k) draws ≡ none
  unfolding media_next
  used_up_diverges zero ctx k draws counted straight at_start last fresh loops file = refl
  used_up_diverges (suc fuel) ctx k draws counted straight at_start last fresh loops file =
      turn_again fuel ctx (over ctx (suc k)) (pos k) draws
        (again ctx k (draws fuel) counted straight at_start last fresh
          ∙ ap (λ r. (r, over ctx (suc k))) file)
        loops fresh
      ∙ used_up_diverges fuel (over ctx (suc k)) k draws counted straight refl last fresh loops file

  -- So does one whose last media plays, where the walk from there ends at such a file too.
  pub loop_diverges :
      (fuel : ℕ) (ctx : Dir) (k : ℕ) (draws : ℕ → ℤ → ℤ)
      → Playing getmime ctx k
      → suc k ≡ length (all getmime ctx)
      → eq_ℤ ctx.firstmediaid (pos (suc k)) ≡ false
      → ctx.loop ≡ true
      → ending_rest getmime ctx.current ≡ negsuc 0
      → ending getmime 0 (negsuc 1) ctx.items ≡ negsuc 0
      → media_next getmime fuel ctx (pos k) draws ≡ none
  unfolding media_next
  loop_diverges zero ctx k draws p last fresh loops here file = refl
  loop_diverges (suc fuel) ctx k draws p last fresh loops here file =
      turn_again fuel ctx (over ctx (suc k)) (pos k) draws
        (past ctx k (draws fuel) p last fresh ∙ ap (λ r. (r, over ctx (suc k))) here) loops fresh
      ∙ used_up_diverges fuel (over ctx (suc k)) k draws p.counted p.straight refl last fresh loops
          file
