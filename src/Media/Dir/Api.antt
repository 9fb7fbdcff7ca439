-- ===== src/Media/Dir/Api.antt =====
-- src/media_dir.c, the media API over `_find`. What `player_mediaid` answers is an argument, and so are
-- the numbers that `random` gives, scaled to a count.
use putv.Prelude.{
  ℕ, zero, suc, Bool, true, false, not, ◌&&◌, Option, none, some, List, [], if◌then◌else◌,
}
use putv.Prelude.Int.{ℤ, pos, negsuc, ltb_ℤ}
use putv.Media.Mime.{Mime}
use putv.Media.File.{OptionState, request, disable, enable}
use putv.Media.Dir.{
  Entries, Dirlist, Search, find_mediaid, find_count, Item, Walk, Outcome, found, done, next_id,
  eq_ℤ, find,
}

-- `media_ctx_s`, of `options` the flags OPTION_LOOP and OPTION_RANDOM.
pub record Dir : Type 0 where
  pub root : List ℕ
  pub items : Entries
  pub count : ℤ
  pub mediaid : ℤ
  pub firstmediaid : ℤ
  pub current : List Dirlist
  pub loop : Bool
  pub random : Bool

abbrev pub is_0 : Outcome → Bool
is_0 (found dirs w) = true
is_0 (done ret w) = false

abbrev pub ret_of : Outcome → ℤ
ret_of (found dirs w) = pos 0
ret_of (done ret w) = ret

abbrev pub dirs_of : Outcome → List Dirlist
dirs_of (found dirs w) = dirs
dirs_of (done ret w) = []

abbrev pub walk_of : Outcome → Walk
walk_of (found dirs w) = w
walk_of (done ret w) = w

-- `ctx->count` after a call where `pmediaid` does not point to it.
abbrev pub count_of : Outcome → ℤ → ℤ
count_of r old = elim (walk_of r).count [ none ↦ old | some count ↦ count ]

-- `media_next`, the id that is searched: `draw` is what `random` gives for the count.
unfoldable pub wanted : Dir → ℤ → (ℤ → ℤ) → ℤ
wanted ctx playing draw =
    let drawn = draw ctx.count in
    let id =
      if ctx.random then if eq_ℤ drawn playing then next_id drawn else drawn else next_id playing in
    if ltb_ℤ ctx.count id then pos 0 else id

-- `media_next`, the section under the mutex: what `ret` is then, and the media.
unfoldable pub settle : Dir → Outcome → ℤ × Dir
settle ctx r =
    let mediaid = (walk_of r).mediaid in
    let ret = if eq_ℤ ctx.firstmediaid mediaid then negsuc 0 else ret_of r in
    let start = eq_ℤ ret (pos 0) && eq_ℤ ctx.firstmediaid (negsuc 0) in
    (
      ret,
      record ctx {
        count = count_of r ctx.count;
        mediaid = mediaid;
        firstmediaid = if start then mediaid else ctx.firstmediaid;
        current = dirs_of r;
      },
    )

module _ (getmime : List ℕ → Mime) where
  -- A call of `_find` with a new list, and what becomes of `ctx->count`.
  unfoldable pub find_new : Search → Dir → Outcome
  find_new search ctx =
      find getmime search ctx.root ctx.items []
        (record { mediaid = pos 0; count = some ctx.count; calls = [] })

  -- `media_find`: 1 or 0, the calls of the callback, and the media.
  unfoldable pub media_find : Dir → ℤ → ℤ × List Item × Dir
  media_find ctx id =
      let r = find_new (find_mediaid id) ctx in
      (
        if is_0 r then pos 1 else pos 0,
        (walk_of r).calls,
        record ctx { count = count_of r ctx.count },
      )

  unfoldable pub media_list : Dir → ℤ × List Item × Dir
  media_list ctx =
      let r = find_new find_count ctx in
      (ret_of r, (walk_of r).calls, record ctx { count = count_of r ctx.count })

  unfoldable pub media_play : Dir → ℤ → ℤ × List Item × Dir
  media_play ctx (negsuc n) = (ctx.mediaid, [], ctx)
  media_play ctx (pos n) =
      let r = media_find (record ctx { mediaid = pos n }) (pos n) in
      elim r.0 [
        | pos zero ↦ (negsuc 0, r.1, record r.2 { mediaid = negsuc 0 })
        | pos (suc m) ↦ (pos n, r.1, r.2)
        | negsuc m ↦ (pos n, r.1, r.2)
      ]

  -- `_count_media`: `pmediaid` points to `ctx->count`.
  pub count_media : Dir → Dir
  count_media ctx =
      let r =
        find getmime find_count ctx.root ctx.items []
          (record { mediaid = pos 0; count = none; calls = [] }) in
      record ctx { count = (walk_of r).mediaid; current = dirs_of r }

  -- `media_init`, for a path that is a directory.
  unfoldable pub media_init : List ℕ → Entries → Dir
  unfolding count_media
  media_init root items = count_media (record {
    root = root;
    items = items;
    count = pos 0;
    mediaid = negsuc 0;
    firstmediaid = negsuc 0;
    current = [];
    loop = false;
    random = false;
  })

  -- `media_next`, the call of `_find`.
  unfoldable pub seek : Dir → ℤ → ℤ → Outcome
  seek ctx playing id =
      let back = ltb_ℤ id playing in
      find getmime (find_mediaid id) ctx.root ctx.items (if back then [] else ctx.current)
        (record { mediaid = if back then pos 0 else playing; count = some ctx.count; calls = [] })

  -- `media_next`: what it returns and the media. `none` where the fuel runs out: the code calls itself.
  -- `draws` are the random numbers, by the fuel that is left.
  unfoldable pub media_next : ℕ → Dir → ℤ → (ℕ → ℤ → ℤ) → Option (ℤ × Dir)
  media_next zero ctx playing draws = none
  media_next (suc fuel) ctx playing draws =
      let r = settle ctx (seek ctx playing (wanted ctx playing (draws fuel))) in
      let after = r.1 in
      let again = media_next fuel after playing draws in
      if not (eq_ℤ r.0 (negsuc 0))
      then some (after.mediaid, after)
      else if not after.loop
      then some (negsuc 0, after)
      else if eq_ℤ after.firstmediaid after.mediaid
      then some (after.mediaid, after)
      else again

-- `media_end`
pub media_end : Dir → ℤ × Dir
media_end ctx = (negsuc 0, record ctx { current = []; mediaid = negsuc 0; firstmediaid = negsuc 0 })

abbrev new_flag : OptionState → Bool → Bool
new_flag enable b = true
new_flag disable b = false
new_flag request b = b

pub media_loop : Dir → OptionState → OptionState × Dir
media_loop ctx o =
    let loop = new_flag o ctx.loop in (if loop then enable else disable, record ctx { loop = loop })

pub media_random : Dir → OptionState → OptionState × Dir
media_random ctx o =
    let random = new_flag o ctx.random in
    (
      if random then enable else disable,
      record ctx {
        random = random;
        firstmediaid = elim o [
          | request ↦ ctx.firstmediaid
          | enable ↦ ctx.firstmediaid
          | disable ↦ negsuc 0
        ];
      },
    )
