-- ===== src/Player/Requests.antt =====
-- src/player.c: what the other threads ask of the player.
use putv.Prelude.{
  ℕ, ◌+◌, ◌≡◌, refl, inl, inr, Option-cases, Bool, true, false, ◌&&◌, Option, none, some, [], ◌∷◌,
  ltb, if◌then◌else◌,
}
use putv.Prelude.Int.{ℤ, negsuc}
use putv.Player.{
  Base, stop, play, change, plain, Src, media_next, media_play, media_free, media_loop,
  media_random, Player, same_state, emit, played, player_state, player_play_cb, run_turn,
}
use putv.Player.Engine.{turn_returns, second_turn}

pub player_mediaid : Player → ℤ
player_mediaid p = elim p.src [ none ↦ negsuc 0 | some s ↦ s.mediaid ]

-- `player_next`: the id that comes next, and the request to change.
pub player_next : Bool → Bool → Player → ℤ × Player
unfolding player_state
player_next busy asked p = (next_id p.nextsrc, requested)
  where
    next_id : Option Src → ℤ
    next_id none = negsuc 0
    next_id (some s) = s.mediaid

    requested : Player
    requested =
        if p.media && asked
        then (if same_state p.state (plain stop)
            then (player_state busy (plain play) p).1
            else (player_state busy (plain change) p).1)
        else p

-- `player_play`
unfoldable pub player_play : Option (Option Src) → Player → Player
unfolding player_play_cb
player_play answer p = if p.media then played answer (emit (media_play ∷ []) p) else p

-- `player_change`: a new media, if `media_build` gave one, its options where they are set, the next
-- entry where the player is not stopped, and the request to change `now`.
unfoldable pub player_change :
    Bool → Bool → Bool → Bool → Bool → Option (Option Src) → Player → Player
unfolding player_play player_state
player_change busy built loop random now answer p = if p₁.media then requested else p₁
  where
    p₁ : Player
    p₁ =
        if built
        then emit (if p.media then media_free ∷ [] else []) (record p { media = true })
        else p

    p₂ : Player
    p₂ = emit (if loop then media_loop ∷ [] else []) p₁

    p₃ : Player
    p₃ = emit (if random then media_random ∷ [] else []) p₂

    p₄ : Player
    p₄ =
        if same_state p₃.state (plain stop)
        then p₃
        else player_play answer (emit (media_next ∷ []) p₃)

    requested : Player
    requested = if now then (player_state busy (plain change) p₄).1 else p₄

-- `player_subscribe`; `none` is a write behind `outstream[MAX_ESTREAM]`.
abbrev pub max_estream : ℕ
max_estream = 4

pub player_subscribe : Bool → Player → Option Player
player_subscribe is_audio p =
    if is_audio
    then (if ltb p.noutstreams max_estream
        then some (record p { noutstreams = p.noutstreams + 1 })
        else none)
    else some p

asked :
    (p : Player) (s : Src)
    → p.media ≡ true
    → p.state ≡ plain play
    → p.nextsrc ≡ some s
    → player_next false true p ≡ (s.mediaid, record p { state = plain change })
unfolding player_next player_state
asked p s m st next = rw (m, st, next) refl

-- While a song plays and the source s is prepared, `player_next` returns the id of s and asks for the
-- change, if the mutex is free; the next turn of the engine then plays s.
pub next_plays :
    (p : Player) (s : Src) (answer : Option (Option Src))
    → p.media ≡ true
    → p.state ≡ plain play
    → p.nextsrc ≡ some s
    → (q : Player) × (last : Base) × (r : Player) × (player_next false true p ≡ (s.mediaid, q))
      × (run_turn false answer none q ≡ some (last, r))
      × (r.state ≡ plain play)
      × (r.src ≡ some s)
      × (r.nextsrc ≡ none)
next_plays p s answer m st next =
    let q : Player = record p { state = plain change } in
    elim (Option-cases (run_turn false answer none q)) [
      | inl e ↦ absurd (turn_returns q answer none false m e)
      | inr ((last, r), e) ↦
          let (a, b, c) = second_turn q r s last answer m refl next e in
          (q, last, r, asked p s m st next, e, a, b, c)
    ]
