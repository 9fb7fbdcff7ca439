-- ===== src/Player.antt =====
-- src/player.c: the player's state engine. The streams, the sources and the media are other
-- components: what the engine asks of them is written to `log`, and what they answer is an argument.
pub mod Listeners
pub mod Sources
pub mod Engine
pub mod Requests
mod Tests
use putv.Prelude.{
  ℕ, zero, suc, ◌+◌, Bool, true, false, not, ◌&&◌, ◌||◌, Option, none, some, List, [], ◌∷◌, ◌++◌,
  ltb, if◌then◌else◌,
}
use putv.Prelude.Int.{ℤ, pos, negsuc}

-- `state_t` is one of these numbers, with the bit STATE_PAUSE_MASK beside it.
pub data Base : Type 0 where
  unknown stop play change error : Base

pub record State : Type 0 where
  pub base : Base
  pub paused : Bool

abbrev pub same_base : Base → Base → Bool
same_base unknown unknown = true
same_base stop stop = true
same_base play play = true
same_base change change = true
same_base error error = true
same_base _ _ = false

abbrev same_bool : Bool → Bool → Bool
same_bool true true = true
same_bool false false = true
same_bool _ _ = false

abbrev pub same_state : State → State → Bool
same_state a b = same_base a.base b.base && same_bool a.paused b.paused

abbrev pub plain : Base → State
plain b = record { base = b; paused = false }

-- `src_t`: which object it is, and its `mediaid`.
pub record Src : Type 0 where
  pub key : ℕ
  pub mediaid : ℤ

-- What the engine does to the other components.
pub data Action : Type 0 where
  flush reset : ℕ → Action
  pause : ℕ → Bool → Action
  notify : State → Action
  destroy run prepare : Src → Action
  media_next media_play media_end media_free media_loop media_random : Action

-- `player_ctx_t`; `media` is whether there is one, and the streams are numbered.
pub record Player : Type 0 where
  pub media : Bool
  pub state : State
  pub src : Option Src
  pub nextsrc : Option Src
  pub noutstreams : ℕ
  pub log : List Action

abbrev pub emit : List Action → Player → Player
emit actions p = record p { log = p.log ++ actions }

-- A loop over `n` streams from the `i`th on.
abbrev pub each : (ℕ → Action) → ℕ → ℕ → List Action
each f i zero = []
each f i (suc n) = f i ∷ each f (i + 1) n

abbrev pub destroys : Option Src → List Action
destroys none = []
destroys (some s) = destroy s ∷ []

pub player_init : Player
player_init = record {
  media = false;
  state = plain stop;
  src = none;
  nextsrc = none;
  noutstreams = 0;
  log = [];
}

-- `player_state`; `busy` is whether `pthread_mutex_trylock` fails.
unfoldable pub player_state : Bool → State → Player → State × Player
player_state busy s p =
    if not (same_base s.base unknown && not s.paused) && not (same_state p.state s) && not busy
    then (p.state, record p { state = s })
    else (p.state, p)

-- `_player_play`, the callback of `media->ops->play`: the source that `src_build` gave, if any.
pub player_play_cb : Option Src → Player → Player
player_play_cb none p = record p { nextsrc = none }
player_play_cb (some s) p = record p {
  nextsrc = some s;
  log = p.log ++ destroys p.nextsrc ++ (prepare s ∷ []);
}

-- A call of `media->ops->play`: it may call the callback.
abbrev pub played : Option (Option Src) → Player → Player
played none p = p
played (some built) p = player_play_cb built p

-- The cases of `_player_stateengine`.
pub engine_stop : Player → State × Player
engine_stop p = (
  plain stop,
  record p {
    src = none;
    nextsrc = none;
    log =
        p.log
        ++ each flush 0 p.noutstreams
        ++ (notify p.state ∷ [])
        ++ destroys p.src
        ++ destroys p.nextsrc
        ++ (if p.media then media_end ∷ [] else [])
        ++ each reset 0 p.noutstreams;
  },
)

-- `none` is the use of a media that is NULL.
pub engine_play : Option (Option Src) → Bool → Player → Option (State × Player)
unfolding player_play_cb
engine_play answer paused p =
    if paused
    then some (plain play, told)
    else if p.media
    then some (elim after.src [ none ↦ plain change | some s ↦ plain play ], after)
    else none
  where
    told : Player
    told = emit (notify p.state ∷ []) p

    after : Player
    after = played answer (emit (media_next ∷ media_play ∷ []) told)

-- The source that was prepared becomes the one that plays.
pub switch_src : Bool → Player → Player
switch_src paused p = record p {
  src = p.nextsrc;
  nextsrc = none;
  log = p.log ++ destroys p.src ++ each (λ i. pause i paused) 0 p.noutstreams;
}

pub start_src : Bool → Option Src → Player → State × Player
start_src paused none p = (plain stop, p)
start_src paused (some s) p = (record { base = play; paused = paused }, emit (run s ∷ []) p)

pub engine_change : Bool → Player → State × Player
unfolding switch_src start_src
engine_change paused p = start_src paused p.nextsrc (switch_src paused p)

pub engine : Option (Option Src) → Base → Bool → Player → Option (State × Player)
unfolding engine_stop engine_play engine_change
engine answer stop paused p = some (engine_stop p)
engine answer play paused p = engine_play answer paused p
engine answer change paused p = some (engine_change paused p)
engine answer unknown paused p = some (plain unknown, p)
engine answer error paused p = some (plain error, p)

-- The body of `player_run`'s inner loop, after the wait.
pub run_wake : Player → Player
run_wake p = emit (each (λ i. pause i p.state.paused) 0 p.noutstreams) p

-- The end of a turn of `player_run`: `last_state` and the state that the engine gave.
abbrev pub settle : Base → State → Player → Player
settle last new p = if same_state (plain last) new then p else record p { state = new }

-- A turn of `player_run` after its wait. `request` is the state that another thread sets while the
-- engine runs. The result is `last_state` with the player.
pub run_turn : Bool → Option (Option Src) → Option State → Player → Option (Base × Player)
unfolding engine player_state
run_turn busy answer request p = elim (engine answer p₁.state.base p₁.state.paused p₁) [
  | none ↦ none
  | some (new, p₂) ↦ some (
    p.state.base,
    settle p.state.base new (emit (notify (requested p₂).state ∷ []) (requested p₂)),
  )
]
  where
    p₁ : Player
    p₁ = if p.media then p else (player_state busy (plain stop) p).1

    requested : Player → Player
    requested q = elim request [ none ↦ q | some s ↦ record q { state = s } ]
