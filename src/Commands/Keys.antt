-- ===== src/Commands/Keys.antt =====
-- src/cmds_input.c: the keys of an input device. What `select` and `read` give are the events; one is read
-- a turn. The media has a random option, or not.
use putv.Prelude.{
  ℕ, ◌≡◌, refl, ap, ◌∙◌, sym, append-[], arith, Bool, true, false, ◌&&◌, List, [], ◌∷◌, ◌++◌, ◌==◌,
  if◌then◌else◌,
}
use putv.Player.{
  Player, State, stop, play, change, error, plain, same_state, player_state, emit, media_random,
}

-- The codes of the keys; `other` is any code that the switch does not name.
pub data Key : Type 0 where
  playpause playcd play_key pausecd pause_key stopcd stop_key nextsong next_key r exit other : Key

-- `struct input_event`, with whether its type is EV_KEY, and whether another thread holds the player's mutex
-- when it is handled.
pub record InputEvent : Type 0 where
  pub is_key : Bool
  pub value : ℕ
  pub code : Key
  pub busy : Bool

-- `cmds_ctx_s`
pub record Keys : Type 0 where
  pub running : Bool
  pub player : Player
  pub has_random : Bool

abbrev pub paused_play : State
paused_play = record { base = play; paused = true }

-- `method_play` to `method_quit`: the state that is asked for.
pub method_state : Bool → State → Keys → Keys
method_state busy s ctx = record ctx { player = (player_state busy s ctx.player).1 }

pub method_random : Keys → Keys
method_random ctx =
    if ctx.has_random then record ctx { player = emit (media_random ∷ []) ctx.player } else ctx

-- `cmds_input_cmd`, the switch and the method.
pub press : Bool → Key → Keys → Keys
unfolding method_state method_random
press busy playpause ctx =
    if same_state ctx.player.state paused_play
    then method_state busy (plain play) ctx
    else method_state busy paused_play ctx
press busy playcd ctx = method_state busy (plain play) ctx
press busy play_key ctx = method_state busy (plain play) ctx
press busy pausecd ctx = method_state busy paused_play ctx
press busy pause_key ctx = method_state busy paused_play ctx
press busy stopcd ctx = method_state busy (plain stop) ctx
press busy stop_key ctx = method_state busy (plain stop) ctx
press busy nextsong ctx = method_state busy (plain change) ctx
press busy next_key ctx = method_state busy (plain change) ctx
press busy r ctx = method_random ctx
press busy exit ctx = record (method_state busy (plain error) ctx) { running = false }
press busy other ctx = ctx

abbrev pub is_release : InputEvent → Bool
is_release e = e.is_key && e.value == 0

-- `cmds_input_cmd`, the loop over the events that come.
pub handle_events : List InputEvent → Keys → Keys
unfolding press
handle_events [] ctx = ctx
handle_events (e ∷ es) ctx =
    let next = if is_release e then press e.busy e.code ctx else ctx in
    let rest = handle_events es next in if ctx.running then rest else ctx

abbrev pub NoRelease : List InputEvent → Type 0
NoRelease [] = Unit {0}
NoRelease (e ∷ es) = (is_release e ≡ false) × NoRelease es

abbrev pub release : Key → InputEvent
release key = record { is_key = true; value = 0; code = key; busy = false }

-- Events that are no releases of a key change nothing.
quiet :
    (es rest : List InputEvent) (ctx : Keys)
    → ctx.running ≡ true
    → NoRelease es
    → handle_events (es ++ rest) ctx ≡ handle_events rest ctx
unfolding handle_events
quiet [] rest ctx on h = refl
quiet (e ∷ es) rest ctx on h = ground (arith, quiet es rest ctx on h.1)

all_quiet :
    (es : List InputEvent) (ctx : Keys)
    → ctx.running ≡ true
    → NoRelease es
    → handle_events es ctx ≡ ctx
unfolding handle_events
all_quiet es ctx on h = ap (λ l. handle_events l ctx) (sym (append-[] es)) ∙ quiet es [] ctx on h

abbrev pub in_state : State → Keys → Keys
in_state s ctx = record ctx { player = record ctx.player { state = s } }

press_playing :
    (ctx : Keys)
    → ctx.player.state ≡ plain play
    → press false playpause ctx ≡ in_state paused_play ctx
unfolding press player_state
press_playing ctx st = rw (press, st) refl

press_paused :
    (ctx : Keys)
    → ctx.player.state ≡ paused_play
    → press false playpause ctx ≡ in_state (plain play) ctx
unfolding press player_state
press_paused ctx st = rw (press, st) refl

released :
    (key : Key) (rest : List InputEvent) (ctx : Keys)
    → ctx.running ≡ true
    → handle_events (release key ∷ rest) ctx ≡ handle_events rest (press false key ctx)
unfolding handle_events press
released key rest ctx on = rw (handle_events, on) refl

-- While the player plays and its mutex is free, the play and pause key pauses it, and the next release of
-- the key, whatever other events come between, lets it play on as it was.
pub playpause_twice :
    (a b c : List InputEvent) (ctx : Keys)
    → ctx.running ≡ true
    → ctx.player.state ≡ plain play
    → NoRelease a
    → NoRelease b
    → NoRelease c
    → (handle_events (a ++ release playpause ∷ b) ctx ≡ in_state paused_play ctx)
      × (handle_events (a ++ release playpause ∷ (b ++ release playpause ∷ c)) ctx ≡ ctx)
unfolding handle_events
playpause_twice a b c ctx on st ha hb hc =
    let held = in_state paused_play ctx in
    let first = λ (rest : List InputEvent).
      quiet a (release playpause ∷ rest) ctx on ha
      ∙ released playpause rest ctx on
      ∙ ap (handle_events rest) (press_playing ctx st) in
    let same = ap (λ s. in_state s ctx) (sym st) in
    (
      first b ∙ all_quiet b held on hb,
      first (b ++ release playpause ∷ c)
          ∙ quiet b (release playpause ∷ c) held on hb
          ∙ released playpause c held on
          ∙ ap (handle_events c) (press_paused held refl ∙ same)
          ∙ all_quiet c ctx on hc,
    )
