-- ===== src/Player/Tests.antt =====
-- src/player.c: the theorems at a player with one stream.
use putv.Prelude.{
  ◌++◌, ℕ, ◌+◌, ◌≡◌, refl, arith, true, false, Option, none, some, List, [], ◌∷◌, ◌==◌,
  if◌then◌else◌,
}
use putv.Prelude.Int.{pos}
use putv.Player.{
  run, notify, each, pause, State, Base, play, change, plain, Src, Player, engine, engine_play,
  player_play_cb, run_turn,
}
use putv.Player.Listeners.{Listener, player_removeevent, has, Falls, removeevent_lem}
use putv.Player.Sources.{is, accounted, gained, engine_accounts, failed_build_leaks}
use putv.Player.Engine.{starts_in_two_turns}

abbrev song : ℕ → Src
song k = record { key = k; mediaid = pos k }

-- One song plays, the next is prepared.
abbrev playing : Player
playing = record {
  media = true;
  state = plain change;
  src = some (song 1);
  nextsrc = some (song 2);
  noutstreams = 1;
  log = [];
}

abbrev starting : Player
starting = record playing { state = plain play; src = none; nextsrc = none }

abbrev result : Option (Base × Player) → Player
result none = playing
result (some r) = r.1

abbrev engine_result : Player → Base → Option (Option Src) → Player
engine_result p b answer = elim (engine answer b false p) [ none ↦ p | some r ↦ r.1 ]

engine_accounts_example :
    (new : State) × (q : Player) × (engine none change false playing ≡ some (new, q))
    × (accounted 1 q ≡ accounted 1 playing + gained 1 none change false)
engine_accounts_example = engine_accounts 1 playing none change false refl (λ e. cc)

failed_build_leaks_example :
    accounted 2 (engine_result playing play (some none)) + is 2 (song 2) ≡ accounted 2 playing
unfolding engine engine_play player_play_cb
failed_build_leaks_example =
    failed_build_leaks 2 playing (engine_result playing play (some none)) (song 2) (plain play) refl
      refl refl

starts_in_two_turns_example :
    (one : Base × Player) × (two : Base × Player) × (run_turn false
        (some (some (song 3)))
        none
        starting
      ≡ some one)
    × (run_turn false none none one.1 ≡ some two)
    × (one.1.state ≡ plain change)
    × (one.1.nextsrc ≡ some (song 3))
    × (two.1.state ≡ plain play)
    × (two.1.src ≡ some (song 3))
    × (two.1.nextsrc ≡ none)
    × (two.1.log
        ≡ one.1.log
          ++ each (λ i. pause i false) 0 one.1.noutstreams
          ++ run (song 3) ∷ (notify (plain change) ∷ []))
starts_in_two_turns_example = starts_in_two_turns starting (song 3) none refl refl refl

-- Listeners that add to the event.
abbrev three : List (Listener ℕ)
three =
    record { id = 2; cb = λ e. e + 1 }
    ∷ record { id = 1; cb = λ e. e }
    ∷ record { id = 0; cb = λ e. e }
    ∷ []

three-Falls : Falls three
three-Falls = (omega arith, (omega arith, tt))

removeevent_lem_example :
    (ls' : List (Listener ℕ)) × (player_removeevent 1 three ≡ some ls')
    × Falls ls'
    × ((i : ℕ) → has i ls' ≡ (if 1 == i then false else has i three))
removeevent_lem_example = removeevent_lem 1 three three-Falls (λ e. cc)
