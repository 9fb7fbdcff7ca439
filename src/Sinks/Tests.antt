-- ===== src/Sinks/Tests.antt =====
-- src/sink_common.c: the settings of an ALSA sink on texts.
use mathlib.Core.Path.{subst}
use putv.Player.{player_init}
use putv.Sinks.Unix.{
  Unix, peering, counted, published, Event, peer, publish, acked, serve, run, step, sink_peer,
  sink_publish, client_serve,
}
use putv.Sinks.Turns.{Together, Orderly, AllOrderly}
use putv.Sinks.Handover.{each_once, old_buffer_again}
use putv.Prelude.{◌≡◌, refl, arith, true, false, none, some, List, ◌∷◌, [], ℕ}
use putv.Prelude.Int.{ℤ, pos, negsuc}
use putv.Media.Mime.{codes}
use putv.Filter.Format.{pcm_16bits_le_stereo, pcm_24bits4_le_stereo, pcm_32bits_le_stereo}
use putv.Sinks.Settings.{
  Setting, parse_audioparameters, parse_audioparameters-Ends, Ends, at_format, at_rate, at_mixer,
}

abbrev start : Setting
start = record { format = pcm_32bits_le_stereo; rate = pos 0; mixer = none }

abbrev text : List ℕ
text = codes "mixer=Master&samplerate=44100"

parse_audioparameters-Ends_example :
    (r : ℤ × Setting) × (parse_audioparameters true text start ≡ some r) × Ends true r
parse_audioparameters-Ends_example = parse_audioparameters-Ends true text start

read_both :
    parse_audioparameters true (codes "format=16le&samplerate=44100") start
    ≡ some (pos 0, record { format = pcm_16bits_le_stereo; rate = pos 44100; mixer = none })
unfolding parse_audioparameters at_mixer at_rate at_format
read_both = refl

mixer_last :
    parse_audioparameters true (codes "format=24le&mixer=Master") start
    ≡ some (
      pos 0,
      record { format = pcm_24bits4_le_stereo; rate = pos 0; mixer = some (codes "Master") },
    )
unfolding parse_audioparameters at_mixer at_rate at_format
mixer_last = refl

mixer_first :
    parse_audioparameters true text start
    ≡ some (
      negsuc 0,
      record {
        format = pcm_32bits_le_stereo;
        rate = pos 0;
        mixer = some (codes "Master&samplerate=44100");
      },
    )
unfolding parse_audioparameters at_mixer at_rate at_format
mixer_first = refl

abbrev idle : Unix
idle = record {
  place = peering;
  counter = 4;
  out = 9 ∷ [];
  ackstate = false;
  clients = record { counter = 4; sent = [] } ∷ [];
  player = player_init;
  popped = [];
}

-- Two bytes on their way, to the moment before the wait of the sink's thread ends.
abbrev counting : Unix
counting = record idle { place = counted (1 ∷ 2 ∷ []); counter = 5 }

abbrev copied : Unix
copied = record counting { place = published (1 ∷ 2 ∷ []); out = 1 ∷ 2 ∷ [] }

abbrev sent_two : Unix
sent_two = record copied {
  ackstate = true;
  clients = record { counter = 5; sent = 1 ∷ 2 ∷ [] } ∷ [];
}

abbrev turn : List Event
turn = peer (1 ∷ 2 ∷ []) ∷ publish ∷ serve 0 (some 2) false ∷ []

orderly :
    (e : Event) (es : List Event) (ctx next : Unix)
    → step e ctx ≡ some next
    → Orderly e ctx
    → AllOrderly es next
    → AllOrderly (e ∷ es) ctx
orderly e es ctx next h o all =
    (o, λ n k. (let same : next ≡ n = cc in subst (AllOrderly es) same all))

turn-AllOrderly : AllOrderly turn idle
unfolding step sink_peer sink_publish client_serve
turn-AllOrderly =
    orderly (peer (1 ∷ 2 ∷ [])) (publish ∷ serve 0 (some 2) false ∷ []) idle counting refl tt (
      orderly publish (serve 0 (some 2) false ∷ []) counting copied refl tt
        (orderly (serve 0 (some 2) false) [] copied sent_two refl (refl, refl, refl) tt))

each_once_example : Together sent_two
unfolding run step sink_peer sink_publish client_serve
each_once_example =
    each_once turn idle sent_two
      (record {
        client = record { counter = 4; sent = [] };
        alone = refl;
        level = (refl, refl, refl);
      })
      turn-AllOrderly refl

old_buffer_again_example :
    (last : Unix) × (run (peer (1 ∷ 2 ∷ []) ∷ serve 0 (some 1) false ∷ publish ∷ acked ∷ []) idle
      ≡ some last)
    × (last.place ≡ peering)
    × (last.popped ≡ 1 ∷ 2 ∷ [])
    × (last.clients ≡ record { counter = 5; sent = 9 ∷ [] } ∷ [])
    × (client_serve 0 (some 2) false last ≡ none)
old_buffer_again_example =
    old_buffer_again idle (record { counter = 4; sent = [] }) (1 ∷ 2 ∷ []) false (omega arith) refl
      refl refl
