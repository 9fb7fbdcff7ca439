-- ===== src/Demuxes/Tests.antt =====
-- src/demux_passthrough.c: the theorem at a listener that adds another one.
use putv.Prelude.{ℕ, ◌≡◌, refl, arith, none, some, List, [], ◌∷◌, ◌++◌}
use putv.Media.Mime.{audiomp3}
use putv.Demuxes.Passthrough.{
  Listener, listener, nil, cons, Demux, demux_run, run_loop, new_es, decode_es,
}
use putv.Demuxes.Notify.{total, size, once, times, told, demux_run_lem}

abbrev player : Listener
player = listener 1 (some 7) (cons (listener 2 none nil) nil)

abbrev ctx : Demux
ctx = record { mime = audiomp3; estream = none; listeners = player ∷ []; calls = [] }

demux_run_lem_example :
    (all : List Listener) × (demux_run 3 ctx
      ≡ some (record ctx { listeners = all; calls = [] ++ told audiomp3 none all }))
    × ((n : ℕ) → total (once n) all ≡ total (times n) (player ∷ []))
unfolding size
demux_run_lem_example = demux_run_lem 3 ctx (omega arith)

told_both :
    demux_run 3 ctx
    ≡ some (record ctx {
      listeners = player ∷ (listener 2 none nil ∷ []);
      calls =
          new_es 1 audiomp3
          ∷ (decode_es 1 (some 7) ∷ (new_es 2 audiomp3 ∷ (decode_es 2 (some 7) ∷ [])));
    })
unfolding demux_run run_loop
told_both = refl
