-- ===== src/Jitter/Sg/Tests.antt =====
-- src/jitter_sg.c: runs on a ring of two buffers, and the theorems at them.
use putv.Prelude.{◌≡◌, refl, inl, true, false, arith, List, [], ◌∷◌, ◌++◌}
use putv.Jitter.Ctx.{Ctx}
use putv.Jitter.Sg.Defs.{
  Sg, link, fresh, init_state, out_scatter, jitter_push, push_fill, push_signal, jitter_pop,
  pop_release,
}
use putv.Jitter.Sg.Wait.{
  jitter_pull_channel, pull_enter, pull_resume, peer_take, peer_check, peer_resume, peer_enter,
  jitter_peer, jitter_peer_channel,
}
use putv.Jitter.Sg.Valid.{IsValid}
use putv.Jitter.Sg.Queue.{queue}
use putv.Jitter.Sg.Peers.{Delivers, jitter_peer-Delivers}
use putv.Jitter.Sg.Safety.{fresh-IsValid}
use putv.Jitter.Sg.Moves.{Op, pulls, pushes, peers, pops}
use putv.Jitter.Sg.History.{run, all_accepted, all_released, history}

abbrev two : Ctx
two = record {
  count = 2;
  size = 4;
  thredhold = 1;
  consume = false;
  produce = false;
  heartbeat = false;
}

-- A buffer of three bytes goes through, and a second one is on its way.
abbrev script : List Op
script = pulls 0 ∷ pushes 3 0 ∷ peers false [] ∷ pulls 0 ∷ pops 3 ∷ pushes 4 0 ∷ []

abbrev created : Sg
created = fresh 2 4

-- The consumer has the first buffer, the producer the second.
abbrev both : Sg
both = run two (pulls 0 ∷ pushes 3 0 ∷ peers false [] ∷ pulls 0 ∷ []) created

-- The first buffer is ready, and nobody holds it.
abbrev one_ready : Sg
one_ready = run two (pulls 0 ∷ pushes 3 0 ∷ []) created

created-IsValid : IsValid two created
created-IsValid = fresh-IsValid two (omega arith) (omega arith)

history_example :
    IsValid two (run two script created)
    × (queue two created ++ all_accepted two script created
        ≡ all_released two script created ++ queue two (run two script created))
unfolding fresh link jitter_pull_channel pull_enter pull_resume init_state jitter_push push_fill
    push_signal jitter_peer jitter_peer_channel peer_enter peer_check peer_take jitter_pop
    pop_release
history_example =
    history two script created refl created-IsValid
      (tt, (tt, (tt, (tt, (inl (refl, λ e. cc), (tt, tt))))))

one_ready-IsValid : IsValid two one_ready
unfolding fresh link jitter_pull_channel pull_enter pull_resume init_state jitter_push push_fill
    push_signal
one_ready-IsValid =
    (history two (pulls 0 ∷ pushes 3 0 ∷ []) created refl created-IsValid (tt, (tt, tt))).0

-- What went in and came out of the whole run, by address, length and channel.
passes_in_order :
    (all_accepted two script created ≡ (0, 3, 0) ∷ (4, 4, 0) ∷ [])
    × (all_released two script created ≡ (0, 3, 0) ∷ [])
    × (queue two (run two script created) ≡ (4, 4, 0) ∷ [])
unfolding fresh link jitter_pull_channel pull_enter pull_resume init_state jitter_push push_fill
    push_signal jitter_peer jitter_peer_channel peer_enter peer_check peer_take jitter_pop
    pop_release
passes_in_order = (refl, refl, refl)

jitter_peer-Delivers_example :
    Delivers two one_ready (jitter_peer two true [] one_ready)
    × Delivers two one_ready (peer_resume two (out_scatter one_ready).channel true one_ready)
jitter_peer-Delivers_example = jitter_peer-Delivers two true [] one_ready one_ready-IsValid
