-- ===== src/Jitter/Sg/Moves.antt =====
-- The calls of a producer, a consumer and a controller, and what each moves in and out of the queue.
use putv.Prelude.{
  ℕ, ◌≡◌, refl, sym, ◌∙◌, inl, inr, Bool, Bool-cases, true, false, not, ◌&&◌, arith, ◌==◌,
  if◌then◌else◌, none, some, List, [], ◌∷◌, ◌++◌,
}
use putv.Jitter.Ctx.{Ctx, Call, done, waits, deadlock, after}
use mathlib.Core.List.{append-nil}
use putv.Prelude.Int.{ℤ}
use putv.Jitter.Sg.Defs.{
  Sg, Scatter, free, pull, ready, is_pull, is_pop, in_scatter, out_scatter, push_fill, push_signal,
  set_in, jitter_push, jitter_pop, complete, flush, jitter_pause, jitter_flush,
}
use putv.Jitter.Sg.Wait.{jitter_pull_channel, pull_resume, peer_resume, jitter_peer, Peered}
use putv.Jitter.Sg.Valid.{IsValid, level_lt}
use putv.Jitter.Sg.Queue.{Item, item, queue, queue-set_kept}
use putv.Jitter.Sg.Push.{push_fill-IsValid}
use putv.Jitter.Sg.Pop.{MayPop, pop-IsValid, pop_taken, pop_late}
use putv.Jitter.Sg.Fifo.{queue-push_fill, queue-pop_release}
use putv.Jitter.Sg.Retag.{state-IsValid, out_filled}
use putv.Jitter.Sg.Calls.{
  Keeps, Keeps-trans, pull-Keeps, pull_resume-Keeps, set_in-Keeps, set_out-Keeps, state-Keeps,
}
use putv.Jitter.Sg.Peers.{
  Delivers, jitter_peer-Delivers, peer_check-Delivers, peer_resume-own, push_idle,
}

-- The calls of the threads, with what a producer's callback answers. A `wakes` is one more turn of a
-- call that waits.
pub data Op : Type 0 where
  pulls : ℕ → Op
  pull_wakes : ℕ → Op
  pushes : ℕ → ℕ → Op
  peers : Bool → List ℤ → Op
  peer_wakes : Bool → Op
  pops : ℕ → Op
  flushes : Op
  pauses : Bool → Op

abbrev pub step : Ctx → Op → Sg → Sg
step ctx (pulls channel) s = after (jitter_pull_channel ctx channel s) s
step ctx (pull_wakes channel) s = after (pull_resume channel s) s
step ctx (pushes len beat) s = jitter_push ctx [] len beat s
step ctx (peers want rs) s = after (jitter_peer ctx want rs s) s
step ctx (peer_wakes want) s = after (peer_resume ctx 0 want s) s
step ctx (pops len) s = jitter_pop ctx len s
step ctx flushes s = jitter_flush s
step ctx (pauses enable) s = jitter_pause ctx enable s

-- What a call hands over to the jitter: a buffer that was pulled, with some data.
abbrev pub accepted : Op → Sg → List Item
accepted (pushes len beat) s =
    if is_pull (in_scatter s).state && not (len == 0)
    then ((in_scatter s).data_at, len, (in_scatter s).channel) ∷ []
    else []
accepted _ s = []

-- What a call takes out of it for good.
abbrev pub released : Op → Sg → List Item
released (pops len) s =
    if is_pop (out_scatter s).state && not (len == 0) then item (out_scatter s) ∷ [] else []
released _ s = []

-- Only a consumer that holds a buffer pops, and a consumer in `jitter_peer` wakes to a buffer of its channel,
-- which is 0: for a buffer of another channel the code pops what nobody has taken.
abbrev pub MayStep : Op → Sg → Type 0
MayStep (pops len) s = MayPop len s
MayStep (peer_wakes want) s = (out_scatter s).channel ≡ 0
MayStep _ s = Unit {0}

pub record Moves (ctx : Ctx) (o : Op) (s : Sg) : Type 0 where
  pub valid : IsValid ctx (step ctx o s)
  pub moved : queue ctx s ++ accepted o s ≡ released o s ++ queue ctx (step ctx o s)

Keeps-Moves : (ctx : Ctx) (s t : Sg) → Keeps ctx s t → queue ctx s ++ [] ≡ queue ctx t
Keeps-Moves ctx s t k = append-nil (queue ctx s) ∙ sym k.same

Delivers-Keeps :
    (ctx : Ctx) (s t : Sg) (c : Call Peered Sg) → Delivers ctx s c → Keeps ctx s (after c t)
Delivers-Keeps ctx s t (waits u) d = d
Delivers-Keeps ctx s t (done none u) d = d
Delivers-Keeps ctx s t (done (some (a, b)) u) d = d.0
Delivers-Keeps ctx s t deadlock d = absurd d

push_signal_lem :
    (ctx : Ctx) (s : Sg) → push_signal ctx s ≡ record s { state = (push_signal ctx s).state }
unfolding push_signal
push_signal_lem ctx s = ground arith

push_signal-Keeps : (ctx : Ctx) (s : Sg) → IsValid ctx s → Keeps ctx s (push_signal ctx s)
push_signal-Keeps ctx s v =
    rw (push_signal_lem ctx s) (state-Keeps ctx s v (push_signal ctx s).state s.pause s.nbchannels)

flush_lem : (s : Sg) → jitter_flush s ≡ record s { state = flush }
unfolding jitter_flush
flush_lem s = ground arith

pause_lem :
    (ctx : Ctx) (b : Bool) (s : Sg)
    → jitter_pause ctx b s ≡ record s { state = (jitter_pause ctx b s).state; pause = b }
unfolding jitter_pause
pause_lem ctx b s = ground arith

-- The three ways of `jitter_push`.
push_empty :
    (ctx : Ctx) (len beat : ℕ) (s : Sg)
    → (in_scatter s).state ≡ pull
    → (len == 0) ≡ true
    → jitter_push ctx [] len beat s ≡ push_signal ctx (record (set_in free s) { state = complete })
unfolding jitter_push
push_empty ctx len beat s p e = rw (p, e)

push_some :
    (ctx : Ctx) (len beat : ℕ) (s : Sg)
    → ctx.consume ≡ false
    → (in_scatter s).state ≡ pull
    → (len == 0) ≡ false
    → jitter_push ctx [] len beat s ≡ push_signal ctx (push_fill len beat s)
unfolding jitter_push
push_some ctx len beat s c p e = rw (p, e, c)

module _ (ctx : Ctx) (s : Sg) (v : IsValid ctx s) (c : ctx.consume ≡ false) where
  push-Moves : (len beat : ℕ) → Moves ctx (pushes len beat) s
  push-Moves len beat = elim (Bool-cases (is_pull (in_scatter s).state)) [
    | inr e ↦
        let idle = push_idle ctx [] len beat s (λ p. ground arith) in
        record { valid = rw idle v; moved = rw (e, idle) (append-nil (queue ctx s)) }
    | inl e ↦
        let p : (in_scatter s).state ≡ pull = ground arith in
        elim (Bool-cases (len == 0)) [
          | inl z ↦
              let x : Scatter = record (in_scatter s) { state = free } in
              let k =
                set_in-Keeps ctx s v x (level_lt ctx s v (λ h. ground arith) (λ h. ground arith))
                  refl refl (inl refl) in
              let s' : Sg = record (set_in free s) { state = complete } in
              let l = state-Keeps ctx (set_in free s) k.valid complete s.pause s.nbchannels in
              let n =
                Keeps-trans ctx s s' _ (Keeps-trans ctx s (set_in free s) s' k l)
                  (push_signal-Keeps ctx s' l.valid) in
              record {
                valid = rw (push_empty ctx len beat s p z) n.valid;
                moved = rw (push_empty ctx len beat s p z, e, z) (Keeps-Moves ctx s _ n);
              }
          | inr z ↦
              let u : Sg = push_fill len beat s in
              let k = push_signal-Keeps ctx u (push_fill-IsValid ctx s v p len beat) in
              record {
                valid = rw (push_some ctx len beat s c p z) k.valid;
                moved =
                    rw (push_some ctx len beat s c p z, e, z)
                      (sym (k.same ∙ queue-push_fill ctx s v len beat p));
              }
        ]
  ]

  pop-Moves : (len : ℕ) → MayPop len s → Moves ctx (pops len) s
  pop-Moves len m = record { valid = pop-IsValid ctx len s v m; moved = pop_moved m }
    where
      pop_moved :
          MayPop len s
          → queue ctx s ++ accepted (pops len) s
            ≡ released (pops len) s ++ queue ctx (jitter_pop ctx len s)
      pop_moved (inl (taken, live)) = elim (Bool-cases (len == 0)) [
        | inl z ↦
            let k =
              set_out-Keeps ctx s v (record (out_scatter s) { state = ready })
                (out_filled ctx s v (inr taken)) refl refl (inl refl) in
            rw (pop_taken ctx len s taken live, taken, z) (Keeps-Moves ctx s _ k)
        | inr z ↦
            rw (pop_taken ctx len s taken live, taken, z)
              (append-nil (queue ctx s)
                ∙ queue-pop_release ctx s v (out_filled ctx s v (inr taken)))
      ]
      pop_moved (inr (none_left, some_len)) =
          let untaken : is_pop (out_scatter s).state ≡ false = ground (arith, v.spare 0) in
          rw (pop_late ctx len s v none_left some_len, untaken)
            (append-nil (queue ctx s)
              ∙ sym (
                  queue-set_kept s.sg ctx.count s.out_at s.out_at
                    (record (out_scatter s) { state = free }) 0 s.level
                    (omega (arith, v.sized, v.out_lt)) refl))

  pub step-Moves : (o : Op) → MayStep o s → Moves ctx o s
  step-Moves (pulls channel) m =
      let k = pull-Keeps ctx channel s v in
      record { valid = k.valid; moved = Keeps-Moves ctx s _ k }
  step-Moves (pull_wakes channel) m =
      let k = pull_resume-Keeps ctx channel s v in
      record { valid = k.valid; moved = Keeps-Moves ctx s _ k }
  step-Moves (pushes len beat) m = push-Moves len beat
  step-Moves (peers want rs) m =
      let k = Delivers-Keeps ctx s s _ (jitter_peer-Delivers ctx want rs s v).0 in
      record { valid = k.valid; moved = Keeps-Moves ctx s _ k }
  step-Moves (peer_wakes want) m =
      let k = Delivers-Keeps ctx s s _ (peer_check-Delivers ctx want s v) in
      let own = peer_resume-own ctx 0 want s m in
      record { valid = rw own k.valid; moved = rw own (Keeps-Moves ctx s _ k) }
  step-Moves (pops len) m = pop-Moves len m
  step-Moves flushes m = record {
    valid = rw (flush_lem s) (state-IsValid ctx s flush s.pause s.nbchannels v);
    moved = rw (flush_lem s) (append-nil (queue ctx s));
  }
  step-Moves (pauses b) m = record {
    valid =
        rw (pause_lem ctx b s) (state-IsValid ctx s (jitter_pause ctx b s).state b s.nbchannels v);
    moved = rw (pause_lem ctx b s) (append-nil (queue ctx s));
  }
