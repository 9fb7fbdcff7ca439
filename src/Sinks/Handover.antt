-- ===== src/Sinks/Handover.antt =====
-- src/sink_unix.c: how buffers get from the sink's thread to one client.
use mathlib.Core.Path.{subst}
use putv.Prelude.{
  ℕ, ◌+◌, ◌^◌, ◌<◌, ltb, ◌≡◌, refl, ap, ◌∙◌, arith, inl, inr, Bool, true, false, none, some, List,
  [], ◌∷◌, ◌++◌, leb, length, Option-cases,
}
use putv.Player.{Player}
use putv.Sinks.Unix.{
  Client, Unix, peering, counted, Event, peer, publish, acked, serve, run, step, sink_peer,
  sink_publish, sink_acked, client_serve,
}
use putv.Sinks.Turns.{AllOrderly, Together, at, sends, step-Together}

-- Over any interleaving of the sink's thread with one client that does not run between `counter++` and the copy
-- and takes what it is sent, the client has the bytes of the buffers that were given back, in order, and of the
-- buffer that it is about to acknowledge.
pub each_once :
    (es : List Event) (ctx last : Unix)
    → Together ctx
    → AllOrderly es ctx
    → run es ctx ≡ some last
    → Together last
unfolding run
each_once [] ctx last t all h = let same : ctx ≡ last = cc in subst Together same t
each_once (e ∷ es) ctx last t all h = elim (Option-cases (step e ctx)) [
  | inl n ↦ let stuck : none ≡ some last = (rw (run, n) at h) in absurd cc
  | inr (next, n) ↦
      each_once es next last (step-Together e ctx next t all.0 n) (all.1 next n) (rw (run, n) at h)
]

raced :
    (counter : ℕ) (out : List ℕ) (ackstate : Bool) (player : Player) (popped : List ℕ) (c : Client)
    (b : List ℕ) (busy : Bool)
    → counter + 1 < 2 ^ 31
    → c.counter ≡ counter
    → run
        (peer b ∷ serve 0 (some (length out)) busy ∷ publish ∷ acked ∷ [])
        (at counter out ackstate player popped c peering)
      ≡ some (record (at counter out ackstate player popped c peering) {
        counter = counter + 1;
        out = b;
        ackstate = false;
        popped = popped ++ b;
        clients = record { counter = counter + 1; sent = c.sent ++ out } ∷ [];
      })
unfolding run step sink_peer sink_publish sink_acked
raced counter out ackstate player popped c b busy few level =
    let fits : ltb (counter + 1) (2 ^ 31) ≡ true = ground (arith, few) in
    let go : leb (counter + 1) c.counter ≡ false = ground (arith, level) in
    rw (run, fits, sends (counter + 1) out ackstate player popped c (counted b) busy go) refl

-- Before the counter overflows: a client that runs between `counter++` and the copy sends the buffer before once more and acknowledges
-- that: the sink gives the new buffer back, and the client, which has not sent it, waits for the next.
pub old_buffer_again :
    (ctx : Unix) (c : Client) (b : List ℕ) (busy : Bool)
    → ctx.counter + 1 < 2 ^ 31
    → ctx.place ≡ peering
    → ctx.clients ≡ c ∷ []
    → c.counter ≡ ctx.counter
    → (last : Unix) × (run
          (peer b ∷ serve 0 (some (length ctx.out)) busy ∷ publish ∷ acked ∷ [])
          ctx
        ≡ some last)
      × (last.place ≡ peering)
      × (last.popped ≡ ctx.popped ++ b)
      × (last.clients ≡ record { counter = ctx.counter + 1; sent = c.sent ++ ctx.out } ∷ [])
      × (client_serve 0 (some (length b)) busy last ≡ none)
unfolding client_serve
old_buffer_again ctx c b busy few idle one level =
    let start = at ctx.counter ctx.out ctx.ackstate ctx.player ctx.popped c peering in
    let same : ctx ≡ start =
      ap (λ cs. record ctx { clients = cs }) one
      ∙ ap (λ p. record ctx { clients = c ∷ []; place = p }) idle in
    let waits : leb (ctx.counter + 1) (ctx.counter + 1) ≡ true = ground arith in
    (
      record start {
        counter = ctx.counter + 1;
        out = b;
        ackstate = false;
        popped = ctx.popped ++ b;
        clients = record { counter = ctx.counter + 1; sent = c.sent ++ ctx.out } ∷ [];
      },
      ap (run (peer b ∷ serve 0 (some (length ctx.out)) busy ∷ publish ∷ acked ∷ [])) same
          ∙ raced ctx.counter ctx.out ctx.ackstate ctx.player ctx.popped c b busy few level,
      refl,
      refl,
      refl,
      rw (client_serve, waits) refl,
    )
