-- ===== src/Sinks/Turns.antt =====
-- src/sink_unix.c: what each event does, with one client.
use mathlib.Core.Path.{subst}
use putv.Prelude.{
  ℕ, ◌+◌, ◌^◌, ◌≡◌, inl, inr, Bool-cases, refl, ap, ◌∙◌, sym, arith, Bool, true, false, none, some,
  List, [], ◌∷◌, ◌++◌, leb, ltb, length, take_all, append-[],
}
use putv.Player.{Player}
use putv.Sinks.Unix.{
  Client, Unix, Place, peering, counted, published, Event, peer, publish, acked, join, serve, step,
  sink_peer, sink_publish, sink_acked, client_serve,
}

-- Events of the sink and of the first client, which does not run between `counter++` and the copy, and whose
-- socket takes all bytes.
abbrev pub is_counted : Place → Bool
is_counted peering = false
is_counted (counted b) = true
is_counted (published b) = false

abbrev pub Orderly : Event → Unix → Type 0
Orderly (peer b) ctx = Unit {0}
Orderly publish ctx = Unit {0}
Orderly acked ctx = Unit {0}
Orderly (join busy) ctx = ⊥
Orderly (serve i taken busy) ctx =
    (i ≡ 0) × (taken ≡ some (length ctx.out)) × (is_counted ctx.place ≡ false)

-- Each event of a run is orderly where it happens.
abbrev pub AllOrderly : List Event → Unix → Type 0
AllOrderly [] ctx = Unit {0}
AllOrderly (e ∷ es) ctx =
    Orderly e ctx × ((next : Unix) → step e ctx ≡ some next → AllOrderly es next)

-- The bytes that the client has, and those that the sink has given back: the client is one buffer ahead between
-- its turn and the end of the wait.
abbrev pub Level : Place → ℕ → List ℕ → Bool → List ℕ → Client → Type 0
Level peering counter out ack popped c = (c.counter ≡ counter) × (ack ≡ false) × (c.sent ≡ popped)
Level (counted b) counter out ack popped c =
    (c.counter + 1 ≡ counter) × (ack ≡ false) × (c.sent ≡ popped)
Level (published b) counter out true popped c =
    (c.counter ≡ counter) × (out ≡ b) × (c.sent ≡ popped ++ b)
Level (published b) counter out false popped c =
    (c.counter + 1 ≡ counter) × (out ≡ b) × (c.sent ≡ popped)

pub record Together (ctx : Unix) : Type 0 where
  pub client : Client
  pub alone : ctx.clients ≡ client ∷ []
  pub level : Level ctx.place ctx.counter ctx.out ctx.ackstate ctx.popped client

module _ (counter : ℕ) (out : List ℕ) (ackstate : Bool) (player : Player) (popped : List ℕ)
    (c : Client) where
  abbrev pub at : Place → Unix
  at place = record {
    place = place;
    counter = counter;
    out = out;
    ackstate = ackstate;
    clients = c ∷ [];
    player = player;
    popped = popped;
  }

  peer-Together :
      (b : List ℕ) (place : Place) (next : Unix)
      → Level place counter out ackstate popped c
      → sink_peer b (at place) ≡ some next
      → Together next
  unfolding sink_peer
  peer-Together b peering next l e = elim (Bool-cases (ltb (counter + 1) (2 ^ 31))) [
    | inl fits ↦
        let after : Unix = record (at peering) { place = counted b; counter = counter + 1 } in
        let both : some after ≡ some next = (rw fits at e) in
        let same : after ≡ next = cc in
        subst Together same
          (record { client = c; alone = refl; level = (omega (arith, l.0), l.1, l.2) })
    | inr over ↦ let stuck : none ≡ some next = (rw over at e) in absurd cc
  ]
  peer-Together b (counted a) next l e = absurd cc
  peer-Together b (published a) next l e = absurd cc

  publish-Together :
      (place : Place) (next : Unix)
      → Level place counter out ackstate popped c
      → sink_publish (at place) ≡ some next
      → Together next
  unfolding sink_publish
  publish-Together peering next l e = absurd cc
  publish-Together (counted b) next l e =
      let same : record (at (counted b)) { place = published b; out = b } ≡ next = cc in
      let level : Level (published b) counter b ackstate popped c = rw l.1 (l.0, refl, l.2) in
      subst Together same (record { client = c; alone = refl; level = level })
  publish-Together (published a) next l e = absurd cc

-- The wait ends once the client has set `ackstate`.
acked-Together :
    (counter : ℕ) (out : List ℕ) (ackstate : Bool) (player : Player) (popped : List ℕ) (c : Client)
    (place : Place) (next : Unix)
    → Level place counter out ackstate popped c
    → sink_acked (at counter out ackstate player popped c place) ≡ some next
    → Together next
unfolding sink_acked
acked-Together counter out ackstate player popped c peering next l e = absurd cc
acked-Together counter out ackstate player popped c (counted b) next l e = absurd cc
acked-Together counter out false player popped c (published b) next l e = absurd cc
acked-Together counter out true player popped c (published b) next l e =
    let same : record (at counter out true player popped c (published b)) {
      place = peering;
      ackstate = false;
      popped = popped ++ b;
    }
        ≡ next =
      cc in
    subst Together same (record { client = c; alone = refl; level = (l.0, refl, l.2) })

pub sends :
    (counter : ℕ) (out : List ℕ) (ackstate : Bool) (player : Player) (popped : List ℕ) (c : Client)
    (place : Place) (busy : Bool)
    → leb counter c.counter ≡ false
    → client_serve 0 (some (length out)) busy (at counter out ackstate player popped c place)
      ≡ some (record (at counter out true player popped c place) {
        clients = record { counter = counter; sent = c.sent ++ out } ∷ [];
      })
unfolding client_serve
sends counter [] ackstate player popped c place busy go =
    rw (client_serve, go, append-[] c.sent) refl
sends counter (x ∷ out) ackstate player popped c place busy go =
    let some_bytes : ltb 0 (length (x ∷ out)) ≡ true = ground arith in
    rw (client_serve, go, some_bytes, take_all out) refl

-- The client waits, or sends what was copied.
serve-Together :
    (counter : ℕ) (out : List ℕ) (ackstate : Bool) (player : Player) (popped : List ℕ) (c : Client)
    (place : Place) (busy : Bool) (next : Unix)
    → Level place counter out ackstate popped c
    → is_counted place ≡ false
    → client_serve 0 (some (length out)) busy (at counter out ackstate player popped c place)
      ≡ some next
    → Together next
unfolding client_serve
serve-Together counter out ackstate player popped c peering busy next l orderly e =
    let waits : leb counter c.counter ≡ true = ground (arith, l.0) in
    let none_sent : none ≡ some next = (rw waits at e) in absurd cc
serve-Together counter out ackstate player popped c (counted b) busy next l orderly e = absurd cc
serve-Together counter out true player popped c (published b) busy next l orderly e =
    let waits : leb counter c.counter ≡ true = ground (arith, l.0) in
    let none_sent : none ≡ some next = (rw waits at e) in absurd cc
serve-Together counter out false player popped c (published b) busy next l orderly e =
    let go : leb counter c.counter ≡ false = ground (arith, l.0) in
    let after : Unix = record (at counter out true player popped c (published b)) {
      clients = record { counter = counter; sent = c.sent ++ out } ∷ [];
    } in
    let both : some after ≡ some next =
      sym (sends counter out false player popped c (published b) busy go) ∙ e in
    let same : after ≡ next = cc in
    subst Together same (record {
      client = record { counter = counter; sent = c.sent ++ out };
      alone = refl;
      level = (refl, l.1, rw (l.1, l.2) refl);
    })

event-Together :
    (counter : ℕ) (out : List ℕ) (ackstate : Bool) (player : Player) (popped : List ℕ) (c : Client)
    (place : Place) (e : Event) (next : Unix)
    → Level place counter out ackstate popped c
    → Orderly e (at counter out ackstate player popped c place)
    → step e (at counter out ackstate player popped c place) ≡ some next
    → Together next
unfolding step
event-Together counter out ackstate player popped c place (peer b) next l o h =
    peer-Together counter out ackstate player popped c b place next l h
event-Together counter out ackstate player popped c place publish next l o h =
    publish-Together counter out ackstate player popped c place next l h
event-Together counter out ackstate player popped c place acked next l o h =
    acked-Together counter out ackstate player popped c place next l h
event-Together counter out ackstate player popped c place (join busy) next l o h = absurd o
event-Together counter out ackstate player popped c place (serve i taken busy) next l o h =
    let ctx = at counter out ackstate player popped c place in
    serve-Together counter out ackstate player popped c place busy next l o.2 (
      ap (λ j. client_serve j (some (length out)) busy ctx) (sym o.0)
      ∙ ap (λ n. client_serve i n busy ctx) (sym o.1)
      ∙ h)

pub step-Together :
    (e : Event) (ctx next : Unix)
    → Together ctx
    → Orderly e ctx
    → step e ctx ≡ some next
    → Together next
step-Together e ctx next t o h =
    let same : ctx ≡ at ctx.counter ctx.out ctx.ackstate ctx.player ctx.popped t.client ctx.place =
      ap (λ cs. record ctx { clients = cs }) t.alone in
    event-Together ctx.counter ctx.out ctx.ackstate ctx.player ctx.popped t.client ctx.place e next
      t.level (subst (Orderly e) same o) (ap (step e) (sym same) ∙ h)
