-- ===== src/Sinks/Unix.antt =====
-- src/sink_unix.c as built with SINK_UNIX_ASYNC and SINK_UNIX_WAITCLIENT: the sink's thread and a thread for
-- each client. An event is what one thread does up to its next lock, wait or call of the jitter, so that a
-- list of events is an interleaving of the threads.
use putv.Prelude.{
  ℕ, zero, suc, ◌+◌, ◌^◌, Bool, true, false, Option, none, some, List, [], ◌∷◌, ◌++◌, ◌==◌, leb,
  ltb, if◌then◌else◌, length, take,
}
use putv.Player.{Player, stop, play, plain, player_state}

-- A thread in `sink_unxiclient`: its `counter`, and the bytes that its socket took.
pub record Client : Type 0 where
  pub counter : ℕ
  pub sent : List ℕ

-- `sink_thread`: before `peer`, behind `counter++` with the buffer that it has, or behind the first broadcast.
pub data Place : Type 0 where
  peering : Place
  counted : List ℕ → Place
  published : List ℕ → Place

-- `sink_ctx_s`: `counter` is an int, `out` has `length` bytes; `popped` are the bytes of the buffers that were given back.
pub record Unix : Type 0 where
  pub place : Place
  pub counter : ℕ
  pub out : List ℕ
  pub ackstate : Bool
  pub clients : List Client
  pub player : Player
  pub popped : List ℕ

pub data Event : Type 0 where
  -- The sink's thread: `peer` gives a buffer; the buffer is copied; the wait for `ack` ends.
  peer : List ℕ → Event
  publish : Event
  acked : Event
  -- A client comes; whether the player's mutex is taken.
  join : Bool → Event
  -- The turn of the loop of a client, by its place: how many bytes `send` takes, or its failure, and whether the
  -- player's mutex is taken.
  serve : ℕ → Option ℕ → Bool → Event

abbrev pub update : ℕ → Client → List Client → List Client
update i c [] = []
update zero c (d ∷ ds) = c ∷ ds
update (suc i) c (d ∷ ds) = d ∷ update i c ds

abbrev pub without : ℕ → List Client → List Client
without i [] = []
without zero (d ∷ ds) = ds
without (suc i) (d ∷ ds) = d ∷ without i ds

abbrev pub client_at : ℕ → List Client → Option Client
client_at i [] = none
client_at zero (d ∷ ds) = some d
client_at (suc i) (d ∷ ds) = client_at i ds

-- `sink_thread`, to the call of `peer` that gives this buffer. `none` where the thread is not there, or
-- `counter++` overflows.
unfoldable pub sink_peer : List ℕ → Unix → Option Unix
sink_peer buff ctx = elim ctx.place [
  | peering ↦
      if ltb (ctx.counter + 1) (2 ^ 31)
      then some (record ctx { place = counted buff; counter = ctx.counter + 1 })
      else none
  | counted b ↦ none
  | published b ↦ none
]

-- The copy under the mutex.
unfoldable pub sink_publish : Unix → Option Unix
sink_publish ctx = elim ctx.place [
  | peering ↦ none
  | counted b ↦ some (record ctx { place = published b; out = b })
  | published b ↦ none
]

-- The end of the wait, and `pop`. `none` while no client has set `ackstate`.
unfoldable pub sink_acked : Unix → Option Unix
sink_acked ctx = elim ctx.place [
  | peering ↦ none
  | counted b ↦ none
  | published b ↦
      if ctx.ackstate
      then some (record ctx { place = peering; ackstate = false; popped = ctx.popped ++ b })
      else none
]

-- MAX_CLIENTS, as defconfig sets it.
abbrev max_clients : ℕ
max_clients = 10

-- `sink_unxiclient`, to its loop.
pub client_join : Bool → Unix → Unix
client_join busy ctx =
    let started =
      if length ctx.clients == 0
      then (player_state busy (plain play) ctx.player).1
      else ctx.player in
    if length ctx.clients == max_clients then record ctx { player = started } else record ctx {
      player = started;
      clients = ctx.clients ++ record { counter = ctx.counter; sent = [] } ∷ [];
    }

-- `sink_unxiclient`, behind the loop.
pub client_leave : ℕ → Bool → Unix → Unix
client_leave i busy ctx =
    let left = without i ctx.clients in
    record ctx {
      clients = left;
      player =
          if length left == 0 then (player_state busy (plain stop) ctx.player).1 else ctx.player;
    }

-- `sink_unxiclient`, a turn of the loop, where the counter was raised: else it waits.
unfoldable pub client_serve : ℕ → Option ℕ → Bool → Unix → Option Unix
unfolding client_leave
client_serve i taken busy ctx = elim (client_at i ctx.clients) [
  | none ↦ none
  | some c ↦
      let kept : Option (List ℕ) =
        if ltb 0 (length ctx.out)
        then elim taken [ none ↦ none | some n ↦ some (c.sent ++ take n ctx.out) ]
        else some c.sent in
      let acked : Unix = record ctx { ackstate = true } in
      if leb ctx.counter c.counter then none else elim kept [
        | none ↦ some (client_leave i busy acked)
        | some sent ↦ some (record acked {
          clients = update i (record { counter = ctx.counter; sent = sent }) ctx.clients;
        })
      ]
]

unfoldable pub step : Event → Unix → Option Unix
unfolding sink_peer sink_publish sink_acked client_join client_serve
step (peer buff) ctx = sink_peer buff ctx
step publish ctx = sink_publish ctx
step acked ctx = sink_acked ctx
step (join busy) ctx = some (client_join busy ctx)
step (serve i taken busy) ctx = client_serve i taken busy ctx

unfoldable pub run : List Event → Unix → Option Unix
unfolding step
run [] ctx = some ctx
run (e ∷ es) ctx = elim (step e ctx) [ none ↦ none | some next ↦ run es next ]
