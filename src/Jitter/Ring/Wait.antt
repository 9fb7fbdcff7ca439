-- ===== src/Jitter/Ring/Wait.antt =====
-- src/jitter_ring.c: `jitter_pull` and `jitter_peer`, which may wait on a condition.
use putv.Prelude.{
  ℕ, suc, ◌+◌, ◌-◌, ◌*◌, Bool, true, false, not, ◌&&◌, ◌||◌, List, [], ◌∷◌, Option, none, some, ltb,
  leb, if◌then◌else◌, length,
}
use putv.Prelude.Int.{pos}
use putv.Jitter.Ctx.{Ctx, Call, done, waits}
use putv.Jitter.Ring.Defs.{
  Ring, running, is_stop, is_filling, is_running, is_flush, buffer_start, buffer_end, capacity,
  memcpy, write, jitter_push,
}

abbrev is_null : Option ℕ → Bool
is_null none = true
is_null (some a) = false

-- A turn of the loop of `jitter_pull`, and what follows it.
unfoldable pub jitter_pull : Ctx → Ring → Call (Option ℕ) Ring
jitter_pull ctx r =
    if not (is_null r.in_at) && ltb (capacity ctx) (r.level + ctx.size) && not (is_flush r.state)
    then waits r
    else if (is_running r.state || is_filling r.state) && leb (r.level + ctx.size) (capacity ctx)
    then done r.in_at r
    else done none r

-- The producer's bytes, at the address that `jitter_peer` gives it.
abbrev produced : List ℕ → Ring → Ring
produced bytes r = elim r.in_at [
  | none ↦ r
  | some at ↦ record r { memory = write at bytes r.memory }
]

-- The loop over `jitter->produce`: the bytes of its calls in order, none of them at the end. `false`
-- is the return of NULL. No source sets `consume` and `produce` of one jitter.
pub produce_loop : Ctx → List (List ℕ) → Ring → Ring × Bool
produce_loop ctx [] r = (r, false)
produce_loop ctx ([] ∷ bs) r = (r, false)
produce_loop ctx ((b ∷ bytes) ∷ bs) r =
    let r' = jitter_push ctx (λ n. pos 0) (suc (length bytes)) (produced (b ∷ bytes) r) in
    let again = produce_loop ctx bs r' in if is_filling r'.state then again else (r', true)

-- The part of `jitter_peer` for a producer in the consumer's thread.
unfoldable pub peer_produce : Ctx → List (List ℕ) → Ring → Ring × Bool
unfolding produce_loop
peer_produce ctx replies r =
    if not ctx.produce
    then (r, true)
    else if leb r.level ((ctx.count - 1) * ctx.size)
    then produce_loop ctx replies r
    else (record r { state = running }, true)

-- The last bytes before `bufferend` are moved before `bufferstart`.
unfoldable pub peer_join : Ctx → Ring → Ring
peer_join ctx r = elim r.out_at [
  | none ↦ r
  | some at ↦
      if ltb (buffer_end ctx) (at + ctx.size)
      then record r {
        memory =
            memcpy (buffer_start ctx - (buffer_end ctx - at)) at (buffer_end ctx - at) r.memory;
        out_at = some (buffer_start ctx - (buffer_end ctx - at));
      }
      else r
]

-- A turn of the waiting loop, and what follows it: the address, or NULL.
unfoldable pub peer_check : Ctx → Ring → Call (Option ℕ) Ring
peer_check ctx r =
    if is_filling r.state && not (is_null r.in_at) && not ctx.produce || r.pause
    then waits r
    else if is_stop r.state
    then done none (record r { out_at = none })
    else done r.out_at r

abbrev then_check : Ctx → Ring × Bool → Call (Option ℕ) Ring
then_check ctx (r, true) = peer_check ctx (peer_join ctx r)
then_check ctx (r, false) = done none r

unfoldable pub jitter_peer : Ctx → List (List ℕ) → Ring → Call (Option ℕ) Ring
unfolding peer_produce peer_join peer_check
jitter_peer ctx replies r = then_check ctx (peer_produce ctx replies r)
