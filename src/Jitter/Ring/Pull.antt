-- ===== src/Jitter/Ring/Pull.antt =====
-- The producer's turn: `jitter_pull`, its writes, `jitter_push`.
use putv.Prelude.{ℕ, ◌+◌, ◌*◌, ◌≤◌, ◌<◌, ◌≡◌, arith, false, List, ◌++◌, length, some}
use putv.Prelude.Int.{ℤ}
use putv.Jitter.Ctx.{Ctx, done}
use putv.Jitter.Ring.Defs.{Ring, capacity, jitter_push}
use putv.Jitter.Ring.Wait.{jitter_pull}
use putv.Jitter.Ring.Valid.{IsValid, content}
use putv.Jitter.Ring.Push.{written, next_in, push_appends}

pull_room :
    (ctx : Ctx) (i o : ℕ) (r s : Ring) (a : ℕ)
    → IsValid ctx i o r
    → jitter_pull ctx r ≡ done (some a) s
    → (i ≡ a) × (r ≡ s) × (r.level + ctx.size ≤ capacity ctx)
unfolding jitter_pull
pull_room ctx i o r s a v e = ground (arith, v.in_eq)

-- In a ring whose producer calls no consumer: a producer that pulls an address, writes there at least one byte
-- and as many as a buffer's size at most and pushes them appends them to what the ring holds, which stays
-- valid: `jitter_pull` gives the address only where there is room for them. They lie inside the allocated memory, of two buffers more than the ring has.
pub pull_push :
    (ctx : Ctx) (i o a : ℕ) (r s : Ring) (bytes : List ℕ) (answer : ℕ → ℤ)
    → IsValid ctx i o r
    → ctx.consume ≡ false
    → jitter_pull ctx r ≡ done (some a) s
    → 0 < length bytes
    → length bytes ≤ ctx.size
    → let t = jitter_push ctx answer (length bytes) (written a bytes s) in
      IsValid ctx (next_in ctx a (length bytes)) o t
      × (content ctx o t ≡ content ctx o r ++ bytes)
      × (a + length bytes ≤ (ctx.count + 2) * ctx.size)
pull_push ctx i o a r s bytes answer v c e some_bytes small =
    let (at, same, room) = pull_room ctx i o r s a v e in
    let w = push_appends ctx i o r v bytes small (omega arith) answer c some_bytes in
    rw (← same, ← at) (w.0, w.1, omega (arith, v.in_lt))
