-- ===== src/Jitter/Ring/Pop.antt =====
-- `jitter_pop` takes the oldest bytes out, and what a consumer in the producer's thread is offered.
use putv.Prelude.{ℕ, ◌+◌, ◌-◌, ◌≤◌, ◌<◌, ◌≡◌, ◌≢◌, refl, sym, ap, ◌∙◌, arith, true, leb, some, drop}
use putv.Prelude.Int.{ℤ, pos}
use putv.Jitter.Ctx.{Ctx}
use putv.Jitter.Ring.Defs.{
  Ring, stop, filling, running, buffer_end, pop_move, jitter_pop, size_max, jitter_push,
}
use putv.Jitter.Ring.Valid.{IsValid, wrap, collect_ext, drop-collect, content}
use putv.Jitter.Ring.Push.{push_store-push_move, push_wraps}

pop_as_move :
    (ctx : Ctx) (n : ℕ) (r : Ring)
    → r.state ≢ filling
    → r.state ≢ stop
    → n ≤ r.level
    → n ≢ size_max
    → jitter_pop ctx n r ≡ some (pop_move ctx n r)
unfolding jitter_pop
pop_as_move ctx n r a b h ne = ground arith

module _ (ctx : Ctx) (i o n : ℕ) (r : Ring) (v : IsValid ctx i o r) where
  pop-IsValid :
      n ≤ r.level
      → o + n ≤ buffer_end ctx
      → o < buffer_end ctx
      → IsValid ctx i (o + n) (pop_move ctx n r)
  unfolding pop_move
  pop-IsValid h end before = record {
    in_eq = v.in_eq;
    out_eq = rw v.out_eq refl;
    some_size = v.some_size;
    some_count = v.some_count;
    in_ge = v.in_ge;
    in_lt = v.in_lt;
    out_le = end;
    level_le = omega (arith, v.level_le);
    in_wrap = ground (arith, v.in_wrap, v.in_ge, v.in_lt, v.some_count, v.level_le);
  }

  content-pop_move : n ≤ r.level → content ctx (o + n) (pop_move ctx n r) ≡ drop n (content ctx o r)
  unfolding pop_move
  content-pop_move h =
      collect_ext (r.level - n) (λ k. r.memory (wrap ctx (o + n + k)))
        (λ k. r.memory (wrap ctx (o + (n + k))))
        (λ k l. ap (λ x. r.memory (wrap ctx x)) (omega arith))
      ∙ sym (drop-collect n r.level (λ k. r.memory (wrap ctx (o + k))) h)

  -- While the ring runs and `out` is before the end of the memory, a pop of bytes that it holds and that end no
  -- later than the memory takes out the oldest ones, and the ring stays valid. Their number is not -1, which
  -- stands for all.
  pub pop_drops :
      r.state ≡ running
      → n ≤ r.level
      → n ≢ size_max
      → o + n ≤ buffer_end ctx
      → o < buffer_end ctx
      → (jitter_pop ctx n r ≡ some (pop_move ctx n r))
        × IsValid ctx i (o + n) (pop_move ctx n r)
        × (content ctx (o + n) (pop_move ctx n r) ≡ drop n (content ctx o r))
  pop_drops live h ne end before = (
    pop_as_move ctx n r (λ e. ground arith) (λ e. ground arith) h ne,
    pop-IsValid h end before,
    content-pop_move h,
  )

-- A consumer that the producer's thread calls is offered no byte where the bytes pushed reach the end of
-- the memory exactly; one that answers 0 to that stops the jitter, with all the bytes still held.
pub push_stops_at_end :
    (ctx : Ctx) (answer : ℕ → ℤ) (n at : ℕ) (r : Ring)
    → ctx.consume ≡ true
    → 0 < n
    → r.in_at ≡ some at
    → at + n ≡ buffer_end ctx
    → answer 0 ≡ pos 0
    → ((jitter_push ctx answer n r).state ≡ stop)
      × ((jitter_push ctx answer n r).level ≡ r.level + n)
unfolding jitter_push
push_stops_at_end ctx answer n at r c some_bytes e end silent =
    let none_left : at + n - buffer_end ctx ≡ 0 = omega arith in
    let wraps : leb (buffer_end ctx) (at + n) ≡ true = ground arith in
    rw
      (
        c,
        push_store-push_move ctx n at r some_bytes e,
        push_wraps ctx n at r wraps,
        none_left,
        silent,
      )
      (refl, refl)
