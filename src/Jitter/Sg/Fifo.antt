-- ===== src/Jitter/Sg/Fifo.antt =====
-- Each call as an operation on the queue of the buffers that are ready.
use putv.Prelude.{
  ℕ, suc, ◌+◌, ◌-◌, ◌^◌, ◌%◌, ◌<◌, ◌≡◌, refl, arith, [], ◌∷◌, ◌++◌, set, get_or-set_self,
}
use putv.Jitter.Ctx.{Ctx}
use putv.Jitter.Sg.Defs.{
  Sg, Scatter, blank, free, pull, in_scatter, out_scatter, filled, push_fill, pop_release,
}
use putv.Jitter.Sg.Valid.{IsValid, slot, slot-zero}
use putv.Jitter.Sg.Queue.{
  item, queue, queue-set_ne, queue-set_kept, queue-end, queue-shift, queue-pos,
}
use putv.Jitter.Sg.Push.{room}

module _ (ctx : Ctx) (s : Sg) (v : IsValid ctx s) where
  -- Filling the buffer at `in` appends it.
  pub queue-push_fill :
      (len beat : ℕ)
      → (in_scatter s).state ≡ pull
      → queue ctx (push_fill len beat s)
        ≡ queue ctx s ++ (((in_scatter s).data_at, len, (in_scatter s).channel) ∷ [])
  unfolding push_fill
  queue-push_fill len beat p =
      let x : Scatter = filled len beat (in_scatter s) in
      let more : (s.level + 1) % 2 ^ 32 ≡ suc s.level = omega (arith, room ctx s v p, v.small) in
      rw
        (
          more,
          queue-end (set s.sg s.in_at x) ctx.count s.out_at 0 s.level,
          queue-set_ne s.sg ctx.count s.out_at s.in_at x 0 s.level
              (λ i a b. ground (arith, room ctx s v p, v.in_eq)),
        )
        (let place : slot ctx.count s.out_at (0 + s.level) ≡ s.in_at = ground (arith, v.in_eq) in
          rw (place, get_or-set_self s.sg s.in_at x blank (omega (arith, v.sized, v.in_lt))))

  -- Giving back the buffer at `out` removes it.
  pub queue-pop_release :
      0 < s.level → queue ctx s ≡ item (out_scatter s) ∷ queue ctx (pop_release ctx s)
  unfolding pop_release
  queue-pop_release pos =
      let x : Scatter = record (out_scatter s) { state = free } in
      let down : (s.level + 2 ^ 32 - 1) % 2 ^ 32 ≡ s.level - 1 =
        omega (arith, v.level_le, v.small) in
      rw (
        down,
        queue-set_kept s.sg ctx.count (out_scatter s).next s.out_at x 0 (s.level - 1)
            (omega (arith, v.sized, v.out_lt)) refl,
        v.linked s.out_at v.out_lt,
        queue-shift s.sg ctx.count s.out_at 0 (s.level - 1) v.out_lt (omega (arith, v.level_le)),
        queue-pos s.sg ctx.count s.out_at 0 s.level pos,
        slot-zero ctx.count s.out_at v.out_lt,
      )
