-- ===== src/Jitter/Ring/Peer.antt =====
-- `jitter_peer` gives the oldest bytes in one piece, and `jitter_pop` takes them out.
use putv.Prelude.{
  ℕ, ◌+◌, ◌-◌, ◌≤◌, ◌<◌, ◌≡◌, ◌≢◌, refl, sym, ap, ◌∙◌, arith, Bool-cases, lt→ltb, true, false, ◌||◌,
  inl, inr, List, ltb, if◌then◌else◌, some, take,
}
use putv.Jitter.Ctx.{Ctx, done, waits}
use putv.Jitter.Ring.Defs.{Ring, stop, is_filling, buffer_start, buffer_end, memcpy}
use putv.Jitter.Ring.Wait.{peer_join, peer_check, peer_produce, jitter_peer}
use putv.Jitter.Ring.Valid.{IsValid, wrap, collect, collect_ext, take-collect, content}
use putv.Jitter.Ring.Push.{memcpy_in, memcpy_out}

-- The offset of `out` once the last bytes are joined to the first.
abbrev pub joined : Ctx → ℕ → ℕ
joined ctx o =
    if ltb (buffer_end ctx) (o + ctx.size) then buffer_start ctx - (buffer_end ctx - o) else o

peer_cases :
    (ctx : Ctx) (replies : List (List ℕ)) (r : Ring) (i at : ℕ)
    → ctx.produce ≡ false
    → (peer_join ctx r).out_at ≡ some at
    → (peer_join ctx r).in_at ≡ some i
    → (peer_join ctx r).state ≢ stop
    → jitter_peer ctx replies r ≡ (
        if is_filling (peer_join ctx r).state || (peer_join ctx r).pause
        then waits (peer_join ctx r)
        else done (some at) (peer_join ctx r))
unfolding jitter_peer peer_produce peer_check
peer_cases ctx replies r i at p e inside live = rw p (ground arith)

module _ (ctx : Ctx) (i o : ℕ) (r : Ring) (v : IsValid ctx i o r) where
  joins :
      ltb (buffer_end ctx) (o + ctx.size) ≡ true
      → peer_join ctx r ≡ record r {
        memory = memcpy (buffer_start ctx - (buffer_end ctx - o)) o (buffer_end ctx - o) r.memory;
        out_at = some (buffer_start ctx - (buffer_end ctx - o));
      }
  unfolding peer_join
  joins e = rw (v.out_eq, e) refl

  joins_not : ltb (buffer_end ctx) (o + ctx.size) ≡ false → peer_join ctx r ≡ r
  unfolding peer_join
  joins_not e = rw (v.out_eq, e) refl

  -- Where a buffer's worth of bytes is held, the move keeps the ring valid, and the next bytes are in
  -- one piece after it.
  join-IsValid :
      ctx.size ≤ r.level
      → IsValid ctx i (joined ctx o) (peer_join ctx r) × (joined ctx o + ctx.size ≤ buffer_end ctx)
  join-IsValid full = elim (Bool-cases (ltb (buffer_end ctx) (o + ctx.size))) [
    | inl e ↦
        rw (joins e, e)
          (
            record {
              in_eq = v.in_eq;
              out_eq = refl;
              some_size = v.some_size;
              some_count = v.some_count;
              in_ge = v.in_ge;
              in_lt = v.in_lt;
              out_le = ground (arith, v.some_count);
              level_le = v.level_le;
              in_wrap =
                  ground
                    (arith, v.in_wrap, v.in_ge, v.in_lt, v.out_le, v.some_count, v.level_le, full);
            },
            ground (arith, v.some_count),
          )
    | inr e ↦ rw (joins_not e, e) (v, ground arith)
  ]

  join_byte :
      (k : ℕ)
      → k < r.level
      → (peer_join ctx r).memory (wrap ctx (joined ctx o + k)) ≡ r.memory (wrap ctx (o + k))
  join_byte k h = elim (Bool-cases (ltb (buffer_end ctx) (o + ctx.size))) [
    | inl e ↦
        let far = buffer_end ctx - o in
        let inside : ltb (buffer_start ctx - far + k) (buffer_end ctx) ≡ true =
          ground (arith, v.level_le, v.some_count) in
        elim (Bool-cases (ltb k far)) [
          | inl f ↦
              let there : o + (buffer_start ctx - far + k - (buffer_start ctx - far))
                  ≡ wrap ctx (o + k) =
                ground arith in
              rw (joins e, e, inside)
                (memcpy_in (buffer_start ctx - far) o far r.memory (buffer_start ctx - far + k)
                    (omega arith) (ground arith)
                  ∙ ap r.memory there)
          | inr f ↦
              let there : buffer_start ctx - far + k ≡ wrap ctx (o + k) =
                ground (arith, v.out_le) in
              rw (joins e, e, inside)
                (memcpy_out (buffer_start ctx - far) o far r.memory (buffer_start ctx - far + k)
                    (ground arith)
                  ∙ ap r.memory there)
        ]
    | inr e ↦ rw (joins_not e, e) refl
  ]

  join_state : r.state ≡ (peer_join ctx r).state
  unfolding peer_join
  join_state = ground (arith, v.out_eq)

  join_pause : r.pause ≡ (peer_join ctx r).pause
  unfolding peer_join
  join_pause = ground (arith, v.out_eq)

  unwrapped : (a : ℕ) → a < buffer_end ctx → a ≡ wrap ctx a
  unwrapped a h = ground arith

  join_level : (peer_join ctx r).level ≡ r.level
  unfolding peer_join
  join_level = ground (arith, v.out_eq)

  content-peer_join : content ctx (joined ctx o) (peer_join ctx r) ≡ content ctx o r
  content-peer_join =
      rw
        (
          join_level,
          collect_ext r.level (λ k. (peer_join ctx r).memory (wrap ctx (joined ctx o + k)))
              (λ k. r.memory (wrap ctx (o + k))) join_byte,
        )
        refl

  -- Where the move is made while the bytes held end before the end of the memory, what it leaves is no
  -- valid ring: the producer's next bytes will not follow those that are held.
  pub join_splits :
      (i' o' : ℕ)
      → buffer_end ctx < o + ctx.size
      → o + r.level < buffer_end ctx
      → ¬ IsValid ctx i' o' (peer_join ctx r)
  join_splits i' o' near short w =
      let e : ltb (buffer_end ctx) (o + ctx.size) ≡ true =
        lt→ltb (buffer_end ctx) (o + ctx.size) near in
      let w' = rw (joins e) at w in
      ground (arith, v.in_eq, v.in_wrap, w'.in_eq, w'.out_eq, w'.in_wrap, v.in_ge, v.some_count)

  -- A buffer's worth of bytes from the returned address are the oldest ones.
  in_one_piece :
      ctx.size ≤ r.level
      → collect ctx.size (λ k. (peer_join ctx r).memory (joined ctx o + k))
        ≡ take ctx.size (content ctx o r)
  in_one_piece full =
      let inside = (join-IsValid full).1 in
      collect_ext ctx.size (λ k. (peer_join ctx r).memory (joined ctx o + k))
        (λ k. r.memory (wrap ctx (o + k)))
        (λ k h.
          ap (peer_join ctx r).memory (unwrapped (joined ctx o + k) (omega (arith, inside)))
          ∙ join_byte k (omega arith))
      ∙ sym (take-collect ctx.size r.level (λ k. r.memory (wrap ctx (o + k))) full)

  -- While a buffer's worth of bytes is held, the jitter is not stopped and the producer has its own thread,
  -- `jitter_peer` keeps the ring valid and the bytes that it holds. It waits where the jitter is filling or
  -- paused; else it returns an address from which the oldest bytes, as many as a buffer's size, stand in one
  -- piece.
  pub jitter_peer_lem :
      (replies : List (List ℕ))
      → ctx.produce ≡ false
      → ctx.size ≤ r.level
      → r.state ≢ stop
      → let s = peer_join ctx r in
        let at = joined ctx o in
        IsValid ctx i at s
        × (content ctx at s ≡ content ctx o r)
        × (collect ctx.size (λ k. s.memory (at + k)) ≡ take ctx.size (content ctx o r))
        × (jitter_peer ctx replies r
            ≡ (if is_filling r.state || r.pause then waits s else done (some at) s))
  jitter_peer_lem replies p full live =
      let w = (join-IsValid full).0 in
      let s = peer_join ctx r in
      (
        w,
        content-peer_join,
        in_one_piece full,
        peer_cases ctx replies r i (joined ctx o) p w.out_eq w.in_eq (λ e. live (join_state ∙ e))
            ∙ ap (λ st. if is_filling st || s.pause then waits s else done (some (joined ctx o)) s)
                (sym join_state)
            ∙ ap (λ b. if is_filling r.state || b then waits s else done (some (joined ctx o)) s)
                (sym join_pause),
      )
