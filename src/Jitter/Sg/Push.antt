-- ===== src/Jitter/Sg/Push.antt =====
-- `jitter_push` keeps the invariant.
use putv.Prelude.{ℕ, refl, ◌<◌, ◌≡◌, arith, length-set, get_or-set}
use putv.Jitter.Ctx.{Ctx}
use putv.Jitter.Sg.Defs.{Sg, pull, blank, in_scatter, filled, push_fill}
use putv.Jitter.Sg.Valid.{IsValid, slot, level_lt, linked-set, placed-set}

module _ (ctx : Ctx) (s : Sg) (v : IsValid ctx s) (p : (in_scatter s).state ≡ pull) where
  pub room : s.level < ctx.count
  room = level_lt ctx s v (λ e. ground arith) (λ e. ground arith)

  pub push_fill-IsValid : (len beat : ℕ) → IsValid ctx (push_fill len beat s)
  unfolding push_fill
  push_fill-IsValid len beat = record {
    sized = ground (arith, length-set s.sg s.in_at (filled len beat (in_scatter s)), v.sized);
    small = v.small;
    in_lt = ground (arith, v.linked s.in_at v.in_lt);
    out_lt = v.out_lt;
    level_le = ground (arith, room);
    in_eq = ground (arith, room, v.linked s.in_at v.in_lt, v.in_eq, v.small);
    linked = linked-set ctx s v s.in_at (filled len beat (in_scatter s)) v.in_lt refl;
    placed = placed-set ctx s v s.in_at (filled len beat (in_scatter s)) v.in_lt refl;
    filled = λ k h. ground (
      arith,
      room,
      v.small,
      v.in_eq,
      v.filled k,
      get_or-set s.sg s.in_at (slot ctx.count s.out_at k) (filled len beat (in_scatter s)) blank,
    );
    spare = λ k h hk. ground (
      arith,
      room,
      v.small,
      v.in_eq,
      v.spare k,
      get_or-set s.sg s.in_at (slot ctx.count s.out_at k) (filled len beat (in_scatter s)) blank,
    );
  }
