-- ===== src/Jitter/Sg/Retag.antt =====
-- Steps that change what a buffer is, and leave the places of `in` and `out`.
use putv.Prelude.{ℕ, ◌≤◌, ◌<◌, ◌≡◌, ◌⊎◌, sym, arith, Bool, length-set, get_or-set, set}
use putv.Jitter.Ctx.{Ctx}
use putv.Jitter.Sg.Defs.{Sg, Scatter, JitterState, ready, pop, blank, scatter, out_scatter}
use putv.Jitter.Sg.Valid.{IsValid, IsFilled, IsSpare, slot, slot-zero, linked-set, placed-set}

-- The fields that the invariant does not speak of.
pub state-IsValid :
    (ctx : Ctx) (s : Sg) (st : JitterState) (b : Bool) (n : ℕ)
    → IsValid ctx s
    → IsValid ctx (record s { state = st; pause = b; nbchannels = n })
state-IsValid ctx s st b n v = record {
  sized = v.sized;
  small = v.small;
  in_lt = v.in_lt;
  out_lt = v.out_lt;
  level_le = v.level_le;
  in_eq = v.in_eq;
  linked = v.linked;
  placed = v.placed;
  filled = v.filled;
  spare = v.spare;
}

module _ (ctx : Ctx) (s : Sg) (v : IsValid ctx s) where
  -- A buffer may be written over by one that fits its place and has its link.
  pub retag :
      (k j : ℕ) (x : Scatter)
      → j ≡ slot ctx.count s.out_at k
      → k < ctx.count
      → x.next ≡ (scatter s j).next
      → x.data_at ≡ (scatter s j).data_at
      → (k < s.level → IsFilled k x.state)
      → (s.level ≤ k → IsSpare k s.level x.state)
      → IsValid ctx (record s { sg = set s.sg j x })
  retag k j x ej hk e d fits spares = record {
    sized = ground (arith, length-set s.sg j x, v.sized);
    small = v.small;
    in_lt = v.in_lt;
    out_lt = v.out_lt;
    level_le = v.level_le;
    in_eq = v.in_eq;
    linked = linked-set ctx s v j x (ground arith) e;
    placed = placed-set ctx s v j x (ground arith) d;
    filled = λ i h.
        ground (arith, v.filled i, v.sized, get_or-set s.sg j (slot ctx.count s.out_at i) x blank);
    spare = λ i h hi.
        ground (arith, v.spare i, v.sized, get_or-set s.sg j (slot ctx.count s.out_at i) x blank);
  }

  -- The buffer at `out` holds data exactly when the ring is not empty.
  pub out_filled : ((out_scatter s).state ≡ ready) ⊎ ((out_scatter s).state ≡ pop) → 0 < s.level
  out_filled h = ground (arith, v.spare 0)

  pub retag_out :
      (x : Scatter)
      → x.next ≡ (out_scatter s).next
      → x.data_at ≡ (out_scatter s).data_at
      → (0 < s.level → IsFilled 0 x.state)
      → (s.level ≤ 0 → IsSpare 0 s.level x.state)
      → IsValid ctx (record s { sg = set s.sg s.out_at x })
  retag_out x e d fits spares =
      retag 0 s.out_at x (sym (slot-zero ctx.count s.out_at v.out_lt)) (ground arith) e d fits
        spares

  pub retag_in :
      (x : Scatter)
      → s.level < ctx.count
      → x.next ≡ (scatter s s.in_at).next
      → x.data_at ≡ (scatter s s.in_at).data_at
      → IsSpare s.level s.level x.state
      → IsValid ctx (record s { sg = set s.sg s.in_at x })
  retag_in x hl e d spares =
      retag s.level s.in_at x v.in_eq hl e d (λ h. absurd (omega arith)) (λ h. spares)
