-- ===== src/Jitter/Sg/Pop.antt =====
-- `jitter_pop` keeps the invariant, for the consumer that `jitter_peer` gave a buffer.
use putv.Prelude.{
  ℕ, ◌+◌, ◌-◌, ◌%◌, ◌^◌, ◌<◌, ◌≡◌, ◌≢◌, ◌⊎◌, inl, inr, arith, Bool-cases, ◌==◌, if◌then◌else◌,
  get_or-set, length-set, refl, set, ◌≤◌,
}
use putv.Jitter.Ctx.{Ctx}
use putv.Jitter.Sg.Defs.{
  Sg, Scatter, JitterState, stop, free, pop, ready, blank, out_scatter, jitter_pop, pop_release,
  set_out, ScatterState,
}
use putv.Jitter.Sg.Valid.{IsValid, slot, linked-set, placed-set}
use putv.Jitter.Sg.Retag.{retag_out, out_filled}

-- The consumer may release a buffer: it holds one, or the ring is empty (after a reset).
abbrev pub MayPop : ℕ → Sg → Type 0
MayPop len s = ((out_scatter s).state ≡ pop) × (s.state ≢ stop) ⊎ (s.level ≡ 0) × (len ≢ 0)

module _ (ctx : Ctx) (s : Sg) (v : IsValid ctx s) (st : JitterState) (x : Scatter) where
  -- The buffer at `out` is given back, and `out` follows its link.
  pub release-IsValid :
      0 < s.level
      → x.state ≡ free
      → x.next ≡ (out_scatter s).next
      → x.data_at ≡ (out_scatter s).data_at
      → IsValid ctx (record s {
        sg = set s.sg s.out_at x;
        level = s.level - 1;
        out_at = (out_scatter s).next;
        state = st;
      })
  release-IsValid pos xf e d = record {
    sized = ground (arith, length-set s.sg s.out_at x, v.sized);
    small = v.small;
    in_lt = v.in_lt;
    out_lt = ground (arith, v.linked s.out_at v.out_lt);
    level_le = ground (arith, v.level_le);
    in_eq = ground (arith, v.linked s.out_at v.out_lt, v.in_eq);
    linked = linked-set ctx s v s.out_at x v.out_lt e;
    placed = placed-set ctx s v s.out_at x v.out_lt d;
    filled = λ k h. ground (
      arith,
      v.filled (k + 1),
      v.sized,
      v.linked s.out_at v.out_lt,
      get_or-set s.sg s.out_at (slot ctx.count (out_scatter s).next k) x blank,
    );
    spare = λ k h hk. ground (
      arith,
      v.spare (k + 1),
      v.sized,
      v.linked s.out_at v.out_lt,
      get_or-set s.sg s.out_at (slot ctx.count (out_scatter s).next k) x blank,
    );
  }

pub pop_release-IsValid :
    (ctx : Ctx) (s : Sg) → IsValid ctx s → 0 < s.level → IsValid ctx (pop_release ctx s)
unfolding pop_release
pop_release-IsValid ctx s v pos =
    let down : (s.level + 2 ^ 32 - 1) % 2 ^ 32 ≡ s.level - 1 = omega (arith, v.level_le, v.small) in
    rw down (release-IsValid ctx s v _ (record (out_scatter s) { state = free }) pos refl refl refl)

-- A buffer at `out` of an empty ring, or one that is filled, may be relabelled.
set_out-IsValid :
    (ctx : Ctx) (s : Sg) (x : ScatterState)
    → IsValid ctx s
    → (0 < s.level → (x ≡ ready) ⊎ (x ≡ pop))
    → (s.level ≤ 0 → x ≡ free)
    → IsValid ctx (set_out x s)
set_out-IsValid ctx s x v a b =
    retag_out ctx s v (record (out_scatter s) { state = x }) refl refl (λ h. ground (arith, a h))
      (λ h. ground (arith, b h))

-- A consumer that holds a buffer gives it back, or keeps it ready if it took nothing.
pub pop_taken :
    (ctx : Ctx) (len : ℕ) (s : Sg)
    → (out_scatter s).state ≡ pop
    → s.state ≢ stop
    → jitter_pop ctx len s ≡ (if len == 0 then set_out ready s else pop_release ctx s)
unfolding jitter_pop
pop_taken ctx len s taken live = ground arith

-- A consumer whose buffer a reset took away changes nothing but a label.
pub pop_late :
    (ctx : Ctx) (len : ℕ) (s : Sg)
    → IsValid ctx s
    → s.level ≡ 0
    → len ≢ 0
    → jitter_pop ctx len s ≡ set_out free s
unfolding jitter_pop
pop_late ctx len s v none_left some_len = ground (arith, v.spare 0)

-- `jitter_pop` keeps the invariant.
pub pop-IsValid :
    (ctx : Ctx) (len : ℕ) (s : Sg)
    → IsValid ctx s
    → MayPop len s
    → IsValid ctx (jitter_pop ctx len s)
pop-IsValid ctx len s v (inl (taken, live)) =
    let pos : 0 < s.level = out_filled ctx s v (inr taken) in
    rw (pop_taken ctx len s taken live) (elim (Bool-cases (len == 0)) [
      | inl e ↦ rw e (set_out-IsValid ctx s ready v (λ h. inl refl) (λ h. absurd (omega arith)))
      | inr e ↦ rw e (pop_release-IsValid ctx s v pos)
    ])
pop-IsValid ctx len s v (inr (none_left, some_len)) =
    rw (pop_late ctx len s v none_left some_len)
      (set_out-IsValid ctx s free v (λ h. absurd (omega arith)) (λ h. refl))
