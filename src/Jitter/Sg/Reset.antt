-- ===== src/Jitter/Sg/Reset.antt =====
-- `jitter_reset` empties the ring, from any state of it.
use putv.Prelude.{
  ℕ, zero, suc, ◌+◌, ◌-◌, ◌*◌, ◌^◌, ◌≤◌, ◌<◌, ◌≡◌, refl, inl, inr, Bool-cases, arith, ltb,
  if◌then◌else◌, List, length, length-set, get_or-set, get_or,
}
use putv.Jitter.Ctx.{Ctx}
use putv.Jitter.Sg.Defs.{
  Sg, Scatter, free, blank, scatter, in_scatter, set_in, free_all, reset_stop, reset_restart,
  jitter_reset, jitter_flush, stop, filling, is_flush, jitter_flush,
}
use putv.Jitter.Sg.Valid.{IsValid, slot, slot-zero}

-- What the walk round the ring needs, and keeps: the links and the addresses.
record IsRing (ctx : Ctx) (sg : List Scatter) : Type 0 where
  sized : length sg ≡ ctx.count
  linked : (i : ℕ) → i < ctx.count → (get_or sg i blank).next ≡ slot ctx.count i 1
  placed : (i : ℕ) → i < ctx.count → (get_or sg i blank).data_at ≡ i * ctx.size

-- The state after one turn of the loop.
abbrev turn : Sg → Sg
turn s = record (set_in free s) { in_at = (in_scatter s).next }

module _ (ctx : Ctx) where
  turn-IsRing : (s : Sg) → s.in_at < ctx.count → IsRing ctx s.sg → IsRing ctx (turn s).sg
  turn-IsRing s h r = record {
    sized =
        ground (arith, r.sized, length-set s.sg s.in_at (record (in_scatter s) { state = free }));
    linked = λ i hi. ground (
      arith,
      r.sized,
      r.linked i,
      get_or-set s.sg s.in_at i (record (in_scatter s) { state = free }) blank,
    );
    placed = λ i hi. ground (
      arith,
      r.sized,
      r.placed i,
      get_or-set s.sg s.in_at i (record (in_scatter s) { state = free }) blank,
    );
  }

  turn-free :
      (s : Sg) (i : ℕ)
      → s.in_at < ctx.count
      → IsRing ctx s.sg
      → (scatter s i).state ≡ free
      → (scatter (turn s) i).state ≡ free
  turn-free s i h r e =
      ground
        (arith, r.sized, get_or-set s.sg s.in_at i (record (in_scatter s) { state = free }) blank)

  turn-in :
      (s : Sg) → s.in_at < ctx.count → IsRing ctx s.sg → (scatter (turn s) s.in_at).state ≡ free
  turn-in s h r = ground (
    arith,
    r.sized,
    get_or-set s.sg s.in_at s.in_at (record (in_scatter s) { state = free }) blank,
  )

  free_all-IsRing :
      (n : ℕ) (s : Sg) → s.in_at < ctx.count → IsRing ctx s.sg → IsRing ctx (free_all n s).sg
  unfolding free_all
  free_all-IsRing zero s h r = r
  free_all-IsRing (suc n) s h r =
      free_all-IsRing n (turn s) (ground (arith, r.linked s.in_at)) (turn-IsRing s h r)

  free_all-free :
      (n : ℕ) (s : Sg) (i : ℕ)
      → s.in_at < ctx.count
      → IsRing ctx s.sg
      → (scatter s i).state ≡ free
      → (scatter (free_all n s) i).state ≡ free
  unfolding free_all
  free_all-free zero s i h r e = e
  free_all-free (suc n) s i h r e =
      free_all-free n (turn s) i (ground (arith, r.linked s.in_at)) (turn-IsRing s h r)
        (turn-free s i h r e)

  -- The walk frees the buffers that it passes.
  free_all-slot :
      (n : ℕ) (s : Sg) (j : ℕ)
      → s.in_at < ctx.count
      → n ≤ ctx.count
      → IsRing ctx s.sg
      → j < n
      → (scatter (free_all n s) (slot ctx.count s.in_at j)).state ≡ free
  unfolding free_all
  free_all-slot zero s j h hn r hj = absurd (omega arith)
  free_all-slot (suc n) s zero h hn r hj = rw (slot-zero ctx.count s.in_at h) (
      free_all-free n (turn s) s.in_at (ground (arith, r.linked s.in_at)) (turn-IsRing s h r)
        (turn-in s h r))
  free_all-slot (suc n) s (suc j) h hn r hj =
      let next : slot ctx.count s.in_at (suc j) ≡ slot ctx.count (in_scatter s).next j =
        ground (arith, r.linked s.in_at) in
      rw next (
        free_all-slot n (turn s) j (ground (arith, r.linked s.in_at)) (omega arith)
          (turn-IsRing s h r) (omega arith))

  -- After as many turns as there are buffers, all are free.
  free_all-all :
      (s : Sg) (i : ℕ)
      → s.in_at < ctx.count
      → IsRing ctx s.sg
      → i < ctx.count
      → (scatter (free_all ctx.count s) i).state ≡ free
  free_all-all s i h r hi =
      let back : ℕ = if ltb i s.in_at then i + ctx.count - s.in_at else i - s.in_at in
      let there : i ≡ slot ctx.count s.in_at back = ground arith in
      rw there (free_all-slot ctx.count s back h (omega arith) r (ground arith))

  free_ring :
      (s : Sg)
      → IsRing ctx s.sg
      → ctx.count < 2 ^ 32
      → 0 < ctx.count
      → ((i : ℕ) → i < ctx.count → (scatter s i).state ≡ free)
      → IsValid ctx (reset_restart s)
  unfolding reset_restart
  free_ring s r small pos all = record {
    sized = r.sized;
    small = small;
    in_lt = pos;
    out_lt = pos;
    level_le = omega arith;
    in_eq = ground arith;
    linked = r.linked;
    placed = r.placed;
    filled = λ k h. absurd (omega arith);
    spare = λ k h hk. inl (all (slot ctx.count 0 k) (ground arith));
  }

  -- The flush at its start leaves no trace.
  reset_as_walk :
      (s : Sg) → jitter_reset ctx s ≡ reset_restart (free_all ctx.count (record s { state = stop }))
  unfolding jitter_reset reset_stop jitter_flush
  reset_as_walk s = elim (Bool-cases (is_flush s.state)) [ inl e ↦ rw e | inr e ↦ rw e ]

  -- From any valid state, a reset gives a valid ring that is empty and filling, with every buffer
  -- free, whoever held it.
  pub reset_lem :
      (s : Sg) (i : ℕ)
      → IsValid ctx s
      → i < ctx.count
      → IsValid ctx (jitter_reset ctx s)
        × ((jitter_reset ctx s).level ≡ 0)
        × ((jitter_reset ctx s).state ≡ filling)
        × ((scatter (jitter_reset ctx s) i).state ≡ free)
  unfolding reset_restart
  reset_lem s i v hi =
      let r : IsRing ctx s.sg = record { sized = v.sized; linked = v.linked; placed = v.placed } in
      let s₀ : Sg = record s { state = stop } in
      rw (reset_as_walk s) (
        free_ring (free_all ctx.count s₀) (free_all-IsRing ctx.count s₀ v.in_lt r) v.small
            (omega (arith, v.in_lt)) (λ i hi. free_all-all s₀ i v.in_lt r hi),
        refl,
        refl,
        free_all-all s₀ i v.in_lt r hi,
      )
