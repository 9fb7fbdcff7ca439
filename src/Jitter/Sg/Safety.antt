-- ===== src/Jitter/Sg/Safety.antt =====
-- The ring that is created, the memory of its buffers, and a pop by a consumer that holds none.
use putv.Prelude.{
  ℕ, zero, suc, ◌+◌, ◌-◌, ◌*◌, ◌^◌, ◌≤◌, ◌<◌, ◌≡◌, ◌≢◌, ◌⊎◌, refl, ap, inl, inr, Bool, true, arith,
  List, some, get_or, length, length-set, get_or-set, get_or-set_self, ltb, Bool-cases,
}
use putv.Jitter.Ctx.{Ctx, waits}
use putv.Jitter.Sg.Defs.{
  Sg, Scatter, blank, free, pull, pop, ready, scatter, out_scatter, set_out, jitter_pop, link,
  fresh, jitter_scattergather_init,
}
use putv.Jitter.Sg.Wait.{peer_check}
use putv.Jitter.Sg.Valid.{IsValid, slot}
use putv.Jitter.Sg.Retag.{out_filled}

length-link : (size i n : ℕ) → length (link size i n) ≡ n
unfolding link
length-link size i zero = refl
length-link size i (suc n) = ap suc (length-link size (i + 1) n)

link_at :
    (size i n k : ℕ)
    → k < n
    → get_or (link size i n) k blank ≡ record blank { data_at = (i + k) * size; next = i + k + 1 }
unfolding link
link_at size i zero k h = elim h [ ]
link_at size i (suc n) zero h = let same : i + 0 ≡ i = omega arith in rw same
link_at size i (suc n) (suc k) h =
    let same : i + suc k ≡ i + 1 + k = omega arith in
    rw same (link_at size (i + 1) n k (omega arith))

pub fresh-IsValid :
    (ctx : Ctx) → 0 < ctx.count → ctx.count < 2 ^ 32 → IsValid ctx (fresh ctx.count ctx.size)
unfolding fresh
fresh-IsValid ctx some_count small = record {
  sized = rw (length-set, length-link ctx.size 0 ctx.count);
  small = small;
  in_lt = some_count;
  out_lt = some_count;
  level_le = omega arith;
  in_eq = ground arith;
  linked = λ i h. ground (
    arith,
    get_or-set sg last i x blank,
    length-link ctx.size 0 ctx.count,
    link_at ctx.size 0 ctx.count i h,
  );
  placed = λ i h. ground (
    arith,
    get_or-set sg last i x blank,
    length-link ctx.size 0 ctx.count,
    link_at ctx.size 0 ctx.count i h,
  );
  filled = λ k h. absurd (omega arith);
  spare = λ k h hk. ground (
    arith,
    get_or-set sg last (slot ctx.count 0 k) x blank,
    length-link ctx.size 0 ctx.count,
    link_at ctx.size 0 ctx.count k hk,
    link_at ctx.size 0 ctx.count last (omega arith),
  );
}
  where
    sg : List Scatter
    sg = link ctx.size 0 ctx.count

    last : ℕ
    last = ctx.count - 1

    x : Scatter
    x = record (get_or sg last blank) { next = 0 }

-- A jitter of at least one buffer, whose memory can be allocated, is created as a valid ring that is
-- empty.
pub init-IsValid :
    (ctx : Ctx)
    → 0 < ctx.count
    → ctx.count < 2 ^ 32
    → (s : Sg) × (jitter_scattergather_init ctx.count ctx.size true true ≡ some s)
      × IsValid ctx s
      × (s.level ≡ 0)
      × (s.in_at ≡ s.out_at)
unfolding jitter_scattergather_init
init-IsValid ctx some_count small =
    (fresh ctx.count ctx.size, refl, fresh-IsValid ctx some_count small, refl, refl)

-- Blocks of one size do not overlap.
block_le : (size i j : ℕ) → i < j → i * size + size ≤ j * size
block_le size i j h = grind arith

module _ (ctx : Ctx) (s : Sg) (v : IsValid ctx s) where
  -- In a valid ring, a buffer that the producer holds and one that the consumer holds do not share
  -- memory, and both lie inside the allocation.
  pub buffers_disjoint :
      (i j : ℕ)
      → i < ctx.count
      → j < ctx.count
      → (scatter s i).state ≡ pull
      → (scatter s j).state ≡ pop
      → (((scatter s i).data_at + ctx.size ≤ (scatter s j).data_at)
          ⊎ ((scatter s j).data_at + ctx.size ≤ (scatter s i).data_at))
        × ((scatter s i).data_at + ctx.size ≤ ctx.count * ctx.size)
        × ((scatter s j).data_at + ctx.size ≤ ctx.count * ctx.size)
  buffers_disjoint i j hi hj p q = elim (Bool-cases (ltb i j)) [
    | inl e ↦ ground (
      arith,
      v.placed i,
      v.placed j,
      block_le ctx.size i j,
      block_le ctx.size i ctx.count,
      block_le ctx.size j ctx.count,
    )
    | inr e ↦ ground (
      arith,
      v.placed i,
      v.placed j,
      block_le ctx.size j i,
      block_le ctx.size i ctx.count,
      block_le ctx.size j ctx.count,
    )
  ]

  pop_unheld :
      (len : ℕ) → len ≢ 0 → (out_scatter s).state ≡ ready → jitter_pop ctx len s ≡ set_out free s
  unfolding jitter_pop
  pop_unheld len h r = ground arith

  -- A consumer that pops without holding a buffer, while one is ready, marks it free and leaves it in
  -- the count: the level stays above 0 and the next `jitter_peer` waits.
  pub pop_unheld_blocks :
      (len : ℕ) (want : Bool)
      → len ≢ 0
      → (out_scatter s).state ≡ ready
      → (0 < (jitter_pop ctx len s).level)
        × (peer_check ctx want (jitter_pop ctx len s) ≡ waits (jitter_pop ctx len s))
  unfolding peer_check
  pop_unheld_blocks len want h r =
      let out =
        get_or-set_self s.sg s.out_at (record (out_scatter s) { state = free }) blank
          (omega (arith, v.sized, v.out_lt)) in
      rw (pop_unheld len h r) (out_filled ctx s v (inl r), ground (arith, out))
