-- ===== src/Jitter/Sg/Valid.antt =====
-- The invariant of the ring of buffers, and the index arithmetic behind it.
use putv.Prelude.{
  ℕ, ◌+◌, ◌-◌, ◌*◌, ◌^◌, ◌≤◌, ◌<◌, ◌≡◌, ◌≢◌, ◌⊎◌, inl, inr, Bool-cases, ltb→lt, arith, length,
  get_or, set, ltb, if◌then◌else◌, get_or-set,
}
use putv.Jitter.Ctx.{Ctx}
use putv.Jitter.Sg.Defs.{ScatterState, Scatter, Sg, free, pull, pop, ready, blank, scatter}

-- The index `k` places after `i` in a ring of `n`.
abbrev pub slot : ℕ → ℕ → ℕ → ℕ
slot n i k = if ltb (i + k) n then i + k else i + k - n

abbrev pub IsFilled : ℕ → ScatterState → Type 0
IsFilled k x = (x ≡ ready) ⊎ ((k ≡ 0) × (x ≡ pop))

abbrev pub IsSpare : ℕ → ℕ → ScatterState → Type 0
IsSpare k level x = (x ≡ free) ⊎ ((k ≡ level) × (x ≡ pull))

pub record IsValid (ctx : Ctx) (s : Sg) : Type 0 where
  pub sized : length s.sg ≡ ctx.count
  pub small : ctx.count < 2 ^ 32
  pub in_lt : s.in_at < ctx.count
  pub out_lt : s.out_at < ctx.count
  pub level_le : s.level ≤ ctx.count
  pub in_eq : s.in_at ≡ slot ctx.count s.out_at s.level
  pub linked : (i : ℕ) → i < ctx.count → (scatter s i).next ≡ slot ctx.count i 1
  pub placed : (i : ℕ) → i < ctx.count → (scatter s i).data_at ≡ i * ctx.size
  pub filled : (k : ℕ) → k < s.level → IsFilled k (scatter s (slot ctx.count s.out_at k)).state
  pub spare :
      (k : ℕ)
      → s.level ≤ k
      → k < ctx.count
      → IsSpare k s.level (scatter s (slot ctx.count s.out_at k)).state

-- The first place is the start itself.
pub slot-zero : (n i : ℕ) → i < n → slot n i 0 ≡ i
slot-zero n i h = ground arith

module _ (ctx : Ctx) (s : Sg) (v : IsValid ctx s) where
  -- The ring is not full where the buffer at `in` is not filled.
  pub level_lt :
      ((scatter s s.in_at).state ≢ ready) → ((scatter s s.in_at).state ≢ pop) → s.level < ctx.count
  level_lt nr np = elim (Bool-cases (ltb s.level ctx.count)) [
    | inl e ↦ ltb→lt _ _ e
    | inr e ↦
        let wraps : s.in_at ≡ slot ctx.count s.out_at 0 = ground arith in
        elim (rw (← wraps) at (v.filled 0 (ground arith))) [
          | inl p ↦ absurd (nr p)
          | inr q ↦ absurd (np q.1)
        ]
  ]

  -- Writing a buffer leaves the links, if it keeps its own.
  pub linked-set :
      (j : ℕ) (x : Scatter)
      → j < ctx.count
      → x.next ≡ (scatter s j).next
      → (i : ℕ) → i < ctx.count
      → (get_or (set s.sg j x) i blank).next ≡ slot ctx.count i 1
  linked-set j x hj e i hi = ground (arith, get_or-set s.sg j i x blank, v.linked i, v.sized)

  -- So with the addresses of the data.
  pub placed-set :
      (j : ℕ) (x : Scatter)
      → j < ctx.count
      → x.data_at ≡ (scatter s j).data_at
      → (i : ℕ) → i < ctx.count
      → (get_or (set s.sg j x) i blank).data_at ≡ i * ctx.size
  placed-set j x hj e i hi = ground (arith, get_or-set s.sg j i x blank, v.placed i, v.sized)
