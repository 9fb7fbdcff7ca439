-- ===== src/Jitter/Sg/Queue.antt =====
-- What the ring holds, oldest first: the abstract view that the theorems on order speak of.
use putv.Prelude.{
  ℕ, zero, suc, ◌+◌, ◌-◌, ◌≤◌, ◌<◌, ◌≡◌, ◌≢◌, refl, ap, arith, List, [], ◌∷◌, ◌++◌, length, get_or,
  set, get_or-set, get_or-set_ne,
}
use putv.Jitter.Ctx.{Ctx}
use putv.Jitter.Sg.Defs.{Sg, Scatter, blank}
use putv.Jitter.Sg.Valid.{slot}

-- A buffer's address, the length that was pushed and its channel.
abbrev pub Item : Type 0
Item = ℕ × ℕ × ℕ

abbrev pub item : Scatter → Item
item x = (x.data_at, x.len, x.channel)

-- The `m` buffers from the `k`th place after `out` on, in a ring of `n`.
abbrev pub queue_from : List Scatter → ℕ → ℕ → ℕ → ℕ → List Item
queue_from sg n out k zero = []
queue_from sg n out k (suc m) =
    item (get_or sg (slot n out k) blank) ∷ queue_from sg n out (suc k) m

abbrev pub queue : Ctx → Sg → List Item
queue ctx s = queue_from s.sg ctx.count s.out_at 0 s.level

module _ (sg : List Scatter) (n out : ℕ) where
  -- A write elsewhere leaves the queue.
  pub queue-set_ne :
      (j : ℕ) (x : Scatter) (k m : ℕ)
      → ((i : ℕ) → k ≤ i → i < k + m → j ≢ slot n out i)
      → queue_from (set sg j x) n out k m ≡ queue_from sg n out k m
  queue-set_ne j x k zero h = refl
  queue-set_ne j x k (suc m) h = rw (
    get_or-set_ne sg j (slot n out k) x blank (h k (omega arith) (omega arith)),
    queue-set_ne j x (suc k) m (λ i a b. h i (omega arith) (omega arith)),
  )

  -- So does a write that keeps a buffer's item.
  pub queue-set_kept :
      (j : ℕ) (x : Scatter) (k m : ℕ)
      → j < length sg
      → item x ≡ item (get_or sg j blank)
      → queue_from (set sg j x) n out k m ≡ queue_from sg n out k m
  queue-set_kept j x k zero hj e = refl
  queue-set_kept j x k (suc m) hj e =
      ground (arith, get_or-set sg j (slot n out k) x blank hj, queue-set_kept j x (suc k) m hj e)

  pub queue-end :
      (k m : ℕ)
      → queue_from sg n out k (suc m)
        ≡ queue_from sg n out k m ++ (item (get_or sg (slot n out (k + m)) blank) ∷ [])
  queue-end k zero = let same : k + 0 ≡ k = omega arith in rw same
  queue-end k (suc m) =
      let next : k + suc m ≡ suc k + m = omega arith in
      rw next (ap (λ q. item (get_or sg (slot n out k) blank) ∷ q) (queue-end (suc k) m))

  pub queue-shift :
      (k m : ℕ)
      → out < n
      → k + m ≤ n
      → queue_from sg n (slot n out 1) k m ≡ queue_from sg n out (suc k) m
  queue-shift k zero h hk = refl
  queue-shift k (suc m) h hk =
      let there : slot n (slot n out 1) k ≡ slot n out (suc k) = ground arith in
      rw (there, queue-shift (suc k) m h (omega arith))

  pub queue-pos :
      (k m : ℕ)
      → 0 < m
      → queue_from sg n out k m
        ≡ item (get_or sg (slot n out k) blank) ∷ queue_from sg n out (suc k) (m - 1)
  queue-pos k zero h = elim h [ ]
  queue-pos k (suc m) h = let back : suc m - 1 ≡ m = omega arith in rw back
