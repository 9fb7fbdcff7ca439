-- ===== src/Jitter/Sg/Calls.antt =====
-- Whole calls of the scatter-gather jitter: they keep the invariant, and what they do to the queue.
-- The jitter has a consumer's thread, so `consume` is not set.
use putv.Prelude.{
  ℕ, ◌+◌, ◌<◌, ◌≡◌, ◌⊎◌, refl, ap, ◌∙◌, inl, inr, Bool, Bool-cases, arith, ltb, if◌then◌else◌, some,
  set,
}
use putv.Jitter.Ctx.{Ctx, done, after}
use putv.Jitter.Sg.Defs.{
  Sg, Scatter, JitterState, free, pull, pop, ready, is_stop, in_scatter, out_scatter, init_state,
  start,
}
use putv.Jitter.Sg.Wait.{jitter_pull_channel, pull_enter, pull_resume, pulled}
use putv.Jitter.Sg.Valid.{IsValid, level_lt}
use putv.Jitter.Sg.Queue.{Item, item, queue, queue-set_kept, queue-set_ne}
use putv.Jitter.Sg.Push.{room}
use putv.Jitter.Sg.Retag.{state-IsValid, retag_in, retag_out}

-- What a step keeps: the invariant, with the queue as it was.
pub record Keeps (ctx : Ctx) (s t : Sg) : Type 0 where
  pub valid : IsValid ctx t
  pub same : queue ctx t ≡ queue ctx s

module _ (ctx : Ctx) (s : Sg) (v : IsValid ctx s) where
  pub state-Keeps :
      (st : JitterState) (b : Bool) (n : ℕ)
      → Keeps ctx s (record s { state = st; pause = b; nbchannels = n })
  state-Keeps st b n = record { valid = state-IsValid ctx s st b n v; same = refl }

  -- A write to the buffer at `in` of a ring that has room is not seen in the queue.
  pub set_in-Keeps :
      (x : Scatter)
      → s.level < ctx.count
      → x.next ≡ (in_scatter s).next
      → x.data_at ≡ (in_scatter s).data_at
      → (x.state ≡ free) ⊎ (x.state ≡ pull)
      → Keeps ctx s (record s { sg = set s.sg s.in_at x })
  set_in-Keeps x room e d f = record {
    valid = retag_in ctx s v x room e d (ground (arith, f));
    same =
        queue-set_ne s.sg ctx.count s.out_at s.in_at x 0 s.level (λ i a b. ground (arith, v.in_eq));
  }

  -- A write to a buffer at `out` that is filled keeps the queue, if it keeps the item.
  pub set_out-Keeps :
      (x : Scatter)
      → 0 < s.level
      → x.next ≡ (out_scatter s).next
      → item x ≡ item (out_scatter s)
      → (x.state ≡ ready) ⊎ (x.state ≡ pop)
      → Keeps ctx s (record s { sg = set s.sg s.out_at x })
  set_out-Keeps x some_level e d f = record {
    valid =
        retag_out ctx s v x e (ap (λ (t : Item). t.0) d) (λ h. ground (arith, f))
          (λ h. absurd (omega arith));
    same =
        queue-set_kept s.sg ctx.count s.out_at s.out_at x 0 s.level
          (omega (arith, v.sized, v.out_lt)) d;
  }

-- How a turn of `jitter_pull` ends.
pull_resume-cases :
    (channel : ℕ) (s : Sg)
    → (after (pull_resume channel s) s ≡ s)
      ⊎ ((in_scatter s).state ≡ free)
        × (pull_resume channel s
            ≡ done
                (some (in_scatter s).data_at)
                (record s { sg = set s.sg s.in_at (pulled channel (in_scatter s)) }))
unfolding pull_resume
pull_resume-cases channel s = ground arith

pub pull_resume-Keeps :
    (ctx : Ctx) (channel : ℕ) (s : Sg)
    → IsValid ctx s
    → Keeps ctx s (after (pull_resume channel s) s)
pull_resume-Keeps ctx channel s v = elim (pull_resume-cases channel s) [
  | inl e ↦ rw e (record { valid = v; same = refl })
  | inr (f, e) ↦ rw e (
      set_in-Keeps ctx s v (pulled channel (in_scatter s))
        (level_lt ctx s v (λ p. ground arith) (λ p. ground arith)) refl refl (inr refl))
]

pull_resume-after :
    (channel : ℕ) (s t : Sg) → after (pull_resume channel t) s ≡ after (pull_resume channel t) t
unfolding pull_resume
pull_resume-after channel s t = ground arith

-- Steps one after the other.
pub Keeps-trans : (ctx : Ctx) (s t u : Sg) → Keeps ctx s t → Keeps ctx t u → Keeps ctx s u
Keeps-trans ctx s t u k l = record { valid = l.valid; same = l.same ∙ k.same }

pub start-Keeps : (ctx : Ctx) (s : Sg) → IsValid ctx s → Keeps ctx s (start ctx s)
unfolding init_state
start-Keeps ctx s v = elim (Bool-cases (is_stop s.state)) [
  | inl e ↦ rw e (state-Keeps ctx s v _ s.pause s.nbchannels)
  | inr e ↦ rw e (record { valid = v; same = refl })
]

pull_enter-Keeps :
    (ctx : Ctx) (channel : ℕ) (s : Sg) → IsValid ctx s → Keeps ctx s (pull_enter ctx channel s)
unfolding pull_enter
pull_enter-Keeps ctx channel s v =
    let n : ℕ = if ltb s.nbchannels (channel + 1) then channel + 1 else s.nbchannels in
    Keeps-trans ctx s (record s { nbchannels = n }) _ (state-Keeps ctx s v s.state s.pause n)
      (start-Keeps ctx (record s { nbchannels = n }) (state-IsValid ctx s s.state s.pause n v))

-- `jitter_pull`, whatever it returns, and also while it waits.
pub pull-Keeps :
    (ctx : Ctx) (channel : ℕ) (s : Sg)
    → IsValid ctx s
    → Keeps ctx s (after (jitter_pull_channel ctx channel s) s)
unfolding jitter_pull_channel
pull-Keeps ctx channel s v =
    let entered = pull_enter ctx channel s in
    let k = pull_enter-Keeps ctx channel s v in
    rw (pull_resume-after channel s entered)
      (Keeps-trans ctx s entered _ k (pull_resume-Keeps ctx channel entered k.valid))
