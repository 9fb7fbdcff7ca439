-- ===== src/Jitter/Sg/Peers.antt =====
-- `jitter_peer` keeps the invariant and the queue, and what it returns is the queue's head.
use putv.Prelude.{
  ℕ, zero, suc, ◌+◌, ◌<◌, ◌≡◌, ◌≢◌, ◌⊎◌, refl, ap, inl, inr, Bool, Bool-cases, true, false, ◌&&◌,
  arith, ◌==◌, none, some, List, [], ◌∷◌, get_or-set_self,
}
use putv.Prelude.Int.{ℤ, pos, negsuc}
use putv.Jitter.Ctx.{Ctx, Call, done, waits, deadlock}
use putv.Jitter.Sg.Defs.{
  Sg, blank, free, pull, pop, ready, is_free, is_stop, is_complete, scatter, in_scatter,
  out_scatter, jitter_push, set_out, has_beat, clear_beat, init_state, start,
}
use putv.Jitter.Sg.Wait.{
  peer_take, peer_check, peer_resume, peer_enter, jitter_peer, jitter_peer_channel, produce_loop,
  then_check, Peered,
}
use putv.Jitter.Sg.Valid.{IsValid}
use putv.Jitter.Sg.Retag.{out_filled}
use putv.Jitter.Sg.Calls.{Keeps, Keeps-trans, set_out-Keeps, start-Keeps}

-- A push by a thread that pulled nothing is dropped.
pub push_idle :
    (ctx : Ctx) (rs : List ℤ) (len beat : ℕ) (s : Sg)
    → (in_scatter s).state ≢ pull
    → jitter_push ctx rs len beat s ≡ s
unfolding jitter_push
push_idle ctx rs len beat s h = ground arith

-- The producer that `jitter_peer` calls has pulled nothing, so all its data is dropped.
pub produce_loop_idle :
    (ctx : Ctx) (rs : List ℤ) (len : ℕ) (s : Sg)
    → (in_scatter s).state ≢ pull
    → (produce_loop ctx rs len s).0 ≡ s
unfolding produce_loop
produce_loop_idle ctx [] len s h = refl
produce_loop_idle ctx (negsuc n ∷ rs) len s h = refl
produce_loop_idle ctx (pos zero ∷ rs) len s h = refl
produce_loop_idle ctx (pos (suc n) ∷ rs) len s h = ground (
  arith,
  push_idle ctx [] (len + suc n) 0 s h,
  produce_loop_idle ctx rs (len + suc n) s h,
  produce_loop_idle ctx rs 0 (jitter_push ctx [] (len + suc n) 0 s),
)

-- How a turn of `jitter_peer` ends.
peer_check-cases :
    (ctx : Ctx) (want : Bool) (s : Sg)
    → (peer_check ctx want s ≡ waits s)
      ⊎ ((out_scatter s).state ≡ ready) × (peer_check ctx want s ≡ peer_take ctx want s)
unfolding peer_check
peer_check-cases ctx want s = ground arith

-- What a call of `jitter_peer` on `s` may leave: it waits or returns NULL with the queue untouched,
-- or it returns the address of the queue's head, which is now marked as taken. It never deadlocks.
abbrev pub Delivers : Ctx → Sg → Call Peered Sg → Type 0
Delivers ctx s (waits t) = Keeps ctx s t
Delivers ctx s (done none t) = Keeps ctx s t
Delivers ctx s (done (some (a, b)) t) =
    Keeps ctx s t × (0 < t.level) × ((out_scatter t).state ≡ pop) × (a ≡ (out_scatter t).data_at)
Delivers ctx s deadlock = ⊥

set_out-out :
    (ctx : Ctx) (s : Sg)
    → IsValid ctx s
    → out_scatter (set_out pop s) ≡ record (out_scatter s) { state = pop }
set_out-out ctx s v =
    get_or-set_self s.sg s.out_at (record (out_scatter s) { state = pop }) blank
      (omega (arith, v.sized, v.out_lt))

clear_beat-out :
    (ctx : Ctx) (s : Sg)
    → IsValid ctx s
    → out_scatter (clear_beat s) ≡ record (out_scatter s) { beat = 0 }
clear_beat-out ctx s v =
    get_or-set_self s.sg s.out_at (record (out_scatter s) { beat = 0 }) blank
      (omega (arith, v.sized, v.out_lt))

module _ (ctx : Ctx) (s : Sg) (v : IsValid ctx s) (r : (out_scatter s).state ≡ ready) where
  take-Keeps : Keeps ctx s (set_out pop s)
  take-Keeps =
      set_out-Keeps ctx s v (record (out_scatter s) { state = pop }) (out_filled ctx s v (inl r))
        refl refl (inr refl)

  take_clear-Keeps : Keeps ctx s (clear_beat (set_out pop s))
  take_clear-Keeps = Keeps-trans ctx s (set_out pop s) _ take-Keeps (
      set_out-Keeps ctx (set_out pop s) take-Keeps.valid
        (record (out_scatter (set_out pop s)) { beat = 0 }) (out_filled ctx s v (inl r)) refl refl
        (inr (rw (set_out-out ctx s v))))

  peer_take-Delivers : (want : Bool) → Delivers ctx s (peer_take ctx want s)
  unfolding peer_take
  peer_take-Delivers want = elim (Bool-cases (has_beat ctx (set_out pop s))) [
    | inl e ↦ elim want as (λ w. Delivers ctx s (peer_take ctx w s)) [
      | true ↦ rw e taken
      | false ↦ rw e cleared
    ]
    | inr e ↦ rw e taken
  ]
    where
      taken : Delivers ctx s (done (some ((out_scatter s).data_at, 0)) (set_out pop s))
      taken = (
        take-Keeps,
        out_filled ctx s v (inl r),
        rw (set_out-out ctx s v),
        rw (set_out-out ctx s v),
      )

      cleared :
          Delivers ctx s (done (some ((out_scatter s).data_at, 0)) (clear_beat (set_out pop s)))
      cleared =
          let out = clear_beat-out ctx (set_out pop s) take-Keeps.valid in
          (
            take_clear-Keeps,
            out_filled ctx s v (inl r),
            rw (out, set_out-out ctx s v),
            rw (out, set_out-out ctx s v),
          )

pub peer_check-Delivers :
    (ctx : Ctx) (want : Bool) (s : Sg) → IsValid ctx s → Delivers ctx s (peer_check ctx want s)
peer_check-Delivers ctx want s v = elim (peer_check-cases ctx want s) [
  | inl e ↦ rw e (record { valid = v; same = refl })
  | inr (r, e) ↦ rw e (peer_take-Delivers ctx s v r want)
]

Delivers-trans :
    (ctx : Ctx) (s t : Sg) (c : Call Peered Sg)
    → Keeps ctx s t
    → Delivers ctx t c
    → Delivers ctx s c
Delivers-trans ctx s t (waits u) k d = Keeps-trans ctx s t u k d
Delivers-trans ctx s t (done none u) k d = Keeps-trans ctx s t u k d
Delivers-trans ctx s t (done (some (a, b)) u) k d = (Keeps-trans ctx s t u k d.0, d.1, d.2, d.3)
Delivers-trans ctx s t deadlock k d = d

then_check-Delivers :
    (ctx : Ctx) (want : Bool) (s : Sg) (r : Sg × Bool)
    → IsValid ctx s
    → r.0 ≡ s
    → Delivers ctx s (then_check ctx want r)
then_check-Delivers ctx want s (t, true) v e = rw e (peer_check-Delivers ctx want s v)
then_check-Delivers ctx want s (t, false) v e = rw e (record { valid = v; same = refl })

-- Where `in` is at a free buffer, nobody has pulled it.
in_idle :
    (s : Sg) (b : Bool)
    → is_free (out_scatter s).state ≡ true
    → (s.in_at == s.out_at && b) ≡ true
    → (in_scatter s).state ≢ pull
in_idle s b e f h =
    let place : s.in_at ≡ s.out_at = ground arith in
    ground (arith, ap (λ (i : ℕ). (scatter s i).state) place)

peer_enter-Delivers :
    (ctx : Ctx) (want : Bool) (rs : List ℤ) (s : Sg)
    → IsValid ctx s
    → Delivers ctx s (peer_enter ctx want rs s)
unfolding peer_enter
peer_enter-Delivers ctx want rs s v = elim (Bool-cases (is_free (out_scatter s).state)) [
  | inl e ↦ rw e (elim (Bool-cases (s.in_at == s.out_at && ctx.produce)) [
    | inl f ↦ rw f (
        then_check-Delivers ctx want s (produce_loop ctx rs 0 s) v
          (produce_loop_idle ctx rs 0 s (in_idle s _ e f)))
    | inr f ↦ rw f (elim (Bool-cases (is_complete s.state)) [
      | inl g ↦ rw g (record { valid = v; same = refl })
      | inr g ↦ rw g (peer_check-Delivers ctx want s v)
    ])
  ])
  | inr e ↦ rw e (peer_check-Delivers ctx want s v)
]

-- Where the buffer at `out` is of the caller's channel, a turn after the wait is the loop's test.
pub peer_resume-own :
    (ctx : Ctx) (channel : ℕ) (want : Bool) (s : Sg)
    → (out_scatter s).channel ≡ channel
    → peer_resume ctx channel want s ≡ peer_check ctx want s
unfolding peer_resume
peer_resume-own ctx channel want s own =
    let same : ((out_scatter s).channel == channel) ≡ true = ground arith in rw same refl

-- From a valid ring, a call of `jitter_peer` up to its wait, and a turn after the wait that finds a buffer of
-- the caller's channel, never deadlock and never change what the ring holds, whether they wait (again),
-- return NULL or return a buffer; the address that they return is that of the buffer at the queue's head,
-- which is now marked as the consumer's.
pub jitter_peer-Delivers :
    (ctx : Ctx) (want : Bool) (rs : List ℤ) (s : Sg)
    → IsValid ctx s
    → Delivers ctx s (jitter_peer ctx want rs s)
      × Delivers ctx s (peer_resume ctx (out_scatter s).channel want s)
unfolding jitter_peer jitter_peer_channel
jitter_peer-Delivers ctx want rs s v =
    let k = start-Keeps ctx s v in
    (
      Delivers-trans ctx s (start ctx s) _ k
          (peer_enter-Delivers ctx want rs (start ctx s) k.valid),
      rw (peer_resume-own ctx (out_scatter s).channel want s refl)
          (peer_check-Delivers ctx want s v),
    )

then_check-free :
    (ctx : Ctx) (want : Bool) (s : Sg) (r : Sg × Bool)
    → r.0 ≡ s
    → (out_scatter s).state ≡ free
    → (then_check ctx want r ≡ done none s) ⊎ (then_check ctx want r ≡ waits s)
unfolding peer_check
then_check-free ctx want s (t, true) e f = rw e (ground arith)
then_check-free ctx want s (t, false) e f = rw e (inl refl)

enter_starves :
    (ctx : Ctx) (want : Bool) (rs : List ℤ) (s : Sg)
    → ctx.produce ≡ true
    → s.in_at ≡ s.out_at
    → (out_scatter s).state ≡ free
    → (peer_enter ctx want rs s ≡ done none s) ⊎ (peer_enter ctx want rs s ≡ waits s)
unfolding peer_enter
enter_starves ctx want rs s p io f =
    let here : (s.in_at == s.out_at && ctx.produce) ≡ true = ground arith in
    let idle : is_free (out_scatter s).state ≡ true = ground arith in
    rw (idle, here)
      (then_check-free ctx want s (produce_loop ctx rs 0 s)
        (produce_loop_idle ctx rs 0 s (in_idle s ctx.produce idle here)) f)

-- A jitter whose producer is called by the consumer's thread never delivers: where nothing is ready,
-- `jitter_peer` returns NULL or waits, whatever data the producer answers, and no buffer is filled,
-- since `jitter_push` drops what was not pulled.
pub produce_starves :
    (ctx : Ctx) (want : Bool) (rs : List ℤ) (s : Sg)
    → ctx.produce ≡ true
    → s.in_at ≡ s.out_at
    → (out_scatter s).state ≡ free
    → (jitter_peer ctx want rs s ≡ done none (start ctx s))
      ⊎ (jitter_peer ctx want rs s ≡ waits (start ctx s))
unfolding jitter_peer jitter_peer_channel init_state
produce_starves ctx want rs s p io f = elim (Bool-cases (is_stop s.state)) [
  | inl e ↦ rw e (enter_starves ctx want rs (init_state ctx s) p io f)
  | inr e ↦ rw e (enter_starves ctx want rs s p io f)
]
