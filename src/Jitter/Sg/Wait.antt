-- ===== src/Jitter/Sg/Wait.antt =====
-- src/jitter_sg.c: `jitter_pull` and `jitter_peer`, which may wait on a condition.
-- A call is its part before the loop over `pthread_cond_wait`, then one turn of that loop. A thread
-- that waits runs the `_resume` function in the state that it wakes up in.
use putv.Prelude.{
  ℕ, zero, suc, ◌+◌, Bool, true, false, not, ◌&&◌, ◌||◌, List, [], ◌∷◌, Option, none, some, ltb,
  ◌==◌, if◌then◌else◌, set,
}
use putv.Prelude.Int.{ℤ, pos, negsuc}
use putv.Jitter.Ctx.{Ctx, Call, done, waits, deadlock}
use putv.Jitter.Sg.Defs.{
  Scatter, Sg, pull, pop, is_free, is_pop, is_ready, is_stop, is_filling, is_flush, is_complete,
  in_scatter, out_scatter, set_out, start, init_state, jitter_pop, jitter_push, clear_beat,
  has_beat,
}

-- `jitter_pull_channel` up to its loop.
unfoldable pub pull_enter : Ctx → ℕ → Sg → Sg
unfolding init_state
pull_enter ctx channel s =
    start ctx (record s {
      nbchannels = if ltb s.nbchannels (channel + 1) then channel + 1 else s.nbchannels;
    })

abbrev pub pulled : ℕ → Scatter → Scatter
pulled channel x = record x { state = pull; channel = channel }

-- The loop's test, and what follows the loop: a buffer's address, or NULL.
unfoldable pub pull_resume : ℕ → Sg → Call (Option ℕ) Sg
pull_resume channel s =
    if not (is_free (in_scatter s).state) && not (is_flush s.state)
    then waits s
    else if not (is_flush s.state) && not (is_stop s.state) && is_free (in_scatter s).state
    then done (some (in_scatter s).data_at)
        (record s { sg = set s.sg s.in_at (pulled channel (in_scatter s)) })
    else done none s

unfoldable pub jitter_pull_channel : Ctx → ℕ → Sg → Call (Option ℕ) Sg
unfolding pull_enter pull_resume
jitter_pull_channel ctx channel s = pull_resume channel (pull_enter ctx channel s)

pub jitter_pull : Ctx → Sg → Call (Option ℕ) Sg
unfolding jitter_pull_channel
jitter_pull ctx s = jitter_pull_channel ctx 0 s

-- What `jitter_peer` returns: a buffer's address, with the beat that `*beat` points to (0 if it is
-- left alone), or NULL.
abbrev pub Peered : Type 0
Peered = Option (ℕ × ℕ)

-- The end of `jitter_peer_channel`. With `want`, the caller takes the beat; else the heartbeat waits
-- for it.
unfoldable pub peer_take : Ctx → Bool → Sg → Call Peered Sg
peer_take ctx want s =
    if has_beat ctx taken && want
    then done (some ((out_scatter s).data_at, (out_scatter s).beat)) taken
    else if has_beat ctx taken
    then done (some ((out_scatter s).data_at, 0)) (clear_beat taken)
    else done (some ((out_scatter s).data_at, 0)) taken
  where
    taken : Sg
    taken = set_out pop s

-- The test of the waiting loop.
unfoldable pub peer_check : Ctx → Bool → Sg → Call Peered Sg
unfolding peer_take
peer_check ctx want s =
    if is_filling s.state || not (is_ready (out_scatter s).state) || s.pause
    then waits s
    else peer_take ctx want s

-- Whether `jitter_pop` takes the mutex: not in its branch for a buffer that nobody took.
abbrev pub pop_locks : ℕ → Sg → Bool
pop_locks len s = len == 0 || (not (is_stop s.state) && is_pop (out_scatter s).state)

-- After `pthread_cond_wait`, which returns with the mutex locked.
unfoldable pub peer_resume : Ctx → ℕ → Bool → Sg → Call Peered Sg
unfolding peer_check
peer_resume ctx channel want s =
    if (out_scatter s).channel == channel
    then peer_check ctx want s
    else if pop_locks (out_scatter s).len s
    then deadlock
    else peer_check ctx want (jitter_pop ctx (out_scatter s).len s)

-- The two loops over `jitter->produce`: the answers of its calls in order (after them it answers 0)
-- and `len`. `false` is the return of NULL. No source sets `consume` and `produce` of one jitter, so
-- the pushes here find no consumer's answer.
unfoldable pub produce_loop : Ctx → List ℤ → ℕ → Sg → Sg × Bool
produce_loop ctx [] len s = (s, false)
produce_loop ctx (negsuc n ∷ rs) len s = (s, false)
produce_loop ctx (pos zero ∷ rs) len s = (s, false)
produce_loop ctx (pos (suc n) ∷ rs) len s =
    let more = produce_loop ctx rs (len + suc n) s in
    let s' = jitter_push ctx [] (len + suc n) 0 s in
    let again = produce_loop ctx rs 0 s' in
    if ltb (len + suc n) ctx.size then more else if is_filling s'.state then again else (s', true)

abbrev pub then_check : Ctx → Bool → Sg × Bool → Call Peered Sg
then_check ctx want (s, true) = peer_check ctx want s
then_check ctx want (s, false) = done none s

-- The part between `_jitter_init` and the waiting loop.
unfoldable pub peer_enter : Ctx → Bool → List ℤ → Sg → Call Peered Sg
unfolding peer_check
peer_enter ctx want replies s =
    if is_free (out_scatter s).state
    then (if s.in_at == s.out_at && ctx.produce
        then then_check ctx want (produce_loop ctx replies 0 s)
        else if is_complete s.state
        then done none s
        else peer_check ctx want s)
    else peer_check ctx want s

unfoldable pub jitter_peer_channel : Ctx → Bool → List ℤ → Sg → Call Peered Sg
unfolding peer_enter init_state
jitter_peer_channel ctx want replies s = peer_enter ctx want replies (start ctx s)

unfoldable pub jitter_peer : Ctx → Bool → List ℤ → Sg → Call Peered Sg
unfolding jitter_peer_channel
jitter_peer ctx want replies s = jitter_peer_channel ctx want replies s
