-- ===== src/Jitter/Sg/Defs.antt =====
-- src/jitter_sg.c: the data, and the calls that do not wait.
use putv.Prelude.{
  ℕ, zero, suc, ◌+◌, ◌-◌, ◌*◌, ◌%◌, ◌^◌, Bool, true, false, not, ◌&&◌, ◌||◌, List, [], ◌∷◌, Option,
  none, some, ltb, ◌==◌, if◌then◌else◌, get_or, set,
}
use putv.Prelude.Int.{ℤ, pos, negsuc}
use putv.Jitter.Ctx.{Ctx}

pub data ScatterState : Type 0 where
  free pull pop ready : ScatterState

-- `next` and `data_at` are the pointers `next` and `data`; `beat` is `beat.isset`.
pub record Scatter : Type 0 where
  pub state : ScatterState
  pub data_at : ℕ
  pub len : ℕ
  pub channel : ℕ
  pub beat : ℕ
  pub next : ℕ

pub data JitterState : Type 0 where
  stop filling running overflow flush complete : JitterState

-- `jitter_private_t`; `in_at` and `out_at` are `in` and `out`, and `pause` is used as a truth value.
pub record Sg : Type 0 where
  pub sg : List Scatter
  pub in_at : ℕ
  pub out_at : ℕ
  pub level : ℕ
  pub nbchannels : ℕ
  pub state : JitterState
  pub pause : Bool

abbrev pub is_free : ScatterState → Bool
is_free free = true
is_free _ = false

abbrev pub is_pull : ScatterState → Bool
is_pull pull = true
is_pull _ = false

abbrev pub is_pop : ScatterState → Bool
is_pop pop = true
is_pop _ = false

abbrev pub is_ready : ScatterState → Bool
is_ready ready = true
is_ready _ = false

abbrev pub is_stop : JitterState → Bool
is_stop stop = true
is_stop _ = false

abbrev pub is_filling : JitterState → Bool
is_filling filling = true
is_filling _ = false

abbrev pub is_running : JitterState → Bool
is_running running = true
is_running _ = false

abbrev pub is_flush : JitterState → Bool
is_flush flush = true
is_flush _ = false

abbrev pub is_complete : JitterState → Bool
is_complete complete = true
is_complete _ = false

-- What `calloc` gives.
abbrev pub blank : Scatter
blank = record { state = free; data_at = 0; len = 0; channel = 0; beat = 0; next = 0 }

abbrev pub scatter : Sg → ℕ → Scatter
scatter s i = get_or s.sg i blank

abbrev pub in_scatter : Sg → Scatter
in_scatter s = scatter s s.in_at

abbrev pub out_scatter : Sg → Scatter
out_scatter s = scatter s s.out_at

-- `private->in->state = st`, and so for `out`.
abbrev pub set_in : ScatterState → Sg → Sg
set_in st s = record s { sg = set s.sg s.in_at (record (in_scatter s) { state = st }) }

abbrev pub set_out : ScatterState → Sg → Sg
set_out st s = record s { sg = set s.sg s.out_at (record (out_scatter s) { state = st }) }

-- The loop that links the buffers, from the `i`th on.
unfoldable pub link : ℕ → ℕ → ℕ → List Scatter
link size i zero = []
link size i (suc n) = record blank { data_at = i * size; next = i + 1 } ∷ link size (i + 1) n

-- The state that `jitter_scattergather_init` builds: `it->next = private->sg` for the last buffer.
unfoldable pub fresh : ℕ → ℕ → Sg
fresh count size = record {
  sg = set (link size 0 count) last (record (get_or (link size 0 count) last blank) { next = 0 });
  in_at = 0;
  out_at = 0;
  level = 0;
  nbchannels = 0;
  state = stop;
  pause = false;
}
  where
    last : ℕ
    last = count - 1

-- The flags are whether the two allocations succeed.
unfoldable pub jitter_scattergather_init : ℕ → ℕ → Bool → Bool → Option Sg
unfolding fresh link
jitter_scattergather_init count size has_buffer has_sg =
    if has_buffer && has_sg then some (fresh count size) else none

-- `_jitter_init`
unfoldable pub init_state : Ctx → Sg → Sg
init_state ctx s = record s { state = if ctx.thredhold == 0 then running else filling }

abbrev pub start : Ctx → Sg → Sg
start ctx s = if is_stop s.state then init_state ctx s else s

-- The end of `jitter_pop`: the buffer is given back. `level` is an unsigned int, so `level--` at 0
-- gives 2^32 - 1.
unfoldable pub pop_release : Ctx → Sg → Sg
pop_release ctx s = record (set_out free s) {
  level = level';
  out_at = (out_scatter s).next;
  state = if level' == 0 && ltb 0 ctx.thredhold then filling else s.state;
}
  where
    level' : ℕ
    level' = (s.level + 2 ^ 32 - 1) % 2 ^ 32

unfoldable pub jitter_pop : Ctx → ℕ → Sg → Sg
jitter_pop ctx len s =
    if len == 0
    then set_out ready s
    else if is_stop s.state || not (is_pop (out_scatter s).state)
    then set_out free s
    else pop_release ctx s

-- The loop over `jitter->consume`: the answers of its calls in order, and `tlen` at the end. After
-- the answers given, the consumer answers 0.
pub consume_loop : List ℤ → ℕ → ℕ → ℤ
consume_loop [] len tlen = pos 0
consume_loop (negsuc n ∷ rs) len tlen = negsuc n
consume_loop (pos zero ∷ rs) len tlen = pos 0
consume_loop (pos (suc n) ∷ rs) len tlen =
    let rest = consume_loop rs len (tlen + suc n) in
    if ltb (tlen + suc n) len then rest else pos (tlen + suc n)

-- The end of `jitter_push`: the threshold is reached.
unfoldable pub push_signal : Ctx → Sg → Sg
push_signal ctx s =
    if is_running s.state
    then s
    else if is_filling s.state && s.level == ctx.thredhold
    then record s { state = running }
    else s

-- `jitter->heartbeat` waits for the beat of a buffer, which is cleared then.
abbrev pub clear_beat : Sg → Sg
clear_beat s = record s { sg = set s.sg s.out_at (record (out_scatter s) { beat = 0 }) }

abbrev pub has_beat : Ctx → Sg → Bool
has_beat ctx s = ctx.heartbeat && not ((out_scatter s).beat == 0)

-- The buffer at `out` is taken for the consumer, after its beat.
pub push_take : Ctx → Sg → Sg
push_take ctx s =
    let taken = set_out pop s in if has_beat ctx taken then clear_beat taken else taken

-- What `jitter_push` does with the `tlen` that its loop ends with.
pub push_consumed : Ctx → ℤ → Sg → Sg
unfolding push_signal
push_consumed ctx (pos zero) s = s
push_consumed ctx (pos (suc n)) s = push_signal ctx (jitter_pop ctx (suc n) s)
push_consumed ctx (negsuc n) s = s

-- The part of `jitter_push` for a consumer that is called by the producer's thread.
pub push_consume : Ctx → List ℤ → ℕ → Sg → Sg
unfolding push_take push_consumed
push_consume ctx replies len s = push_consumed ctx (consume_loop replies len 0) (push_take ctx s)

abbrev pub filled : ℕ → ℕ → Scatter → Scatter
filled len beat x = record x { len = len; beat = beat; state = ready }

-- The buffer at `in` becomes the last one that is ready.
unfoldable pub push_fill : ℕ → ℕ → Sg → Sg
push_fill len beat s = record s {
  sg = set s.sg s.in_at (filled len beat (in_scatter s));
  level = (s.level + 1) % 2 ^ 32;
  in_at = (in_scatter s).next;
}

-- `beat` is 0 where the caller passes NULL; `replies` are the consumer's answers.
unfoldable pub jitter_push : Ctx → List ℤ → ℕ → ℕ → Sg → Sg
jitter_push ctx replies len beat s =
    if not (is_pull (in_scatter s).state)
    then s
    else if len == 0
    then push_signal ctx (record (set_in free s) { state = complete })
    else if ctx.consume
    then push_consume ctx replies len (push_fill len beat s)
    else push_signal ctx (push_fill len beat s)

-- The value of `size_t` that the code writes as -1.
abbrev pub size_max : ℕ
size_max = 2 ^ 64 - 1

pub jitter_length : Sg → ℕ
jitter_length s = if is_pop (out_scatter s).state then (out_scatter s).len else size_max

unfoldable pub jitter_flush : Sg → Sg
jitter_flush s = if is_flush s.state then s else record s { state = flush }

-- The loop of `jitter_reset` that walks round the ring.
unfoldable pub free_all : ℕ → Sg → Sg
free_all zero s = s
free_all (suc n) s = free_all n (record (set_in free s) { in_at = (in_scatter s).next })

-- The two critical sections of `jitter_reset`. Between them the mutex is free.
unfoldable pub reset_stop : Ctx → Sg → Sg
reset_stop ctx s = free_all ctx.count (record (jitter_flush s) { state = stop })

unfoldable pub reset_restart : Sg → Sg
reset_restart s = record s { level = 0; state = filling; in_at = 0; out_at = 0 }

unfoldable pub jitter_reset : Ctx → Sg → Sg
jitter_reset ctx s = reset_restart (reset_stop ctx s)

pub jitter_empty : Sg → Bool
jitter_empty s = if is_filling s.state then true else not (is_ready (out_scatter s).state)

unfoldable pub jitter_pause : Ctx → Bool → Sg → Sg
jitter_pause ctx enable s =
    if is_flush s.state && not enable
    then record paused { state = if ltb ctx.thredhold s.level then running else filling }
    else paused
  where
    paused : Sg
    paused = record s { pause = enable }
