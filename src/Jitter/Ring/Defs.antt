-- ===== src/Jitter/Ring/Defs.antt =====
-- src/jitter_ring.c: the data, and the calls that do not wait.
-- A pointer is an offset in `private->buffer`, or `none` for NULL, which stays NULL under the pointer
-- arithmetic.
use putv.Prelude.{
  ℕ, zero, suc, ◌+◌, ◌-◌, ◌*◌, ◌^◌, Bool, true, false, not, ◌&&◌, ◌||◌, List, Option, none, some,
  ltb, leb, ◌==◌, if◌then◌else◌, length, get_or,
}
use putv.Prelude.Int.{ℤ, pos, negsuc}
use putv.Jitter.Ctx.{Ctx}

pub data RingState : Type 0 where
  stop filling running overflow flush : RingState

-- `jitter_private_t`; `memory` are the bytes of `buffer`.
pub record Ring : Type 0 where
  pub memory : ℕ → ℕ
  pub in_at : Option ℕ
  pub out_at : Option ℕ
  pub level : ℕ
  pub state : RingState
  pub pause : Bool

abbrev pub is_stop : RingState → Bool
is_stop stop = true
is_stop _ = false

abbrev pub is_filling : RingState → Bool
is_filling filling = true
is_filling _ = false

abbrev pub is_running : RingState → Bool
is_running running = true
is_running _ = false

abbrev pub is_flush : RingState → Bool
is_flush flush = true
is_flush _ = false

-- `bufferstart`, `bufferend`, and the bytes between them.
abbrev pub buffer_start : Ctx → ℕ
buffer_start ctx = ctx.size

abbrev pub buffer_end : Ctx → ℕ
buffer_end ctx = (ctx.count + 1) * ctx.size

abbrev pub capacity : Ctx → ℕ
capacity ctx = ctx.size * ctx.count

-- `memcpy(buffer + to, buffer + from, n)`.
unfoldable pub memcpy : ℕ → ℕ → ℕ → (ℕ → ℕ) → ℕ → ℕ
memcpy to from n memory x =
    if leb to x && ltb x (to + n) then memory (from + (x - to)) else memory x

-- The producer's writes, from an address that it pulled.
unfoldable pub write : ℕ → List ℕ → (ℕ → ℕ) → ℕ → ℕ
write to bytes memory x =
    if leb to x && ltb x (to + length bytes) then get_or bytes (x - to) 0 else memory x

-- `jitter_ringbuffer_init`; the flag is whether `malloc` succeeds.
pub jitter_ringbuffer_init : Ctx → (ℕ → ℕ) → Bool → Option Ring
jitter_ringbuffer_init ctx memory has_buffer =
    if has_buffer
    then some (record {
      memory = memory;
      in_at = some (buffer_start ctx);
      out_at = some (buffer_start ctx);
      level = 0;
      state = filling;
      pause = false;
    })
    else none

-- The part of `jitter_push` under its first lock, and `len` after it.
unfoldable pub push_move : Ctx → ℕ → ℕ → Ring → Ring × ℕ
push_move ctx len at r =
    if leb (buffer_end ctx) (at + len)
    then (
      record r {
        memory = memcpy (buffer_start ctx) (buffer_end ctx) (at + len - buffer_end ctx) r.memory;
        in_at = some (buffer_start ctx + (at + len - buffer_end ctx));
        level = r.level + len;
      },
      at + len - buffer_end ctx,
    )
    else (record r { in_at = some (at + len); level = r.level + len }, len)

unfoldable pub push_store : Ctx → ℕ → Ring → Ring × ℕ
unfolding push_move
push_store ctx zero r = (record r { in_at = none }, 0)
push_store ctx (suc n) r = elim r.in_at [
  | none ↦ (record r { level = r.level + suc n }, suc n)
  | some at ↦ push_move ctx (suc n) at r
]

abbrev back : ℕ → Option ℕ → Option ℕ
back n none = none
back n (some a) = some (a - n)

abbrev forward : ℕ → Option ℕ → Option ℕ
forward n none = none
forward n (some a) = some (a + n)

-- The answer of a consumer that the producer's thread calls. It takes at most what it is offered; a negative
-- answer is a huge `size_t`, which wraps the level and `in` around and so raises them.
pub push_consume : ℤ → Ring → Ring
push_consume (pos (suc n)) r =
    let at = back (suc n) r.in_at in record r { level = r.level - suc n; in_at = at; out_at = at }
push_consume (pos zero) r = record r { state = stop }
push_consume (negsuc n) r =
    let at = forward (suc n) r.in_at in
    record r { level = r.level + suc n; in_at = at; out_at = at }

-- The end of `jitter_push`.
unfoldable pub push_signal : Ctx → Ring → Ring
push_signal ctx r =
    if is_filling r.state && leb (ctx.thredhold * ctx.size) r.level
    then record r { state = running }
    else r

-- `jitter_push`: `answer` is what the consumer returns, from the `len` that it is offered.
unfoldable pub jitter_push : Ctx → (ℕ → ℤ) → ℕ → Ring → Ring
unfolding push_store push_consume push_signal
jitter_push ctx answer len r =
    let stored = push_store ctx len r in
    push_signal ctx (if ctx.consume then push_consume (answer stored.1) stored.0 else stored.0)

-- What `jitter_pop` does once it does not return early.
unfoldable pub pop_move : Ctx → ℕ → Ring → Ring
pop_move ctx len r = record r {
  out_at = forward len r.out_at;
  level = r.level - len;
  state =
      if leb (r.level - len) ctx.size
      then (if is_running r.state then filling else stop)
      else r.state;
}

-- The value of `size_t` that the code writes as -1.
abbrev pub size_max : ℕ
size_max = 2 ^ 64 - 1

-- `none` where more is popped than the ring holds: the int `level` turns negative.
unfoldable pub jitter_pop : Ctx → ℕ → Ring → Option Ring
unfolding pop_move
jitter_pop ctx len r =
    let n = if len == size_max then r.level else len in
    if is_filling r.state || is_stop r.state
    then some r
    else if ltb r.level n
    then none
    else some (pop_move ctx n r)

pub jitter_flush : Ring → Ring
jitter_flush r = if is_flush r.state then r else record r { state = flush }

pub jitter_length : Ctx → Ring → ℕ
jitter_length ctx r = if ltb r.level ctx.size then r.level else ctx.size

pub jitter_empty : Ctx → Ring → Bool
jitter_empty ctx r = elim r.in_at [
  | none ↦ false
  | some i ↦ elim r.out_at [ none ↦ false | some o ↦ ltb o i && ltb i (o + ctx.size) ]
]

-- The two critical sections of `jitter_reset`.
pub jitter_reset : Ctx → Ring → Ring
jitter_reset ctx r = record r {
  in_at = some (buffer_start ctx);
  out_at = some (buffer_start ctx);
  level = 0;
  state = filling;
}

pub jitter_pause : Bool → Ring → Ring
jitter_pause enable r = record r {
  pause = enable;
  state = if is_flush r.state && not enable then filling else r.state;
}
