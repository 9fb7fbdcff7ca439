-- ===== src/Heartbeat/Pulse.antt =====
-- src/heartbeat_pulse.c: a beat every so many milliseconds.
use putv.Prelude.{ℕ, zero, suc, ◌+◌, ◌*◌, ◌%◌, ◌^◌, ◌<◌, ◌≡◌, ◌∙◌, refl, arith}

-- `heartbeat_ctx_t`
pub record Pulse : Type 0 where
  pub ms : ℕ

-- `heartbeat_init`
pub pulse_init : ℕ → Pulse
pulse_init ms = record { ms = ms }

-- The time that `_heartbeat_thread` sleeps for between two broadcasts, in nanoseconds, in an unsigned int.
pub pulse_period : Pulse → ℕ
pulse_period ctx = ctx.ms * 1000 * 1000 % 2 ^ 32

-- The loop of `heartbeat_wait`: how often it waits for a broadcast.
pub wait_loop : ℕ → ℕ
wait_loop zero = 0
wait_loop (suc pulses) = 1 + wait_loop pulses

-- `heartbeat_wait`; the pulses are kept in 16 bits.
pub pulse_wait : ℕ → ℕ
unfolding wait_loop
pulse_wait pulses = wait_loop (pulses % 2 ^ 16)

wait_loop_lem : (n : ℕ) → wait_loop n ≡ n
unfolding wait_loop
wait_loop_lem zero = refl
wait_loop_lem (suc n) = omega (arith, wait_loop_lem n)

-- A beat waits for its pulses, modulo 2 ^ 16.
pub pulse_wait_lem : (n k : ℕ) → n < 2 ^ 16 → pulse_wait (n + 2 ^ 16 * k) ≡ n
unfolding pulse_wait
pulse_wait_lem n k small = wait_loop_lem ((n + 2 ^ 16 * k) % 2 ^ 16) ∙ omega arith
