-- ===== src/Jitter/Ctx.antt =====
-- src/jitter.h: what the two implementations of a jitter share.
use putv.Prelude.{ℕ, Bool}

-- `jitter_ctx_t`, without its name, number and private part. A callback or the heartbeat is here
-- whether its pointer is set; what a callback answers is an argument of the call that makes it.
pub record Ctx : Type 0 where
  pub count : ℕ
  pub size : ℕ
  pub thredhold : ℕ
  pub consume : Bool
  pub produce : Bool
  pub heartbeat : Bool

-- What a call that takes the mutex does until it returns or waits on its condition. A call that
-- waits resumes in the state that the other threads leave. `deadlock` is a thread that locks the
-- mutex that it holds.
pub data Call {ℓ κ} (A : Type ℓ) (S : Type κ) : Type (ℓ ⊔ κ) where
  done : A → S → Call A S
  waits : S → Call A S
  deadlock : Call A S

-- The state that a call leaves behind, where it leaves one.
abbrev pub after {ℓ κ} : {A : Type ℓ} {S : Type κ} → Call A S → S → S
after (done a s) s₀ = s
after (waits s) s₀ = s
after deadlock s₀ = s₀
