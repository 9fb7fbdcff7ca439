-- ===== src/Jitter/Ring/Valid.antt =====
-- The invariant of the ring of bytes, and the bytes that it holds, oldest first.
use putv.Prelude.{
  ℕ, zero, suc, ◌+◌, ◌-◌, ◌≤◌, ◌<◌, ◌≡◌, refl, ap, ◌∙◌, arith, take, drop, List, [], ◌∷◌, ◌++◌, ltb,
  if◌then◌else◌, length, get_or, some,
}
use putv.Jitter.Ctx.{Ctx}
use putv.Jitter.Ring.Defs.{Ring, buffer_start, buffer_end, capacity}

-- The address of a place that is counted from `out`.
abbrev pub wrap : Ctx → ℕ → ℕ
wrap ctx a = if ltb a (buffer_end ctx) then a else a - capacity ctx

-- `i` and `o` are the offsets of `in` and `out`.
pub record IsValid (ctx : Ctx) (i o : ℕ) (r : Ring) : Type 0 where
  pub in_eq : r.in_at ≡ some i
  pub out_eq : r.out_at ≡ some o
  pub some_size : 0 < ctx.size
  pub some_count : ctx.size ≤ capacity ctx
  pub in_ge : buffer_start ctx ≤ i
  pub in_lt : i < buffer_end ctx
  pub out_le : o ≤ buffer_end ctx
  pub level_le : r.level ≤ capacity ctx
  pub in_wrap : i ≡ wrap ctx (wrap ctx o + r.level)

-- The first `n` values of a function.
abbrev pub collect : ℕ → (ℕ → ℕ) → List ℕ
collect zero f = []
collect (suc n) f = f 0 ∷ collect n (λ k. f (suc k))

pub collect_ext : (n : ℕ) (f g : ℕ → ℕ) → ((k : ℕ) → k < n → f k ≡ g k) → collect n f ≡ collect n g
collect_ext zero f g h = refl
collect_ext (suc n) f g h =
    rw
      (
        h 0 (omega arith),
        collect_ext n (λ k. f (suc k)) (λ k. g (suc k)) (λ k l. h (suc k) (omega arith)),
      )
      refl

pub collect_add :
    (a b : ℕ) (f : ℕ → ℕ) → collect (a + b) f ≡ collect a f ++ collect b (λ k. f (a + k))
collect_add zero b f =
    let same : 0 + b ≡ b = omega arith in
    rw same (collect_ext b f (λ k. f (0 + k)) (λ k h. ap f (omega arith)))
collect_add (suc a) b f =
    let more : suc a + b ≡ suc (a + b) = omega arith in
    rw (more, collect_add a b (λ k. f (suc k)))
      (ap (λ l. f 0 ∷ (collect a (λ k. f (suc k)) ++ l))
        (collect_ext b (λ k. f (suc (a + k))) (λ k. f (suc a + k)) (λ k h. ap f (omega arith))))

pub collect-get_or : (bytes : List ℕ) → collect (length bytes) (λ k. get_or bytes k 0) ≡ bytes
collect-get_or [] = refl
collect-get_or (b ∷ bytes) = ap (λ l. b ∷ l) (collect-get_or bytes)

pub take-collect : (n m : ℕ) (f : ℕ → ℕ) → n ≤ m → take n (collect m f) ≡ collect n f
take-collect zero m f h = refl
take-collect (suc n) zero f h = absurd (omega arith)
take-collect (suc n) (suc m) f h =
    ap (λ l. f 0 ∷ l) (take-collect n m (λ k. f (suc k)) (omega arith))

pub drop-collect :
    (n m : ℕ) (f : ℕ → ℕ) → n ≤ m → drop n (collect m f) ≡ collect (m - n) (λ k. f (n + k))
drop-collect zero m f h =
    let same : m - 0 ≡ m = omega arith in
    rw same (collect_ext m f (λ k. f (0 + k)) (λ k l. ap f (omega arith)))
drop-collect (suc n) zero f h = absurd (omega arith)
drop-collect (suc n) (suc m) f h =
    let same : suc m - suc n ≡ m - n = omega arith in
    rw same (
      drop-collect n m (λ k. f (suc k)) (omega arith)
      ∙ collect_ext (m - n) (λ k. f (suc (n + k))) (λ k. f (suc n + k)) (λ k l. ap f (omega arith)))

-- The bytes that the ring holds.
abbrev pub content : Ctx → ℕ → Ring → List ℕ
content ctx o r = collect r.level (λ k. r.memory (wrap ctx (o + k)))
