-- ===== src/Jitter/Ring/Push.antt =====
-- `jitter_push` appends the bytes that the producer wrote where it pulled.
use putv.Prelude.{
  ℕ, zero, suc, ◌+◌, ◌-◌, ◌≤◌, ◌<◌, ◌≡◌, refl, ap, ◌∙◌, arith, Bool-cases, true, false, inl, inr,
  List, ◌++◌, ltb, leb, if◌then◌else◌, length, get_or, some,
}
use putv.Prelude.Int.{ℤ}
use putv.Jitter.Ctx.{Ctx}
use putv.Jitter.Ring.Defs.{
  Ring, buffer_start, buffer_end, capacity, memcpy, write, push_move, push_store, push_signal,
  jitter_push,
}
use putv.Jitter.Ring.Valid.{IsValid, wrap, collect_ext, collect_add, collect-get_or, content}

-- The producer writes its bytes where it pulled.
abbrev pub written : ℕ → List ℕ → Ring → Ring
written at bytes r = record r { memory = write at bytes r.memory }

-- The offset of `in` after a push.
abbrev pub next_in : Ctx → ℕ → ℕ → ℕ
next_in ctx i n = if leb (buffer_end ctx) (i + n) then i + n - capacity ctx else i + n

pub push_wraps :
    (ctx : Ctx) (n at : ℕ) (r : Ring)
    → leb (buffer_end ctx) (at + n) ≡ true
    → push_move ctx n at r ≡ (
      record r {
        memory = memcpy (buffer_start ctx) (buffer_end ctx) (at + n - buffer_end ctx) r.memory;
        in_at = some (buffer_start ctx + (at + n - buffer_end ctx));
        level = r.level + n;
      },
      at + n - buffer_end ctx,
    )
unfolding push_move
push_wraps ctx n at r e = rw e refl

push_stays :
    (ctx : Ctx) (n at : ℕ) (r : Ring)
    → leb (buffer_end ctx) (at + n) ≡ false
    → push_move ctx n at r ≡ (record r { in_at = some (at + n); level = r.level + n }, n)
unfolding push_move
push_stays ctx n at r e = rw e refl

pub push_store-push_move :
    (ctx : Ctx) (n at : ℕ) (r : Ring)
    → 0 < n
    → r.in_at ≡ some at
    → push_store ctx n r ≡ push_move ctx n at r
unfolding push_store
push_store-push_move ctx zero at r h e = absurd (omega arith)
push_store-push_move ctx (suc n) at r h e = rw e refl

push_level : (ctx : Ctx) (n at : ℕ) (r : Ring) → (push_move ctx n at r).0.level ≡ r.level + n
unfolding push_move
push_level ctx n at r = ground arith

pub memcpy_in :
    (to from n : ℕ) (memory : ℕ → ℕ) (x : ℕ)
    → to ≤ x
    → x < to + n
    → memcpy to from n memory x ≡ memory (from + (x - to))
unfolding memcpy
memcpy_in to from n memory x h k = ground arith

pub memcpy_out :
    (to from n : ℕ) (memory : ℕ → ℕ) (x : ℕ) → to + n ≤ x → memcpy to from n memory x ≡ memory x
unfolding memcpy
memcpy_out to from n memory x h = ground arith

write_in :
    (to : ℕ) (bytes : List ℕ) (memory : ℕ → ℕ) (k : ℕ)
    → k < length bytes
    → write to bytes memory (to + k) ≡ get_or bytes k 0
unfolding write
write_in to bytes memory k h = let same : to + k - to ≡ k = omega arith in rw same (ground arith)

module _ (ctx : Ctx) (i o : ℕ) (r : Ring) (v : IsValid ctx i o r) (bytes : List ℕ)
    (small : length bytes ≤ ctx.size) (room : r.level + length bytes ≤ capacity ctx) where
  abbrev moved : Ring
  moved = (push_move ctx (length bytes) i (written i bytes r)).0

  moved-IsValid : IsValid ctx (next_in ctx i (length bytes)) o moved
  unfolding push_move
  moved-IsValid = record {
    in_eq = ground arith;
    out_eq = ground (arith, v.out_eq);
    some_size = v.some_size;
    some_count = v.some_count;
    in_ge = ground (arith, v.in_ge, v.in_lt, v.some_count);
    in_lt = ground (arith, v.in_ge, v.in_lt, v.some_count);
    out_le = v.out_le;
    level_le = ground (arith, room);
    in_wrap =
        rw (push_level ctx (length bytes) i (written i bytes r))
          (ground (arith, v.in_wrap, v.in_ge, v.in_lt, v.some_count, v.out_le, room));
  }

  -- What `push_move` makes of the memory, in its two branches.
  memory_wraps :
      leb (buffer_end ctx) (i + length bytes) ≡ true
      → moved.memory
        ≡ memcpy
            (buffer_start ctx)
            (buffer_end ctx)
            (i + length bytes - buffer_end ctx)
            (write i bytes r.memory)
  memory_wraps e = ap (λ x. x.0.memory) (push_wraps ctx (length bytes) i (written i bytes r) e)

  memory_stays :
      leb (buffer_end ctx) (i + length bytes) ≡ false → moved.memory ≡ write i bytes r.memory
  memory_stays e = ap (λ x. x.0.memory) (push_stays ctx (length bytes) i (written i bytes r) e)

  -- Where the k-th byte after those held stands.
  place :
      (k : ℕ)
      → k < length bytes
      → wrap ctx (o + (r.level + k))
        ≡ (if ltb (i + k) (buffer_end ctx) then i + k else i + k - capacity ctx)
  place k h = ground (arith, v.in_wrap, v.in_ge, v.in_lt, v.some_count, v.out_le, room)

  kept_byte : (k : ℕ) → k < r.level → moved.memory (wrap ctx (o + k)) ≡ r.memory (wrap ctx (o + k))
  unfolding memcpy write
  kept_byte k h = elim (Bool-cases (leb (buffer_end ctx) (i + length bytes))) [
    | inl e ↦
        rw (memory_wraps e)
          (ground (arith, v.in_wrap, v.in_ge, v.in_lt, v.some_count, v.out_le, room))
    | inr e ↦
        rw (memory_stays e)
          (ground (arith, v.in_wrap, v.in_ge, v.in_lt, v.some_count, v.out_le, room))
  ]

  new_byte :
      (k : ℕ) → k < length bytes → moved.memory (wrap ctx (o + (r.level + k))) ≡ get_or bytes k 0
  unfolding memcpy write
  new_byte k h = elim (Bool-cases (leb (buffer_end ctx) (i + length bytes))) [
    | inl e ↦ elim (Bool-cases (ltb (i + k) (buffer_end ctx))) [
      | inl f ↦
          rw (memory_wraps e, place k h, f)
            (memcpy_out (buffer_start ctx) (buffer_end ctx) (i + length bytes - buffer_end ctx)
                (write i bytes r.memory) (i + k) (ground (arith, v.in_ge, v.some_count))
              ∙ write_in i bytes r.memory k h)
      | inr f ↦
          let back : buffer_end ctx + (i + k - capacity ctx - buffer_start ctx) ≡ i + k =
            ground (arith, v.some_count) in
          rw (memory_wraps e, place k h, f)
            (memcpy_in (buffer_start ctx) (buffer_end ctx) (i + length bytes - buffer_end ctx)
                (write i bytes r.memory) (i + k - capacity ctx) (ground arith) (ground arith)
              ∙ ap (write i bytes r.memory) back
              ∙ write_in i bytes r.memory k h)
    ]
    | inr e ↦
        let inside : ltb (i + k) (buffer_end ctx) ≡ true = ground arith in
        rw (memory_stays e, place k h, inside) (write_in i bytes r.memory k h)
  ]

  -- The bytes go to the end of the content.
  content-push_move : content ctx o moved ≡ content ctx o r ++ bytes
  content-push_move =
      let n = length bytes in
      rw
        (
          push_level ctx n i (written i bytes r),
          collect_add r.level n (λ k. moved.memory (wrap ctx (o + k))),
          collect_ext r.level (λ k. moved.memory (wrap ctx (o + k)))
              (λ k. r.memory (wrap ctx (o + k))) kept_byte,
          collect_ext n (λ k. moved.memory (wrap ctx (o + (r.level + k)))) (λ k. get_or bytes k 0)
              new_byte,
          collect-get_or bytes,
        )
        refl

  same_but_state : (s : Ring) → push_signal ctx s ≡ record s { state = (push_signal ctx s).state }
  unfolding push_signal
  same_but_state s = ground arith

  state-IsValid : (j : ℕ) (s : Ring) → IsValid ctx j o s → IsValid ctx j o (push_signal ctx s)
  state-IsValid j s w = rw (same_but_state s) (record {
    in_eq = w.in_eq;
    out_eq = w.out_eq;
    some_size = w.some_size;
    some_count = w.some_count;
    in_ge = w.in_ge;
    in_lt = w.in_lt;
    out_le = w.out_le;
    level_le = w.level_le;
    in_wrap = w.in_wrap;
  })

  push_as_move :
      (answer : ℕ → ℤ)
      → ctx.consume ≡ false
      → 0 < length bytes
      → jitter_push ctx answer (length bytes) (written i bytes r) ≡ push_signal ctx moved
  unfolding jitter_push
  push_as_move answer c some_bytes =
      rw (c, push_store-push_move ctx (length bytes) i (written i bytes r) some_bytes v.in_eq) refl

  -- Bytes that the producer wrote where it pulled, as many as a buffer's size at most and as there is
  -- room for, are appended by `jitter_push` to those that the ring holds, and the ring stays valid,
  -- also where they go round the end of the memory.
  pub push_appends :
      (answer : ℕ → ℤ)
      → ctx.consume ≡ false
      → 0 < length bytes
      → let s = jitter_push ctx answer (length bytes) (written i bytes r) in
        IsValid ctx (next_in ctx i (length bytes)) o s
        × (content ctx o s ≡ content ctx o r ++ bytes)
  push_appends answer c some_bytes = rw (push_as_move answer c some_bytes) (
    state-IsValid (next_in ctx i (length bytes)) moved moved-IsValid,
    rw (same_but_state moved) content-push_move,
  )
