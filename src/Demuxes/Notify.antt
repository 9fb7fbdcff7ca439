-- ===== src/Demuxes/Notify.antt =====
-- src/demux_passthrough.c, `demux_run`: who is told of the stream.
use putv.Prelude.{
  ℕ, zero, suc, ◌+◌, ◌<◌, ◌≡◌, refl, sym, ap, ◌∙◌, arith, Option, none, some, List, [], ◌∷◌, ◌++◌,
  ◌==◌, if◌then◌else◌, append_assoc, append-[],
}
use putv.Media.Mime.{Mime}
use putv.Demuxes.Passthrough.{
  Listener, listener, Listeners, nil, cons, name, builds, adds, to_list, Call, new_es, decode_es,
  Demux, built, run_loop, demux_run,
}

-- The number of listeners of a name, with those that are added, at any depth.
unfoldable mutual
  pub times : ℕ → Listener → ℕ
  times n (listener m b ls) = (if m == n then 1 else 0) + times_list n ls

  pub times_list : ℕ → Listeners → ℕ
  times_list n nil = 0
  times_list n (cons l ls) = times n l + times_list n ls

unfoldable mutual
  pub size : Listener → ℕ
  size (listener m b ls) = suc (size_list ls)

  pub size_list : Listeners → ℕ
  size_list nil = 0
  size_list (cons l ls) = size l + size_list ls

abbrev pub total : (Listener → ℕ) → List Listener → ℕ
total f [] = 0
total f (l ∷ ls) = f l + total f ls

abbrev pub once : ℕ → Listener → ℕ
once n l = if name l == n then 1 else 0

-- The calls for listeners, in their order, each with the decoder that was set last.
abbrev pub told : Mime → Option ℕ → List Listener → List Call
told mime decoder [] = []
told mime decoder (l ∷ ls) =
    let now = built (builds l) decoder in
    new_es (name l) mime ∷ (decode_es (name l) now ∷ told mime now ls)

total-append : (f : Listener → ℕ) (a b : List Listener) → total f (a ++ b) ≡ total f a + total f b
total-append f [] b = omega arith
total-append f (l ∷ a) b = omega (arith, total-append f a b)

total-to_list : (n : ℕ) (ls : Listeners) → total (times n) (to_list ls) ≡ times_list n ls
unfolding times
total-to_list n nil = refl
total-to_list n (cons l ls) = ap (λ x. times n l + x) (total-to_list n ls)

total_size-to_list : (ls : Listeners) → total size (to_list ls) ≡ size_list ls
unfolding size
total_size-to_list nil = refl
total_size-to_list (cons l ls) = ap (λ x. size l + x) (total_size-to_list ls)

times-adds : (n : ℕ) (l : Listener) → times n l ≡ once n l + total (times n) (adds l)
unfolding times
times-adds n (listener m b ls) = ap (λ x. (if m == n then 1 else 0) + x) (sym (total-to_list n ls))

size_adds : (l : Listener) → size l ≡ suc (total size (adds l))
unfolding size
size_adds (listener m b ls) = ap suc (sym (total_size-to_list ls))

run_loop_lem :
    (fuel : ℕ) (mime : Mime) (called waiting : List Listener) (decoder : Option ℕ)
    (calls : List Call)
    → total size waiting < fuel
    → (more : List Listener) × (run_loop fuel mime called waiting decoder calls
        ≡ some (called ++ more, calls ++ told mime decoder more))
      × ((n : ℕ) → total (once n) more ≡ total (times n) waiting)
unfolding run_loop
run_loop_lem zero mime called waiting decoder calls h = absurd (omega arith)
run_loop_lem (suc fuel) mime called [] decoder calls h =
    ([], rw (append-[] called, append-[] calls) refl, λ n. refl)
run_loop_lem (suc fuel) mime called (l ∷ waiting) decoder calls h =
    let now = built (builds l) decoder in
    let left = total-append size waiting (adds l) in
    let here = size_adds l in
    let both = new_es (name l) mime ∷ (decode_es (name l) now ∷ []) in
    let calls' = calls ++ both in
    let rest =
      run_loop_lem fuel mime (called ++ l ∷ []) (waiting ++ adds l) now calls' (omega arith) in
    (
      l ∷ rest.0,
      rest.1
          ∙ rw (append_assoc called (l ∷ []) rest.0, append_assoc calls both (told mime now rest.0))
              refl,
      λ n. omega (arith, rest.2 n, total-append (times n) waiting (adds l), times-adds n l),
    )

-- `demux_run` ends, and tells each listener once of the new stream and then to decode it with the decoder
-- that was set last, those too that listeners add while they are called; it leaves all of them in the list.
pub demux_run_lem :
    (fuel : ℕ) (ctx : Demux)
    → total size ctx.listeners < fuel
    → (all : List Listener) × (demux_run fuel ctx
        ≡ some (record ctx { listeners = all; calls = ctx.calls ++ told ctx.mime none all }))
      × ((n : ℕ) → total (once n) all ≡ total (times n) ctx.listeners)
unfolding demux_run
demux_run_lem fuel ctx h =
    let r = run_loop_lem fuel ctx.mime [] ctx.listeners none ctx.calls h in
    (r.0, rw (demux_run, r.1) refl, r.2)
