-- ===== src/Jitter/Registry.antt =====
-- src/jitter_common.c: the table of the jitters that exist, behind a mutex.
use putv.Prelude.{
  ℕ, zero, suc, ◌+◌, ◌≤◌, ◌<◌, ◌≡◌, refl, ◌∙◌, arith, Bool, true, false, List, [], ◌∷◌, Option,
  none, some, ◌==◌, if◌then◌else◌, length, get_or, set, get_or-set,
}

abbrev pub max_jitters : ℕ
max_jitters = 10

-- `_jitters`: for each entry, whether it points to a jitter; and whether `jitter_lock` is held.
pub record Registry : Type 0 where
  pub jitters : List Bool
  pub locked : Bool

-- The loop of `jitter_init`: the first free entry, or the table's end, from the `id`th entry on. At the
-- end the code reads one entry past the table, whose value changes nothing.
pub first_free : List Bool → ℕ → ℕ
first_free [] id = id
first_free (taken ∷ js) id = let next = first_free js (suc id) in if taken then next else id

-- `jitter_init`, which returns the new jitter's id or NULL. `built` is whether the jitter's own init
-- succeeds. `none` is a call that waits for the mutex for ever.
pub jitter_init : Bool → Registry → Option (Option ℕ × Registry)
unfolding first_free
jitter_init built r =
    let id = first_free r.jitters 0 in
    if r.locked
    then none
    else if id == max_jitters
    then some (none, record { jitters = r.jitters; locked = true })
    else some (
      if built then some id else none,
      record { jitters = set r.jitters id built; locked = false },
    )

-- `jitter_destroy`, of the jitter with this id.
pub jitter_destroy : ℕ → Registry → Registry
jitter_destroy id r = record r { jitters = set r.jitters id false }

abbrev pub AllTaken : List Bool → Type 0
AllTaken [] = Unit {0}
AllTaken (j ∷ js) = (j ≡ true) × AllTaken js

first_free-AllTaken : (js : List Bool) (id : ℕ) → AllTaken js → first_free js id ≡ id + length js
unfolding first_free
first_free-AllTaken [] id h = omega arith
first_free-AllTaken (true ∷ js) id h = first_free-AllTaken js (suc id) h.1 ∙ omega arith
first_free-AllTaken (false ∷ js) id h = cc

-- Where an entry is free, the loop stops at one that is.
first_free-free :
    (js : List Bool) (id j : ℕ)
    → j < length js
    → get_or js j true ≡ false
    → (k : ℕ) × (first_free js id ≡ id + k) × (k ≤ j) × (get_or js k true ≡ false)
unfolding first_free
first_free-free [] id j h e = absurd (omega arith)
first_free-free (false ∷ js) id j h e = (0, omega arith, omega arith, refl)
first_free-free (true ∷ js) id zero h e = cc
first_free-free (true ∷ js) id (suc j) h e =
    let (k, at, le, free) = first_free-free js (suc id) j (omega arith) e in
    (suc k, omega arith, omega arith, free)

-- While an entry is free and the mutex too, `jitter_init` of a jitter that can be built takes a free
-- entry, no other entry changes, and the mutex is free afterwards.
pub jitter_init_lem :
    (r : Registry) (j : ℕ)
    → length r.jitters ≡ max_jitters
    → r.locked ≡ false
    → j < max_jitters
    → get_or r.jitters j true ≡ false
    → (k : ℕ) × (r' : Registry) × (jitter_init true r ≡ some (some k, r'))
      × (get_or r.jitters k true ≡ false)
      × (r'.locked ≡ false)
      × ((i : ℕ) → get_or r'.jitters i true ≡ (if k == i then true else get_or r.jitters i true))
unfolding jitter_init
jitter_init_lem r j n l h e =
    let (k, at, le, free) = first_free-free r.jitters 0 j (omega (arith, n)) e in
    let here : first_free r.jitters 0 ≡ k = at ∙ omega arith in
    let below : (k == max_jitters) ≡ false = ground arith in
    (
      k,
      record { jitters = set r.jitters k true; locked = false },
      rw (l, here, below) refl,
      free,
      refl,
      λ i. get_or-set r.jitters k i true true (omega (arith, n)),
    )

-- The mutex is not released where the table is full: a call that finds the mutex free returns NULL,
-- and every later one waits for ever, also once a jitter has been destroyed.
pub full_deadlocks :
    (r : Registry) (built built' : Bool) (id : ℕ)
    → length r.jitters ≡ max_jitters
    → AllTaken r.jitters
    → r.locked ≡ false
    → (r' : Registry) × (jitter_init built r ≡ some (none, r'))
      × (jitter_init built' (jitter_destroy id r') ≡ none)
unfolding jitter_init jitter_destroy
full_deadlocks r built built' id n all l =
    let full : first_free r.jitters 0 ≡ max_jitters =
      first_free-AllTaken r.jitters 0 all ∙ omega arith in
    (record { jitters = r.jitters; locked = true }, rw (l, full) refl, refl)
