-- ===== src/Sources.antt =====
-- src/src_common.c: the sources and demuxers, found by the protocol of an url.
mod Tests
use putv.Prelude.{
  ℕ, zero, suc, ◌+◌, ◌-◌, ◌<◌, ◌≤◌, ◌≡◌, refl, sym, ap, ◌∙◌, ◌⊎◌, inl, inr, arith, Bool, true,
  false, ◌&&◌, ◌||◌, Option, none, some, List, [], ◌∷◌, ◌++◌, ◌==◌, if◌then◌else◌, length,
  length-append, drop, Bool-cases, Option-cases, get_elem?, take, ltb, leb,
}
use putv.Prelude.Int.{ℤ, negsuc}
use putv.Text.{
  strchr, strncmp, starts_with, split, strchr_lem, split_single, strncmp-append, strncmp_whole,
}

-- `_src_find`, the loop over the alternatives of one protocol, which stand between bars. The fuel is more
-- than the protocol's length.
pub match_protocol : ℕ → List ℕ → List ℕ → Bool
match_protocol zero url protocol = false
match_protocol (suc fuel) url protocol = elim (strchr b'|' protocol) [
  | none ↦ strncmp (length protocol) url protocol
  | some next ↦
      let rest = match_protocol fuel url (drop 1 next) in
      if strncmp (length protocol - length next) url protocol then true else rest
]

pub matches : List ℕ → List ℕ → Bool
matches url protocol = match_protocol (suc (length protocol)) url protocol

-- `_src_find`, over the protocols of the registered ones, in their order.
pub src_find : List (List ℕ) → List ℕ → Option ℕ
src_find [] url = none
src_find (protocol ∷ protocols) url =
    let rest = src_find protocols url in
    if matches url protocol then some 0 else elim rest [ none ↦ none | some i ↦ some (suc i) ]

-- Whether one of the texts starts the url.
abbrev pub any_starts : List ℕ → List (List ℕ) → Bool
any_starts url [] = false
any_starts url (p ∷ ps) = starts_with url p || any_starts url ps

or_false : (b : Bool) → b ≡ (b || false)
or_false true = refl
or_false false = refl

if-or : (b c : Bool) → (if b then true else c) ≡ (b || c)
if-or true c = refl
if-or false c = refl

-- The loop ends, and an url is one of the protocol's where it starts with an alternative.
pub match_protocol_lem :
    (fuel : ℕ) (url protocol : List ℕ)
    → length protocol < fuel
    → match_protocol fuel url protocol ≡ any_starts url (split b'|' protocol)
unfolding match_protocol
match_protocol_lem zero url protocol room = absurd (omega arith)
match_protocol_lem (suc fuel) url protocol room = elim (Option-cases (strchr b'|' protocol)) [
  | inl e ↦
      rw (match_protocol, e, split_single b'|' protocol e)
        (rw (strncmp_whole url protocol) (or_false (starts_with url protocol)))
  | inr found ↦
      let cut = strchr_lem b'|' protocol found.0 found.1 in
      let first = cut.0 in
      let next = cut.1 in
      let whole : length protocol ≡ length first + suc (length next) =
        ap length cut.3 ∙ length-append first (b'|' ∷ next) in
      let width : length protocol - length found.0 ≡ length first =
        omega (arith, whole, ap length cut.2) in
      let test : strncmp (length first) url protocol ≡ starts_with url first =
        ap (λ p. strncmp (length first) url p) cut.3 ∙ strncmp-append url first (b'|' ∷ next) in
      let tail : drop 1 found.0 ≡ next = ap (λ p. drop 1 p) cut.2 in
      let rest = match_protocol_lem fuel url next (omega (arith, whole)) in
      rw (match_protocol, found.1, width, test, tail, rest, cut.4)
        (if-or (starts_with url first) (any_starts url (split b'|' next)))
]

abbrev pub any_matches : List ℕ → List (List ℕ) → Bool
any_matches url [] = false
any_matches url (p ∷ ps) = any_starts url (split b'|' p) || any_matches url ps

matches_lem : (url p : List ℕ) → matches url p ≡ any_starts url (split b'|' p)
unfolding matches
matches_lem url p = match_protocol_lem (suc (length p)) url p (omega arith)

-- The source that an url is opened by is the first one of whose protocol's alternatives one starts the
-- url, and there is none where no alternative does.
pub src_find_lem :
    (ps : List (List ℕ)) (url : List ℕ)
    → ((src_find ps url ≡ none) × (any_matches url ps ≡ false))
      ⊎ ((i : ℕ) × (p : List ℕ) × (src_find ps url ≡ some i)
          × (get_elem? ps i ≡ some p)
          × (any_starts url (split b'|' p) ≡ true)
          × (any_matches url (take i ps) ≡ false))
unfolding src_find
src_find_lem [] url = inl (refl, refl)
src_find_lem (p ∷ ps) url =
    let here = matches_lem url p in
    elim (Bool-cases (any_starts url (split b'|' p))) [
      | inl e ↦ inr (0, p, rw (here, e) refl, refl, e, refl)
      | inr e ↦ elim (src_find_lem ps url) [
        | inl missing ↦ inl (rw (here, e, missing.0) refl, rw e missing.1)
        | inr found ↦
            inr (suc found.0, found.1, rw (here, e, found.2) refl, found.3, found.4, rw e found.5)
      ]
    ]

-- `_src_ops_register`, in the slots from the i-th on, which are free or hold a source by its name: the
-- place, or none where all are taken by others, and the slots.
pub ops_register : ℕ → ℕ → List (Option ℕ) → Option ℕ × List (Option ℕ)
ops_register ops i [] = (none, [])
ops_register ops i (none ∷ slots) = (some i, some ops ∷ slots)
ops_register ops i (some known ∷ slots) =
    let rest = ops_register ops (i + 1) slots in
    if known == ops then (some i, some ops ∷ slots) else (rest.0, some known ∷ rest.1)

-- Registering a source once more gives its place again and changes nothing.
pub ops_register_again :
    (ops i : ℕ) (slots : List (Option ℕ))
    → ops_register ops i (ops_register ops i slots).1 ≡ ops_register ops i slots
unfolding ops_register
ops_register_again ops i [] = refl
ops_register_again ops i (none ∷ slots) =
    let self : (ops == ops) ≡ true = ground arith in rw self refl
ops_register_again ops i (some known ∷ slots) = elim (Bool-cases (known == ops)) [
  | inl e ↦ let self : (ops == ops) ≡ true = ground arith in rw (e, self) refl
  | inr e ↦ rw (e, e, ops_register_again ops (i + 1) slots) refl
]

-- `src_t` as `_src_build` and `src_build` make it: the source, what its `init` returned, the media's id
-- and the info.
pub record Built (C : Type 0) : Type 0 where
  pub ops : ℕ
  pub ctx : C
  pub mediaid : ℤ
  pub info : Option (List ℕ)

module _ {C : Type 0} (init : ℕ → List ℕ → Option C) where
  pub build : List (List ℕ) → List ℕ → Option (List ℕ) → Option (Built C)
  build protocols url info = elim (src_find protocols url) [
    | none ↦ none
    | some id ↦ elim (init id url) [
      | none ↦ none
      | some ctx ↦ some (record { ops = id; ctx = ctx; mediaid = negsuc 0; info = info })
    ]
  ]

  -- `src_build`
  pub src_build : List (List ℕ) → List ℕ → ℤ → Option (List ℕ) → Option (Built C)
  unfolding build
  src_build protocols url id info = elim (build protocols url info) [
    | none ↦ none
    | some src ↦ some (record src { mediaid = id })
  ]
