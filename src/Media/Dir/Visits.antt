-- ===== src/Media/Dir/Visits.antt =====
-- src/media_dir.c: a player that asks for the next media again and again.
use putv.Prelude.{
  ℕ, zero, suc, ◌+◌, ◌≤◌, ◌≡◌, refl, arith, Option, none, some, List, [], ◌∷◌, length, false,
}
use putv.Prelude.Int.{ℤ, pos, negsuc}
use putv.Media.Mime.{Mime}
use putv.Media.Dir.{eq_ℤ}
use putv.Media.Dir.Api.{Dir, media_next}
use putv.Media.Dir.Next.{all, Playing, moved, next_lem, next_first}

abbrev pub ids : ℕ → ℕ → List ℤ
ids k zero = []
ids k (suc n) = pos k ∷ ids (suc k) n

module _ (getmime : List ℕ → Mime) where
  -- What n calls of `media_next` return, where the player plays what they return.
  pub visits : ℕ → Dir → ℤ → (ℕ → ℤ → ℤ) → Option (List ℤ)
  visits zero ctx playing draws = some []
  visits (suc n) ctx playing draws = elim (media_next getmime 1 ctx playing draws) [
    | none ↦ none
    | some r ↦ elim (visits n r.1 r.0 draws) [ none ↦ none | some l ↦ some (r.0 ∷ l) ]
  ]

  visits_turn :
      (n : ℕ) (ctx after : Dir) (playing id : ℤ) (draws : ℕ → ℤ → ℤ) (l : List ℤ)
      → media_next getmime 1 ctx playing draws ≡ some (id, after)
      → visits n after id draws ≡ some l
      → visits (suc n) ctx playing draws ≡ some (id ∷ l)
  unfolding visits
  visits_turn n ctx after playing id draws l h k = rw (visits, h, k) refl

  visits_on :
      (n : ℕ) (ctx : Dir) (k : ℕ) (draws : ℕ → ℤ → ℤ)
      → Playing getmime ctx k
      → ctx.firstmediaid ≡ pos 0
      → suc k + n ≤ length (all getmime ctx)
      → visits n ctx (pos k) draws ≡ some (ids (suc k) n)
  unfolding visits
  visits_on zero ctx k draws p h le = refl
  visits_on (suc n) ctx k draws p h le =
      let fresh : eq_ℤ ctx.firstmediaid (pos (suc k)) ≡ false = rw h (ground arith) in
      let step = next_lem getmime 0 ctx k draws p (omega arith) fresh in
      let kept : (moved ctx (suc k) step.0).firstmediaid ≡ pos 0 = rw h refl in
      visits_turn n ctx (moved ctx (suc k) step.0) (pos k) (pos (suc k)) draws (ids (suc (suc k)) n)
        step.1 (visits_on n (moved ctx (suc k) step.0) (suc k) draws step.2 kept (omega arith))

  visits_from :
      (n : ℕ) (ctx : Dir) (draws : ℕ → ℤ → ℤ)
      → length (all getmime ctx) ≡ n
      → ctx.count ≡ pos (length (all getmime ctx))
      → ctx.random ≡ false
      → ctx.current ≡ []
      → ctx.firstmediaid ≡ negsuc 0
      → visits n ctx (negsuc 0) draws ≡ some (ids 0 n)
  unfolding visits
  visits_from zero ctx draws size counted straight at_start first = refl
  visits_from (suc n) ctx draws size counted straight at_start first =
      let fresh : eq_ℤ ctx.firstmediaid (pos 0) ≡ false = rw first refl in
      let step = next_first getmime 0 ctx draws counted straight (omega arith) at_start fresh in
      let after : (moved ctx 0 step.0).firstmediaid ≡ pos 0 = rw first refl in
      visits_turn n ctx (moved ctx 0 step.0) (negsuc 0) (pos 0) draws (ids 1 n) step.1
        (visits_on n (moved ctx 0 step.0) 0 draws step.2 after (omega arith))

  -- A list that was counted and is at its start: as many calls of `media_next` as it has medias return
  -- the ids of all of them, in their order.
  pub visits-all :
      (ctx : Dir) (draws : ℕ → ℤ → ℤ)
      → ctx.count ≡ pos (length (all getmime ctx))
      → ctx.random ≡ false
      → ctx.current ≡ []
      → ctx.firstmediaid ≡ negsuc 0
      → visits (length (all getmime ctx)) ctx (negsuc 0) draws
        ≡ some (ids 0 (length (all getmime ctx)))
  visits-all ctx draws counted straight at_start first =
      visits_from (length (all getmime ctx)) ctx draws refl counted straight at_start first
