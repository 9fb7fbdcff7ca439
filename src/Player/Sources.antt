-- ===== src/Player/Sources.antt =====
-- Every source that is built is held by the player or was destroyed, once.
use putv.Prelude.{
  ℕ, zero, suc, ◌+◌, ◌≡◌, ◌≢◌, refl, arith, ◌∙◌, inl, inr, Option-cases, Bool, true, false, Option,
  none, some, List, [], ◌∷◌, ◌++◌, ◌==◌, if◌then◌else◌,
}
use putv.Player.{
  Base, unknown, stop, play, change, error, State, Src, Action, flush, reset, pause, notify,
  destroy, media_next, media_play, media_end, Player, each, destroys, player_play_cb, engine_stop,
  engine_play, engine_change, switch_src, start_src, engine, played, emit,
}

abbrev pub is : ℕ → Src → ℕ
is k s = if s.key == k then 1 else 0

-- How often the source `k` was destroyed, and how often the player holds it.
abbrev destroyed_by : ℕ → Action → ℕ
destroyed_by k (destroy s) = is k s
destroyed_by k _ = 0

abbrev pub destroyed : ℕ → List Action → ℕ
destroyed k [] = 0
destroyed k (a ∷ as') = destroyed_by k a + destroyed k as'

abbrev pub holds : ℕ → Option Src → ℕ
holds k none = 0
holds k (some s) = is k s

abbrev pub accounted : ℕ → Player → ℕ
accounted k p = destroyed k p.log + holds k p.src + holds k p.nextsrc

-- What `src_build` makes in a turn of the engine.
abbrev built : ℕ → Option (Option Src) → ℕ
built k none = 0
built k (some s) = holds k s

abbrev pub gained : ℕ → Option (Option Src) → Base → Bool → ℕ
gained k answer play false = built k answer
gained k answer _ _ = 0

destroyed-append :
    (k : ℕ) (xs ys : List Action) → destroyed k (xs ++ ys) ≡ destroyed k xs + destroyed k ys
destroyed-append k [] ys = omega arith
destroyed-append k (a ∷ xs) ys = omega (arith, destroyed-append k xs ys)

destroyed-each :
    (k : ℕ) (f : ℕ → Action) (i n : ℕ)
    → ((j : ℕ) → destroyed_by k (f j) ≡ 0)
    → destroyed k (each f i n) ≡ 0
destroyed-each k f i zero h = refl
destroyed-each k f i (suc n) h = omega (arith, h i, destroyed-each k f (i + 1) n h)

destroyed-destroys : (k : ℕ) (o : Option Src) → destroyed k (destroys o) ≡ holds k o
destroyed-destroys k none = refl
destroyed-destroys k (some s) = ground arith

destroyed-flush : (k i n : ℕ) → destroyed k (each flush i n) ≡ 0
destroyed-flush k i n = destroyed-each k flush i n (λ j. refl)

destroyed-reset : (k i n : ℕ) → destroyed k (each reset i n) ≡ 0
destroyed-reset k i n = destroyed-each k reset i n (λ j. refl)

destroyed-pause : (k i n : ℕ) (b : Bool) → destroyed k (each (λ i. pause i b) i n) ≡ 0
destroyed-pause k i n b = destroyed-each k (λ i. pause i b) i n (λ j. refl)

destroyed-end : (k : ℕ) (b : Bool) → destroyed k (if b then media_end ∷ [] else []) ≡ 0
destroyed-end k true = refl
destroyed-end k false = refl

ruleset counts = (
  arith, destroyed-append, destroyed-destroys, destroyed-flush, destroyed-reset, destroyed-pause,
  destroyed-end,
)

module _ (k : ℕ) (p : Player) where
  stop-accounted : accounted k (engine_stop p).1 ≡ accounted k p
  unfolding engine_stop
  stop-accounted = omega counts

  change-accounted : (paused : Bool) → accounted k (engine_change paused p).1 ≡ accounted k p
  unfolding engine_change
  change-accounted paused =
      start-accounted paused p.nextsrc (switch_src paused p) ∙ switch-accounted paused
    where
      start-accounted :
          (paused : Bool) (o : Option Src) (q : Player)
          → accounted k (start_src paused o q).1 ≡ accounted k q
      start-accounted paused none q = refl
      start-accounted paused (some s) q = omega counts

      switch-accounted : (paused : Bool) → accounted k (switch_src paused p) ≡ accounted k p
      switch-accounted paused = omega (counts, destroyed-pause k 0 p.noutstreams paused)

  play_cb-accounted : (s : Src) → accounted k (player_play_cb (some s) p) ≡ accounted k p + is k s
  unfolding player_play_cb
  play_cb-accounted s = omega counts

played-accounted :
    (k : ℕ) (answer : Option (Option Src)) (q : Player)
    → answer ≢ some none
    → accounted k (played answer q) ≡ accounted k q + built k answer
played-accounted k none q h = omega arith
played-accounted k (some none) q h = absurd (h refl)
played-accounted k (some (some s)) q h = play_cb-accounted k q s

play-accounted :
    (k : ℕ) (p : Player) (answer : Option (Option Src)) (paused : Bool) (new : State) (q : Player)
    → answer ≢ some none
    → engine_play answer paused p ≡ some (new, q)
    → accounted k q ≡ accounted k p + gained k answer play paused
unfolding engine_play
play-accounted k p answer true new q h e =
    ground (arith, destroyed-append k p.log (notify p.state ∷ []))
play-accounted k p answer false new q h e =
    let told : Player = emit (notify p.state ∷ []) p in
    let asked : Player = emit (media_next ∷ media_play ∷ []) told in
    ground (
      arith,
      played-accounted k answer asked h,
      destroyed-append k p.log (notify p.state ∷ []),
      destroyed-append k told.log (media_next ∷ media_play ∷ []),
    )

accounts :
    (k : ℕ) (p : Player) (answer : Option (Option Src)) (b : Base) (paused : Bool) (new : State)
    (q : Player)
    → answer ≢ some none
    → engine answer b paused p ≡ some (new, q)
    → accounted k q ≡ accounted k p + gained k answer b paused
unfolding engine
accounts k p answer unknown paused new q h e = ground arith
accounts k p answer error paused new q h e = ground arith
accounts k p answer stop paused new q h e = ground (arith, stop-accounted k p)
accounts k p answer change paused new q h e = ground (arith, change-accounted k p paused)
accounts k p answer play paused new q h e = ground (arith, play-accounted k p answer paused new q h)

engine_returns :
    (p : Player) (answer : Option (Option Src)) (b : Base) (paused : Bool)
    → p.media ≡ true
    → engine answer b paused p ≢ none
unfolding engine engine_play
engine_returns p answer unknown paused m e = cc
engine_returns p answer error paused m e = cc
engine_returns p answer stop paused m e = cc
engine_returns p answer change paused m e = cc
engine_returns p answer play paused m e = ground arith

-- With a media, the engine returns from every state, loses no source and destroys none twice: what was
-- destroyed and what is held make up the same sum before and after, with what the media's answer
-- adds. It is for answers in which `src_build` gives a source, or in which the media plays nothing.
pub engine_accounts :
    (k : ℕ) (p : Player) (answer : Option (Option Src)) (b : Base) (paused : Bool)
    → p.media ≡ true
    → answer ≢ some none
    → (new : State) × (q : Player) × (engine answer b paused p ≡ some (new, q))
      × (accounted k q ≡ accounted k p + gained k answer b paused)
engine_accounts k p answer b paused m h = elim (Option-cases (engine answer b paused p)) [
  | inl e ↦ absurd (engine_returns p answer b paused m e)
  | inr ((new, q), e) ↦ (new, q, e, accounts k p answer b paused new q h e)
]

-- Where the engine at PLAY asks the media for the next source while one is prepared, and
-- `src_build` fails, the source that was prepared is dropped and not destroyed.
pub failed_build_leaks :
    (k : ℕ) (p q : Player) (s : Src) (new : State)
    → p.media ≡ true
    → p.nextsrc ≡ some s
    → engine (some none) play false p ≡ some (new, q)
    → accounted k q + is k s ≡ accounted k p
unfolding engine engine_play player_play_cb
failed_build_leaks k p q s new m n e =
    let told : Player = emit (notify p.state ∷ []) p in
    ground (
      arith,
      destroyed-append k p.log (notify p.state ∷ []),
      destroyed-append k told.log (media_next ∷ media_play ∷ []),
    )
