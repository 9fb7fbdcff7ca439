-- ===== src/Player/Listeners.antt =====
-- src/player.c: the list of event listeners.
-- A callback is a function on the event that it is given, which `player_volume` reads back.
use putv.Prelude.{
  ℕ, ◌+◌, ◌≤◌, ◌<◌, ◌≡◌, ◌≢◌, refl, arith, inl, inr, Bool, Bool-cases, true, false, Option, none,
  some, List, [], ◌∷◌, ◌==◌, if◌then◌else◌,
}

-- `event_listener_t`
pub record Listener {ℓ} (E : Type ℓ) : Type ℓ where
  pub id : ℕ
  pub cb : E → E

module _ {ℓ} {E : Type ℓ} where
  -- `player_eventlistener`: the new list and the id that it returns.
  pub player_eventlistener : List (Listener E) → (E → E) → ℕ × List (Listener E)
  player_eventlistener [] cb = (0, record { id = 0; cb = cb } ∷ [])
  player_eventlistener (l ∷ ls) cb = (l.id + 1, record { id = l.id + 1; cb = cb } ∷ l ∷ ls)

  -- The loop of `player_removeevent`, from a listener on.
  pub unlink : ℕ → Listener E → List (Listener E) → List (Listener E)
  unlink id l [] = l ∷ []
  unlink id l (n ∷ ls) = if n.id == id then l ∷ ls else l ∷ unlink id n ls

  -- `none` is the use of `listener->id` where the list is empty.
  pub player_removeevent : ℕ → List (Listener E) → Option (List (Listener E))
  unfolding unlink
  player_removeevent id [] = none
  player_removeevent id (l ∷ ls) = if l.id == id then some ls else some (unlink id l ls)

  -- `_player_sendevent`
  pub player_sendevent : List (Listener E) → E → E
  player_sendevent [] e = e
  player_sendevent (l ∷ ls) e = player_sendevent ls (l.cb e)

  abbrev pub has : ℕ → List (Listener E) → Bool
  has id [] = false
  has id (l ∷ ls) = if l.id == id then true else has id ls

  -- The ids fall along the list.
  abbrev pub Below : ℕ → List (Listener E) → Type 0
  Below n [] = Unit {0}
  Below n (l ∷ ls) = (l.id < n) × Below l.id ls

  abbrev pub Falls : List (Listener E) → Type 0
  Falls [] = Unit {0}
  Falls (l ∷ ls) = Below l.id ls

  Below-mono : (m n : ℕ) (ls : List (Listener E)) → m ≤ n → Below m ls → Below n ls
  Below-mono m n [] h b = tt
  Below-mono m n (l ∷ ls) h b = (omega arith, b.1)

  Below-Falls : (n : ℕ) (ls : List (Listener E)) → Below n ls → Falls ls
  Below-Falls n [] b = tt
  Below-Falls n (l ∷ ls) b = b.1

  Below-has : (n i : ℕ) (ls : List (Listener E)) → Below n ls → n ≤ i → has i ls ≡ false
  Below-has n i [] b h = refl
  Below-has n i (l ∷ ls) b h = ground (arith, Below-has l.id i ls)

  -- In a list whose ids fall, a new listener gets an id that no other has, all others stay, and the
  -- ids go on falling.
  pub eventlistener_lem :
      (ls : List (Listener E)) (cb : E → E)
      → Falls ls
      → (has (player_eventlistener ls cb).0 ls ≡ false)
        × Falls (player_eventlistener ls cb).1
        × ((i : ℕ)
            → has i (player_eventlistener ls cb).1
              ≡ (if (player_eventlistener ls cb).0 == i then true else has i ls))
  unfolding player_eventlistener
  eventlistener_lem [] cb f = (refl, tt, λ i. refl)
  eventlistener_lem (l ∷ ls) cb f =
      (ground (arith, Below-has l.id (l.id + 1) ls), (omega arith, f), λ i. refl)

  unlink-Below :
      (id n : ℕ) (l : Listener E) (ls : List (Listener E))
      → l.id < n
      → Below l.id ls
      → Below n (unlink id l ls)
  unfolding unlink
  unlink-Below id n l [] h b = (h, tt)
  unlink-Below id n l (x ∷ ls) h b = elim (Bool-cases (x.id == id)) [
    | inl e ↦ rw e (h, Below-mono x.id l.id ls (omega arith) b.1)
    | inr e ↦ rw e (h, unlink-Below id l.id x ls b.0 b.1)
  ]

  unlink-has :
      (id i : ℕ) (l : Listener E) (ls : List (Listener E))
      → l.id ≢ id
      → Below l.id ls
      → has i (unlink id l ls) ≡ (if id == i then false else has i (l ∷ ls))
  unfolding unlink
  unlink-has id i l [] h b = ground arith
  unlink-has id i l (x ∷ ls) h b = ground (arith, unlink-has id i x ls, Below-has x.id i ls)

  -- In a list that is not empty and whose ids fall, removing an id takes away the listener with
  -- that id and no other, and the ids go on falling.
  pub removeevent_lem :
      (id : ℕ) (ls : List (Listener E))
      → Falls ls
      → ls ≢ []
      → (ls' : List (Listener E)) × (player_removeevent id ls ≡ some ls')
        × Falls ls'
        × ((i : ℕ) → has i ls' ≡ (if id == i then false else has i ls))
  unfolding player_removeevent
  removeevent_lem id [] f ne = absurd (ne refl)
  removeevent_lem id (l ∷ ls) f ne = elim (Bool-cases (l.id == id)) [
    | inl e ↦ (ls, rw e, Below-Falls l.id ls f, λ i. ground (arith, Below-has l.id i ls f))
    | inr e ↦ (
      unlink id l ls,
      rw e,
      Below-Falls (l.id + 1) (unlink id l ls) (unlink-Below id (l.id + 1) l ls (omega arith) f),
      λ i. ground (arith, unlink-has id i l ls),
    )
  ]
