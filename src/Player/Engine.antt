-- ===== src/Player/Engine.antt =====
-- Turns of `player_run`: how the player starts, goes on and stops, and what happens to a request that
-- comes while the engine runs.
use putv.Prelude.{
  ◌≡◌, ◌≢◌, ◌∙◌, ap, inl, inr, arith, Option-cases, Bool, true, false, Option, none, some, [], ◌∷◌,
  ◌++◌, append_assoc, append-[],
}
use putv.Player.{
  Base, stop, play, change, State, plain, Src, Player, engine, engine_play, engine_change,
  switch_src, start_src, destroys, each, pause, run, notify, run_turn,
}

pub turn_returns :
    (p : Player) (answer : Option (Option Src)) (request : Option State) (busy : Bool)
    → p.media ≡ true
    → run_turn busy answer request p ≢ none
unfolding run_turn engine engine_play
turn_returns p answer request busy m e = ground arith

first_turn :
    (p q : Player) (s : Src) (last : Base)
    → p.media ≡ true
    → p.state ≡ plain play
    → p.src ≡ none
    → run_turn false (some (some s)) none p ≡ some (last, q)
    → (q.media ≡ true) × (q.state ≡ plain change) × (q.nextsrc ≡ some s) × (q.src ≡ none)
unfolding run_turn
first_turn p q s last m st no_src e = ground arith

pub second_turn :
    (q r : Player) (s : Src) (last : Base) (answer : Option (Option Src))
    → q.media ≡ true
    → q.state ≡ plain change
    → q.nextsrc ≡ some s
    → run_turn false answer none q ≡ some (last, r)
    → (r.state ≡ plain play) × (r.src ≡ some s) × (r.nextsrc ≡ none)
unfolding run_turn
second_turn q r s last answer m st next e = ground arith

-- Such a turn destroys the source before, runs s last, and tells the listeners.
second_log :
    (q r : Player) (s : Src) (last : Base) (answer : Option (Option Src))
    → q.media ≡ true
    → q.state ≡ plain change
    → q.nextsrc ≡ some s
    → run_turn false answer none q ≡ some (last, r)
    → r.log
      ≡ ((q.log ++ destroys q.src ++ each (λ i. pause i false) 0 q.noutstreams) ++ (run s ∷ []))
        ++ (notify (plain change) ∷ [])
unfolding run_turn engine engine_change switch_src start_src
second_log q r s last answer m st next e = ground arith

-- A player that has a media, is asked to play and plays nothing does so in two turns: the first one
-- prepares the source s that the media gives and asks for the change; the next one lets the
-- streams go on, runs s, tells the listeners and settles on PLAY, and does nothing else to other parts.
pub starts_in_two_turns :
    (p : Player) (s : Src) (answer : Option (Option Src))
    → p.media ≡ true
    → p.state ≡ plain play
    → p.src ≡ none
    → (one : Base × Player) × (two : Base × Player) × (run_turn false (some (some s)) none p
        ≡ some one)
      × (run_turn false answer none one.1 ≡ some two)
      × (one.1.state ≡ plain change)
      × (one.1.nextsrc ≡ some s)
      × (two.1.state ≡ plain play)
      × (two.1.src ≡ some s)
      × (two.1.nextsrc ≡ none)
      × (two.1.log
          ≡ one.1.log
            ++ each (λ i. pause i false) 0 one.1.noutstreams
            ++ run s ∷ (notify (plain change) ∷ []))
starts_in_two_turns p s answer m st no_src =
    elim (Option-cases (run_turn false (some (some s)) none p)) [
      | inl e ↦ absurd (turn_returns p (some (some s)) none false m e)
      | inr ((last, q), e) ↦
          let (mq, sq, nq, cq) = first_turn p q s last m st no_src e in
          elim (Option-cases (run_turn false answer none q)) [
            | inl f ↦ absurd (turn_returns q answer none false mq f)
            | inr ((last', r), f) ↦
                let (sr, cr, nr) = second_turn q r s last' answer mq sq nq f in
                let played = each (λ i. pause i false) 0 q.noutstreams in
                let told = second_log q r s last' answer mq sq nq f in
                (
                  (last, q),
                  (last', r),
                  e,
                  f,
                  sq,
                  nq,
                  sr,
                  cr,
                  nr,
                  told
                      ∙ ap
                          (λ o.
                            ((q.log ++ destroys o ++ played) ++ (run s ∷ []))
                            ++ (notify (plain change) ∷ []))
                          cq
                      ∙ ap (λ l. ((l ++ played) ++ (run s ∷ [])) ++ (notify (plain change) ∷ []))
                          (append-[] q.log)
                      ∙ append_assoc (q.log ++ played) (run s ∷ []) (notify (plain change) ∷ []),
                )
          ]
    ]

stop_returns :
    (p : Player) (answer : Option (Option Src)) (busy : Bool)
    → p.state.base ≡ stop
    → run_turn busy answer none p ≢ none
unfolding run_turn engine
stop_returns p answer busy st e = ground arith

stop_result :
    (p q : Player) (last : Base) (answer : Option (Option Src)) (busy : Bool)
    → p.state.base ≡ stop
    → run_turn busy answer none p ≡ some (last, q)
    → (q.src ≡ none) × (q.nextsrc ≡ none) × (last ≡ stop) × (q.state.base ≡ stop)
unfolding run_turn
stop_result p q last answer busy st e = ground arith

-- A turn at STOP, from any player, returns with nothing playing and nothing prepared, and stays at
-- STOP.
pub stop_turn :
    (p : Player) (answer : Option (Option Src)) (busy : Bool)
    → p.state.base ≡ stop
    → (q : Player) × (run_turn busy answer none p ≡ some (stop, q))
      × (q.src ≡ none)
      × (q.nextsrc ≡ none)
      × (q.state.base ≡ stop)
stop_turn p answer busy st = elim (Option-cases (run_turn busy answer none p)) [
  | inl e ↦ absurd (stop_returns p answer busy st e)
  | inr ((last, q), e) ↦
      let (a, b, c, d) = stop_result p q last answer busy st e in
      (q, e ∙ ap (λ l. some (l, q)) c, a, b, d)
]

change_result :
    (p q : Player) (last : Base) (answer : Option (Option Src)) (busy : Bool)
    → p.media ≡ true
    → p.state.base ≡ change
    → p.nextsrc ≡ none
    → run_turn busy answer none p ≡ some (last, q)
    → (q.state ≡ plain stop) × (q.src ≡ none)
unfolding run_turn
change_result p q last answer busy m st n e = ground arith

-- With a media, a turn at CHANGE with nothing prepared ends at STOP with nothing playing.
pub change_without_next :
    (p : Player) (answer : Option (Option Src)) (busy : Bool)
    → p.media ≡ true
    → p.state.base ≡ change
    → p.nextsrc ≡ none
    → (last : Base) × (q : Player) × (run_turn busy answer none p ≡ some (last, q))
      × (q.state ≡ plain stop)
      × (q.src ≡ none)
change_without_next p answer busy m st n = elim (Option-cases (run_turn busy answer none p)) [
  | inl e ↦ absurd (turn_returns p answer none busy m e)
  | inr ((last, q), e) ↦
      let (a, b) = change_result p q last answer busy m st n e in (last, q, e, a, b)
]

-- With a media, a state that another thread requests while the engine runs is lost whenever the
-- engine itself moves to another state: the turn ends in the state that it ends in with no request.
pub request_lost :
    (p q : Player) (last : Base) (s : State) (answer : Option (Option Src)) (busy : Bool)
    → p.media ≡ true
    → run_turn busy answer none p ≡ some (last, q)
    → q.state ≢ p.state
    → (q' : Player) (last' : Base) → run_turn busy answer (some s) p ≡ some (last', q')
    → q'.state ≡ q.state
unfolding run_turn
request_lost p q last s answer busy m e moved q' last' e' = ground arith

-- A turn at PLAY with no media uses the media that is NULL, if the mutex is taken at that moment.
pub play_without_media :
    (p : Player) (answer : Option (Option Src)) (request : Option State)
    → p.media ≡ false
    → p.state ≡ plain play
    → run_turn true answer request p ≡ none
unfolding run_turn engine_play
play_without_media p answer request m st = ground arith
