-- ===== src/Jitter/Sg/History.antt =====
-- Any interleaving of a producer's, a consumer's and a controller's calls: buffers leave in the order
-- in which they were pushed.
use putv.Prelude.{◌≡◌, false, List, [], ◌∷◌, ◌++◌}
use putv.Jitter.Ctx.{Ctx}
use mathlib.Core.List.{append-nil, append_assoc}
use putv.Jitter.Sg.Defs.{Sg}
use putv.Jitter.Sg.Valid.{IsValid}
use putv.Jitter.Sg.Queue.{Item, queue}
use putv.Jitter.Sg.Moves.{Op, step, accepted, released, MayStep, step-Moves}

-- A whole history: the state at its end, what went in and what came out, in order.
abbrev pub run : Ctx → List Op → Sg → Sg
run ctx [] s = s
run ctx (o ∷ os) s = run ctx os (step ctx o s)

abbrev pub all_accepted : Ctx → List Op → Sg → List Item
all_accepted ctx [] s = []
all_accepted ctx (o ∷ os) s = accepted o s ++ all_accepted ctx os (step ctx o s)

abbrev pub all_released : Ctx → List Op → Sg → List Item
all_released ctx [] s = []
all_released ctx (o ∷ os) s = released o s ++ all_released ctx os (step ctx o s)

abbrev pub MayRun : Ctx → List Op → Sg → Type 0
MayRun ctx [] s = Unit {0}
MayRun ctx (o ∷ os) s = MayStep o s × MayRun ctx os (step ctx o s)

splice {ℓ} :
    {A : Type ℓ} (q a b r q' r' e : List A)
    → q ++ a ≡ r ++ q'
    → q' ++ b ≡ r' ++ e
    → q ++ (a ++ b) ≡ (r ++ r') ++ e
splice q a b r q' r' e h k =
    rw (← append_assoc q a b, h, append_assoc r q' b, k, append_assoc r r' e)

-- From a valid ring with a consumer's thread, in any interleaving of calls in which a consumer pops a buffer
-- that it holds while the jitter is not stopped, or some bytes of an empty ring, and wakes in `jitter_peer` to
-- a buffer of its channel: the ring stays valid, and what it held with what was pushed is, in order,
-- what was taken out with what it holds at the end. So no buffer is lost, doubled or reordered.
pub history :
    (ctx : Ctx) (os : List Op) (s : Sg)
    → ctx.consume ≡ false
    → IsValid ctx s
    → MayRun ctx os s
    → IsValid ctx (run ctx os s)
      × (queue ctx s ++ all_accepted ctx os s ≡ all_released ctx os s ++ queue ctx (run ctx os s))
history ctx [] s c v m = (v, append-nil (queue ctx s))
history ctx (o ∷ os) s c v m =
    let one = step-Moves ctx s v c o m.0 in
    let rest = history ctx os (step ctx o s) c one.valid m.1 in
    (
      rest.0,
      splice (queue ctx s) (accepted o s) (all_accepted ctx os (step ctx o s)) (released o s)
          (queue ctx (step ctx o s)) (all_released ctx os (step ctx o s))
          (queue ctx (run ctx os (step ctx o s))) one.moved rest.1,
    )
