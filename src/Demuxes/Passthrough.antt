-- ===== src/Demuxes/Passthrough.antt =====
-- src/demux_passthrough.c: a stream whose listeners are told of it, and its decoder.
use putv.Prelude.{ℕ, zero, suc, Option, none, some, List, [], ◌∷◌, ◌++◌, ltb, if◌then◌else◌}
use putv.Prelude.Int.{ℤ, pos, negsuc}
use putv.Media.Mime.{Mime, utils_mime2mime}

-- `event_listener_t`: a callback, by its name, with the decoder that it sets in the event of a new stream, if
-- any, and the listeners that its calls add to the same list.
mutual
  pub data Listener : Type 0 where
    listener : ℕ → Option ℕ → Listeners → Listener

  pub data Listeners : Type 0 where
    nil : Listeners
    cons : Listener → Listeners → Listeners

abbrev pub name : Listener → ℕ
name (listener n builds adds) = n

abbrev pub builds : Listener → Option ℕ
builds (listener n b adds) = b

abbrev pub to_list : Listeners → List Listener
to_list nil = []
to_list (cons l ls) = l ∷ to_list ls

abbrev pub adds : Listener → List Listener
adds (listener n b ls) = to_list ls

-- The calls of listeners, and of a decoder's `destroy`.
pub data Call : Type 0 where
  new_es : ℕ → Mime → Call
  decode_es : ℕ → Option ℕ → Call
  end_es : ℕ → ℕ → Call
  destroy_decoder : ℕ → Call

-- `src_ctx_s`, with the calls so far.
pub record Demux : Type 0 where
  pub mime : Mime
  pub estream : Option ℕ
  pub listeners : List Listener
  pub calls : List Call

abbrev pub demux_init : Option (List ℕ) → Demux
demux_init mime = record { mime = utils_mime2mime mime; estream = none; listeners = []; calls = [] }

-- `demux_eventlistener`
pub demux_eventlistener : Listener → Demux → Demux
demux_eventlistener l ctx = record ctx { listeners = ctx.listeners ++ l ∷ [] }

abbrev pub built : Option ℕ → Option ℕ → Option ℕ
built none before = before
built (some decoder) before = some decoder

-- `demux_run`, the loop from a listener on: those that were called, those of the list that were not, the
-- decoder of the event and the calls. `none` where the fuel runs out.
unfoldable pub run_loop :
    ℕ
    → Mime
    → List Listener
    → List Listener
    → Option ℕ
    → List Call
    → Option (List Listener × List Call)
run_loop zero mime called waiting decoder calls = none
run_loop (suc fuel) mime called [] decoder calls = some (called, calls)
run_loop (suc fuel) mime called (l ∷ waiting) decoder calls =
    let now = built (builds l) decoder in
    run_loop fuel mime (called ++ l ∷ []) (waiting ++ adds l) now
      (calls ++ new_es (name l) mime ∷ (decode_es (name l) now ∷ []))

unfoldable pub demux_run : ℕ → Demux → Option Demux
demux_run fuel ctx = elim (run_loop fuel ctx.mime [] ctx.listeners none ctx.calls) [
  | none ↦ none
  | some r ↦ some (record ctx { listeners = r.0; calls = r.1 })
]

-- `demux_mime`
abbrev pub demux_mime : ℕ → Demux → Option Mime
demux_mime index ctx = if ltb 0 index then none else some ctx.mime

-- `demux_attach`
pub demux_attach : ℕ → ℕ → Demux → ℤ × Demux
demux_attach index decoder ctx =
    if ltb 0 index then (negsuc 0, ctx) else (pos 0, record ctx { estream = some decoder })

-- `demux_jitter`, with what a decoder answers.
abbrev pub demux_jitter : {J : Type 0} → (ℕ → Option J) → Demux → Option J
demux_jitter jitter ctx = elim ctx.estream [ none ↦ none | some decoder ↦ jitter decoder ]

abbrev pub ends : List Listener → ℕ → List Call
ends [] decoder = []
ends (l ∷ ls) decoder = end_es (name l) decoder ∷ ends ls decoder

-- `demux_destroy`, the calls before all is freed.
pub demux_destroy : Demux → List Call
demux_destroy ctx = elim ctx.estream [
  | none ↦ ctx.calls
  | some decoder ↦ ctx.calls ++ (ends ctx.listeners decoder ++ destroy_decoder decoder ∷ [])
]
