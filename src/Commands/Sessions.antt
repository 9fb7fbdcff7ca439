-- ===== src/Commands/Sessions.antt =====
-- src/cmds_line.c: over the lines of a session.
use Prim.Native.String.{String}
use putv.Prelude.{
  ℕ, ◌+◌, ◌^◌, ◌<◌, arith, length, ◌≡◌, refl, ap, ◌∙◌, inl, inr, Bool, true, false, Option, none,
  some, List, [], ◌∷◌, Bool-cases, Option-cases, if◌then◌else◌,
}
use putv.Prelude.Int.{ℤ, pos, negsuc}
use putv.Media.Mime.{Mime}
use putv.Media.File.{File, media_loop}
use putv.Media.Dir.Api.{Dir, media_list}
use putv.Player.{stop as stopped, play as playing, error as failed, plain}
use putv.Commands.Keys.{paused_play}
use putv.Sinks.Settings.{atoi}
use putv.Player.Requests.{player_mediaid}
use putv.Commands.Line.{
  Method, append, remove, list, filter, media, import_, search_, info, play, pause, stop, next,
  volume, loop, random, quit, help, dispatch,
}
use putv.Commands.Import.{method_import, import_entries_lem}
use putv.Commands.Methods.{
  Session, Answers, ask, call, run_line, run_lines, print_found, method_media, method_next,
  method_filter, with_media, enabled, option_of,
}
use putv.Commands.Calls.{
  Bounded, insert-Bounded, Ready, Ready-mono, print_found-Ready, relooped, ask-Ready,
  method_media-Ready, method_next-Ready,
}

-- The calls that use no null pointer, and free no string.
abbrev pub safe : Method → Option (List ℕ) → Bool
safe remove arg = false
safe help arg = false
safe append none = false
safe volume none = false
safe _ arg = true

abbrev pub safe_call : Option (Method × Option (List ℕ)) → Bool
safe_call none = true
safe_call (some c) = safe c.0 c.1

-- A line that is read without reading behind a buffer or array, and whose call is safe. What `media_build`
-- gives is a valid list, whose last id is at most `n`.
abbrev pub SafeLine : ℕ → Answers × List ℕ → Type 0
SafeLine n l =
    (r : Option (Method × Option (List ℕ))) × (dispatch l.1 ≡ some r)
    × (safe_call r ≡ true)
    × ((f : File) → l.0.built ≡ some f → Bounded n f)

-- The ids that a line may give: one for each media of its directory, and one for `append`.
abbrev pub given : (List ℕ → Mime) → Option Dir → ℕ
given kind none = 1
given kind (some dir) = 1 + length (media_list kind dir).1

abbrev pub all_given : (List ℕ → Mime) → List (Answers × List ℕ) → ℕ
all_given kind [] = 0
all_given kind (l ∷ ls) = given kind l.0.dir + all_given kind ls

abbrev pub SafeLines : (List ℕ → Mime) → ℕ → List (Answers × List ℕ) → Type 0
SafeLines kind n [] = Unit {0}
SafeLines kind n (l ∷ ls) = SafeLine n l × SafeLines kind (n + given kind l.0.dir) ls

the_media :
    {A : Type 0} → (ctx : Session) (r : Option A) → ctx.player.media ≡ true → with_media ctx r ≡ r
the_media ctx r has = ap (λ b. if b then r else none) has

module _ (text : List ℕ → String) (kind : List ℕ → Mime) (getmime : String → String)
    (fillinfo : String → Option String → Option String) (mime_directory : String) where
  abbrev Returns : ℕ → Answers → Method → Option (List ℕ) → Session → Type 0
  Returns n a m arg ctx =
      (r : ℤ) × (after : Session) × (call text kind getmime fillinfo mime_directory a m arg ctx
        ≡ some (r, after))
      × Ready (n + given kind a.dir) after

  import_Returns :
      (n : ℕ) (a : Answers) (arg : Option (List ℕ)) (ctx : Session)
      → n + given kind a.dir < 2 ^ 31
      → Ready n ctx
      → Returns n a import_ arg ctx
  unfolding call method_import
  import_Returns n a arg ctx few ok = elim (Option-cases a.dir) [
    | inl none_built ↦ (
      pos 0,
      ctx,
      the_media ctx _ ok.has_media ∙ rw (method_import, none_built) refl,
      Ready-mono n (n + given kind a.dir) ctx (omega arith) ok,
    )
    | inr (dir, built) ↦
        let counted : given kind a.dir ≡ 1 + length (media_list kind dir).1 =
          ap (given kind) built in
        let (g, e, v, all, kept, last) =
          import_entries_lem text getmime fillinfo mime_directory (media_list kind dir).1 ctx.file
            (omega (arith, ok.list_valid.1)) ok.list_valid.0 in
        (
          pos 0,
          record ctx { file = g },
          the_media ctx _ ok.has_media ∙ rw (method_import, built, e) refl,
          record {
            has_media = ok.has_media;
            list_valid = (v, omega (arith, last, ok.list_valid.1));
          },
        )
  ]

  given-pos : (d : Option Dir) → 0 < given kind d
  given-pos none = omega arith
  given-pos (some dir) = omega arith

  printed_Returns :
      (n : ℕ) (id index : ℤ) (ctx : Session)
      → Ready n ctx
      → (r : ℤ) × (after : Session) × (with_media ctx (print_found id index ctx) ≡ some (r, after))
        × Ready n after
  printed_Returns n id index ctx ok =
      let (r, after, e, k) = print_found-Ready n id index ctx ok in
      (r, after, the_media ctx _ ok.has_media ∙ e, k)

  -- What a call gives that leaves the last id as it is.
  kept_Returns :
      (n : ℕ) (a : Answers) (m : Method) (arg : Option (List ℕ)) (ctx : Session)
      → (r : ℤ) × (after : Session) × (call text kind getmime fillinfo mime_directory a m arg ctx
          ≡ some (r, after))
        × Ready n after
      → Returns n a m arg ctx
  kept_Returns n a m arg ctx (r, after, e, ok) =
      (r, after, e, Ready-mono n (n + given kind a.dir) after (omega arith) ok)

  append_Returns :
      (n : ℕ) (a : Answers) (arg : List ℕ) (ctx : Session)
      → n + given kind a.dir < 2 ^ 31
      → Ready n ctx
      → Returns n a append (some arg) ctx
  unfolding call
  append_Returns n a arg ctx few ok =
      let one = given-pos a.dir in
      let (r, g, e, (v, last)) =
        insert-Bounded getmime fillinfo mime_directory n ctx.file (text arg) none none (omega arith)
          ok.list_valid in
      (
        r,
        record ctx { file = g },
        the_media ctx _ ok.has_media ∙ rw e refl,
        record { has_media = ok.has_media; list_valid = (v, omega arith) },
      )

  call-Ready :
      (n : ℕ) (a : Answers) (m : Method) (arg : Option (List ℕ)) (ctx : Session)
      → n + given kind a.dir < 2 ^ 31
      → Ready n ctx
      → safe m arg ≡ true
      → ((f : File) → a.built ≡ some f → Bounded n f)
      → Returns n a m arg ctx
  unfolding call
  call-Ready n a append none ctx few ok h good = absurd cc
  call-Ready n a append (some arg) ctx few ok h good = append_Returns n a arg ctx few ok
  call-Ready n a remove arg ctx few ok h good = absurd cc
  call-Ready n a list arg ctx few ok h good =
      kept_Returns n a list arg ctx (printed_Returns n (negsuc 0) (pos 0) ctx ok)
  call-Ready n a filter none ctx few ok h good =
      kept_Returns n a filter none ctx (negsuc 0, ctx, refl, ok)
  call-Ready n a filter (some arg) ctx few ok h good =
      kept_Returns n a filter (some arg) ctx
        ((method_filter false (some arg)).0, ctx, the_media ctx _ ok.has_media, ok)
  call-Ready n a media arg ctx few ok h good =
      let r = method_media a arg ctx in
      kept_Returns n a media arg ctx (r.0, r.1, refl, method_media-Ready n a arg ctx ok good)
  call-Ready n a import_ arg ctx few ok h good = import_Returns n a arg ctx few ok
  call-Ready n a search_ none ctx few ok h good =
      kept_Returns n a search_ none ctx (negsuc 0, ctx, refl, ok)
  call-Ready n a search_ (some arg) ctx few ok h good =
      kept_Returns n a search_ (some arg) ctx (printed_Returns n (atoi arg) (atoi arg) ctx ok)
  call-Ready n a info arg ctx few ok h good =
      let id = player_mediaid ctx.player in
      kept_Returns n a info arg ctx (printed_Returns n id id ctx ok)
  call-Ready n a play arg ctx few ok h good =
      let r = ask a.busy (plain playing) ctx in
      kept_Returns n a play arg ctx (r.0, r.1, refl, ask-Ready n a.busy (plain playing) ctx ok)
  call-Ready n a pause arg ctx few ok h good =
      let r = ask a.busy paused_play ctx in
      kept_Returns n a pause arg ctx (r.0, r.1, refl, ask-Ready n a.busy paused_play ctx ok)
  call-Ready n a stop arg ctx few ok h good =
      let r = ask a.busy (plain stopped) ctx in
      kept_Returns n a stop arg ctx (r.0, r.1, refl, ask-Ready n a.busy (plain stopped) ctx ok)
  call-Ready n a next arg ctx few ok h good =
      let r = method_next a arg ctx in
      kept_Returns n a next arg ctx (r.0, r.1, refl, method_next-Ready n a arg ctx ok)
  call-Ready n a volume none ctx few ok h good = absurd cc
  call-Ready n a volume (some arg) ctx few ok h good =
      kept_Returns n a volume (some arg) ctx (a.volume_of (atoi arg), ctx, refl, ok)
  call-Ready n a loop arg ctx few ok h good =
      let o = option_of (enabled arg) in
      kept_Returns n a loop arg ctx (
        enabled arg,
        record ctx { file = (media_loop ctx.file o).1 },
        the_media ctx _ ok.has_media,
        record { has_media = ok.has_media; list_valid = relooped n ctx.file o ok.list_valid },
      )
  call-Ready n a random arg ctx few ok h good =
      kept_Returns n a random arg ctx (enabled arg, ctx, the_media ctx _ ok.has_media, ok)
  call-Ready n a quit arg ctx few ok h good =
      let left : Session = record ctx { run = false } in
      let r = ask a.busy (plain failed) left in
      kept_Returns n a quit arg ctx (
        r.0,
        r.1,
        refl,
        ask-Ready n a.busy (plain failed) left
            (record { has_media = ok.has_media; list_valid = ok.list_valid }),
      )
  call-Ready n a help arg ctx few ok h good = absurd cc

  line_lem :
      (n : ℕ) (l : Answers × List ℕ) (ctx : Session)
      → n + given kind l.0.dir < 2 ^ 31
      → Ready n ctx
      → SafeLine n l
      → (after : Session) × (run_line text kind getmime fillinfo mime_directory l.0 l.1 ctx
          ≡ some after)
        × Ready (n + given kind l.0.dir) after
  unfolding run_line
  line_lem n l ctx few ok (none, e, h, good) =
      (ctx, rw (run_line, e) refl, Ready-mono n (n + given kind l.0.dir) ctx (omega arith) ok)
  line_lem n l ctx few ok (some c, e, h, good) =
      let (r, after, k, ok') = call-Ready n l.0 c.0 c.1 ctx few ok h good in
      (after, rw (run_line, e, k) refl, ok')

  -- From a player with a valid list of urls, over lines that are read without reading behind a buffer and
  -- whose commands are neither `remove` nor `help`, nor `append` or `volume` without an argument, where
  -- `media_build` gives valid lists of urls, and the ids given until then, with one for each line and for
  -- each media of a directory that it imports, fit into an int: the session uses no null pointer and no
  -- freed string, and the player has a valid list in the end.
  pub run_lines-Ready :
      (n : ℕ) (ls : List (Answers × List ℕ)) (ctx : Session)
      → n + all_given kind ls < 2 ^ 31
      → Ready n ctx
      → SafeLines kind n ls
      → (after : Session) × (run_lines text kind getmime fillinfo mime_directory ls ctx
          ≡ some after)
        × Ready (n + all_given kind ls) after
  unfolding run_lines
  run_lines-Ready n [] ctx few ok safe_lines =
      (ctx, refl, Ready-mono n (n + all_given kind []) ctx (omega arith) ok)
  run_lines-Ready n (l ∷ ls) ctx few ok safe_lines =
      let now = n + given kind l.0.dir in
      let (middle, e, ok') = line_lem n l ctx (omega arith) ok safe_lines.0 in
      elim (Bool-cases middle.run) [
        | inl on ↦
            let (after, e', ok'') = run_lines-Ready now ls middle (omega arith) ok' safe_lines.1 in
            (
              after,
              rw (run_lines, e, on) e',
              Ready-mono (now + all_given kind ls) (n + all_given kind (l ∷ ls)) after (omega arith)
                  ok'',
            )
        | inr off ↦ (
          middle,
          rw (run_lines, e, off) refl,
          Ready-mono now (n + all_given kind (l ∷ ls)) middle (omega arith) ok',
        )
      ]
