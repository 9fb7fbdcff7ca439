-- ===== src/Commands/Methods.antt =====
-- src/cmds_line.c: what the commands do to the player and to its media, which is the list of urls of
-- src/media_file.c. What is printed is kept. `text` is the string with these characters.
use Prim.Native.String.{String}
use putv.Prelude.{
  ℕ, zero, suc, ◌-◌, ◌^◌, Bool, true, false, Option, none, some, List, [], ◌∷◌, ◌++◌, if◌then◌else◌,
  length, drop,
}
use putv.Prelude.Int.{ℤ, pos, negsuc, ltb_ℤ}
use putv.Text.{strncmp}
use putv.Sinks.Settings.{atoi}
use putv.Media.Mime.{Mime, codes}
use putv.Media.File.{
  Url, File, OptionState, request, disable, enable, media_insert, media_remove, media_find,
  media_loop, media_next, find_id,
}
use putv.Media.Dir.{next_id}
use putv.Media.Dir.Api.{Dir}
use putv.Player.{Player, State, stop, play, change, error, plain, Src, same_state, player_state}
use putv.Player.Requests.{player_mediaid, player_play, player_change}
use putv.Commands.Line.{
  Method, append, remove, list, filter, media, import_, search_, info, volume, loop, random, quit,
  help, dispatch,
}
use putv.Commands.Line.{
  play as play_name, pause as pause_name, stop as stop_name, next as next_name,
}
use putv.Commands.Keys.{paused_play}
use putv.Commands.Import.{method_import}

-- `cmds_ctx_s`, the player's media, and what was printed: an index and an entry.
pub record Session : Type 0 where
  pub run : Bool
  pub player : Player
  pub file : File
  pub printed : List (ℤ × Url)

-- What the other parts answer to a command: whether another thread holds the player's mutex, the source that
-- the media's `play` prepares, the list of urls that `media_build` gives (its other medias, a directory or a
-- database, have calls of their own), the directory to import, and the volume that the player's listeners
-- give.
pub record Answers : Type 0 where
  pub busy : Bool
  pub source : Option (Option Src)
  pub built : Option File
  pub dir : Option Dir
  pub volume_of : ℤ → ℤ

-- `(player_state(..., state) == state)`, and the player.
abbrev pub ask : Bool → State → Session → ℤ × Session
ask busy s ctx =
    let r = player_state busy s ctx.player in
    (if same_state r.0 s then pos 1 else pos 0, record ctx { player = r.1 })

-- `_print_entry` for entries, from an index on. `none` is the use of a freed string.
unfoldable pub print_entries : ℤ → List Url → Option (List (ℤ × Url))
print_entries index [] = some []
print_entries index (u ∷ us) =
    let rest = print_entries (next_id index) us in
    if u.freed then none else elim rest [ none ↦ none | some lines ↦ some ((index, u) ∷ lines) ]

-- The entries that `media_find` calls back for.
abbrev pub called : ℤ → File → List Url
called (pos id) f = elim (find_id id f.media) [ none ↦ [] | some u ↦ u ∷ [] ]
called (negsuc zero) f = f.media
called (negsuc (suc n)) f = elim (find_id (2 ^ 32 - 2 - n) f.media) [ none ↦ [] | some u ↦ u ∷ [] ]

-- A call of the media's `find` or `list` with `_print_entry`.
unfoldable pub print_found : ℤ → ℤ → Session → Option (ℤ × Session)
print_found id index ctx = elim (print_entries index (called id ctx.file)) [
  | none ↦ none
  | some lines ↦
      some (media_find ctx.file id (λ u. true), record ctx { printed = ctx.printed ++ lines })
]

abbrev pub option_of : ℤ → OptionState
option_of (pos zero) = disable
option_of (pos (suc zero)) = enable
option_of _ = request

-- `media_filter_t`, without `like`.
pub record MediaFilter : Type 0 where
  pub keyword : Option (List ℕ)
  pub artist : Option (List ℕ)
  pub album : Option (List ℕ)
  pub title : Option (List ℕ)
  pub speed : Option (List ℕ)
  pub genre : Option (List ℕ)

abbrev pub after : String → List ℕ → Option (List ℕ)
after word arg =
    let n = length (codes word) in if strncmp n arg (codes word) then some (drop n arg) else none

-- `method_filter`: what it returns, and the call of a media's `filter`, if it has one.
pub method_filter : Bool → Option (List ℕ) → ℤ × Option (Option MediaFilter)
method_filter has_filter none = (negsuc 0, none)
method_filter has_filter (some arg) =
    let f : MediaFilter = record {
      keyword = after "keyword " arg;
      artist = after "artist " arg;
      album = after "album " arg;
      title = after "title " arg;
      speed = after "speed " arg;
      genre = after "genre " arg;
    } in
    (
      pos 0,
      if has_filter then some (if strncmp 4 arg (codes "free") then none else some f) else none,
    )

abbrev pub with_media : {A : Type 0} → Session → Option A → Option A
with_media ctx r = if ctx.player.media then r else none

abbrev pub entry_0 : ℤ → ℕ
entry_0 id = elim id [ pos n ↦ n | negsuc n ↦ 0 ]

-- `method_remove`: a text that is no positive number is the url, and the id is 0.
unfoldable pub method_remove : Option (List ℕ) → Session → ℤ × Session
method_remove none ctx = (negsuc 0, ctx)
method_remove (some arg) ctx =
    let r = media_remove ctx.file (entry_0 (atoi arg)) in (r.0, record ctx { file = r.1 })

-- `method_media`, where what `media_build` gives is a list of urls, with `player_change` for the new media, or the old one, and its random and loop set to 0.
unfoldable pub method_media : Answers → Option (List ℕ) → Session → ℤ × Session
method_media answers arg ctx =
    let media : Option File = elim arg [ none ↦ none | some path ↦ answers.built ] in
    let built : Bool = elim media [ none ↦ false | some f ↦ true ] in
    let file : File = elim media [ none ↦ ctx.file | some f ↦ f ] in
    let straight = (media_loop file disable).1 in
    let moved =
      if same_state ctx.player.state (plain stop) then straight else (media_next straight).1 in
    let player = player_change answers.busy built true false true answers.source ctx.player in
    (pos 0, record ctx { player = player; file = if player.media then moved else ctx.file })

unfoldable pub method_next : Answers → Option (List ℕ) → Session → ℤ × Session
method_next answers arg ctx =
    let ready : Session = elim arg [
      | none ↦ ctx
      | some text ↦
          if ltb_ℤ (negsuc 0) (atoi text)
          then record ctx { player = player_play answers.source ctx.player }
          else ctx
    ] in
    ask answers.busy (plain change) ready

-- `method_loop`; of a media without it, as `random` of the list, the result alone.
abbrev pub enabled : Option (List ℕ) → ℤ
enabled none = pos 1
enabled (some arg) = atoi arg

module _ (text : List ℕ → String) (kind : List ℕ → Mime) (getmime : String → String)
    (fillinfo : String → Option String → Option String) (mime_directory : String) where
  -- A call of a method: what it returns. `none` is the use of a null pointer or a freed string.
  unfoldable pub call : Answers → Method → Option (List ℕ) → Session → Option (ℤ × Session)
  unfolding media_insert print_found method_filter method_remove method_media method_next
      method_import
  call answers append none ctx = none
  call answers append (some arg) ctx =
      let r = media_insert getmime fillinfo mime_directory ctx.file (text arg) none none in
      with_media ctx (elim r [ none ↦ none | some s ↦ some (s.0, record ctx { file = s.1 }) ])
  call answers remove arg ctx = with_media ctx (some (method_remove arg ctx))
  call answers list arg ctx = with_media ctx (print_found (negsuc 0) (pos 0) ctx)
  call answers filter none ctx = some ((method_filter false none).0, ctx)
  call answers filter (some arg) ctx =
      with_media ctx (some ((method_filter false (some arg)).0, ctx))
  call answers media arg ctx = some (method_media answers arg ctx)
  call answers import_ arg ctx =
      let r = method_import text getmime fillinfo mime_directory kind answers.dir ctx.file in
      with_media ctx (elim r [ none ↦ none | some s ↦ some (s.0, record ctx { file = s.1 }) ])
  call answers search_ none ctx = some (negsuc 0, ctx)
  call answers search_ (some arg) ctx = with_media ctx (print_found (atoi arg) (atoi arg) ctx)
  call answers info arg ctx =
      let id = player_mediaid ctx.player in with_media ctx (print_found id id ctx)
  call answers play_name arg ctx = some (ask answers.busy (plain play) ctx)
  call answers pause_name arg ctx = some (ask answers.busy paused_play ctx)
  call answers stop_name arg ctx = some (ask answers.busy (plain stop) ctx)
  call answers next_name arg ctx = some (method_next answers arg ctx)
  call answers volume none ctx = none
  call answers volume (some arg) ctx = some (answers.volume_of (atoi arg), ctx)
  call answers loop arg ctx =
      let f = (media_loop ctx.file (option_of (enabled arg))).1 in
      with_media ctx (some (enabled arg, record ctx { file = f }))
  call answers random arg ctx = with_media ctx (some (enabled arg, ctx))
  call answers quit arg ctx = some (ask answers.busy (plain error) (record ctx { run = false }))
  call answers help arg ctx = none

  -- `cmds_line_cmd`, on what is read at once.
  unfoldable pub run_line : Answers → List ℕ → Session → Option Session
  unfolding call
  run_line answers line ctx = elim (dispatch line) [
    | none ↦ none
    | some r ↦ elim r [
      | none ↦ some ctx
      | some c ↦ elim (call answers c.0 c.1 ctx) [ none ↦ none | some s ↦ some s.1 ]
    ]
  ]

  -- `cmds_line_cmd`, the loop.
  unfoldable pub run_lines : List (Answers × List ℕ) → Session → Option Session
  unfolding run_line
  run_lines [] ctx = some ctx
  run_lines (l ∷ ls) ctx = elim (run_line l.0 l.1 ctx) [
    | none ↦ none
    | some next ↦ if next.run then run_lines ls next else some next
  ]
