-- ===== src/Commands/Removed.antt =====
-- src/cmds_line.c with src/media_file.c: what `remove` does with a text that is no number.
use Prim.Native.String.{String}
use putv.Prelude.{ℕ, ◌≡◌, refl, ◌∙◌, arith, true, false, Option, none, some, List, [], ◌∷◌, ◌++◌}
use putv.Media.Mime.{Mime}
use putv.Media.File.{Url, find_id, find_url, free_id, media_insert, media_remove}
use putv.Sinks.Settings.{atoi}
use putv.Commands.Line.{Method, append, remove, name, dispatch_lem, is_blank, no_newline}
use putv.Commands.Methods.{Session, Answers, entry_0, call, run_line, run_lines, method_remove}

-- A search by url reads the strings of an entry that was freed, where it does not end before.
find_url-free_id :
    (path : String) (id : ℕ) (us : List Url) (u : Url)
    → find_id id us ≡ some u
    → find_url path us ≡ some none
    → find_url path (free_id id us) ≡ none
unfolding find_url find_id free_id
find_url-free_id path id [] u at miss = absurd cc
find_url-free_id path id (w ∷ us) u at miss = ground (arith, find_url-free_id path id us u)

abbrev pub line_of : List ℕ → List ℕ → List ℕ
line_of word arg = word ++ b' ' ∷ (arg ++ b'\n' ∷ [])

module _ (text : List ℕ → String) (kind : List ℕ → Mime) (getmime : String → String)
    (fillinfo : String → Option String → Option String) (mime_directory : String) where
  -- A line with a command and an argument.
  pub run_line-name :
      (a : Answers) (m : Method) (c : ℕ) (arg : List ℕ) (ctx : Session)
      → is_blank c ≡ false
      → no_newline (c ∷ arg) ≡ true
      → run_line text kind getmime fillinfo mime_directory a (line_of (name m) (c ∷ arg)) ctx
        ≡ elim (call text kind getmime fillinfo mime_directory a m (some (c ∷ arg)) ctx) [
          | none ↦ none
          | some s ↦ some s.1
        ]
  unfolding run_line
  run_line-name a m c arg ctx solid h = rw (run_line, dispatch_lem m c arg solid h) refl

  -- `remove` with an argument that is no positive number, the url of an entry say, frees the strings of the
  -- entry 0, whichever that is, and an `append` of an url that the list does not have then reads them.
  pub remove_frees_first :
      (a b : Answers) (ctx : Session) (u : Url) (c d : ℕ) (word url : List ℕ)
      → ctx.player.media ≡ true
      → ctx.run ≡ true
      → is_blank c ≡ false
      → no_newline (c ∷ word) ≡ true
      → is_blank d ≡ false
      → no_newline (d ∷ url) ≡ true
      → entry_0 (atoi (c ∷ word)) ≡ 0
      → find_id 0 ctx.file.media ≡ some u
      → find_url (text (d ∷ url)) ctx.file.media ≡ some none
      → let removed : Session = record ctx {
        file = record ctx.file { media = free_id 0 ctx.file.media };
      } in
        let first = line_of (name remove) (c ∷ word) in
        (run_line text kind getmime fillinfo mime_directory a first ctx ≡ some removed)
        × (run_lines text kind getmime fillinfo mime_directory
              ((a, first) ∷ (b, line_of (name append) (d ∷ url)) ∷ [])
              ctx
            ≡ none)
  unfolding run_lines call method_remove media_remove media_insert
  remove_frees_first a b ctx u c d word url some_media on solid h solid' h' no_number at miss =
      let removed : Session = record ctx {
        file = record ctx.file { media = free_id 0 ctx.file.media };
      } in
      let first : run_line text kind getmime fillinfo mime_directory a
            (line_of (name remove) (c ∷ word)) ctx
          ≡ some removed =
        run_line-name a remove c word ctx solid h
        ∙ rw (call, some_media, method_remove, no_number) refl in
      let gone = find_url-free_id (text (d ∷ url)) 0 ctx.file.media u at miss in
      let second : run_line text kind getmime fillinfo mime_directory b
            (line_of (name append) (d ∷ url)) removed
          ≡ none =
        run_line-name b append d url removed solid' h'
        ∙ rw (call, some_media, media_insert, gone) refl in
      (first, rw (run_lines, first, on, second) refl)
