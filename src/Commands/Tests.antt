-- ===== src/Commands/Tests.antt =====
-- src/cmds_line.c: the theorems at some lines.
use Prim.Native.String.{String}
use putv.Player.{player_init}
use putv.Text.{strcmp}
use putv.Sinks.Settings.{atoi, number}
use putv.Media.File.{Url, File, find_id, find_url, free_id}
use putv.Media.File.Valid.{IsValid}
use putv.Media.Dir.{Entries, entry, end, regular}
use putv.Media.Dir.Api.{media_init}
use putv.Media.Dir.Medias.{medias, numbered}
use putv.Commands.Import.{method_import, AllHeld, Keeps, method_import_lem}
use putv.Commands.Methods.{Session, Answers, run_line, run_lines}
use putv.Commands.Removed.{remove_frees_first}
use putv.Commands.Calls.{Ready}
use putv.Commands.Sessions.{SafeLines, run_lines-Ready}
use putv.Prelude.{
  ℕ, List, Option, true, false, [], ◌∷◌, ◌≡◌, refl, arith, some, none, if◌then◌else◌,
}
use putv.Prelude.Int.{pos}
use putv.Media.Mime.{Mime, audiomp3, codes}
use putv.Commands.Line.{append, list, search_, quit, volume, dispatch, dispatch_lem}

dispatch_lem_example : dispatch (codes "volume 80\n") ≡ some (some (volume, some (codes "80")))
dispatch_lem_example = dispatch_lem volume b'8' (codes "0") refl refl

-- A word that is no command is searched for behind the array.
no_command : dispatch (codes "start\n") ≡ none
unfolding dispatch
no_command = refl

-- The string of a text, for the texts of these tests.
abbrev spelled : List ℕ → String
spelled word =
    if strcmp word (codes "b.mp3")
    then "b.mp3"
    else if strcmp word (codes "file:///m/a.mp3")
    then "file:///m/a.mp3"
    else if strcmp word (codes "audio/mp3")
    then "audio/mp3"
    else "c.mp3"

abbrev kind : List ℕ → Mime
kind name = audiomp3

abbrev getmime : String → String
getmime path = "audio/mp3"

abbrev fillinfo : String → Option String → Option String
fillinfo path mime = none

abbrev first_url : Url
first_url = record { url = "b.mp3"; info = none; mime = "audio/mp3"; id = 0; freed = false }

abbrev one_url : File
one_url = record { media = first_url ∷ []; current = none; loop = false; lastid = 0 }

one_url-IsValid : IsValid one_url
one_url-IsValid = record { live = (refl, tt); below = (omega arith, tt); distinct = (tt, tt) }

abbrev tree : Entries
tree = entry (codes "a.mp3") regular end

method_import_lem_example :
    (let dir = some (media_init kind (codes "/m") tree) in
      (g : File) × (method_import spelled getmime fillinfo "inode/directory" kind dir one_url
        ≡ some (pos 0, g))
      × IsValid g
      × AllHeld spelled getmime fillinfo "inode/directory" g
          (numbered 0 (medias kind (codes "/m") 0 tree))
      × Keeps one_url g
      × (method_import spelled getmime fillinfo "inode/directory" kind dir g ≡ some (pos 0, g)))
unfolding medias
method_import_lem_example =
    method_import_lem spelled getmime fillinfo "inode/directory" kind (codes "/m") tree one_url
      (omega arith) one_url-IsValid

abbrev session : Session
session = record {
  run = true;
  player = record player_init { media = true };
  file = one_url;
  printed = [];
}

abbrev quiet : Answers
quiet = record { busy = false; source = none; built = none; dir = none; volume_of = λ v. v }

remove_frees_first_example :
    (run_line spelled kind getmime fillinfo "inode/directory" quiet (codes "remove b.mp3\n") session
      ≡ some (record session {
        file = record one_url { media = record first_url { freed = true } ∷ [] };
      }))
    × (run_lines spelled kind getmime fillinfo "inode/directory"
          ((quiet, codes "remove b.mp3\n") ∷ (quiet, codes "append c.mp3\n") ∷ [])
          session
        ≡ none)
unfolding atoi number find_id find_url free_id strcmp
remove_frees_first_example =
    remove_frees_first spelled kind getmime fillinfo "inode/directory" quiet quiet session first_url
      b'b' b'c' (codes ".mp3") (codes ".mp3") refl refl refl refl refl refl refl refl refl

abbrev lines : List (Answers × List ℕ)
lines =
    (quiet, codes "append c.mp3\n")
    ∷ (quiet, codes "list\n")
    ∷ (quiet, codes "search 0\n")
    ∷ (quiet, codes "quit\n")
    ∷ []

lines-SafeLines : SafeLines kind 0 lines
unfolding dispatch
lines-SafeLines = (
  (
    some (append, some (codes "c.mp3")),
    dispatch_lem append b'c' (codes ".mp3") refl refl,
    refl,
    λ f e. absurd cc,
  ),
  (
    (some (list, none), refl, refl, λ f e. absurd cc),
    (
      (
        some (search_, some (codes "0")),
        dispatch_lem search_ b'0' [] refl refl,
        refl,
        λ f e. absurd cc,
      ),
      ((some (quit, none), refl, refl, λ f e. absurd cc), tt),
    ),
  ),
)

run_lines-Ready_example :
    (after : Session) × (run_lines spelled kind getmime fillinfo "inode/directory" lines session
      ≡ some after)
    × Ready 4 after
run_lines-Ready_example =
    run_lines-Ready spelled kind getmime fillinfo "inode/directory" 0 lines session (omega arith)
      (record { has_media = refl; list_valid = (one_url-IsValid, omega arith) }) lines-SafeLines
