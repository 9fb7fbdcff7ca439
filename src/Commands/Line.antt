-- ===== src/Commands/Line.antt =====
-- src/cmds_line.c: the line that is read from the terminal, and the method that it calls.
use putv.Prelude.{
  ℕ, ◌+◌, ◌≡◌, refl, ◌∙◌, arith, Bool, true, false, not, ◌&&◌, ◌||◌, Option, none, some, List, [],
  ◌∷◌, ◌++◌, ◌==◌, if◌then◌else◌, length, drop,
}
use putv.Text.{starts_with}
use putv.Media.Mime.{codes}

-- The entries of `cmds`, in their order.
pub data Method : Type 0 where
  append remove list filter media import_ search_ info play pause stop next volume loop random :
      Method
  quit help : Method

abbrev pub name : Method → List ℕ
name append = codes "append"
name remove = codes "remove"
name list = codes "list"
name filter = codes "filter"
name media = codes "media"
name import_ = codes "import"
name search_ = codes "search"
name info = codes "info"
name play = codes "play"
name pause = codes "pause"
name stop = codes "stop"
name next = codes "next"
name volume = codes "volume"
name loop = codes "loop"
name random = codes "random"
name quit = codes "quit"
name help = codes "help"

abbrev pub cmds : List Method
cmds =
    append ∷ remove ∷ list ∷ filter ∷ media ∷ import_ ∷ search_ ∷ info ∷ play ∷ pause ∷ stop ∷ next
    ∷ volume ∷ loop ∷ random ∷ quit ∷ help ∷ []

-- `cmds_line_cmd`, the search for the method whose name is next. `none` where there is none: the array has
-- no last entry without a name, at which the search would end, and the code reads behind it.
pub find_cmd : List Method → List ℕ → Option Method
unfolding starts_with
find_cmd [] text = none
find_cmd (m ∷ ms) text =
    let rest = find_cmd ms text in if starts_with text (name m) then some m else rest

abbrev pub is_blank : ℕ → Bool
is_blank c = c == b' ' || c == b'\t'

-- The argument up to the end of its line. `none` where the line does not end: the buffer has no 0 either,
-- and the code reads behind it.
pub to_line_end : List ℕ → Option (List ℕ)
to_line_end [] = none
to_line_end (c ∷ text) =
    let rest = to_line_end text in
    if c == b'\n' then some [] else elim rest [ none ↦ none | some arg ↦ some (c ∷ arg) ]

-- `cmds_line_cmd`, the rest of the loop once the method is known: what it is called with.
pub find_arg : Method → List ℕ → Option (Option (Method × Option (List ℕ)))
find_arg m [] = some (some (m, none))
find_arg m (c ∷ text) =
    let rest = find_arg m text in
    if is_blank c
    then rest
    else if c == b'\n'
    then some (some (m, none))
    else elim (to_line_end (c ∷ text)) [ none ↦ none | some arg ↦ some (some (m, some arg)) ]

-- `cmds_line_cmd`, on what was read: the method and its argument, or no method. The character behind a
-- name is skipped.
unfoldable pub dispatch : List ℕ → Option (Option (Method × Option (List ℕ)))
unfolding find_cmd find_arg
dispatch [] = some none
dispatch (c ∷ text) =
    let rest = dispatch text in
    if is_blank c then rest else if c == b'\n' then some none else elim (find_cmd cmds (c ∷ text)) [
      | none ↦ none
      | some m ↦ find_arg m (drop (length (name m) + 1) (c ∷ text))
    ]

abbrev pub no_newline : List ℕ → Bool
no_newline [] = true
no_newline (c ∷ text) = not (c == b'\n') && no_newline text

to_line_end_lem :
    (arg rest : List ℕ) → no_newline arg ≡ true → to_line_end (arg ++ b'\n' ∷ rest) ≡ some arg
unfolding to_line_end
to_line_end_lem [] rest h = refl
to_line_end_lem (c ∷ arg) rest h =
    let first : (c == b'\n') ≡ false = ground arith in
    let more = to_line_end_lem arg rest (ground arith) in rw (first, more) refl

find_arg_lem :
    (m : Method) (c : ℕ) (arg rest : List ℕ)
    → is_blank c ≡ false
    → no_newline (c ∷ arg) ≡ true
    → find_arg m (c ∷ (arg ++ b'\n' ∷ rest)) ≡ some (some (m, some (c ∷ arg)))
unfolding find_arg
find_arg_lem m c arg rest solid h =
    let first : (c == b'\n') ≡ false = ground arith in
    rw (find_arg, solid, first, to_line_end_lem (c ∷ arg) rest h) refl

-- A name and one character more are read up to the argument.
dispatch-name :
    (m : Method) (c : ℕ) (text : List ℕ) → dispatch (name m ++ c ∷ text) ≡ find_arg m text
unfolding dispatch
dispatch-name append c text = refl
dispatch-name remove c text = refl
dispatch-name list c text = refl
dispatch-name filter c text = refl
dispatch-name media c text = refl
dispatch-name import_ c text = refl
dispatch-name search_ c text = refl
dispatch-name info c text = refl
dispatch-name play c text = refl
dispatch-name pause c text = refl
dispatch-name stop c text = refl
dispatch-name next c text = refl
dispatch-name volume c text = refl
dispatch-name loop c text = refl
dispatch-name random c text = refl
dispatch-name quit c text = refl
dispatch-name help c text = refl

-- A line with a command's name, a space and an argument that starts with neither blank nor newline and
-- has no newline calls the command with that argument.
pub dispatch_lem :
    (m : Method) (c : ℕ) (arg : List ℕ)
    → is_blank c ≡ false
    → no_newline (c ∷ arg) ≡ true
    → dispatch (name m ++ b' ' ∷ c ∷ (arg ++ b'\n' ∷ [])) ≡ some (some (m, some (c ∷ arg)))
dispatch_lem m c arg solid h =
    dispatch-name m b' ' (c ∷ (arg ++ b'\n' ∷ [])) ∙ find_arg_lem m c arg [] solid h

-- Of two lines that are read at once, the first of which is a command alone, the second is taken for the
-- first one's argument, where it starts with neither blank nor newline.
pub second_line_swallowed :
    (m : Method) (c : ℕ) (line : List ℕ)
    → is_blank c ≡ false
    → no_newline (c ∷ line) ≡ true
    → dispatch (name m ++ b'\n' ∷ c ∷ (line ++ b'\n' ∷ [])) ≡ some (some (m, some (c ∷ line)))
second_line_swallowed m c line solid h =
    dispatch-name m b'\n' (c ∷ (line ++ b'\n' ∷ [])) ∙ find_arg_lem m c line [] solid h
