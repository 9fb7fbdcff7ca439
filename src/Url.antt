-- ===== src/Url.antt =====
-- src/media_common.c, `utils_parseurl`: the parts of an url.
mod RoundTrip
mod Tests
use putv.Prelude.{
  ℕ, zero, suc, ◌+◌, ◌<◌, ◌≡◌, refl, ap, ◌∙◌, arith, inl, inr, Bool, true, false, not, ◌&&◌, ◌||◌,
  Option, none, some, List, [], ◌∷◌, ◌++◌, ◌==◌, ltb, if◌then◌else◌, length, take, drop, set,
}
use putv.Text.{strncmp}

-- `strchr` in a memory, whose texts end with 0: how far the character is.
pub index : ℕ → List ℕ → Option ℕ
index c [] = none
index c (x ∷ text) =
    let rest = index c text in
    if x == c
    then some 0
    else if x == 0
    then none
    else elim rest [ none ↦ none | some i ↦ some (suc i) ]

-- The text that a pointer into a memory stands for.
pub c_text : List ℕ → List ℕ
c_text [] = []
c_text (x ∷ text) = let rest = c_text text in if x == 0 then [] else x ∷ rest

-- What `utils_parseurl` gives through its pointers.
pub record Parts : Type 0 where
  pub protocol : Option (List ℕ)
  pub host : Option (List ℕ)
  pub port : Option (List ℕ)
  pub path : Option (List ℕ)
  pub search : Option (List ℕ)

-- Whether a place is set and before another one.
abbrev pub before : Option ℕ → ℕ → Bool
before none p = false
before (some q) p = ltb q p

-- `str_port`, which is given up behind the path or the search; then its place holds a 0.
pub port_place : Option ℕ → Option ℕ → Option ℕ → Option ℕ
port_place none path search = none
port_place (some p) path search = if before path p || before search p then none else some p

abbrev pub put_zero : Option ℕ → List ℕ → List ℕ
put_zero none memory = memory
put_zero (some p) memory = set memory p 0

-- `memmove(str_path + 1, str_path, strlen(str_path) + 1)` and the 0 before the moved text.
pub move_path : ℕ → List ℕ → List ℕ
move_path q memory =
    let n = length (c_text (drop q memory)) in
    set (take (q + 1) memory ++ take (n + 1) (drop q memory) ++ drop (q + n + 2) memory) q 0

abbrev pub text_at : Option ℕ → List ℕ → Option (List ℕ)
text_at none memory = none
text_at (some p) memory = some (c_text (drop p memory))

-- The end of `utils_parseurl`: the search's 0 is written, and the parts are given; places are counted
-- from the host on.
pub give_parts : List ℕ → Option ℕ → Option ℕ → Option ℕ → List ℕ → Parts
unfolding c_text
give_parts protocol port path search memory =
    let ended = put_zero search memory in
    record {
      protocol = some protocol;
      host = text_at (some 0) ended;
      port = text_at port ended;
      path = text_at path ended;
      search = text_at (elim search [ none ↦ none | some s ↦ some (s + 1) ]) ended;
    }

-- `utils_parseurl` after the protocol, on the memory from the host on.
pub parse_host : List ℕ → List ℕ → Parts
parse_host protocol memory =
    let path = index b'/' memory in
    let search = index b'?' memory in
    let port = port_place (index b':' memory) path search in
    let memory1 = put_zero port memory in
    let after_port : Option ℕ = elim port [ none ↦ none | some p ↦ some (p + 1) ] in
    let start = if strncmp 4 protocol (b'f' ∷ b'i' ∷ b'l' ∷ b'e' ∷ []) then some 0 else path in
    elim start [
      | none ↦ give_parts protocol after_port none search memory1
      | some q ↦
          if before search q
          then give_parts protocol after_port none search memory1
          else let moved = move_path q memory1 in
            give_parts protocol after_port (some (q + 1))
              (elim (index b'?' (drop (q + 1) moved)) [ none ↦ none | some s ↦ some (q + 1 + s) ])
              moved
    ]

abbrev pub skip_slashes : List ℕ → List ℕ
skip_slashes text = if strncmp 2 text (b'/' ∷ b'/' ∷ []) then drop 2 text else text

-- `utils_parseurl`; without a protocol the port and the search stay as the caller set them, here none.
-- The copy of the url is one character longer than it needs.
pub utils_parseurl : List ℕ → Parts
utils_parseurl url = elim (index b':' url) [
  | none ↦ record { protocol = none; host = none; port = none; path = some url; search = none }
  | some c ↦ parse_host (take c url) (skip_slashes (drop (c + 1) url) ++ 0 ∷ 0 ∷ [])
]
