-- ===== src/Url/RoundTrip.antt =====
-- src/media_common.c, `utils_parseurl`: an url that is put together from its parts is taken apart again.
use putv.Prelude.{
  ℕ, suc, ◌+◌, ◌≡◌, refl, ap, ◌∙◌, arith, inl, inr, Bool, true, false, not, ◌&&◌, ◌||◌, Option,
  none, some, List, [], ◌∷◌, ◌++◌, ◌==◌, ltb, take, drop, set, Bool-cases, Option-cases, ==→eq,
  append_assoc,
}
use putv.Text.{strncmp}
use putv.Url.{index, c_text, port_place, give_parts, parse_host, utils_parseurl}

-- No character of a text is one of the given ones.
abbrev pub among : ℕ → List ℕ → Bool
among x [] = false
among x (c ∷ cs) = x == c || among x cs

abbrev pub clean : List ℕ → List ℕ → Bool
clean cs [] = true
clean cs (x ∷ text) = not (among x cs) && clean cs text

-- The place that is n behind a text.
abbrev past : List ℕ → ℕ → ℕ
past [] n = n
past (x ∷ text) n = suc (past text n)

abbrev skip : List ℕ → Option ℕ → Option ℕ
skip text none = none
skip text (some n) = some (past text n)

abbrev subset : List ℕ → List ℕ → Bool
subset [] cs = true
subset (d ∷ ds) cs = among d cs && subset ds cs

among-subset :
    (x : ℕ) (ds cs : List ℕ) → subset ds cs ≡ true → among x cs ≡ false → among x ds ≡ false
among-subset x [] cs h out = refl
among-subset x (d ∷ ds) cs h out =
    let first : among d cs ≡ true = ground arith in
    let rest = among-subset x ds cs (ground arith) out in
    elim (Bool-cases (x == d)) [
      | inl e ↦
          let same : among x cs ≡ true = ap (λ y. among y cs) (==→eq x d e) ∙ first in absurd cc
      | inr e ↦ rw (e, rest) refl
    ]

narrow : (ds cs text : List ℕ) → subset ds cs ≡ true → clean cs text ≡ true → clean ds text ≡ true
narrow ds cs [] h all = refl
narrow ds cs (x ∷ text) h all =
    let first = among-subset x ds cs h (ground arith) in
    let rest = narrow ds cs text h (ground arith) in rw (first, rest) refl

past_suc : (text : List ℕ) (n : ℕ) → past text n + 1 ≡ past text (n + 1)
past_suc [] n = refl
past_suc (x ∷ text) n = omega (arith, past_suc text n)

ltb-past : (text : List ℕ) (m n : ℕ) → ltb (past text m) (past text n) ≡ ltb m n
ltb-past [] m n = refl
ltb-past (x ∷ text) m n = ground (arith, ltb-past text m n)

-- A text without the character is skipped.
index-skip :
    (c : ℕ) (text rest : List ℕ)
    → clean (0 ∷ c ∷ []) text ≡ true
    → index c (text ++ rest) ≡ skip text (index c rest)
unfolding index
index-skip c [] rest h = elim (Option-cases (index c rest)) [
  | inl e ↦ rw e refl
  | inr found ↦ rw (found.1) refl
]
index-skip c (x ∷ text) rest h =
    let other : (x == c) ≡ false = ground arith in
    let inner : (x == 0) ≡ false = ground arith in
    let more = index-skip c text rest (ground arith) in
    elim (Option-cases (index c rest)) [
      | inl e ↦ rw (other, inner, more, e) refl
      | inr found ↦ rw (other, inner, more, found.1) refl
    ]

set-skip :
    (text rest : List ℕ) (n v : ℕ) → set (text ++ rest) (past text n) v ≡ text ++ set rest n v
set-skip [] rest n v = refl
set-skip (x ∷ text) rest n v = ap (λ r. x ∷ r) (set-skip text rest n v)

drop-skip : (text rest : List ℕ) (n : ℕ) → drop (past text n) (text ++ rest) ≡ drop n rest
drop-skip [] rest n = refl
drop-skip (x ∷ text) rest n = drop-skip text rest n

take-skip : (text rest : List ℕ) → take (past text 0) (text ++ rest) ≡ text
take-skip [] rest = refl
take-skip (x ∷ text) rest = ap (λ r. x ∷ r) (take-skip text rest)

c_text-append : (text rest : List ℕ) → clean (0 ∷ []) text ≡ true → c_text (text ++ 0 ∷ rest) ≡ text
unfolding c_text
c_text-append [] rest h = refl
c_text-append (x ∷ text) rest h =
    let inner : (x == 0) ≡ false = ground arith in
    let more = c_text-append text rest (ground arith) in rw (inner, more) refl

-- The memory from the host on: the host, the port and the search.
abbrev pub address : List ℕ → List ℕ → List ℕ → List ℕ
address host port search = host ++ b':' ∷ (port ++ b'?' ∷ (search ++ 0 ∷ 0 ∷ []))

-- What may not stand in a part.
abbrev pub in_host : List ℕ
in_host = 0 ∷ b':' ∷ b'/' ∷ b'?' ∷ []

abbrev pub in_port : List ℕ
in_port = 0 ∷ b'/' ∷ b'?' ∷ []

abbrev pub in_search : List ℕ
in_search = 0 ∷ b'/' ∷ []

module _ (host port search : List ℕ) (clean_host : clean in_host host ≡ true)
    (clean_port : clean in_port port ≡ true) (clean_search : clean in_search search ≡ true) where
  finds_port : index b':' (address host port search) ≡ some (past host 0)
  unfolding index
  finds_port = index-skip b':' host _ (narrow (0 ∷ b':' ∷ []) in_host host refl clean_host)

  no_path_in_port : index b'/' (port ++ b'?' ∷ (search ++ 0 ∷ 0 ∷ [])) ≡ none
  unfolding index
  no_path_in_port =
      index-skip b'/' port _ (narrow (0 ∷ b'/' ∷ []) in_port port refl clean_port)
      ∙ ap (λ o. skip port (elim o [ none ↦ none | some i ↦ some (suc i) ]))
          (index-skip b'/' search _ (narrow (0 ∷ b'/' ∷ []) in_search search refl clean_search))

  finds_path : index b'/' (address host port search) ≡ none
  unfolding index
  finds_path =
      index-skip b'/' host _ (narrow (0 ∷ b'/' ∷ []) in_host host refl clean_host)
      ∙ ap (λ o. skip host (elim o [ none ↦ none | some i ↦ some (suc i) ])) no_path_in_port

  finds_search : index b'?' (address host port search) ≡ some (past host (suc (past port 0)))
  unfolding index
  finds_search =
      index-skip b'?' host _ (narrow (0 ∷ b'?' ∷ []) in_host host refl clean_host)
      ∙ ap (λ o. skip host (elim o [ none ↦ none | some i ↦ some (suc i) ]))
          (index-skip b'?' port _ (narrow (0 ∷ b'?' ∷ []) in_port port refl clean_port))

  abbrev ended : List ℕ
  ended = host ++ 0 ∷ (port ++ 0 ∷ (search ++ 0 ∷ 0 ∷ []))

  ended_lem :
      set (set (address host port search) (past host 0) 0) (past host (suc (past port 0))) 0 ≡ ended
  ended_lem =
      ap (λ m. set m (past host (suc (past port 0))) 0) (set-skip host _ 0 0)
      ∙ set-skip host _ (suc (past port 0)) 0
      ∙ ap (λ m. host ++ 0 ∷ m) (set-skip port _ 0 0)

  host_text : c_text ended ≡ host
  host_text = c_text-append host _ (narrow (0 ∷ []) in_host host refl clean_host)

  port_text : c_text (drop (past host 0 + 1) ended) ≡ port
  port_text =
      ap (λ n. c_text (drop n ended)) (past_suc host 0)
      ∙ ap c_text (drop-skip host _ 1)
      ∙ c_text-append port _ (narrow (0 ∷ []) in_port port refl clean_port)

  search_text : c_text (drop (past host (suc (past port 0)) + 1) ended) ≡ search
  search_text =
      let place : suc (past port 0) + 1 ≡ suc (past port 1) = omega (arith, past_suc port 0) in
      ap (λ n. c_text (drop n ended)) (past_suc host (suc (past port 0)) ∙ ap (past host) place)
      ∙ ap c_text (drop-skip host _ (suc (past port 1)))
      ∙ ap c_text (drop-skip port _ 1)
      ∙ c_text-append search _ (narrow (0 ∷ []) in_search search refl clean_search)

  given_lem :
      (protocol : List ℕ)
      → give_parts protocol
          (some (past host 0 + 1))
          none
          (some (past host (suc (past port 0))))
          (set (address host port search) (past host 0) 0)
        ≡ record {
          protocol = some protocol;
          host = some host;
          port = some port;
          path = none;
          search = some search;
        }
  unfolding give_parts
  given_lem protocol = rw (ended_lem, host_text, port_text, search_text) refl

  -- The parts of the memory from the host on.
  address_parts :
      (protocol : List ℕ)
      → strncmp 4 protocol (b'f' ∷ b'i' ∷ b'l' ∷ b'e' ∷ []) ≡ false
      → parse_host protocol (address host port search) ≡ record {
        protocol = some protocol;
        host = some host;
        port = some port;
        path = none;
        search = some search;
      }
  unfolding parse_host port_place
  address_parts protocol no_file =
      let kept : ltb (past host (suc (past port 0))) (past host 0) ≡ false =
        ltb-past host (suc (past port 0)) 0 ∙ ground arith in
      let given = given_lem protocol in
      rw (parse_host, no_file, finds_path, finds_port, finds_path, finds_search, kept) given

finds_protocol :
    (protocol rest : List ℕ)
    → clean (0 ∷ b':' ∷ []) protocol ≡ true
    → index b':' (protocol ++ b':' ∷ b'/' ∷ b'/' ∷ rest) ≡ some (past protocol 0)
unfolding index
finds_protocol protocol rest h = index-skip b':' protocol _ h

abbrev pub in_protocol : List ℕ
in_protocol = 0 ∷ b':' ∷ []

-- An url with a protocol, a host, a port and a search, as the demuxer makes it of a source.
abbrev pub with_search : List ℕ → List ℕ → List ℕ → List ℕ → List ℕ
with_search protocol host port search =
    protocol ++ b':' ∷ b'/' ∷ b'/' ∷ (host ++ b':' ∷ (port ++ b'?' ∷ search))

-- It is taken apart into them, where the protocol has no colon and does not start with "file", the host
-- has no colon, slash or question mark, the port no slash or question mark, and the search no slash.
pub parseurl-with_search :
    (protocol host port search : List ℕ)
    → clean in_protocol protocol ≡ true
    → strncmp 4 protocol (b'f' ∷ b'i' ∷ b'l' ∷ b'e' ∷ []) ≡ false
    → clean in_host host ≡ true
    → clean in_port port ≡ true
    → clean in_search search ≡ true
    → utils_parseurl (with_search protocol host port search) ≡ record {
      protocol = some protocol;
      host = some host;
      port = some port;
      path = none;
      search = some search;
    }
unfolding utils_parseurl strncmp
parseurl-with_search protocol host port search clean_protocol no_file clean_host clean_port
      clean_search =
    let rest = host ++ b':' ∷ (port ++ b'?' ∷ search) in
    let found = finds_protocol protocol rest clean_protocol in
    let name = take-skip protocol (b':' ∷ b'/' ∷ b'/' ∷ rest) in
    let behind : drop (past protocol 0 + 1) (with_search protocol host port search)
        ≡ b'/' ∷ b'/' ∷ rest =
      ap (λ n. drop n (with_search protocol host port search)) (past_suc protocol 0)
      ∙ drop-skip protocol _ 1 in
    let memory : rest ++ 0 ∷ 0 ∷ [] ≡ address host port search =
      append_assoc host _ _ ∙ ap (λ m. host ++ b':' ∷ m) (append_assoc port _ _) in
    let parts =
      address_parts host port search clean_host clean_port clean_search protocol no_file in
    rw (utils_parseurl, found, name, behind, memory) parts
