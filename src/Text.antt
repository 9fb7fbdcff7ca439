-- ===== src/Text.antt =====
-- C's string functions on texts, which are lists of characters without the final 0. A pointer into a text
-- is the rest of it.
use putv.Prelude.{
  ℕ, zero, suc, ◌≡◌, refl, ap, inl, inr, arith, Bool, true, false, ◌&&◌, Option, none, some, List,
  [], ◌∷◌, ◌++◌, ◌==◌, if◌then◌else◌, length, Bool-cases, ==→eq,
}

-- `strchr`
unfoldable pub strchr : ℕ → List ℕ → Option (List ℕ)
strchr c [] = none
strchr c (x ∷ text) = let rest = strchr c text in if x == c then some (x ∷ text) else rest

-- `!strncmp(a, b, n)`
unfoldable pub strncmp : ℕ → List ℕ → List ℕ → Bool
strncmp zero a b = true
strncmp (suc n) [] [] = true
strncmp (suc n) [] (y ∷ b) = false
strncmp (suc n) (x ∷ a) [] = false
strncmp (suc n) (x ∷ a) (y ∷ b) = x == y && strncmp n a b

-- `!strcmp(a, b)`
unfoldable pub strcmp : List ℕ → List ℕ → Bool
strcmp [] [] = true
strcmp [] (y ∷ b) = false
strcmp (x ∷ a) [] = false
strcmp (x ∷ a) (y ∷ b) = x == y && strcmp a b

-- `strrchr`
unfoldable pub strrchr : ℕ → List ℕ → Option (List ℕ)
strrchr c [] = none
strrchr c (x ∷ text) = elim (strrchr c text) [
  | none ↦ if x == c then some (x ∷ text) else none
  | some rest ↦ some rest
]

-- `strstr`
pub strstr : List ℕ → List ℕ → Option (List ℕ)
unfolding strncmp
strstr [] word = if strncmp (length word) [] word then some [] else none
strstr (x ∷ text) word =
    let rest = strstr text word in
    if strncmp (length word) (x ∷ text) word then some (x ∷ text) else rest

-- Whether a text starts with another one.
unfoldable pub starts_with : List ℕ → List ℕ → Bool
starts_with text [] = true
starts_with [] (p ∷ prefix) = false
starts_with (t ∷ text) (p ∷ prefix) = t == p && starts_with text prefix

-- The pieces of a text between the places of a character.
pub split : ℕ → List ℕ → List (List ℕ)
split c [] = [] ∷ []
split c (x ∷ text) =
    let rest = split c text in
    if x == c then [] ∷ rest else elim rest [ [] ↦ (x ∷ []) ∷ [] | p ∷ ps ↦ (x ∷ p) ∷ ps ]

-- A character that is found stands after a first piece without it.
pub strchr_lem :
    (c : ℕ) (text rest : List ℕ)
    → strchr c text ≡ some rest
    → (first : List ℕ) × (next : List ℕ) × (rest ≡ c ∷ next)
      × (text ≡ first ++ c ∷ next)
      × (split c text ≡ first ∷ split c next)
unfolding strchr split
strchr_lem c [] rest h = absurd cc
strchr_lem c (x ∷ text) rest h = elim (Bool-cases (x == c)) [
  | inl e ↦
      let here : some (x ∷ text) ≡ some rest = (rw e at h) in
      let same = ==→eq x c e in ([], text, cc, cc, rw e refl)
  | inr e ↦
      let found : strchr c text ≡ some rest = (rw e at h) in
      let one = strchr_lem c text rest found in
      (x ∷ one.0, one.1, one.2, ap (λ t. x ∷ t) one.3, rw (e, one.4) refl)
]

pub split_single : (c : ℕ) (text : List ℕ) → strchr c text ≡ none → split c text ≡ text ∷ []
unfolding strchr split
split_single c [] h = refl
split_single c (x ∷ text) h = elim (Bool-cases (x == c)) [
  | inl e ↦ let here : some (x ∷ text) ≡ none = (rw e at h) in absurd cc
  | inr e ↦ let rest = split_single c text (rw e at h) in rw (e, rest) refl
]

-- Comparing as many characters as a first piece has.
pub strncmp-append :
    (text p rest : List ℕ) → strncmp (length p) text (p ++ rest) ≡ starts_with text p
unfolding strncmp starts_with
strncmp-append text [] rest = refl
strncmp-append [] (x ∷ p) rest = refl
strncmp-append (t ∷ text) (x ∷ p) rest = rw (strncmp-append text p rest) refl

pub strncmp_whole : (text p : List ℕ) → strncmp (length p) text p ≡ starts_with text p
unfolding strncmp starts_with
strncmp_whole text [] = refl
strncmp_whole [] (x ∷ p) = refl
strncmp_whole (t ∷ text) (x ∷ p) = rw (strncmp_whole text p) refl

-- The character is found behind texts that do not have it, and the last one wherever it stands.
pub strchr-append :
    (c : ℕ) (a rest : List ℕ) → strchr c a ≡ none → strchr c (a ++ c ∷ rest) ≡ some (c ∷ rest)
unfolding strchr
strchr-append c [] rest h = let self : (c == c) ≡ true = ground arith in rw self refl
strchr-append c (x ∷ a) rest h = elim (Bool-cases (x == c)) [
  | inl e ↦ let here : some (x ∷ a) ≡ none = (rw e at h) in absurd cc
  | inr e ↦ rw e (strchr-append c a rest (rw e at h))
]

pub strrchr-append :
    (c : ℕ) (a rest found : List ℕ)
    → strrchr c rest ≡ some found
    → strrchr c (a ++ rest) ≡ some found
unfolding strrchr
strrchr-append c [] rest found h = h
strrchr-append c (x ∷ a) rest found h = rw (strrchr, strrchr-append c a rest found h) refl

pub strchr-append_none :
    (c : ℕ) (a b : List ℕ) → strchr c a ≡ none → strchr c b ≡ none → strchr c (a ++ b) ≡ none
unfolding strchr
strchr-append_none c [] b h k = k
strchr-append_none c (x ∷ a) b h k = elim (Bool-cases (x == c)) [
  | inl e ↦ let here : some (x ∷ a) ≡ none = (rw e at h) in absurd cc
  | inr e ↦ rw e (strchr-append_none c a b (rw e at h) k)
]
