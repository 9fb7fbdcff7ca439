-- ===== src/Rtp/Chunks.antt =====
-- src/mux_rtp.c: rows of buffers that are taken for packets.
use putv.Prelude.{
  ℕ, ◌+◌, ◌<◌, ◌≤◌, ◌≡◌, refl, sym, ap, ◌∙◌, arith, List, [], ◌∷◌, ◌++◌, length, append_assoc,
  concat,
}

-- Each buffer leaves room in a packet that has a header alone.
abbrev pub AllFit : ℕ → List (List ℕ) → Type 0
AllFit size [] = Unit {0}
AllFit size (chunk ∷ chunks) = (16 + length chunk < size) × AllFit size chunks

pub AllFit-rest : (size : ℕ) (a b : List (List ℕ)) → AllFit size (a ++ b) → AllFit size b
AllFit-rest size [] b fit = fit
AllFit-rest size (chunk ∷ a) b fit = AllFit-rest size a b fit.1

pub some_taken :
    (size : ℕ) (taken : List (List ℕ)) (first : List ℕ) (rest : List (List ℕ))
    → AllFit size (taken ++ first ∷ rest)
    → size ≤ 16 + length (concat taken) + length first
    → 1 ≤ length taken
some_taken size [] first rest fit full = absurd (omega (arith, fit.0))
some_taken size (chunk ∷ taken) first rest fit full = omega arith

pub concat-append : (a b : List (List ℕ)) → concat (a ++ b) ≡ concat a ++ concat b
concat-append [] b = refl
concat-append (chunk ∷ a) b =
    ap (λ c. chunk ++ c) (concat-append a b) ∙ sym (append_assoc chunk (concat a) (concat b))

-- What is taken twice is taken at once.
pub taken_on : (c t c' t' c'' : List (List ℕ)) → c ≡ t ++ c' → c' ≡ t' ++ c'' → c ≡ (t ++ t') ++ c''
taken_on c t c' t' c'' h k = h ∙ ap (λ x. t ++ x) k ∙ sym (append_assoc t t' c'')

pub moved_on :
    (a b e : List ℕ) (t t' : List (List ℕ))
    → b ≡ a ++ concat t
    → e ≡ b ++ concat t'
    → e ≡ a ++ concat (t ++ t')
moved_on a b e t t' h k =
    k
    ∙ ap (λ x. x ++ concat t') h
    ∙ append_assoc a (concat t) (concat t')
    ∙ ap (λ x. a ++ x) (sym (concat-append t t'))
