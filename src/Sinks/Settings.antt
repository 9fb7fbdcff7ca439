-- ===== src/Sinks/Settings.antt =====
-- src/sink_common.c, `parse_audioparameters`: the settings of an ALSA sink, as built with
-- SINK_ALSA_CONFIG.
use putv.Prelude.{
  ℕ, zero, suc, ◌+◌, ◌-◌, ◌*◌, ◌<◌, ◌≤◌, ◌≡◌, refl, ap, arith, ◌⊎◌, inl, inr, Bool, true, false,
  ◌&&◌, ◌||◌, Option, none, some, List, [], ◌∷◌, ◌++◌, ◌==◌, leb, if◌then◌else◌, length, drop,
  Bool-cases, Option-cases, length-append, length-drop,
}
use putv.Prelude.Int.{ℤ, pos, negsuc, sub_ℕ}
use putv.Text.{strchr, strncmp, strchr_lem}
use putv.Media.Mime.{codes}
use putv.Filter.Format.{
  PcmFormat, pcm_8bits_mono, pcm_16bits_le_stereo, pcm_24bits4_le_stereo, pcm_32bits_le_stereo,
}

-- `atoi`: the digits behind blanks and a sign.
abbrev pub is_digit : ℕ → Bool
is_digit c = leb b'0' c && leb c b'9'

unfoldable pub number : ℕ → List ℕ → ℕ
number n [] = n
number n (c ∷ text) = if is_digit c then number (n * 10 + (c - b'0')) text else n

unfoldable pub atoi : List ℕ → ℤ
unfolding number
atoi [] = pos 0
atoi (c ∷ text) =
    let rest = atoi text in
    if c == b' ' || leb b'\t' c && leb c b'\r'
    then rest
    else if c == b'-'
    then sub_ℕ 0 (number 0 text)
    else if c == b'+'
    then pos (number 0 text)
    else pos (number 0 (c ∷ text))

-- What the pointers of `parse_audioparameters` give.
pub record Setting : Type 0 where
  pub format : PcmFormat
  pub rate : ℤ
  pub mixer : Option (List ℕ)

abbrev pub format_word : List ℕ
format_word = codes "format="

abbrev pub rate_word : List ℕ
rate_word = codes "samplerate="

abbrev pub mixer_word : List ℕ
mixer_word = codes "mixer="

pub read_format : List ℕ → PcmFormat → PcmFormat
unfolding strncmp
read_format text old =
    if strncmp 4 text (codes "32le")
    then pcm_32bits_le_stereo
    else if strncmp 4 text (codes "24le")
    then pcm_24bits4_le_stereo
    else if strncmp 4 text (codes "16le")
    then pcm_16bits_le_stereo
    else if strncmp 1 text (codes "8")
    then pcm_8bits_mono
    else old

-- The three tests of the loop's body: the pointer and the settings after each. `wants` is whether the
-- caller takes a mixer. `asprintf` returns the number of characters, which is taken for a failure, and
-- `%*s` writes the whole text.
unfoldable pub at_format : List ℕ → Setting → List ℕ × Setting
unfolding read_format
at_format text s =
    if strncmp 7 text format_word
    then (drop 7 text, record s { format = read_format (drop 7 text) s.format })
    else (text, s)

unfoldable pub at_rate : List ℕ → Setting → List ℕ × Setting
unfolding strncmp atoi
at_rate text s =
    if strncmp 11 text rate_word
    then (drop 11 text, record s { rate = atoi (drop 11 text) })
    else (text, s)

unfoldable pub at_mixer : Bool → List ℕ → Setting → List ℕ × Setting × Bool
unfolding strncmp strchr
at_mixer wants text s =
    if strncmp 6 text mixer_word
    then (if wants
        then (
          drop 6 text,
          record s { mixer = some (drop 6 text) },
          elim (strchr b'&' (drop 6 text)) [ none ↦ false | some end ↦ true ],
        )
        else (drop 6 text, s, false))
    else (text, s, false)

abbrev pub body : Bool → List ℕ → Setting → List ℕ × Setting × Bool
body wants text s = let a = at_format text s in let b = at_rate a.0 a.1 in at_mixer wants b.0 b.1

-- `parse_audioparameters`: what it returns, and the settings. The fuel is more than the text's length.
pub parse_settings : ℕ → Bool → List ℕ → Setting → Option (ℤ × Setting)
parse_settings zero wants text s = none
parse_settings (suc fuel) wants text s =
    let r = body wants text s in
    if r.2 then some (negsuc 0, r.1) else elim (strchr b'&' r.0) [
      | none ↦ some (pos 0, r.1)
      | some next ↦ parse_settings fuel wants (drop 1 next) r.1
    ]

unfoldable pub parse_audioparameters : Bool → List ℕ → Setting → Option (ℤ × Setting)
unfolding parse_settings
parse_audioparameters wants text s = parse_settings (suc (length text)) wants text s

at_format_shrinks : (text : List ℕ) (s : Setting) → length (at_format text s).0 ≤ length text
unfolding at_format
at_format_shrinks text s = elim (Bool-cases (strncmp 7 text format_word)) [
  | inl e ↦ rw e (rw length-drop (omega arith))
  | inr e ↦ rw e (omega arith)
]

at_rate_shrinks : (text : List ℕ) (s : Setting) → length (at_rate text s).0 ≤ length text
unfolding at_rate
at_rate_shrinks text s = elim (Bool-cases (strncmp 11 text rate_word)) [
  | inl e ↦ rw e (rw length-drop (omega arith))
  | inr e ↦ rw e (omega arith)
]

at_mixer_shrinks :
    (wants : Bool) (text : List ℕ) (s : Setting) → length (at_mixer wants text s).0 ≤ length text
unfolding at_mixer
at_mixer_shrinks wants text s = elim (Bool-cases (strncmp 6 text mixer_word)) [
  | inl e ↦ elim (Bool-cases wants) [
    | inl w ↦ rw (e, w) (rw length-drop (omega arith))
    | inr w ↦ rw (e, w) (rw length-drop (omega arith))
  ]
  | inr e ↦ rw e (omega arith)
]

body_shrinks :
    (wants : Bool) (text : List ℕ) (s : Setting) → length (body wants text s).0 ≤ length text
body_shrinks wants text s =
    let a = at_format text s in
    let b = at_rate a.0 a.1 in
    let x = at_format_shrinks text s in
    let y = at_rate_shrinks a.0 a.1 in let z = at_mixer_shrinks wants b.0 b.1 in omega arith

-- The mixer that a failing step leaves: the name and the settings behind it.
abbrev pub Swallowed : Bool → Setting → Type 0
Swallowed wants s =
    (wants ≡ true) × (name : List ℕ) × (rest : List ℕ) × (s.mixer ≡ some (name ++ b'&' ∷ rest))

at_mixer_fails :
    (wants : Bool) (text : List ℕ) (s : Setting)
    → (at_mixer wants text s).2 ≡ true
    → Swallowed wants (at_mixer wants text s).1
unfolding at_mixer
at_mixer_fails wants text s h = elim (Bool-cases (strncmp 6 text mixer_word)) [
  | inr e ↦ let no : false ≡ true = (rw e at h) in absurd cc
  | inl e ↦ elim (Bool-cases wants) [
    | inr w ↦ let no : false ≡ true = (rw (e, w) at h) in absurd cc
    | inl w ↦ elim (Option-cases (strchr b'&' (drop 6 text))) [
      | inl f ↦ let no : false ≡ true = (rw (e, w, f) at h) in absurd cc
      | inr (end, f) ↦
          let found = strchr_lem b'&' (drop 6 text) end f in
          (w, found.0, found.1, rw (e, w) (ap some found.3))
    ]
  ]
]

-- The two ends of a run: all settings read, or a mixer that is followed by other settings.
abbrev pub Ends : Bool → ℤ × Setting → Type 0
Ends wants r = (r.0 ≡ pos 0) ⊎ ((r.0 ≡ negsuc 0) × Swallowed wants r.1)

parse_settings-Ends :
    (fuel : ℕ) (wants : Bool) (text : List ℕ) (s : Setting)
    → length text < fuel
    → (r : ℤ × Setting) × (parse_settings fuel wants text s ≡ some r) × Ends wants r
unfolding parse_settings
parse_settings-Ends zero wants text s h = absurd (omega arith)
parse_settings-Ends (suc fuel) wants text s h =
    let r = body wants text s in
    elim (Bool-cases r.2) [
      | inl e ↦
          let b = at_rate (at_format text s).0 (at_format text s).1 in
          ((negsuc 0, r.1), rw e refl, inr (refl, at_mixer_fails wants b.0 b.1 e))
      | inr e ↦ elim (Option-cases (strchr b'&' r.0)) [
        | inl f ↦ ((pos 0, r.1), rw (e, f) refl, inl refl)
        | inr (next, f) ↦
            let found = strchr_lem b'&' r.0 next f in
            let shorter = body_shrinks wants text s in
            let size = length-append found.0 (b'&' ∷ found.1) in
            let whole : length r.0 ≡ length (found.0 ++ b'&' ∷ found.1) = ap length found.3 in
            let tail : drop 1 next ≡ found.1 = ap (drop 1) found.2 in
            let small : length (drop 1 next) < fuel = rw tail (omega arith) in
            let rest = parse_settings-Ends fuel wants (drop 1 next) r.1 small in
            (rest.0, rw (e, f) rest.1, rest.2)
      ]
    ]

-- `parse_audioparameters` ends on every text, and fails in one case only: the caller takes a mixer, and
-- the mixer's name is followed by another setting. Then the mixer is the name with all that follows it.
pub parse_audioparameters-Ends :
    (wants : Bool) (text : List ℕ) (s : Setting)
    → (r : ℤ × Setting) × (parse_audioparameters wants text s ≡ some r) × Ends wants r
unfolding parse_audioparameters
parse_audioparameters-Ends wants text s =
    parse_settings-Ends (suc (length text)) wants text s (omega arith)
