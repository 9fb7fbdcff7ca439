-- ===== src/Media/File/Valid.antt =====
-- The invariant of the list of urls, and what insertion and removal do to it.
use Prim.Native.String.{String}
use text.Mathlib.TextEquality.{eq_iff}
use putv.Prelude.{
  ℕ, ◌+◌, ◌%◌, ◌^◌, ◌≤◌, ◌<◌, ◌≡◌, ◌≢◌, refl, ap, sym, arith, ◌⊎◌, inl, inr, false, Option,
  Option-cases, none, some, List, [], ◌∷◌, ◌++◌,
}
use putv.Prelude.Int.{ℤ}
use putv.Media.File.{Url, File, find_id, find_url, media_insert, media_append, entry, new_id}

-- Every entry's id is at most `lastid`; ids and urls are not repeated.
abbrev pub AllBelow : ℕ → List Url → Type 0
AllBelow n [] = Unit {0}
AllBelow n (u ∷ us) = (u.id ≤ n) × AllBelow n us

abbrev pub Differs : Url → List Url → Type 0
Differs u [] = Unit {0}
Differs u (w ∷ us) = (u.id ≢ w.id) × (u.url ≢ w.url) × Differs u us

abbrev pub Distinct : List Url → Type 0
Distinct [] = Unit {0}
Distinct (u ∷ us) = Differs u us × Distinct us

-- No entry was freed by `media_remove`.
abbrev pub AllLive : List Url → Type 0
AllLive [] = Unit {0}
AllLive (u ∷ us) = (u.freed ≡ false) × AllLive us

pub record IsValid (f : File) : Type 0 where
  pub live : AllLive f.media
  pub below : AllBelow f.lastid f.media
  pub distinct : Distinct f.media

AllLive-append : (u : Url) (us : List Url) → AllLive us → u.freed ≡ false → AllLive (us ++ (u ∷ []))
AllLive-append u [] a h = (h, tt)
AllLive-append u (w ∷ us) a h = (a.0, AllLive-append u us a.1 h)

-- A search by url of such a list reads no freed string.
pub find_url-AllLive : (path : String) (us : List Url) → AllLive us → find_url path us ≢ none
unfolding find_url
find_url-AllLive path [] a e = cc
find_url-AllLive path (u ∷ us) a e = ground (arith, find_url-AllLive path us)

AllBelow-mono : (m n : ℕ) (us : List Url) → m ≤ n → AllBelow m us → AllBelow n us
AllBelow-mono m n [] h a = tt
AllBelow-mono m n (u ∷ us) h a = (omega arith, AllBelow-mono m n us h a.1)

find_url-miss :
    (path : String) (w : Url) (us : List Url)
    → find_url path (w ∷ us) ≡ some none
    → (path ≢ w.url) × (find_url path us ≡ some none)
unfolding find_url
find_url-miss path w us e = (λ p. ground (arith, eq_iff path w.url), ground arith)

-- A url that the search does not meet differs from all, and so does an id above all.
Differs-new :
    (u : Url) (n : ℕ) (us : List Url)
    → AllBelow n us
    → n < u.id
    → find_url u.url us ≡ some none
    → Differs u us
Differs-new u n [] a h e = tt
Differs-new u n (w ∷ us) a h e =
    let miss = find_url-miss u.url w us e in (omega arith, miss.0, Differs-new u n us a.1 h miss.1)

find_id_above : (n i : ℕ) (us : List Url) → AllBelow n us → n < i → find_id i us ≡ none
unfolding find_id
find_id_above n i [] a h = refl
find_id_above n i (u ∷ us) a h = ground (arith, find_id_above n i us)

Distinct-append : (u : Url) (us : List Url) → Distinct us → Differs u us → Distinct (us ++ (u ∷ []))
Distinct-append u [] d h = (tt, tt)
Distinct-append u (w ∷ us) d h =
    (Differs-append w u us d.0 (λ p. h.0 (sym p)) (λ p. h.1 (sym p)), Distinct-append u us d.1 h.2)
  where
    Differs-append :
        (w u : Url) (us : List Url)
        → Differs w us
        → w.id ≢ u.id
        → w.url ≢ u.url
        → Differs w (us ++ (u ∷ []))
    Differs-append w u [] a p q = (p, q, tt)
    Differs-append w u (x ∷ us) a p q = (a.0, a.1, Differs-append w u us a.2 p q)

AllBelow-append :
    (n : ℕ) (u : Url) (us : List Url) → AllBelow n us → u.id ≤ n → AllBelow n (us ++ (u ∷ []))
AllBelow-append n u [] a h = (h, tt)
AllBelow-append n u (w ∷ us) a h = (a.0, AllBelow-append n u us a.1 h)

-- A new entry differs from all, and its id is the greatest.
pub new-Differs :
    (x : Url) (n : ℕ) (us : List Url)
    → n + 1 < 2 ^ 31
    → AllBelow n us
    → x.id ≡ new_id us n
    → find_url x.url us ≡ some none
    → Differs x us
new-Differs x n [] few a i e = tt
new-Differs x n (w ∷ us) few a i e = Differs-new x n (w ∷ us) a (omega arith) e

pub new_id-AllBelow :
    (n : ℕ) (us : List Url) → n + 1 < 2 ^ 31 → AllBelow n us → AllBelow (new_id us n) us
new_id-AllBelow n [] few a = tt
new_id-AllBelow n (w ∷ us) few a = AllBelow-mono n ((n + 1) % 2 ^ 32) (w ∷ us) (omega arith) a

pub new_id-le : (us : List Url) (n : ℕ) → new_id us n ≤ n + 1
new_id-le [] n = omega arith
new_id-le (u ∷ us) n = omega arith

module _ (getmime : String → String) (fillinfo : String → Option String → Option String)
    (mime_directory : String) where
  module _ (f : File) (path : String) (info mime : Option String) where
    new : Url
    new = entry getmime fillinfo mime_directory f path info mime

    inserted : File
    unfolding new
    inserted = record f { lastid = new_id f.media f.lastid; media = new ∷ f.media }

    appended : File
    unfolding new
    appended = record f { lastid = new_id f.media f.lastid; media = f.media ++ (new ∷ []) }

    insert-cases :
        (r : ℤ) (g : File)
        → media_insert getmime fillinfo mime_directory f path info mime ≡ some (r, g)
        → (g ≡ f) ⊎ (find_url path f.media ≡ some none) × (g ≡ inserted)
    unfolding media_insert inserted
    insert-cases r g e = ground arith

    append-cases :
        (r : ℤ) (g : File)
        → media_append getmime fillinfo mime_directory f path info mime ≡ some (r, g)
        → (g ≡ f) ⊎ (find_url path f.media ≡ some none) × (g ≡ appended)
    unfolding media_append appended
    append-cases r g e = ground arith

    inserted-IsValid :
        f.lastid + 1 < 2 ^ 31 → IsValid f → find_url path f.media ≡ some none → IsValid inserted
    unfolding inserted
    inserted-IsValid few v e = record {
      live = (refl, v.live);
      below = (omega arith, new_id-AllBelow f.lastid f.media few v.below);
      distinct = (new-Differs new f.lastid f.media few v.below refl e, v.distinct);
    }

    appended-IsValid :
        f.lastid + 1 < 2 ^ 31 → IsValid f → find_url path f.media ≡ some none → IsValid appended
    unfolding appended
    appended-IsValid few v e = record {
      live = AllLive-append new f.media v.live refl;
      below =
          AllBelow-append (new_id f.media f.lastid) new f.media
            (new_id-AllBelow f.lastid f.media few v.below) (omega arith);
      distinct =
          Distinct-append new f.media v.distinct
            (new-Differs new f.lastid f.media few v.below refl e);
    }

    insert-AllLive :
        AllLive f.media → media_insert getmime fillinfo mime_directory f path info mime ≢ none
    unfolding media_insert
    insert-AllLive a e = ground (arith, find_url-AllLive path f.media a)

    append-AllLive :
        AllLive f.media → media_append getmime fillinfo mime_directory f path info mime ≢ none
    unfolding media_append
    append-AllLive a e = ground (arith, find_url-AllLive path f.media a)

    pub insert-IsValid :
        (r : ℤ) (g : File)
        → f.lastid + 1 < 2 ^ 31
        → IsValid f
        → media_insert getmime fillinfo mime_directory f path info mime ≡ some (r, g)
        → IsValid g
    insert-IsValid r g few v e = elim (insert-cases r g e) [
      | inl p ↦ rw p v
      | inr (q, p) ↦ rw p (inserted-IsValid few v q)
    ]

    pub insert-lastid :
        (r : ℤ) (g : File)
        → media_insert getmime fillinfo mime_directory f path info mime ≡ some (r, g)
        → g.lastid ≤ f.lastid + 1
    unfolding inserted
    insert-lastid r g e = elim (insert-cases r g e) [
      | inl p ↦ omega (arith, ap (λ (x : File). x.lastid) p)
      | inr (q, p) ↦ omega (arith, ap (λ (x : File). x.lastid) p, new_id-le f.media f.lastid)
    ]

    append-IsValid :
        (r : ℤ) (g : File)
        → f.lastid + 1 < 2 ^ 31
        → IsValid f
        → media_append getmime fillinfo mime_directory f path info mime ≡ some (r, g)
        → IsValid g
    append-IsValid r g few v e = elim (append-cases r g e) [
      | inl p ↦ rw p v
      | inr (q, p) ↦ rw p (appended-IsValid few v q)
    ]

  -- On a list from which nothing was removed, with distinct urls and ids up to `lastid`, where the next id
  -- fits into an int, `media_insert` and `media_append` return, and leave such a list.
  pub insert_append-IsValid :
      (f : File) (path : String) (info mime : Option String)
      → f.lastid + 1 < 2 ^ 31
      → IsValid f
      → ((r : ℤ) × (g : File) × (media_insert getmime fillinfo mime_directory f path info mime
            ≡ some (r, g))
          × IsValid g)
        × ((r : ℤ) × (g : File) × (media_append getmime fillinfo mime_directory f path info mime
              ≡ some (r, g))
            × IsValid g)
  insert_append-IsValid f path info mime few v = (
    elim (Option-cases (media_insert getmime fillinfo mime_directory f path info mime)) [
      | inl e ↦ absurd (insert-AllLive f path info mime v.live e)
      | inr ((r, g), e) ↦ (r, g, e, insert-IsValid f path info mime r g few v e)
    ],
    elim (Option-cases (media_append getmime fillinfo mime_directory f path info mime)) [
      | inl e ↦ absurd (append-AllLive f path info mime v.live e)
      | inr ((r, g), e) ↦ (r, g, e, append-IsValid f path info mime r g few v e)
    ],
  )
