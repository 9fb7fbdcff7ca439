-- ===== src/Media/File/Order.antt =====
-- `media_next` visits the entries of the list in order.
use putv.Prelude.{
  ℕ, zero, suc, ◌≡◌, ◌≢◌, refl, arith, ap, none, some, List, [], ◌∷◌, ◌++◌, if◌then◌else◌, map,
  length,
}
use mathlib.Core.List.{append_assoc}
use putv.Prelude.Int.{ℤ, negsuc}
use putv.Media.File.{Url, File, next_of, as_int, advance, media_next}
use putv.Media.File.Valid.{IsValid, Differs, Distinct}

-- What `n` calls of `media_next` return, and the state after them.
pub visits : ℕ → File → List ℤ × File
visits zero f = ([], f)
visits (suc n) f = let (r, g) = media_next f in let (rs, h) = visits n g in (r ∷ rs, h)

abbrev id_at : Url → ℤ
id_at u = as_int u.id

Differs-middle : (x u : Url) (xs ys : List Url) → Differs x (xs ++ (u ∷ ys)) → x.id ≢ u.id
Differs-middle x u [] ys d = d.0
Differs-middle x u (y ∷ xs) ys d = Differs-middle x u xs ys d.2

-- The successor of an entry, whatever stands before it.
next_of-middle :
    (xs ys : List Url) (u w : Url)
    → Distinct (xs ++ (u ∷ (w ∷ ys)))
    → next_of u.id (xs ++ (u ∷ (w ∷ ys))) ≡ some w
unfolding next_of
next_of-middle [] ys u w d = ground arith
next_of-middle (x ∷ []) ys u w d = ground arith
next_of-middle (x ∷ (y ∷ xs)) ys u w d =
    ground (arith, Differs-middle x u (y ∷ xs) (w ∷ ys), next_of-middle (y ∷ xs) ys u w)

next_of-last :
    (xs : List Url) (u : Url) → Distinct (xs ++ (u ∷ [])) → next_of u.id (xs ++ (u ∷ [])) ≡ none
unfolding next_of
next_of-last [] u d = refl
next_of-last (x ∷ []) u d = ground arith
next_of-last (x ∷ (y ∷ xs)) u d =
    ground (arith, Differs-middle x u (y ∷ xs) [], next_of-last (y ∷ xs) u)

-- The id of the last entry of `u ∷ us`.
abbrev pub last_id : Url → List Url → ℕ
last_id u [] = u.id
last_id u (w ∷ us) = last_id w us

next_middle :
    (f : File) (xs ys : List Url) (u w : Url)
    → f.media ≡ xs ++ (u ∷ (w ∷ ys))
    → Distinct f.media
    → f.current ≡ some u.id
    → media_next f ≡ (as_int w.id, record f { current = some w.id })
unfolding media_next advance
next_middle f xs ys u w m d c =
    ground (arith, next_of-middle xs ys u w (rw m at d), ap (next_of u.id) m)

visits_from :
    (ys xs : List Url) (u : Url) (f : File)
    → f.media ≡ xs ++ (u ∷ ys)
    → Distinct f.media
    → f.current ≡ some u.id
    → visits (length ys) f ≡ (map id_at ys, record f { current = some (last_id u ys) })
unfolding visits
visits_from [] xs u f m d c = ground arith
visits_from (w ∷ ys) xs u f m d c =
    let g : File = record f { current = some w.id } in
    let shifted : f.media ≡ (xs ++ (u ∷ [])) ++ (w ∷ ys) =
      rw (append_assoc xs (u ∷ []) (w ∷ ys)) m in
    rw (next_middle f xs ys u w m d c, visits_from ys (xs ++ (u ∷ [])) w g shifted d refl)

next_of-end :
    (us xs : List Url) (u : Url)
    → Distinct (xs ++ (u ∷ us))
    → next_of (last_id u us) (xs ++ (u ∷ us)) ≡ none
next_of-end [] xs u d = next_of-last xs u d
next_of-end (w ∷ us) xs u d =
    rw (← append_assoc xs (u ∷ []) (w ∷ us))
      (next_of-end us (xs ++ (u ∷ [])) w (rw (append_assoc xs (u ∷ []) (w ∷ us)) d))

next_first :
    (f : File) (u : Url) (us : List Url)
    → f.media ≡ u ∷ us
    → f.current ≡ none
    → media_next f ≡ (as_int u.id, record f { current = some u.id })
unfolding media_next advance
next_first f u us m c = ground arith

next_end :
    (f : File) (u : Url) (us : List Url)
    → f.media ≡ u ∷ us
    → Distinct f.media
    → (media_next (record f { current = some (last_id u us) })).0
      ≡ (if f.loop then as_int u.id else negsuc 0)
unfolding media_next advance
next_end f u us m d = ground (arith, next_of-end us [] u (rw m at d), ap (next_of (last_id u us)) m)

-- In a valid list that is not empty, started before its first entry, as many calls of `media_next`
-- as there are entries return the ids of all in order, as ints. The call after those returns the first again
-- if the list loops, else -1.
pub next_visits_all :
    (f : File) (u : Url) (us : List Url)
    → IsValid f
    → f.media ≡ u ∷ us
    → f.current ≡ none
    → (visits (length f.media) f ≡ (map id_at f.media, record f { current = some (last_id u us) }))
      × ((media_next (record f { current = some (last_id u us) })).0
          ≡ (if f.loop then as_int u.id else negsuc 0))
unfolding visits
next_visits_all f u us v m c =
    let long : length f.media ≡ suc (length us) = ap length m in
    let ids : map id_at f.media ≡ id_at u ∷ map id_at us = ap (map id_at) m in
    (
      rw (
        long,
        ids,
        next_first f u us m c,
        visits_from us [] u (record f { current = some u.id }) m v.distinct refl,
      ),
      next_end f u us m v.distinct,
    )
