-- ===== src/Media/File/Ids.antt =====
-- The id that `media_insert` returns, and the entry that `media_remove` leaves.
use Prim.Native.String.{String}
use putv.Prelude.{ℕ, ◌+◌, ◌^◌, ◌<◌, ◌≡◌, ◌≢◌, refl, arith, ap, Option, none, some, List, [], ◌∷◌}
use putv.Prelude.Int.{ℤ, pos, negsuc}
use putv.Media.File.{
  Url, File, find_id, find_url, free_id, media_insert, media_remove, entry, new_id, as_int,
}
use putv.Media.File.Valid.{IsValid, Differs, new-Differs}

new_id_some : (us : List Url) (n : ℕ) → n + 1 < 2 ^ 31 → us ≢ [] → new_id us n ≡ n + 1
new_id_some [] n few h = absurd (h refl)
new_id_some (u ∷ us) n few h = omega arith

find_id-Differs :
    (x u : Url) (i : ℕ) (us : List Url) → Differs x us → find_id i us ≡ some u → u.url ≢ x.url
unfolding find_id
find_id-Differs x u i [] d e p = cc
find_id-Differs x u i (w ∷ us) d e p = ground (arith, find_id-Differs x u i us)

module _ (getmime : String → String) (fillinfo : String → Option String → Option String)
    (mime_directory : String) where
  insert-fresh :
      (f : File) (path : String) (info mime : Option String) (r : ℤ) (g : File)
      → find_url path f.media ≡ some none
      → media_insert getmime fillinfo mime_directory f path info mime ≡ some (r, g)
      → r ≢ negsuc 0
      → (r ≡ as_int f.lastid)
        × (g ≡ record f {
          lastid = new_id f.media f.lastid;
          media = entry getmime fillinfo mime_directory f path info mime ∷ f.media;
        })
  unfolding media_insert
  insert-fresh f path info mime r g fresh e ok = ground arith

  -- The search for another id passes the new entry by.
  found :
      (f g : File) (path : String) (info mime : Option String) (u : Url)
      → find_id f.lastid g.media ≡ some u
      → g ≡ record f {
        lastid = new_id f.media f.lastid;
        media = entry getmime fillinfo mime_directory f path info mime ∷ f.media;
      }
      → new_id f.media f.lastid ≡ f.lastid + 1
      → find_id f.lastid f.media ≡ some u
  unfolding find_id
  found f g path info mime u h e n = ground (arith, ap (λ (x : File). x.media) e)

  -- In a valid list that is not empty, where the next id fits into an int, a new url that `media_insert` accepts goes in under the id
  -- `lastid + 1`, but what is returned is `lastid`: looking that id up does not give the new url.
  pub insert_returns_old :
      (f : File) (path : String) (info mime : Option String) (r : ℤ) (g : File)
      → f.lastid + 1 < 2 ^ 31
      → IsValid f
      → f.media ≢ []
      → find_url path f.media ≡ some none
      → media_insert getmime fillinfo mime_directory f path info mime ≡ some (r, g)
      → r ≢ negsuc 0
      → (r ≡ pos f.lastid)
        × (find_id (f.lastid + 1) g.media
            ≡ some (entry getmime fillinfo mime_directory f path info mime))
        × (find_id f.lastid g.media ≢ some (entry getmime fillinfo mime_directory f path info mime))
  unfolding find_id
  insert_returns_old f path info mime r g few v ne fresh e ok =
      let x : Url = entry getmime fillinfo mime_directory f path info mime in
      let (er, eg) = insert-fresh f path info mime r g fresh e ok in
      let next : new_id f.media f.lastid ≡ f.lastid + 1 = new_id_some f.media f.lastid few ne in
      (
        ground (arith, er),
        rw eg (ground arith),
        λ h.
            find_id-Differs x x f.lastid f.media
              (new-Differs x f.lastid f.media few v.below refl fresh)
              (found f g path info mime x h eg next) refl,
      )

free_id-find_url :
    (id : ℕ) (path : String) (us : List Url) (u : Url)
    → find_id id us ≡ some u
    → find_url path us ≡ some none
    → find_url path (free_id id us) ≡ none
unfolding find_id free_id find_url
free_id-find_url id path [] u e m = cc
free_id-find_url id path (w ∷ us) u e m = ground (arith, free_id-find_url id path us u)

-- After the removal of an entry, the insertion of any url that the list did not hold reads the freed
-- string of that entry.
pub insert_after_remove_faults :
    (getmime : String → String) (fillinfo : String → Option String → Option String)
    (mime_directory : String) (f : File) (id : ℕ) (u : Url) (path : String)
    (info mime : Option String)
    → find_id id f.media ≡ some u
    → find_url path f.media ≡ some none
    → media_insert getmime fillinfo mime_directory (media_remove f id).1 path info mime ≡ none
unfolding media_insert media_remove
insert_after_remove_faults getmime fillinfo mime_directory f id u path info mime e m =
    rw (free_id-find_url id path f.media u e m, media_insert)
