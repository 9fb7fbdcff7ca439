-- ===== src/Commands/Import.antt =====
-- src/cmds_line.c, `method_import` as built with MEDIA_IMPORT, with src/media_file.c as the media: the medias
-- of a directory are put into the list of urls. `text` is the string with these characters.
use Prim.Native.String.{String}
use text.Mathlib.Text.{◌==◌ as str_eq}
use text.Mathlib.TextEquality.{eq_iff}
use putv.Prelude.{
  ℕ, suc, ◌+◌, ◌^◌, ◌≤◌, ◌<◌, ◌≡◌, refl, ap, ◌∙◌, arith, ◌⊎◌, inl, inr, true, false, Option, none,
  some, List, [], ◌∷◌, length, Bool-cases, Option-cases,
}
use putv.Prelude.Int.{ℤ, pos, negsuc}
use putv.Media.Mime.{Mime, mime_text}
use putv.Media.File.{Url, File, find_url, media_insert, entry, new_id, as_int}
use putv.Media.File.Valid.{IsValid, insert-IsValid, new_id-le, find_url-AllLive}
use putv.Media.Dir.{Entries, Item}
use putv.Media.Dir.Api.{Dir, media_init, media_list}
use putv.Media.Dir.Medias.{Media, medias, numbered}
use putv.Media.Dir.Listing.{media_init_lem, media_list_lem}

-- The entries that a list has are found in another one as well.
abbrev pub Keeps : File → File → Type 0
Keeps f g =
    (path : String) (u : Url)
    → find_url path f.media ≡ some (some u)
    → find_url path g.media ≡ some (some u)

module _ (text : List ℕ → String) (getmime : String → String)
    (fillinfo : String → Option String → Option String) (mime_directory : String) where
  abbrev insert : Item → File → Option (ℤ × File)
  insert m f =
      let mime = some (text (mime_text m.mime)) in
      media_insert getmime fillinfo mime_directory f (text m.url) (fillinfo (text m.url) mime) mime

  -- `_import_entry`, for the medias that the directory has.
  pub import_entries : List Item → File → Option File
  import_entries [] f = some f
  import_entries (m ∷ ms) f = elim (insert m f) [ none ↦ none | some r ↦ import_entries ms r.1 ]

  -- `method_import`; `dir` is what the `init` of the directory's media gives.
  unfoldable pub method_import : (List ℕ → Mime) → Option Dir → File → Option (ℤ × File)
  unfolding import_entries
  method_import kind none f = some (pos 0, f)
  method_import kind (some dir) f = elim (import_entries (media_list kind dir).1 f) [
    | none ↦ none
    | some g ↦ some (pos 0, g)
  ]

  -- A media is in the list, or it is taken for a directory.
  abbrev pub Held : File → Item → Type 0
  Held f m =
      (str_eq (text (mime_text m.mime)) mime_directory ≡ true)
      ⊎ (u : Url) × (find_url (text m.url) f.media ≡ some (some u))

  abbrev pub AllHeld : File → List Item → Type 0
  AllHeld f [] = Unit {0}
  AllHeld f (m ∷ ms) = Held f m × AllHeld f ms

  Held-Keeps : (f g : File) (m : Item) → Keeps f g → Held f m → Held g m
  Held-Keeps f g m k (inl d) = inl d
  Held-Keeps f g m k (inr (u, h)) = inr (u, k (text m.url) u h)

  abbrev new : Item → File → Url
  new m f =
      let mime = some (text (mime_text m.mime)) in
      entry getmime fillinfo mime_directory f (text m.url) (fillinfo (text m.url) mime) mime

  abbrev longer : Item → File → File
  longer m f = record f { lastid = new_id f.media f.lastid; media = new m f ∷ f.media }

  Keeps-longer :
      (m : Item) (f : File) → find_url (text m.url) f.media ≡ some none → Keeps f (longer m f)
  unfolding find_url
  Keeps-longer m f miss path u h = elim (Bool-cases (str_eq path (text m.url))) [
    | inl e ↦
        let same : path ≡ text m.url = ground (arith, eq_iff path (text m.url)) in
        let both : find_url path f.media ≡ some none = ap (λ p. find_url p f.media) same ∙ miss in
        absurd cc
    | inr e ↦ rw (find_url, e) h
  ]

  finds_new :
      (m : Item) (f : File) → find_url (text m.url) (new m f ∷ f.media) ≡ some (some (new m f))
  unfolding find_url
  finds_new m f =
      let same : str_eq (text m.url) (text m.url) ≡ true =
        (eq_iff (text m.url) (text m.url)).1 refl in
      rw (find_url, same) refl

  -- One call of `_import_entry` returns.
  step :
      (m : Item) (f : File)
      → f.lastid + 1 < 2 ^ 31
      → IsValid f
      → (r : ℤ) × (g : File) × (insert m f ≡ some (r, g))
        × IsValid g
        × Held g m
        × Keeps f g
        × (g.lastid ≤ f.lastid + 1)
  unfolding media_insert
  step m f few v = elim (Option-cases (find_url (text m.url) f.media)) [
    | inl e ↦ absurd (find_url-AllLive (text m.url) f.media v.live e)
    | inr (here, e) ↦ elim (Option-cases here) [
      | inl n ↦
          let miss : find_url (text m.url) f.media ≡ some none = cc in
          elim (Bool-cases (str_eq (text (mime_text m.mime)) mime_directory)) [
            | inl d ↦ (
              negsuc 0,
              f,
              rw (media_insert, miss, d) refl,
              v,
              inl d,
              (λ path u h. h),
              omega arith,
            )
            | inr d ↦
                let gives : insert m f ≡ some (as_int f.lastid, longer m f) =
                  rw (media_insert, miss, d) refl in
                let mime = some (text (mime_text m.mime)) in
                (
                  as_int f.lastid,
                  longer m f,
                  gives,
                  insert-IsValid getmime fillinfo mime_directory f (text m.url)
                      (fillinfo (text m.url) mime) mime (as_int f.lastid) (longer m f) few v gives,
                  inr (new m f, finds_new m f),
                  Keeps-longer m f miss,
                  new_id-le f.media f.lastid,
                )
          ]
      | inr (u, n) ↦
          let hit : find_url (text m.url) f.media ≡ some (some u) = cc in
          (
            as_int u.id,
            f,
            rw (media_insert, hit) refl,
            v,
            inr (u, hit),
            (λ path w h. h),
            omega arith,
          )
    ]
  ]

  -- A media that is in the list is not put in again.
  held : (m : Item) (f : File) → IsValid f → Held f m → (r : ℤ) × (insert m f ≡ some (r, f))
  unfolding media_insert
  held m f v (inr (u, hit)) = (as_int u.id, rw (media_insert, hit) refl)
  held m f v (inl d) = elim (Option-cases (find_url (text m.url) f.media)) [
    | inl e ↦ absurd (find_url-AllLive (text m.url) f.media v.live e)
    | inr (here, e) ↦ elim (Option-cases here) [
      | inl n ↦
          let miss : find_url (text m.url) f.media ≡ some none = cc in
          (negsuc 0, rw (media_insert, miss, d) refl)
      | inr (u, n) ↦
          let hit : find_url (text m.url) f.media ≡ some (some u) = cc in
          (as_int u.id, rw (media_insert, hit) refl)
    ]
  ]

  pub import_entries_lem :
      (ms : List Item) (f : File)
      → f.lastid + length ms < 2 ^ 31
      → IsValid f
      → (g : File) × (import_entries ms f ≡ some g)
        × IsValid g
        × AllHeld g ms
        × Keeps f g
        × (g.lastid ≤ f.lastid + length ms)
  unfolding import_entries
  import_entries_lem [] f few v = (f, refl, v, tt, (λ path u h. h), omega arith)
  import_entries_lem (m ∷ ms) f few v =
      let (r, g, e, w, one, kept, last) = step m f (omega arith) v in
      let (h, e', w', rest, kept', last') = import_entries_lem ms g (omega arith) w in
      (
        h,
        rw (import_entries, e) e',
        w',
        (Held-Keeps g h m kept' one, rest),
        (λ path u at. kept' path u (kept path u at)),
        omega arith,
      )

  all_held : (ms : List Item) (f : File) → IsValid f → AllHeld f ms → import_entries ms f ≡ some f
  unfolding import_entries
  all_held [] f v h = refl
  all_held (m ∷ ms) f v h =
      let (r, e) = held m f v h.0 in rw (import_entries, e) (all_held ms f v h.1)

  length-numbered : (id : ℕ) (ms : List Media) → length (numbered id ms) ≡ length ms
  length-numbered id [] = refl
  length-numbered id (m ∷ ms) = ap suc (length-numbered (suc id) ms)

  listed :
      (kind : List ℕ → Mime) (root : List ℕ) (items : Entries)
      → (media_list kind (media_init kind root items)).1 ≡ numbered 0 (medias kind root 0 items)
  listed kind root items =
      let ctx : Dir = record {
        root = root;
        items = items;
        count = pos (length (medias kind root 0 items));
        mediaid = negsuc 0;
        firstmediaid = negsuc 0;
        current = [];
        loop = false;
        random = false;
      } in
      ap (λ d. (media_list kind d).1) (media_init_lem kind root items)
      ∙ ap (λ r. r.1) (media_list_lem kind ctx refl)

  -- `import` of a directory into a list of urls that is valid, where an id for each media of the tree still
  -- fits into an int, returns 0 and leaves a valid list, which has
  -- all the entries that it had and each media of the tree, but for those whose type is that of a
  -- directory; the same `import` again changes nothing.
  pub method_import_lem :
      (kind : List ℕ → Mime) (root : List ℕ) (items : Entries) (f : File)
      → f.lastid + length (medias kind root 0 items) < 2 ^ 31
      → IsValid f
      → let dir = some (media_init kind root items) in
        (g : File) × (method_import kind dir f ≡ some (pos 0, g))
        × IsValid g
        × AllHeld g (numbered 0 (medias kind root 0 items))
        × Keeps f g
        × (method_import kind dir g ≡ some (pos 0, g))
  unfolding method_import
  method_import_lem kind root items f few v =
      let ms = numbered 0 (medias kind root 0 items) in
      let same_length : length ms ≡ length (medias kind root 0 items) =
        length-numbered 0 (medias kind root 0 items) in
      let (g, e, w, all, kept, last) = import_entries_lem ms f (omega arith) v in
      let calls = listed kind root items in
      (
        g,
        rw (method_import, calls, e) refl,
        w,
        all,
        kept,
        rw (method_import, calls, all_held ms g w all) refl,
      )
