-- ===== src/Media/Dir.antt =====
-- src/media_dir.c, built without USE_INOTIFY: the audio files of a directory tree. The tree is what
-- `scandir` and the tests of each entry answer, and does not change. `utils_getmime` is an argument;
-- memory does not run out. `media_init` is from the test of the path on.
pub mod Api
pub mod Medias
pub mod Sought
pub mod Files
pub mod Behind
pub mod Subdirs
pub mod Seek
pub mod Cursor
pub mod Next
pub mod Visits
pub mod Count
pub mod Listing
mod Tests
pub mod Past
use putv.Prelude.{
  ℕ, zero, suc, Bool, true, false, not, ◌&&◌, Option, none, some, List, [], ◌∷◌, ◌++◌, ◌==◌, leb,
  if◌then◌else◌,
}
use putv.Prelude.Int.{ℤ, pos, negsuc, ltb_ℤ}
use putv.Media.Mime.{Mime, octetstream, codes}

-- `struct dirent`, with its name in the list of them. `directory` is also a link to a directory; `barred`
-- says that it cannot be opened or has a file .putv_unparse. `other` is any other link or type.
mutual
  pub data Entry : Type 0 where
    regular : Entry
    directory : Bool → Entries → Entry
    other : Entry

  pub data Entries : Type 0 where
    end : Entries
    entry : List ℕ → Entry → Entries → Entries

-- `media_dirlist_t`; the list from `current` over `prev` to the root is a list, the deepest first.
pub record Dirlist : Type 0 where
  pub path : List ℕ
  pub level : ℕ
  pub items : Entries
  pub index : ℕ

-- What `_find_mediaid_t` searches: -1 is each.
pub data Search : Type 0 where
  find_mediaid : ℤ → Search
  find_count : Search

-- A call of `_run_cb`: the id, the url and the mime type.
pub record Item : Type 0 where
  pub id : ℤ
  pub url : List ℕ
  pub mime : Mime

-- What `_find` changes beside the list: `*pmediaid`, `ctx->count` (`none` where `pmediaid` points to it),
-- and the calls so far.
pub record Walk : Type 0 where
  pub mediaid : ℤ
  pub count : Option ℤ
  pub calls : List Item

-- How `_find` ends: with 0 and the list where it stopped, or with another value and the list used up.
pub data Outcome : Type 0 where
  found : List Dirlist → Walk → Outcome
  done : ℤ → Walk → Outcome

abbrev pub next_id : ℤ → ℤ
next_id (pos n) = pos (suc n)
next_id (negsuc zero) = pos 0
next_id (negsuc (suc n)) = negsuc n

abbrev pub eq_ℤ : ℤ → ℤ → Bool
eq_ℤ (pos a) (pos b) = a == b
eq_ℤ (negsuc a) (negsuc b) = a == b
eq_ℤ _ _ = false

abbrev pub is_octetstream : Mime → Bool
is_octetstream octetstream = true
is_octetstream _ = false

abbrev pub drop_items : ℕ → Entries → Entries
drop_items zero items = items
drop_items (suc n) end = end
drop_items (suc n) (entry name e items) = drop_items n items

abbrev pub is_hidden : List ℕ → Bool
is_hidden [] = false
is_hidden (c ∷ name) = c == b'.'

abbrev pub is_empty : Entries → Bool
is_empty end = true
is_empty (entry name e items) = false

abbrev pub below : List ℕ → List ℕ → List ℕ
below path name = path ++ b'/' ∷ name

abbrev pub run_cb : List ℕ → Mime → Walk → Walk
run_cb url mime w = record w {
  calls = w.calls ++ record { id = w.mediaid; url = url; mime = mime } ∷ [];
}

-- `_find_mediaid` and `_find_count`.
pub find_cb : Search → List ℕ → Mime → Walk → ℤ × Walk
find_cb find_count url mime w = (pos 1, run_cb url mime w)
find_cb (find_mediaid id) url mime w =
    if ltb_ℤ (negsuc 0) id && eq_ℤ id w.mediaid
    then (pos 0, run_cb url mime w)
    else if eq_ℤ id (negsuc 0)
    then (pos 1, run_cb url mime w)
    else (pos 1, w)

abbrev pub raise_count : Walk → Walk
raise_count w = elim w.count [
  | none ↦ w
  | some count ↦ if ltb_ℤ count w.mediaid then record w { count = some (next_id w.mediaid) } else w
]

-- The loop of `_find` behind an entry: it breaks at 0.
abbrev pub go_on : Dirlist → Outcome → (ℤ → Walk → Outcome) → Outcome
go_on dir (found dirs w) next = found (dirs ++ dir ∷ []) w
go_on dir (done ret w) next = next ret w

module _ (getmime : List ℕ → Mime) (search : Search) where
  -- `_find`, an entry of the type DT_REG.
  pub find_file : List ℕ → List ℕ → Walk → Outcome
  unfolding find_cb
  find_file path name w =
      if is_octetstream (getmime name)
      then done (negsuc 0) (raise_count w)
      else (let r = find_cb search (codes "file://" ++ below path name) (getmime name) w in
          elim r.0 [
            | pos zero ↦ found [] (raise_count r.1)
            | pos (suc n) ↦
                done (pos (suc n)) (raise_count (record r.1 { mediaid = next_id r.1.mediaid }))
            | negsuc n ↦ done (negsuc n) (raise_count r.1)
          ])

  -- `_find`: the loop over the entries from `index` on of a directory's `items`, and an entry. `ret` is
  -- the variable.
  unfoldable mutual
    unfolding find_file

    pub find_loop : List ℕ → ℕ → Entries → ℕ → Entries → ℤ → Walk → Outcome
    find_loop path level items index end ret w = done ret w
    find_loop path level items index (entry name e rest) ret w =
        let dir : Dirlist = record { path = path; level = level; items = items; index = index } in
        let next = find_loop path level items (suc index) rest in
        let skipped = find_loop path level items (suc index) rest ret w in
        let seen = go_on dir (find_entry path level e name ret w) next in
        if is_hidden name then skipped else seen

    pub find_entry : List ℕ → ℕ → Entry → List ℕ → ℤ → Walk → Outcome
    find_entry path level regular name ret w = find_file path name w
    find_entry path level other name ret w = done ret w
    find_entry path level (directory barred items) name ret w =
        let inner = find_loop (below path name) (suc level) items 0 items (negsuc 1) w in
        let entered = if is_empty items then done ret w else inner in
        if leb level 10 && not barred then entered else done ret w

  -- `_find` on the way back from a deeper directory: the entry that it was is left behind.
  pub climb : Outcome → List Dirlist → Outcome
  climb (found dirs w) parents = found (dirs ++ parents) w
  climb (done ret w) [] = done ret w
  climb (done ret w) (d ∷ parents) =
      climb
        (find_loop d.path d.level d.items (suc d.index) (drop_items (suc d.index) d.items) ret w)
        parents

  -- `_find` at the level 0, from the list on; the empty list is the null pointer.
  pub find : List ℕ → Entries → List Dirlist → Walk → Outcome
  unfolding climb find_loop
  find root items [] w = find_loop root 0 items 0 items (negsuc 1) (record w { mediaid = pos 0 })
  find root items (d ∷ parents) w =
      climb (find_loop d.path d.level d.items d.index (drop_items d.index d.items) (negsuc 1) w)
        parents
