-- ===== src/Media/Dir/Sought.antt =====
-- src/media_dir.c, `_find` with `_find_mediaid`: the walk over the tree is a walk over the list of its
-- medias, from wherever it starts.
use putv.Prelude.{
  ℕ, zero, suc, ◌+◌, ◌≤◌, ◌<◌, ◌≡◌, refl, ◌⊎◌, inl, inr, arith, true, false, Option, none, some,
  List, [], ◌∷◌, ◌++◌, leb, length, drop, get_elem?, Bool-cases,
}
use putv.Prelude.Int.{ℤ, pos, negsuc}
use putv.Media.Mime.{Mime}
use putv.Media.Dir.{
  Entry, Entries, end, entry, Dirlist, Search, Item, Walk, Outcome, found, done, is_hidden,
  drop_items, raise_count, find_loop, find_entry,
}
use putv.Media.Dir.Medias.{
  Media, item_at, medias, entry_medias, above, rest_of, ending, entry_ending,
}

abbrev pub Room : Option ℤ → ℕ → Type 0
Room none n = Unit {0}
Room (some (pos c)) n = n ≤ c
Room (some (negsuc c)) n = ⊥

pub Room-le : (count : Option ℤ) (a b : ℕ) → a ≤ b → Room count b → Room count a
Room-le none a b h r = tt
Room-le (some (pos c)) a b h r = omega arith
Room-le (some (negsuc c)) a b h r = r

abbrev pub walk : ℕ → Option ℤ → List Item → Walk
walk m count calls = record { mediaid = pos m; count = count; calls = calls }

pub raise-Room :
    (count : Option ℤ) (m : ℕ) (calls : List Item)
    → Room count m
    → raise_count (walk m count calls) ≡ walk m count calls
raise-Room none m calls r = refl
raise-Room (some (pos c)) m calls r = ground arith
raise-Room (some (negsuc c)) m calls r = absurd r

pub drop_items-suc :
    (n : ℕ) (items : Entries) (name : List ℕ) (e : Entry) (rest : Entries)
    → drop_items n items ≡ entry name e rest
    → drop_items (suc n) items ≡ rest
drop_items-suc zero end name e rest h = absurd cc
drop_items-suc zero (entry n f items) name e rest h = cc
drop_items-suc (suc k) end name e rest h = absurd cc
drop_items-suc (suc k) (entry n f items) name e rest h = drop_items-suc k items name e rest h

module _ (getmime : List ℕ → Mime) where
  -- A search that stopped at a media of the list, with the other ones before it.
  pub record Hit (parents : List Dirlist) (id m : ℕ) (ms : List Media) (count : Option ℤ)
      (calls : List Item) (o : Outcome) : Type 0 where
    pub at : ℕ
    pub media : Media
    pub dirs : List Dirlist
    pub id_at : id ≡ m + at
    pub here : get_elem? ms at ≡ some media
    pub finds : o ≡ found dirs (walk id count (calls ++ item_at id media ∷ []))
    pub left : rest_of getmime (dirs ++ parents) ≡ drop at ms ++ above getmime parents

  -- A search that went past all of the list.
  pub record Miss (id m : ℕ) (ms : List Media) (count : Option ℤ) (calls : List Item) (ret : ℤ)
      (o : Outcome) : Type 0 where
    pub outside : (id < m) ⊎ (m + length ms ≤ id)
    pub ends : o ≡ done ret (walk (m + length ms) count calls)

  abbrev pub Sought :
      List Dirlist → ℕ → ℕ → List Media → Option ℤ → List Item → ℤ → Outcome → Type 0
  Sought parents id m ms count calls ret o =
      Hit parents id m ms count calls o ⊎ Miss id m ms count calls ret o

  -- The loop, an entry at a time.
  pub loop_hidden :
      (sought : Search) (path : List ℕ) (level : ℕ) (items : Entries) (index : ℕ) (name : List ℕ)
      (e : Entry) (rest : Entries) (ret : ℤ) (w : Walk)
      → is_hidden name ≡ true
      → find_loop getmime sought path level items index (entry name e rest) ret w
        ≡ find_loop getmime sought path level items (suc index) rest ret w
  unfolding find_loop
  loop_hidden sought path level items index name e rest ret w h = rw h refl

  pub loop_found :
      (sought : Search) (path : List ℕ) (level : ℕ) (items : Entries) (index : ℕ) (name : List ℕ)
      (e : Entry) (rest : Entries) (ret : ℤ) (w after : Walk) (dirs : List Dirlist)
      → is_hidden name ≡ false
      → find_entry getmime sought path level e name ret w ≡ found dirs after
      → find_loop getmime sought path level items index (entry name e rest) ret w
        ≡ found
            (dirs ++ record { path = path; level = level; items = items; index = index } ∷ [])
            after
  unfolding find_loop
  loop_found sought path level items index name e rest ret w after dirs h k = rw h (rw k refl)

  pub loop_done :
      (sought : Search) (path : List ℕ) (level : ℕ) (items : Entries) (index : ℕ) (name : List ℕ)
      (e : Entry) (rest : Entries) (ret ret' : ℤ) (w after : Walk)
      → is_hidden name ≡ false
      → find_entry getmime sought path level e name ret w ≡ done ret' after
      → find_loop getmime sought path level items index (entry name e rest) ret w
        ≡ find_loop getmime sought path level items (suc index) rest ret' after
  unfolding find_loop
  loop_done sought path level items index name e rest ret ret' w after h k = rw h (rw k refl)

  pub medias_hidden :
      (path : List ℕ) (level : ℕ) (name : List ℕ) (e : Entry) (rest : Entries)
      → is_hidden name ≡ true
      → medias getmime path level (entry name e rest) ≡ medias getmime path level rest
  unfolding medias
  medias_hidden path level name e rest h = rw h refl

  pub medias_shown :
      (path : List ℕ) (level : ℕ) (name : List ℕ) (e : Entry) (rest : Entries)
      → is_hidden name ≡ false
      → medias getmime path level (entry name e rest)
        ≡ entry_medias getmime path level e name ++ medias getmime path level rest
  unfolding medias
  medias_shown path level name e rest h = rw h refl

  pub ending_hidden :
      (level : ℕ) (ret : ℤ) (name : List ℕ) (e : Entry) (rest : Entries)
      → is_hidden name ≡ true
      → ending getmime level ret (entry name e rest) ≡ ending getmime level ret rest
  unfolding ending
  ending_hidden level ret name e rest h = rw h refl

  pub ending_shown :
      (level : ℕ) (ret : ℤ) (name : List ℕ) (e : Entry) (rest : Entries)
      → is_hidden name ≡ false
      → ending getmime level ret (entry name e rest)
        ≡ ending getmime level (entry_ending getmime level ret e name) rest
  unfolding ending
  ending_shown level ret name e rest h = rw h refl

  pub outside_cases : (id m n : ℕ) → n ≡ m → (id < m) ⊎ (n ≤ id)
  outside_cases id m n h = elim (Bool-cases (leb m id)) [
    | inl e ↦ inr (ground arith)
    | inr e ↦ inl (ground arith)
  ]

  -- A list without medias is missed.
  pub Miss-none :
      (id m : ℕ) (count : Option ℤ) (calls : List Item) (ret : ℤ) (o : Outcome)
      → o ≡ done ret (walk m count calls)
      → Miss id m [] count calls ret o
  Miss-none id m count calls ret o h =
      let same : m + 0 ≡ m = omega arith in
      record { outside = outside_cases id m (m + 0) same; ends = rw same h }
