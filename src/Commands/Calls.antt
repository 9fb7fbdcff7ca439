-- ===== src/Commands/Calls.antt =====
-- src/cmds_line.c: what each command does to the player and to a valid list of urls.
use Prim.Native.String.{String}
use putv.Prelude.{
  ℕ, ◌+◌, ◌-◌, ◌^◌, ◌<◌, ◌≤◌, zero, suc, ◌≡◌, refl, ◌∙◌, arith, inl, inr, Bool, true, false, Option,
  none, some, List, [], ◌∷◌, ◌++◌, Bool-cases, Option-cases, if◌then◌else◌,
}
use putv.Prelude.Int.{ℤ, pos, negsuc, ltb_ℤ}
use putv.Media.File.{
  Url, File, OptionState, disable, find_id, media_find, media_insert, media_loop, media_next,
}
use putv.Media.File.Valid.{IsValid, AllLive, insert_append-IsValid, insert-lastid}
use putv.Media.Dir.{next_id}
use putv.Player.{Player, State, Src, player_state, change, stop as stopped, plain, same_state}
use putv.Sinks.Settings.{atoi}
use putv.Player.Requests.{player_play, player_change}
use putv.Commands.Methods.{
  Session, Answers, ask, called, print_entries, print_found, method_media, method_next,
}

-- A valid list, in which the last id given is at most `n`.
abbrev pub Bounded : ℕ → File → Type 0
Bounded n f = IsValid f × (f.lastid ≤ n)

pub insert-Bounded :
    (getmime : String → String) (fillinfo : String → Option String → Option String)
    (mime_directory : String) (n : ℕ) (f : File) (path : String) (info mime : Option String)
    → n + 1 < 2 ^ 31
    → Bounded n f
    → (r : ℤ) × (g : File) × (media_insert getmime fillinfo mime_directory f path info mime
        ≡ some (r, g))
      × Bounded (n + 1) g
insert-Bounded getmime fillinfo mime_directory n f path info mime few (v, last) =
    let (r, g, e, w) =
      (insert_append-IsValid getmime fillinfo mime_directory f path info mime (omega arith) v).0 in
    let next = insert-lastid getmime fillinfo mime_directory f path info mime r g e in
    (r, g, e, (w, omega arith))

-- The player has a media, such a list.
pub record Ready (n : ℕ) (ctx : Session) : Type 0 where
  pub has_media : ctx.player.media ≡ true
  pub list_valid : Bounded n ctx.file

pub Ready-mono : (n m : ℕ) (ctx : Session) → n ≤ m → Ready n ctx → Ready m ctx
Ready-mono n m ctx h ok = record {
  has_media = ok.has_media;
  list_valid = (ok.list_valid.0, omega (arith, ok.list_valid.1));
}

print_entries-AllLive :
    (index : ℤ) (us : List Url)
    → AllLive us
    → (lines : List (ℤ × Url)) × (print_entries index us ≡ some lines)
unfolding print_entries
print_entries-AllLive index [] live = ([], refl)
print_entries-AllLive index (u ∷ us) live =
    let (lines, e) = print_entries-AllLive (next_id index) us live.1 in
    ((index, u) ∷ lines, ground (arith, live.0, e))

find_id-AllLive :
    (id : ℕ) (us : List Url) (u : Url) → AllLive us → find_id id us ≡ some u → u.freed ≡ false
unfolding find_id
find_id-AllLive id [] u live h = absurd cc
find_id-AllLive id (w ∷ us) u live h = ground (arith, live.0, find_id-AllLive id us u live.1)

one-AllLive :
    (id : ℕ) (us : List Url)
    → AllLive us
    → AllLive (elim (find_id id us) [ none ↦ [] | some u ↦ u ∷ [] ])
one-AllLive id us live = elim (Option-cases (find_id id us)) [
  | inl e ↦ rw e tt
  | inr (u, e) ↦ rw e (find_id-AllLive id us u live e, tt)
]

called-AllLive : (id : ℤ) (f : File) → AllLive f.media → AllLive (called id f)
called-AllLive (pos id) f live = one-AllLive id f.media live
called-AllLive (negsuc zero) f live = live
called-AllLive (negsuc (suc n)) f live = one-AllLive (2 ^ 32 - 2 - n) f.media live

pub print_found-Ready :
    (n : ℕ) (id index : ℤ) (ctx : Session)
    → Ready n ctx
    → (r : ℤ) × (next : Session) × (print_found id index ctx ≡ some (r, next)) × Ready n next
unfolding print_found
print_found-Ready n id index ctx ok =
    let (lines, e) =
      print_entries-AllLive index (called id ctx.file)
        (called-AllLive id ctx.file ok.list_valid.0.live) in
    (
      media_find ctx.file id (λ u. true),
      record ctx { printed = ctx.printed ++ lines },
      rw (print_found, e) refl,
      record { has_media = ok.has_media; list_valid = ok.list_valid },
    )

pub relooped : (n : ℕ) (f : File) (o : OptionState) → Bounded n f → Bounded n (media_loop f o).1
unfolding media_loop
relooped n f o (v, last) = (record { live = v.live; below = v.below; distinct = v.distinct }, last)

moved-Bounded : (n : ℕ) (f : File) → Bounded n f → Bounded n (media_next f).1
unfolding media_next
moved-Bounded n f (v, last) =
    (record { live = v.live; below = v.below; distinct = v.distinct }, last)

asked-media : (busy : Bool) (s : State) (p : Player) → (player_state busy s p).1.media ≡ p.media
unfolding player_state
asked-media busy s p = ground arith

played-media : (source : Option (Option Src)) (p : Player) → (player_play source p).media ≡ p.media
unfolding player_play
played-media source p = ground arith

changed-media :
    (busy built looped shuffled now : Bool) (source : Option (Option Src)) (p : Player)
    → p.media ≡ true
    → (player_change busy built looped shuffled now source p).media ≡ true
unfolding player_change player_play player_state
changed-media busy built looped shuffled now source p has = ground arith

module _ (n : ℕ) where
  pub ask-Ready :
      (busy : Bool) (s : State) (ctx : Session) → Ready n ctx → Ready n (ask busy s ctx).1
  ask-Ready busy s ctx ok = record {
    has_media = asked-media busy s ctx.player ∙ ok.has_media;
    list_valid = ok.list_valid;
  }

  chosen-Bounded :
      (arg : Option (List ℕ)) (built : Option File) (old : File)
      → ((f : File) → built ≡ some f → Bounded n f)
      → Bounded n old
      → (let media : Option File = elim arg [ none ↦ none | some path ↦ built ] in
          Bounded n (elim media [ none ↦ old | some f ↦ f ]))
  chosen-Bounded none built old good v = v
  chosen-Bounded (some path) none old good v = v
  chosen-Bounded (some path) (some f) old good v = good f refl

  settled-Bounded :
      (has halted : Bool) (f old : File)
      → Bounded n f
      → Bounded n old
      → (let straight = (media_loop f disable).1 in
          Bounded n (if has then (if halted then straight else (media_next straight).1) else old))
  settled-Bounded true true f old v w = relooped n f disable v
  settled-Bounded true false f old v w =
      moved-Bounded n (media_loop f disable).1 (relooped n f disable v)
  settled-Bounded false halted f old v w = w

  pub method_media-Ready :
      (a : Answers) (arg : Option (List ℕ)) (ctx : Session)
      → Ready n ctx
      → ((f : File) → a.built ≡ some f → Bounded n f)
      → Ready n (method_media a arg ctx).1
  unfolding method_media
  method_media-Ready a arg ctx ok good =
      let media : Option File = elim arg [ none ↦ none | some path ↦ a.built ] in
      let built : Bool = elim media [ none ↦ false | some f ↦ true ] in
      let file : File = elim media [ none ↦ ctx.file | some f ↦ f ] in
      record {
        has_media = changed-media a.busy built true false true a.source ctx.player ok.has_media;
        list_valid =
            settled-Bounded (player_change a.busy built true false true a.source ctx.player).media
              (same_state ctx.player.state (plain stopped)) file ctx.file
              (chosen-Bounded arg a.built ctx.file good ok.list_valid) ok.list_valid;
      }

  pub method_next-Ready :
      (a : Answers) (arg : Option (List ℕ)) (ctx : Session)
      → Ready n ctx
      → Ready n (method_next a arg ctx).1
  unfolding method_next
  method_next-Ready a none ctx ok = ask-Ready a.busy (plain change) ctx ok
  method_next-Ready a (some text) ctx ok = elim (Bool-cases (ltb_ℤ (negsuc 0) (atoi text))) [
    | inl e ↦ rw e (
        ask-Ready a.busy (plain change) (record ctx { player = player_play a.source ctx.player })
          (record {
            has_media = played-media a.source ctx.player ∙ ok.has_media;
            list_valid = ok.list_valid;
          }))
    | inr e ↦ rw e (ask-Ready a.busy (plain change) ctx ok)
  ]
