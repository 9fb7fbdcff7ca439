-- ===== src/Jitter/Tests.antt =====
-- src/jitter_ring.c and src/jitter_common.c: the theorems at a ring of two buffers of four bytes, and at
-- small tables.
use putv.Prelude.{
  ◌*◌, ◌≤◌, ◌+◌, ◌≡◌, refl, arith, true, false, [], ◌∷◌, ◌++◌, none, some, drop, replicate,
}
use putv.Prelude.Int.{pos}
use putv.Jitter.Ctx.{Ctx, done}
use putv.Jitter.Ring.Defs.{Ring, running, pop_move, jitter_push, jitter_pop}
use putv.Jitter.Ring.Pull.{pull_push}
use putv.Jitter.Ring.Wait.{jitter_pull, peer_join, jitter_peer}
use putv.Jitter.Ring.Valid.{IsValid, collect, content}
use putv.Jitter.Ring.Push.{written}
use putv.Jitter.Ring.Peer.{jitter_peer_lem, join_splits}
use putv.Jitter.Ring.Pop.{pop_drops}
use putv.Jitter.Registry.{Registry, jitter_init, jitter_destroy, full_deadlocks}

abbrev two : Ctx
two = record {
  count = 2;
  size = 4;
  thredhold = 1;
  consume = false;
  produce = false;
  heartbeat = false;
}

-- Five bytes from offset 10 on, round the end of the memory; the next goes to 7.
abbrev five : Ring
five = record {
  memory = λ x. x;
  in_at = some 7;
  out_at = some 10;
  level = 5;
  state = running;
  pause = false;
}

-- Six bytes from offset 5 on; the next goes to 11, the last offset.
abbrev six : Ring
six = record five { in_at = some 11; out_at = some 5; level = 6 }

-- One byte, at offset 10.
abbrev one : Ring
one = record five { in_at = some 11; level = 1 }

five-IsValid : IsValid two 7 10 five
five-IsValid = record {
  in_eq = refl;
  out_eq = refl;
  some_size = omega arith;
  some_count = omega arith;
  in_ge = omega arith;
  in_lt = omega arith;
  out_le = omega arith;
  level_le = omega arith;
  in_wrap = refl;
}

six-IsValid : IsValid two 11 5 six
six-IsValid = record {
  in_eq = refl;
  out_eq = refl;
  some_size = omega arith;
  some_count = omega arith;
  in_ge = omega arith;
  in_lt = omega arith;
  out_le = omega arith;
  level_le = omega arith;
  in_wrap = refl;
}

one-IsValid : IsValid two 11 10 one
one-IsValid = record {
  in_eq = refl;
  out_eq = refl;
  some_size = omega arith;
  some_count = omega arith;
  in_ge = omega arith;
  in_lt = omega arith;
  out_le = omega arith;
  level_le = omega arith;
  in_wrap = refl;
}

content-five : content two 10 five ≡ 10 ∷ 11 ∷ 4 ∷ 5 ∷ 6 ∷ []
content-five = refl

jitter_peer_lem_example :
    IsValid two 7 2 (peer_join two five)
    × (content two 2 (peer_join two five) ≡ content two 10 five)
    × (collect 4 (λ k. (peer_join two five).memory (2 + k)) ≡ 10 ∷ 11 ∷ 4 ∷ 5 ∷ [])
    × (jitter_peer two [] five ≡ done (some 2) (peer_join two five))
jitter_peer_lem_example = jitter_peer_lem two 7 10 five five-IsValid [] refl (omega arith) (λ e. cc)

join_splits_example : ¬ IsValid two 11 2 (peer_join two one)
join_splits_example = join_splits two 11 10 one one-IsValid 11 2 (omega arith) (omega arith)

pop_drops_example :
    (jitter_pop two 3 six ≡ some (pop_move two 3 six))
    × IsValid two 11 8 (pop_move two 3 six)
    × (content two 8 (pop_move two 3 six) ≡ drop 3 (content two 5 six))
pop_drops_example =
    pop_drops two 11 5 3 six six-IsValid refl (omega arith) (omega arith) (omega arith)
      (omega arith)

abbrev full : Registry
full = record { jitters = replicate 10 true; locked = false }

full_deadlocks_example :
    (r : Registry) × (jitter_init true full ≡ some (none, r))
    × (jitter_init true (jitter_destroy 3 r) ≡ none)
full_deadlocks_example =
    full_deadlocks full true true 3 refl
      (refl, (refl, (refl, (refl, (refl, (refl, (refl, (refl, (refl, (refl, tt)))))))))) refl

-- Four bytes from offset 7 on; the next goes to 11.
abbrev four : Ring
four = record five { in_at = some 11; out_at = some 7; level = 4 }

four-IsValid : IsValid two 11 7 four
four-IsValid = record {
  in_eq = refl;
  out_eq = refl;
  some_size = omega arith;
  some_count = omega arith;
  in_ge = omega arith;
  in_lt = omega arith;
  out_le = omega arith;
  level_le = omega arith;
  in_wrap = refl;
}

pull_push_example :
    let t = jitter_push two pos 2 (written 11 (70 ∷ 71 ∷ []) four) in
    IsValid two 5 7 t × (content two 7 t ≡ content two 7 four ++ (70 ∷ 71 ∷ [])) × (13 ≤ 4 * 4)
unfolding jitter_pull
pull_push_example =
    pull_push two 11 7 11 four four (70 ∷ 71 ∷ []) pos four-IsValid refl refl (omega arith)
      (omega arith)
