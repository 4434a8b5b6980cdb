-- ===== src/Proxy/Lock/Steps.antt =====
-- What each step of the lock's model (src/proxy.C) preserves.
use libptytty.Base.{
  ℕ, zero, suc, ◌≤◌, ◌≡◌, refl, ap, Bool, true, false, Option, none, some, List, [], ◌∷◌, arith,
  ◌==◌, get_elem?, Bool-cases, inl, inr,
}
use libptytty.Proxy.Server.Counts.{count, count-append}
use libptytty.Proxy.Lock.{
  HelperAt, gives, reads, handles, needs, ClientAt, idle, holds, waits, ends, System, Action,
  helper_moves, takes, writes, reads_answer, ends_turn, fails, fails_early, goes_on, helper_goes_on,
  miss_answer, take_command, take_back, move_helper, take_token, write_command, read_answer,
  give_token, step,
}
use libptytty.Proxy.Lock.Laws.{
  tokens, waiting-turns, mark, is_giving, is_waiting, asked, handled, IsValid, After, asked-append,
  in_turn_le, counted_self, turns-set, mark_none, waiting-set, waiting_apart,
}

module _ (s : System) (v : IsValid s) where
  take_command-IsValid :
      (q : List (ℕ × Bool)) → s.helper ≡ reads → s.commands ≡ q → After IsValid (take_command s q)
  unfolding take_command
  take_command-IsValid [] h e = tt
  take_command-IsValid ((i, true) ∷ q) h e = record {
    single = omega (arith, v.single, ap is_giving h);
    matched = λ live k. omega (
      arith,
      v.matched (omega (arith, live, ap is_giving h)) k,
      ap (asked k) e,
      ap (handled k) h,
    );
  }
  take_command-IsValid ((i, false) ∷ q) h e = record {
    single = omega (arith, v.single, ap is_giving h);
    matched = λ live k. omega (
      arith,
      v.matched (omega (arith, live, ap is_giving h)) k,
      ap (asked k) e,
      ap (handled k) h,
    );
  }

  take_back-IsValid : (n : ℕ) → s.helper ≡ needs → s.to_helper ≡ n → After IsValid (take_back s n)
  unfolding take_back
  take_back-IsValid zero h e = tt
  take_back-IsValid (suc n) h e = record {
    single = omega (arith, v.single, e, ap is_giving h);
    matched = λ live k.
        omega (arith, v.matched (omega (arith, live, e, ap is_giving h)) k, ap (handled k) h);
  }

  move_helper-IsValid : (h : HelperAt) → s.helper ≡ h → After IsValid (move_helper s h)
  unfolding move_helper
  move_helper-IsValid gives h = record {
    single = omega (arith, v.single, ap is_giving h);
    matched = λ live k.
        omega (arith, v.matched (omega (arith, live, ap is_giving h)) k, ap (handled k) h);
  }
  move_helper-IsValid reads h = take_command-IsValid s.commands h refl
  move_helper-IsValid (handles i true) h = record {
    single = omega (arith, v.single, ap is_giving h);
    matched = λ live k. omega (
      arith,
      v.matched (omega (arith, live, ap is_giving h)) k,
      ap (handled k) h,
      count-append k s.answers (i ∷ []),
    );
  }
  move_helper-IsValid (handles i false) h = record {
    single = omega (arith, v.single, ap is_giving h);
    matched = λ live k.
        omega (arith, v.matched (omega (arith, live, ap is_giving h)) k, ap (handled k) h);
  }
  move_helper-IsValid needs h = take_back-IsValid s.to_helper h refl

  take_token-IsValid :
      (i n : ℕ) (p : Option ClientAt)
      → s.to_clients ≡ n
      → get_elem? s.clients i ≡ p
      → After IsValid (take_token s i n p)
  unfolding take_token
  take_token-IsValid i zero p e at = tt
  take_token-IsValid i (suc n) none e at = tt
  take_token-IsValid i (suc n) (some idle) e at = record {
    single = omega (arith, v.single, e, turns-set s.clients i idle holds at);
    matched = λ live k. omega (
      arith,
      v.matched (omega (arith, live, e, turns-set s.clients i idle holds at)) k,
      waiting-set s.clients i idle holds k at,
      mark_none (i == k),
    );
  }
  take_token-IsValid i (suc n) (some holds) e at = tt
  take_token-IsValid i (suc n) (some waits) e at = tt
  take_token-IsValid i (suc n) (some ends) e at = tt

  write_command-IsValid :
      (i : ℕ) (b : Bool) (p : Option ClientAt)
      → get_elem? s.clients i ≡ p
      → After IsValid (write_command s i b p)
  unfolding write_command
  write_command-IsValid i true none at = tt
  write_command-IsValid i true (some idle) at = tt
  write_command-IsValid i true (some holds) at = record {
    single = omega (arith, v.single, turns-set s.clients i holds waits at);
    matched = λ live k. omega (
      arith,
      v.matched (omega (arith, live, turns-set s.clients i holds waits at)) k,
      waiting-set s.clients i holds waits k at,
      mark_none (i == k),
      asked-append k s.commands ((i, true) ∷ []),
    );
  }
  write_command-IsValid i true (some waits) at = tt
  write_command-IsValid i true (some ends) at = tt
  write_command-IsValid i false none at = tt
  write_command-IsValid i false (some idle) at = tt
  write_command-IsValid i false (some holds) at = record {
    single = omega (arith, v.single, turns-set s.clients i holds ends at);
    matched = λ live k. omega (
      arith,
      v.matched (omega (arith, live, turns-set s.clients i holds ends at)) k,
      waiting-set s.clients i holds ends k at,
      mark_none (i == k),
      asked-append k s.commands ((i, false) ∷ []),
    );
  }
  write_command-IsValid i false (some waits) at = tt
  write_command-IsValid i false (some ends) at = tt

  give_token-IsValid :
      (i : ℕ) (p : Option ClientAt) → get_elem? s.clients i ≡ p → After IsValid (give_token s i p)
  unfolding give_token
  give_token-IsValid i none at = tt
  give_token-IsValid i (some idle) at = tt
  give_token-IsValid i (some holds) at = tt
  give_token-IsValid i (some waits) at = tt
  give_token-IsValid i (some ends) at = record {
    single = omega (arith, v.single, turns-set s.clients i ends idle at);
    matched = λ live k. omega (
      arith,
      v.matched (omega (arith, live, turns-set s.clients i ends idle at)) k,
      waiting-set s.clients i ends idle k at,
      mark_none (i == k),
    );
  }

  -- The first answer is for the client that waits.
  pub addressee :
      (i j : ℕ) (r : List ℕ)
      → get_elem? s.clients i ≡ some waits
      → s.answers ≡ j ∷ r
      → (j == i) ≡ true
  addressee i j r at e = elim (Bool-cases (j == i)) [
    | inl same ↦ same
    | inr apart ↦
        let present : 1 ≤ tokens s = omega (arith, ap is_waiting at, waiting-turns s.clients i) in
        let two = waiting_apart s.clients i j (ground (arith, apart)) in
        absurd (
          omega (
            arith,
            v.single,
            v.matched present j,
            ap (count j) e,
            counted_self j r,
            ap is_waiting at,
            two,
          ))
  ]

  read_answer-IsValid :
      (i : ℕ) (next : ClientAt) (a : List ℕ) (p : Option ClientAt)
      → is_waiting (some next) ≡ 0
      → s.answers ≡ a
      → get_elem? s.clients i ≡ p
      → After IsValid (read_answer s i next a p)
  unfolding read_answer
  read_answer-IsValid i next [] p idle_next e at = tt
  read_answer-IsValid i next (j ∷ r) none idle_next e at = tt
  read_answer-IsValid i next (j ∷ r) (some idle) idle_next e at = tt
  read_answer-IsValid i next (j ∷ r) (some holds) idle_next e at = tt
  read_answer-IsValid i next (j ∷ r) (some waits) idle_next e at = record {
    single = omega (arith, v.single, turns-set s.clients i waits next at, in_turn_le next);
    matched = λ live k.
        let same : j ≡ i = ground (arith, addressee i j r at e) in
        omega (
          arith,
          v.matched (omega (arith, live, turns-set s.clients i waits next at, in_turn_le next)) k,
          waiting-set s.clients i waits next k at,
          ap (mark (i == k)) idle_next,
          mark_none (i == k),
          ap (count k) e,
          ap (λ x. mark (x == k) 1) same,
        );
  }
  read_answer-IsValid i next (j ∷ r) (some ends) idle_next e at = tt

  -- The turn and its token are lost.
  miss_answer-IsValid :
      (i : ℕ) (p : Option ClientAt) → get_elem? s.clients i ≡ p → After IsValid (miss_answer s i p)
  unfolding miss_answer
  miss_answer-IsValid i none at = tt
  miss_answer-IsValid i (some idle) at = tt
  miss_answer-IsValid i (some holds) at = tt
  miss_answer-IsValid i (some waits) at = record {
    single = omega (arith, v.single, turns-set s.clients i waits idle at);
    matched = λ live k. absurd (omega (arith, live, v.single, turns-set s.clients i waits idle at));
  }
  miss_answer-IsValid i (some ends) at = tt

-- NEED_TOKEN returns without a byte.
abbrev pub is_unserved : Action → Bool
is_unserved (goes_on i) = true
is_unserved helper_goes_on = true
is_unserved _ = false

pub step-IsValid :
    (a : Action) (s : System) → is_unserved a ≡ false → IsValid s → After IsValid (step a s)
unfolding step
step-IsValid helper_moves s served v = move_helper-IsValid s v s.helper refl
step-IsValid (takes i) s served v =
    take_token-IsValid s v i s.to_clients (get_elem? s.clients i) refl refl
step-IsValid (writes i b) s served v = write_command-IsValid s v i b (get_elem? s.clients i) refl
step-IsValid (reads_answer i) s served v =
    read_answer-IsValid s v i ends s.answers (get_elem? s.clients i) refl refl refl
step-IsValid (ends_turn i) s served v = give_token-IsValid s v i (get_elem? s.clients i) refl
step-IsValid (fails i) s served v =
    read_answer-IsValid s v i idle s.answers (get_elem? s.clients i) refl refl refl
step-IsValid (fails_early i) s served v = miss_answer-IsValid s v i (get_elem? s.clients i) refl
step-IsValid (goes_on i) s served v = cc served
step-IsValid helper_goes_on s served v = cc served
