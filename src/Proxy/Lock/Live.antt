-- ===== src/Proxy/Lock/Live.antt =====
-- Where no call of a client throws and no `read` of NEED_TOKEN fails (src/proxy.C), the token is
-- not lost.
use libptytty.Base.{
  ℕ, zero, suc, ◌+◌, ◌≤◌, ◌≡◌, refl, ap, Bool, true, false, Option, none, some, List, [], ◌∷◌,
  arith, if◌then◌else◌, get_elem?, set, length, length-append,
}
use libptytty.Proxy.Lock.{
  HelperAt, gives, reads, handles, needs, ClientAt, idle, holds, waits, ends, System, Action,
  helper_moves, takes, writes, reads_answer, ends_turn, fails, fails_early, goes_on, helper_goes_on,
  take_command, take_back, move_helper, take_token, write_command, read_answer, give_token, step,
}
use libptytty.Proxy.Lock.Laws.{turns, is_giving, After, turns-set}

abbrev pub fresh : ClientAt → ℕ
fresh holds = 1
fresh _ = 0

-- How many clients have the token and have not sent their command.
abbrev pub newcomers : List ClientAt → ℕ
newcomers [] = 0
newcomers (p ∷ ps) = fresh p + newcomers ps

-- The helper has a command in hand, or waits for the end of its turn.
abbrev pub is_busy : HelperAt → ℕ
is_busy (handles i b) = 1
is_busy needs = 1
is_busy _ = 0

-- The token is somewhere; and it is either unused or spent on one command.
pub record IsLive (s : System) : Type 0 where
  pub token : s.to_clients + s.to_helper + turns s.clients + is_giving s.helper ≡ 1
  pub spent :
      s.to_clients + is_giving s.helper + newcomers s.clients + length s.commands + is_busy s.helper
      ≡ 1
  pub present : 1 ≤ length s.clients

abbrev pub fresh_of : Option ClientAt → ℕ
fresh_of none = 0
fresh_of (some p) = fresh p

length-set : (ps : List ClientAt) (i : ℕ) (x : ClientAt) → length (set ps i x) ≡ length ps
length-set [] i x = refl
length-set (p ∷ ps) zero x = refl
length-set (p ∷ ps) (suc i) x = omega (arith, length-set ps i x)

newcomers-set :
    (ps : List ClientAt) (i : ℕ) (p x : ClientAt)
    → get_elem? ps i ≡ some p
    → newcomers (set ps i x) + fresh p ≡ newcomers ps + fresh x
newcomers-set [] i p x e = cc e
newcomers-set (q ∷ ps) zero p x e = omega (arith, ap fresh_of e)
newcomers-set (q ∷ ps) (suc i) p x e = omega (arith, newcomers-set ps i p x e)

module _ (s : System) (v : IsLive s) where
  take_command-IsLive :
      (q : List (ℕ × Bool)) → s.helper ≡ reads → s.commands ≡ q → After IsLive (take_command s q)
  unfolding take_command
  take_command-IsLive [] h e = tt
  take_command-IsLive ((i, b) ∷ q) h e = record {
    token = omega (arith, v.token, ap is_giving h);
    spent = omega (arith, v.spent, ap is_giving h, ap is_busy h, ap length e);
    present = v.present;
  }

  take_back-IsLive : (n : ℕ) → s.helper ≡ needs → s.to_helper ≡ n → After IsLive (take_back s n)
  unfolding take_back
  take_back-IsLive zero h e = tt
  take_back-IsLive (suc n) h e = record {
    token = omega (arith, v.token, e, ap is_giving h);
    spent = omega (arith, v.spent, ap is_giving h, ap is_busy h);
    present = v.present;
  }

  move_helper-IsLive : (h : HelperAt) → s.helper ≡ h → After IsLive (move_helper s h)
  unfolding move_helper
  move_helper-IsLive gives h = record {
    token = omega (arith, v.token, ap is_giving h);
    spent = omega (arith, v.spent, ap is_giving h, ap is_busy h);
    present = v.present;
  }
  move_helper-IsLive reads h = take_command-IsLive s.commands h refl
  move_helper-IsLive (handles i true) h = record {
    token = omega (arith, v.token, ap is_giving h);
    spent = omega (arith, v.spent, ap is_giving h, ap is_busy h);
    present = v.present;
  }
  move_helper-IsLive (handles i false) h = record {
    token = omega (arith, v.token, ap is_giving h);
    spent = omega (arith, v.spent, ap is_giving h, ap is_busy h);
    present = v.present;
  }
  move_helper-IsLive needs h = take_back-IsLive s.to_helper h refl

  take_token-IsLive :
      (i n : ℕ) (p : Option ClientAt)
      → s.to_clients ≡ n
      → get_elem? s.clients i ≡ p
      → After IsLive (take_token s i n p)
  unfolding take_token
  take_token-IsLive i zero p e at = tt
  take_token-IsLive i (suc n) none e at = tt
  take_token-IsLive i (suc n) (some idle) e at = record {
    token = omega (arith, v.token, e, turns-set s.clients i idle holds at);
    spent = omega (arith, v.spent, e, newcomers-set s.clients i idle holds at);
    present = omega (arith, v.present, length-set s.clients i holds);
  }
  take_token-IsLive i (suc n) (some holds) e at = tt
  take_token-IsLive i (suc n) (some waits) e at = tt
  take_token-IsLive i (suc n) (some ends) e at = tt

  write_command-IsLive :
      (i : ℕ) (b : Bool) (p : Option ClientAt)
      → get_elem? s.clients i ≡ p
      → After IsLive (write_command s i b p)
  unfolding write_command
  write_command-IsLive i true none at = tt
  write_command-IsLive i true (some idle) at = tt
  write_command-IsLive i true (some holds) at = record {
    token = omega (arith, v.token, turns-set s.clients i holds waits at);
    spent = omega (
      arith,
      v.spent,
      newcomers-set s.clients i holds waits at,
      length-append s.commands ((i, true) ∷ []),
    );
    present = omega (arith, v.present, length-set s.clients i waits);
  }
  write_command-IsLive i true (some waits) at = tt
  write_command-IsLive i true (some ends) at = tt
  write_command-IsLive i false none at = tt
  write_command-IsLive i false (some idle) at = tt
  write_command-IsLive i false (some holds) at = record {
    token = omega (arith, v.token, turns-set s.clients i holds ends at);
    spent = omega (
      arith,
      v.spent,
      newcomers-set s.clients i holds ends at,
      length-append s.commands ((i, false) ∷ []),
    );
    present = omega (arith, v.present, length-set s.clients i ends);
  }
  write_command-IsLive i false (some waits) at = tt
  write_command-IsLive i false (some ends) at = tt

  give_token-IsLive :
      (i : ℕ) (p : Option ClientAt) → get_elem? s.clients i ≡ p → After IsLive (give_token s i p)
  unfolding give_token
  give_token-IsLive i none at = tt
  give_token-IsLive i (some idle) at = tt
  give_token-IsLive i (some holds) at = tt
  give_token-IsLive i (some waits) at = tt
  give_token-IsLive i (some ends) at = record {
    token = omega (arith, v.token, turns-set s.clients i ends idle at);
    spent = omega (arith, v.spent, newcomers-set s.clients i ends idle at);
    present = omega (arith, v.present, length-set s.clients i idle);
  }

  read_answer-IsLive :
      (i : ℕ) (a : List ℕ) (p : Option ClientAt)
      → get_elem? s.clients i ≡ p
      → After IsLive (read_answer s i ends a p)
  unfolding read_answer
  read_answer-IsLive i [] p at = tt
  read_answer-IsLive i (j ∷ r) none at = tt
  read_answer-IsLive i (j ∷ r) (some idle) at = tt
  read_answer-IsLive i (j ∷ r) (some holds) at = tt
  read_answer-IsLive i (j ∷ r) (some waits) at = record {
    token = omega (arith, v.token, turns-set s.clients i waits ends at);
    spent = omega (arith, v.spent, newcomers-set s.clients i waits ends at);
    present = omega (arith, v.present, length-set s.clients i ends);
  }
  read_answer-IsLive i (j ∷ r) (some ends) at = tt

-- A call throws, or a `read` of NEED_TOKEN gives no byte.
abbrev pub is_failure : Action → Bool
is_failure (fails i) = true
is_failure (fails_early i) = true
is_failure (goes_on i) = true
is_failure helper_goes_on = true
is_failure _ = false

abbrev pub never_fails : List Action → Bool
never_fails [] = true
never_fails (x ∷ xs) = if is_failure x then false else never_fails xs

pub step-IsLive :
    (a : Action) (s : System) → is_failure a ≡ false → IsLive s → After IsLive (step a s)
unfolding step
step-IsLive helper_moves s h v = move_helper-IsLive s v s.helper refl
step-IsLive (takes i) s h v = take_token-IsLive s v i s.to_clients (get_elem? s.clients i) refl refl
step-IsLive (writes i b) s h v = write_command-IsLive s v i b (get_elem? s.clients i) refl
step-IsLive (reads_answer i) s h v = read_answer-IsLive s v i s.answers (get_elem? s.clients i) refl
step-IsLive (ends_turn i) s h v = give_token-IsLive s v i (get_elem? s.clients i) refl
step-IsLive (fails i) s h v = cc h
step-IsLive (fails_early i) s h v = cc h
step-IsLive (goes_on i) s h v = cc h
step-IsLive helper_goes_on s h v = cc h
