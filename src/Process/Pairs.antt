-- ===== src/Process/Pairs.antt =====
-- `use_helper` (src/proxy.C): the sockets that the caller keeps, and those left by an exception.
use libptytty.Base.{
  ℕ, ◌+◌, ◌≡◌, refl, sym, subst, ◌∙◌, ◌⊎◌, inl, inr, true, false, not, ℤ, Option, none, some, arith,
  is_neg, is_zero, ◌∷◌,
}
use libptytty.Sys.{Os, Trace, forked, made_pair}
use libptytty.Sys.Balance.{hits, hits_neg, gained, lost, opens, closes, Shifts}
use libptytty.Sys.Returns.{Returns, Ends, mono, branch, Returns-Ends_at}
use libptytty.Config.{Config}
use libptytty.Unix.{TtyConf}
use libptytty.Unix.Ownership.{Terminals}
use libptytty.Process.{
  Statics, Side, caller, helper_done, run_helper, keep_end, take_side, start_helper, make_lock,
  with_socket, use_helper,
}
use libptytty.Process.Start.{run_helper-Done}

-- socketpair gives descriptors.
pub record Pairs (os : Os) : Type 0 where
  pub pair_open :
      (w : Trace) (a b : ℤ)
      → os.socketpair w ≡ some (a, b)
      → (is_neg a ≡ false) × (is_neg b ≡ false)

-- No helper, or one in use.
abbrev pub IsUnset : Statics → Type 0
IsUnset s = (is_neg s.sock_fd ≡ true) × (is_neg s.lock_fd ≡ true)

abbrev pub IsRunning : Statics → Type 0
IsRunning s = (is_neg s.sock_fd ≡ false) × (is_zero s.helper_pid ≡ false)

-- The sockets in the static variables.
abbrev pub sockets : ℕ → Statics → ℕ
sockets n s = hits n s.sock_fd + hits n s.lock_fd

abbrev pub Started : ℕ → Trace → ℕ → Side → Trace → Type 0
Started n w a (caller s) v = Shifts n a w (sockets n s) v × IsRunning s
Started n w a helper_done v = Unit

-- Nothing is closed.
abbrev pub Unclosed : ℕ → Trace → Trace → Type 0
Unclosed n w v = closes n v ≡ closes n w

module _ (os : Os) (c : Config) (conf : TtyConf) (n : ℕ) (t : Terminals os) where
  helper-Started : (s : Statics) (w u : Trace) → Returns (Started n w 0) (run_helper os c conf s u)
  helper-Started s w u =
      mono (λ side _. side ≡ helper_done) (Started n w 0) (run_helper os c conf s u)
        (run_helper-Done os c conf n t s u) λ side v e. subst (λ x. Started n w 0 x v) (sym e) tt

  lock_hits : ℕ → Option (ℤ × ℤ) → ℕ
  lock_hits m none = 0
  lock_hits m (some (a, b)) = hits m a + hits m b

  take_side-Started :
      (s : Statics) (pid : ℤ) (sv : ℤ × ℤ) (lv : Option (ℤ × ℤ)) (w u : Trace)
      → IsUnset s
      → is_neg sv.0 ≡ false
      → Shifts n 0 w (hits n sv.0 + hits n sv.1 + lock_hits n lv) u
      → Returns (Started n w 0) (take_side os c conf s pid sv lv u)
  unfolding take_side keep_end opens closes gained lost lock_hits
  take_side-Started s pid sv none w u (no_sock, no_lock) there e =
      branch (Returns (Started n w 0)) (not (is_zero pid)) _ _ u
        (λ i. (omega (arith, e, hits_neg n s.lock_fd no_lock), (there, ground (arith, i))))
        (λ _. helper-Started _ w u)
  take_side-Started s pid sv (some lv) w u unset there e =
      branch (Returns (Started n w 0)) (not (is_zero pid)) _ _ u
        (λ i. (omega (arith, e), (there, ground (arith, i)))) (λ _. helper-Started _ w u)

  start_helper-Started :
      (s : Statics) (sv : ℤ × ℤ) (lv : Option (ℤ × ℤ)) (w u : Trace)
      → IsUnset s
      → is_neg sv.0 ≡ false
      → Unclosed n w u
      → Shifts n 0 w (hits n sv.0 + hits n sv.1 + lock_hits n lv) u
      → Ends (Started n w 0) (Unclosed n w) (start_helper os c conf s sv lv u)
  unfolding start_helper opens closes gained lost
  start_helper-Started s sv lv w u unset there k e =
      branch (Ends (Started n w 0) (Unclosed n w)) (is_neg (os.fork u)) _ _ (forked (os.fork u) ∷ u)
        (λ _. omega (arith, k))
        (λ _. Returns-Ends_at (Started n w 0) (Unclosed n w) _ (
          take_side-Started s (os.fork u) sv lv w (forked (os.fork u) ∷ u) unset there
            (omega (arith, e))))

  make_lock-Started :
      (s : Statics) (sv : ℤ × ℤ) (lv : Option (ℤ × ℤ)) (w u : Trace)
      → IsUnset s
      → is_neg sv.0 ≡ false
      → Unclosed n w u
      → Shifts n 0 w (hits n sv.0 + hits n sv.1 + lock_hits n lv) u
      → Ends (Started n w 0) (Unclosed n w) (make_lock os c conf s sv lv u)
  unfolding make_lock
  make_lock-Started s sv none w u unset there k e = k
  make_lock-Started s sv (some lv) w u unset there k e =
      start_helper-Started s sv (some lv) w u unset there k e

  -- What a pair adds.
  made-Unclosed : (lv : Option (ℤ × ℤ)) (u : Trace) → Unclosed n u (made_pair lv ∷ u)
  unfolding closes lost
  made-Unclosed none u = omega arith
  made-Unclosed (some lv) u = omega arith

  made-Shifts : (lv : Option (ℤ × ℤ)) (u : Trace) → Shifts n 0 u (lock_hits n lv) (made_pair lv ∷ u)
  unfolding opens closes gained lost lock_hits
  made-Shifts none u = omega arith
  made-Shifts (some (a, b)) u = omega arith

  with_socket-Started :
      (p : Pairs os) (s : Statics) (sv : Option (ℤ × ℤ)) (w : Trace)
      → IsUnset s
      → sv ≡ os.socketpair w
      → Ends (Started n w 0) (Unclosed n w) (with_socket os c conf s sv (made_pair sv ∷ w))
  unfolding with_socket lock_hits
  with_socket-Started p s none w unset same = made-Unclosed none w
  with_socket-Started p s (some sv) w unset same =
      let there = (p.pair_open w sv.0 sv.1 (sym same)).0 in
      let u = made_pair (some sv) ∷ w in
      let k = made-Unclosed (some sv) w in
      let e = made-Shifts (some sv) w in
      let lv = os.socketpair u in
      branch (Ends (Started n w 0) (Unclosed n w)) (not c.reentrant) _ _ u
        (λ _. start_helper-Started s sv none w u unset there k (omega (arith, e)))
        (λ _.
          make_lock-Started s sv lv w (made_pair lv ∷ u) unset there (made-Unclosed lv u ∙ k)
            (omega (arith, e, made-Shifts lv u)))

  pub use_helper-Started :
      (s : Statics) (w : Trace)
      → Pairs os
      → IsUnset s ⊎ IsRunning s
      → Ends (Started n w (sockets n s)) (Unclosed n w) (use_helper os c conf s w)
  unfolding use_helper
  use_helper-Started s w p (inl unset) =
      let nothing : sockets n s ≡ 0 =
        omega (arith, hits_neg n s.sock_fd unset.0, hits_neg n s.lock_fd unset.1) in
      rw (unset.0, nothing) (with_socket-Started p s (os.socketpair w) w unset refl)
  use_helper-Started s w p (inr running) = rw running.0 (refl, running)
