-- ===== src/Process/Start.antt =====
-- `use_helper` and `sanitise_stdfd` (src/proxy.C): whatever the system answers, they end or throw.
use libptytty.Base.{
  ℕ, zero, suc, ◌+◌, ◌≡◌, refl, ℤ, pos, true, not, ◌&&◌, Option, none, some, is_neg, is_zero,
  if◌then◌else◌, eqz, codes, ◌==◌,
}
use libptytty.Sys.{Os, Trace, pure, throw, and_then, close, open_file, rdonly, wronly}
use libptytty.Sys.Returns.{Returns, Ends, mono, bind, branch, Any, Ends-bind, Ends-weaken}
use libptytty.Config.{Config}
use libptytty.Unix.{TtyConf}
use libptytty.Unix.Ownership.{Terminals}
use libptytty.Proxy.Server.{serve}
use libptytty.Proxy.Server.Serve.{serve-Gone, Gone}
use libptytty.Process.{
  Statics, helper_done, reopen, sanitise_fd, no_stdfd, sanitise_stdfd, close_others, run_helper,
  keep_end, take_side, start_helper, make_lock, with_socket, use_helper,
}

module _ (os : Os) (c : Config) (conf : TtyConf) (n : ℕ) (t : Terminals os) where
  close_others-Any : (k fd : ℕ) (s : Statics) (w : Trace) → Returns Any (close_others os c k fd s w)
  unfolding close_others
  close_others-Any zero fd s w = tt
  close_others-Any (suc k) fd s w =
      branch (λ r. Returns Any (and_then r λ _. close_others os c k (fd + 1) s))
        (not (eqz (pos fd) s.sock_fd) && not (eqz (pos fd) s.lock_fd)) (close (pos fd)) (pure tt) w
        (λ _. close_others-Any k (fd + 1) s _) (λ _. close_others-Any k (fd + 1) s w)

  -- The helper runs to its end.
  pub run_helper-Done :
      (s : Statics) (w : Trace) → Returns (λ side _. side ≡ helper_done) (run_helper os c conf s w)
  unfolding run_helper
  run_helper-Done s w =
      bind Any (Returns (λ side _. side ≡ helper_done)) (close_others os c 1023 0 s _) _
        (close_others-Any 1023 0 s _)
        λ _ v _.
          bind (Gone os c conf s.sock_fd n t 0 v) (Returns (λ side _. side ≡ helper_done))
            (serve os c conf s.sock_fd (os.commands v) v) _
            (serve-Gone os c conf s.sock_fd n t (os.commands v) v) λ _ u _. refl

  run_helper-Any : (s : Statics) (w : Trace) → Returns Any (run_helper os c conf s w)
  run_helper-Any s w =
      mono (λ side _. side ≡ helper_done) Any (run_helper os c conf s w) (run_helper-Done s w)
        λ _ _ _. tt

  -- `use_helper` ends in the caller, or at the helper's end, or where a call fails.
  module _ (Q : Type 0) (no_pair : (w : Trace) → os.socketpair w ≡ none → Q)
      (no_fork : (w : Trace) → is_neg (os.fork w) ≡ true → Q) where
    helper-Any : (s : Statics) (w : Trace) → Ends Any (λ _. Q) (run_helper os c conf s w)
    helper-Any s w = Ends-weaken Q Any (run_helper os c conf s w) (run_helper-Any s w)

    take_side-Any :
        (s : Statics) (pid : ℤ) (sv : ℤ × ℤ) (lv : Option (ℤ × ℤ)) (w : Trace)
        → Ends Any (λ _. Q) (take_side os c conf s pid sv lv w)
    unfolding take_side keep_end
    take_side-Any s pid sv none w =
        branch (Ends Any (λ _. Q)) (not (is_zero pid)) _ _ w (λ _. tt) (λ _. helper-Any _ w)
    take_side-Any s pid sv (some lv) w =
        branch (Ends Any (λ _. Q)) (not (is_zero pid)) _ _ w (λ _. tt) (λ _. helper-Any _ w)

    start_helper-Any :
        (s : Statics) (sv : ℤ × ℤ) (lv : Option (ℤ × ℤ)) (w : Trace)
        → Ends Any (λ _. Q) (start_helper os c conf s sv lv w)
    unfolding start_helper
    start_helper-Any s sv lv w =
        branch (Ends Any (λ _. Q)) (is_neg (os.fork w)) _ _ _ (λ e. no_fork w e)
          (λ _. take_side-Any s (os.fork w) sv lv _)

    make_lock-Any :
        (s : Statics) (sv : ℤ × ℤ) (lv : Option (ℤ × ℤ)) (w : Trace)
        → (lv ≡ none → Q)
        → Ends Any (λ _. Q) (make_lock os c conf s sv lv w)
    unfolding make_lock
    make_lock-Any s sv none w h = h refl
    make_lock-Any s sv (some lv) w h = start_helper-Any s sv (some lv) w

    with_socket-Any :
        (s : Statics) (sv : Option (ℤ × ℤ)) (w : Trace)
        → (sv ≡ none → Q)
        → Ends Any (λ _. Q) (with_socket os c conf s sv w)
    unfolding with_socket
    with_socket-Any s none w h = h refl
    with_socket-Any s (some sv) w h =
        branch (Ends Any (λ _. Q)) (not c.reentrant) _ _ w (λ _. start_helper-Any s sv none w)
          (λ _. make_lock-Any s sv (os.socketpair w) _ (no_pair w))

    pub use_helper-Any : (s : Statics) (w : Trace) → Ends Any (λ _. Q) (use_helper os c conf s w)
    unfolding use_helper
    use_helper-Any s w =
        branch (Ends Any (λ _. Q)) (not (is_neg s.sock_fd)) _ _ w (λ _. tt)
          (λ _. with_socket-Any s (os.socketpair w) _ (no_pair w))

-- `sanitise_stdfd` ends, or throws.
module _ (os : Os) (c : Config) where
  checked-Any :
      (fd : ℕ) (a : ℤ) (w : Trace)
      → Ends {A = Unit {0}} Any
          (λ _. Unit {0})
          ((if eqz a (pos fd) then pure tt else throw no_stdfd) w)
  checked-Any fd a w =
      branch (Ends Any (λ _. Unit {0})) (eqz a (pos fd)) (pure tt) (throw no_stdfd) w (λ _. tt)
        (λ _. tt)

  reopen-Any : (fd : ℕ) (w : Trace) → Ends Any (λ _. Unit {0}) (reopen os c fd w)
  unfolding reopen
  reopen-Any fd w =
      let mode = if fd == 0 then rdonly else wronly in
      let a = os.open_file w (codes "/dev/tty") mode in
      branch
        (λ x.
          Ends Any (λ _. Unit {0})
            (and_then x λ fd2. if eqz fd2 (pos fd) then pure tt else throw no_stdfd))
        (is_neg a) (open_file os (codes "/dev/null") mode) (pure a) _ (λ _. checked-Any fd _ _)
        (λ _. checked-Any fd a _)

  sanitise_fd-Any : (fd : ℕ) (w : Trace) → Ends Any (λ _. Unit {0}) (sanitise_fd os c fd w)
  unfolding sanitise_fd
  sanitise_fd-Any fd w =
      branch (Ends Any (λ _. Unit {0})) (os.is_bad_fd w fd) (reopen os c fd) (pure tt) _
        (λ _. reopen-Any fd _) (λ _. tt)

  pub sanitise_stdfd-Any : (w : Trace) → Ends Any (λ _. Unit {0}) (sanitise_stdfd os c w)
  unfolding sanitise_stdfd
  sanitise_stdfd-Any w =
      Ends-bind Unit Any Any (sanitise_fd os c 0 w) _ (sanitise_fd-Any 0 w) λ _ v _.
        Ends-bind Unit Any Any (sanitise_fd os c 1 v) _ (sanitise_fd-Any 1 v)
          λ _ u _. sanitise_fd-Any 2 u
