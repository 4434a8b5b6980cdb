-- ===== src/Sample/Closed.antt =====
-- The descriptors of eg/c-sample.c in the parent and in the child.
use libptytty.Base.{
  ℕ, ◌+◌, ◌≡◌, refl, ℤ, pos, Bool, true, false, not, Bytes, some, List, [], ◌∷◌, is_neg, is_zero,
  arith, if◌then◌else◌,
}
use libptytty.Sys.{Os, Trace, Run, ok, throws, crash, and_then, forked, read_bytes, wrote_bytes}
use libptytty.Sys.Balance.{hits, gained, lost, opens, closes, Shifts, Quiet}
use libptytty.Sys.Returns.{Returns, Ends, bind, branch, Ends-mono, Returns-Ends}
use libptytty.Sys.Quiet.{IsQuiet, seq, IsQuiet-emit, IsQuiet-pure}
use libptytty.Config.{Config}
use libptytty.Unix.{TtyConf}
use libptytty.Unix.Ownership.{Terminals}
use libptytty.Unix.Terminal.{control_tty-IsQuiet}
use libptytty.FdPass.Laws.{Messages}
use libptytty.Proxy.Client.{Result, returned, thrown}
use libptytty.Process.{Statics, Side, caller, helper_done, init, initial_statics}
use libptytty.Process.Ids.{Ids, Reads, Dropped}
use libptytty.Process.Init.{Settled, init-Dropped}
use libptytty.Api.{
  Object, unix_object, proxy_object, ptytty_init, ptytty_create, ptytty_pty, ptytty_tty, ptytty_get,
  ptytty_make_controlling_tty, create, ptytty_login, ptytty_close_tty, ptytty_delete,
}
use libptytty.Api.Life.{
  held, IsReady, deletable, Kept, login-Kept, close_tty-Kept, Got, create_get-Got, Freed,
  delete-Freed,
}
use libptytty.Sample.{
  Ending, failure, success, shell, no_shell, helper_ended, copy_output, parent, child, fork_shell,
  run_shell, main_on, main, sample_host, input,
}

held-fields : (n : ℕ) (o : Object) → held n o ≡ hits n (ptytty_pty o) + hits n (ptytty_tty o)
unfolding ptytty_pty ptytty_tty
held-fields n (unix_object o) = refl
held-fields n (proxy_object p) = refl

-- Neither the parent nor the child ends with a descriptor of the terminal.
abbrev pub Closed : ℕ → Trace → Ending → Trace → Type 0
Closed n w success v = Quiet {A = Unit {0}} n w tt v
Closed n w shell v = Quiet {A = Unit {0}} n w tt v
Closed n w no_shell v = Quiet {A = Unit {0}} n w tt v
Closed n w failure v = Unit
Closed n w helper_ended v = Unit

replaced-Closed :
    (n : ℕ) (w v : Trace) (done : Bool)
    → Quiet {A = Unit {0}} n w tt v
    → Closed n w (if done then shell else no_shell) v
replaced-Closed n w v true q = q
replaced-Closed n w v false q = q

module _ (os : Os) (c : Config) (conf : TtyConf) (n : ℕ) where
  copy_output-IsQuiet : (fd : ℤ) (bufs : List Bytes) → IsQuiet n (copy_output os c conf fd bufs)
  unfolding copy_output gained lost
  copy_output-IsQuiet fd [] = IsQuiet-emit (read_bytes fd []) refl
  copy_output-IsQuiet fd (buf ∷ bufs) =
      seq (IsQuiet-emit (read_bytes fd buf) refl)
        λ _. seq (IsQuiet-emit (wrote_bytes (pos 1) buf) refl) λ _. copy_output-IsQuiet fd bufs

  module _ (s : Statics) (t : Terminals os) where
    parent-Closed :
        (o : Object) (pid fd : ℤ) (w u : Trace)
        → IsReady c o
        → Shifts n 0 w (held n o) u
        → Returns (Closed n w) (parent os c conf s o pid fd u)
    unfolding parent opens closes gained lost
    parent-Closed o pid fd w u ready e =
        bind (Kept os c conf s n t u o) (Returns (Closed n w)) (ptytty_close_tty os c conf s o u) _
          (close_tty-Kept os c conf s n t o u ready)
          λ o1 u1 p1.
            bind (Kept os c conf s n t u1 o1) (Returns (Closed n w))
              (ptytty_login os c conf s o1 pid true (some sample_host) u1) _
              (login-Kept os c conf s n t o1 pid true sample_host u1 p1.1)
              λ o2 u2 p2.
                let x = wrote_bytes fd input ∷ u2 in
                bind (Quiet n x) (Returns (Closed n w)) (copy_output os c conf fd (os.output x) x) _
                  ((copy_output-IsQuiet fd (os.output x)).run x)
                  λ _ y q.
                    bind (Freed os c conf s n t y o2) (Returns (Closed n w))
                      (ptytty_delete os c conf s o2 y) _
                      (delete-Freed os c conf s n t o2 y (deletable c o2 p2.1))
                      λ _ z p3. omega (arith, e, p1.0, p2.0, q, p3)

    child-Closed :
        (o : Object) (w u : Trace)
        → Shifts n 0 w (held n o) u
        → Returns (Closed n w) (child os c conf s o (ptytty_pty o) (ptytty_tty o) u)
    unfolding child opens closes gained lost ptytty_make_controlling_tty
    child-Closed o w u e =
        bind (Quiet n u) (Returns (Closed n w)) (ptytty_make_controlling_tty os c conf s o u) _
          ((seq (control_tty-IsQuiet os c n t (ptytty_tty o)) λ r. IsQuiet-pure _).run u)
          λ _ v q. replaced-Closed n w _ _ (omega (arith, e, q, held-fields n o))

    fork_shell-Closed :
        (o : Object) (w u : Trace)
        → IsReady c o
        → Shifts n 0 w (held n o) u
        → Returns (Closed n w) (fork_shell os c conf s o u)
    unfolding fork_shell opens closes gained lost
    fork_shell-Closed o w u ready e =
        let pid = os.fork u in
        branch (Returns (Closed n w)) (is_neg pid) _ _ (forked pid ∷ u) (λ _. tt)
          λ _.
            branch (Returns (Closed n w)) (not (is_zero pid)) _ _ (forked pid ∷ u)
              (λ _. parent-Closed o pid (ptytty_pty o) w (forked pid ∷ u) ready (omega (arith, e)))
              (λ _. child-Closed o w (forked pid ∷ u) (omega (arith, e)))

    run_shell-Closed :
        (r : Result) (o : Object) (w u : Trace)
        → Got os c conf s n t w (r, o) u
        → Ends (Closed n w) (λ _. Unit {0}) (run_shell os c conf s r o u)
    unfolding run_shell
    run_shell-Closed (thrown e) o w u g = tt
    run_shell-Closed (returned true) o w u (shifts, _, ready) =
        Returns-Ends Unit (Closed n w) _ (fork_shell-Closed o w u (ready refl) shifts)
    run_shell-Closed (returned false) o w u g = tt

module _ (os : Os) (c : Config) (conf : TtyConf) (n : ℕ) (ids : Trace → Ids) (w : Trace) where
  -- `ptytty_init`, called at `w`, returns at `u` to its caller, without privileges; and since
  -- then, descriptors are balanced.
  abbrev SinceInit : Ending → Trace → Type 0
  SinceInit end v =
      (s : Statics) × ((u : Trace) × ((ptytty_init os c conf initial_statics w ≡ ok (caller s) u)
          × Dropped (ids u)
          × Closed n u end v))

  -- Where the program gets as far as its parent and child, this is so.
  abbrev pub ClosedSince : Ending → Trace → Type 0
  ClosedSince failure v = Unit
  ClosedSince helper_ended v = Unit
  ClosedSince success v = SinceInit success v
  ClosedSince shell v = SinceInit shell v
  ClosedSince no_shell v = SinceInit no_shell v

  SinceInit-ClosedSince : (end : Ending) (v : Trace) → SinceInit end v → ClosedSince end v
  SinceInit-ClosedSince failure v h = tt
  SinceInit-ClosedSince helper_ended v h = tt
  SinceInit-ClosedSince success v h = h
  SinceInit-ClosedSince shell v h = h
  SinceInit-ClosedSince no_shell v h = h

  module _ (t : Terminals os) where
    main_on-Closed :
        (side : Side) (u : Trace)
        → Messages os c
        → ptytty_init os c conf initial_statics w ≡ ok side u
        → Settled ids side u
        → Ends ClosedSince (λ _. Unit {0}) (main_on os c conf side u)
    unfolding main_on ptytty_create
    main_on-Closed (caller s) u m ran dropped =
        bind (Got os c conf s n t u) (Ends ClosedSince (λ _. Unit {0}))
          (ptytty_get os c conf s (create c s) u) _ (create_get-Got os c conf s n t u m)
          λ (r, o) v g.
            Ends-mono (λ _. Unit) (Closed n u) ClosedSince _
              (run_shell-Closed os c conf n s t r o u v g)
              λ end z h. SinceInit-ClosedSince end z (s, (u, (ran, dropped, h)))
    main_on-Closed helper_done u m ran settled = tt

    -- Behind the run of `ptytty_init`.
    after_init-Closed :
        (r : Run Side)
        → Messages os c
        → ptytty_init os c conf initial_statics w ≡ r
        → Ends (Settled ids) (λ _. Unit {0}) r
        → Ends ClosedSince (λ _. Unit {0}) (and_then r (main_on os c conf))
    after_init-Closed (ok side u) m ran settled = main_on-Closed side u m ran settled
    after_init-Closed (throws e u) m ran settled = tt
    after_init-Closed (crash u) m ran settled = settled

    -- Where ptsname and ttyname give a name, open gives -1 or a descriptor, openpty two
    -- descriptors, recvmsg keeps to the format of control messages, and calls read and set ids
    -- as documented, but may fail, the program throws or ends, without undefined behaviour. In
    -- the parent at its end, and in the child at its `execl` and where that fails, `ptytty_init`
    -- had returned with the effective ids equal to the real ones, and since it returned each
    -- descriptor was closed as often as it was opened or arrived.
    pub main-Closed :
        Messages os c → Reads os ids → Ends ClosedSince (λ _. Unit {0}) (main os c conf w)
    unfolding main ptytty_init
    main-Closed m reads =
        after_init-Closed (init os c conf initial_statics w) m refl
          (init-Dropped os c conf t ids reads initial_statics w)
