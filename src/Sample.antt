-- ===== src/Sample.antt =====
-- eg/c-sample.c: a program of the C API that runs a shell on a terminal and copies its output.
pub mod Closed
use libptytty.Base.{
  ℤ, pos, Bool, true, false, not, Bytes, some, List, [], ◌∷◌, ◌++◌, codes, if◌then◌else◌, is_neg,
  is_zero,
}
use libptytty.Sys.{
  Os, M, pure, throw, ◌>>=◌, ◌>>◌, emit, ask, close, forked, duped_onto, printed, wrote_bytes,
  read_bytes, execed,
}
use libptytty.Config.{Config}
use libptytty.Unix.{TtyConf}
use libptytty.Proxy.Client.{Result, returned, thrown}
use libptytty.Process.{Statics, Side, caller, helper_done, initial_statics}
use libptytty.Api.{
  Object, ptytty_init, ptytty_create, ptytty_get, ptytty_pty, ptytty_tty, ptytty_close_tty,
  ptytty_login, ptytty_make_controlling_tty, ptytty_delete,
}

-- How a process ends: `exit (EXIT_FAILURE)`, the parent, the child where `execl` succeeds and where
-- it fails, and the helper.
pub data Ending : Type 0 where
  failure success shell no_shell helper_ended : Ending

abbrev sample_host : Bytes
sample_host = codes "libptytty.example.net"

-- `\015` is a carriage return.
abbrev input : Bytes
input = codes "who; echo 'Hello, World!'; exit" ++ (13 ∷ [])

module _ (os : Os) (c : Config) (conf : TtyConf) where
  -- `for (;;)`, over what is read. The list ends where `len <= 0`.
  unfoldable pub copy_output : ℤ → List Bytes → M (Unit {0})
  copy_output fd [] = emit (read_bytes fd [])
  copy_output fd (buf ∷ bufs) = do
    emit (read_bytes fd buf)
    emit (wrote_bytes (pos 1) buf)
    copy_output fd bufs

  unfoldable pub parent : Statics → Object → ℤ → ℤ → M Ending
  parent s pty pid pty_fd = do
    pty ← ptytty_close_tty os c conf s pty
    pty ← ptytty_login os c conf s pty pid true (some sample_host)
    emit (wrote_bytes pty_fd input)
    bufs ← (λ w. pure (os.output w) w)
    copy_output pty_fd bufs
    ptytty_delete os c conf s pty
    pure success

  unfoldable pub child : Statics → Object → (pty_fd tty_fd : ℤ) → M Ending
  child s pty pty_fd tty_fd = do
    _ ← ptytty_make_controlling_tty os c conf s pty
    close pty_fd
    emit (duped_onto tty_fd (pos 0))
    emit (duped_onto tty_fd (pos 1))
    emit (duped_onto tty_fd (pos 2))
    close tty_fd
    done ← ask os.execl (execed (codes "/bin/sh"))
    pure (if done then shell else no_shell)

  unfoldable pub fork_shell : Statics → Object → M Ending
  fork_shell s pty = do
    pid ← ask os.fork forked
    if is_neg pid
        then (do emit (printed (codes "fork error\n")); pure failure)
        else if not (is_zero pid)
        then parent s pty pid (ptytty_pty pty)
        else child s pty (ptytty_pty pty) (ptytty_tty pty)

  -- The part of `main` behind `ptytty_get`, whose exception is not caught.
  unfoldable pub run_shell : Statics → Result → Object → M Ending
  run_shell s (thrown e) pty = throw e
  run_shell s (returned got) pty =
      if not got
      then (do emit (printed (codes "unable to open pty\n")); pure failure)
      else fork_shell s pty

  unfoldable pub main_on : Side → M Ending
  main_on helper_done = pure helper_ended
  main_on (caller s) = do
    (r, pty) ← ptytty_get os c conf s (ptytty_create os c conf s)
    run_shell s r pty

  -- `main`
  unfoldable pub main : M Ending
  main = ptytty_init os c conf initial_statics >>= main_on
