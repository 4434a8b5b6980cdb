-- ===== src/Api/Program.antt =====
-- A whole program of the C API (src/c-api.C): `ptytty_init`, and the life of a terminal.
use libptytty.Base.{ℕ, List}
use libptytty.Sys.{Os, Trace}
use libptytty.Sys.Balance.{Quiet}
use libptytty.Sys.Returns.{Returns, Ends, Ends-bind, Returns-Ends, bind}
use libptytty.Config.{Config}
use libptytty.Unix.{TtyConf}
use libptytty.Unix.Ownership.{Terminals}
use libptytty.FdPass.Laws.{Messages}
use libptytty.Session.Lifecycle.{Call}
use libptytty.Process.{Side, caller, helper_done, init, initial_statics}
use libptytty.Process.Ids.{Ids, Reads, Dropped}
use libptytty.Process.Init.{Settled, init-Dropped}
use libptytty.Api.{api_life, ptytty_init, use_terminal, program}
use libptytty.Api.Life.{api_life-Quiet}

-- From a moment without privileges on, descriptors are balanced.
abbrev pub Unprivileged : (Trace → Ids) → ℕ → Trace → Type 0
Unprivileged ids n v = (u : Trace) × (Dropped (ids u) × Quiet {A = Unit {0}} n u tt v)

-- Or it is the helper, at its end.
abbrev pub Used : (Trace → Ids) → ℕ → Side → Trace → Type 0
Used ids n (caller s) v = Unprivileged ids n v
Used ids n helper_done v = Unit

module _ (os : Os) (c : Config) (conf : TtyConf) (n : ℕ) (t : Terminals os)
    (ids : Trace → Ids) where
  use_terminal-Used :
      (xs : List Call) (side : Side) (w : Trace)
      → Messages os c
      → Settled ids side w
      → Returns (Used ids n) (use_terminal os c conf xs side w)
  unfolding use_terminal
  use_terminal-Used xs (caller s) w m dropped =
      bind (Quiet n w) (Returns (Used ids n)) (api_life os c conf s xs w) _
        (api_life-Quiet os c conf s n t xs w m) λ _ v q. (w, (dropped, q))
  use_terminal-Used xs helper_done w m settled = tt

  -- Where ptsname and ttyname give a name, open gives -1 or a descriptor, openpty two
  -- descriptors, recvmsg keeps to the format of control messages, and calls read and set ids as
  -- documented, but may fail: a program that calls `ptytty_init` and then creates, gets, uses
  -- and deletes a terminal throws or ends, without undefined behaviour. If it ends in the
  -- caller, there was a moment with the effective ids equal to the real ones, since when each
  -- descriptor was closed as often as it was opened or arrived.
  pub program-Used :
      (xs : List Call) (w : Trace)
      → Messages os c
      → Reads os ids
      → Ends (Used ids n) (λ _. Unit {0}) (program os c conf xs w)
  unfolding program ptytty_init
  program-Used xs w m reads =
      Ends-bind Unit (Settled ids) (Used ids n) (init os c conf initial_statics w) _
        (init-Dropped os c conf t ids reads initial_statics w)
        λ side v settled.
          Returns-Ends Unit (Used ids n) (use_terminal os c conf xs side v)
            (use_terminal-Used xs side v m settled)
