-- ===== src/Process.antt =====
-- The static functions of src/proxy.C: the start of the helper, privileges, standard descriptors.
pub mod Stdfd
pub mod Ids
pub mod Start
pub mod Init
pub mod Pairs
use libptytty.Base.{
  ℕ, zero, suc, ◌+◌, ℤ, pos, Bool, true, not, ◌&&◌, Bytes, Option, none, some, codes, ◌==◌,
  if◌then◌else◌, is_neg, is_zero, eqz, minus_one,
}
use libptytty.Sys.{
  Os, SetIds, sighup, sigterm, sigint, sigpipe, wronly, rdonly, made_pair, forked, set_cloexec,
  changed_dir, ignored_signal, exited, asked_fd, asked_gid, asked_euid, asked_egid, set_gid,
  set_uid, M, pure, throw, ◌>>=◌, ◌>>◌, emit, ask, close, open_file, getuid,
}
use libptytty.Config.{Config}
use libptytty.Unix.{TtyConf}
use libptytty.Proxy.Server.{serve}

-- `sock_fd`, `lock_fd` and `helper_pid`
pub record Statics : Type 0 where
  pub sock_fd : ℤ
  pub lock_fd : ℤ
  pub helper_pid : ℤ

unfoldable pub initial_statics : Statics
initial_statics = record { sock_fd = minus_one; lock_fd = minus_one; helper_pid = pos 0 }

abbrev no_socket : Bytes
no_socket = codes "could not create socket to communicate with pty/sessiondb helper.\n"

abbrev no_helper : Bytes
no_helper = codes "could not create pty/sessiondb helper process.\n"

abbrev pub no_stdfd : Bytes
no_stdfd = codes "unable to sanitise fds.\n"

abbrev pub no_drop : Bytes
no_drop = codes "unable to drop privileges.\n"

-- `use_helper` returns in the process that called it; the helper leaves by `_exit`.
pub data Side : Type 0 where
  caller : Statics → Side
  helper_done : Side

module _ (os : Os) (c : Config) where
  -- A round of `sanitise_stdfd`.
  unfoldable pub reopen : ℕ → M (Unit {0})
  reopen fd = do
    let mode = if fd == 0 then rdonly else wronly
    first ← open_file os (codes "/dev/tty") mode
    fd2 ← (if is_neg first then open_file os (codes "/dev/null") mode else pure first)
    if eqz fd2 (pos fd) then pure tt else throw no_stdfd

  unfoldable pub sanitise_fd : ℕ → M (Unit {0})
  sanitise_fd fd = do
    bad ← ask (λ w. os.is_bad_fd w fd) (asked_fd fd)
    if bad then reopen fd else pure tt

  -- `ptytty::sanitise_stdfd`
  unfoldable pub sanitise_stdfd : M (Unit {0})
  sanitise_stdfd = do sanitise_fd 0; sanitise_fd 1; sanitise_fd 2

  unfoldable pub getgid : M ℕ
  getgid = ask os.getgid asked_gid

  -- `uid != geteuid () || gid != getegid ()`: the second is asked only if the first agree.
  unfoldable pub ids_differ : (uid gid : ℕ) → M Bool
  ids_differ uid gid = do
    euid ← ask os.geteuid asked_euid
    if not (uid == euid)
        then pure true
        else do egid ← ask os.getegid asked_egid; pure (not (gid == egid))

  unfoldable pub set_ids : Option SetIds → (uid gid : ℕ) → M (Unit {0})
  set_ids none uid gid = pure tt
  set_ids (some k) uid gid = do emit (set_gid k gid); emit (set_uid k uid)

  -- `ptytty::drop_privileges`
  unfoldable pub drop_privileges : M (Unit {0})
  drop_privileges = do
    uid ← getuid os
    gid ← getgid
    set_ids c.set_ids uid gid
    differ ← ids_differ uid gid
    if differ then throw no_drop else pure tt

  -- The descriptors from `fd` on, `n` of them, but the two in use.
  unfoldable pub close_others : ℕ → ℕ → Statics → M (Unit {0})
  close_others zero fd s = pure tt
  close_others (suc n) fd s = do
    if not (eqz (pos fd) s.sock_fd) && not (eqz (pos fd) s.lock_fd) then close (pos fd) else pure tt
    close_others n (fd + 1) s

  -- The helper process, from the fork to its end.
  unfoldable pub run_helper : TtyConf → Statics → M Side
  run_helper conf s = do
    emit (changed_dir (codes "/"))
    emit (ignored_signal sighup)
    emit (ignored_signal sigterm)
    emit (ignored_signal sigint)
    emit (ignored_signal sigpipe)
    close_others 1023 0 s
    cmds ← (λ w. pure (os.commands w) w)
    _ ← serve os c conf s.sock_fd cmds
    emit exited
    pure helper_done

  unfoldable pub keep_end : ℤ × ℤ → M (Unit {0})
  keep_end (kept, other) = do close other; emit (set_cloexec kept)

  -- The two sides of the fork. `lv` is the pair of the lock, where there is one.
  unfoldable pub take_side : TtyConf → Statics → ℤ → (sv : ℤ × ℤ) → (lv : Option (ℤ × ℤ)) → M Side
  take_side conf s pid sv none =
      if not (is_zero pid)
      then (do keep_end sv; pure (caller (record s { sock_fd = sv.0; helper_pid = pid })))
      else run_helper conf (record s { sock_fd = sv.1; helper_pid = pid })
  take_side conf s pid sv (some lv) =
      if not (is_zero pid)
      then (do
        keep_end sv
        keep_end lv
        pure (caller (record { sock_fd = sv.0; lock_fd = lv.0; helper_pid = pid })))
      else run_helper conf (record { sock_fd = sv.1; lock_fd = lv.1; helper_pid = pid })

  unfoldable pub start_helper : TtyConf → Statics → (sv : ℤ × ℤ) → (lv : Option (ℤ × ℤ)) → M Side
  start_helper conf s sv lv = do
    pid ← ask os.fork forked
    if is_neg pid then throw no_helper else take_side conf s pid sv lv

  unfoldable pub make_lock : TtyConf → Statics → (sv : ℤ × ℤ) → Option (ℤ × ℤ) → M Side
  make_lock conf s sv none = throw no_socket
  make_lock conf s sv (some lv) = start_helper conf s sv (some lv)

  unfoldable pub with_socket : TtyConf → Statics → Option (ℤ × ℤ) → M Side
  with_socket conf s none = throw no_socket
  with_socket conf s (some sv) =
      if not c.reentrant
      then start_helper conf s sv none
      else do lv ← ask os.socketpair made_pair; make_lock conf s sv lv

  -- `ptytty::use_helper`
  unfoldable pub use_helper : TtyConf → Statics → M Side
  use_helper conf s =
      if not (is_neg s.sock_fd)
      then pure (caller s)
      else do sv ← ask os.socketpair made_pair; with_socket conf s sv

  unfoldable pub drop_on : Side → M Side
  drop_on (caller s) = do drop_privileges; pure (caller s)
  drop_on helper_done = pure helper_done

  -- `ptytty::init`
  unfoldable pub init : TtyConf → Statics → M Side
  init conf s = do
    sanitise_stdfd
    uid ← getuid os
    gid ← getgid
    differ ← ids_differ uid gid
    if not differ
        then pure (caller s)
        else do side ← (if c.helper then use_helper conf s else pure (caller s)); drop_on side
