-- ===== src/Session.antt =====
-- src/logging.C, and the login and the destructor of `ptytty_unix` in src/ptytty.C.
pub mod Records
pub mod FillId
pub mod Wtmp
pub mod WtmpLaws
pub mod Safety
pub mod Lifecycle
pub mod Entries
pub mod Books
pub mod Ledger
pub mod Entered
pub mod Logged
pub mod Mute
pub mod Restored
use libptytty.Base.{
  ℕ, ◌+◌, ℤ, pos, Bool, true, false, not, ◌&&◌, Bytes, Option, none, some, List, [], ◌∷◌, codes,
  drop, has_prefix, is_some, ◌==◌, if◌then◌else◌, is_pos, is_zero, eqz,
}
use libptytty.Sys.{
  Os, Utmp, Lastlog, Passwd, asked_passwd, asked_time, rewound_utmp, searched_utmp, put_utmp,
  ended_utmp, logged_wtmp, logged_lastlog, utmp_file, lastlog_file, utmp_record, lastlog_record, M,
  pure, ◌>>=◌, ◌>>◌, deref, emit, ask, getuid,
}
use libptytty.Config.{Config, Database, utmpx, utmp_pid, utmp_bsd}
use libptytty.Unix.{Unix, TtyConf, put}
use Records.{fill_utmpx, fill_utmp, fill_lastlog}
use Wtmp.{write_record, updwtmp}

-- `pwent && pwent->pw_name ? pwent->pw_name : "?"`
unfoldable pub user_name : Option Passwd → Bytes
user_name none = codes "?"
user_name (some p) = elim p.pw_name [ none ↦ codes "?" | some s ↦ s ]

-- The terminal's name without "/dev/".
unfoldable pub skip_dev : Bytes → Bytes
skip_dev name = if has_prefix name (codes "/dev/") then drop 5 name else name

unfoldable pub same_pid : Option Utmp → ℤ → Bool
same_pid none pid = false
same_pid (some u) pid = eqz u.pid pid

-- `!name || !*name`
unfoldable pub is_unnamed : Option Bytes → Bool
is_unnamed none = true
is_unnamed (some []) = true
is_unnamed (some (b ∷ s)) = b == 0

module _ (os : Os) (c : Config) where
  unfoldable pub store_lastlog : Database → ℕ → Lastlog → M (Unit {0})
  store_lastlog utmpx uid ll = emit (logged_lastlog uid ll)
  store_lastlog _ uid ll = write_record os lastlog_file (pos uid) (lastlog_record ll)

  -- `update_lastlog`, with utmpx and with utmp
  unfoldable pub update_lastlog : Database → Bytes → Option Bytes → M (Unit {0})
  update_lastlog db pty host = if not c.have_lastlog then pure tt else do
    now ← ask os.time asked_time
    h ← deref host
    uid ← getuid os
    let ll = fill_lastlog os c now pty h
    store_lastlog db uid ll

  -- `login || ((tmputx = getutxid (&utx)) && tmputx->ut_pid == cmd_pid)`
  unfoldable pub owns_entry : Bool → ℤ → Utmp → M Bool
  owns_entry true pid utx = pure true
  owns_entry false pid utx = do
    found ← ask (λ w. os.getutid w utx) (searched_utmp utx)
    pure (same_pid found pid)

  -- The entry in utmp, for USE_UTMPX and HAVE_UTMP_PID: a logout replaces the entry of its own
  -- process only.
  unfoldable pub put_entry : Bool → ℤ → Utmp → M (Unit {0})
  put_entry login pid utx = do
    emit rewound_utmp
    own ← owns_entry login pid utx
    if own then emit (put_utmp utx) else pure tt
    emit ended_utmp

  -- The part of `log_session` that depends on the database: the record and its entry in utmp.
  unfoldable pub write_entry :
      Database → Unix → (login : Bool) → (pty user : Bytes) → (host : Option Bytes) → M Utmp
  write_entry utmpx o login pty user host = do
    utx ← fill_utmpx os c login o.cmd_pid pty user host
    put_entry login o.cmd_pid utx
    pure utx
  write_entry utmp_pid o login pty user host = do
    ut ← fill_utmp os c true login o.cmd_pid pty user host
    put_entry login o.cmd_pid ut
    pure ut
  write_entry utmp_bsd o login pty user host = do
    ut ← fill_utmp os c false login o.cmd_pid pty user host
    slot ← deref o.utmp_pos
    if is_pos slot then write_record os utmp_file slot (utmp_record ut) else pure tt
    pure ut

  unfoldable pub write_wtmp : Database → Utmp → M (Unit {0})
  write_wtmp utmpx ut = emit (logged_wtmp ut)
  write_wtmp _ ut = if c.have_updwtmp then emit (logged_wtmp ut) else updwtmp os ut

  -- What a login shell adds.
  unfoldable pub log_shell :
      Database → Bool → Option Passwd → Bytes → Option Bytes → Utmp → M (Unit {0})
  log_shell db login pwent pty host ut = do
    if c.wtmp_support then write_wtmp db ut else pure tt
    if c.lastlog_support && login
        then (if is_some pwent then update_lastlog db pty host else pure tt)
        else pure tt

  -- `ptytty_unix::log_session`
  unfoldable pub log_session : Database → Unix → Bool → Option Bytes → M (Unit {0})
  log_session db o login host = do
    uid ← getuid os
    pwent ← ask (λ w. os.getpwuid w uid) (asked_passwd uid)
    name ← deref o.name
    let pty = skip_dev name
    ut ← write_entry db o login pty (user_name pwent) host
    shell ← deref o.login_shell
    if shell then log_shell db login pwent pty host ut else pure tt

  unfoldable pub login_with : Option Database → Unix → ℤ → Bool → Option Bytes → M Unix
  login_with none o pid shell host = pure o
  login_with (some db) o pid shell host = if is_unnamed o.name then pure o else do
    let o = record o { cmd_pid = pid; login_shell = some shell }
    log_session db o true host
    pure o

  -- `ptytty_unix::login`
  unfoldable pub login : Unix → ℤ → Bool → Option Bytes → M Unix
  login = login_with c.utmp_support

  unfoldable pub log_out : Option Database → Unix → M (Unit {0})
  log_out none o = pure tt
  log_out (some db) o = if is_zero o.cmd_pid then pure tt else log_session db o false none

  -- `ptytty_unix::~ptytty_unix`
  unfoldable pub delete_unix : TtyConf → Unix → M Unix
  delete_unix conf o = do log_out c.utmp_support o; put os c conf o
