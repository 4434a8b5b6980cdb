-- ===== src/Config.antt =====
-- What the build decides: the macros of config.h that select code (CMakeLists.txt,
-- config.h.cmake, src/ptytty_conf.h and src/ptytty.h).
use libptytty.Base.{ℕ, Bool, Option}
use libptytty.Sys.{MasterCall, SetIds}

-- UNIX98_PTY, HAVE_OPENPTY, HAVE__GETPTY, and neither of them.
pub data Backend : Type 0 where
  unix98 : MasterCall → Backend
  openpty getpty bsd : Backend

-- USE_UTMPX, USE_UTMP with HAVE_UTMP_PID, USE_UTMP without.
pub data Database : Type 0 where
  utmpx utmp_pid utmp_bsd : Database

pub record Config : Type 0 where
  pub backend : Backend
  -- TIOCSCTTY is defined
  pub tiocsctty : Bool
  -- IUTF8, as the number of its bit, where it is defined
  pub iutf8 : Option ℕ
  pub tty_gid_support : Bool
  pub have_revoke : Bool
  -- I_PUSH is defined
  pub i_push : Bool
  -- HAVE_ISASTREAM and HAVE_STROPTS_H
  pub have_isastream : Bool
  -- UTMP_SUPPORT, with the database in use
  pub utmp_support : Option Database
  -- WTMP_SUPPORT, and with utmpx HAVE_UPDWTMPX
  pub wtmp_support : Bool
  -- HAVE_UPDWTMP
  pub have_updwtmp : Bool
  -- LASTLOG_SUPPORT
  pub lastlog_support : Bool
  -- HAVE_STRUCT_LASTLOGX and HAVE_UPDLASTLOGX, or HAVE_STRUCT_LASTLOG
  pub have_lastlog : Bool
  -- HAVE_UTMPX_HOST, or HAVE_UTMP_HOST
  pub have_host : Bool
  -- the lengths of the arrays in the records of the databases
  pub line_size : ℕ
  pub id_size : ℕ
  pub user_size : ℕ
  pub host_size : ℕ
  pub lastlog_line_size : ℕ
  pub lastlog_host_size : ℕ
  -- RESTORE_TTY_MODE
  pub restore_mode : ℕ
  -- PTYTTY_REENTRANT
  pub reentrant : Bool
  -- CMSG_LEN (n) is `cmsg_header + n`, and CMSG_SPACE (sizeof (int)) is `cmsg_space`
  pub cmsg_header : ℕ
  pub cmsg_space : ℕ
  -- HAVE_SETRESUID, HAVE_SETREUID, HAVE_SETUID, or none of them
  pub set_ids : Option SetIds
  -- PTYTTY_HELPER
  pub helper : Bool
