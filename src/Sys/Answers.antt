-- ===== src/Sys/Answers.antt =====
-- The answers of the system. Each may depend on all calls made before; nothing is assumed of them.
use libptytty.Base.{ℕ, ℤ, Bool, Bytes, Option, List}
use libptytty.Sys.Types.{
  Command, Message, OpenMode, MasterCall, DbFile, Utmp, Passwd, LockError, Trace,
}

pub record Os : Type 0 where
  pub open_file : Trace → Bytes → OpenMode → ℤ
  pub open_db : Trace → DbFile → OpenMode → ℤ
  pub open_master : Trace → MasterCall → ℤ
  -- openpty, `none` for -1: the master, then the slave
  pub open_pair : Trace → Option (ℤ × ℤ)
  -- _getpty, `none` for NULL
  pub open_slave : Trace → Option (ℤ × Bytes)
  pub dup : Trace → ℤ → ℤ
  pub grantpt : Trace → ℤ → ℤ
  pub unlockpt : Trace → ℤ → ℤ
  pub ptsname : Trace → ℤ → Option Bytes
  pub ttyname : Trace → ℤ → Option Bytes
  pub access : Trace → Bytes → ℤ
  pub isastream : Trace → ℤ → ℤ
  pub find_module : Trace → ℤ → Bytes → ℤ
  -- tcgetattr, `none` for -1: the flags in `c_iflag`
  pub tcgetattr : Trace → ℤ → Option ℕ
  pub ttyslot : Trace → ℤ
  pub getuid : Trace → ℕ
  pub getpwuid : Trace → ℕ → Option Passwd
  pub time : Trace → ℕ
  -- getutxid and getutid
  pub getutid : Trace → Utmp → Option Utmp
  -- fcntl (F_SETLK), `none` for success
  pub setlk : Trace → ℤ → Option LockError
  pub fstat_size : Trace → ℤ → Option ℕ
  -- write of a whole record: was all of it written?
  pub append : Trace → ℤ → Utmp → Bool
  -- malloc: does it succeed?
  pub malloc : Trace → Bool
  pub sendmsg : Trace → ℤ → ℤ → ℤ
  -- recvmsg, `none` where its result is not positive
  pub recvmsg : Trace → ℤ → Option Message
  -- the address of a new object of the helper
  pub new_object : Trace → ℕ
  -- the helper's answer to a request, `none` for a short read
  pub read_reply : Trace → Option ℕ
  -- socketpair, `none` for a failure
  pub socketpair : Trace → Option (ℤ × ℤ)
  pub fork : Trace → ℤ
  -- fcntl (F_GETFL): is it refused with EBADF?
  pub is_bad_fd : Trace → ℕ → Bool
  pub getgid : Trace → ℕ
  pub geteuid : Trace → ℕ
  pub getegid : Trace → ℕ
  -- the commands that arrive at the helper until a read falls short
  pub commands : Trace → List Command
  -- what is read from the master in turn, until `read` gives 0 or -1
  pub output : Trace → List Bytes
  -- execl: is the program replaced?
  pub execl : Trace → Bool
