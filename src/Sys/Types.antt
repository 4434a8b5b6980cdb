-- ===== src/Sys/Types.antt =====
-- The values that system calls take and give, and the record of a call.
use libptytty.Base.{ℕ, ℤ, Bool, Bytes, List, Option}

-- The flags of the calls of `open` in ptytty.C, logging.C and proxy.C.
pub data OpenMode : Type 0 where
  rdwr_noctty rdwr wronly wronly_append rdonly : OpenMode

-- The ways to open a UNIX 98 master device.
pub data MasterCall : Type 0 where
  getpt posix_openpt dev_ptc dev_ptmx : MasterCall

pub data UtType : Type 0 where
  user_process dead_process : UtType

-- `struct utmp` and `struct utmpx`, by the fields that the program fills; arrays are byte lists of
-- the array's length. The BSD `struct utmp` has `name` in place of `user`, and no id, pid, type.
pub record Utmp : Type 0 where
  pub line : Bytes
  pub id : Bytes
  pub user : Bytes
  pub host : Bytes
  pub pid : ℤ
  pub kind : UtType
  pub time : ℕ

-- `struct lastlog` and `struct lastlogx`.
pub record Lastlog : Type 0 where
  pub time : ℕ
  pub line : Bytes
  pub host : Bytes

-- `struct passwd`, where `pw_name` may be null.
pub record Passwd : Type 0 where
  pub pw_name : Option Bytes

pub data LockError : Type 0 where
  eagain eacces other : LockError

pub data Signal : Type 0 where
  sighup sigterm sigint sigpipe : Signal

-- The calls that drop privileges: setresgid and setresuid, setregid and setreuid, setgid and setuid.
pub data SetIds : Type 0 where
  setresid setreid setid : SetIds

-- What is written to a file.
pub data Record : Type 0 where
  utmp_record : Utmp → Record
  lastlog_record : Lastlog → Record

pub data DbFile : Type 0 where
  utmp_file wtmp_file lastlog_file : DbFile

-- A control message, as `recvmsg` leaves it: SOL_SOCKET and SCM_RIGHTS or not, its length in bytes,
-- and its data read as ints.
pub record Control : Type 0 where
  pub rights : Bool
  pub cmsg_len : ℕ
  pub fds : List ℤ

pub record Message : Type 0 where
  pub control : Option Control
  pub byte : ℕ

-- `command` (src/proxy.C). Whatever number arrives as its type is one of the three, or `unknown`.
pub data Kind : Type 0 where
  get_pty log_in destroy unknown : Kind

pub record Command : Type 0 where
  pub kind : Kind
  pub id : ℕ
  pub login_shell : Bool
  pub cmd_pid : ℤ
  pub hostname : Bytes

-- A call with its arguments and its answer.
pub data Event : Type 0 where
  opened : Bytes → OpenMode → ℤ → Event
  opened_db : DbFile → OpenMode → ℤ → Event
  opened_master : MasterCall → ℤ → Event
  opened_pair : Option (ℤ × ℤ) → Event
  opened_slave : Option (ℤ × Bytes) → Event
  duped : ℤ → ℤ → Event
  duped_onto : ℤ → ℤ → Event
  closed : ℤ → Event
  granted : ℤ → ℤ → Event
  unlocked : ℤ → ℤ → Event
  asked_ptsname : ℤ → Option Bytes → Event
  asked_ttyname : ℤ → Option Bytes → Event
  accessed : Bytes → ℤ → Event
  chmodded : Bytes → ℕ → Event
  chowned : Bytes → ℕ → ℕ → Event
  revoked : Bytes → Event
  new_session : Event
  set_ctty : ℤ → Event
  asked_stream : ℤ → ℤ → Event
  found_module : ℤ → Bytes → ℤ → Event
  pushed_module : ℤ → Bytes → Event
  got_attr : ℤ → Option ℕ → Event
  set_attr : ℤ → ℕ → Event
  asked_ttyslot : ℤ → Event
  asked_uid : ℕ → Event
  asked_passwd : ℕ → Option Passwd → Event
  asked_time : ℕ → Event
  rewound_utmp : Event
  searched_utmp : Utmp → Option Utmp → Event
  put_utmp : Utmp → Event
  ended_utmp : Event
  logged_wtmp : Utmp → Event
  logged_lastlog : ℕ → Lastlog → Event
  wrote_at : ℤ → Record → ℤ → Event
  tried_lock : ℤ → Option LockError → Event
  released_lock : ℤ → Event
  asked_size : ℤ → Option ℕ → Event
  appended : ℤ → Utmp → Bool → Event
  truncated : ℤ → ℕ → Event
  allocated : Bool → Event
  sent_fd : ℤ → ℤ → ℤ → Event
  received_msg : ℤ → Option Message → Event
  made_object : ℕ → Event
  wrote_reply : ℕ → Event
  wrote_command : Command → Event
  read_reply : Option ℕ → Event
  read_command : Option Command → Event
  gave_token : Event
  made_pair : Option (ℤ × ℤ) → Event
  forked : ℤ → Event
  set_cloexec : ℤ → Event
  changed_dir : Bytes → Event
  ignored_signal : Signal → Event
  exited : Event
  asked_fd : ℕ → Bool → Event
  asked_gid : ℕ → Event
  asked_euid : ℕ → Event
  asked_egid : ℕ → Event
  set_gid : SetIds → ℕ → Event
  set_uid : SetIds → ℕ → Event
  needed_token : Event
  printed : Bytes → Event
  wrote_bytes : ℤ → Bytes → Event
  read_bytes : ℤ → Bytes → Event
  execed : Bytes → Bool → Event

abbrev pub Trace : Type 0
Trace = List Event
