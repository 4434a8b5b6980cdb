-- ===== src/Session/Records.antt =====
-- src/logging.C: the records of the session databases, and `fill_id`.
use libptytty.Base.{
  ℕ, ◌-◌, ℤ, Bool, true, false, Bytes, Option, strncpy, length, drop, replicate, ltb, if◌then◌else◌,
}
use libptytty.Sys.{
  Os, UtType, Utmp, Lastlog, user_process, dead_process, asked_time, M, pure, ◌>>=◌, deref, ask,
}
use libptytty.Config.{Config}

-- `fill_id`: the last `id_size` bytes of the line.
unfoldable pub fill_id : Bytes → ℕ → Bytes
fill_id line id_size =
    let len = length line in
    strncpy (if ltb id_size len then drop (len - id_size) line else line) id_size

-- `memset`
abbrev pub zeros : ℕ → Bytes
zeros n = replicate n 0

module _ (os : Os) (c : Config) where
  -- `strncpy` of the host into its field, where the field is there and a login fills it.
  unfoldable pub fill_host : Bool → Option Bytes → M Bytes
  fill_host false host = pure (zeros c.host_size)
  fill_host true host =
      if c.have_host
      then (do h ← deref host; pure (strncpy h c.host_size))
      else pure (zeros c.host_size)

  abbrev pub kind_of : Bool → UtType
  kind_of login = if login then user_process else dead_process

  -- The fields of the record, with the time and the host at hand.
  unfoldable pub utmpx_fields : Bool → ℤ → (line user host : Bytes) → ℕ → Utmp
  utmpx_fields login pid line user host now = record {
    line = strncpy line c.line_size;
    id = fill_id line c.id_size;
    user = strncpy user c.user_size;
    host = host;
    pid = pid;
    kind = kind_of login;
    time = now;
  }

  unfoldable pub fill_utmpx : Bool → ℤ → Bytes → Bytes → Option Bytes → M Utmp
  fill_utmpx login pid line user host = do
    now ← ask os.time asked_time
    h ← fill_host login host
    pure (utmpx_fields login pid line user h now)

  -- `has_pid` is HAVE_UTMP_PID: without it the record has no id, pid and type.
  unfoldable pub utmp_fields : (has_pid login : Bool) → ℤ → (line user host : Bytes) → ℕ → Utmp
  utmp_fields has_pid login pid line user host now = record {
    line = strncpy line c.line_size;
    id = if has_pid then fill_id line c.id_size else zeros c.id_size;
    user = if login then strncpy user c.user_size else zeros c.user_size;
    host = host;
    pid = pid;
    kind = kind_of login;
    time = now;
  }

  unfoldable pub fill_utmp : Bool → Bool → ℤ → Bytes → Bytes → Option Bytes → M Utmp
  fill_utmp has_pid login pid line user host = do
    now ← ask os.time asked_time
    h ← fill_host login host
    pure (utmp_fields has_pid login pid line user h now)

  unfoldable pub fill_lastlog : ℕ → Bytes → Bytes → Lastlog
  fill_lastlog now pty host = record {
    time = now;
    line = strncpy pty c.lastlog_line_size;
    host = strncpy host c.lastlog_host_size;
  }
