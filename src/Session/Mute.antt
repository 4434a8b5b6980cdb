-- ===== src/Session/Mute.antt =====
-- `log_session` (src/logging.C) changes no device.
use libptytty.Base.{ℕ, zero, suc, ℤ, Bool, true, false, Bytes, Option, none, some}
use libptytty.Sys.{Os, DbFile, Utmp, Record, Passwd, Lastlog, LockError, eagain, eacces, other, M}
use libptytty.Config.{Config, Database, utmpx, utmp_pid, utmp_bsd}
use libptytty.Unix.{Unix}
use libptytty.Unix.Mute.{device_of, IsMute, mute_rules}
use libptytty.Session.Records.{fill_host, fill_utmpx, fill_utmp}
use libptytty.Session.Wtmp.{
  write_record, after_attempt, try_lock, append_sized, append_record, append_locked, updwtmp,
}
use libptytty.Session.{
  store_lastlog, update_lastlog, owns_entry, put_entry, write_entry, write_wtmp, log_shell,
  log_session,
}

module _ (os : Os) where
  write_record-IsMute : (f : DbFile) (at : ℤ) (r : Record) → IsMute (write_record os f at r)
  unfolding write_record device_of
  write_record-IsMute f at r = search mute_rules

  after_attempt-IsMute :
      (e : Option LockError) (again : M Bool) → IsMute again → IsMute (after_attempt os e again)
  unfolding after_attempt
  after_attempt-IsMute none again h = search mute_rules
  after_attempt-IsMute (some eagain) again h = h
  after_attempt-IsMute (some eacces) again h = h
  after_attempt-IsMute (some other) again h = search mute_rules

  try_lock-IsMute : (retry : ℕ) (fd : ℤ) → IsMute (try_lock os retry fd)
  unfolding try_lock device_of
  try_lock-IsMute zero fd = search mute_rules
  try_lock-IsMute (suc retry) fd =
      let rest = try_lock-IsMute retry fd in search (mute_rules, after_attempt-IsMute)

  append_sized-IsMute : (fd : ℤ) (ut : Utmp) (size : Option ℕ) → IsMute (append_sized os fd ut size)
  unfolding append_sized device_of
  append_sized-IsMute fd ut none = search mute_rules
  append_sized-IsMute fd ut (some size) = search mute_rules

  append_record-IsMute : (fd : ℤ) (ut : Utmp) → IsMute (append_record os fd ut)
  unfolding append_record device_of
  append_record-IsMute fd ut = search (mute_rules, append_sized-IsMute)

  append_locked-IsMute : (ut : Utmp) (fd : ℤ) → IsMute (append_locked os ut fd)
  unfolding append_locked device_of
  append_locked-IsMute ut fd = search (mute_rules, try_lock-IsMute, append_record-IsMute)

  updwtmp-IsMute : (ut : Utmp) → IsMute (updwtmp os ut)
  unfolding updwtmp device_of
  updwtmp-IsMute ut = search (mute_rules, append_locked-IsMute)

module _ (os : Os) (c : Config) where
  fill_host-IsMute : (login : Bool) (host : Option Bytes) → IsMute (fill_host os c login host)
  unfolding fill_host
  fill_host-IsMute true host = search mute_rules
  fill_host-IsMute false host = search mute_rules

  fill_utmpx-IsMute :
      (login : Bool) (pid : ℤ) (line user : Bytes) (host : Option Bytes)
      → IsMute (fill_utmpx os c login pid line user host)
  unfolding fill_utmpx device_of
  fill_utmpx-IsMute login pid line user host = search (mute_rules, fill_host-IsMute)

  fill_utmp-IsMute :
      (has_pid login : Bool) (pid : ℤ) (line user : Bytes) (host : Option Bytes)
      → IsMute (fill_utmp os c has_pid login pid line user host)
  unfolding fill_utmp device_of
  fill_utmp-IsMute has_pid login pid line user host = search (mute_rules, fill_host-IsMute)

  store_lastlog-IsMute :
      (db : Database) (uid : ℕ) (ll : Lastlog) → IsMute (store_lastlog os c db uid ll)
  unfolding store_lastlog device_of
  store_lastlog-IsMute utmpx uid ll = search mute_rules
  store_lastlog-IsMute utmp_pid uid ll = write_record-IsMute os _ _ _
  store_lastlog-IsMute utmp_bsd uid ll = write_record-IsMute os _ _ _

  update_lastlog-IsMute :
      (db : Database) (pty : Bytes) (host : Option Bytes) → IsMute (update_lastlog os c db pty host)
  unfolding update_lastlog device_of
  update_lastlog-IsMute db pty host = search (mute_rules, store_lastlog-IsMute)

  owns_entry-IsMute : (login : Bool) (pid : ℤ) (u : Utmp) → IsMute (owns_entry os c login pid u)
  unfolding owns_entry device_of
  owns_entry-IsMute true pid u = search mute_rules
  owns_entry-IsMute false pid u = search mute_rules

  put_entry-IsMute : (login : Bool) (pid : ℤ) (u : Utmp) → IsMute (put_entry os c login pid u)
  unfolding put_entry device_of
  put_entry-IsMute login pid u = search (mute_rules, owns_entry-IsMute)

  ruleset entry_rules =
      (mute_rules, fill_utmpx-IsMute, fill_utmp-IsMute, put_entry-IsMute, write_record-IsMute)

  write_entry-IsMute :
      (db : Database) (o : Unix) (login : Bool) (pty user : Bytes) (host : Option Bytes)
      → IsMute (write_entry os c db o login pty user host)
  unfolding write_entry
  write_entry-IsMute utmpx o login pty user host = search entry_rules
  write_entry-IsMute utmp_pid o login pty user host = search entry_rules
  write_entry-IsMute utmp_bsd o login pty user host = search entry_rules

  write_wtmp-IsMute : (db : Database) (ut : Utmp) → IsMute (write_wtmp os c db ut)
  unfolding write_wtmp device_of
  write_wtmp-IsMute utmpx ut = search mute_rules
  write_wtmp-IsMute utmp_pid ut = search (mute_rules, updwtmp-IsMute)
  write_wtmp-IsMute utmp_bsd ut = search (mute_rules, updwtmp-IsMute)

  log_shell-IsMute :
      (db : Database) (login : Bool) (pwent : Option Passwd) (pty : Bytes) (host : Option Bytes)
      (ut : Utmp)
      → IsMute (log_shell os c db login pwent pty host ut)
  unfolding log_shell
  log_shell-IsMute db login pwent pty host ut =
      search (mute_rules, write_wtmp-IsMute, update_lastlog-IsMute)

  pub log_session-IsMute :
      (db : Database) (o : Unix) (login : Bool) (host : Option Bytes)
      → IsMute (log_session os c db o login host)
  unfolding log_session device_of
  log_session-IsMute db o login host =
      search (mute_rules, write_entry-IsMute, log_shell-IsMute) depth 12
