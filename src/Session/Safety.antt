-- ===== src/Session/Safety.antt =====
-- Logging a session (src/logging.C) never reads a null pointer or a field that was not assigned,
-- and leaves no file open.
use libptytty.Base.{
  ℕ, zero, suc, ◌≡◌, refl, ℤ, Bool, true, false, not, ◌&&◌, is_pos, arith, Bytes, Option, none,
  some, is_some,
}
use libptytty.Sys.{
  Os, Utmp, Lastlog, Record, DbFile, Passwd, eagain, eacces, other, LockError, M, tried_lock,
  asked_size, appended, truncated, released_lock, wrote_at, asked_time, asked_uid, asked_passwd,
  rewound_utmp, searched_utmp, put_utmp, ended_utmp, logged_wtmp, logged_lastlog, utmp_record,
  utmp_file,
}
use libptytty.Sys.Balance.{gained, lost}
use libptytty.Sys.Quiet.{
  IsQuiet, seq, IsQuiet-deref, IsQuiet-pure, IsQuiet-ask, IsQuiet-if, IsQuiet-emit, IsQuiet-file,
}
use libptytty.Config.{Config, Database, utmpx, utmp_pid, utmp_bsd}
use libptytty.Unix.{Unix}
use libptytty.Session.Records.{
  fill_lastlog, utmpx_fields, utmp_fields, fill_host, fill_utmpx, fill_utmp,
}
use libptytty.Session.Wtmp.{
  write_record, after_attempt, try_lock, append_sized, append_record, append_locked, updwtmp,
}
use libptytty.Session.{
  store_lastlog, update_lastlog, owns_entry, put_entry, same_pid, user_name, skip_dev, write_entry,
  write_wtmp, log_shell, log_session,
}

module _ (os : Os) (n : ℕ) where
  write_record-IsQuiet :
      (path : DbFile) (at : ℤ) (r : Record) → IsQuiet n (write_record os path at r)
  unfolding write_record gained lost
  write_record-IsQuiet path at r = IsQuiet-file os path _ λ fd. IsQuiet-emit (wrote_at fd r at) refl

  after_attempt-IsQuiet :
      (e : Option LockError) {again : M Bool}
      → IsQuiet n again
      → IsQuiet n (after_attempt os e again)
  unfolding after_attempt
  after_attempt-IsQuiet none h = IsQuiet-pure true
  after_attempt-IsQuiet (some eagain) h = h
  after_attempt-IsQuiet (some eacces) h = h
  after_attempt-IsQuiet (some other) h = IsQuiet-pure false

  try_lock-IsQuiet : (k : ℕ) (fd : ℤ) → IsQuiet n (try_lock os k fd)
  unfolding try_lock gained lost
  try_lock-IsQuiet zero fd = IsQuiet-pure false
  try_lock-IsQuiet (suc k) fd =
      seq (IsQuiet-ask _ (tried_lock fd) λ e. refl)
        λ e. after_attempt-IsQuiet e (try_lock-IsQuiet k fd)

  append_sized-IsQuiet :
      (fd : ℤ) (ut : Utmp) (size : Option ℕ) → IsQuiet n (append_sized os fd ut size)
  unfolding append_sized gained lost
  append_sized-IsQuiet fd ut none = IsQuiet-pure tt
  append_sized-IsQuiet fd ut (some size) =
      seq (IsQuiet-ask (λ w. os.append w fd ut) (appended fd ut) λ b. refl) λ whole.
        IsQuiet-if whole (λ _. IsQuiet-pure tt) (λ _. IsQuiet-emit (truncated fd size) refl)

  append_record-IsQuiet : (fd : ℤ) (ut : Utmp) → IsQuiet n (append_record os fd ut)
  unfolding append_record gained lost
  append_record-IsQuiet fd ut =
      seq (IsQuiet-ask (λ w. os.fstat_size w fd) (asked_size fd) λ s. refl)
        (append_sized-IsQuiet fd ut)

  append_locked-IsQuiet : (ut : Utmp) (fd : ℤ) → IsQuiet n (append_locked os ut fd)
  unfolding append_locked gained lost
  append_locked-IsQuiet ut fd = seq (try_lock-IsQuiet 10 fd) λ b.
      IsQuiet-if b
        (λ _. seq (append_record-IsQuiet fd ut) (λ _. IsQuiet-emit (released_lock fd) refl))
        (λ _. IsQuiet-pure tt)

  updwtmp-IsQuiet : (ut : Utmp) → IsQuiet n (updwtmp os ut)
  unfolding updwtmp
  updwtmp-IsQuiet ut = IsQuiet-file os _ _ (append_locked-IsQuiet ut)

-- What `log_session` reads of the object.
pub record Loggable (db : Database) (o : Unix) : Type 0 where
  pub name : is_some o.name ≡ true
  pub shell : is_some o.login_shell ≡ true
  pub slot : db ≡ utmp_bsd → is_some o.utmp_pos ≡ true

module _ (os : Os) (c : Config) (n : ℕ) where
  fill_host-IsQuiet :
      (login : Bool) (host : Option Bytes)
      → (login ≡ true → is_some host ≡ true)
      → IsQuiet n (fill_host os c login host)
  unfolding fill_host
  fill_host-IsQuiet false host h = IsQuiet-pure _
  fill_host-IsQuiet true host h =
      IsQuiet-if c.have_host (λ _. seq (IsQuiet-deref host (h refl)) λ s. IsQuiet-pure _)
        (λ _. IsQuiet-pure _)

  store_lastlog-IsQuiet :
      (db : Database) (uid : ℕ) (ll : Lastlog) → IsQuiet n (store_lastlog os c db uid ll)
  unfolding store_lastlog gained lost
  store_lastlog-IsQuiet utmpx uid ll = IsQuiet-emit (logged_lastlog uid ll) refl
  store_lastlog-IsQuiet _ uid ll = write_record-IsQuiet os n _ _ _

  update_lastlog-IsQuiet :
      (db : Database) (pty : Bytes) (host : Option Bytes)
      → is_some host ≡ true
      → IsQuiet n (update_lastlog os c db pty host)
  unfolding update_lastlog gained lost
  update_lastlog-IsQuiet db pty host h =
      IsQuiet-if (not c.have_lastlog) (λ _. IsQuiet-pure tt)
        λ _. seq (IsQuiet-ask os.time asked_time λ t. refl) λ now. seq (IsQuiet-deref host h) λ s.
          seq (IsQuiet-ask os.getuid asked_uid λ u. refl)
            λ uid. store_lastlog-IsQuiet db uid (fill_lastlog os c now pty s)

  owns_entry-IsQuiet :
      (login : Bool) (pid : ℤ) (utx : Utmp) → IsQuiet n (owns_entry os c login pid utx)
  unfolding owns_entry gained lost
  owns_entry-IsQuiet true pid utx = IsQuiet-pure true
  owns_entry-IsQuiet false pid utx =
      seq (IsQuiet-ask (λ w. os.getutid w utx) (searched_utmp utx) λ u. refl)
        λ found. IsQuiet-pure (same_pid found pid)

  put_entry-IsQuiet :
      (login : Bool) (pid : ℤ) (utx : Utmp) → IsQuiet n (put_entry os c login pid utx)
  unfolding put_entry gained lost
  put_entry-IsQuiet login pid utx = seq (IsQuiet-emit rewound_utmp refl) λ _.
      seq (owns_entry-IsQuiet login pid utx) λ own.
        seq (IsQuiet-if own (λ _. IsQuiet-emit (put_utmp utx) refl) (λ _. IsQuiet-pure tt))
          λ _. IsQuiet-emit ended_utmp refl

  fill_utmpx-IsQuiet :
      (login : Bool) (pid : ℤ) (line user : Bytes) (host : Option Bytes)
      → (login ≡ true → is_some host ≡ true)
      → IsQuiet n (fill_utmpx os c login pid line user host)
  unfolding fill_utmpx gained lost
  fill_utmpx-IsQuiet login pid line user host h =
      seq (IsQuiet-ask os.time asked_time λ t. refl) λ now.
        seq (fill_host-IsQuiet login host h)
          λ s. IsQuiet-pure (utmpx_fields os c login pid line user s now)

  fill_utmp-IsQuiet :
      (has_pid login : Bool) (pid : ℤ) (line user : Bytes) (host : Option Bytes)
      → (login ≡ true → is_some host ≡ true)
      → IsQuiet n (fill_utmp os c has_pid login pid line user host)
  unfolding fill_utmp gained lost
  fill_utmp-IsQuiet has_pid login pid line user host h =
      seq (IsQuiet-ask os.time asked_time λ t. refl) λ now.
        seq (fill_host-IsQuiet login host h)
          λ s. IsQuiet-pure (utmp_fields os c has_pid login pid line user s now)

  write_entry-IsQuiet :
      (db : Database) (o : Unix) (login : Bool) (pty user : Bytes) (host : Option Bytes)
      → Loggable db o
      → (login ≡ true → is_some host ≡ true)
      → IsQuiet n (write_entry os c db o login pty user host)
  unfolding write_entry
  write_entry-IsQuiet utmpx o login pty user host l h =
      seq (fill_utmpx-IsQuiet login o.cmd_pid pty user host h)
        λ utx. seq (put_entry-IsQuiet login o.cmd_pid utx) λ _. IsQuiet-pure utx
  write_entry-IsQuiet utmp_pid o login pty user host l h =
      seq (fill_utmp-IsQuiet true login o.cmd_pid pty user host h)
        λ ut. seq (put_entry-IsQuiet login o.cmd_pid ut) λ _. IsQuiet-pure ut
  write_entry-IsQuiet utmp_bsd o login pty user host l h =
      seq (fill_utmp-IsQuiet false login o.cmd_pid pty user host h) λ ut.
        seq (IsQuiet-deref o.utmp_pos (l.slot refl)) λ slot.
          seq
            (IsQuiet-if (is_pos slot)
              (λ _. write_record-IsQuiet os n utmp_file slot (utmp_record ut))
              (λ _. IsQuiet-pure tt))
            λ _. IsQuiet-pure ut

  write_wtmp-IsQuiet : (db : Database) (ut : Utmp) → IsQuiet n (write_wtmp os c db ut)
  unfolding write_wtmp gained lost
  write_wtmp-IsQuiet utmpx ut = IsQuiet-emit (logged_wtmp ut) refl
  write_wtmp-IsQuiet _ ut =
      IsQuiet-if c.have_updwtmp (λ _. IsQuiet-emit (logged_wtmp ut) refl)
        (λ _. updwtmp-IsQuiet os n ut)

  log_shell-IsQuiet :
      (db : Database) (login : Bool) (pwent : Option Passwd) (pty : Bytes) (host : Option Bytes)
      (ut : Utmp)
      → (login ≡ true → is_some host ≡ true)
      → IsQuiet n (log_shell os c db login pwent pty host ut)
  unfolding log_shell
  log_shell-IsQuiet db login pwent pty host ut h =
      seq (IsQuiet-if c.wtmp_support (λ _. write_wtmp-IsQuiet db ut) (λ _. IsQuiet-pure tt)) λ _.
        IsQuiet-if (c.lastlog_support && login)
          (λ e.
            IsQuiet-if (is_some pwent)
              (λ _. update_lastlog-IsQuiet db pty host (h (and-right c.lastlog_support login e)))
              (λ _. IsQuiet-pure tt))
          (λ _. IsQuiet-pure tt)
    where
      and-right : (a b : Bool) → (a && b) ≡ true → b ≡ true
      and-right a b e = ground arith

  -- With a host name where it logs in, on an object with a name, a login shell flag and, for a
  -- BSD utmp, a slot, `log_session` returns and closes each file that it opens.
  pub log_session-IsQuiet :
      (db : Database) (o : Unix) (login : Bool) (host : Option Bytes)
      → Loggable db o
      → (login ≡ true → is_some host ≡ true)
      → IsQuiet n (log_session os c db o login host)
  unfolding log_session gained lost
  log_session-IsQuiet db o login host l h = seq (IsQuiet-ask os.getuid asked_uid λ u. refl) λ uid.
      seq (IsQuiet-ask (λ w. os.getpwuid w uid) (asked_passwd uid) λ p. refl) λ pwent.
        seq (IsQuiet-deref o.name l.name) λ name.
          seq (write_entry-IsQuiet db o login (skip_dev name) (user_name pwent) host l h) λ ut.
            seq (IsQuiet-deref o.login_shell l.shell) λ shell.
              IsQuiet-if shell (λ _. log_shell-IsQuiet db login pwent (skip_dev name) host ut h)
                (λ _. IsQuiet-pure tt)
