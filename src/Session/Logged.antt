-- ===== src/Session/Logged.antt =====
-- `log_session` (src/logging.C) as a whole: one record for utmp and wtmp, and the entry in lastlog.
use mathlib.Core.List.{append_assoc}
use libptytty.Base.{
  ◌≡◌, refl, ap, ◌∙◌, inl, inr, ℤ, Bool, true, false, ◌&&◌, Bytes, Option, some, List, [], ◌++◌,
  is_some, if◌then◌else◌,
}
use libptytty.Sys.{Os, Utmp, Passwd, M, Trace, deref, asked_uid, asked_passwd, pure, ◌>>=◌}
use libptytty.Sys.Returns.{Returns}
use libptytty.Config.{Config, Database, utmp_bsd}
use libptytty.Unix.{Unix}
use libptytty.Sys.Notes.{Adds, Returns-Whenever, seq, silent, done, asked, test}
use libptytty.Session.Books.{Entry, in_utmp, in_wtmp, entry_of, IsBooked}
use libptytty.Session.Ledger.{
  Part, Lastlogs, by_id, has_wtmp_call, IsFor, write_wtmp-Part, update_lastlog-Lastlogs,
}
use libptytty.Session.Entered.{Entered, write_entry-Entered, and_false}
use libptytty.Session.Safety.{Loggable, log_session-IsQuiet}
use libptytty.Session.{
  user_name, skip_dev, write_entry, write_wtmp, update_lastlog, log_shell, log_session,
}

module _ (os : Os) (c : Config) where
  -- The entries of a session: at most one in utmp, one in wtmp and one in lastlog, in this order.
  -- The first two are of one record; the others are for login shells, where the build has them,
  -- and the last one for logins.
  abbrev pub Logged : Database → Bool → Bool → ℤ → Bytes → List Entry → Type 0
  Logged db login shell pid line l =
      (ut : Utmp) × (IsFor c login pid line ut
        × ((in_ut : List Entry) × ((in_wt : List Entry) × ((in_ll : List Entry) × ((l
                    ≡ in_ll ++ (in_wt ++ in_ut))
                  × Part (login && by_id db) true (in_utmp ut) in_ut
                  × Part (has_wtmp_call c db) (shell && c.wtmp_support) (in_wtmp ut) in_wt
                  × Lastlogs (shell && (c.lastlog_support && login)) in_ll)))))

  -- What a login shell adds.
  abbrev OfShell : Database → Bool → Bool → Utmp → List Entry → Type 0
  OfShell db login shell ut l =
      (in_wt : List Entry) × ((in_ll : List Entry) × ((l ≡ in_ll ++ in_wt)
          × Part (has_wtmp_call c db) (shell && c.wtmp_support) (in_wtmp ut) in_wt
          × Lastlogs (shell && (c.lastlog_support && login)) in_ll))

  wtmp-Part :
      (db : Database) (ut : Utmp)
      → IsBooked
          (λ _. Part (has_wtmp_call c db) c.wtmp_support (in_wtmp ut))
          (if c.wtmp_support then write_wtmp os c db ut else pure tt)
  wtmp-Part db ut = part_if c.wtmp_support (write_wtmp-Part os c db ut)
    where
      part_if :
          (b : Bool) {m : M (Unit {0})}
          → IsBooked (λ _. Part (has_wtmp_call c db) true (in_wtmp ut)) m
          → IsBooked (λ _. Part (has_wtmp_call c db) b (in_wtmp ut)) (if b then m else pure tt)
      part_if true p = p
      part_if false p = done _ tt (inr (refl, and_false (has_wtmp_call c db)))

  lastlog-Lastlogs :
      (db : Database) (login : Bool) (pwent : Option Passwd) (pty : Bytes) (host : Option Bytes)
      → IsBooked
          (λ _. Lastlogs (c.lastlog_support && login))
          (if c.lastlog_support && login
            then (if is_some pwent then update_lastlog os c db pty host else pure tt)
            else pure tt)
  lastlog-Lastlogs db login pwent pty host = lastlogs_if (c.lastlog_support && login) (
      test (is_some pwent) (λ _. update_lastlog-Lastlogs os c db pty host)
        (λ _. done (λ _. Lastlogs true) tt (inl refl)))
    where
      lastlogs_if :
          (b : Bool) {m : M (Unit {0})}
          → IsBooked (λ _. Lastlogs true) m
          → IsBooked (λ _. Lastlogs b) (if b then m else pure tt)
      lastlogs_if true p = p
      lastlogs_if false p = done _ tt (inl refl)

  log_shell-OfShell :
      (db : Database) (login : Bool) (pwent : Option Passwd) (pty : Bytes) (host : Option Bytes)
      (ut : Utmp)
      → IsBooked (λ _. OfShell db login true ut) (log_shell os c db login pwent pty host ut)
  unfolding log_shell
  log_shell-OfShell db login pwent pty host ut =
      seq (λ _. Part (has_wtmp_call c db) c.wtmp_support (in_wtmp ut))
        (λ _ _. Lastlogs (c.lastlog_support && login)) (λ _. OfShell db login true ut)
        (wtmp-Part db ut) (λ _. lastlog-Lastlogs db login pwent pty host)
        λ _ x _ y p q. (x, (y, (refl, p, q)))

  shell_if-OfShell :
      (shell : Bool) (db : Database) (login : Bool) (pwent : Option Passwd) (pty : Bytes)
      (host : Option Bytes) (ut : Utmp)
      → IsBooked
          (λ _. OfShell db login shell ut)
          (if shell then log_shell os c db login pwent pty host ut else pure tt)
  shell_if-OfShell true db login pwent pty host ut = log_shell-OfShell db login pwent pty host ut
  shell_if-OfShell false db login pwent pty host ut =
      done (λ _. OfShell db login false ut) tt
        ([], ([], (refl, inr (refl, and_false (has_wtmp_call c db)), inl refl)))

  known :
      {A B : Type 0} {R : B → List Entry → Type 0} (x : Option A) (a : A) (k : A → M B)
      → x ≡ some a
      → IsBooked R (k a)
      → IsBooked R (deref x >>= k)
  known x a k e p = rw e p

  log_session-IsBooked :
      (db : Database) (o : Unix) (login : Bool) (host : Option Bytes) (name : Bytes) (shell : Bool)
      → o.name ≡ some name
      → o.login_shell ≡ some shell
      → IsBooked
          (λ _. Logged db login shell o.cmd_pid (skip_dev name))
          (log_session os c db o login host)
  unfolding log_session entry_of
  log_session-IsBooked db o login host name shell named flag =
      silent (asked os.getuid asked_uid λ u. refl) λ uid.
        silent (asked (λ w. os.getpwuid w uid) (asked_passwd uid) λ p. refl) λ pwent.
          let shelled : Bytes → Utmp → Bool → M (Unit {0}) =
            λ pty ut b. if b then log_shell os c db login pwent pty host ut else pure tt in
          known o.name name
            (λ x. write_entry os c db o login (skip_dev x) (user_name pwent) host >>= λ ut.
              deref o.login_shell >>= shelled (skip_dev x) ut)
            named
            (seq (Entered os c login db o.cmd_pid (skip_dev name))
              (λ ut _. OfShell db login shell ut)
              (λ _. Logged db login shell o.cmd_pid (skip_dev name))
              (write_entry-Entered os c db o login (skip_dev name) (user_name pwent) host)
              (λ ut.
                known o.login_shell shell (shelled (skip_dev name) ut) flag
                  (shell_if-OfShell shell db login pwent (skip_dev name) host ut))
              λ ut x _ y (isfor, part) (wt, (ll, (e, p, q))). (
                ut,
                (isfor, (x, (wt, (ll, (ap (λ z. z ++ x) e ∙ append_assoc ll wt x, part, p, q))))),
              ))

  -- On every build, with a host name where it logs in, on an object with a name, a login shell
  -- flag and, for a BSD utmp, a slot, `log_session` returns, and what it writes whole is at most
  -- one record to utmp, then to wtmp, then to lastlog. Those to utmp and wtmp are of one record,
  -- of the terminal's line without /dev/, the object's process and the kind of event. To wtmp it
  -- writes only for a login shell and with WTMP_SUPPORT, and then for sure where there is a call
  -- for it; to lastlog only at the login of a login shell and with LASTLOG_SUPPORT; to utmp at a
  -- login for sure, if the build has utmpx or ids.
  pub log_session-Logged :
      (db : Database) (o : Unix) (login : Bool) (host : Option Bytes) (name : Bytes) (shell : Bool)
      (w : Trace)
      → o.name ≡ some name
      → o.login_shell ≡ some shell
      → (db ≡ utmp_bsd → is_some o.utmp_pos ≡ true)
      → (login ≡ true → is_some host ≡ true)
      → Returns
          (Adds entry_of (λ _. Logged db login shell o.cmd_pid (skip_dev name)) w)
          (log_session os c db o login host w)
  log_session-Logged db o login host name shell w named flag slot h =
      let l : Loggable db o = record {
        name = ap is_some named;
        shell = ap is_some flag;
        slot = slot;
      } in
      Returns-Whenever _ (Adds entry_of (λ _. Logged db login shell o.cmd_pid (skip_dev name)) w)
        (log_session os c db o login host w)
        ((log_session-IsQuiet os c 0 db o login host l h).run w)
        ((log_session-IsBooked db o login host name shell named flag).run w)
