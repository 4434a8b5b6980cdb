-- ===== src/Tests/Sessions.antt =====
-- A database of entries by id, and a session on it.
use libptytty.Base.{
  ◌≡◌, refl, ap, Bool, true, false, ◌&&◌, Bytes, Option, none, some, [], ◌∷◌, arith, codes, pos,
  ◌==◌, if◌then◌else◌,
}
use libptytty.Sys.{Os, Trace, Utmp}
use libptytty.Sys.Returns.{Returns}
use libptytty.Config.{Config, bsd, utmp_pid}
use libptytty.Session.Entries.{
  put_of, Entries, Closed, session, write_entry-Closed, Written, write_entry-Written,
}
use libptytty.Session.{write_entry, skip_dev, log_session}
use libptytty.Sys.Notes.{Adds}
use libptytty.Session.Books.{entry_of}
use libptytty.Session.Logged.{Logged, log_session-Logged}
use libptytty.Unix.Mute.{device_of}
use libptytty.Unix.Device.{IsRestored}
use libptytty.Session.Lifecycle.{life}
use libptytty.Session.Restored.{life-Restored}
use libptytty.Tests.{os, config, conf, client_calls, terminals, logged_in}

abbrev same_bytes : Bytes → Bytes → Bool
same_bytes [] [] = true
same_bytes [] (y ∷ ys) = false
same_bytes (x ∷ xs) [] = false
same_bytes (x ∷ xs) (y ∷ ys) = x == y && same_bytes xs ys

same_bytes_refl : (s : Bytes) → same_bytes s s ≡ true
same_bytes_refl [] = refl
same_bytes_refl (x ∷ s) =
    let rest = same_bytes_refl s in
    let first : (x == x) ≡ true = ground arith in rw (first, rest) refl

abbrev with_entry : Option Utmp → (Bytes → Option Utmp) → Bytes → Option Utmp
with_entry none f = f
with_entry (some u) f = λ id. if same_bytes u.id id then some u else f id

unfoldable entries : Trace → Bytes → Option Utmp
entries [] = λ id. none
entries (e ∷ w) = with_entry (put_of e) (entries w)

abbrev database_os : Os
database_os = record os { getutid = λ w u. entries w u.id }

database : Entries database_os entries
unfolding entries put_of
database = record {
  search = λ w u. refl;
  put = λ w u. rw (same_bytes_refl u.id) refl;
  keep = λ w e h. ap (λ o. with_entry o (entries w)) h;
}

write_entry-Closed_example : Returns (Closed database_os config entries database) (
    session database_os config utmp_pid logged_in
      (codes "pts/7")
      (codes "me")
      (some (codes "h:0"))
      [])
write_entry-Closed_example =
    write_entry-Closed database_os config entries database utmp_pid logged_in (codes "pts/7")
      (codes "me") (codes "h:0") [] (λ e. cc e)

write_entry-Written_example :
    Returns
      (Written database_os config entries database false logged_in.cmd_pid (codes "pts/7") [])
      (write_entry database_os config utmp_pid logged_in false (codes "pts/7") (codes "me") none [])
write_entry-Written_example =
    write_entry-Written database_os config entries database utmp_pid logged_in false (codes "pts/7")
      (codes "me") none [] (λ e. cc e) (λ e. cc e)

log_session-Logged_example :
    Returns
      (Adds entry_of
        (λ _. Logged os config utmp_pid true true (pos 42) (skip_dev (codes "/dev/pts/7")))
        [])
      (log_session os config utmp_pid logged_in true (some (codes "h:0")) [])
log_session-Logged_example =
    log_session-Logged os config utmp_pid logged_in true (some (codes "h:0")) (codes "/dev/pts/7")
      true [] refl refl (λ e. cc e) (λ e. refl)

-- A build that gives the device of a BSD name to the user.
abbrev owner_config : Config
owner_config = record config { backend = bsd; have_revoke = true }

life-Restored_example :
    Returns
      (Adds device_of (λ _. IsRestored os owner_config conf 1000) [])
      (life os owner_config conf client_calls [])
life-Restored_example =
    life-Restored os owner_config conf 1000 client_calls [] terminals (λ v. refl)
