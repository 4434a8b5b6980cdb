-- ===== src/Session/Wtmp.antt =====
-- src/logging.C: `write_record`, and `updwtmp` with its lock, for systems without one.
use libptytty.Base.{ℕ, zero, suc, ℤ, Bool, true, false, Option, none, some, if◌then◌else◌, is_neg}
use libptytty.Sys.{
  Os, DbFile, wtmp_file, wronly, wronly_append, Utmp, Record, LockError, eagain, eacces, other,
  wrote_at, tried_lock, released_lock, asked_size, appended, truncated, M, pure, ◌>>=◌, ◌>>◌, emit,
  ask, close, open_db,
}

module _ (os : Os) where
  -- The position counts records, as `pos * size` does in bytes.
  unfoldable pub write_record : DbFile → ℤ → Record → M (Unit {0})
  write_record path at r = do
    fd ← open_db os path wronly
    if is_neg fd then pure tt else do emit (wrote_at fd r at); close fd

  -- The end of a round: the lock, another attempt, or the end of the loop.
  unfoldable pub after_attempt : Option LockError → M Bool → M Bool
  after_attempt none again = pure true
  after_attempt (some eagain) again = again
  after_attempt (some eacces) again = again
  after_attempt (some other) again = pure false

  -- `for (retry = n, gotlock = 0; retry--;)`
  unfoldable pub try_lock : ℕ → ℤ → M Bool
  try_lock zero fd = pure false
  try_lock (suc retry) fd = do
    e ← ask (λ w. os.setlk w fd) (tried_lock fd)
    after_attempt e (try_lock retry fd)

  -- The write under the lock: a record that is not written whole is cut off again.
  unfoldable pub append_sized : ℤ → Utmp → Option ℕ → M (Unit {0})
  append_sized fd ut none = pure tt
  append_sized fd ut (some size) = do
    whole ← ask (λ w. os.append w fd ut) (appended fd ut)
    if whole then pure tt else emit (truncated fd size)

  unfoldable pub append_record : ℤ → Utmp → M (Unit {0})
  append_record fd ut = do
    size ← ask (λ w. os.fstat_size w fd) (asked_size fd)
    append_sized fd ut size

  unfoldable pub append_locked : Utmp → ℤ → M (Unit {0})
  append_locked ut fd = do
    gotlock ← try_lock 10 fd
    if gotlock then (do append_record fd ut; emit (released_lock fd)) else pure tt

  unfoldable pub updwtmp : Utmp → M (Unit {0})
  updwtmp ut = do
    fd ← open_db os wtmp_file wronly_append
    if is_neg fd then pure tt else do append_locked ut fd; close fd
