-- ===== src/Session/Ledger.antt =====
-- `log_session` (src/logging.C) as entries in the databases: what it adds to which, on every build.
use libptytty.Base.{
  ℕ, zero, suc, ◌≡◌, refl, ◌⊎◌, inl, inr, ℤ, Bool, true, false, not, ◌&&◌, Bytes, Option, none,
  some, List, [], ◌∷◌, ◌++◌, is_neg, if◌then◌else◌, strncpy,
}
use libptytty.Sys.{
  Os, Utmp, Lastlog, user_process, dead_process, Record, DbFile, OpenMode, eagain, eacces, other,
  LockError, M, tried_lock, asked_size, appended, truncated, released_lock, wrote_at, asked_time,
  asked_uid, opened_db, closed, utmp_record, lastlog_record, logged_wtmp, logged_lastlog, pure,
  ◌>>=◌, ◌>>◌, wronly, wtmp_file, wronly_append, open_db, close,
}
use libptytty.Config.{Config, Database, utmpx, utmp_pid, utmp_bsd}
use libptytty.Session.Records.{fill_lastlog}
use libptytty.Session.Wtmp.{
  write_record, after_attempt, try_lock, append_sized, append_record, append_locked, updwtmp,
}
use libptytty.Sys.Notes.{
  Nothing, seq, silent, weaken, done, asked, answered, read, test, emitted, then_silent,
}
use libptytty.Session.Books.{Entry, in_utmp, in_wtmp, in_lastlog, entry_of, entry_in, IsBooked}
use libptytty.Session.{store_lastlog, update_lastlog, write_wtmp}

-- The record `e`, or nothing.
abbrev pub AtMost : {A : Type 0} → Entry → A → List Entry → Type 0
AtMost e a l = (l ≡ []) ⊎ (l ≡ e ∷ [])

module _ (os : Os) where
  -- A file of a database, open for the length of `body`.
  file-AtMost :
      (e : Entry) (path : DbFile) (m : OpenMode) (body : ℤ → M (Unit {0}))
      → ((fd : ℤ) → IsBooked (AtMost e) (body fd))
      → IsBooked
          (AtMost e)
          (open_db os path m >>= λ fd. if is_neg fd then pure tt else (body fd >> close fd))
  unfolding entry_of
  file-AtMost e path m body h = silent (asked _ (opened_db path m) λ fd. refl) λ fd.
      test (is_neg fd) (λ _. done (AtMost e) tt (inl refl))
        (λ _. then_silent (AtMost e tt) (h fd) λ _. emitted (closed fd))

  pub write_record-AtMost :
      (path : DbFile) (at : ℤ) (r : Record)
      → IsBooked (AtMost (entry_in r)) (write_record os path at r)
  unfolding write_record entry_of
  write_record-AtMost path at (utmp_record u) =
      file-AtMost (in_utmp u) path wronly _
        λ fd. weaken (emitted (wrote_at fd (utmp_record u) at)) λ _ l e. inr e
  write_record-AtMost path at (lastlog_record ll) =
      file-AtMost (in_lastlog ll) path wronly _
        λ fd. weaken (emitted (wrote_at fd (lastlog_record ll) at)) λ _ l e. inr e

  after_attempt-Nothing :
      (e : Option LockError) {again : M Bool}
      → IsBooked Nothing again
      → IsBooked Nothing (after_attempt os e again)
  unfolding after_attempt
  after_attempt-Nothing none h = done Nothing true refl
  after_attempt-Nothing (some eagain) h = h
  after_attempt-Nothing (some eacces) h = h
  after_attempt-Nothing (some other) h = done Nothing false refl

  try_lock-Nothing : (k : ℕ) (fd : ℤ) → IsBooked Nothing (try_lock os k fd)
  unfolding try_lock entry_of
  try_lock-Nothing zero fd = done Nothing false refl
  try_lock-Nothing (suc k) fd =
      silent (asked _ (tried_lock fd) λ e. refl)
        λ e. after_attempt-Nothing e (try_lock-Nothing k fd)

  whole-AtMost :
      (fd : ℤ) (ut : Utmp) (whole : Bool) (x y : List Entry)
      → x ≡ entry_of (appended fd ut whole)
      → y ≡ []
      → AtMost (in_wtmp ut) tt (y ++ x)
  unfolding entry_of
  whole-AtMost fd ut true x y e e' = inr (rw (e', e) refl)
  whole-AtMost fd ut false x y e e' = inl (rw (e', e) refl)

  append_sized-AtMost :
      (fd : ℤ) (ut : Utmp) (size : Option ℕ)
      → IsBooked (AtMost (in_wtmp ut)) (append_sized os fd ut size)
  unfolding append_sized entry_of
  append_sized-AtMost fd ut none = done (AtMost (in_wtmp ut)) tt (inl refl)
  append_sized-AtMost fd ut (some size) =
      seq (λ whole l. l ≡ entry_of (appended fd ut whole)) (λ _. Nothing) (AtMost (in_wtmp ut))
        (answered (λ w. os.append w fd ut) (appended fd ut))
        (λ whole. test whole (λ _. done Nothing tt refl) (λ _. emitted (truncated fd size)))
        λ whole x _ y. whole-AtMost fd ut whole x y

  append_record-AtMost :
      (fd : ℤ) (ut : Utmp) → IsBooked (AtMost (in_wtmp ut)) (append_record os fd ut)
  unfolding append_record entry_of
  append_record-AtMost fd ut =
      silent (asked _ (asked_size fd) λ s. refl) (append_sized-AtMost fd ut)

  append_locked-AtMost :
      (ut : Utmp) (fd : ℤ) → IsBooked (AtMost (in_wtmp ut)) (append_locked os ut fd)
  unfolding append_locked entry_of
  append_locked-AtMost ut fd = silent (try_lock-Nothing 10 fd) λ b.
      test b
        (λ _.
          then_silent (AtMost (in_wtmp ut) tt) (append_record-AtMost fd ut)
            λ _. emitted (released_lock fd))
        (λ _. done (AtMost (in_wtmp ut)) tt (inl refl))

  updwtmp-AtMost : (ut : Utmp) → IsBooked (AtMost (in_wtmp ut)) (updwtmp os ut)
  unfolding updwtmp
  updwtmp-AtMost ut = file-AtMost (in_wtmp ut) wtmp_file wronly_append _ (append_locked-AtMost ut)

-- The record `e` where `b`, and for sure where `sure`.
abbrev pub Part : Bool → Bool → Entry → List Entry → Type 0
Part sure b e l = ((b ≡ true) × (l ≡ e ∷ [])) ⊎ ((l ≡ []) × ((sure && b) ≡ false))

abbrev pub Lastlogs : Bool → List Entry → Type 0
Lastlogs b l = (l ≡ []) ⊎ ((b ≡ true) × ((ll : Lastlog) × (l ≡ in_lastlog ll ∷ [])))

-- A database by id has an entry put, and the calls for wtmp, where they are there, write.
abbrev pub by_id : Database → Bool
by_id utmpx = true
by_id utmp_pid = true
by_id utmp_bsd = false

abbrev pub has_wtmp_call : Config → Database → Bool
has_wtmp_call c utmpx = true
has_wtmp_call c _ = c.have_updwtmp

-- The fields that identify a session.
abbrev pub IsFor : Config → Bool → ℤ → Bytes → Utmp → Type 0
IsFor c login pid line u =
    (u.line ≡ strncpy line c.line_size)
    × (u.pid ≡ pid)
    × (u.kind ≡ (if login then user_process else dead_process))

module _ (os : Os) (c : Config) where
  pub AtMost-Part :
      (sure : Bool) (e : Entry) (l : List Entry) → AtMost e tt l → sure ≡ false → Part sure true e l
  AtMost-Part sure e l (inl h) s = inr (h, rw s refl)
  AtMost-Part sure e l (inr h) s = inl (refl, h)

  pub write_wtmp-Part :
      (db : Database) (ut : Utmp)
      → IsBooked (λ _. Part (has_wtmp_call c db) true (in_wtmp ut)) (write_wtmp os c db ut)
  unfolding write_wtmp entry_of
  write_wtmp-Part utmpx ut = weaken (emitted (logged_wtmp ut)) λ _ l e. inl (refl, e)
  write_wtmp-Part utmp_pid ut =
      test c.have_updwtmp (λ _. weaken (emitted (logged_wtmp ut)) λ _ l e. inl (refl, e))
        (λ s. weaken (updwtmp-AtMost os ut) λ _ l h. AtMost-Part c.have_updwtmp (in_wtmp ut) l h s)
  write_wtmp-Part utmp_bsd ut =
      test c.have_updwtmp (λ _. weaken (emitted (logged_wtmp ut)) λ _ l e. inl (refl, e))
        (λ s. weaken (updwtmp-AtMost os ut) λ _ l h. AtMost-Part c.have_updwtmp (in_wtmp ut) l h s)

  one_lastlog : (ll : Lastlog) (l : List Entry) → AtMost (in_lastlog ll) tt l → Lastlogs true l
  one_lastlog ll l (inl h) = inl h
  one_lastlog ll l (inr h) = inr (refl, (ll, h))

  store_lastlog-Lastlogs :
      (db : Database) (uid : ℕ) (ll : Lastlog)
      → IsBooked (λ _. Lastlogs true) (store_lastlog os c db uid ll)
  unfolding store_lastlog entry_of
  store_lastlog-Lastlogs utmpx uid ll =
      weaken (emitted (logged_lastlog uid ll)) λ _ l e. inr (refl, (ll, e))
  store_lastlog-Lastlogs utmp_pid uid ll =
      weaken (write_record-AtMost os _ _ (lastlog_record ll)) λ _ l h. one_lastlog ll l h
  store_lastlog-Lastlogs utmp_bsd uid ll =
      weaken (write_record-AtMost os _ _ (lastlog_record ll)) λ _ l h. one_lastlog ll l h

  pub update_lastlog-Lastlogs :
      (db : Database) (pty : Bytes) (host : Option Bytes)
      → IsBooked (λ _. Lastlogs true) (update_lastlog os c db pty host)
  unfolding update_lastlog entry_of
  update_lastlog-Lastlogs db pty host =
      test (not c.have_lastlog) (λ _. done (λ _. Lastlogs true) tt (inl refl))
        λ _. silent (asked os.time asked_time λ t. refl) λ now. silent (read host) λ s.
          silent (asked os.getuid asked_uid λ u. refl)
            λ uid. store_lastlog-Lastlogs db uid (fill_lastlog os c now pty s)
