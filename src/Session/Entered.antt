-- ===== src/Session/Entered.antt =====
-- `write_entry` (src/logging.C): the record of a session and its entry in utmp, on every build.
use mathlib.Core.List.{append-nil}
use libptytty.Base.{
  ◌≡◌, refl, sym, ap, subst, ◌∙◌, inl, inr, ℤ, Bool, true, false, ◌&&◌, is_pos, Bytes, Option, List,
  [], ◌∷◌, ◌++◌, if◌then◌else◌, arith,
}
use mathlib.Core.Bool.{false≢true}
use libptytty.Sys.{
  Os, Utmp, M, asked_time, utmp_record, rewound_utmp, searched_utmp, put_utmp, ended_utmp, pure,
  emit, ◌>>=◌, ◌>>◌, utmp_file,
}
use libptytty.Config.{Config, Database, utmpx, utmp_pid, utmp_bsd}
use libptytty.Unix.{Unix}
use libptytty.Session.Records.{fill_host, fill_utmpx, fill_utmp, utmpx_fields, utmp_fields}
use libptytty.Sys.Notes.{
  Nothing, seq, silent, weaken, done, asked, read, test, emitted, then_silent,
}
use libptytty.Session.Books.{Entry, in_utmp, entry_of, IsBooked}
use libptytty.Session.Ledger.{Part, by_id, IsFor, AtMost-Part, write_record-AtMost}
use libptytty.Session.{owns_entry, put_entry, same_pid, write_entry}

and_true : (b : Bool) → (b && true) ≡ b
and_true b = ground arith

pub and_false : (b : Bool) → (b && false) ≡ false
and_false b = ground arith

put-Part :
    (login own : Bool) (u : Utmp) (x y : List Entry)
    → x ≡ []
    → (login ≡ true → own ≡ true)
    → y ≡ (if own then in_utmp u ∷ [] else [])
    → Part login true (in_utmp u) (y ++ x)
put-Part login true u x y e h e' = inl (refl, rw (e', e) refl)
put-Part true false u x y e h e' = absurd (false≢true (h refl))
put-Part false false u x y e h e' = inr (rw (e', e) refl, refl)

module _ (os : Os) (c : Config) where
  owns_entry-sure :
      (login : Bool) (pid : ℤ) (u : Utmp)
      → IsBooked (λ own l. (l ≡ []) × (login ≡ true → own ≡ true)) (owns_entry os c login pid u)
  unfolding owns_entry entry_of
  owns_entry-sure true pid u = done _ true (refl, λ _. refl)
  owns_entry-sure false pid u =
      silent (asked (λ w. os.getutid w u) (searched_utmp u) λ f. refl)
        λ found. done _ (same_pid found pid) (refl, λ e. cc e)

  put_entry-Part :
      (login : Bool) (pid : ℤ) (u : Utmp)
      → IsBooked (λ _. Part login true (in_utmp u)) (put_entry os c login pid u)
  unfolding put_entry entry_of
  put_entry-Part login pid u = silent (emitted rewound_utmp) λ _.
      seq (λ own l. (l ≡ []) × (login ≡ true → own ≡ true))
        (λ own _ l. l ≡ (if own then in_utmp u ∷ [] else [])) (λ _. Part login true (in_utmp u))
        (owns_entry-sure login pid u)
        (λ own.
          then_silent (λ l. l ≡ (if own then in_utmp u ∷ [] else [])) (put_if own)
            λ _. emitted ended_utmp)
        λ own x _ y (e, h). put-Part login own u x y e h
    where
      put_if :
          (own : Bool)
          → IsBooked
              (λ _ l. l ≡ (if own then in_utmp u ∷ [] else []))
              (if own then emit (put_utmp u) else pure tt)
      put_if true = emitted (put_utmp u)
      put_if false = done _ tt refl

  fill_host-Nothing :
      (login : Bool) (host : Option Bytes) → IsBooked Nothing (fill_host os c login host)
  unfolding fill_host
  fill_host-Nothing false host = done Nothing _ refl
  fill_host-Nothing true host =
      test c.have_host (λ _. silent (read host) λ s. done Nothing _ refl) (λ _. done Nothing _ refl)

  abbrev Filled : Bool → ℤ → Bytes → Utmp → List Entry → Type 0
  Filled login pid line u l = (l ≡ []) × IsFor c login pid line u

  fill_utmpx-Filled :
      (login : Bool) (pid : ℤ) (line user : Bytes) (host : Option Bytes)
      → IsBooked (Filled login pid line) (fill_utmpx os c login pid line user host)
  unfolding fill_utmpx utmpx_fields entry_of
  fill_utmpx-Filled login pid line user host = silent (asked os.time asked_time λ t. refl) λ now.
      silent (fill_host-Nothing login host) λ s.
        done (Filled login pid line) (utmpx_fields os c login pid line user s now)
          (refl, (refl, refl, refl))

  fill_utmp-Filled :
      (has_pid login : Bool) (pid : ℤ) (line user : Bytes) (host : Option Bytes)
      → IsBooked (Filled login pid line) (fill_utmp os c has_pid login pid line user host)
  unfolding fill_utmp utmp_fields entry_of
  fill_utmp-Filled has_pid login pid line user host =
      silent (asked os.time asked_time λ t. refl) λ now. silent (fill_host-Nothing login host) λ s.
        done (Filled login pid line) (utmp_fields os c has_pid login pid line user s now)
          (refl, (refl, refl, refl))

  -- The record of the session, and its entry in utmp.
  abbrev pub Entered : Bool → Database → ℤ → Bytes → Utmp → List Entry → Type 0
  Entered login db pid line u l =
      IsFor c login pid line u × Part (login && by_id db) true (in_utmp u) l

  -- The entry made, and the record given back.
  abbrev Kept : Bool → Database → Utmp → Utmp → List Entry → Type 0
  Kept login db u u' l = (u' ≡ u) × Part (login && by_id db) true (in_utmp u) l

  Part-Kept :
      (login : Bool) (db : Database) (u : Utmp) (m : M (Unit {0}))
      → IsBooked (λ _. Part (login && by_id db) true (in_utmp u)) m
      → IsBooked (Kept login db u) (m >> pure u)
  Part-Kept login db u m q =
      seq (λ _. Part (login && by_id db) true (in_utmp u)) (λ _ u' y. (y ≡ []) × (u' ≡ u))
        (Kept login db u) q (λ _. done _ u (refl, refl))
        λ _ x u' y part (e, same).
          (same, subst (Part (login && by_id db) true (in_utmp u)) (sym (ap (λ z. z ++ x) e)) part)

  Filled-Entered :
      (login : Bool) (db : Database) (pid : ℤ) (line : Bytes) (m : M Utmp) (k : Utmp → M Utmp)
      → IsBooked (Filled login pid line) m
      → ((u : Utmp) → IsBooked (Kept login db u) (k u))
      → IsBooked (Entered login db pid line) (m >>= k)
  Filled-Entered login db pid line m k p q =
      seq (Filled login pid line) (Kept login db) (Entered login db pid line) p q
        λ u x u' y (e, isfor) (same, part).
          let all : y ++ x ≡ y = ap (λ z. y ++ z) e ∙ append-nil y in rw (same, all) (isfor, part)

  pub write_entry-Entered :
      (db : Database) (o : Unix) (login : Bool) (pty user : Bytes) (host : Option Bytes)
      → IsBooked (Entered login db o.cmd_pid pty) (write_entry os c db o login pty user host)
  unfolding write_entry
  write_entry-Entered utmpx o login pty user host =
      Filled-Entered login utmpx o.cmd_pid pty _ _ (fill_utmpx-Filled login o.cmd_pid pty user host)
        λ u.
          Part-Kept login utmpx u (put_entry os c login o.cmd_pid u)
            (rw (and_true login) (put_entry-Part login o.cmd_pid u))
  write_entry-Entered utmp_pid o login pty user host =
      Filled-Entered login utmp_pid o.cmd_pid pty _ _
        (fill_utmp-Filled true login o.cmd_pid pty user host)
        λ u.
          Part-Kept login utmp_pid u (put_entry os c login o.cmd_pid u)
            (rw (and_true login) (put_entry-Part login o.cmd_pid u))
  write_entry-Entered utmp_bsd o login pty user host =
      Filled-Entered login utmp_bsd o.cmd_pid pty _ _
        (fill_utmp-Filled false login o.cmd_pid pty user host)
        λ u. silent (read o.utmp_pos) λ slot. Part-Kept login utmp_bsd u _ (
          test (is_pos slot)
            (λ _.
              weaken (write_record-AtMost os utmp_file slot (utmp_record u))
                λ _ x e. AtMost-Part os c (login && false) (in_utmp u) x e (and_false login))
            (λ _.
              done (λ _. Part (login && false) true (in_utmp u)) tt
                (inr (refl, ap (λ b. b && true) (and_false login)))))
