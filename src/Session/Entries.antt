-- ===== src/Session/Entries.antt =====
-- The entry in utmp (src/logging.C) at a login and at the logout that follows.
use libptytty.Base.{
  ◌≡◌, refl, sym, ap, ◌∙◌, subst, ℤ, pos, negsuc, arith, Bool, true, false, Bytes, Option, none,
  some, ◌∷◌, is_some, strncpy, if◌then◌else◌, eqz,
}
use libptytty.Sys.{
  Os, Trace, Utmp, Event, put_utmp, rewound_utmp, searched_utmp, ended_utmp, asked_time,
  user_process, dead_process, M, pure, ◌>>=◌, ◌>>◌, emit, and_then,
}
use mathlib.Core.Bool.{false≢true}
use libptytty.Sys.Returns.{Returns, bind, branch}
use libptytty.Config.{Config, Database, utmpx, utmp_pid, utmp_bsd}
use libptytty.Unix.{Unix}
use libptytty.Session.{same_pid, owns_entry, put_entry, write_entry}
use libptytty.Session.Records.{
  fill_host, fill_utmpx, fill_utmp, utmpx_fields, utmp_fields, fill_id, kind_of,
}

unfoldable pub put_of : Event → Option Utmp
put_of (put_utmp u) = some u
put_of _ = none

-- What is documented of the database: an entry is found by its id, and put in place of the one that
-- has its id; other calls leave the entries alone.
pub record Entries (os : Os) (db : Trace → Bytes → Option Utmp) : Type 0 where
  pub search : (w : Trace) (u : Utmp) → os.getutid w u ≡ db w u.id
  pub put : (w : Trace) (u : Utmp) → db (put_utmp u ∷ w) u.id ≡ some u
  pub keep : (w : Trace) (e : Event) → put_of e ≡ none → db (e ∷ w) ≡ db w

-- Which entry is there afterwards under the id.
abbrev pub replaced : Bool → ℤ → Utmp → Option Utmp → Option Utmp
replaced login pid u old = if login then some u else if same_pid old pid then some u else old

eqz_refl : (n : ℤ) → eqz n n ≡ true
eqz_refl (pos n) = ground arith
eqz_refl (negsuc n) = ground arith

module _ (os : Os) (c : Config) where
  -- A login, and the logout of the same session.
  abbrev pub session : Database → Unix → (pty user : Bytes) → Option Bytes → M (Utmp × Utmp)
  session k o pty user host = do
    a ← write_entry os c k o true pty user host
    b ← write_entry os c k o false pty user none
    pure (a, b)

module _ (os : Os) (c : Config) (db : Trace → Bytes → Option Utmp) (t : Entries os db) where
  put_entry-replaced :
      (login : Bool) (pid : ℤ) (u : Utmp) (w : Trace)
      → Returns (λ _ v. db v u.id ≡ replaced login pid u (db w u.id)) (put_entry os c login pid u w)
  unfolding put_entry owns_entry put_of
  put_entry-replaced true pid u w = ap (λ f. f u.id) (t.keep _ ended_utmp refl) ∙ t.put _ u
  put_entry-replaced false pid u w =
      let found = os.getutid (rewound_utmp ∷ w) u in
      let x = searched_utmp u found ∷ rewound_utmp ∷ w in
      let same : db x u.id ≡ db w u.id =
        ap (λ f. f u.id) (t.keep _ (searched_utmp u found) refl ∙ t.keep w rewound_utmp refl) in
      let there : found ≡ db w u.id =
        t.search (rewound_utmp ∷ w) u ∙ ap (λ f. f u.id) (t.keep w rewound_utmp refl) in
      let Goal : Trace → Type 0 = λ v. db v u.id ≡ replaced false pid u (db w u.id) in
      branch (λ r. Returns (λ _ v. Goal v) (and_then r λ _. emit ended_utmp)) (same_pid found pid)
        (emit (put_utmp u)) (pure tt) x
        (λ e.
          let own : same_pid (db w u.id) pid ≡ true = ap (λ o. same_pid o pid) (sym there) ∙ e in
          rw own (ap (λ f. f u.id) (t.keep _ ended_utmp refl) ∙ t.put x u))
        (λ e.
          let other : same_pid (db w u.id) pid ≡ false = ap (λ o. same_pid o pid) (sym there) ∙ e in
          rw other (ap (λ f. f u.id) (t.keep _ ended_utmp refl) ∙ same))

  -- The record of a session, and what it does to the entry of its id.
  abbrev pub Written : Bool → ℤ → Bytes → Trace → Utmp → Trace → Type 0
  Written login pid pty w u v =
      (u.line ≡ strncpy pty c.line_size)
      × ((u.id ≡ fill_id pty c.id_size)
          × ((u.pid ≡ pid)
              × ((u.kind ≡ kind_of os c login) × (db v u.id ≡ replaced login pid u (db w u.id)))))

  fill_host-same :
      (login : Bool) (host : Option Bytes) (w : Trace)
      → (login ≡ true → is_some host ≡ true)
      → Returns (λ _ v. db v ≡ db w) (fill_host os c login host w)
  unfolding fill_host
  fill_host-same false host w h = refl
  fill_host-same true none w h = absurd (false≢true (h refl))
  fill_host-same true (some a) w h =
      branch (Returns (λ _ v. db v ≡ db w)) c.have_host (pure _) (pure _) w (λ _. refl) (λ _. refl)

  -- The fields, and no entry changed.
  abbrev Filled : Bool → ℤ → Bytes → Trace → Utmp → Trace → Type 0
  Filled login pid pty w u v =
      (db v ≡ db w)
      × ((u.line ≡ strncpy pty c.line_size)
          × ((u.id ≡ fill_id pty c.id_size) × ((u.pid ≡ pid) × (u.kind ≡ kind_of os c login))))

  fill_utmpx-Filled :
      (login : Bool) (pid : ℤ) (pty user : Bytes) (host : Option Bytes) (w : Trace)
      → (login ≡ true → is_some host ≡ true)
      → Returns (Filled login pid pty w) (fill_utmpx os c login pid pty user host w)
  unfolding fill_utmpx utmpx_fields put_of
  fill_utmpx-Filled login pid pty user host w h =
      let v = asked_time (os.time w) ∷ w in
      bind (λ _ x. db x ≡ db v) (Returns (Filled login pid pty w)) (fill_host os c login host v) _
        (fill_host-same login host v h)
        λ _ x e. (e ∙ t.keep w (asked_time (os.time w)) refl, (refl, (refl, (refl, refl))))

  fill_utmp-Filled :
      (login : Bool) (pid : ℤ) (pty user : Bytes) (host : Option Bytes) (w : Trace)
      → (login ≡ true → is_some host ≡ true)
      → Returns (Filled login pid pty w) (fill_utmp os c true login pid pty user host w)
  unfolding fill_utmp utmp_fields put_of
  fill_utmp-Filled login pid pty user host w h =
      let v = asked_time (os.time w) ∷ w in
      bind (λ _ x. db x ≡ db v) (Returns (Filled login pid pty w)) (fill_host os c login host v) _
        (fill_host-same login host v h)
        λ _ x e. (e ∙ t.keep w (asked_time (os.time w)) refl, (refl, (refl, (refl, refl))))

  Filled-Written :
      (login : Bool) (pid : ℤ) (pty : Bytes) (w : Trace) (r : M Utmp)
      → Returns (Filled login pid pty w) (r w)
      → Returns (Written login pid pty w) ((r >>= λ u. put_entry os c login pid u >> pure u) w)
  Filled-Written login pid pty w r filled =
      bind (Filled login pid pty w) (Returns (Written login pid pty w)) (r w) _ filled
        λ u v (e, (line, (id, (p, kind)))).
          bind (λ _ x. db x u.id ≡ replaced login pid u (db v u.id))
            (Returns (Written login pid pty w)) (put_entry os c login pid u v) _
            (put_entry-replaced login pid u v)
            λ _ x q.
              (line, (id, (p, (kind, subst (λ f. db x u.id ≡ replaced login pid u (f u.id)) e q))))

  -- For utmpx and for utmp with ids, on a database by id, a login with a host, or a logout,
  -- returns with a record of the terminal's line, its id, the process and the kind of event.
  -- Under that id the database then has the record after a login, and after a logout if the
  -- entry there was of the same process; else it has what it had.
  pub write_entry-Written :
      (k : Database) (o : Unix) (login : Bool) (pty user : Bytes) (host : Option Bytes) (w : Trace)
      → (k ≡ utmp_bsd → ⊥)
      → (login ≡ true → is_some host ≡ true)
      → Returns (Written login o.cmd_pid pty w) (write_entry os c k o login pty user host w)
  unfolding write_entry
  write_entry-Written utmpx o login pty user host w k h =
      Filled-Written login o.cmd_pid pty w (fill_utmpx os c login o.cmd_pid pty user host)
        (fill_utmpx-Filled login o.cmd_pid pty user host w h)
  write_entry-Written utmp_pid o login pty user host w k h =
      Filled-Written login o.cmd_pid pty w (fill_utmp os c true login o.cmd_pid pty user host)
        (fill_utmp-Filled login o.cmd_pid pty user host w h)
  write_entry-Written utmp_bsd o login pty user host w k h = absurd (k refl)

  -- The logout's record is there in place of the login's.
  abbrev pub Closed : Utmp × Utmp → Trace → Type 0
  Closed (a, b) v =
      (a.kind ≡ user_process)
      × ((b.kind ≡ dead_process) × ((b.line ≡ a.line) × ((b.pid ≡ a.pid) × (db v a.id ≡ some b))))

  -- For utmpx and for utmp with ids, on a database that finds an entry by its id and puts one in
  -- place of the entry of its id, a login with a host followed by the logout of the same object
  -- returns: the entry of the login, a USER_PROCESS, is then replaced by a DEAD_PROCESS of the
  -- same line, id and process.
  pub write_entry-Closed :
      (k : Database) (o : Unix) (pty user host : Bytes) (w : Trace)
      → (k ≡ utmp_bsd → ⊥)
      → Returns Closed (session os c k o pty user (some host) w)
  unfolding same_pid
  write_entry-Closed k o pty user host w ids =
      bind (Written true o.cmd_pid pty w) (Returns Closed)
        (write_entry os c k o true pty user (some host) w) _
        (write_entry-Written k o true pty user (some host) w ids (λ _. refl))
        λ a v (line, (id, (p, (kind, there)))).
          bind (Written false o.cmd_pid pty v) (Returns Closed)
            (write_entry os c k o false pty user none v) _
            (write_entry-Written k o false pty user none v ids (λ e. cc e))
            λ b x (line', (id', (p', (kind', there')))).
              let same_id : b.id ≡ a.id = id' ∙ sym id in
              let before : db v b.id ≡ some a = ap (db v) same_id ∙ there in
              let own : same_pid (db v b.id) o.cmd_pid ≡ true =
                ap (λ e. same_pid e o.cmd_pid) before
                ∙ ap (λ n. eqz n o.cmd_pid) p
                ∙ eqz_refl o.cmd_pid in
              (
                kind,
                (
                  kind',
                  (
                    line' ∙ sym line,
                    (
                      p' ∙ sym p,
                      ap (db x) (sym same_id)
                          ∙ there'
                          ∙ ap (λ z. if z then some b else db v b.id) own,
                    ),
                  ),
                ),
              )
