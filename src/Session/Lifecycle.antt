-- ===== src/Session/Lifecycle.antt =====
-- The life of a `ptytty_unix` object (src/ptytty.C, src/logging.C): creation, `get`, any calls by
-- the client, destruction.
use libptytty.Base.{
  ℕ, ◌≡◌, refl, sym, ap, ◌∙◌, inl, inr, ℤ, pos, Bool, true, false, Bytes, Option, none, some, List,
  [], ◌∷◌, arith, is_some, is_zero, if◌then◌else◌,
}
use libptytty.Sys.{Os, Trace, M, pure, ◌>>=◌, ◌>>◌}
use libptytty.Sys.Balance.{Shifts, Quiet}
use libptytty.Sys.Returns.{Returns, mono, bind, branch}
use libptytty.Sys.Quiet.{IsQuiet, IsQuiet-pure, IsQuiet-if}
use libptytty.Config.{Config, Database}
use libptytty.Unix.{Unix, TtyConf, new_unix, close_tty, make_controlling_tty, set_utf8_mode, get}
use libptytty.Unix.Ownership.{Terminals}
use libptytty.Unix.Put.{owned, HasSlot, Loosened, close_tty-Loosened, Emptied, put-Emptied}
use libptytty.Unix.Get.{Acquired, Outcome, get-Acquired}
use libptytty.Unix.Terminal.{set_utf8_mode-IsQuiet, make_controlling_tty-IsQuiet}
use libptytty.Session.{is_unnamed, log_session, login_with, login, log_out, delete_unix}
use libptytty.Session.Safety.{Loggable, log_session-IsQuiet}

-- An object with a session on record can log it out.
abbrev pub IsSound : Config → Unix → Type 0
IsSound c o = (db : Database) → c.utmp_support ≡ some db → is_zero o.cmd_pid ≡ false → Loggable db o

named : (name : Option Bytes) → is_unnamed name ≡ false → is_some name ≡ true
unfolding is_unnamed
named none h = cc
named (some s) h = refl

pub IsSound-close :
    (c : Config) (o : Unix) (tty : ℤ) (o' : Unix)
    → o' ≡ record o { tty = tty }
    → IsSound c o
    → IsSound c o'
IsSound-close c o tty o' e sound db h i =
    let l = sound db h (ap (λ (x : Unix). is_zero x.cmd_pid) (sym e) ∙ i) in
    record {
      name = ap (λ (x : Unix). is_some x.name) e ∙ l.name;
      shell = ap (λ (x : Unix). is_some x.login_shell) e ∙ l.shell;
      slot = λ d. ap (λ (x : Unix). is_some x.utmp_pos) e ∙ l.slot d;
    }

-- The fields that a login leaves alone, and the object's soundness.
abbrev pub LoggedIn : Config → ℕ → Trace → Unix → Unix → Trace → Type 0
LoggedIn c n w o o' v =
    Shifts n (owned n o) w (owned n o') v × HasSlot c.utmp_support o' × IsSound c o'

module _ (os : Os) (c : Config) (n : ℕ) where
  login_with-LoggedIn :
      (u : Option Database) (o : Unix) (pid : ℤ) (shell : Bool) (host : Option Bytes) (w : Trace)
      → c.utmp_support ≡ u
      → is_some host ≡ true
      → HasSlot c.utmp_support o
      → IsSound c o
      → Returns (LoggedIn c n w o) (login_with os c u o pid shell host w)
  unfolding login_with
  login_with-LoggedIn none o pid shell host w e h slot sound = (refl, slot, sound)
  login_with-LoggedIn (some db) o pid shell host w e h slot sound =
      branch (Returns (LoggedIn c n w o)) (is_unnamed o.name) _ _ w (λ _. (refl, slot, sound))
        λ i.
          let o' = record o { cmd_pid = pid; login_shell = some shell } in
          let ready : (db' : Database) → c.utmp_support ≡ some db' → Loggable db' o' = λ db' e'.
            record { name = named o.name i; shell = refl; slot = λ d. slot (e' ∙ ap some d) } in
          bind (Quiet n w) (Returns (LoggedIn c n w o)) (log_session os c db o' true host w) _
            ((log_session-IsQuiet os c n db o' true host (ready db e) (λ _. h)).run w)
            λ _ v q. (omega (arith, q), slot, λ db' e' _. ready db' e')

  -- With a host name, on an object that has its slot for a BSD utmp and whose fields are set
  -- where it has a session on record, `login` returns, closes each file that it opens, keeps the
  -- object's descriptors, and leaves an object with the same two properties.
  pub login-LoggedIn :
      (o : Unix) (pid : ℤ) (shell : Bool) (host : Option Bytes) (w : Trace)
      → is_some host ≡ true
      → HasSlot c.utmp_support o
      → IsSound c o
      → Returns (LoggedIn c n w o) (login os c o pid shell host w)
  unfolding login
  login-LoggedIn o pid shell host w h slot sound =
      login_with-LoggedIn c.utmp_support o pid shell host w refl h slot sound

  log_out-IsQuiet :
      (u : Option Database) (o : Unix)
      → c.utmp_support ≡ u
      → IsSound c o
      → IsQuiet n (log_out os c u o)
  unfolding log_out
  log_out-IsQuiet none o e s = IsQuiet-pure tt
  log_out-IsQuiet (some db) o e s =
      IsQuiet-if (is_zero o.cmd_pid) (λ _. IsQuiet-pure tt)
        λ i. log_session-IsQuiet os c n db o false none (s db e i) (λ h. cc)

  -- On an object whose fields are set where it has a session on record, the destructor reads no
  -- null pointer, closes the descriptors that the object holds, no other that was not opened in
  -- between, and resets its fields.
  pub delete_unix-Emptied :
      (conf : TtyConf) (o : Unix) (w : Trace)
      → IsSound c o
      → Returns (Emptied os c conf n o w) (delete_unix os c conf o w)
  unfolding delete_unix
  delete_unix-Emptied conf o w s =
      bind (Quiet n w) (Returns (Emptied os c conf n o w)) (log_out os c c.utmp_support o w) _
        ((log_out-IsQuiet c.utmp_support o refl s).run w)
        λ _ v q.
          mono (Emptied os c conf n o v) (Emptied os c conf n o w) _ (put-Emptied os c conf n o v)
            λ o' u p. (omega (arith, p.0, q), p.1)

-- A client's calls on an object between `get` and its destruction.
pub data Call : Type 0 where
  logs_in : ℤ → Bool → Bytes → Call
  closes_tty : Call
  sets_utf8 : Bool → Call
  takes_control : Call

module _ (os : Os) (c : Config) where
  unfoldable pub call : Call → Unix → M Unix
  call (logs_in pid shell host) o = login os c o pid shell (some host)
  call closes_tty o = close_tty o
  call (sets_utf8 on) o = do set_utf8_mode os c o on; pure o
  call takes_control o = make_controlling_tty os c o >>= λ _. pure o

  unfoldable pub calls : List Call → Unix → M Unix
  calls [] o = pure o
  calls (x ∷ xs) o = call x o >>= calls xs

  -- `new`, `get`, the calls if `get` succeeded, `delete`.
  unfoldable pub life : TtyConf → List Call → M Unix
  life conf xs = do
    (got, o) ← get os c conf new_unix
    o ← (if got then calls xs o else pure o)
    delete_unix os c conf o

pub Outcome-slot :
    (c : Config) (got : Bool) (o : Unix)
    → got ≡ true
    → Outcome c (got, o)
    → HasSlot c.utmp_support o
Outcome-slot c got o g (inl p) = p.2
Outcome-slot c got o g (inr p) = cc (g, p.0)

module _ (os : Os) (c : Config) (n : ℕ) where
  abbrev Sound : Trace → Unix → Unix → Trace → Type 0
  Sound w o o' v = Shifts n (owned n o) w (owned n o') v × IsSound c o'

  call-LoggedIn :
      (x : Call) (o : Unix) (w : Trace)
      → Terminals os
      → HasSlot c.utmp_support o
      → IsSound c o
      → Returns (LoggedIn c n w o) (call os c x o w)
  unfolding call
  call-LoggedIn (logs_in pid shell host) o w t slot sound =
      login-LoggedIn os c n o pid shell (some host) w refl slot sound
  call-LoggedIn closes_tty o w t slot sound =
      mono (Loosened n o w) (LoggedIn c n w o) (close_tty o w) (close_tty-Loosened n o w) λ o' v p.
        let kept = ap (λ (x : Unix). x.utmp_pos) p.2 in
        (p.0, λ e. ap is_some kept ∙ slot e, IsSound-close c o o'.tty o' p.2 sound)
  call-LoggedIn (sets_utf8 on) o w t slot sound =
      bind (Quiet n w) (Returns (LoggedIn c n w o)) (set_utf8_mode os c o on w) _
        ((set_utf8_mode-IsQuiet os c n o on).run w) λ _ v q. (omega (arith, q), slot, sound)
  call-LoggedIn takes_control o w t slot sound =
      bind (Quiet n w) (Returns (LoggedIn c n w o)) (make_controlling_tty os c o w) _
        ((make_controlling_tty-IsQuiet os c n t o).run w) λ _ v q. (omega (arith, q), slot, sound)

  calls-LoggedIn :
      (xs : List Call) (o : Unix) (w : Trace)
      → Terminals os
      → HasSlot c.utmp_support o
      → IsSound c o
      → Returns (LoggedIn c n w o) (calls os c xs o w)
  unfolding calls
  calls-LoggedIn [] o w t slot sound = (refl, slot, sound)
  calls-LoggedIn (x ∷ xs) o w t slot sound =
      bind (LoggedIn c n w o) (Returns (LoggedIn c n w o)) (call os c x o w) _
        (call-LoggedIn x o w t slot sound)
        λ o' v p.
          mono (LoggedIn c n v o') (LoggedIn c n w o) _ (calls-LoggedIn xs o' v t p.1 p.2)
            λ o'' u q. (omega (arith, p.0, q.0), q.1, q.2)

  -- Where ptsname and ttyname give a name, open gives -1 or a descriptor and openpty two
  -- descriptors, the life of an object returns, so it reads no null pointer, whatever the client
  -- calls between `get` and the destructor and in whatever order, a host name given to each
  -- login; each descriptor was closed as often as it was opened.
  pub life-Quiet :
      (conf : TtyConf) (xs : List Call) (w : Trace)
      → Terminals os
      → Returns (Quiet n w) (life os c conf xs w)
  unfolding life new_unix
  life-Quiet conf xs w t =
      bind (Acquired c (pos 0) n 0 w) (Returns (Quiet n w)) (get os c conf new_unix w) _
        (get-Acquired os c conf n new_unix w t (refl, refl))
        λ (got, o) v (held, fresh, outcome).
          let idle : IsSound c o = λ db e i. cc (ap is_zero fresh, i) in
          bind (Sound v o) (Returns (Quiet n w)) ((if got then calls os c xs o else pure o) v) _
            (branch (Returns (Sound v o)) got _ _ v
              (λ g.
                mono (LoggedIn c n v o) (Sound v o) _
                  (calls-LoggedIn xs o v t (Outcome-slot c got o g outcome) idle)
                  λ o' u p. (p.0, p.2))
              (λ _. (refl, idle)))
            λ o' u p.
              mono (Emptied os c conf n o' u) (Quiet n w) _
                (delete_unix-Emptied os c n conf o' u p.1) λ _ _ q. omega (arith, held, p.0, q.0)
