-- ===== src/Session/Restored.antt =====
-- The life of a `ptytty_unix` object (src/ptytty.C, src/logging.C): what it changes of a device's
-- owner and mode.
use libptytty.Base.{
  ℕ, ◌≡◌, refl, ◌∙◌, inl, inr, ℤ, Bool, Bytes, Option, none, some, List, [], ◌∷◌, ◌++◌,
}
use mathlib.Core.List.{append-nil}
use libptytty.Sys.{Os, Event, Trace}
use libptytty.Sys.Notes.{Adds, Notes, Returns-Whenever, seq, silent, done, weaken, test}
use libptytty.Sys.Returns.{Returns}
use libptytty.Config.{Config, Database}
use libptytty.Unix.Mute.{
  device_of, IsMute, mute_rules, set_utf8_mode-IsMute, make_controlling_tty-IsMute,
}
use libptytty.Unix.Ownership.{Terminals}
use libptytty.Unix.Device.{
  IsRestored, IsHeld, IsSame, IsBack, same_rules, close_tty-IsSame, put-IsBack, get-IsHeld,
}
use libptytty.Unix.{Unix, TtyConf, new_unix}
use libptytty.Session.Mute.{log_session-IsMute}
use libptytty.Session.Lifecycle.{
  Call, logs_in, closes_tty, sets_utf8, takes_control, call, calls, life, life-Quiet,
}
use libptytty.Session.{login_with, login, log_out, delete_unix}

module _ (os : Os) (c : Config) where
  login_with-IsSame :
      (u : Option Database) (o : Unix) (pid : ℤ) (shell : Bool) (host : Option Bytes)
      → IsSame o (login_with os c u o pid shell host)
  unfolding login_with
  login_with-IsSame none o pid shell host = search same_rules
  login_with-IsSame (some db) o pid shell host = search (same_rules, log_session-IsMute)

  log_out-IsMute : (u : Option Database) (o : Unix) → IsMute (log_out os c u o)
  unfolding log_out
  log_out-IsMute none o = search mute_rules
  log_out-IsMute (some db) o = search (mute_rules, log_session-IsMute)

  call-IsSame : (x : Call) (o : Unix) → IsSame o (call os c x o)
  unfolding call login
  call-IsSame (logs_in pid shell host) o = login_with-IsSame c.utmp_support o pid shell (some host)
  call-IsSame closes_tty o = close_tty-IsSame o
  call-IsSame (sets_utf8 on) o = search (same_rules, set_utf8_mode-IsMute)
  call-IsSame takes_control o = search (same_rules, make_controlling_tty-IsMute)

  calls-IsSame : (xs : List Call) (o : Unix) → IsSame o (calls os c xs o)
  unfolding calls
  calls-IsSame [] o = done _ o (refl, refl)
  calls-IsSame (x ∷ xs) o =
      seq _ (λ o' o'' y. (y ≡ []) × (o''.name ≡ o'.name)) _ (call-IsSame x o) (calls-IsSame xs)
        λ o' l o'' y (e, n) (e', n'). (rw (e', e) refl, n' ∙ n)

  module _ (conf : TtyConf) (uid : ℕ) where
    delete-IsBack :
        (o : Unix) → Notes device_of (λ _. IsBack os c conf uid o.name) (delete_unix os c conf o)
    unfolding delete_unix
    delete-IsBack o =
        silent (log_out-IsMute c.utmp_support o)
          λ _. weaken (put-IsBack os c conf uid o) λ _ _ h. h.1

    Held-IsRestored :
        (o : Unix) (x y : List Event)
        → IsHeld os c conf uid o x
        → IsBack os c conf uid o.name y
        → IsRestored os c conf uid (y ++ x)
    Held-IsRestored o x y (inl (n, h)) (inl (_, e)) = rw e h
    Held-IsRestored o x y (inl (n, h)) (inr (s, (n', e))) = absurd (cc (n, n'))
    Held-IsRestored o x y (inr (s, (n, g))) (inl (n', e)) = absurd (cc (n, n'))
    Held-IsRestored o x y (inr (s, (n, g))) (inr (s', (n', e))) =
        let same : s' ≡ s = cc (n, n') in inr (s, (x, (rw (e, same) refl, g)))

    life-IsRestored :
        (xs : List Call)
        → ((w : Trace) → os.getuid w ≡ uid)
        → Notes device_of (λ _. IsRestored os c conf uid) (life os c conf xs)
    unfolding life
    life-IsRestored xs user =
        seq (λ r. IsHeld os c conf uid r.1) (λ r _. IsBack os c conf uid r.1.name)
          (λ _. IsRestored os c conf uid) (get-IsHeld os c conf uid new_unix user)
          (λ (got, o).
            seq (λ o' l. (l ≡ []) × (o'.name ≡ o.name)) (λ o' _. IsBack os c conf uid o'.name) _
              (test got (λ _. calls-IsSame xs o) (λ _. done _ o (refl, refl))) delete-IsBack
              λ o' x _ y (e, n) back. rw (e, append-nil y, ← n) back)
          λ (got, o) x _ y. Held-IsRestored o x y

    -- Where ptsname and ttyname give a name, open gives -1 or a descriptor, openpty two
    -- descriptors, and getuid always the id of the user, the life of an object returns, and
    -- either it changes the owner or the mode of no device, or its last two such calls set the
    -- mode of one device to RESTORE_TTY_MODE and give it to root and the group of the terminals;
    -- before these it has none, or, on a build with the loop over BSD names only, those that
    -- gave this same device to the user, once.
    pub life-Restored :
        (xs : List Call) (w : Trace)
        → Terminals os
        → ((v : Trace) → os.getuid v ≡ uid)
        → Returns (Adds device_of (λ _. IsRestored os c conf uid) w) (life os c conf xs w)
    life-Restored xs w t user =
        Returns-Whenever _ (Adds device_of (λ _. IsRestored os c conf uid) w) (life os c conf xs w)
          (life-Quiet os c 0 conf xs w t) ((life-IsRestored xs user).run w)
