-- ===== src/Unix/Mute.antt =====
-- The calls of src/ptytty.C that change the owner or the mode of a device, and its functions that
-- make none.
use libptytty.Base.{
  ℕ, zero, suc, ◌+◌, ◌≡◌, refl, ◌∙◌, ℤ, Bool, Bytes, Option, none, some, List, [], ◌∷◌, minus_one,
  if◌then◌else◌,
}
use libptytty.Sys.{
  Os, Event, MasterCall, chmodded, chowned, revoked, opened_pair, opened_slave, ttyname, M, pure,
  emit, ask, deref, ◌>>=◌,
}
use libptytty.Sys.Notes.{Notes, Nothing, silent, done, asked, emitted, read, test, weaken}
use libptytty.Config.{Config, Backend, unix98, openpty, getpty, bsd}
use libptytty.Unix.GetPty.{
  Got, get_pty, get_pty_unix98, get_pty_openpty, get_pty_getpty, get_pty_bsd, check_tty,
}
use libptytty.Unix.{
  Unix, TtyConf, attach_session, control_tty, make_controlling_tty, write_utf8_flag,
  change_utf8_flag, set_utf8_bit, set_utf8_mode, push_module, push_modules, push_streams,
}

unfoldable pub device_of : Event → List Event
device_of (chowned s u g) = chowned s u g ∷ []
device_of (chmodded s m) = chmodded s m ∷ []
device_of (revoked s) = revoked s ∷ []
device_of _ = []

abbrev pub IsMute : {A : Type 0} → M A → Type 0
IsMute m = Notes device_of Nothing m

pub pure-IsMute : {A : Type 0} (a : A) → IsMute (pure a)
pure-IsMute a = done Nothing a refl

pub bind-IsMute :
    {A B : Type 0} {m : M A} {k : A → M B} → IsMute m → ((a : A) → IsMute (k a)) → IsMute (m >>= k)
bind-IsMute p q = silent p q

pub ask-IsMute :
    {A : Type 0} (g : _ → A) (e : A → Event) → ((a : A) → device_of (e a) ≡ []) → IsMute (ask g e)
ask-IsMute g e h = asked g e h

pub emit-IsMute : (e : Event) → device_of e ≡ [] → IsMute (emit e)
emit-IsMute e h = weaken (emitted e) λ _ l p. p ∙ h

pub read-IsMute : {A : Type 0} (x : Option A) → IsMute (deref x)
read-IsMute x = read x

pub test-IsMute :
    {A : Type 0} (b : Bool) {x y : M A} → IsMute x → IsMute y → IsMute (if b then x else y)
test-IsMute b p q = test b (λ _. p) (λ _. q)

pub ruleset mute_rules =
    (pure-IsMute, bind-IsMute, ask-IsMute, emit-IsMute, read-IsMute, test-IsMute)

module _ (os : Os) where
  get_pty_unix98-IsMute :
      (m : MasterCall) (tty : ℤ) (dev : Option Bytes) → IsMute (get_pty_unix98 os m tty dev)
  unfolding get_pty_unix98 device_of
  get_pty_unix98-IsMute m tty dev = search mute_rules depth 10

  get_pty_openpty-IsMute : (tty : ℤ) (dev : Option Bytes) → IsMute (get_pty_openpty os tty dev)
  unfolding get_pty_openpty device_of
  get_pty_openpty-IsMute tty dev = silent (asked os.open_pair opened_pair λ r. refl) got
    where
      got :
          (res : Option (ℤ × ℤ))
          → IsMute {A = Got} (elim res [
            | none ↦ pure (minus_one, tty, dev)
            | some (pfd, slave) ↦ do
              name ← ttyname os slave
              s ← deref name
              pure (pfd, slave, some s)
          ])
      got none = search mute_rules
      got (some (pfd, slave)) = search mute_rules

  get_pty_getpty-IsMute : (tty : ℤ) (dev : Option Bytes) → IsMute (get_pty_getpty os tty dev)
  unfolding get_pty_getpty device_of
  get_pty_getpty-IsMute tty dev = silent (asked os.open_slave opened_slave λ r. refl) got
    where
      got :
          (res : Option (ℤ × Bytes))
          → IsMute {A = Got} (elim res [
            | none ↦ pure (minus_one, tty, dev)
            | some (pfd, slave) ↦ pure (pfd, tty, some slave)
          ])
      got none = search mute_rules
      got (some (pfd, slave)) = search mute_rules

  check_tty-IsMute :
      (pfd : ℤ) (name : Bytes) (tty : ℤ) (next : M Got)
      → IsMute next
      → IsMute (check_tty os pfd name tty next)
  unfolding check_tty device_of
  check_tty-IsMute pfd name tty next h = search mute_rules

  get_pty_bsd-IsMute :
      (n i : ℕ) (tty : ℤ) (dev : Option Bytes) → IsMute (get_pty_bsd os n i tty dev)
  unfolding get_pty_bsd device_of
  get_pty_bsd-IsMute zero i tty dev = search mute_rules
  get_pty_bsd-IsMute (suc n) i tty dev =
      let rest = get_pty_bsd-IsMute n (i + 1) tty dev in search (mute_rules, check_tty-IsMute)

  pub get_pty-IsMute : (b : Backend) (tty : ℤ) (dev : Option Bytes) → IsMute (get_pty os b tty dev)
  unfolding get_pty
  get_pty-IsMute (unix98 m) tty dev = get_pty_unix98-IsMute m tty dev
  get_pty-IsMute openpty tty dev = get_pty_openpty-IsMute tty dev
  get_pty-IsMute getpty tty dev = get_pty_getpty-IsMute tty dev
  get_pty-IsMute bsd tty dev = get_pty_bsd-IsMute 256 0 tty dev

module _ (os : Os) (c : Config) where
  attach_session-IsMute : (fd : ℤ) → IsMute (attach_session os c fd)
  unfolding attach_session device_of
  attach_session-IsMute fd = search mute_rules depth 10

  pub make_controlling_tty-IsMute : (o : Unix) → IsMute (make_controlling_tty os c o)
  unfolding make_controlling_tty control_tty device_of
  make_controlling_tty-IsMute o = search (mute_rules, attach_session-IsMute) depth 10

  write_utf8_flag-IsMute :
      (pty : ℤ) (on : Bool) (k flags : ℕ) → IsMute (write_utf8_flag os c pty on k flags)
  unfolding write_utf8_flag device_of
  write_utf8_flag-IsMute pty on k flags = search mute_rules

  change_utf8_flag-IsMute :
      (pty : ℤ) (on : Bool) (k : ℕ) (attr : Option ℕ) → IsMute (change_utf8_flag os c pty on k attr)
  unfolding change_utf8_flag
  change_utf8_flag-IsMute pty on k none = search mute_rules
  change_utf8_flag-IsMute pty on k (some flags) = write_utf8_flag-IsMute pty on k flags

  set_utf8_bit-IsMute : (u : Option ℕ) (pty : ℤ) (on : Bool) → IsMute (set_utf8_bit os c u pty on)
  unfolding set_utf8_bit device_of
  set_utf8_bit-IsMute none pty on = search mute_rules
  set_utf8_bit-IsMute (some k) pty on = search (mute_rules, change_utf8_flag-IsMute)

  pub set_utf8_mode-IsMute : (o : Unix) (on : Bool) → IsMute (set_utf8_mode os c o on)
  unfolding set_utf8_mode
  set_utf8_mode-IsMute o on = set_utf8_bit-IsMute c.iutf8 o.pty on

  module _ (conf : TtyConf) where
    push_module-IsMute : (tty : ℤ) (m : Bytes) → IsMute (push_module os c conf tty m)
    unfolding push_module device_of
    push_module-IsMute tty m = search mute_rules

    push_modules-IsMute : (tty : ℤ) → IsMute (push_modules os c conf tty)
    unfolding push_modules
    push_modules-IsMute tty = search (mute_rules, push_module-IsMute)

    pub push_streams-IsMute : (tty : ℤ) → IsMute (push_streams os c conf tty)
    unfolding push_streams device_of
    push_streams-IsMute tty = search (mute_rules, push_modules-IsMute)
