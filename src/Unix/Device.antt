-- ===== src/Unix/Device.antt =====
-- `get` and `put` (src/ptytty.C): what they change of a device's owner and mode.
use libptytty.Base.{
  ℕ, ◌≡◌, refl, ap, ◌∙◌, ◌⊎◌, inl, inr, pos, minus_one, Bool, true, false, Bytes, Option,
  Option-cases, none, some, List, [], ◌∷◌, ◌++◌, is_neg, if◌then◌else◌,
}
use mathlib.Core.List.{append-nil}
use libptytty.Sys.{
  Os, Event, Trace, chmodded, chowned, revoked, M, pure, emit, getuid, asked_uid, rdwr_noctty,
  opened, duped, duped_onto, asked_ttyslot, ask, close, ◌>>=◌, ◌>>◌,
}
use libptytty.Sys.Notes.{
  Notes, seq, silent, done, asked, emitted, test, weaken, then_more, then_read, told,
}
use libptytty.Config.{
  Config, Database, utmpx, utmp_pid, utmp_bsd, Backend, unix98, openpty, getpty, bsd,
}
use libptytty.Unix.Mute.{device_of, IsMute, mute_rules, get_pty-IsMute, push_streams-IsMute}
use libptytty.Unix.GetPty.{get_tty}
use libptytty.Unix.{
  Unix, TtyConf, close_tty, restore_name, put, find_slot, finish, own_slave, open_slave, get,
}

-- Nothing is added, and the object keeps its name.
abbrev pub IsSame : Unix → M Unix → Type 0
IsSame o m = Notes device_of (λ o' l. (l ≡ []) × (o'.name ≡ o.name)) m

pub pure-IsSame : (o o' : Unix) → o'.name ≡ o.name → IsSame o (pure o')
pure-IsSame o o' e = done _ o' (refl, e)

pub bind-IsSame :
    {A : Type 0} (o : Unix) {m : M A} {k : A → M Unix}
    → IsMute m
    → ((a : A) → IsSame o (k a))
    → IsSame o (m >>= k)
bind-IsSame o p q = silent p q

pub test-IsSame :
    (o : Unix) (b : Bool) {x y : M Unix} → IsSame o x → IsSame o y → IsSame o (if b then x else y)
test-IsSame o b p q = test b (λ _. p) (λ _. q)

pub ruleset same_rules = (pure-IsSame, bind-IsSame, test-IsSame, mute_rules)

pub close_tty-IsSame : (o : Unix) → IsSame o (close_tty o)
unfolding close_tty device_of
close_tty-IsSame o = search same_rules

close_tty-IsMute : (o : Unix) → IsMute (close_tty o)
close_tty-IsMute o = weaken (close_tty-IsSame o) λ _ _ h. h.0

-- `uid` is the user: the real id of the process.
module _ (os : Os) (c : Config) (conf : TtyConf) (uid : ℕ) where
  -- A device is given to the user, the last call first.
  abbrev pub given : Bytes → ℕ → List Event
  given s u =
      (if c.have_revoke then revoked s ∷ [] else [])
      ++ (chmodded s conf.mode ∷ chowned s u conf.gid ∷ [])

  -- It is given back.
  abbrev pub restored : Bytes → List Event
  restored s = chowned s 0 conf.gid ∷ chmodded s c.restore_mode ∷ []

  -- A device is given to the user if the build has the loop over BSD names.
  abbrev pub IsGiven : Bytes → List Event → Type 0
  IsGiven s l = (l ≡ []) ⊎ ((c.backend ≡ bsd) × (l ≡ given s uid))

  -- What was given is given back.
  abbrev pub IsRestored : List Event → Type 0
  IsRestored l =
      (l ≡ []) ⊎ ((s : Bytes) × ((m : List Event) × ((l ≡ restored s ++ m) × IsGiven s m)))

  -- What was given is of the object's name, or was given back and the object has no name.
  abbrev pub IsHeld : Unix → List Event → Type 0
  IsHeld o l = ((o.name ≡ none) × IsRestored l) ⊎ ((s : Bytes) × ((o.name ≡ some s) × IsGiven s l))

  -- The device of a name is given back.
  abbrev pub IsBack : Option Bytes → List Event → Type 0
  IsBack name l = ((name ≡ none) × (l ≡ [])) ⊎ ((s : Bytes) × ((name ≡ some s) × (l ≡ restored s)))

  own_slave-IsGiven :
      (s : Bytes)
      → ((w : Trace) → os.getuid w ≡ uid)
      → Notes device_of (λ _. IsGiven s) (own_slave os c conf s)
  unfolding own_slave device_of
  own_slave-IsGiven s user = by_backend c.backend refl
    where
      revoke :
          (u : ℕ)
          → Notes device_of
              (λ _ y.
                ((y ++ (chmodded s conf.mode ∷ [])) ++ (chowned s u conf.gid ∷ [])) ≡ given s u)
              (if c.have_revoke then emit (revoked s) else pure tt)
      revoke u =
          test c.have_revoke (λ h. weaken (emitted (revoked s)) λ _ y e. rw (e, h) refl)
            (λ h. done _ tt (rw h refl))

      by_backend :
          (b : Backend)
          → c.backend ≡ b
          → Notes device_of
              (λ _. IsGiven s)
              (elim b [
                | bsd ↦ do
                  uid ← getuid os
                  emit (chowned s uid conf.gid)
                  emit (chmodded s conf.mode)
                  if c.have_revoke then emit (revoked s) else pure tt
                | _ ↦ pure tt
              ])
      by_backend bsd e =
          seq (λ u l. (l ≡ []) × (u ≡ uid)) (λ u _ y. y ≡ given s u) (λ _. IsGiven s)
            (told os.getuid asked_uid uid user λ u. refl)
            (λ u. then_more (chowned s u conf.gid) (then_more (chmodded s conf.mode) (revoke u)))
            λ u x _ y (e', same) given_u. inr (e, rw (e', append-nil y, ← same) given_u)
      by_backend (unix98 m) e = done _ tt (inl refl)
      by_backend openpty e = done _ tt (inl refl)
      by_backend getpty e = done _ tt (inl refl)

  find_slot-IsSame : (o : Unix) → IsSame o (find_slot os c conf o)
  unfolding find_slot device_of
  find_slot-IsSame o = by_database c.utmp_support
    where
      by_database :
          (u : Option Database)
          → IsSame o (elim u [
            | some utmp_bsd ↦ do
              fd_stdin ← ask (λ w. os.dup w (pos 0)) (duped (pos 0))
              emit (duped_onto o.tty (pos 0))
              slot ← ask os.ttyslot asked_ttyslot
              emit (duped_onto fd_stdin (pos 0))
              close fd_stdin
              pure (record o { utmp_pos = some slot })
            | _ ↦ pure o
          ])
      by_database none = search same_rules
      by_database (some utmpx) = search same_rules
      by_database (some utmp_pid) = search same_rules
      by_database (some utmp_bsd) = search same_rules depth 12

  finish-IsSame :
      (o : Unix) → Notes device_of (λ r l. (l ≡ []) × (r.1.name ≡ o.name)) (finish os c conf o)
  unfolding finish
  finish-IsSame o = silent (push_streams-IsMute os c conf o.tty) λ _.
      seq _ (λ o' r y. (y ≡ []) × (r.1.name ≡ o'.name)) _ (find_slot-IsSame o)
        (λ o'. done _ (true, o') (refl, refl)) λ o' x r y (e, n) (e', n'). (rw (e', e) refl, n' ∙ n)

  restore_name-Restored :
      (name : Option Bytes) → Notes device_of (λ _ l. IsBack name l) (restore_name os c conf name)
  unfolding restore_name device_of
  restore_name-Restored none = done _ tt (inl (refl, refl))
  restore_name-Restored (some s) =
      then_more (chmodded s c.restore_mode)
        (weaken (emitted (chowned s 0 conf.gid)) λ _ y e. inr (s, (refl, rw e refl)))

  pub put-IsBack :
      (o : Unix) → Notes device_of (λ o' l. (o'.name ≡ none) × IsBack o.name l) (put os c conf o)
  unfolding put device_of
  put-IsBack o =
      seq (λ _. IsBack o.name) (λ _ o' y. (y ≡ []) × (o'.name ≡ none)) _
        (restore_name-Restored o.name) (λ _. rest) λ _ x o' y back (e, n). (n, rw e back)
    where
      shut :
          IsSame
            (record o { name = none })
            (do
              o' ← close_tty o
              if is_neg o'.pty then pure tt else close o'.pty
              pure (record o' { pty = minus_one; tty = minus_one; name = none }))
      shut = search (same_rules, close_tty-IsMute) depth 10

      rest :
          Notes device_of
            (λ o' y. (y ≡ []) × (o'.name ≡ none))
            (do
              o' ← close_tty o
              if is_neg o'.pty then pure tt else close o'.pty
              pure (record o' { pty = minus_one; tty = minus_one; name = none }))
      rest = shut

  IsHeld-none : (o : Unix) (l : List Event) → l ≡ [] → IsHeld o l
  IsHeld-none o l e = elim (Option-cases o.name) [
    | inl n ↦ inl (n, inl e)
    | inr (s, n) ↦ inr (s, (n, inl e))
  ]

  finish-IsHeld : (o : Unix) → Notes device_of (λ r. IsHeld r.1) (finish os c conf o)
  finish-IsHeld o = weaken (finish-IsSame o) λ r l (e, _). IsHeld-none r.1 l e

  -- What `open_slave` adds behind the change of ownership.
  abbrev Left : Bytes → Bool × Unix → List Event → Type 0
  Left s r y = ((r.1.name ≡ none) × (y ≡ restored s)) ⊎ ((r.1.name ≡ some s) × (y ≡ []))

  Left-IsHeld :
      (s : Bytes) (r : Bool × Unix) (x y : List Event)
      → IsGiven s x
      → Left s r y
      → IsHeld r.1 (y ++ x)
  Left-IsHeld s r x y g (inl (n, e)) = inl (n, inr (s, (x, (rw e refl, g))))
  Left-IsHeld s r x y g (inr (n, e)) = inr (s, (n, rw e g))

  IsBack-some :
      (name : Option Bytes) (s : Bytes) (l : List Event)
      → name ≡ some s
      → IsBack name l
      → l ≡ restored s
  IsBack-some name s l e (inl (n, _)) = absurd (cc (e, n))
  IsBack-some name s l e (inr (s', (n, q))) = let same : s' ≡ s = cc (e, n) in q ∙ ap restored same

  put-Left :
      (o : Unix) (s : Bytes)
      → o.name ≡ some s
      → Notes device_of (Left s) (do o' ← put os c conf o; pure (false, o'))
  put-Left o s named =
      seq _ (λ o' r y. (y ≡ []) × (r.1.name ≡ o'.name)) (Left s) (put-IsBack o)
        (λ o'. done _ (false, o') (refl, refl))
        λ o' x r y (n, back) (e, n'). inl (n' ∙ n, rw e (IsBack-some o.name s x named back))

  finish-Left :
      (o : Unix) (s : Bytes) → o.name ≡ some s → Notes device_of (Left s) (finish os c conf o)
  finish-Left o s named = weaken (finish-IsSame o) λ r y (e, n). inr (n ∙ named, e)

  open_slave-IsHeld :
      (o : Unix)
      → ((w : Trace) → os.getuid w ≡ uid)
      → Notes device_of (λ r. IsHeld r.1) (open_slave os c conf o)
  unfolding open_slave get_tty device_of
  open_slave-IsHeld o user = then_read o.name λ s named.
      seq (λ _. IsGiven s) (λ _. Left s) (λ r. IsHeld r.1) (own_slave-IsGiven s user)
        (λ _.
          silent (asked (λ w. os.open_file w s rdwr_noctty) (opened s rdwr_noctty) λ fd. refl)
            λ tty.
              test (is_neg tty) (λ _. put-Left (record o { tty = tty }) s named)
                (λ _. finish-Left (record o { tty = tty }) s named))
        λ _ x r y. Left-IsHeld s r x y

  pub get-IsHeld :
      (o : Unix)
      → ((w : Trace) → os.getuid w ≡ uid)
      → Notes device_of (λ r. IsHeld r.1) (get os c conf o)
  unfolding get
  get-IsHeld o user = silent (get_pty-IsMute os c.backend o.tty o.name) λ (pty, tty, name).
      let o' = record o { pty = pty; tty = tty; name = name } in
      test (is_neg pty) (λ _. done (λ r. IsHeld r.1) (false, o') (IsHeld-none o' [] refl))
        λ _. test (is_neg tty) (λ _. open_slave-IsHeld o' user) (λ _. finish-IsHeld o')
