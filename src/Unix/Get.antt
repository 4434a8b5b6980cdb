-- ===== src/Unix/Get.antt =====
-- `ptytty_unix::get` (src/ptytty.C): what an object holds after it.
use libptytty.Base.{
  ℕ, ◌≡◌, refl, ap, ◌∙◌, ◌⊎◌, eqz, inl, inr, ℤ, pos, Bool, true, false, not, Bytes, Option, none,
  some, ◌∷◌, arith, is_neg,
}
use libptytty.Sys.{Os, deref, ◌>>=◌, opened, rdwr_noctty, Trace, Run, pure, asked_stream}
use libptytty.Sys.Balance.{hits, hits_neg, gained, lost, opens, closes, Shifts, Quiet}
use libptytty.Sys.Quiet.{Quiet-bind}
use libptytty.Sys.Returns.{Returns, mono, bind, branch}
use libptytty.Config.{Config, Database, utmpx, utmp_pid, utmp_bsd}
use libptytty.Unix.GetPty.{get_pty, get_tty}
use libptytty.Unix.Ownership.{Terminals, Fetched, Kinds, get_pty-Fetched}
use libptytty.Unix.{
  Unix, TtyConf, put, push_module, push_modules, push_streams, find_slot, finish, own_slave,
  open_slave, get,
}
use libptytty.Unix.Put.{owned, IsShut, IsOpen, HasSlot, Emptied, put-Emptied}

module _ (os : Os) (c : Config) (conf : TtyConf) (n : ℕ) where
  push_module-Quiet :
      (tty : ℤ) (m : Bytes) (w : Trace) → Returns (Quiet n w) (push_module os c conf tty m w)
  unfolding push_module opens closes gained lost
  push_module-Quiet tty m w = ground arith

  push_modules-Quiet : (tty : ℤ) (w : Trace) → Returns (Quiet n w) (push_modules os c conf tty w)
  unfolding push_modules
  push_modules-Quiet tty w =
      Quiet-bind n w _ _ (push_module-Quiet tty _ w)
        λ _ v. Quiet-bind n v _ _ (push_module-Quiet tty _ v) λ _ u. push_module-Quiet tty _ u

  push_streams-Quiet : (tty : ℤ) (w : Trace) → Returns (Quiet n w) (push_streams os c conf tty w)
  unfolding push_streams opens closes gained lost
  push_streams-Quiet tty w =
      branch (Returns (Quiet n w)) (not c.i_push) _ _ w (λ _. refl)
        λ _.
          branch (Returns (Quiet n w)) c.have_isastream _ _ w
            (λ _.
              let v = asked_stream tty (os.isastream w tty) ∷ w in
              branch (Returns (Quiet n w)) (eqz (os.isastream w tty) (pos 1)) _ _ v
                (λ _.
                  mono (Quiet n v) (Quiet n w) (push_modules os c conf tty v)
                    (push_modules-Quiet tty v) λ _ _ p. omega (arith, p))
                (λ _. omega arith))
            (λ _. push_modules-Quiet tty w)

  -- `find_slot` fills in `utmp_pos` and nothing else.
  abbrev Slotted : Option Database → Unix → Trace → Unix → Trace → Type 0
  Slotted u o w o' v = Shifts n 0 w 0 v × (o' ≡ record o { utmp_pos = o'.utmp_pos }) × HasSlot u o'

  find_slot-Slotted :
      (o : Unix) (w : Trace) → Returns (Slotted c.utmp_support o w) (find_slot os c conf o w)
  unfolding find_slot opens closes gained lost
  find_slot-Slotted o w = find_slot_in c.utmp_support
    where
      find_slot_in :
          (u : Option Database)
          → Returns (Slotted u o w) (find_slot os (record c { utmp_support = u }) conf o w)
      find_slot_in none = (refl, refl, λ e. cc)
      find_slot_in (some utmpx) = (refl, refl, λ e. cc)
      find_slot_in (some utmp_pid) = (refl, refl, λ e. cc)
      find_slot_in (some utmp_bsd) = (omega arith, refl, λ e. refl)

  abbrev Finished : Unix → Trace → (Bool × Unix) → Trace → Type 0
  Finished o w (b, o') v = (b ≡ true) × Slotted c.utmp_support o w o' v

  finish-Finished : (o : Unix) (w : Trace) → Returns (Finished o w) (finish os c conf o w)
  unfolding finish opens closes gained lost
  finish-Finished o w =
      bind (Quiet n w) (Returns (Finished o w)) (push_streams os c conf o.tty w) _
        (push_streams-Quiet o.tty w)
        λ _ v q.
          bind (Slotted c.utmp_support o v) (Returns (Finished o w)) (find_slot os c conf o v) _
            (find_slot-Slotted o v) λ o' u p. (refl, (omega (arith, p.0), p.1, p.2))

  own_slave-Quiet : (s : Bytes) (w : Trace) → Returns (Quiet n w) (own_slave os c conf s w)
  unfolding own_slave opens closes gained lost
  own_slave-Quiet s w = ground arith

-- What `get` promises: both descriptors, a name and what a logout reads, or no descriptor at all.
abbrev pub Outcome : Config → Bool × Unix → Type 0
Outcome c (b, o) = ((b ≡ true) × IsOpen o × HasSlot c.utmp_support o) ⊎ ((b ≡ false) × IsShut o)

Kinds-shut :
    (pty tty : ℤ) (name : Option Bytes)
    → Kinds (pty, tty, name)
    → is_neg pty ≡ true
    → is_neg tty ≡ true
Kinds-shut pty tty name (inl k) h = k.1
Kinds-shut pty tty name (inr k) h = cc

Kinds-named :
    (pty tty : ℤ) (name : Option Bytes)
    → Kinds (pty, tty, name)
    → is_neg pty ≡ false
    → (s : Bytes) × (name ≡ some s)
Kinds-named pty tty name (inl k) h = cc
Kinds-named pty tty name (inr k) h = k.1

-- From `a` descriptors in hand at `w`; no session is logged.
abbrev pub Acquired : Config → ℤ → ℕ → ℕ → Trace → Bool × Unix → Trace → Type 0
Acquired c pid n a w (b, o) v = Shifts n a w (owned n o) v × (o.cmd_pid ≡ pid) × Outcome c (b, o)

regrow :
    (c : Config) (pid : ℤ) (n a b : ℕ) (w u : Trace) (r : Run (Bool × Unix))
    → Shifts n a w b u
    → Returns (Acquired c pid n b u) r
    → Returns (Acquired c pid n a w) r
regrow c pid n a b w u r e h =
    mono (Acquired c pid n b u) (Acquired c pid n a w) r h
      λ x t p. (omega (arith, e, p.0), p.1, p.2)

module _ (os : Os) (c : Config) (conf : TtyConf) (n : ℕ) where
  finish-Acquired :
      (o : Unix) (w : Trace)
      → IsOpen o
      → Returns (Acquired c o.cmd_pid n (owned n o) w) (finish os c conf o w)
  finish-Acquired o w (pty, tty, name) =
      mono (Finished os c conf n o w) (Acquired c o.cmd_pid n (owned n o) w) (finish os c conf o w)
        (finish-Finished os c conf n o w)
        λ (b, o') v (done, (quiet, same, slot)).
          let p = ap (λ (x : Unix). x.pty) same in
          let t = ap (λ (x : Unix). x.tty) same in
          let m = ap (λ (x : Unix). x.name) same in
          (
            omega (arith, quiet, ap (hits n) p, ap (hits n) t),
            ap (λ (x : Unix). x.cmd_pid) same,
            inl (done, (ap is_neg p ∙ pty, ap is_neg t ∙ tty, (name.0, m ∙ name.1)), slot),
          )

  put-Acquired :
      (o : Unix) (w : Trace)
      → Returns
          (Acquired c o.cmd_pid n (owned n o) w)
          ((put os c conf o >>= λ o'. pure (false, o')) w)
  put-Acquired o w =
      bind (Emptied os c conf n o w) (Returns (Acquired c o.cmd_pid n (owned n o) w))
        (put os c conf o w) _ (put-Emptied os c conf n o w)
        λ o' v p.
          let pty = ap (λ (x : Unix). x.pty) p.1 in
          let tty = ap (λ (x : Unix). x.tty) p.1 in
          (
            omega
                (arith, p.0, hits_neg n o'.pty (ap is_neg pty), hits_neg n o'.tty (ap is_neg tty)),
            ap (λ (x : Unix). x.cmd_pid) p.1,
            inr (refl, (ap is_neg pty, ap is_neg tty)),
          )

  deref-Quiet :
      (name : Option Bytes) (s : Bytes) (w : Trace)
      → name ≡ some s
      → Returns (Quiet n w) (deref name w)
  deref-Quiet name s w e = rw e refl

  open_slave-Acquired :
      (o : Unix) (s : Bytes) (w : Trace)
      → is_neg o.pty ≡ false
      → o.name ≡ some s
      → Returns (Acquired c o.cmd_pid n (hits n o.pty) w) (open_slave os c conf o w)
  unfolding open_slave get_tty opens closes gained lost
  open_slave-Acquired o s w pty name =
      let Goal : Run (Bool × Unix) → Type 0 = Returns (Acquired c o.cmd_pid n (hits n o.pty) w) in
      bind (Quiet n w) Goal (deref o.name w) _ (deref-Quiet o.name s w name) λ a w' q'.
        bind (Quiet n w') Goal (own_slave os c conf a w') _ (own_slave-Quiet os c conf n a w')
          λ _ v q.
            let tty = os.open_file v a rdwr_noctty in
            let o' = record o { tty = tty } in
            let u = opened a rdwr_noctty tty ∷ v in
            branch Goal (is_neg tty) _ _ u
              (λ h.
                regrow c o.cmd_pid n (hits n o.pty) (owned n o') w u _ (omega (arith, q, q'))
                  (put-Acquired o' u))
              (λ h.
                regrow c o.cmd_pid n (hits n o.pty) (owned n o') w u _ (omega (arith, q, q'))
                  (finish-Acquired o' u (pty, h, (s, name))))

  -- Where ptsname and ttyname give a name, open gives -1 or a descriptor and openpty two
  -- descriptors, and the object holds no descriptor, `get` returns: either `true` with both
  -- descriptors, a name and, for a BSD utmp, a slot, or `false` with no descriptor. The object
  -- holds exactly the descriptors opened and not closed, and `cmd_pid` stays as it was.
  pub get-Acquired :
      (o : Unix) (w : Trace)
      → Terminals os
      → IsShut o
      → Returns (Acquired c o.cmd_pid n 0 w) (get os c conf o w)
  unfolding get
  get-Acquired o w t shut =
      bind (Fetched n w) (Returns (Acquired c o.cmd_pid n 0 w))
        (get_pty os c.backend o.tty o.name w) _
        (get_pty-Fetched os t n o.tty shut.1 c.backend o.name w)
        λ (pty, tty, name) v p.
          let o' = record o { pty = pty; tty = tty; name = name } in
          branch (Returns (Acquired c o.cmd_pid n 0 w)) (is_neg pty) _ _ v
            (λ h. (omega (arith, p.0), refl, inr (refl, (h, Kinds-shut pty tty name p.1 h))))
            (λ h.
              let (s, named) = Kinds-named pty tty name p.1 h in
              branch (Returns (Acquired c o.cmd_pid n 0 w)) (is_neg tty) _ _ v
                (λ h'.
                  regrow c o.cmd_pid n 0 (hits n pty) w v _ (omega (arith, p.0, hits_neg n tty h'))
                    (open_slave-Acquired o' s v h named))
                (λ h'.
                  regrow c o.cmd_pid n 0 (owned n o') w v _ p.0
                    (finish-Acquired o' v (h, h', (s, named)))))
