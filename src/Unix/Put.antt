-- ===== src/Unix/Put.antt =====
-- `ptytty_unix::put` and `ptytty::close_tty` (src/ptytty.C), and runs that change no descriptor.
use libptytty.Base.{
  ℕ, ◌+◌, ◌≡◌, refl, ap, inl, inr, true, false, if◌then◌else◌, Bytes, Option, none, some, arith,
  is_neg, is_some, minus_one, Bool-cases,
}
use libptytty.Sys.{Os, Trace, and_then, pure, ◌>>◌, close}
use libptytty.Sys.Balance.{hits, hits_neg, gained, lost, opens, closes, Shifts, Quiet}
use libptytty.Sys.Returns.{Returns, bind, branch}
use libptytty.Config.{Config, Database, utmp_bsd}
use libptytty.Unix.{Unix, TtyConf, close_tty, restore_name, put}

-- The descriptors of an object.
abbrev pub owned : ℕ → Unix → ℕ
owned n o = hits n o.pty + hits n o.tty

abbrev pub IsShut : Unix → Type 0
IsShut o = (is_neg o.pty ≡ true) × (is_neg o.tty ≡ true)

abbrev pub IsOpen : Unix → Type 0
IsOpen o = (is_neg o.pty ≡ false) × (is_neg o.tty ≡ false) × ((s : Bytes) × (o.name ≡ some s))

-- The slot in a BSD utmp file is known.
abbrev pub HasSlot : Option Database → Unix → Type 0
HasSlot u o = u ≡ some utmp_bsd → is_some o.utmp_pos ≡ true

-- The slave is given back, and nothing else of the object changes.
abbrev pub Loosened : ℕ → Unix → Trace → Unix → Trace → Type 0
Loosened n o w o' v =
    Shifts n (owned n o) w (owned n o') v
    × (is_neg o'.tty ≡ true)
    × (o' ≡ record o { tty = o'.tty })

pub close_tty-Loosened : (n : ℕ) (o : Unix) (w : Trace) → Returns (Loosened n o w) (close_tty o w)
unfolding close_tty opens closes gained lost
close_tty-Loosened n o w = elim (Bool-cases (is_neg o.tty)) [
  | inl e ↦ rw e (omega arith, e, refl)
  | inr e ↦ rw e (omega (arith, hits_neg n minus_one refl), refl, refl)
]

module _ (os : Os) (c : Config) (conf : TtyConf) (n : ℕ) where
  pub restore_name-Quiet :
      (name : Option Bytes) (w : Trace) → Returns (Quiet n w) (restore_name os c conf name w)
  unfolding restore_name opens closes gained lost
  restore_name-Quiet none w = omega arith
  restore_name-Quiet (some s) w = omega arith

  -- All descriptors of `o` are given back, and its fields are reset.
  abbrev pub Emptied : Unix → Trace → Unix → Trace → Type 0
  Emptied o w o' v =
      Shifts n (owned n o) w 0 v × (o' ≡ record o { pty = minus_one; tty = minus_one; name = none })

  pub close_pty-Emptied :
      (o o' : Unix) (w v : Trace)
      → Shifts n (owned n o) w (hits n o.pty) v
      → o' ≡ record o { tty = o'.tty }
      → Returns (Emptied o w) (
          ((if is_neg o'.pty then pure tt else close o'.pty)
              >> pure (record o' { pty = minus_one; tty = minus_one; name = none }))
            v)
  unfolding opens closes gained lost
  close_pty-Emptied o o' w v p e =
      let same : o'.pty ≡ o.pty = ap (λ (x : Unix). x.pty) e in
      let reset = ap (λ (x : Unix). record x { pty = minus_one; tty = minus_one; name = none }) e in
      branch
        (λ r.
          Returns (Emptied o w)
            (and_then r (λ _. pure (record o' { pty = minus_one; tty = minus_one; name = none }))))
        (is_neg o'.pty) (pure tt) (close o'.pty) v
        (λ h. (omega (arith, p, ap (hits n) same, hits_neg n o'.pty h), reset))
        (λ h. (omega (arith, p, ap (hits n) same), reset))

  pub put-Emptied : (o : Unix) (w : Trace) → Returns (Emptied o w) (put os c conf o w)
  unfolding put
  put-Emptied o w =
      bind (Quiet n w) (Returns (Emptied o w)) (restore_name os c conf o.name w) _
        (restore_name-Quiet o.name w)
        λ _ v q.
          bind (Loosened n o v) (Returns (Emptied o w)) (close_tty o v) _ (close_tty-Loosened n o v)
            λ o' u p.
              close_pty-Emptied o o' w u
                (omega (arith, p.0, hits_neg n o'.tty p.1, ap (λ (x : Unix). hits n x.pty) p.2)) p.2
