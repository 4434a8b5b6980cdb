-- ===== src/Unix/Terminal.antt =====
-- `ptytty::make_controlling_tty` and `ptytty::set_utf8_mode` (src/ptytty.C).
use libptytty.Base.{
  ℕ, codes, minus_one, refl, ℤ, pos, Bool, Bytes, Option, none, some, ◌∷◌, arith, is_neg,
  if◌then◌else◌,
}
use libptytty.Sys.{
  Os, OpenMode, M, pure, ◌>>=◌, ◌>>◌, deref, close, open_file, ttyname, opened, asked_ttyname,
  new_session, set_ctty, got_attr, set_attr, wronly, rdwr,
}
use libptytty.Sys.Balance.{hits_neg, gained, lost, opens, closes, Quiet}
use libptytty.Sys.Returns.{Returns, mono, branch}
use libptytty.Sys.Quiet.{IsQuiet, seq, IsQuiet-pure, IsQuiet-emit, IsQuiet-ask, IsQuiet-if}
use libptytty.Config.{Config}
use libptytty.Unix.Ownership.{Terminals}
use libptytty.Unix.{
  Unix, set_bit, clear_bit, attach_session, control_tty, make_controlling_tty, write_utf8_flag,
  change_utf8_flag, set_utf8_bit, set_utf8_mode,
}

-- A file that is opened and closed at once.
IsQuiet-touch :
    {B : Type 0} {n : ℕ} (os : Os) (s : Bytes) (m : OpenMode) (a b : B)
    → IsQuiet n (open_file os s m >>= λ fd. if is_neg fd then pure a else (close fd >> pure b))
unfolding opens closes gained lost
IsQuiet-touch {n} os s m a b = record {
  run = λ w.
      let fd = os.open_file w s m in
      branch (Returns (Quiet n w)) (is_neg fd) _ _ (opened s m fd ∷ w)
        (λ e. omega (arith, hits_neg n fd e)) (λ _. omega arith);
}

IsQuiet-ttyname :
    {B : Type 0} {n : ℕ} {os : Os} (t : Terminals os) (fd : ℤ) {k : Bytes → M B}
    → ((s : Bytes) → IsQuiet n (k s))
    → IsQuiet n (ttyname os fd >>= λ name. deref name >>= k)
unfolding opens closes gained lost
IsQuiet-ttyname {n} {os} t fd {k} h = record {
  run = λ w.
      let (s, e) = t.ttyname_known w fd in
      rw e (
        let v = asked_ttyname fd (some s) ∷ w in
        mono (Quiet n v) (Quiet n w) (k s v) ((h s).run v) λ _ _ p. omega (arith, p));
}

module _ (os : Os) (c : Config) (n : ℕ) where
  write_utf8_flag-IsQuiet :
      (pty : ℤ) (on : Bool) (k flags : ℕ) → IsQuiet n (write_utf8_flag os c pty on k flags)
  unfolding write_utf8_flag gained lost
  write_utf8_flag-IsQuiet pty on k flags =
      IsQuiet-if _ (λ _. IsQuiet-pure tt)
        (λ _. IsQuiet-emit (set_attr pty (if on then set_bit k flags else clear_bit k flags)) refl)

  pub set_utf8_bit-IsQuiet :
      (u : Option ℕ) (pty : ℤ) (on : Bool) → IsQuiet n (set_utf8_bit os c u pty on)
  unfolding set_utf8_bit change_utf8_flag gained lost
  set_utf8_bit-IsQuiet none pty on = IsQuiet-pure tt
  set_utf8_bit-IsQuiet (some k) pty on =
      IsQuiet-if (is_neg pty) (λ _. IsQuiet-pure tt)
        λ _. seq (IsQuiet-ask (λ w. os.tcgetattr w pty) (got_attr pty) λ a. refl) (changed pty on k)
    where
      changed :
          (pty : ℤ) (on : Bool) (k : ℕ) (attr : Option ℕ)
          → IsQuiet n (change_utf8_flag os c pty on k attr)
      changed pty on k none = IsQuiet-pure tt
      changed pty on k (some flags) = write_utf8_flag-IsQuiet pty on k flags

  pub set_utf8_mode-IsQuiet : (o : Unix) (on : Bool) → IsQuiet n (set_utf8_mode os c o on)
  unfolding set_utf8_mode
  set_utf8_mode-IsQuiet o on = set_utf8_bit-IsQuiet c.iutf8 o.pty on

  attach_session-IsQuiet : (t : Terminals os) (fd : ℤ) → IsQuiet n (attach_session os c fd)
  unfolding attach_session gained lost
  attach_session-IsQuiet t fd =
      IsQuiet-if c.tiocsctty (λ _. IsQuiet-emit (set_ctty fd) refl)
        λ _. IsQuiet-ttyname t fd λ s. IsQuiet-touch os s rdwr tt tt

  pub control_tty-IsQuiet : (t : Terminals os) (fd : ℤ) → IsQuiet n (control_tty os c fd)
  unfolding control_tty gained lost
  control_tty-IsQuiet t fd = seq (IsQuiet-emit new_session refl) λ _.
      seq (attach_session-IsQuiet t fd)
        λ _. IsQuiet-touch os (codes "/dev/tty") wronly minus_one (pos 0)

  pub make_controlling_tty-IsQuiet :
      (t : Terminals os) (o : Unix) → IsQuiet n (make_controlling_tty os c o)
  unfolding make_controlling_tty
  make_controlling_tty-IsQuiet t o = seq (control_tty-IsQuiet t o.tty) λ r. IsQuiet-pure _
