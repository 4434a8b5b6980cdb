-- ===== src/Unix.antt =====
-- src/ptytty.C: `struct ptytty`, and `struct ptytty_unix` up to its login, which Session adds.
-- The base class stands in the object as its fields `pty` and `tty`.
pub mod GetPty
pub mod Ownership
pub mod Put
pub mod Get
pub mod Terminal
pub mod Flags
pub mod Mute
pub mod Device
use Prim.Native.String.{String}
use libptytty.Base.{
  ℕ, ◌+◌, ◌-◌, ◌/◌, ◌%◌, ◌^◌, ℤ, pos, Bool, true, false, not, Bytes, Option, none, some, List, [],
  ◌∷◌, codes, ◌==◌, if◌then◌else◌, is_neg, is_zero, eqz, minus_one,
}
use libptytty.Sys.{
  Os, Event, rdwr, wronly, duped, duped_onto, chmodded, chowned, revoked, new_session, set_ctty,
  asked_stream, found_module, pushed_module, got_attr, set_attr, asked_ttyslot, M, pure, ◌>>=◌,
  ◌>>◌, deref, emit, ask, close, open_file, ttyname, getuid,
}
use libptytty.Config.{Config, Database, utmp_bsd, Backend, bsd}
use GetPty.{get_pty, get_tty}

pub record Unix : Type 0 where
  pub pty : ℤ
  pub tty : ℤ
  pub name : Option Bytes
  -- `none` until the program assigns them
  pub utmp_pos : Option ℤ
  pub login_shell : Option Bool
  pub cmd_pid : ℤ

-- `static struct ttyconf`
pub record TtyConf : Type 0 where
  pub gid : ℕ
  pub mode : ℕ

-- `ttyconf::ttyconf`: S_IRUSR | S_IWUSR | S_IWGRP, with S_IWOTH if there is no group "tty".
-- `group` is the answer of getgrnam ("tty").
pub ttyconf : Config → (group : Option ℕ) → TtyConf
ttyconf c none = record { gid = 0; mode = 0o622 }
ttyconf c (some g) =
    if c.tty_gid_support then record { gid = g; mode = 0o620 } else record { gid = 0; mode = 0o622 }

-- `ptytty::ptytty` and `ptytty_unix::ptytty_unix`
unfoldable pub new_unix : Unix
new_unix = record {
  pty = minus_one;
  tty = minus_one;
  name = none;
  utmp_pos = none;
  login_shell = none;
  cmd_pid = pos 0;
}

-- `ptytty::close_tty`
unfoldable pub close_tty : Unix → M Unix
close_tty o = if is_neg o.tty then pure o else do close o.tty; pure (record o { tty = minus_one })

-- `c_iflag | IUTF8` and `c_iflag & ~IUTF8`, where IUTF8 is the bit `k`.
unfoldable pub set_bit : ℕ → ℕ → ℕ
set_bit k x = if (x / 2 ^ k) % 2 == 1 then x else x + 2 ^ k

unfoldable pub clear_bit : ℕ → ℕ → ℕ
clear_bit k x = if (x / 2 ^ k) % 2 == 1 then x - 2 ^ k else x

module _ (os : Os) (c : Config) where
  -- The two ways to make the terminal the session's.
  unfoldable pub attach_session : ℤ → M (Unit {0})
  attach_session fd_tty = if c.tiocsctty then emit (set_ctty fd_tty) else do
    name ← ttyname os fd_tty
    s ← deref name
    fd ← open_file os s rdwr
    if is_neg fd then pure tt else (close fd >> pure tt)

  -- `control_tty`
  unfoldable pub control_tty : ℤ → M ℤ
  control_tty fd_tty = do
    emit new_session
    attach_session fd_tty
    fd ← open_file os (codes "/dev/tty") wronly
    if is_neg fd then pure minus_one else (close fd >> pure (pos 0))

  -- `ptytty::make_controlling_tty`
  unfoldable pub make_controlling_tty : Unix → M Bool
  make_controlling_tty o = do r ← control_tty o.tty; pure (not (is_neg r))

  unfoldable pub write_utf8_flag : ℤ → Bool → ℕ → ℕ → M (Unit {0})
  write_utf8_flag pty on k flags =
      let new = (if on then set_bit k flags else clear_bit k flags) in
      if new == flags then pure tt else emit (set_attr pty new)

  -- The rest of `set_utf8_mode`, by the answer of tcgetattr.
  unfoldable pub change_utf8_flag : ℤ → Bool → ℕ → Option ℕ → M (Unit {0})
  change_utf8_flag pty on k none = pure tt
  change_utf8_flag pty on k (some flags) = write_utf8_flag pty on k flags

  unfoldable pub set_utf8_bit : Option ℕ → ℤ → Bool → M (Unit {0})
  set_utf8_bit none pty on = pure tt
  set_utf8_bit (some k) pty on =
      if is_neg pty
      then pure tt
      else do attr ← ask (λ w. os.tcgetattr w pty) (got_attr pty); change_utf8_flag pty on k attr

  -- `ptytty::set_utf8_mode`
  unfoldable pub set_utf8_mode : Unix → Bool → M (Unit {0})
  set_utf8_mode o on = set_utf8_bit c.iutf8 o.pty on

  module _ (conf : TtyConf) where
    unfoldable pub restore_name : Option Bytes → M (Unit {0})
    restore_name none = pure tt
    restore_name (some s) = do emit (chmodded s c.restore_mode); emit (chowned s 0 conf.gid)

    -- `ptytty_unix::put`
    unfoldable pub put : Unix → M Unix
    put o = do
      restore_name o.name
      o ← close_tty o
      if is_neg o.pty then pure tt else close o.pty
      pure (record o { pty = minus_one; tty = minus_one; name = none })

    unfoldable pub push_module : ℤ → Bytes → M (Unit {0})
    push_module tty m = do
      r ← ask (λ w. os.find_module w tty m) (found_module tty m)
      if is_zero r then emit (pushed_module tty m) else pure tt

    unfoldable pub push_modules : ℤ → M (Unit {0})
    push_modules tty = do
      push_module tty (codes "ptem")
      push_module tty (codes "ldterm")
      push_module tty (codes "ttcompat")

    -- The STREAMS modules that `get` pushes.
    unfoldable pub push_streams : ℤ → M (Unit {0})
    push_streams tty =
        if not c.i_push
        then pure tt
        else if c.have_isastream
        then (do
          r ← ask (λ w. os.isastream w tty) (asked_stream tty)
          if eqz r (pos 1) then push_modules tty else pure tt)
        else push_modules tty

    -- The slot of the terminal in a BSD utmp file, asked for with the terminal as standard input.
    unfoldable pub find_slot : Unix → M Unix
    find_slot o = elim c.utmp_support [
      | some utmp_bsd ↦ do
        fd_stdin ← ask (λ w. os.dup w (pos 0)) (duped (pos 0))
        emit (duped_onto o.tty (pos 0))
        slot ← ask os.ttyslot asked_ttyslot
        emit (duped_onto fd_stdin (pos 0))
        close fd_stdin
        pure (record o { utmp_pos = some slot })
      | _ ↦ pure o
    ]

    -- The part of `get` behind the two descriptors.
    unfoldable pub finish : Unix → M (Bool × Unix)
    finish o = do push_streams o.tty; o ← find_slot o; pure (true, o)

    -- Under SET_TTY_OWNER the slave is given to the user before it is opened.
    unfoldable pub own_slave : Bytes → M (Unit {0})
    own_slave s = elim c.backend [
      | bsd ↦ do
        uid ← getuid os
        emit (chowned s uid conf.gid)
        emit (chmodded s conf.mode)
        if c.have_revoke then emit (revoked s) else pure tt
      | _ ↦ pure tt
    ]

    -- The slave, where `get_pty` did not open it.
    unfoldable pub open_slave : Unix → M (Bool × Unix)
    open_slave o = do
      s ← deref o.name
      own_slave s
      tty ← get_tty os s
      if is_neg tty
          then (do o ← put (record o { tty = tty }); pure (false, o))
          else finish (record o { tty = tty })

    -- `ptytty_unix::get`
    unfoldable pub get : Unix → M (Bool × Unix)
    get o = do
      (pty, tty, name) ← get_pty os c.backend o.tty o.name
      let o = record o { pty = pty; tty = tty; name = name }
      if is_neg pty then pure (false, o) else if is_neg tty then open_slave o else finish o
