-- ===== src/Api.antt =====
-- src/c-api.C and `ptytty::create` (src/proxy.C): an object of either class, and the calls that are
-- dispatched to its class.
pub mod Life
pub mod Program
pub mod Helped
use libptytty.Base.{
  ℕ, ℤ, Bool, true, false, not, ◌&&◌, Bytes, Option, none, some, List, [], ◌∷◌, if◌then◌else◌,
  is_neg, is_zero,
}
use libptytty.Sys.{Os, M, pure, ◌>>=◌, ◌>>◌}
use libptytty.Config.{Config}
use libptytty.Unix.{
  Unix, TtyConf, new_unix, control_tty, set_utf8_bit, get as unix_get, close_tty as unix_close_tty,
}
use libptytty.Session.{login as unix_login, delete_unix}
use libptytty.Session.Lifecycle.{Call, logs_in, closes_tty, sets_utf8, takes_control}
use libptytty.Proxy.Client.{
  Proxy, new_proxy, Result, returned, thrown, delete_proxy, get as proxy_get, login as proxy_login,
  close_tty as proxy_close_tty,
}
use libptytty.Process.{
  Statics, Side, caller, helper_done, initial_statics, sanitise_stdfd, init, drop_privileges,
  use_helper,
}

-- `ptytty *`
pub data Object : Type 0 where
  unix_object : Unix → Object
  proxy_object : Proxy → Object

-- `ptytty::create`
unfoldable pub create : Config → Statics → Object
create c s =
    if c.helper && not (is_zero s.helper_pid) then proxy_object new_proxy else unix_object new_unix

-- `ptytty_pty` and `ptytty_tty`
unfoldable pub ptytty_pty : Object → ℤ
ptytty_pty (unix_object o) = o.pty
ptytty_pty (proxy_object p) = p.pty

unfoldable pub ptytty_tty : Object → ℤ
ptytty_tty (unix_object o) = o.tty
ptytty_tty (proxy_object p) = p.tty

module _ (os : Os) (c : Config) (conf : TtyConf) (s : Statics) where
  unfoldable pub ptytty_get : Object → M (Result × Object)
  ptytty_get (unix_object o) = do (b, o) ← unix_get os c conf o; pure (returned b, unix_object o)
  ptytty_get (proxy_object p) = do (r, p) ← proxy_get os c s.sock_fd p; pure (r, proxy_object p)

  unfoldable pub ptytty_login : Object → ℤ → Bool → Option Bytes → M Object
  ptytty_login (unix_object o) pid shell host = do
    o ← unix_login os c o pid shell host
    pure (unix_object o)
  ptytty_login (proxy_object p) pid shell host = do
    proxy_login os c s.sock_fd p pid shell host
    pure (proxy_object p)

  unfoldable pub ptytty_close_tty : Object → M Object
  ptytty_close_tty (unix_object o) = do o ← unix_close_tty o; pure (unix_object o)
  ptytty_close_tty (proxy_object p) = do p ← proxy_close_tty os c s.sock_fd p; pure (proxy_object p)

  -- The fields of the base class are all that these two read.
  unfoldable pub ptytty_make_controlling_tty : Object → M Bool
  ptytty_make_controlling_tty o = do r ← control_tty os c (ptytty_tty o); pure (not (is_neg r))

  unfoldable pub ptytty_set_utf8_mode : Object → Bool → M (Unit {0})
  ptytty_set_utf8_mode o on = set_utf8_bit os c c.iutf8 (ptytty_pty o) on

  unfoldable pub ptytty_delete : Object → M (Unit {0})
  ptytty_delete (unix_object o) = do _ ← delete_unix os c conf o; pure tt
  ptytty_delete (proxy_object p) = delete_proxy os c s.sock_fd p

-- The calls of a client of either class, `get` called once before.
module _ (os : Os) (c : Config) (conf : TtyConf) (s : Statics) where
  unfoldable pub api_call : Call → Object → M Object
  api_call (logs_in pid shell host) o = ptytty_login os c conf s o pid shell (some host)
  api_call closes_tty o = ptytty_close_tty os c conf s o
  api_call (sets_utf8 on) o = do ptytty_set_utf8_mode os c conf s o on; pure o
  api_call takes_control o = ptytty_make_controlling_tty os c conf s o >>= λ _. pure o

  unfoldable pub api_calls : List Call → Object → M Object
  api_calls [] o = pure o
  api_calls (x ∷ xs) o = api_call x o >>= api_calls xs

  abbrev pub is_got : Result → Bool
  is_got (returned b) = b
  is_got (thrown e) = false

  -- `ptytty_create`, `ptytty_get`, the calls if it succeeded, `ptytty_delete`.
  unfoldable pub api_life : List Call → M (Unit {0})
  api_life xs = do
    (r, o) ← ptytty_get os c conf s (create c s)
    o ← (if is_got r then api_calls xs o else pure o)
    ptytty_delete os c conf s o

-- The functions that forward to a static function.
module _ (os : Os) (c : Config) (conf : TtyConf) where
  unfoldable pub ptytty_sanitise_stdfd : M (Unit {0})
  ptytty_sanitise_stdfd = sanitise_stdfd os c

  unfoldable pub ptytty_init : Statics → M Side
  ptytty_init s = init os c conf s

  unfoldable pub ptytty_create : Statics → Object
  ptytty_create s = create c s

  unfoldable pub ptytty_drop_privileges : M (Unit {0})
  ptytty_drop_privileges = drop_privileges os c

  unfoldable pub ptytty_use_helper : Statics → M Side
  ptytty_use_helper s = use_helper os c conf s

  -- A program's use of one terminal, where `ptytty_init` returns to it.
  unfoldable pub use_terminal : List Call → Side → M Side
  use_terminal xs (caller s) = do api_life os c conf s xs; pure (caller s)
  use_terminal xs helper_done = pure helper_done

  unfoldable pub program : List Call → M Side
  program xs = ptytty_init initial_statics >>= use_terminal xs
