-- ===== src/Proxy/Client.antt =====
-- The client's side of src/proxy.C: `ptytty_proxy`.
pub mod Laws
pub mod Token
pub mod Answered
use libptytty.Base.{
  ℕ, ℤ, pos, Bool, true, false, Bytes, Option, none, some, [], codes, strncpy, ◌==◌, if◌then◌else◌,
  is_neg, minus_one,
}
use libptytty.Sys.{
  Os, get_pty, log_in, destroy, Command, wrote_command, read_reply, gave_token, needed_token, M,
  pure, ◌>>=◌, ◌>>◌, deref, emit, ask, close,
}
use libptytty.Config.{Config}
use libptytty.FdPass.{recv_fd}

pub record Proxy : Type 0 where
  pub pty : ℤ
  pub tty : ℤ
  pub id : ℕ

-- `ptytty_proxy::ptytty_proxy`
unfoldable pub new_proxy : Proxy
new_proxy = record { pty = minus_one; tty = minus_one; id = 0 }

-- A call that throws leaves the object as it stands then.
pub data Result : Type 0 where
  returned : Bool → Result
  thrown : Bytes → Result

abbrev no_id : Bytes
no_id = codes "protocol error while creating pty using helper process.\n"

abbrev no_fds : Bytes
no_fds = codes "protocol error while reading pty/tty fds from helper process.\n"

-- The fields that a command does not set are zero here, and not read.
abbrev empty_command : Command
empty_command = record {
  kind = get_pty;
  id = 0;
  login_shell = false;
  cmd_pid = pos 0;
  hostname = [];
}

abbrev pub get_request : Command
get_request = record empty_command { kind = get_pty }

abbrev pub destroy_request : ℕ → Command
destroy_request id = record empty_command { kind = destroy; id = id }

module _ (os : Os) (c : Config) (sock_fd : ℤ) where
  unfoldable pub give_token : M (Unit {0})
  give_token = if c.reentrant then emit gave_token else pure tt

  unfoldable pub need_token : M (Unit {0})
  need_token = if c.reentrant then emit needed_token else pure tt

  unfoldable pub receive_tty : Proxy → M (Result × Proxy)
  receive_tty p = do
    tty ← recv_fd os c sock_fd
    if is_neg tty
        then pure (thrown no_fds, record p { tty = tty })
        else do give_token; pure (returned true, record p { tty = tty })

  unfoldable pub receive_pty : Proxy → M (Result × Proxy)
  receive_pty p = do
    pty ← recv_fd os c sock_fd
    if is_neg pty
        then pure (thrown no_fds, record p { pty = pty })
        else receive_tty (record p { pty = pty })

  -- The part of `get` behind the helper's answer.
  unfoldable pub receive : Proxy → Option ℕ → M (Result × Proxy)
  receive p none = pure (thrown no_id, p)
  receive p (some id) =
      if id == 0
      then give_token >> pure (returned false, record p { id = id })
      else receive_pty (record p { id = id })

  -- `ptytty_proxy::get`
  unfoldable pub get : Proxy → M (Result × Proxy)
  get p = do
    need_token
    emit (wrote_command get_request)
    id ← ask os.read_reply read_reply
    receive p id

  -- `ptytty_proxy::login`
  unfoldable pub login : Proxy → ℤ → Bool → Option Bytes → M (Unit {0})
  login p pid shell hostname = do
    need_token
    h ← deref hostname
    emit (
        wrote_command (record {
          kind = log_in;
          id = p.id;
          login_shell = shell;
          cmd_pid = pid;
          hostname = strncpy h 512;
        }))
    give_token

  -- `ptytty::close_tty`, on this class
  unfoldable pub close_tty : Proxy → M Proxy
  close_tty p = if is_neg p.tty then pure p else do close p.tty; pure (record p { tty = minus_one })

  unfoldable pub close_pty : Proxy → M (Unit {0})
  close_pty p = if is_neg p.pty then pure tt else close p.pty

  -- `ptytty_proxy::~ptytty_proxy`
  unfoldable pub delete_proxy : Proxy → M (Unit {0})
  delete_proxy p = if p.id == 0 then pure tt else do
    p ← close_tty p
    close_pty p
    need_token
    emit (wrote_command (destroy_request p.id))
    give_token
