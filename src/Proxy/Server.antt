-- ===== src/Proxy/Server.antt =====
-- The helper's side of src/proxy.C: `serve`, and `find` and `erase` of src/estl.h as it uses them.
pub mod Objects
pub mod Laws
pub mod Counts
pub mod Serve
pub mod Safety
pub mod Vector
pub mod Refines
pub mod Follows
pub mod Vectored
pub mod Direct
pub mod Replies
pub mod Isolated
pub mod Tracked
use libptytty.Base.{
  ℕ, zero, suc, ◌+◌, ℤ, Bool, true, false, not, ◌||◌, Bytes, Option, none, some, List, [], ◌∷◌,
  ◌++◌, ◌==◌, if◌then◌else◌, is_some, set, c_string,
}
use mathlib.Core.List.{reverse}
use libptytty.Sys.{
  Kind, get_pty, log_in, destroy, unknown, Command, Os, M, pure, ◌>>=◌, ◌>>◌, deref, emit, ask,
  made_object, wrote_reply, read_command, gave_token, needed_token,
}
use libptytty.Config.{Config}
use libptytty.Unix.{Unix, TtyConf, new_unix, close_tty, get}
use libptytty.Session.{login, delete_unix}
use libptytty.FdPass.{send_fd}
use Objects.{Heap, lookup, add, store, free, find, erase}

-- The vector `ptys`, and the objects that live.
pub record State : Type 0 where
  pub ptys : List ℕ
  pub heap : Heap

-- `cmd.hostname[sizeof (cmd.hostname) - 1] = 0`, and the string that is then read.
unfoldable pub host_of : Bytes → Bytes
host_of name = c_string (set name 511 0)

module _ (os : Os) (c : Config) (conf : TtyConf) (sock_fd : ℤ) where
  unfoldable pub give_token : M (Unit {0})
  give_token = if c.reentrant then emit gave_token else pure tt

  unfoldable pub need_token : M (Unit {0})
  need_token = if c.reentrant then emit needed_token else pure tt

  unfoldable pub retain : ℕ → State → Unix → M State
  retain id s o = do
    o ← close_tty o
    pure (record { ptys = s.ptys ++ (id ∷ []); heap = add id o s.heap })

  -- `-> id ptyfd ttyfd`
  unfoldable pub reply_get : ℕ → State → Bool × Unix → M State
  reply_get id s (true, o) = do
    emit (wrote_reply id)
    _ ← send_fd os c sock_fd o.pty
    _ ← send_fd os c sock_fd o.tty
    retain id s o
  reply_get id s (false, o) = do _ ← delete_unix os c conf o; emit (wrote_reply 0); pure s

  unfoldable pub handle_get : State → M State
  handle_get s = do id ← ask os.new_object made_object; r ← get os c conf new_unix; reply_get id s r

  -- `cmd.id->login (…)`
  unfoldable pub login_object : Command → State → M State
  login_object cmd s = do
    o ← deref (lookup cmd.id s.heap)
    o ← login os c o cmd.cmd_pid cmd.login_shell (some (host_of cmd.hostname))
    pure (record s { heap = store cmd.id o s.heap })

  unfoldable pub handle_login : Command → State → M State
  handle_login cmd s =
      if not (is_some c.utmp_support)
      then pure s
      else if is_some (find cmd.id s.ptys)
      then login_object cmd s
      else pure s

  -- `delete *pty`
  unfoldable pub delete_object : ℕ → Heap → M Heap
  delete_object id h = do o ← deref (lookup id h); _ ← delete_unix os c conf o; pure (free id h)

  unfoldable pub destroy_at : ℕ → State → Option ℕ → M State
  destroy_at id s none = pure s
  destroy_at id s (some i) = do
    h ← delete_object id s.heap
    pure (record { ptys = erase i s.ptys; heap = h })

  unfoldable pub handle_destroy : Command → State → M State
  handle_destroy cmd s = destroy_at cmd.id s (find cmd.id s.ptys)

  -- One command; `false` where the loop is left.
  unfoldable pub handle : Kind → Command → State → M (Bool × State)
  handle get_pty cmd s = do s ← handle_get s; pure (true, s)
  handle log_in cmd s = do s ← handle_login cmd s; pure (true, s)
  handle destroy cmd s = do s ← handle_destroy cmd s; pure (true, s)
  handle unknown cmd s = pure (false, s)

  -- `for (;;)`, over the commands that arrive whole. The list ends where a read falls short.
  unfoldable pub serve_loop : List Command → State → M State
  serve_loop [] s = do give_token; emit (read_command none); pure s
  serve_loop (cmd ∷ cmds) s = do
    give_token
    emit (read_command (some cmd))
    (more, s) ← handle cmd.kind cmd s
    if more then (do need_token; serve_loop cmds s) else pure s

  -- `destroy all ptys`, given from the last to the first.
  unfoldable pub destroy_all : List ℕ → Heap → M Heap
  destroy_all [] h = pure h
  destroy_all (id ∷ ids) h = do h ← delete_object id h; destroy_all ids h

  -- `serve`
  unfoldable pub serve : List Command → M Heap
  serve cmds = do
    s ← serve_loop cmds (record { ptys = []; heap = [] })
    destroy_all (reverse s.ptys) s.heap
