-- ===== src/FdPass.antt =====
-- src/fdpass.C: descriptors over a socket. `sizeof (int)` is 4.
pub mod Laws
use libptytty.Base.{
  ℕ, zero, suc, ◌+◌, ◌*◌, ℤ, Bool, true, false, not, Option, none, some, List, [], ◌∷◌, leb, ltb,
  ◌==◌, if◌then◌else◌, is_neg, minus_one,
}
use libptytty.Sys.{
  Os, Control, Message, allocated, sent_fd, received_msg, M, pure, ◌>>=◌, ◌>>◌, ask, close,
}
use libptytty.Config.{Config}

module _ (os : Os) (c : Config) where
  -- `ptytty::send_fd`
  unfoldable pub send_fd : (socket fd : ℤ) → M Bool
  send_fd socket fd = do
    buf ← ask os.malloc allocated
    if not buf then pure false else do
      result ← ask (λ w. os.sendmsg w socket fd) (sent_fd socket fd)
      pure (not (is_neg result))

  -- `for (fd = i; cmsg_len >= CMSG_LEN (sizeof (int) * (fd + 1)); ++fd) close (fds[fd]);` over the
  -- ints from `fds[i]` on.
  unfoldable pub close_extra : (len i : ℕ) → List ℤ → M (Unit {0})
  close_extra len i [] = pure tt
  close_extra len i (fd ∷ fds) =
      if leb (c.cmsg_header + 4 * (i + 1)) len
      then (close fd >> close_extra len (i + 1) fds)
      else pure tt

  -- The length of a control message, limited to the size of the buffer.
  unfoldable pub limit_len : ℕ → ℕ
  limit_len len = if ltb c.cmsg_space len then c.cmsg_space else len

  -- The first descriptor of a control message, the others closed.
  unfoldable pub take_first : (len : ℕ) → List ℤ → M ℤ
  take_first len [] = pure minus_one
  take_first len (fd ∷ fds) = do close_extra len 1 fds; pure fd

  unfoldable pub take_fd : Option Control → M ℤ
  take_fd none = pure minus_one
  take_fd (some m) =
      let len = limit_len m.cmsg_len in
      if not m.rights
      then pure minus_one
      else if leb (c.cmsg_header + 4) len
      then take_first len m.fds
      else pure minus_one

  -- `data` starts as 1 and is overwritten by the byte that arrives.
  unfoldable pub take_message : Option Message → M ℤ
  take_message none = close minus_one >> pure minus_one
  take_message (some m) = do
    fd ← take_fd m.control
    if m.byte == 0 then pure fd else (close fd >> pure minus_one)

  -- `ptytty::recv_fd`
  unfoldable pub recv_fd : (socket : ℤ) → M ℤ
  recv_fd socket = do
    buf ← ask os.malloc allocated
    if not buf
        then pure minus_one
        else do m ← ask (λ w. os.recvmsg w socket) (received_msg socket); take_message m
