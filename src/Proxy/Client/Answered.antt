-- ===== src/Proxy/Client/Answered.antt =====
-- `ptytty_proxy::get` (src/proxy.C) where the helper's answer arrives.
use libptytty.Base.{
  ℕ, ◌+◌, ◌≤◌, ◌≡◌, refl, ◌∙◌, ap, ℤ, true, false, not, some, [], ◌∷◌, ◌++◌, arith, ◌==◌, leb,
  le→leb, Bool-cases, inl, inr, is_neg,
}
use libptytty.Sys.{Os, Message, Trace, allocated, received_msg, wrote_command, read_reply}
use libptytty.Sys.Returns.{Returns, mono, bind}
use libptytty.Config.{Config}
use libptytty.FdPass.{recv_fd, take_message, take_fd, take_first, close_extra, limit_len}
use libptytty.Proxy.Client.{
  Proxy, Result, returned, get_request, receive, receive_pty, receive_tty, give_token, need_token,
  get,
}
use libptytty.Proxy.Commands.{written, need_token-Writes, give_token-Writes}

abbrev pub one_fd : Config → ℤ → Message
one_fd c fd = record {
  control = some (record { rights = true; cmsg_len = c.cmsg_header + 4; fds = fd ∷ [] });
  byte = 0;
}

-- To a request for a terminal `reply` is read, and each message received brings one descriptor.
pub record Answers (os : Os) (c : Config) (sock_fd : ℤ) (reply : ℕ) : Type 0 where
  pub asked : (w : Trace) → os.read_reply (wrote_command get_request ∷ w) ≡ some reply
  pub room : (w : Trace) → os.malloc w ≡ true
  pub brings :
      (w : Trace) → (fd : ℤ) × ((os.recvmsg w sock_fd ≡ some (one_fd c fd)) × (is_neg fd ≡ false))
  pub fits : c.cmsg_header + 4 ≤ c.cmsg_space

module _ (os : Os) (c : Config) (sock_fd : ℤ) (reply : ℕ) (a : Answers os c sock_fd reply) where
  -- A descriptor arrives, and nothing is written.
  abbrev Arrived : Trace → ℤ → Trace → Type 0
  Arrived w fd v = (is_neg fd ≡ false) × (written v ≡ written w)

  limit_len-one : limit_len os c (c.cmsg_header + 4) ≡ c.cmsg_header + 4
  unfolding limit_len
  limit_len-one = ground (arith, a.fits)

  take_message-one :
      (fd : ℤ) (v : Trace)
      → is_neg fd ≡ false
      → Returns (Arrived v) (take_message os c (some (one_fd c fd)) v)
  unfolding take_message take_fd take_first close_extra
  take_message-one fd v there =
      let reached : leb (c.cmsg_header + 4) (c.cmsg_header + 4) ≡ true = le→leb _ _ (omega arith) in
      rw (limit_len-one, reached) (there, refl)

  recv_fd-Arrived : (w : Trace) → Returns (Arrived w) (recv_fd os c sock_fd w)
  unfolding recv_fd written
  recv_fd-Arrived w =
      let (fd, (e, there)) = a.brings (allocated true ∷ w) in
      rw (a.room w, e)
        (take_message-one fd (received_msg sock_fd (some (one_fd c fd)) ∷ allocated true ∷ w) there)

  -- The object and the result behind the answer.
  abbrev Answered : Trace → Result × Proxy → Trace → Type 0
  Answered w (r, p) v = (written v ≡ written w) × (p.id ≡ reply) × (r ≡ returned (not (reply == 0)))

  receive_tty-Answered :
      (p : Proxy) (w : Trace)
      → p.id ≡ reply
      → (reply == 0) ≡ false
      → Returns (Answered w) (receive_tty os c sock_fd p w)
  unfolding receive_tty
  receive_tty-Answered p w same there =
      bind (Arrived w) (Returns (Answered w)) (recv_fd os c sock_fd w) _ (recv_fd-Arrived w)
        λ tty v (good, e). rw good (
          bind (λ _ u. written u ≡ written v) (Returns (Answered w)) (give_token os c sock_fd v) _
            (give_token-Writes os c sock_fd v) λ _ u e'. (e' ∙ e, same, rw there refl))

  receive_pty-Answered :
      (p : Proxy) (w : Trace)
      → p.id ≡ reply
      → (reply == 0) ≡ false
      → Returns (Answered w) (receive_pty os c sock_fd p w)
  unfolding receive_pty
  receive_pty-Answered p w same there =
      bind (Arrived w) (Returns (Answered w)) (recv_fd os c sock_fd w) _ (recv_fd-Arrived w)
        λ pty v (good, e). rw good (
          mono (Answered v) (Answered w) _
            (receive_tty-Answered (record p { pty = pty }) v same there)
            λ (r, p') u (e', same', result). (e' ∙ e, same', result))

  receive-Answered :
      (p : Proxy) (w : Trace) → Returns (Answered w) (receive os c sock_fd p (some reply) w)
  unfolding receive
  receive-Answered p w = elim (Bool-cases (reply == 0)) [
    | inl refused ↦ rw refused (
        bind (λ _ u. written u ≡ written w) (Returns (Answered w)) (give_token os c sock_fd w) _
          (give_token-Writes os c sock_fd w) λ _ u e. (e, refl, rw refused refl))
    | inr granted ↦ rw granted (receive_pty-Answered (record p { id = reply }) w refl granted)
  ]

  -- The same with the request.
  abbrev pub Requested : Trace → Result × Proxy → Trace → Type 0
  Requested w (r, p) v =
      (written v ≡ written w ++ (get_request ∷ []))
      × (p.id ≡ reply)
      × (r ≡ returned (not (reply == 0)))

  pub get-Requested : (p : Proxy) (w : Trace) → Returns (Requested w) (get os c sock_fd p w)
  unfolding get written
  get-Requested p w =
      bind (λ _ v. written v ≡ written w) (Returns (Requested w)) (need_token os c sock_fd w) _
        (need_token-Writes os c sock_fd w)
        λ _ v e.
          let x = read_reply (some reply) ∷ wrote_command get_request ∷ v in
          rw (a.asked v) (
            mono (Answered x) (Requested w) _ (receive-Answered p x) λ (r, p') u (e', same, result).
              (e' ∙ ap (λ s. s ++ (get_request ∷ [])) e, same, result))
