-- ===== src/Proxy/Client/Token.antt =====
-- The token of PTYTTY_REENTRANT (src/proxy.C): what each call of a client takes, and gives back.
use libptytty.Base.{
  ℕ, ◌+◌, ◌*◌, ◌≡◌, refl, ℤ, Bool, true, false, Bytes, Option, none, some, List, [], ◌∷◌, arith,
  ◌==◌, not, if◌then◌else◌, is_neg, minus_one, leb, Bool-cases, inl, inr,
}
use libptytty.Sys.{
  Os, Command, Event, Trace, Control, Message, M, Run, and_then, pure, emit, ◌>>=◌, ◌>>◌,
  gave_token, needed_token, wrote_command, read_reply, allocated, received_msg, closed,
}
use libptytty.Sys.Count.{
  count, IsSteady, IsSteady-seq, IsSteady-pure, IsSteady-ask, IsSteady-if, IsSteady-emit,
}
use libptytty.Sys.Returns.{Returns, mono, bind, branch, both}
use libptytty.Config.{Config}
use libptytty.FdPass.{recv_fd, take_message, take_fd, take_first, close_extra, limit_len}
use libptytty.Proxy.Client.{
  Proxy, Result, returned, thrown, get_request, give_token, need_token, receive, receive_pty,
  receive_tty, get, login, delete_proxy, close_tty, close_pty, destroy_request,
}

abbrev pub is_taken : Event → ℕ
is_taken needed_token = 1
is_taken _ = 0

abbrev pub is_given : Event → ℕ
is_given gave_token = 1
is_given _ = 0

-- A count of events that `recv_fd` does not make.
record Ignores (f : Event → ℕ) : Type 0 where
  malloc : (b : Bool) → f (allocated b) ≡ 0
  recvmsg : (s : ℤ) (m : Option Message) → f (received_msg s m) ≡ 0
  closing : (fd : ℤ) → f (closed fd) ≡ 0

module _ (os : Os) (c : Config) (f : Event → ℕ) (i : Ignores f) where
  close_extra-IsSteady : (len k : ℕ) (fds : List ℤ) → IsSteady f (close_extra os c len k fds)
  unfolding close_extra
  close_extra-IsSteady len k [] = IsSteady-pure tt
  close_extra-IsSteady len k (fd ∷ fds) =
      let rest = close_extra-IsSteady len (k + 1) fds in
      IsSteady-if (leb (c.cmsg_header + 4 * (k + 1)) len)
        (IsSteady-seq (IsSteady-emit (closed fd) (i.closing fd)) λ _. rest) (IsSteady-pure tt)

  take_fd-IsSteady : (m : Option Control) → IsSteady f (take_fd os c m)
  unfolding take_fd take_first
  take_fd-IsSteady none = IsSteady-pure minus_one
  take_fd-IsSteady (some m) =
      IsSteady-if (not m.rights) (IsSteady-pure minus_one)
        (IsSteady-if _ (first (limit_len os c m.cmsg_len) m.fds) (IsSteady-pure minus_one))
    where
      first : (len : ℕ) (fds : List ℤ) → IsSteady f (take_first os c len fds)
      first len [] = IsSteady-pure minus_one
      first len (fd ∷ fds) = IsSteady-seq (close_extra-IsSteady len 1 fds) λ _. IsSteady-pure fd

  recv_fd-IsSteady : (socket : ℤ) → IsSteady f (recv_fd os c socket)
  unfolding recv_fd take_message
  recv_fd-IsSteady socket = IsSteady-seq (IsSteady-ask os.malloc allocated i.malloc) λ buf.
      IsSteady-if (not buf) (IsSteady-pure minus_one) (
        IsSteady-seq
          (IsSteady-ask (λ w. os.recvmsg w socket) (received_msg socket) (i.recvmsg socket))
          message)
    where
      message : (m : Option Message) → IsSteady f (take_message os c m)
      message none =
          IsSteady-seq (IsSteady-emit (closed minus_one) (i.closing minus_one))
            λ _. IsSteady-pure minus_one
      message (some m) = IsSteady-seq (take_fd-IsSteady m.control) λ fd.
          IsSteady-if (m.byte == 0) (IsSteady-pure fd)
            (IsSteady-seq (IsSteady-emit (closed fd) (i.closing fd)) λ _. IsSteady-pure minus_one)

Ignores-taken : Ignores is_taken
Ignores-taken = record { malloc = λ b. refl; recvmsg = λ s m. refl; closing = λ fd. refl }

Ignores-given : Ignores is_given
Ignores-given = record { malloc = λ b. refl; recvmsg = λ s m. refl; closing = λ fd. refl }

-- From `w` to `v` the token was taken `t` times and given back `g` times.
abbrev pub Uses {ℓ} : {A : Type ℓ} → ℕ → ℕ → Trace → A → Trace → Type 0
Uses t g w _ v =
    (count is_taken v ≡ count is_taken w + t) × (count is_given v ≡ count is_given w + g)

-- How often a call takes the token.
abbrev pub turns : Config → ℕ
turns c = if c.reentrant then 1 else 0

-- A call that throws does not give it back.
abbrev pub turns_ended : Config → Result → ℕ
turns_ended c (returned b) = turns c
turns_ended c (thrown e) = 0

abbrev Turn : Config → Trace → Result × Proxy → Trace → Type 0
Turn c w (r, p) v = Uses 0 (turns_ended c r) w r v

abbrev pub Served : Config → Trace → Result × Proxy → Trace → Type 0
Served c w (r, p) v = Uses (turns c) (turns_ended c r) w r v

module _ (os : Os) (c : Config) (sock_fd : ℤ) where
  need_token-Uses : (w : Trace) → Returns (Uses (turns c) 0 w) (need_token os c sock_fd w)
  unfolding need_token count
  need_token-Uses w = ground arith

  give_token-Uses : (w : Trace) → Returns (Uses 0 (turns c) w) (give_token os c sock_fd w)
  unfolding give_token count
  give_token-Uses w = ground arith

  recv_fd-Uses : (w : Trace) → Returns (Uses 0 0 w) (recv_fd os c sock_fd w)
  recv_fd-Uses w =
      mono (λ _ v. (count is_taken v ≡ count is_taken w) × (count is_given v ≡ count is_given w))
        (Uses 0 0 w) (recv_fd os c sock_fd w)
        (both _ _ (recv_fd os c sock_fd w)
          ((recv_fd-IsSteady os c is_taken Ignores-taken sock_fd).run w)
          ((recv_fd-IsSteady os c is_given Ignores-given sock_fd).run w))
        λ _ v q. omega (arith, q)

  finish-Turn :
      (b : Bool) (p : Proxy) (w : Trace)
      → Returns (Turn c w) ((give_token os c sock_fd >> pure (returned b, p)) w)
  finish-Turn b p w =
      bind (Uses 0 (turns c) w) (Returns (Turn c w)) (give_token os c sock_fd w) _
        (give_token-Uses w) λ _ v q. q

  -- A descriptor received, and the rest of `get` behind it.
  receive-Turn :
      (k : ℤ → M (Result × Proxy)) (w : Trace)
      → ((fd : ℤ) (v : Trace) → Returns (Turn c v) (k fd v))
      → Returns (Turn c w) ((recv_fd os c sock_fd >>= k) w)
  receive-Turn k w h =
      bind (Uses 0 0 w) (Returns (Turn c w)) (recv_fd os c sock_fd w) k (recv_fd-Uses w) λ fd v q.
        mono (Turn c v) (Turn c w) (k fd v) (h fd v)
          λ (r, p) u x. (omega (arith, q.0, x.0), omega (arith, q.1, x.1))

  receive_tty-Turn : (p : Proxy) (w : Trace) → Returns (Turn c w) (receive_tty os c sock_fd p w)
  unfolding receive_tty
  receive_tty-Turn p w = receive-Turn _ w λ tty v.
      branch (Returns (Turn c v)) (is_neg tty) _ _ v (λ _. omega arith)
        (λ _. finish-Turn true (record p { tty = tty }) v)

  receive_pty-Turn : (p : Proxy) (w : Trace) → Returns (Turn c w) (receive_pty os c sock_fd p w)
  unfolding receive_pty
  receive_pty-Turn p w = receive-Turn _ w λ pty v.
      branch (Returns (Turn c v)) (is_neg pty) _ _ v (λ _. omega arith)
        (λ _. receive_tty-Turn (record p { pty = pty }) v)

  answer-Turn :
      (p : Proxy) (answer : Option ℕ) (w : Trace)
      → Returns (Turn c w) (receive os c sock_fd p answer w)
  unfolding receive
  answer-Turn p none w = omega arith
  answer-Turn p (some id) w =
      branch (Returns (Turn c w)) (id == 0) _ _ w (λ _. finish-Turn false (record p { id = id }) w)
        (λ _. receive_pty-Turn (record p { id = id }) w)

  -- `get` returns whatever the system answers. Where the token is in use, it takes the token
  -- once; it gives the token back once if it returns true or false, and not at all if it throws.
  pub get-Served : (p : Proxy) (w : Trace) → Returns (Served c w) (get os c sock_fd p w)
  unfolding get count
  get-Served p w =
      bind (Uses (turns c) 0 w) (Returns (Served c w)) (need_token os c sock_fd w) _
        (need_token-Uses w)
        λ _ v q.
          let u = wrote_command get_request ∷ v in
          let x = read_reply (os.read_reply u) ∷ u in
          mono (Turn c x) (Served c w) _ (answer-Turn p (os.read_reply u) x)
            λ (r, p') y z. (omega (arith, q.0, z.0), omega (arith, q.1, z.1))

  -- A command that is sent with the token in hand, and has no answer.
  sent-Uses :
      (cmd : Command) (w : Trace)
      → Returns
          (Uses (turns c) (turns c) w)
          ((need_token os c sock_fd >> (emit (wrote_command cmd) >> give_token os c sock_fd)) w)
  unfolding count
  sent-Uses cmd w =
      bind (Uses (turns c) 0 w) (Returns (Uses (turns c) (turns c) w)) (need_token os c sock_fd w) _
        (need_token-Uses w)
        λ _ v q.
          let u = wrote_command cmd ∷ v in
          mono (Uses 0 (turns c) u) (Uses (turns c) (turns c) w) _ (give_token-Uses u)
            λ _ _ x. (omega (arith, q.0, x.0), omega (arith, q.1, x.1))

  -- With a host name, `login` returns, and where the token is in use it takes the token once and
  -- gives it back once.
  pub login-Uses :
      (p : Proxy) (pid : ℤ) (shell : Bool) (host : Bytes) (w : Trace)
      → Returns (Uses (turns c) (turns c) w) (login os c sock_fd p pid shell (some host) w)
  unfolding login
  login-Uses p pid shell host w = sent-Uses _ w

  close_tty-Uses : (p : Proxy) (w : Trace) → Returns (Uses 0 0 w) (close_tty os c sock_fd p w)
  unfolding close_tty count
  close_tty-Uses p w = ground arith

  close_pty-Uses : (p : Proxy) (w : Trace) → Returns (Uses 0 0 w) (close_pty os c sock_fd p w)
  unfolding close_pty count
  close_pty-Uses p w = ground arith

  after-Uses :
      {A : Type 0} (t : ℕ) (r : Run A) (k : A → M (Unit {0})) (w : Trace)
      → Returns (Uses 0 0 w) r
      → ((a : A) (v : Trace) → Returns (Uses t t v) (k a v))
      → Returns (Uses t t w) (and_then r k)
  after-Uses t r k w q h = bind (Uses 0 0 w) (Returns (Uses t t w)) r k q λ a v x.
      mono (Uses t t v) (Uses t t w) (k a v) (h a v)
        λ _ _ y. (omega (arith, x.0, y.0), omega (arith, x.1, y.1))

  -- The destructor returns. Where the token is in use it takes and gives back the token once if
  -- the object has an address, and never if it has none.
  pub delete_proxy-Uses :
      (p : Proxy) (w : Trace)
      → let t = if p.id == 0 then 0 else turns c in
        Returns (Uses t t w) (delete_proxy os c sock_fd p w)
  unfolding delete_proxy
  delete_proxy-Uses p w = elim (Bool-cases (p.id == 0)) [
    | inl none_there ↦ rw none_there (omega arith)
    | inr there ↦ rw there (
        after-Uses (turns c) (close_tty os c sock_fd p w) _ w (close_tty-Uses p w) λ p' v.
          after-Uses (turns c) (close_pty os c sock_fd p' v) _ v (close_pty-Uses p' v)
            λ _ u. sent-Uses (destroy_request p'.id) u)
  ]
