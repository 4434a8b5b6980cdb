-- ===== src/FdPass/Laws.antt =====
-- `ptytty::recv_fd` (src/fdpass.C) keeps no descriptor but the one that it returns.
use libptytty.Base.{
  ℕ, ◌+◌, ◌*◌, ◌≤◌, ◌≡◌, refl, sym, ◌∙◌, le→leb, ◌==◌, ℤ, Bool, true, false, not, Option, none,
  some, List, [], ◌∷◌, arith, length, leb, if◌then◌else◌, is_neg, minus_one,
}
use libptytty.Sys.{
  Os, Control, Message, Trace, allocated, received_msg, closed, sent_fd, close, pure, ◌>>◌,
}
use libptytty.Sys.Balance.{hits, hits_all, hits_neg, delivered, gained, lost, opens, closes, Shifts}
use libptytty.Sys.Returns.{Returns, mono, bind, branch}
use mathlib.Core.Bool.{false≢true}
use libptytty.Sys.Quiet.{IsQuiet, seq, IsQuiet-ask, IsQuiet-if, IsQuiet-pure}
use libptytty.Config.{Config}
use libptytty.FdPass.{send_fd, close_extra, limit_len, take_first, take_fd, take_message, recv_fd}

-- What is documented of recvmsg: a control message of descriptors has the length that they take, at
-- least one of them, and fits the buffer.
abbrev pub WellFormed : Config → Option Control → Type 0
WellFormed c none = Unit {0}
WellFormed c (some m) =
    m.rights ≡ true
    → (1 ≤ length m.fds)
      × (m.cmsg_len ≡ c.cmsg_header + 4 * length m.fds)
      × (m.cmsg_len ≤ c.cmsg_space)

abbrev pub Messages : Os → Config → Type 0
Messages os c = (w : Trace) (s : ℤ) (m : Message) → os.recvmsg w s ≡ some m → WellFormed c m.control

not-true : (b : Bool) → not b ≡ true → b ≡ false
not-true b h = ground arith

not-false : (b : Bool) → not b ≡ false → b ≡ true
not-false b h = ground arith

if_true : (b : Bool) (x : ℕ) → b ≡ true → (if b then x else 0) ≡ x
if_true b x h = ground arith

if_false : (b : Bool) (x : ℕ) → b ≡ false → (if b then x else 0) ≡ 0
if_false b x h = ground arith

module _ (os : Os) (c : Config) (n : ℕ) where
  -- From `a` descriptors in hand to the one returned.
  abbrev pub Keeps : ℕ → Trace → ℤ → Trace → Type 0
  Keeps a w fd v = Shifts n a w (hits n fd) v

  abbrev Grown : Trace → ℕ → Unit {0} → Trace → Type 0
  Grown w a _ v = Shifts n a w 0 v

  close_extra-Shifts :
      (i : ℕ) (fds : List ℤ) (len : ℕ) (w : Trace)
      → len ≡ c.cmsg_header + 4 * (i + length fds)
      → Returns (Grown w (hits_all n fds)) (close_extra os c len i fds w)
  unfolding close_extra opens closes gained lost hits_all
  close_extra-Shifts i [] len w e = refl
  close_extra-Shifts i (fd ∷ fds) len w e =
      let rest = close_extra os c len (i + 1) fds in
      let v = closed fd ∷ w in
      branch (Returns (Grown w (hits n fd + hits_all n fds)))
        (leb (c.cmsg_header + 4 * (i + 1)) len) (close fd >> rest) (pure tt) w
        (λ _.
          mono (Grown v (hits_all n fds)) (Grown w (hits n fd + hits_all n fds)) (rest v)
            (close_extra-Shifts (i + 1) fds len v (omega (arith, e))) λ _ u p. omega (arith, p))
        (λ h. absurd (false≢true (sym h ∙ le→leb _ _ (omega (arith, e)))))

  take_first-Keeps :
      (fds : List ℤ) (len : ℕ) (w : Trace)
      → 1 ≤ length fds
      → len ≡ c.cmsg_header + 4 * length fds
      → Returns (Keeps (hits_all n fds) w) (take_first os c len fds w)
  unfolding take_first hits_all
  take_first-Keeps [] len w h e = absurd (omega arith)
  take_first-Keeps (fd ∷ fds) len w h e =
      bind (Grown w (hits_all n fds)) (Returns (Keeps (hits n fd + hits_all n fds) w))
        (close_extra os c len 1 fds w) _ (close_extra-Shifts 1 fds len w (omega (arith, e)))
        λ _ v p. omega (arith, p)

  limit_len-fits : (len : ℕ) → len ≤ c.cmsg_space → limit_len os c len ≡ len
  unfolding limit_len
  limit_len-fits len h = ground arith

  take_fd-Keeps :
      (m : Option Control) (w : Trace)
      → WellFormed c m
      → Returns (Keeps (delivered n m) w) (take_fd os c m w)
  unfolding take_fd delivered
  take_fd-Keeps none w h = omega (arith, hits_neg n minus_one refl)
  take_fd-Keeps (some m) w h =
      branch (Returns (Keeps (delivered n (some m)) w)) (not m.rights) (pure minus_one) _ w
        (λ r.
          omega
            (arith, hits_neg n minus_one refl, if_false m.rights (hits_all n m.fds) (not-true _ r)))
        (λ r.
          let (some_fd, size, fits) = h (not-false _ r) in
          let len = limit_len-fits m.cmsg_len fits in
          branch (Returns (Keeps (delivered n (some m)) w))
            (leb (c.cmsg_header + 4) (limit_len os c m.cmsg_len)) _ (pure minus_one) w
            (λ _.
              mono (Keeps (hits_all n m.fds) w) (Keeps (delivered n (some m)) w) _
                (take_first-Keeps m.fds (limit_len os c m.cmsg_len) w some_fd (len ∙ size))
                λ _ _ p. omega (arith, p, if_true m.rights (hits_all n m.fds) (not-false _ r)))
            (λ l. absurd (false≢true (sym l ∙ le→leb _ _ (omega (arith, len, size, some_fd))))))

  take_message-Keeps :
      (s : ℤ) (m : Option Message) (w : Trace)
      → ((x : Message) → m ≡ some x → WellFormed c x.control)
      → Returns (Keeps 0 w) (take_message os c m (received_msg s m ∷ w))
  unfolding take_message opens closes gained lost
  take_message-Keeps s none w h = omega (arith, hits_neg n minus_one refl)
  take_message-Keeps s (some m) w h =
      let v = received_msg s (some m) ∷ w in
      bind (Keeps (delivered n m.control) v) (Returns (Keeps 0 w)) (take_fd os c m.control v) _
        (take_fd-Keeps m.control v (h m refl))
        λ fd u p.
          branch (Returns (Keeps 0 w)) (m.byte == 0) (pure fd) _ u (λ _. omega (arith, p))
            (λ _. omega (arith, p, hits_neg n minus_one refl))

  -- Where recvmsg keeps to the format of control messages, `recv_fd` returns, and of the
  -- descriptors that arrive it closes all but the one that it returns.
  pub recv_fd-Keeps :
      (socket : ℤ) (w : Trace) → Messages os c → Returns (Keeps 0 w) (recv_fd os c socket w)
  unfolding recv_fd opens closes gained lost
  recv_fd-Keeps socket w h =
      let b = os.malloc w in
      let v = allocated b ∷ w in
      branch (Returns (Keeps 0 w)) (not b) (pure minus_one) _ v
        (λ _. omega (arith, hits_neg n minus_one refl))
        (λ _.
          mono (Keeps 0 v) (Keeps 0 w) _
            (take_message-Keeps socket (os.recvmsg v socket) v (h v socket))
            λ _ _ p. omega (arith, p))

  pub send_fd-IsQuiet : (socket fd : ℤ) → IsQuiet n (send_fd os c socket fd)
  unfolding send_fd gained lost
  send_fd-IsQuiet socket fd = seq (IsQuiet-ask os.malloc allocated λ b. refl) λ b.
      IsQuiet-if (not b) (λ _. IsQuiet-pure false)
        λ _.
          seq (IsQuiet-ask (λ w. os.sendmsg w socket fd) (sent_fd socket fd) λ r. refl)
            λ r. IsQuiet-pure (not (is_neg r))
