-- ===== src/Proxy/Client/Laws.antt =====
-- `ptytty_proxy` (src/proxy.C): its descriptors, and the token that serialises the clients.
use libptytty.Base.{
  ℕ, ◌+◌, ◌≡◌, refl, sym, ◌∙◌, inl, inr, ◌⊎◌, ℤ, true, false, Option, none, some, ◌∷◌, arith, ◌==◌,
  is_neg,
}
use libptytty.Sys.{
  Os, Trace, gave_token, needed_token, wrote_command, read_reply, M, Run, pure, emit, ◌>>=◌, ◌>>◌,
}
use libptytty.Sys.Balance.{hits, hits_neg, gained, lost, opens, closes, Shifts, Quiet}
use libptytty.Sys.Returns.{Returns, mono, bind, branch}
use libptytty.Sys.Quiet.{IsQuiet, seq, IsQuiet-emit, IsQuiet-if, IsQuiet-pure}
use mathlib.Core.Bool.{false≢true}
use libptytty.Config.{Config}
use libptytty.FdPass.{recv_fd}
use libptytty.FdPass.Laws.{Messages, Keeps, recv_fd-Keeps}
use libptytty.Proxy.Client.{
  Proxy, new_proxy, Result, returned, thrown, give_token, need_token, receive_tty, receive_pty,
  receive, get, get_request, destroy_request, close_tty, close_pty, delete_proxy,
}

abbrev pub owned : ℕ → Proxy → ℕ
owned n p = hits n p.pty + hits n p.tty

-- A result of `get` with what it promises: an address of the helper goes with both descriptors, none
-- with no descriptor, and an exception may leave the master in the object.
abbrev pub Outcome : Result → Proxy → Type 0
Outcome (returned true) p = ((p.id == 0) ≡ false) × (is_neg p.pty ≡ false) × (is_neg p.tty ≡ false)
Outcome (returned false) p = ((p.id == 0) ≡ true) × (is_neg p.pty ≡ true) × (is_neg p.tty ≡ true)
Outcome (thrown e) p =
    (is_neg p.tty ≡ true) × (((p.id == 0) ≡ false) ⊎ ((p.id == 0) ≡ true) × (is_neg p.pty ≡ true))

module _ (os : Os) (c : Config) (sock_fd : ℤ) (n : ℕ) where
  pub give_token-IsQuiet : IsQuiet n (give_token os c sock_fd)
  unfolding give_token gained lost
  give_token-IsQuiet =
      IsQuiet-if c.reentrant (λ _. IsQuiet-emit gave_token refl) (λ _. IsQuiet-pure tt)

  pub need_token-IsQuiet : IsQuiet n (need_token os c sock_fd)
  unfolding need_token gained lost
  need_token-IsQuiet =
      IsQuiet-if c.reentrant (λ _. IsQuiet-emit needed_token refl) (λ _. IsQuiet-pure tt)

module _ (os : Os) (c : Config) (sock_fd : ℤ) (n : ℕ) (m : Messages os c) where
  -- From `a` descriptors in hand at `w`.
  abbrev pub Acquired : ℕ → Trace → Result × Proxy → Trace → Type 0
  Acquired a w (r, p) v = Shifts n a w (owned n p) v × Outcome r p

  finish-Acquired :
      (r : Result) (p : Proxy) (w : Trace)
      → Outcome r p
      → Returns (Acquired (owned n p) w) ((give_token os c sock_fd >> pure (r, p)) w)
  finish-Acquired r p w h =
      bind (Quiet n w) (Returns (Acquired (owned n p) w)) (give_token os c sock_fd w) _
        ((give_token-IsQuiet os c sock_fd n).run w) λ _ v q. (omega (arith, q), h)

  receive_tty-Acquired :
      (p : Proxy) (w : Trace)
      → (p.id == 0) ≡ false
      → is_neg p.pty ≡ false
      → Returns (Acquired (hits n p.pty) w) (receive_tty os c sock_fd p w)
  unfolding receive_tty
  receive_tty-Acquired p w some_id pty =
      bind (Keeps os c n 0 w) (Returns (Acquired (hits n p.pty) w)) (recv_fd os c sock_fd w) _
        (recv_fd-Keeps os c n sock_fd w m)
        λ tty v q.
          let p' = record p { tty = tty } in
          branch (Returns (Acquired (hits n p.pty) w)) (is_neg tty) _ _ v
            (λ h. (omega (arith, q), (h, inl some_id)))
            (λ h.
              mono (Acquired (owned n p') v) (Acquired (hits n p.pty) w) _
                (finish-Acquired (returned true) p' v (some_id, pty, h))
                λ _ _ x. (omega (arith, q, x.0), x.1))

  receive_pty-Acquired :
      (p : Proxy) (w : Trace)
      → (p.id == 0) ≡ false
      → is_neg p.tty ≡ true
      → Returns (Acquired 0 w) (receive_pty os c sock_fd p w)
  unfolding receive_pty
  receive_pty-Acquired p w some_id tty =
      bind (Keeps os c n 0 w) (Returns (Acquired 0 w)) (recv_fd os c sock_fd w) _
        (recv_fd-Keeps os c n sock_fd w m)
        λ pty v q.
          branch (Returns (Acquired 0 w)) (is_neg pty) _ _ v
            (λ h. (omega (arith, q, hits_neg n p.tty tty), (tty, inl some_id)))
            (λ h.
              mono (Acquired (hits n pty) v) (Acquired 0 w) _
                (receive_tty-Acquired (record p { pty = pty }) v some_id h)
                λ _ _ x. (omega (arith, q, x.0), x.1))

  receive-Acquired :
      (p : Proxy) (answer : Option ℕ) (w : Trace)
      → (p.id == 0) ≡ true
      → is_neg p.pty ≡ true
      → is_neg p.tty ≡ true
      → Returns (Acquired 0 w) (receive os c sock_fd p answer w)
  unfolding receive
  receive-Acquired p none w no_id pty tty =
      (omega (arith, hits_neg n p.pty pty, hits_neg n p.tty tty), (tty, inr (no_id, pty)))
  receive-Acquired p (some id) w no_id pty tty =
      let p' = record p { id = id } in
      branch (Returns (Acquired 0 w)) (id == 0) _ _ w
        (λ h.
          mono (Acquired (owned n p') w) (Acquired 0 w) _
            (finish-Acquired (returned false) p' w (h, pty, tty))
            λ _ _ x. (omega (arith, hits_neg n p.pty pty, hits_neg n p.tty tty, x.0), x.1))
        (λ h. receive_pty-Acquired p' w h tty)

  -- Where recvmsg keeps to the format of control messages and the object holds nothing yet, on
  -- every way out of `get`, the exceptions included, the object holds each descriptor received
  -- and not closed; `true` comes with an address and both descriptors, `false` with none of
  -- them, and with an exception there is no slave, and a master only beside an address.
  pub proxy_get-Acquired :
      (p : Proxy) (w : Trace)
      → (p.id == 0) ≡ true
      → is_neg p.pty ≡ true
      → is_neg p.tty ≡ true
      → Returns (Acquired 0 w) (get os c sock_fd p w)
  unfolding get opens closes gained lost
  proxy_get-Acquired p w no_id pty tty =
      bind (Quiet n w) (Returns (Acquired 0 w)) (need_token os c sock_fd w) _
        ((need_token-IsQuiet os c sock_fd n).run w)
        λ _ v q.
          let u = wrote_command get_request ∷ v in
          let x = read_reply (os.read_reply u) ∷ u in
          mono (Acquired 0 x) (Acquired 0 w) _
            (receive-Acquired p (os.read_reply u) x no_id pty tty)
            λ _ _ y. (omega (arith, q, y.0), y.1)

-- An object without an address of the helper holds no descriptor.
abbrev pub IsConsistent : Proxy → Type 0
IsConsistent p = (p.id == 0) ≡ true → (is_neg p.pty ≡ true) × (is_neg p.tty ≡ true)

pub Outcome-IsConsistent : (r : Result) (p : Proxy) → Outcome r p → IsConsistent p
Outcome-IsConsistent (returned true) p o e = absurd (false≢true (sym o.0 ∙ e))
Outcome-IsConsistent (returned false) p o e = (o.1, o.2)
Outcome-IsConsistent (thrown _) p (tty, inl some_id) e = absurd (false≢true (sym some_id ∙ e))
Outcome-IsConsistent (thrown _) p (tty, inr (no_id, pty)) e = (pty, tty)

module _ (os : Os) (c : Config) (sock_fd : ℤ) (n : ℕ) where
  -- The slave is given back, and nothing else changes.
  abbrev Loosened : Proxy → Trace → Proxy → Trace → Type 0
  Loosened p w p' v = Shifts n (owned n p) w (hits n p'.pty) v × (p'.id ≡ p.id)

  close_tty-Loosened : (p : Proxy) (w : Trace) → Returns (Loosened p w) (close_tty os c sock_fd p w)
  unfolding close_tty opens closes gained lost
  close_tty-Loosened p w =
      branch (Returns (Loosened p w)) (is_neg p.tty) _ _ w
        (λ h. (omega (arith, hits_neg n p.tty h), refl)) (λ _. (omega arith, refl))

  abbrev pub Released : ℕ → Trace → Unit {0} → Trace → Type 0
  Released a w _ v = Shifts n a w 0 v

  close_pty-Released :
      (p : Proxy) (w : Trace) → Returns (Released (hits n p.pty) w) (close_pty os c sock_fd p w)
  unfolding close_pty opens closes gained lost
  close_pty-Released p w =
      branch (Returns (Released (hits n p.pty) w)) (is_neg p.pty) _ _ w
        (λ h. omega (arith, hits_neg n p.pty h)) (λ _. omega arith)

  farewell-IsQuiet :
      (id : ℕ)
      → IsQuiet n (do
        need_token os c sock_fd
        emit (wrote_command (destroy_request id))
        give_token os c sock_fd)
  unfolding gained lost
  farewell-IsQuiet id = seq (need_token-IsQuiet os c sock_fd n) λ _.
      seq (IsQuiet-emit (wrote_command (destroy_request id)) refl)
        λ _. give_token-IsQuiet os c sock_fd n

  pub delete_proxy-Released :
      (p : Proxy) (w : Trace)
      → IsConsistent p
      → Returns (Released (owned n p) w) (delete_proxy os c sock_fd p w)
  unfolding delete_proxy
  delete_proxy-Released p w ok =
      let Goal : Run (Unit {0}) → Type 0 = Returns (Released (owned n p) w) in
      branch Goal (p.id == 0) (pure tt) _ w
        (λ h. omega (arith, hits_neg n p.pty (ok h).0, hits_neg n p.tty (ok h).1))
        (λ _.
          bind (Loosened p w) Goal (close_tty os c sock_fd p w) _ (close_tty-Loosened p w) λ p' v q.
            bind (Released (hits n p'.pty) v) Goal (close_pty os c sock_fd p' v) _
              (close_pty-Released p' v)
              λ _ u x.
                mono (Quiet n u) (Released (owned n p) w) _ ((farewell-IsQuiet p'.id).run u)
                  λ _ _ y. omega (arith, q.0, x, y))

-- `new`, `get`, `delete`; an exception of `get` is caught by the client, which deletes the object.
unfoldable pub proxy_life : Os → Config → ℤ → M (Unit {0})
proxy_life os c sock_fd = do (r, p) ← get os c sock_fd new_proxy; delete_proxy os c sock_fd p

-- Where recvmsg keeps to the format of control messages, the life of a `ptytty_proxy` returns:
-- after `get`, also one that throws, and the destructor, each descriptor that arrived or was
-- opened was closed as often.
pub proxy_life-Quiet :
    (os : Os) (c : Config) (sock_fd : ℤ) (n : ℕ) (w : Trace)
    → Messages os c
    → Returns (Quiet n w) (proxy_life os c sock_fd w)
unfolding proxy_life new_proxy
proxy_life-Quiet os c sock_fd n w m =
    bind (Acquired os c sock_fd n m 0 w) (Returns (Quiet n w)) (get os c sock_fd new_proxy w) _
      (proxy_get-Acquired os c sock_fd n m new_proxy w refl refl refl)
      λ (r, p) v q.
        mono (Released os c sock_fd n (owned n p) v) (Quiet n w) _
          (delete_proxy-Released os c sock_fd n p v (Outcome-IsConsistent r p q.1))
          λ _ _ x. omega (arith, q.0, x)
