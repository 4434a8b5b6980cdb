-- ===== src/Proxy/Commands.antt =====
-- What a client (src/proxy.C) writes to the helper for a session: its logins, and the destructor.
use mathlib.Core.List.{append_assoc}
use libptytty.Base.{
  ℕ, ◌≡◌, refl, ap, ◌∙◌, ℤ, Bool, false, Bytes, List, [], ◌∷◌, ◌++◌, some, strncpy, ◌==◌, is_neg,
}
use libptytty.Sys.{Os, Command, Trace, log_in, wrote_command, M, ◌>>=◌, ◌>>◌, emit}
use libptytty.Sys.Returns.{Returns, bind, branch, mono}
use libptytty.Config.{Config}
use libptytty.Proxy.Hostname.{NoZero}
use libptytty.Proxy.Client.{
  Proxy, give_token, need_token, login, close_tty, close_pty, delete_proxy, destroy_request,
}

-- The arguments of a login, the host name present.
pub record Login : Type 0 where
  pub cmd_pid : ℤ
  pub login_shell : Bool
  pub hostname : Bytes

-- No host name holds the terminator.
abbrev pub NoZeros : List Login → Type 0
NoZeros [] = Unit {0}
NoZeros (l ∷ ls) = NoZero l.hostname × NoZeros ls

abbrev pub login_request : ℕ → Login → Command
login_request id l = record {
  kind = log_in;
  id = id;
  login_shell = l.login_shell;
  cmd_pid = l.cmd_pid;
  hostname = strncpy l.hostname 512;
}

abbrev pub session_commands : ℕ → List Login → List Command
session_commands id [] = destroy_request id ∷ []
session_commands id (l ∷ ls) = login_request id l ∷ session_commands id ls

-- The commands that were written, the first one first.
unfoldable pub written : Trace → List Command
written [] = []
written (wrote_command cmd ∷ w) = written w ++ (cmd ∷ [])
written (_ ∷ w) = written w

-- Between two traces the commands were written.
abbrev pub Writes {ℓ} : {A : Type ℓ} → List Command → Trace → A → Trace → Type 0
Writes cmds w a v = written v ≡ written w ++ cmds

module _ (os : Os) (c : Config) (sock_fd : ℤ) where
  -- The calls of a client behind a `get` that returned true.
  unfoldable pub client_session : Proxy → List Login → M (Unit {0})
  client_session p [] = delete_proxy os c sock_fd p
  client_session p (l ∷ ls) = do
    login os c sock_fd p l.cmd_pid l.login_shell (some l.hostname)
    client_session p ls

  pub need_token-Writes :
      (w : Trace) → Returns (λ _ v. written v ≡ written w) (need_token os c sock_fd w)
  unfolding need_token written
  need_token-Writes w =
      branch (Returns (λ _ v. written v ≡ written w)) c.reentrant _ _ w (λ _. refl) (λ _. refl)

  pub give_token-Writes :
      (w : Trace) → Returns (λ _ v. written v ≡ written w) (give_token os c sock_fd w)
  unfolding give_token written
  give_token-Writes w =
      branch (Returns (λ _ v. written v ≡ written w)) c.reentrant _ _ w (λ _. refl) (λ _. refl)

  sent-Writes :
      (cmd : Command) (w : Trace)
      → Returns
          (Writes (cmd ∷ []) w)
          ((need_token os c sock_fd >> (emit (wrote_command cmd) >> give_token os c sock_fd)) w)
  unfolding written
  sent-Writes cmd w =
      bind (λ _ v. written v ≡ written w) (Returns (Writes (cmd ∷ []) w))
        (need_token os c sock_fd w) _ (need_token-Writes w)
        λ _ v e.
          mono _ (Writes (cmd ∷ []) w) (give_token os c sock_fd (wrote_command cmd ∷ v))
            (give_token-Writes (wrote_command cmd ∷ v)) λ _ u e'. e' ∙ ap (λ x. x ++ (cmd ∷ [])) e

  close_tty-Writes :
      (p : Proxy) (w : Trace)
      → Returns (λ p' v. (written v ≡ written w) × (p'.id ≡ p.id)) (close_tty os c sock_fd p w)
  unfolding close_tty written
  close_tty-Writes p w =
      branch (Returns (λ (p' : Proxy) v. (written v ≡ written w) × (p'.id ≡ p.id))) (is_neg p.tty) _
        _ w (λ _. (refl, refl)) (λ _. (refl, refl))

  close_pty-Writes :
      (p : Proxy) (w : Trace) → Returns (λ _ v. written v ≡ written w) (close_pty os c sock_fd p w)
  unfolding close_pty written
  close_pty-Writes p w =
      branch (Returns (λ _ v. written v ≡ written w)) (is_neg p.pty) _ _ w (λ _. refl) (λ _. refl)

  close_both-Writes :
      (p : Proxy) (k : Proxy → M (Unit {0})) (w : Trace)
      → ((p' : Proxy) (v : Trace)
          → (p'.id ≡ p.id)
          → Returns (Writes (destroy_request p.id ∷ []) v) (k p' v))
      → Returns
          (Writes (destroy_request p.id ∷ []) w)
          ((close_tty os c sock_fd p >>= λ p'. close_pty os c sock_fd p' >> k p') w)
  close_both-Writes p k w h =
      bind (λ p' v. (written v ≡ written w) × (p'.id ≡ p.id))
        (Returns (Writes (destroy_request p.id ∷ []) w)) (close_tty os c sock_fd p w) _
        (close_tty-Writes p w)
        λ p' v (e, same).
          bind (λ _ u. written u ≡ written v) (Returns (Writes (destroy_request p.id ∷ []) w))
            (close_pty os c sock_fd p' v) (λ _. k p') (close_pty-Writes p' v)
            λ _ u e'.
              mono (Writes (destroy_request p.id ∷ []) u) (Writes (destroy_request p.id ∷ []) w)
                (k p' u) (h p' u same)
                λ _ x e''. e'' ∙ ap (λ s. s ++ (destroy_request p.id ∷ [])) (e' ∙ e)

  delete_proxy-Writes :
      (p : Proxy) (w : Trace)
      → (p.id == 0) ≡ false
      → Returns (Writes (destroy_request p.id ∷ []) w) (delete_proxy os c sock_fd p w)
  unfolding delete_proxy
  delete_proxy-Writes p w there =
      rw there (close_both-Writes p _ w λ p' v same. rw same (sent-Writes (destroy_request p.id) v))

  pub client_session-Writes :
      (p : Proxy) (ls : List Login) (w : Trace)
      → (p.id == 0) ≡ false
      → Returns (Writes (session_commands p.id ls) w) (client_session p ls w)
  unfolding client_session login
  client_session-Writes p [] w there = delete_proxy-Writes p w there
  client_session-Writes p (l ∷ ls) w there =
      bind (Writes (login_request p.id l ∷ []) w)
        (Returns (Writes (session_commands p.id (l ∷ ls)) w))
        (login os c sock_fd p l.cmd_pid l.login_shell (some l.hostname) w) _
        (sent-Writes (login_request p.id l) w)
        λ _ v e.
          mono (Writes (session_commands p.id ls) v) (Writes (session_commands p.id (l ∷ ls)) w) _
            (client_session-Writes p ls v there)
            λ _ u e'.
              e'
              ∙ ap (λ x. x ++ session_commands p.id ls) e
              ∙ append_assoc (written w) (login_request p.id l ∷ []) (session_commands p.id ls)
