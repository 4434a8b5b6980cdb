-- ===== src/Proxy/Server/Follows.antt =====
-- What the commands of `serve` (src/proxy.C) do to its vector.
use libptytty.Base.{
  ℕ, ◌≤◌, ◌≡◌, ◌⊎◌, inl, inr, refl, sym, ap, ◌∙◌, subst, ℤ, Bool, true, false, Option, none, some,
  List, [], ◌∷◌, arith, length, is_some, not, if◌then◌else◌,
}
use libptytty.Sys.{Os, Command, Trace, Kind, get_pty, log_in, destroy, unknown, M, pure, ◌>>◌}
use libptytty.Sys.Gives.{Gives, Gives-bind, Gives-mono, Gives-call}
use libptytty.Sys.Returns.{branch}
use libptytty.Config.{Config}
use libptytty.Sys.{deref}
use libptytty.FdPass.{send_fd}
use libptytty.Session.{delete_unix, login}
use libptytty.Unix.{TtyConf, Unix, get, new_unix, close_tty}
use libptytty.Proxy.Server.{
  State, serve_loop, handle, handle_get, handle_login, handle_destroy, login_object, destroy_at,
  reply_get, retain, delete_object, host_of, give_token, need_token,
}
use libptytty.Proxy.Server.Objects.{find, lookup}
use libptytty.Proxy.Server.Vector.{Change, keeps, drops, change_list, changes_list, drop_listed}

-- The changes that a list of commands may ask for: a `destroy` always does, a `get` where a terminal
-- is found, a `login` never, and an unknown command is the last one.
pub data Asked : List Command → List Change → Type 0 where
  ended : Asked [] []
  stopped : (cmd : Command) (cmds : List Command) → cmd.kind ≡ unknown → Asked (cmd ∷ cmds) []
  kept :
      (cmd : Command) (cmds : List Command) (cs : List Change) (id : ℕ)
      → cmd.kind ≡ get_pty
      → Asked cmds cs
      → Asked (cmd ∷ cmds) (keeps id ∷ cs)
  failed :
      (cmd : Command) (cmds : List Command) (cs : List Change)
      → cmd.kind ≡ get_pty
      → Asked cmds cs
      → Asked (cmd ∷ cmds) cs
  logged :
      (cmd : Command) (cmds : List Command) (cs : List Change)
      → cmd.kind ≡ log_in
      → Asked cmds cs
      → Asked (cmd ∷ cmds) cs
  dropped :
      (cmd : Command) (cmds : List Command) (cs : List Change)
      → cmd.kind ≡ destroy
      → Asked cmds cs
      → Asked (cmd ∷ cmds) (drops cmd.id ∷ cs)

pub Asked-length :
    (cmds : List Command) (cs : List Change) → Asked cmds cs → length cs ≤ length cmds
Asked-length _ _ ended = omega arith
Asked-length _ _ (stopped cmd cmds e) = omega arith
Asked-length _ _ (kept cmd cmds cs id e a) = omega (arith, Asked-length cmds cs a)
Asked-length _ _ (failed cmd cmds cs e a) = omega (arith, Asked-length cmds cs a)
Asked-length _ _ (logged cmd cmds cs e a) = omega (arith, Asked-length cmds cs a)
Asked-length _ _ (dropped cmd cmds cs e a) = omega (arith, Asked-length cmds cs a)

module _ (os : Os) (c : Config) (conf : TtyConf) (sock_fd : ℤ) where
  abbrev Same : State → State → Type 0
  Same s s' = s'.ptys ≡ s.ptys

  abbrev Gets : State → State → Type 0
  Gets s s' = Same s s' ⊎ ((id : ℕ) × (s'.ptys ≡ change_list (keeps id) s.ptys))

  retain-keeps :
      (id : ℕ) (s : State) (o : Unix) (w : Trace)
      → Gives (λ s'. s'.ptys ≡ change_list (keeps id) s.ptys) (retain os c conf sock_fd id s o w)
  unfolding retain
  retain-keeps id s o w = Gives-call _ (close_tty o w) _ λ o' v. refl

  reply_get-Gets :
      (id : ℕ) (s : State) (got : Bool) (o : Unix) (w : Trace)
      → Gives (Gets s) (reply_get os c conf sock_fd id s (got, o) w)
  unfolding reply_get
  reply_get-Gets id s true o w = Gives-call (Gets s) (send_fd os c sock_fd o.pty _) _ λ _ v.
      Gives-call (Gets s) (send_fd os c sock_fd o.tty v) _ λ _ u.
        Gives-mono _ (Gets s) (retain os c conf sock_fd id s o u) (retain-keeps id s o u)
          λ s' e. inr (id, e)
  reply_get-Gets id s false o w = Gives-call (Gets s) (delete_unix os c conf o w) _ λ _ v. inl refl

  handle_get-Gets : (s : State) (w : Trace) → Gives (Gets s) (handle_get os c conf sock_fd s w)
  unfolding handle_get
  handle_get-Gets s w =
      Gives-call (Gets s) (get os c conf new_unix _) _ λ (got, o) u. reply_get-Gets _ s got o u

  handle_login-Same :
      (cmd : Command) (s : State) (w : Trace)
      → Gives (Same s) (handle_login os c conf sock_fd cmd s w)
  unfolding handle_login login_object
  handle_login-Same cmd s w =
      branch (Gives (Same s)) (not (is_some c.utmp_support)) (pure s) _ w (λ _. refl)
        λ _.
          branch (Gives (Same s)) (is_some (find cmd.id s.ptys))
            (login_object os c conf sock_fd cmd s) (pure s) w
            (λ _. Gives-call (Same s) (deref (lookup cmd.id s.heap) w) _ λ o v.
              Gives-call (Same s)
                (login os c o cmd.cmd_pid cmd.login_shell (some (host_of cmd.hostname)) v) _
                λ o' u. refl)
            (λ _. refl)

  destroy_at-drops :
      (id : ℕ) (s : State) (found : Option ℕ) (w : Trace)
      → Gives (λ s'. s'.ptys ≡ drop_listed found s.ptys) (destroy_at os c conf sock_fd id s found w)
  unfolding destroy_at
  destroy_at-drops id s none w = refl
  destroy_at-drops id s (some i) w =
      Gives-call _ (delete_object os c conf sock_fd id s.heap w) _ λ h v. refl

  -- The vector after the commands, from the one before.
  abbrev pub After : List Command → State → State → Type 0
  After cmds s s' = (cs : List Change) × (Asked cmds cs × (s'.ptys ≡ changes_list cs s.ptys))

  -- What is to come after a command.
  abbrev Rest : List Command → State → State → Bool → Type 0
  Rest cmds s s' more = if more then After cmds s s' else (s'.ptys ≡ s.ptys)

  abbrev Handled : Command → State → Bool × State → Type 0
  Handled cmd s (more, s') =
      (cmds : List Command) (s'' : State) → Rest cmds s' s'' more → After (cmd ∷ cmds) s s''

  handle-Handled :
      (k : Kind) (cmd : Command) (s : State) (w : Trace)
      → cmd.kind ≡ k
      → Gives (Handled cmd s) (handle os c conf sock_fd k cmd s w)
  unfolding handle handle_destroy
  handle-Handled get_pty cmd s w e =
      Gives-bind (Gets s) (Handled cmd s) (handle_get os c conf sock_fd s w) _ (handle_get-Gets s w)
        λ s' v g cmds s'' (cs, (a, q)). elim g [
          | inl same ↦ (cs, (failed cmd cmds cs e a, q ∙ ap (changes_list cs) same))
          | inr (id, new) ↦ (keeps id ∷ cs, (kept cmd cmds cs id e a, q ∙ ap (changes_list cs) new))
        ]
  handle-Handled log_in cmd s w e =
      Gives-bind (Same s) (Handled cmd s) (handle_login os c conf sock_fd cmd s w) _
        (handle_login-Same cmd s w)
        λ s' v g cmds s'' (cs, (a, q)). (cs, (logged cmd cmds cs e a, q ∙ ap (changes_list cs) g))
  handle-Handled destroy cmd s w e =
      Gives-bind (λ s'. s'.ptys ≡ change_list (drops cmd.id) s.ptys) (Handled cmd s)
        (handle_destroy os c conf sock_fd cmd s w) _
        (destroy_at-drops cmd.id s (find cmd.id s.ptys) w)
        λ s' v g cmds s'' (cs, (a, q)).
          (drops cmd.id ∷ cs, (dropped cmd cmds cs e a, q ∙ ap (changes_list cs) g))
  handle-Handled unknown cmd s w e = λ cmds s'' q. ([], (stopped cmd cmds e, q))

  pub serve_loop-After :
      (cmds : List Command) (s : State) (w : Trace)
      → Gives (After cmds s) (serve_loop os c conf sock_fd cmds s w)
  unfolding serve_loop
  serve_loop-After [] s w =
      Gives-call (After [] s) (give_token os c conf sock_fd w) _ λ _ v. ([], (ended, refl))
  serve_loop-After (cmd ∷ cmds) s w =
      let again : State → M State =
        λ s. need_token os c conf sock_fd >> serve_loop os c conf sock_fd cmds s in
      Gives-call (After (cmd ∷ cmds) s) (give_token os c conf sock_fd w) _ λ _ v.
        Gives-bind (Handled cmd s) (After (cmd ∷ cmds) s)
          (handle os c conf sock_fd cmd.kind cmd s _)
          (λ (more, s). if more then again s else pure s) (handle-Handled cmd.kind cmd s _ refl)
          λ (more, s') x p.
            branch (Gives (After (cmd ∷ cmds) s)) more (again s') (pure s') x
              (λ e. Gives-call (After (cmd ∷ cmds) s) (need_token os c conf sock_fd x) _ λ _ y.
                Gives-mono _ (After (cmd ∷ cmds) s) (serve_loop os c conf sock_fd cmds s' y)
                  (serve_loop-After cmds s' y)
                  λ s'' q. p cmds s'' (subst (Rest cmds s' s'') (sym e) q))
              (λ e. p cmds s' (subst (Rest cmds s' s') (sym e) refl))
