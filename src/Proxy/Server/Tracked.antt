-- ===== src/Proxy/Server/Tracked.antt =====
-- The session of one client's object, while the helper (src/proxy.C) serves all clients.
use libptytty.Base.{
  ℕ, ◌≡◌, refl, sym, ap, ◌∙◌, ℤ, Bool, true, false, Option, none, some, List, [], ◌∷◌, ◌==◌, not,
  ◌&&◌, is_some, arith, if◌then◌else◌, Bool-cases, inl, inr, Bytes,
}
use libptytty.Sys.{
  Os, Command, Trace, Kind, Run, and_then, get_pty, log_in, destroy, unknown, M, pure, read_command,
  ◌>>◌,
}
use libptytty.Sys.Gives.{Gives, Gives-bind, Gives-mono, Gives-call, Gives-both, Returns-Gives}
use libptytty.Sys.Returns.{Returns, mono, both, branch}
use libptytty.Config.{Config, Database}
use libptytty.Session.{login, login_with, log_session, is_unnamed}
use libptytty.Unix.{TtyConf, Unix}
use libptytty.Unix.Ownership.{Terminals}
use libptytty.Proxy.Server.{
  State, serve_loop, handle, handle_get, handle_destroy, destroy_at, handle_login, login_object,
  host_of, give_token, need_token,
}
use libptytty.Proxy.Server.Objects.{Heap, find, lookup, store}
use libptytty.Proxy.Server.Laws.{is_some-find}
use libptytty.Proxy.Server.Safety.{IsValid}
use libptytty.Proxy.Server.Serve.{serve_loop-Keeps, handle-Keeps}
use libptytty.Proxy.Server.Isolated.{handle_get-Same, handle_login-Same, destroy_at-Same}

lookup-store_same :
    (k : ℕ) (o o' : Unix) (h : Heap) → lookup k h ≡ some o → lookup k (store k o' h) ≡ some o'
unfolding lookup store
lookup-store_same k o o' [] e = cc
lookup-store_same k o o' ((j, p) ∷ h) e = ground (arith, lookup-store_same k o o' h)

-- What a login leaves of the object.
abbrev pub logged : Config → Unix → ℤ → Bool → Unix
logged c o pid shell =
    if is_some c.utmp_support && not (is_unnamed o.name)
    then record o { cmd_pid = pid; login_shell = some shell }
    else o

-- The object at `id` by the commands that are handled.
abbrev pub next : Config → ℕ → Kind → Command → (Unix → Unix) → Unix → Unix
next c id get_pty cmd rest o = rest o
next c id log_in cmd rest o =
    rest (if cmd.id == id then logged c o cmd.cmd_pid cmd.login_shell else o)
next c id destroy cmd rest o = rest o
next c id unknown cmd rest o = o

abbrev pub tracked : Config → ℕ → List Command → Unix → Unix
tracked c id [] o = o
tracked c id (cmd ∷ cmds) o = next c id cmd.kind cmd (tracked c id cmds) o

-- No command is a destroy of `id`.
abbrev pub IsKeeping : ℕ → Kind → Command → Type 0
IsKeeping id destroy cmd = (cmd.id == id) ≡ false
IsKeeping id _ cmd = Unit {0}

abbrev pub AllKeeping : ℕ → List Command → Type 0
AllKeeping id [] = Unit {0}
AllKeeping id (cmd ∷ cmds) = IsKeeping id cmd.kind cmd × AllKeeping id cmds

module _ (os : Os) (c : Config) where
  login-logged :
      (u : Option Database) (o : Unix) (pid : ℤ) (shell : Bool) (host : Option Bytes) (w : Trace)
      → c.utmp_support ≡ u
      → Gives (λ o'. o' ≡ logged c o pid shell) (login_with os c u o pid shell host w)
  unfolding login_with
  login-logged none o pid shell host w e = rw e refl
  login-logged (some db) o pid shell host w e =
      branch (Gives (λ o'. o' ≡ logged c o pid shell)) (is_unnamed o.name) _ _ w
        (λ unnamed. rw (e, unnamed) refl)
        (λ named. Gives-call _ (log_session os c db _ true host w) _ λ _ v. rw (e, named) refl)

module _ (os : Os) (c : Config) (conf : TtyConf) (sock_fd : ℤ) (id : ℕ) where
  -- The object at `id` is `o`.
  abbrev IsAt : Unix → State → Type 0
  IsAt o s = lookup id s.heap ≡ some o

  login_object-own :
      (cmd : Command) (s : State) (o : Unix) (w : Trace)
      → cmd.id ≡ id
      → IsAt o s
      → Gives
          (IsAt (logged c o cmd.cmd_pid cmd.login_shell))
          (login_object os c conf sock_fd cmd s w)
  unfolding login_object login
  login_object-own cmd s o w same there =
      let here : lookup cmd.id s.heap ≡ some o = ap (λ k. lookup k s.heap) same ∙ there in
      rw here (
        Gives-bind (λ o'. o' ≡ logged c o cmd.cmd_pid cmd.login_shell)
          (IsAt (logged c o cmd.cmd_pid cmd.login_shell))
          (login_with os c c.utmp_support o cmd.cmd_pid cmd.login_shell
            (some (host_of cmd.hostname)) w)
          _
          (login-logged os c c.utmp_support o cmd.cmd_pid cmd.login_shell
            (some (host_of cmd.hostname)) w refl)
          λ o' v e.
            ap (λ k. lookup k (store cmd.id o' s.heap)) (sym same)
            ∙ lookup-store_same cmd.id o o' s.heap here
            ∙ ap some e)

  handle_login-own :
      (cmd : Command) (s : State) (o : Unix) (w : Trace)
      → cmd.id ≡ id
      → IsValid c s
      → IsAt o s
      → Gives
          (IsAt (logged c o cmd.cmd_pid cmd.login_shell))
          (handle_login os c conf sock_fd cmd s w)
  unfolding handle_login
  handle_login-own cmd s o w same valid there =
      let known : is_some (find cmd.id s.ptys) ≡ true =
        ap (λ ids. is_some (find cmd.id ids)) valid.live
        ∙ is_some-find cmd.id s.heap
        ∙ ap (λ k. is_some (lookup k s.heap)) same
        ∙ ap is_some there in
      branch (Gives (IsAt (logged c o cmd.cmd_pid cmd.login_shell))) (not (is_some c.utmp_support))
        (pure s) _ w
        (λ off. let e : is_some c.utmp_support ≡ false = ground (arith, off) in rw e there)
        (λ _. rw known (login_object-own cmd s o w same there))

  -- What is to come is done on the object as it is then.
  abbrev Leads : List Command → Unix → Bool × State → Type 0
  Leads cmds o (more, s) =
      (o' : Unix) × (IsAt o' s × ((if more then tracked c id cmds o' else o') ≡ o))

  going_on :
      (cmds : List Command) (o : Unix) (r : Run State)
      → Gives (IsAt o) r
      → Gives (Leads cmds (tracked c id cmds o)) (and_then r λ s. pure (true, s))
  going_on cmds o r h =
      Gives-bind (IsAt o) (Leads cmds (tracked c id cmds o)) r _ h λ s v e. (o, (e, refl))

  module _ (fresh : (w : Trace) → (os.new_object w == id) ≡ false) where
    handle-Leads :
        (k : Kind) (cmd : Command) (s : State) (o : Unix) (cmds : List Command) (w : Trace)
        → IsKeeping id k cmd
        → IsValid c s
        → IsAt o s
        → Gives
            (Leads cmds (next c id k cmd (tracked c id cmds) o))
            (handle os c conf sock_fd k cmd s w)
    unfolding handle handle_destroy
    handle-Leads get_pty cmd s o cmds w keeping valid there = going_on cmds o _ (
        Gives-mono _ (IsAt o) (handle_get os c conf sock_fd s w)
          (handle_get-Same os c conf sock_fd id fresh s w) λ s' e. e ∙ there)
    handle-Leads log_in cmd s o cmds w keeping valid there = elim (Bool-cases (cmd.id == id)) [
      | inl own ↦
          let same : cmd.id ≡ id = ground (arith, own) in
          rw own (
            going_on cmds (logged c o cmd.cmd_pid cmd.login_shell) _
              (handle_login-own cmd s o w same valid there))
      | inr other ↦ rw other (
          going_on cmds o _ (
            Gives-mono _ (IsAt o) (handle_login os c conf sock_fd cmd s w)
              (handle_login-Same os c conf sock_fd id cmd s w other) λ s' e. e ∙ there))
    ]
    handle-Leads destroy cmd s o cmds w keeping valid there = going_on cmds o _ (
        Gives-mono _ (IsAt o) (destroy_at os c conf sock_fd cmd.id s (find cmd.id s.ptys) w)
          (destroy_at-Same os c conf sock_fd id cmd.id s (find cmd.id s.ptys) w keeping)
          λ s' e. e ∙ there)
    handle-Leads unknown cmd s o cmds w keeping valid there = (o, (there, refl))

    serve_loop-IsAt :
        (cmds : List Command) (s : State) (o : Unix) (w : Trace)
        → Terminals os
        → AllKeeping id cmds
        → IsValid c s
        → IsAt o s
        → Gives (IsAt (tracked c id cmds o)) (serve_loop os c conf sock_fd cmds s w)
    unfolding serve_loop
    serve_loop-IsAt [] s o w t keeping valid there =
        Gives-call (IsAt o) (give_token os c conf sock_fd w) _ λ _ v. there
    serve_loop-IsAt (cmd ∷ cmds) s o w t keeping valid there =
        let again : State → M State =
          λ s. need_token os c conf sock_fd >> serve_loop os c conf sock_fd cmds s in
        let end = tracked c id (cmd ∷ cmds) o in
        Gives-call (IsAt end) (give_token os c conf sock_fd w) _ λ _ v.
          let run = handle os c conf sock_fd cmd.kind cmd s (read_command (some cmd) ∷ v) in
          Gives-bind (λ x. IsValid c x.1 × Leads cmds end x) (IsAt end) run
            (λ (more, s). if more then again s else pure s)
            (Gives-both (λ x. IsValid c x.1) (Leads cmds end) run
              (mono _ (λ x _. IsValid c x.1) run
                (handle-Keeps os c conf sock_fd 0 t cmd.kind cmd s _ valid) λ x _ p. p.1)
              (handle-Leads cmd.kind cmd s o cmds _ keeping.0 valid there))
            λ (more, s') x (valid', (o', (e, q))).
              branch (Gives (IsAt end)) more (again s') (pure s') x
                (λ on. Gives-call (IsAt end) (need_token os c conf sock_fd x) _ λ _ y.
                  let later : tracked c id cmds o' ≡ end = rw on at q in
                  Gives-mono (IsAt (tracked c id cmds o')) (IsAt end)
                    (serve_loop os c conf sock_fd cmds s' y)
                    (serve_loop-IsAt cmds s' o' y t keeping.1 valid' e)
                    λ s'' e'. e' ∙ ap some later)
                (λ off. let now : o' ≡ end = rw off at q in e ∙ ap some now)

    -- The object at its address, in the vector.
    abbrev pub Tracked : List Command → Unix → State → Trace → Type 0
    Tracked cmds o s v = IsAt (tracked c id cmds o) s × (is_some (find id s.ptys) ≡ true)

    -- Where ptsname and ttyname give a name, open gives -1 or a descriptor and openpty two
    -- descriptors, the loop of `serve` returns, from a vector that has the addresses of the
    -- objects that live, one of them at `id`, for every list of commands, of this client and of
    -- others, in which no destroy names `id`, which is not the address of a new object. The
    -- vector then has `id`, and the object there is as before, but, with UTMP_SUPPORT and if it
    -- has a name, for the process and the flag of a login shell of the last login that names it
    -- among the commands handled, up to the first unknown one.
    pub serve_loop-Tracked :
        (cmds : List Command) (s : State) (o : Unix) (w : Trace)
        → Terminals os
        → AllKeeping id cmds
        → IsValid c s
        → lookup id s.heap ≡ some o
        → Returns (Tracked cmds o) (serve_loop os c conf sock_fd cmds s w)
    serve_loop-Tracked cmds s o w t keeping valid there =
        let run = serve_loop os c conf sock_fd cmds s w in
        let end = tracked c id cmds o in
        let keeps = serve_loop-Keeps os c conf sock_fd 0 t cmds s w valid in
        let at =
          Returns-Gives _ (IsAt end) run keeps (serve_loop-IsAt cmds s o w t keeping valid there) in
        mono (λ s' v. IsValid c s' × IsAt end s') (Tracked cmds o) run
          (both (λ s' _. IsValid c s') (λ s' _. IsAt end s') run
            (mono _ (λ s' _. IsValid c s') run keeps λ s' v p. p.1) at)
          λ s' v (valid', e). (
            e,
            ap (λ ids. is_some (find id ids)) valid'.live ∙ is_some-find id s'.heap ∙ ap is_some e,
          )
