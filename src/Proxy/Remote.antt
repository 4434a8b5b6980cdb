-- ===== src/Proxy/Remote.antt =====
-- The life of a terminal in the helper (src/proxy.C), from the client's `get` to its destructor.
use libptytty.Base.{
  ℕ, ◌≡◌, refl, sym, ap, ◌∙◌, ◌⊎◌, inl, inr, ℤ, true, false, not, List, [], ◌∷◌, ◌++◌, ◌==◌,
  Bool-cases, if◌then◌else◌,
}
use mathlib.Core.List.{append_assoc, append-nil}
use libptytty.Sys.{Os, Command, Trace, M, Run, ok, pure, and_then, ◌>>=◌}
use libptytty.Sys.Returns.{Returns, mono, bind, given}
use libptytty.Config.{Config}
use libptytty.Unix.{Unix, TtyConf}
use libptytty.Unix.Ownership.{Terminals}
use libptytty.Proxy.Client.{Proxy, Result, returned, new_proxy, get, delete_proxy, get_request}
use libptytty.Proxy.Client.Answered.{Answers, Requested, get-Requested}
use libptytty.Proxy.Commands.{
  Login, NoZeros, Writes, written, session_commands, client_session, client_session-Writes,
}
use libptytty.Proxy.Server.{State, handle, handle_get}
use libptytty.Proxy.Server.Direct.{IsFresh, holding, session_direct, handle_all, handle_all-direct}
use libptytty.Proxy.Server.Replies.{reply_of, IsServed, Replied, handle_get-Replied}

-- What a client writes behind its request, by the answer it reads.
abbrev pub rest_commands : ℕ → List Login → List Command
rest_commands reply ls = if reply == 0 then [] else session_commands reply ls

module _ (os : Os) (c : Config) (sock_fd : ℤ) where
  -- `get`, the logins where it returns true, and the destructor.
  unfoldable pub after_get : List Login → Result → Proxy → M (Unit {0})
  after_get ls (returned true) p = client_session os c sock_fd p ls
  after_get ls _ p = delete_proxy os c sock_fd p

  unfoldable pub client_life : List Login → M (Unit {0})
  client_life ls = get os c sock_fd new_proxy >>= λ (r, p). after_get ls r p

  after_get-Writes :
      (reply : ℕ) (ls : List Login) (r : Result) (p : Proxy) (v : Trace)
      → p.id ≡ reply
      → r ≡ returned (not (reply == 0))
      → Returns (Writes (rest_commands reply ls) v) (after_get ls r p v)
  unfolding after_get delete_proxy
  after_get-Writes reply ls r p v same result = elim (Bool-cases (reply == 0)) [
    | inl refused ↦
        let e : r ≡ returned false = rw refused at result in
        rw (e, same, refused) (sym (append-nil (written v)))
    | inr granted ↦
        let e : r ≡ returned true = rw granted at result in
        let there : (p.id == 0) ≡ false = ap (λ k. k == 0) same ∙ granted in
        rw (e, granted, sym same) (client_session-Writes os c sock_fd p ls v there)
  ]

  client_life-Writes :
      (reply : ℕ) (ls : List Login) (w : Trace)
      → Answers os c sock_fd reply
      → Returns (Writes (get_request ∷ rest_commands reply ls) w) (client_life ls w)
  unfolding client_life
  client_life-Writes reply ls w a =
      bind (Requested os c sock_fd reply a w)
        (Returns (Writes (get_request ∷ rest_commands reply ls) w)) (get os c sock_fd new_proxy w) _
        (get-Requested os c sock_fd reply a new_proxy w)
        λ (r, p) v (e, same, result).
          mono (Writes (rest_commands reply ls) v) (Writes (get_request ∷ rest_commands reply ls) w)
            _ (after_get-Writes reply ls r p v same result)
            λ _ u e'.
              e'
              ∙ ap (λ x. x ++ rest_commands reply ls) e
              ∙ append_assoc (written w) (get_request ∷ []) (rest_commands reply ls)

-- The helper: its system, its end of the socket, its objects and what happened before.
pub record Helper : Type 0 where
  pub os : Os
  pub sock_fd : ℤ
  pub state : State
  pub past : Trace

module _ (c : Config) (conf : TtyConf) (hp : Helper) where
  abbrev pub handles : List Command → Run State
  handles cmds = handle_all hp.os c conf hp.sock_fd cmds hp.state hp.past

  abbrev pub new_id : ℕ
  new_id = hp.os.new_object hp.past

  -- Behind the helper's answer, at `v`: without an object nothing else happens; with an object the
  -- client's calls are made on it, and its state is then as before.
  abbrev Handled : List Login → List Command → State → Trace → Type 0
  Handled ls cmds s v =
      ((reply_of v ≡ 0) × (handles cmds ≡ ok hp.state v))
      ⊎ ((o : Unix) × ((s ≡ holding (reply_of v) o hp.state)
            × IsServed o
            × (handles cmds ≡ and_then (session_direct hp.os c conf ls o v) λ _. pure hp.state)))

  request-first :
      (cmds : List Command) (s : State) (v : Trace)
      → handle_get hp.os c conf hp.sock_fd hp.state hp.past ≡ ok s v
      → handles (get_request ∷ cmds) ≡ handle_all hp.os c conf hp.sock_fd cmds s v
  unfolding handle_all handle
  request-first cmds s v e = rw e refl

  nothing-else : (s : State) (v : Trace) → handle_all hp.os c conf hp.sock_fd [] s v ≡ ok s v
  unfolding handle_all
  nothing-else s v = refl

  handled :
      (ls : List Login) (s : State) (v : Trace)
      → IsFresh new_id hp.state
      → (new_id == 0) ≡ false
      → NoZeros ls
      → handle_get hp.os c conf hp.sock_fd hp.state hp.past ≡ ok s v
      → Replied new_id hp.state s v
      → Handled ls (get_request ∷ rest_commands (reply_of v) ls) s v
  handled ls s v fresh there names e (inl (o, (kept, reply, served))) =
      let session = handle_all-direct hp.os c conf hp.sock_fd new_id hp.state fresh ls o v names in
      inr (
        o,
        (
          kept ∙ ap (λ k. holding k o hp.state) (sym reply),
          served,
          request-first (rest_commands (reply_of v) ls) s v e ∙ rw (reply, there, kept) session,
        ),
      )
  handled ls s v fresh there names e (inr (kept, reply)) = inl (
    reply,
    request-first (rest_commands (reply_of v) ls) s v e
        ∙ rw reply (nothing-else s v)
        ∙ ap (λ x. ok x v) kept,
  )

  -- From `w` to `x` commands were written that the helper handles so.
  abbrev pub Remote : List Login → State → Trace → Trace → Unit {0} → Trace → Type 0
  Remote ls s v w _ x =
      (cmds : List Command) × ((written x ≡ written w ++ cmds) × Handled ls cmds s v)

  -- Where ptsname and ttyname give a name, open gives -1 or a descriptor and openpty two
  -- descriptors in the helper, and the address of a new object is not zero and not in use: the
  -- helper's handling of a request for a terminal returns. A client that reads its answer, and
  -- to which each message brings one descriptor, then logs in any number of times, with host
  -- names without a zero byte, if `get` returned true, and destroys its object: it returns, and
  -- the commands that it wrote, handled without others between them, do on the helper's object
  -- what the logins, with the first 511 bytes of each host name, and the destructor do, and
  -- leave the helper's state as it was before the request; the object's master was open and its
  -- name known. Where the answer is zero nothing but the request is handled.
  pub client_life-Remote :
      (client : Trace → Os) (sock_fd : ℤ) (ls : List Login) (w : Trace)
      → Terminals hp.os
      → IsFresh new_id hp.state
      → (new_id == 0) ≡ false
      → NoZeros ls
      → ((v : Trace) → Answers (client v) c sock_fd (reply_of v))
      → Returns
          (λ s v. Returns (Remote ls s v w) (client_life (client v) c sock_fd ls w))
          (handle_get hp.os c conf hp.sock_fd hp.state hp.past)
  client_life-Remote client sock_fd ls w t fresh there names answers =
      let run = handle_get hp.os c conf hp.sock_fd hp.state hp.past in
      mono (λ s v. Replied new_id hp.state s v × (run ≡ ok s v)) _ run
        (given (Replied new_id hp.state) run
          (handle_get-Replied hp.os c conf hp.sock_fd hp.state hp.past t))
        λ s v (replied, e).
          let cmds = get_request ∷ rest_commands (reply_of v) ls in
          mono (Writes cmds w) (Remote ls s v w) (client_life (client v) c sock_fd ls w)
            (client_life-Writes (client v) c sock_fd (reply_of v) ls w (answers v))
            λ _ x p. (cmds, (p, handled ls s v fresh there names e replied))
