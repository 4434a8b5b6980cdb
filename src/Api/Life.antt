-- ===== src/Api/Life.antt =====
-- The life of an object of either class (src/c-api.C, src/proxy.C, src/ptytty.C).
use libptytty.Base.{
  ℕ, ◌≡◌, refl, ap, ◌∙◌, ℤ, pos, Bool, true, some, List, [], ◌∷◌, arith, ◌&&◌, not, is_neg, is_zero,
  minus_one, Bool-cases, Bytes, strncpy, is_some, inl, inr,
}
use libptytty.Sys.{Os, Trace, M, pure, ◌>>=◌, wrote_command, log_in}
use libptytty.Sys.Balance.{hits_neg, gained, lost, opens, closes, Shifts, Quiet}
use libptytty.Sys.Returns.{Returns, mono, bind, branch}
use libptytty.Sys.Quiet.{IsQuiet, seq, IsQuiet-deref, IsQuiet-emit, IsQuiet-pure}
use libptytty.Config.{Config}
use libptytty.Unix.{Unix, TtyConf, new_unix, get as unix_get, close_tty as unix_close_tty}
use libptytty.Unix.Ownership.{Terminals}
use libptytty.Unix.Put.{owned as unix_owned, HasSlot, Loosened, close_tty-Loosened, Emptied}
use libptytty.Unix.Get.{Acquired, get-Acquired}
use libptytty.Unix.Terminal.{set_utf8_bit-IsQuiet, control_tty-IsQuiet}
use libptytty.Session.{login as unix_login, delete_unix}
use libptytty.Session.Lifecycle.{
  Call, logs_in, closes_tty, sets_utf8, takes_control, IsSound, IsSound-close, LoggedIn,
  login-LoggedIn, delete_unix-Emptied, Outcome-slot,
}
use libptytty.FdPass.Laws.{Messages}
use libptytty.Proxy.Client.{
  Proxy, new_proxy, Result, get as proxy_get, login as proxy_login, close_tty as proxy_close_tty,
}
use libptytty.Proxy.Client.Laws.{
  owned as proxy_owned, IsConsistent, Outcome-IsConsistent, proxy_get-Acquired, Released,
  delete_proxy-Released, need_token-IsQuiet, give_token-IsQuiet,
}
use libptytty.Proxy.Client.Laws
use libptytty.Process.{Statics}
use libptytty.Api.{
  Object, unix_object, proxy_object, create, ptytty_pty, ptytty_tty, ptytty_get, ptytty_login,
  ptytty_close_tty, ptytty_make_controlling_tty, ptytty_set_utf8_mode, ptytty_delete, api_call,
  api_calls, is_got, api_life,
}

-- The descriptors of an object.
abbrev pub held : ℕ → Object → ℕ
held n (unix_object o) = unix_owned n o
held n (proxy_object p) = proxy_owned n p

-- What the destructor relies on, and what every call of a client does.
abbrev pub IsDeletable : Config → Object → Type 0
IsDeletable c (unix_object o) = IsSound c o
IsDeletable c (proxy_object p) = IsConsistent p

abbrev pub IsReady : Config → Object → Type 0
IsReady c (unix_object o) = HasSlot c.utmp_support o × IsSound c o
IsReady c (proxy_object p) = IsConsistent p

pub deletable : (c : Config) (o : Object) → IsReady c o → IsDeletable c o
deletable c (unix_object o) h = h.1
deletable c (proxy_object p) h = h

module _ (os : Os) (c : Config) (conf : TtyConf) (s : Statics) (n : ℕ) (t : Terminals os) where
  abbrev pub Kept : Trace → Object → Object → Trace → Type 0
  Kept w o o' v = Shifts n (held n o) w (held n o') v × IsReady c o'

  quiet_call-Kept :
      {B : Type 0} (o : Object) (m : M B) (w : Trace)
      → IsReady c o
      → IsQuiet n m
      → Returns (Kept w o) ((m >>= λ _. pure o) w)
  quiet_call-Kept o m w ready q =
      bind (Quiet n w) (Returns (Kept w o)) (m w) _ (q.run w) λ _ v e. (omega (arith, e), ready)

  proxy_login-IsQuiet :
      (p : Proxy) (pid : ℤ) (shell : Bool) (host : Bytes)
      → IsQuiet n (proxy_login os c s.sock_fd p pid shell (some host))
  unfolding proxy_login gained lost
  proxy_login-IsQuiet p pid shell host = seq (need_token-IsQuiet os c s.sock_fd n) λ _.
      seq (IsQuiet-deref (some host) refl) λ h.
        seq
          (IsQuiet-emit
            (wrote_command (record {
              kind = log_in;
              id = p.id;
              login_shell = shell;
              cmd_pid = pid;
              hostname = strncpy h 512;
            }))
            refl)
          λ _. give_token-IsQuiet os c s.sock_fd n

  pub login-Kept :
      (o : Object) (pid : ℤ) (shell : Bool) (host : Bytes) (w : Trace)
      → IsReady c o
      → Returns (Kept w o) (ptytty_login os c conf s o pid shell (some host) w)
  unfolding ptytty_login
  login-Kept (unix_object o) pid shell host w ready =
      bind (LoggedIn c n w o) (Returns (Kept w (unix_object o)))
        (unix_login os c o pid shell (some host) w) _
        (login-LoggedIn os c n o pid shell (some host) w refl ready.0 ready.1)
        λ o' v p. (p.0, (p.1, p.2))
  login-Kept (proxy_object p) pid shell host w ready =
      quiet_call-Kept (proxy_object p) _ w ready (proxy_login-IsQuiet p pid shell host)

  proxy_close_tty-Kept :
      (p : Proxy) (w : Trace)
      → IsConsistent p
      → Returns
          (λ p' v. Kept w (proxy_object p) (proxy_object p') v)
          (proxy_close_tty os c s.sock_fd p w)
  unfolding proxy_close_tty opens closes gained lost
  proxy_close_tty-Kept p w ok =
      branch (Returns (λ p' v. Kept w (proxy_object p) (proxy_object p') v)) (is_neg p.tty) _ _ w
        (λ _. (refl, ok)) (λ _. (omega (arith, hits_neg n minus_one refl), λ e. ((ok e).0, refl)))

  pub close_tty-Kept :
      (o : Object) (w : Trace) → IsReady c o → Returns (Kept w o) (ptytty_close_tty os c conf s o w)
  unfolding ptytty_close_tty
  close_tty-Kept (unix_object o) w (slot, sound) =
      bind (Loosened n o w) (Returns (Kept w (unix_object o))) (unix_close_tty o w) _
        (close_tty-Loosened n o w)
        λ o' v p.
          let kept = ap (λ (x : Unix). x.utmp_pos) p.2 in
          (p.0, ((λ e. ap is_some kept ∙ slot e), IsSound-close c o o'.tty o' p.2 sound))
  close_tty-Kept (proxy_object p) w ready =
      bind (λ p' v. Kept w (proxy_object p) (proxy_object p') v) (Returns (Kept w (proxy_object p)))
        (proxy_close_tty os c s.sock_fd p w) _ (proxy_close_tty-Kept p w ready) λ p' v q. q

  call-Kept :
      (x : Call) (o : Object) (w : Trace)
      → IsReady c o
      → Returns (Kept w o) (api_call os c conf s x o w)
  unfolding api_call ptytty_set_utf8_mode ptytty_make_controlling_tty
  call-Kept (logs_in pid shell host) o w ready = login-Kept o pid shell host w ready
  call-Kept closes_tty o w ready = close_tty-Kept o w ready
  call-Kept (sets_utf8 on) o w ready =
      quiet_call-Kept o _ w ready (set_utf8_bit-IsQuiet os c n c.iutf8 (ptytty_pty o) on)
  call-Kept takes_control o w ready =
      quiet_call-Kept o _ w ready
        (seq (control_tty-IsQuiet os c n t (ptytty_tty o)) λ r. IsQuiet-pure _)

  pub calls-Kept :
      (xs : List Call) (o : Object) (w : Trace)
      → IsReady c o
      → Returns (Kept w o) (api_calls os c conf s xs o w)
  unfolding api_calls
  calls-Kept [] o w ready = (refl, ready)
  calls-Kept (x ∷ xs) o w ready =
      bind (Kept w o) (Returns (Kept w o)) (api_call os c conf s x o w) _ (call-Kept x o w ready)
        λ o' v p.
          mono (Kept v o') (Kept w o) _ (calls-Kept xs o' v p.1)
            λ _ _ q. (omega (arith, p.0, q.0), q.1)

  abbrev pub Got : Trace → Result × Object → Trace → Type 0
  Got w (r, o) v =
      Shifts n 0 w (held n o) v × IsDeletable c o × (is_got os c conf s r ≡ true → IsReady c o)

  pub create_get-Got :
      (w : Trace) → Messages os c → Returns (Got w) (ptytty_get os c conf s (create c s) w)
  unfolding ptytty_get create new_unix new_proxy
  create_get-Got w m = elim (Bool-cases (c.helper && not (is_zero s.helper_pid))) [
    | inl e ↦ rw e (
        bind (Laws.Acquired os c s.sock_fd n m 0 w) (Returns (Got w))
          (proxy_get os c s.sock_fd new_proxy w) _
          (proxy_get-Acquired os c s.sock_fd n m new_proxy w refl refl refl)
          λ (r, p) v q. let ok = Outcome-IsConsistent r p q.1 in (q.0, ok, λ _. ok))
    | inr e ↦ rw e (
        bind (Acquired c (pos 0) n 0 w) (Returns (Got w)) (unix_get os c conf new_unix w) _
          (get-Acquired os c conf n new_unix w t (refl, refl))
          λ (b, o) v (shifts, fresh, outcome).
            let idle : IsSound c o = λ db e i. cc (ap is_zero fresh, i) in
            (shifts, idle, λ g. (Outcome-slot c b o g outcome, idle)))
  ]

  abbrev pub Freed : Trace → Object → Unit {0} → Trace → Type 0
  Freed w o _ v = Shifts n (held n o) w 0 v

  pub delete-Freed :
      (o : Object) (w : Trace)
      → IsDeletable c o
      → Returns (Freed w o) (ptytty_delete os c conf s o w)
  unfolding ptytty_delete
  delete-Freed (unix_object o) w sound =
      bind (Emptied os c conf n o w) (Returns (Freed w (unix_object o))) (delete_unix os c conf o w)
        _ (delete_unix-Emptied os c n conf o w sound) λ _ v p. p.0
  delete-Freed (proxy_object p) w ok = delete_proxy-Released os c s.sock_fd n p w ok

  -- Where ptsname and ttyname give a name, open gives -1 or a descriptor, openpty two
  -- descriptors and recvmsg keeps to the format of control messages, the life of an object of
  -- the class that `create` picks returns, whatever the client calls between `get` and
  -- `ptytty_delete` and in whatever order, a host name given to each login, also where `get`
  -- throws; each descriptor was closed as often as it was opened or arrived.
  pub api_life-Quiet :
      (xs : List Call) (w : Trace) → Messages os c → Returns (Quiet n w) (api_life os c conf s xs w)
  unfolding api_life
  api_life-Quiet xs w m =
      bind (Got w) (Returns (Quiet n w)) (ptytty_get os c conf s (create c s) w) _
        (create_get-Got w m)
        λ (r, o) v (shifts, ok, ready).
          bind (λ o' u. Shifts n (held n o) v (held n o') u × IsDeletable c o')
            (Returns (Quiet n w)) _ _
            (branch (Returns (λ o' u. Shifts n (held n o) v (held n o') u × IsDeletable c o'))
              (is_got os c conf s r) (api_calls os c conf s xs o) (pure o) v
              (λ g.
                mono (Kept v o) (λ o' u. Shifts n (held n o) v (held n o') u × IsDeletable c o') _
                  (calls-Kept xs o v (ready g)) λ o' _ p. (p.0, deletable c o' p.1))
              (λ _. (refl, ok)))
            λ o' u p.
              mono (Freed u o') (Quiet n w) _ (delete-Freed o' u p.1)
                λ _ _ q. omega (arith, shifts, p.0, q)
