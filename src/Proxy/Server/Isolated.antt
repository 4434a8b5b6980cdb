-- ===== src/Proxy/Server/Isolated.antt =====
-- The operations of the helper (src/proxy.C) on the objects of other clients.
use libptytty.Base.{
  ℕ, ◌≡◌, refl, ℤ, Bool, true, false, Option, none, some, [], ◌∷◌, ◌==◌, not, is_some, arith,
}
use libptytty.Sys.{Os, Command, Trace, pure, deref}
use libptytty.Sys.Gives.{Gives, Gives-bind, Gives-call}
use libptytty.Sys.Returns.{branch}
use libptytty.Config.{Config}
use libptytty.FdPass.{send_fd}
use libptytty.Session.{delete_unix, login}
use libptytty.Unix.{TtyConf, Unix, get, new_unix, close_tty}
use libptytty.Proxy.Server.{
  State, handle_get, handle_login, login_object, destroy_at, reply_get, retain, delete_object,
  host_of,
}
use libptytty.Proxy.Server.Objects.{Heap, find, lookup, add, store, free}

module _ (k id : ℕ) (other : (k == id) ≡ false) where
  lookup-add_other : (o : Unix) (h : Heap) → lookup id (add k o h) ≡ lookup id h
  unfolding lookup add
  lookup-add_other o [] = ground (arith, other)
  lookup-add_other o ((j, p) ∷ h) = ground (arith, other, lookup-add_other o h)

  pub lookup-store_other : (o : Unix) (h : Heap) → lookup id (store k o h) ≡ lookup id h
  unfolding lookup store
  lookup-store_other o [] = refl
  lookup-store_other o ((j, p) ∷ h) = ground (arith, other, lookup-store_other o h)

  lookup-free_other : (h : Heap) → lookup id (free k h) ≡ lookup id h
  unfolding lookup free
  lookup-free_other [] = refl
  lookup-free_other ((j, p) ∷ h) = ground (arith, other, lookup-free_other h)

module _ (os : Os) (c : Config) (conf : TtyConf) (sock_fd : ℤ) (id : ℕ) where
  abbrev pub Same : State → State → Type 0
  Same s s' = lookup id s'.heap ≡ lookup id s.heap

  reply_get-Same :
      (new : ℕ) (s : State) (got : Bool) (o : Unix) (w : Trace)
      → (new == id) ≡ false
      → Gives (Same s) (reply_get os c conf sock_fd new s (got, o) w)
  unfolding reply_get retain
  reply_get-Same new s true o w other = Gives-call (Same s) (send_fd os c sock_fd o.pty _) _ λ _ v.
      Gives-call (Same s) (send_fd os c sock_fd o.tty v) _
        λ _ u. Gives-call (Same s) (close_tty o u) _ λ o' x. lookup-add_other new id other o' s.heap
  reply_get-Same new s false o w other =
      Gives-call (Same s) (delete_unix os c conf o w) _ λ _ v. refl

  pub handle_login-Same :
      (cmd : Command) (s : State) (w : Trace)
      → (cmd.id == id) ≡ false
      → Gives (Same s) (handle_login os c conf sock_fd cmd s w)
  unfolding handle_login login_object
  handle_login-Same cmd s w other =
      branch (Gives (Same s)) (not (is_some c.utmp_support)) (pure s) _ w (λ _. refl)
        λ _.
          branch (Gives (Same s)) (is_some (find cmd.id s.ptys))
            (login_object os c conf sock_fd cmd s) (pure s) w
            (λ _. Gives-call (Same s) (deref (lookup cmd.id s.heap) w) _ λ o v.
              Gives-call (Same s)
                (login os c o cmd.cmd_pid cmd.login_shell (some (host_of cmd.hostname)) v) _
                λ o' u. lookup-store_other cmd.id id other o' s.heap)
            (λ _. refl)

  pub destroy_at-Same :
      (k : ℕ) (s : State) (found : Option ℕ) (w : Trace)
      → (k == id) ≡ false
      → Gives (Same s) (destroy_at os c conf sock_fd k s found w)
  unfolding destroy_at delete_object
  destroy_at-Same k s none w other = refl
  destroy_at-Same k s (some i) w other =
      Gives-bind (λ h. lookup id h ≡ lookup id s.heap) (Same s)
        (delete_object os c conf sock_fd k s.heap w) _
        (Gives-call _ (deref (lookup k s.heap) w) _ λ o v.
          Gives-call _ (delete_unix os c conf o v) _ λ _ u. lookup-free_other k id other s.heap)
        λ h v e. e

  module _ (fresh : (w : Trace) → (os.new_object w == id) ≡ false) where
    pub handle_get-Same :
        (s : State) (w : Trace) → Gives (Same s) (handle_get os c conf sock_fd s w)
    unfolding handle_get
    handle_get-Same s w =
        Gives-call (Same s) (get os c conf new_unix _) _
          λ (got, o) u. reply_get-Same (os.new_object w) s got o u (fresh w)
