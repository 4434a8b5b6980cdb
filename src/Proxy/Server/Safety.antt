-- ===== src/Proxy/Server/Safety.antt =====
-- The helper (src/proxy.C) against any client: whatever commands arrive, it reads no object that
-- it has not created or has already deleted, and at its end every descriptor is given back.
use libptytty.Base.{
  ℕ, ◌+◌, ◌≡◌, refl, sym, ap, ◌∙◌, ℤ, pos, Bool, true, false, Option, none, some, [], ◌∷◌, ◌++◌,
  arith, is_some, is_zero,
}
use libptytty.Sys.{Command, Os, Trace, M, pure, deref, ◌>>=◌, wrote_reply, made_object}
use libptytty.Sys.Balance.{gained, lost, opens, closes, Shifts, Quiet}
use libptytty.Sys.Returns.{Returns, mono, bind}
use libptytty.Sys.Quiet.{IsQuiet, IsQuiet-emit}
use libptytty.Config.{Config}
use libptytty.Unix.{Unix, TtyConf, new_unix, close_tty, get}
use libptytty.Unix.Ownership.{Terminals}
use libptytty.Unix.Put.{owned, HasSlot, Loosened, close_tty-Loosened, Emptied}
use libptytty.Unix.Get.{Acquired, Outcome, get-Acquired}
use libptytty.Session.{delete_unix, login}
use libptytty.Session.Lifecycle.{
  IsSound, LoggedIn, login-LoggedIn, delete_unix-Emptied, IsSound-close, Outcome-slot,
}
use libptytty.FdPass.Laws.{send_fd-IsQuiet}
use libptytty.Proxy.Server.Objects.{Heap, lookup, store, free, keys}
use libptytty.Proxy.Server.Laws.{
  keys-store, keys-add, held, held-free, held-store, held-add, AllSound, AllSound-lookup,
  AllSound-store, AllSound-add,
}
use libptytty.Proxy.Server.{
  State, host_of, retain, reply_get, handle_get, login_object, delete_object,
}

-- The vector holds the addresses of the live objects, and each object can be logged in and out.
pub record IsValid (c : Config) (s : State) : Type 0 where
  pub live : s.ptys ≡ keys s.heap
  pub sound : AllSound c s.heap

module _ (os : Os) (c : Config) (conf : TtyConf) (sock_fd : ℤ) (n : ℕ) (t : Terminals os) where
  -- The descriptors of the objects account for those opened and not closed since `w`.
  abbrev pub Keeps : ℕ → Trace → State → Trace → Type 0
  Keeps a w s v = Shifts n a w (held n s.heap) v × IsValid c s

  pub quiet_first :
      {A : Type 0} (a : ℕ) (m : M A) (k : A → M State) (w : Trace)
      → IsQuiet n m
      → ((x : A) (v : Trace) → Returns (Keeps a v) (k x v))
      → Returns (Keeps a w) ((m >>= k) w)
  quiet_first a m k w q h =
      bind (Quiet n w) (Returns (Keeps a w)) (m w) k (q.run w)
        λ x v e. mono (Keeps a v) (Keeps a w) (k x v) (h x v) λ s u p. (omega (arith, e, p.0), p.1)

  retain-Keeps :
      (id : ℕ) (s : State) (o : Unix) (w : Trace)
      → IsValid c s
      → HasSlot c.utmp_support o
      → IsSound c o
      → Returns (Keeps (held n s.heap + owned n o) w) (retain os c conf sock_fd id s o w)
  unfolding retain
  retain-Keeps id s o w valid slot sound =
      bind (Loosened n o w) (Returns (Keeps (held n s.heap + owned n o) w)) (close_tty o w) _
        (close_tty-Loosened n o w)
        λ o' v p. (
          omega (arith, p.0, held-add n id o' s.heap),
          record {
            live = ap (λ ids. ids ++ (id ∷ [])) valid.live ∙ sym (keys-add id o' s.heap);
            sound =
                AllSound-add c id o' s.heap
                  (λ e. ap (λ (x : Unix). is_some x.utmp_pos) p.2 ∙ slot e)
                  (IsSound-close c o o'.tty o' p.2 sound) valid.sound;
          },
        )

  reply_get-Keeps :
      (id : ℕ) (s : State) (got : Bool) (o : Unix) (w : Trace)
      → IsValid c s
      → o.cmd_pid ≡ pos 0
      → Outcome c (got, o)
      → Returns (Keeps (held n s.heap + owned n o) w) (reply_get os c conf sock_fd id s (got, o) w)
  unfolding reply_get gained lost opens closes
  reply_get-Keeps id s true o w valid fresh outcome =
      quiet_first (held n s.heap + owned n o) _ _ w (IsQuiet-emit (wrote_reply id) refl) λ _ v.
        quiet_first (held n s.heap + owned n o) _ _ v (send_fd-IsQuiet os c n sock_fd o.pty) λ _ v'.
          quiet_first (held n s.heap + owned n o) _ _ v' (send_fd-IsQuiet os c n sock_fd o.tty)
            λ _ u.
              retain-Keeps id s o u valid (Outcome-slot c true o refl outcome)
                (λ db e i. cc (ap is_zero fresh, i))
  reply_get-Keeps id s false o w valid fresh outcome =
      bind (Emptied os c conf n o w) (Returns (Keeps (held n s.heap + owned n o) w))
        (delete_unix os c conf o w) _
        (delete_unix-Emptied os c n conf o w (λ db e i. cc (ap is_zero fresh, i)))
        λ _ v p. (omega (arith, p.0), valid)

  pub handle_get-Keeps :
      (s : State) (w : Trace)
      → IsValid c s
      → Returns (Keeps (held n s.heap) w) (handle_get os c conf sock_fd s w)
  unfolding handle_get new_unix gained lost opens closes
  handle_get-Keeps s w valid =
      let id = os.new_object w in
      let v = made_object id ∷ w in
      bind (Acquired c (pos 0) n 0 v) (Returns (Keeps (held n s.heap) w)) (get os c conf new_unix v)
        _ (get-Acquired os c conf n new_unix v t (refl, refl))
        λ (got, o) u (grown, fresh, outcome).
          mono (Keeps (held n s.heap + owned n o) u) (Keeps (held n s.heap) w) _
            (reply_get-Keeps id s got o u valid fresh outcome)
            λ s' _ p. (omega (arith, grown, p.0), p.1)

  pub login_object-Keeps :
      (cmd : Command) (s : State) (w : Trace)
      → IsValid c s
      → is_some (lookup cmd.id s.heap) ≡ true
      → Returns (Keeps (held n s.heap) w) (login_object os c conf sock_fd cmd s w)
  unfolding login_object
  login_object-Keeps cmd s w valid there = login_found (lookup cmd.id s.heap) refl there
    where
      login_found :
          (x : Option Unix)
          → lookup cmd.id s.heap ≡ x
          → is_some x ≡ true
          → Returns (Keeps (held n s.heap) w) (
              (deref x >>= λ o.
              login os c o cmd.cmd_pid cmd.login_shell (some (host_of cmd.hostname)) >>= λ o.
              pure (record s { heap = store cmd.id o s.heap }))
                w)
      login_found none e h = cc
      login_found (some o) e h =
          let (slot, sound) = AllSound-lookup c cmd.id s.heap o e valid.sound in
          bind (LoggedIn c n w o) (Returns (Keeps (held n s.heap) w))
            (login os c o cmd.cmd_pid cmd.login_shell (some (host_of cmd.hostname)) w) _
            (login-LoggedIn os c n o cmd.cmd_pid cmd.login_shell (some (host_of cmd.hostname)) w
              refl slot sound)
            λ o' v p. (
              omega (arith, p.0, held-store n cmd.id s.heap o o' e),
              record {
                live = valid.live ∙ sym (keys-store cmd.id o' s.heap);
                sound = AllSound-store c cmd.id o' s.heap p.1 p.2 valid.sound;
              },
            )

  -- The objects after one is deleted.
  abbrev pub Freed : ℕ → Heap → Trace → Heap → Trace → Type 0
  Freed id h w h' v = Shifts n (held n h) w (held n h') v × (h' ≡ free id h)

  pub delete_object-Freed :
      (id : ℕ) (h : Heap) (w : Trace)
      → AllSound c h
      → is_some (lookup id h) ≡ true
      → Returns (Freed id h w) (delete_object os c conf sock_fd id h w)
  unfolding delete_object
  delete_object-Freed id h w all there = delete_found (lookup id h) refl there
    where
      delete_found :
          (x : Option Unix)
          → lookup id h ≡ x
          → is_some x ≡ true
          → Returns
              (Freed id h w)
              ((deref x >>= λ o. delete_unix os c conf o >>= λ _. pure (free id h)) w)
      delete_found none e p = cc
      delete_found (some o) e p =
          bind (Emptied os c conf n o w) (Returns (Freed id h w)) (delete_unix os c conf o w) _
            (delete_unix-Emptied os c n conf o w (AllSound-lookup c id h o e all).1)
            λ _ v q. (omega (arith, q.0, held-free n id h o e), refl)
