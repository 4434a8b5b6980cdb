-- ===== src/Proxy/Server/Replies.antt =====
-- What the helper answers to a request for a terminal (`serve`, src/proxy.C), and the state behind.
use libptytty.Base.{
  ℕ, ◌≡◌, refl, ◌⊎◌, inl, inr, ◌∙◌, ap, ℤ, Bytes, some, Bool, true, false, not, ◌∷◌, [], pos,
  is_neg, is_zero,
}
use libptytty.Sys.{Os, Trace, wrote_reply, made_object}
use libptytty.Sys.Returns.{Returns, bind, branch, both}
use libptytty.Config.{Config}
use libptytty.Unix.{Unix, TtyConf, new_unix, get, close_tty}
use libptytty.Unix.Ownership.{Terminals}
use libptytty.Unix.Put.{Emptied, IsOpen, Loosened, close_tty-Loosened}
use libptytty.Unix.Get.{Acquired, Outcome, get-Acquired}
use libptytty.Session.{delete_unix}
use libptytty.Session.Lifecycle.{delete_unix-Emptied}
use libptytty.FdPass.{send_fd}
use libptytty.Proxy.Server.{State, retain, reply_get, handle_get}
use libptytty.Proxy.Server.Direct.{holding}

-- The last answer written, zero for none.
unfoldable pub reply_of : Trace → ℕ
reply_of [] = 0
reply_of (wrote_reply id ∷ w) = id
reply_of (_ ∷ w) = reply_of w

-- The object of a client: its master is open and its name known, its slave is closed, and no session
-- is on record.
abbrev pub IsServed : Unix → Type 0
IsServed o =
    (is_neg o.pty ≡ false)
    × (is_neg o.tty ≡ true)
    × ((name : Bytes) × (o.name ≡ some name))
    × (o.cmd_pid ≡ pos 0)

-- An object is kept and its address is the answer, or nothing changes and the answer is zero.
abbrev pub Replied : ℕ → State → State → Trace → Type 0
Replied id s s' v =
    ((o : Unix) × ((s' ≡ holding id o s) × (reply_of v ≡ id) × IsServed o))
    ⊎ ((s' ≡ s) × (reply_of v ≡ 0))

opened : (c : Config) (o : Unix) → Outcome c (true, o) → IsOpen o
opened c o (inl p) = p.1
opened c o (inr p) = cc (p.0)

module _ (os : Os) (c : Config) (conf : TtyConf) (sock_fd : ℤ) where
  send_fd-reply :
      (fd : ℤ) (w : Trace) → Returns (λ _ v. reply_of v ≡ reply_of w) (send_fd os c sock_fd fd w)
  unfolding send_fd reply_of
  send_fd-reply fd w =
      branch (Returns (λ _ v. reply_of v ≡ reply_of w)) (not (os.malloc w)) _ _ _ (λ _. refl)
        (λ _. refl)

  close_tty-reply :
      (o : Unix) (w : Trace) → Returns (λ _ v. reply_of v ≡ reply_of w) (close_tty o w)
  unfolding close_tty reply_of
  close_tty-reply o w =
      branch (Returns (λ _ v. reply_of v ≡ reply_of w)) (is_neg o.tty) _ _ w (λ _. refl) (λ _. refl)

  retain-Replied :
      (id : ℕ) (s : State) (o : Unix) (w : Trace)
      → IsOpen o
      → o.cmd_pid ≡ pos 0
      → reply_of w ≡ id
      → Returns (Replied id s) (retain os c conf sock_fd id s o w)
  unfolding retain
  retain-Replied id s o w (pty, _, (name, known)) idle e =
      bind (λ o' v. Loosened 0 o w o' v × (reply_of v ≡ reply_of w)) (Returns (Replied id s))
        (close_tty o w) _
        (both (Loosened 0 o w) (λ _ v. reply_of v ≡ reply_of w) (close_tty o w)
          (close_tty-Loosened 0 o w) (close_tty-reply o w))
        λ o' v ((_, shut, same), e'). inl (
          o',
          (
            refl,
            e' ∙ e,
            (
              ap (λ (x : Unix). is_neg x.pty) same ∙ pty,
              shut,
              (name, ap (λ (x : Unix). x.name) same ∙ known),
              ap (λ (x : Unix). x.cmd_pid) same ∙ idle,
            ),
          ),
        )

  reply_get-Replied :
      (id : ℕ) (s : State) (got : Bool) (o : Unix) (w : Trace)
      → o.cmd_pid ≡ pos 0
      → Outcome c (got, o)
      → Returns (Replied id s) (reply_get os c conf sock_fd id s (got, o) w)
  unfolding reply_get reply_of
  reply_get-Replied id s true o w idle outcome =
      let x = wrote_reply id ∷ w in
      bind (λ _ v. reply_of v ≡ id) (Returns (Replied id s)) (send_fd os c sock_fd o.pty x) _
        (send_fd-reply o.pty x)
        λ _ y e.
          bind (λ _ v. reply_of v ≡ reply_of y) (Returns (Replied id s))
            (send_fd os c sock_fd o.tty y) _ (send_fd-reply o.tty y)
            λ _ z e'. retain-Replied id s o z (opened c o outcome) idle (e' ∙ e)
  reply_get-Replied id s false o w idle outcome =
      bind (Emptied os c conf 0 o w) (Returns (Replied id s)) (delete_unix os c conf o w) _
        (delete_unix-Emptied os c 0 conf o w λ db e i. cc (ap is_zero idle, i))
        λ _ v _. inr (refl, refl)

  pub handle_get-Replied :
      (s : State) (u : Trace)
      → Terminals os
      → Returns (Replied (os.new_object u) s) (handle_get os c conf sock_fd s u)
  unfolding handle_get new_unix
  handle_get-Replied s u t =
      let id = os.new_object u in
      let w = made_object id ∷ u in
      bind (Acquired c (pos 0) 0 0 w) (Returns (Replied id s)) (get os c conf new_unix w) _
        (get-Acquired os c conf 0 new_unix w t (refl, refl))
        λ (got, o) v (_, fresh, outcome). reply_get-Replied id s got o v fresh outcome
