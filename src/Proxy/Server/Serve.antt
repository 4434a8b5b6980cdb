-- ===== src/Proxy/Server/Serve.antt =====
-- `serve` (src/proxy.C) as a whole, for every stream of commands.
use libptytty.Base.{
  ℕ, ◌≡◌, refl, sym, ap, subst, ◌∙◌, ℤ, Bool, not, Option, none, some, List, [], ◌∷◌, arith,
  if◌then◌else◌, is_some,
}
use mathlib.Core.List.{reverse}
use libptytty.Sys.{
  Kind, get_pty, log_in, destroy, unknown, Command, Os, Trace, M, pure, emit, ◌>>◌, gave_token,
  needed_token, read_command,
}
use libptytty.Sys.Balance.{gained, lost, opens, closes, Shifts}
use libptytty.Sys.Returns.{Returns, mono, bind, branch}
use libptytty.Sys.Quiet.{IsQuiet, IsQuiet-emit, IsQuiet-if, IsQuiet-pure}
use libptytty.Config.{Config}
use libptytty.Unix.{TtyConf}
use libptytty.Unix.Ownership.{Terminals}
use libptytty.Proxy.Server.Objects.{Heap, find, erase, keys}
use libptytty.Proxy.Server.Laws.{is_some-find, erase-keys, held, AllSound, AllSound-free}
use libptytty.Proxy.Server.Counts.{
  count, count-reverse, lookup_of_count, count-free, empty_of_count,
}
use libptytty.Proxy.Server.Safety.{
  IsValid, Keeps, quiet_first, handle_get-Keeps, login_object-Keeps, Freed, delete_object-Freed,
}
use libptytty.Proxy.Server.{
  State, give_token, need_token, handle_login, delete_object, destroy_at, handle_destroy, handle,
  serve_loop, destroy_all, serve,
}

module _ (os : Os) (c : Config) (conf : TtyConf) (sock_fd : ℤ) (n : ℕ) (t : Terminals os) where
  abbrev pub Holds : ℕ → Trace → State → Trace → Type 0
  Holds = Keeps os c conf sock_fd n t

  handle_login-Keeps :
      (cmd : Command) (s : State) (w : Trace)
      → IsValid c s
      → Returns (Holds (held n s.heap) w) (handle_login os c conf sock_fd cmd s w)
  unfolding handle_login
  handle_login-Keeps cmd s w valid =
      branch (Returns (Holds (held n s.heap) w)) (not (is_some c.utmp_support)) (pure s) _ w
        (λ _. (refl, valid))
        λ _.
          branch (Returns (Holds (held n s.heap) w)) (is_some (find cmd.id s.ptys)) _ (pure s) w
            (λ found. login_object-Keeps os c conf sock_fd n t cmd s w valid (
              sym (is_some-find cmd.id s.heap)
              ∙ ap (λ ids. is_some (find cmd.id ids)) (sym valid.live)
              ∙ found))
            (λ _. (refl, valid))

  destroy_at-Keeps :
      (id : ℕ) (s : State) (i : Option ℕ) (w : Trace)
      → IsValid c s
      → find id s.ptys ≡ i
      → Returns (Holds (held n s.heap) w) (destroy_at os c conf sock_fd id s i w)
  unfolding destroy_at
  destroy_at-Keeps id s none w valid e = (refl, valid)
  destroy_at-Keeps id s (some i) w valid e =
      let there = ap (find id) (sym valid.live) ∙ e in
      bind (Freed os c conf sock_fd n t id s.heap w) (Returns (Holds (held n s.heap) w))
        (delete_object os c conf sock_fd id s.heap w) _
        (delete_object-Freed os c conf sock_fd n t id s.heap w valid.sound
          (sym (is_some-find id s.heap) ∙ ap is_some there))
        λ h v p. (
          p.0,
          record {
            live = ap (erase i) valid.live ∙ erase-keys id s.heap i there ∙ ap keys (sym p.1);
            sound = subst (AllSound c) (sym p.1) (AllSound-free c id s.heap valid.sound);
          },
        )

  -- After one command.
  abbrev pub Handled : ℕ → Trace → Bool × State → Trace → Type 0
  Handled a w (more, s) v = Holds a w s v

  pub handle-Keeps :
      (k : Kind) (cmd : Command) (s : State) (w : Trace)
      → IsValid c s
      → Returns (Handled (held n s.heap) w) (handle os c conf sock_fd k cmd s w)
  unfolding handle handle_destroy
  handle-Keeps get_pty cmd s w valid =
      bind (Holds (held n s.heap) w) (Returns (Handled (held n s.heap) w)) _ _
        (handle_get-Keeps os c conf sock_fd n t s w valid) λ s' v p. p
  handle-Keeps log_in cmd s w valid =
      bind (Holds (held n s.heap) w) (Returns (Handled (held n s.heap) w)) _ _
        (handle_login-Keeps cmd s w valid) λ s' v p. p
  handle-Keeps destroy cmd s w valid =
      bind (Holds (held n s.heap) w) (Returns (Handled (held n s.heap) w)) _ _
        (destroy_at-Keeps cmd.id s (find cmd.id s.ptys) w valid refl) λ s' v p. p
  handle-Keeps unknown cmd s w valid = (refl, valid)

  give_token-IsQuiet : IsQuiet n (give_token os c conf sock_fd)
  unfolding give_token gained lost
  give_token-IsQuiet =
      IsQuiet-if c.reentrant (λ _. IsQuiet-emit gave_token refl) (λ _. IsQuiet-pure tt)

  need_token-IsQuiet : IsQuiet n (need_token os c conf sock_fd)
  unfolding need_token gained lost
  need_token-IsQuiet =
      IsQuiet-if c.reentrant (λ _. IsQuiet-emit needed_token refl) (λ _. IsQuiet-pure tt)

  pub serve_loop-Keeps :
      (cmds : List Command) (s : State) (w : Trace)
      → IsValid c s
      → Returns (Holds (held n s.heap) w) (serve_loop os c conf sock_fd cmds s w)
  unfolding serve_loop gained lost opens closes
  serve_loop-Keeps [] s w valid =
      quiet_first os c conf sock_fd n t (held n s.heap) (give_token os c conf sock_fd) _ w
        give_token-IsQuiet λ _ v. (omega arith, valid)
  serve_loop-Keeps (cmd ∷ cmds) s w valid =
      let again : State → M State =
        λ s. need_token os c conf sock_fd >> serve_loop os c conf sock_fd cmds s in
      quiet_first os c conf sock_fd n t (held n s.heap) (give_token os c conf sock_fd) _ w
        give_token-IsQuiet
        λ _ v.
          quiet_first os c conf sock_fd n t (held n s.heap) (emit (read_command (some cmd))) _ v
            (IsQuiet-emit (read_command (some cmd)) refl)
            λ _ u.
              bind (Handled (held n s.heap) u) (Returns (Holds (held n s.heap) u))
                (handle os c conf sock_fd cmd.kind cmd s u)
                (λ (more, s). if more then again s else pure s)
                (handle-Keeps cmd.kind cmd s u valid)
                λ (more, s') x p.
                  branch (Returns (Holds (held n s.heap) u)) more (again s') (pure s') x
                    (λ _.
                      mono (Holds (held n s'.heap) x) (Holds (held n s.heap) u) _
                        (quiet_first os c conf sock_fd n t (held n s'.heap)
                          (need_token os c conf sock_fd) _ x need_token-IsQuiet
                          λ _ y. serve_loop-Keeps cmds s' y p.1)
                        λ _ _ q. (omega (arith, p.0, q.0), q.1))
                    (λ _. p)

  -- The objects are those of the remaining addresses.
  abbrev Covers : List ℕ → Heap → Type 0
  Covers ids h = (k : ℕ) → count k ids ≡ count k (keys h)

  -- No object is left, and no descriptor.
  abbrev pub Gone : ℕ → Trace → Heap → Trace → Type 0
  Gone a w h v = Shifts n a w 0 v × (h ≡ [])

  destroy_all-Gone :
      (ids : List ℕ) (h : Heap) (w : Trace)
      → AllSound c h
      → Covers ids h
      → Returns (Gone (held n h) w) (destroy_all os c conf sock_fd ids h w)
  unfolding destroy_all
  destroy_all-Gone [] h w all covers =
      let e = empty_of_count h (λ k. sym (covers k)) in (omega (arith, ap (held n) e), e)
  destroy_all-Gone (id ∷ ids) h w all covers =
      let there = lookup_of_count id h (ground (arith, covers id)) in
      bind (Freed os c conf sock_fd n t id h w) (Returns (Gone (held n h) w))
        (delete_object os c conf sock_fd id h w) _
        (delete_object-Freed os c conf sock_fd n t id h w all there)
        λ h' v p.
          mono (Gone (held n h') v) (Gone (held n h) w) _
            (destroy_all-Gone ids h' v (subst (AllSound c) (sym p.1) (AllSound-free c id h all))
              (λ k.
                subst (λ x. count k ids ≡ count k (keys x)) (sym p.1)
                  (omega (arith, covers k, count-free k id h there))))
            λ _ _ q. (omega (arith, p.0, q.0), q.1)

  -- Where ptsname and ttyname give a name, open gives -1 or a descriptor and openpty two
  -- descriptors, `serve` returns for every list of commands: it reads no object that it has not
  -- created or has deleted already, and no null pointer. At its end no object is left, and each
  -- descriptor was closed as often as it was opened since `w`.
  pub serve-Gone :
      (cmds : List Command) (w : Trace) → Returns (Gone 0 w) (serve os c conf sock_fd cmds w)
  unfolding serve
  serve-Gone cmds w =
      let start : State = record { ptys = []; heap = [] } in
      bind (Holds 0 w) (Returns (Gone 0 w)) (serve_loop os c conf sock_fd cmds start w) _
        (serve_loop-Keeps cmds start w (record { live = refl; sound = tt }))
        λ s v p.
          mono (Gone (held n s.heap) v) (Gone 0 w) _
            (destroy_all-Gone (reverse s.ptys) s.heap v p.1.sound
              (λ k. count-reverse k s.ptys ∙ ap (count k) p.1.live))
            λ _ _ q. (omega (arith, p.0, q.0), q.1)
