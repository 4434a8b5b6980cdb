-- ===== src/Process/Init.antt =====
-- `init` (src/proxy.C) as a whole.
use libptytty.Base.{
  ℕ, ◌≡◌, sym, ap, ◌∙◌, subst, Bool, true, false, not, none, ◌∷◌, arith, is_some, is_neg,
  if◌then◌else◌,
}
use libptytty.Sys.{Os, Trace, pure, asked_uid, asked_gid}
use mathlib.Core.Bool.{false≢true}
use libptytty.Sys.Returns.{Returns, Ends, bind, branch, Any, Ends-bind, Ends-weaken, Ends-Returns}
use libptytty.Config.{Config}
use libptytty.Unix.{TtyConf}
use libptytty.Unix.Ownership.{Terminals}
use libptytty.Process.{
  Statics, Side, caller, helper_done, getgid, ids_differ, drop_privileges, sanitise_stdfd,
  use_helper, drop_on, init,
}
use libptytty.Process.Stdfd.{Table, sanitise_stdfd-AllUsed}
use libptytty.Process.Ids.{
  Ids, Reads, Succeeds, Dropped, Compared, ids_differ-Compared, Fails, drop_privileges-Dropped,
}
use libptytty.Process.Start.{use_helper-Any, sanitise_stdfd-Any}

-- In the caller no privileges are left.
abbrev pub Settled : (Trace → Ids) → Side → Trace → Type 0
Settled ids (caller s) v = Dropped (ids v)
Settled ids helper_done v = Unit

module _ (os : Os) (c : Config) (conf : TtyConf) (t : Terminals os) (ids : Trace → Ids)
    (r : Reads os ids) (Q : Type 0) (no_pair : (w : Trace) → os.socketpair w ≡ none → Q)
    (no_fork : (w : Trace) → is_neg (os.fork w) ≡ true → Q) (fails : Fails os c ids r → Q) where
  drop_on-Settled : (side : Side) (w : Trace) → Ends (Settled ids) (λ _. Q) (drop_on os c side w)
  unfolding drop_on
  drop_on-Settled (caller s) w =
      Ends-bind Q (λ _ v. Dropped (ids v)) (Settled ids) (drop_privileges os c w) _
        (drop_privileges-Dropped os c ids r Q w fails) λ _ v p. p
  drop_on-Settled helper_done w = tt

  helped-Any :
      (s : Statics) (w : Trace)
      → Ends Any (λ _. Q) ((if c.helper then use_helper os c conf s else pure (caller s)) w)
  helped-Any s w =
      branch (Ends Any (λ _. Q)) c.helper (use_helper os c conf s) (pure (caller s)) w
        (λ _. use_helper-Any os c conf 0 t Q no_pair no_fork s w) (λ _. tt)

  -- `init`, behind its first call.
  init-Settled :
      (s : Statics) (w : Trace)
      → Ends Any (λ _. Q) (sanitise_stdfd os c w)
      → Ends (Settled ids) (λ _. Q) (init os c conf s w)
  unfolding init getgid
  init-Settled s w sane = Ends-bind Q Any (Settled ids) (sanitise_stdfd os c w) _ sane λ _ v _.
      let x = asked_uid (os.getuid v) ∷ v in
      let y = asked_gid (os.getgid x) ∷ x in
      let same : ids y ≡ ids x = r.gid_asked x (os.getgid x) in
      let user : (ids y).uid ≡ os.getuid v =
        ap (λ (j : Ids). j.uid) (same ∙ r.uid_asked v (os.getuid v)) ∙ sym (r.uid v) in
      let group : (ids y).gid ≡ os.getgid x = ap (λ (j : Ids). j.gid) same ∙ sym (r.gid x) in
      bind (Compared os c ids r (os.getuid v) (os.getgid x) (ids y)) (Ends (Settled ids) (λ _. Q))
        (ids_differ os c (os.getuid v) (os.getgid x) y) _
        (ids_differ-Compared os c ids r (os.getuid v) (os.getgid x) y)
        λ differ u (kept, (to, back)).
          branch (Ends (Settled ids) (λ _. Q)) (not differ) (pure (caller s)) _ u
            (λ e.
              let (p, q) = to (ground (arith, e)) in
              subst Dropped (sym kept) (p ∙ sym user, q ∙ sym group))
            (λ _.
              Ends-bind Q Any (Settled ids) _ (drop_on os c) (helped-Any s u)
                λ side z _. drop_on-Settled side z)

module _ (os : Os) (c : Config) (conf : TtyConf) (t : Terminals os) (ids : Trace → Ids)
    (r : Reads os ids) where
  -- Where ptsname and ttyname give a name, open gives -1 or a descriptor and openpty two
  -- descriptors, and calls read and set ids as documented, but may fail, `init` either throws or
  -- ends, without undefined behaviour. If it returns to its caller, the effective user and group
  -- id are the real ones then, whether it found them so or dropped the privileges behind the
  -- start of the helper.
  pub init-Dropped :
      (s : Statics) (w : Trace) → Ends (Settled ids) (λ _. Unit {0}) (init os c conf s w)
  init-Dropped s w =
      init-Settled os c conf t ids r Unit (λ _ _. tt) (λ _ _. tt) (λ _. tt) s w
        (sanitise_stdfd-Any os c w)

  -- If also the descriptors are kept in a table as documented, socketpair and fork succeed, the
  -- build has a call to set ids and that succeeds, `init` does not throw: it returns to its
  -- caller with the effective ids equal to the real ones, or ends as the helper.
  pub init-Returns :
      (is_used : Trace → ℕ → Bool) (s : Statics) (w : Trace)
      → Table os is_used
      → Succeeds ids
      → is_some c.set_ids ≡ true
      → ((v : Trace) → is_some (os.socketpair v) ≡ true)
      → ((v : Trace) → is_neg (os.fork v) ≡ false)
      → Returns (Settled ids) (init os c conf s w)
  init-Returns is_used s w table sets known pairs forks =
      Ends-Returns (Settled ids) (init os c conf s w) (
        init-Settled os c conf t ids r ⊥ (λ v e. false≢true (sym (ap is_some e) ∙ pairs v))
          (λ v e. false≢true (sym (forks v) ∙ e)) (λ f. f known sets) s w
          (Ends-weaken ⊥ _ (sanitise_stdfd os c w) (sanitise_stdfd-AllUsed os c is_used table w)))
