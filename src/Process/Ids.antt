-- ===== src/Process/Ids.antt =====
-- `init` and `drop_privileges` (src/proxy.C) on the ids of the process.
use libptytty.Base.{
  ℕ, ◌≡◌, sym, ap, ◌∙◌, subst, Bool, true, false, not, Option, none, some, ◌∷◌, arith, ◌==◌,
  is_some, if◌then◌else◌,
}
use libptytty.Sys.{
  Os, SetIds, Trace, pure, throw, ◌>>=◌, asked_uid, asked_gid, asked_euid, asked_egid, set_gid,
  set_uid,
}
use mathlib.Core.Bool.{false≢true}
use libptytty.Sys.Returns.{Returns, Ends, bind, branch}
use libptytty.Config.{Config}
use libptytty.Process.{getgid, ids_differ, set_ids, drop_privileges, no_drop}

-- The real and the effective ids of the process.
pub record Ids : Type 0 where
  pub uid : ℕ
  pub gid : ℕ
  pub euid : ℕ
  pub egid : ℕ

-- What is documented of the calls: the first four read the ids and change nothing, and setting ids
-- to the real ones leaves the real ones, whether the call succeeds or not.
pub record Reads (os : Os) (ids : Trace → Ids) : Type 0 where
  pub uid : (w : Trace) → os.getuid w ≡ (ids w).uid
  pub gid : (w : Trace) → os.getgid w ≡ (ids w).gid
  pub euid : (w : Trace) → os.geteuid w ≡ (ids w).euid
  pub egid : (w : Trace) → os.getegid w ≡ (ids w).egid
  pub uid_asked : (w : Trace) (n : ℕ) → ids (asked_uid n ∷ w) ≡ ids w
  pub gid_asked : (w : Trace) (n : ℕ) → ids (asked_gid n ∷ w) ≡ ids w
  pub euid_asked : (w : Trace) (n : ℕ) → ids (asked_euid n ∷ w) ≡ ids w
  pub egid_asked : (w : Trace) (n : ℕ) → ids (asked_egid n ∷ w) ≡ ids w
  pub group_set :
      (w : Trace) (k : SetIds) (g : ℕ)
      → g ≡ (ids w).gid
      → ((ids (set_gid k g ∷ w)).uid ≡ (ids w).uid) × ((ids (set_gid k g ∷ w)).gid ≡ (ids w).gid)
  pub user_set :
      (w : Trace) (k : SetIds) (u : ℕ)
      → u ≡ (ids w).uid
      → ((ids (set_uid k u ∷ w)).uid ≡ (ids w).uid) × ((ids (set_uid k u ∷ w)).gid ≡ (ids w).gid)

-- The two calls succeed: each sets the effective id as well, and `setuid` no group.
pub record Succeeds (ids : Trace → Ids) : Type 0 where
  pub group : (w : Trace) (k : SetIds) (g : ℕ) → g ≡ (ids w).gid → (ids (set_gid k g ∷ w)).egid ≡ g
  pub user :
      (w : Trace) (k : SetIds) (u : ℕ)
      → u ≡ (ids w).uid
      → ((ids (set_uid k u ∷ w)).euid ≡ u) × ((ids (set_uid k u ∷ w)).egid ≡ (ids w).egid)

-- No privileges are left.
abbrev pub Dropped : Ids → Type 0
Dropped i = (i.euid ≡ i.uid) × (i.egid ≡ i.gid)

equal : (m n : ℕ) → not (m == n) ≡ false → m ≡ n
equal m n h = ground (arith, h)

unequal : (m n : ℕ) → not (m == n) ≡ true → m ≡ n → ⊥
unequal m n h e = ground (arith, h, e)

differs : (m n : ℕ) → m ≡ n → not (m == n) ≡ false
differs m n e = ground (arith, e)

module _ (os : Os) (c : Config) (ids : Trace → Ids) (t : Reads os ids) where
  -- The test of both effective ids leaves the ids, and fails where both agree.
  abbrev pub Compared : ℕ → ℕ → Ids → Bool → Trace → Type 0
  Compared uid gid i differ v =
      (ids v ≡ i)
      × ((differ ≡ false → (i.euid ≡ uid) × (i.egid ≡ gid))
          × ((i.euid ≡ uid) × (i.egid ≡ gid) → differ ≡ false))

  pub ids_differ-Compared :
      (uid gid : ℕ) (w : Trace) → Returns (Compared uid gid (ids w)) (ids_differ os c uid gid w)
  unfolding ids_differ
  ids_differ-Compared uid gid w =
      let v = asked_euid (os.geteuid w) ∷ w in
      branch (Returns (Compared uid gid (ids w))) (not (uid == os.geteuid w)) (pure true) _ v
        (λ e. (
          t.euid_asked w (os.geteuid w),
          (λ q. cc q, λ (p, q). absurd (unequal uid (os.geteuid w) e (sym (t.euid w ∙ p)))),
        ))
        (λ e.
          let user : (ids w).euid ≡ uid = sym (t.euid w) ∙ sym (equal uid (os.geteuid w) e) in
          let same : ids v ≡ ids w = t.euid_asked w (os.geteuid w) in
          let group : os.getegid v ≡ (ids w).egid = t.egid v ∙ ap (λ (i : Ids). i.egid) same in
          (
            t.egid_asked v (os.getegid v) ∙ same,
            (
              λ q. (user, sym group ∙ sym (equal gid (os.getegid v) q)),
              λ (p, q). differs gid (os.getegid v) (sym (group ∙ q)),
            ),
          ))

  -- The real ids are `u` and `g`.
  abbrev Real : (u g : ℕ) → Ids → Type 0
  Real u g i = (i.uid ≡ u) × (i.gid ≡ g)

  -- Where the calls exist and succeed, so are the effective ids.
  abbrev Effective : Option SetIds → (u g : ℕ) → Ids → Type 0
  Effective o u g i = is_some o ≡ true → Succeeds ids → (i.euid ≡ u) × (i.egid ≡ g)

  set_ids-Real :
      (o : Option SetIds) (u g : ℕ) (w : Trace)
      → Real u g (ids w)
      → Returns (λ _ v. Real u g (ids v) × Effective o u g (ids v)) (set_ids os c o u g w)
  unfolding set_ids
  set_ids-Real none u g w real = (real, λ s. cc s)
  set_ids-Real (some k) u g w (user, group) =
      let v = set_gid k g ∷ w in
      let (user_kept, group_kept) = t.group_set w k g (sym group) in
      let still : u ≡ (ids v).uid = sym (user_kept ∙ user) in
      let (user_still, group_still) = t.user_set v k u still in
      (
        (user_still ∙ sym still, group_still ∙ group_kept ∙ group),
        λ _ s. let (set, kept) = s.user v k u still in (set, kept ∙ s.group w k g (sym group)),
      )

  abbrev pub Fails : Type 0
  Fails = is_some c.set_ids ≡ true → Succeeds ids → ⊥

  -- The end of `drop_privileges`.
  compared-Dropped :
      (Q : Type 0) (u g : ℕ) (w : Trace)
      → (Fails → Q)
      → Real u g (ids w)
      → Effective c.set_ids u g (ids w)
      → Ends {A = Unit {0}}
          (λ _ v. Dropped (ids v))
          (λ _. Q)
          ((ids_differ os c u g >>= λ differ. if differ then throw no_drop else pure tt) w)
  compared-Dropped Q u g w fails (user, group) effective =
      bind (Compared u g (ids w)) (Ends (λ _ v. Dropped (ids v)) (λ _. Q)) (ids_differ os c u g w) _
        (ids_differ-Compared u g w)
        λ differ v (same, (to, back)).
          branch (Ends (λ _ v. Dropped (ids v)) (λ _. Q)) differ (throw no_drop) (pure tt) v
            (λ e. fails λ h s. false≢true (sym (back (effective h s)) ∙ e))
            (λ e. let (p, q) = to e in subst Dropped (sym same) (p ∙ sym user, q ∙ sym group))

  -- Either the ids are dropped at the end, or an exception is thrown, which does not happen where
  -- the calls exist and succeed.
  pub drop_privileges-Dropped :
      (Q : Type 0) (w : Trace)
      → (Fails → Q)
      → Ends (λ _ v. Dropped (ids v)) (λ _. Q) (drop_privileges os c w)
  unfolding drop_privileges getgid
  drop_privileges-Dropped Q w fails =
      let v = asked_uid (os.getuid w) ∷ w in
      let same_v : ids v ≡ ids w = t.uid_asked w (os.getuid w) in
      let x = asked_gid (os.getgid v) ∷ v in
      let same : ids x ≡ ids v = t.gid_asked v (os.getgid v) in
      let real : Real (os.getuid w) (os.getgid v) (ids x) = (
        ap (λ (j : Ids). j.uid) (same ∙ same_v) ∙ sym (t.uid w),
        ap (λ (j : Ids). j.gid) same ∙ sym (t.gid v),
      ) in
      bind
        (λ _ y.
          Real (os.getuid w) (os.getgid v) (ids y)
          × Effective c.set_ids (os.getuid w) (os.getgid v) (ids y))
        (Ends (λ _ y. Dropped (ids y)) (λ _. Q))
        (set_ids os c c.set_ids (os.getuid w) (os.getgid v) x) _
        (set_ids-Real c.set_ids (os.getuid w) (os.getgid v) x real)
        λ _ y (r, e). compared-Dropped Q (os.getuid w) (os.getgid v) y fails r e
