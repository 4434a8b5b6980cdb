-- ===== src/Unix/Ownership.antt =====
-- Descriptors of `ptytty_unix` (src/ptytty.C): what the operations open and close, counted over
-- the trace.
use libptytty.Base.{
  ℕ, zero, suc, ◌+◌, ◌≡◌, refl, sym, ◌∙◌, eqz, codes, ◌⊎◌, inl, inr, ℤ, true, false, Bytes, Option,
  some, ◌∷◌, arith, is_neg, is_zero, Bool-cases, Option-cases, minus_one,
}
use libptytty.Sys.{
  Os, Trace, M, MasterCall, opened_master, opened_pair, granted, unlocked, closed, accessed, opened,
  rdwr_noctty, OpenMode, Run,
}
use libptytty.Sys.Balance.{hits, hits_neg, gained, lost, opens, closes, Shifts}
use libptytty.Sys.Returns.{Returns, mono}
use libptytty.Unix.GetPty.{
  Got, check_tty, get_pty_unix98, get_pty_openpty, get_pty_getpty, get_pty_bsd, get_pty,
  letter_name, number_name,
}
use libptytty.Config.{Backend, unix98, openpty, getpty, bsd}

-- What is documented of ptsname and ttyname on a terminal, and of a successful openpty.
pub record Terminals (os : Os) : Type 0 where
  pub ptsname_known : (w : Trace) (fd : ℤ) → (s : Bytes) × (os.ptsname w fd ≡ some s)
  pub ttyname_known : (w : Trace) (fd : ℤ) → (s : Bytes) × (os.ttyname w fd ≡ some s)
  -- open gives -1 or a descriptor
  pub open_result :
      (w : Trace) (s : Bytes) (m : OpenMode)
      → eqz (os.open_file w s m) minus_one ≡ is_neg (os.open_file w s m)
  pub pair_open :
      (w : Trace) (a b : ℤ) → os.open_pair w ≡ some (a, b) → (is_neg a ≡ false) × (is_neg b ≡ false)

-- Either there is no descriptor, or there is a master with a name.
abbrev pub Kinds : Got → Type 0
Kinds (pfd, tty, name) =
    ((is_neg pfd ≡ true) × (is_neg tty ≡ true))
    ⊎ ((is_neg pfd ≡ false) × ((s : Bytes) × (name ≡ some s)))

-- The descriptors of a result of `get_pty` are those opened since `w`, and a master has a name.
abbrev pub Fetched : ℕ → Trace → Got → Trace → Type 0
Fetched n w (pfd, tty, name) v = Shifts n 0 w (hits n pfd + hits n tty) v × Kinds (pfd, tty, name)

-- So too, where `a` of them were in hand at `w`.
abbrev pub Grown : ℕ → ℕ → Trace → Got → Trace → Type 0
Grown n a w (pfd, tty, name) v = Shifts n a w (hits n pfd + hits n tty) v × Kinds (pfd, tty, name)

module _ (os : Os) (t : Terminals os) (n : ℕ) (tty : ℤ) (shut : is_neg tty ≡ true) where
  get_pty_unix98-Fetched :
      (m : MasterCall) (dev : Option Bytes) (w : Trace)
      → Returns (Fetched n w) (get_pty_unix98 os m tty dev w)
  unfolding get_pty_unix98 opens closes gained lost
  get_pty_unix98-Fetched m dev w =
      let a = os.open_master w m in
      let w = opened_master m a ∷ w in
      let g = os.grantpt w a in
      let w = granted a g ∷ w in
      let u = os.unlockpt w a in
      ground (
        arith,
        hits_neg n tty shut,
        hits_neg n minus_one refl,
        hits_neg n a,
        t.ptsname_known (unlocked a u ∷ w) a,
      )

  get_pty_openpty-Fetched :
      (dev : Option Bytes) (w : Trace) → Returns (Fetched n w) (get_pty_openpty os tty dev w)
  unfolding get_pty_openpty opens closes gained lost
  get_pty_openpty-Fetched dev w = elim (Option-cases (os.open_pair w)) [
    | inl e ↦ rw e (ground (arith, hits_neg n tty shut, hits_neg n minus_one refl))
    | inr ((a, b), e) ↦
        rw e
          (ground (arith, t.pair_open w a b e, t.ttyname_known (opened_pair (some (a, b)) ∷ w) b))
  ]

  get_pty_getpty-Fetched :
      (dev : Option Bytes) (w : Trace) → Returns (Fetched n w) (get_pty_getpty os tty dev w)
  unfolding get_pty_getpty opens closes gained lost
  get_pty_getpty-Fetched dev w = ground (arith, hits_neg n tty shut, hits_neg n minus_one refl)

  check_tty-Fetched :
      (pfd : ℤ) (tty_name : Bytes) (next : M Got) (w : Trace)
      → is_neg pfd ≡ false
      → ((v : Trace) → Returns (Fetched n v) (next v))
      → Returns (Grown n (hits n pfd) w) (check_tty os pfd tty_name tty next w)
  unfolding check_tty opens closes gained lost
  check_tty-Fetched pfd tty_name next w some_pfd h =
      let r = os.access w tty_name in
      let v = closed pfd ∷ accessed tty_name r ∷ w in
      elim (Bool-cases (is_zero r)) [
        | inl e ↦ rw e (ground (arith, hits_neg n tty shut))
        | inr e ↦ rw e (
            mono (Fetched n v) (Grown n (hits n pfd) w) (next v) (h v)
              (λ g u p. (omega (arith, p.0), p.1)))
      ]

  check_tty-opened :
      (s tty_name : Bytes) (next : M Got) (w : Trace)
      → let a = os.open_file w s rdwr_noctty in
        eqz a minus_one ≡ false
        → ((v : Trace) → Returns (Fetched n v) (next v))
        → Returns (Fetched n w) (check_tty os a tty_name tty next (opened s rdwr_noctty a ∷ w))
  unfolding opens closes gained lost
  check_tty-opened s tty_name next w e h =
      let a = os.open_file w s rdwr_noctty in
      let v = opened s rdwr_noctty a ∷ w in
      mono (Grown n (hits n a) v) (Fetched n w) (check_tty os a tty_name tty next v)
        (check_tty-Fetched a tty_name next v (sym (t.open_result w s rdwr_noctty) ∙ e) h)
        (λ g u p. (omega (arith, p.0), p.1))

  -- After an open that failed nothing is in hand.
  refused-Fetched :
      (s : Bytes) (r : Run Got) (w : Trace)
      → let a = os.open_file w s rdwr_noctty in
        eqz a minus_one ≡ true
        → Returns (Fetched n (opened s rdwr_noctty a ∷ w)) r
        → Returns (Fetched n w) r
  unfolding opens closes gained lost
  refused-Fetched s r w e h =
      let a = os.open_file w s rdwr_noctty in
      mono (Fetched n (opened s rdwr_noctty a ∷ w)) (Fetched n w) r h
        (λ g u p. (omega (arith, p.0, hits_neg n a (sym (t.open_result w s rdwr_noctty) ∙ e)), p.1))

  get_pty_bsd-Fetched :
      (k i : ℕ) (dev : Option Bytes) (w : Trace)
      → Returns (Fetched n w) (get_pty_bsd os k i tty dev w)
  unfolding get_pty_bsd opens closes gained lost
  get_pty_bsd-Fetched zero i dev w = ground (arith, hits_neg n tty shut, hits_neg n minus_one refl)
  get_pty_bsd-Fetched (suc k) i dev w =
      let s = letter_name (codes "/dev/pty") i in
      let a = os.open_file w s rdwr_noctty in
      let v = opened s rdwr_noctty a ∷ w in
      let s' = number_name (codes "/dev/ptyp") i in
      let next = get_pty_bsd os k (i + 1) tty dev in
      let ih = get_pty_bsd-Fetched k (i + 1) dev in
      elim (Bool-cases (eqz a minus_one)) [
        | inl e ↦ rw e (
            refused-Fetched s _ w e
              (elim (Bool-cases (eqz (os.open_file v s' rdwr_noctty) minus_one)) [
                | inl e' ↦ rw e' (refused-Fetched s' _ v e' (ih _))
                | inr e' ↦ rw e' (check_tty-opened s' _ next v e' ih)
              ]))
        | inr e ↦ rw e (check_tty-opened s _ next w e ih)
      ]

  -- Where ptsname and ttyname give a name, open gives -1 or a descriptor and openpty two
  -- descriptors, and no slave is open before, every version of `get_pty` returns, and hands out
  -- exactly the descriptors that it has opened and not closed: either none, or a master with a
  -- name.
  pub get_pty-Fetched :
      (b : Backend) (dev : Option Bytes) (w : Trace)
      → Returns (Fetched n w) (get_pty os b tty dev w)
  unfolding get_pty
  get_pty-Fetched (unix98 m) dev w = get_pty_unix98-Fetched m dev w
  get_pty-Fetched openpty dev w = get_pty_openpty-Fetched dev w
  get_pty-Fetched getpty dev w = get_pty_getpty-Fetched dev w
  get_pty-Fetched bsd dev w = get_pty_bsd-Fetched 256 0 dev w
