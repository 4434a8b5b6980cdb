-- ===== src/Process/Stdfd.antt =====
-- `ptytty::sanitise_stdfd` (src/proxy.C) on a table of descriptors.
use libptytty.Base.{
  ℕ, suc, ◌<◌, ◌≡◌, refl, sym, subst, ap, ◌∙◌, ℤ, pos, negsuc, Bool, true, false, not, Bytes, ◌∷◌,
  arith, codes, ltb, ltb→lt, ◌==◌, is_neg, eqz, if◌then◌else◌, Bool-cases, inl, inr,
}
use mathlib.Core.Bool.{false≢true}
use libptytty.Sys.{
  Os, OpenMode, rdonly, wronly, Trace, M, pure, throw, open_file, and_then, opened, asked_fd,
}
use libptytty.Sys.Returns.{Returns, bind, branch}
use libptytty.Config.{Config}
use libptytty.Process.{reopen, sanitise_fd, sanitise_stdfd, no_stdfd}

-- What is documented of fcntl and open, for the descriptors in use after a trace: fcntl refuses
-- those not in use, open takes the lowest that is free, and it can open /dev/null while one is.
pub record Table (os : Os) (is_used : Trace → ℕ → Bool) : Type 0 where
  pub bad : (w : Trace) (k : ℕ) → os.is_bad_fd w k ≡ not (is_used w k)
  pub lowest :
      (w : Trace) (p : Bytes) (m : OpenMode) (r : ℕ)
      → os.open_file w p m ≡ pos r
      → (is_used w r ≡ false) × ((k : ℕ) → k < r → is_used w k ≡ true)
  pub null :
      (w : Trace) (m : OpenMode) (k : ℕ)
      → is_used w k ≡ false
      → is_neg (os.open_file w (codes "/dev/null") m) ≡ false
  pub asks : (w : Trace) (j : ℕ) (b : Bool) (k : ℕ) → is_used (asked_fd j b ∷ w) k ≡ is_used w k
  pub fails :
      (w : Trace) (p : Bytes) (m : OpenMode) (a : ℤ) (k : ℕ)
      → is_neg a ≡ true
      → is_used (opened p m a ∷ w) k ≡ is_used w k
  pub adds :
      (w : Trace) (p : Bytes) (m : OpenMode) (r : ℕ) → is_used (opened p m (pos r) ∷ w) r ≡ true
  pub keeps :
      (w : Trace) (p : Bytes) (m : OpenMode) (a : ℤ) (k : ℕ)
      → is_used w k ≡ true
      → is_used (opened p m a ∷ w) k ≡ true

non_neg : (a : ℤ) → is_neg a ≡ false → (r : ℕ) × (a ≡ pos r)
non_neg (pos r) h = (r, refl)
non_neg (negsuc r) h = cc

refused : (b : Bool) → not b ≡ true → b ≡ false
refused b h = ground arith

granted_too : (b : Bool) → not b ≡ false → b ≡ true
granted_too b h = ground arith

module _ (os : Os) (c : Config) (is_used : Trace → ℕ → Bool) (t : Table os is_used) where
  -- The descriptors below `fd` are in use.
  abbrev pub AllUsed : ℕ → Trace → Type 0
  AllUsed fd w = (k : ℕ) → k < fd → is_used w k ≡ true

  lowest_free :
      (fd : ℕ) (w : Trace) (p : Bytes) (m : OpenMode) (r : ℕ)
      → AllUsed fd w
      → is_used w fd ≡ false
      → os.open_file w p m ≡ pos r
      → r ≡ fd
  lowest_free fd w p m r below free e =
      let (unused, all) = t.lowest w p m r e in
      elim (Bool-cases (ltb r fd)) [
        | inl less ↦ absurd (false≢true (sym unused ∙ below r (ltb→lt r fd less)))
        | inr not_less ↦ elim (Bool-cases (ltb fd r)) [
          | inl more ↦ absurd (false≢true (sym free ∙ all fd (ltb→lt fd r more)))
          | inr not_more ↦ ground (arith, not_less, not_more)
        ]
      ]

  -- An open that succeeds gives `fd`.
  taken :
      (fd : ℕ) (w : Trace) (p : Bytes) (m : OpenMode)
      → AllUsed fd w
      → is_used w fd ≡ false
      → is_neg (os.open_file w p m) ≡ false
      → let a = os.open_file w p m in (eqz a (pos fd) ≡ true) × AllUsed (suc fd) (opened p m a ∷ w)
  taken fd w p m below free h =
      let (r, e) = non_neg (os.open_file w p m) h in
      let same = e ∙ ap pos (lowest_free fd w p m r below free e) in
      rw same (
        ground arith,
        λ k less. elim (Bool-cases (ltb k fd)) [
          | inl smaller ↦ t.keeps w p m (pos fd) k (below k (ltb→lt k fd smaller))
          | inr last ↦
              let k_fd : k ≡ fd = ground (arith, less, last) in
              subst (λ j. is_used (opened p m (pos fd) ∷ w) j ≡ true) (sym k_fd) (t.adds w p m fd)
        ],
      )

  abbrev checked : ℕ → ℤ → M (Unit {0})
  checked fd a = if eqz a (pos fd) then pure tt else throw no_stdfd

  finish-AllUsed :
      (fd : ℕ) (a : ℤ) (v : Trace)
      → (eqz a (pos fd) ≡ true) × AllUsed (suc fd) v
      → Returns (λ _ u. AllUsed (suc fd) u) (checked fd a v)
  finish-AllUsed fd a v (right, all) = rw right all

  reopen-AllUsed :
      (fd : ℕ) (w : Trace)
      → AllUsed fd w
      → is_used w fd ≡ false
      → Returns (λ _ v. AllUsed (suc fd) v) (reopen os c fd w)
  unfolding reopen
  reopen-AllUsed fd w below free =
      let mode = if fd == 0 then rdonly else wronly in
      let tty = codes "/dev/tty" in
      let a = os.open_file w tty mode in
      let v = opened tty mode a ∷ w in
      branch (λ r. Returns (λ _ u. AllUsed (suc fd) u) (and_then r (checked fd))) (is_neg a)
        (open_file os (codes "/dev/null") mode) (pure a) v
        (λ h.
          let same : (k : ℕ) → is_used v k ≡ is_used w k = λ k. t.fails w tty mode a k h in
          let none_there = same fd ∙ free in
          finish-AllUsed fd _ _ (
            taken fd v (codes "/dev/null") mode (λ k less. same k ∙ below k less) none_there
              (t.null v mode fd none_there)))
        (λ h. finish-AllUsed fd a v (taken fd w tty mode below free h))

  sanitise_fd-AllUsed :
      (fd : ℕ) (w : Trace)
      → AllUsed fd w
      → Returns (λ _ v. AllUsed (suc fd) v) (sanitise_fd os c fd w)
  unfolding sanitise_fd
  sanitise_fd-AllUsed fd w below =
      let bad = os.is_bad_fd w fd in
      let v = asked_fd fd bad ∷ w in
      let below' : AllUsed fd v = λ k less. t.asks w fd bad k ∙ below k less in
      branch (Returns (λ _ u. AllUsed (suc fd) u)) bad (reopen os c fd) (pure tt) v
        (λ h.
          reopen-AllUsed fd v below'
            (t.asks w fd bad fd ∙ refused (is_used w fd) (sym (t.bad w fd) ∙ h)))
        λ h k less. elim (Bool-cases (ltb k fd)) [
          | inl smaller ↦ below' k (ltb→lt k fd smaller)
          | inr last ↦
              let k_fd : k ≡ fd = ground (arith, less, last) in
              subst (λ j. is_used v j ≡ true) (sym k_fd)
                (t.asks w fd bad fd ∙ granted_too (is_used w fd) (sym (t.bad w fd) ∙ h))
        ]

  -- On a table of descriptors where fcntl refuses exactly the descriptors not in use, and open
  -- takes the lowest one that is free and can open /dev/null while one is, `sanitise_stdfd`
  -- never throws, and afterwards descriptors 0, 1 and 2 are in use, whichever of them were
  -- closed before.
  pub sanitise_stdfd-AllUsed : (w : Trace) → Returns (λ _ v. AllUsed 3 v) (sanitise_stdfd os c w)
  unfolding sanitise_stdfd
  sanitise_stdfd-AllUsed w =
      bind (λ _ v. AllUsed 1 v) (Returns (λ _ v. AllUsed 3 v)) (sanitise_fd os c 0 w) _
        (sanitise_fd-AllUsed 0 w (λ k h. absurd (omega arith)))
        λ _ v p.
          bind (λ _ u. AllUsed 2 u) (Returns (λ _ x. AllUsed 3 x)) (sanitise_fd os c 1 v) _
            (sanitise_fd-AllUsed 1 v p) λ _ u q. sanitise_fd-AllUsed 2 u q
