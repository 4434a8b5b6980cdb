-- ===== src/Unix/Flags.antt =====
-- The flags that `ptytty::set_utf8_mode` writes (src/ptytty.C).
use native.Mathlib.Nat.{add-div_right, add-mod_right, one-le-pow, le-div_iff_mul-le}
use libptytty.Base.{
  ℕ, ◌+◌, ◌-◌, ◌*◌, ◌/◌, ◌%◌, ◌^◌, ◌≤◌, ◌<◌, ◌≡◌, ◌≢◌, ◌⊎◌, ◌∷◌, Option, none, some, is_neg, refl,
  sym, ap, ◌∙◌, Bool, true, false, arith, ◌==◌, if◌then◌else◌, Bool-cases, inl, inr,
}
use libptytty.Sys.{Os, Trace, got_attr, set_attr}
use libptytty.Sys.Returns.{Returns, mono, branch}
use libptytty.Config.{Config}
use libptytty.Unix.{
  Unix, set_bit, clear_bit, write_utf8_flag, change_utf8_flag, set_utf8_bit, set_utf8_mode,
}

-- Of `y` the bit of weight `p` is `b`, and the bits below and above are those of `x`.
abbrev pub Differs : ℕ → ℕ → ℕ → ℕ → Type 0
Differs p b x y = ((y / p) % 2 ≡ b) × (y % p ≡ x % p) × (y / p / 2 ≡ x / p / 2)

added-Differs : (p x : ℕ) → 0 < p → ((x / p) % 2 == 1) ≡ false → Differs p 1 x (x + p)
added-Differs p x h e =
    let q = add-div_right x h in (ground (arith, q, e), add-mod_right x p, ground (arith, q, e))

removed-Differs : (p x : ℕ) → 0 < p → ((x / p) % 2 == 1) ≡ true → Differs p 0 x (x - p)
removed-Differs p x h e =
    let some_bits : 1 ≤ x / p = ground (arith, e) in
    let fits : 1 * p ≤ x = (le-div_iff_mul-le {k = p} {x = 1} {y = x} h).0 some_bits in
    let whole : (x - p) + p ≡ x = omega (arith, fits) in
    let q = ap (λ n. n / p) (sym whole) ∙ add-div_right (x - p) h in
    let r = ap (λ n. n % p) (sym whole) ∙ add-mod_right (x - p) p in
    (ground (arith, q, e), sym r, ground (arith, q, e))

set_utf8_flag-Differs :
    (k x : ℕ) (on : Bool)
    → Differs (2 ^ k) (if on then 1 else 0) x (if on then set_bit k x else clear_bit k x)
unfolding set_bit clear_bit
set_utf8_flag-Differs k x true = elim (Bool-cases ((x / 2 ^ k) % 2 == 1)) [
  | inl e ↦ rw e (ground (arith, e), refl, refl)
  | inr e ↦ rw e (added-Differs (2 ^ k) x (one-le-pow k 2 (omega arith)) e)
]
set_utf8_flag-Differs k x false = elim (Bool-cases ((x / 2 ^ k) % 2 == 1)) [
  | inl e ↦ rw e (removed-Differs (2 ^ k) x (one-le-pow k 2 (omega arith)) e)
  | inr e ↦ rw e (ground (arith, e), refl, refl)
]

module _ (os : Os) (c : Config) (o : Unix) (on : Bool) (w : Trace) where
  -- What `set_utf8_mode` does of a terminal with the flags `x`: it asks for them, and writes the
  -- flags `y` if they are others. Of `y` the bit `k` is as asked, and the others are as in `x`.
  abbrev pub Changes : ℕ → Option ℕ → Trace → Type 0
  Changes k none v = v ≡ got_attr o.pty none ∷ w
  Changes k (some x) v =
      (y : ℕ) × (Differs (2 ^ k) (if on then 1 else 0) x y
        × (((y ≡ x) × (v ≡ got_attr o.pty (some x) ∷ w))
            ⊎ ((y ≢ x) × (v ≡ set_attr o.pty y ∷ (got_attr o.pty (some x) ∷ w)))))

  -- Where there is no IUTF8 or no terminal, it makes no call.
  abbrev pub Sets : Option ℕ → Trace → Type 0
  Sets none v = v ≡ w
  Sets (some k) v =
      ((is_neg o.pty ≡ true) × (v ≡ w))
      ⊎ ((is_neg o.pty ≡ false) × Changes k (os.tcgetattr w o.pty) v)

  write_utf8_flag-Changes :
      (k x : ℕ)
      → Returns
          (λ _. Changes k (some x))
          (write_utf8_flag os c o.pty on k x (got_attr o.pty (some x) ∷ w))
  unfolding write_utf8_flag
  write_utf8_flag-Changes k x =
      let y = (if on then set_bit k x else clear_bit k x) in
      branch (Returns (λ _. Changes k (some x))) (y == x) _ _ (got_attr o.pty (some x) ∷ w)
        (λ e. (y, (set_utf8_flag-Differs k x on, inl (ground (arith, e), refl))))
        (λ e. (y, (set_utf8_flag-Differs k x on, inr (ground (arith, e), refl))))

  change_utf8_flag-Changes :
      (k : ℕ) (a : Option ℕ)
      → Returns (λ _. Changes k a) (change_utf8_flag os c o.pty on k a (got_attr o.pty a ∷ w))
  unfolding change_utf8_flag
  change_utf8_flag-Changes k none = refl
  change_utf8_flag-Changes k (some x) = write_utf8_flag-Changes k x

  set_utf8_bit-Sets : (u : Option ℕ) → Returns (λ _. Sets u) (set_utf8_bit os c u o.pty on w)
  unfolding set_utf8_bit
  set_utf8_bit-Sets none = refl
  set_utf8_bit-Sets (some k) =
      branch (Returns (λ _. Sets (some k))) (is_neg o.pty) _ _ w (λ e. inl (e, refl))
        λ e.
          mono (λ _. Changes k (os.tcgetattr w o.pty)) (λ _. Sets (some k)) _
            (change_utf8_flag-Changes k (os.tcgetattr w o.pty)) λ _ v h. inr (e, h)

  -- `set_utf8_mode` returns. Without IUTF8 or without a master it makes no call. Else it asks
  -- for the flags, and if it gets none, it does no more. Of the flags it gets it sets or clears
  -- the bit of IUTF8 as asked and keeps all other bits, and it writes the result, once, if and
  -- only if that differs from the flags it got.
  pub set_utf8_mode-Sets : Returns (λ _. Sets c.iutf8) (set_utf8_mode os c o on w)
  unfolding set_utf8_mode
  set_utf8_mode-Sets = set_utf8_bit-Sets c.iutf8
