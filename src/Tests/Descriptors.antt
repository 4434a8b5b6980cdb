-- ===== src/Tests/Descriptors.antt =====
-- A table of descriptors in which standard output and standard error are closed.
use libptytty.Base.{
  ℕ, zero, suc, ◌<◌, ◌≤◌, ◌≡◌, refl, sym, subst, ap, ◌∙◌, ℤ, pos, negsuc, Bool, true, false, not,
  ◌||◌, Bytes, [], ◌∷◌, arith, ◌==◌, is_neg, minus_one,
}
use mathlib.Core.Bool.{false≢true}
use libptytty.Sys.{Os, OpenMode, Trace, Event, opened}
use libptytty.Sys.Returns.{Returns}
use libptytty.Process.{sanitise_stdfd}
use libptytty.Process.Stdfd.{Table, AllUsed, sanitise_stdfd-AllUsed}
use libptytty.Tests.{os, config}

abbrev is_opening : Event → ℕ → Bool
is_opening (opened p m (pos r)) k = r == k
is_opening _ k = false

abbrev pub used : Trace → ℕ → Bool
used [] k = not ((k == 1) || (k == 2))
used (e ∷ w) k = is_opening e k || used w k

abbrev pub lowest_of : (zero_used one_used two_used : Bool) → ℤ
lowest_of false b c = pos 0
lowest_of true false c = pos 1
lowest_of true true false = pos 2
lowest_of true true true = minus_one

abbrev pub table_os : Os
table_os = record os {
  open_file = λ w p m. lowest_of (used w 0) (used w 1) (used w 2);
  is_bad_fd = λ w k. not (used w k);
}

or_true : (a b : Bool) → b ≡ true → (a || b) ≡ true
or_true a b h = ground arith

high : (w : Trace) (k : ℕ) → 3 ≤ k → used w k ≡ true
high [] k h = ground arith
high (e ∷ w) k h = or_true (is_opening e k) (used w k) (high w k h)

below_two : (f : ℕ → Bool) → f 0 ≡ true → f 1 ≡ true → (k : ℕ) → k < 2 → f k ≡ true
below_two f p q zero h = p
below_two f p q (suc zero) h = q
below_two f p q (suc (suc k)) h = absurd (omega arith)

below_one : (f : ℕ → Bool) → f 0 ≡ true → (k : ℕ) → k < 1 → f k ≡ true
below_one f p zero h = p
below_one f p (suc k) h = absurd (omega arith)

number : ℤ → ℕ
number (pos r) = r
number (negsuc r) = 0

abbrev IsLowest : (ℕ → Bool) → ℕ → Type 0
IsLowest f r = (f r ≡ false) × ((k : ℕ) → k < r → f k ≡ true)

lowest_of-IsLowest :
    (f : ℕ → Bool) (a b c : Bool) (r : ℕ)
    → f 0 ≡ a
    → f 1 ≡ b
    → f 2 ≡ c
    → lowest_of a b c ≡ pos r
    → IsLowest f r
unfolding number
lowest_of-IsLowest f false b c r p q s e =
    subst (IsLowest f) (ap number e) (p, λ k h. absurd (omega arith))
lowest_of-IsLowest f true false c r p q s e = subst (IsLowest f) (ap number e) (q, below_one f p)
lowest_of-IsLowest f true true false r p q s e =
    subst (IsLowest f) (ap number e) (s, below_two f p q)
lowest_of-IsLowest f true true true r p q s e = cc e

lowest_of-free :
    (w : Trace) (a b c : Bool) (k : ℕ)
    → used w 0 ≡ a
    → used w 1 ≡ b
    → used w 2 ≡ c
    → used w k ≡ false
    → is_neg (lowest_of a b c) ≡ false
lowest_of-free w false b c k p q s h = refl
lowest_of-free w true false c k p q s h = refl
lowest_of-free w true true false k p q s h = refl
lowest_of-free w true true true zero p q s h = absurd (false≢true (sym h ∙ p))
lowest_of-free w true true true (suc zero) p q s h = absurd (false≢true (sym h ∙ q))
lowest_of-free w true true true (suc (suc zero)) p q s h = absurd (false≢true (sym h ∙ s))
lowest_of-free w true true true (suc (suc (suc k))) p q s h =
    absurd (false≢true (sym h ∙ high w (suc (suc (suc k))) (omega arith)))

fails :
    (w : Trace) (p : Bytes) (m : OpenMode) (a : ℤ) (k : ℕ)
    → is_neg a ≡ true
    → used (opened p m a ∷ w) k ≡ used w k
fails w p m (pos r) k h = cc h
fails w p m (negsuc r) k h = refl

keeps :
    (w : Trace) (p : Bytes) (m : OpenMode) (a : ℤ) (k : ℕ)
    → used w k ≡ true
    → used (opened p m a ∷ w) k ≡ true
keeps w p m (pos r) k h = or_true (r == k) (used w k) h
keeps w p m (negsuc r) k h = h

pub table : Table table_os used
table = record {
  bad = λ w k. refl;
  lowest =
      λ w p m r e. lowest_of-IsLowest (used w) (used w 0) (used w 1) (used w 2) r refl refl refl e;
  null = λ w m k h. lowest_of-free w (used w 0) (used w 1) (used w 2) k refl refl refl h;
  asks = λ w j b k. refl;
  fails = fails;
  adds = λ w p m r. ground arith;
  keeps = keeps;
}

sanitise_stdfd-AllUsed_example :
    Returns (λ _ v. AllUsed table_os config used table 3 v) (sanitise_stdfd table_os config [])
sanitise_stdfd-AllUsed_example = sanitise_stdfd-AllUsed table_os config used table []
