-- ===== src/Sys/Returns.antt =====
-- Total correctness of a run: it returns, and a postcondition holds.
use libptytty.Base.{◌≡◌, refl, Bool, true, false, if◌then◌else◌}
use libptytty.Sys.Types.{Trace}
use libptytty.Sys.Monad.{Run, ok, throws, crash, M, and_then}

module _ {ℓ} {A : Type ℓ} where
  abbrev pub Returns : (A → Trace → Type 0) → Run A → Type 0
  Returns P (ok a w) = P a w
  Returns P (throws e w) = ⊥
  Returns P (crash w) = ⊥

  -- A run that may end by an exception, but not by undefined behaviour.
  abbrev pub Ends : (A → Trace → Type 0) → (Trace → Type 0) → Run A → Type 0
  Ends P Q (ok a w) = P a w
  Ends P Q (throws e w) = Q w
  Ends P Q (crash w) = ⊥

  pub mono :
      (P Q : A → Trace → Type 0) (r : Run A)
      → Returns P r
      → ((a : A) (w : Trace) → P a w → Q a w)
      → Returns Q r
  mono P Q (ok a w) p h = h a w p
  mono P Q (throws e w) p h = p
  mono P Q (crash w) p h = p

  pub bind {κ} :
      {B : Type κ} (P : A → Trace → Type 0) (Q : Run B → Type 0) (r : Run A) (k : A → M B)
      → Returns P r
      → ((a : A) (w : Trace) → P a w → Q (k a w))
      → Q (and_then r k)
  bind P Q (ok a w) k p h = h a w p
  bind P Q (throws e w) k p h = absurd p
  bind P Q (crash w) k p h = absurd p

  -- A test, with what each branch knows of it.
  pub branch :
      (Q : Run A → Type 0) (b : Bool) (x y : M A) (w : Trace)
      → (b ≡ true → Q (x w))
      → (b ≡ false → Q (y w))
      → Q ((if b then x else y) w)
  branch Q true x y w f g = f refl
  branch Q false x y w f g = g refl

  pub both :
      (P Q : A → Trace → Type 0) (r : Run A)
      → Returns P r
      → Returns Q r
      → Returns (λ a w. P a w × Q a w) r
  both P Q (ok a w) p q = (p, q)
  both P Q (throws e w) p q = p
  both P Q (crash w) p q = p

-- Whatever is given.
abbrev pub Any : {A : Type 0} → A → Trace → Type 0
Any a w = Unit

pub Ends-bind :
    {A B : Type 0} (Q : Type 0) (P : A → Trace → Type 0) (R : B → Trace → Type 0) (r : Run A)
    (k : A → M B)
    → Ends P (λ _. Q) r
    → ((a : A) (w : Trace) → P a w → Ends R (λ _. Q) (k a w))
    → Ends R (λ _. Q) (and_then r k)
Ends-bind Q P R (ok a w) k p h = h a w p
Ends-bind Q P R (throws e w) k p h = p
Ends-bind Q P R (crash w) k p h = absurd p

pub Ends-weaken :
    {A : Type 0} (Q : Type 0) (P : A → Trace → Type 0) (r : Run A)
    → Returns P r
    → Ends Any (λ _. Q) r
Ends-weaken Q P (ok a w) p = tt
Ends-weaken Q P (throws e w) p = absurd p
Ends-weaken Q P (crash w) p = p

pub Ends-Returns :
    {A : Type 0} (P : A → Trace → Type 0) (r : Run A) → Ends P (λ _. ⊥) r → Returns P r
Ends-Returns P (ok a w) p = p
Ends-Returns P (throws e w) p = p
Ends-Returns P (crash w) p = p

pub Returns-Ends :
    {A : Type 0} (Q : Type 0) (P : A → Trace → Type 0) (r : Run A) → Returns P r → Ends P (λ _. Q) r
Returns-Ends Q P (ok a w) p = p
Returns-Ends Q P (throws e w) p = absurd p
Returns-Ends Q P (crash w) p = p

pub Ends-mono :
    {A : Type 0} (Q : Trace → Type 0) (P R : A → Trace → Type 0) (r : Run A)
    → Ends P Q r
    → ((a : A) (w : Trace) → P a w → R a w)
    → Ends R Q r
Ends-mono Q P R (ok a w) p h = h a w p
Ends-mono Q P R (throws e w) p h = p
Ends-mono Q P R (crash w) p h = absurd p

pub Returns-Ends_at :
    {A : Type 0} (P : A → Trace → Type 0) (Q : Trace → Type 0) (r : Run A)
    → Returns P r
    → Ends P Q r
Returns-Ends_at P Q (ok a w) p = p
Returns-Ends_at P Q (throws e w) p = absurd p
Returns-Ends_at P Q (crash w) p = p

-- What a run gives, with the equation.
pub given :
    {A : Type 0} (P : A → Trace → Type 0) (r : Run A)
    → Returns P r
    → Returns (λ a w. P a w × (r ≡ ok a w)) r
given P (ok a w) p = (p, refl)
given P (throws e w) p = p
given P (crash w) p = p
