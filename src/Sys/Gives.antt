-- ===== src/Sys/Gives.antt =====
-- What a run gives if it returns, exceptions and undefined behaviour aside.
use libptytty.Sys.Types.{Trace}
use libptytty.Sys.Monad.{Run, ok, throws, crash, M, and_then}
use libptytty.Sys.Returns.{Returns}

-- If the run returns, then in `P`.
abbrev pub Gives : {A : Type 0} → (A → Type 0) → Run A → Type 0
Gives P (ok a w) = P a
Gives P (throws e w) = Unit
Gives P (crash w) = Unit

pub Gives-bind :
    {A B : Type 0} (P : A → Type 0) (Q : B → Type 0) (r : Run A) (k : A → M B)
    → Gives P r
    → ((a : A) (w : Trace) → P a → Gives Q (k a w))
    → Gives Q (and_then r k)
Gives-bind P Q (ok a w) k p h = h a w p
Gives-bind P Q (throws e w) k p h = tt
Gives-bind P Q (crash w) k p h = tt

pub Gives-mono :
    {A : Type 0} (P Q : A → Type 0) (r : Run A) → Gives P r → ((a : A) → P a → Q a) → Gives Q r
Gives-mono P Q (ok a w) p h = h a p
Gives-mono P Q (throws e w) p h = p
Gives-mono P Q (crash w) p h = p

-- Whatever a call gives.
pub Gives-call :
    {A B : Type 0} (Q : B → Type 0) (r : Run A) (k : A → M B)
    → ((a : A) (w : Trace) → Gives Q (k a w))
    → Gives Q (and_then r k)
Gives-call Q (ok a w) k h = h a w
Gives-call Q (throws e w) k h = tt
Gives-call Q (crash w) k h = tt

pub Returns-Gives :
    {A : Type 0} (P : A → Trace → Type 0) (Q : A → Type 0) (r : Run A)
    → Returns P r
    → Gives Q r
    → Returns (λ a w. Q a) r
Returns-Gives P Q (ok a w) p q = q
Returns-Gives P Q (throws e w) p q = p
Returns-Gives P Q (crash w) p q = p

pub Gives-both :
    {A : Type 0} (P Q : A → Type 0) (r : Run A)
    → Returns (λ a _. P a) r
    → Gives Q r
    → Gives (λ a. P a × Q a) r
Gives-both P Q (ok a w) p q = (p, q)
Gives-both P Q (throws e w) p q = tt
Gives-both P Q (crash w) p q = tt
