-- ===== src/Sys/Notes.antt =====
-- What a trace has of a kind of call, and what a run adds to it if it returns.
use mathlib.Core.List.{append_assoc, append-nil}
use libptytty.Base.{
  ◌≡◌, refl, sym, ap, subst, ◌∙◌, Bool, true, false, Option, none, some, List, [], ◌∷◌, ◌++◌,
  if◌then◌else◌,
}
use libptytty.Sys.Types.{Event, Trace}
use libptytty.Sys.Monad.{Run, ok, throws, crash, M, pure, emit, deref, ask, and_then, ◌>>=◌, ◌>>◌}
use libptytty.Sys.Returns.{Returns}

-- If the run returns, then in `P`.
abbrev pub Whenever {ℓ} : {A : Type ℓ} → (A → Trace → Type 0) → Run A → Type 0
Whenever P (ok a w) = P a w
Whenever P (throws e w) = Unit
Whenever P (crash w) = Unit

Whenever-bind :
    {A B : Type 0} (P : A → Trace → Type 0) (Q : B → Trace → Type 0) (r : Run A) (k : A → M B)
    → Whenever P r
    → ((a : A) (w : Trace) → P a w → Whenever Q (k a w))
    → Whenever Q (and_then r k)
Whenever-bind P Q (ok a w) k p h = h a w p
Whenever-bind P Q (throws e w) k p h = tt
Whenever-bind P Q (crash w) k p h = tt

Whenever-mono :
    {A : Type 0} (P Q : A → Trace → Type 0) (r : Run A)
    → Whenever P r
    → ((a : A) (w : Trace) → P a w → Q a w)
    → Whenever Q r
Whenever-mono P Q (ok a w) p h = h a w p
Whenever-mono P Q (throws e w) p h = p
Whenever-mono P Q (crash w) p h = p

pub Returns-Whenever :
    {A : Type 0} (P Q : A → Trace → Type 0) (r : Run A) → Returns P r → Whenever Q r → Returns Q r
Returns-Whenever P Q (ok a w) p q = q
Returns-Whenever P Q (throws e w) p q = absurd p
Returns-Whenever P Q (crash w) p q = p

abbrev pub Nothing : {A E : Type 0} → A → List E → Type 0
Nothing a l = l ≡ []

module _ {E : Type 0} (f : Event → List E) where
  -- What `f` takes of the calls, the last one first.
  unfoldable pub noted : Trace → List E
  noted [] = []
  noted (e ∷ w) = f e ++ noted w

  -- What is given, and what is added, are in `P`.
  abbrev pub Adds : {A : Type 0} → (A → List E → Type 0) → Trace → A → Trace → Type 0
  Adds P w a v = (l : List E) × ((noted v ≡ l ++ noted w) × P a l)

  pub record Notes {A : Type 0} (P : A → List E → Type 0) (m : M A) : Type 0 where
    pub run : (w : Trace) → Whenever (Adds P w) (m w)

module _ {E : Type 0} {f : Event → List E} {A B : Type 0} where
  -- One run behind the other.
  pub seq :
      (P : A → List E → Type 0) (Q : A → B → List E → Type 0) (R : B → List E → Type 0) {m : M A}
      {k : A → M B}
      → Notes f P m
      → ((a : A) → Notes f (Q a) (k a))
      → ((a : A) (x : List E) (b : B) (y : List E) → P a x → Q a b y → R b (y ++ x))
      → Notes f R (m >>= k)
  seq P Q R {m} {k} p q h = record {
    run = λ w. Whenever-bind (Adds f P w) (Adds f R w) (m w) k (p.run w) λ a v (x, (e, px)).
        Whenever-mono (Adds f (Q a) v) (Adds f R w) (k a v) ((q a).run v) λ b u (y, (e', qy)).
          (y ++ x, (e' ∙ ap (λ z. y ++ z) e ∙ sym (append_assoc y x (noted f w)), h a x b y px qy));
  }

  pub silent :
      {R : B → List E → Type 0} {m : M A} {k : A → M B}
      → Notes f Nothing m
      → ((a : A) → Notes f R (k a))
      → Notes f R (m >>= k)
  silent {R} p q =
      seq Nothing (λ _. R) R p q
        λ a x b y e r. subst (R b) (sym (ap (λ z. y ++ z) e ∙ append-nil y)) r

  -- A run that adds, before one that does not.
  pub then_silent :
      (P : List E → Type 0) {m : M A} {k : A → M B}
      → Notes f (λ _. P) m
      → ((a : A) → Notes f Nothing (k a))
      → Notes f (λ _. P) (m >>= k)
  then_silent P p q =
      seq (λ _. P) (λ _. Nothing) (λ _. P) p q λ a x b y px e. subst P (sym (ap (λ z. z ++ x) e)) px

module _ {E : Type 0} {f : Event → List E} {A : Type 0} where
  pub weaken :
      {P Q : A → List E → Type 0} {m : M A}
      → Notes f P m
      → ((a : A) (l : List E) → P a l → Q a l)
      → Notes f Q m
  weaken {P} {Q} {m} p h = record {
    run = λ w.
        Whenever-mono (Adds f P w) (Adds f Q w) (m w) (p.run w)
          λ a v (l, (e, x)). (l, (e, h a l x));
  }

  pub done : (P : A → List E → Type 0) (a : A) → P a [] → Notes f P (pure a)
  done P a p = record { run = λ w. ([], (refl, p)) }

  pub asked : (g : Trace → A) (e : A → Event) → ((a : A) → f (e a) ≡ []) → Notes f Nothing (ask g e)
  unfolding noted
  asked g e h = record { run = λ w. ([], (ap (λ l. l ++ noted f w) (h (g w)), refl)) }

  pub answered : (g : Trace → A) (e : A → Event) → Notes f (λ a l. l ≡ f (e a)) (ask g e)
  unfolding noted
  answered g e = record { run = λ w. (f (e (g w)), (refl, refl)) }

  pub read : (x : Option A) → Notes f Nothing (deref x)
  read none = record { run = λ w. tt }
  read (some a) = done Nothing a refl

  pub test :
      {P : A → List E → Type 0} (b : Bool) {x y : M A}
      → (b ≡ true → Notes f P x)
      → (b ≡ false → Notes f P y)
      → Notes f P (if b then x else y)
  test true p q = p refl
  test false p q = q refl

pub emitted : {E : Type 0} {f : Event → List E} (e : Event) → Notes f (λ _ l. l ≡ f e) (emit e)
unfolding noted
emitted {E} {f} e = record { run = λ w. (f e, (refl, refl)) }

-- A call, before the rest.
pub then_more :
    {E : Type 0} {f : Event → List E} {B : Type 0} {R : B → List E → Type 0} (e : Event) {m : M B}
    → Notes f (λ b y. R b (y ++ f e)) m
    → Notes f R (emit e >> m)
then_more {R} e q =
    seq (λ _ l. l ≡ _) (λ _ b y. R b (y ++ _)) R (emitted e) (λ _. q)
      λ a x b y p r. subst (λ z. R b (y ++ z)) (sym p) r

-- What is read, before the rest.
pub then_read :
    {E : Type 0} {f : Event → List E} {A B : Type 0} {R : B → List E → Type 0} (x : Option A)
    {k : A → M B}
    → ((a : A) → x ≡ some a → Notes f R (k a))
    → Notes f R (deref x >>= k)
then_read none q = record { run = λ w. tt }
then_read (some a) q = q a refl

-- An answer that is always the same.
pub told :
    {E : Type 0} {f : Event → List E} {A : Type 0} (g : Trace → A) (e : A → Event) (a : A)
    → ((w : Trace) → g w ≡ a)
    → ((b : A) → f (e b) ≡ [])
    → Notes f (λ b l. (l ≡ []) × (b ≡ a)) (ask g e)
unfolding noted
told {f} g e a same h = record {
  run = λ w. ([], (ap (λ l. l ++ noted f w) (h (g w)), (refl, same w)));
}
