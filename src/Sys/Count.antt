-- ===== src/Sys/Count.antt =====
-- How often a kind of call occurs in a trace, and programs that leave that count as it was.
use libptytty.Base.{ℕ, ◌+◌, ◌≡◌, refl, ◌∙◌, Bool, true, false, [], ◌∷◌, arith, if◌then◌else◌}
use libptytty.Sys.Types.{Event, Trace}
use libptytty.Sys.Monad.{M, pure, ◌>>=◌, emit, ask}
use libptytty.Sys.Returns.{Returns, mono, bind}

unfoldable pub count : (Event → ℕ) → Trace → ℕ
count f [] = 0
count f (e ∷ w) = f e + count f w

-- The program returns, and makes no call that `f` counts.
pub record IsSteady {A : Type 0} (f : Event → ℕ) (m : M A) : Type 0 where
  pub run : (w : Trace) → Returns (λ _ v. count f v ≡ count f w) (m w)

module _ {A B : Type 0} {f : Event → ℕ} where
  pub IsSteady-seq :
      {m : M A} {k : A → M B} → IsSteady f m → ((a : A) → IsSteady f (k a)) → IsSteady f (m >>= k)
  IsSteady-seq {m} {k} p q = record {
    run = λ w.
        bind (λ _ v. count f v ≡ count f w) (Returns (λ _ v. count f v ≡ count f w)) (m w) k
          (p.run w)
          λ a v e.
            mono (λ _ u. count f u ≡ count f v) (λ _ u. count f u ≡ count f w) (k a v) ((q a).run v)
              λ _ _ e'. e' ∙ e;
  }

module _ {A : Type 0} {f : Event → ℕ} where
  pub IsSteady-pure : (a : A) → IsSteady f (pure a)
  IsSteady-pure a = record { run = λ w. refl }

  pub IsSteady-ask :
      (g : Trace → A) (e : A → Event) → ((a : A) → f (e a) ≡ 0) → IsSteady f (ask g e)
  unfolding count
  IsSteady-ask g e h = record { run = λ w. omega (arith, h (g w)) }

  pub IsSteady-if :
      (b : Bool) {x y : M A} → IsSteady f x → IsSteady f y → IsSteady f (if b then x else y)
  IsSteady-if true p q = p
  IsSteady-if false p q = q

pub IsSteady-emit : {f : Event → ℕ} (e : Event) → f e ≡ 0 → IsSteady f (emit e)
unfolding count
IsSteady-emit e h = record { run = λ w. omega (arith, h) }
