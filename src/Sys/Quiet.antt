-- ===== src/Sys/Quiet.antt =====
-- Programs that return, whatever the system answers, and leave the count of descriptors as it was.
use libptytty.Base.{
  ℕ, ◌≡◌, refl, Bool, true, false, Option, none, some, ◌∷◌, arith, if◌then◌else◌, is_some, ℤ,
  is_neg,
}
use libptytty.Sys.Types.{Event, Trace, DbFile, OpenMode, opened_db}
use libptytty.Sys.Monad.{Run, M, pure, and_then, ◌>>=◌, ◌>>◌, deref, emit, ask, open_db, close}
use libptytty.Sys.Answers.{Os}
use libptytty.Sys.Balance.{hits_neg, gained, lost, opens, closes, Quiet}
use libptytty.Sys.Returns.{Returns, mono, bind, branch}

module _ {A B : Type 0} (n : ℕ) (w : Trace) where
  pub Quiet-bind :
      (r : Run A) (k : A → M B)
      → Returns (Quiet n w) r
      → ((a : A) (v : Trace) → Returns (Quiet n v) (k a v))
      → Returns (Quiet n w) (and_then r k)
  Quiet-bind r k q h =
      bind (Quiet n w) (Returns (Quiet n w)) r k q
        λ a v e. mono (Quiet n v) (Quiet n w) (k a v) (h a v) λ b u e'. omega (arith, e, e')

pub record IsQuiet {A : Type 0} (n : ℕ) (m : M A) : Type 0 where
  pub run : (w : Trace) → Returns (Quiet n w) (m w)

module _ {A B : Type 0} {n : ℕ} where
  pub seq :
      {m : M A} {k : A → M B} → IsQuiet n m → ((a : A) → IsQuiet n (k a)) → IsQuiet n (m >>= k)
  seq {m} {k} p q = record { run = λ w. Quiet-bind n w (m w) k (p.run w) (λ a v. (q a).run v) }

module _ {A : Type 0} {n : ℕ} where
  pub IsQuiet-deref : (x : Option A) → is_some x ≡ true → IsQuiet n (deref x)
  IsQuiet-deref none h = cc
  IsQuiet-deref (some a) h = record { run = λ w. refl }

  pub IsQuiet-pure : (a : A) → IsQuiet n (pure a)
  IsQuiet-pure a = record { run = λ w. refl }

  pub IsQuiet-ask :
      (f : Trace → A) (e : A → Event)
      → ((a : A) → gained n (e a) ≡ lost n (e a))
      → IsQuiet n (ask f e)
  unfolding opens closes
  IsQuiet-ask f e h = record { run = λ w. omega (arith, h (f w)) }

  pub IsQuiet-if :
      (b : Bool) {x y : M A}
      → (b ≡ true → IsQuiet n x)
      → (b ≡ false → IsQuiet n y)
      → IsQuiet n (if b then x else y)
  IsQuiet-if true p q = p refl
  IsQuiet-if false p q = q refl

pub IsQuiet-emit : {n : ℕ} (e : Event) → gained n e ≡ lost n e → IsQuiet n (emit e)
unfolding opens closes
IsQuiet-emit e h = record { run = λ w. omega (arith, h) }

-- A file of a database that is open for the length of `body`.
pub IsQuiet-file :
    {n : ℕ} (os : Os) (path : DbFile) (m : OpenMode) {body : ℤ → M (Unit {0})}
    → ((fd : ℤ) → IsQuiet n (body fd))
    → IsQuiet n (open_db os path m >>= λ fd. if is_neg fd then pure tt else (body fd >> close fd))
unfolding opens closes gained lost
IsQuiet-file {n} os path m {body} h = record {
  run = λ w.
      let fd = os.open_db w path m in
      let v = opened_db path m fd ∷ w in
      branch (Returns (Quiet n w)) (is_neg fd) _ _ v (λ e. omega (arith, hits_neg n fd e))
        λ _.
          bind (Quiet n v) (Returns (Quiet n w)) (body fd v) _ ((h fd).run v)
            λ _ u p. omega (arith, p);
}
