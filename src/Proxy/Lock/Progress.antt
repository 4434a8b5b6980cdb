-- ===== src/Proxy/Lock/Progress.antt =====
-- The lock does not come to a standstill (src/proxy.C), where no call fails.
use libptytty.Base.{
  ℕ, zero, suc, ◌≡◌, refl, true, false, Option, none, some, List, [], ◌∷◌, arith, replicate,
  Bool-cases, inl, inr,
}
use libptytty.Proxy.Lock.{
  idle, System, Action, helper_moves, takes, writes, reads_answer, ends_turn, fails, fails_early,
  goes_on, helper_goes_on, step, steps, start,
}
use libptytty.Proxy.Lock.Laws.{IsValid, After}
use libptytty.Proxy.Lock.Turns.{if_enabled-After, turns-idle, start-IsValid, After-map}
use libptytty.Proxy.Lock.Steps.{is_unserved, step-IsValid}
use libptytty.Proxy.Lock.Live.{newcomers, IsLive, is_failure, never_fails, step-IsLive}
use libptytty.Proxy.Lock.Enabled.{CanMove, moves_from}

After-both :
    (P Q : System → Type 0) (o : Option System) → After P o → After Q o → After (λ s. P s × Q s) o
After-both P Q none p q = tt
After-both P Q (some s) p q = (p, q)

sound-served : (x : Action) → is_failure x ≡ false → is_unserved x ≡ false
sound-served (goes_on i) h = h
sound-served helper_goes_on h = h
sound-served helper_moves h = refl
sound-served (takes i) h = refl
sound-served (writes i b) h = refl
sound-served (reads_answer i) h = refl
sound-served (ends_turn i) h = refl
sound-served (fails i) h = refl
sound-served (fails_early i) h = refl

abbrev Sane : System → Type 0
Sane s = IsLive s × IsValid s

steps-Sane :
    (xs : List Action) (s : System) → never_fails xs ≡ true → Sane s → After Sane (steps xs s)
unfolding steps
steps-Sane [] s h v = v
steps-Sane (x ∷ xs) s h v = elim (Bool-cases (is_failure x)) [
  | inl bad ↦ absurd (ground (arith, h, bad))
  | inr good ↦
      if_enabled-After Sane (step x s) (steps xs)
        (After-both IsLive IsValid (step x s) (step-IsLive x s good v.0)
          (step-IsValid x s (sound-served x good) v.1))
        λ s'. steps-Sane xs s' (ground (arith, h, good))
]

newcomers-idle : (n : ℕ) → newcomers (replicate n idle) ≡ 0
newcomers-idle zero = refl
newcomers-idle (suc n) = omega (arith, newcomers-idle n)

start-IsLive : (n : ℕ) → IsLive (start (replicate (suc n) idle))
unfolding start
start-IsLive n = record {
  token = omega (arith, turns-idle n);
  spent = omega (arith, newcomers-idle n);
  present = omega arith;
}

-- After every sequence of steps of `serve` and of one or more clients in which no call throws
-- and no `read` of NEED_TOKEN fails or is interrupted, some call of `serve` or of a client can
-- return at once without a failure of this kind: the token does not bring them to a standstill.
pub steps-CanMove :
    (n : ℕ) (xs : List Action)
    → never_fails xs ≡ true
    → After CanMove (steps xs (start (replicate (suc n) idle)))
steps-CanMove n xs h =
    After-map Sane CanMove (steps xs (start (replicate (suc n) idle)))
      (steps-Sane xs (start (replicate (suc n) idle)) h (start-IsLive n, start-IsValid (suc n)))
      λ s v. moves_from s v.0 v.1 s.helper refl
