-- ===== src/Proxy/Lock/Turns.antt =====
-- Every sequence of steps: one client at a time, and its own answers (src/proxy.C).
use libptytty.Base.{
  ℕ, zero, suc, ◌≤◌, ◌≡◌, refl, ap, Bool, true, false, Bool-cases, inl, inr, if◌then◌else◌, Option,
  none, some, List, [], ◌∷◌, arith, get_elem?, replicate,
}
use libptytty.Proxy.Lock.{ClientAt, idle, waits, System, Action, step, steps, start, if_enabled}
use libptytty.Proxy.Lock.Laws.{turns, is_waiting, IsValid, After, turn_of}
use libptytty.Proxy.Lock.Steps.{is_unserved, step-IsValid, addressee}

pub if_enabled-After :
    (P : System → Type 0) (o : Option System) (k : System → Option System)
    → After P o
    → ((s : System) → P s → After P (k s))
    → After P (if_enabled o k)
if_enabled-After P none k p h = tt
if_enabled-After P (some s) k p h = h s p

-- No `read` of NEED_TOKEN fails.
abbrev pub always_served : List Action → Bool
always_served [] = true
always_served (x ∷ xs) = if is_unserved x then false else always_served xs

steps-IsValid :
    (xs : List Action) (s : System)
    → always_served xs ≡ true
    → IsValid s
    → After IsValid (steps xs s)
unfolding steps
steps-IsValid [] s h v = v
steps-IsValid (x ∷ xs) s h v = elim (Bool-cases (is_unserved x)) [
  | inl bad ↦ absurd (ground (arith, h, bad))
  | inr good ↦
      if_enabled-After IsValid (step x s) (steps xs) (step-IsValid x s good v)
        λ s'. steps-IsValid xs s' (ground (arith, h, good))
]

pub turns-idle : (n : ℕ) → turns (replicate n idle) ≡ 0
turns-idle zero = refl
turns-idle (suc n) = omega (arith, turns-idle n)

waiting-idle : (n k : ℕ) → is_waiting (get_elem? (replicate n idle) k) ≡ 0
waiting-idle zero k = refl
waiting-idle (suc n) zero = refl
waiting-idle (suc n) (suc k) = waiting-idle n k

pub start-IsValid : (n : ℕ) → IsValid (start (replicate n idle))
unfolding start
start-IsValid n = record {
  single = omega (arith, turns-idle n);
  matched = λ _ k. omega (arith, waiting-idle n k);
}

-- Of the clients at most one is in a turn, and the answer that a client reads first is its own.
abbrev pub Serialised : System → Type 0
Serialised s =
    ((i j : ℕ) → 1 ≤ turn_of (get_elem? s.clients i) → 1 ≤ turn_of (get_elem? s.clients j) → i ≡ j)
    × ((i j : ℕ) (r : List ℕ) → get_elem? s.clients i ≡ some waits → s.answers ≡ j ∷ r → j ≡ i)

turn-turns : (ps : List ClientAt) (j : ℕ) → turn_of (get_elem? ps j) ≤ turns ps
turn-turns [] j = omega arith
turn-turns (p ∷ ps) zero = omega arith
turn-turns (p ∷ ps) (suc j) = omega (arith, turn-turns ps j)

turns_alone :
    (ps : List ClientAt) (i j : ℕ)
    → turns ps ≤ 1
    → 1 ≤ turn_of (get_elem? ps i)
    → 1 ≤ turn_of (get_elem? ps j)
    → i ≡ j
turns_alone [] i j h a b = absurd (omega (arith, a))
turns_alone (p ∷ ps) zero zero h a b = refl
turns_alone (p ∷ ps) zero (suc j) h a b = absurd (omega (arith, h, a, b, turn-turns ps j))
turns_alone (p ∷ ps) (suc i) zero h a b = absurd (omega (arith, h, a, b, turn-turns ps i))
turns_alone (p ∷ ps) (suc i) (suc j) h a b = ap suc (turns_alone ps i j (omega (arith, h)) a b)

IsValid-Serialised : (s : System) → IsValid s → Serialised s
IsValid-Serialised s v = (
  λ i j a b. turns_alone s.clients i j (omega (arith, v.single)) a b,
  λ i j r at e. ground (arith, addressee s v i j r at e),
)

pub After-map :
    (P Q : System → Type 0) (o : Option System) → After P o → ((s : System) → P s → Q s) → After Q o
After-map P Q none p h = tt
After-map P Q (some s) p h = h s p

-- After every sequence of steps of `serve` and of any number of clients in which no `read` of
-- NEED_TOKEN fails or is interrupted, calls that throw included, at most one client is between
-- NEED_TOKEN and GIVE_TOKEN, and the answer that a waiting client reads is the answer to its own
-- command.
pub steps-Serialised :
    (n : ℕ) (xs : List Action)
    → always_served xs ≡ true
    → After Serialised (steps xs (start (replicate n idle)))
steps-Serialised n xs h =
    After-map IsValid Serialised (steps xs (start (replicate n idle)))
      (steps-IsValid xs (start (replicate n idle)) h (start-IsValid n)) IsValid-Serialised
