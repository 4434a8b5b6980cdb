-- ===== src/Proxy/Lock/Laws.antt =====
-- The clients' turns (src/proxy.C): counts of clients, commands and answers.
use libptytty.Base.{
  ℕ, zero, suc, ◌+◌, ◌≤◌, ◌≡◌, refl, ap, Bool, true, false, Option, none, some, List, [], ◌∷◌, ◌++◌,
  arith, ◌==◌, if◌then◌else◌, get_elem?, set,
}
use libptytty.Proxy.Server.Counts.{count}
use libptytty.Proxy.Lock.{HelperAt, gives, handles, ClientAt, idle, holds, waits, ends, System}

abbrev pub mark : Bool → ℕ → ℕ
mark b n = if b then n else 0

abbrev pub in_turn : ClientAt → ℕ
in_turn idle = 0
in_turn holds = 1
in_turn waits = 1
in_turn ends = 1

-- How many clients are in a turn.
abbrev pub turns : List ClientAt → ℕ
turns [] = 0
turns (p ∷ ps) = in_turn p + turns ps

abbrev pub is_giving : HelperAt → ℕ
is_giving gives = 1
is_giving _ = 0

abbrev pub is_waiting : Option ClientAt → ℕ
is_waiting (some waits) = 1
is_waiting _ = 0

-- The requests of client `k` on their way, at the helper, and answered.
abbrev pub asked : ℕ → List (ℕ × Bool) → ℕ
asked k [] = 0
asked k ((j, true) ∷ q) = mark (j == k) 1 + asked k q
asked k ((j, false) ∷ q) = asked k q

abbrev pub handled : ℕ → HelperAt → ℕ
handled k (handles j true) = mark (j == k) 1
handled k _ = 0

-- The tokens on their way, and the turns.
abbrev pub tokens : System → ℕ
tokens s = s.to_clients + s.to_helper + turns s.clients + is_giving s.helper

-- One token at most; and while it is there, a client waits exactly where one request of it is
-- under way.
pub record IsValid (s : System) : Type 0 where
  pub single : tokens s ≤ 1
  pub matched :
      1 ≤ tokens s
      → (k : ℕ)
      → is_waiting (get_elem? s.clients k)
        ≡ asked k s.commands + handled k s.helper + count k s.answers

-- A step that blocks satisfies everything.
abbrev pub After : (System → Type 0) → Option System → Type 0
After P none = Unit {0}
After P (some s) = P s

pub asked-append : (k : ℕ) (q r : List (ℕ × Bool)) → asked k (q ++ r) ≡ asked k q + asked k r
asked-append k [] r = omega arith
asked-append k ((j, true) ∷ q) r = omega (arith, asked-append k q r)
asked-append k ((j, false) ∷ q) r = asked-append k q r

abbrev pub turn_of : Option ClientAt → ℕ
turn_of none = 0
turn_of (some p) = in_turn p

pub waits_in_turn : (p : ClientAt) → is_waiting (some p) ≤ in_turn p
waits_in_turn idle = omega arith
waits_in_turn holds = omega arith
waits_in_turn waits = omega arith
waits_in_turn ends = omega arith

pub in_turn_le : (p : ClientAt) → in_turn p ≤ 1
in_turn_le idle = omega arith
in_turn_le holds = omega arith
in_turn_le waits = omega arith
in_turn_le ends = omega arith

pub counted_self : (j : ℕ) (r : List ℕ) → count j (j ∷ r) ≡ suc (count j r)
counted_self j r = ground arith

pub turns-set :
    (ps : List ClientAt) (i : ℕ) (p x : ClientAt)
    → get_elem? ps i ≡ some p
    → turns (set ps i x) + in_turn p ≡ turns ps + in_turn x
turns-set [] i p x e = cc e
turns-set (q ∷ ps) zero p x e = omega (arith, ap turn_of e)
turns-set (q ∷ ps) (suc i) p x e = omega (arith, turns-set ps i p x e)

pub mark_none : (b : Bool) → mark b 0 ≡ 0
mark_none true = refl
mark_none false = refl

pub waiting-set :
    (ps : List ClientAt) (i : ℕ) (p x : ClientAt) (k : ℕ)
    → get_elem? ps i ≡ some p
    → is_waiting (get_elem? (set ps i x) k) + mark (i == k) (is_waiting (some p))
      ≡ is_waiting (get_elem? ps k) + mark (i == k) (is_waiting (some x))
waiting-set [] i p x k e = cc e
waiting-set (q ∷ ps) zero p x zero e = omega (arith, ap is_waiting e)
waiting-set (q ∷ ps) zero p x (suc k) e = ground arith
waiting-set (q ∷ ps) (suc i) p x zero e = ground arith
waiting-set (q ∷ ps) (suc i) p x (suc k) e =
    let same : (suc i == suc k) ≡ (i == k) = ground arith in rw same (waiting-set ps i p x k e)

pub waiting-turns : (ps : List ClientAt) (j : ℕ) → is_waiting (get_elem? ps j) ≤ turns ps
waiting-turns [] j = omega arith
waiting-turns (p ∷ ps) zero = omega (arith, waits_in_turn p)
waiting-turns (p ∷ ps) (suc j) = omega (arith, waiting-turns ps j)

-- Two different clients that wait are two turns.
pub waiting_apart :
    (ps : List ClientAt) (i j : ℕ)
    → (i == j) ≡ false
    → is_waiting (get_elem? ps i) + is_waiting (get_elem? ps j) ≤ turns ps
waiting_apart [] i j h = omega arith
waiting_apart (p ∷ ps) zero zero h = cc h
waiting_apart (p ∷ ps) zero (suc j) h = omega (arith, waits_in_turn p, waiting-turns ps j)
waiting_apart (p ∷ ps) (suc i) zero h = omega (arith, waits_in_turn p, waiting-turns ps i)
waiting_apart (p ∷ ps) (suc i) (suc j) h = omega (arith, waiting_apart ps i j (ground (arith, h)))
