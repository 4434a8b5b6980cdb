-- ===== src/Sys/Balance.antt =====
-- The descriptors that a trace has opened and closed.
use libptytty.Base.{
  List, Option, none, ℕ, ◌+◌, ◌≡◌, refl, ℤ, pos, negsuc, true, some, [], ◌∷◌, arith, ◌==◌,
  if◌then◌else◌, is_neg,
}
use libptytty.Sys.Types.{
  Event, Control, made_pair, received_msg, opened, opened_db, opened_master, opened_pair,
  opened_slave, duped, closed, Trace,
}

-- Is `fd` the descriptor `n`?
unfoldable pub hits : ℕ → ℤ → ℕ
hits n (pos m) = if m == n then 1 else 0
hits n (negsuc m) = 0

pub hits_neg : (n : ℕ) (fd : ℤ) → is_neg fd ≡ true → hits n fd ≡ 0
unfolding hits
hits_neg n (pos m) h = ground arith
hits_neg n (negsuc m) h = refl

unfoldable pub hits_all : ℕ → List ℤ → ℕ
hits_all n [] = 0
hits_all n (fd ∷ fds) = hits n fd + hits_all n fds

-- The descriptors that a message brings.
unfoldable pub delivered : ℕ → Option Control → ℕ
delivered n none = 0
delivered n (some m) = if m.rights then hits_all n m.fds else 0

-- How often `n` was handed out, and how often it was given back.
unfoldable pub gained : ℕ → Event → ℕ
gained n (opened p m fd) = hits n fd
gained n (opened_db p m fd) = hits n fd
gained n (opened_master c fd) = hits n fd
gained n (opened_pair (some (a, b))) = hits n a + hits n b
gained n (made_pair (some (a, b))) = hits n a + hits n b
gained n (opened_slave (some (a, s))) = hits n a
gained n (duped a fd) = hits n fd
gained n (received_msg s (some m)) = delivered n m.control
gained n _ = 0

unfoldable pub lost : ℕ → Event → ℕ
lost n (closed fd) = hits n fd
lost n _ = 0

unfoldable pub opens : ℕ → Trace → ℕ
opens n [] = 0
opens n (e ∷ w) = gained n e + opens n w

unfoldable pub closes : ℕ → Trace → ℕ
closes n [] = 0
closes n (e ∷ w) = lost n e + closes n w

-- Between two traces the descriptors in hand changed from `a` to `b`.
abbrev pub Shifts : ℕ → ℕ → Trace → ℕ → Trace → Type 0
Shifts n a w b v = opens n v + closes n w + a ≡ opens n w + closes n v + b

-- Nothing but bookkeeping: no descriptor is opened or closed for good.
abbrev pub Quiet {ℓ} : {A : Type ℓ} → ℕ → Trace → A → Trace → Type 0
Quiet n w a v = Shifts n 0 w 0 v
