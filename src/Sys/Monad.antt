-- ===== src/Sys/Monad.antt =====
-- Runs: a result, an exception or undefined behaviour (a null pointer that is read), each with the
-- calls made.
use libptytty.Base.{ℕ, ℤ, Bytes, Option, some, none, ◌∷◌}
use libptytty.Sys.Types.{
  OpenMode, MasterCall, DbFile, Event, opened, opened_db, opened_master, closed, granted, unlocked,
  asked_ptsname, asked_ttyname, accessed, asked_uid, Trace,
}
use libptytty.Sys.Answers.{Os}

pub data Run {ℓ} (A : Type ℓ) : Type ℓ where
  ok : A → Trace → Run A
  throws : Bytes → Trace → Run A
  crash : Trace → Run A

abbrev pub M {ℓ} : Type ℓ → Type ℓ
M A = Trace → Run A

abbrev pub pure {ℓ} : {A : Type ℓ} → A → M A
pure = ok

abbrev pub throw {ℓ} : {A : Type ℓ} → Bytes → M A
throw = throws

abbrev pub and_then {ℓ κ} : {A : Type ℓ} {B : Type κ} → Run A → (A → M B) → Run B
and_then (ok a w) k = k a w
and_then (throws e w) k = throws e w
and_then (crash w) k = crash w

infixl 5 ◌>>=◌ ◌>>◌
abbrev pub ◌>>=◌ {ℓ κ} : {A : Type ℓ} {B : Type κ} → M A → (A → M B) → M B
m >>= k = λ w. and_then (m w) k

abbrev pub ◌>>◌ {κ} : {B : Type κ} → M (Unit {0}) → M B → M B
m >> n = m >>= λ _. n

-- A pointer that is read.
abbrev pub deref {ℓ} : {A : Type ℓ} → Option A → M A
deref none w = crash w
deref (some a) w = ok a w

-- A call whose answer the program does not use.
abbrev pub emit : Event → M (Unit {0})
emit e w = ok tt (e ∷ w)

-- A call with an answer `a`, recorded by `e a`.
abbrev pub ask {ℓ} : {A : Type ℓ} → (Trace → A) → (A → Event) → M A
ask f e w = let a = f w in ok a (e a ∷ w)

abbrev pub close : ℤ → M (Unit {0})
close fd = emit (closed fd)

module _ (os : Os) where
  abbrev pub open_file : Bytes → OpenMode → M ℤ
  open_file p m = ask (λ w. os.open_file w p m) (opened p m)

  abbrev pub open_db : DbFile → OpenMode → M ℤ
  open_db p m = ask (λ w. os.open_db w p m) (opened_db p m)

  abbrev pub open_master : MasterCall → M ℤ
  open_master c = ask (λ w. os.open_master w c) (opened_master c)

  abbrev pub grantpt : ℤ → M ℤ
  grantpt fd = ask (λ w. os.grantpt w fd) (granted fd)

  abbrev pub unlockpt : ℤ → M ℤ
  unlockpt fd = ask (λ w. os.unlockpt w fd) (unlocked fd)

  abbrev pub ptsname : ℤ → M (Option Bytes)
  ptsname fd = ask (λ w. os.ptsname w fd) (asked_ptsname fd)

  abbrev pub ttyname : ℤ → M (Option Bytes)
  ttyname fd = ask (λ w. os.ttyname w fd) (asked_ttyname fd)

  abbrev pub access : Bytes → M ℤ
  access p = ask (λ w. os.access w p) (accessed p)

  abbrev pub getuid : M ℕ
  getuid = ask os.getuid asked_uid
