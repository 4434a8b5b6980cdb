-- ===== src/Unix/GetPty.antt =====
-- The four versions of `get_pty` in src/ptytty.C, and `get_tty`. A result is the descriptor that
-- is returned, with `*fd_tty` and `*ttydev` as the call leaves them.
use libptytty.Base.{
  ℕ, zero, suc, ◌+◌, ◌/◌, ◌%◌, ℤ, not, Bytes, Option, none, some, [], ◌∷◌, ◌++◌, codes, take,
  get_elem?, ltb, if◌then◌else◌, is_neg, is_zero, eqz, minus_one,
}
use libptytty.Sys.{
  Os, MasterCall, rdwr_noctty, opened_pair, opened_slave, M, pure, ◌>>=◌, ◌>>◌, deref, ask, close,
  open_file, open_master, grantpt, unlockpt, ptsname, ttyname, access,
}
use libptytty.Config.{Backend, unix98, openpty, getpty, bsd}

abbrev pub Got : Type 0
Got = ℤ × ℤ × Option Bytes

-- `snprintf (buf, 32, …)` keeps 31 bytes.
snprintf_32 : Bytes → Bytes
snprintf_32 s = take 31 s

digit : ℕ → ℕ
digit d = b'0' + d

-- `%d` for a number below 1000.
decimal : ℕ → Bytes
unfolding digit
decimal n =
    if ltb n 10
    then digit n ∷ []
    else if ltb n 100
    then digit (n / 10) ∷ digit (n % 10) ∷ []
    else digit (n / 100) ∷ digit (n / 10 % 10) ∷ digit (n % 10) ∷ []

char_of : Bytes → ℕ → ℕ
char_of s i = elim (get_elem? s i) [ none ↦ 0 | some c ↦ c ]

abbrev majors : Bytes
majors = codes "pqrstuvwxyzabcde"

abbrev minors : Bytes
minors = codes "0123456789abcdef"

-- "/dev/pty%c%c" and "/dev/tty%c%c"
unfoldable pub letter_name : Bytes → ℕ → Bytes
unfolding snprintf_32 char_of
letter_name dev i = snprintf_32 (dev ++ (char_of majors (i / 16) ∷ char_of minors (i % 16) ∷ []))

-- "/dev/ptyp%d" and "/dev/ttyp%d"
unfoldable pub number_name : Bytes → ℕ → Bytes
unfolding snprintf_32 decimal
number_name dev i = snprintf_32 (dev ++ decimal i)

module _ (os : Os) where
  unfoldable pub get_pty_unix98 : MasterCall → ℤ → Option Bytes → M Got
  get_pty_unix98 master tty dev = do
    pfd ← open_master os master
    if is_neg pfd then pure (minus_one, tty, dev) else do
      g ← grantpt os pfd
      u ← (if is_zero g then unlockpt os pfd else pure minus_one)
      if is_zero u
          then (do name ← ptsname os pfd; s ← deref name; pure (pfd, tty, some s))
          else (close pfd >> pure (minus_one, tty, dev))

  unfoldable pub get_pty_openpty : ℤ → Option Bytes → M Got
  get_pty_openpty tty dev = do
    res ← ask os.open_pair opened_pair
    elim res [
      | none ↦ pure (minus_one, tty, dev)
      | some (pfd, slave) ↦ do name ← ttyname os slave; s ← deref name; pure (pfd, slave, some s)
    ]

  unfoldable pub get_pty_getpty : ℤ → Option Bytes → M Got
  get_pty_getpty tty dev = do
    res ← ask os.open_slave opened_slave
    elim res [ none ↦ pure (minus_one, tty, dev) | some (pfd, slave) ↦ pure (pfd, tty, some slave) ]

  -- The end of a round of the BSD loop, with the rounds that follow.
  unfoldable pub check_tty : ℤ → Bytes → ℤ → M Got → M Got
  check_tty pfd tty_name tty next = do
    r ← access os tty_name
    if is_zero r then pure (pfd, tty, some tty_name) else (close pfd >> next)

  -- `n` rounds, from round `i`.
  unfoldable pub get_pty_bsd : ℕ → ℕ → ℤ → Option Bytes → M Got
  get_pty_bsd zero i tty dev = pure (minus_one, tty, dev)
  get_pty_bsd (suc n) i tty dev = do
    pfd ← open_file os (letter_name (codes "/dev/pty") i) rdwr_noctty
    if not (eqz pfd minus_one)
        then check_tty pfd (letter_name (codes "/dev/tty") i) tty (get_pty_bsd n (i + 1) tty dev)
        else do
          pfd ← open_file os (number_name (codes "/dev/ptyp") i) rdwr_noctty
          if eqz pfd minus_one
              then get_pty_bsd n (i + 1) tty dev
              else check_tty pfd (number_name (codes "/dev/ttyp") i) tty
                  (get_pty_bsd n (i + 1) tty dev)

  unfoldable pub get_pty : Backend → ℤ → Option Bytes → M Got
  get_pty (unix98 m) tty dev = get_pty_unix98 m tty dev
  get_pty openpty tty dev = get_pty_openpty tty dev
  get_pty getpty tty dev = get_pty_getpty tty dev
  get_pty bsd tty dev = get_pty_bsd 256 0 tty dev

  -- `get_tty`
  unfoldable pub get_tty : Bytes → M ℤ
  get_tty dev = open_file os dev rdwr_noctty
