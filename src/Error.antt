-- ===== src/Error.antt =====
-- src/libptytty.h: `ptytty_error` and the memory of its message.
use libptytty.Base.{
  ℕ, ◌≡◌, refl, true, Bytes, Option, none, some, List, [], ◌∷◌, arith, ◌==◌, if◌then◌else◌,
  Bool-cases, inl, inr,
}
use mathlib.Core.Option.{map}

-- The blocks of `strdup`, by address.
abbrev pub Memory : Type 0
Memory = List (ℕ × Bytes)

-- `msg`, `none` for NULL.
pub record PtyttyError : Type 0 where
  pub msg : Option ℕ

-- `none` where there is no block: reading there is undefined.
unfoldable pub string_at : ℕ → Memory → Option Bytes
string_at p [] = none
string_at p ((q, s) ∷ mem) = if q == p then some s else string_at p mem

-- `free (p)`, undefined for an address that is not that of a block.
unfoldable pub free_block : ℕ → Memory → Option Memory
free_block p [] = none
free_block p ((q, s) ∷ mem) =
    let rest = free_block p mem in if q == p then some mem else map (λ m. (q, s) ∷ m) rest

-- `ptytty_error (what_arg)`, by what `strdup` gives.
unfoldable pub new_error : Bytes → Option ℕ → Memory → PtyttyError × Memory
new_error what_arg none mem = (record { msg = none }, mem)
new_error what_arg (some p) mem = (record { msg = some p }, (p, what_arg) ∷ mem)

-- `what ()`
unfoldable pub what : PtyttyError → Option ℕ
what e = e.msg

-- The copy that the compiler provides: the class declares none.
unfoldable pub copy_error : PtyttyError → PtyttyError
copy_error e = record { msg = e.msg }

-- `~ptytty_error ()`; `free (NULL)` does nothing.
unfoldable pub delete_error : PtyttyError → Memory → Option Memory
delete_error e mem = elim e.msg [ none ↦ some mem | some p ↦ free_block p mem ]

-- There is nothing to free where no block is.
free_block-absent : (p : ℕ) (mem : Memory) → string_at p mem ≡ none → free_block p mem ≡ none
unfolding string_at free_block
free_block-absent p [] h = refl
free_block-absent p ((q, s) ∷ mem) h = elim (Bool-cases (q == p)) [
  | inl hit ↦ let e : some s ≡ none = rw hit at h in cc
  | inr miss ↦
      let later : string_at p mem ≡ none = rw miss at h in
      rw (miss, free_block-absent p mem later) refl
]

-- Where `strdup` gives a new block, the error's message is the text and its destructor frees the
-- block, leaving the memory as it was; a copy of the error has the same pointer, and its
-- destructor behind the first one is undefined.
pub copy_error-dangles :
    (text : Bytes) (p : ℕ) (mem : Memory)
    → string_at p mem ≡ none
    → let (e, m) = new_error text (some p) mem in
      (what (copy_error e) ≡ some p)
      × (string_at p m ≡ some text)
      × (delete_error e m ≡ some mem)
      × (delete_error (copy_error e) mem ≡ none)
unfolding new_error what copy_error delete_error string_at free_block
copy_error-dangles text p mem fresh =
    let same : (p == p) ≡ true = ground arith in
    rw same (refl, refl, refl, free_block-absent p mem fresh)
