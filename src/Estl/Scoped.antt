-- ===== src/Estl/Scoped.antt =====
-- `scoped_ptr` and `scoped_array` (src/estl.h). A pointer is an address, `none` for null, and the
-- log has what was deleted, the last first; deleting null does nothing.
use libptytty.Base.{ℕ, ◌≡◌, refl, Option, none, some, List, [], ◌∷◌}

pub record Scoped : Type 0 where
  pub p : Option ℕ

unfoldable pub delete_pointer : Option ℕ → List ℕ → List ℕ
delete_pointer none log = log
delete_pointer (some a) log = a ∷ log

-- `scoped_ptr ()` and `scoped_ptr (a)`
unfoldable pub new_scoped : Option ℕ → Scoped
new_scoped a = record { p = a }

unfoldable pub reset : Option ℕ → Scoped × List ℕ → Scoped × List ℕ
reset a (s, log) = (record { p = a }, delete_pointer s.p log)

-- `~scoped_ptr`
unfoldable pub delete_scoped : Scoped × List ℕ → List ℕ
delete_scoped (s, log) = delete_pointer s.p log

unfoldable pub resets : List (Option ℕ) → Scoped × List ℕ → Scoped × List ℕ
resets [] s = s
resets (a ∷ more) s = resets more (reset a s)

-- The pointers that are not null, the last first, before `log`.
abbrev deleted_all : List (Option ℕ) → List ℕ → List ℕ
deleted_all [] log = log
deleted_all (a ∷ more) log = deleted_all more (delete_pointer a log)

-- Each pointer that it is given is deleted once, and in turn.
pub resets-deleted_all :
    (more : List (Option ℕ)) (a : Option ℕ) (log : List ℕ)
    → delete_scoped (resets more (new_scoped a, log)) ≡ deleted_all (a ∷ more) log
unfolding resets reset delete_scoped new_scoped
resets-deleted_all [] a log = refl
resets-deleted_all (b ∷ more) a log = resets-deleted_all more b (delete_pointer a log)
