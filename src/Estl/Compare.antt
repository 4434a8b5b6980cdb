-- ===== src/Estl/Compare.antt =====
-- `operator ==` and `operator <` of vectors, and `find` (src/estl.h).
use libptytty.Base.{
  ℕ, zero, suc, ◌+◌, Bool, true, false, not, ◌&&◌, Option, some, List, [], ◌∷◌, ltb, ◌==◌,
  if◌then◌else◌, drop,
}
use libptytty.Estl.Slots.{Slots, ◌>>=◌, read}
use libptytty.Estl.Vec.{Vec}

-- `min`
unfoldable pub min_size : ℕ → ℕ → ℕ
min_size a b = if ltb a b then a else b

module _ {A : Type 0} where
  -- `memcmp`, for a type with as many bytes in each object: `same` compares the bytes of two.
  unfoldable pub memcmp_eq : (same : A → A → Bool) → Slots A → Slots A → ℕ → Option Bool
  memcmp_eq same b1 b2 zero = some true
  memcmp_eq same b1 b2 (suc n) =
      let rest = memcmp_eq same (drop 1 b1) (drop 1 b2) n in
      read b1 0 >>= λ x. read b2 0 >>= λ y. rest >>= λ r. some (same x y && r)

  unfoldable pub equal_vec : (same : A → A → Bool) → Vec A → Vec A → Option Bool
  equal_vec same v1 v2 =
      if not (v1.sze == v2.sze)
      then some false
      else if v1.sze == 0
      then some true
      else memcmp_eq same v1.buf v2.buf v1.sze

  module _ (lt : A → A → Bool) where
    -- The loop of `operator <` at `i`, with `n` turns to go.
    unfoldable pub less_loop : (n i : ℕ) → Vec A → Vec A → Option Bool
    less_loop zero i v1 v2 = some (ltb v1.sze v2.sze)
    less_loop (suc n) i v1 v2 =
        let rest = less_loop n (i + 1) v1 v2 in
        read v1.buf i >>= λ x.
        read v2.buf i >>= λ y. if lt x y then some true else if lt y x then some false else rest

    unfoldable pub less_vec : Vec A → Vec A → Option Bool
    less_vec v1 v2 = less_loop (min_size v1.sze v2.sze) 0 v1 v2

    -- The order of dictionaries.
    abbrev pub before : List A → List A → Bool
    before [] [] = false
    before [] (y ∷ ys) = true
    before (x ∷ xs) [] = false
    before (x ∷ xs) (y ∷ ys) = if lt x y then true else if lt y x then false else before xs ys

  -- `find (first, last, value)`: the position it stops at, `n` positions from `i` to `last`.
  unfoldable pub find_position : (eq : A → A → Bool) → A → (n i : ℕ) → Slots A → Option ℕ
  find_position eq value zero i buf = some i
  find_position eq value (suc n) i buf =
      let rest = find_position eq value n (i + 1) buf in
      read buf i >>= λ x. if not (eq x value) then rest else some i
