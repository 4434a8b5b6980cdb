-- ===== src/Proxy/Server/Counts.antt =====
-- How often an address stands in a list: what the deletion of all objects in another order needs.
use libptytty.Base.{
  ℕ, ◌+◌, ◌≤◌, ◌≡◌, refl, ap, true, List, [], ◌∷◌, ◌++◌, arith, ◌==◌, if◌then◌else◌, is_some,
}
use mathlib.Core.List.{reverse, reverse-cons}
use libptytty.Proxy.Server.Objects.{Heap, lookup, free, keys}

abbrev pub count : ℕ → List ℕ → ℕ
count k [] = 0
count k (j ∷ ids) = (if j == k then 1 else 0) + count k ids

pub count-append : (k : ℕ) (xs ys : List ℕ) → count k (xs ++ ys) ≡ count k xs + count k ys
count-append k [] ys = omega arith
count-append k (x ∷ xs) ys = omega (arith, count-append k xs ys)

pub count-reverse : (k : ℕ) (xs : List ℕ) → count k (reverse xs) ≡ count k xs
count-reverse k [] = refl
count-reverse k (x ∷ xs) = omega (
  arith,
  ap (count k) (reverse-cons x xs),
  count-append k (reverse xs) (x ∷ []),
  count-reverse k xs,
)

pub lookup_of_count : (k : ℕ) (h : Heap) → 1 ≤ count k (keys h) → is_some (lookup k h) ≡ true
unfolding lookup
lookup_of_count k [] e = absurd (omega arith)
lookup_of_count k ((j, o) ∷ h) e = ground (arith, lookup_of_count k h)

pub count-free :
    (i k : ℕ) (h : Heap)
    → is_some (lookup k h) ≡ true
    → count i (keys (free k h)) + (if k == i then 1 else 0) ≡ count i (keys h)
unfolding lookup free
count-free i k [] e = cc
count-free i k ((j, o) ∷ h) e = ground (arith, count-free i k h)

pub empty_of_count : (h : Heap) → ((k : ℕ) → count k (keys h) ≡ 0) → h ≡ []
empty_of_count [] e = refl
empty_of_count ((k, o) ∷ h) e = absurd (ground (arith, e k))
