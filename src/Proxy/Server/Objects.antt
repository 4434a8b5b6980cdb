-- ===== src/Proxy/Server/Objects.antt =====
-- The objects of the helper by address, and the vector of their addresses (src/proxy.C, src/estl.h).
use libptytty.Base.{ℕ, zero, suc, Option, none, some, List, [], ◌∷◌, ◌++◌, ◌==◌, if◌then◌else◌}
use mathlib.Core.Option
use libptytty.Unix.{Unix}

abbrev pub Heap : Type 0
Heap = List (ℕ × Unix)

-- `none` for an address at which no object lives: reading there is undefined.
unfoldable pub lookup : ℕ → Heap → Option Unix
lookup k [] = none
lookup k ((j, o) ∷ h) = if j == k then some o else lookup k h

-- A new object.
unfoldable pub add : ℕ → Unix → Heap → Heap
add k o h = h ++ ((k, o) ∷ [])

-- The new contents of an object.
unfoldable pub store : ℕ → Unix → Heap → Heap
store k o [] = []
store k o ((j, p) ∷ h) = if j == k then (k, o) ∷ h else (j, p) ∷ store k o h

unfoldable pub free : ℕ → Heap → Heap
free k [] = []
free k ((j, o) ∷ h) = if j == k then h else (j, o) ∷ free k h

-- `find (ptys.begin (), ptys.end (), id)`: the position, `none` for the end.
unfoldable pub find : ℕ → List ℕ → Option ℕ
find k [] = none
find k (j ∷ ids) = if j == k then some 0 else Option.map suc (find k ids)

-- `ptys.erase (pos)`
unfoldable pub erase : ℕ → List ℕ → List ℕ
erase i [] = []
erase zero (j ∷ ids) = ids
erase (suc i) (j ∷ ids) = j ∷ erase i ids

abbrev pub keys : Heap → List ℕ
keys [] = []
keys ((k, o) ∷ h) = k ∷ keys h
