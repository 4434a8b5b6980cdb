-- ===== src/Tests/Vectors.antt =====
-- The vector (src/estl.h) at concrete inputs: a logarithm, two vectors, and the theorems on them.
use libptytty.Base.{
  ℕ, zero, suc, ◌*◌, ◌/◌, ◌^◌, ◌≤◌, ◌<◌, ◌≡◌, ◌⊎◌, ◌↔◌, refl, Bool, true, false, some, List, [],
  ◌∷◌, arith, ltb, ltb→lt, ◌==◌, if◌then◌else◌, Bool-cases, inl, inr,
}
use native.Mathlib.Nat.{pow-succ'}
use libptytty.Estl.Size.{good_size}
use libptytty.Estl.Slots.{full, memmove, shift_down, shift_up}
use libptytty.Estl.Vec.{
  Vec, bad_alloc, outside, inside, undefined, resize, push_back, insert_range, insert_one,
  erase_range,
}
use libptytty.Estl.Holds.{Holds, Ensures, IsLog, good_size_bounds}
use libptytty.Estl.Ends.{push_back-Holds}
use libptytty.Estl.Inside.{push_back-inside}
use libptytty.Estl.Middle.{erase_range-Holds}
use libptytty.Estl.Gap.{Spoilt}
use libptytty.Estl.Inserts.{insert_range-Holds, insert_one-spoils}
use libptytty.Estl.Build.{resize-Holds, resized}
use libptytty.Estl.Copies.{shift_down-memmove, shift_up-memmove}
use libptytty.Estl.Compare.{less_vec, equal_vec, before}
use libptytty.Estl.Orders.{less_vec-before, equal_vec-decides}

-- The position of the highest bit, by halving.
abbrev pub highest_bit : ℕ → ℕ → ℕ
highest_bit zero n = 0
highest_bit (suc k) n = let more = highest_bit k (n / 2) in if ltb n 2 then 0 else suc more

pow_suc : (n : ℕ) → 2 ^ suc n ≡ 2 * 2 ^ n
pow_suc n = pow-succ' 2 n

highest_bit-bounds :
    (k n : ℕ) → 0 < n → n < 2 * 2 ^ k → (2 ^ highest_bit k n ≤ n) × (n < 2 * 2 ^ highest_bit k n)
highest_bit-bounds zero n h small = (omega (arith, h), omega (arith, small))
highest_bit-bounds (suc k) n h small = elim (Bool-cases (ltb n 2)) [
  | inl e ↦ rw e (omega (arith, h), omega (arith, ltb→lt n 2 e))
  | inr e ↦
      let big : 2 ≤ n = ground (arith, e) in
      let (low, high) =
        highest_bit-bounds k (n / 2) (omega (arith, big)) (omega (arith, small, pow_suc k)) in
      rw (e, pow_suc (highest_bit k (n / 2))) (omega (arith, low), omega (arith, high))
]

abbrev pub ld32 : ℕ → ℕ
ld32 = highest_bit 31

pub ld32-IsLog : IsLog ld32
ld32-IsLog n h small = highest_bit-bounds 31 n h (omega (arith, small))

abbrev pub memory : ℕ → Bool
memory n = true

-- Two elements, in a buffer of two slots.
abbrev two : Vec ℕ
two = record { sze = 2; res = 2; buf = full (7 ∷ 8 ∷ []) }

two-Holds : (simple : Bool) → Holds simple two (7 ∷ 8 ∷ [])
two-Holds simple = record {
  rest = [];
  objects = refl;
  size = refl;
  capacity = refl;
  unused = λ _. tt;
}

push_back-Holds_example :
    Ensures
      (λ v. Holds true v (7 ∷ 8 ∷ 9 ∷ []))
      (λ v. v ≡ two)
      (push_back true ld32 memory 0 (outside 9) two)
push_back-Holds_example =
    push_back-Holds true ld32 memory 0 two (7 ∷ 8 ∷ []) 9 ld32-IsLog (omega arith) (two-Holds true)

-- The buffer of `two` is full.
push_back-inside_example :
    ((2 < two.res)
      × Ensures
          (λ v'. Holds false v' (7 ∷ 8 ∷ 8 ∷ []))
          (λ v'. ⊥)
          (push_back false ld32 memory 0 (inside 1) two))
    ⊎ ((two.res ≤ 2)
        × (push_back false ld32 memory 0 (inside 1) two
            ≡ (if memory (good_size ld32 3) then undefined else bad_alloc two)))
push_back-inside_example =
    push_back-inside false ld32 memory 0 two (7 ∷ 8 ∷ []) 1 8 ld32-IsLog (omega arith)
      (two-Holds false) refl

insert_range-Holds_example :
    Ensures
      (λ v. Holds false v (7 ∷ 1 ∷ 2 ∷ 3 ∷ 8 ∷ []))
      (Spoilt two)
      (insert_range false ld32 memory 0 1 (1 ∷ 2 ∷ 3 ∷ []) two)
insert_range-Holds_example =
    insert_range-Holds false ld32 memory 0 two (7 ∷ []) (1 ∷ 2 ∷ 3 ∷ []) (8 ∷ []) ld32-IsLog
      (omega arith) (two-Holds false)

insert_one-spoils_example :
    Ensures
      (λ v. ⊥)
      (λ v. (ys : List ℕ) → ¬ Holds true v ys)
      (insert_one true ld32 (λ n. false) 0 1 9 two)
insert_one-spoils_example =
    insert_one-spoils true ld32 (λ n. false) 0 two (7 ∷ 8 ∷ []) 1 9 ld32-IsLog (omega arith)
      (two-Holds true) refl refl

erase_range-Holds_example :
    Ensures (λ v. Holds false v (8 ∷ [])) (λ v. ⊥) (erase_range false ld32 memory 0 0 1 two)
erase_range-Holds_example =
    erase_range-Holds false ld32 memory 0 two [] (7 ∷ []) (8 ∷ []) (omega arith) (two-Holds false)

resize-Holds_example :
    Ensures
      (λ v. Holds false v (resized ld32 memory 0 3 (7 ∷ 8 ∷ [])))
      (λ v. v ≡ two)
      (resize false ld32 memory 0 3 two)
resize-Holds_example =
    resize-Holds ld32 memory 0 3 two (7 ∷ 8 ∷ []) ld32-IsLog (omega arith) (omega arith)
      (two-Holds false)

good_size_bounds_example : (6 < good_size ld32 6) × (good_size ld32 6 ≤ 2 * 6)
good_size_bounds_example = good_size_bounds ld32 6 ld32-IsLog (omega arith) (omega arith)

shift_down-memmove_example :
    shift_down {A = ℕ} false 2 0 1 (full (6 ∷ 7 ∷ 8 ∷ [])) ≡ memmove (full (6 ∷ 7 ∷ 8 ∷ [])) 0 1 2
shift_down-memmove_example =
    shift_down-memmove false (7 ∷ 8 ∷ []) [] (some 6 ∷ []) [] (λ e. (refl, tt))

shift_up-memmove_example :
    shift_up {A = ℕ} false 2 0 1 (full (7 ∷ 8 ∷ 9 ∷ [])) ≡ memmove (full (7 ∷ 8 ∷ 9 ∷ [])) 1 0 2
shift_up-memmove_example = shift_up-memmove false (7 ∷ 8 ∷ []) [] (some 9 ∷ []) [] (λ e. (refl, tt))

less_vec-before_example : less_vec ltb two two ≡ some (before ltb (7 ∷ 8 ∷ []) (7 ∷ 8 ∷ []))
less_vec-before_example =
    less_vec-before ltb true true two two (7 ∷ 8 ∷ []) (7 ∷ 8 ∷ []) (two-Holds true)
      (two-Holds true)

same-decides : (x y : ℕ) → (x == y ≡ true) ↔ (x ≡ y)
same-decides x y = (λ e. ground (arith, e), λ e. ground (arith, e))

equal_vec-decides_example :
    (b : Bool) × ((equal_vec ◌==◌ two two ≡ some b)
      × ((b ≡ true) ↔ (◌≡◌ {A = List ℕ} (7 ∷ 8 ∷ []) (7 ∷ 8 ∷ []))))
equal_vec-decides_example =
    equal_vec-decides ◌==◌ true true two two (7 ∷ 8 ∷ []) (7 ∷ 8 ∷ []) same-decides (two-Holds true)
      (two-Holds true)
