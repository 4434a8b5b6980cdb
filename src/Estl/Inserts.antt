-- ===== src/Estl/Inserts.antt =====
-- The three forms of `insert` (src/estl.h).
use mathlib.Core.List.{append-nil}
use libptytty.Base.{
  ℕ, ◌+◌, ◌^◌, ◌<◌, ◌≡◌, refl, sym, ap, ◌∙◌, subst, Bool, true, false, Option, List, [], ◌∷◌, ◌++◌,
  arith, length, replicate, length-replicate, ltb,
}
use libptytty.Estl.Slots.{Slots, full}
use libptytty.Estl.Size.{add_size, good_size}
use libptytty.Estl.Blocks.{AllFull, length-full, assign_at-Splits}
use libptytty.Estl.Loops.{set_loop_lem, copy_set_loop_lem}
use libptytty.Estl.Vec.{Vec, grow, ins, insert_one, insert_range, insert_fill}
use libptytty.Estl.Holds.{Holds, Ensures, Ensures-then, IsLog, good_size_bounds}
use libptytty.Estl.Ends.{add_size_of_lt}
use libptytty.Estl.Gap.{Opens, Spoilt, filled-Holds, ins-Opens}

module _ {A : Type 0} (simple : Bool) (ld32 : ℕ → ℕ) (alloc : ℕ → Bool) (d : A) where
  -- In a vector that holds `xs ++ ys`, below 2^31 elements with the new ones, `insert` of a
  -- range `zs` behind `xs` leaves it holding `xs ++ zs ++ ys`, for objects that are bytes and
  -- for those that are tracked. An exception leaves the objects and the size as they were, and
  -- the capacity too large.
  pub insert_range-Holds :
      (v : Vec A) (xs zs ys : List A)
      → IsLog ld32
      → length xs + length zs + length ys < 2 ^ 31
      → Holds simple v (xs ++ ys)
      → Ensures
          (λ v'. Holds simple v' (xs ++ (zs ++ ys)))
          (Spoilt v)
          (insert_range simple ld32 alloc d (length xs) zs v)
  unfolding insert_range
  insert_range-Holds v xs zs ys log small h =
      Ensures-then (λ v'. Opens simple v' xs (length zs) ys) (Spoilt v)
        (λ v'. Holds simple v' (xs ++ (zs ++ ys)))
        (ins simple ld32 alloc d (length xs) (length zs) v) _
        (ins-Opens simple ld32 alloc d (length zs) v xs ys log small h)
        λ v' o.
          rw
            (copy_set_loop_lem simple zs (full zs) 0 [] [] (length xs) v'.buf (full xs) o.gap
              (full ys ++ o.after) (sym (append-nil (full zs)), refl)
              (o.parts, sym (length-full xs)) (sym o.gap_size) o.gap_full)
            (filled-Holds simple v' xs zs ys (length zs) o refl)

  pub insert_fill-Holds :
      (v : Vec A) (xs : List A) (n : ℕ) (t : A) (ys : List A)
      → IsLog ld32
      → length xs + n + length ys < 2 ^ 31
      → Holds simple v (xs ++ ys)
      → Ensures
          (λ v'. Holds simple v' (xs ++ (replicate n t ++ ys)))
          (Spoilt v)
          (insert_fill simple ld32 alloc d (length xs) n t v)
  unfolding insert_fill
  insert_fill-Holds v xs n t ys log small h =
      Ensures-then (λ v'. Opens simple v' xs n ys) (Spoilt v)
        (λ v'. Holds simple v' (xs ++ (replicate n t ++ ys)))
        (ins simple ld32 alloc d (length xs) n v) _
        (ins-Opens simple ld32 alloc d n v xs ys log small h)
        λ v' o.
          rw
            (set_loop_lem simple t n (length xs) v'.buf (full xs) o.gap (full ys ++ o.after)
              (o.parts, sym (length-full xs)) (sym o.gap_size) o.gap_full)
            (filled-Holds simple v' xs (replicate n t) ys n o (length-replicate n t))

  one_slot : (gap : Slots A) → length gap ≡ 1 → (g : Option A) × (gap ≡ g ∷ [])
  one_slot [] h = absurd (omega arith)
  one_slot (g ∷ []) h = (g, refl)
  one_slot (g ∷ (g' ∷ gap)) h = absurd (omega arith)

  pub insert_one-Holds :
      (v : Vec A) (xs : List A) (t : A) (ys : List A)
      → IsLog ld32
      → length xs + 1 + length ys < 2 ^ 31
      → Holds simple v (xs ++ ys)
      → Ensures
          (λ v'. Holds simple v' (xs ++ (t ∷ ys)))
          (Spoilt v)
          (insert_one simple ld32 alloc d (length xs) t v)
  unfolding insert_one
  insert_one-Holds v xs t ys log small h =
      Ensures-then (λ v'. Opens simple v' xs 1 ys) (Spoilt v)
        (λ v'. Holds simple v' (xs ++ (t ∷ ys))) (ins simple ld32 alloc d (length xs) 1 v) _
        (ins-Opens simple ld32 alloc d 1 v xs ys log small h)
        λ v' o.
          let (g, e) = one_slot o.gap o.gap_size in
          rw
            (assign_at-Splits simple v'.buf (length xs) (full xs) g (full ys ++ o.after) t
              (o.parts ∙ ap (λ z. full xs ++ (z ++ (full ys ++ o.after))) e, sym (length-full xs))
              (λ q. (subst AllFull e (o.gap_full q)).0))
            (filled-Holds simple v' xs (t ∷ []) ys 1 o refl)

  -- Where the buffer is full and memory runs out, `insert` throws, and what it leaves is no
  -- valid vector: the capacity is that of the buffer that was not allocated.
  pub insert_one-spoils :
      (v : Vec A) (xs : List A) (at : ℕ) (t : A)
      → IsLog ld32
      → length xs + 1 < 2 ^ 31
      → Holds simple v xs
      → v.res ≡ length xs
      → alloc (good_size ld32 (length xs + 1)) ≡ false
      → Ensures
          (λ v'. ⊥)
          (λ v'. (ys : List A) → ¬ Holds simple v' ys)
          (insert_one simple ld32 alloc d at t v)
  unfolding insert_one ins grow
  insert_one-spoils v xs at t log small h fits failed =
      let total : add_size v.sze 1 ≡ length xs + 1 =
        add_size_of_lt v.sze 1 (omega (arith, small, h.size)) ∙ omega (arith, h.size) in
      let more : ltb v.res (length xs + 1) ≡ true = ground (arith, fits) in
      let (big, _) = good_size_bounds ld32 (length xs + 1) log (omega arith) small in
      rw (total, more, failed) λ ys k. omega (arith, k.capacity, h.capacity, fits, big)
