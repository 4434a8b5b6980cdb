-- ===== src/Estl/Middle.antt =====
-- The moves of `ins` and `erase`, and `erase` (src/estl.h): what happens in the vector's middle.
use mathlib.Core.List.{append_assoc}
use libptytty.Base.{
  ℕ, ◌+◌, ◌<◌, ◌≡◌, refl, sym, ap, ◌∙◌, Bool, true, false, some, List, [], ◌∷◌, ◌++◌, arith, length,
  take, drop, length-append, length-drop, if◌then◌else◌, ◌==◌,
}
use libptytty.Estl.Slots.{Slots, full, memmove, shift_up, shift_down}
use libptytty.Estl.Size.{size_mod, sub_size}
use libptytty.Estl.Blocks.{
  AllFull, AllRaw-append, AllFull-append, AllFull-drop, full-AllFull, length-full, full-append,
}
use libptytty.Estl.Moves.{memmove_down, memmove_up}
use libptytty.Estl.Shifts.{shift_down_lem, shift_up_lem}
use libptytty.Estl.Vec.{Vec, erase_range, erase_at}
use libptytty.Estl.Holds.{Holds, Ensures, destruct_lem}
use libptytty.Estl.Ends.{sub_size_of_le}

module _ {A : Type 0} where
  -- Both versions of the move in `erase`.
  pub move_down_lem :
      (simple : Bool) (ys : List A) (hole : Slots A) (i j : ℕ) (buf pre post : Slots A)
      → buf ≡ pre ++ (hole ++ (full ys ++ post))
      → i ≡ length pre
      → j ≡ length pre + length hole
      → (simple ≡ false → AllFull hole)
      → (if simple then memmove buf i j (length ys) else shift_down simple (length ys) i j buf)
        ≡ some (pre ++ (full ys ++ (drop (length ys) (hole ++ full ys) ++ post)))
  move_down_lem true ys hole i j buf pre post e k l h =
      ap (memmove buf i j) (sym (length-full ys))
      ∙ memmove_down hole (full ys) i j buf pre post e k l
      ∙ ap (λ m. some (pre ++ (full ys ++ (drop m (hole ++ full ys) ++ post)))) (length-full ys)
  move_down_lem false ys hole i j buf pre post e k l h =
      shift_down_lem false ys hole i j buf pre post e k l h

  -- Both versions of the move in `ins`.
  pub move_up_lem :
      (simple : Bool) (ys : List A) (gap : Slots A) (k j : ℕ) (buf pre post : Slots A)
      → buf ≡ pre ++ (full ys ++ (gap ++ post))
      → j ≡ length pre
      → k ≡ length gap
      → (simple ≡ false → AllFull gap)
      → (if simple then memmove buf (j + k) j (length ys) else shift_up simple (length ys) j k buf)
        ≡ some (pre ++ (take (length gap) (full ys ++ gap) ++ (full ys ++ post)))
  move_up_lem true ys gap k j buf pre post e jl kl h =
      ap (memmove buf (j + k) j) (sym (length-full ys))
      ∙ memmove_up (full ys) gap (j + k) j buf pre post e jl (omega (arith, jl, kl))
  move_up_lem false ys gap k j buf pre post e jl kl h =
      shift_up_lem false (length ys) ys gap j k buf pre post refl e jl kl h

  module _ (simple : Bool) (ld32 : ℕ → ℕ) (alloc : ℕ → Bool) (d : A) where
    -- In a vector that holds `xs ++ ys ++ zs`, of less than 2^32 elements, `erase` of the range
    -- of `ys` leaves it holding `xs ++ zs`, with no object behind them where objects are
    -- tracked, and neither throws nor is undefined.
    pub erase_range-Holds :
        (v : Vec A) (xs ys zs : List A)
        → length xs + length ys + length zs < size_mod
        → Holds simple v (xs ++ (ys ++ zs))
        → Ensures
            (λ v'. Holds simple v' (xs ++ zs))
            (λ v'. ⊥)
            (erase_range simple ld32 alloc d (length xs) (length xs + length ys) v)
    unfolding erase_range
    erase_range-Holds v xs ys zs small h =
        let m = length xs + length ys in
        let size : v.sze ≡ length xs + length ys + length zs =
          omega (arith, h.size, length-append xs (ys ++ zs), length-append ys zs) in
        let n : sub_size m (length xs) ≡ length ys =
          sub_size_of_le m (length xs) (omega arith) (omega (arith, small)) ∙ omega arith in
        let c : sub_size v.sze m ≡ length zs =
          sub_size_of_le v.sze m (omega (arith, size)) (omega (arith, small, size))
          ∙ omega (arith, size) in
        let left : sub_size v.sze (length ys) ≡ length xs + length zs =
          sub_size_of_le v.sze (length ys) (omega (arith, size)) (omega (arith, small, size))
          ∙ omega (arith, size) in
        let tail = drop (length zs) (full ys ++ full zs) in
        let split : v.buf ≡ full xs ++ (full ys ++ (full zs ++ h.rest)) =
          h.objects
          ∙ ap (λ z. z ++ h.rest)
              (full-append xs (ys ++ zs) ∙ ap (λ z. full xs ++ z) (full-append ys zs))
          ∙ append_assoc (full xs) (full ys ++ full zs) h.rest
          ∙ ap (λ z. full xs ++ z) (append_assoc (full ys) (full zs) h.rest) in
        let down =
          move_down_lem simple zs (full ys) (length xs) m v.buf (full xs) h.rest split
            (sym (length-full xs)) (omega (arith, length-full xs, length-full ys))
            (λ _. full-AllFull ys) in
        let tail_size : length tail ≡ length ys = omega (
          arith,
          length-drop (length zs) (full ys ++ full zs),
          length-append (full ys) (full zs),
          length-full ys,
          length-full zs,
        ) in
        let (hs, (l, was, e)) =
          destruct_lem simple (length ys) (length xs + length zs)
            (full xs ++ (full zs ++ (tail ++ h.rest))) (full xs ++ full zs) tail h.rest
            (
              sym (append_assoc (full xs) (full zs) (tail ++ h.rest)),
              omega (arith, length-append (full xs) (full zs), length-full xs, length-full zs),
            )
            (sym tail_size)
            (λ _.
              AllFull-drop (length zs) (full ys ++ full zs)
                (AllFull-append (full ys) (full zs) (full-AllFull ys) (full-AllFull zs))) in
        rw (n, c, left, down, e)
          (record {
            rest = hs ++ h.rest;
            objects = ap (λ z. z ++ (hs ++ h.rest)) (sym (full-append xs zs));
            size = sym (length-append xs zs);
            capacity = omega (
              arith,
              h.capacity,
              l,
              ap length split,
              length-append (full xs) (full ys ++ (full zs ++ h.rest)),
              length-append (full ys) (full zs ++ h.rest),
              length-append (full zs) h.rest,
              length-append (full xs ++ full zs) (hs ++ h.rest),
              length-append (full xs) (full zs),
              length-append hs h.rest,
              length-full ys,
            );
            unused = λ q. AllRaw-append hs h.rest (was q) (h.unused q);
          })

    -- `erase (pos)`, also at the end.
    pub erase_at-Holds :
        (v : Vec A) (xs zs : List A) (y : A)
        → length xs + 1 + length zs < size_mod
        → Holds simple v (xs ++ (y ∷ zs))
        → Ensures
            (λ v'. Holds simple v' (xs ++ zs))
            (λ v'. ⊥)
            (erase_at simple ld32 alloc d (length xs) v)
    unfolding erase_at
    erase_at-Holds v xs zs y small h =
        let inner : (length xs == v.sze) ≡ false =
          ground (arith, h.size, length-append xs (y ∷ zs)) in
        rw inner (erase_range-Holds v xs (y ∷ []) zs small h)
