-- ===== src/Estl/Copies.antt =====
-- The loops of `ins` and `erase` (src/estl.h) and the `memmove` that stands for them.
use libptytty.Base.{◌+◌, ◌≡◌, refl, sym, ◌∙◌, Bool, true, false, List, ◌++◌, length}
use libptytty.Estl.Slots.{Slots, full, memmove, shift_down, shift_up}
use libptytty.Estl.Shifts.{shift_down_lem, shift_up_lem}
use libptytty.Estl.Middle.{move_down_lem, move_up_lem}
use libptytty.Estl.Blocks.{AllFull}

module _ {A : Type 0} (simple : Bool) where
  -- The forward loop of `erase` leaves the same buffer as `memmove` of the block down over the
  -- hole, however the two overlap. Where objects are tracked the hole holds objects.
  pub shift_down-memmove :
      (ys : List A) (pre hole post : Slots A)
      → (simple ≡ false → AllFull hole)
      → shift_down simple
          (length ys)
          (length pre)
          (length pre + length hole)
          (pre ++ (hole ++ (full ys ++ post)))
        ≡ memmove
            (pre ++ (hole ++ (full ys ++ post)))
            (length pre)
            (length pre + length hole)
            (length ys)
  shift_down-memmove ys pre hole post h =
      let buf = pre ++ (hole ++ (full ys ++ post)) in
      shift_down_lem simple ys hole (length pre) (length pre + length hole) buf pre post refl refl
        refl h
      ∙ sym (
          move_down_lem true ys hole (length pre) (length pre + length hole) buf pre post refl refl
            refl (λ q. cc q))

  -- The loop of `ins`, from the last object to the first, leaves the same buffer as `memmove` of
  -- the block up by the size of the gap, however the two overlap. Where objects are tracked the
  -- gap holds objects.
  pub shift_up-memmove :
      (ys : List A) (pre gap post : Slots A)
      → (simple ≡ false → AllFull gap)
      → shift_up simple (length ys) (length pre) (length gap) (pre ++ (full ys ++ (gap ++ post)))
        ≡ memmove
            (pre ++ (full ys ++ (gap ++ post)))
            (length pre + length gap)
            (length pre)
            (length ys)
  shift_up-memmove ys pre gap post h =
      let buf = pre ++ (full ys ++ (gap ++ post)) in
      shift_up_lem simple (length ys) ys gap (length pre) (length gap) buf pre post refl refl refl
        refl h
      ∙ sym (
          move_up_lem true ys gap (length gap) (length pre) buf pre post refl refl refl (λ q. cc q))
