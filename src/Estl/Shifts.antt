-- ===== src/Estl/Shifts.antt =====
-- The loops of `ins`, `erase` and `simplevec (n, t)` (src/estl.h), which move objects one by one.
use mathlib.Core.List.{append_assoc, append-nil}
use libptytty.Base.{
  ℕ, zero, suc, ◌+◌, ◌≡◌, refl, sym, ap, ◌∙◌, subst, Bool, true, false, Option, some, List, [], ◌∷◌,
  ◌++◌, arith, length, take, drop, replicate, length-append, take_all, is_some,
}
use libptytty.Estl.Slots.{Slots, full, fill_loop, shift_down, shift_up}
use libptytty.Estl.Blocks.{
  AllFull, AllRaw, snoc, length-snoc, read-Splits, new_at-Splits, assign_at-Splits, length-full,
  full-append, AllFull-append,
}
use libptytty.Estl.Moves.{take-append_of_le}

pub last_split {ℓ} :
    {B : Type ℓ} (ys : List B) (i : ℕ)
    → length ys ≡ suc i
    → (zs : List B) × ((y : B) × (ys ≡ zs ++ (y ∷ [])))
last_split [] i h = absurd (omega arith)
last_split (y ∷ []) i h = ([], (y, refl))
last_split (x ∷ (y ∷ ys)) zero h = absurd (omega arith)
last_split (x ∷ (y ∷ ys)) (suc i) h =
    let (zs, (z, e)) = last_split (y ∷ ys) i (omega arith) in (x ∷ zs, (z, ap (◌∷◌ x) e))

module _ {ℓ} {A : Type ℓ} where
  last-AllFull :
      (s : Slots A) (g : Option A) → AllFull (s ++ (g ∷ [])) → AllFull s × (is_some g ≡ true)
  last-AllFull [] g h = (tt, h.0)
  last-AllFull (x ∷ s) g h = let (r, e) = last-AllFull s g h.1 in ((h.0, r), e)

  last-AllRaw :
      (s : Slots A) (g : Option A) → AllRaw (s ++ (g ∷ [])) → AllRaw s × (is_some g ≡ false)
  last-AllRaw [] g h = (tt, h.0)
  last-AllRaw (x ∷ s) g h = let (r, e) = last-AllRaw s g h.1 in ((h.0, r), e)

  repeat_shift :
      (n : ℕ) (t : A) (post : Slots A)
      → full (replicate n t) ++ (some t ∷ post) ≡ full (replicate (suc n) t) ++ post
  repeat_shift zero t post = refl
  repeat_shift (suc n) t post = ap (◌∷◌ (some t)) (repeat_shift n t post)

  module _ (simple : Bool) where
    pub fill_loop_lem :
        (n : ℕ) (t : A) (buf hs post : Slots A)
        → buf ≡ hs ++ post
        → length hs ≡ n
        → (simple ≡ false → AllRaw hs)
        → fill_loop simple n t buf ≡ some (full (replicate n t) ++ post)
    unfolding fill_loop
    fill_loop_lem zero t buf [] post e l h = ap some e
    fill_loop_lem zero t buf (x ∷ hs) post e l h = absurd (omega arith)
    fill_loop_lem (suc n) t buf hs post e l h =
        let (hs', (x, s)) = last_split hs n l in
        let size : length hs' ≡ n = omega (arith, l, ap length s, length-snoc hs' x) in
        let e' : buf ≡ hs' ++ (x ∷ post) = e ∙ ap (λ z. z ++ post) s ∙ sym (snoc hs' post x) in
        let raw_too : simple ≡ false → AllRaw hs' × (is_some x ≡ false) =
          λ q. last-AllRaw hs' x (subst AllRaw s (h q)) in
        rw (new_at-Splits simple buf n hs' x post t (e', sym size) (λ q. (raw_too q).1)) (
          fill_loop_lem n t (hs' ++ (some t ∷ post)) hs' (some t ∷ post) refl size
            (λ q. (raw_too q).0)
          ∙ ap some (repeat_shift n t post))

    -- Downwards, the first object first, over a hole before them.
    pub shift_down_lem :
        (ys : List A) (hole : Slots A) (i j : ℕ) (buf pre post : Slots A)
        → buf ≡ pre ++ (hole ++ (full ys ++ post))
        → i ≡ length pre
        → j ≡ length pre + length hole
        → (simple ≡ false → AllFull hole)
        → shift_down simple (length ys) i j buf
          ≡ some (pre ++ (full ys ++ (drop (length ys) (hole ++ full ys) ++ post)))
    unfolding shift_down
    shift_down_lem [] hole i j buf pre post e k l h =
        ap some (e ∙ ap (λ z. pre ++ (z ++ post)) (sym (append-nil hole)))
    shift_down_lem (y ∷ ys) [] i j buf pre post e k l h =
        rw
          (
            read-Splits buf j pre (some y) (full ys ++ post) (e, omega (arith, l)),
            assign_at-Splits simple buf i pre (some y) (full ys ++ post) y (e, k) (λ _. refl),
          )
          (shift_down_lem ys [] (i + 1) (j + 1) _ (pre ++ (some y ∷ [])) post
              (snoc pre (full ys ++ post) (some y)) (omega (arith, k, length-snoc pre (some y)))
              (omega (arith, l, length-snoc pre (some y))) (λ _. tt)
            ∙ ap some (sym (snoc pre (full ys ++ (drop (length ys) (full ys) ++ post)) (some y))))
    shift_down_lem (y ∷ ys) (g ∷ hole) i j buf pre post e k l h =
        let rest = full ys ++ post in
        let at_j : buf ≡ (pre ++ (g ∷ hole)) ++ (some y ∷ rest) =
          e ∙ sym (append_assoc pre (g ∷ hole) (some y ∷ rest)) in
        let moved = pre ++ (some y ∷ (hole ++ (some y ∷ rest))) in
        rw
          (
            read-Splits buf j (pre ++ (g ∷ hole)) (some y) rest
                (at_j, omega (arith, l, length-append pre (g ∷ hole))),
            assign_at-Splits simple buf i pre g (hole ++ (some y ∷ rest)) y (e, k) (λ q. (h q).0),
          )
          (shift_down_lem ys (hole ++ (some y ∷ [])) (i + 1) (j + 1) moved (pre ++ (some y ∷ []))
              post
              (snoc pre (hole ++ (some y ∷ rest)) (some y)
                ∙ ap (λ z. (pre ++ (some y ∷ [])) ++ z) (snoc hole rest (some y)))
              (omega (arith, k, length-snoc pre (some y)))
              (omega (arith, l, length-snoc pre (some y), length-snoc hole (some y)))
              (λ q. AllFull-append hole (some y ∷ []) (h q).1 (refl, tt))
            ∙ ap some (
                sym (
                  snoc pre
                    (full ys ++ (drop (length ys) ((hole ++ (some y ∷ [])) ++ full ys) ++ post))
                    (some y))
                ∙ ap (λ z. pre ++ (some y ∷ (full ys ++ (drop (length ys) z ++ post))))
                    (sym (snoc hole (full ys) (some y)))))

    -- Upwards, the last object first, over a gap behind them.
    pub shift_up_lem :
        (i : ℕ) (ys : List A) (gap : Slots A) (src k : ℕ) (buf pre post : Slots A)
        → length ys ≡ i
        → buf ≡ pre ++ (full ys ++ (gap ++ post))
        → src ≡ length pre
        → k ≡ length gap
        → (simple ≡ false → AllFull gap)
        → shift_up simple i src k buf
          ≡ some (pre ++ (take (length gap) (full ys ++ gap) ++ (full ys ++ post)))
    unfolding shift_up
    shift_up_lem zero [] gap src k buf pre post n e s l h =
        ap some (e ∙ ap (λ z. pre ++ (z ++ post)) (sym (take_all (length gap) gap (omega arith))))
    shift_up_lem zero (y ∷ ys) gap src k buf pre post n e s l h = absurd (omega arith)
    shift_up_lem (suc i) ys gap src k buf pre post n e s l h =
        let (zs, (y, yz)) = last_split ys i n in
        let zn : length zs ≡ i = omega (arith, n, ap length yz, length-snoc zs y) in
        let fy : full ys ≡ full zs ++ (some y ∷ []) = ap full yz ∙ full-append zs (y ∷ []) in
        let (gap', (g, gs)) = last_split (some y ∷ gap) k (omega (arith, l)) in
        let gn : length gap' ≡ length gap = omega (arith, ap length gs, length-snoc gap' g) in
        let with_y : (t : Slots A) → full ys ++ t ≡ full zs ++ (some y ∷ t) =
          λ t. ap (λ z. z ++ t) fy ∙ sym (snoc (full zs) t (some y)) in
        let at_y : buf ≡ (pre ++ full zs) ++ (some y ∷ (gap ++ post)) =
          e ∙ ap (λ z. pre ++ z) (with_y (gap ++ post)) ∙ sym (append_assoc pre (full zs) _) in
        let at_g : buf ≡ (pre ++ (full zs ++ gap')) ++ (g ∷ post) =
          at_y
          ∙ ap (λ z. (pre ++ full zs) ++ (z ++ post)) gs
          ∙ ap (λ z. (pre ++ full zs) ++ z) (sym (snoc gap' post g))
          ∙ sym (append_assoc (pre ++ full zs) gap' (g ∷ post))
          ∙ ap (λ z. z ++ (g ∷ post)) (append_assoc pre (full zs) gap') in
        let was_full : simple ≡ false → AllFull gap' × (is_some g ≡ true) =
          λ q. last-AllFull gap' g (subst AllFull gs (refl, h q)) in
        let taken : take (length gap) (full ys ++ gap) ≡ take (length gap') (full zs ++ gap') =
          ap (λ m. take m (full ys ++ gap)) (sym gn)
          ∙ ap (take (length gap'))
              (with_y gap ∙ ap (λ z. full zs ++ z) gs ∙ sym (append_assoc (full zs) gap' (g ∷ [])))
          ∙ take-append_of_le (length gap') (full zs ++ gap') (g ∷ [])
              (omega (arith, length-append (full zs) gap')) in
        rw
          (
            read-Splits buf (src + i) (pre ++ full zs) (some y) (gap ++ post)
                (at_y, omega (arith, s, zn, length-append pre (full zs), length-full zs)),
            assign_at-Splits simple buf (src + k + i) (pre ++ (full zs ++ gap')) g post y
                (
                  at_g,
                  omega (
                    arith,
                    s,
                    zn,
                    gn,
                    l,
                    length-append pre (full zs ++ gap'),
                    length-append (full zs) gap',
                    length-full zs,
                  ),
                )
                (λ q. (was_full q).1),
          )
          (shift_up_lem i zs gap' src k ((pre ++ (full zs ++ gap')) ++ (some y ∷ post)) pre
              (some y ∷ post) zn
              (append_assoc pre (full zs ++ gap') (some y ∷ post)
                ∙ ap (λ z. pre ++ z) (append_assoc (full zs) gap' (some y ∷ post)))
              s (omega (arith, l, gn)) (λ q. (was_full q).0)
            ∙ ap some (
                ap (λ z. pre ++ (z ++ (full zs ++ (some y ∷ post)))) (sym taken)
                ∙ ap (λ z. pre ++ (take (length gap) (full ys ++ gap) ++ z)) (sym (with_y post))))
