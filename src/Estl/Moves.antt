-- ===== src/Estl/Moves.antt =====
-- Objects moved within a buffer (src/estl.h): the loops, and `memmove` in place of them.
use mathlib.Core.List.{append_assoc}
use libptytty.Base.{
  ℕ, zero, suc, ◌+◌, ◌≤◌, ◌≡◌, refl, sym, ap, ◌∙◌, some, [], ◌∷◌, ◌++◌, arith, length, take, drop,
  le→leb, length-append, take-append, drop-append,
}
use libptytty.Estl.Slots.{Slots, memcpy, memmove}

module _ {ℓ} {A : Type ℓ} where
  drop-add-append : (pre s : Slots A) (n : ℕ) → drop (length pre + n) (pre ++ s) ≡ drop n s
  drop-add-append [] s n = ap (λ k. drop k s) (omega arith)
  drop-add-append (x ∷ pre) s n =
      let e : suc (length pre) + n ≡ suc (length pre + n) = omega arith in
      rw e (drop-add-append pre s n)

  take-add-append : (pre s : Slots A) (n : ℕ) → take (length pre + n) (pre ++ s) ≡ pre ++ take n s
  take-add-append [] s n = ap (λ k. take k s) (omega arith)
  take-add-append (x ∷ pre) s n =
      let e : suc (length pre) + n ≡ suc (length pre + n) = omega arith in
      rw e (ap (◌∷◌ x) (take-add-append pre s n))

  pub drop-append_of_le : (n : ℕ) (s t : Slots A) → n ≤ length s → drop n (s ++ t) ≡ drop n s ++ t
  drop-append_of_le zero s t h = refl
  drop-append_of_le (suc n) [] t h = absurd (omega arith)
  drop-append_of_le (suc n) (x ∷ s) t h = drop-append_of_le n s t (omega arith)

  pub take-append_of_le : (n : ℕ) (s t : Slots A) → n ≤ length s → take n (s ++ t) ≡ take n s
  take-append_of_le zero s t h = refl
  take-append_of_le (suc n) [] t h = absurd (omega arith)
  take-append_of_le (suc n) (x ∷ s) t h = ap (◌∷◌ x) (take-append_of_le n s t (omega arith))

  memcpy_of_le :
      (dst src : Slots A) (i j n : ℕ)
      → j + n ≤ length src
      → i + n ≤ length dst
      → memcpy dst i src j n ≡ some (take i dst ++ (take n (drop j src) ++ drop (i + n) dst))
  unfolding memcpy
  memcpy_of_le dst src i j n h k = rw (le→leb _ _ h, le→leb _ _ k) refl

  block : (sp ys sq : Slots A) → take (length ys) (drop (length sp) (sp ++ (ys ++ sq))) ≡ ys
  block sp ys sq = rw (drop-append sp (ys ++ sq)) (take-append ys sq)

  -- A block that is copied over a hole of its length.
  pub memcpy_lem :
      (ys : Slots A) (src : Slots A) (j : ℕ) (sp sq : Slots A) (i : ℕ) (buf pre hs post : Slots A)
      → src ≡ sp ++ (ys ++ sq)
      → j ≡ length sp
      → buf ≡ pre ++ (hs ++ post)
      → i ≡ length pre
      → length ys ≡ length hs
      → memcpy buf i src j (length ys) ≡ some (pre ++ (ys ++ post))
  memcpy_lem ys src j sp sq i buf pre hs post se sj e k l =
      let in_src : j + length ys ≤ length src =
        omega (arith, sj, ap length se, length-append sp (ys ++ sq), length-append ys sq) in
      let in_dst : i + length ys ≤ length buf =
        omega (arith, k, l, ap length e, length-append pre (hs ++ post), length-append hs post) in
      let before : take i buf ≡ pre = rw (e, k) (take-append pre (hs ++ post)) in
      let copied : take (length ys) (drop j src) ≡ ys = rw (se, sj) (block sp ys sq) in
      let after : drop (i + length ys) buf ≡ post =
        rw (e, k, l) (drop-add-append pre (hs ++ post) (length hs) ∙ drop-append hs post) in
      memcpy_of_le buf src i j (length ys) in_src in_dst ∙ ap some (rw (before, copied, after) refl)

  pub memmove_down :
      (hole ys : Slots A) (i j : ℕ) (buf pre post : Slots A)
      → buf ≡ pre ++ (hole ++ (ys ++ post))
      → i ≡ length pre
      → j ≡ length pre + length hole
      → memmove buf i j (length ys) ≡ some (pre ++ (ys ++ (drop (length ys) (hole ++ ys) ++ post)))
  unfolding memmove
  memmove_down hole ys i j buf pre post e k l =
      let n = length ys in
      let e' : buf ≡ (pre ++ hole) ++ (ys ++ post) = e ∙ sym (append_assoc pre hole (ys ++ post)) in
      let j' : j ≡ length (pre ++ hole) = omega (arith, l, length-append pre hole) in
      let size : length buf ≡ length pre + (length hole + (n + length post)) = omega (
        arith,
        ap length e,
        length-append pre (hole ++ (ys ++ post)),
        length-append hole (ys ++ post),
        length-append ys post,
      ) in
      let before : take i buf ≡ pre = rw (e, k) (take-append pre (hole ++ (ys ++ post))) in
      let copied : take n (drop j buf) ≡ ys = rw (e', j') (block (pre ++ hole) ys post) in
      let after : drop (i + n) buf ≡ drop n (hole ++ ys) ++ post =
        ap (λ b. drop (i + n) b) e
        ∙ ap (λ m. drop (m + n) (pre ++ (hole ++ (ys ++ post)))) k
        ∙ drop-add-append pre (hole ++ (ys ++ post)) n
        ∙ ap (drop n) (sym (append_assoc hole ys post))
        ∙ drop-append_of_le n (hole ++ ys) post (omega (arith, length-append hole ys)) in
      memcpy_of_le buf buf i j n (omega (arith, l, size)) (omega (arith, k, size))
      ∙ ap some (rw (before, copied, after) refl)

  pub memmove_up :
      (ys gap : Slots A) (i j : ℕ) (buf pre post : Slots A)
      → buf ≡ pre ++ (ys ++ (gap ++ post))
      → j ≡ length pre
      → i ≡ length pre + length gap
      → memmove buf i j (length ys) ≡ some (pre ++ (take (length gap) (ys ++ gap) ++ (ys ++ post)))
  unfolding memmove
  memmove_up ys gap i j buf pre post e k l =
      let n = length ys in
      let size : length buf ≡ length pre + (n + (length gap + length post)) = omega (
        arith,
        ap length e,
        length-append pre (ys ++ (gap ++ post)),
        length-append ys (gap ++ post),
        length-append gap post,
      ) in
      let e' : buf ≡ pre ++ ((ys ++ gap) ++ post) =
        e ∙ ap (λ s. pre ++ s) (sym (append_assoc ys gap post)) in
      let before : take i buf ≡ pre ++ take (length gap) (ys ++ gap) =
        ap (take i) e'
        ∙ ap (λ m. take m (pre ++ ((ys ++ gap) ++ post))) l
        ∙ take-add-append pre ((ys ++ gap) ++ post) (length gap)
        ∙ ap (λ s. pre ++ s)
            (take-append_of_le (length gap) (ys ++ gap) post
              (omega (arith, length-append ys gap))) in
      let copied : take n (drop j buf) ≡ ys = rw (e, k) (block pre ys (gap ++ post)) in
      let after : drop (i + n) buf ≡ post =
        ap (drop (i + n)) e'
        ∙ ap (λ m. drop m (pre ++ ((ys ++ gap) ++ post))) (omega (arith, l, length-append ys gap))
        ∙ drop-add-append pre ((ys ++ gap) ++ post) (length (ys ++ gap))
        ∙ drop-append (ys ++ gap) post in
      memcpy_of_le buf buf i j n (omega (arith, k, size)) (omega (arith, l, size))
      ∙ ap some (
          rw (before, copied, after)
            (append_assoc pre (take (length gap) (ys ++ gap)) (ys ++ post)))
