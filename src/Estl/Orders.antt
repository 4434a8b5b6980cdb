-- ===== src/Estl/Orders.antt =====
-- Comparisons of vectors (src/estl.h), on what the vectors hold.
use libptytty.Base.{
  ℕ, suc, ◌+◌, ◌≡◌, ◌↔◌, refl, ap, ◌∙◌, Bool, true, false, ◌&&◌, some, List, [], ◌∷◌, ◌++◌, arith,
  length, ltb, ◌==◌, Bool-cases, inl, inr,
}
use libptytty.Estl.Slots.{Slots, read, full}
use libptytty.Estl.Vec.{Vec}
use libptytty.Estl.Holds.{Holds}
use libptytty.Estl.Blocks.{snoc, length-snoc, read-Splits}
use libptytty.Estl.Compare.{min_size, memcmp_eq, equal_vec, less_loop, less_vec, before}

min_size-suc : (a b : ℕ) → min_size (suc a) (suc b) ≡ suc (min_size a b)
unfolding min_size
min_size-suc a b = ground arith

min_size-zero : (b : ℕ) → min_size 0 b ≡ 0
unfolding min_size
min_size-zero b = ground arith

min_size_zero : (a : ℕ) → min_size a 0 ≡ 0
unfolding min_size
min_size_zero a = ground arith

module _ {A : Type 0} (lt : A → A → Bool) where
  -- From position `i` on, with the objects before it passed over.
  less_loop-before :
      (xs ys : List A) (v1 v2 : Vec A) (i : ℕ) (p1 p2 r1 r2 : Slots A)
      → v1.buf ≡ p1 ++ (full xs ++ r1)
      → v2.buf ≡ p2 ++ (full ys ++ r2)
      → i ≡ length p1
      → i ≡ length p2
      → v1.sze ≡ i + length xs
      → v2.sze ≡ i + length ys
      → less_loop lt (min_size (length xs) (length ys)) i v1 v2 ≡ some (before lt xs ys)
  unfolding less_loop
  less_loop-before [] [] v1 v2 i p1 p2 r1 r2 e1 e2 k1 k2 s1 s2 =
      let no : ltb v1.sze v2.sze ≡ false = ground (arith, s1, s2) in
      rw (min_size-zero 0) (ap some no)
  less_loop-before [] (y ∷ ys) v1 v2 i p1 p2 r1 r2 e1 e2 k1 k2 s1 s2 =
      let yes : ltb v1.sze v2.sze ≡ true = ground (arith, s1, s2) in
      rw (min_size-zero (suc (length ys))) (ap some yes)
  less_loop-before (x ∷ xs) [] v1 v2 i p1 p2 r1 r2 e1 e2 k1 k2 s1 s2 =
      let none_left : min_size (suc (length xs)) 0 ≡ 0 = min_size_zero (suc (length xs)) in
      let no : ltb v1.sze v2.sze ≡ false = ground (arith, s1, s2) in rw none_left (ap some no)
  less_loop-before (x ∷ xs) (y ∷ ys) v1 v2 i p1 p2 r1 r2 e1 e2 k1 k2 s1 s2 =
      let rest =
        less_loop-before xs ys v1 v2 (i + 1) (p1 ++ (some x ∷ [])) (p2 ++ (some y ∷ [])) r1 r2
          (e1 ∙ snoc p1 (full xs ++ r1) (some x)) (e2 ∙ snoc p2 (full ys ++ r2) (some y))
          (omega (arith, k1, length-snoc p1 (some x))) (omega (arith, k2, length-snoc p2 (some y)))
          (omega (arith, s1)) (omega (arith, s2)) in
      rw
        (
          min_size-suc (length xs) (length ys),
          read-Splits v1.buf i p1 (some x) (full xs ++ r1) (e1, k1),
          read-Splits v2.buf i p2 (some y) (full ys ++ r2) (e2, k2),
          rest,
        )
        (elim (Bool-cases (lt x y)) [
          | inl a ↦ rw a refl
          | inr a ↦ elim (Bool-cases (lt y x)) [ inl b ↦ rw (a, b) refl | inr b ↦ rw (a, b) refl ]
        ])

  -- `operator <` on vectors that hold `xs` and `ys` gives the order of dictionaries on `xs` and
  -- `ys`, and reads no slot without an object.
  pub less_vec-before :
      (s1 s2 : Bool) (v1 v2 : Vec A) (xs ys : List A)
      → Holds s1 v1 xs
      → Holds s2 v2 ys
      → less_vec lt v1 v2 ≡ some (before lt xs ys)
  unfolding less_vec
  less_vec-before s1 s2 v1 v2 xs ys h1 h2 =
      ap (λ n. less_loop lt (min_size n v2.sze) 0 v1 v2) h1.size
      ∙ ap (λ n. less_loop lt (min_size (length xs) n) 0 v1 v2) h2.size
      ∙ less_loop-before xs ys v1 v2 0 [] [] h1.rest h2.rest h1.objects h2.objects refl refl
          (omega (arith, h1.size)) (omega (arith, h2.size))

module _ {A : Type 0} (same : A → A → Bool) where
  abbrev pub all_same : List A → List A → Bool
  all_same [] [] = true
  all_same [] (y ∷ ys) = false
  all_same (x ∷ xs) [] = false
  all_same (x ∷ xs) (y ∷ ys) = same x y && all_same xs ys

  memcmp_eq-all_same :
      (xs ys : List A) (r1 r2 : Slots A)
      → length xs ≡ length ys
      → memcmp_eq same (full xs ++ r1) (full ys ++ r2) (length xs) ≡ some (all_same xs ys)
  unfolding memcmp_eq read
  memcmp_eq-all_same [] [] r1 r2 l = refl
  memcmp_eq-all_same [] (y ∷ ys) r1 r2 l = absurd (omega arith)
  memcmp_eq-all_same (x ∷ xs) [] r1 r2 l = absurd (omega arith)
  memcmp_eq-all_same (x ∷ xs) (y ∷ ys) r1 r2 l =
      rw (memcmp_eq-all_same xs ys r1 r2 (omega (arith, l))) refl

  lengths_differ : (xs ys : List A) → (length xs == length ys) ≡ false → all_same xs ys ≡ false
  lengths_differ [] [] h = absurd (cc h)
  lengths_differ [] (y ∷ ys) h = refl
  lengths_differ (x ∷ xs) [] h = refl
  lengths_differ (x ∷ xs) (y ∷ ys) h =
      let rest = lengths_differ xs ys (ground (arith, h)) in rw rest (ground arith)

  -- `same` tells objects apart.
  all_same-reflects :
      ((x y : A) → (same x y ≡ true) ↔ (x ≡ y))
      → (xs ys : List A) → (all_same xs ys ≡ true) ↔ (xs ≡ ys)
  all_same-reflects r [] [] = (λ _. refl, λ _. refl)
  all_same-reflects r [] (y ∷ ys) = (λ e. cc e, λ e. cc e)
  all_same-reflects r (x ∷ xs) [] = (λ e. cc e, λ e. cc e)
  all_same-reflects r (x ∷ xs) (y ∷ ys) =
      let (to, back) = r x y in
      let (to', back') = all_same-reflects r xs ys in
      (
        λ e.
            let first : same x y ≡ true = ground (arith, e) in
            let others : all_same xs ys ≡ true = ground (arith, e) in cc (to first, to' others),
        λ e.
            let first : x ≡ y = cc e in
            let others : xs ≡ ys = cc e in rw (back first, back' others) refl,
      )

  both_empty : (xs ys : List A) → length xs ≡ length ys → length xs ≡ 0 → all_same xs ys ≡ true
  both_empty [] [] l h = refl
  both_empty [] (y ∷ ys) l h = absurd (omega arith)
  both_empty (x ∷ xs) ys l h = absurd (omega arith)

  equal_vec-all_same :
      (s1 s2 : Bool) (v1 v2 : Vec A) (xs ys : List A)
      → Holds s1 v1 xs
      → Holds s2 v2 ys
      → equal_vec same v1 v2 ≡ some (all_same xs ys)
  unfolding equal_vec
  equal_vec-all_same s1 s2 v1 v2 xs ys h1 h2 = elim (Bool-cases (length xs == length ys)) [
    | inl e ↦
        let l : length xs ≡ length ys = ground (arith, e) in
        rw (h1.size, h2.size, e, h1.objects, h2.objects, memcmp_eq-all_same xs ys h1.rest h2.rest l)
          (elim (Bool-cases (length xs == 0)) [
            | inl z ↦ rw (z, both_empty xs ys l (ground (arith, z))) refl
            | inr s ↦ rw s refl
          ])
    | inr e ↦ rw (h1.size, h2.size, e, lengths_differ xs ys e) refl
  ]

  -- Where comparing bytes tells objects apart, `operator ==` gives true if and only if the two
  -- vectors hold the same elements.
  pub equal_vec-decides :
      (s1 s2 : Bool) (v1 v2 : Vec A) (xs ys : List A)
      → ((x y : A) → (same x y ≡ true) ↔ (x ≡ y))
      → Holds s1 v1 xs
      → Holds s2 v2 ys
      → (b : Bool) × ((equal_vec same v1 v2 ≡ some b) × ((b ≡ true) ↔ (xs ≡ ys)))
  equal_vec-decides s1 s2 v1 v2 xs ys r h1 h2 =
      (all_same xs ys, (equal_vec-all_same s1 s2 v1 v2 xs ys h1 h2, all_same-reflects r xs ys))
