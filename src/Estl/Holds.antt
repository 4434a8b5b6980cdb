-- ===== src/Estl/Holds.antt =====
-- What a `simplevec` (src/estl.h) holds, and `reserve`.
use libptytty.Base.{
  ℕ, zero, suc, ◌-◌, ◌*◌, ◌^◌, ◌≤◌, ◌<◌, ◌≡◌, refl, sym, ap, ◌∙◌, Bool, true, false, Option, none,
  some, List, [], ◌∷◌, ◌++◌, arith, length, replicate, length-append, length-replicate, leb, leb→le,
  ◌==◌, Bool-cases, inl, inr,
}
use libptytty.Estl.Slots.{Slots, raw, full, construct, destruct, copy_new, memcpy}
use libptytty.Estl.Size.{size_mod, good_size}
use libptytty.Estl.Blocks.{AllFull, AllRaw, full-AllFull, raw-AllRaw, length-full}
use libptytty.Estl.Loops.{Fills, construct_loop_lem, destruct_loop_lem, copy_new_loop_lem}
use libptytty.Estl.Moves.{memcpy_lem}
use libptytty.Estl.Vec.{Vec, Out, done, bad_alloc, undefined, then_do, dealloc, move_to, reserve}

-- The vector holds `xs`: the objects stand in front, and for a type whose objects are tracked there
-- is no object behind them.
pub record Holds {A : Type 0} (simple : Bool) (v : Vec A) (xs : List A) : Type 0 where
  pub rest : Slots A
  pub objects : v.buf ≡ full xs ++ rest
  pub size : v.sze ≡ length xs
  pub capacity : v.res ≡ length v.buf
  pub unused : simple ≡ false → AllRaw rest

-- An operation ends in `P`, or throws in `Q`; it is not undefined.
abbrev pub Ensures : {A : Type 0} → (A → Type 0) → (A → Type 0) → Out A → Type 0
Ensures P Q (done v) = P v
Ensures P Q (bad_alloc v) = Q v
Ensures P Q undefined = ⊥

pub Ensures-then :
    {A : Type 0} (P Q R : A → Type 0) (o : Out A) (k : A → Out A)
    → Ensures P Q o
    → ((v : A) → P v → Ensures R Q (k v))
    → Ensures R Q (then_do o k)
Ensures-then P Q R (done v) k p h = h v p
Ensures-then P Q R (bad_alloc v) k p h = p
Ensures-then P Q R undefined k p h = absurd p

-- What is documented of `ecb_ld32`: the position of the highest bit that is set.
abbrev pub IsLog : (ℕ → ℕ) → Type 0
IsLog ld32 = (n : ℕ) → 0 < n → n < size_mod → (2 ^ ld32 n ≤ n) × (n < 2 * 2 ^ ld32 n)

-- For 0 < n < 2^31, where `ecb_ld32` gives the highest bit, `good_size` does not wrap around: it
-- gives more than `n`, and at most twice `n`.
pub good_size_bounds :
    (ld32 : ℕ → ℕ) (n : ℕ)
    → IsLog ld32
    → 0 < n
    → n < 2 ^ 31
    → (n < good_size ld32 n) × (good_size ld32 n ≤ 2 * n)
unfolding good_size
good_size_bounds ld32 n log h k =
    let (low, high) = log n h (omega arith) in
    let n_some : (n == 0) ≡ false = ground (arith, h) in rw n_some (omega (arith, low, high, k))

-- At half of the range it wraps around.
pub good_size-wraps : (ld32 : ℕ → ℕ) (n : ℕ) → ld32 n ≡ 31 → 0 < n → good_size ld32 n ≡ 0
unfolding good_size
good_size-wraps ld32 n e h =
    let n_some : (n == 0) ≡ false = ground (arith, h) in rw (n_some, e) refl

module _ {A : Type 0} where
  pub copy_new_lem :
      (simple : Bool) (ys : List A) (src : Slots A) (j : ℕ) (sp sq : Slots A) (i : ℕ)
      (buf pre hs post : Slots A)
      → Fills simple src j sp (full ys) sq
      → Fills simple buf i pre hs post
      → length ys ≡ length hs
      → (simple ≡ false → AllRaw hs)
      → copy_new simple (length ys) src j i buf ≡ some (pre ++ (full ys ++ post))
  unfolding copy_new
  copy_new_lem true ys src j sp sq i buf pre hs post s f l h =
      ap (memcpy buf i src j) (sym (length-full ys))
      ∙ memcpy_lem (full ys) src j sp sq i buf pre hs post s.0 s.1 f.0 f.1 (length-full ys ∙ l)
  copy_new_lem false ys src j sp sq i buf pre hs post s f l h =
      copy_new_loop_lem false ys src j sp sq i buf pre hs post s f l h

  -- A hole becomes one of the same length, of objects where they are tracked.
  abbrev pub Becomes : (Slots A → Type 0) → Bool → Slots A → ℕ → Slots A → Option (Slots A) → Type 0
  Becomes P simple pre n post r =
      (hs : Slots A) × ((length hs ≡ n)
        × (simple ≡ false → P hs)
        × (r ≡ some (pre ++ (hs ++ post))))

  pub construct_lem :
      (simple : Bool) (d : A) (n i : ℕ) (buf pre hs post : Slots A)
      → Fills simple buf i pre hs post
      → n ≡ length hs
      → (simple ≡ false → AllRaw hs)
      → Becomes AllFull simple pre n post (construct simple d n i buf)
  unfolding construct
  construct_lem true d n i buf pre hs post f l h = (hs, (sym l, (λ q. cc q), ap some f.0))
  construct_lem false d n i buf pre hs post f l h = (
    full (replicate n d),
    (
      length-full (replicate n d) ∙ length-replicate n d,
      (λ _. full-AllFull (replicate n d)),
      construct_loop_lem false d n i buf pre hs post f l h,
    ),
  )

  pub destruct_lem :
      (simple : Bool) (n i : ℕ) (buf pre hs post : Slots A)
      → Fills simple buf i pre hs post
      → n ≡ length hs
      → (simple ≡ false → AllFull hs)
      → Becomes AllRaw simple pre n post (destruct simple n i buf)
  unfolding destruct
  destruct_lem true n i buf pre hs post f l h = (hs, (sym l, (λ q. cc q), ap some f.0))
  destruct_lem false n i buf pre hs post f l h = (
    raw n,
    (
      length-replicate n none,
      (λ _. raw-AllRaw A n),
      destruct_loop_lem n i buf pre hs post f l (h refl),
    ),
  )

  raw_split : (m n : ℕ) → m ≤ n → raw {A = A} n ≡ raw m ++ raw (n - m)
  raw_split zero n h = ap raw (omega arith)
  raw_split (suc m) zero h = absurd (omega arith)
  raw_split (suc m) (suc n) h =
      let e : suc n - suc m ≡ n - m = omega arith in
      rw e (ap (◌∷◌ none) (raw_split m n (omega arith)))

  unfoldable pub moved : ℕ → Vec A → List A → Vec A
  moved n v xs = record v { res = n; buf = full xs ++ raw (n - length xs) }

  module _ (simple : Bool) (ld32 : ℕ → ℕ) (alloc : ℕ → Bool) (d : A) where
    pub dealloc_lem :
        (v : Vec A) (xs : List A) → Holds simple v xs → dealloc simple ld32 alloc d v ≡ some []
    unfolding dealloc
    dealloc_lem v xs h =
        let (hs, (_, _, e)) =
          destruct_lem simple v.sze 0 v.buf [] (full xs) h.rest (h.objects, refl)
            (h.size ∙ sym (length-full xs)) (λ _. full-AllFull xs) in
        rw e refl

    pub move_to_lem :
        (n : ℕ) (v : Vec A) (xs : List A)
        → Holds simple v xs
        → length xs ≤ n
        → move_to simple ld32 alloc d n v ≡ some (moved n v xs)
    unfolding move_to moved
    move_to_lem n v xs h fits =
        let copied : copy_new simple v.sze v.buf 0 0 (raw n)
            ≡ some (full xs ++ raw (n - length xs)) =
          ap (λ k. copy_new simple k v.buf 0 0 (raw n)) h.size
          ∙ copy_new_lem simple xs v.buf 0 [] h.rest 0 (raw n) [] (raw (length xs))
              (raw (n - length xs)) (h.objects, refl) (raw_split (length xs) n fits, refl)
              (sym (length-replicate (length xs) none)) (λ _. raw-AllRaw A (length xs)) in
        rw (copied, dealloc_lem v xs h) refl

    pub moved-Holds :
        (n : ℕ) (v : Vec A) (xs : List A)
        → Holds simple v xs
        → length xs ≤ n
        → Holds simple (moved n v xs) xs
    unfolding moved
    moved-Holds n v xs h fits = record {
      rest = raw (n - length xs);
      objects = refl;
      size = h.size;
      capacity = omega (
        arith,
        fits,
        length-append (full xs) (raw (n - length xs)),
        length-full xs,
        length-replicate {A = Option A} (n - length xs) none,
      );
      unused = λ _. raw-AllRaw A (n - length xs);
    }

    -- `reserve` of less than 2^31 elements keeps what the vector holds, and leaves room for as
    -- many as asked; an exception leaves the vector as it was.
    pub reserve-Holds :
        (sz : ℕ) (v : Vec A) (xs : List A)
        → IsLog ld32
        → sz < 2 ^ 31
        → Holds simple v xs
        → Ensures
            (λ v'. Holds simple v' xs × (sz ≤ v'.res))
            (λ v'. v' ≡ v)
            (reserve simple ld32 alloc d sz v)
    unfolding reserve moved
    reserve-Holds sz v xs log small h = elim (Bool-cases (leb sz v.res)) [
      | inl e ↦ rw e (h, leb→le sz v.res e)
      | inr e ↦
          let n = good_size ld32 sz in
          let more : v.res < sz = ground (arith, e) in
          let room : length xs ≤ v.res = omega (
            arith,
            h.capacity,
            ap length h.objects,
            length-append (full xs) h.rest,
            length-full xs,
          ) in
          let (big, _) = good_size_bounds ld32 sz log (omega (arith, more)) small in
          rw e (elim (Bool-cases (alloc n)) [
            | inl got ↦
                rw (got, move_to_lem n v xs h (omega (arith, more, room, big)))
                  (moved-Holds n v xs h (omega (arith, more, room, big)), omega (arith, big))
            | inr failed ↦ rw failed refl
          ])
    ]
