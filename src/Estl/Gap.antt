-- ===== src/Estl/Gap.antt =====
-- `ins` (src/estl.h): it opens a gap, and what is put there is held.
use mathlib.Core.List.{append_assoc}
use libptytty.Base.{
  ℕ, ◌+◌, ◌^◌, ◌≤◌, ◌<◌, ◌≡◌, refl, sym, ap, ◌∙◌, Bool, false, some, List, ◌++◌, arith, length,
  take, drop, length-append, length-take, length-drop, take-append-drop, ltb, ltb→lt, Bool-cases,
  inl, inr,
}
use libptytty.Estl.Slots.{Slots, full, construct}
use libptytty.Estl.Size.{size_mod, add_size, sub_size, good_size}
use libptytty.Estl.Blocks.{
  AllFull, AllRaw, AllRaw-take, AllRaw-drop, AllFull-append, AllFull-take, full-AllFull,
  length-full, full-append,
}
use libptytty.Estl.Vec.{Vec, defined, grow, move_up, ins}
use libptytty.Estl.Holds.{
  Holds, Ensures, Ensures-then, IsLog, good_size_bounds, move_to_lem, moved, moved-Holds,
  construct_lem,
}
use libptytty.Estl.Ends.{add_size_of_lt, sub_size_of_le}
use libptytty.Estl.Middle.{move_up_lem}

-- The vector has a gap of `n` slots between `xs` and `ys`, of objects where they are tracked.
pub record Opens {A : Type 0} (simple : Bool) (v : Vec A) (xs : List A) (n : ℕ) (ys : List A)
    : Type 0 where
  pub gap : Slots A
  pub after : Slots A
  pub parts : v.buf ≡ full xs ++ (gap ++ (full ys ++ after))
  pub gap_size : length gap ≡ n
  pub gap_full : simple ≡ false → AllFull gap
  pub total : v.sze ≡ length xs + n + length ys
  pub room : v.res ≡ length v.buf
  pub after_raw : simple ≡ false → AllRaw after

-- An exception of `ins` leaves the objects, but not the capacity, as they were.
abbrev pub Spoilt : {A : Type 0} → Vec A → Vec A → Type 0
Spoilt v v' = (v'.buf ≡ v.buf) × (v'.sze ≡ v.sze) × (v.res < v'.res)

-- What is put in the gap is held, between the others.
pub filled-Holds :
    {A : Type 0} (simple : Bool) (v : Vec A) (xs zs ys : List A) (n : ℕ)
    (o : Opens simple v xs n ys)
    → length zs ≡ n
    → Holds simple
        (record v { buf = full xs ++ (full zs ++ (full ys ++ o.after)) })
        (xs ++ (zs ++ ys))
filled-Holds simple v xs zs ys n o e = record {
  rest = o.after;
  objects = sym (
      ap (λ z. z ++ o.after)
        (full-append xs (zs ++ ys) ∙ ap (λ z. full xs ++ z) (full-append zs ys))
      ∙ append_assoc (full xs) (full zs ++ full ys) o.after
      ∙ ap (λ z. full xs ++ z) (append_assoc (full zs) (full ys) o.after));
  size = omega (arith, e, o.total, length-append xs (zs ++ ys), length-append zs ys);
  capacity = omega (
    arith,
    o.room,
    o.gap_size,
    ap length o.parts,
    length-append (full xs) (o.gap ++ (full ys ++ o.after)),
    length-append o.gap (full ys ++ o.after),
    length-append (full xs) (full zs ++ (full ys ++ o.after)),
    length-append (full zs) (full ys ++ o.after),
    length-full zs,
    e,
  );
  unused = o.after_raw;
}

module _ {A : Type 0} (simple : Bool) (ld32 : ℕ → ℕ) (alloc : ℕ → Bool) (d : A) where
  pub grow-Holds :
      (sz : ℕ) (v : Vec A) (xs : List A)
      → IsLog ld32
      → sz < 2 ^ 31
      → Holds simple v xs
      → Ensures
          (λ v'. Holds simple v' xs × (sz ≤ v'.res))
          (Spoilt v)
          (grow simple ld32 alloc d sz v)
  unfolding grow moved
  grow-Holds sz v xs log small h = elim (Bool-cases (ltb v.res sz)) [
    | inl e ↦
        let n = good_size ld32 sz in
        let more : v.res < sz = ltb→lt v.res sz e in
        let room : length xs ≤ v.res = omega (
          arith,
          h.capacity,
          ap length h.objects,
          length-append (full xs) h.rest,
          length-full xs,
        ) in
        let (big, _) = good_size_bounds ld32 sz log (omega (arith, more)) small in
        rw e (elim (Bool-cases (alloc n)) [
          | inl got ↦
              rw (got, move_to_lem simple ld32 alloc d n v xs h (omega (arith, more, room, big)))
                (
                  moved-Holds simple ld32 alloc d n v xs h (omega (arith, more, room, big)),
                  omega (arith, big),
                )
          | inr failed ↦ rw failed (refl, refl, omega (arith, more, big))
        ])
    | inr e ↦ rw e (h, ground (arith, e))
  ]

  -- The move, behind the construction of `n` objects in the slots `hs`.
  constructed-Opens :
      (Q : Vec A → Type 0) (n : ℕ) (v : Vec A) (xs ys : List A) (hs r : Slots A)
      → length xs + n + length ys < size_mod
      → v.sze ≡ length xs + length ys
      → v.res ≡ length xs + length ys + n + length r
      → construct simple d n v.sze v.buf ≡ some (full (xs ++ ys) ++ (hs ++ r))
      → length hs ≡ n
      → (simple ≡ false → AllFull hs)
      → (simple ≡ false → AllRaw r)
      → Ensures
          (λ v'. Opens simple v' xs n ys)
          Q
          (defined (move_up simple ld32 alloc d (length xs) n v))
  unfolding move_up
  constructed-Opens Q n v xs ys hs r small size cap e l made unused =
      let c : sub_size v.sze (length xs) ≡ length ys =
        sub_size_of_le v.sze (length xs) (omega (arith, size)) (omega (arith, size, small))
        ∙ omega (arith, size) in
      let total : add_size v.sze n ≡ length xs + n + length ys =
        add_size_of_lt v.sze n (omega (arith, size, small)) ∙ omega (arith, size) in
      let up =
        move_up_lem simple ys hs n (length xs) (full (xs ++ ys) ++ (hs ++ r)) (full xs) r
          (ap (λ z. z ++ (hs ++ r)) (full-append xs ys)
            ∙ append_assoc (full xs) (full ys) (hs ++ r))
          (sym (length-full xs)) (sym l) made in
      let hole = take (length hs) (full ys ++ hs) in
      let hole_size : length hole ≡ n =
        ground (arith, l, length-take (length hs) (full ys ++ hs), length-append (full ys) hs) in
      rw (e, c, up)
        (record {
          gap = hole;
          after = r;
          parts = refl;
          gap_size = hole_size;
          gap_full = λ q.
              AllFull-take (length hs) (full ys ++ hs)
                (AllFull-append (full ys) hs (full-AllFull ys) (made q));
          total = total;
          room = omega (
            arith,
            cap,
            hole_size,
            length-append (full xs) (hole ++ (full ys ++ r)),
            length-append hole (full ys ++ r),
            length-append (full ys) r,
            length-full xs,
            length-full ys,
          );
          after_raw = unused;
        })

  move_up-Opens :
      (Q : Vec A → Type 0) (n : ℕ) (v : Vec A) (xs ys : List A)
      → length xs + n + length ys ≤ v.res
      → length xs + n + length ys < size_mod
      → Holds simple v (xs ++ ys)
      → Ensures
          (λ v'. Opens simple v' xs n ys)
          Q
          (defined (move_up simple ld32 alloc d (length xs) n v))
  move_up-Opens Q n v xs ys fits small h =
      let size : v.sze ≡ length xs + length ys = omega (arith, h.size, length-append xs ys) in
      let both : length (full (xs ++ ys)) ≡ length xs + length ys =
        omega (arith, length-full (xs ++ ys), length-append xs ys) in
      let all : v.res ≡ length xs + length ys + length h.rest =
        omega
          (arith, both, h.capacity, ap length h.objects, length-append (full (xs ++ ys)) h.rest) in
      let split : v.buf ≡ full (xs ++ ys) ++ (take n h.rest ++ drop n h.rest) =
        h.objects ∙ ap (λ z. full (xs ++ ys) ++ z) (sym (take-append-drop n h.rest)) in
      let (hs, (l, made, e)) =
        construct_lem simple d n v.sze v.buf (full (xs ++ ys)) (take n h.rest) (drop n h.rest)
          (split, omega (arith, size, both)) (ground (arith, fits, all, length-take n h.rest))
          (λ q. AllRaw-take n h.rest (h.unused q)) in
      constructed-Opens Q n v xs ys hs (drop n h.rest) small size
        (omega (arith, fits, all, length-drop n h.rest)) e l made
        (λ q. AllRaw-drop n h.rest (h.unused q))

  pub ins-Opens :
      (n : ℕ) (v : Vec A) (xs ys : List A)
      → IsLog ld32
      → length xs + n + length ys < 2 ^ 31
      → Holds simple v (xs ++ ys)
      → Ensures (λ v'. Opens simple v' xs n ys) (Spoilt v) (ins simple ld32 alloc d (length xs) n v)
  unfolding ins
  ins-Opens n v xs ys log small h =
      let total : add_size v.sze n ≡ length xs + n + length ys =
        add_size_of_lt v.sze n (omega (arith, small, h.size, length-append xs ys))
        ∙ omega (arith, h.size, length-append xs ys) in
      Ensures-then (λ v'. Holds simple v' (xs ++ ys) × (add_size v.sze n ≤ v'.res)) (Spoilt v)
        (λ v'. Opens simple v' xs n ys) (grow simple ld32 alloc d (add_size v.sze n) v) _
        (grow-Holds (add_size v.sze n) v (xs ++ ys) log (omega (arith, total, small)) h)
        λ v' p.
          move_up-Opens (Spoilt v) n v' xs ys (omega (arith, total, p.1)) (omega (arith, small)) p.0
