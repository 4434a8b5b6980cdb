-- ===== src/Estl/Ends.antt =====
-- `push_back`, `pop_back` and `clear` (src/estl.h): the operations at the vector's end.
use mathlib.Core.List.{append_assoc}
use libptytty.Base.{
  ℕ, ◌+◌, ◌-◌, ◌^◌, ◌≤◌, ◌<◌, ◌≡◌, refl, sym, ap, ◌∙◌, subst, Bool, Option, some, List, [], ◌∷◌,
  ◌++◌, arith, length, length-append, leb, inl, inr, Bool-cases, if◌then◌else◌,
}
use libptytty.Estl.Slots.{Slots, full, new_at, destruct}
use libptytty.Estl.Size.{size_mod, add_size, sub_size}
use libptytty.Estl.Blocks.{
  AllRaw, AllRaw-append, full-AllFull, length-full, full-append, new_at-Splits,
}
use libptytty.Estl.Vec.{
  Vec, Ref, defined, old_slots, outside, reserve, deref_arg, new_last, push_back, pop_back, clear,
}
use libptytty.Estl.Holds.{
  Holds, Ensures, Ensures-then, IsLog, reserve-Holds, dealloc_lem, destruct_lem,
}

pub add_size_of_lt : (a b : ℕ) → a + b < size_mod → add_size a b ≡ a + b
unfolding add_size
add_size_of_lt a b h = omega (arith, h)

pub sub_size_of_le : (a b : ℕ) → b ≤ a → a < size_mod → sub_size a b ≡ a - b
unfolding sub_size
sub_size_of_le a b h k = omega (arith, h, k)

module _ {A : Type 0} (simple : Bool) where
  -- The slot behind the objects, where there is one.
  split_rest :
      (rest : Slots A) → 1 ≤ length rest → (x : Option A) × ((r : Slots A) × (rest ≡ x ∷ r))
  split_rest [] h = absurd (omega arith)
  split_rest (x ∷ r) h = (x, (r, refl))

  -- A new object behind the others.
  pub new_at-Holds :
      (v : Vec A) (xs : List A) (a : A) (sze : ℕ)
      → Holds simple v xs
      → length xs + 1 ≤ v.res
      → sze ≡ length xs + 1
      → (buf : Slots A) × ((new_at simple v.buf v.sze a ≡ some buf)
          × Holds simple (record v { sze = sze; buf = buf }) (xs ++ (a ∷ [])))
  new_at-Holds v xs a sze h room e =
      let n = length-full xs in
      let (x, (r, rest)) =
        split_rest h.rest (
          omega
            (arith, room, h.capacity, ap length h.objects, length-append (full xs) h.rest, n)) in
      let split : v.buf ≡ full xs ++ (x ∷ r) = h.objects ∙ ap (λ z. full xs ++ z) rest in
      (
        full xs ++ (some a ∷ r),
        (
          new_at-Splits simple v.buf v.sze (full xs) x r a (split, h.size ∙ sym n)
              (λ q. (subst AllRaw rest (h.unused q)).0),
          record {
            rest = r;
            objects = sym (
                ap (λ z. z ++ r) (full-append xs (a ∷ []))
                ∙ append_assoc (full xs) (some a ∷ []) r);
            size = omega (arith, e, length-append xs (a ∷ []));
            capacity = omega (
              arith,
              h.capacity,
              ap length split,
              length-append (full xs) (x ∷ r),
              length-append (full xs) (some a ∷ r),
            );
            unused = λ q. (subst AllRaw rest (h.unused q)).1;
          },
        ),
      )

  -- The last object is destroyed.
  pub popped-Holds :
      (v : Vec A) (xs : List A) (a : A)
      → length xs + 1 < size_mod
      → Holds simple v (xs ++ (a ∷ []))
      → (buf : Slots A) × ((destruct simple 1 (sub_size v.sze 1) v.buf ≡ some buf)
          × Holds simple (record { sze = sub_size v.sze 1; res = v.res; buf = buf }) xs)
  popped-Holds v xs a small h =
      let n : v.sze ≡ length xs + 1 = omega (arith, h.size, length-append xs (a ∷ [])) in
      let m : sub_size v.sze 1 ≡ length xs =
        sub_size_of_le v.sze 1 (omega (arith, n)) (omega (arith, n, small)) ∙ omega (arith, n) in
      let split : v.buf ≡ full xs ++ ((some a ∷ []) ++ h.rest) =
        h.objects
        ∙ ap (λ z. z ++ h.rest) (full-append xs (a ∷ []))
        ∙ append_assoc (full xs) (some a ∷ []) h.rest in
      let (hs, (l, was, e)) =
        destruct_lem simple 1 (sub_size v.sze 1) v.buf (full xs) (some a ∷ []) h.rest
          (split, m ∙ sym (length-full xs)) refl (λ _. (refl, tt)) in
      (
        full xs ++ (hs ++ h.rest),
        (
          e,
          record {
            rest = hs ++ h.rest;
            objects = refl;
            size = m;
            capacity = omega (
              arith,
              h.capacity,
              l,
              ap length split,
              length-append (full xs) ((some a ∷ []) ++ h.rest),
              length-append (full xs) (hs ++ h.rest),
              length-append hs h.rest,
            );
            unused = λ q. AllRaw-append hs h.rest (was q) (h.unused q);
          },
        ),
      )

  module _ (ld32 : ℕ → ℕ) (alloc : ℕ → Bool) (d : A) where
    pub old_slots_lem :
        (sz : ℕ) (v v' : Vec A) (xs : List A)
        → Holds simple v xs
        → old_slots simple ld32 alloc d sz v v' ≡ some (if leb sz v.res then v'.buf else [])
    unfolding old_slots
    old_slots_lem sz v v' xs h = elim (Bool-cases (leb sz v.res)) [
      | inl e ↦ rw e refl
      | inr e ↦ rw e (dealloc_lem simple ld32 alloc d v xs h)
    ]

    -- With room and the argument at hand, the object is added.
    pub new_last-Holds :
        (Q : Vec A → Type 0) (old : Slots A) (t : Ref A) (a : A) (v : Vec A) (xs : List A)
        → deref_arg simple ld32 alloc d old t ≡ some a
        → length xs + 1 < 2 ^ 31
        → length xs + 1 ≤ v.res
        → Holds simple v xs
        → Ensures
            (λ v'. Holds simple v' (xs ++ (a ∷ [])))
            Q
            (defined (new_last simple ld32 alloc d old t v))
    unfolding new_last
    new_last-Holds Q old t a v xs arg small room h =
        let (buf, (e, held)) =
          new_at-Holds v xs a (add_size v.sze 1) h room
            (add_size_of_lt v.sze 1 (omega (arith, small, h.size)) ∙ omega (arith, h.size)) in
        rw (arg, e) held

    -- Below 2^31 elements `push_back` of an object outside of the vector adds it behind the
    -- others, growing the buffer where it is full; an exception leaves the vector as it was.
    pub push_back-Holds :
        (v : Vec A) (xs : List A) (a : A)
        → IsLog ld32
        → length xs + 1 < 2 ^ 31
        → Holds simple v xs
        → Ensures
            (λ v'. Holds simple v' (xs ++ (a ∷ [])))
            (λ v'. v' ≡ v)
            (push_back simple ld32 alloc d (outside a) v)
    unfolding push_back new_last deref_arg
    push_back-Holds v xs a log small h =
        let sz : add_size v.sze 1 ≡ length xs + 1 =
          add_size_of_lt v.sze 1 (omega (arith, small, h.size)) ∙ omega (arith, h.size) in
        Ensures-then (λ v'. Holds simple v' xs × (add_size v.sze 1 ≤ v'.res)) (λ v'. v' ≡ v)
          (λ v'. Holds simple v' (xs ++ (a ∷ [])))
          (reserve simple ld32 alloc d (add_size v.sze 1) v) _
          (reserve-Holds simple ld32 alloc d (add_size v.sze 1) v xs log (omega (arith, sz, small))
            h)
          λ v' p. rw (old_slots_lem (add_size v.sze 1) v v' xs h) (
            new_last-Holds (λ v'. v' ≡ v) (if leb (add_size v.sze 1) v.res then v'.buf else [])
              (outside a) a v' xs refl small (omega (arith, sz, p.1)) p.0)

    pub pop_back-Holds :
        (v : Vec A) (xs : List A) (a : A)
        → length xs + 1 < size_mod
        → Holds simple v (xs ++ (a ∷ []))
        → Ensures (λ v'. Holds simple v' xs) (λ v'. ⊥) (pop_back simple ld32 alloc d v)
    unfolding pop_back
    pop_back-Holds v xs a small h = let (buf, (e, held)) = popped-Holds v xs a small h in rw e held

    pub clear-Holds :
        (v : Vec A) (xs : List A)
        → Holds simple v xs
        → Ensures (λ v'. Holds simple v' []) (λ v'. ⊥) (clear simple ld32 alloc d v)
    unfolding clear
    clear-Holds v xs h =
        let (hs, (l, was, e)) =
          destruct_lem simple v.sze 0 v.buf [] (full xs) h.rest (h.objects, refl)
            (h.size ∙ sym (length-full xs)) (λ _. full-AllFull xs) in
        rw e (record {
          rest = hs ++ h.rest;
          objects = refl;
          size = refl;
          capacity = omega (
            arith,
            h.capacity,
            l,
            h.size,
            ap length h.objects,
            length-append (full xs) h.rest,
            length-append hs h.rest,
            length-full xs,
          );
          unused = λ q. AllRaw-append hs h.rest (was q) (h.unused q);
        })
