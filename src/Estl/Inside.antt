-- ===== src/Estl/Inside.antt =====
-- `push_back` of an element of the vector itself (src/estl.h).
use libptytty.Base.{
  ℕ, ◌+◌, ◌^◌, ◌≤◌, ◌<◌, ◌≡◌, refl, sym, ◌∙◌, subst, Bool, some, List, [], ◌∷◌, ◌++◌, arith, length,
  leb, leb→le, zero, suc, ◌⊎◌, inl, inr, Bool-cases, get_elem?, if◌then◌else◌,
}
use libptytty.Estl.Slots.{Slots, full, read}
use libptytty.Estl.Size.{add_size, good_size}
use libptytty.Estl.Vec.{Vec, bad_alloc, undefined, inside, reserve, deref_arg, new_last, push_back}
use libptytty.Estl.Holds.{Holds, Ensures, IsLog, good_size_bounds, move_to_lem, moved}
use libptytty.Estl.Ends.{add_size_of_lt, old_slots_lem, new_last-Holds}

module _ {A : Type 0} (simple : Bool) where
  read-full :
      (xs : List A) (r : Slots A) (i : ℕ) (a : A)
      → get_elem? xs i ≡ some a
      → read (full xs ++ r) i ≡ some a
  unfolding read
  read-full [] r i a e = cc e
  read-full (x ∷ xs) r zero a e = e
  read-full (x ∷ xs) r (suc i) a e = read-full xs r i a e

  module _ (ld32 : ℕ → ℕ) (alloc : ℕ → Bool) (d : A) where
    -- `push_back` of one of the vector's own elements, below 2^31 of them: where the buffer has
    -- room, it adds a copy of that element behind the others. Where the buffer is full, it is
    -- undefined, or, if there is no memory, throws and leaves the vector as it was.
    pub push_back-inside :
        (v : Vec A) (xs : List A) (i : ℕ) (a : A)
        → IsLog ld32
        → length xs + 1 < 2 ^ 31
        → Holds simple v xs
        → get_elem? xs i ≡ some a
        → ((length xs < v.res)
            × Ensures
                (λ v'. Holds simple v' (xs ++ (a ∷ [])))
                (λ v'. ⊥)
                (push_back simple ld32 alloc d (inside i) v))
          ⊎ ((v.res ≤ length xs)
              × (push_back simple ld32 alloc d (inside i) v
                  ≡ (if alloc (good_size ld32 (length xs + 1)) then undefined else bad_alloc v)))
    unfolding push_back new_last deref_arg reserve read
    push_back-inside v xs i a log small h there =
        let sz : add_size v.sze 1 ≡ length xs + 1 =
          add_size_of_lt v.sze 1 (omega (arith, small, h.size)) ∙ omega (arith, h.size) in
        let n = good_size ld32 (length xs + 1) in
        let (big, _) = good_size_bounds ld32 (length xs + 1) log (omega arith) small in
        elim (Bool-cases (leb (length xs + 1) v.res)) [
          | inl e ↦
              let room : length xs + 1 ≤ v.res = leb→le (length xs + 1) v.res e in
              let found =
                subst (λ b. read b i ≡ some a) (sym h.objects) (read-full xs h.rest i a there) in
              inl (
                omega (arith, room),
                rw (sz, e, old_slots_lem simple ld32 alloc d (length xs + 1) v v xs h, e)
                    (new_last-Holds simple ld32 alloc d (λ v'. ⊥) v.buf (inside i) a v xs found
                      small room h),
              )
          | inr e ↦ inr (
            ground (arith, e),
            rw (sz, e)
                (elim (Bool-cases (alloc n)) [
                  | inl got ↦
                      rw
                        (
                          got,
                          move_to_lem simple ld32 alloc d n v xs h (omega (arith, big)),
                          old_slots_lem simple ld32 alloc d (length xs + 1) v (moved n v xs) xs h,
                          e,
                        )
                        refl
                  | inr failed ↦ rw failed refl
                ]),
          )
        ]
