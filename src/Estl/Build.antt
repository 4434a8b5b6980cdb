-- ===== src/Estl/Build.antt =====
-- The constructors, `assign` and `resize` of `simplevec` (src/estl.h).
use mathlib.Core.List.{append_assoc, append-nil}
use libptytty.Base.{
  ℕ, zero, suc, ◌+◌, ◌-◌, ◌^◌, ◌≤◌, ◌<◌, ◌≡◌, refl, sym, ap, ◌∙◌, subst, Bool, false, Option, none,
  some, List, [], ◌∷◌, ◌++◌, arith, length, take, drop, replicate, length-append, length-replicate,
  length-take, length-drop, take-append-drop, Bool-cases, inl, inr,
}
use libptytty.Estl.Slots.{Slots, raw, full, construct, construct_loop}
use libptytty.Estl.Size.{size_mod, add_size, sub_size}
use libptytty.Estl.Blocks.{raw-AllRaw, length-full}
use libptytty.Estl.Loops.{copy_new_loop_lem}
use libptytty.Estl.Shifts.{fill_loop_lem, last_split}
use libptytty.Estl.Vec.{
  Vec, new_empty, new_fill, new_range, reserve, resize, resize_to, resize_up, resize_down,
}
use libptytty.Estl.Holds.{Holds, Ensures, Ensures-then, IsLog, reserve-Holds}
use libptytty.Estl.Ends.{add_size_of_lt, new_at-Holds, popped-Holds}

module _ {A : Type 0} (simple : Bool) (ld32 : ℕ → ℕ) (alloc : ℕ → Bool) (d : A) where
  pub new_empty-Holds : Holds simple (new_empty simple ld32 alloc d) []
  unfolding new_empty
  new_empty-Holds = record {
    rest = [];
    objects = refl;
    size = refl;
    capacity = refl;
    unused = λ _. tt;
  }

  exact-Holds :
      (n : ℕ) (xs : List A)
      → n ≡ length xs
      → Holds simple (record { sze = n; res = n; buf = full xs ++ [] }) xs
  exact-Holds n xs e = record {
    rest = [];
    objects = refl;
    size = e;
    capacity = omega (arith, e, length-append {A = Option A} (full xs) [], length-full xs);
    unused = λ _. tt;
  }

  pub new_fill-Holds :
      (n : ℕ) (t : A)
      → Ensures
          (λ v. Holds simple v (replicate n t))
          (λ v. Unit {0})
          (new_fill simple ld32 alloc d n t)
  unfolding new_fill
  new_fill-Holds n t = elim (Bool-cases (alloc n)) [
    | inl got ↦
        rw
          (
            got,
            fill_loop_lem simple n t (raw n) (raw n) [] (sym (append-nil (raw n)))
                (length-replicate n none) (λ _. raw-AllRaw A n),
          )
          (exact-Holds n (replicate n t) (sym (length-replicate n t)))
    | inr failed ↦ rw failed tt
  ]

  pub new_range-Holds :
      (src sp sq : Slots A) (xs : List A)
      → src ≡ sp ++ (full xs ++ sq)
      → Ensures
          (λ v. Holds simple v xs)
          (λ v. Unit {0})
          (new_range simple ld32 alloc d src (length sp) (length xs))
  unfolding new_range
  new_range-Holds src sp sq xs e = elim (Bool-cases (alloc (length xs))) [
    | inl got ↦
        rw
          (
            got,
            copy_new_loop_lem simple xs src (length sp) sp sq 0 (raw (length xs)) []
                (raw (length xs)) [] (e, refl) (sym (append-nil (raw (length xs))), refl)
                (sym (length-replicate (length xs) none)) (λ _. raw-AllRaw A (length xs)),
          )
          (exact-Holds (length xs) xs refl)
    | inr failed ↦ rw failed tt
  ]

-- `resize`, for a type whose objects are constructed and destroyed.
module _ {A : Type 0} (ld32 : ℕ → ℕ) (alloc : ℕ → Bool) (d : A) where
  abbrev Gives : List A → Option (Vec A) → Type 0
  Gives xs o = (v' : Vec A) × ((o ≡ some v') × Holds false v' xs)

  resize_up-Holds :
      (n : ℕ) (v : Vec A) (xs : List A)
      → length xs + n ≤ v.res
      → length xs + n < size_mod
      → Holds false v xs
      → Gives (xs ++ replicate n d) (resize_up false ld32 alloc d n v)
  unfolding resize_up construct construct_loop
  resize_up-Holds zero v xs fits small h =
      (v, (refl, subst (Holds false v) (sym (append-nil xs)) h))
  resize_up-Holds (suc n) v xs fits small h =
      let (buf, (e, held)) =
        new_at-Holds false v xs d (add_size v.sze 1) h (omega (arith, fits))
          (add_size_of_lt v.sze 1 (omega (arith, small, h.size)) ∙ omega (arith, h.size)) in
      let v' : Vec A = record { sze = add_size v.sze 1; res = v.res; buf = buf } in
      let (w, (run, holds)) =
        resize_up-Holds n v' (xs ++ (d ∷ [])) (omega (arith, fits, length-append xs (d ∷ [])))
          (omega (arith, small, length-append xs (d ∷ []))) held in
      (w, (rw e run, subst (Holds false w) (append_assoc xs (d ∷ []) (replicate n d)) holds))

  resize_down-Holds :
      (n : ℕ) (v : Vec A) (xs ys : List A)
      → length ys ≡ n
      → length xs + n < size_mod
      → Holds false v (xs ++ ys)
      → Gives xs (resize_down false ld32 alloc d n v)
  unfolding resize_down
  resize_down-Holds zero v xs [] l small h = (v, (refl, subst (Holds false v) (append-nil xs) h))
  resize_down-Holds zero v xs (y ∷ ys) l small h = absurd (omega arith)
  resize_down-Holds (suc n) v xs ys l small h =
      let (zs, (z, e)) = last_split ys n l in
      let m : length zs ≡ n = omega (arith, l, ap length e, length-append zs (z ∷ [])) in
      let h' : Holds false v ((xs ++ zs) ++ (z ∷ [])) =
        subst (Holds false v) (ap (λ w. xs ++ w) e ∙ sym (append_assoc xs zs (z ∷ []))) h in
      let (buf, (ran, held)) =
        popped-Holds false v (xs ++ zs) z (omega (arith, small, m, length-append xs zs)) h' in
      let (w, (run, holds)) =
        resize_down-Holds n (record { sze = sub_size v.sze 1; res = v.res; buf = buf }) xs zs m
          (omega (arith, small)) held in
      (w, (rw ran run, holds))

  pub resized : ℕ → List A → List A
  resized sz xs = take sz (xs ++ replicate (sz - length xs) d)

  resize_to-Holds :
      (sz : ℕ) (v : Vec A) (xs : List A)
      → sz ≤ v.res
      → sz < 2 ^ 31
      → length xs < 2 ^ 31
      → Holds false v xs
      → Gives (resized sz xs) (resize_to false ld32 alloc d sz v)
  unfolding resize_to resized
  resize_to-Holds sz v xs fits small less h =
      let k = sz - length xs in
      let room : length xs ≤ v.res =
        omega (
          arith,
          h.capacity,
          ap length h.objects,
          length-append (full xs) h.rest,
          length-full xs,
        ) in
      let (w, (up, holds)) =
        resize_up-Holds k v xs (omega (arith, room, fits)) (omega (arith, small, less)) h in
      let zs = xs ++ replicate k d in
      let total : length zs ≡ length xs + k =
        omega (arith, length-append xs (replicate k d), length-replicate k d) in
      let cut : length (drop sz zs) ≡ w.sze - sz = omega (arith, length-drop sz zs, holds.size) in
      let kept : length (take sz zs) ≡ sz = ground (arith, length-take sz zs, total) in
      let (x, (down, held)) =
        resize_down-Holds (w.sze - sz) w (take sz zs) (drop sz zs) cut
          (omega (arith, kept, holds.size, total, small, less))
          (subst (Holds false w) (sym (take-append-drop sz zs)) holds) in
      let first : resize_up false ld32 alloc d (sz - v.sze) v ≡ some w =
        ap (λ m. resize_up false ld32 alloc d (sz - m) v) h.size ∙ up in
      (x, (rw first down, held))

  -- For tracked objects, below 2^31 elements before and after, `resize` cuts the vector to the
  -- size, destroying the others, or fills it up to the size with objects that `T ()` makes; an
  -- exception leaves it as it was.
  pub resize-Holds :
      (sz : ℕ) (v : Vec A) (xs : List A)
      → IsLog ld32
      → sz < 2 ^ 31
      → length xs < 2 ^ 31
      → Holds false v xs
      → Ensures
          (λ v'. Holds false v' (resized sz xs))
          (λ v'. v' ≡ v)
          (resize false ld32 alloc d sz v)
  unfolding resize
  resize-Holds sz v xs log small less h =
      Ensures-then (λ v'. Holds false v' xs × (sz ≤ v'.res)) (λ v'. v' ≡ v)
        (λ v'. Holds false v' (resized sz xs)) (reserve false ld32 alloc d sz v) _
        (reserve-Holds false ld32 alloc d sz v xs log small h)
        λ v' p. let (x, (e, held)) = resize_to-Holds sz v' xs p.1 small less p.0 in rw e held
