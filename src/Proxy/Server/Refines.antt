-- ===== src/Proxy/Server/Refines.antt =====
-- The vector of `serve` (src/proxy.C, src/estl.h) refines the list of Proxy.Server.
use mathlib.Core.List.{append_assoc, reverse, reverse-append}
use libptytty.Base.{
  ℕ, zero, suc, ◌+◌, ◌^◌, ◌≤◌, ◌<◌, ◌≡◌, refl, sym, ap, ◌∙◌, subst, Bool, true, false, some, List,
  [], ◌∷◌, ◌++◌, arith, length, take, ◌==◌, inl, inr, length-append,
}
use libptytty.Estl.Slots.{Slots, full}
use libptytty.Estl.Blocks.{length-snoc, length-full, full-append, read-Splits}
use libptytty.Estl.Shifts.{last_split}
use libptytty.Estl.Vec.{Vec, Out, done, bad_alloc, undefined, new_empty, erase_at}
use libptytty.Estl.Holds.{Holds, Ensures, Ensures-then, IsLog}
use libptytty.Estl.Ends.{push_back-Holds}
use libptytty.Estl.Middle.{erase_at-Holds}
use libptytty.Estl.Build.{new_empty-Holds}
use libptytty.Proxy.Server.Objects.{erase}
use libptytty.Proxy.Server.Vector.{
  Change, keeps, drops, change, changes, drop_found, deletes, change_list, changes_list,
  find_position-Holds, find-cases, erase-append,
}

-- What a vector holds that was not changed further.
abbrev pub Prefix : List Change → List ℕ → Vec ℕ → Type 0
Prefix cs xs v = (n : ℕ) × Holds true v (changes_list (take n cs) xs)

Ensures-map :
    {A : Type 0} (P P' Q Q' : A → Type 0) (o : Out A)
    → ((v : A) → P v → P' v)
    → ((v : A) → Q v → Q' v)
    → Ensures P Q o
    → Ensures P' Q' o
Ensures-map P P' Q Q' (done v) j k h = j v h
Ensures-map P P' Q Q' (bad_alloc v) j k h = k v h
Ensures-map P P' Q Q' undefined j k h = h

module _ (ld32 : ℕ → ℕ) (alloc : ℕ → Bool) (log : IsLog ld32) where
  -- Only `push_back` allocates, and an exception changes nothing.
  change-Holds :
      (c : Change) (v : Vec ℕ) (xs : List ℕ)
      → length xs + 1 < 2 ^ 31
      → Holds true v xs
      → Ensures (λ v'. Holds true v' (change_list c xs)) (λ v'. v' ≡ v) (change ld32 alloc c v)
  unfolding change drop_found
  change-Holds (keeps id) v xs small h = push_back-Holds true ld32 alloc 0 v xs id log small h
  change-Holds (drops id) v xs small h = elim (find-cases id xs) [
    | inl e ↦
        let at_end : (length xs == v.sze) ≡ true = ground (arith, h.size) in
        rw (find_position-Holds true id v xs h, e, at_end) h
    | inr (before, (after, (e, f))) ↦
        let inner : (length before == v.sze) ≡ false =
          ground (arith, h.size, ap length e, length-append before (id ∷ after)) in
        let total : length xs ≡ length before + 1 + length after =
          omega (arith, ap length e, length-append before (id ∷ after)) in
        let left : erase (length before) xs ≡ before ++ after =
          ap (erase (length before)) e ∙ erase-append before after id in
        rw (find_position-Holds true id v xs h, f, inner, left)
          (Ensures-map _ _ (λ v'. ⊥) _ (erase_at true ld32 alloc 0 (length before) v) (λ v' k. k)
            (λ v' a. absurd a)
            (erase_at-Holds true ld32 alloc 0 v before after id (omega (arith, total, small))
              (subst (Holds true v) e h)))
  ]

  length-change_list : (c : Change) (xs : List ℕ) → length (change_list c xs) ≤ length xs + 1
  length-change_list (keeps id) xs = omega (arith, length-append xs (id ∷ []))
  length-change_list (drops id) xs = elim (find-cases id xs) [
    | inl e ↦ rw e (omega arith)
    | inr (before, (after, (e, f))) ↦
        let left : erase (length before) xs ≡ before ++ after =
          ap (erase (length before)) e ∙ erase-append before after id in
        rw (f, left)
          (omega
            (arith, ap length e, length-append before (id ∷ after), length-append before after))
  ]

  -- The vector is at each moment what the list is; where memory runs out, what it was before.
  pub changes-Holds :
      (cs : List Change) (v : Vec ℕ) (xs : List ℕ)
      → length xs + length cs < 2 ^ 31
      → Holds true v xs
      → Ensures (λ v'. Holds true v' (changes_list cs xs)) (Prefix cs xs) (changes ld32 alloc cs v)
  unfolding changes
  changes-Holds [] v xs small h = h
  changes-Holds (c ∷ cs) v xs small h =
      let fits = length-change_list c xs in
      Ensures-then (λ v'. Holds true v' (change_list c xs)) (Prefix (c ∷ cs) xs)
        (λ v'. Holds true v' (changes_list (c ∷ cs) xs)) (change ld32 alloc c v) _
        (Ensures-map _ _ (λ v'. v' ≡ v) _ (change ld32 alloc c v) (λ v' k. k)
          (λ v' e. (0, subst (λ w. Holds true w xs) (sym e) h))
          (change-Holds c v xs (omega (arith, small)) h))
        λ v' k.
          Ensures-map _ _ (Prefix cs (change_list c xs)) _ (changes ld32 alloc cs v') (λ w k. k)
            (λ w (n, held). (suc n, held))
            (changes-Holds cs v' (change_list c xs) (omega (arith, small, fits)) k)

deletes-reverse :
    (n : ℕ) (xs : List ℕ) (r : Slots ℕ)
    → n ≡ length xs
    → deletes n (full xs ++ r) ≡ some (reverse xs)
unfolding deletes
deletes-reverse zero [] r e = refl
deletes-reverse zero (x ∷ xs) r e = absurd (omega arith)
deletes-reverse (suc n) xs r e =
    let (ys, (y, s)) = last_split xs n (sym e) in
    let m : length ys ≡ n = omega (arith, e, ap length s, length-snoc ys y) in
    let split : full xs ++ r ≡ full ys ++ (some y ∷ r) =
      ap (λ z. full z ++ r) s
      ∙ ap (λ z. z ++ r) (full-append ys (y ∷ []))
      ∙ append_assoc (full ys) (some y ∷ []) r in
    let last : reverse xs ≡ y ∷ reverse ys = ap reverse s ∙ reverse-append ys (y ∷ []) in
    rw
      (
        split,
        read-Splits (full ys ++ (some y ∷ r)) n (full ys) (some y) r
            (refl, sym m ∙ sym (length-full ys)),
        deletes-reverse n ys (some y ∷ r) (sym m),
        last,
      )
      refl

-- Any fewer than 2^31 additions by `push_back` and removals by `find` and `erase` on an empty
-- vector of pointers leave it holding the list that Proxy.Server computes for them, and the loop
-- from its end reads that list in reverse; where memory runs out the vector holds the list of
-- the changes before, and nothing is undefined. `ecb_ld32` gives the highest bit.
pub changes-refines :
    (ld32 : ℕ → ℕ) (alloc : ℕ → Bool) (cs : List Change)
    → IsLog ld32
    → length cs < 2 ^ 31
    → Ensures
        (λ v.
          Holds true v (changes_list cs [])
          × (deletes v.sze v.buf ≡ some (reverse (changes_list cs []))))
        (Prefix cs [])
        (changes ld32 alloc cs (new_empty true ld32 alloc 0))
changes-refines ld32 alloc cs log small =
    Ensures-map _ _ (Prefix cs []) _ (changes ld32 alloc cs (new_empty true ld32 alloc 0))
      (λ v h.
        let ids = changes_list cs [] in
        (h, ap (deletes v.sze) h.objects ∙ deletes-reverse v.sze ids h.rest h.size))
      (λ v p. p)
      (changes-Holds ld32 alloc log cs (new_empty true ld32 alloc 0) [] (omega (arith, small))
        (new_empty-Holds true ld32 alloc 0))
