-- ===== src/Estl/Vec.antt =====
-- `simplevec` (src/estl.h): its fields and operations. Iterators are positions, and a range of a
-- `const_iterator` is what it points to.
use libptytty.Base.{
  ℕ, zero, suc, ◌+◌, ◌-◌, Bool, not, Option, none, some, List, [], length, get_elem?, set, leb, ltb,
  ◌==◌, if◌then◌else◌,
}
use libptytty.Estl.Slots.{
  Slots, ◌>>=◌, raw, full, read, memmove, new_at, assign_at, construct, destruct, copy_new,
  copy_new_loop, copy_set_loop, shift_down, shift_up, set_loop, fill_loop,
}
use libptytty.Estl.Size.{add_size, sub_size, good_size}

pub record Vec {ℓ} (A : Type ℓ) : Type ℓ where
  pub sze : ℕ
  pub res : ℕ
  pub buf : Slots A

-- A result, an exception of `operator new` with the vector as it stands then, or undefined.
pub data Out {ℓ} (A : Type ℓ) : Type ℓ where
  done : A → Out A
  bad_alloc : A → Out A
  undefined : Out A

abbrev pub then_do {ℓ} : {A : Type ℓ} → Out A → (A → Out A) → Out A
then_do (done v) k = k v
then_do (bad_alloc v) k = bad_alloc v
then_do undefined k = undefined

abbrev pub defined {ℓ} : {A : Type ℓ} → Option A → Out A
defined none = undefined
defined (some v) = done v

-- An object that is read from a store, and one that is written back.
abbrev pub with_object {ℓ} : {A B : Type ℓ} → Option A → (A → Out B) → Out B
with_object none k = undefined
with_object (some a) k = k a

abbrev pub put_object {ℓ} : {A : Type ℓ} → List A → ℕ → Out A → Out (List A)
put_object s i (done a) = done (set s i a)
put_object s i (bad_alloc a) = bad_alloc (set s i a)
put_object s i undefined = undefined

-- An argument of type `const T &`: an object elsewhere, or the vector's own at a position.
pub data Ref {ℓ} (A : Type ℓ) : Type ℓ where
  outside : A → Ref A
  inside : ℕ → Ref A

module _ {ℓ} {A : Type ℓ} (simple : Bool) (ld32 : ℕ → ℕ) (alloc : ℕ → Bool) (d : A) where
  -- `simplevec ()`
  unfoldable pub new_empty : Vec A
  new_empty = record { sze = 0; res = 0; buf = [] }

  -- `simplevec (n, t)` and `simplevec (first, last)`. An exception leaves no object.
  unfoldable pub new_fill : ℕ → A → Out (Vec A)
  new_fill n t =
      if alloc n
      then defined
          (fill_loop simple n t (raw n) >>= λ buf. some (record { sze = n; res = n; buf = buf }))
      else bad_alloc new_empty

  unfoldable pub new_range : Slots A → ℕ → ℕ → Out (Vec A)
  new_range src first n =
      if alloc n
      then defined (
          copy_new_loop simple n src first 0 (raw n) >>= λ buf.
          some (record { sze = n; res = n; buf = buf }))
      else bad_alloc new_empty

  -- `simplevec (v)`
  unfoldable pub new_copy : Vec A → Out (Vec A)
  new_copy v = new_range v.buf 0 v.sze

  -- `dealloc`, which leaves no buffer.
  unfoldable pub dealloc : Vec A → Option (Slots A)
  dealloc v = destruct simple v.sze 0 v.buf >>= λ buf. some []

  -- The elements move to a buffer of `n` slots.
  unfoldable pub move_to : ℕ → Vec A → Option (Vec A)
  move_to n v = copy_new simple v.sze v.buf 0 0 (raw n) >>= λ nbuf.
      dealloc v >>= λ _. some (record v { res = n; buf = nbuf })

  unfoldable pub reserve : ℕ → Vec A → Out (Vec A)
  reserve sz v =
      if leb sz v.res
      then done v
      else let n = good_size ld32 sz in if alloc n then defined (move_to n v) else bad_alloc v

  unfoldable pub resize_down : ℕ → Vec A → Option (Vec A)
  resize_down zero v = some v
  resize_down (suc n) v = destruct simple 1 (sub_size v.sze 1) v.buf >>= λ buf.
      resize_down n (record v { sze = sub_size v.sze 1; buf = buf })

  unfoldable pub resize_up : ℕ → Vec A → Option (Vec A)
  resize_up zero v = some v
  resize_up (suc n) v = construct simple d 1 v.sze v.buf >>= λ buf.
      resize_up n (record v { sze = add_size v.sze 1; buf = buf })

  -- The two loops of `resize`: their tests hold as often as the sizes differ.
  unfoldable pub resize_to : ℕ → Vec A → Option (Vec A)
  resize_to sz v =
      if simple
      then some (record v { sze = sz })
      else resize_up (sz - v.sze) v >>= λ v. resize_down (v.sze - sz) v

  unfoldable pub resize : ℕ → Vec A → Out (Vec A)
  resize sz v = then_do (reserve sz v) λ v. defined (resize_to sz v)

  unfoldable pub clear : Vec A → Out (Vec A)
  clear v =
      defined (destruct simple v.sze 0 v.buf >>= λ buf. some (record v { sze = 0; buf = buf }))

  -- The slots at the place of the vector's buffer after `reserve`: those that `dealloc` left,
  -- where the objects moved to another buffer.
  unfoldable pub old_slots : (sz : ℕ) → Vec A → Vec A → Option (Slots A)
  old_slots sz v v' = if leb sz v.res then some v'.buf else dealloc v

  -- The argument of `push_back` is read after `reserve`, at the place where it was.
  unfoldable pub deref_arg : Slots A → Ref A → Option A
  deref_arg old (outside a) = some a
  deref_arg old (inside i) = read old i

  unfoldable pub new_last : Slots A → Ref A → Vec A → Option (Vec A)
  new_last old t v = deref_arg old t >>= λ a.
      new_at simple v.buf v.sze a >>= λ buf. some (record v { sze = add_size v.sze 1; buf = buf })

  unfoldable pub push_back : Ref A → Vec A → Out (Vec A)
  push_back t v =
      let sz = add_size v.sze 1 in
      then_do (reserve sz v) λ v'. defined (old_slots sz v v' >>= λ old. new_last old t v')

  unfoldable pub pop_back : Vec A → Out (Vec A)
  pop_back v =
      let n = sub_size v.sze 1 in
      defined (destruct simple 1 n v.buf >>= λ buf. some (record v { sze = n; buf = buf }))

  -- `ins`: `res` is assigned before the allocation. The objects from `pos` on move up by `n`.
  unfoldable pub grow : ℕ → Vec A → Out (Vec A)
  grow sz v =
      if ltb v.res sz
      then (let n = good_size ld32 sz in
          if alloc n then defined (move_to n v) else bad_alloc (record v { res = n }))
      else done v

  unfoldable pub move_up : (pos n : ℕ) → Vec A → Option (Vec A)
  move_up pos n v = construct simple d n v.sze v.buf >>= λ buf.
      (let c = sub_size v.sze pos in
        if simple then memmove buf (pos + n) pos c else shift_up simple c pos n buf)
      >>= λ buf. some (record v { sze = add_size v.sze n; buf = buf })

  unfoldable pub ins : (pos n : ℕ) → Vec A → Out (Vec A)
  ins pos n v = then_do (grow (add_size v.sze n) v) λ v. defined (move_up pos n v)

  -- `insert`, in its three forms. The objects to insert lie outside of the vector.
  unfoldable pub insert_one : (at : ℕ) → A → Vec A → Out (Vec A)
  insert_one at t v =
      then_do (ins at 1 v)
        λ v. defined (assign_at simple v.buf at t >>= λ buf. some (record v { buf = buf }))

  unfoldable pub insert_range : (at : ℕ) → List A → Vec A → Out (Vec A)
  insert_range at xs v = then_do (ins at (length xs) v) λ v. defined (
      copy_set_loop simple (length xs) (full xs) 0 at v.buf >>= λ buf.
      some (record v { buf = buf }))

  unfoldable pub insert_fill : (at n : ℕ) → A → Vec A → Out (Vec A)
  insert_fill at n t v =
      then_do (ins at n v)
        λ v. defined (set_loop simple n t at v.buf >>= λ buf. some (record v { buf = buf }))

  -- `erase (first, last)` and `erase (pos)`
  unfoldable pub erase_range : (first last : ℕ) → Vec A → Out (Vec A)
  erase_range first last v =
      let n = sub_size last first in
      let c = sub_size v.sze last in
      let sze = sub_size v.sze n in
      defined (
        (if simple then memmove v.buf first last c else shift_down simple c first last v.buf)
        >>= λ buf. destruct simple n sze buf >>= λ buf. some (record v { sze = sze; buf = buf }))

  unfoldable pub erase_at : ℕ → Vec A → Out (Vec A)
  erase_at pos v = if not (pos == v.sze) then erase_range pos (pos + 1) v else done v

  unfoldable pub swap : Vec A → Vec A → Vec A × Vec A
  swap v t = (
    record { sze = t.sze; res = t.res; buf = t.buf },
    record { sze = v.sze; res = v.res; buf = v.buf },
  )

  -- `assign` swaps with a new vector, whose destructor then gives back what the vector had.
  unfoldable pub swap_in : Out (Vec A) → Vec A → Out (Vec A)
  swap_in (done w) v = let (v', w') = swap v w in defined (dealloc w' >>= λ _. some v')
  swap_in (bad_alloc w) v = bad_alloc v
  swap_in undefined v = undefined

  unfoldable pub assign_range : Slots A → (first n : ℕ) → Vec A → Out (Vec A)
  assign_range src first n v = swap_in (new_range src first n) v

  unfoldable pub assign_fill : ℕ → A → Vec A → Out (Vec A)
  assign_fill n t v = swap_in (new_fill n t) v

  -- `operator =`, on the vectors at the positions `to` and `from` of a store, which may be one:
  -- `*this` and the argument are read from it, and `*this` is written back.
  unfoldable pub assign_vec : (to from : ℕ) → List (Vec A) → Out (List (Vec A))
  assign_vec to from s =
      with_object (get_elem? s from)
        λ w. with_object (get_elem? s to) λ v. put_object s to (assign_range w.buf 0 w.sze v)

  -- `at`, `operator []`, `front`, `back`
  unfoldable pub at : ℕ → Vec A → Option A
  at i v = read v.buf i

  unfoldable pub front : Vec A → Option A
  front v = read v.buf 0

  unfoldable pub back : Vec A → Option A
  back v = read v.buf (sub_size v.sze 1)

  unfoldable pub is_empty : Vec A → Bool
  is_empty v = v.sze == 0
