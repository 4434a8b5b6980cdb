-- ===== src/Estl/Slots.antt =====
-- The memory behind a `simplevec` (src/estl.h): slots that hold an object, or none. `none` as a
-- result is undefined behaviour: an access out of the buffer, an object read or destroyed where
-- there is none, or one constructed over another.
use libptytty.Base.{
  ℕ, zero, suc, ◌+◌, Bool, true, false, ◌&&◌, Option, none, some, List, [], ◌∷◌, ◌++◌, length, take,
  drop, replicate, leb, if◌then◌else◌,
}

abbrev pub Slots {ℓ} : Type ℓ → Type ℓ
Slots A = List (Option A)

infixl 5 ◌>>=◌
abbrev pub ◌>>=◌ {ℓ κ} : {A : Type ℓ} {B : Type κ} → Option A → (A → Option B) → Option B
none >>= k = none
some a >>= k = k a

module _ {ℓ} {A : Type ℓ} where
  -- `::operator new`
  abbrev pub raw : ℕ → Slots A
  raw n = replicate n none

  abbrev pub full : List A → Slots A
  full [] = []
  full (x ∷ xs) = some x ∷ full xs

  unfoldable pub read : Slots A → ℕ → Option A
  read [] i = none
  read (x ∷ buf) zero = x
  read (x ∷ buf) (suc i) = read buf i

  abbrev keep : Option A → Option (Slots A) → Option (Slots A)
  keep x none = none
  keep x (some buf) = some (x ∷ buf)

  unfoldable pub set_slot : Slots A → ℕ → Option A → Option (Slots A)
  set_slot [] i x = none
  set_slot (y ∷ buf) zero x = some (x ∷ buf)
  set_slot (y ∷ buf) (suc i) x = keep y (set_slot buf i x)

  -- Is there an object in the slot?
  unfoldable pub is_full : Slots A → ℕ → Bool
  is_full [] i = false
  is_full (none ∷ buf) zero = false
  is_full (some x ∷ buf) zero = true
  is_full (x ∷ buf) (suc i) = is_full buf i

  -- The parts of two buffers that `memcpy` and `memmove` take, each within its buffer.
  unfoldable pub memcpy : (dst : Slots A) → ℕ → (src : Slots A) → ℕ → ℕ → Option (Slots A)
  memcpy dst i src j n =
      if leb (j + n) (length src) && leb (i + n) (length dst)
      then some (take i dst ++ (take n (drop j src) ++ drop (i + n) dst))
      else none

  unfoldable pub memmove : Slots A → (dst src n : ℕ) → Option (Slots A)
  memmove buf dst src n = memcpy buf dst buf src n

  -- Types whose objects are bytes take every slot as it is; for others objects are tracked.
  module _ (simple : Bool) where
    -- `new (buf + i) T (a)`
    unfoldable pub new_at : Slots A → ℕ → A → Option (Slots A)
    new_at buf i a =
        if simple
        then set_slot buf i (some a)
        else if is_full buf i
        then none
        else set_slot buf i (some a)

    -- `buf [i] = a`
    unfoldable pub assign_at : Slots A → ℕ → A → Option (Slots A)
    assign_at buf i a =
        if simple
        then set_slot buf i (some a)
        else if is_full buf i
        then set_slot buf i (some a)
        else none

    -- `(buf + i)->~T ()`
    unfoldable pub destroy_slot : Slots A → ℕ → Option (Slots A)
    destroy_slot buf i = if is_full buf i then set_slot buf i none else none

    unfoldable pub construct_loop : A → ℕ → ℕ → Slots A → Option (Slots A)
    construct_loop d zero i buf = some buf
    construct_loop d (suc n) i buf = new_at buf i d >>= construct_loop d n (i + 1)

    -- `construct`; `d` is the object that `T ()` makes.
    unfoldable pub construct : A → ℕ → ℕ → Slots A → Option (Slots A)
    construct d n i buf = if simple then some buf else construct_loop d n i buf

    unfoldable pub destruct_loop : ℕ → ℕ → Slots A → Option (Slots A)
    destruct_loop zero i buf = some buf
    destruct_loop (suc n) i buf = destroy_slot buf i >>= destruct_loop n (i + 1)

    -- `destruct`
    unfoldable pub destruct : ℕ → ℕ → Slots A → Option (Slots A)
    destruct n i buf = if simple then some buf else destruct_loop n i buf

    -- The loop of `copy` with `cop_new`, from one buffer into another.
    unfoldable pub copy_new_loop : ℕ → (src : Slots A) → ℕ → (i : ℕ) → Slots A → Option (Slots A)
    copy_new_loop zero src j i buf = some buf
    copy_new_loop (suc n) src j i buf =
        read src j >>= λ a. new_at buf i a >>= copy_new_loop n src (j + 1) (i + 1)

    unfoldable pub copy_new : ℕ → (src : Slots A) → ℕ → (i : ℕ) → Slots A → Option (Slots A)
    copy_new n src j i buf = if simple then memcpy buf i src j n else copy_new_loop n src j i buf

    -- The loop with `cop_set`, from another buffer, and within one. The `copy` that takes
    -- `memcpy` is the one for an `iterator`; a `const_iterator` always takes the loop.
    unfoldable pub copy_set_loop : ℕ → (src : Slots A) → ℕ → (i : ℕ) → Slots A → Option (Slots A)
    copy_set_loop zero src j i buf = some buf
    copy_set_loop (suc n) src j i buf =
        read src j >>= λ a. assign_at buf i a >>= copy_set_loop n src (j + 1) (i + 1)

    unfoldable pub shift_down : ℕ → (i j : ℕ) → Slots A → Option (Slots A)
    shift_down zero i j buf = some buf
    shift_down (suc n) i j buf =
        read buf j >>= λ a. assign_at buf i a >>= shift_down n (i + 1) (j + 1)

    -- `for (size_type i = n; i--; ) cop_set (src + k + i, src + i)`
    unfoldable pub shift_up : ℕ → (src k : ℕ) → Slots A → Option (Slots A)
    shift_up zero src k buf = some buf
    shift_up (suc i) src k buf =
        read buf (src + i) >>= λ a. assign_at buf (src + k + i) a >>= shift_up i src k

    -- `*i++ = t`, `n` times
    unfoldable pub set_loop : ℕ → A → ℕ → Slots A → Option (Slots A)
    set_loop zero t i buf = some buf
    set_loop (suc n) t i buf = assign_at buf i t >>= set_loop n t (i + 1)

    -- `while (n--) new (buf + n) T (t)`
    unfoldable pub fill_loop : ℕ → A → Slots A → Option (Slots A)
    fill_loop zero t buf = some buf
    fill_loop (suc n) t buf = new_at buf n t >>= fill_loop n t
