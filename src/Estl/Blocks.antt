-- ===== src/Estl/Blocks.antt =====
-- Buffers in parts (src/estl.h): what an access and a block copy do to `pre ++ (hole ++ post)`.
use libptytty.Base.{
  ℕ, zero, suc, ◌+◌, ◌≡◌, refl, ap, ◌∙◌, Bool, true, false, Option, none, some, List, [], ◌∷◌, ◌++◌,
  length, take, drop, length-append, is_some,
}
use libptytty.Estl.Slots.{
  Slots, raw, full, read, set_slot, is_full, new_at, assign_at, destroy_slot,
}

-- One slot goes over to the part before.
pub snoc {ℓ} :
    {B : Type ℓ} (pre post : List B) (x : B) → pre ++ (x ∷ post) ≡ (pre ++ (x ∷ [])) ++ post
snoc [] post x = refl
snoc (y ∷ pre) post x = ap (◌∷◌ y) (snoc pre post x)

pub length-snoc {ℓ} :
    {B : Type ℓ} (pre : List B) (x : B) → length (pre ++ (x ∷ [])) ≡ length pre + 1
length-snoc pre x = length-append pre (x ∷ [])

module _ {ℓ} {A : Type ℓ} where
  -- Each slot holds an object, or none does.
  abbrev pub AllFull : Slots A → Type 0
  AllFull [] = Unit {0}
  AllFull (x ∷ s) = (is_some x ≡ true) × AllFull s

  abbrev pub AllRaw : Slots A → Type 0
  AllRaw [] = Unit {0}
  AllRaw (x ∷ s) = (is_some x ≡ false) × AllRaw s

  pub full-AllFull : (xs : List A) → AllFull (full xs)
  full-AllFull [] = tt
  full-AllFull (x ∷ xs) = (refl, full-AllFull xs)

  pub AllRaw-eq-raw : (s : Slots A) → AllRaw s → s ≡ raw (length s)
  AllRaw-eq-raw [] h = refl
  AllRaw-eq-raw (none ∷ s) h = ap (◌∷◌ none) (AllRaw-eq-raw s h.1)
  AllRaw-eq-raw (some x ∷ s) h = cc (h.0)

  pub AllFull-append : (s t : Slots A) → AllFull s → AllFull t → AllFull (s ++ t)
  AllFull-append [] t h k = k
  AllFull-append (x ∷ s) t h k = (h.0, AllFull-append s t h.1 k)

  pub AllRaw-append : (s t : Slots A) → AllRaw s → AllRaw t → AllRaw (s ++ t)
  AllRaw-append [] t h k = k
  AllRaw-append (x ∷ s) t h k = (h.0, AllRaw-append s t h.1 k)

  pub AllFull-take : (n : ℕ) (s : Slots A) → AllFull s → AllFull (take n s)
  AllFull-take zero s h = tt
  AllFull-take (suc n) [] h = tt
  AllFull-take (suc n) (x ∷ s) h = (h.0, AllFull-take n s h.1)

  pub AllFull-drop : (n : ℕ) (s : Slots A) → AllFull s → AllFull (drop n s)
  AllFull-drop zero s h = h
  AllFull-drop (suc n) [] h = tt
  AllFull-drop (suc n) (x ∷ s) h = AllFull-drop n s h.1

  pub AllRaw-drop : (n : ℕ) (s : Slots A) → AllRaw s → AllRaw (drop n s)
  AllRaw-drop zero s h = h
  AllRaw-drop (suc n) [] h = tt
  AllRaw-drop (suc n) (x ∷ s) h = AllRaw-drop n s h.1

  pub AllRaw-take : (n : ℕ) (s : Slots A) → AllRaw s → AllRaw (take n s)
  AllRaw-take zero s h = tt
  AllRaw-take (suc n) [] h = tt
  AllRaw-take (suc n) (x ∷ s) h = (h.0, AllRaw-take n s h.1)

  pub length-full : (xs : List A) → length (full xs) ≡ length xs
  length-full [] = refl
  length-full (x ∷ xs) = ap suc (length-full xs)

  pub full-append : (xs ys : List A) → full (xs ++ ys) ≡ full xs ++ full ys
  full-append [] ys = refl
  full-append (x ∷ xs) ys = ap (◌∷◌ (some x)) (full-append xs ys)

  read-append : (pre post : Slots A) (x : Option A) → read (pre ++ (x ∷ post)) (length pre) ≡ x
  unfolding read
  read-append [] post x = refl
  read-append (y ∷ pre) post x = read-append pre post x

  set_slot-append :
      (pre post : Slots A) (x y : Option A)
      → set_slot (pre ++ (x ∷ post)) (length pre) y ≡ some (pre ++ (y ∷ post))
  unfolding set_slot
  set_slot-append [] post x y = refl
  set_slot-append (z ∷ pre) post x y = rw (set_slot-append pre post x y) refl

  is_full-append :
      (pre post : Slots A) (x : Option A) → is_full (pre ++ (x ∷ post)) (length pre) ≡ is_some x
  unfolding is_full
  is_full-append [] post none = refl
  is_full-append [] post (some x) = refl
  is_full-append (none ∷ pre) post x = is_full-append pre post x
  is_full-append (some y ∷ pre) post x = is_full-append pre post x

  -- A buffer with slot `x` at position `i`.
  abbrev pub Splits : Slots A → ℕ → Slots A → Option A → Slots A → Type ℓ
  Splits buf i pre x post = (buf ≡ pre ++ (x ∷ post)) × (i ≡ length pre)

  pub read-Splits :
      (buf : Slots A) (i : ℕ) (pre : Slots A) (x : Option A) (post : Slots A)
      → Splits buf i pre x post
      → read buf i ≡ x
  read-Splits buf i pre x post (e, k) = rw (e, k) (read-append pre post x)

  set_slot-Splits :
      (buf : Slots A) (i : ℕ) (pre : Slots A) (x : Option A) (post : Slots A) (y : Option A)
      → Splits buf i pre x post
      → set_slot buf i y ≡ some (pre ++ (y ∷ post))
  set_slot-Splits buf i pre x post y (e, k) = rw (e, k) (set_slot-append pre post x y)

  is_full-Splits :
      (buf : Slots A) (i : ℕ) (pre : Slots A) (x : Option A) (post : Slots A)
      → Splits buf i pre x post
      → is_full buf i ≡ is_some x
  is_full-Splits buf i pre x post (e, k) = rw (e, k) (is_full-append pre post x)

  pub new_at-Splits :
      (simple : Bool) (buf : Slots A) (i : ℕ) (pre : Slots A) (x : Option A) (post : Slots A)
      (a : A)
      → Splits buf i pre x post
      → (simple ≡ false → is_some x ≡ false)
      → new_at simple buf i a ≡ some (pre ++ (some a ∷ post))
  unfolding new_at
  new_at-Splits true buf i pre x post a s h = set_slot-Splits buf i pre x post (some a) s
  new_at-Splits false buf i pre x post a s h =
      rw (is_full-Splits buf i pre x post s ∙ h refl) (set_slot-Splits buf i pre x post (some a) s)

  pub assign_at-Splits :
      (simple : Bool) (buf : Slots A) (i : ℕ) (pre : Slots A) (x : Option A) (post : Slots A)
      (a : A)
      → Splits buf i pre x post
      → (simple ≡ false → is_some x ≡ true)
      → assign_at simple buf i a ≡ some (pre ++ (some a ∷ post))
  unfolding assign_at
  assign_at-Splits true buf i pre x post a s h = set_slot-Splits buf i pre x post (some a) s
  assign_at-Splits false buf i pre x post a s h =
      rw (is_full-Splits buf i pre x post s ∙ h refl) (set_slot-Splits buf i pre x post (some a) s)

  pub destroy_slot-Splits :
      (buf : Slots A) (i : ℕ) (pre : Slots A) (x : Option A) (post : Slots A)
      → Splits buf i pre x post
      → is_some x ≡ true
      → destroy_slot false buf i ≡ some (pre ++ (none ∷ post))
  unfolding destroy_slot
  destroy_slot-Splits buf i pre x post s h =
      rw (is_full-Splits buf i pre x post s ∙ h) (set_slot-Splits buf i pre x post none s)

pub raw-AllRaw {ℓ} : (A : Type ℓ) (n : ℕ) → AllRaw {A = A} (raw n)
raw-AllRaw A zero = tt
raw-AllRaw A (suc n) = (refl, raw-AllRaw A n)
