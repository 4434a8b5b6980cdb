-- ===== src/Proxy/Server/Laws.antt =====
-- The objects of the helper, their addresses in the vector `ptys`, and the descriptors they hold.
use libptytty.Base.{
  ℕ, suc, ◌+◌, ◌≡◌, refl, sym, ap, subst, ◌∙◌, inl, inr, none, some, [], ◌∷◌, ◌++◌, arith, ◌==◌,
  is_some, Bool-cases, Option-cases,
}
use mathlib.Core.Option
use mathlib.Core.Option.{some-injective}
use libptytty.Unix.{Unix}
use libptytty.Unix.Put.{owned, HasSlot}
use libptytty.Config.{Config}
use libptytty.Session.Lifecycle.{IsSound}
use libptytty.Proxy.Server.Objects.{Heap, lookup, add, store, free, find, erase, keys}

pub is_some-find : (k : ℕ) (h : Heap) → is_some (find k (keys h)) ≡ is_some (lookup k h)
unfolding find lookup
is_some-find k [] = refl
is_some-find k ((j, o) ∷ h) = ground (arith, is_some-find k h)

pub erase-keys :
    (k : ℕ) (h : Heap) (i : ℕ) → find k (keys h) ≡ some i → erase i (keys h) ≡ keys (free k h)
unfolding find erase free
erase-keys k [] i e = refl
erase-keys k ((j, o) ∷ h) i e = elim (Bool-cases (j == k)) [
  | inl hit ↦
      let first : some 0 ≡ some i = rw hit at e in
      rw hit (ap (λ p. erase p (j ∷ keys h)) (sym (some-injective _ _ first)))
  | inr miss ↦
      let later : Option.map suc (find k (keys h)) ≡ some i = rw miss at e in
      elim (Option-cases (find k (keys h))) [
        | inl absent ↦ let gone : none ≡ some i = rw absent at later in cc
        | inr (m, there) ↦
            let next : some (suc m) ≡ some i = rw there at later in
            rw miss (
              ap (λ p. erase p (j ∷ keys h)) (sym (some-injective _ _ next))
              ∙ ap (◌∷◌ j) (erase-keys k h m there))
      ]
]

pub keys-store : (k : ℕ) (o : Unix) (h : Heap) → keys (store k o h) ≡ keys h
unfolding store
keys-store k o [] = refl
keys-store k o ((j, p) ∷ h) = ground (arith, keys-store k o h)

pub keys-add : (k : ℕ) (o : Unix) (h : Heap) → keys (add k o h) ≡ keys h ++ (k ∷ [])
unfolding add
keys-add k o [] = refl
keys-add k o ((j, p) ∷ h) = ap (◌∷◌ j) (keys-add k o h)

abbrev pub held : ℕ → Heap → ℕ
held n [] = 0
held n ((k, o) ∷ h) = owned n o + held n h

pub held-free :
    (n k : ℕ) (h : Heap) (o : Unix) → lookup k h ≡ some o → held n h ≡ owned n o + held n (free k h)
unfolding lookup free
held-free n k [] o e = cc
held-free n k ((j, p) ∷ h) o e = ground (arith, held-free n k h o)

pub held-store :
    (n k : ℕ) (h : Heap) (o o' : Unix)
    → lookup k h ≡ some o
    → held n (store k o' h) + owned n o ≡ held n h + owned n o'
unfolding lookup store
held-store n k [] o o' e = cc
held-store n k ((j, p) ∷ h) o o' e = ground (arith, held-store n k h o o')

pub held-add : (n k : ℕ) (o : Unix) (h : Heap) → held n (add k o h) ≡ held n h + owned n o
unfolding add
held-add n k o [] = omega arith
held-add n k o ((j, p) ∷ h) = omega (arith, held-add n k o h)

-- Every object can be logged in and out.
abbrev pub AllSound : Config → Heap → Type 0
AllSound c [] = Unit {0}
AllSound c ((k, o) ∷ h) = HasSlot c.utmp_support o × IsSound c o × AllSound c h

module _ (c : Config) where
  pub AllSound-lookup :
      (k : ℕ) (h : Heap) (o : Unix)
      → lookup k h ≡ some o
      → AllSound c h
      → HasSlot c.utmp_support o × IsSound c o
  unfolding lookup
  AllSound-lookup k [] o e a = cc
  AllSound-lookup k ((j, p) ∷ h) o e (slot, sound, rest) = elim (Bool-cases (j == k)) [
    | inl hit ↦
        let same : some p ≡ some o = rw hit at e in
        subst (λ x. HasSlot c.utmp_support x × IsSound c x) (some-injective _ _ same) (slot, sound)
    | inr miss ↦ AllSound-lookup k h o (rw miss at e) rest
  ]

  pub AllSound-free : (k : ℕ) (h : Heap) → AllSound c h → AllSound c (free k h)
  unfolding free
  AllSound-free k [] a = tt
  AllSound-free k ((j, p) ∷ h) (slot, sound, rest) = elim (Bool-cases (j == k)) [
    | inl hit ↦ rw hit rest
    | inr miss ↦ rw miss (slot, sound, AllSound-free k h rest)
  ]

  pub AllSound-store :
      (k : ℕ) (o : Unix) (h : Heap)
      → HasSlot c.utmp_support o
      → IsSound c o
      → AllSound c h
      → AllSound c (store k o h)
  unfolding store
  AllSound-store k o [] s s' a = tt
  AllSound-store k o ((j, p) ∷ h) s s' (slot, sound, rest) = elim (Bool-cases (j == k)) [
    | inl hit ↦ rw hit (s, s', rest)
    | inr miss ↦ rw miss (slot, sound, AllSound-store k o h s s' rest)
  ]

  pub AllSound-add :
      (k : ℕ) (o : Unix) (h : Heap)
      → HasSlot c.utmp_support o
      → IsSound c o
      → AllSound c h
      → AllSound c (add k o h)
  unfolding add
  AllSound-add k o [] s s' a = (s, s', tt)
  AllSound-add k o ((j, p) ∷ h) s s' (slot, sound, rest) =
      (slot, sound, AllSound-add k o h s s' rest)
