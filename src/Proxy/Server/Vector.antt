-- ===== src/Proxy/Server/Vector.antt =====
-- The vector `ptys` of `serve` (src/proxy.C) as the `simplevec` of src/estl.h that it is, and the
-- list that Proxy.Server has in its place.
use mathlib.Core.Option.{map}
use libptytty.Base.{
  ℕ, zero, suc, ◌+◌, ◌≡◌, ◌⊎◌, refl, ap, ◌∙◌, Bool, true, not, Option, none, some, List, [], ◌∷◌,
  ◌++◌, arith, length, ◌==◌, if◌then◌else◌, Bool-cases, inl, inr,
}
use libptytty.Estl.Slots.{Slots, ◌>>=◌, full, read}
use libptytty.Estl.Blocks.{snoc, length-snoc, read-Splits}
use libptytty.Estl.Vec.{Vec, Out, done, undefined, then_do, outside, push_back, erase_at}
use libptytty.Estl.Holds.{Holds}
use libptytty.Estl.Compare.{find_position}
use libptytty.Proxy.Server.Objects.{find, erase}

-- What `serve` does to `ptys` for a command: the end of `get_pty`, and `destroy`.
pub data Change : Type 0 where
  keeps : ℕ → Change
  drops : ℕ → Change

module _ (ld32 : ℕ → ℕ) (alloc : ℕ → Bool) where
  unfoldable pub drop_found : Option ℕ → Vec ℕ → Out (Vec ℕ)
  drop_found none v = undefined
  drop_found (some i) v = if not (i == v.sze) then erase_at true ld32 alloc 0 i v else done v

  unfoldable pub change : Change → Vec ℕ → Out (Vec ℕ)
  change (keeps id) v = push_back true ld32 alloc 0 (outside id) v
  change (drops id) v = drop_found (find_position ◌==◌ id v.sze 0 v.buf) v

  unfoldable pub changes : List Change → Vec ℕ → Out (Vec ℕ)
  changes [] v = done v
  changes (c ∷ cs) v = then_do (change c v) (changes cs)

-- `for (i = ptys.end (); i-- > ptys.begin (); ) delete *i`: what is deleted, in this order.
unfoldable pub deletes : ℕ → Slots ℕ → Option (List ℕ)
deletes zero buf = some []
deletes (suc i) buf =
    let rest = deletes i buf in read buf i >>= λ id. rest >>= λ ids. some (id ∷ ids)

-- The same on the lists of Proxy.Server.
abbrev pub drop_listed : Option ℕ → List ℕ → List ℕ
drop_listed none ids = ids
drop_listed (some i) ids = erase i ids

abbrev pub change_list : Change → List ℕ → List ℕ
change_list (keeps id) ids = ids ++ (id ∷ [])
change_list (drops id) ids = drop_listed (find id ids) ids

abbrev pub changes_list : List Change → List ℕ → List ℕ
changes_list [] ids = ids
changes_list (c ∷ cs) ids = changes_list cs (change_list c ids)

-- Where `find` finds nothing it gives the end.
abbrev pub position : ℕ → Option ℕ → ℕ
position end none = end
position end (some i) = i

position-suc :
    (i end : ℕ) (o : Option ℕ) → i + 1 + position end o ≡ i + position (suc end) (map suc o)
position-suc i end none = omega arith
position-suc i end (some j) = omega arith

find_position-from :
    (k : ℕ) (xs : List ℕ) (i : ℕ) (buf pre r : Slots ℕ)
    → buf ≡ pre ++ (full xs ++ r)
    → i ≡ length pre
    → find_position ◌==◌ k (length xs) i buf ≡ some (i + position (length xs) (find k xs))
unfolding find_position find
find_position-from k [] i buf pre r e l = ap some (omega arith)
find_position-from k (x ∷ xs) i buf pre r e l =
    let rest =
      find_position-from k xs (i + 1) buf (pre ++ (some x ∷ [])) r
        (e ∙ snoc pre (full xs ++ r) (some x)) (omega (arith, l, length-snoc pre (some x))) in
    rw (read-Splits buf i pre (some x) (full xs ++ r) (e, l), rest)
      (elim (Bool-cases (x == k)) [
        | inl a ↦ rw a (ap some (omega arith))
        | inr a ↦ rw a (ap some (position-suc i (length xs) (find k xs)))
      ])

pub find_position-Holds :
    (simple : Bool) (k : ℕ) (v : Vec ℕ) (xs : List ℕ)
    → Holds simple v xs
    → find_position ◌==◌ k v.sze 0 v.buf ≡ some (position (length xs) (find k xs))
find_position-Holds simple k v xs h =
    ap (λ n. find_position ◌==◌ k n 0 v.buf) h.size
    ∙ find_position-from k xs 0 v.buf [] h.rest h.objects refl
    ∙ ap some (omega arith)

-- `find` and `erase` on a list in parts.
abbrev pub Listed : ℕ → List ℕ → Type 0
Listed k xs =
    (before : List ℕ) × ((after : List ℕ) × ((xs ≡ before ++ (k ∷ after))
        × (find k xs ≡ some (length before))))

pub find-cases : (k : ℕ) (xs : List ℕ) → (find k xs ≡ none) ⊎ Listed k xs
unfolding find
find-cases k [] = inl refl
find-cases k (x ∷ xs) = elim (Bool-cases (x == k)) [
  | inl a ↦ let e : x ≡ k = ground (arith, a) in inr ([], (xs, (ap (λ z. z ∷ xs) e, rw a refl)))
  | inr a ↦ elim (find-cases k xs) [
    | inl n ↦ inl (rw (a, n) refl)
    | inr (before, (after, (e, f))) ↦ inr (x ∷ before, (after, (ap (◌∷◌ x) e, rw (a, f) refl)))
  ]
]

pub erase-append :
    (before after : List ℕ) (k : ℕ)
    → erase (length before) (before ++ (k ∷ after)) ≡ before ++ after
unfolding erase
erase-append [] after k = refl
erase-append (x ∷ before) after k = ap (◌∷◌ x) (erase-append before after k)
