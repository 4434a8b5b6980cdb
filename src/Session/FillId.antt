-- ===== src/Session/FillId.antt =====
-- `fill_id` (src/logging.C): the end of the line, as a field of fixed size.
use libptytty.Base.{
  ℕ, zero, suc, ◌-◌, ◌≤◌, ◌≡◌, refl, ap, ◌∙◌, inl, inr, Bytes, [], ◌∷◌, ◌++◌, arith, length, drop,
  length-drop, replicate, strncpy, ltb, ltb→lt, ◌<◌, Bool-cases,
}
use libptytty.Session.Records.{fill_id}

strncpy-fits : (s : Bytes) (n : ℕ) → length s ≤ n → strncpy s n ≡ s ++ replicate (n - length s) 0
unfolding strncpy
strncpy-fits [] zero h = refl
strncpy-fits [] (suc n) h =
    let e : suc n - 0 ≡ suc (n - 0) = omega arith in
    rw e (ap (◌∷◌ 0) (strncpy-fits [] n (omega arith)))
strncpy-fits (c ∷ s) zero h = absurd (omega arith)
strncpy-fits (c ∷ s) (suc n) h =
    let e : suc n - suc (length s) ≡ n - length s = omega arith in
    rw e (ap (◌∷◌ c) (strncpy-fits s n (omega arith)))

-- `fill_id` gives the last `n` bytes of the line, filled up with zeros where it is shorter.
pub fill_id_lem :
    (line : Bytes) (n : ℕ)
    → fill_id line n ≡ drop (length line - n) line ++ replicate (n - length line) 0
unfolding fill_id
fill_id_lem line n = elim (Bool-cases (ltb n (length line))) [
  | inl long ↦
      let cut = length-drop (length line - n) line in
      let less : n < length line = ltb→lt n (length line) long in
      rw long (
        strncpy-fits (drop (length line - n) line) n (omega (arith, cut))
        ∙ ap (λ k. drop (length line - n) line ++ replicate k 0) (omega (arith, cut)))
  | inr short ↦
      let whole : length line - n ≡ 0 = ground (arith, short) in
      rw (short, whole) (strncpy-fits line n (ground (arith, short)))
]
