-- ===== src/Estl/Loops.antt =====
-- The loops over objects (src/estl.h), each as what it leaves in the buffer.
use libptytty.Base.{
  ℕ, zero, suc, ◌+◌, ◌≡◌, sym, ap, ◌∙◌, Bool, false, Option, none, some, List, [], ◌∷◌, ◌++◌, arith,
  length, replicate,
}
use libptytty.Estl.Slots.{
  Slots, raw, full, construct_loop, destruct_loop, copy_new_loop, copy_set_loop, set_loop,
}
use libptytty.Estl.Blocks.{
  AllFull, AllRaw, snoc, length-snoc, read-Splits, new_at-Splits, assign_at-Splits,
  destroy_slot-Splits,
}

module _ {ℓ} {A : Type ℓ} (simple : Bool) where
  -- The hole `hs` at position `i` is filled with `xs`.
  abbrev pub Fills : Slots A → ℕ → Slots A → Slots A → Slots A → Type ℓ
  Fills buf i pre hs post = (buf ≡ pre ++ (hs ++ post)) × (i ≡ length pre)

  next : (pre : Slots A) (x : Option A) (i : ℕ) → i ≡ length pre → i + 1 ≡ length (pre ++ (x ∷ []))
  next pre x i e = omega (arith, e, length-snoc pre x)

  pub construct_loop_lem :
      (d : A) (n i : ℕ) (buf pre hs post : Slots A)
      → Fills buf i pre hs post
      → n ≡ length hs
      → (simple ≡ false → AllRaw hs)
      → construct_loop simple d n i buf ≡ some (pre ++ (full (replicate n d) ++ post))
  unfolding construct_loop
  construct_loop_lem d zero i buf pre [] post (e, k) l h = ap some e
  construct_loop_lem d zero i buf pre (x ∷ hs) post f l h = absurd (omega arith)
  construct_loop_lem d (suc n) i buf pre [] post f l h = absurd (omega arith)
  construct_loop_lem d (suc n) i buf pre (x ∷ hs) post (e, k) l h =
      rw (new_at-Splits simple buf i pre x (hs ++ post) d (e, k) (λ s. (h s).0)) (
        construct_loop_lem d n (i + 1) _ (pre ++ (some d ∷ [])) hs post
          (snoc pre (hs ++ post) (some d), next pre (some d) i k) (omega (arith, l)) (λ s. (h s).1)
        ∙ ap some (sym (snoc pre (full (replicate n d) ++ post) (some d))))

  pub set_loop_lem :
      (t : A) (n i : ℕ) (buf pre hs post : Slots A)
      → Fills buf i pre hs post
      → n ≡ length hs
      → (simple ≡ false → AllFull hs)
      → set_loop simple n t i buf ≡ some (pre ++ (full (replicate n t) ++ post))
  unfolding set_loop
  set_loop_lem t zero i buf pre [] post (e, k) l h = ap some e
  set_loop_lem t zero i buf pre (x ∷ hs) post f l h = absurd (omega arith)
  set_loop_lem t (suc n) i buf pre [] post f l h = absurd (omega arith)
  set_loop_lem t (suc n) i buf pre (x ∷ hs) post (e, k) l h =
      rw (assign_at-Splits simple buf i pre x (hs ++ post) t (e, k) (λ s. (h s).0)) (
        set_loop_lem t n (i + 1) _ (pre ++ (some t ∷ [])) hs post
          (snoc pre (hs ++ post) (some t), next pre (some t) i k) (omega (arith, l)) (λ s. (h s).1)
        ∙ ap some (sym (snoc pre (full (replicate n t) ++ post) (some t))))

  pub copy_new_loop_lem :
      (ys : List A) (src : Slots A) (j : ℕ) (sp sq : Slots A) (i : ℕ) (buf pre hs post : Slots A)
      → Fills src j sp (full ys) sq
      → Fills buf i pre hs post
      → length ys ≡ length hs
      → (simple ≡ false → AllRaw hs)
      → copy_new_loop simple (length ys) src j i buf ≡ some (pre ++ (full ys ++ post))
  unfolding copy_new_loop
  copy_new_loop_lem [] src j sp sq i buf pre [] post s (e, k) l h = ap some e
  copy_new_loop_lem [] src j sp sq i buf pre (x ∷ hs) post s f l h = absurd (omega arith)
  copy_new_loop_lem (y ∷ ys) src j sp sq i buf pre [] post s f l h = absurd (omega arith)
  copy_new_loop_lem (y ∷ ys) src j sp sq i buf pre (x ∷ hs) post (se, sj) (e, k) l h =
      rw
        (
          read-Splits src j sp (some y) (full ys ++ sq) (se, sj),
          new_at-Splits simple buf i pre x (hs ++ post) y (e, k) (λ s. (h s).0),
        )
        (copy_new_loop_lem ys src (j + 1) (sp ++ (some y ∷ [])) sq (i + 1) _ (pre ++ (some y ∷ []))
            hs post (se ∙ snoc sp (full ys ++ sq) (some y), next sp (some y) j sj)
            (snoc pre (hs ++ post) (some y), next pre (some y) i k) (omega (arith, l))
            (λ s. (h s).1)
          ∙ ap some (sym (snoc pre (full ys ++ post) (some y))))

  pub copy_set_loop_lem :
      (ys : List A) (src : Slots A) (j : ℕ) (sp sq : Slots A) (i : ℕ) (buf pre hs post : Slots A)
      → Fills src j sp (full ys) sq
      → Fills buf i pre hs post
      → length ys ≡ length hs
      → (simple ≡ false → AllFull hs)
      → copy_set_loop simple (length ys) src j i buf ≡ some (pre ++ (full ys ++ post))
  unfolding copy_set_loop
  copy_set_loop_lem [] src j sp sq i buf pre [] post s (e, k) l h = ap some e
  copy_set_loop_lem [] src j sp sq i buf pre (x ∷ hs) post s f l h = absurd (omega arith)
  copy_set_loop_lem (y ∷ ys) src j sp sq i buf pre [] post s f l h = absurd (omega arith)
  copy_set_loop_lem (y ∷ ys) src j sp sq i buf pre (x ∷ hs) post (se, sj) (e, k) l h =
      rw
        (
          read-Splits src j sp (some y) (full ys ++ sq) (se, sj),
          assign_at-Splits simple buf i pre x (hs ++ post) y (e, k) (λ s. (h s).0),
        )
        (copy_set_loop_lem ys src (j + 1) (sp ++ (some y ∷ [])) sq (i + 1) _ (pre ++ (some y ∷ []))
            hs post (se ∙ snoc sp (full ys ++ sq) (some y), next sp (some y) j sj)
            (snoc pre (hs ++ post) (some y), next pre (some y) i k) (omega (arith, l))
            (λ s. (h s).1)
          ∙ ap some (sym (snoc pre (full ys ++ post) (some y))))

pub destruct_loop_lem {ℓ} :
    {A : Type ℓ} (n i : ℕ) (buf pre hs post : Slots A)
    → Fills false buf i pre hs post
    → n ≡ length hs
    → AllFull hs
    → destruct_loop false n i buf ≡ some (pre ++ (raw n ++ post))
unfolding destruct_loop
destruct_loop_lem zero i buf pre [] post (e, k) l h = ap some e
destruct_loop_lem zero i buf pre (x ∷ hs) post f l h = absurd (omega arith)
destruct_loop_lem (suc n) i buf pre [] post f l h = absurd (omega arith)
destruct_loop_lem (suc n) i buf pre (x ∷ hs) post (e, k) l h =
    rw (destroy_slot-Splits buf i pre x (hs ++ post) (e, k) h.0) (
      destruct_loop_lem n (i + 1) _ (pre ++ (none ∷ [])) hs post
        (snoc pre (hs ++ post) none, omega (arith, k, length-snoc {B = Option _} pre none))
        (omega (arith, l)) h.1
      ∙ ap some (sym (snoc pre (raw n ++ post) none)))
