-- ===== src/Session/WtmpLaws.antt =====
-- The lock and the descriptor of `updwtmp` (src/logging.C).
use libptytty.Base.{
  ℕ, zero, suc, ◌+◌, ◌≤◌, ◌≡◌, ℤ, Bool, true, false, Option, none, some, ◌∷◌, arith, if◌then◌else◌,
  is_neg,
}
use libptytty.Sys.{
  Os, Utmp, LockError, eagain, eacces, other, Event, Trace, tried_lock, released_lock, appended,
  truncated, opened_db, emit, ◌>>◌, wtmp_file, wronly_append, M, pure,
}
use libptytty.Sys.Count.{count}
use libptytty.Sys.Returns.{Returns, mono, bind, branch}
use libptytty.Session.Wtmp.{
  after_attempt, try_lock, append_record, append_sized, append_locked, updwtmp,
}

-- The locks taken and released, the attempts made, and the records cut short and cut off again.
abbrev pub is_taken : Event → ℕ
is_taken (tried_lock fd none) = 1
is_taken _ = 0

abbrev pub is_released : Event → ℕ
is_released (released_lock fd) = 1
is_released _ = 0

abbrev pub is_attempt : Event → ℕ
is_attempt (tried_lock fd e) = 1
is_attempt _ = 0

abbrev pub is_partial : Event → ℕ
is_partial (appended fd ut false) = 1
is_partial _ = 0

abbrev pub is_cut : Event → ℕ
is_cut (truncated fd size) = 1
is_cut _ = 0

-- `n` more locks are held, after at most `k` attempts.
abbrev Tried : ℕ → Trace → Bool → Trace → Type 0
Tried k w b v =
    (count is_taken v ≡ count is_taken w + (if b then 1 else 0))
    × (count is_attempt v ≤ count is_attempt w + k)
    × (count is_released v ≡ count is_released w)
    × (count is_partial v ≡ count is_partial w)
    × (count is_cut v ≡ count is_cut w)

module _ (os : Os) where
  after_attempt-Tried :
      (k : ℕ) (fd : ℤ) (e : Option LockError) (again : M Bool) (w : Trace)
      → Returns (Tried k (tried_lock fd e ∷ w)) (again (tried_lock fd e ∷ w))
      → Returns (Tried (suc k) w) (after_attempt os e again (tried_lock fd e ∷ w))
  unfolding after_attempt count
  after_attempt-Tried k fd none again w h = omega arith
  after_attempt-Tried k fd (some eagain) again w h =
      mono (Tried k (tried_lock fd (some eagain) ∷ w)) (Tried (suc k) w) (again _) h
        λ b v p. omega (arith, p)
  after_attempt-Tried k fd (some eacces) again w h =
      mono (Tried k (tried_lock fd (some eacces) ∷ w)) (Tried (suc k) w) (again _) h
        λ b v p. omega (arith, p)
  after_attempt-Tried k fd (some other) again w h = omega arith

  try_lock-Tried : (k : ℕ) (fd : ℤ) (w : Trace) → Returns (Tried k w) (try_lock os k fd w)
  unfolding try_lock
  try_lock-Tried zero fd w = omega arith
  try_lock-Tried (suc k) fd w =
      after_attempt-Tried k fd (os.setlk w fd) (try_lock os k fd) w (try_lock-Tried k fd _)

  abbrev Appended : Trace → Unit {0} → Trace → Type 0
  Appended w _ v =
      (count is_taken v ≡ count is_taken w)
      × (count is_attempt v ≡ count is_attempt w)
      × (count is_released v ≡ count is_released w)
      × (count is_partial v + count is_cut w ≡ count is_partial w + count is_cut v)

  append_record-lem :
      (fd : ℤ) (ut : Utmp) (w : Trace) → Returns (Appended w) (append_record os fd ut w)
  unfolding append_record append_sized count
  append_record-lem fd ut w = ground arith

  -- What one `updwtmp` adds to a trace: at most ten attempts, each lock released, and each record
  -- that was not written whole cut off again.
  abbrev pub Clean : Trace → Unit {0} → Trace → Type 0
  Clean w _ v =
      (count is_attempt v ≤ count is_attempt w + 10)
      × (count is_taken v + count is_released w ≡ count is_taken w + count is_released v)
      × (count is_partial v + count is_cut w ≡ count is_partial w + count is_cut v)

  locked-Clean :
      (gotlock : Bool) (fd : ℤ) (ut : Utmp) (w u : Trace)
      → Tried 10 w gotlock u
      → Returns
          (Clean w)
          ((if gotlock then append_record os fd ut >> emit (released_lock fd) else pure tt) u)
  unfolding count
  locked-Clean false fd ut w u p = omega (arith, p)
  locked-Clean true fd ut w u p =
      bind (Appended u) (Returns (Clean w)) (append_record os fd ut u) _ (append_record-lem fd ut u)
        λ _ v q. omega (arith, p, q)

  append_locked-Clean :
      (ut : Utmp) (fd : ℤ) (w : Trace) → Returns (Clean w) (append_locked os ut fd w)
  unfolding append_locked
  append_locked-Clean ut fd w =
      bind (Tried 10 w) (Returns (Clean w)) (try_lock os 10 fd w) _ (try_lock-Tried 10 fd w)
        λ gotlock u p. locked-Clean gotlock fd ut w u p

  -- Whatever the system answers, `updwtmp` returns after at most ten attempts at the lock; it
  -- releases the lock as often as it was granted, and cuts the file off as often as a record was
  -- not written whole.
  pub updwtmp-Clean : (ut : Utmp) (w : Trace) → Returns (Clean w) (updwtmp os ut w)
  unfolding updwtmp count
  updwtmp-Clean ut w =
      let fd = os.open_db w wtmp_file wronly_append in
      let v = opened_db wtmp_file wronly_append fd ∷ w in
      branch (Returns (Clean w)) (is_neg fd) _ _ v (λ _. omega arith)
        λ _.
          bind (Clean v) (Returns (Clean w)) (append_locked os ut fd v) _
            (append_locked-Clean ut fd v) λ _ t q. omega (arith, q)
