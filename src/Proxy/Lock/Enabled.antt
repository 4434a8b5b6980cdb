-- ===== src/Proxy/Lock/Enabled.antt =====
-- Which call of `serve` or of a client can return at once (src/proxy.C).
use libptytty.Base.{
  ℕ, zero, suc, ◌≤◌, ◌≡◌, refl, ap, ◌∙◌, Bool, true, false, Option, some, List, [], ◌∷◌, arith,
  get_elem?, length, Bool-cases, is_some, inl, inr, ltb, ltb→lt,
}
use libptytty.Proxy.Server.Counts.{count}
use libptytty.Proxy.Lock.{
  HelperAt, gives, reads, handles, needs, ClientAt, idle, holds, waits, ends, System, Action,
  helper_moves, takes, writes, reads_answer, ends_turn, take_command, take_back, move_helper,
  take_token, write_command, read_answer, give_token, step,
}
use libptytty.Proxy.Lock.Laws.{in_turn, turns, is_giving, is_waiting, asked, handled, IsValid}
use libptytty.Proxy.Lock.Live.{fresh, newcomers, is_busy, IsLive, is_failure}

-- Some call returns at once, and neither throws nor goes on without its token.
abbrev pub CanMove : System → Type 0
CanMove s = (a : Action) × (is_failure a ≡ false) × (is_some (step a s) ≡ true)

abbrev Found : List ClientAt → (ClientAt → ℕ) → Type 0
Found ps f = (i : ℕ) × ((p : ClientAt) × ((get_elem? ps i ≡ some p) × (f p ≡ 1)))

Found-next : (q : ClientAt) (ps : List ClientAt) (f : ClientAt → ℕ) → Found ps f → Found (q ∷ ps) f
Found-next q ps f (i, (p, (e, h))) = (suc i, (p, (e, h)))

find_turn : (ps : List ClientAt) → 1 ≤ turns ps → Found ps in_turn
find_turn [] h = absurd (omega arith)
find_turn (idle ∷ ps) h = Found-next idle ps in_turn (find_turn ps (omega (arith, h)))
find_turn (holds ∷ ps) h = (0, (holds, (refl, refl)))
find_turn (waits ∷ ps) h = (0, (waits, (refl, refl)))
find_turn (ends ∷ ps) h = (0, (ends, (refl, refl)))

find_newcomer : (ps : List ClientAt) → 1 ≤ newcomers ps → Found ps fresh
find_newcomer [] h = absurd (omega arith)
find_newcomer (idle ∷ ps) h = Found-next idle ps fresh (find_newcomer ps (omega (arith, h)))
find_newcomer (holds ∷ ps) h = (0, (holds, (refl, refl)))
find_newcomer (waits ∷ ps) h = Found-next waits ps fresh (find_newcomer ps (omega (arith, h)))
find_newcomer (ends ∷ ps) h = Found-next ends ps fresh (find_newcomer ps (omega (arith, h)))

count_le : (k : ℕ) (r : List ℕ) → count k r ≤ length r
count_le k [] = omega arith
count_le k (j ∷ r) = ground (arith, count_le k r)

asked_le : (k : ℕ) (q : List (ℕ × Bool)) → asked k q ≤ length q
asked_le k [] = omega arith
asked_le k ((j, true) ∷ q) = ground (arith, asked_le k q)
asked_le k ((j, false) ∷ q) = omega (arith, asked_le k q)

module _ (s : System) where
  answer_enabled :
      (i : ℕ) (a : List ℕ) (p : Option ClientAt)
      → 1 ≤ length a
      → p ≡ some waits
      → is_some (read_answer s i ends a p) ≡ true
  unfolding read_answer
  answer_enabled i [] p h e = absurd (omega arith)
  answer_enabled i (j ∷ r) p h e = rw e refl

  helper_enabled : is_some (move_helper s s.helper) ≡ true → CanMove s
  unfolding step
  helper_enabled h = (helper_moves, refl, h)

  -- A client in a turn can go on, if it has its answer where it waits for one.
  turn_enabled :
      (i : ℕ) (p : ClientAt)
      → get_elem? s.clients i ≡ some p
      → in_turn p ≡ 1
      → (p ≡ waits → 1 ≤ length s.answers)
      → CanMove s
  unfolding step write_command give_token
  turn_enabled i idle at h a = absurd (omega (arith, h))
  turn_enabled i holds at h a =
      (writes i true, refl, ap (λ o. is_some (write_command s i true o)) at)
  turn_enabled i waits at h a =
      (reads_answer i, refl, answer_enabled i s.answers (get_elem? s.clients i) (a refl) at)
  turn_enabled i ends at h a = (ends_turn i, refl, ap (λ o. is_some (give_token s i o)) at)

  newcomer_enabled :
      (i : ℕ) (p : ClientAt) → get_elem? s.clients i ≡ some p → fresh p ≡ 1 → CanMove s
  unfolding step write_command
  newcomer_enabled i idle at h = absurd (omega (arith, h))
  newcomer_enabled i holds at h =
      (writes i true, refl, ap (λ o. is_some (write_command s i true o)) at)
  newcomer_enabled i waits at h = absurd (omega (arith, h))
  newcomer_enabled i ends at h = absurd (omega (arith, h))

  back_enabled : (n : ℕ) → 1 ≤ n → is_some (take_back s n) ≡ true
  unfolding take_back
  back_enabled zero h = absurd (omega arith)
  back_enabled (suc n) h = refl

  command_enabled : (q : List (ℕ × Bool)) → 1 ≤ length q → is_some (take_command s q) ≡ true
  unfolding take_command
  command_enabled [] h = absurd (omega arith)
  command_enabled ((i, b) ∷ q) h = refl

  token_enabled :
      (n : ℕ) (ps : List ClientAt)
      → 1 ≤ n
      → turns ps ≡ 0
      → 1 ≤ length ps
      → is_some (take_token s 0 n (get_elem? ps 0)) ≡ true
  unfolding take_token
  token_enabled zero ps h e m = absurd (omega arith)
  token_enabled (suc n) [] h e m = absurd (omega arith)
  token_enabled (suc n) (idle ∷ ps) h e m = refl
  token_enabled (suc n) (holds ∷ ps) h e m = absurd (omega (arith, e))
  token_enabled (suc n) (waits ∷ ps) h e m = absurd (omega (arith, e))
  token_enabled (suc n) (ends ∷ ps) h e m = absurd (omega (arith, e))

  module _ (v : IsLive s) (u : IsValid s) where
    -- In NEED_TOKEN the helper, or the client whose turn it is, can move.
    needs_enabled : s.helper ≡ needs → CanMove s
    unfolding move_helper
    needs_enabled h = elim (Bool-cases (ltb 0 s.to_helper)) [
      | inl there ↦
          helper_enabled
            (ap (λ x. is_some (move_helper s x)) h ∙ back_enabled s.to_helper (ltb→lt 0 _ there))
      | inr none_there ↦
          let nothing : s.to_helper ≡ 0 = ground (arith, none_there) in
          let (i, (p, (at, h'))) =
            find_turn s.clients
              (omega (arith, v.token, v.spent, nothing, ap is_giving h, ap is_busy h)) in
          turn_enabled i p at h' λ e. omega (
            arith,
            u.matched (omega (arith, v.token)) i,
            ap is_waiting (at ∙ ap some e),
            ap (handled i) h,
            ap is_busy h,
            v.spent,
            asked_le i s.commands,
            count_le i s.answers,
          )
    ]

    reads_enabled : s.helper ≡ reads → CanMove s
    unfolding step move_helper
    reads_enabled h = elim (Bool-cases (ltb 0 (length s.commands))) [
      | inl there ↦
          helper_enabled
            (ap (λ x. is_some (move_helper s x)) h ∙ command_enabled s.commands (ltb→lt 0 _ there))
      | inr none_there ↦ elim (Bool-cases (ltb 0 s.to_clients)) [
        | inl free ↦ (
          takes 0,
          refl,
          token_enabled s.to_clients s.clients (ltb→lt 0 _ free) (ground (arith, v.token, free))
              v.present,
        )
        | inr taken ↦
            let (i, (p, (at, h'))) =
              find_newcomer s.clients
                (ground (arith, none_there, taken, v.spent, ap is_giving h, ap is_busy h)) in
            newcomer_enabled i p at h'
      ]
    ]

    pub moves_from : (h : HelperAt) → s.helper ≡ h → CanMove s
    unfolding move_helper
    moves_from gives h = helper_enabled (ap (λ x. is_some (move_helper s x)) h)
    moves_from reads h = reads_enabled h
    moves_from (handles i true) h = helper_enabled (ap (λ x. is_some (move_helper s x)) h)
    moves_from (handles i false) h = helper_enabled (ap (λ x. is_some (move_helper s x)) h)
    moves_from needs h = needs_enabled h
