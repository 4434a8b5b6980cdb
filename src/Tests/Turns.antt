-- ===== src/Tests/Turns.antt =====
-- Runs of two clients on the helper's lock.
use libptytty.Base.{◌≡◌, refl, true, false, none, some, is_some, List, [], ◌∷◌, replicate, arith}
use libptytty.Proxy.Lock.{
  Action, helper_moves, takes, writes, reads_answer, ends_turn, fails, goes_on, reads, holds, needs,
  idle, System, step, steps, start, move_helper, take_command, take_back, take_token, write_command,
  read_answer, give_token, go_on,
}
use libptytty.Proxy.Lock.Laws.{After}
use libptytty.Proxy.Lock.Enabled.{CanMove}
use libptytty.Proxy.Lock.Progress.{steps-CanMove}
use libptytty.Proxy.Lock.Turns.{Serialised, steps-Serialised}

-- Client 1 gets a terminal, then client 0 logs in.
abbrev two_turns : List Action
two_turns =
    helper_moves
    ∷ takes 1
    ∷ writes 1 true
    ∷ helper_moves
    ∷ helper_moves
    ∷ reads_answer 1
    ∷ ends_turn 1
    ∷ helper_moves
    ∷ helper_moves
    ∷ takes 0
    ∷ writes 0 false
    ∷ ends_turn 0
    ∷ helper_moves
    ∷ []

two_turns_enabled : is_some (steps two_turns (start (replicate 2 idle))) ≡ true
unfolding steps step start move_helper take_command take_back take_token write_command read_answer
    give_token
two_turns_enabled = refl

steps-Serialised_example : After Serialised (steps two_turns (start (replicate 2 idle)))
steps-Serialised_example = steps-Serialised 2 two_turns refl

-- Client 1 has the token, and a signal interrupts client 0 in NEED_TOKEN: both are in a turn.
abbrev interrupted : List Action
interrupted = helper_moves ∷ takes 1 ∷ goes_on 0 ∷ []

abbrev both_in_turn : System
both_in_turn = record {
  to_clients = 0;
  to_helper = 0;
  helper = reads;
  clients = holds ∷ holds ∷ [];
  commands = [];
  answers = [];
}

reaches_both_in_turn : steps interrupted (start (replicate 2 idle)) ≡ some both_in_turn
unfolding steps step start move_helper take_token go_on
reaches_both_in_turn = refl

both_in_turn-unserialised : ¬ Serialised both_in_turn
both_in_turn-unserialised (alone, _) =
    let e : 0 ≡ 1 = alone 0 1 (omega arith) (omega arith) in absurd (omega (arith, e))

-- Client 1 throws, with the token in hand.
abbrev failed_turn : List Action
failed_turn = helper_moves ∷ takes 1 ∷ writes 1 true ∷ helper_moves ∷ helper_moves ∷ fails 1 ∷ []

abbrev stuck : System
stuck = record {
  to_clients = 0;
  to_helper = 0;
  helper = needs;
  clients = replicate 2 idle;
  commands = [];
  answers = [];
}

reaches_standstill : steps failed_turn (start (replicate 2 idle)) ≡ some stuck
unfolding steps step start move_helper take_command take_back take_token write_command read_answer
    give_token
reaches_standstill = refl

-- Then the helper and the other client wait for ever.
both_blocked : (step helper_moves stuck ≡ none) × (step (takes 0) stuck ≡ none)
unfolding step move_helper take_back take_token
both_blocked = (refl, refl)

steps-CanMove_example : After CanMove (steps two_turns (start (replicate 2 idle)))
steps-CanMove_example = steps-CanMove 1 two_turns refl
