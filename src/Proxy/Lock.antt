-- ===== src/Proxy/Lock.antt =====
-- NEED_TOKEN and GIVE_TOKEN of src/proxy.C with several clients: the calls of clients and of
-- `serve` on the two sockets, one at a time and in any order. The bytes that one end of the lock's
-- socket pair writes are read at the other end, so each direction is a count of bytes.
pub mod Laws
pub mod Steps
pub mod Turns
pub mod Live
pub mod Enabled
pub mod Progress
use libptytty.Base.{
  ℕ, zero, suc, ◌+◌, ◌≡◌, Bool, true, false, Option, none, some, List, [], ◌∷◌, ◌++◌, get_elem?,
  set,
}

-- Where `serve` stands: before GIVE_TOKEN, in `read`, at the command of a client, true for one
-- with an answer, and in NEED_TOKEN.
pub data HelperAt : Type 0 where
  gives : HelperAt
  reads : HelperAt
  handles : ℕ → Bool → HelperAt
  needs : HelperAt

-- Where a client stands: outside of any call, or within one behind NEED_TOKEN, in `read` of the
-- answer of a `get`, and before GIVE_TOKEN.
pub data ClientAt : Type 0 where
  idle holds waits ends : ClientAt

pub record System : Type 0 where
  -- bytes on their way on the lock's sockets
  pub to_clients : ℕ
  pub to_helper : ℕ
  pub helper : HelperAt
  pub clients : List ClientAt
  -- commands and answers on their way, with the client that sent the command; the client is not
  -- part of the message, and no step looks at it
  pub commands : List (ℕ × Bool)
  pub answers : List ℕ

pub data Action : Type 0 where
  -- `serve` makes its next call
  helper_moves : Action
  -- client `i` returns from NEED_TOKEN with the byte, writes its command, reads an answer, calls
  -- GIVE_TOKEN, or throws as it reads the descriptors behind an answer
  takes : ℕ → Action
  writes : ℕ → Bool → Action
  reads_answer : ℕ → Action
  ends_turn : ℕ → Action
  fails : ℕ → Action
  -- it throws as `read` does not give it its answer, which stays where it is
  fails_early : ℕ → Action
  -- NEED_TOKEN does not look at the result of `read`: the client, or `serve`, goes on without a
  -- byte where the call is interrupted or fails
  goes_on : ℕ → Action
  helper_goes_on : Action

-- `none` where the call blocks.
unfoldable pub take_command : System → List (ℕ × Bool) → Option System
take_command s [] = none
take_command s ((i, answered) ∷ q) = some (record s { helper = handles i answered; commands = q })

unfoldable pub take_back : System → ℕ → Option System
take_back s zero = none
take_back s (suc k) = some (record s { to_helper = k; helper = gives })

unfoldable pub move_helper : System → HelperAt → Option System
move_helper s gives = some (record s { to_clients = s.to_clients + 1; helper = reads })
move_helper s reads = take_command s s.commands
move_helper s (handles i true) = some (record s { helper = needs; answers = s.answers ++ (i ∷ []) })
move_helper s (handles i false) = some (record s { helper = needs })
move_helper s needs = take_back s s.to_helper

unfoldable pub take_token : System → ℕ → ℕ → Option ClientAt → Option System
take_token s i (suc k) (some idle) =
    some (record s { to_clients = k; clients = set s.clients i holds })
take_token s i _ _ = none

-- Behind a `read` of NEED_TOKEN that gave no byte.
unfoldable pub go_on : System → ℕ → Option ClientAt → Option System
go_on s i (some idle) = some (record s { clients = set s.clients i holds })
go_on s i _ = none

unfoldable pub go_on_helper : System → HelperAt → Option System
go_on_helper s needs = some (record s { helper = gives })
go_on_helper s _ = none

unfoldable pub write_command : System → ℕ → Bool → Option ClientAt → Option System
write_command s i true (some holds) =
    some (record s { commands = s.commands ++ ((i, true) ∷ []); clients = set s.clients i waits })
write_command s i false (some holds) =
    some (record s { commands = s.commands ++ ((i, false) ∷ []); clients = set s.clients i ends })
write_command s i _ _ = none

-- A client reads the answer that is first, for whomever it is.
unfoldable pub read_answer : System → ℕ → ClientAt → List ℕ → Option ClientAt → Option System
read_answer s i next (j ∷ r) (some waits) =
    some (record s { answers = r; clients = set s.clients i next })
read_answer s i next _ _ = none

-- The exception behind a short `read` of the answer.
unfoldable pub miss_answer : System → ℕ → Option ClientAt → Option System
miss_answer s i (some waits) = some (record s { clients = set s.clients i idle })
miss_answer s i _ = none

unfoldable pub give_token : System → ℕ → Option ClientAt → Option System
give_token s i (some ends) =
    some (record s { to_helper = s.to_helper + 1; clients = set s.clients i idle })
give_token s i _ = none

unfoldable pub step : Action → System → Option System
step helper_moves s = move_helper s s.helper
step (takes i) s = take_token s i s.to_clients (get_elem? s.clients i)
step (writes i answered) s = write_command s i answered (get_elem? s.clients i)
step (reads_answer i) s = read_answer s i ends s.answers (get_elem? s.clients i)
step (ends_turn i) s = give_token s i (get_elem? s.clients i)
step (fails i) s = read_answer s i idle s.answers (get_elem? s.clients i)
step (fails_early i) s = miss_answer s i (get_elem? s.clients i)
step (goes_on i) s = go_on s i (get_elem? s.clients i)
step helper_goes_on s = go_on_helper s s.helper

abbrev pub if_enabled : Option System → (System → Option System) → Option System
if_enabled none k = none
if_enabled (some s) k = k s

unfoldable pub steps : List Action → System → Option System
steps [] s = some s
steps (a ∷ rest) s = if_enabled (step a s) (steps rest)

-- After the fork: the helper is about to give the token, and no client is in a call.
unfoldable pub start : List ClientAt → System
start clients = record {
  to_clients = 0;
  to_helper = 0;
  helper = gives;
  clients = clients;
  commands = [];
  answers = [];
}
