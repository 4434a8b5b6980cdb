-- ===== src/Tests/Remote.antt =====
-- The life of a terminal in the helper at a concrete client, with two logins.
use libptytty.Base.{refl, pos, true, false, ◌∷◌, [], codes, List, some, arith}
use libptytty.Sys.{Os, Trace}
use libptytty.Sys.Returns.{Returns}
use libptytty.Proxy.Commands.{Login}
use libptytty.Proxy.Client.Answered.{Answers}
use libptytty.Proxy.Server.{handle_get}
use libptytty.Proxy.Server.Objects.{find, lookup}
use libptytty.Proxy.Server.Replies.{reply_of}
use libptytty.Proxy.Remote.{Helper, Remote, client_life, client_life-Remote}
use libptytty.Tests.{os, config, conf, logged_in, terminals}

abbrev logins : List Login
logins =
    record { cmd_pid = pos 9; login_shell = true; hostname = codes "a" }
    ∷ record { cmd_pid = pos 11; login_shell = false; hostname = [] }
    ∷ []

-- With the object of another client.
abbrev helper : Helper
helper = record {
  os = os;
  sock_fd = pos 4;
  state = record { ptys = 16 ∷ []; heap = (16, logged_in) ∷ [] };
  past = [];
}

abbrev client : Trace → Os
client v = record os { read_reply = λ w. some (reply_of v) }

answers : (v : Trace) → Answers (client v) config (pos 3) (reply_of v)
answers v = record {
  asked = λ w. refl;
  room = λ w. refl;
  brings = λ w. (pos 7, (refl, refl));
  fits = omega arith;
}

client_life-Remote_example :
    Returns
      (λ s v.
        Returns
          (Remote config conf helper logins s v [])
          (client_life (client v) config (pos 3) logins []))
      (handle_get os config conf (pos 4) helper.state [])
unfolding find lookup
client_life-Remote_example =
    client_life-Remote config conf helper client (pos 3) logins [] terminals (refl, refl) refl
      ((refl, tt), (tt, tt)) answers
