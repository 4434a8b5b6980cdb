-- ===== src/Tests/Privileges.antt =====
-- A set-user-id program that gives up its privileges.
use libptytty.Base.{
  ◌≡◌, refl, sym, ap, inl, ℤ, pos, Bool, true, false, some, [], ◌∷◌, is_neg, eqz, minus_one, codes,
}
use libptytty.Sys.{Os, Trace, set_gid, set_uid}
use libptytty.Sys.Returns.{Returns, Ends}
use libptytty.Unix.Ownership.{Terminals}
use libptytty.Process.{initial_statics, init}
use libptytty.Process.Stdfd.{Table}
use libptytty.Process.Ids.{Ids, Reads, Succeeds}
use libptytty.Process.Init.{Settled, init-Dropped, init-Returns}
use mathlib.Core.Option.{some-injective}
use libptytty.Process.Pairs.{Pairs, Unclosed, sockets}
use libptytty.Api.{ptytty_use_helper}
use libptytty.Api.Helped.{Helped, ptytty_use_helper-Helped}
use libptytty.Sample.{main}
use libptytty.Sample.Closed.{ClosedSince, main-Closed}
use libptytty.Tests.{config, conf, messages}
use libptytty.Tests.Descriptors.{table_os, used, table, lowest_of}

-- User 1000 runs a program of root.
abbrev ids : Trace → Ids
ids [] = record { uid = 1000; gid = 100; euid = 0; egid = 0 }
ids (set_uid k u ∷ w) = record (ids w) { euid = u }
ids (set_gid k g ∷ w) = record (ids w) { egid = g }
ids (_ ∷ w) = ids w

abbrev root_os : Os
root_os = record table_os {
  getuid = λ w. (ids w).uid;
  getgid = λ w. (ids w).gid;
  geteuid = λ w. (ids w).euid;
  getegid = λ w. (ids w).egid;
  socketpair = λ w. some (pos 3, pos 4);
  fork = λ w. pos 99;
}

reads : Reads root_os ids
reads = record {
  uid = λ w. refl;
  gid = λ w. refl;
  euid = λ w. refl;
  egid = λ w. refl;
  uid_asked = λ w n. refl;
  gid_asked = λ w n. refl;
  euid_asked = λ w n. refl;
  egid_asked = λ w n. refl;
  group_set = λ w k g e. (refl, refl);
  user_set = λ w k u e. (refl, refl);
}

succeeds : Succeeds ids
succeeds = record { group = λ w k g e. refl; user = λ w k u e. (refl, refl) }

root_table : Table root_os used
root_table = record {
  bad = table.bad;
  lowest = table.lowest;
  null = table.null;
  asks = table.asks;
  fails = table.fails;
  adds = table.adds;
  keeps = table.keeps;
}

lowest_of-minus_one : (a b c : Bool) → eqz (lowest_of a b c) minus_one ≡ is_neg (lowest_of a b c)
lowest_of-minus_one false b c = refl
lowest_of-minus_one true false c = refl
lowest_of-minus_one true true false = refl
lowest_of-minus_one true true true = refl

root_terminals : Terminals root_os
root_terminals = record {
  ptsname_known = λ w fd. (codes "/dev/pts/7", refl);
  ttyname_known = λ w fd. (codes "/dev/pts/7", refl);
  open_result = λ w s m. lowest_of-minus_one (used w 0) (used w 1) (used w 2);
  pair_open = λ w a b e. cc e;
}

init-Dropped_example :
    Ends (Settled ids) (λ _. Unit {0}) (init root_os config conf initial_statics [])
init-Dropped_example = init-Dropped root_os config conf root_terminals ids reads initial_statics []

init-Returns_example : Returns (Settled ids) (init root_os config conf initial_statics [])
init-Returns_example =
    init-Returns root_os config conf root_terminals ids reads used initial_statics [] root_table
      succeeds refl (λ v. refl) (λ v. refl)

main-Closed_example :
    Ends (ClosedSince root_os config conf 7 ids []) (λ _. Unit {0}) (main root_os config conf [])
main-Closed_example = main-Closed root_os config conf 7 ids [] root_terminals messages reads

pairs : Pairs root_os
pairs = record {
  pair_open = λ w a b e.
      let same = some-injective (pos 3, pos 4) (a, b) e in
      (ap (λ (x : ℤ × ℤ). is_neg x.0) (sym same), ap (λ (x : ℤ × ℤ). is_neg x.1) (sym same));
}

ptytty_use_helper-Helped_example :
    Ends
      (Helped root_os config conf 4 [] (sockets 4 initial_statics))
      (Unclosed 4 [])
      (ptytty_use_helper root_os config conf initial_statics [])
unfolding initial_statics
ptytty_use_helper-Helped_example =
    ptytty_use_helper-Helped root_os config conf 4 initial_statics [] root_terminals pairs refl
      (inl (refl, refl))
