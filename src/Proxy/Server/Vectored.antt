-- ===== src/Proxy/Server/Vectored.antt =====
-- `serve` (src/proxy.C) with the vector of src/estl.h in place of the list of Proxy.Server.
use libptytty.Base.{
  ℕ, ◌^◌, ◌<◌, ◌≡◌, refl, sym, subst, ℤ, Bool, true, some, List, [], arith, length,
}
use libptytty.Sys.{Os, Command, Trace}
use mathlib.Core.List.{reverse}
use libptytty.Proxy.Server.Serve.{serve_loop-Keeps}
use libptytty.Sys.Returns.{Returns}
use libptytty.Config.{Config}
use libptytty.Unix.{TtyConf}
use libptytty.Unix.Ownership.{Terminals}
use libptytty.Estl.Vec.{new_empty}
use libptytty.Estl.Holds.{IsLog, Ensures, Holds}
use libptytty.Proxy.Server.{State, serve_loop}
use libptytty.Proxy.Server.Vector.{Change, changes_list, changes, deletes}
use libptytty.Proxy.Server.Refines.{Prefix, changes-refines}
use libptytty.Sys.Gives.{Gives-mono, Returns-Gives}
use libptytty.Proxy.Server.Follows.{Asked, Asked-length, serve_loop-After}

-- The vector that the changes make, where memory lasts, holds `ids`, and its last loop deletes them.
abbrev pub Filled : (ℕ → ℕ) → (ℕ → Bool) → List Change → List ℕ → Type 0
Filled ld32 alloc cs ids =
    Ensures (λ v. Holds true v ids × (deletes v.sze v.buf ≡ some (reverse ids))) (Prefix cs [])
      (changes ld32 alloc cs (new_empty true ld32 alloc 0))

abbrev pub Vectored : (ℕ → ℕ) → (ℕ → Bool) → List Command → State → Type 0
Vectored ld32 alloc cmds s =
    (cs : List Change) × (Asked cmds cs
      × (s.ptys ≡ changes_list cs [])
      × Filled ld32 alloc cs s.ptys)

module _ (os : Os) (c : Config) (conf : TtyConf) (sock_fd : ℤ) where
  -- Where ptsname and ttyname give a name, open gives -1 or a descriptor, openpty two
  -- descriptors, and `ecb_ld32` the highest bit, the loop of `serve` returns for fewer than 2^31
  -- commands. The list `ptys` then comes from changes that the commands ask for: the same
  -- changes on a `simplevec`, by `push_back`, and by `find` and `erase`, give a vector that
  -- holds this list, and the last loop reads its objects in reverse. No operation is undefined;
  -- where memory runs out the vector holds what a part of the changes gives.
  pub serve_loop-Vectored :
      (t : Terminals os) (ld32 : ℕ → ℕ) (alloc : ℕ → Bool) (cmds : List Command) (w : Trace)
      → IsLog ld32
      → length cmds < 2 ^ 31
      → Returns
          (λ s v. Vectored ld32 alloc cmds s)
          (serve_loop os c conf sock_fd cmds (record { ptys = []; heap = [] }) w)
  serve_loop-Vectored t ld32 alloc cmds w log small =
      let start : State = record { ptys = []; heap = [] } in
      let r = serve_loop os c conf sock_fd cmds start w in
      Returns-Gives _ (Vectored ld32 alloc cmds) r
        (serve_loop-Keeps os c conf sock_fd 0 t cmds start w (record { live = refl; sound = tt }))
        (Gives-mono _ (Vectored ld32 alloc cmds) r (serve_loop-After os c conf sock_fd cmds start w)
          λ s (cs, (a, q)). (
            cs,
            (
              a,
              q,
              subst (Filled ld32 alloc cs) (sym q) (
                  changes-refines ld32 alloc cs log (omega (arith, Asked-length cmds cs a, small))),
            ),
          ))
