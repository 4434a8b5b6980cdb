-- ===== src/Tests/Serving.antt =====
-- The vector of `serve` (src/proxy.C) at concrete inputs.
use libptytty.Base.{◌≡◌, refl, false, ◌==◌, pos, List, [], ◌∷◌, arith}
use libptytty.Sys.Returns.{Returns}
use libptytty.Proxy.Server.{State, serve_loop}
use libptytty.Proxy.Server.Vector.{Change, keeps, drops}
use libptytty.Proxy.Server.Objects.{lookup}
use libptytty.Proxy.Server.Vectored.{Vectored, serve_loop-Vectored}
use libptytty.Sys.{Trace, Command, get_pty, log_in, destroy}
use libptytty.Proxy.Server.Safety.{IsValid}
use libptytty.Proxy.Server.Tracked.{Tracked, serve_loop-Tracked}
use libptytty.Tests.{logged_in, os, config, conf, terminals, commands}
use libptytty.Tests.Vectors.{ld32, ld32-IsLog, memory}

-- Three objects, the one in the middle deleted, and one that is not there.
abbrev three : List Change
three = keeps 16 ∷ keeps 32 ∷ keeps 48 ∷ drops 32 ∷ drops 8 ∷ []

serve_loop-Vectored_example :
    Returns
      (λ s v. Vectored ld32 memory commands s)
      (serve_loop os config conf (pos 3) commands (record { ptys = []; heap = [] }) [])
serve_loop-Vectored_example =
    serve_loop-Vectored os config conf (pos 3) terminals ld32 memory commands [] ld32-IsLog
      (omega arith)

-- The object of one client, while another sends its commands.
abbrev busy : State
busy = record { ptys = 16 ∷ []; heap = (16, logged_in) ∷ [] }

busy-IsValid : IsValid config busy
busy-IsValid = record {
  live = refl;
  sound =
      ((λ e. cc e), (λ db e i. record { name = refl; shell = refl; slot = λ d. cc (e, d) }), tt);
}

unused : (w : Trace) → (os.new_object w == 16) ≡ false
unused w = ground arith

-- A login of the client, and commands of others around it.
abbrev mixed : List Command
mixed =
    record { kind = get_pty; id = 0; login_shell = false; cmd_pid = pos 0; hostname = [] }
    ∷ record { kind = log_in; id = 16; login_shell = false; cmd_pid = pos 77; hostname = [] }
    ∷ record { kind = destroy; id = 32; login_shell = false; cmd_pid = pos 0; hostname = [] }
    ∷ []

serve_loop-Tracked_example :
    Returns
      (Tracked os config conf (pos 3) 16 unused mixed logged_in)
      (serve_loop os config conf (pos 3) mixed busy [])
unfolding lookup
serve_loop-Tracked_example =
    serve_loop-Tracked os config conf (pos 3) 16 unused mixed busy logged_in [] terminals
      (tt, (tt, (refl, tt))) busy-IsValid refl
