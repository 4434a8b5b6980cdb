-- ===== src/Api/Helped.antt =====
-- `ptytty_use_helper` and the objects that are created behind it (src/proxy.C, src/c-api.C).
use libptytty.Base.{ℕ, ◌≡◌, ◌⊎◌, refl, true}
use libptytty.Sys.{Os, Trace, ok}
use libptytty.Sys.Balance.{Shifts}
use libptytty.Sys.Returns.{Ends, Ends-mono}
use libptytty.Config.{Config}
use libptytty.Unix.{TtyConf}
use libptytty.Unix.Ownership.{Terminals}
use libptytty.Proxy.Client.{new_proxy}
use libptytty.Process.{Statics, Side, caller, helper_done, use_helper}
use libptytty.Process.Pairs.{
  Pairs, IsUnset, IsRunning, sockets, Started, Unclosed, use_helper-Started,
}
use libptytty.Api.{create, proxy_object, ptytty_use_helper, ptytty_create}

module _ (os : Os) (c : Config) (conf : TtyConf) (n : ℕ) where
  -- In the caller, with the sockets in the static variables.
  abbrev pub Helped : Trace → ℕ → Side → Trace → Type 0
  Helped w a (caller s) v =
      Shifts n a w (sockets n s) v
      × (ptytty_create os c conf s ≡ proxy_object new_proxy)
      × (ptytty_use_helper os c conf s v ≡ ok (caller s) v)
  Helped w a helper_done v = Unit

  again :
      (w : Trace) (a : ℕ) (side : Side) (v : Trace)
      → c.helper ≡ true
      → Started n w a side v
      → Helped w a side v
  unfolding ptytty_create create ptytty_use_helper use_helper
  again w a (caller s) v on (e, (sock, pid)) = (e, rw (on, pid) refl, rw sock refl)
  again w a helper_done v on h = tt

  -- In a build with the helper, where ptsname and ttyname give a name, open gives -1 or a
  -- descriptor, openpty two descriptors and socketpair descriptors, and the static variables are
  -- unset or those of a running helper: `ptytty_use_helper` throws with no descriptor closed, or
  -- ends as the helper, or returns, and of the descriptors opened those stay open that are the
  -- sockets in the static variables; `ptytty_create` then makes objects of the proxy class, and
  -- another `ptytty_use_helper` does nothing.
  pub ptytty_use_helper-Helped :
      (s : Statics) (w : Trace)
      → Terminals os
      → Pairs os
      → c.helper ≡ true
      → IsUnset s ⊎ IsRunning s
      → Ends (Helped w (sockets n s)) (Unclosed n w) (ptytty_use_helper os c conf s w)
  unfolding ptytty_use_helper
  ptytty_use_helper-Helped s w t p on h =
      Ends-mono (Unclosed n w) (Started n w (sockets n s)) (Helped w (sockets n s))
        (use_helper os c conf s w) (use_helper-Started os c conf n t s w p h)
        λ side v q. again w (sockets n s) side v on q
