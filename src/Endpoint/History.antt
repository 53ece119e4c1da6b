-- ===== src/Endpoint/History.antt =====
-- internal/endpoint/manager.go: the calls of the manager's operations, in the order of `opMu`.
use tailscale_derp.Base.{ℕ, Bool, List, [], ◌∷◌}
use tailscale_derp.Endpoint.{Config, Manager, new_manager, set_local_bindings}
use tailscale_derp.Endpoint.Interfaces.{Env}
use tailscale_derp.Endpoint.Operations.{reconcile}
use tailscale_derp.Endpoint.Upkeep.{check, sync, maintain}

pub data Call : Type 0 where
  bind : ℕ → ℕ → Bool → Bool → Call
  reconcile_at : ℕ → Bool → Call
  check_at sync_at maintain_at : ℕ → Call

unfoldable pub step : Env → Call → Manager → Manager
step env (bind derp stun ipv4 ipv6) m = set_local_bindings derp stun ipv4 ipv6 m
step env (reconcile_at now force) m = (reconcile env now force m).0
step env (check_at now) m = (check env now m).0
step env (sync_at now) m = (sync env now m).0
step env (maintain_at now) m = maintain env now m

unfoldable pub run : Env → List Call → Manager → Manager
unfolding step
run env [] m = m
run env (c ∷ cs) m = run env cs (step env c m)

-- A new manager after the calls.
unfoldable pub after : Env → Config → List Call → Manager
unfolding run
after env c calls = run env calls (new_manager c)
