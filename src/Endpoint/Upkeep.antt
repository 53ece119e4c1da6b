-- ===== src/Endpoint/Upkeep.antt =====
-- internal/endpoint/manager.go: Check, Sync, the maintenance round and the loop.
use tailscale_derp.Base.{
  ℕ, leb, String, str_eq, true, false, not, Option, none, some, List, [], ◌∷◌, ◌&&◌, ◌||◌,
  if◌then◌else◌, is_some,
}
use tailscale_derp.Endpoint.{
  Endpoint, Manager, Error, no_mapped_endpoint, network_failed, validation_failed, ValidationResult,
  ValidationState, asked_network, validated_at, Log, wants_ipv4,
}
use tailscale_derp.Endpoint.Interfaces.{Env, Answer, failed, found}
use tailscale_derp.Endpoint.Failures.{
  fail, publish, reset_validation_failures, apply_partial_validation, release_active, Pruned,
  stopped, kept,
}
use tailscale_derp.Endpoint.Operations.{reconcile, not_ready}

unfoldable pub republish : Env → ℕ → Pruned → Manager × Error
republish env now (stopped m e) = (m, e)
republish env now (kept m e) = publish env now e (reset_validation_failures false m)

-- Check, after the validator has answered `r` and the log was extended.
unfoldable pub checked :
    Env → ℕ → Endpoint → ValidationResult → ValidationState → Manager → Manager × Error
unfolding republish
checked env now e r ValidationState.failed m =
    if m.cfg.validate_endpoint
    then fail env now (validation_failed r.error ∷ []) m
    else (m, validation_failed r.error ∷ [])
checked env now e r ValidationState.degraded m =
    republish env now (apply_partial_validation env now e r m)
checked env now e r ValidationState.passed m = (reset_validation_failures true m, [])
checked env now e r ValidationState.disabled m = (reset_validation_failures true m, [])

abbrev pub ask_validator : Env → Endpoint → Manager → ValidationResult × Manager
ask_validator env e m =
    let r = env.validate e m.cfg.validation_names m.cfg.stun_enabled m.log in
    (r, record m { status = record m.status { validation = r }; log = validated_at e ∷ m.log })

unfoldable pub check_endpoint : Env → ℕ → Option Endpoint → Manager → Manager × Error
unfolding checked
check_endpoint env now none m = (m, no_mapped_endpoint ∷ [])
check_endpoint env now (some e) m =
    let (r, m') = ask_validator env e m in checked env now e r r.state m'

unfoldable pub check : Env → ℕ → Manager → Manager × Error
unfolding check_endpoint
check env now m = check_endpoint env now m.endpoint m

unfoldable pub synced :
    Env → ℕ → Endpoint → ValidationResult → ValidationState → Manager → Manager × Error
unfolding republish
synced env now e r ValidationState.failed m = fail env now (validation_failed r.error ∷ []) m
synced env now e r ValidationState.degraded m =
    republish env now (apply_partial_validation env now e r m)
synced env now e r ValidationState.passed m = publish env now e (reset_validation_failures true m)
synced env now e r ValidationState.disabled m = publish env now e (reset_validation_failures true m)

unfoldable pub sync_endpoint : Env → ℕ → Option Endpoint → Manager → Manager × Error
unfolding synced
sync_endpoint env now none m = (m, no_mapped_endpoint ∷ [])
sync_endpoint env now (some e) m =
    if m.cfg.validate_endpoint
    then (let (r, m') = ask_validator env e m in synced env now e r r.state m')
    else publish env now e m

unfoldable pub sync : Env → ℕ → Manager → Manager × Error
unfolding sync_endpoint
sync env now m = sync_endpoint env now m.endpoint m

unfoldable pub by_clock : Env → ℕ → Manager → Manager
by_clock env now m =
    if not (is_some m.endpoint) || leb m.next_renew now
    then (reconcile env now false m).0
    else if leb m.next_sync now
    then (sync env now m).0
    else m

unfoldable pub moved_network : Env → ℕ → Answer → Manager → Manager
unfolding by_clock
moved_network env now (failed why) m = (fail env now (network_failed why ∷ []) m).0
moved_network env now (found current) m =
    if not (str_eq m.network "") && not (str_eq current m.network)
    then (reconcile env now false m).0
    else by_clock env now m

unfoldable pub watch_network : Env → ℕ → Option (String → Log → Answer) → Manager → Manager
unfolding moved_network by_clock
watch_network env now none m = by_clock env now m
watch_network env now (some find) m =
    moved_network env now (find m.cfg.wan_interface (asked_network ∷ m.log))
      (record m { log = asked_network ∷ m.log })

-- (m *Manager) maintain.
unfoldable pub maintain : Env → ℕ → Manager → Manager
unfolding watch_network by_clock
maintain env now m =
    if not_ready m
    then m
    else if is_some m.endpoint && (str_eq m.cfg.mode "nat" && wants_ipv4 m.cfg)
    then watch_network env now env.network_fingerprint m
    else by_clock env now m

-- The rounds of loop until the context ends, each at its time, and the release at the end.
unfoldable pub rounds : Env → List ℕ → Manager → Manager
rounds env [] m = m
rounds env (now ∷ later) m = rounds env later (if m.cfg.enabled then maintain env now m else m)

unfoldable pub loop : Env → List ℕ → Manager → Manager
unfolding rounds
loop env times m = release_active (rounds env times m)

-- (m *Manager) Start: a second call does nothing.
unfoldable pub start : Env → List ℕ → Manager → Manager
start env times m = if m.started then m else loop env times (record m { started = true })
