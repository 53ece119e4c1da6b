-- ===== src/Endpoint/Failures.antt =====
-- internal/endpoint/manager.go: failures, withdrawal and publishing.
use tailscale_derp.Base.{
  ℕ, ◌+◌, ◌==◌, leb, String, str_eq, Bool, true, false, not, Option, none, some, [], ◌∷◌, ◌++◌,
  ◌&&◌, ◌||◌, if◌then◌else◌, is_some, ltb, ℤ, pos, negsuc,
}
use tailscale_derp.Portmap.{Mapping}
use tailscale_derp.Endpoint.{
  Endpoint, Manager, State, ready, degraded, stale, in_error, withdrawn, Error, Problem,
  publish_failed, withdraw_failed, validation_failed, certificate_failed, withdrew, released,
  certified, published_at, Log, ValidationResult, validated, addresses, failure_threshold,
}
use tailscale_derp.Endpoint.Interfaces.{Env}

-- `m.Release(...)` of a mapping that may be nil; its error is dropped everywhere.
abbrev pub log_release : Option Mapping → Log → Log
log_release none log = log
log_release (some x) log = released x ∷ log

unfoldable pub release_active : Manager → Manager
release_active m = record m {
  active = none;
  endpoint = none;
  network = "";
  status = record m.status { endpoint = none };
  log = log_release m.active m.log;
}

unfoldable pub is_withdrawn : State → Bool
is_withdrawn withdrawn = true
is_withdrawn _ = false

unfoldable pub failed_state : Manager → State
unfolding is_withdrawn
failed_state m =
    if m.cfg.validate_endpoint
    then if is_withdrawn m.status.state || leb failure_threshold (m.status.failure_count + 1)
      then withdrawn
      else degraded
    else if is_some m.active
    then stale
    else in_error

unfoldable pub reaches_threshold : Manager → Bool
unfolding is_withdrawn
reaches_threshold m =
    m.cfg.validate_endpoint
    && (not (is_withdrawn m.status.state) && (m.status.failure_count + 1 == failure_threshold))

-- The first part of fail, under the lock.
unfoldable pub mark_failure : ℕ → Error → Manager → Manager
unfolding failed_state reaches_threshold
mark_failure now e m = record m {
  withdraw_retry = m.withdraw_retry || reaches_threshold m;
  status = record m.status {
    last_attempt = now;
    error = e;
    failure_count =
        if m.cfg.validate_endpoint then m.status.failure_count + 1 else m.status.failure_count;
    state = failed_state m;
  };
}

abbrev pub problem_of : (String → Problem) → Option String → Error
problem_of f none = []
problem_of f (some s) = f s ∷ []

-- The second part of fail: Withdraw, and what follows it.
unfoldable pub withdraw_now : Env → Error → Manager → Manager × Error
unfolding release_active
withdraw_now env e m =
    let answer = env.withdraw m.log in
    (
      release_active (record m {
        withdraw_retry = is_some answer.1;
        status = record m.status { instances = answer.0; state = withdrawn };
        log = withdrew ∷ m.log;
      }),
      e ++ problem_of withdraw_failed answer.1,
    )

-- (m *Manager) fail: the error that it returns is never nil.
unfoldable pub fail : Env → ℕ → Error → Manager → Manager × Error
unfolding mark_failure withdraw_now
fail env now e m =
    let m' = mark_failure now e m in
    if not m'.withdraw_retry || not (is_some env.publish) then (m', e) else withdraw_now env e m'

unfoldable pub reset_validation_failures : Bool → Manager → Manager
reset_validation_failures mark_ready m =
    let cleared = ltb 0 m.status.failure_count && mark_ready in
    record m {
      withdraw_retry = false;
      status = record m.status {
        failure_count = 0;
        error = if cleared then [] else m.status.error;
        state = if cleared && is_some m.endpoint then ready else m.status.state;
      };
    }

-- (m *Manager) publish: an empty error is nil.
unfoldable pub publish : Env → ℕ → Endpoint → Manager → Manager × Error
publish env now value m = elim env.publish [
  | none ↦ (m, [])
  | some run ↦ (
    record m {
      next_sync = now + m.cfg.sync_interval;
      status = record m.status { instances = (run value m.log).0 };
      log = published_at value ∷ m.log;
    },
    problem_of publish_failed (run value m.log).1,
  )
]

-- `m.cert.UpdateEndpointIPs(...)` where there is an updater: its error, and the log.
unfoldable pub update_certificate : Env → Endpoint → Log → Option String × Log
update_certificate env e log = elim env.update_endpoint_ips [
  | none ↦ (none, log)
  | some run ↦ (run (addresses e) log, certified (addresses e) ∷ log)
]

abbrev pub local_stun : Bool → ℕ → ℤ
local_stun enabled port = if enabled then pos port else negsuc 0

-- An endpoint with no mapping: the local ports, directly.
abbrev pub without_mapping : ℕ → ℤ → Endpoint → Endpoint
without_mapping derp stun e = record e {
  derp_port = derp;
  stun_port = stun;
  method = "direct";
  lease_until = none;
}

abbrev pub no_address : Endpoint → Bool
no_address e = str_eq e.ipv4 "" && str_eq e.ipv6 ""

pub data Pruned : Type 0 where
  stopped : Manager → Error → Pruned
  kept : Manager → Endpoint → Pruned

unfoldable pub drop_mapping : ℕ → Endpoint → ValidationResult → Manager → Pruned
drop_mapping now pruned result m =
    let e =
      without_mapping m.local_derp_port (local_stun m.cfg.stun_enabled m.local_stun_port) pruned in
    kept
      (record m {
        active = none;
        network = "";
        next_renew = now + m.cfg.retry_interval;
        endpoint = some e;
        status = record m.status {
          endpoint = some e;
          state = degraded;
          error = validation_failed result.error ∷ [];
        };
        log = log_release m.active m.log;
      })
      e

unfoldable pub keep_mapping : Endpoint → ValidationResult → Manager → Pruned
keep_mapping pruned result m =
    kept
      (record m {
        endpoint = some pruned;
        status = record m.status {
          endpoint = some pruned;
          state = degraded;
          error = validation_failed result.error ∷ [];
        };
      })
      pruned

unfoldable pub stop : Manager × Error → Pruned
stop (m, e) = stopped m e

unfoldable pub prune_certified :
    Env → ℕ → Endpoint → Endpoint → ValidationResult → Option String → Manager → Pruned
unfolding drop_mapping keep_mapping stop
prune_certified env now current pruned result (some why) m =
    stop (fail env now (certificate_failed why ∷ []) m)
prune_certified env now current pruned result none m =
    if not (str_eq current.ipv4 "") && str_eq pruned.ipv4 ""
    then drop_mapping now pruned result m
    else keep_mapping pruned result m

unfoldable pub apply_partial_validation : Env → ℕ → Endpoint → ValidationResult → Manager → Pruned
unfolding prune_certified stop
apply_partial_validation env now current result m =
    let pruned = validated current result in
    if no_address pruned
    then stop (fail env now (validation_failed result.error ∷ []) m)
    else let (why, log) = update_certificate env pruned m.log in
      prune_certified env now current pruned result why (record m { log = log })
