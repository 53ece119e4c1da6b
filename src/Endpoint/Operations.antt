-- ===== src/Endpoint/Operations.antt =====
-- internal/endpoint/manager.go: reconcile, Check, Sync and the maintenance round.
use tailscale_derp.Base.{
  ℕ, ◌+◌, ◌-◌, ◌/◌, ◌==◌, leb, String, str_eq, Bool, true, false, not, Option, none, some, [], ◌∷◌,
  ◌++◌, ◌&&◌, ◌||◌, if◌then◌else◌, is_some, is_empty,
}
use tailscale_derp.Portmap.{Protocol, tcp, udp, Lease, Mapping, expires_at}
use tailscale_derp.Portmap.Client.{same_addr}
use tailscale_derp.Endpoint.{
  Manager, State, Error, listeners_not_ready, management_disabled, tls_required, certificate_failed,
  network_failed, validation_failed, validating, ready, degraded, ValidationResult, validation_off,
  asked_network, validated_at, Log, validated, is_passed, mapping,
}
use tailscale_derp.Endpoint.Interfaces.{Env, Answer, failed, found}
use tailscale_derp.Endpoint.Failures.{
  log_release, fail, publish, update_certificate, no_address, local_stun, without_mapping,
}
use tailscale_derp.Endpoint.Draft.{Draft, build_draft, name_method}

unfoldable pub set_attempt : ℕ → Manager → Manager
set_attempt now m = record m {
  status = record m.status { state = mapping; last_attempt = now; error = [] };
}

unfoldable pub set_state : State → Error → Manager → Manager
set_state s e m = record m { status = record m.status { state = s; error = e } }

abbrev pub set_validation : ValidationResult → Manager → Manager
set_validation r m = record m { status = record m.status { validation = r } }

unfoldable pub same_protocol : Protocol → Protocol → Bool
same_protocol tcp tcp = true
same_protocol udp udp = true
same_protocol tcp udp = false
same_protocol udp tcp = false

unfoldable pub same_lease : Option Lease → Option Lease → Bool
unfolding same_protocol
same_lease none none = true
same_lease none (some b) = false
same_lease (some a) none = false
same_lease (some a) (some b) =
    same_protocol a.protocol b.protocol
    && (a.internal_port == b.internal_port
        && (a.external_port == b.external_port && same_addr a.external_ip b.external_ip))

unfoldable pub same_mapping : Option Mapping → Option Mapping → Bool
same_mapping none b = false
same_mapping (some a) none = false
same_mapping (some a) (some b) =
    str_eq a.method b.method && (same_lease a.derp b.derp && same_lease a.stun b.stun)

-- midpoint: an hour from now where the end is unknown or past.
unfoldable pub midpoint : ℕ → ℕ → ℕ
midpoint start end = if end == 0 || leb end start then start + 3600 else start + (end - start) / 2

-- What a stage of reconcile leads to: a failure, or the draft with the network's fingerprint.
pub data Stage : Type 0 where
  aborted : Manager → Error → Stage
  going : Manager → Draft → String → Stage

unfoldable pub abort : Manager × Error → Stage
abort (m, e) = aborted m e

-- `mapping.Release` and `m.fail`.
unfoldable pub abandon : Env → ℕ → Error → Draft → Manager → Stage
unfolding abort
abandon env now e d m = abort (fail env now e (record m { log = log_release d.mapping d.log }))

unfoldable pub check_certificate : Env → ℕ → String → Draft → Manager → Option String × Log → Stage
check_certificate env now network d m (some why, log) =
    abandon env now (certificate_failed why ∷ []) (record d { log = log }) m
check_certificate env now network d m (none, log) = going m (record d { log = log }) network

unfoldable pub certify : Env → ℕ → String → Draft → Manager → Stage
unfolding check_certificate
certify env now network d m =
    check_certificate env now network d m (update_certificate env d.candidate d.log)

unfoldable pub network_answer : Env → ℕ → Draft → Manager → Answer → Stage
network_answer env now d m (failed why) = abandon env now (network_failed why ∷ []) d m
network_answer env now d m (found text) = going m d text

unfoldable pub ask_network : Env → ℕ → Draft → Manager → Option (String → Log → Answer) → Stage
unfolding network_answer
ask_network env now d m none = going m d ""
ask_network env now d m (some find) =
    network_answer env now (record d { log = asked_network ∷ d.log }) m
      (find m.cfg.wan_interface (asked_network ∷ d.log))

unfoldable pub inspect_network : Env → ℕ → Draft → Manager → Stage
unfolding ask_network
inspect_network env now d m =
    if str_eq m.cfg.mode "nat" && not (str_eq d.candidate.ipv4 "")
    then ask_network env now d m env.network_fingerprint
    else going m d ""

-- After a validation took the IPv4 address away, the mapping is released.
unfoldable pub unmapped : Manager → String → Draft → Draft × String
unmapped m network d =
    if str_eq d.candidate.ipv4 "" && is_some d.mapping
    then (
      record d {
        mapping = none;
        candidate =
            without_mapping m.local_derp_port (local_stun m.cfg.stun_enabled m.local_stun_port)
              d.candidate;
        log = log_release d.mapping d.log;
      },
      "",
    )
    else (d, network)

unfoldable pub certify_validated : Env → ℕ → Manager → Draft × String → Stage
certify_validated env now m (d, network) = certify env now network d m

abbrev pub validation_problems : ValidationResult → Error
validation_problems r =
    if not (is_passed r.state) && not (str_eq r.error "")
    then validation_failed r.error ∷ []
    else []

unfoldable pub accept_validation : Env → ℕ → ValidationResult → String → Draft → Manager → Stage
unfolding unmapped certify_validated
accept_validation env now r network d m =
    if no_address d.candidate
    then abandon env now (validation_failed r.error ∷ []) d m
    else certify_validated env now m
        (unmapped m network (record d { problems = d.problems ++ validation_problems r }))

-- The manager before and after the validator has answered.
unfoldable pub run_validation : Env → ℕ → String → Draft → Manager → Stage
unfolding accept_validation set_state
run_validation env now network d m =
    let m' = set_state validating [] m in
    let r = env.validate d.candidate m.cfg.validation_names m.cfg.stun_enabled d.log in
    accept_validation env now r network
      (record d { candidate = validated d.candidate r; log = validated_at d.candidate ∷ d.log })
      (set_validation r m')

unfoldable pub validate_draft : Env → ℕ → Bool → String → Draft → Manager → Stage
unfolding run_validation
validate_draft env now force network d m =
    if m.cfg.validate_endpoint || force
    then run_validation env now network d m
    else going (set_validation validation_off m) d network

abbrev pub renewal : Manager → ℕ → Option Mapping → ℕ
renewal m now none = now + m.cfg.retry_interval
renewal m now (some x) = midpoint now (expires_at (some x))

abbrev pub released_old : Manager → Draft → String → Log
released_old m d network =
    if is_some m.active && (not (str_eq m.network network) || not (same_mapping m.active d.mapping))
    then log_release m.active d.log
    else d.log

-- The new mapping and endpoint are stored, and the old mapping is released if it is another one.
unfoldable pub commit : ℕ → String → Draft → Manager → Manager
unfolding midpoint
commit now network d m = record m {
  active = d.mapping;
  endpoint = some d.candidate;
  next_renew = renewal m now d.mapping;
  network = network;
  status = record m.status {
    endpoint = some d.candidate;
    failure_count = 0;
    error = d.problems;
    state =
        if not (is_empty d.problems)
          || m.cfg.validate_endpoint && not (is_passed m.status.validation.state)
        then degraded
        else ready;
    last_success = now;
  };
  log = released_old m d network;
}

unfoldable pub degrade : Manager × Error → Manager × Error
unfolding set_state
degrade (m, []) = (m, [])
degrade (m, e ∷ es) = (set_state degraded (e ∷ es) m, e ∷ es)

unfoldable pub finish : Env → ℕ → Stage → Manager × Error
unfolding degrade
finish env now (aborted m e) = (m, e)
finish env now (going m d network) = degrade (publish env now d.candidate (commit now network d m))

abbrev pub chain : Stage → (Manager → Draft → String → Stage) → Stage
chain (aborted m e) f = aborted m e
chain (going m d network) f = f m d network

-- The stages after an address was found.
unfoldable pub prepare : Env → ℕ → Bool → Draft → Manager → Stage
prepare env now force d m =
    if no_address d.candidate
    then abandon env now d.problems d m
    else if not m.cfg.tls_configured
    then abandon env now (tls_required ∷ []) (name_method d) m
    else chain (certify env now "" (name_method d) m) λ m₁ d₁ _.
      chain (inspect_network env now d₁ m₁)
        λ m₂ d₂ network. validate_draft env now force network d₂ m₂

abbrev pub not_ready : Manager → Bool
not_ready m = m.local_derp_port == 0 || m.cfg.stun_enabled && (m.local_stun_port == 0)

-- (m *Manager) reconcile: an empty error is nil.
unfoldable pub reconcile : Env → ℕ → Bool → Manager → Manager × Error
unfolding prepare finish set_attempt
reconcile env now force m =
    if not m.cfg.enabled
    then (m, management_disabled ∷ [])
    else if not_ready m
    then fail env now (listeners_not_ready ∷ []) m
    else let m' = set_attempt now m in
      finish env now (prepare env now force (build_draft env m') m')
