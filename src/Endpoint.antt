-- ===== src/Endpoint.antt =====
-- internal/endpoint/manager.go: the external endpoint of the DERP server, its types and its state.
-- Times and durations are numbers, 0 the zero time; a time that the source formats stays a number,
-- and "" is `none` for it. An error is the list of the problems that it joins.
pub mod Interfaces
pub mod Failures
pub mod Draft
pub mod Operations
pub mod Upkeep
pub mod History
pub mod Validator
pub mod Laws
pub mod Tests
use tailscale_derp.Base.{
  ℕ, ◌+◌, ◌≡◌, ℤ, pos, negsuc, String, str_eq, Bool, true, false, not, Option, none, some, List, [],
  ◌∷◌, ◌&&◌, ◌||◌, if◌then◌else◌, is_empty, ◌==◌,
}
use tailscale_derp.Portmap.{Mapping}

pub record Config : Type 0 where
  pub enabled : Bool
  pub mode : String
  pub address_family : String
  pub methods : List String
  pub wan_interface : String
  pub derp_port : String
  pub stun_port : String
  pub lease_duration : ℕ
  pub retry_interval : ℕ
  pub sync_interval : ℕ
  pub validate_endpoint : Bool
  pub tls_configured : Bool
  pub validation_names : List String
  pub stun_enabled : Bool

pub record Endpoint : Type 0 where
  pub ipv4 : String
  pub ipv6 : String
  pub derp_port : ℕ
  pub stun_port : ℤ
  pub method : String
  pub lease_until : Option ℕ

pub data ValidationState : Type 0 where
  passed degraded failed disabled : ValidationState

pub data Problem : Type 0 where
  listeners_not_ready management_disabled no_mapped_endpoint no_ipv4_listener : Problem
  no_ipv6_listener no_ipv4_discovery no_ipv6_discovery port_not_preserved : Problem
  tls_required bad_derp_port bad_stun_port : Problem
  ipv4_failed ipv6_failed certificate_failed network_failed : String → Problem
  mapping_failed validation_failed publish_failed withdraw_failed : String → Problem

abbrev pub Error : Type 0
Error = List Problem

pub record FamilyValidation : Type 0 where
  pub state : ValidationState
  pub derp : Bool
  pub stun : Bool
  pub error : String

pub record ValidationResult : Type 0 where
  pub state : ValidationState
  pub derp : Bool
  pub stun : Bool
  pub checked_at : ℕ
  pub error : String
  pub ipv4 : Option FamilyValidation
  pub ipv6 : Option FamilyValidation

pub data InstanceState : Type 0 where
  syncing published withdrawn_from error : InstanceState

pub record InstanceStatus : Type 0 where
  pub name : String
  pub label : String
  pub state : InstanceState
  pub last_attempt : ℕ
  pub last_success : ℕ
  pub error : String

pub data State : Type 0 where
  disabled discovering mapping validating ready degraded stale in_error withdrawn : State

pub record Status : Type 0 where
  pub enabled : Bool
  pub state : State
  pub local_derp_port : ℕ
  pub local_stun_port : ℕ
  pub endpoint : Option Endpoint
  pub validation : ValidationResult
  pub validation_enabled : Bool
  pub failure_count : ℕ
  pub failure_threshold : ℕ
  pub last_attempt : ℕ
  pub last_success : ℕ
  pub error : Error
  pub instances : List InstanceStatus

-- The calls that the manager makes of its interfaces, as a log, newest first.
pub data Event : Type 0 where
  asked_ipv4 asked_ipv6 asked_network asked_mapping withdrew : Event
  mapped released : Mapping → Event
  certified : List String → Event
  validated_at published_at : Endpoint → Event

abbrev pub Log : Type 0
Log = List Event

-- Manager, with the log of the calls made so far. The mutexes and the wake channel are left out:
-- `opMu` makes each operation one step.
pub record Manager : Type 0 where
  pub cfg : Config
  pub started : Bool
  pub local_derp_port : ℕ
  pub local_stun_port : ℕ
  pub supports_ipv4 : Bool
  pub supports_ipv6 : Bool
  pub active : Option Mapping
  pub endpoint : Option Endpoint
  pub next_renew : ℕ
  pub next_sync : ℕ
  pub network : String
  pub withdraw_retry : Bool
  pub status : Status
  pub log : Log

abbrev pub failure_threshold : ℕ
failure_threshold = 3

abbrev pub validation_off : ValidationResult
validation_off = record {
  state = ValidationState.disabled;
  derp = false;
  stun = false;
  checked_at = 0;
  error = "";
  ipv4 = none;
  ipv6 = none;
}

abbrev pub default_if : Bool → ℕ → ℕ → ℕ
default_if b d n = if b then d else n

-- Durations in seconds: two hours, a minute, five minutes.
unfoldable pub normalize_config : Config → Config
normalize_config c = record c {
  lease_duration = default_if (c.lease_duration == 0) 7200 c.lease_duration;
  retry_interval = default_if (c.retry_interval == 0) 60 c.retry_interval;
  sync_interval = default_if (c.sync_interval == 0) 300 c.sync_interval;
  mode = if str_eq c.mode "" then "nat" else c.mode;
  address_family = if str_eq c.address_family "" then "ipv4" else c.address_family;
}

unfoldable pub new_manager : Config → Manager
unfolding normalize_config
new_manager c = record {
  cfg = normalize_config c;
  started = false;
  local_derp_port = 0;
  local_stun_port = 0;
  supports_ipv4 = true;
  supports_ipv6 = true;
  active = none;
  endpoint = none;
  next_renew = 0;
  next_sync = 0;
  network = "";
  withdraw_retry = false;
  status = record {
    enabled = c.enabled;
    state = if c.enabled then discovering else disabled;
    local_derp_port = 0;
    local_stun_port = 0;
    endpoint = none;
    validation = validation_off;
    validation_enabled = c.validate_endpoint;
    failure_count = 0;
    failure_threshold = failure_threshold;
    last_attempt = 0;
    last_success = 0;
    error = [];
    instances = [];
  };
  log = [];
}

unfoldable pub set_local_bindings : ℕ → ℕ → Bool → Bool → Manager → Manager
set_local_bindings derp stun ipv4 ipv6 m = record m {
  local_derp_port = derp;
  local_stun_port = stun;
  supports_ipv4 = ipv4;
  supports_ipv6 = ipv6;
  status = record m.status { local_derp_port = derp; local_stun_port = stun };
}

unfoldable pub set_local_ports : ℕ → ℕ → Manager → Manager
unfolding set_local_bindings
set_local_ports derp stun m = set_local_bindings derp stun true true m

unfoldable pub wants_ipv4 : Config → Bool
wants_ipv4 c = str_eq c.address_family "ipv4" || str_eq c.address_family "dual"

unfoldable pub wants_ipv6 : Config → Bool
wants_ipv6 c = str_eq c.address_family "ipv6" || str_eq c.address_family "dual"

abbrev pub has_text : String → List String → List String
has_text s rest = if str_eq s "" then rest else s ∷ rest

unfoldable pub addresses : Endpoint → List String
addresses e = has_text e.ipv4 (has_text e.ipv6 [])

unfoldable pub is_passed : ValidationState → Bool
is_passed ValidationState.passed = true
is_passed ValidationState.degraded = false
is_passed ValidationState.failed = false
is_passed ValidationState.disabled = false

unfoldable pub family_failed : Option FamilyValidation → Bool
unfolding is_passed
family_failed none = false
family_failed (some f) = not (is_passed f.state)

unfoldable pub no_families : Option FamilyValidation → Option FamilyValidation → Bool
no_families none none = true
no_families (some a) b = false
no_families none (some b) = false

-- (e Endpoint) validated: drops each address family that did not pass.
unfoldable pub validated : Endpoint → ValidationResult → Endpoint
unfolding family_failed no_families is_passed
validated e r =
    let neither = no_families r.ipv4 r.ipv6 && not (is_passed r.state) in
    record e {
      ipv4 = if neither || family_failed r.ipv4 then "" else e.ipv4;
      ipv6 = if neither || family_failed r.ipv6 then "" else e.ipv6;
    }
