-- ===== src/Endpoint/Tests.antt =====
-- Runs of the endpoint manager at concrete inputs.
use tailscale_derp.Base.{
  ℕ, ◌≡◌, refl, String, str_eq, true, false, none, some, List, [], ◌∷◌, length, pos, if◌then◌else◌,
  trim_space, to_lower, parse_uint,
}
use tailscale_derp.Portmap.{Lease, tcp, udp, upnp_release}
use tailscale_derp.Portmap.Address.{v4, ip4}
use tailscale_derp.Endpoint.{Config, Endpoint, Manager, Error, new_manager, listeners_not_ready}
use tailscale_derp.Endpoint.Interfaces.{Env, found, given}
use tailscale_derp.Endpoint.Draft.{build_draft, requested_port}
use tailscale_derp.Endpoint.Draft.Ports.{
  SamePorts, build_draft-SamePorts, Port, requested_port-Port,
}
use tailscale_derp.Endpoint.Upkeep.{loop}
use tailscale_derp.Endpoint.History.{
  Call, bind, reconcile_at, check_at, sync_at, maintain_at, after,
}
use tailscale_derp.Endpoint.Laws.Leases.{NoLeak, AllReleased, after-NoLeak, loop-AllReleased}
use tailscale_derp.Endpoint.Laws.Failing.{Streak, fail_each, fail_each-withdrawals}
use tailscale_derp.Endpoint.Failures.{is_withdrawn}
use tailscale_derp.Endpoint.Validator.{Wire, status, received, transaction, validate}
use tailscale_derp.Endpoint.Validator.Sound.{Outcome, validate-Outcome}

abbrev wire : Wire
wire = record {
  now = 100;
  show_number = λ n. "n";
  expected_cert_hash = none;
  get = λ network address port name hash. status (if str_eq address "8.8.8.8" then 200 else 502);
  new_tx_id = λ address. 7;
  exchange = λ network address port id. received (id ∷ []);
  parse_response = λ bytes. transaction 7;
}

abbrev both : Endpoint
both = record {
  ipv4 = "8.8.8.8";
  ipv6 = "2001:db9::1";
  derp_port = 3340;
  stun_port = pos 3478;
  method = "nat+direct";
  lease_until = none;
}

abbrev names : List String
names = "derp.example.com" ∷ []

validate-Outcome_example : Outcome both (validate wire both names true)
validate-Outcome_example = validate-Outcome wire both names true

abbrev leased : Lease
leased = record {
  protocol = tcp;
  internal_port = 3340;
  external_port = 3340;
  external_ip = v4 (ip4 8 8 8 8);
  expires_at = 9000;
  release = some (upnp_release 1 3340 tcp);
}

abbrev env : Env
env = record {
  map_port =
      λ r log. given "upnp" leased (some (record leased { protocol = udp; external_port = 3478 }));
  addr_text = λ a. "8.8.8.8";
  public_ipv4 = some (λ i log. found "8.8.8.8");
  public_ipv6 = some (λ i log. found "2001:db9::1");
  network_fingerprint = none;
  validate = λ e ns stun log. validate wire e ns stun;
  update_endpoint_ips = none;
  publish = some (λ e log. ([], none));
  withdraw = λ log. ([], none);
}

abbrev config : Config
config = record {
  enabled = true;
  mode = "nat";
  address_family = "dual";
  methods = [];
  wan_interface = "wan";
  derp_port = "auto";
  stun_port = "3478";
  lease_duration = 0;
  retry_interval = 0;
  sync_interval = 0;
  validate_endpoint = true;
  tls_configured = true;
  validation_names = names;
  stun_enabled = true;
}

abbrev calls : List Call
calls =
    bind 3340 3478 true true
    ∷ reconcile_at 100 false
    ∷ check_at 200
    ∷ sync_at 300
    ∷ maintain_at 9000
    ∷ reconcile_at 9001 true
    ∷ []

after-NoLeak_example : NoLeak (after env config calls)
after-NoLeak_example = after-NoLeak env config calls

loop-AllReleased_example : AllReleased (loop env (400 ∷ 9100 ∷ []) (after env config calls))
loop-AllReleased_example = loop-AllReleased env config calls (400 ∷ 9100 ∷ [])

abbrev bound : Manager
bound = after env config (bind 3340 3478 true true ∷ [])

build_draft-SamePorts_example : SamePorts bound (build_draft env bound)
build_draft-SamePorts_example = build_draft-SamePorts env bound

reads_port : requested_port " 3478 " 3340 ≡ some (3478, true)
unfolding requested_port trim_space to_lower parse_uint
reads_port = refl

requested_port-Port_example : Port 3340 (3478, true)
requested_port-Port_example = requested_port-Port " 3478 " 3340 (3478, true) reads_port

new_manager-Streak : Streak 0 (new_manager config)
unfolding new_manager is_withdrawn
new_manager-Streak = record {
  validates = refl;
  counted = refl;
  settled = refl;
  state = refl;
  calls = refl;
}

abbrev failures : List (ℕ × Error)
failures =
    (1, listeners_not_ready ∷ [])
    ∷ (2, listeners_not_ready ∷ [])
    ∷ (3, listeners_not_ready ∷ [])
    ∷ (4, listeners_not_ready ∷ [])
    ∷ []

fail_each-withdrawals_example :
    Streak (length failures) (fail_each env failures (new_manager config))
fail_each-withdrawals_example =
    fail_each-withdrawals env (λ e log. ([], none)) refl (λ log. refl) failures (new_manager config)
      new_manager-Streak
