-- ===== src/Portmap/Tests.antt =====
-- Runs of the mapping client at concrete inputs.
use tailscale_derp.Base.{
  ℕ, ◌≡◌, ◌+◌, ◌*◌, ◌^◌, refl, String, str_eq, true, false, not, Option, none, some, [], ◌∷◌, arith,
  any, if◌then◌else◌, to_lower, trim_space,
}
use tailscale_derp.Portmap.{Request, Lease, Mapping, Network, tcp, upnp_release, Log}
use tailscale_derp.Portmap.Address.{Addr, v4, v6, ip4, is_public_ipv4, special_blocks, within}
use tailscale_derp.Portmap.Address.Public.{is_public_ipv4_blocks}
use tailscale_derp.Portmap.Client.{
  Client, Answer, mapped, ok, new_client_with_backends, map_client, map_loop, try_method, settle,
  log_answer, validate_mapping, validate_leases, validate_derp, validate_stun, normalize,
}
use tailscale_derp.Portmap.Client.Valid.{Usable, map_client-Usable}
use tailscale_derp.Portmap.Client.Trace.{Settled, map_client-Settled}

is_public_ipv4_blocks_example :
    (is_public_ipv4 (v4 (ip4 100 127 0 1)) ≡ not (any special_blocks (within (ip4 100 127 0 1))))
    × (is_public_ipv4 (v6 (0xffff * 2 ^ 32 + ip4 100 127 0 1))
        ≡ not (any special_blocks (within (ip4 100 127 0 1))))
is_public_ipv4_blocks_example = is_public_ipv4_blocks (ip4 100 127 0 1) (omega arith)

abbrev lease_on : Addr → ℕ → Lease
lease_on a port = record {
  protocol = tcp;
  internal_port = 3340;
  external_port = port;
  external_ip = a;
  expires_at = 7200;
  release = some (upnp_release 1 port tcp);
}

abbrev mapping_on : Addr → ℕ → Mapping
mapping_on a port = record { method = ""; derp = some (lease_on a port); stun = none }

abbrev net : Network
net = record { answer = λ c log. none }

-- The first method gives a private address, the second a public one.
abbrev gateways : String → Option (Request → Log → Answer)
gateways m =
    if str_eq m "pcp"
    then some (λ r log. mapped (some (mapping_on (v4 (ip4 10 0 0 1)) 3340)))
    else some (λ r log. mapped (some (mapping_on (v4 (ip4 8 8 8 8)) 3341)))

abbrev client : Client
client = new_client_with_backends ("pcp" ∷ " UPnP " ∷ []) gateways

abbrev wanted : Request
wanted = record {
  interface_name = "wan";
  derp = record { protocol = tcp; internal_port = 3340; external_port = 3340; strict = false };
  stun = none;
  lifetime = 7200;
}

abbrev obtained : Mapping
obtained = record (mapping_on (v4 (ip4 8 8 8 8)) 3341) { method = "upnp" }

maps : (map_client net client wanted []).0 ≡ ok obtained
unfolding map_client map_loop try_method settle log_answer validate_mapping validate_leases
    validate_derp validate_stun normalize is_public_ipv4 new_client_with_backends to_lower
    trim_space
maps = refl

map_client-Usable_example : Usable wanted obtained × (any client.methods (str_eq "upnp") ≡ true)
map_client-Usable_example = map_client-Usable net client wanted [] obtained maps

map_client-Settled_example : Settled [] (map_client net client wanted [])
map_client-Settled_example = map_client-Settled net client wanted []
