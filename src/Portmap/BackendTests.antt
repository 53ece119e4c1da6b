-- ===== src/Portmap/BackendTests.antt =====
-- Runs of the mapping backends at concrete inputs.
use tailscale_derp.Base.{
  ℕ, ◌≡◌, ◌≢◌, ◌+◌, ◌*◌, ◌^◌, refl, String, List, true, false, none, some, [], ◌∷◌, arith, inl, inr,
  pos, ap,
}
use tailscale_derp.Portmap.{Request, PortRequest, tcp, udp}
use tailscale_derp.Portmap.Address.{Addr, v4, v6, unmap, ip4}
use tailscale_derp.Portmap.Routes.{System, default_route}
use tailscale_derp.Portmap.Routes.Least.{IsLeast, default_route-IsLeast}
use tailscale_derp.Portmap.Ports.Released.{Settled as PortsSettled}
use tailscale_derp.Portmap.Natpmp.{NatPmp, closure, map_natpmp, map_natpmp-Settled}
use tailscale_derp.Portmap.Upnp.{Upnp, map_upnp}
use tailscale_derp.Portmap.Upnp.Released.{SettledAt, map_upnp-SettledAt}
use tailscale_derp.Portmap.Pcp.Packet.{
  gateway_reply, map_packet, read_response, granted, PcpMapResponse,
}
use tailscale_derp.Portmap.Pcp.Packet.Sound.{read_response-gateway_reply}
use tailscale_derp.Portmap.Pcp.Exchange.{
  Round, exchange, out_of_rounds, exchange-ends, millisecond, timed_out, got, Read,
}
use tailscale_derp.Portmap.Pcp.Backend.{
  Machine, PcpState, Call, acquire, map_pcp, key_of, PcpLeaseKey,
}
use tailscale_derp.Portmap.Pcp.Backend.Released.{Settled, map_pcp-Settled}
use tailscale_derp.Portmap.Pcp.Backend.Nonces.{Kept, held, acquire-NoncesKept}

abbrev wanted : PortRequest
wanted = record { protocol = tcp; internal_port = 443; external_port = 8443; strict = true }

abbrev stun : PortRequest
stun = record { protocol = udp; internal_port = 3478; external_port = 0; strict = false }

abbrev both : Request
both = record { interface_name = "auto"; derp = wanted; stun = some stun; lifetime = 0 }

abbrev a_nonce : List ℕ
a_nonce = 1 ∷ 2 ∷ 3 ∷ 4 ∷ 5 ∷ 6 ∷ 7 ∷ 8 ∷ 9 ∷ 10 ∷ 11 ∷ 12 ∷ []

abbrev epoch : List ℕ
epoch = 0 ∷ 0 ∷ 1 ∷ 44 ∷ 0 ∷ 0 ∷ 0 ∷ 0 ∷ 0 ∷ 0 ∷ 0 ∷ 0 ∷ 0 ∷ 0 ∷ 0 ∷ 0 ∷ []

abbrev source : Addr
source = v4 (ip4 192 168 1 2)

abbrev mapped_ip : ℕ
mapped_ip = 0xffff * 2 ^ 32 + ip4 8 8 8 8

abbrev request_bytes : List ℕ
request_bytes = map_packet source wanted 8443 7200 a_nonce

abbrev reply_bytes : List ℕ
reply_bytes = gateway_reply request_bytes 3600 epoch 8443 mapped_ip

abbrev answer : PcpMapResponse
answer = record { ip = unmap (v6 mapped_ip); port = 8443; lifetime = 3600 }

read_response-gateway_reply_example : read_response wanted a_nonce reply_bytes ≡ granted answer
read_response-gateway_reply_example =
    read_response-gateway_reply source wanted 8443 7200 a_nonce epoch 3600 8443 mapped_ip refl refl
      (omega arith) (omega arith) (omega arith) (omega arith)

-- A gateway that never answers.
abbrev silent : ℕ → Round
silent n = record {
  cancelled = none;
  write_error = none;
  write_time = 1;
  read = timed_out;
  late = 2;
}

exchange-ends_example :
    exchange silent (3000 * millisecond) [] 5 0 0 (250 * millisecond) ≢ out_of_rounds
exchange-ends_example = exchange-ends silent (3000 * millisecond) [] 0 (omega arith)

-- A gateway that answers a request with the port that was asked for, but gives STUN nothing.
abbrev answers : List ℕ → List Call → Read
answers packet [] = got (gateway_reply packet 3600 epoch 8443 mapped_ip)
answers packet (c ∷ cs) = got []

abbrev lines : List String
lines =
    "Iface\tDestination\tGateway \tFlags\tRefCnt\tUse\tMetric\tMask\t\tMTU\tWindow\tIRTT"
    ∷ "wan0\t00000000\t0101A8C0\t0003\t0\t0\t20\t00000000\t0\t0\t0"
    ∷ "wan1\t00000000\t0102A8C0\t0003\t0\t0\t10\t00000000\t0\t0\t0" ∷ []

abbrev system : System
system = record {
  route_lines = inl lines;
  addresses = λ name. inl [];
  source_towards = λ a. inl source;
  source_6 = inr [];
  show = λ a. "";
}

abbrev machine : Machine
machine = record {
  system = system;
  open_socket = λ gateway packet calls. record {
    dial_error = none;
    now = 0;
    context_deadline = none;
    timeout = [];
    rounds = λ n. record {
      cancelled = none;
      write_error = none;
      write_time = 0;
      read = answers packet calls;
      late = 0;
    };
  };
  random = λ st. inl a_nonce;
  clock = λ calls. 100;
}

abbrev fresh : PcpState
fresh = record { nonces = []; calls = [] }

map_pcp-Settled_example :
    Settled [] (map_pcp machine both fresh).0 (map_pcp machine both fresh).1.calls
map_pcp-Settled_example = map_pcp-Settled machine both fresh

abbrev other_key : PcpLeaseKey
other_key = key_of (v4 1) source stun

other_differs : other_key ≢ key_of (v4 (ip4 192 168 2 1)) source wanted
unfolding key_of
other_differs h = ground (arith, ap (λ (k : PcpLeaseKey). k.protocol) h)

acquire-NoncesKept_example :
    Kept machine
      (v4 (ip4 192 168 2 1))
      source
      wanted
      fresh
      (acquire machine (v4 (ip4 192 168 2 1)) source wanted 7200 fresh)
    × (held other_key (acquire machine (v4 (ip4 192 168 2 1)) source wanted 7200 fresh).1
        ≡ held other_key fresh)
acquire-NoncesKept_example =
    acquire-NoncesKept machine (v4 (ip4 192 168 2 1)) source wanted 7200 fresh other_key
      other_differs

-- The second port is refused.
abbrev nat_pmp : NatPmp
nat_pmp = record {
  system = system;
  external_address = λ gateway. inl (ip4 8 8 8 8);
  cancelled = λ acts. none;
  add_port_mapping =
      λ r port seconds acts. elim acts [ [] ↦ inl (port, 3600) | a ∷ rest ↦ inr ("refused" ∷ []) ];
  clock = λ acts. 100;
}

map_natpmp-Settled_example :
    PortsSettled
      (closure nat_pmp)
      0
      wanted
      (some stun)
      []
      (map_natpmp nat_pmp both []).0
      (map_natpmp nat_pmp both []).1
map_natpmp-Settled_example = map_natpmp-Settled nat_pmp both []

-- The first service fails for STUN, the second one grants both.
abbrev upnp : Upnp
upnp = record {
  system = system;
  clients2 = λ acts. (record { id = 1; local_addr = source; any_port = true } ∷ [], none);
  clients1 = λ acts. (record { id = 2; local_addr = source; any_port = false } ∷ [], none);
  external_ip = λ id acts. inl " 8.8.8.8\n";
  parse_addr = λ text. inl (v4 (ip4 8 8 8 8));
  add_port_mapping = λ id r port lifetime acts. elim acts [
    | [] ↦ none
    | a ∷ [] ↦ some ("refused" ∷ [])
    | a ∷ b ∷ rest ↦ none
  ];
  add_any_port_mapping = λ id r lifetime acts. inr ("refused" ∷ []);
  delete_port_mapping = λ id port p acts. none;
  clock = λ acts. 100;
}

map_upnp-SettledAt_example : SettledAt both [] (map_upnp upnp both []).0 (map_upnp upnp both []).1
map_upnp-SettledAt_example = map_upnp-SettledAt upnp both []

default_route-IsLeast_example : IsLeast "auto" lines (default_route "auto" lines)
default_route-IsLeast_example = default_route-IsLeast "auto" lines

-- The wanted port is granted, STUN is refused, and the port is given back.
gives_back : (map_natpmp nat_pmp both []).0 ≡ inr ("refused" ∷ [])
unfolding map_natpmp
gives_back = refl

finds_route :
    default_route "auto" lines
    ≡ inl record { interface_name = "wan1"; gateway = v4 (ip4 192 168 2 1); metric = pos 10 }
unfolding default_route
finds_route = refl
