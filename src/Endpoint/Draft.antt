-- ===== src/Endpoint/Draft.antt =====
-- internal/endpoint/manager.go: the candidate endpoint that reconcile puts together.
pub mod Ports
use tailscale_derp.Base.{
  ℕ, ◌≡◌, ◌==◌, ◌==ℤ◌, leb, String, str_eq, Bool, true, false, not, Option, none, some, List, [],
  ◌∷◌, ◌++◌, ◌&&◌, ◌||◌, if◌then◌else◌, is_some, ltb, ℤ, pos, negsuc, trim_space, to_lower,
  parse_uint,
}
use tailscale_derp.Portmap.{PortRequest, Request, Lease, Mapping, tcp, udp, expires_at}
use tailscale_derp.Endpoint.{
  Config, Endpoint, Manager, Error, Problem, no_ipv4_listener, no_ipv6_listener, no_ipv4_discovery,
  no_ipv6_discovery, port_not_preserved, bad_derp_port, bad_stun_port, ipv4_failed, ipv6_failed,
  mapping_failed, Event, asked_ipv4, asked_ipv6, asked_mapping, mapped, Log, wants_ipv4, wants_ipv6,
}
use tailscale_derp.Endpoint.Interfaces.{Env, Answer, MapAnswer, failed, found, given}
use tailscale_derp.Endpoint.Failures.{log_release, local_stun, without_mapping}

abbrev pub max_port : ℕ
max_port = 65535

unfoldable pub nonzero : Option ℕ → Option (ℕ × Bool)
nonzero none = none
nonzero (some n) = if n == 0 then none else some (n, true)

-- requestedPort: the port and whether it is strict, or `none` for its error.
unfoldable pub requested_port : String → ℕ → Option (ℕ × Bool)
unfolding nonzero
requested_port value local_port =
    let v = trim_space (to_lower value) in
    if str_eq v "" || str_eq v "auto"
    then some (local_port, false)
    else nonzero (parse_uint max_port v)

pub data Requested : Type 0 where
  bad : Problem → Requested
  requested : Request → Requested

abbrev pub request_of : Config → ℕ → ℕ → Bool → Option PortRequest → Request
request_of c derp external strict stun = record {
  interface_name = c.wan_interface;
  derp = record { protocol = tcp; internal_port = derp; external_port = external; strict = strict };
  stun = stun;
  lifetime = c.lease_duration;
}

unfoldable pub stun_request : ℕ → Request → Option (ℕ × Bool) → Requested
stun_request port r none = bad bad_stun_port
stun_request port r (some (external, strict)) = requested (record r {
  stun =
      some (record {
        protocol = udp;
        internal_port = port;
        external_port = external;
        strict = strict;
      });
})

unfoldable pub derp_request : Config → ℕ → ℕ → Option (ℕ × Bool) → Requested
unfolding stun_request
derp_request c derp stun none = bad bad_derp_port
derp_request c derp stun (some (external, strict)) =
    if c.stun_enabled
    then stun_request stun (request_of c derp external strict none)
        (requested_port c.stun_port stun)
    else requested (request_of c derp external strict none)

unfoldable pub mapping_request : Config → ℕ → ℕ → Requested
unfolding derp_request
mapping_request c derp stun = derp_request c derp stun (requested_port c.derp_port derp)

pub record Draft : Type 0 where
  pub candidate : Endpoint
  pub mapping : Option Mapping
  pub problems : Error
  pub log : Log

abbrev pub add_problem : Problem → Draft → Draft
add_problem p d = record d { problems = d.problems ++ p ∷ [] }

unfoldable pub direct_ipv4 : Answer → Draft → Draft
direct_ipv4 (failed why) d = add_problem (ipv4_failed why) d
direct_ipv4 (found text) d = record d { candidate = record d.candidate { ipv4 = text } }

abbrev pub stun_of : Option Lease → ℤ
stun_of none = negsuc 0
stun_of (some l) = pos l.external_port

abbrev pub mapping_of : String → Lease → Option Lease → Mapping
mapping_of method l stun = record { method = method; derp = some l; stun = stun }

unfoldable pub nat_ipv4 : Env → MapAnswer → Draft → Draft
nat_ipv4 env (failed why) d = add_problem (mapping_failed why) d
nat_ipv4 env (given method l stun) d = record d {
  mapping = some (mapping_of method l stun);
  candidate = record d.candidate {
    ipv4 = env.addr_text l.external_ip;
    derp_port = l.external_port;
    stun_port = stun_of stun;
    method = method;
    lease_until = some (expires_at (some (mapping_of method l stun)));
  };
  log = mapped (mapping_of method l stun) ∷ d.log;
}

unfoldable pub nat_request : Env → Requested → Draft → Draft
unfolding nat_ipv4
nat_request env (bad p) d = add_problem p d
nat_request env (requested r) d =
    nat_ipv4 env (env.map_port r (asked_mapping ∷ d.log)) (record d { log = asked_mapping ∷ d.log })

unfoldable pub direct_request : Config → Option (String → Log → Answer) → Draft → Draft
unfolding direct_ipv4
direct_request c none d = add_problem no_ipv4_discovery d
direct_request c (some find) d =
    direct_ipv4 (find c.wan_interface (asked_ipv4 ∷ d.log)) (record d { log = asked_ipv4 ∷ d.log })

unfoldable pub draft_ipv4 : Env → Manager → Draft → Draft
unfolding nat_request direct_request
draft_ipv4 env m d =
    if not (wants_ipv4 m.cfg)
    then d
    else if not m.supports_ipv4
    then add_problem no_ipv4_listener d
    else if str_eq m.cfg.mode "direct"
    then direct_request m.cfg env.public_ipv4 d
    else nat_request env (mapping_request m.cfg m.local_derp_port m.local_stun_port) d

unfoldable pub ipv6_answer : Answer → Draft → Draft
ipv6_answer (failed why) d = add_problem (ipv6_failed why) d
ipv6_answer (found text) d = record d { candidate = record d.candidate { ipv6 = text } }

unfoldable pub ipv6_request : Config → Option (String → Log → Answer) → Draft → Draft
unfolding ipv6_answer
ipv6_request c none d = add_problem no_ipv6_discovery d
ipv6_request c (some find) d =
    ipv6_answer (find c.wan_interface (asked_ipv6 ∷ d.log)) (record d { log = asked_ipv6 ∷ d.log })

unfoldable pub draft_ipv6 : Env → Manager → Draft → Draft
unfolding ipv6_request
draft_ipv6 env m d =
    if not (wants_ipv6 m.cfg)
    then d
    else if not m.supports_ipv6
    then add_problem no_ipv6_listener d
    else ipv6_request m.cfg env.public_ipv6 d

abbrev pub has_both : Endpoint → Bool
has_both e = not (str_eq e.ipv4 "") && not (str_eq e.ipv6 "")

abbrev pub ports_differ : Manager → Endpoint → Bool
ports_differ m e =
    not (e.derp_port == m.local_derp_port)
    || m.cfg.stun_enabled && not (e.stun_port ==ℤ pos m.local_stun_port)

-- A DERP map node has one set of ports: a mapping on other ports gives way to direct IPv6.
unfoldable pub keep_ports : Manager → Draft → Draft
keep_ports m d =
    if has_both d.candidate && is_some d.mapping && ports_differ m d.candidate
    then record d {
      mapping = none;
      candidate =
          without_mapping m.local_derp_port (local_stun m.cfg.stun_enabled m.local_stun_port)
            (record d.candidate { ipv4 = "" });
      problems = d.problems ++ port_not_preserved ∷ [];
      log = log_release d.mapping d.log;
    }
    else d

unfoldable pub name_method : Draft → Draft
name_method d =
    if has_both d.candidate && is_some d.mapping
    then record d { candidate = record d.candidate { method = "nat+direct" } }
    else d

unfoldable pub first_draft : Manager → Draft
first_draft m = record {
  candidate = record {
    ipv4 = "";
    ipv6 = "";
    derp_port = m.local_derp_port;
    stun_port = local_stun m.cfg.stun_enabled m.local_stun_port;
    method = "direct";
    lease_until = none;
  };
  mapping = none;
  problems = [];
  log = m.log;
}

-- The draft up to the test that an address was found.
unfoldable pub build_draft : Env → Manager → Draft
unfolding first_draft draft_ipv4 draft_ipv6 keep_ports
build_draft env m = keep_ports m (draft_ipv6 env m (draft_ipv4 env m (first_draft m)))
