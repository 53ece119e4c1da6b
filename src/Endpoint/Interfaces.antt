-- ===== src/Endpoint/Interfaces.antt =====
-- internal/endpoint/manager.go: the interfaces that the manager is given. Each answer is a function
-- of the calls made before; an interface that the given value does not implement, or that is nil,
-- is `none`. An address is its text, as netip.Addr's String gives it.
use tailscale_derp.Base.{String, Bool, Option, List}
use tailscale_derp.Portmap.{Request, Lease}
use tailscale_derp.Portmap.Address.{Addr}
use tailscale_derp.Endpoint.{Endpoint, ValidationResult, InstanceStatus, Log}

pub data Answer : Type 0 where
  failed : String → Answer
  found : String → Answer

-- The mapper gives an error, or a mapping with its method, its DERP lease and its STUN lease: the
-- client returns no mapping without a DERP lease.
pub data MapAnswer : Type 0 where
  failed : String → MapAnswer
  given : String → Lease → Option Lease → MapAnswer

pub record Env : Type 0 where
  pub map_port : Request → Log → MapAnswer
  pub addr_text : Addr → String
  pub public_ipv4 : Option (String → Log → Answer)
  pub public_ipv6 : Option (String → Log → Answer)
  pub network_fingerprint : Option (String → Log → Answer)
  pub validate : Endpoint → List String → Bool → Log → ValidationResult
  pub update_endpoint_ips : Option (List String → Log → Option String)
  pub publish : Option (Endpoint → Log → List InstanceStatus × Option String)
  pub withdraw : Log → List InstanceStatus × Option String
