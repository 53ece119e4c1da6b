-- ===== src/Portmap/Upnp.antt =====
-- internal/portmap/upnp.go: the UPnP backend. goupnp's discovery and services, netip's parser, the
-- routing table and the clock are parameters. Durations are nanoseconds.
pub mod Released
use tailscale_derp.Base.{
  ℕ, ◌+◌, ◌*◌, ◌/◌, ◌%◌, ◌^◌, ◌≡◌, ◌==◌, String, List, [], ◌∷◌, ◌++◌, Bool, true, false, not, ◌&&◌,
  Option, none, some, ◌⊎◌, inl, inr, if◌then◌else◌, trim_space,
}
use tailscale_derp.Portmap.{
  PortRequest, Protocol, Request, Lease, Mapping, Closure, natpmp_release, pcp_release,
  upnp_release, Error,
}
use tailscale_derp.Portmap.Routes.{System, default_gateway, source_ipv4}
use tailscale_derp.Portmap.Address.{Addr, invalid, v4, v6, unmap}
use tailscale_derp.Portmap.Client.{same_addr}
use tailscale_derp.Portmap.Pcp.Backend.{normalized_lifetime, second}
use tailscale_derp.Portmap.Ports.{Act, added, removed, Acts, requested_port, map_ports}

-- A service by number; its local address is what netip.AddrFromSlice gives, and `any_port` says
-- whether it has AddAnyPortMapping.
pub record Service : Type 0 where
  pub id : ℕ
  pub local_addr : Addr
  pub any_port : Bool

pub record Upnp : Type 0 where
  pub system : System
  pub clients2 : Acts → List Service × Option Error
  pub clients1 : Acts → List Service × Option Error
  pub external_ip : ℕ → Acts → String ⊎ Error
  pub parse_addr : String → Addr ⊎ Error
  pub add_port_mapping : ℕ → PortRequest → ℕ → ℕ → Acts → Option Error
  pub add_any_port_mapping : ℕ → PortRequest → ℕ → Acts → ℕ ⊎ Error
  pub delete_port_mapping : ℕ → ℕ → Protocol → Acts → Option Error
  pub clock : Acts → ℕ

unfoldable pub is_valid : Addr → Bool
is_valid invalid = false
is_valid (v4 n) = true
is_valid (v6 n) = true

abbrev text_of : Option Error → Error
text_of none = []
text_of (some e) = e

-- What AddAnyPortMapping answered.
unfoldable pub any_answered : ℕ → PortRequest → ℕ ⊎ Error → Acts → (ℕ ⊎ Error) × Acts
any_answered service r (inl port) acts = (inl port, added service r 0 (some port) ∷ acts)
any_answered service r (inr e) acts = (inr e, added service r 0 none ∷ acts)

-- A service that failed adds its error, and the next is tried.
unfoldable pub next_service :
    (Error → Acts → (Mapping ⊎ Error) × Acts)
    → Error
    → (Mapping ⊎ Error) × Acts
    → (Mapping ⊎ Error) × Acts
next_service go_on errs (inl m, acts) = (inl m, acts)
next_service go_on errs (inr e, acts) = go_on (errs ++ e) acts

unfoldable pub add_errors : Error → (Mapping ⊎ Error) × Acts → (Mapping ⊎ Error) × Acts
add_errors more (inl m, acts) = (inl m, acts)
add_errors more (inr e, acts) = (inr (e ++ more), acts)

module _ (c : Upnp) where
  unfoldable pub release_upnp : Option Closure → Acts → Acts
  release_upnp (some (upnp_release service port protocol)) acts =
      removed service protocol port (c.delete_port_mapping service port protocol acts) ∷ acts
  release_upnp (some (natpmp_release q port)) acts = acts
  release_upnp (some (pcp_release gateway source q port nonce)) acts = acts
  release_upnp none acts = acts

  -- The second attempt, where the service has it and the port need not be the one asked for.
  unfoldable pub attempt_any : Service → PortRequest → ℕ → Error → Bool → Acts → (ℕ ⊎ Error) × Acts
  unfolding any_answered
  attempt_any service r lifetime e true acts =
      any_answered service.id r (c.add_any_port_mapping service.id r lifetime acts) acts
  attempt_any service r lifetime e false acts = (inr e, acts)

  unfoldable pub first_answered :
      Service → PortRequest → ℕ → Option Error → Acts → (ℕ ⊎ Error) × Acts
  unfolding attempt_any requested_port
  first_answered service r lifetime none acts = (
    inl (requested_port r),
    added service.id r (requested_port r) (some (requested_port r)) ∷ acts,
  )
  first_answered service r lifetime (some e) acts =
      attempt_any service r lifetime e (not r.strict && service.any_port)
        (added service.id r (requested_port r) none ∷ acts)

  unfoldable pub granted_lease :
      Service → Addr → ℕ → PortRequest → (ℕ ⊎ Error) × Acts → (Lease ⊎ Error) × Acts
  granted_lease service external lifetime r (inr e, acts) = (inr e, acts)
  granted_lease service external lifetime r (inl port, acts) = (
    inl record {
      protocol = r.protocol;
      internal_port = r.internal_port;
      external_port = port;
      external_ip = external;
      expires_at = c.clock acts + lifetime * second;
      release = some (upnp_release service.id port r.protocol);
    },
    acts,
  )

  -- acquireUPnP.
  unfoldable pub acquire_upnp : Service → Addr → ℕ → PortRequest → Acts → (Lease ⊎ Error) × Acts
  unfolding granted_lease first_answered requested_port
  acquire_upnp service external lifetime r acts = granted_lease service external lifetime r (
      first_answered service r lifetime
        (c.add_port_mapping service.id r (requested_port r) lifetime acts) acts)

  unfoldable pub map_at : Service → Request → Addr ⊎ Error → Acts → (Mapping ⊎ Error) × Acts
  unfolding map_ports acquire_upnp release_upnp normalized_lifetime unmap
  map_at service r (inr e) acts = (inr e, acts)
  map_at service r (inl external) acts =
      map_ports release_upnp
        (acquire_upnp service (unmap external) (normalized_lifetime r.lifetime / second % 2 ^ 32))
        r.derp r.stun acts

  unfoldable pub parsed : String ⊎ Error → Addr ⊎ Error
  unfolding trim_space
  parsed (inl raw) = c.parse_addr (trim_space raw)
  parsed (inr e) = inr e

  -- mapUPnPService: a service at another local address is not used.
  unfoldable pub map_upnp_service : Service → Request → Addr → Acts → (Mapping ⊎ Error) × Acts
  unfolding map_at parsed same_addr unmap is_valid
  map_upnp_service service r source acts =
      if is_valid service.local_addr && same_addr (unmap service.local_addr) (unmap source)
      then map_at service r (parsed (c.external_ip service.id acts)) acts
      else (inr ("UPnP service uses another local address" ∷ []), acts)

  -- A loop over services: the mapping that ends it, or the errors so far.
  unfoldable pub try_services :
      List Service → Request → Addr → Error → Acts → (Mapping ⊎ Error) × Acts
  unfolding next_service
  try_services [] r source errs acts = (inr errs, acts)
  try_services (s ∷ rest) r source errs acts =
      next_service (λ errs' acts'. try_services rest r source errs' acts') errs
        (map_upnp_service s r source acts)

  -- The services of version 1 after those of version 2, and the errors of both discoveries.
  unfoldable pub second_version :
      Request → Addr → Option Error → (Mapping ⊎ Error) × Acts → (Mapping ⊎ Error) × Acts
  unfolding try_services add_errors
  second_version r source err2 (inl m, acts) = (inl m, acts)
  second_version r source err2 (inr errs, acts) =
      let found = c.clients1 acts in
      add_errors
        (text_of err2 ++ (text_of found.1 ++ ("no usable UPnP WANIPConnection service found" ∷ [])))
        (try_services found.0 r source errs acts)

  unfoldable pub with_source : Request → Addr ⊎ Error → Acts → (Mapping ⊎ Error) × Acts
  unfolding second_version try_services
  with_source r (inr e) acts = (inr e, acts)
  with_source r (inl source) acts =
      let found = c.clients2 acts in
      second_version r source found.1 (try_services found.0 r source [] acts)

  unfoldable pub with_gateway : Request → Addr ⊎ Error → Acts → (Mapping ⊎ Error) × Acts
  unfolding with_source source_ipv4
  with_gateway r (inr e) acts = (inr e, acts)
  with_gateway r (inl gateway) acts =
      with_source r (source_ipv4 c.system gateway r.interface_name) acts

  -- (upnpBackend) Map.
  unfoldable pub map_upnp : Request → Acts → (Mapping ⊎ Error) × Acts
  unfolding with_gateway default_gateway
  map_upnp r acts = with_gateway r (default_gateway c.system r.interface_name) acts
