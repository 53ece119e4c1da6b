-- ===== src/Portmap/Natpmp.antt =====
-- internal/portmap/natpmp.go: the NAT-PMP backend. The client of go-nat-pmp, the routing table, the
-- context and the clock are parameters. Durations are nanoseconds.
use tailscale_derp.Base.{
  ℕ, ◌+◌, ◌*◌, ◌/◌, ◌≡◌, ◌==◌, [], ◌∷◌, not, ◌&&◌, Option, none, some, ◌⊎◌, inl, inr, if◌then◌else◌,
  Bool-cases, refl,
}
use tailscale_derp.Portmap.{
  PortRequest, Request, Lease, Mapping, Closure, natpmp_release, pcp_release, upnp_release, Error,
}
use tailscale_derp.Portmap.Routes.{System, default_gateway}
use tailscale_derp.Portmap.Address.{Addr, v4}
use tailscale_derp.Portmap.Pcp.Backend.{normalized_lifetime, second}
use tailscale_derp.Portmap.Ports.{Act, added, removed, Acts, requested_port, map_ports}
use tailscale_derp.Portmap.Ports.Released.{Traced, Settled, map_ports-Settled}

-- AddPortMapping gives the port and the lifetime in seconds.
pub record NatPmp : Type 0 where
  pub system : System
  pub external_address : Addr → ℕ ⊎ Error
  pub cancelled : Acts → Option Error
  pub add_port_mapping : PortRequest → ℕ → ℕ → Acts → (ℕ × ℕ) ⊎ Error
  pub clock : Acts → ℕ

unfoldable pub answered : PortRequest → ℕ → (ℕ × ℕ) ⊎ Error → Acts → Acts
answered r port (inl (granted, life)) acts = added 0 r port (some granted) ∷ acts
answered r port (inr e) acts = added 0 r port none ∷ acts

unfoldable pub error_of : (ℕ × ℕ) ⊎ Error → Option Error
error_of (inl x) = none
error_of (inr e) = some e

module _ (c : NatPmp) where
  -- The closure asks for the port again, for no time.
  unfoldable pub release_natpmp : Option Closure → Acts → Acts
  unfolding error_of
  release_natpmp (some (natpmp_release r port)) acts =
      removed 0 r.protocol port (error_of (c.add_port_mapping r port 0 acts)) ∷ acts
  release_natpmp (some (pcp_release gateway source r port nonce)) acts = acts
  release_natpmp (some (upnp_release service port protocol)) acts = acts
  release_natpmp none acts = acts

  unfoldable pub take_lease : PortRequest → Lease → Acts → (Lease ⊎ Error) × Acts
  unfolding release_natpmp requested_port
  take_lease r l acts =
      if r.strict && not (l.external_port == requested_port r)
      then (inr ("strict external port was not granted" ∷ []), release_natpmp l.release acts)
      else (inl l, acts)

  unfoldable pub settle : PortRequest → Addr → (ℕ × ℕ) ⊎ Error → Acts → (Lease ⊎ Error) × Acts
  unfolding take_lease
  settle r external (inr e) acts = (inr e, acts)
  settle r external (inl (port, life)) acts =
      take_lease r
        record {
          protocol = r.protocol;
          internal_port = r.internal_port;
          external_port = port;
          external_ip = external;
          expires_at = c.clock acts + life * second;
          release = some (natpmp_release r port);
        }
        acts

  -- acquireNATPMP.
  unfoldable pub acquire_unless :
      Option Error → Addr → ℕ → PortRequest → Acts → (Lease ⊎ Error) × Acts
  unfolding settle answered requested_port
  acquire_unless (some e) external lifetime r acts = (inr e, acts)
  acquire_unless none external lifetime r acts =
      let port = requested_port r in
      let answer = c.add_port_mapping r port (lifetime / second) acts in
      settle r external answer (answered r port answer acts)

  unfoldable pub acquire_natpmp : Addr → ℕ → PortRequest → Acts → (Lease ⊎ Error) × Acts
  unfolding acquire_unless
  acquire_natpmp external lifetime r acts =
      acquire_unless (c.cancelled acts) external lifetime r acts

  unfoldable pub map_external : Request → ℕ ⊎ Error → Acts → (Mapping ⊎ Error) × Acts
  unfolding map_ports acquire_natpmp release_natpmp normalized_lifetime
  map_external r (inr e) acts = (inr e, acts)
  map_external r (inl ip) acts =
      map_ports release_natpmp (acquire_natpmp (v4 ip) (normalized_lifetime r.lifetime)) r.derp
        r.stun acts

  unfoldable pub map_gateway : Request → Addr ⊎ Error → Acts → (Mapping ⊎ Error) × Acts
  unfolding map_external
  map_gateway r (inr e) acts = (inr e, acts)
  map_gateway r (inl gateway) acts = map_external r (c.external_address gateway) acts

  -- (natPMPBackend) Map.
  unfoldable pub map_natpmp : Request → Acts → (Mapping ⊎ Error) × Acts
  unfolding map_gateway default_gateway
  map_natpmp r acts = map_gateway r (default_gateway c.system r.interface_name) acts

  abbrev pub closure : ℕ → PortRequest → ℕ → Closure
  closure service r port = natpmp_release r port

  take_lease-Traced :
      (r : PortRequest) (port asked : ℕ) (l : Lease) (acts : Acts)
      → l.release ≡ some (natpmp_release r l.external_port)
      → Traced closure 0 r acts
          (take_lease r l (added 0 r asked (some l.external_port) ∷ acts)).0
          (take_lease r l (added 0 r asked (some l.external_port) ∷ acts)).1
  unfolding take_lease
  take_lease-Traced r port asked l acts h =
      let a : Act = added 0 r asked (some l.external_port) in
      elim (Bool-cases (r.strict && not (l.external_port == requested_port r))) [
        | inl q ↦ rw (q, h) (_ ∷ a ∷ [], refl, (tt, (inl (refl, refl, refl), tt)))
        | inr q ↦ rw q (a ∷ [], refl, (record { releases = h; strict_port = q }, (asked, refl)))
      ]

  settle-Traced :
      (r : PortRequest) (asked : ℕ) (external : Addr) (x : (ℕ × ℕ) ⊎ Error) (acts : Acts)
      → Traced closure 0 r acts
          (settle r external x (answered r asked x acts)).0
          (settle r external x (answered r asked x acts)).1
  unfolding settle answered
  settle-Traced r asked external (inr e) acts = (added 0 r asked none ∷ [], refl, (tt, tt))
  settle-Traced r asked external (inl (port, life)) acts =
      take_lease-Traced r port asked _ acts refl

  acquire-Traced :
      (external : Addr) (lifetime : ℕ) (o : Option Error) (r : PortRequest) (acts : Acts)
      → Traced closure 0 r acts
          (acquire_unless o external lifetime r acts).0
          (acquire_unless o external lifetime r acts).1
  unfolding acquire_unless
  acquire-Traced external lifetime (some e) r acts = ([], refl, tt)
  acquire-Traced external lifetime none r acts = settle-Traced r (requested_port r) external _ acts

  released :
      (r : PortRequest) (port : ℕ) (acts : Acts)
      → (e : Option Error) × (release_natpmp (some (natpmp_release r port)) acts
          ≡ removed 0 r.protocol port e ∷ acts)
  unfolding release_natpmp
  released r port acts = (_, refl)

  map_external-Settled :
      (r : Request) (x : ℕ ⊎ Error) (acts : Acts)
      → Settled closure 0 r.derp r.stun acts (map_external r x acts).0 (map_external r x acts).1
  unfolding map_external acquire_natpmp
  map_external-Settled r (inr e) acts = ([], refl, tt)
  map_external-Settled r (inl ip) acts =
      map_ports-Settled closure 0 release_natpmp _ released
        (λ p as'. acquire-Traced (v4 ip) (normalized_lifetime r.lifetime) (c.cancelled as') p as')
        r.derp r.stun acts

  map_gateway-Settled :
      (r : Request) (x : Addr ⊎ Error) (acts : Acts)
      → Settled closure 0 r.derp r.stun acts (map_gateway r x acts).0 (map_gateway r x acts).1
  unfolding map_gateway
  map_gateway-Settled r (inr e) acts = ([], refl, tt)
  map_gateway-Settled r (inl g) acts = map_external-Settled r (c.external_address g) acts

-- If a NAT-PMP Map fails, each port that it was granted was asked for again with no lifetime. If it
-- gives a mapping, its new acts are one grant for each requested port; each lease has the granted
-- port, the requested one where that was strict, and the closure for it.
pub map_natpmp-Settled :
    (c : NatPmp) (r : Request) (acts : Acts)
    → Settled (closure c) 0 r.derp r.stun acts (map_natpmp c r acts).0 (map_natpmp c r acts).1
unfolding map_natpmp
map_natpmp-Settled c r acts =
    map_gateway-Settled c r (default_gateway c.system r.interface_name) acts
