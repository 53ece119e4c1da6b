-- ===== src/Portmap/Ports.antt =====
-- internal/portmap/natpmp.go and upnp.go: what their two backends share, the DERP lease and then
-- the STUN lease, and the log of what is asked of a gateway.
pub mod Released
use tailscale_derp.Base.{
  ℕ, ◌≡◌, ◌==◌, List, [], ◌∷◌, Option, none, some, ◌⊎◌, inl, inr, if◌then◌else◌,
}
use tailscale_derp.Portmap.{PortRequest, Protocol, Lease, Mapping, Closure, Error}

-- A mapping was asked of a service for a port, with the port that it granted if it did; a mapping
-- of a service was removed.
pub data Act : Type 0 where
  added : ℕ → PortRequest → ℕ → Option ℕ → Act
  removed : ℕ → Protocol → ℕ → Option Error → Act

-- Newest first.
abbrev pub Acts : Type 0
Acts = List Act

unfoldable pub requested_port : PortRequest → ℕ
requested_port r = if r.external_port == 0 then r.internal_port else r.external_port

module _ (release : Option Closure → Acts → Acts)
    (acquire : PortRequest → Acts → (Lease ⊎ Error) × Acts) where
  unfoldable pub with_stun : Lease → (Lease ⊎ Error) × Acts → (Mapping ⊎ Error) × Acts
  with_stun derp (inl stun, acts) =
      (inl (record { method = ""; derp = some derp; stun = some stun }), acts)
  with_stun derp (inr e, acts) = (inr e, release derp.release acts)

  unfoldable pub with_derp : Option PortRequest → (Lease ⊎ Error) × Acts → (Mapping ⊎ Error) × Acts
  unfolding with_stun
  with_derp stun (inr e, acts) = (inr e, acts)
  with_derp none (inl derp, acts) =
      (inl (record { method = ""; derp = some derp; stun = none }), acts)
  with_derp (some r) (inl derp, acts) = with_stun derp (acquire r acts)

  -- The end of both Map functions.
  unfoldable pub map_ports : PortRequest → Option PortRequest → Acts → (Mapping ⊎ Error) × Acts
  unfolding with_derp
  map_ports derp stun acts = with_derp stun (acquire derp acts)
