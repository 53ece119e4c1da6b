-- ===== src/Endpoint/Laws/Same.antt =====
-- sameMapping is an equality test on what a release of the mapping names on the gateway.
use tailscale_derp.Base.{◌≡◌, refl, eq_iff, eq_refl, true, Option, none, some, arith}
use tailscale_derp.Portmap.{Protocol, tcp, udp, Lease, Mapping}
use tailscale_derp.Portmap.Address.{Addr, invalid, v4, v6}
use tailscale_derp.Portmap.Client.{same_addr}
use tailscale_derp.Endpoint.Operations.{same_protocol, same_lease, same_mapping}

same_addr_refl : (a : Addr) → same_addr a a ≡ true
unfolding same_addr
same_addr_refl invalid = refl
same_addr_refl (v4 n) = ground arith
same_addr_refl (v6 n) = ground arith

same_addr-eq : (a b : Addr) → same_addr a b ≡ true → a ≡ b
unfolding same_addr
same_addr-eq invalid invalid h = refl
same_addr-eq (v4 a) (v4 b) h = ground arith
same_addr-eq (v6 a) (v6 b) h = ground arith
same_addr-eq _ _ h = cc

same_protocol_refl : (p : Protocol) → same_protocol p p ≡ true
unfolding same_protocol
same_protocol_refl tcp = refl
same_protocol_refl udp = refl

same_protocol-eq : (p q : Protocol) → same_protocol p q ≡ true → p ≡ q
unfolding same_protocol
same_protocol-eq tcp tcp h = refl
same_protocol-eq udp udp h = refl
same_protocol-eq _ _ h = cc

same_lease_refl : (a : Option Lease) → same_lease a a ≡ true
unfolding same_lease
same_lease_refl none = refl
same_lease_refl (some a) =
    rw (same_protocol_refl a.protocol, same_addr_refl a.external_ip) (ground arith)

same_lease_cong : (a b c : Option Lease) → same_lease a b ≡ true → same_lease a c ≡ same_lease b c
unfolding same_lease
same_lease_cong none none c h = refl
same_lease_cong none (some b) c h = cc
same_lease_cong (some a) none c h = cc
same_lease_cong (some a) (some b) none h = refl
same_lease_cong (some a) (some b) (some c) h =
    ground (arith, same_protocol-eq a.protocol b.protocol, same_addr-eq a.external_ip b.external_ip)

pub same_mapping_refl : (a : Mapping) → same_mapping (some a) (some a) ≡ true
unfolding same_mapping
same_mapping_refl a = rw (same_lease_refl a.derp, same_lease_refl a.stun, eq_refl a.method) refl

-- Mappings that are the same are the same as the same mappings.
pub same_mapping_cong :
    (a b c : Mapping)
    → same_mapping (some a) (some b) ≡ true
    → same_mapping (some a) (some c) ≡ same_mapping (some b) (some c)
unfolding same_mapping
same_mapping_cong a b c h = ground (
  arith,
  eq_iff a.method b.method,
  same_lease_cong a.derp b.derp c.derp,
  same_lease_cong a.stun b.stun c.stun,
)
