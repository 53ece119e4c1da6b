-- ===== src/Portmap.antt =====
-- internal/portmap: port mappings on the gateway, by PCP, NAT-PMP or UPnP.
-- Ports are numbers below 2 ^ 16; times and durations are numbers, 0 being Go's zero time. The
-- `release` closure of a lease is the data that it captured, and a call of it is an event.
pub mod Address
pub mod Client
pub mod Wire
pub mod Pcp
pub mod Ports
pub mod Natpmp
pub mod Upnp
pub mod Routes
pub mod Tests
pub mod BackendTests
use tailscale_derp.Base.{
  ℕ, ◌==◌, ltb, ◌≡◌, String, Bool, true, false, not, Option, none, some, List, [], ◌∷◌, ◌++◌, ◌&&◌,
  ◌||◌, if◌then◌else◌,
}
use Address.{Addr}

pub data Protocol : Type 0 where
  tcp udp : Protocol

pub record PortRequest : Type 0 where
  pub protocol : Protocol
  pub internal_port : ℕ
  pub external_port : ℕ
  pub strict : Bool

pub record Request : Type 0 where
  pub interface_name : String
  pub derp : PortRequest
  pub stun : Option PortRequest
  pub lifetime : ℕ

-- What a release closure captured: NAT-PMP's client, PCP's gateway, source, request and nonce, or
-- UPnP's service. A PCP nonce is 12 bytes; a UPnP service is told apart by a number.
pub data Closure : Type 0 where
  natpmp_release : PortRequest → ℕ → Closure
  pcp_release : Addr → Addr → PortRequest → ℕ → List ℕ → Closure
  upnp_release : ℕ → ℕ → Protocol → Closure

pub record Lease : Type 0 where
  pub protocol : Protocol
  pub internal_port : ℕ
  pub external_port : ℕ
  pub external_ip : Addr
  pub expires_at : ℕ
  pub release : Option Closure

-- The pointer fields `DERP` and `STUN` may be nil.
pub record Mapping : Type 0 where
  pub method : String
  pub derp : Option Lease
  pub stun : Option Lease

-- What happens on the network: a backend is asked, it gives a mapping, a closure is called.
pub data Event : Type 0 where
  asked : String → Event
  got : Mapping → Event
  called : Closure → Event

-- An error is its message; errors.Join keeps the list.
abbrev pub Error : Type 0
Error = List String

abbrev pub Log : Type 0
Log = List Event

-- The answer of a call is a function of all that happened before it (newest first).
pub record Network : Type 0 where
  pub answer : Closure → Log → Option Error

-- (l *Lease) Release: a nil lease and a nil closure do nothing.
unfoldable pub release_lease : Network → Option Lease → Log → Option Error × Log
release_lease net none log = (none, log)
release_lease net (some l) log = elim l.release [
  | none ↦ (none, log)
  | some c ↦ (net.answer c log, called c ∷ log)
]

abbrev pub join : Option Error → Option Error → Option Error
join none b = b
join (some a) none = some a
join (some a) (some b) = some (a ++ b)

-- (m *Mapping) Release: both leases are released, whatever the first release answers.
unfoldable pub release_mapping : Network → Option Mapping → Log → Option Error × Log
unfolding release_lease
release_mapping net none log = (none, log)
release_mapping net (some m) log =
    let first = release_lease net m.derp log in
    let second = release_lease net m.stun first.1 in (join first.0 second.0, second.1)

expires_of : Lease → Option Lease → ℕ
expires_of d none = d.expires_at
expires_of d (some s) =
    if d.expires_at == 0 || ltb s.expires_at d.expires_at then s.expires_at else d.expires_at

-- (m *Mapping) ExpiresAt: the earlier of the two leases, a zero DERP time giving way.
unfoldable pub expires_at : Option Mapping → ℕ
unfolding expires_of
expires_at none = 0
expires_at (some m) = elim m.derp [ none ↦ 0 | some d ↦ expires_of d m.stun ]
