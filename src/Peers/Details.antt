-- ===== src/Peers/Details.antt =====
-- internal/ops/peers.go: the answer on the peers.
use tailscale_derp.Base.{
  ℕ, ◌≡◌, String, str_eq, Bool, true, false, Option, none, some, List, [], ◌∷◌, if◌then◌else◌, find,
}
use tailscale_derp.Devices.{Device, name_is}
use tailscale_derp.Tracker.{PeerInfo}
use tailscale_derp.Peers.{
  PeerIdentity, IdentityResolver, is_peer, PeerDetails, PeerAnswer, get_required, details, Reached,
}
use tailscale_derp.Peers.Sound.{Answered}

-- The last device of a key.
abbrev pub or_device : Option Device → Option Device → Option Device
or_device (some d) b = some d
or_device none b = b

abbrev pub last_of : String → List Device → Option Device
last_of key [] = none
last_of key (d ∷ ds) = or_device (last_of key ds) (if str_eq d.node_key key then some d else none)

-- An identity with what the API says of a device.
pub record IsOf (d : Device) (i : PeerIdentity) : Type 0 where
  pub source : i.source ≡ "official_api"
  pub name : i.name ≡ d.name
  pub hostname : i.hostname ≡ d.hostname
  pub user : i.user ≡ d.user
  pub node_id : i.node_id ≡ d.node_id
  pub addresses : i.addresses ≡ d.addresses
  pub os : i.os ≡ d.os
  pub client_version : i.client_version ≡ d.client_version
  pub tags : i.tags ≡ d.tags
  pub sources : i.sources ≡ d.sources

-- The identity that is shown with a key: that of its device; or one that a resolver which was reached
-- answers with, and none without a tailscaled.
abbrev pub Shown : Bool → ℕ → String → Option Device → Option PeerIdentity → Type 0
Shown has_local now key (some d) none = ⊥
Shown has_local now key (some d) (some i) = IsOf d i
Shown has_local now key none o =
    (has_local ≡ false → o ≡ none)
    × ((r : IdentityResolver) × (Reached r × Answered now o (find (name_is key) r.cache)))

abbrev pub AreShown : Bool → ℕ → List Device → List PeerInfo → List PeerDetails → Type 0
AreShown has_local now devices [] [] = Unit
AreShown has_local now devices [] (d ∷ ds) = ⊥
AreShown has_local now devices (p ∷ ps) [] = ⊥
AreShown has_local now devices (p ∷ ps) (d ∷ ds) =
    (d.info ≡ p)
    × Shown has_local now p.public_key (last_of p.public_key devices) d.identity
    × AreShown has_local now devices ps ds

-- What a request leaves: only a GET lists the peers, and then the cache has only keys of peers.
abbrev pub Detailed :
    String
    → Bool
    → List Device
    → ℕ
    → List PeerInfo
    → IdentityResolver
    → PeerAnswer × IdentityResolver
    → Type 0
Detailed method has_local devices now peers r (get_required, s) =
    (str_eq method "GET" ≡ false) × (s ≡ r)
Detailed method has_local devices now peers r (details ds, s) =
    (str_eq method "GET" ≡ true)
    × AreShown has_local now devices peers ds
    × Reached s
    × ((key : String) → is_peer peers key ≡ false → find (name_is key) s.cache ≡ none)
