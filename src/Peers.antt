-- ===== src/Peers.antt =====
-- internal/ops/peers.go: the identities of peers. A lookup runs beside the callers: it takes a slot,
-- later writes its answer into the cache, and last gives the slot back. Each of these is a step, and
-- so is a call of resolve or prune. What tailscaled answers is a parameter of the step.
pub mod Sound
pub mod Details
pub mod Tests
use tailscale_derp.Base.{
  ℕ, zero, suc, ◌+◌, ◌-◌, ◌*◌, ◌≡◌, ltb, String, str_eq, Bool, true, false, not, Option, none, some,
  List, [], ◌∷◌, ◌&&◌, ◌||◌, if◌then◌else◌, find, put, length, any,
}
use tailscale_derp.Devices.{Device, name_is}
use tailscale_derp.Devices.Snapshot.{is_in}
use tailscale_derp.Tracker.{PeerInfo}

pub record PeerIdentity : Type 0 where
  pub source : String
  pub name : String
  pub hostname : String
  pub user : String
  pub node_id : String
  pub addresses : List String
  pub os : String
  pub client_version : String
  pub tags : List String
  pub sources : List String

pub record IdentityEntry : Type 0 where
  pub identity : Option PeerIdentity
  pub expires : ℕ
  pub pending : Bool

-- The cache and the slots taken; then the keys whose lookup has not answered, and how many lookups
-- have answered and hold their slot still.
pub record IdentityResolver : Type 0 where
  pub cache : List (String × IdentityEntry)
  pub slots : ℕ
  pub looking : List String
  pub leaving : ℕ

unfoldable pub new_identity_resolver : IdentityResolver
new_identity_resolver = record { cache = []; slots = 0; looking = []; leaving = 0 }

abbrev pub minute : ℕ
minute = 60

abbrev pub waiting : IdentityEntry
waiting = record { identity = none; expires = 0; pending = true }

-- The select of resolve: a free slot starts a lookup.
unfoldable pub begin_lookup : String → IdentityResolver → IdentityResolver
unfolding put
begin_lookup key r =
    if ltb r.slots 2
    then record {
      cache = put (name_is key) key waiting r.cache;
      slots = r.slots + 1;
      looking = key ∷ r.looking;
      leaving = r.leaving;
    }
    else r

unfoldable pub is_current : ℕ → IdentityEntry → Bool
is_current now e = e.pending || ltb now e.expires

unfoldable pub resolve_entry :
    String → ℕ → Option IdentityEntry → IdentityResolver → Option PeerIdentity × IdentityResolver
unfolding begin_lookup is_current
resolve_entry key now none r = (none, begin_lookup key r)
resolve_entry key now (some e) r =
    if is_current now e then (e.identity, r) else (none, begin_lookup key r)

-- resolve, up to the start of the goroutine.
unfoldable pub resolve : String → ℕ → IdentityResolver → Option PeerIdentity × IdentityResolver
unfolding resolve_entry find
resolve key now r = resolve_entry key now (find (name_is key) r.cache) r

-- The entry of an answer: five minutes for an identity, one for none.
unfoldable pub answer_entry : Option PeerIdentity → ℕ → IdentityEntry
answer_entry none now = record { identity = none; expires = now + minute; pending = false }
answer_entry (some i) now = record {
  identity = some i;
  expires = now + 5 * minute;
  pending = false;
}

unfoldable pub write_answer :
    String
    → IdentityEntry
    → Option IdentityEntry
    → List (String × IdentityEntry)
    → List (String × IdentityEntry)
unfolding put
write_answer key entry none cache = cache
write_answer key entry (some current) cache =
    if current.pending then put (name_is key) key entry cache else cache

abbrev pub drop_one : String → List String → List String
drop_one key [] = []
drop_one key (k ∷ ks) = if str_eq k key then ks else k ∷ drop_one key ks

-- The goroutine's write: only an entry that is pending is replaced.
unfoldable pub finish_lookup :
    String → Option PeerIdentity → ℕ → IdentityResolver → IdentityResolver
unfolding write_answer answer_entry find
finish_lookup key identity now r = record {
  cache = write_answer key (answer_entry identity now) (find (name_is key) r.cache) r.cache;
  slots = r.slots;
  looking = drop_one key r.looking;
  leaving = r.leaving + 1;
}

-- Its deferred receive from the slots.
unfoldable pub free_slot : IdentityResolver → IdentityResolver
free_slot r = record r { slots = r.slots - 1; leaving = r.leaving - 1 }

unfoldable pub keep_active :
    (String → Bool) → List (String × IdentityEntry) → List (String × IdentityEntry)
keep_active active [] = []
keep_active active ((k, e) ∷ rest) =
    let kept = keep_active active rest in if active k then (k, e) ∷ kept else kept

unfoldable pub prune : (String → Bool) → IdentityResolver → IdentityResolver
unfolding keep_active
prune active r = record r { cache = keep_active active r.cache }

unfoldable pub device_identity : Device → PeerIdentity
device_identity d = record {
  source = "official_api";
  name = d.name;
  hostname = d.hostname;
  user = d.user;
  node_id = d.node_id;
  addresses = d.addresses;
  os = d.os;
  client_version = d.client_version;
  tags = d.tags;
  sources = d.sources;
}

pub record PeerDetails : Type 0 where
  pub info : PeerInfo
  pub identity : Option PeerIdentity

-- The devices of a snapshot by key, a later one in place of an earlier one.
unfoldable pub by_node_key : List Device → List (String × Device) → List (String × Device)
unfolding put
by_node_key [] known = known
by_node_key (d ∷ ds) known = by_node_key ds (put (name_is d.node_key) d.node_key d known)

-- The identity of a known device; of another peer, what resolve answers where there is a tailscaled.
unfoldable pub identify :
    Bool → String → ℕ → Option Device → IdentityResolver → Option PeerIdentity × IdentityResolver
unfolding resolve device_identity
identify has_local key now none r = if has_local then resolve key now r else (none, r)
identify has_local key now (some d) r = (some (device_identity d), r)

unfoldable pub detail_peers :
    Bool
    → List (String × Device)
    → ℕ
    → List PeerInfo
    → IdentityResolver
    → List PeerDetails × IdentityResolver
unfolding identify find
detail_peers has_local known now [] r = ([], r)
detail_peers has_local known now (p ∷ ps) r =
    let found = identify has_local p.public_key now (find (name_is p.public_key) known) r in
    let rest = detail_peers has_local known now ps found.1 in
    (record { info = p; identity = found.0 } ∷ rest.0, rest.1)

abbrev pub is_peer : List PeerInfo → String → Bool
is_peer ps key = any ps (λ p. str_eq p.public_key key)

pub data PeerAnswer : Type 0 where
  get_required : PeerAnswer
  details : List PeerDetails → PeerAnswer

-- handlePeerDetails, over the peers of the tracker. The devices are those of the store's snapshot, none
-- where the verifier or its store is nil; `has_local` is whether the verifier and its local client are
-- not nil.
unfoldable pub peer_details :
    String
    → Bool
    → List Device
    → ℕ
    → List PeerInfo
    → IdentityResolver
    → PeerAnswer × IdentityResolver
unfolding detail_peers prune by_node_key
peer_details method has_local devices now peers r =
    if not (str_eq method "GET") then (get_required, r) else (
      details (detail_peers has_local (by_node_key devices []) now peers r).0,
      prune (is_peer peers) (detail_peers has_local (by_node_key devices []) now peers r).1,
    )

-- A step of a caller or of a lookup.
pub data Move : IdentityResolver → IdentityResolver → Type 0 where
  resolves : (r : IdentityResolver) (key : String) (now : ℕ) → Move r (resolve key now r).1
  answers :
      (r : IdentityResolver) (key : String) (identity : Option PeerIdentity) (now : ℕ)
      → is_in key r.looking ≡ true
      → Move r (finish_lookup key identity now r)
  leaves : (r : IdentityResolver) (n : ℕ) → r.leaving ≡ suc n → Move r (free_slot r)
  prunes : (r : IdentityResolver) (active : String → Bool) → Move r (prune active r)

-- What a new resolver comes to by steps in any order.
pub data Reached : IdentityResolver → Type 0 where
  start : Reached new_identity_resolver
  later : (r s : IdentityResolver) → Reached r → Move r s → Reached s
