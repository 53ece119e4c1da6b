-- ===== src/Devices/Snapshot.antt =====
-- internal/ops/devices.go: the list of devices merged over the instances, and the admission of a
-- client by any of three ways. A Go map is a list in the order of iteration.
pub mod Merged
use tailscale_derp.Base.{
  ℕ, ◌-◌, ◌≡◌, ◌==◌, ltb, String, str_eq, Bool, true, false, not, Option, none, some, List, [], ◌∷◌,
  ◌++◌, ◌&&◌, ◌||◌, ◌+++◌, if◌then◌else◌, find, put, any, length,
}
use tailscale_derp.Derpmap.{ApiConfig}
use tailscale_derp.Derpmap.Sync.{is_configured}
use tailscale_derp.Devices.{
  Device, DeviceOrigin, DeviceCache, DeviceStore, Clock, name_is, cache_entry, is_fresh, allowed,
}

-- The keys of a Go set, as a list.
abbrev pub is_in : String → List String → Bool
is_in s seen = any seen (λ t. str_eq t s)

-- appendUnique: its loop over the additions.
unfoldable pub append_new : List String → List String → List String → List String
append_new values seen [] = values
append_new values seen (v ∷ rest) =
    let fresh = not (str_eq v "") && not (is_in v seen) in
    append_new (if fresh then values ++ (v ∷ []) else values) (if fresh then v ∷ seen else seen)
      rest

unfoldable pub append_unique : List String → List String → List String
unfolding append_new
append_unique values additions = append_new values values additions

abbrev pub nul : String
nul = "\0"

unfoldable pub origin_key : DeviceOrigin → String
origin_key o = o.instance_name +++ nul +++ o.node_id

unfoldable pub is_blank_origin : DeviceOrigin → Bool
is_blank_origin o = str_eq o.instance_name "" || str_eq o.node_id ""

unfoldable pub origin_keys : List DeviceOrigin → List String
unfolding origin_key
origin_keys [] = []
origin_keys (o ∷ os) = origin_key o ∷ origin_keys os

unfoldable pub append_new_origins :
    List DeviceOrigin → List String → List DeviceOrigin → List DeviceOrigin
unfolding origin_key is_blank_origin
append_new_origins values seen [] = values
append_new_origins values seen (o ∷ rest) =
    let fresh = not (is_blank_origin o) && not (is_in (origin_key o) seen) in
    append_new_origins (if fresh then values ++ (o ∷ []) else values)
      (if fresh then origin_key o ∷ seen else seen) rest

-- appendUniqueOrigins.
unfoldable pub append_unique_origins : List DeviceOrigin → List DeviceOrigin → List DeviceOrigin
unfolding append_new_origins origin_keys
append_unique_origins values additions = append_new_origins values (origin_keys values) additions

pub record DeviceSyncStatus : Type 0 where
  pub name : String
  pub label : String
  pub tailnet : String
  pub auth_type : String
  pub configured : Bool
  pub fresh : Bool
  pub last_attempt : String
  pub last_success : String
  pub device_count : ℕ
  pub error : String

pub record DevicesResponse : Type 0 where
  pub devices : List Device
  pub instances : List DeviceSyncStatus

abbrev pub time_or_empty : Clock → ℕ → String
time_or_empty clock t = if t == 0 then "" else clock.time_text t

unfoldable pub status_of : Clock → ℕ → ℕ → ApiConfig → DeviceCache → DeviceSyncStatus
unfolding is_fresh is_configured
status_of clock now ttl c e = record {
  name = c.name;
  label = if str_eq c.label "" then c.name else c.label;
  tailnet = c.tailnet;
  auth_type = c.auth_type;
  configured = is_configured c;
  fresh = is_fresh ttl now e;
  last_attempt = time_or_empty clock e.last_attempt;
  last_success = time_or_empty clock e.last_success;
  device_count = length e.devices;
  error = e.err;
}

unfoldable pub join_device : Device → Option Device → Device
unfolding append_unique append_unique_origins
join_device d none = d
join_device d (some old) = record old {
  sources = append_unique old.sources d.sources;
  origins = append_unique_origins old.origins d.origins;
}

-- The inner loop of snapshot, over the devices of one entry.
unfoldable pub merge_devices :
    List (String × Device) → List (String × Device) → List (String × Device)
unfolding join_device put find
merge_devices merged [] = merged
merge_devices merged ((k, d) ∷ rest) =
    merge_devices (put (name_is k) k (join_device d (find (name_is k) merged)) merged) rest

unfoldable pub merge_entries :
    List (String × DeviceCache) → List ApiConfig → List (String × Device) → List (String × Device)
unfolding merge_devices cache_entry find
merge_entries cache [] merged = merged
merge_entries cache (c ∷ cs) merged =
    merge_entries cache cs
      (merge_devices merged (cache_entry (find (name_is c.name) cache)).devices)

unfoldable pub statuses :
    Clock → ℕ → ℕ → List (String × DeviceCache) → List ApiConfig → List DeviceSyncStatus
unfolding status_of cache_entry find
statuses clock now ttl cache [] = []
statuses clock now ttl cache (c ∷ cs) =
    status_of clock now ttl c (cache_entry (find (name_is c.name) cache))
    ∷ statuses clock now ttl cache cs

unfoldable pub only_devices : List (String × Device) → List Device
only_devices [] = []
only_devices ((k, d) ∷ rest) = d ∷ only_devices rest

-- (s *deviceStore) snapshot.
unfoldable pub snapshot : Clock → ℕ → DeviceStore → DevicesResponse
unfolding merge_entries statuses only_devices
snapshot clock now s = record {
  devices = only_devices (merge_entries s.cache s.configs []);
  instances = statuses clock now s.ttl s.cache s.configs;
}

pub record VerifyConfig : Type 0 where
  pub enabled : Bool
  pub urls_enabled : Bool
  pub tailscaled_enabled : Bool
  pub api_enabled : Bool
  pub urls : List String

-- (v *verifier) verifyURLs: the first URL that accepts the key.
unfoldable pub verify_urls : (String → String → Bool) → List String → String → Bool
verify_urls accepts [] key = false
verify_urls accepts (u ∷ us) key =
    let rest = verify_urls accepts us key in if accepts u key then true else rest

-- (v *verifier) verify. Whether a URL accepts a key and whether tailscaled knows it are parameters.
unfoldable pub verify :
    (String → String → Bool)
    → (String → Bool)
    → Clock
    → ℕ
    → VerifyConfig
    → DeviceStore
    → String
    → Bool
unfolding verify_urls allowed
verify accepts knows clock now v s key =
    if not v.enabled
    then true
    else if v.urls_enabled && verify_urls accepts v.urls key
    then true
    else if v.tailscaled_enabled && knows key
    then true
    else v.api_enabled && allowed clock key now s
