-- ===== src/Devices.antt =====
-- internal/ops/devices.go: the cache of each API instance's devices, and the admission of clients.
-- Times are numbers, 0 the zero time. Parameters: the device list that the API gives, the reading of
-- a time in RFC 3339 and a time's text. The store's locks, HTTP client and sync interval are left out.
pub mod Admission
pub mod Management
pub mod Snapshot
pub mod Tests
use tailscale_derp.Base.{
  ℕ, ◌+◌, ◌-◌, ◌≡◌, ◌==◌, leb, ltb, String, str_eq, trim_space, Bool, true, false, not, Option,
  none, some, List, [], ◌∷◌, ◌++◌, ◌&&◌, ◌||◌, if◌then◌else◌, find, put, any,
}
use tailscale_derp.Derpmap.{ApiConfig}
use tailscale_derp.Derpmap.Sync.{is_configured}

pub record DeviceOrigin : Type 0 where
  pub instance_name : String
  pub label : String
  pub node_id : String

pub record Device : Type 0 where
  pub node_id : String
  pub node_key : String
  pub name : String
  pub hostname : String
  pub user : String
  pub addresses : List String
  pub os : String
  pub client_version : String
  pub authorized : Bool
  pub connected_to_control : Bool
  pub last_seen : String
  pub expires : String
  pub key_expiry_disabled : Bool
  pub tags : List String
  pub is_external : Bool
  pub is_ephemeral : Bool
  pub multiple_connections : Bool
  pub sources : List String
  pub origins : List DeviceOrigin

-- A device as the API gives it: LastSeen may be nil.
pub record RawDevice : Type 0 where
  pub node_id : String
  pub node_key : String
  pub name : String
  pub hostname : String
  pub user : String
  pub addresses : List String
  pub os : String
  pub client_version : String
  pub authorized : Bool
  pub connected_to_control : Bool
  pub last_seen : Option ℕ
  pub expires : ℕ
  pub key_expiry_disabled : Bool
  pub tags : List String
  pub is_external : Bool
  pub is_ephemeral : Bool

pub record DeviceCache : Type 0 where
  pub devices : List (String × Device)
  pub last_attempt : ℕ
  pub last_success : ℕ
  pub err : String

pub record DeviceStore : Type 0 where
  pub configs : List ApiConfig
  pub cache : List (String × DeviceCache)
  pub ttl : ℕ

pub record Clock : Type 0 where
  pub time_text : ℕ → String
  pub parse_time : String → Option ℕ

abbrev pub name_is : String → String → Bool
name_is name k = str_eq k name

abbrev pub empty_cache : DeviceCache
empty_cache = record { devices = []; last_attempt = 0; last_success = 0; err = "" }

unfoldable pub cache_entry : Option DeviceCache → DeviceCache
cache_entry none = empty_cache
cache_entry (some c) = c

abbrev normal_config : ApiConfig → ApiConfig
normal_config c = record c {
  tailnet = if str_eq (trim_space c.tailnet) "" then "-" else c.tailnet;
  auth_type = if str_eq c.auth_type "" then "api_key" else c.auth_type;
}

unfoldable pub normal_configs : List ApiConfig → List ApiConfig
normal_configs [] = []
normal_configs (c ∷ cs) = normal_config c ∷ normal_configs cs

unfoldable pub empty_entries : List ApiConfig → List (String × DeviceCache)
empty_entries [] = []
empty_entries (c ∷ cs) = put (name_is c.name) c.name empty_cache (empty_entries cs)

-- newDeviceStore; fifteen minutes where no time to live is given.
unfoldable pub new_device_store : List ApiConfig → ℕ → DeviceStore
unfolding normal_configs empty_entries
new_device_store configs ttl = record {
  configs = normal_configs configs;
  cache = empty_entries (normal_configs configs);
  ttl = if ttl == 0 then 900 else ttl;
}

unfoldable pub format_api_time_value : Clock → ℕ → String
format_api_time_value clock n = if n == 0 then "" else clock.time_text n

unfoldable pub format_api_time : Clock → Option ℕ → String
unfolding format_api_time_value
format_api_time clock none = ""
format_api_time clock (some n) = format_api_time_value clock n

unfoldable pub sanitize_device : Clock → RawDevice → ApiConfig → Device
unfolding format_api_time
sanitize_device clock raw c =
    let label = if str_eq c.label "" then c.name else c.label in
    record {
      node_id = raw.node_id;
      node_key = raw.node_key;
      name = raw.name;
      hostname = raw.hostname;
      user = raw.user;
      addresses = raw.addresses;
      os = raw.os;
      client_version = raw.client_version;
      authorized = raw.authorized;
      connected_to_control = raw.connected_to_control;
      last_seen = format_api_time clock raw.last_seen;
      expires = format_api_time_value clock raw.expires;
      key_expiry_disabled = raw.key_expiry_disabled;
      tags = raw.tags;
      is_external = raw.is_external;
      is_ephemeral = raw.is_ephemeral;
      multiple_connections = false;
      sources = label ∷ [];
      origins = record { instance_name = c.name; label = label; node_id = raw.node_id } ∷ [];
    }

-- The loop over the raw devices: a later one of the same key takes the place of an earlier one.
unfoldable pub collect_devices :
    Clock → ApiConfig → List RawDevice → List (String × Device) → List (String × Device)
unfolding sanitize_device
collect_devices clock c [] devices = devices
collect_devices clock c (raw ∷ rest) devices = collect_devices clock c rest (
    if str_eq raw.node_key ""
    then devices
    else put (name_is raw.node_key) raw.node_key (sanitize_device clock raw c) devices)

unfoldable pub record_failure : ℕ → String → String → DeviceStore → DeviceStore
unfolding cache_entry
record_failure now name why s =
    let entry = cache_entry (find (name_is name) s.cache) in
    record s {
      cache = put (name_is name) name (record entry { last_attempt = now; err = why }) s.cache;
    }

unfoldable pub refresh_instance :
    Clock → ℕ → ApiConfig → Option (List RawDevice) → DeviceStore → DeviceStore
unfolding record_failure collect_devices
refresh_instance clock now c none s = record_failure now c.name "Tailscale API request failed" s
refresh_instance clock now c (some raw) s = record s {
  cache =
      put (name_is c.name) c.name
        (record {
          devices = collect_devices clock c raw [];
          last_attempt = now;
          last_success = now;
          err = "";
        })
        s.cache;
}

-- The loop of refresh over the configurations that are left, each with the API's answer and the time.
unfoldable pub refresh_each :
    Clock → (ApiConfig → ℕ × Option (List RawDevice)) → List ApiConfig → DeviceStore → DeviceStore
unfolding refresh_instance record_failure
refresh_each clock list [] s = s
refresh_each clock list (c ∷ cs) s = refresh_each clock list cs (
    if not (is_configured c)
    then record_failure (list c).0 c.name "tailnet and selected API credentials are required" s
    else refresh_instance clock (list c).0 c (list c).1 s)

unfoldable pub refresh :
    Clock → (ApiConfig → ℕ × Option (List RawDevice)) → DeviceStore → DeviceStore
unfolding refresh_each
refresh clock list s = refresh_each clock list s.configs s

abbrev pub expired_at : ℕ → Option ℕ → Bool
expired_at now none = true
expired_at now (some t) = not (ltb now t)

unfoldable pub device_expired : Clock → String → ℕ → Bool
device_expired clock value now =
    if str_eq (trim_space value) "" then false else expired_at now (clock.parse_time value)

abbrev pub device_admits : Clock → ℕ → Option Device → Bool
device_admits clock now none = false
device_admits clock now (some d) =
    d.authorized && (d.key_expiry_disabled || not (device_expired clock d.expires now))

-- An entry is fresh until its last success is longer ago than the time to live.
unfoldable pub is_fresh : ℕ → ℕ → DeviceCache → Bool
is_fresh ttl now c = not (c.last_success == 0 || ltb ttl (now - c.last_success))

unfoldable pub entry_admits : Clock → ℕ → String → ℕ → String × DeviceCache → Bool
unfolding is_fresh device_expired
entry_admits clock ttl key now e =
    is_fresh ttl now e.1 && device_admits clock now (find (name_is key) e.1.devices)

unfoldable pub allowed : Clock → String → ℕ → DeviceStore → Bool
unfolding entry_admits
allowed clock key now s = any s.cache (entry_admits clock s.ttl key now)
