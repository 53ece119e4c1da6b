-- ===== src/Devices/Management.antt =====
-- internal/ops/device_management.go and tailnet_api.go: the changes of devices through the API and
-- the cache. Parameters: the API's answers, JSON, netip's parsers and the clock's text. A Go map is
-- a list whose order is the order of iteration.
pub mod Handlers
pub mod Effects
pub mod Bounds
pub mod Sound
pub mod Cache
use mathlib.Core.Option
use tailscale_derp.Base.{
  ℕ, ◌≡◌, ◌==◌, leb, ltb, String, str_eq, Bool, true, false, not, Option, none, some, List, [], ◌∷◌,
  ◌++◌, ◌&&◌, if◌then◌else◌, find, put,
}
use tailscale_derp.Portmap.Address.{Addr, is_4}
use tailscale_derp.Derpmap.{ApiConfig}
use tailscale_derp.Derpmap.Sync.{
  Instance, missing, instance_at, api_instance, SyncError, unknown_instance, unconfigured_instance,
}
use tailscale_derp.Devices.{Device, DeviceCache, DeviceStore, name_is}

pub record Attribute : Type 0 where
  pub key : String
  pub value : String
  pub expiry : String
  pub comment : String

-- A JSON value: a string, or another value by its text.
pub data AttributeValue : Type 0 where
  a_string another : String → AttributeValue

-- A call of the API that reads or changes a device.
pub data Action : Type 0 where
  set_authorized set_key : Bool → Action
  set_name set_ipv4 : String → Action
  set_tags set_subnet_routes : List String → Action
  delete expire get_routes get_attributes : Action
  set_attribute : String → AttributeValue → ℕ → String → Action
  delete_attribute : String → Action

pub record Call : Type 0 where
  pub instance_name : String
  pub device_id : String
  pub action : Action

pub data Failure : Type 0 where
  unknown unconfigured : Failure
  api_error : ℕ → String → Failure
  other : String → Failure

-- The answer to the expire request, sent without the SDK: an error of the transport, or a status
-- and the message of an API error where the body is one.
pub data HttpReply : Type 0 where
  broken : String → HttpReply
  status : ℕ → Option String → HttpReply

pub record Api : Type 0 where
  pub call : Call → List Call → Option Failure
  pub expire : Call → List Call → HttpReply
  pub now_text : List Call → String
  pub parse_time : String → Option ℕ
  pub decode_json : String → Option AttributeValue
  pub parse_addr : String → Option Addr

-- The store and the calls made, newest first.
pub record World : Type 0 where
  pub store : DeviceStore
  pub calls : List Call

-- A string that is JSON itself is decoded in turn.
abbrev pub or_value : Option AttributeValue → AttributeValue → AttributeValue
or_value none v = v
or_value (some inner) v = inner

unfoldable pub decode_string : (String → Option AttributeValue) → AttributeValue → AttributeValue
decode_string decode (a_string text) = or_value (decode text) (a_string text)
decode_string decode (another text) = another text

unfoldable pub decode_device_attribute_value :
    (String → Option AttributeValue) → String → Option AttributeValue
unfolding decode_string
decode_device_attribute_value decode raw = Option.map (decode_string decode) (decode raw)

-- The loop over the devices of updateCachedDevice: the first of this ID is changed.
unfoldable pub update_device :
    (Device → Device) → String → List (String × Device) → List (String × Device)
update_device f id [] = []
update_device f id ((k, d) ∷ rest) =
    let more = update_device f id rest in
    if str_eq d.node_id id then (k, f d) ∷ rest else (k, d) ∷ more

unfoldable pub remove_device : String → List (String × Device) → List (String × Device)
remove_device id [] = []
remove_device id ((k, d) ∷ rest) =
    let more = remove_device id rest in if str_eq d.node_id id then rest else (k, d) ∷ more

unfoldable pub change_entry :
    (List (String × Device) → List (String × Device))
    → String
    → Option DeviceCache
    → DeviceStore
    → DeviceStore
unfolding put
change_entry f name none s = s
change_entry f name (some e) s = record s {
  cache = put (name_is name) name (record e { devices = f e.devices }) s.cache;
}

unfoldable pub update_cached_device :
    String → String → (Device → Device) → DeviceStore → DeviceStore
unfolding change_entry update_device find
update_cached_device name id f s =
    change_entry (update_device f id) name (find (name_is name) s.cache) s

unfoldable pub remove_cached_device : String → String → DeviceStore → DeviceStore
unfolding change_entry remove_device find
remove_cached_device name id s =
    change_entry (remove_device id) name (find (name_is name) s.cache) s

abbrev pub is_4_text : Option Addr → Bool
is_4_text none = false
is_4_text (some a) = is_4 a

-- The addresses of updateCachedIPv4: the first IPv4 address is replaced, the others are dropped.
unfoldable pub replace_ipv4 : (String → Option Addr) → String → Bool → List String → List String
unfolding is_4
replace_ipv4 parse ipv4 replaced [] = if replaced then [] else ipv4 ∷ []
replace_ipv4 parse ipv4 replaced (a ∷ rest) =
    let without = replace_ipv4 parse ipv4 replaced rest in
    let next = replace_ipv4 parse ipv4 true rest in
    if is_4_text (parse a) then if replaced then next else ipv4 ∷ next else a ∷ without

unfoldable pub update_cached_ipv4 :
    (String → Option Addr) → String → String → String → DeviceStore → DeviceStore
unfolding update_cached_device replace_ipv4
update_cached_ipv4 parse name id ipv4 s =
    update_cached_device name id
      (λ d. record d { addresses = replace_ipv4 parse ipv4 false d.addresses }) s

unfoldable pub read_reply : HttpReply → Option Failure
read_reply (broken why) = some (other why)
read_reply (status s message) = if leb 200 s && ltb s 300 then none else elim message [
  | none ↦ some (other "Tailscale API request failed")
  | some m ↦ some (api_error s m)
]

module _ (api : Api) where
  -- What the API makes of a call.
  unfoldable pub ask : Call → Action → List Call → Option Failure
  unfolding read_reply
  ask c expire calls = read_reply (api.expire c calls)
  ask c delete calls = api.call c calls
  ask c get_routes calls = api.call c calls
  ask c get_attributes calls = api.call c calls
  ask c (set_authorized b) calls = api.call c calls
  ask c (set_key b) calls = api.call c calls
  ask c (set_name n) calls = api.call c calls
  ask c (set_ipv4 a) calls = api.call c calls
  ask c (set_tags ts) calls = api.call c calls
  ask c (set_subnet_routes rs) calls = api.call c calls
  ask c (set_attribute k v t m) calls = api.call c calls
  ask c (delete_attribute k) calls = api.call c calls

  -- The change of the cache that follows a call without error.
  unfoldable pub settle : Call → Action → String → DeviceStore → DeviceStore
  unfolding update_cached_device remove_cached_device update_cached_ipv4
  settle c (set_authorized b) now s =
      update_cached_device c.instance_name c.device_id (λ d. record d { authorized = b }) s
  settle c (set_key b) now s =
      update_cached_device c.instance_name c.device_id (λ d. record d { key_expiry_disabled = b }) s
  settle c (set_name n) now s =
      update_cached_device c.instance_name c.device_id (λ d. record d { name = n }) s
  settle c (set_tags ts) now s =
      update_cached_device c.instance_name c.device_id (λ d. record d { tags = ts }) s
  settle c expire now s =
      update_cached_device c.instance_name c.device_id (λ d. record d { expires = now }) s
  settle c (set_ipv4 a) now s = update_cached_ipv4 api.parse_addr c.instance_name c.device_id a s
  settle c delete now s = remove_cached_device c.instance_name c.device_id s
  settle c get_routes now s = s
  settle c get_attributes now s = s
  settle c (set_subnet_routes rs) now s = s
  settle c (set_attribute k v t m) now s = s
  settle c (delete_attribute k) now s = s

  unfoldable pub answered : Call → Option Failure → World → Option Failure × World
  unfolding settle
  answered c (some f) w = (some f, record w { calls = c ∷ w.calls })
  answered c none w = (
    none,
    record { store = settle c c.action (api.now_text (c ∷ w.calls)) w.store; calls = c ∷ w.calls },
  )

  unfoldable pub at_instance : Instance → Call → World → Option Failure × World
  unfolding ask answered
  at_instance (missing unconfigured_instance) c w = (some unconfigured, w)
  at_instance (missing _) c w = (some unknown, w)
  at_instance (instance_at cfg) c w = answered c (ask c c.action w.calls) w

  -- setDeviceAuthorized, setDeviceName, setDeviceTags, setDeviceKey, deleteDevice, deviceRoutes,
  -- setDeviceRoutes, deviceAttributes, deleteDeviceAttribute, expireDevice and setDeviceIPv4.
  unfoldable pub perform : Call → World → Option Failure × World
  unfolding at_instance api_instance
  perform c w = at_instance (api_instance w.store.configs c.instance_name) c w
