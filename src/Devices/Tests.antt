-- ===== src/Devices/Tests.antt =====
-- Runs of the device cache at concrete inputs.
use tailscale_derp.Base.{
  ℕ, ◌≡◌, refl, arith, true, false, Option, none, some, List, [], ◌∷◌, pos, trim_space, find, inl,
  inr, All,
}
use tailscale_derp.Derpmap.{ApiConfig}
use tailscale_derp.Devices.{
  Device, DeviceCache, DeviceStore, RawDevice, Clock, refresh, allowed, device_expired,
}
use tailscale_derp.Portmap.Address.{v4, ip4}
use tailscale_derp.Devices.{cache_entry, name_is}
use tailscale_derp.Devices.Snapshot.{snapshot}
use tailscale_derp.Devices.Snapshot.Merged.{AllIn, snapshot-AllIn}
use tailscale_derp.Devices.Management.{another, Api, World, Call, status, delete, perform}
use tailscale_derp.Devices.Management.Handlers.{HttpRequest, Decoders, handle, tags_handler}
use tailscale_derp.Devices.Management.Cache.{Refuses, by_deletion, perform-Refuses}
use tailscale_derp.Devices.Admission.{SameAdmission, refresh-SameAdmission, refresh-allowed}

abbrev clock : Clock
clock = record { time_text = λ n. "later"; parse_time = λ s. some 5000 }

abbrev config : ApiConfig
config = record {
  name = "home";
  label = "";
  tailnet = "-";
  auth_type = "api_key";
  api_key = "secret";
  oauth_client_id = "";
  oauth_client_secret = "";
  derp_map_sync = false;
  stun_only = false;
  region_id = pos 900;
  region_code = "home";
  region_name = "Home";
  node_name = "900a";
  hostname = "derp.example.com";
  cert_name = "";
}

abbrev phone : Device
phone = record {
  node_id = "n1";
  node_key = "nodekey:a";
  name = "phone";
  hostname = "phone";
  user = "me";
  addresses = [];
  os = "android";
  client_version = "1";
  authorized = true;
  connected_to_control = true;
  last_seen = "";
  expires = "later";
  key_expiry_disabled = false;
  tags = [];
  is_external = false;
  is_ephemeral = false;
  multiple_connections = false;
  sources = "home" ∷ [];
  origins = record { instance_name = "home"; label = "home"; node_id = "n1" } ∷ [];
}

abbrev entry : DeviceCache
entry = record {
  devices = ("nodekey:a", phone) ∷ [];
  last_attempt = 1000;
  last_success = 1000;
  err = "";
}

abbrev store : DeviceStore
store = record { configs = config ∷ []; cache = ("home", entry) ∷ []; ttl = 900 }

abbrev down : ApiConfig → ℕ × Option (List RawDevice)
down c = (1300, none)

-- Admitted within the time to live, and not after it.
admits_phone : allowed clock "nodekey:a" 1900 store ≡ true
unfolding allowed find device_expired trim_space
admits_phone = refl

refresh-SameAdmission_example : SameAdmission clock store (refresh clock down store)
unfolding find
refresh-SameAdmission_example = refresh-SameAdmission clock down store (λ c. refl) (refl, tt)

refresh-allowed_example : allowed clock "nodekey:a" 1901 (refresh clock down store) ≡ false
unfolding find
refresh-allowed_example =
    refresh-allowed clock down store "nodekey:a" 1000 1901 (λ c. refl) (refl, tt) (omega arith, tt)
      (omega arith)

abbrev api : Api
api = record {
  call = λ c calls. none;
  expire = λ c calls. status 200 none;
  now_text = λ calls. "now";
  parse_time = λ text. some 5000;
  decode_json = λ text. some (another text);
  parse_addr = λ text. some (v4 (ip4 100 64 0 1));
}

abbrev decoders : Decoders
decoders = record {
  authorized = λ body. inl (false, true);
  name = λ body. inl (" phone ", true);
  tags = λ body. inl ("tag:web" ∷ "web" ∷ [], true);
  key_expiry_disabled = λ body. inl (true, true);
  routes = λ body. inl ("10.0.0.0/8" ∷ [], true);
  attribute = λ body. inr "invalid JSON request";
  attribute_key = λ body. inl ("custom:a", true);
  ipv4 = λ body. inl ("100.64.0.1", true);
  is_prefix = λ text. true;
  show_addr = λ a. "100.64.0.1";
}

abbrev world : World
world = record { store = store; calls = [] }

abbrev put_tags : HttpRequest
put_tags = record { method = "PUT"; instance_name = "home"; device_id = "n1"; body = "{}" }

-- A tag without its prefix is refused before the API is called.
refuses_tags : (handle api decoders tags_handler put_tags world).0.status ≡ 400
unfolding handle
refuses_tags = refl

abbrev deletion : Call
deletion = record { instance_name = "home"; device_id = "n1"; action = delete }

deletion_succeeds : (perform api deletion world).0 ≡ none
unfolding perform trim_space
deletion_succeeds = refl

perform-Refuses_example : Refuses clock 1900 "nodekey:a" "home" (perform api deletion world).1.store
unfolding find
perform-Refuses_example =
    perform-Refuses clock 1900 api delete world "n1" "home" "nodekey:a" phone entry by_deletion refl
      (refl, tt) (inr refl, tt) refl refl deletion_succeeds

snapshot-AllIn_example :
    All
      (λ c.
        AllIn
          (snapshot clock 1900 store).devices
          (cache_entry (find (name_is c.name) store.cache)).devices)
      (config ∷ [])
snapshot-AllIn_example = snapshot-AllIn clock 1900 store
