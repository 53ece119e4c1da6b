-- ===== src/Settings/Override.antt =====
-- cmd/tailscale-derp/main.go: the defaults, the flags over the file, and buildConfig. A flag that is
-- not given is none.
use tailscale_derp.Base.{
  ◌*◌, String, str_eq, trim_space, Bool, true, false, Option, none, some, [], ◌∷◌, ◌++◌,
  if◌then◌else◌, ℤ, pos, negsuc, ◌==◌,
}
use tailscale_derp.Settings.{UciConfig, Config, VerifyConfig, Result, ok, err, bind_result, second}
use tailscale_derp.Settings.Values.{split_commas, clean_parts}
use tailscale_derp.Settings.Apply.{apply_uci_config, has_tls, flag_external}

pub record ConfigFlags : Type 0 where
  pub config_path : String
  pub enabled : Option Bool
  pub listen : Option String
  pub stun : Option Bool
  pub cert_file : Option String
  pub key_file : Option String
  pub tls_self_signed : Option Bool
  pub tls_state_dir : Option String
  pub mesh : Option Bool
  pub mesh_key : Option String
  pub ops_socket : Option String
  pub health_addr : Option String
  pub traffic_persist : Option Bool
  pub traffic_path : Option String
  pub traffic_interval : Option ℤ
  pub verify_urls : Option String

-- What opening the configuration file gives.
pub data Opened : Type 0 where
  missing : Opened
  broken : String → Opened
  opened : UciConfig → Opened

abbrev pub given {ℓ} : {A : Type ℓ} → Option A → A → A
given none a = a
given (some b) a = b

abbrev pub given_text : Option String → String → String
given_text none t = t
given_text (some s) t = trim_space s

abbrev pub tls_mode_of : Option Bool → String → String
tls_mode_of none mode = mode
tls_mode_of (some true) mode = "self_signed"
tls_mode_of (some false) mode = "manual"

unfoldable pub override_urls : Option String → VerifyConfig → VerifyConfig
unfolding split_commas clean_parts trim_space
override_urls none v = v
override_urls (some text) v = record v {
  urls = v.urls ++ clean_parts trim_space (split_commas text);
  enabled = true;
  urls_enabled = true;
}

-- applyFlagOverrides.
unfoldable pub apply_flag_overrides : ConfigFlags → Config → Config
unfolding override_urls trim_space
apply_flag_overrides f c = record {
  verify = override_urls f.verify_urls c.verify;
  external = c.external;
  enabled = given f.enabled c.enabled;
  listen = given_text f.listen c.listen;
  stun = given f.stun c.stun;
  cert_file = given_text f.cert_file c.cert_file;
  key_file = given_text f.key_file c.key_file;
  tls_mode = tls_mode_of f.tls_self_signed c.tls_mode;
  tls_state_dir = given_text f.tls_state_dir c.tls_state_dir;
  mesh = given f.mesh c.mesh;
  mesh_key = given_text f.mesh_key c.mesh_key;
  ops_socket = given_text f.ops_socket c.ops_socket;
  health = given_text f.health_addr c.health;
  traffic_persist = given f.traffic_persist c.traffic_persist;
  traffic_path = given_text f.traffic_path c.traffic_path;
  traffic_interval = given f.traffic_interval c.traffic_interval;
}

unfoldable pub default_config : Config
default_config = record {
  verify = record {
    enabled = false;
    urls_enabled = false;
    tailscaled_enabled = false;
    tailscaled_socket_enabled = false;
    tailscaled_socket = "";
    api_enabled = false;
    urls = [];
    apis = [];
    sync_interval = pos (300 * second);
    cache_ttl = pos (900 * second);
  };
  external = record {
    enabled = false;
    mode = "nat";
    address_family = "ipv4";
    methods = "pcp" ∷ "natpmp" ∷ "upnp" ∷ [];
    wan_interface = "auto";
    derp_port = "auto";
    stun_port = "auto";
    lease_duration = pos (7200 * second);
    retry_interval = pos (60 * second);
    sync_interval = pos (300 * second);
    validate_endpoint = false;
    tls_configured = false;
    validation_names = [];
    stun_enabled = false;
  };
  enabled = false;
  listen = ":3478";
  stun = true;
  cert_file = "";
  key_file = "";
  tls_mode = "manual";
  tls_state_dir = "/var/lib/tailscale-derp/tls";
  mesh = false;
  mesh_key = "";
  ops_socket = "/var/run/tailscale-derp/ops.sock";
  health = ":9912";
  traffic_persist = false;
  traffic_path = "/tmp/tailscale-derp-traffic.json";
  traffic_interval = pos 60;
}

unfoldable pub from_file : Opened → Result Config
unfolding apply_uci_config default_config
from_file missing = ok default_config
from_file (broken why) = err why
from_file (opened u) = apply_uci_config u default_config

unfoldable pub read_file : (String → Opened) → String → Result Config
unfolding from_file default_config
read_file open_file path = if str_eq path "" then ok default_config else from_file (open_file path)

unfoldable pub positive_interval : ℤ → ℤ
positive_interval (pos n) = if n == 0 then pos 60 else pos n
positive_interval (negsuc n) = pos 60

unfoldable pub finish : Config → Config
unfolding has_tls positive_interval trim_space
finish c = record (flag_external c) {
  traffic_path =
      if str_eq (trim_space c.traffic_path) ""
      then "/tmp/tailscale-derp-traffic.json"
      else c.traffic_path;
  traffic_interval = positive_interval c.traffic_interval;
}

-- buildConfig, once the flags are parsed.
unfoldable pub build_config : ConfigFlags → (String → Opened) → Result Config
unfolding bind_result read_file finish apply_flag_overrides
build_config f open_file =
    bind_result (read_file open_file f.config_path) (λ c. ok (finish (apply_flag_overrides f c)))
