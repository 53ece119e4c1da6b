-- ===== src/Settings/Tests.antt =====
-- Runs of the configuration at concrete inputs.
use tailscale_derp.Base.{◌≡◌, refl, String, true, Option, none, some, [], ◌∷◌, pos}
use tailscale_derp.Settings.{sections_of_type, Config, Result, ok, err}
use tailscale_derp.Settings.File.{FileConfig, FileVerifyApiConfig, to_uci_config}
use tailscale_derp.Settings.File.Instances.{AreInstances, instances-to_uci_config}
use tailscale_derp.Settings.Override.{ConfigFlags, Opened, opened, build_config, default_config}
use tailscale_derp.Settings.Checks.{validate_config}
use tailscale_derp.Settings.Checks.Ready.{IsReady, build_config-IsReady}

abbrev home : FileVerifyApiConfig
home = record {
  name = "home";
  label = none;
  tailnet = none;
  auth_type = none;
  api_key = some "secret";
  oauth_client_id = none;
  oauth_client_secret = none;
  derp_map_sync = some true;
  stun_only = none;
  region_id = some (pos 900);
  region_code = some "home";
  region_name = some "Home";
  node_name = some "900a";
  hostname = some "derp.example.com";
  cert_name = none;
}

abbrev file : FileConfig
file = record {
  global = none;
  tls =
      some
        record { cert_file = none; key_file = none; mode = some "Self_Signed"; state_dir = none };
  mesh = none;
  ops = none;
  traffic = none;
  external = some record {
    enabled = some true;
    mode = none;
    address_family = none;
    methods = some ("PCP, upnp" ∷ []);
    wan_interface = none;
    derp_port = some "8443";
    stun_port = none;
    lease_seconds = none;
    retry_seconds = none;
    sync_interval = none;
    validate_endpoint = none;
  };
  verify = none;
  verify_api = home ∷ [];
}

abbrev flags : ConfigFlags
flags = record {
  config_path = "/etc/config/tailscale-derp.json";
  enabled = none;
  listen = some " :443 ";
  stun = none;
  cert_file = none;
  key_file = none;
  tls_self_signed = none;
  tls_state_dir = none;
  mesh = none;
  mesh_key = none;
  ops_socket = none;
  health_addr = none;
  traffic_persist = none;
  traffic_path = none;
  traffic_interval = none;
  verify_urls = none;
}

abbrev open_file : String → Opened
open_file path = opened (to_uci_config (some file))

abbrev split : String → Option String
split binding = some "443"

abbrev value_of : Result Config → Config → Config
value_of (ok c) d = c
value_of (err why) d = d

abbrev built : Config
built = value_of (build_config flags open_file) default_config

abbrev checked : Config
checked = value_of (validate_config split built) default_config

build_succeeds : build_config flags open_file ≡ ok built
unfolding build_config to_uci_config
build_succeeds = refl

methods_read : built.external.methods ≡ "pcp" ∷ "upnp" ∷ []
unfolding build_config to_uci_config
methods_read = refl

check_succeeds : validate_config split built ≡ ok checked
unfolding validate_config build_config to_uci_config
check_succeeds = refl

build_config-IsReady_example : IsReady checked
build_config-IsReady_example =
    build_config-IsReady split flags open_file built checked build_succeeds check_succeeds

instances-to_uci_config_example :
    AreInstances 1 (home ∷ []) (sections_of_type (to_uci_config (some file)).sections "verify_api")
instances-to_uci_config_example = instances-to_uci_config file
