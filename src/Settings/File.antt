-- ===== src/Settings/File.antt =====
-- cmd/tailscale-derp/config_model.go: the configuration of a JSON or YAML file, where an option that
-- is left out is none, and its form as sections of options.
pub mod Instances
pub mod Lookup
use tailscale_derp.Base.{
  ℕ, ◌+◌, ◌≡◌, String, str_eq, Bool, true, false, Option, none, some, List, [], ◌∷◌, ◌++◌, ◌+++◌,
  if◌then◌else◌, put, ℤ, pos, decimal,
}
use tailscale_derp.Settings.{Options, UciSection, UciConfig, is_key}

pub record FileGlobalConfig : Type 0 where
  pub enabled : Option Bool
  pub listen : Option String
  pub stun : Option Bool

pub record FileTlsConfig : Type 0 where
  pub cert_file : Option String
  pub key_file : Option String
  pub mode : Option String
  pub state_dir : Option String

pub record FileMeshConfig : Type 0 where
  pub enabled : Option Bool
  pub key : Option String

pub record FileOpsConfig : Type 0 where
  pub socket : Option String
  pub health : Option String

pub record FileTrafficConfig : Type 0 where
  pub persist : Option Bool
  pub path : Option String
  pub interval : Option ℤ

pub record FileExternalConfig : Type 0 where
  pub enabled : Option Bool
  pub mode : Option String
  pub address_family : Option String
  pub methods : Option (List String)
  pub wan_interface : Option String
  pub derp_port : Option String
  pub stun_port : Option String
  pub lease_seconds : Option ℤ
  pub retry_seconds : Option ℤ
  pub sync_interval : Option ℤ
  pub validate_endpoint : Option Bool

pub record FileVerifyConfig : Type 0 where
  pub urls : Option (List String)
  pub enabled : Option Bool
  pub url_enabled : Option Bool
  pub tailscaled_enabled : Option Bool
  pub tailscaled_socket_enabled : Option Bool
  pub tailscaled_socket : Option String
  pub api_enabled : Option Bool
  pub sync_interval : Option ℤ
  pub cache_ttl : Option ℤ

pub record FileVerifyApiConfig : Type 0 where
  pub name : String
  pub label : Option String
  pub tailnet : Option String
  pub auth_type : Option String
  pub api_key : Option String
  pub oauth_client_id : Option String
  pub oauth_client_secret : Option String
  pub derp_map_sync : Option Bool
  pub stun_only : Option Bool
  pub region_id : Option ℤ
  pub region_code : Option String
  pub region_name : Option String
  pub node_name : Option String
  pub hostname : Option String
  pub cert_name : Option String

pub record FileConfig : Type 0 where
  pub global : Option FileGlobalConfig
  pub tls : Option FileTlsConfig
  pub mesh : Option FileMeshConfig
  pub ops : Option FileOpsConfig
  pub traffic : Option FileTrafficConfig
  pub external : Option FileExternalConfig
  pub verify : Option FileVerifyConfig
  pub verify_api : List FileVerifyApiConfig

pub record OptionValue : Type 0 where
  pub name : String
  pub value : String
  pub set : Bool

abbrev pub unset : OptionValue
unset = record { name = ""; value = ""; set = false }

unfoldable pub option_string : String → Option String → OptionValue
option_string name none = unset
option_string name (some v) = record { name = name; value = v; set = true }

unfoldable pub option_bool : String → Option Bool → OptionValue
option_bool name none = unset
option_bool name (some true) = record { name = name; value = "1"; set = true }
option_bool name (some false) = record { name = name; value = "0"; set = true }

unfoldable pub option_int : String → Option ℤ → OptionValue
unfolding decimal
option_int name none = unset
option_int name (some n) = record { name = name; value = decimal n; set = true }

-- The loop of optionValues.
unfoldable pub set_options : Options → List OptionValue → Options
unfolding put
set_options values [] = values
set_options values (o ∷ os) =
    set_options (if o.set then put (is_key o.name) o.name (o.value ∷ []) values else values) os

unfoldable pub option_values : List OptionValue → Options
unfolding set_options
option_values os = set_options [] os

unfoldable pub set_list : String → Option (List String) → Options → Options
unfolding put
set_list key none values = values
set_list key (some vs) values = put (is_key key) key vs values

-- (config *uciConfig) addSection.
unfoldable pub add_section : String → String → Options → UciConfig → UciConfig
unfolding put
add_section typ name values c = record {
  values = put (is_key name) name values c.values;
  sections = c.sections ++ (record { typ = typ; name = name; values = values } ∷ []);
}

unfoldable pub global_options : FileGlobalConfig → Options
unfolding option_values option_string option_bool option_int
global_options s = option_values (
    option_bool "enabled" s.enabled
    ∷ option_string "listen" s.listen
    ∷ option_bool "stun" s.stun
    ∷ [])

unfoldable pub add_global : Option FileGlobalConfig → UciConfig → UciConfig
unfolding add_section global_options
add_global none c = c
add_global (some s) c = add_section "global" "global" (global_options s) c

unfoldable pub tls_options : FileTlsConfig → Options
unfolding option_values option_string option_bool option_int
tls_options s = option_values (
    option_string "certfile" s.cert_file
    ∷ option_string "keyfile" s.key_file
    ∷ option_string "mode" s.mode
    ∷ option_string "state_dir" s.state_dir
    ∷ [])

unfoldable pub add_tls : Option FileTlsConfig → UciConfig → UciConfig
unfolding add_section tls_options
add_tls none c = c
add_tls (some s) c = add_section "tls" "tls" (tls_options s) c

unfoldable pub mesh_options : FileMeshConfig → Options
unfolding option_values option_string option_bool option_int
mesh_options s = option_values (option_bool "enabled" s.enabled ∷ option_string "key" s.key ∷ [])

unfoldable pub add_mesh : Option FileMeshConfig → UciConfig → UciConfig
unfolding add_section mesh_options
add_mesh none c = c
add_mesh (some s) c = add_section "mesh" "mesh" (mesh_options s) c

unfoldable pub ops_options : FileOpsConfig → Options
unfolding option_values option_string option_bool option_int
ops_options s =
    option_values (option_string "socket" s.socket ∷ option_string "health" s.health ∷ [])

unfoldable pub add_ops : Option FileOpsConfig → UciConfig → UciConfig
unfolding add_section ops_options
add_ops none c = c
add_ops (some s) c = add_section "ops" "ops" (ops_options s) c

unfoldable pub traffic_options : FileTrafficConfig → Options
unfolding option_values option_string option_bool option_int
traffic_options s = option_values (
    option_bool "persist" s.persist
    ∷ option_string "path" s.path
    ∷ option_int "interval" s.interval
    ∷ [])

unfoldable pub add_traffic : Option FileTrafficConfig → UciConfig → UciConfig
unfolding add_section traffic_options
add_traffic none c = c
add_traffic (some s) c = add_section "traffic" "traffic" (traffic_options s) c

unfoldable pub external_options : FileExternalConfig → Options
unfolding option_values option_string option_bool option_int set_list
external_options s = set_list "method" s.methods (
    option_values (
      option_bool "enabled" s.enabled
      ∷ option_string "mode" s.mode
      ∷ option_string "address_family" s.address_family
      ∷ option_string "wan_interface" s.wan_interface
      ∷ option_string "derp_port" s.derp_port
      ∷ option_string "stun_port" s.stun_port
      ∷ option_int "lease_seconds" s.lease_seconds
      ∷ option_int "retry_seconds" s.retry_seconds
      ∷ option_int "sync_interval" s.sync_interval
      ∷ option_bool "validate_endpoint" s.validate_endpoint
      ∷ []))

unfoldable pub add_external : Option FileExternalConfig → UciConfig → UciConfig
unfolding add_section external_options
add_external none c = c
add_external (some s) c = add_section "external" "external" (external_options s) c

unfoldable pub verify_options : FileVerifyConfig → Options
unfolding option_values option_string option_bool option_int set_list
verify_options s = set_list "url" s.urls (
    option_values (
      option_bool "enabled" s.enabled
      ∷ option_bool "url_enabled" s.url_enabled
      ∷ option_bool "tailscaled_enabled" s.tailscaled_enabled
      ∷ option_bool "tailscaled_socket_enabled" s.tailscaled_socket_enabled
      ∷ option_string "tailscaled_socket" s.tailscaled_socket
      ∷ option_bool "api_enabled" s.api_enabled
      ∷ option_int "sync_interval" s.sync_interval
      ∷ option_int "cache_ttl" s.cache_ttl
      ∷ []))

unfoldable pub add_verify : Option FileVerifyConfig → UciConfig → UciConfig
unfolding add_section verify_options
add_verify none c = c
add_verify (some s) c = add_section "verify" "verify" (verify_options s) c

unfoldable pub verify_api_options : FileVerifyApiConfig → Options
unfolding option_values option_string option_bool option_int
verify_api_options s = option_values (
    option_string "label" s.label
    ∷ option_string "tailnet" s.tailnet
    ∷ option_string "auth_type" s.auth_type
    ∷ option_string "api_key" s.api_key
    ∷ option_string "oauth_client_id" s.oauth_client_id
    ∷ option_string "oauth_client_secret" s.oauth_client_secret
    ∷ option_bool "derpmap_sync" s.derp_map_sync
    ∷ option_bool "stun_only" s.stun_only
    ∷ option_int "region_id" s.region_id
    ∷ option_string "region_code" s.region_code
    ∷ option_string "region_name" s.region_name
    ∷ option_string "node_name" s.node_name
    ∷ option_string "hostname" s.hostname
    ∷ option_string "cert_name" s.cert_name
    ∷ [])

unfoldable pub instance_name : ℕ → FileVerifyApiConfig → String
unfolding decimal
instance_name index s = if str_eq s.name "" then "verify_api_" +++ decimal (pos index) else s.name

-- The loop over the API instances, numbered from one.
unfoldable pub add_verify_api : ℕ → List FileVerifyApiConfig → UciConfig → UciConfig
unfolding add_section verify_api_options instance_name
add_verify_api index [] c = c
add_verify_api index (s ∷ rest) c =
    add_verify_api (index + 1) rest
      (add_section "verify_api" (instance_name index s) (verify_api_options s) c)

unfoldable pub add_fixed : FileConfig → UciConfig → UciConfig
unfolding add_global add_tls add_mesh add_ops add_traffic add_external add_verify
add_fixed f c = add_verify f.verify (
    add_external f.external (
      add_traffic f.traffic
        (add_ops f.ops (add_mesh f.mesh (add_tls f.tls (add_global f.global c))))))

abbrev pub empty_uci : UciConfig
empty_uci = record { values = []; sections = [] }

-- (config *fileConfig) toUCIConfig.
unfoldable pub to_uci_config : Option FileConfig → UciConfig
unfolding add_fixed add_verify_api
to_uci_config none = empty_uci
to_uci_config (some f) = add_verify_api 1 f.verify_api (add_fixed f empty_uci)
