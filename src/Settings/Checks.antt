-- ===== src/Settings/Checks.antt =====
-- cmd/tailscale-derp/main.go: validateConfig, as the list of its conditions in order, each with the
-- error that it gives. What net.SplitHostPort takes for the port is a parameter.
pub mod Ready
use tailscale_derp.Base.{
  ℕ, ◌≡◌, String, str_eq, trim_space, Bool, true, false, not, Option, none, some, List, [], ◌∷◌,
  ◌++◌, ◌&&◌, ◌||◌, if◌then◌else◌, is_empty, ltb, ℤ, pos, negsuc,
}
use tailscale_derp.Derpmap.{ApiConfig}
use tailscale_derp.Derpmap.Sync.{is_configured}
use tailscale_derp.Settings.{Config, VerifyConfig, ExternalConfig, Result, ok, err}
use tailscale_derp.Settings.Values.{
  one_of, is_blank, validate_external_port, validate_optional_port_binding,
}
use tailscale_derp.Settings.Apply.{on_external}

abbrev pub or_default : String → String → String
or_default value d = if str_eq value "" then d else value

-- The defaults that validateConfig fills in.
unfoldable pub fill_defaults : Config → Config
fill_defaults c = record c {
  tls_mode = or_default c.tls_mode "manual";
  external = record c.external {
    mode = or_default c.external.mode "nat";
    address_family = or_default c.external.address_family "ipv4";
    wan_interface = or_default c.external.wan_interface "auto";
  };
}

-- A condition under which the configuration is refused, and the error.
abbrev pub Guard : Type 0
Guard = Bool × String

unfoldable pub out_of_region : ℤ → Bool
out_of_region (negsuc n) = true
out_of_region (pos n) = ltb n 900 || ltb 999 n

unfoldable pub method_guards : List String → List Guard
method_guards [] = []
method_guards (m ∷ ms) =
    (not (one_of m ("pcp" ∷ "natpmp" ∷ "upnp" ∷ [])), "external.method: unsupported method")
    ∷ method_guards ms

unfoldable pub api_guards : Bool → List ApiConfig → List Guard
unfolding is_configured out_of_region trim_space
api_guards enabled [] = []
api_guards enabled (a ∷ rest) =
    (a.derp_map_sync && not enabled, "derpmap_sync requires external.enabled")
    ∷ (
      a.derp_map_sync && not (is_configured a),
      "derpmap_sync requires tailnet and API credentials",
    )
    ∷ (a.derp_map_sync && out_of_region a.region_id, "region_id must be between 900 and 999")
    ∷ (
      a.derp_map_sync
          && (is_blank a.region_code
              || is_blank a.region_name
              || is_blank a.node_name
              || is_blank a.hostname),
      "DERP map metadata is incomplete",
    )
    ∷ api_guards enabled rest

unfoldable pub config_guards : (String → Option String) → Config → List Guard
unfolding trim_space validate_optional_port_binding validate_external_port
config_guards split c =
    (str_eq c.listen "", "listen address is required")
    ∷ (c.mesh && str_eq c.mesh_key "", "mesh requires a shared key")
    ∷ (not (str_eq c.cert_file "") && str_eq c.key_file "", "certfile requires keyfile")
    ∷ (not (str_eq c.key_file "") && str_eq c.cert_file "", "keyfile requires certfile")
    ∷ (
      not (str_eq c.tls_mode "manual") && not (str_eq c.tls_mode "self_signed"),
      "tls.mode must be manual or self_signed",
    )
    ∷ (
      str_eq c.tls_mode "self_signed"
          && (not (str_eq c.cert_file "") || not (str_eq c.key_file "")),
      "self_signed TLS does not use certfile or keyfile",
    )
    ∷ (
      str_eq c.tls_mode "self_signed" && is_blank c.tls_state_dir,
      "self_signed TLS requires state_dir",
    )
    ∷ (
      not (validate_optional_port_binding split c.listen),
      "listen must use a valid host:port address",
    )
    ∷ (
      not (validate_optional_port_binding split c.health),
      "health must use a valid host:port address",
    )
    ∷ (
      not (validate_external_port c.external.derp_port),
      "external.derp_port must be auto or an integer from 1 to 65535",
    )
    ∷ (
      not (validate_external_port c.external.stun_port),
      "external.stun_port must be auto or an integer from 1 to 65535",
    )
    ∷ (
      not (str_eq c.external.mode "nat") && not (str_eq c.external.mode "direct"),
      "external.mode must be direct or nat",
    )
    ∷ (
      not (one_of c.external.address_family ("ipv4" ∷ "ipv6" ∷ "dual" ∷ [])),
      "external.address_family must be ipv4, ipv6, or dual",
    )
    ∷ (
      c.external.enabled
          && (str_eq c.external.address_family "ipv4" || str_eq c.external.address_family "dual")
          && str_eq c.external.mode "nat"
          && is_empty c.external.methods,
      "external requires at least one mapping method",
    )
    ∷ []

unfoldable pub last_guard : Config → List Guard
last_guard c =
    (
      c.external.enabled && not c.external.tls_configured,
      "external endpoint publishing requires TLS",
    )
    ∷ []

-- The first condition that holds gives its error.
unfoldable pub check_all : List Guard → Config → Result Config
check_all [] c = ok c
check_all ((bad, why) ∷ rest) c = let next = check_all rest c in if bad then err why else next

unfoldable pub all_guards : (String → Option String) → Config → List Guard
unfolding config_guards method_guards api_guards last_guard
all_guards split c =
    config_guards split c
    ++ (method_guards c.external.methods
        ++ (api_guards c.external.enabled c.verify.apis ++ last_guard c))

-- validateConfig, with the configuration that it leaves.
unfoldable pub validate_config : (String → Option String) → Config → Result Config
unfolding check_all all_guards fill_defaults
validate_config split c = check_all (all_guards split (fill_defaults c)) (fill_defaults c)

-- selfSignedNames.
unfoldable pub self_signed_names : List ApiConfig → List String
self_signed_names [] = []
self_signed_names (a ∷ rest) =
    let names = self_signed_names rest in if a.derp_map_sync then a.hostname ∷ names else names
