-- ===== src/Settings/Apply.antt =====
-- cmd/tailscale-derp/main.go: applyUCIConfig, the options of a file over the defaults. Each step is
-- one of its conditions, in its order; the first error ends it.
use tailscale_derp.Base.{
  String, str_eq, trim_space, to_lower, Bool, true, false, not, Option, none, some, List, [], ◌∷◌,
  ◌++◌, ◌&&◌, ◌||◌, ◌+++◌, if◌then◌else◌, find, ℤ, pos, is_empty, is_some, atoi,
}
use tailscale_derp.Derpmap.{ApiConfig}
use tailscale_derp.Settings.{
  UciSection, UciConfig, Config, VerifyConfig, ExternalConfig, Result, ok, err, bind_result, first,
  get, sections_of_type, first_section_value, is_key, first_of,
}
use tailscale_derp.Settings.Values.{
  parse_bool_value, positive_seconds, split_all, is_blank, integer_of,
}

abbrev pub Step : Type 0
Step = Config → Result Config

unfoldable pub run_steps : List Step → Step
unfolding bind_result
run_steps [] c = ok c
run_steps (s ∷ rest) c = bind_result (s c) (run_steps rest)

-- An error with the name of its option in front.
abbrev pub named {ℓ} : {A : Type ℓ} → String → Result A → Result A
named name (ok a) = ok a
named name (err why) = err (name +++ ": " +++ why)

unfoldable pub set_bool : String → Option String → (Bool → Config → Config) → Step
unfolding parse_bool_value bind_result
set_bool name none f c = ok c
set_bool name (some v) f c = bind_result (named name (parse_bool_value v)) (λ b. ok (f b c))

unfoldable pub set_text : Option String → (String → Config → Config) → Step
set_text none f c = ok c
set_text (some v) f c = ok (f v c)

-- Only a text that is not empty, or that is not blank, counts.
abbrev pub filled : Option String → Option String
filled none = none
filled (some v) = if str_eq v "" then none else some v

abbrev pub unblank : Option String → Option String
unblank none = none
unblank (some v) = if is_blank v then none else some (trim_space v)

abbrev pub lowered : Option String → Option String
lowered none = none
lowered (some v) = some (to_lower v)

abbrev pub trimmed : Option String → Option String
trimmed none = none
trimmed (some v) = some (trim_space v)

unfoldable pub set_seconds : String → Option String → (ℤ → Config → Config) → Step
unfolding positive_seconds bind_result
set_seconds name none f c = ok c
set_seconds name (some v) f c = bind_result (named name (positive_seconds v)) (λ d. ok (f d c))

unfoldable pub set_integer : String → Option String → (ℤ → Config → Config) → Step
unfolding atoi bind_result
set_integer name none f c = ok c
set_integer name (some v) f c = bind_result (named name (integer_of (atoi v))) (λ n. ok (f n c))

unfoldable pub set_methods : List String → Step
unfolding split_all trim_space to_lower
set_methods [] c = ok c
set_methods (m ∷ ms) c = ok (record c {
  external = record c.external { methods = split_all (λ p. to_lower (trim_space p)) (m ∷ ms) };
})

-- The flag of an API section, which may be blank.
unfoldable pub section_bool : String → String → Result Bool
unfolding parse_bool_value
section_bool name v = if str_eq v "" then ok false else named name (parse_bool_value v)

unfoldable pub section_integer : String → String → Result ℤ
unfolding atoi
section_integer name v = if str_eq v "" then ok (pos 0) else named name (integer_of (atoi v))

abbrev pub or_default : String → String → String
or_default d v = if str_eq v "" then d else v

abbrev pub auth_of : Option String → String
auth_of none = "api_key"
auth_of (some v) = v

unfoldable pub auth_type : UciSection → Result String
unfolding find trim_space
auth_type s =
    let a = auth_of (unblank (first_of (find (is_key "auth_type") s.values))) in
    if str_eq a "api_key" || str_eq a "oauth" then ok a else err "must be api_key or oauth"

unfoldable pub api_config : UciSection → String → Bool → Bool → ℤ → ApiConfig
unfolding first_section_value
api_config s auth sync stun_only region_id = record {
  name = s.name;
  label = first_section_value s "label";
  tailnet = or_default "-" (first_section_value s "tailnet");
  auth_type = auth;
  api_key = first_section_value s "api_key";
  oauth_client_id = first_section_value s "oauth_client_id";
  oauth_client_secret = first_section_value s "oauth_client_secret";
  derp_map_sync = sync;
  stun_only = stun_only;
  region_id = region_id;
  region_code = first_section_value s "region_code";
  region_name = first_section_value s "region_name";
  node_name = first_section_value s "node_name";
  hostname = first_section_value s "hostname";
  cert_name = first_section_value s "cert_name";
}

unfoldable pub read_api : UciSection → Result ApiConfig
unfolding bind_result auth_type section_bool section_integer api_config first_section_value
read_api s =
    let at = "verify_api." +++ s.name +++ "." in
    bind_result (named (at +++ "auth_type") (auth_type s)) (λ auth.
      bind_result (section_bool (at +++ "derpmap_sync") (first_section_value s "derpmap_sync"))
        (λ sync.
          bind_result (section_bool (at +++ "stun_only") (first_section_value s "stun_only"))
            (λ stun_only.
              bind_result (section_integer (at +++ "region_id") (first_section_value s "region_id"))
                (λ region_id. ok (api_config s auth sync stun_only region_id)))))

-- The name that the validator is to check for an instance.
unfoldable pub validation_name : String → ApiConfig → String
validation_name tls_mode a =
    if str_eq tls_mode "self_signed" || str_eq a.cert_name "" then a.hostname else a.cert_name

unfoldable pub add_api : ApiConfig → Config → Config
unfolding validation_name
add_api a c = record c {
  verify = record c.verify { apis = c.verify.apis ++ (a ∷ []) };
  external = record c.external {
    validation_names =
        if a.derp_map_sync
        then c.external.validation_names ++ (validation_name c.tls_mode a ∷ [])
        else c.external.validation_names;
  };
}

-- The loop over the API sections.
unfoldable pub add_apis : List UciSection → Step
unfolding bind_result read_api add_api
add_apis [] c = ok c
add_apis (s ∷ rest) c = bind_result (read_api s) (λ a. add_apis rest (add_api a c))

unfoldable pub has_tls : Config → Bool
has_tls c =
    str_eq c.tls_mode "self_signed" || not (str_eq c.cert_file "") && not (str_eq c.key_file "")

unfoldable pub global_steps : UciConfig → List Step
unfolding set_bool set_text set_integer first trim_space to_lower
global_steps u =
    set_bool "global.enabled" (first u "global" "enabled") (λ b c. record c { enabled = b })
    ∷ set_text (filled (first u "global" "listen")) (λ v c. record c { listen = v })
    ∷ set_bool "global.stun" (first u "global" "stun") (λ b c. record c { stun = b })
    ∷ set_text (first u "tls" "certfile") (λ v c. record c { cert_file = v })
    ∷ set_text (first u "tls" "keyfile") (λ v c. record c { key_file = v })
    ∷ set_text (lowered (unblank (first u "tls" "mode"))) (λ v c. record c { tls_mode = v })
    ∷ set_text (unblank (first u "tls" "state_dir")) (λ v c. record c { tls_state_dir = v })
    ∷ set_bool "mesh.enabled" (first u "mesh" "enabled") (λ b c. record c { mesh = b })
    ∷ set_text (trimmed (first u "mesh" "key")) (λ v c. record c { mesh_key = v })
    ∷ set_text (unblank (first u "ops" "socket")) (λ v c. record c { ops_socket = v })
    ∷ set_text (filled (first u "ops" "health")) (λ v c. record c { health = v })
    ∷ set_bool "traffic.persist" (first u "traffic" "persist")
        (λ b c. record c { traffic_persist = b })
    ∷ set_text (filled (first u "traffic" "path")) (λ v c. record c { traffic_path = v })
    ∷ set_integer "traffic.interval" (filled (first u "traffic" "interval"))
        (λ n c. record c { traffic_interval = n })
    ∷ []

abbrev pub on_external : (ExternalConfig → ExternalConfig) → Config → Config
on_external f c = record c { external = f c.external }

unfoldable pub external_steps : UciConfig → List Step
unfolding set_bool set_text set_seconds set_methods first get trim_space to_lower
external_steps u =
    set_bool "external.enabled" (first u "external" "enabled")
      (λ b. on_external (λ e. record e { enabled = b }))
    ∷ set_text (lowered (unblank (first u "external" "mode")))
        (λ v. on_external (λ e. record e { mode = v }))
    ∷ set_text (lowered (unblank (first u "external" "address_family")))
        (λ v. on_external (λ e. record e { address_family = v }))
    ∷ set_methods (get u "external" "method")
    ∷ set_text (unblank (first u "external" "wan_interface"))
        (λ v. on_external (λ e. record e { wan_interface = v }))
    ∷ set_text (unblank (first u "external" "derp_port"))
        (λ v. on_external (λ e. record e { derp_port = v }))
    ∷ set_text (unblank (first u "external" "stun_port"))
        (λ v. on_external (λ e. record e { stun_port = v }))
    ∷ set_seconds "external.lease_seconds" (first u "external" "lease_seconds")
        (λ d. on_external (λ e. record e { lease_duration = d }))
    ∷ set_seconds "external.retry_seconds" (first u "external" "retry_seconds")
        (λ d. on_external (λ e. record e { retry_interval = d }))
    ∷ set_seconds "external.sync_interval" (first u "external" "sync_interval")
        (λ d. on_external (λ e. record e { sync_interval = d }))
    ∷ set_bool "external.validate_endpoint" (first u "external" "validate_endpoint")
        (λ b. on_external (λ e. record e { validate_endpoint = b }))
    ∷ []

abbrev pub on_verify : (VerifyConfig → VerifyConfig) → Config → Config
on_verify f c = record c { verify = f c.verify }

unfoldable pub verify_steps : UciConfig → List Step
unfolding set_bool set_text set_seconds first get split_all trim_space
verify_steps u =
    (λ c. ok (on_verify (λ v. record v { urls = split_all trim_space (get u "verify" "url") }) c))
    ∷ set_bool "verify.enabled" (first u "verify" "enabled")
        (λ b. on_verify (λ v. record v { enabled = b }))
    ∷ set_bool "verify.url_enabled" (first u "verify" "url_enabled")
        (λ b. on_verify (λ v. record v { urls_enabled = b }))
    ∷ set_bool "verify.tailscaled_enabled" (first u "verify" "tailscaled_enabled")
        (λ b. on_verify (λ v. record v { tailscaled_enabled = b }))
    ∷ set_bool "verify.tailscaled_socket_enabled" (first u "verify" "tailscaled_socket_enabled")
        (λ b. on_verify (λ v. record v { tailscaled_socket_enabled = b }))
    ∷ set_text (trimmed (first u "verify" "tailscaled_socket"))
        (λ t. on_verify (λ v. record v { tailscaled_socket = t }))
    ∷ set_bool "verify.api_enabled" (first u "verify" "api_enabled")
        (λ b. on_verify (λ v. record v { api_enabled = b }))
    ∷ set_seconds "verify.sync_interval" (filled (first u "verify" "sync_interval"))
        (λ d. on_verify (λ v. record v { sync_interval = d }))
    ∷ set_seconds "verify.cache_ttl" (filled (first u "verify" "cache_ttl"))
        (λ d. on_verify (λ v. record v { cache_ttl = d }))
    ∷ []

abbrev pub flag_external : Config → Config
flag_external c =
    on_external (λ e. record e { stun_enabled = c.stun; tls_configured = has_tls c }) c

-- A file with URLs and no flags for them keeps working.
unfoldable pub keep_urls : Bool → Bool → Config → Config
keep_urls enabled_set url_set c =
    if is_empty c.verify.urls
    then c
    else on_verify
        (λ v. record v {
          enabled = if enabled_set then v.enabled else true;
          urls_enabled = if url_set then v.urls_enabled else true;
        })
        c

-- applyUCIConfig.
unfoldable pub apply_uci_config : UciConfig → Step
unfolding run_steps bind_result global_steps external_steps verify_steps add_apis sections_of_type
    keep_urls has_tls first
apply_uci_config u c = bind_result (run_steps (global_steps u) c) (λ c1.
    bind_result (run_steps (external_steps u) c1) (λ c2.
      bind_result (run_steps (verify_steps u) c2) (λ c3.
        bind_result (add_apis (sections_of_type u.sections "verify_api") c3) (λ c4. ok (
          keep_urls (is_some (first u "verify" "enabled"))
            (is_some (first u "verify" "url_enabled")) (flag_external c4))))))
