-- ===== src/Settings.antt =====
-- cmd/tailscale-derp/main.go and config_model.go: the configuration. A section's options are lists of
-- values by key; a parsed file keeps the sections by name, the last one of a name, and in order.
-- Durations are nanoseconds of 64 bits, so a product may wrap.
pub mod Values
pub mod File
pub mod Apply
pub mod Override
pub mod Checks
pub mod Tests
use tailscale_derp.Base.{
  ℕ, ◌*◌, ◌-◌, ◌%◌, ◌^◌, ltb, ◌≡◌, String, str_eq, trim_space, Bool, true, false, Option, none,
  some, List, [], ◌∷◌, if◌then◌else◌, find, ℤ, pos, negsuc,
}
use tailscale_derp.Derpmap.{ApiConfig}

abbrev pub Options : Type 0
Options = List (String × List String)

pub record UciSection : Type 0 where
  pub typ : String
  pub name : String
  pub values : Options

pub record UciConfig : Type 0 where
  pub values : List (String × Options)
  pub sections : List UciSection

pub record VerifyConfig : Type 0 where
  pub enabled : Bool
  pub urls_enabled : Bool
  pub tailscaled_enabled : Bool
  pub tailscaled_socket_enabled : Bool
  pub tailscaled_socket : String
  pub api_enabled : Bool
  pub urls : List String
  pub apis : List ApiConfig
  pub sync_interval : ℤ
  pub cache_ttl : ℤ

pub record ExternalConfig : Type 0 where
  pub enabled : Bool
  pub mode : String
  pub address_family : String
  pub methods : List String
  pub wan_interface : String
  pub derp_port : String
  pub stun_port : String
  pub lease_duration : ℤ
  pub retry_interval : ℤ
  pub sync_interval : ℤ
  pub validate_endpoint : Bool
  pub tls_configured : Bool
  pub validation_names : List String
  pub stun_enabled : Bool

pub record Config : Type 0 where
  pub verify : VerifyConfig
  pub external : ExternalConfig
  pub enabled : Bool
  pub listen : String
  pub stun : Bool
  pub cert_file : String
  pub key_file : String
  pub tls_mode : String
  pub tls_state_dir : String
  pub mesh : Bool
  pub mesh_key : String
  pub ops_socket : String
  pub health : String
  pub traffic_persist : Bool
  pub traffic_path : String
  pub traffic_interval : ℤ

-- An error is its message.
pub data Result {ℓ} (A : Type ℓ) : Type ℓ where
  ok : A → Result A
  err : String → Result A

unfoldable pub bind_result {ℓ κ} : {A : Type ℓ} {B : Type κ} → Result A → (A → Result B) → Result B
bind_result (ok a) f = f a
bind_result (err why) f = err why

abbrev pub is_key : String → String → Bool
is_key wanted k = str_eq k wanted

unfoldable pub signed_64 : ℕ → ℤ
signed_64 n =
    if ltb (n % 2 ^ 64) (2 ^ 63) then pos (n % 2 ^ 64) else negsuc (2 ^ 64 - n % 2 ^ 64 - 1)

abbrev pub second : ℕ
second = 10 ^ 9

-- time.Duration(seconds) * time.Second.
unfoldable pub duration : ℕ → ℤ
unfolding signed_64
duration seconds = signed_64 (seconds * second)

abbrev pub first_of : Option (List String) → Option String
first_of none = none
first_of (some []) = none
first_of (some (v ∷ vs)) = some v

abbrev pub all_of : Option (List String) → List String
all_of none = []
all_of (some vs) = vs

unfoldable pub option_in : Option Options → String → Option (List String)
unfolding find
option_in none key = none
option_in (some values) key = find (is_key key) values

-- (u *uciConfig) first and get.
unfoldable pub first : UciConfig → String → String → Option String
unfolding option_in find
first u section key = first_of (option_in (find (is_key section) u.values) key)

unfoldable pub get : UciConfig → String → String → List String
unfolding option_in find
get u section key = all_of (option_in (find (is_key section) u.values) key)

unfoldable pub sections_of_type : List UciSection → String → List UciSection
sections_of_type [] typ = []
sections_of_type (s ∷ rest) typ =
    let more = sections_of_type rest typ in if str_eq s.typ typ then s ∷ more else more

abbrev pub or_empty : Option String → String
or_empty none = ""
or_empty (some v) = v

unfoldable pub first_section_value : UciSection → String → String
unfolding find trim_space
first_section_value s key = trim_space (or_empty (first_of (find (is_key key) s.values)))
