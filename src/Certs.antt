-- ===== src/Certs.antt =====
-- internal/cert/manager.go: the self-signed certificate and its names. A certificate is its DNS names,
-- its IP addresses and its end. Parameters: netip's text and bytes of an address, the text that net.IP
-- has for bytes, the clock's year, and what each call of the key, X.509 and file functions gives. Times
-- are seconds.
pub mod Names
pub mod Covers
pub mod Started
pub mod Tests
use tailscale_derp.Base.{
  ℕ, ◌+◌, ◌*◌, ◌≡◌, ltb, String, str_eq, trim_space, Bool, true, false, not, Option, none, some,
  List, [], ◌∷◌, ◌++◌, ◌&&◌, ◌||◌, if◌then◌else◌, is_empty,
}
use tailscale_derp.Certs.Names.{normalize_names, same_names, contains_names, same_string_slice}

pub record Certificate : Type 0 where
  pub dns_names : List String
  pub ip_addresses : List (List ℕ)
  pub not_after : ℕ

pub record Manager : Type 0 where
  pub base_names : List String
  pub endpoints : List String
  pub current : Option Certificate
  pub valid_to : ℕ

pub data KeyFile : Type 0 where
  key_loaded key_missing : KeyFile
  key_broken : String → KeyFile

-- The state directory and what the calls give: the certificate that loads, the key file, and an error
-- for each call that fails.
pub record Directory : Type 0 where
  pub certificate : Option Certificate
  pub key_file : KeyFile
  pub new_key_error : Option String
  pub serial_error : Option String
  pub create_error : Option String
  pub persist_error : Option String

pub record Host : Type 0 where
  pub parse_addr : String → Option String
  pub address_bytes : String → Option (List ℕ)
  pub ip_string : List ℕ → String
  pub add_year : ℕ → ℕ

-- An update gives an error or not; the manager is changed in place.
abbrev pub Updated : Type 0
Updated = Option String × Manager

abbrev pub renew_before : ℕ
renew_before = 30 * 24 * 3600

-- time.Until(validTo) > renewBefore.
abbrev pub lasts : ℕ → ℕ → Bool
lasts now valid_to = ltb (now + renew_before) valid_to

unfoldable pub set_current : Certificate → List String → Manager → Manager
set_current c endpoints m = record m {
  current = some c;
  valid_to = c.not_after;
  endpoints = endpoints;
}

abbrev pub first_error : Option String → Option String → Option String
first_error (some e) b = some e
first_error none b = b

-- The key of generate: an existing one, or a new one that is written.
unfoldable pub key_error : Directory → KeyFile → Option String
key_error d key_loaded = none
key_error d key_missing = d.new_key_error
key_error d (key_broken why) = some why

-- generate and persist, up to their first error.
unfoldable pub make_error : Directory → Option String
unfolding key_error
make_error d =
    first_error (key_error d d.key_file)
      (first_error d.serial_error (first_error d.create_error d.persist_error))

abbrev pub add_name : String → Option (List ℕ) → Certificate → Certificate
add_name n none c = record c { dns_names = n ∷ c.dns_names }
add_name n (some b) c = record c { ip_addresses = b ∷ c.ip_addresses }

-- The loop of generate over the names: an address goes to the IP addresses, another name to the DNS
-- names.
unfoldable pub add_names : Host → List String → Certificate → Certificate
add_names host [] c = c
add_names host (n ∷ ns) c = add_name n (host.address_bytes n) (add_names host ns c)

unfoldable pub generate : Host → ℕ → List String → Certificate
unfolding add_names
generate host now names =
    add_names host names
      (record { dns_names = []; ip_addresses = []; not_after = host.add_year now })

-- ipStrings.
unfoldable pub ip_strings : Host → List (List ℕ) → List String
ip_strings host [] = []
ip_strings host (b ∷ bs) = host.ip_string b ∷ ip_strings host bs

-- The names that sameNames and containsNames read back.
unfoldable pub actual_names : Host → Certificate → List String
unfolding ip_strings
actual_names host c = c.dns_names ++ ip_strings host c.ip_addresses

-- loadExisting: the certificate on disk if its names are these and it has not ended.
unfoldable pub load_existing : Host → ℕ → List String → Option Certificate → Option Certificate
unfolding same_names actual_names
load_existing host now names none = none
load_existing host now names (some c) =
    if not (same_names host.parse_addr (actual_names host c) names) || ltb c.not_after now
    then none
    else some c

unfoldable pub made : Host → ℕ → List String → List String → Option String → Manager → Updated
unfolding generate set_current
made host now names endpoints (some e) m = (some e, m)
made host now names endpoints none m = (none, set_current (generate host now names) endpoints m)

unfoldable pub replace :
    Host → Directory → ℕ → List String → List String → Option Certificate → Manager → Updated
unfolding made make_error set_current
replace host d now names endpoints none m = made host now names endpoints (make_error d) m
replace host d now names endpoints (some c) m =
    if lasts now c.not_after
    then (none, set_current c endpoints m)
    else made host now names endpoints (make_error d) m

abbrev pub or_localhost : List String → List String
or_localhost [] = "localhost" ∷ []
or_localhost (n ∷ ns) = n ∷ ns

unfoldable pub certificate_names : Host → List String → List String → List String
unfolding normalize_names
certificate_names host base endpoints =
    or_localhost (normalize_names host.parse_addr (base ++ endpoints))

-- (m *Manager) updateLocked.
unfoldable pub update_locked : Host → Directory → ℕ → List String → Manager → Updated
unfolding certificate_names load_existing replace
update_locked host d now endpoints m =
    let names = certificate_names host m.base_names endpoints in
    replace host d now names endpoints (load_existing host now names d.certificate) m

abbrev pub is_set : Option Certificate → Bool
is_set none = false
is_set (some c) = true

-- (m *Manager) UpdateEndpointIPs.
unfoldable pub update_endpoint_ips : Host → Directory → ℕ → List String → Manager → Updated
unfolding update_locked normalize_names same_string_slice
update_endpoint_ips host d now ips m =
    let wanted = normalize_names host.parse_addr ips in
    if same_string_slice wanted m.endpoints && is_set m.current && lasts now m.valid_to
    then (none, m)
    else update_locked host d now wanted m

-- (m *Manager) UpdateEndpointIP.
unfoldable pub update_endpoint_ip : Host → Directory → ℕ → String → Manager → Updated
unfolding update_endpoint_ips trim_space
update_endpoint_ip host d now ip m =
    if str_eq (trim_space ip) ""
    then update_endpoint_ips host d now [] m
    else update_endpoint_ips host d now (ip ∷ []) m

abbrev pub empty_manager : List String → Manager
empty_manager base = record { base_names = base; endpoints = []; current = none; valid_to = 0 }

unfoldable pub start_with : Host → Directory → ℕ → Option Certificate → Manager → Updated
unfolding update_locked set_current contains_names actual_names
start_with host d now none m = update_locked host d now [] m
start_with host d now (some c) m =
    if lasts now c.not_after && contains_names host.parse_addr (actual_names host c) m.base_names
    then (none, set_current c [] m)
    else update_locked host d now [] m

-- NewManager, for a state directory that is not blank; after an error there is no manager.
unfoldable pub new_manager : Host → Directory → ℕ → List String → Updated
unfolding start_with normalize_names
new_manager host d now names =
    start_with host d now d.certificate (empty_manager (normalize_names host.parse_addr names))

-- Any calls of UpdateEndpointIPs and UpdateEndpointIP, each at its own time and directory.
pub data Updates (host : Host) (m : Manager) : Manager → Type 0 where
  no_update : Updates host m m
  of_all :
      (d : Directory) (now : ℕ) (ips : List String) (n : Manager)
      → Updates host m n
      → Updates host m (update_endpoint_ips host d now ips n).1
  of_one :
      (d : Directory) (now : ℕ) (ip : String) (n : Manager)
      → Updates host m n
      → Updates host m (update_endpoint_ip host d now ip n).1
