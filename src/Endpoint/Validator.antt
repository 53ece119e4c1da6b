-- ===== src/Endpoint/Validator.antt =====
-- internal/endpoint/validator.go: the loopback check of an endpoint's addresses.
-- The network, TLS and STUN are parameters, and so is the text of a number.
pub mod Sound
use tailscale_derp.Base.{
  ℕ, ◌≡◌, refl, ◌==◌, leb, ltb, String, ◌+++◌, str_eq, Bool, true, false, not, Option, none, some,
  List, [], ◌∷◌, ◌++◌, ◌&&◌, ◌||◌, if◌then◌else◌, is_empty, any, length, trim_space, ℤ, pos, negsuc,
}
use tailscale_derp.Endpoint.{
  Endpoint, ValidationState, passed, degraded, failed, FamilyValidation, ValidationResult,
  is_passed,
}

pub data Response : Type 0 where
  broken : String → Response
  status : ℕ → Response

-- What a datagram exchange gives: an error, or the bytes that were read.
pub data Exchange : Type 0 where
  broken : String → Exchange
  received : List ℕ → Exchange

pub data Parsed : Type 0 where
  malformed : String → Parsed
  transaction : ℕ → Parsed

-- `get` is the request of /derp/probe at an address, with the hash that is pinned; `exchange` sends
-- the STUN request of a transaction and reads the answer.
pub record Wire : Type 0 where
  pub now : ℕ
  pub show_number : ℕ → String
  pub expected_cert_hash : Option (String → List ℕ)
  pub get : String → String → ℕ → String → List ℕ → Response
  pub new_tx_id : String → ℕ
  pub exchange : String → String → ℕ → ℕ → Exchange
  pub parse_response : List ℕ → Parsed

unfoldable pub unique_from : List String → List String → List String
unique_from seen [] = []
unique_from seen (x ∷ xs) =
    let v = trim_space x in
    let same = unique_from seen xs in
    let more = unique_from (v ∷ seen) xs in
    if str_eq v "" || any seen (str_eq v) then same else v ∷ more

unfoldable pub unique_names : List String → List String
unfolding unique_from
unique_names values = unique_from [] values

unfoldable pub pinned : Option (String → List ℕ) → String → List ℕ
pinned none name = []
pinned (some hash) name = hash name

unfoldable pub response_error : Wire → Response → Option String
response_error w (broken why) = some ("DERP TLS loopback check failed: " +++ why)
response_error w (status code) =
    if ltb code 200 || leb 300 code
    then some ("DERP loopback check returned HTTP " +++ w.show_number code)
    else none

unfoldable pub validate_derp : Wire → String → ℕ → String → String → List ℕ → Option String
unfolding response_error
validate_derp w address port server_name network hash =
    if str_eq (trim_space server_name) ""
    then some "empty TLS server name"
    else if ltb 0 (length hash) && not (length hash == 32)
    then some "automatic TLS certificate hash is invalid"
    else response_error w (w.get network address port (trim_space server_name) hash)

unfoldable pub parsed_error : ℕ → Parsed → Option String
parsed_error id (malformed why) = some ("invalid STUN loopback response: " +++ why)
parsed_error id (transaction answer) =
    if answer == id then none else some "STUN loopback response transaction ID did not match"

unfoldable pub exchange_error : Wire → ℕ → Exchange → Option String
unfolding parsed_error
exchange_error w id (broken why) = some why
exchange_error w id (received bytes) = parsed_error id (w.parse_response bytes)

unfoldable pub validate_stun : Wire → String → ℕ → String → Option String
unfolding exchange_error
validate_stun w address port network =
    exchange_error w (w.new_tx_id address) (w.exchange network address port (w.new_tx_id address))

-- The loop over the names: the first error.
abbrev pub or_else : Option String → Option String → Option String
or_else (some why) rest = some why
or_else none rest = rest

unfoldable pub first_derp_error : Wire → String → ℕ → String → List String → Option String
first_derp_error w address port network [] = none
first_derp_error w address port network (name ∷ names) =
    or_else (validate_derp w address port name network (pinned w.expected_cert_hash name))
      (first_derp_error w address port network names)

abbrev pub family_failure : Bool → Bool → String → FamilyValidation
family_failure derp stun why = record {
  state = ValidationState.failed;
  derp = derp;
  stun = stun;
  error = why;
}

abbrev pub family_success : FamilyValidation
family_success = record { state = ValidationState.passed; derp = true; stun = true; error = "" }

unfoldable pub stun_family : Option String → FamilyValidation
stun_family (some why) = family_failure true false why
stun_family none = family_success

unfoldable pub stun_port_family : Wire → String → String → ℤ → FamilyValidation
unfolding stun_family
stun_port_family w address network (negsuc n) =
    family_failure true false "mapped STUN port is unavailable"
stun_port_family w address network (pos n) =
    if n == 0
    then family_failure true false "mapped STUN port is unavailable"
    else stun_family (validate_stun w address n network)

unfoldable pub derp_family :
    Wire → Endpoint → String → String → Bool → Option String → FamilyValidation
unfolding stun_port_family
derp_family w e address udp stun_enabled (some why) = family_failure false (not stun_enabled) why
derp_family w e address udp stun_enabled none =
    if stun_enabled then stun_port_family w address udp e.stun_port else family_success

unfoldable pub validate_family :
    Wire → Endpoint → String → String → String → List String → Bool → FamilyValidation
unfolding derp_family
validate_family w e address tcp udp names stun_enabled =
    if is_empty names
    then family_failure false (not stun_enabled)
        "a hostname or certificate name is required for TLS validation"
    else derp_family w e address udp stun_enabled
        (first_derp_error w address e.derp_port tcp (unique_names names))

abbrev pub checked_family : Bool → FamilyValidation → Option FamilyValidation
checked_family present f = if present then some f else none

unfoldable pub failure_of : String → Option FamilyValidation → List String
failure_of label none = []
failure_of label (some f) = if is_passed f.state then [] else (label +++ f.error) ∷ []

unfoldable pub join : List String → String
join [] = ""
join (x ∷ []) = x
join (x ∷ y ∷ ys) = x +++ ("; " +++ join (y ∷ ys))

unfoldable pub has_passed : Option FamilyValidation → Bool
has_passed none = false
has_passed (some f) = is_passed f.state

unfoldable pub summary :
    ℕ → Bool → Option FamilyValidation → Option FamilyValidation → List String → ValidationResult
unfolding has_passed join
summary now stun_enabled four six failures =
    if not (has_passed four || has_passed six)
    then record {
      state = ValidationState.failed;
      derp = false;
      stun = not stun_enabled;
      checked_at = now;
      error =
          if str_eq (join failures) "" then "no endpoint address is available" else join failures;
      ipv4 = four;
      ipv6 = six;
    }
    else record {
      state = if is_empty failures then ValidationState.passed else ValidationState.degraded;
      derp = true;
      stun = true;
      checked_at = now;
      error = if is_empty failures then "" else join failures;
      ipv4 = four;
      ipv6 = six;
    }

-- (v LocalValidator) Validate.
unfoldable pub validate : Wire → Endpoint → List String → Bool → ValidationResult
unfolding summary failure_of validate_family
validate w e names stun_enabled =
    let four =
      checked_family (not (str_eq e.ipv4 ""))
        (validate_family w e e.ipv4 "tcp4" "udp4" names stun_enabled) in
    let six =
      checked_family (not (str_eq e.ipv6 ""))
        (validate_family w e e.ipv6 "tcp6" "udp6" names stun_enabled) in
    summary w.now stun_enabled four six (failure_of "IPv4: " four ++ failure_of "IPv6: " six)
