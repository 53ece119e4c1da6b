-- ===== src/Portmap/Client.antt =====
-- internal/portmap/portmap.go: the client that tries the mapping methods in order.
-- A backend is a parameter: what it answers may depend on all that happened before.
pub mod Valid
pub mod Trace
use tailscale_derp.Base.{
  ℕ, ◌==◌, ◌≡◌, String, str_eq, Bool, true, false, not, Option, none, some, List, [], ◌∷◌, ◌++◌,
  ◌&&◌, if◌then◌else◌, is_empty, trim_space, to_lower,
}
use tailscale_derp.Portmap.Address.{Addr, invalid, v4, v6, is_public_ipv4}
use tailscale_derp.Portmap.{
  PortRequest, Request, Lease, Mapping, Event, asked, got, Error, Log, Network, release_mapping,
}

-- What validateMapping refuses.
pub data Invalid : Type 0 where
  derp_missing stun_missing address_mismatch empty_derp_port empty_stun_port : Invalid
  non_public : Addr → Invalid
  derp_port stun_port : ℕ → ℕ → Invalid

pub data MapError : Type 0 where
  unsupported : String → MapError
  backend_failed : String → Error → MapError
  refused : String → Invalid → MapError
  no_methods : MapError

-- A backend returns an error, or a mapping that may be nil.
pub data Answer : Type 0 where
  failed : Error → Answer
  mapped : Option Mapping → Answer

pub data Result {ℓ} (A : Type ℓ) : Type ℓ where
  ok : A → Result A
  err : List MapError → Result A

pub record Client : Type 0 where
  pub methods : List String
  pub backends : String → Option (Request → Log → Answer)

abbrev add_method : String → List String → List String
add_method m rest = if str_eq m "" then rest else m ∷ rest

unfoldable pub normalize : List String → List String
normalize [] = []
normalize (m ∷ ms) = add_method (to_lower (trim_space m)) (normalize ms)

unfoldable pub new_client_with_backends :
    List String → (String → Option (Request → Log → Answer)) → Client
unfolding normalize
new_client_with_backends methods backends = record {
  methods = normalize (if is_empty methods then "pcp" ∷ "natpmp" ∷ "upnp" ∷ [] else methods);
  backends = backends;
}

-- netip.Addr's `==`.
unfoldable pub same_addr : Addr → Addr → Bool
same_addr invalid invalid = true
same_addr (v4 a) (v4 b) = a == b
same_addr (v6 a) (v6 b) = a == b
same_addr _ _ = false

unfoldable pub validate_stun : Lease → Option Lease → Option PortRequest → Option Invalid
validate_stun d s none = none
validate_stun d none (some r) = some stun_missing
validate_stun d (some s) (some r) =
    if not (same_addr s.external_ip d.external_ip)
    then some address_mismatch
    else if s.external_port == 0
    then some empty_stun_port
    else if r.strict && not (s.external_port == r.external_port)
    then some (stun_port s.external_port r.external_port)
    else none

unfoldable pub validate_derp : Lease → Option Lease → Request → Option Invalid
unfolding validate_stun
validate_derp d stun r =
    if not (is_public_ipv4 d.external_ip)
    then some (non_public d.external_ip)
    else if d.external_port == 0
    then some empty_derp_port
    else if r.derp.strict && not (d.external_port == r.derp.external_port)
    then some (derp_port d.external_port r.derp.external_port)
    else validate_stun d stun r.stun

unfoldable pub validate_leases : Option Lease → Option Lease → Request → Option Invalid
unfolding validate_derp
validate_leases none stun r = some derp_missing
validate_leases (some d) stun r = validate_derp d stun r

unfoldable pub validate_mapping : Option Mapping → Request → Option Invalid
unfolding validate_leases
validate_mapping none r = some derp_missing
validate_mapping (some m) r = validate_leases m.derp m.stun r

module _ (net : Network) where
  unfoldable pub log_answer : Answer → Log → Log
  log_answer (mapped (some m)) log = got m ∷ log
  log_answer (mapped none) log = log
  log_answer (failed e) log = log

  -- One round of the loop after the backend was asked: the mapping that ends the loop, or the error
  -- that is added, and the log.
  unfoldable pub settle : String → Request → Answer → Log → Result Mapping × Log
  unfolding log_answer
  settle method r (failed e) log = (err (backend_failed method e ∷ []), log)
  settle method r (mapped none) log = (err (refused method derp_missing ∷ []), log)
  settle method r (mapped (some m)) log = elim (validate_mapping (some m) r) [
    | some why ↦ (err (refused method why ∷ []), (release_mapping net (some m) (got m ∷ log)).1)
    | none ↦ (ok (record m { method = method }), got m ∷ log)
  ]

  unfoldable pub try_method :
      String → Option (Request → Log → Answer) → Request → Log → Result Mapping × Log
  unfolding settle
  try_method method none r log = (err (unsupported method ∷ []), log)
  try_method method (some backend) r log =
      settle method r (backend r (asked method ∷ log)) (asked method ∷ log)

  -- The loop of Map over the methods that are left, with the errors so far.
  unfoldable pub map_loop :
      (String → Option (Request → Log → Answer))
      → List String
      → List MapError
      → Request
      → Log
      → Result Mapping × Log
  unfolding try_method
  map_loop backends [] errs r log = (if is_empty errs then err (no_methods ∷ []) else err errs, log)
  map_loop backends (m ∷ ms) errs r log =
      let (result, log') = try_method m (backends m) r log in
      elim result [
        | ok mapping ↦ (ok mapping, log')
        | err e ↦ map_loop backends ms (errs ++ e) r log'
      ]

  unfoldable pub map_client : Client → Request → Log → Result Mapping × Log
  unfolding map_loop
  map_client c r log = map_loop c.backends c.methods [] r log
