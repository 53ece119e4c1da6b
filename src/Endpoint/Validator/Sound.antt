-- ===== src/Endpoint/Validator/Sound.antt =====
-- The validator's answer, and the addresses that the manager keeps of the endpoint for it.
use tailscale_derp.Base.{
  ℕ, ◌≡◌, ◌<◌, ◌≤◌, refl, arith, ◌⊎◌, length, trim_space, String, str_eq, Bool, true, false, not,
  List, ◌++◌, is_empty, All, pos, inl, inr, Bool-cases,
}
use tailscale_derp.Endpoint.{
  Endpoint, ValidationState, FamilyValidation, ValidationResult, is_passed, validated,
  family_failed, no_families,
}
use tailscale_derp.Endpoint.Failures.{no_address}
use tailscale_derp.Endpoint.Draft.{has_both}
use tailscale_derp.Endpoint.Validator.{
  Wire, validate, validate_family, unique_names, pinned, summary, checked_family, failure_of,
  has_passed, status, received, transaction,
}

-- What each state of a result means for the addresses that are kept.
abbrev pub Kept : Endpoint → Endpoint → ValidationState → Type 0
Kept e v ValidationState.passed = (no_address e ≡ false) × ((v.ipv4 ≡ e.ipv4) × (v.ipv6 ≡ e.ipv6))
Kept e v ValidationState.degraded =
    (has_both e ≡ true) × ((no_address v ≡ false) × (has_both v ≡ false))
Kept e v ValidationState.failed = no_address v ≡ true
Kept e v ValidationState.disabled = ⊥

pub record Outcome (e : Endpoint) (r : ValidationResult) : Type 0 where
  pub kept : Kept e (validated e r) r.state

summary-Outcome :
    (now : ℕ) (stun : Bool) (e : Endpoint) (a b : FamilyValidation) (four six : Bool)
    → four ≡ not (str_eq e.ipv4 "")
    → six ≡ not (str_eq e.ipv6 "")
    → Outcome e (
        summary now stun (checked_family four a) (checked_family six b) (
          failure_of "IPv4: " (checked_family four a)
          ++ failure_of "IPv6: " (checked_family six b)))
unfolding summary failure_of validated family_failed no_families has_passed
summary-Outcome now stun e a b true true p q = elim (Bool-cases (is_passed a.state)) [
  | inl x ↦ elim (Bool-cases (is_passed b.state)) [
    | inl y ↦ rw (x, y) (record { kept = (ground arith, (rw x refl, rw y refl)) })
    | inr y ↦
        rw (x, y)
          (record {
            kept = (ground arith, (simp (x, y) (ground arith), simp (x, y) (ground arith)));
          })
  ]
  | inr x ↦ elim (Bool-cases (is_passed b.state)) [
    | inl y ↦
        rw (x, y)
          (record {
            kept = (ground arith, (simp (x, y) (ground arith), simp (x, y) (ground arith)));
          })
    | inr y ↦ rw (x, y) (record { kept = rw (x, y) refl })
  ]
]
summary-Outcome now stun e a b true false p q = elim (Bool-cases (is_passed a.state)) [
  | inl x ↦ rw x (record { kept = (ground arith, (rw x refl, refl)) })
  | inr x ↦ rw x (record { kept = rw x (ground arith) })
]
summary-Outcome now stun e a b false true p q = elim (Bool-cases (is_passed b.state)) [
  | inl y ↦ rw y (record { kept = (ground arith, (refl, ground (arith, y))) })
  | inr y ↦ rw y (record { kept = rw y (ground arith) })
]
summary-Outcome now stun e a b false false p q = record { kept = refl }

-- For the validator's answer on an endpoint: passed means that an address is there and all are kept;
-- degraded, that both were there and just one is kept; failed, that none is kept. The answer is
-- never disabled.
pub validate-Outcome :
    (w : Wire) (e : Endpoint) (names : List String) (stun_enabled : Bool)
    → Outcome e (validate w e names stun_enabled)
unfolding validate
validate-Outcome w e names stun_enabled =
    summary-Outcome w.now stun_enabled e
      (validate_family w e e.ipv4 "tcp4" "udp4" names stun_enabled)
      (validate_family w e e.ipv6 "tcp6" "udp6" names stun_enabled) _ _ refl refl

-- The probe of a name at an address was answered with a success, and no hash or one of 32 bytes pinned.
pub record ServesTls (w : Wire) (address : String) (port : ℕ) (tcp name : String) : Type 0 where
  pub code : ℕ
  pub hash :
      (length (pinned w.expected_cert_hash name) ≡ 0)
      ⊎ (length (pinned w.expected_cert_hash name) ≡ 32)
  pub answered :
      w.get tcp address port (trim_space name) (pinned w.expected_cert_hash name) ≡ status code
  pub least : 200 ≤ code
  pub most : code < 300

-- The STUN request was answered with bytes that read as its own transaction.
pub record AnswersStun (w : Wire) (address : String) (port : ℕ) (udp : String) : Type 0 where
  pub bytes : List ℕ
  pub answered : w.exchange udp address port (w.new_tx_id address) ≡ received bytes
  pub reads : w.parse_response bytes ≡ transaction (w.new_tx_id address)

-- What a family that passed has been asked, and how it was answered.
pub record Reached (w : Wire) (e : Endpoint) (address tcp udp : String) (names : List String)
    (stun_enabled : Bool) : Type 0 where
  pub named : is_empty names ≡ false
  pub derp : All (ServesTls w address e.derp_port tcp) (unique_names names)
  pub stun :
      stun_enabled ≡ true
      → (n : ℕ) × ((e.stun_port ≡ pos n) × ((0 < n) × AnswersStun w address n udp))
