-- ===== src/Certs/Started.antt =====
-- internal/cert/manager.go: a new manager, and what any updates leave of it.
use tailscale_derp.Base.{ℕ, ◌≡◌, String, true, none, some, List, []}
use tailscale_derp.Certs.{Host, Updated, lasts}
use tailscale_derp.Certs.Covers.{IsCovering}

-- What NewManager gives: an error, or a manager with a certificate for its names.
abbrev pub Started : Host → ℕ → List String → Updated → Type 0
Started host now names (some e, m) = Unit
Started host now names (none, m) =
    IsCovering host m × (m.base_names ≡ names) × (m.endpoints ≡ []) × (lasts now m.valid_to ≡ true)
