-- ===== src/Certs/Tests.antt =====
-- Runs of the certificate manager at a concrete host, whose year has 365 days.
use tailscale_derp.Base.{ℕ, if◌then◌else◌, str_eq, ◌+◌, ◌*◌, ◌<◌, arith, none, some, [], ◌∷◌}
use tailscale_derp.Certs.{
  Certificate, Manager, Directory, Host, key_loaded, renew_before, new_manager,
}
use tailscale_derp.Certs.Started.{Started}

abbrev host : Host
host = record {
  parse_addr = λ s. if str_eq s "192.0.2.1" then some s else none;
  address_bytes = λ s. if str_eq s "192.0.2.1" then some (192 ∷ 0 ∷ 2 ∷ 1 ∷ []) else none;
  ip_string = λ b. "192.0.2.1";
  add_year = λ n. n + 365 * 24 * 3600;
}

abbrev long_year : (n : ℕ) → n + renew_before < host.add_year n
long_year n = omega arith

-- No certificate yet, and no call that fails.
abbrev empty_directory : Directory
empty_directory = record {
  certificate = none;
  key_file = key_loaded;
  new_key_error = none;
  serial_error = none;
  create_error = none;
  persist_error = none;
}

abbrev self : Certificate
self = record { dns_names = "derp.example" ∷ []; ip_addresses = []; not_after = 40000000 }

abbrev running : Manager
running = record {
  base_names = "derp.example" ∷ [];
  endpoints = [];
  current = some self;
  valid_to = 40000000;
}

abbrev started : Manager
started = (new_manager host empty_directory 100 ("Derp.Example." ∷ [])).1
