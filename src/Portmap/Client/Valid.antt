-- ===== src/Portmap/Client/Valid.antt =====
-- What a mapping that the client returns satisfies.
use tailscale_derp.Base.{
  ◌≡◌, ◌≢◌, refl, subst, String, str_eq, eq_iff, true, Option, none, some, List, [], ◌∷◌, ◌++◌,
  arith, any, inl, inr, Option-cases,
}
use tailscale_derp.Portmap.Address.{Addr, invalid, v4, v6, is_public_ipv4}
use tailscale_derp.Portmap.{PortRequest, Request, Lease, Mapping, Log, Network, asked}
use tailscale_derp.Portmap.Client.{
  Client, MapError, Answer, Result, ok, err, failed, mapped, same_addr, validate_stun,
  validate_derp, validate_leases, validate_mapping, settle, try_method, map_loop, map_client,
}

-- What the request asks of the STUN lease, beside a DERP lease `d`.
abbrev pub StunUsable : Option PortRequest → Lease → Option Lease → Type 0
StunUsable none d s = Unit
StunUsable (some r) d s =
    (l : Lease) × (s ≡ some l)
    × (l.external_ip ≡ d.external_ip)
    × (l.external_port ≢ 0)
    × (r.strict ≡ true → l.external_port ≡ r.external_port)

abbrev pub Usable : Request → Mapping → Type 0
Usable r m =
    (d : Lease) × (m.derp ≡ some d)
    × (is_public_ipv4 d.external_ip ≡ true)
    × (d.external_port ≢ 0)
    × (r.derp.strict ≡ true → d.external_port ≡ r.derp.external_port)
    × StunUsable r.stun d m.stun

same_addr-eq : (a b : Addr) → same_addr a b ≡ true → a ≡ b
unfolding same_addr
same_addr-eq invalid invalid h = refl
same_addr-eq (v4 a) (v4 b) h = ground arith
same_addr-eq (v6 a) (v6 b) h = ground arith
same_addr-eq _ _ h = cc

validate_stun_sound :
    (d : Lease) (s : Option Lease) (r : Option PortRequest)
    → validate_stun d s r ≡ none
    → StunUsable r d s
unfolding validate_stun
validate_stun_sound d s none h = tt
validate_stun_sound d none (some r) h = cc
validate_stun_sound d (some l) (some r) h =
    (l, refl, ground (arith, same_addr-eq l.external_ip d.external_ip), ground arith, ground arith)

stun_checked :
    (d : Lease) (s : Option Lease) (r : Request)
    → validate_derp d s r ≡ none
    → validate_stun d s r.stun ≡ none
unfolding validate_derp
stun_checked d s r h = ground arith

validate_leases_sound :
    (o s : Option Lease) (r : Request) (m : String)
    → validate_leases o s r ≡ none
    → Usable r (record { method = m; derp = o; stun = s })
unfolding validate_leases
validate_leases_sound none s r m h = cc
validate_leases_sound (some d) s r m h = (
  d,
  refl,
  ground arith,
  ground arith,
  ground arith,
  validate_stun_sound d s r.stun (stun_checked d s r h),
)

settle_sound :
    (net : Network) (method : String) (r : Request) (a : Answer) (log : Log) (m : Mapping)
    → (settle net method r a log).0 ≡ ok m
    → Usable r m × (m.method ≡ method)
unfolding settle validate_mapping
settle_sound net method r (failed e) log m h = cc
settle_sound net method r (mapped none) log m h = cc
settle_sound net method r (mapped (some x)) log m h =
    elim (Option-cases (validate_mapping (some x) r)) [
      | inl e ↦
          subst (λ y. Usable r y × (y.method ≡ method)) (ground (arith, e))
            (validate_leases_sound x.derp x.stun r method e, refl)
      | inr (why, e) ↦ ground (arith, e)
    ]

try_method_sound :
    (net : Network) (method : String) (b : Option (Request → Log → Answer)) (r : Request)
    (log : Log) (m : Mapping)
    → (try_method net method b r log).0 ≡ ok m
    → Usable r m × (m.method ≡ method)
unfolding try_method
try_method_sound net method none r log m h = cc
try_method_sound net method (some b) r log m h =
    settle_sound net method r (b r (asked method ∷ log)) (asked method ∷ log) m h

loop_sound :
    (net : Network) (backends : String → Option (Request → Log → Answer)) (ms : List String)
    (errs : List MapError) (r : Request) (log : Log) (m : Mapping)
    → (map_loop net backends ms errs r log).0 ≡ ok m
    → Usable r m × (any ms (str_eq m.method) ≡ true)
unfolding map_loop
loop_sound net backends [] errs r log m h = ground arith
loop_sound net backends (x ∷ ms) errs r log m h =
    go (λ es log' q. loop_sound net backends ms (errs ++ es) r log' m q)
      (try_method net x (backends x) r log) refl
  where
    go :
        ((es : List MapError) (log' : Log)
          → (map_loop net backends ms (errs ++ es) r log').0 ≡ ok m
          → Usable r m × (any ms (str_eq m.method) ≡ true))
        → (p : Result Mapping × Log) → try_method net x (backends x) r log ≡ p
        → Usable r m × (any (x ∷ ms) (str_eq m.method) ≡ true)
    go rec (ok mapping, log') e =
        let (u, named) = try_method_sound net x (backends x) r log m (ground (arith, e)) in
        (u, ground (arith, eq_iff m.method x))
    go rec (err es, log') e = let (u, listed) = rec es log' (ground (arith, e)) in (u, ground arith)

-- A mapping that Map returns fits the request: its DERP lease is there, on a public IPv4 address
-- and a port that is not 0, and is the requested port where that was strict; the same holds of the
-- STUN lease where one was requested, which has the DERP lease's address. Its method is one of
-- those configured.
pub map_client-Usable :
    (net : Network) (c : Client) (r : Request) (log : Log) (m : Mapping)
    → (map_client net c r log).0 ≡ ok m
    → Usable r m × (any c.methods (str_eq m.method) ≡ true)
unfolding map_client
map_client-Usable net c r log m h = loop_sound net c.backends c.methods [] r log m h
