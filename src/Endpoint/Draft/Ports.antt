-- ===== src/Endpoint/Draft/Ports.antt =====
-- The ports of a candidate, and what is asked of the mapper.
use tailscale_derp.Base.{
  ℕ, ◌≡◌, ◌≤◌, ◌<◌, refl, sym, ◌∙◌, arith, not, ◌∷◌, ◌==◌, String, str_eq, Bool, true, false,
  Option, none, some, ◌&&◌, ◌||◌, is_some, if_elim, pos, ==ℤ-eq, trim_space, to_lower, parse_uint,
  parse_uint-le, subst,
}
use tailscale_derp.Portmap.{Lease, Mapping}
use tailscale_derp.Endpoint.{
  Config, Endpoint, Manager, asked_mapping, asked_ipv4, asked_ipv6, Log, wants_ipv4, wants_ipv6,
}
use tailscale_derp.Endpoint.Interfaces.{Env, Answer, MapAnswer, failed, found, given}
use tailscale_derp.Endpoint.Draft.{
  Draft, keep_ports, build_draft, first_draft, draft_ipv4, draft_ipv6, has_both, ports_differ,
  requested_port, nonzero, max_port, stun_of, nat_ipv4, Requested, bad, requested, nat_request,
  direct_ipv4, direct_request, ipv6_answer, ipv6_request,
}

-- The leases of a mapping have these ports outside.
pub record OnPorts (stun_enabled : Bool) (derp stun : ℕ) (mp : Mapping) : Type 0 where
  pub derp_lease : Lease
  pub has_derp : mp.derp ≡ some derp_lease
  pub derp_port : derp_lease.external_port ≡ derp
  pub has_stun : stun_enabled ≡ true → (l : Lease) × ((mp.stun ≡ some l) × (l.external_port ≡ stun))

abbrev pub MappedOn : Manager → Option Mapping → Type 0
MappedOn m none = Unit
MappedOn m (some mp) = OnPorts m.cfg.stun_enabled m.local_derp_port m.local_stun_port mp

-- One set of ports serves both families.
pub record SamePorts (m : Manager) (d : Draft) : Type 0 where
  pub kept : has_both d.candidate ≡ true → MappedOn m d.mapping

-- The candidate's ports are those of the mapping's leases.
abbrev LeasedOn : Endpoint → Option Mapping → Type 0
LeasedOn e none = Unit
LeasedOn e (some mp) =
    (l : Lease) × ((mp.derp ≡ some l)
      × ((e.derp_port ≡ l.external_port) × (e.stun_port ≡ stun_of mp.stun)))

abbrev Leased : Draft → Type 0
Leased d = LeasedOn d.candidate d.mapping

stun_lease :
    (o : Option Lease) (n : ℕ)
    → stun_of o ≡ pos n
    → (l : Lease) × ((o ≡ some l) × (l.external_port ≡ n))
stun_lease none n h = absurd (ground (arith, h))
stun_lease (some l) n h = (l, (refl, ground (arith, h)))

same-MappedOn :
    (m : Manager) (e : Endpoint) (o : Option Mapping)
    → has_both e && is_some o && ports_differ m e ≡ false
    → has_both e ≡ true
    → LeasedOn e o
    → MappedOn m o
same-MappedOn m e none q b h = tt
same-MappedOn m e (some mp) q b (l, (a, (p, s))) = record {
  derp_lease = l;
  has_derp = a;
  derp_port = sym p ∙ ground (arith, q, b);
  has_stun =
      λ u. stun_lease mp.stun m.local_stun_port (sym s ∙ ==ℤ-eq _ _ (ground (arith, q, b, u)));
}

keep_ports-SamePorts : (m : Manager) (d : Draft) → Leased d → SamePorts m (keep_ports m d)
unfolding keep_ports
keep_ports-SamePorts m d h =
    if_elim (SamePorts m) (has_both d.candidate && is_some d.mapping && ports_differ m d.candidate)
      _ _ (λ q. record { kept = λ b. tt })
      (λ q. record { kept = λ b. same-MappedOn m d.candidate d.mapping q b h })

nat_ipv4-Leased : (env : Env) (a : MapAnswer) (d : Draft) → Leased d → Leased (nat_ipv4 env a d)
unfolding nat_ipv4
nat_ipv4-Leased env (failed why) d h = h
nat_ipv4-Leased env (given method l stun) d h = (l, (refl, (refl, refl)))

nat_request-Leased :
    (env : Env) (r : Requested) (d : Draft) → Leased d → Leased (nat_request env r d)
unfolding nat_request
nat_request-Leased env (bad p) d h = h
nat_request-Leased env (requested r) d h =
    nat_ipv4-Leased env (env.map_port r (asked_mapping ∷ d.log))
      (record d { log = asked_mapping ∷ d.log }) h

direct_ipv4-Leased : (a : Answer) (d : Draft) → Leased d → Leased (direct_ipv4 a d)
unfolding direct_ipv4
direct_ipv4-Leased (failed why) d h = h
direct_ipv4-Leased (found text) d h = h

direct_request-Leased :
    (c : Config) (find : Option (String → Log → Answer)) (d : Draft)
    → Leased d
    → Leased (direct_request c find d)
unfolding direct_request
direct_request-Leased c none d h = h
direct_request-Leased c (some find) d h =
    direct_ipv4-Leased (find c.wan_interface (asked_ipv4 ∷ d.log))
      (record d { log = asked_ipv4 ∷ d.log }) h

draft_ipv4-Leased : (env : Env) (m : Manager) (d : Draft) → Leased d → Leased (draft_ipv4 env m d)
unfolding draft_ipv4
draft_ipv4-Leased env m d h =
    if_elim Leased (not (wants_ipv4 m.cfg)) _ _ (λ _. h)
      λ _.
        if_elim Leased (not m.supports_ipv4) _ _ (λ _. h)
          λ _.
            if_elim Leased (str_eq m.cfg.mode "direct") _ _
              (λ _. direct_request-Leased m.cfg env.public_ipv4 d h)
              (λ _. nat_request-Leased env _ d h)

ipv6_answer-Leased : (a : Answer) (d : Draft) → Leased d → Leased (ipv6_answer a d)
unfolding ipv6_answer
ipv6_answer-Leased (failed why) d h = h
ipv6_answer-Leased (found text) d h = h

ipv6_request-Leased :
    (c : Config) (find : Option (String → Log → Answer)) (d : Draft)
    → Leased d
    → Leased (ipv6_request c find d)
unfolding ipv6_request
ipv6_request-Leased c none d h = h
ipv6_request-Leased c (some find) d h =
    ipv6_answer-Leased (find c.wan_interface (asked_ipv6 ∷ d.log))
      (record d { log = asked_ipv6 ∷ d.log }) h

draft_ipv6-Leased : (env : Env) (m : Manager) (d : Draft) → Leased d → Leased (draft_ipv6 env m d)
unfolding draft_ipv6
draft_ipv6-Leased env m d h =
    if_elim Leased (not (wants_ipv6 m.cfg)) _ _ (λ _. h)
      λ _.
        if_elim Leased (not m.supports_ipv6) _ _ (λ _. h)
          λ _. ipv6_request-Leased m.cfg env.public_ipv6 d h

-- The candidate that reconcile puts together has an IPv4 mapping and an IPv6 address together only
-- if the mapping's DERP lease has the local DERP port outside and, where STUN is on, it has a STUN
-- lease with the local STUN port outside.
pub build_draft-SamePorts : (env : Env) (m : Manager) → SamePorts m (build_draft env m)
unfolding build_draft first_draft
build_draft-SamePorts env m =
    keep_ports-SamePorts m (draft_ipv6 env m (draft_ipv4 env m (first_draft m))) (
      draft_ipv6-Leased env m (draft_ipv4 env m (first_draft m))
        (draft_ipv4-Leased env m (first_draft m) tt))

pub record Port (local : ℕ) (r : ℕ × Bool) : Type 0 where
  pub free : r.1 ≡ false → r.0 ≡ local
  pub positive : r.1 ≡ true → 0 < r.0
  pub bounded : r.1 ≡ true → r.0 ≤ max_port

abbrev PortOf : ℕ → Option (ℕ × Bool) → Type 0
PortOf local none = Unit
PortOf local (some r) = Port local r

nonzero-Port :
    (local : ℕ) (o : Option ℕ) → ((n : ℕ) → o ≡ some n → n ≤ max_port) → PortOf local (nonzero o)
unfolding nonzero
nonzero-Port local none h = tt
nonzero-Port local (some n) h =
    if_elim (PortOf local) (n == 0) none (some (n, true)) (λ _. tt)
      λ q. record {
        free = λ e. ground arith;
        positive = λ _. ground arith;
        bounded = λ _. h n refl;
      }

requested_port-PortOf : (value : String) (local : ℕ) → PortOf local (requested_port value local)
unfolding requested_port
requested_port-PortOf value local =
    let v = trim_space (to_lower value) in
    if_elim (PortOf local) (str_eq v "" || str_eq v "auto") (some (local, false))
      (nonzero (parse_uint max_port v))
      (λ _. record { free = λ _. refl; positive = λ e. ground arith; bounded = λ e. ground arith })
      (λ _. nonzero-Port local (parse_uint max_port v) (parse_uint-le max_port v))

-- A requested port that is not strict is the local port, and a strict one is from 1 to 65535.
pub requested_port-Port :
    (value : String) (local : ℕ) (r : ℕ × Bool) → requested_port value local ≡ some r → Port local r
requested_port-Port value local r q = subst (PortOf local) q (requested_port-PortOf value local)
