-- ===== src/Endpoint/Laws/Leases/Draft.antt =====
-- The draft of reconcile keeps hold of its own mapping and of the active one.
use tailscale_derp.Base.{
  ◌≡◌, refl, String, not, Option, none, some, ◌∷◌, ◌++◌, if_elim, str_eq, ◌&&◌, is_some,
}
use tailscale_derp.Portmap.{Mapping}
use tailscale_derp.Endpoint.{
  Config, Manager, Log, asked_ipv4, asked_ipv6, asked_mapping, no_ipv4_listener, no_ipv6_listener,
  wants_ipv4, wants_ipv6,
}
use tailscale_derp.Endpoint.Interfaces.{Env, Answer, MapAnswer, failed, found, given}
use tailscale_derp.Endpoint.Draft.{
  add_problem, has_both, ports_differ, Draft, Requested, bad, requested, draft_ipv4, draft_ipv6,
  nat_request, nat_ipv4, direct_request, direct_ipv4, ipv6_answer, ipv6_request, keep_ports,
  name_method, first_draft, build_draft,
}
use tailscale_derp.Endpoint.Laws.Held.{Held, Held-mapped, Held-neutral, own}
use tailscale_derp.Endpoint.Laws.Leases.Parts.{NoLeak, log_release-Held}

pub record DraftHeld (a : Option Mapping) (d : Draft) : Type 0 where
  pub held : Held (own d.mapping ++ own a) d.log

module _ (a : Option Mapping) where
  -- A draft that has no mapping yet.
  unmapped-Held : (d : Draft) → d.mapping ≡ none → Held (own a) d.log → DraftHeld a d
  unmapped-Held d e h = record { held = rw e h }

  nat_ipv4-Held :
      (env : Env) (r : MapAnswer) (d : Draft)
      → d.mapping ≡ none
      → Held (own a) d.log
      → DraftHeld a (nat_ipv4 env r d)
  unfolding nat_ipv4
  nat_ipv4-Held env (failed why) d e h = unmapped-Held _ e h
  nat_ipv4-Held env (given method l stun) d e h = record { held = Held-mapped _ (own a) d.log h }

  nat_request-Held :
      (env : Env) (r : Requested) (d : Draft)
      → d.mapping ≡ none
      → Held (own a) d.log
      → DraftHeld a (nat_request env r d)
  unfolding nat_request
  nat_request-Held env (bad p) d e h = unmapped-Held _ e h
  nat_request-Held env (requested r) d e h =
      nat_ipv4-Held env (env.map_port r (asked_mapping ∷ d.log))
        (record d { log = asked_mapping ∷ d.log }) e (Held-neutral asked_mapping (own a) d.log tt h)

  direct_ipv4-Held :
      (r : Answer) (d : Draft)
      → d.mapping ≡ none
      → Held (own a) d.log
      → DraftHeld a (direct_ipv4 r d)
  unfolding direct_ipv4
  direct_ipv4-Held (failed why) d e h = unmapped-Held _ e h
  direct_ipv4-Held (found text) d e h = unmapped-Held _ e h

  direct_request-Held :
      (c : Config) (find : Option (String → Log → Answer)) (d : Draft)
      → d.mapping ≡ none
      → Held (own a) d.log
      → DraftHeld a (direct_request c find d)
  unfolding direct_request
  direct_request-Held c none d e h = unmapped-Held _ e h
  direct_request-Held c (some find) d e h =
      direct_ipv4-Held (find c.wan_interface (asked_ipv4 ∷ d.log))
        (record d { log = asked_ipv4 ∷ d.log }) e (Held-neutral asked_ipv4 (own a) d.log tt h)

  draft_ipv4-Held :
      (env : Env) (m : Manager) (d : Draft)
      → d.mapping ≡ none
      → Held (own a) d.log
      → DraftHeld a (draft_ipv4 env m d)
  unfolding draft_ipv4
  draft_ipv4-Held env m d e h =
      if_elim (DraftHeld a) (not (wants_ipv4 m.cfg)) d _ (λ _. unmapped-Held d e h)
        λ _.
          if_elim (DraftHeld a) (not m.supports_ipv4) (add_problem no_ipv4_listener d) _
            (λ _. unmapped-Held (add_problem no_ipv4_listener d) e h)
            λ _.
              if_elim (DraftHeld a) (str_eq m.cfg.mode "direct")
                (direct_request m.cfg env.public_ipv4 d) (nat_request env _ d)
                (λ _. direct_request-Held m.cfg env.public_ipv4 d e h)
                (λ _. nat_request-Held env _ d e h)

  ipv6_answer-Held : (r : Answer) (d : Draft) → DraftHeld a d → DraftHeld a (ipv6_answer r d)
  unfolding ipv6_answer
  ipv6_answer-Held (failed why) d h = record { held = h.held }
  ipv6_answer-Held (found text) d h = record { held = h.held }

  ipv6_request-Held :
      (c : Config) (find : Option (String → Log → Answer)) (d : Draft)
      → DraftHeld a d
      → DraftHeld a (ipv6_request c find d)
  unfolding ipv6_request
  ipv6_request-Held c none d h = record { held = h.held }
  ipv6_request-Held c (some find) d h =
      ipv6_answer-Held (find c.wan_interface (asked_ipv6 ∷ d.log))
        (record d { log = asked_ipv6 ∷ d.log })
        (record { held = Held-neutral asked_ipv6 _ d.log tt h.held })

  draft_ipv6-Held :
      (env : Env) (m : Manager) (d : Draft) → DraftHeld a d → DraftHeld a (draft_ipv6 env m d)
  unfolding draft_ipv6
  draft_ipv6-Held env m d h =
      if_elim (DraftHeld a) (not (wants_ipv6 m.cfg)) d _ (λ _. h)
        λ _.
          if_elim (DraftHeld a) (not m.supports_ipv6) (add_problem no_ipv6_listener d) _
            (λ _. record { held = h.held }) (λ _. ipv6_request-Held m.cfg env.public_ipv6 d h)

  keep_ports-Held : (m : Manager) (d : Draft) → DraftHeld a d → DraftHeld a (keep_ports m d)
  unfolding keep_ports
  keep_ports-Held m d h =
      if_elim (DraftHeld a)
        (has_both d.candidate && is_some d.mapping && ports_differ m d.candidate) _ d
        (λ _. record { held = log_release-Held d.mapping (own a) d.log h.held }) (λ _. h)

  pub name_method-Held : (d : Draft) → DraftHeld a d → DraftHeld a (name_method d)
  unfolding name_method
  name_method-Held d h =
      if_elim (DraftHeld a) (has_both d.candidate && is_some d.mapping) _ d
        (λ _. record { held = h.held }) (λ _. h)

pub build_draft-Held : (env : Env) (m : Manager) → NoLeak m → DraftHeld m.active (build_draft env m)
unfolding build_draft first_draft
build_draft-Held env m h =
    keep_ports-Held m.active m _
      (draft_ipv6-Held m.active env m _ (draft_ipv4-Held m.active env m _ refl h.held))
