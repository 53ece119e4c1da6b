-- ===== src/Portmap/Upnp/Released.antt =====
-- internal/portmap/upnp.go: every port that a service added is in the mapping or was deleted.
use tailscale_derp.Base.{
  ℕ, ◌≡◌, ◌==◌, List, [], ◌∷◌, ◌++◌, Bool, true, false, not, ◌&&◌, Option, none, some, ◌⊎◌, inl,
  inr, Bool-cases, refl, ap, ◌∙◌, sym, arith,
}
use mathlib.Core.List.{append_assoc}
use tailscale_derp.Portmap.{PortRequest, Request, Mapping, Closure, upnp_release, Error}
use tailscale_derp.Portmap.Routes.{default_gateway, source_ipv4}
use tailscale_derp.Portmap.Address.{Addr, unmap}
use tailscale_derp.Portmap.Client.{same_addr}
use tailscale_derp.Portmap.Ports.{added, removed, Acts, requested_port}
use tailscale_derp.Portmap.Ports.Released.{
  Granted, Traced, Settled, HoldsAll, AllGone, AllGone-more, map_ports-Settled,
}
use tailscale_derp.Portmap.Upnp.{
  Service, Upnp, any_answered, attempt_any, first_answered, granted_lease, acquire_upnp, map_at,
  map_upnp_service, try_services, next_service, add_errors, second_version, with_source,
  with_gateway, map_upnp, release_upnp, is_valid,
}

abbrev pub closure : ℕ → PortRequest → ℕ → Closure
closure service r port = upnp_release service port r.protocol

-- After an error nothing is left; a mapping is held by one service, and nothing is left of what
-- was tried before it.
abbrev pub SettledAt : Request → Acts → Mapping ⊎ Error → Acts → Type 0
SettledAt r old (inl m) now =
    (service : ℕ) × (new : Acts) × (before : Acts) × (now ≡ new ++ (before ++ old))
    × AllGone [] before
    × HoldsAll closure service r.derp r.stun m new
SettledAt r old (inr e) now = (new : Acts) × (now ≡ new ++ old) × AllGone [] new

AllGone-append : (x a l : Acts) → AllGone l x → AllGone [] a → AllGone l (x ++ a)
AllGone-append [] a l g h = AllGone-more a [] l h
AllGone-append (b ∷ x) a l g h = (g.0, AllGone-append x a (b ∷ l) g.1 h)

-- What is settled since a point from which nothing was left is settled since before it.
SettledAt-before :
    (r : Request) (old between now : Acts) (x : Mapping ⊎ Error) (a : Acts)
    → between ≡ a ++ old
    → AllGone [] a
    → SettledAt r between x now
    → SettledAt r old x now
SettledAt-before r old between now (inl m) a e g (service, new, before, q, gone, held) = (
  service,
  new,
  before ++ a,
  q
      ∙ ap (λ (t : Acts). new ++ (before ++ t)) e
      ∙ ap (λ (t : Acts). new ++ t) (sym (append_assoc before a old)),
  AllGone-append before a [] gone g,
  held,
)
SettledAt-before r old between now (inr e') a e g (new, q, gone) = (
  new ++ a,
  q ∙ ap (λ (t : Acts). new ++ t) e ∙ sym (append_assoc new a old),
  AllGone-append new a [] gone g,
)

one_service :
    (r : Request) (service : ℕ) (old now : Acts) (x : Mapping ⊎ Error)
    → Settled closure service r.derp r.stun old x now
    → SettledAt r old x now
one_service r service old now (inl m) (new, e, h) = (service, new, [], e, tt, h)
one_service r service old now (inr e) h = h

module _ (c : Upnp) where
  abbrev Answer : Service → PortRequest → Acts → ℕ ⊎ Error → Acts → Type 0
  Answer s r old (inl port) now =
      (new : Acts) × (now ≡ new ++ old)
      × ((r.strict && not (port == requested_port r)) ≡ false)
      × Granted closure s.id r port new
  Answer s r old (inr e) now = (new : Acts) × (now ≡ new ++ old) × AllGone [] new

  any-Answer :
      (s : Service) (r : PortRequest) (x : ℕ ⊎ Error) (p : ℕ) (acts : Acts)
      → r.strict ≡ false
      → Answer s r acts
          (any_answered s.id r x (added s.id r p none ∷ acts)).0
          (any_answered s.id r x (added s.id r p none ∷ acts)).1
  unfolding any_answered
  any-Answer s r (inl port) p acts h =
      (added s.id r 0 (some port) ∷ added s.id r p none ∷ [], refl, rw h refl, (0, p, refl, refl))
  any-Answer s r (inr e) p acts h =
      (added s.id r 0 none ∷ added s.id r p none ∷ [], refl, (tt, (tt, tt)))

  attempt-Answer :
      (s : Service) (r : PortRequest) (lifetime p : ℕ) (e : Error) (b : Bool) (acts : Acts)
      → (b ≡ true → r.strict ≡ false)
      → Answer s r acts
          (attempt_any c s r lifetime e b (added s.id r p none ∷ acts)).0
          (attempt_any c s r lifetime e b (added s.id r p none ∷ acts)).1
  unfolding attempt_any
  attempt-Answer s r lifetime p e true acts h = any-Answer s r _ p acts (h refl)
  attempt-Answer s r lifetime p e false acts h = (added s.id r p none ∷ [], refl, (tt, tt))

  same_port : (b : Bool) (p : ℕ) → (b && not (p == p)) ≡ false
  same_port b p = ground arith

  not_strict : (a b : Bool) → (not a && b) ≡ true → a ≡ false
  not_strict a b h = ground arith

  first-Answer :
      (s : Service) (r : PortRequest) (lifetime : ℕ) (o : Option Error) (acts : Acts)
      → Answer s r acts
          (first_answered c s r lifetime o acts).0
          (first_answered c s r lifetime o acts).1
  unfolding first_answered
  first-Answer s r lifetime none acts =
      let p = requested_port r in
      (added s.id r p (some p) ∷ [], refl, same_port r.strict p, (p, refl))
  first-Answer s r lifetime (some e) acts =
      attempt-Answer s r lifetime (requested_port r) e _ acts (not_strict r.strict s.any_port)

  granted-Traced :
      (s : Service) (external : Addr) (lifetime : ℕ) (r : PortRequest) (old : Acts) (x : ℕ ⊎ Error)
      (now : Acts)
      → Answer s r old x now
      → Traced closure s.id r old
          (granted_lease c s external lifetime r (x, now)).0
          (granted_lease c s external lifetime r (x, now)).1
  unfolding granted_lease
  granted-Traced s external lifetime r old (inr e) now h = h
  granted-Traced s external lifetime r old (inl port) now (new, e, strict, g) =
      (new, e, (record { releases = refl; strict_port = strict }, g))

  acquire-Traced :
      (s : Service) (external : Addr) (lifetime : ℕ) (r : PortRequest) (acts : Acts)
      → Traced closure s.id r acts
          (acquire_upnp c s external lifetime r acts).0
          (acquire_upnp c s external lifetime r acts).1
  unfolding acquire_upnp
  acquire-Traced s external lifetime r acts =
      granted-Traced s external lifetime r acts _ _ (first-Answer s r lifetime _ acts)

  released :
      (s : ℕ) (r : PortRequest) (port : ℕ) (acts : Acts)
      → (e : Option Error) × (release_upnp c (some (closure s r port)) acts
          ≡ removed s r.protocol port e ∷ acts)
  unfolding release_upnp
  released s r port acts = (_, refl)

  map_at-SettledAt :
      (s : Service) (r : Request) (x : Addr ⊎ Error) (acts : Acts)
      → SettledAt r acts (map_at c s r x acts).0 (map_at c s r x acts).1
  unfolding map_at
  map_at-SettledAt s r (inr e) acts = ([], refl, tt)
  map_at-SettledAt s r (inl external) acts = one_service r s.id acts _ _ (
      map_ports-Settled closure s.id (release_upnp c) _ (released s.id)
        (acquire-Traced s (unmap external) _) r.derp r.stun acts)

  service-SettledAt :
      (s : Service) (r : Request) (source : Addr) (acts : Acts)
      → SettledAt r acts
          (map_upnp_service c s r source acts).0
          (map_upnp_service c s r source acts).1
  unfolding map_upnp_service
  service-SettledAt s r source acts =
      elim (Bool-cases (is_valid s.local_addr && same_addr (unmap s.local_addr) (unmap source))) [
        | inl q ↦ rw q (map_at-SettledAt s r _ acts)
        | inr q ↦ rw q ([], refl, tt)
      ]

  next-SettledAt :
      (r : Request) (go_on : Error → Acts → (Mapping ⊎ Error) × Acts) (errs : Error) (old : Acts)
      (x : Mapping ⊎ Error) (now : Acts)
      → ((e : Error) (acts : Acts) → SettledAt r acts (go_on e acts).0 (go_on e acts).1)
      → SettledAt r old x now
      → SettledAt r old (next_service go_on errs (x, now)).0 (next_service go_on errs (x, now)).1
  unfolding next_service
  next-SettledAt r go_on errs old (inl m) now f h = h
  next-SettledAt r go_on errs old (inr e) now f (new, q, gone) =
      SettledAt-before r old now _ _ new q gone (f (errs ++ e) now)

  services-SettledAt :
      (ss : List Service) (r : Request) (source : Addr) (errs : Error) (acts : Acts)
      → SettledAt r acts
          (try_services c ss r source errs acts).0
          (try_services c ss r source errs acts).1
  unfolding try_services
  services-SettledAt [] r source errs acts = ([], refl, tt)
  services-SettledAt (s ∷ rest) r source errs acts =
      next-SettledAt r _ errs acts _ _ (λ e as'. services-SettledAt rest r source e as')
        (service-SettledAt s r source acts)

  add_errors-SettledAt :
      (r : Request) (more : Error) (old : Acts) (x : Mapping ⊎ Error) (now : Acts)
      → SettledAt r old x now
      → SettledAt r old (add_errors more (x, now)).0 (add_errors more (x, now)).1
  unfolding add_errors
  add_errors-SettledAt r more old (inl m) now h = h
  add_errors-SettledAt r more old (inr e) now h = h

  second-SettledAt :
      (r : Request) (source : Addr) (err2 : Option Error) (old : Acts) (x : Mapping ⊎ Error)
      (now : Acts)
      → SettledAt r old x now
      → SettledAt r old
          (second_version c r source err2 (x, now)).0
          (second_version c r source err2 (x, now)).1
  unfolding second_version
  second-SettledAt r source err2 old (inl m) now h = h
  second-SettledAt r source err2 old (inr errs) now (new, q, gone) =
      add_errors-SettledAt r _ old _ _
        (SettledAt-before r old now _ _ new q gone (services-SettledAt _ r source errs now))

  source-SettledAt :
      (r : Request) (x : Addr ⊎ Error) (acts : Acts)
      → SettledAt r acts (with_source c r x acts).0 (with_source c r x acts).1
  unfolding with_source
  source-SettledAt r (inr e) acts = ([], refl, tt)
  source-SettledAt r (inl source) acts =
      second-SettledAt r source (c.clients2 acts).1 acts _ _ (services-SettledAt _ r source [] acts)

  gateway-SettledAt :
      (r : Request) (x : Addr ⊎ Error) (acts : Acts)
      → SettledAt r acts (with_gateway c r x acts).0 (with_gateway c r x acts).1
  unfolding with_gateway
  gateway-SettledAt r (inr e) acts = ([], refl, tt)
  gateway-SettledAt r (inl g) acts =
      source-SettledAt r (source_ipv4 c.system g r.interface_name) acts

-- If a UPnP Map fails, each port that any service added was deleted at that service. If it gives a
-- mapping, one service added what its leases have, the requested ports where these were strict, with
-- closures that delete just that, and each port added before was deleted.
pub map_upnp-SettledAt :
    (c : Upnp) (r : Request) (acts : Acts)
    → SettledAt r acts (map_upnp c r acts).0 (map_upnp c r acts).1
unfolding map_upnp
map_upnp-SettledAt c r acts = gateway-SettledAt c r (default_gateway c.system r.interface_name) acts
