-- ===== src/Endpoint/Laws/Leases/Parts.antt =====
-- Failures, certificates and publishing keep hold of the mappings.
use tailscale_derp.Base.{
  ℕ, String, Bool, not, Option, none, some, List, [], ◌∷◌, ◌++◌, inl, inr, Option-cases, if_elim,
  str_eq, ◌&&◌,
}
use tailscale_derp.Portmap.{Mapping}
use tailscale_derp.Endpoint.{
  Endpoint, Manager, Error, ValidationResult, Log, validated, withdrew, published_at,
}
use tailscale_derp.Endpoint.Interfaces.{Env}
use tailscale_derp.Endpoint.Failures.{
  log_release, release_active, mark_failure, withdraw_now, fail, publish, reset_validation_failures,
  update_certificate, Pruned, stopped, kept, drop_mapping, keep_mapping, stop, prune_certified,
  apply_partial_validation, no_address,
}
use tailscale_derp.Endpoint.Laws.Held.{Held, Held-released, Held-neutral, own}

-- Whatever the mapper gave is the same as the active mapping, or as one that was released.
pub record NoLeak (m : Manager) : Type 0 where
  pub held : Held (own m.active) m.log

pub log_release-Held :
    (o : Option Mapping) (os : List Mapping) (log : Log)
    → Held (own o ++ os) log
    → Held os (log_release o log)
log_release-Held none os log h = h
log_release-Held (some x) os log h = Held-released x os log h

own_end : (o : Option Mapping) (log : Log) → Held (own o) log → Held (own o ++ []) log
own_end none log h = h
own_end (some x) log h = h

pub release_active-NoLeak : (m : Manager) → NoLeak m → NoLeak (release_active m)
unfolding release_active
release_active-NoLeak m h = record {
  held = log_release-Held m.active [] m.log (own_end m.active m.log h.held);
}

-- The same of what an operation returns.
pub record Safe (r : Manager × Error) : Type 0 where
  pub no_leak : NoLeak r.0

mark_failure-NoLeak : (now : ℕ) (e : Error) (m : Manager) → NoLeak m → NoLeak (mark_failure now e m)
unfolding mark_failure
mark_failure-NoLeak now e m h = record { held = h.held }

withdraw_now-Safe : (env : Env) (e : Error) (m : Manager) → NoLeak m → Safe (withdraw_now env e m)
unfolding withdraw_now
withdraw_now-Safe env e m h = record {
  no_leak = record {
    held = log_release-Held m.active [] (withdrew ∷ m.log) (
        own_end m.active (withdrew ∷ m.log) (Held-neutral withdrew (own m.active) m.log tt h.held));
  };
}

pub fail-Safe : (env : Env) (now : ℕ) (e : Error) (m : Manager) → NoLeak m → Safe (fail env now e m)
unfolding fail
fail-Safe env now e m h =
    if_elim Safe _ _ _ (λ _. record { no_leak = mark_failure-NoLeak now e m h })
      (λ _. withdraw_now-Safe env e _ (mark_failure-NoLeak now e m h))

pub update_certificate-Held :
    (env : Env) (e : Endpoint) (os : List Mapping) (log : Log)
    → Held os log
    → Held os (update_certificate env e log).1
unfolding update_certificate
update_certificate-Held env e os log h = elim (Option-cases env.update_endpoint_ips) [
  | inl q ↦ rw (q, update_certificate) h
  | inr (run, q) ↦ rw (q, update_certificate) (Held-neutral _ os log tt h)
]

pub publish-Safe :
    (env : Env) (now : ℕ) (e : Endpoint) (m : Manager) → NoLeak m → Safe (publish env now e m)
unfolding publish
publish-Safe env now e m h = elim (Option-cases env.publish) [
  | inl q ↦ rw (q, publish) (record { no_leak = h })
  | inr (run, q) ↦
      rw (q, publish)
        (record {
          no_leak = record { held = Held-neutral (published_at e) (own m.active) m.log tt h.held };
        })
]

pub reset-NoLeak : (b : Bool) (m : Manager) → NoLeak m → NoLeak (reset_validation_failures b m)
unfolding reset_validation_failures
reset-NoLeak b m h = record { held = h.held }

abbrev pub PrunedHeld : Pruned → Type 0
PrunedHeld (stopped m e) = NoLeak m
PrunedHeld (kept m e) = NoLeak m

stop-Held :
    (env : Env) (now : ℕ) (e : Error) (m : Manager)
    → NoLeak m
    → PrunedHeld (stop (fail env now e m))
unfolding stop
stop-Held env now e m h = (fail-Safe env now e m h).no_leak

drop_mapping-Held :
    (now : ℕ) (pruned : Endpoint) (r : ValidationResult) (m : Manager)
    → NoLeak m
    → PrunedHeld (drop_mapping now pruned r m)
unfolding drop_mapping
drop_mapping-Held now pruned r m h = record {
  held = log_release-Held m.active [] m.log (own_end m.active m.log h.held);
}

keep_mapping-Held :
    (pruned : Endpoint) (r : ValidationResult) (m : Manager)
    → NoLeak m
    → PrunedHeld (keep_mapping pruned r m)
unfolding keep_mapping
keep_mapping-Held pruned r m h = record { held = h.held }

prune_certified-Held :
    (env : Env) (now : ℕ) (current pruned : Endpoint) (r : ValidationResult) (why : Option String)
    (m : Manager)
    → NoLeak m
    → PrunedHeld (prune_certified env now current pruned r why m)
unfolding prune_certified
prune_certified-Held env now current pruned r (some why) m h = stop-Held env now _ m h
prune_certified-Held env now current pruned r none m h =
    if_elim PrunedHeld (not (str_eq current.ipv4 "") && str_eq pruned.ipv4 "")
      (drop_mapping now pruned r m) (keep_mapping pruned r m)
      (λ _. drop_mapping-Held now pruned r m h) (λ _. keep_mapping-Held pruned r m h)

pub apply_partial-Held :
    (env : Env) (now : ℕ) (current : Endpoint) (r : ValidationResult) (m : Manager)
    → NoLeak m
    → PrunedHeld (apply_partial_validation env now current r m)
unfolding apply_partial_validation
apply_partial-Held env now current r m h =
    if_elim PrunedHeld (no_address (validated current r)) _ _ (λ _. stop-Held env now _ m h)
      (λ _. prune_certified-Held env now current (validated current r) r _ _ (record {
        held = update_certificate-Held env (validated current r) (own m.active) m.log h.held;
      }))
