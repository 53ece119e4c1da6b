-- ===== src/Endpoint/Laws/Leases.antt =====
-- No mapping is forgotten: whatever the mapper gave is active, or was released.
mod Parts
mod Draft
mod Stages
pub use Parts.{NoLeak}
use Parts.{
  Safe, PrunedHeld, release_active-NoLeak, fail-Safe, publish-Safe, reset-NoLeak,
  apply_partial-Held,
}
use Stages.{reconcile-Safe}
use tailscale_derp.Base.{
  ℕ, ◌≡◌, refl, String, Bool, true, false, not, Option, none, some, List, [], ◌∷◌, inl, inr,
  Option-cases, if_elim, if◌then◌else◌, str_eq, ◌&&◌, ◌||◌, is_some, leb,
}
use tailscale_derp.Endpoint.{
  Config, Endpoint, Manager, Error, ValidationResult, ValidationState, Log, asked_network,
  validated_at, network_failed, validation_failed, no_mapped_endpoint, new_manager, wants_ipv4,
  set_local_bindings,
}
use tailscale_derp.Endpoint.Interfaces.{Env, Answer, failed, found}
use tailscale_derp.Endpoint.Failures.{
  Pruned, stopped, kept, fail, publish, release_active, apply_partial_validation,
  reset_validation_failures,
}
use tailscale_derp.Endpoint.Operations.{not_ready, reconcile}
use tailscale_derp.Endpoint.Upkeep.{
  check, check_endpoint, sync_endpoint, checked, sync, synced, republish, maintain, watch_network,
  moved_network, by_clock, rounds, loop, ask_validator,
}
use tailscale_derp.Endpoint.History.{
  Call, bind, reconcile_at, check_at, sync_at, maintain_at, step, run, after,
}
use tailscale_derp.Endpoint.Laws.Held.{Held, Held-neutral, AllMapped, same, was_released, own}

module _ (env : Env) (now : ℕ) where
  republish-Safe : (p : Pruned) → PrunedHeld p → Safe (republish env now p)
  unfolding republish
  republish-Safe (stopped m e) h = record { no_leak = h }
  republish-Safe (kept m e) h = publish-Safe env now e _ (reset-NoLeak false m h)

  checked-Safe :
      (e : Endpoint) (r : ValidationResult) (s : ValidationState) (m : Manager)
      → NoLeak m
      → Safe (checked env now e r s m)
  unfolding checked
  checked-Safe e r ValidationState.failed m h =
      if_elim Safe m.cfg.validate_endpoint (fail env now (validation_failed r.error ∷ []) m)
        (m, validation_failed r.error ∷ []) (λ _. fail-Safe env now _ m h)
        (λ _. record { no_leak = h })
  checked-Safe e r ValidationState.degraded m h =
      republish-Safe _ (apply_partial-Held env now e r m h)
  checked-Safe e r ValidationState.passed m h = record { no_leak = reset-NoLeak true m h }
  checked-Safe e r ValidationState.disabled m h = record { no_leak = reset-NoLeak true m h }

  asked-NoLeak : (e : Endpoint) (m : Manager) → NoLeak m → NoLeak (ask_validator env e m).1
  asked-NoLeak e m h = record {
    held = Held-neutral (validated_at e) (own m.active) m.log tt h.held;
  }

  check_endpoint-Safe :
      (o : Option Endpoint) (m : Manager) → NoLeak m → Safe (check_endpoint env now o m)
  unfolding check_endpoint
  check_endpoint-Safe none m h = record { no_leak = h }
  check_endpoint-Safe (some e) m h = checked-Safe e _ _ _ (asked-NoLeak e m h)

  -- Check forgets no mapping.
  pub check-Safe : (m : Manager) → NoLeak m → Safe (check env now m)
  unfolding check
  check-Safe m h = check_endpoint-Safe m.endpoint m h

  synced-Safe :
      (e : Endpoint) (r : ValidationResult) (s : ValidationState) (m : Manager)
      → NoLeak m
      → Safe (synced env now e r s m)
  unfolding synced
  synced-Safe e r ValidationState.failed m h = fail-Safe env now _ m h
  synced-Safe e r ValidationState.degraded m h =
      republish-Safe _ (apply_partial-Held env now e r m h)
  synced-Safe e r ValidationState.passed m h = publish-Safe env now e _ (reset-NoLeak true m h)
  synced-Safe e r ValidationState.disabled m h = publish-Safe env now e _ (reset-NoLeak true m h)

  sync_endpoint-Safe :
      (o : Option Endpoint) (m : Manager) → NoLeak m → Safe (sync_endpoint env now o m)
  unfolding sync_endpoint
  sync_endpoint-Safe none m h = record { no_leak = h }
  sync_endpoint-Safe (some e) m h =
      if_elim Safe m.cfg.validate_endpoint
        (let (r, m') = ask_validator env e m in synced env now e r r.state m') (publish env now e m)
        (λ _. synced-Safe e _ _ _ (asked-NoLeak e m h)) (λ _. publish-Safe env now e m h)

  -- Sync forgets no mapping.
  pub sync-Safe : (m : Manager) → NoLeak m → Safe (sync env now m)
  unfolding sync
  sync-Safe m h = sync_endpoint-Safe m.endpoint m h

  by_clock-NoLeak : (m : Manager) → NoLeak m → NoLeak (by_clock env now m)
  unfolding by_clock
  by_clock-NoLeak m h =
      if_elim NoLeak (not (is_some m.endpoint) || leb m.next_renew now)
        (reconcile env now false m).0 _ (λ _. (reconcile-Safe env now false m h).no_leak)
        λ _.
          if_elim NoLeak (leb m.next_sync now) (sync env now m).0 m (λ _. (sync-Safe m h).no_leak)
            (λ _. h)

  moved_network-NoLeak : (r : Answer) (m : Manager) → NoLeak m → NoLeak (moved_network env now r m)
  unfolding moved_network
  moved_network-NoLeak (failed why) m h = (fail-Safe env now (network_failed why ∷ []) m h).no_leak
  moved_network-NoLeak (found current) m h =
      if_elim NoLeak (not (str_eq m.network "") && not (str_eq current m.network))
        (reconcile env now false m).0 (by_clock env now m)
        (λ _. (reconcile-Safe env now false m h).no_leak) (λ _. by_clock-NoLeak m h)

  watch_network-NoLeak :
      (o : Option (String → Log → Answer)) (m : Manager)
      → NoLeak m
      → NoLeak (watch_network env now o m)
  unfolding watch_network
  watch_network-NoLeak none m h = by_clock-NoLeak m h
  watch_network-NoLeak (some find) m h =
      moved_network-NoLeak _ (record m { log = asked_network ∷ m.log })
        (record { held = Held-neutral asked_network (own m.active) m.log tt h.held })

  pub maintain-NoLeak : (m : Manager) → NoLeak m → NoLeak (maintain env now m)
  unfolding maintain
  maintain-NoLeak m h =
      if_elim NoLeak (not_ready m) m _ (λ _. h)
        λ _.
          if_elim NoLeak (is_some m.endpoint && (str_eq m.cfg.mode "nat" && wants_ipv4 m.cfg))
            (watch_network env now env.network_fingerprint m) (by_clock env now m)
            (λ _. watch_network-NoLeak env.network_fingerprint m h) (λ _. by_clock-NoLeak m h)

pub rounds-NoLeak :
    (env : Env) (times : List ℕ) (m : Manager) → NoLeak m → NoLeak (rounds env times m)
unfolding rounds
rounds-NoLeak env [] m h = h
rounds-NoLeak env (now ∷ later) m h = rounds-NoLeak env later _ (
    if_elim NoLeak m.cfg.enabled (maintain env now m) m (λ _. maintain-NoLeak env now m h) (λ _. h))

step-NoLeak : (env : Env) (c : Call) (m : Manager) → NoLeak m → NoLeak (step env c m)
unfolding step set_local_bindings
step-NoLeak env (bind derp stun ipv4 ipv6) m h = record { held = h.held }
step-NoLeak env (reconcile_at now force) m h = (reconcile-Safe env now force m h).no_leak
step-NoLeak env (check_at now) m h = (check-Safe env now m h).no_leak
step-NoLeak env (sync_at now) m h = (sync-Safe env now m h).no_leak
step-NoLeak env (maintain_at now) m h = maintain-NoLeak env now m h

run-NoLeak : (env : Env) (calls : List Call) (m : Manager) → NoLeak m → NoLeak (run env calls m)
unfolding run
run-NoLeak env [] m h = h
run-NoLeak env (c ∷ cs) m h = run-NoLeak env cs (step env c m) (step-NoLeak env c m h)

new_manager-NoLeak : (c : Config) → NoLeak (new_manager c)
unfolding new_manager
new_manager-NoLeak c = record { held = record { each = tt } }

-- After any calls of a new manager's operations, in any order, each mapping that the mapper gave
-- agrees in method and leases with the active mapping, or with one that was released.
pub after-NoLeak : (env : Env) (c : Config) (calls : List Call) → NoLeak (after env c calls)
unfolding after
after-NoLeak env c calls = run-NoLeak env calls (new_manager c) (new_manager-NoLeak c)

pub record AllReleased (m : Manager) : Type 0 where
  pub idle : m.active ≡ none
  pub held : Held [] m.log

-- When the loop ends after any calls and any rounds of its own, no mapping is active, and each
-- mapping that the mapper gave agrees in method and leases with one that was released.
pub loop-AllReleased :
    (env : Env) (c : Config) (calls : List Call) (times : List ℕ)
    → AllReleased (loop env times (after env c calls))
unfolding loop release_active
loop-AllReleased env c calls times = record {
  held = (release_active-NoLeak _ (rounds-NoLeak env times _ (after-NoLeak env c calls))).held;
  idle = refl;
}
