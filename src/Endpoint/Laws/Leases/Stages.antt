-- ===== src/Endpoint/Laws/Leases/Stages.antt =====
-- The stages of reconcile after the draft, and what it stores, keep hold of the mappings.
use tailscale_derp.Base.{
  ℕ, ◌≡◌, refl, String, Bool, true, not, Option, none, some, [], ◌∷◌, ◌++◌, inl, inr, Bool-cases,
  if◌then◌else◌, if_elim, str_eq, ◌&&◌, ◌||◌, is_some, arith,
}
use tailscale_derp.Portmap.{Mapping}
use tailscale_derp.Endpoint.{
  Manager, Error, Log, asked_network, validated_at, ValidationResult, validated, validation_failed,
  validating, validation_off, tls_required, released, management_disabled, listeners_not_ready,
}
use tailscale_derp.Endpoint.Interfaces.{Env, Answer, failed, found}
use tailscale_derp.Endpoint.Failures.{log_release, fail, update_certificate, no_address}
use tailscale_derp.Endpoint.Draft.{Draft, name_method, build_draft}
use tailscale_derp.Endpoint.Operations.{
  Stage, aborted, going, abort, abandon, check_certificate, certify, network_answer, ask_network,
  inspect_network, unmapped, certify_validated, accept_validation, run_validation, validate_draft,
  set_state, commit, same_mapping, finish, degrade, reconcile, not_ready, prepare, chain,
  set_attempt, validation_problems, set_validation,
}
use tailscale_derp.Endpoint.Laws.Held.{Held, Held-neutral, Held-released, Held-same, Held-swap, own}
use tailscale_derp.Endpoint.Laws.Leases.Parts.{
  NoLeak, Safe, log_release-Held, fail-Safe, update_certificate-Held, publish-Safe,
}
use tailscale_derp.Endpoint.Laws.Leases.Draft.{DraftHeld, name_method-Held, build_draft-Held}

pub data StageHeld (a : Option Mapping) : Stage → Type 0 where
  aborts : (m : Manager) (e : Error) → NoLeak m → StageHeld a (aborted m e)
  goes :
      (m : Manager) (d : Draft) (network : String)
      → m.active ≡ a
      → DraftHeld a d
      → StageHeld a (going m d network)

module _ (env : Env) (now : ℕ) (a : Option Mapping) where
  abort-Held : (r : Manager × Error) → Safe r → StageHeld a (abort r)
  unfolding abort
  abort-Held (m, e) h = aborts m e h.no_leak

  abandon-Held :
      (e : Error) (d : Draft) (m : Manager)
      → m.active ≡ a
      → DraftHeld a d
      → StageHeld a (abandon env now e d m)
  unfolding abandon
  abandon-Held e d m q h = abort-Held _ (
      fail-Safe env now e (record m { log = log_release d.mapping d.log })
        (record { held = rw q (log_release-Held d.mapping (own a) d.log h.held) }))

  check_certificate-Held :
      (network : String) (d : Draft) (m : Manager) (r : Option String × Log)
      → m.active ≡ a
      → Held (own d.mapping ++ own a) r.1
      → StageHeld a (check_certificate env now network d m r)
  unfolding check_certificate
  check_certificate-Held network d m (some why, log) q h =
      abandon-Held _ (record d { log = log }) m q (record { held = h })
  check_certificate-Held network d m (none, log) q h =
      goes m (record d { log = log }) network q (record { held = h })

  certify-Held :
      (network : String) (d : Draft) (m : Manager)
      → m.active ≡ a
      → DraftHeld a d
      → StageHeld a (certify env now network d m)
  unfolding certify
  certify-Held network d m q h =
      check_certificate-Held network d m (update_certificate env d.candidate d.log) q
        (update_certificate-Held env d.candidate _ d.log h.held)

  network_answer-Held :
      (d : Draft) (m : Manager) (r : Answer)
      → m.active ≡ a
      → DraftHeld a d
      → StageHeld a (network_answer env now d m r)
  unfolding network_answer
  network_answer-Held d m (failed why) q h = abandon-Held _ d m q h
  network_answer-Held d m (found text) q h = goes m d text q h

  ask_network-Held :
      (d : Draft) (m : Manager) (find : Option (String → Log → Answer))
      → m.active ≡ a
      → DraftHeld a d
      → StageHeld a (ask_network env now d m find)
  unfolding ask_network
  ask_network-Held d m none q h = goes m d "" q h
  ask_network-Held d m (some find) q h =
      network_answer-Held (record d { log = asked_network ∷ d.log }) m
        (find m.cfg.wan_interface (asked_network ∷ d.log)) q
        (record { held = Held-neutral asked_network _ d.log tt h.held })

  inspect_network-Held :
      (d : Draft) (m : Manager)
      → m.active ≡ a
      → DraftHeld a d
      → StageHeld a (inspect_network env now d m)
  unfolding inspect_network
  inspect_network-Held d m q h =
      if_elim (StageHeld a) _ _ _ (λ _. ask_network-Held d m env.network_fingerprint q h)
        (λ _. goes m d "" q h)

  unmapped-Held :
      (m : Manager) (network : String) (d : Draft)
      → DraftHeld a d
      → DraftHeld a (unmapped m network d).0
  unfolding unmapped
  unmapped-Held m network d h =
      elim (Bool-cases (str_eq d.candidate.ipv4 "" && is_some d.mapping)) [
        | inl e ↦
            rw (e, unmapped) (record { held = log_release-Held d.mapping (own a) d.log h.held })
        | inr e ↦ rw (e, unmapped) h
      ]

  accept_validation-Held :
      (r : ValidationResult) (network : String) (d : Draft) (m : Manager)
      → m.active ≡ a
      → DraftHeld a d
      → StageHeld a (accept_validation env now r network d m)
  unfolding accept_validation certify_validated
  accept_validation-Held r network d m q h =
      let d' = record d { problems = d.problems ++ validation_problems r } in
      if_elim (StageHeld a) (no_address d.candidate)
        (abandon env now (validation_failed r.error ∷ []) d m)
        (certify_validated env now m (unmapped m network d'))
        (λ _. abandon-Held (validation_failed r.error ∷ []) d m q h)
        λ _.
          certify-Held (unmapped m network d').1 (unmapped m network d').0 m q
            (unmapped-Held m network d' (record { held = h.held }))

  validate_draft-Held :
      (force : Bool) (network : String) (d : Draft) (m : Manager)
      → m.active ≡ a
      → DraftHeld a d
      → StageHeld a (validate_draft env now force network d m)
  unfolding validate_draft run_validation set_state
  validate_draft-Held force network d m q h =
      let r = env.validate d.candidate m.cfg.validation_names m.cfg.stun_enabled d.log in
      if_elim (StageHeld a) (m.cfg.validate_endpoint || force) (run_validation env now network d m)
        (going (set_validation validation_off m) d network)
        (λ _.
          accept_validation-Held r network
            (record d {
              candidate = validated d.candidate r;
              log = validated_at d.candidate ∷ d.log;
            })
            (set_validation r (set_state validating [] m)) q
            (record { held = Held-neutral (validated_at d.candidate) _ d.log tt h.held }))
        (λ _. goes (set_validation validation_off m) d network q h)

  chain-Held :
      (s : Stage) (f : Manager → Draft → String → Stage)
      → ((m : Manager) (d : Draft) (network : String)
          → m.active ≡ a
          → DraftHeld a d
          → StageHeld a (f m d network))
      → StageHeld a s
      → StageHeld a (chain s f)
  chain-Held _ f k (aborts m e h) = aborts m e h
  chain-Held _ f k (goes m d network q h) = k m d network q h

  prepare-Held :
      (force : Bool) (d : Draft) (m : Manager)
      → m.active ≡ a
      → DraftHeld a d
      → StageHeld a (prepare env now force d m)
  unfolding prepare
  prepare-Held force d m q h =
      let named = name_method d in
      let h' = name_method-Held a d h in
      let rest = λ (m₁ : Manager) (d₁ : Draft) (network₁ : String).
        chain (inspect_network env now d₁ m₁)
          λ m₂ d₂ network. validate_draft env now force network d₂ m₂ in
      if_elim (StageHeld a) (no_address d.candidate) (abandon env now d.problems d m) _
        (λ _. abandon-Held d.problems d m q h)
        λ _.
          if_elim (StageHeld a) (not m.cfg.tls_configured)
            (abandon env now (tls_required ∷ []) named m) (chain (certify env now "" named m) rest)
            (λ _. abandon-Held (tls_required ∷ []) named m q h')
            λ _.
              chain-Held (certify env now "" named m) rest
                (λ m₁ d₁ network₁ q₁ h₁.
                  chain-Held (inspect_network env now d₁ m₁)
                    (λ m₂ d₂ network. validate_draft env now force network d₂ m₂)
                    (λ m₂ d₂ network q₂ h₂. validate_draft-Held force network d₂ m₂ q₂ h₂)
                    (inspect_network-Held d₁ m₁ q₁ h₁))
                (certify-Held "" named m q h')

released_old-Held :
    (moved : Bool) (old new : Option Mapping) (log : Log)
    → Held (own new ++ own old) log
    → Held
        (own new)
        (if is_some old && (moved || not (same_mapping old new)) then log_release old log else log)
unfolding same_mapping
released_old-Held moved none none log h = h
released_old-Held moved none (some y) log h = h
released_old-Held moved (some x) none log h =
    if_elim (Held []) (moved || true) (released x ∷ log) log (λ _. Held-released x [] log h)
      (λ e. ground arith)
released_old-Held moved (some x) (some y) log h =
    if_elim (Held (y ∷ [])) (moved || not (same_mapping (some x) (some y))) (released x ∷ log) log
      (λ _. Held-released x (y ∷ []) log (Held-swap y x log h))
      (λ e. Held-same y x [] log (ground arith) h)

commit-NoLeak :
    (now : ℕ) (network : String) (d : Draft) (m : Manager)
    → DraftHeld m.active d
    → NoLeak (commit now network d m)
unfolding commit
commit-NoLeak now network d m h = record {
  held = released_old-Held (not (str_eq m.network network)) m.active d.mapping d.log h.held;
}

degrade-Safe : (r : Manager × Error) → Safe r → Safe (degrade r)
unfolding degrade
degrade-Safe (m, []) h = h
degrade-Safe (m, e ∷ es) h = record { no_leak = record { held = h.no_leak.held } }

finish-Safe :
    (env : Env) (now : ℕ) (a : Option Mapping) (s : Stage) → StageHeld a s → Safe (finish env now s)
unfolding finish
finish-Safe env now a _ (aborts m e h) = record { no_leak = h }
finish-Safe env now a _ (goes m d network q h) =
    degrade-Safe _ (publish-Safe env now d.candidate _ (commit-NoLeak now network d m (rw q h)))

pub reconcile-Safe :
    (env : Env) (now : ℕ) (force : Bool) (m : Manager) → NoLeak m → Safe (reconcile env now force m)
unfolding reconcile set_attempt
reconcile-Safe env now force m h =
    let m' = set_attempt now m in
    if_elim Safe (not m.cfg.enabled) (m, management_disabled ∷ []) _ (λ _. record { no_leak = h })
      λ _.
        if_elim Safe (not_ready m) (fail env now (listeners_not_ready ∷ []) m)
          (finish env now (prepare env now force (build_draft env m') m'))
          (λ _. fail-Safe env now (listeners_not_ready ∷ []) m h)
          λ _. finish-Safe env now m.active _ (
            prepare-Held env now m.active force (build_draft env m') m' refl
              (build_draft-Held env m' (record { held = h.held })))
