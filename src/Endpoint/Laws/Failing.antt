-- ===== src/Endpoint/Laws/Failing.antt =====
-- Failures of an endpoint whose validation is on: when the endpoint is withdrawn.
use tailscale_derp.Base.{
  ℕ, ◌+◌, ◌≡◌, refl, arith, leb, String, Bool, true, false, not, Option, none, some, List, [], ◌∷◌,
  ◌||◌, is_some, if◌then◌else◌, if_elim, length, subst,
}
use tailscale_derp.Portmap.{Mapping}
use tailscale_derp.Endpoint.{
  Endpoint, Manager, Error, Log, withdrew, asked_ipv4, asked_ipv6, asked_network, asked_mapping,
  mapped, released, certified, validated_at, published_at, InstanceStatus,
}
use tailscale_derp.Endpoint.Interfaces.{Env}
use tailscale_derp.Endpoint.Failures.{
  fail, mark_failure, withdraw_now, release_active, is_withdrawn, failed_state, reaches_threshold,
  log_release,
}

abbrev pub withdrawals : Log → ℕ
withdrawals [] = 0
withdrawals (withdrew ∷ log) = withdrawals log + 1
withdrawals (mapped y ∷ log) = withdrawals log
withdrawals (released y ∷ log) = withdrawals log
withdrawals (asked_ipv4 ∷ log) = withdrawals log
withdrawals (asked_ipv6 ∷ log) = withdrawals log
withdrawals (asked_network ∷ log) = withdrawals log
withdrawals (asked_mapping ∷ log) = withdrawals log
withdrawals (certified ips ∷ log) = withdrawals log
withdrawals (validated_at e ∷ log) = withdrawals log
withdrawals (published_at e ∷ log) = withdrawals log

-- The failures one after another, each with its time and its error.
unfoldable pub fail_each : Env → List (ℕ × Error) → Manager → Manager
fail_each env [] m = m
fail_each env ((now, e) ∷ es) m = fail_each env es (fail env now e m).0

-- After `n` failures in a row: the count is `n`, and one Withdraw was called at the third.
pub record Streak (n : ℕ) (m : Manager) : Type 0 where
  pub validates : m.cfg.validate_endpoint ≡ true
  pub counted : m.status.failure_count ≡ n
  pub settled : m.withdraw_retry ≡ false
  pub state : is_withdrawn m.status.state ≡ leb 3 n
  pub calls : withdrawals m.log ≡ (if leb 3 n then 1 else 0)

released-withdrawals :
    (o : Option Mapping) (log : Log) → withdrawals (log_release o log) ≡ withdrawals log
released-withdrawals none log = refl
released-withdrawals (some x) log = refl

module _ (env : Env) (run : Endpoint → Log → List InstanceStatus × Option String)
    (publishes : env.publish ≡ some run)
    (succeeds : (log : Log) → is_some (env.withdraw log).1 ≡ false) where
  quiet : {b : Bool} → (not b || not (is_some env.publish)) ≡ true → b ≡ false
  quiet q = ground (arith, publishes, q)

  mark-Streak :
      (now : ℕ) (e : Error) (n : ℕ) (m : Manager)
      → Streak n m
      → (mark_failure now e m).withdraw_retry ≡ false
      → Streak (n + 1) (mark_failure now e m)
  unfolding mark_failure failed_state reaches_threshold
  mark-Streak now e n m h r = record {
    validates = h.validates;
    counted = ground (arith, h.validates, h.counted);
    settled = r;
    state = ground (arith, h.validates, h.counted, h.state, r);
    calls = ground (arith, h.validates, h.counted, h.state, h.calls, h.settled, r);
  }

  withdraw-Streak :
      (now : ℕ) (e : Error) (n : ℕ) (m : Manager)
      → Streak n m
      → (mark_failure now e m).withdraw_retry ≡ true
      → Streak (n + 1) (withdraw_now env e (mark_failure now e m)).0
  unfolding mark_failure failed_state reaches_threshold withdraw_now release_active is_withdrawn
  withdraw-Streak now e n m h r = record {
    validates = h.validates;
    counted = ground (arith, h.validates, h.counted);
    settled = succeeds _;
    state = ground (arith, h.validates, h.counted, h.state, r);
    calls = ground (
      arith,
      released-withdrawals m.active (withdrew ∷ m.log),
      h.validates,
      h.counted,
      h.state,
      h.calls,
      h.settled,
      r,
    );
  }

  fail-Streak :
      (now : ℕ) (e : Error) (n : ℕ) (m : Manager) → Streak n m → Streak (n + 1) (fail env now e m).0
  unfolding fail
  fail-Streak now e n m h =
      if_elim (λ (r : Manager × Error). Streak (n + 1) r.0)
        (not (mark_failure now e m).withdraw_retry || not (is_some env.publish))
        (mark_failure now e m, e) (withdraw_now env e (mark_failure now e m))
        (λ q. mark-Streak now e n m h (quiet q))
        (λ q. withdraw-Streak now e n m h (ground (arith, q)))

  fail_each-Streak :
      (es : List (ℕ × Error)) (n : ℕ) (m : Manager)
      → Streak n m
      → Streak (length es + n) (fail_each env es m)
  unfolding fail_each
  fail_each-Streak [] n m h = subst (λ k. Streak k m) (omega arith) h
  fail_each-Streak ((now, e) ∷ es) n m h =
      subst (λ k. Streak k (fail_each env es (fail env now e m).0)) (omega arith)
        (fail_each-Streak es (n + 1) _ (fail-Streak now e n m h))

-- Where publishing is set up and Withdraw gives no error, failures in a row on a validated endpoint
-- are counted one by one, Withdraw is called once, at the third failure and never again, and from
-- then on the state is withdrawn, before that it is not.
pub fail_each-withdrawals :
    (env : Env) (run : Endpoint → Log → List InstanceStatus × Option String)
    → env.publish ≡ some run
    → ((log : Log) → is_some (env.withdraw log).1 ≡ false)
    → (es : List (ℕ × Error)) (m : Manager) → Streak 0 m
    → Streak (length es) (fail_each env es m)
fail_each-withdrawals env run publishes succeeds es m h =
    subst (λ k. Streak k (fail_each env es m)) (omega arith)
      (fail_each-Streak env run publishes succeeds es 0 m h)
