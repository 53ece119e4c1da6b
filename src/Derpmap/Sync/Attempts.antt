-- ===== src/Derpmap/Sync/Attempts.antt =====
-- The attempts of an update: how many there are, and what the last one has done.
use tailscale_derp.Base.{
  ℕ, zero, suc, ◌≡◌, ◌≤◌, ◌+◌, refl, arith, ℤ, String, str_eq, Bool, true, false, not, Option, none,
  some, List, [], ◌∷◌, inl, inr, if_elim, Option-cases,
}
use tailscale_derp.Endpoint.{Endpoint}
use tailscale_derp.Derpmap.{Hujson, ApiConfig, Result, ok, err}
use tailscale_derp.Derpmap.Patch.{patch_derp_map}
use tailscale_derp.Derpmap.Sync.{
  Api, Attempt, finished, again, read, waited, validated, wrote, Log, Policy, unread, policy,
  SyncError, too_many_conflicts, ApiError, attempts, after_attempt, attempt, attempt_read,
  attempt_patched, written, may_retry, set_policy, set_validated, conclude, plain, conflict,
  has_more, reconcile_derp_map, reconcile_instance, api_instance, Instance, missing, instance_at,
  unconfigured_instance, is_configured,
}

-- The writes among the calls.
abbrev pub writes : Log → ℕ
writes [] = 0
writes (wrote name text etag ∷ log) = writes log + 1
writes (read name ∷ log) = writes log
writes (waited name ∷ log) = writes log
writes (validated name text ∷ log) = writes log

module _ (hj : Hujson) (show_int : ℤ → String) (api : Api) (c : ApiConfig) (value : Option Endpoint)
    (withdraw : Bool) where
  -- An update that gives no error: the policy that was just read needed no change, or it was
  -- validated and set with its own tag.
  pub data Done (log : Log) : Type 0 where
    unchanged :
        (before : Log) (source etag text : String)
        → log ≡ read c.name ∷ before
        → api.raw c.name (read c.name ∷ before) ≡ policy source etag
        → patch_derp_map hj show_int c value withdraw source ≡ ok (text, false)
        → Done log
    updated :
        (before : Log) (source etag text : String)
        → log ≡ wrote c.name text etag ∷ validated c.name text ∷ read c.name ∷ before
        → api.raw c.name (read c.name ∷ before) ≡ policy source etag
        → patch_derp_map hj show_int c value withdraw source ≡ ok (text, true)
        → api.validate c.name text (validated c.name text ∷ read c.name ∷ before) ≡ none
        → api.set c.name text etag
            (wrote c.name text etag ∷ validated c.name text ∷ read c.name ∷ before)
          ≡ none
        → Done log

  false_not_true : false ≡ true → ⊥
  false_not_true h = ground arith

  abbrev gives_up : SyncError → Bool
  gives_up too_many_conflicts = true
  gives_up _ = false

  -- What an attempt leads to, of which more may follow.
  abbrev Fine : Bool → Attempt × Log → Type 0
  Fine more (finished none, log) = Done log
  Fine more (finished (some e), log) = gives_up e ≡ false
  Fine more (again, log) = more ≡ true

  record FineAttempt (more : Bool) (before : Log) (r : Attempt × Log) : Type 0 where
    fine : Fine more r
    bounded : writes r.1 ≤ writes before + 1

  retry-Fine : (more : Bool) (e : ApiError) (log : Log) → Fine more (may_retry more e, log)
  unfolding may_retry
  retry-Fine more (plain why) log = refl
  retry-Fine true (conflict why) log = refl
  retry-Fine false (conflict why) log = refl

  written-Fine :
      (more : Bool) (answer : Option ApiError) (log : Log)
      → (answer ≡ none → Done log)
      → Fine more (written more answer, log)
  unfolding written
  written-Fine more none log h = h refl
  written-Fine more (some e) log h = retry-Fine more e log

  set_validated-Fine :
      (more : Bool) (before : Log) (source etag text : String) (answer : Option ApiError)
      → api.raw c.name (read c.name ∷ before) ≡ policy source etag
      → patch_derp_map hj show_int c value withdraw source ≡ ok (text, true)
      → api.validate c.name text (validated c.name text ∷ read c.name ∷ before) ≡ answer
      → FineAttempt more before (
          conclude more (
            set_validated api c.name text etag
              (validated c.name text ∷ read c.name ∷ before)
              answer))
  unfolding set_validated conclude written may_retry
  set_validated-Fine more before source etag text (some e) hr hp hv = record {
    fine = retry-Fine more e _;
    bounded = omega arith;
  }
  set_validated-Fine more before source etag text none hr hp hv = record {
    fine = written-Fine more _ _ λ hs. updated before source etag text refl hr hp hv hs;
    bounded = omega arith;
  }

  attempt_patched-Fine :
      (more : Bool) (before : Log) (source etag : String) (r : Result (String × Bool))
      → api.raw c.name (read c.name ∷ before) ≡ policy source etag
      → patch_derp_map hj show_int c value withdraw source ≡ r
      → FineAttempt more before
          (attempt_patched hj show_int api c more etag (read c.name ∷ before) r)
  unfolding attempt_patched set_policy
  attempt_patched-Fine more before source etag (err e) hr hp = record {
    fine = refl;
    bounded = omega arith;
  }
  attempt_patched-Fine more before source etag (ok (text, false)) hr hp = record {
    fine = unchanged before source etag text refl hr hp;
    bounded = omega arith;
  }
  attempt_patched-Fine more before source etag (ok (text, true)) hr hp =
      set_validated-Fine more before source etag text _ hr hp refl

  attempt_read-Fine :
      (more : Bool) (before : Log) (p : Policy)
      → api.raw c.name (read c.name ∷ before) ≡ p
      → FineAttempt more before
          (attempt_read hj show_int api c value withdraw more (read c.name ∷ before) p)
  unfolding attempt_read
  attempt_read-Fine more before (unread why) hr = record { fine = refl; bounded = omega arith }
  attempt_read-Fine more before (policy source etag) hr =
      attempt_patched-Fine more before source etag _ hr refl

  attempt-Fine :
      (more : Bool) (before : Log)
      → FineAttempt more before (attempt hj show_int api c value withdraw more before)
  unfolding attempt
  attempt-Fine more before = attempt_read-Fine more before _ refl

  -- The outcome of the attempts: an update that is done, or an error that is not the one after the
  -- loop; and how many policies were set.
  abbrev Ends : Option SyncError × Log → Type 0
  Ends (none, log) = Done log
  Ends (some e, log) = gives_up e ≡ false

  pub record Outcome (n : ℕ) (before : Log) (r : Option SyncError × Log) : Type 0 where
    pub ends : Ends r
    pub bounded : writes r.1 ≤ writes before + n

  after_attempt-Outcome :
      (n : ℕ) (before : Log) (r : Attempt × Log) (rest : Log → Option SyncError × Log)
      → FineAttempt (has_more hj show_int api n) before r
      → ((log : Log) → has_more hj show_int api n ≡ true → Outcome n log (rest log))
      → Outcome (suc n) before (after_attempt hj show_int api c r rest)
  unfolding after_attempt
  after_attempt-Outcome n before (finished none, log) rest h k = record {
    ends = h.fine;
    bounded = omega (arith, h.bounded);
  }
  after_attempt-Outcome n before (finished (some e), log) rest h k = record {
    ends = h.fine;
    bounded = omega (arith, h.bounded);
  }
  after_attempt-Outcome n before (again, log) rest h k =
      elim (Option-cases (api.cancelled (waited c.name ∷ log))) [
        | inl q ↦
            rw (q, after_attempt)
              (let r = k (waited c.name ∷ log) h.fine in
                record { ends = r.ends; bounded = omega (arith, h.bounded, r.bounded) })
        | inr (why, q) ↦
            rw (q, after_attempt) (record { ends = refl; bounded = omega (arith, h.bounded) })
      ]

  attempts-Outcome :
      (n : ℕ) (log : Log)
      → has_more hj show_int api n ≡ true
      → Outcome n log (attempts hj show_int api n c value withdraw log)
  unfolding attempts
  attempts-Outcome zero log h = absurd (false_not_true h)
  attempts-Outcome (suc n) log h =
      after_attempt-Outcome n log _ _ (attempt-Fine _ log) (λ l q. attempts-Outcome n l q)

  abbrev Known : Instance → Type 0
  Known (missing e) = gives_up e ≡ false
  Known (instance_at i) = Unit

  api_instance-Known :
      (configs : List ApiConfig) (name : String) → Known (api_instance configs name)
  unfolding api_instance
  api_instance-Known [] name = refl
  api_instance-Known (i ∷ is) name =
      if_elim Known (not (str_eq i.name name)) (api_instance is name) _
        (λ _. api_instance-Known is name)
        λ _.
          if_elim Known (is_configured i) (instance_at i) (missing unconfigured_instance) (λ _. tt)
            (λ _. refl)

  reconcile_instance-Outcome :
      (i : Instance) (log : Log)
      → Known i
      → Outcome 3 log (reconcile_instance hj show_int api i c value withdraw log)
  unfolding reconcile_instance
  reconcile_instance-Outcome (missing e) log h = record { ends = h; bounded = omega arith }
  reconcile_instance-Outcome (instance_at i) log h = attempts-Outcome 3 log refl

  -- An update of an instance's policy sets it at most three times. It never ends with the error
  -- after the loop. If it gives no error, then either the policy read last needs no change, or its
  -- patched text was validated and then set without error, under the tag it was read with.
  pub reconcile_derp_map-Outcome :
      (configs : List ApiConfig) (log : Log)
      → Outcome 3 log (reconcile_derp_map hj show_int api configs c value withdraw log)
  unfolding reconcile_derp_map
  reconcile_derp_map-Outcome configs log =
      reconcile_instance-Outcome (api_instance configs c.name) log
        (api_instance-Known configs c.name)
