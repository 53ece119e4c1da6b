-- ===== src/Derpmap/Sync.antt =====
-- internal/ops/derpmap.go and tailnet_api.go: the update of a policy, tried again on a conflict, and
-- the round over the instances. The tailnet's API is a parameter, whose answers may depend on all
-- the calls made before, and so is the wait between two attempts. An instance is called by its name.
pub mod Attempts
use tailscale_derp.Base.{
  ℕ, zero, suc, ◌≡◌, ℤ, String, str_eq, trim_space, Bool, true, false, not, Option, none, some,
  List, [], ◌∷◌, ◌&&◌, ◌||◌, ◌+++◌, if◌then◌else◌, is_empty,
}
use tailscale_derp.Endpoint.{Endpoint, InstanceStatus, InstanceState, published, withdrawn_from}
use tailscale_derp.Derpmap.{Hujson, ApiConfig, PatchError, Result, ok, err}
use tailscale_derp.Derpmap.Patch.{patch_derp_map}

pub data Event : Type 0 where
  read waited : String → Event
  validated : String → String → Event
  wrote : String → String → String → Event

abbrev pub Log : Type 0
Log = List Event

-- The error of a call: a conflict is an API error with status 412 or 409.
pub data ApiError : Type 0 where
  conflict plain : String → ApiError

pub data Policy : Type 0 where
  unread : String → Policy
  policy : String → String → Policy

pub record Api : Type 0 where
  pub raw : String → Log → Policy
  pub validate : String → String → Log → Option ApiError
  pub set : String → String → String → Log → Option ApiError
  pub cancelled : Log → Option String

pub data SyncError : Type 0 where
  unknown_instance unconfigured_instance too_many_conflicts : SyncError
  unreadable cancelled : String → SyncError
  unpatched : PatchError → SyncError
  refused : ApiError → SyncError

unfoldable pub is_configured : ApiConfig → Bool
is_configured c =
    if str_eq (trim_space c.tailnet) ""
    then false
    else if str_eq c.auth_type "oauth"
    then not (str_eq (trim_space c.oauth_client_id) "")
      && not (str_eq (trim_space c.oauth_client_secret) "")
    else if str_eq c.auth_type "" || str_eq c.auth_type "api_key"
    then not (str_eq (trim_space c.api_key) "")
    else false

pub data Instance : Type 0 where
  missing : SyncError → Instance
  instance_at : ApiConfig → Instance

-- apiInstance: the first instance of that name decides.
unfoldable pub api_instance : List ApiConfig → String → Instance
unfolding is_configured
api_instance [] name = missing unknown_instance
api_instance (c ∷ cs) name =
    let rest = api_instance cs name in
    if not (str_eq c.name name)
    then rest
    else if is_configured c
    then instance_at c
    else missing unconfigured_instance

-- What one attempt leads to.
pub data Attempt : Type 0 where
  finished : Option SyncError → Attempt
  again : Attempt

unfoldable pub may_retry : Bool → ApiError → Attempt
may_retry more (plain why) = finished (some (refused (plain why)))
may_retry more (conflict why) = if more then again else finished (some (refused (conflict why)))

unfoldable pub written : Bool → Option ApiError → Attempt
unfolding may_retry
written more none = finished none
written more (some e) = may_retry more e

unfoldable pub set_validated :
    Api → String → String → String → Log → Option ApiError → Option ApiError × Log
set_validated api name text etag log (some e) = (some e, log)
set_validated api name text etag log none =
    (api.set name text etag (wrote name text etag ∷ log), wrote name text etag ∷ log)

-- setPolicyUnlocked: the policy is validated before it is set.
unfoldable pub set_policy : Api → ApiConfig → String → String → Log → Option ApiError × Log
unfolding set_validated
set_policy api c text etag log =
    set_validated api c.name text etag (validated c.name text ∷ log)
      (api.validate c.name text (validated c.name text ∷ log))

unfoldable pub conclude : Bool → Option ApiError × Log → Attempt × Log
unfolding written
conclude more (answer, log) = (written more answer, log)

abbrev pub policy_update_attempts : ℕ
policy_update_attempts = 3

abbrev pub error_text : (SyncError → String) → Option SyncError → String
error_text f none = ""
error_text f (some e) = f e

module _ (hj : Hujson) (show_int : ℤ → String) (api : Api) where
  unfoldable pub attempt_patched :
      ApiConfig → Bool → String → Log → Result (String × Bool) → Attempt × Log
  unfolding conclude set_policy
  attempt_patched c more etag log (err e) = (finished (some (unpatched e)), log)
  attempt_patched c more etag log (ok (updated, changed)) =
      if not changed
      then (finished none, log)
      else conclude more (set_policy api c updated etag log)

  unfoldable pub attempt_read :
      ApiConfig → Option Endpoint → Bool → Bool → Log → Policy → Attempt × Log
  unfolding attempt_patched
  attempt_read c value withdraw more log (unread why) = (finished (some (unreadable why)), log)
  attempt_read c value withdraw more log (policy source etag) =
      attempt_patched c more etag log (patch_derp_map hj show_int c value withdraw source)

  unfoldable pub attempt : ApiConfig → Option Endpoint → Bool → Bool → Log → Attempt × Log
  unfolding attempt_read
  attempt c value withdraw more log =
      attempt_read c value withdraw more (read c.name ∷ log) (api.raw c.name (read c.name ∷ log))

  abbrev pub has_more : ℕ → Bool
  has_more zero = false
  has_more (suc n) = true

  unfoldable pub after_attempt :
      ApiConfig → Attempt × Log → (Log → Option SyncError × Log) → Option SyncError × Log
  after_attempt c (finished e, log) rest = (e, log)
  after_attempt c (again, log) rest = elim (api.cancelled (waited c.name ∷ log)) [
    | some why ↦ (some (SyncError.cancelled why), waited c.name ∷ log)
    | none ↦ rest (waited c.name ∷ log)
  ]

  -- The loop with the attempts that are left; the wait before the next one can be cancelled.
  unfoldable pub attempts : ℕ → ApiConfig → Option Endpoint → Bool → Log → Option SyncError × Log
  unfolding attempt after_attempt
  attempts zero c value withdraw log = (some too_many_conflicts, log)
  attempts (suc n) c value withdraw log =
      after_attempt c (attempt c value withdraw (has_more n) log) (attempts n c value withdraw)

  -- reconcileDERPMap: the instance is looked up again by its name, for its credentials.
  unfoldable pub reconcile_instance :
      Instance → ApiConfig → Option Endpoint → Bool → Log → Option SyncError × Log
  unfolding attempts
  reconcile_instance (missing e) c value withdraw log = (some e, log)
  reconcile_instance (instance_at i) c value withdraw log =
      attempts policy_update_attempts c value withdraw log

  unfoldable pub reconcile_derp_map :
      List ApiConfig → ApiConfig → Option Endpoint → Bool → Log → Option SyncError × Log
  unfolding reconcile_instance api_instance
  reconcile_derp_map configs c value withdraw log =
      reconcile_instance (api_instance configs c.name) c value withdraw log

  abbrev pub instance_status : ApiConfig → ℕ → Bool → String → Option SyncError → InstanceStatus
  instance_status c now withdraw text none = record {
    name = c.name;
    label = c.label;
    state = if withdraw then withdrawn_from else published;
    last_attempt = now;
    last_success = now;
    error = "";
  }
  instance_status c now withdraw text (some e) = record {
    name = c.name;
    label = c.label;
    state = InstanceState.error;
    last_attempt = now;
    last_success = 0;
    error = text;
  }

  unfoldable pub named_config : Option String → ApiConfig → ApiConfig
  named_config none c = c
  named_config (some cert_name) c = record c { cert_name = cert_name }

  abbrev pub add_error :
      String → Option SyncError → List (String × SyncError) → List (String × SyncError)
  add_error name none errs = errs
  add_error name (some e) errs = (name, e) ∷ errs

  -- reconcileDERPMaps over the configurations that are left: the statuses, the errors with their
  -- instances, and the log. `cert` is what certificateNames gives, and `text_of` an error's text.
  unfoldable pub reconcile_each :
      (SyncError → String)
      → Option String
      → ℕ
      → List ApiConfig
      → List ApiConfig
      → Option Endpoint
      → Bool
      → Log
      → List InstanceStatus × (List (String × SyncError) × Log)
  unfolding reconcile_derp_map named_config
  reconcile_each text_of cert now configs [] value withdraw log = ([], ([], log))
  reconcile_each text_of cert now configs (c ∷ cs) value withdraw log =
      let (e, log') = reconcile_derp_map configs (named_config cert c) value withdraw log in
      let (statuses, (errs, log'')) =
        reconcile_each text_of cert now configs cs value withdraw log' in
      let skipped = reconcile_each text_of cert now configs cs value withdraw log in
      if not c.derp_map_sync then skipped else (
        instance_status c now withdraw (error_text text_of e) e ∷ statuses,
        (add_error c.name e errs, log''),
      )
