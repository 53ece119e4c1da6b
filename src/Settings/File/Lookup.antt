-- ===== src/Settings/File/Lookup.antt =====
-- cmd/tailscale-derp/config_model.go: the option values of an API instance, read back by name.
use tailscale_derp.Base.{
  ◌≡◌, refl, sym, ◌∙◌, ap, subst, String, str_eq, eq_iff, eq_refl, Bool, true, false, Bool-cases,
  inl, inr, Option, none, some, List, [], ◌∷◌, if◌then◌else◌, find, put, find-put, find-put_other,
  ℤ, decimal,
}
use tailscale_derp.Settings.{Options, is_key}
use tailscale_derp.Settings.File.{
  FileVerifyApiConfig, OptionValue, option_string, option_bool, option_int, set_options,
  option_values, verify_api_options,
}

-- The text of a flag and of a number.
abbrev pub flag : Option Bool → Option String
flag none = none
flag (some true) = some "1"
flag (some false) = some "0"

abbrev pub number : Option ℤ → Option String
number none = none
number (some n) = some (decimal n)

-- The values of an option that is given once.
abbrev pub one : Option String → Option (List String)
one none = none
one (some v) = some (v ∷ [])

abbrev or_one : Option String → Option (List String) → Option (List String)
or_one none r = r
or_one (some v) r = some (v ∷ [])

abbrev picked : String → List (String × Option String) → Option (List String) → Option (List String)
picked k [] r = r
picked k ((n, v) ∷ os) r = picked k os (if str_eq n k then or_one v r else r)

abbrev strings : List (String × Option String) → List OptionValue
strings [] = []
strings ((n, v) ∷ os) = option_string n v ∷ strings os

apart : (n k : String) → str_eq n k ≡ false → (m : String) → str_eq m n ≡ true → str_eq m k ≡ false
apart n k p m q = subst (λ (s : String). str_eq s k ≡ false) (sym ((eq_iff m n).0 q)) p

find-put_one :
    (n k v : String) (values : Options)
    → find (is_key k) (put (is_key n) n (v ∷ []) values)
      ≡ (if str_eq n k then some (v ∷ []) else find (is_key k) values)
find-put_one n k v values = elim (Bool-cases (str_eq n k)) [
  | inl p ↦ rw p (
      subst (λ (s : String). find (is_key s) (put (is_key n) n (v ∷ []) values) ≡ some (v ∷ []))
        ((eq_iff n k).0 p) (find-put (is_key n) n (v ∷ []) values (eq_refl n)))
  | inr p ↦ rw p (find-put_other (is_key n) (is_key k) n (v ∷ []) values (apart n k p) (eq_refl n))
]

same_either : {A : Type 0} (b : Bool) (a : A) → a ≡ (if b then a else a)
same_either true a = refl
same_either false a = refl

find-set_options :
    (k : String) (os : List (String × Option String)) (values : Options)
    → find (is_key k) (set_options values (strings os)) ≡ picked k os (find (is_key k) values)
unfolding set_options option_string
find-set_options k [] values = refl
find-set_options k ((n, none) ∷ os) values =
    find-set_options k os values
    ∙ ap (picked k os) (same_either (str_eq n k) (find (is_key k) values))
find-set_options k ((n, some v) ∷ os) values =
    find-set_options k os (put (is_key n) n (v ∷ []) values)
    ∙ ap (picked k os) (find-put_one n k v values)

bool-flag : (n : String) (b : Option Bool) → option_bool n b ≡ option_string n (flag b)
unfolding option_bool option_string
bool-flag n none = refl
bool-flag n (some true) = refl
bool-flag n (some false) = refl

int-number : (n : String) (i : Option ℤ) → option_int n i ≡ option_string n (number i)
unfolding option_int option_string
int-number n none = refl
int-number n (some i) = refl

abbrev api_texts : FileVerifyApiConfig → List (String × Option String)
api_texts s =
    ("label", s.label)
    ∷ ("tailnet", s.tailnet)
    ∷ ("auth_type", s.auth_type)
    ∷ ("api_key", s.api_key)
    ∷ ("oauth_client_id", s.oauth_client_id)
    ∷ ("oauth_client_secret", s.oauth_client_secret)
    ∷ ("derpmap_sync", flag s.derp_map_sync)
    ∷ ("stun_only", flag s.stun_only)
    ∷ ("region_id", number s.region_id)
    ∷ ("region_code", s.region_code)
    ∷ ("region_name", s.region_name)
    ∷ ("node_name", s.node_name)
    ∷ ("hostname", s.hostname)
    ∷ ("cert_name", s.cert_name)
    ∷ []

options-api_texts :
    (s : FileVerifyApiConfig) → verify_api_options s ≡ set_options [] (strings (api_texts s))
unfolding verify_api_options option_values
options-api_texts s =
    rw
      (
        bool-flag "derpmap_sync" s.derp_map_sync,
        bool-flag "stun_only" s.stun_only,
        int-number "region_id" s.region_id,
      )
      refl

-- Each option of the instance has the value that the file gives it, or none where it gives none.
pub record HasOptions (s : FileVerifyApiConfig) (values : Options) : Type 0 where
  pub label : find (is_key "label") values ≡ one s.label
  pub tailnet : find (is_key "tailnet") values ≡ one s.tailnet
  pub auth_type : find (is_key "auth_type") values ≡ one s.auth_type
  pub api_key : find (is_key "api_key") values ≡ one s.api_key
  pub oauth_client_id : find (is_key "oauth_client_id") values ≡ one s.oauth_client_id
  pub oauth_client_secret : find (is_key "oauth_client_secret") values ≡ one s.oauth_client_secret
  pub derp_map_sync : find (is_key "derpmap_sync") values ≡ one (flag s.derp_map_sync)
  pub stun_only : find (is_key "stun_only") values ≡ one (flag s.stun_only)
  pub region_id : find (is_key "region_id") values ≡ one (number s.region_id)
  pub region_code : find (is_key "region_code") values ≡ one s.region_code
  pub region_name : find (is_key "region_name") values ≡ one s.region_name
  pub node_name : find (is_key "node_name") values ≡ one s.node_name
  pub hostname : find (is_key "hostname") values ≡ one s.hostname
  pub cert_name : find (is_key "cert_name") values ≡ one s.cert_name

api_find :
    (s : FileVerifyApiConfig) (k : String)
    → find (is_key k) (verify_api_options s) ≡ picked k (api_texts s) none
unfolding find
api_find s k = ap (find (is_key k)) (options-api_texts s) ∙ find-set_options k (api_texts s) []

or_one-none : (o : Option String) → or_one o none ≡ one o
or_one-none none = refl
or_one-none (some v) = refl

pub verify_api_options-HasOptions : (s : FileVerifyApiConfig) → HasOptions s (verify_api_options s)
verify_api_options-HasOptions s = record {
  label = api_find s "label" ∙ or_one-none s.label;
  tailnet = api_find s "tailnet" ∙ or_one-none s.tailnet;
  auth_type = api_find s "auth_type" ∙ or_one-none s.auth_type;
  api_key = api_find s "api_key" ∙ or_one-none s.api_key;
  oauth_client_id = api_find s "oauth_client_id" ∙ or_one-none s.oauth_client_id;
  oauth_client_secret = api_find s "oauth_client_secret" ∙ or_one-none s.oauth_client_secret;
  derp_map_sync = api_find s "derpmap_sync" ∙ or_one-none (flag s.derp_map_sync);
  stun_only = api_find s "stun_only" ∙ or_one-none (flag s.stun_only);
  region_id = api_find s "region_id" ∙ or_one-none (number s.region_id);
  region_code = api_find s "region_code" ∙ or_one-none s.region_code;
  region_name = api_find s "region_name" ∙ or_one-none s.region_name;
  node_name = api_find s "node_name" ∙ or_one-none s.node_name;
  hostname = api_find s "hostname" ∙ or_one-none s.hostname;
  cert_name = api_find s "cert_name" ∙ or_one-none s.cert_name;
}
