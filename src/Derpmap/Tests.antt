-- ===== src/Derpmap/Tests.antt =====
-- Runs of the DERP map's update at concrete inputs.
use tailscale_derp.Base.{
  ◌≡◌, refl, ℤ, pos, String, equal_fold, Bool, true, false, none, some, [], ◌∷◌, inl, arith, length,
  if◌then◌else◌, ◌==◌,
}
use tailscale_derp.Endpoint.{Endpoint}
use tailscale_derp.Derpmap.{
  Hujson, HujsonLaws, Kind, text, number, other, literal, object, Members, no_members, member, Gaps,
  ApiConfig, Result, ok, err, object_member,
}
use tailscale_derp.Derpmap.Nodes.{find_node, write_node}
use tailscale_derp.Derpmap.Written.{Reads, write_node-Reads}
use tailscale_derp.Derpmap.Patch.{publish_root}
use tailscale_derp.Derpmap.Patch.Regions.{region, publish_root-region, patch-other}
use tailscale_derp.Derpmap.Sync.{Api, policy, reconcile_derp_map, conflict}
use tailscale_derp.Derpmap.Sync.Attempts.{Outcome, reconcile_derp_map-Outcome}

data Raw : Type 0 where
  a_text : String → Raw
  an_int : ℤ → Raw
  a_bool : Bool → Raw

abbrev kind_of : Raw → Kind
kind_of (a_text s) = text
kind_of (an_int n) = number
kind_of (a_bool b) = other

abbrev text_of : Raw → String
text_of (a_text s) = s
text_of (an_int n) = ""
text_of (a_bool b) = ""

abbrev int_of : Raw → ℤ
int_of (a_text s) = pos 0
int_of (an_int n) = n
int_of (a_bool b) = pos 0

abbrev gaps : Gaps
gaps = record {
  before_name = "// a comment";
  after_name = "";
  before_value = " ";
  after_value = "";
}

abbrev policy_members : Members Raw
policy_members = member gaps (literal (a_text "acls")) (literal (a_text "all")) (
    member gaps (literal (a_text "DERPMap"))
      (object (
        member gaps (literal (a_text "Regions"))
          (object (member gaps (literal (a_text "901")) (object (no_members "")) (no_members "")))
          (no_members "")))
      (no_members ""))

abbrev hujson : Hujson
hujson = record {
  Raw = Raw;
  kind = kind_of;
  text_of = text_of;
  int_of = int_of;
  from_text = a_text;
  from_int = an_int;
  from_bool = a_bool;
  parse = λ s. some (record { before = ""; root = object policy_members; after = "" });
  pack = λ d. "packed";
}

laws : HujsonLaws hujson
laws = record {
  text_kind = λ s. refl;
  text_reads = λ s. refl;
  int_kind = λ n. refl;
  int_reads = λ n. refl;
}

abbrev config : ApiConfig
config = record {
  name = "home";
  label = "Home";
  tailnet = "-";
  auth_type = "api_key";
  api_key = "secret";
  oauth_client_id = "";
  oauth_client_secret = "";
  derp_map_sync = true;
  stun_only = false;
  region_id = pos 900;
  region_code = "home";
  region_name = "Home";
  node_name = "900a";
  hostname = "derp.example.com";
  cert_name = "";
}

abbrev mapped : Endpoint
mapped = record {
  ipv4 = "8.8.8.8";
  ipv6 = "";
  derp_port = 3340;
  stun_port = pos 3478;
  method = "upnp";
  lease_until = none;
}

abbrev members_of : Result (Members Raw) → Members Raw
members_of (err e) = no_members ""
members_of (ok ms) = ms

abbrev is_ok : Result (Members Raw) → Bool
is_ok (err e) = false
is_ok (ok ms) = true

abbrev patched : Members Raw
patched = members_of (publish_root hujson config "900" (some mapped) policy_members)

publishes_ok : is_ok (publish_root hujson config "900" (some mapped) policy_members) ≡ true
unfolding publish_root equal_fold object_member find_node
publishes_ok = refl

publishes : (r : Result (Members Raw)) → is_ok r ≡ true → r ≡ ok (members_of r)
publishes (ok ms) h = refl
publishes (err e) h = ground arith

keys : equal_fold "900" "901" ≡ false
unfolding equal_fold
keys = refl

acls : equal_fold "derpMap" "acls" ≡ false
unfolding equal_fold
acls = refl

publish_root-region_example : region hujson "901" patched ≡ region hujson "901" policy_members
publish_root-region_example =
    publish_root-region hujson laws config "900" "901" (some mapped) policy_members patched keys
      (publishes _ publishes_ok)

patch-other_example :
    object_member hujson patched "acls" ≡ object_member hujson policy_members "acls"
patch-other_example =
    patch-other hujson laws config "900" "acls" (some mapped) policy_members patched acls
      (inl (publishes _ publishes_ok))

-- The first answer to a write is a conflict.
abbrev api : Api
api = record {
  raw = λ name log. policy "source" "tag";
  validate = λ name text log. none;
  set = λ name text etag log. if length log == 3 then some (conflict "412") else none;
  cancelled = λ log. none;
}

reconcile_derp_map-Outcome_example :
    Outcome hujson
      (λ n. "900")
      api
      config
      (some mapped)
      false
      3
      []
      (reconcile_derp_map hujson (λ n. "900") api (config ∷ []) config (some mapped) false [])
reconcile_derp_map-Outcome_example =
    reconcile_derp_map-Outcome hujson (λ n. "900") api config (some mapped) false (config ∷ []) []

write_node-Reads_example :
    Reads hujson laws config mapped (write_node hujson config mapped (no_members ""))
write_node-Reads_example = write_node-Reads hujson laws config mapped (no_members "")
