-- ===== src/Derpmap/Nodes.antt =====
-- internal/ops/derpmap.go: findNode, and the change of the node that it finds.
use tailscale_derp.Base.{
  pos, String, str_eq, Bool, true, false, not, Option, none, some, if◌then◌else◌,
}
use tailscale_derp.Endpoint.{Endpoint}
use tailscale_derp.Derpmap.{
  Hujson, Json, literal, object, array, Members, Elements, no_elements, element, ApiConfig,
  node_not_object, node_name_not_text, Result, ok, err, is_text, object_member, set_object_string,
  set_object_int, set_object_bool, remove_object_member,
}

-- The node's name test: it goes on, stops with an error, or is the node.
pub data Verdict : Type 0 where
  skip here wrong : Verdict

module _ (hj : Hujson) where
  unfoldable pub name_verdict : String → Option (Json hj.Raw) → Verdict
  unfolding is_text
  name_verdict name none = skip
  name_verdict name (some (object ms)) = wrong
  name_verdict name (some (array es)) = wrong
  name_verdict name (some (literal r)) =
      if not (is_text (hj.kind r)) then wrong else if str_eq (hj.text_of r) name then here else skip

  unfoldable pub found :
      Verdict → Members hj.Raw → Result (Option (Members hj.Raw)) → Result (Option (Members hj.Raw))
  found skip ms rest = rest
  found here ms rest = ok (some ms)
  found wrong ms rest = err node_name_not_text

  -- findNode: an error, or the node if there is one. The node that is meant is the first.
  unfoldable pub find_node : Elements hj.Raw → String → Result (Option (Members hj.Raw))
  unfolding name_verdict found
  find_node (no_elements gap) name = ok none
  find_node (element g (literal r) h es) name = err node_not_object
  find_node (element g (array vs) h es) name = err node_not_object
  find_node (element g (object ms) h es) name =
      found (name_verdict name (object_member hj ms "Name")) ms (find_node es name)

  abbrev pub put_here : Verdict → Elements hj.Raw → Elements hj.Raw → Elements hj.Raw
  put_here here changed kept = changed
  put_here skip changed kept = kept
  put_here wrong changed kept = kept

  -- The node that find_node gives gets other members.
  unfoldable pub replace_node : Elements hj.Raw → String → Members hj.Raw → Elements hj.Raw
  unfolding name_verdict
  replace_node (no_elements gap) name new = no_elements gap
  replace_node (element g (literal r) h es) name new = element g (literal r) h es
  replace_node (element g (array vs) h es) name new = element g (array vs) h es
  replace_node (element g (object ms) h es) name new =
      put_here (name_verdict name (object_member hj ms "Name")) (element g (object new) h es)
        (element g (object ms) h (replace_node es name new))

  unfoldable pub remove_node : Elements hj.Raw → String → Elements hj.Raw
  unfolding name_verdict
  remove_node (no_elements gap) name = no_elements gap
  remove_node (element g (literal r) h es) name = element g (literal r) h es
  remove_node (element g (array vs) h es) name = element g (array vs) h es
  remove_node (element g (object ms) h es) name =
      put_here (name_verdict name (object_member hj ms "Name")) es
        (element g (object ms) h (remove_node es name))

  unfoldable pub append_node : Elements hj.Raw → Members hj.Raw → Elements hj.Raw
  append_node (no_elements gap) ms = element "" (object ms) "" (no_elements gap)
  append_node (element g v h es) ms = element g v h (append_node es ms)

  abbrev pub has_no_nodes : Elements hj.Raw → Bool
  has_no_nodes (no_elements gap) = true
  has_no_nodes (element g v h es) = false

  abbrev pub set_or_remove : String → String → Members hj.Raw → Members hj.Raw
  set_or_remove name value ms =
      if str_eq value ""
      then remove_object_member hj ms name
      else set_object_string hj ms name value

  -- What is written into the node.
  unfoldable pub write_node : ApiConfig → Endpoint → Members hj.Raw → Members hj.Raw
  write_node c e ms =
      let ms₁ = set_object_string hj ms "name" c.node_name in
      let ms₂ = set_object_int hj ms₁ "regionID" c.region_id in
      let ms₃ = set_object_string hj ms₂ "hostName" c.hostname in
      let ms₄ = set_or_remove "ipv4" e.ipv4 ms₃ in
      let ms₅ = set_or_remove "ipv6" e.ipv6 ms₄ in
      let ms₆ = set_object_int hj ms₅ "derpPort" (pos e.derp_port) in
      let ms₇ = set_object_int hj ms₆ "stunPort" e.stun_port in
      let ms₈ =
        if str_eq c.cert_name ""
        then remove_object_member hj ms₇ "CertName"
        else set_object_string hj ms₇ "certName" c.cert_name in
      if c.stun_only
      then set_object_bool hj ms₈ "stunOnly" true
      else remove_object_member hj ms₈ "stunOnly"

  unfoldable pub write_region : ApiConfig → Members hj.Raw → Members hj.Raw
  write_region c ms =
      set_object_int hj
        (set_object_string hj (set_object_string hj ms "regionCode" c.region_code) "regionName"
          c.region_name)
        "regionID" c.region_id
