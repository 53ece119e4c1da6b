-- ===== src/Derpmap/Patch.antt =====
-- internal/ops/derpmap.go: patchDERPMap, from the policy's text to the changed text.
pub mod Frame
pub mod Regions
use tailscale_derp.Base.{
  ℕ, ◌≡◌, ℤ, pos, negsuc, String, str_eq, Bool, true, false, not, is_some, Option, none, some, List,
  [], ◌∷◌, ◌&&◌, if◌then◌else◌,
}
use tailscale_derp.Endpoint.{Endpoint}
use tailscale_derp.Derpmap.{
  Hujson, Json, literal, object, array, Members, no_members, member, Elements, no_elements, element,
  ApiConfig, PatchError, bad_policy, root_not_object, derp_map_not_object, regions_not_object,
  region_not_object, nodes_not_array, endpoint_required, region_not_owned, Result, ok, err,
  Document, object_member, append_object_member, replace_object_member, remove_object_member,
  require_owned_int,
}
use tailscale_derp.Derpmap.Nodes.{
  find_node, replace_node, remove_node, append_node, has_no_nodes, write_node, write_region,
}

-- What becomes of a member: it stays, changes, or goes.
pub data Change (A : Type 0) : Type 0 where
  stay gone : Change A
  become : A → Change A

abbrev pub as_object : {R : Type 0} → PatchError → Json R → Result (Members R)
as_object e (literal r) = err e
as_object e (array es) = err e
as_object e (object ms) = ok ms

abbrev pub as_array : {R : Type 0} → PatchError → Json R → Result (Elements R)
as_array e (literal r) = err e
as_array e (array es) = ok es
as_array e (object ms) = err e

unfoldable pub then_do : {A B : Type 0} → Result A → (A → Result B) → Result B
then_do (err e) f = err e
then_do (ok a) f = f a

-- A guard, then what follows.
unfoldable pub guarded : {A : Type 0} → Option PatchError → Result A → Result A
guarded (some e) rest = err e
guarded none rest = rest

abbrev pub is_bare : {R : Type 0} → Members R → Bool
is_bare (no_members gap) = true
is_bare (member g n v ms) = false

module _ (hj : Hujson) where
  unfoldable pub write_member :
      Members hj.Raw → String → String → Option (Json hj.Raw) → Json hj.Raw → Members hj.Raw
  write_member ms name new none v = append_object_member hj ms new v
  write_member ms name new (some old) v = replace_object_member hj ms name v

  abbrev pub given : Option (Json hj.Raw) → Json hj.Raw → Json hj.Raw
  given none default = default
  given (some old) default = old

  -- The member that `name` finds, or a new one under `new`, goes to `f`, which is told whether it
  -- was there, and the result is written back.
  unfoldable pub update_member :
      String
      → String
      → Json hj.Raw
      → (Bool → Json hj.Raw → Result (Json hj.Raw))
      → Members hj.Raw
      → Result (Members hj.Raw)
  unfolding then_do write_member
  update_member name new default f ms =
      let old = object_member hj ms name in
      then_do (f (is_some old) (given old default)) λ v. ok (write_member ms name new old v)

  unfoldable pub publish_node :
      ApiConfig → Endpoint → Bool → Elements hj.Raw → Option (Members hj.Raw) → Result (Json hj.Raw)
  unfolding guarded
  publish_node c e exists es none =
      if exists
      then err region_not_owned
      else ok (array (append_node hj es (write_node hj c e (no_members ""))))
  publish_node c e exists es (some node) =
      guarded (require_owned_int hj node "RegionID" c.region_id)
        (ok (array (replace_node hj es c.node_name (write_node hj c e node))))

  unfoldable pub publish_value :
      ApiConfig
      → Option Endpoint
      → Bool
      → Elements hj.Raw
      → Option (Members hj.Raw)
      → Result (Json hj.Raw)
  unfolding publish_node
  publish_value c none exists es found = err endpoint_required
  publish_value c (some e) exists es found = publish_node c e exists es found

  unfoldable pub publish_nodes :
      ApiConfig → Option Endpoint → Bool → Json hj.Raw → Result (Json hj.Raw)
  unfolding then_do publish_value
  publish_nodes c value exists j =
      then_do (as_array nodes_not_array j)
        λ es. then_do (find_node hj es c.node_name) (publish_value c value exists es)

  unfoldable pub publish_region :
      ApiConfig → Option Endpoint → Bool → Json hj.Raw → Result (Json hj.Raw)
  unfolding then_do guarded publish_nodes update_member
  publish_region c value exists j = then_do (as_object region_not_object j) λ ms.
      guarded (if exists then require_owned_int hj ms "RegionID" c.region_id else none) (
        then_do
          (update_member "Nodes" "nodes" (array (no_elements ""))
            (λ _. publish_nodes c value exists) ms)
          λ ms'. ok (object (write_region hj c ms')))

  unfoldable pub publish_regions :
      ApiConfig → String → Option Endpoint → Json hj.Raw → Result (Json hj.Raw)
  unfolding then_do publish_region update_member
  publish_regions c key value j = then_do (as_object regions_not_object j) λ ms.
      then_do (update_member key key (object (no_members "")) (publish_region c value) ms)
        λ ms'. ok (object ms')

  unfoldable pub publish_derp_map :
      ApiConfig → String → Option Endpoint → Json hj.Raw → Result (Json hj.Raw)
  unfolding then_do publish_regions update_member
  publish_derp_map c key value j = then_do (as_object derp_map_not_object j) λ ms.
      then_do
        (update_member "Regions" "regions" (object (no_members ""))
          (λ _. publish_regions c key value) ms)
        λ ms'. ok (object ms')

  unfoldable pub publish_root :
      ApiConfig → String → Option Endpoint → Members hj.Raw → Result (Members hj.Raw)
  unfolding publish_derp_map update_member
  publish_root c key value ms =
      update_member "derpMap" "derpMap" (object (no_members "")) (λ _. publish_derp_map c key value)
        ms

  -- Withdrawing: each level tells what becomes of the member above it.
  unfoldable pub withdraw_node :
      ApiConfig → Elements hj.Raw → Option (Members hj.Raw) → Result (Change (Elements hj.Raw))
  unfolding guarded
  withdraw_node c es none = ok stay
  withdraw_node c es (some node) =
      guarded (require_owned_int hj node "RegionID" c.region_id)
        (ok (become (remove_node hj es c.node_name)))

  unfoldable pub region_change : Members hj.Raw → Change (Elements hj.Raw) → Change (Json hj.Raw)
  region_change ms stay = stay
  region_change ms gone = gone
  region_change ms (become es) =
      if has_no_nodes hj es
      then gone
      else become (object (replace_object_member hj ms "Nodes" (array es)))

  unfoldable pub withdraw_nodes :
      ApiConfig → Members hj.Raw → Option (Json hj.Raw) → Result (Change (Json hj.Raw))
  unfolding then_do withdraw_node region_change
  withdraw_nodes c ms none = ok stay
  withdraw_nodes c ms (some j) = then_do (as_array nodes_not_array j) λ es.
      then_do (find_node hj es c.node_name)
        λ node. then_do (withdraw_node c es node) λ change. ok (region_change ms change)

  unfoldable pub withdraw_region : ApiConfig → Json hj.Raw → Result (Change (Json hj.Raw))
  unfolding then_do guarded withdraw_nodes
  withdraw_region c j = then_do (as_object region_not_object j) λ ms.
      guarded (require_owned_int hj ms "RegionID" c.region_id)
        (withdraw_nodes c ms (object_member hj ms "Nodes"))

  -- A member that goes is removed, and takes an object with it that it leaves empty.
  unfoldable pub member_change :
      String → Members hj.Raw → Change (Json hj.Raw) → Change (Json hj.Raw)
  member_change name ms stay = stay
  member_change name ms gone =
      let rest = remove_object_member hj ms name in
      if is_bare rest then gone else become (object rest)
  member_change name ms (become v) = become (object (replace_object_member hj ms name v))

  unfoldable pub withdraw_member :
      String
      → (Json hj.Raw → Result (Change (Json hj.Raw)))
      → Members hj.Raw
      → Option (Json hj.Raw)
      → Result (Change (Json hj.Raw))
  unfolding then_do member_change
  withdraw_member name f ms none = ok stay
  withdraw_member name f ms (some v) = then_do (f v) λ change. ok (member_change name ms change)

  unfoldable pub withdraw_regions : ApiConfig → String → Json hj.Raw → Result (Change (Json hj.Raw))
  unfolding then_do withdraw_region withdraw_member
  withdraw_regions c key j =
      then_do (as_object regions_not_object j)
        λ ms. withdraw_member key (withdraw_region c) ms (object_member hj ms key)

  unfoldable pub withdraw_derp_map :
      ApiConfig → String → Json hj.Raw → Result (Change (Json hj.Raw))
  unfolding then_do withdraw_regions withdraw_member
  withdraw_derp_map c key j =
      then_do (as_object derp_map_not_object j)
        λ ms. withdraw_member "Regions" (withdraw_regions c key) ms (object_member hj ms "Regions")

  unfoldable pub root_change : Members hj.Raw → Change (Json hj.Raw) → Change (Members hj.Raw)
  root_change ms stay = stay
  root_change ms gone = become (remove_object_member hj ms "derpMap")
  root_change ms (become v) = become (replace_object_member hj ms "derpMap" v)

  unfoldable pub withdraw_root :
      ApiConfig → String → Members hj.Raw → Option (Json hj.Raw) → Result (Change (Members hj.Raw))
  unfolding then_do withdraw_derp_map root_change
  withdraw_root c key ms none = ok stay
  withdraw_root c key ms (some j) =
      then_do (withdraw_derp_map c key j) λ change. ok (root_change ms change)

  abbrev pub repacked : Document hj.Raw → String → Members hj.Raw → String × Bool
  repacked d source ms =
      let packed = hj.pack (record d { root = object ms }) in (packed, not (str_eq packed source))

  unfoldable pub packed_change : Document hj.Raw → String → Change (Members hj.Raw) → String × Bool
  packed_change d source stay = (source, false)
  packed_change d source gone = (source, false)
  packed_change d source (become ms) = repacked d source ms

  unfoldable pub patch_document :
      ApiConfig
      → String
      → Option Endpoint
      → Bool
      → String
      → Option (Document hj.Raw)
      → Result (String × Bool)
  unfolding then_do withdraw_root publish_root packed_change
  patch_document c key value withdraw source none = err bad_policy
  patch_document c key value withdraw source (some d) =
      then_do (as_object root_not_object d.root) λ ms.
        if withdraw
        then then_do (withdraw_root c key ms (object_member hj ms "derpMap"))
            (λ change. ok (packed_change d source change))
        else then_do (publish_root c key value ms) λ ms'. ok (repacked d source ms')

  -- patchDERPMap: the text and whether it changed. `show_int` is strconv's Itoa.
  unfoldable pub patch_derp_map :
      (ℤ → String) → ApiConfig → Option Endpoint → Bool → String → Result (String × Bool)
  unfolding patch_document
  patch_derp_map show_int c value withdraw source =
      patch_document c (show_int c.region_id) value withdraw source (hj.parse source)
