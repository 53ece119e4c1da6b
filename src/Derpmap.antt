-- ===== src/Derpmap.antt =====
-- internal/ops/derpmap.go: the policy's DERP map, as a HuJSON tree with its comments.
-- A literal is a type of the hujson package, a parameter, with the package's functions on it. The
-- source changes objects in place through pointers into their members: here each is a new tree, and
-- an index that objectMember gives is always the first member of that name.
pub mod Nodes
pub mod Patch
pub mod Sync
pub mod Written
pub mod Tests
use tailscale_derp.Base.{
  ℕ, ◌≡◌, ℤ, pos, negsuc, ◌==ℤ◌, String, equal_fold, Bool, true, false, not, Option, none, some,
  List, [], ◌∷◌, ◌&&◌, if◌then◌else◌,
}

pub data Kind : Type 0 where
  text number other : Kind

-- What surrounds a member: comments and white space.
pub record Gaps : Type 0 where
  pub before_name : String
  pub after_name : String
  pub before_value : String
  pub after_value : String

mutual
  pub data Json (R : Type 0) : Type 0 where
    literal : R → Json R
    object : Members R → Json R
    array : Elements R → Json R

  pub data Members (R : Type 0) : Type 0 where
    no_members : String → Members R
    member : Gaps → Json R → Json R → Members R → Members R

  pub data Elements (R : Type 0) : Type 0 where
    no_elements : String → Elements R
    element : String → Json R → String → Elements R → Elements R

pub record Document (R : Type 0) : Type 0 where
  pub before : String
  pub root : Json R
  pub after : String

-- The hujson package; `parse` gives the text of its error.
pub record Hujson : Type 1 where
  pub Raw : Type 0
  pub kind : Raw → Kind
  pub text_of : Raw → String
  pub int_of : Raw → ℤ
  pub from_text : String → Raw
  pub from_int : ℤ → Raw
  pub from_bool : Bool → Raw
  pub parse : String → Option (Document Raw)
  pub pack : Document Raw → String

-- APIConfig.
pub record ApiConfig : Type 0 where
  pub name : String
  pub label : String
  pub tailnet : String
  pub auth_type : String
  pub api_key : String
  pub oauth_client_id : String
  pub oauth_client_secret : String
  pub derp_map_sync : Bool
  pub stun_only : Bool
  pub region_id : ℤ
  pub region_code : String
  pub region_name : String
  pub node_name : String
  pub hostname : String
  pub cert_name : String

pub data PatchError : Type 0 where
  bad_policy root_not_object derp_map_not_object regions_not_object region_not_object : PatchError
  nodes_not_array node_not_object node_name_not_text endpoint_required region_not_owned : PatchError
  id_missing : String → PatchError
  id_mismatch : String → ℤ → PatchError

pub data Result {ℓ} (A : Type ℓ) : Type ℓ where
  ok : A → Result A
  err : PatchError → Result A

abbrev no_gaps : Gaps
no_gaps = record { before_name = ""; after_name = ""; before_value = ""; after_value = "" }

unfoldable pub is_text : Kind → Bool
is_text text = true
is_text number = false
is_text other = false

unfoldable pub is_number : Kind → Bool
is_number number = true
is_number text = false
is_number other = false

module _ (hj : Hujson) where
  -- Whether a member's name is a text literal that folds to `name`.
  unfoldable pub named : String → Json hj.Raw → Bool
  unfolding is_text
  named name (literal r) = is_text (hj.kind r) && equal_fold (hj.text_of r) name
  named name (object ms) = false
  named name (array es) = false

  unfoldable pub object_member : Members hj.Raw → String → Option (Json hj.Raw)
  unfolding named
  object_member (no_members gap) name = none
  object_member (member g n v ms) name = if named name n then some v else object_member ms name

  unfoldable pub append_object_member : Members hj.Raw → String → Json hj.Raw → Members hj.Raw
  append_object_member (no_members gap) name value =
      member no_gaps (literal (hj.from_text name)) value (no_members gap)
  append_object_member (member g n v ms) name value =
      member g n v (append_object_member ms name value)

  unfoldable pub remove_object_member : Members hj.Raw → String → Members hj.Raw
  unfolding named
  remove_object_member (no_members gap) name = no_members gap
  remove_object_member (member g n v ms) name =
      let rest = remove_object_member ms name in if named name n then ms else member g n v rest

  -- The first member of that name gets the value: what a write through its pointer does.
  unfoldable pub replace_object_member : Members hj.Raw → String → Json hj.Raw → Members hj.Raw
  unfolding named
  replace_object_member (no_members gap) name value = no_members gap
  replace_object_member (member g n v ms) name value =
      let rest = replace_object_member ms name value in
      if named name n then member g n value ms else member g n v rest

  unfoldable pub set_object : Members hj.Raw → String → Json hj.Raw → Members hj.Raw
  set_object ms name value = elim (object_member ms name) [
    | none ↦ append_object_member ms name value
    | some v ↦ replace_object_member ms name value
  ]

  unfoldable pub set_object_string : Members hj.Raw → String → String → Members hj.Raw
  unfolding set_object
  set_object_string ms name value = set_object ms name (literal (hj.from_text value))

  unfoldable pub set_object_int : Members hj.Raw → String → ℤ → Members hj.Raw
  unfolding set_object
  set_object_int ms name value = set_object ms name (literal (hj.from_int value))

  unfoldable pub set_object_bool : Members hj.Raw → String → Bool → Members hj.Raw
  unfolding set_object
  set_object_bool ms name value = set_object ms name (literal (hj.from_bool value))

  unfoldable pub require_literal : String → ℤ → Json hj.Raw → Option PatchError
  unfolding is_number
  require_literal name expected (literal r) =
      if not (is_number (hj.kind r) && (hj.int_of r ==ℤ expected))
      then some (id_mismatch name expected)
      else none
  require_literal name expected (object ms) = some (id_mismatch name expected)
  require_literal name expected (array es) = some (id_mismatch name expected)

  -- requireOwnedInt, with requireMatchingInt.
  unfoldable pub require_owned_int : Members hj.Raw → String → ℤ → Option PatchError
  unfolding require_literal
  require_owned_int ms name expected = elim (object_member ms name) [
    | none ↦ some (id_missing name)
    | some v ↦ require_literal name expected v
  ]

-- What is relied on of the hujson package: a literal that is made reads as what it was made of.
pub record HujsonLaws (hj : Hujson) : Type 0 where
  pub text_kind : (s : String) → hj.kind (hj.from_text s) ≡ text
  pub text_reads : (s : String) → hj.text_of (hj.from_text s) ≡ s
  pub int_kind : (n : ℤ) → hj.kind (hj.from_int n) ≡ number
  pub int_reads : (n : ℤ) → hj.int_of (hj.from_int n) ≡ n
