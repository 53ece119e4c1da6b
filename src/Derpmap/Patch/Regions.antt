-- ===== src/Derpmap/Patch/Regions.antt =====
-- The regions that a patch leaves alone: all but the configured one.
use tailscale_derp.Base.{
  ◌≡◌, refl, ◌∙◌, ◌⊎◌, ap, arith, String, Bool, true, false, is_some, Option, none, some,
  Bool-cases, inl, inr, subst, equal_fold, equal_fold_refl, other_fold,
}
use tailscale_derp.Endpoint.{Endpoint}
use tailscale_derp.Derpmap.{
  Hujson, HujsonLaws, is_text, Json, literal, object, array, Members, no_members, member, ApiConfig,
  Result, ok, err, named, object_member, append_object_member, replace_object_member,
}
use tailscale_derp.Derpmap.Patch.{
  Change, stay, gone, become, then_do, given, update_member, write_member, publish_root,
  publish_derp_map, publish_regions, publish_region, withdraw_root, root_change, withdraw_derp_map,
}
use tailscale_derp.Derpmap.Patch.Frame.{
  Apart, replace-other, remove-other, append-other, Whole, whole_member, whole-replace_other,
  whole-append_other,
}

-- `Q` of a result that is no error.
abbrev pub OkAll : {A : Type 0} → (A → Type 0) → Result A → Type 0
OkAll Q (err e) = Unit
OkAll Q (ok a) = Q a

then_do-ok :
    {A B : Type 0} (Q : A → Type 0) (R : B → Type 0) (r : Result A) (f : A → Result B)
    → OkAll Q r
    → ((a : A) → Q a → OkAll R (f a))
    → OkAll R (then_do r f)
unfolding then_do
then_do-ok Q R (err e) f h k = tt
then_do-ok Q R (ok a) f h k = k a h

OkAll-map :
    {A : Type 0} (Q R : A → Type 0) (r : Result A) → OkAll Q r → ((a : A) → Q a → R a) → OkAll R r
OkAll-map Q R (err e) h k = tt
OkAll-map Q R (ok a) h k = k a h

regions_fold : equal_fold "regions" "Regions" ≡ true
unfolding equal_fold
regions_fold = refl

abbrev pub within : {R A : Type 0} → (Members R → Option A) → Option (Json R) → Option A
within f none = none
within f (some (literal r)) = none
within f (some (array es)) = none
within f (some (object ms)) = f ms

module _ (hj : Hujson) where
  pub replace-get :
      (name : String) (ms : Members hj.Raw) (old v : Json hj.Raw)
      → object_member hj ms name ≡ some old
      → object_member hj (replace_object_member hj ms name v) name ≡ some v
  unfolding object_member replace_object_member
  replace-get name (no_members gap) old v h = ground (arith, h)
  replace-get name (member g n w ms) old v h = elim (Bool-cases (named hj name n)) [
    | inl q ↦ simp (q, object_member, replace_object_member) refl
    | inr q ↦ simp q (replace-get name ms old v (simp q at h))
  ]

  pub append-get :
      (name new : String) (ms : Members hj.Raw) (v : Json hj.Raw)
      → named hj name (literal (hj.from_text new)) ≡ true
      → object_member hj ms name ≡ none
      → object_member hj (append_object_member hj ms new v) name ≡ some v
  unfolding object_member append_object_member
  append-get name new (no_members gap) v q h = simp q refl
  append-get name new (member g n w ms) v q h = elim (Bool-cases (named hj name n)) [
    | inl p ↦ ground (arith, p, h)
    | inr p ↦ simp p (append-get name new ms v q (simp p at h))
  ]

  write-get :
      (name new : String) (ms : Members hj.Raw) (v : Json hj.Raw) (old : Option (Json hj.Raw))
      → named hj name (literal (hj.from_text new)) ≡ true
      → object_member hj ms name ≡ old
      → object_member hj (write_member hj ms name new old v) name ≡ some v
  unfolding write_member
  write-get name new ms v none q h = append-get name new ms v q h
  write-get name new ms v (some old) q h = replace-get name ms old v h

  update_member-ok :
      (name new : String) (default : Json hj.Raw) (f : Bool → Json hj.Raw → Result (Json hj.Raw))
      (ms : Members hj.Raw) (Q : Json hj.Raw → Type 0)
      → named hj name (literal (hj.from_text new)) ≡ true
      → OkAll Q
          (f (is_some (object_member hj ms name)) (given hj (object_member hj ms name) default))
      → OkAll
          (λ ms'. (v : Json hj.Raw) × ((object_member hj ms' name ≡ some v) × Q v))
          (update_member hj name new default f ms)
  unfolding update_member
  update_member-ok name new default f ms Q q h =
      then_do-ok Q _ _ _ h λ v hv. (v, (write-get name new ms v _ q refl, hv))

-- The region `other` of a Regions value, of a derpMap value, and of a policy: its whole member.
abbrev pub at_region : (hj : Hujson) → String → Option (Json hj.Raw) → Option (Whole hj.Raw)
at_region hj other j = within (λ ms. whole_member hj ms other) j

abbrev pub at_regions : (hj : Hujson) → String → Option (Json hj.Raw) → Option (Whole hj.Raw)
at_regions hj other j = within (λ ms. at_region hj other (object_member hj ms "Regions")) j

abbrev pub region : (hj : Hujson) → String → Members hj.Raw → Option (Whole hj.Raw)
region hj other root = at_regions hj other (object_member hj root "derpMap")

module _ (hj : Hujson) (laws : HujsonLaws hj) where
  pub made-named :
      (name new : String)
      → equal_fold new name ≡ true
      → named hj name (literal (hj.from_text new)) ≡ true
  unfolding named is_text
  made-named name new q = simp (laws.text_kind, laws.text_reads, q) refl

  module _ (key other : String) (apart : equal_fold key other ≡ false) where
    pub Apart_keys : Apart hj key other
    unfolding named is_text
    Apart_keys = record {
      never = λ t q. other_fold key other t q apart;
      fresh = simp (laws.text_kind, laws.text_reads, apart) refl;
    }

    ok_any : {A : Type 0} (r : Result A) → OkAll (λ _. Unit) r
    ok_any (err e) = tt
    ok_any (ok a) = tt

    write-other :
        (ms : Members hj.Raw) (old : Option (Json hj.Raw)) (v : Json hj.Raw)
        → object_member hj (write_member hj ms key key old v) other ≡ object_member hj ms other
    unfolding write_member
    write-other ms none v = append-other hj key other Apart_keys ms v
    write-other ms (some old) v = replace-other hj key other Apart_keys ms v

    update_member-other :
        (default : Json hj.Raw) (f : Bool → Json hj.Raw → Result (Json hj.Raw))
        (ms : Members hj.Raw)
        → OkAll
            (λ ms'. object_member hj ms' other ≡ object_member hj ms other)
            (update_member hj key key default f ms)
    unfolding update_member
    update_member-other default f ms =
        let old = object_member hj ms key in
        let r = f (is_some old) (given hj old default) in
        then_do-ok (λ _. Unit) (λ ms'. object_member hj ms' other ≡ object_member hj ms other) r
          (λ v. ok (write_member hj ms key key old v)) (ok_any r) (λ v _. write-other ms old v)

    write-whole_other :
        (ms : Members hj.Raw) (old : Option (Json hj.Raw)) (v : Json hj.Raw)
        → whole_member hj (write_member hj ms key key old v) other ≡ whole_member hj ms other
    unfolding write_member
    write-whole_other ms none v = whole-append_other hj key other Apart_keys ms v
    write-whole_other ms (some old) v = whole-replace_other hj key other Apart_keys ms v

    update_member-whole_other :
        (default : Json hj.Raw) (f : Bool → Json hj.Raw → Result (Json hj.Raw))
        (ms : Members hj.Raw)
        → OkAll
            (λ ms'. whole_member hj ms' other ≡ whole_member hj ms other)
            (update_member hj key key default f ms)
    unfolding update_member
    update_member-whole_other default f ms =
        let old = object_member hj ms key in
        let r = f (is_some old) (given hj old default) in
        then_do-ok (λ _. Unit) (λ ms'. whole_member hj ms' other ≡ whole_member hj ms other) r
          (λ v. ok (write_member hj ms key key old v)) (ok_any r)
          (λ v _. write-whole_other ms old v)

    module _ (c : ApiConfig) (value : Option Endpoint) where
      publish_regions-keeps :
          (j : Json hj.Raw)
          → OkAll
              (λ j'. at_region hj other (some j') ≡ at_region hj other (some j))
              (publish_regions hj c key value j)
      unfolding publish_regions then_do
      publish_regions-keeps (literal r) = tt
      publish_regions-keeps (array es) = tt
      publish_regions-keeps (object ms) =
          then_do-ok (λ ms'. whole_member hj ms' other ≡ whole_member hj ms other)
            (λ j'. at_region hj other (some j') ≡ whole_member hj ms other)
            (update_member hj key key (object (no_members "")) (publish_region hj c value) ms)
            (λ ms'. ok (object ms'))
            (update_member-whole_other (object (no_members "")) (publish_region hj c value) ms)
            (λ ms' h. h)

      -- A member that was there or is made, and a value that reads the same.
      default-same :
          (old : Option (Json hj.Raw))
          → at_region hj other (some (given hj old (object (no_members ""))))
            ≡ at_region hj other old
      unfolding whole_member
      default-same none = refl
      default-same (some v) = refl

      default-same2 :
          (old : Option (Json hj.Raw))
          → at_regions hj other (some (given hj old (object (no_members ""))))
            ≡ at_regions hj other old
      unfolding object_member
      default-same2 none = refl
      default-same2 (some v) = refl

      publish_derp_map-keeps :
          (j : Json hj.Raw)
          → OkAll
              (λ j'. at_regions hj other (some j') ≡ at_regions hj other (some j))
              (publish_derp_map hj c key value j)
      unfolding publish_derp_map then_do
      publish_derp_map-keeps (literal r) = tt
      publish_derp_map-keeps (array es) = tt
      publish_derp_map-keeps (object ms) =
          then_do-ok
            (λ ms'.
              (v : Json hj.Raw) × ((object_member hj ms' "Regions" ≡ some v)
                × (at_region hj other (some v)
                    ≡ at_region hj other (
                        some (given hj (object_member hj ms "Regions") (object (no_members "")))))))
            (λ j'. at_regions hj other (some j') ≡ at_regions hj other (some (object ms)))
            (update_member hj "Regions" "regions" (object (no_members ""))
              (λ _. publish_regions hj c key value) ms)
            (λ ms'. ok (object ms'))
            (update_member-ok hj "Regions" "regions" (object (no_members ""))
              (λ _. publish_regions hj c key value) ms
              (λ j'.
                at_region hj other (some j')
                ≡ at_region hj other
                    (some (given hj (object_member hj ms "Regions") (object (no_members "")))))
              (made-named "Regions" "regions" regions_fold) (publish_regions-keeps _))
            (λ ms' (v, (q, h)).
              ap (at_region hj other) q ∙ (h ∙ default-same (object_member hj ms "Regions")))

      publish_root-keeps :
          (ms : Members hj.Raw)
          → OkAll (λ ms'. region hj other ms' ≡ region hj other ms) (publish_root hj c key value ms)
      unfolding publish_root
      publish_root-keeps ms =
          OkAll-map
            (λ ms'.
              (v : Json hj.Raw) × ((object_member hj ms' "derpMap" ≡ some v)
                × (at_regions hj other (some v)
                    ≡ at_regions hj other (
                        some (given hj (object_member hj ms "derpMap") (object (no_members "")))))))
            (λ ms'. region hj other ms' ≡ region hj other ms)
            (update_member hj "derpMap" "derpMap" (object (no_members ""))
              (λ _. publish_derp_map hj c key value) ms)
            (update_member-ok hj "derpMap" "derpMap" (object (no_members ""))
              (λ _. publish_derp_map hj c key value) ms
              (λ j'.
                at_regions hj other (some j')
                ≡ at_regions hj other
                    (some (given hj (object_member hj ms "derpMap") (object (no_members "")))))
              (made-named "derpMap" "derpMap" (equal_fold_refl "derpMap"))
              (publish_derp_map-keeps _))
            (λ ms' (v, (q, h)).
              ap (at_regions hj other) q ∙ (h ∙ default-same2 (object_member hj ms "derpMap")))

-- A patch that publishes leaves each region whose key does not fold to the configured one as it is
-- written: its name, its value and the comments in and around it.
pub publish_root-region :
    (hj : Hujson)
    → HujsonLaws hj
    → (c : ApiConfig) (key other : String) (value : Option Endpoint) (root root' : Members hj.Raw)
    → equal_fold key other ≡ false
    → publish_root hj c key value root ≡ ok root'
    → region hj other root' ≡ region hj other root
publish_root-region hj laws c key other value root root' apart q =
    subst (OkAll (λ ms. region hj other ms ≡ region hj other root)) q
      (publish_root-keeps hj laws key other apart c value root)

abbrev KeptBy : (hj : Hujson) → String → Members hj.Raw → Change (Members hj.Raw) → Type 0
KeptBy hj other root stay = Unit
KeptBy hj other root gone = Unit
KeptBy hj other root (become ms) = object_member hj ms other ≡ object_member hj root other

module _ (hj : Hujson) (laws : HujsonLaws hj) (other : String)
    (apart : equal_fold "derpMap" other ≡ false) where
  root_change-KeptBy :
      (root : Members hj.Raw) (change : Change (Json hj.Raw))
      → KeptBy hj other root (root_change hj root change)
  unfolding root_change
  root_change-KeptBy root stay = tt
  root_change-KeptBy root gone =
      remove-other hj "derpMap" other (Apart_keys hj laws "derpMap" other apart) root
  root_change-KeptBy root (become v) =
      replace-other hj "derpMap" other (Apart_keys hj laws "derpMap" other apart) root v

  withdraw_root-KeptBy :
      (c : ApiConfig) (key : String) (root : Members hj.Raw) (old : Option (Json hj.Raw))
      → OkAll (KeptBy hj other root) (withdraw_root hj c key root old)
  unfolding withdraw_root
  withdraw_root-KeptBy c key root none = tt
  withdraw_root-KeptBy c key root (some j) =
      then_do-ok (λ _. Unit) (KeptBy hj other root) (withdraw_derp_map hj c key j)
        (λ change. ok (root_change hj root change))
        (ok_any hj laws "derpMap" other apart (withdraw_derp_map hj c key j))
        (λ change _. root_change-KeptBy root change)

-- A patch, whether it publishes or withdraws, leaves each member of the policy whose name does not
-- fold to derpMap as it reads.
pub patch-other :
    (hj : Hujson)
    → HujsonLaws hj
    → (c : ApiConfig) (key other : String) (value : Option Endpoint) (root root' : Members hj.Raw)
    → equal_fold "derpMap" other ≡ false
    → (publish_root hj c key value root ≡ ok root')
      ⊎ (withdraw_root hj c key root (object_member hj root "derpMap") ≡ ok (become root'))
    → object_member hj root' other ≡ object_member hj root other
unfolding publish_root
patch-other hj laws c key other value root root' apart (inl q) =
    subst (OkAll (λ ms. object_member hj ms other ≡ object_member hj root other)) q (
      update_member-other hj laws "derpMap" other apart (object (no_members ""))
        (λ _. publish_derp_map hj c key value) root)
patch-other hj laws c key other value root root' apart (inr q) =
    subst (OkAll (KeptBy hj other root)) q
      (withdraw_root-KeptBy hj laws other apart c key root (object_member hj root "derpMap"))
