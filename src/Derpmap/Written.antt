-- ===== src/Derpmap/Written.antt =====
-- What the node that is published reads as.
use tailscale_derp.Base.{
  ◌≡◌, refl, ap, ◌∙◌, ℤ, pos, String, str_eq, equal_fold, Bool, true, false, some, if◌then◌else◌,
  if_elim, Option-cases, inl, inr,
}
use tailscale_derp.Endpoint.{Endpoint}
use tailscale_derp.Derpmap.{
  Hujson, HujsonLaws, Json, literal, Members, ApiConfig, object_member, set_object,
  set_object_string, set_object_int, set_object_bool, remove_object_member,
}
use tailscale_derp.Derpmap.Nodes.{write_node, set_or_remove}
use tailscale_derp.Derpmap.Patch.Frame.{replace-other, remove-other, append-other}
use tailscale_derp.Derpmap.Patch.Regions.{replace-get, append-get, made-named, Apart_keys}

module _ (hj : Hujson) (laws : HujsonLaws hj) where
  set_object-get :
      (ms : Members hj.Raw) (n : String) (v : Json hj.Raw)
      → equal_fold n n ≡ true
      → object_member hj (set_object hj ms n v) n ≡ some v
  unfolding set_object
  set_object-get ms n v q = elim (Option-cases (object_member hj ms n)) [
    | inl e ↦ rw (e, set_object) (append-get hj n n ms v (made-named hj laws n n q) e)
    | inr (old, e) ↦ rw (e, set_object) (replace-get hj n ms old v e)
  ]

  set_object-other :
      (ms : Members hj.Raw) (n other : String) (v : Json hj.Raw)
      → equal_fold n other ≡ false
      → object_member hj (set_object hj ms n v) other ≡ object_member hj ms other
  unfolding set_object
  set_object-other ms n other v q = elim (Option-cases (object_member hj ms n)) [
    | inl e ↦ rw (e, set_object) (append-other hj n other (Apart_keys hj laws n other q) ms v)
    | inr (old, e) ↦
        rw (e, set_object) (replace-other hj n other (Apart_keys hj laws n other q) ms v)
  ]

  -- `other` reads the same after a name that does not fold to it was set or removed.
  module _ (n other : String) (q : equal_fold n other ≡ false) where
    set_int-other :
        (ms : Members hj.Raw) (v : ℤ)
        → object_member hj (set_object_int hj ms n v) other ≡ object_member hj ms other
    unfolding set_object_int
    set_int-other ms v = set_object-other ms n other (literal (hj.from_int v)) q

    set_string-other :
        (ms : Members hj.Raw) (v : String)
        → object_member hj (set_object_string hj ms n v) other ≡ object_member hj ms other
    unfolding set_object_string
    set_string-other ms v = set_object-other ms n other (literal (hj.from_text v)) q

    set_bool-other :
        (ms : Members hj.Raw) (v : Bool)
        → object_member hj (set_object_bool hj ms n v) other ≡ object_member hj ms other
    unfolding set_object_bool
    set_bool-other ms v = set_object-other ms n other (literal (hj.from_bool v)) q

    remove_member-other :
        (ms : Members hj.Raw)
        → object_member hj (remove_object_member hj ms n) other ≡ object_member hj ms other
    remove_member-other ms = remove-other hj n other (Apart_keys hj laws n other q) ms

    set_or_remove-other :
        (ms : Members hj.Raw) (v : String)
        → object_member hj (set_or_remove hj n v ms) other ≡ object_member hj ms other
    set_or_remove-other ms v =
        if_elim (λ x. object_member hj x other ≡ object_member hj ms other) (str_eq v "")
          (remove_object_member hj ms n) (set_object_string hj ms n v) (λ _. remove_member-other ms)
          (λ _. set_string-other ms v)

  -- The certificate's name and the STUN-only mark come last.
  last_writes : ApiConfig → Members hj.Raw → Members hj.Raw
  last_writes c ms =
      let certified =
        if str_eq c.cert_name ""
        then remove_object_member hj ms "CertName"
        else set_object_string hj ms "certName" c.cert_name in
      if c.stun_only
      then set_object_bool hj certified "stunOnly" true
      else remove_object_member hj certified "stunOnly"

  last_writes-other :
      (c : ApiConfig) (other : String) (ms : Members hj.Raw)
      → equal_fold "CertName" other ≡ false
      → equal_fold "certName" other ≡ false
      → equal_fold "stunOnly" other ≡ false
      → object_member hj (last_writes c ms) other ≡ object_member hj ms other
  unfolding last_writes
  last_writes-other c other ms p q r =
      let certified : Members hj.Raw =
        if str_eq c.cert_name ""
        then remove_object_member hj ms "CertName"
        else set_object_string hj ms "certName" c.cert_name in
      if_elim (λ x. object_member hj x other ≡ object_member hj certified other) c.stun_only
        (set_object_bool hj certified "stunOnly" true)
        (remove_object_member hj certified "stunOnly")
        (λ _. set_bool-other "stunOnly" other r certified true)
        (λ _. remove_member-other "stunOnly" other r certified)
      ∙ if_elim (λ x. object_member hj x other ≡ object_member hj ms other) (str_eq c.cert_name "")
          (remove_object_member hj ms "CertName") (set_object_string hj ms "certName" c.cert_name)
          (λ _. remove_member-other "CertName" other p ms)
          (λ _. set_string-other "certName" other q ms c.cert_name)

  -- The members of a node that name it and its endpoint.
  pub record Reads (c : ApiConfig) (e : Endpoint) (ms : Members hj.Raw) : Type 0 where
    pub derp_port : object_member hj ms "derpPort" ≡ some (literal (hj.from_int (pos e.derp_port)))
    pub stun_port : object_member hj ms "stunPort" ≡ some (literal (hj.from_int e.stun_port))
    pub ipv4 :
        str_eq e.ipv4 "" ≡ false → object_member hj ms "ipv4" ≡ some (literal (hj.from_text e.ipv4))
    pub ipv6 :
        str_eq e.ipv6 "" ≡ false → object_member hj ms "ipv6" ≡ some (literal (hj.from_text e.ipv6))

  if_false : {A : Type 0} (b : Bool) (x y : A) → b ≡ false → (if b then x else y) ≡ y
  if_false b x y q = rw q refl

  -- A node that is published reads as the endpoint: its DERP and STUN ports are the endpoint's, and
  -- so is each address that the endpoint has, whatever the node was before.
  pub write_node-Reads :
      (c : ApiConfig) (e : Endpoint) (ms : Members hj.Raw) → Reads c e (write_node hj c e ms)
  unfolding write_node last_writes equal_fold set_object_int set_object_string
  write_node-Reads c e ms =
      let ms₃ : Members hj.Raw =
        set_object_string hj
          (set_object_int hj (set_object_string hj ms "name" c.node_name) "regionID" c.region_id)
          "hostName" c.hostname in
      let ms₄ : Members hj.Raw = set_or_remove hj "ipv4" e.ipv4 ms₃ in
      let ms₅ : Members hj.Raw = set_or_remove hj "ipv6" e.ipv6 ms₄ in
      let ms₆ : Members hj.Raw = set_object_int hj ms₅ "derpPort" (pos e.derp_port) in
      let ms₇ : Members hj.Raw = set_object_int hj ms₆ "stunPort" e.stun_port in
      record {
        derp_port =
            last_writes-other c "derpPort" ms₇ refl refl refl
            ∙ set_int-other "stunPort" "derpPort" refl ms₆ e.stun_port
            ∙ set_object-get ms₅ "derpPort" (literal (hj.from_int (pos e.derp_port))) refl;
        stun_port =
            last_writes-other c "stunPort" ms₇ refl refl refl
            ∙ set_object-get ms₆ "stunPort" (literal (hj.from_int e.stun_port)) refl;
        ipv4 = λ q.
            last_writes-other c "ipv4" ms₇ refl refl refl
            ∙ set_int-other "stunPort" "ipv4" refl ms₆ e.stun_port
            ∙ set_int-other "derpPort" "ipv4" refl ms₅ (pos e.derp_port)
            ∙ set_or_remove-other "ipv6" "ipv4" refl ms₄ e.ipv6
            ∙ ap (λ x. object_member hj x "ipv4")
                (if_false (str_eq e.ipv4 "") (remove_object_member hj ms₃ "ipv4")
                  (set_object_string hj ms₃ "ipv4" e.ipv4) q)
            ∙ set_object-get ms₃ "ipv4" (literal (hj.from_text e.ipv4)) refl;
        ipv6 = λ q.
            last_writes-other c "ipv6" ms₇ refl refl refl
            ∙ set_int-other "stunPort" "ipv6" refl ms₆ e.stun_port
            ∙ set_int-other "derpPort" "ipv6" refl ms₅ (pos e.derp_port)
            ∙ ap (λ x. object_member hj x "ipv6")
                (if_false (str_eq e.ipv6 "") (remove_object_member hj ms₄ "ipv6")
                  (set_object_string hj ms₄ "ipv6" e.ipv6) q)
            ∙ set_object-get ms₄ "ipv6" (literal (hj.from_text e.ipv6)) refl;
      }
