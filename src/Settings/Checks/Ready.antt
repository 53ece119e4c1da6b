-- ===== src/Settings/Checks/Ready.antt =====
-- cmd/tailscale-derp/main.go: what holds of a configuration that was built and validated.
use tailscale_derp.Base.{
  ℕ, ◌≡◌, ◌≢◌, ◌≤◌, refl, sym, ap, ◌∙◌, subst, String, str_eq, eq_iff, Bool, true, false, not,
  Option, List, [], ◌∷◌, ◌++◌, ◌&&◌, ◌||◌, ◌⊎◌, inl, inr, if◌then◌else◌, Bool-cases, All, arith,
  ◌==◌, ℤ, pos, negsuc,
}
use tailscale_derp.Derpmap.{ApiConfig}
use tailscale_derp.Derpmap.Sync.{is_configured}
use tailscale_derp.Settings.{Config, Result, ok, err, bind_result}
use tailscale_derp.Settings.Values.{one_of, is_blank, validate_external_port}
use tailscale_derp.Settings.Apply.{has_tls}
use tailscale_derp.Settings.Override.{
  ConfigFlags, Opened, build_config, read_file, finish, apply_flag_overrides, positive_interval,
}
use tailscale_derp.Settings.Checks.{
  Guard, check_all, config_guards, method_guards, api_guards, last_guard, all_guards, fill_defaults,
  validate_config, out_of_region,
}

abbrev Clear : List Guard → Type 0
Clear gs = All (λ g. g.0 ≡ false) gs

ok-eq : (c d : Config) → ok c ≡ ok d → c ≡ d
ok-eq c d h = cc

err_ok : {A : Type 0} (why : String) (d : Config) → err why ≡ ok d → A
err_ok why d h = absurd (ground (arith, h))

check_all-Clear : (gs : List Guard) (c d : Config) → check_all gs c ≡ ok d → Clear gs × (c ≡ d)
unfolding check_all
check_all-Clear [] c d h = (tt, ok-eq c d h)
check_all-Clear ((true, why) ∷ gs) c d h = err_ok why d h
check_all-Clear ((false, why) ∷ gs) c d h = let (a, b) = check_all-Clear gs c d h in ((refl, a), b)

Clear-split : (xs ys : List Guard) → Clear (xs ++ ys) → Clear xs × Clear ys
Clear-split [] ys h = (tt, h)
Clear-split (x ∷ xs) ys (h, hs) = let (a, b) = Clear-split xs ys hs in ((h, a), b)

-- An instance that is to be kept in a policy can be.
pub record Publishable (enabled : Bool) (a : ApiConfig) : Type 0 where
  pub is_enabled : enabled ≡ true
  pub has_credentials : is_configured a ≡ true
  pub region : ℕ
  pub region_is : a.region_id ≡ pos region
  pub region_from : 900 ≤ region
  pub region_to : region ≤ 999
  pub has_hostname : is_blank a.hostname ≡ false
  pub has_node_name : is_blank a.node_name ≡ false

pub record IsReady (c : Config) : Type 0 where
  pub listens : c.listen ≢ ""
  pub mesh_has_key : (c.mesh ≡ false) ⊎ (c.mesh_key ≢ "")
  pub tls_is :
      ((c.tls_mode ≡ "manual") × (str_eq c.cert_file "" ≡ str_eq c.key_file ""))
      ⊎ ((c.tls_mode ≡ "self_signed") × (c.cert_file ≡ "") × (c.key_file ≡ ""))
  pub publishes_with_tls : (c.external.enabled ≡ false) ⊎ (has_tls c ≡ true)
  pub derp_port_is : validate_external_port c.external.derp_port ≡ true
  pub stun_port_is : validate_external_port c.external.stun_port ≡ true
  pub methods_are : All (λ m. (m ≡ "pcp") ⊎ ((m ≡ "natpmp") ⊎ (m ≡ "upnp"))) c.external.methods
  pub instances_are :
      All (λ a. (a.derp_map_sync ≡ false) ⊎ Publishable c.external.enabled a) c.verify.apis
  pub saves_every : ℕ
  pub interval_is : c.traffic_interval ≡ pos saves_every
  pub interval_positive : saves_every ≢ 0

not_empty : (s : String) → str_eq s "" ≡ false → s ≢ ""
not_empty s h e = differ (subst (λ (t : String). str_eq t "" ≡ false) e h)
  where
    differ : true ≡ false → ⊥
    differ q = ground (arith, q)

text_eq : (s t : String) → str_eq s t ≡ true → s ≡ t
text_eq s t h = (eq_iff s t).0 h

method_of :
    (m : String)
    → not (one_of m ("pcp" ∷ "natpmp" ∷ "upnp" ∷ [])) ≡ false
    → (m ≡ "pcp") ⊎ ((m ≡ "natpmp") ⊎ (m ≡ "upnp"))
method_of m h = elim (Bool-cases (str_eq m "pcp")) [
  | inl a ↦ inl (text_eq m "pcp" a)
  | inr a ↦ elim (Bool-cases (str_eq m "natpmp")) [
    | inl b ↦ inr (inl (text_eq m "natpmp" b))
    | inr b ↦ inr (inr (text_eq m "upnp" (last (str_eq m "upnp") (simp (a, b) at h))))
  ]
]
  where
    last : (b : Bool) → not (b || false) ≡ false → b ≡ true
    last b q = ground arith

methods-All :
    (ms : List String)
    → Clear (method_guards ms)
    → All (λ m. (m ≡ "pcp") ⊎ ((m ≡ "natpmp") ⊎ (m ≡ "upnp"))) ms
unfolding method_guards
methods-All [] h = tt
methods-All (m ∷ ms) (h, hs) = (method_of m h, methods-All ms hs)

in_region : (i : ℤ) → out_of_region i ≡ false → (n : ℕ) × (i ≡ pos n) × (900 ≤ n) × (n ≤ 999)
unfolding out_of_region
in_region (pos n) h = (n, refl, ground arith, ground arith)
in_region (negsuc n) h = absurd (ground arith)

when_sync : (s b : Bool) → s ≡ true → (s && b) ≡ false → b ≡ false
when_sync s b h k = ground arith

none_blank : (a b c d : Bool) → (a || b || c || d) ≡ false → (c ≡ false) × (d ≡ false)
none_blank a b c d h = ground arith

of_not : (b : Bool) → not b ≡ false → b ≡ true
of_not b h = ground arith

instances-All :
    (enabled : Bool) (as' : List ApiConfig)
    → Clear (api_guards enabled as')
    → All (λ a. (a.derp_map_sync ≡ false) ⊎ Publishable enabled a) as'
unfolding api_guards
instances-All enabled [] h = tt
instances-All enabled (a ∷ rest) (g1, (g2, (g3, (g4, hs)))) = (
  elim (Bool-cases a.derp_map_sync) [
    | inr q ↦ inl q
    | inl q ↦
        let (n, e, lo, hi) = in_region a.region_id (when_sync _ _ q g3) in
        let (c, d) =
          none_blank (is_blank a.region_code) (is_blank a.region_name) (is_blank a.node_name)
            (is_blank a.hostname) (when_sync _ _ q g4) in
        inr record {
          is_enabled = of_not _ (when_sync _ _ q g1);
          has_credentials = of_not _ (when_sync _ _ q g2);
          region = n;
          region_is = e;
          region_from = lo;
          region_to = hi;
          has_hostname = d;
          has_node_name = c;
        }
  ],
  instances-All enabled rest hs,
)

same_flags : (x y : Bool) → (not x && y) ≡ false → (not y && x) ≡ false → x ≡ y
same_flags x y h k = ground arith

second_mode : (a b : Bool) → a ≡ false → (not a && not b) ≡ false → b ≡ true
second_mode a b h k = ground arith

no_files : (s x y : Bool) → s ≡ true → (s && (not x || not y)) ≡ false → (x ≡ true) × (y ≡ true)
no_files s x y h k = ground arith

tls_of :
    (c : Config)
    → (not (str_eq c.cert_file "") && str_eq c.key_file "") ≡ false
    → (not (str_eq c.key_file "") && str_eq c.cert_file "") ≡ false
    → (not (str_eq c.tls_mode "manual") && not (str_eq c.tls_mode "self_signed")) ≡ false
    → (str_eq c.tls_mode "self_signed"
        && (not (str_eq c.cert_file "") || not (str_eq c.key_file "")))
      ≡ false
    → ((c.tls_mode ≡ "manual") × (str_eq c.cert_file "" ≡ str_eq c.key_file ""))
      ⊎ ((c.tls_mode ≡ "self_signed") × (c.cert_file ≡ "") × (c.key_file ≡ ""))
tls_of c a b m f = elim (Bool-cases (str_eq c.tls_mode "manual")) [
  | inl q ↦ inl (text_eq _ _ q, same_flags _ _ a b)
  | inr q ↦
      let self = second_mode _ (str_eq c.tls_mode "self_signed") q m in
      let (x, y) = no_files _ _ _ self f in inr (text_eq _ _ self, text_eq _ _ x, text_eq _ _ y)
]

off_or : (a b : Bool) → (a && b) ≡ false → (a ≡ false) ⊎ (b ≡ false)
off_or a b h = ground arith

with_tls : (a b : Bool) → (a && not b) ≡ false → (a ≡ false) ⊎ (b ≡ true)
with_tls a b h = ground arith

keyed : (a : Bool) (s : String) → (a && str_eq s "") ≡ false → (a ≡ false) ⊎ (s ≢ "")
keyed a s h = elim (off_or a (str_eq s "") h) [ inl q ↦ inl q | inr q ↦ inr (not_empty s q) ]

guarded-IsReady :
    (split : String → Option String) (c : Config) (n : ℕ)
    → Clear (all_guards split c)
    → c.external.tls_configured ≡ has_tls c
    → c.traffic_interval ≡ pos n
    → n ≢ 0
    → IsReady c
unfolding all_guards config_guards last_guard
guarded-IsReady split c n clear tls e p =
    let (first, more) = Clear-split (config_guards split c) _ clear in
    let (methods, rest) = Clear-split (method_guards c.external.methods) _ more in
    let (apis, last) = Clear-split (api_guards c.external.enabled c.verify.apis) _ rest in
    let (l, (m, (a, (b, (t, (f, (sd, (bl, (bh, (dp, (sp, later))))))))))) = first in
    record {
      listens = not_empty c.listen l;
      mesh_has_key = keyed c.mesh c.mesh_key m;
      tls_is = tls_of c a b t f;
      publishes_with_tls =
          subst (λ (x : Bool). (c.external.enabled ≡ false) ⊎ (x ≡ true)) tls (with_tls _ _ last.0);
      derp_port_is = of_not _ dp;
      stun_port_is = of_not _ sp;
      methods_are = methods-All c.external.methods methods;
      instances_are = instances-All c.external.enabled c.verify.apis apis;
      saves_every = n;
      interval_is = e;
      interval_positive = p;
    }

default_mode :
    (m : String)
    → str_eq (if str_eq m "" then "manual" else m) "self_signed" ≡ str_eq m "self_signed"
default_mode m = elim (Bool-cases (str_eq m "")) [
  | inl q ↦ rw q (
      subst (λ (t : String). str_eq "manual" "self_signed" ≡ str_eq t "self_signed")
        (sym (text_eq m "" q)) refl)
  | inr q ↦ rw q refl
]

has_tls-fill_defaults : (c : Config) → has_tls (fill_defaults c) ≡ has_tls c
unfolding has_tls fill_defaults
has_tls-fill_defaults c =
    ap (λ (x : Bool). x || not (str_eq c.cert_file "") && not (str_eq c.key_file ""))
      (default_mode c.tls_mode)

interval : (i : ℤ) → (n : ℕ) × (positive_interval i ≡ pos n) × (n ≢ 0)
unfolding positive_interval
interval (pos n) = elim (Bool-cases (n == 0)) [
  | inl q ↦ (60, rw q refl, λ h. absurd (omega (arith, h)))
  | inr q ↦ (n, rw q refl, λ h. absurd (ground (arith, h, q)))
]
interval (negsuc n) = (60, refl, λ h. absurd (omega (arith, h)))

finished-IsReady :
    (split : String → Option String) (c d : Config)
    → validate_config split (finish c) ≡ ok d
    → IsReady d
unfolding validate_config finish fill_defaults has_tls
finished-IsReady split c d h =
    let (clear, e) =
      check_all-Clear (all_guards split (fill_defaults (finish c))) (fill_defaults (finish c)) d
        h in
    let (n, i, p) = interval c.traffic_interval in
    subst IsReady e (
      guarded-IsReady split (fill_defaults (finish c)) n clear
        (sym (has_tls-fill_defaults (finish c))) i p)

built :
    (split : String → Option String) (f : ConfigFlags) (r : Result Config) (c d : Config)
    → bind_result r (λ x. ok (finish (apply_flag_overrides f x))) ≡ ok c
    → validate_config split c ≡ ok d
    → IsReady d
unfolding bind_result
built split f (err why) c d h v = err_ok why c h
built split f (ok x) c d h v =
    finished-IsReady split (apply_flag_overrides f x) d
      (ap (λ (y : Config). validate_config split y) (ok-eq _ c h) ∙ v)

-- A configuration that is built from flags and a file and then validated without error listens
-- somewhere, has a key if it is a mesh, has both certificate files, none or its own certificate,
-- publishes only with TLS, has external ports that are automatic or in range, only known mapping
-- methods, a positive save interval, and for each instance that is kept in a policy credentials, a
-- region from 900 to 999, a node name and a host name.
pub build_config-IsReady :
    (split : String → Option String) (f : ConfigFlags) (open_file : String → Opened) (c d : Config)
    → build_config f open_file ≡ ok c
    → validate_config split c ≡ ok d
    → IsReady d
unfolding build_config
build_config-IsReady split f open_file c d h v =
    built split f (read_file open_file f.config_path) c d h v
