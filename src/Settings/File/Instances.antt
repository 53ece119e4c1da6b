-- ===== src/Settings/File/Instances.antt =====
-- cmd/tailscale-derp/config_model.go: the sections that a file's API instances become.
use tailscale_derp.Base.{
  ℕ, ◌+◌, ◌≡◌, refl, ap, ◌∙◌, String, str_eq, false, Option, none, some, List, [], ◌∷◌, ◌++◌,
  Bool-cases, inl, inr, sym, subst, ◌+++◌, decimal, pos, true,
}
use mathlib.Core.List.{append_assoc, append-nil}
use tailscale_derp.Settings.{Options, UciSection, UciConfig, sections_of_type}
use tailscale_derp.Settings.File.Lookup.{HasOptions, verify_api_options-HasOptions}
use tailscale_derp.Settings.File.{
  FileConfig, FileVerifyApiConfig, FileGlobalConfig, FileTlsConfig, FileMeshConfig, FileOpsConfig,
  FileTrafficConfig, FileExternalConfig, FileVerifyConfig, add_section, add_global, add_tls,
  add_mesh, add_ops, add_traffic, add_external, add_verify, add_fixed, add_verify_api,
  instance_name, verify_api_options, to_uci_config, empty_uci,
}

-- The section of an instance, and those of the rest after it.
unfoldable instance_sections : ℕ → List FileVerifyApiConfig → List UciSection
unfolding instance_name verify_api_options
instance_sections index [] = []
instance_sections index (s ∷ rest) =
    record { typ = "verify_api"; name = instance_name index s; values = verify_api_options s }
    ∷ instance_sections (index + 1) rest

sections-append :
    (xs ys : List UciSection) (typ : String)
    → sections_of_type (xs ++ ys) typ ≡ sections_of_type xs typ ++ sections_of_type ys typ
unfolding sections_of_type
sections-append [] ys typ = refl
sections-append (x ∷ xs) ys typ = elim (Bool-cases (str_eq x.typ typ)) [
  | inl q ↦ simp q (ap (λ (t : List UciSection). x ∷ t) (sections-append xs ys typ))
  | inr q ↦ simp q (sections-append xs ys typ)
]

abbrev instances : UciConfig → List UciSection
instances c = sections_of_type c.sections "verify_api"

-- A section of another type adds no instance.
other_section :
    (typ name : String) (values : Options) (c : UciConfig)
    → str_eq typ "verify_api" ≡ false
    → instances (add_section typ name values c) ≡ instances c
unfolding add_section sections_of_type
other_section typ name values c h =
    sections-append c.sections _ "verify_api" ∙ simp h (append-nil (instances c))

instances-add_global :
    (s : Option FileGlobalConfig) (c : UciConfig) → instances (add_global s c) ≡ instances c
unfolding add_global
instances-add_global none c = refl
instances-add_global (some s) c = other_section "global" "global" _ c refl

instances-add_tls :
    (s : Option FileTlsConfig) (c : UciConfig) → instances (add_tls s c) ≡ instances c
unfolding add_tls
instances-add_tls none c = refl
instances-add_tls (some s) c = other_section "tls" "tls" _ c refl

instances-add_mesh :
    (s : Option FileMeshConfig) (c : UciConfig) → instances (add_mesh s c) ≡ instances c
unfolding add_mesh
instances-add_mesh none c = refl
instances-add_mesh (some s) c = other_section "mesh" "mesh" _ c refl

instances-add_ops :
    (s : Option FileOpsConfig) (c : UciConfig) → instances (add_ops s c) ≡ instances c
unfolding add_ops
instances-add_ops none c = refl
instances-add_ops (some s) c = other_section "ops" "ops" _ c refl

instances-add_traffic :
    (s : Option FileTrafficConfig) (c : UciConfig) → instances (add_traffic s c) ≡ instances c
unfolding add_traffic
instances-add_traffic none c = refl
instances-add_traffic (some s) c = other_section "traffic" "traffic" _ c refl

instances-add_external :
    (s : Option FileExternalConfig) (c : UciConfig) → instances (add_external s c) ≡ instances c
unfolding add_external
instances-add_external none c = refl
instances-add_external (some s) c = other_section "external" "external" _ c refl

instances-add_verify :
    (s : Option FileVerifyConfig) (c : UciConfig) → instances (add_verify s c) ≡ instances c
unfolding add_verify
instances-add_verify none c = refl
instances-add_verify (some s) c = other_section "verify" "verify" _ c refl

instances-add_fixed : (f : FileConfig) (c : UciConfig) → instances (add_fixed f c) ≡ instances c
unfolding add_fixed
instances-add_fixed f c =
    instances-add_verify f.verify _
    ∙ instances-add_external f.external _
    ∙ instances-add_traffic f.traffic _
    ∙ instances-add_ops f.ops _
    ∙ instances-add_mesh f.mesh _
    ∙ instances-add_tls f.tls _
    ∙ instances-add_global f.global c

instances-add_section :
    (name : String) (values : Options) (c : UciConfig)
    → instances (add_section "verify_api" name values c)
      ≡ instances c ++ (record { typ = "verify_api"; name = name; values = values } ∷ [])
unfolding add_section sections_of_type
instances-add_section name values c = sections-append c.sections _ "verify_api"

instances-add_verify_api :
    (index : ℕ) (ss : List FileVerifyApiConfig) (c : UciConfig)
    → instances (add_verify_api index ss c) ≡ instances c ++ instance_sections index ss
unfolding add_verify_api instance_sections
instances-add_verify_api index [] c = sym (append-nil (instances c))
instances-add_verify_api index (s ∷ rest) c =
    instances-add_verify_api (index + 1) rest _
    ∙ ap (λ (t : List UciSection). t ++ instance_sections (index + 1) rest)
        (instances-add_section (instance_name index s) (verify_api_options s) c)
    ∙ append_assoc (instances c) _ (instance_sections (index + 1) rest)

-- The section of an instance: its name, or its number where it has none, and its options.
pub record IsInstance (index : ℕ) (s : FileVerifyApiConfig) (section : UciSection) : Type 0 where
  pub typ : section.typ ≡ "verify_api"
  pub named : str_eq s.name "" ≡ false → section.name ≡ s.name
  pub numbered : str_eq s.name "" ≡ true → section.name ≡ "verify_api_" +++ decimal (pos index)
  pub options : HasOptions s section.values

-- One section for each instance, in order.
abbrev pub AreInstances : ℕ → List FileVerifyApiConfig → List UciSection → Type 0
AreInstances index [] [] = Unit
AreInstances index [] (c ∷ cs) = ⊥
AreInstances index (s ∷ ss) [] = ⊥
AreInstances index (s ∷ ss) (c ∷ cs) = IsInstance index s c × AreInstances (index + 1) ss cs

instance_sections-AreInstances :
    (index : ℕ) (ss : List FileVerifyApiConfig) → AreInstances index ss (instance_sections index ss)
unfolding instance_sections instance_name
instance_sections-AreInstances index [] = tt
instance_sections-AreInstances index (s ∷ ss) = (
  record {
    typ = refl;
    named = λ q. rw q refl;
    numbered = λ q. rw q refl;
    options = verify_api_options-HasOptions s;
  },
  instance_sections-AreInstances (index + 1) ss,
)

sections-to_uci_config :
    (f : FileConfig)
    → sections_of_type (to_uci_config (some f)).sections "verify_api"
      ≡ instance_sections 1 f.verify_api
unfolding to_uci_config sections_of_type
sections-to_uci_config f =
    instances-add_verify_api 1 f.verify_api (add_fixed f empty_uci)
    ∙ ap (λ (t : List UciSection). t ++ instance_sections 1 f.verify_api)
        (instances-add_fixed f empty_uci)

-- The API sections that applyUCIConfig reads are one for each of the file's instances, in order: each
-- is named by the instance, or by its number where the instance has no name, and gives each of the
-- fourteen options the value that the instance gives it, or none where it gives none, whatever the
-- names of the others are.
pub instances-to_uci_config :
    (f : FileConfig)
    → AreInstances 1 f.verify_api (sections_of_type (to_uci_config (some f)).sections "verify_api")
instances-to_uci_config f =
    subst (AreInstances 1 f.verify_api) (sym (sections-to_uci_config f))
      (instance_sections-AreInstances 1 f.verify_api)
