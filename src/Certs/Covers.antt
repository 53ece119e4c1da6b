-- ===== src/Certs/Covers.antt =====
-- internal/cert/manager.go: the certificate in use has the names that it should have.
use tailscale_derp.Base.{
  ℕ, any, All, ◌∙◌, ◌+◌, ◌<◌, ◌≡◌, refl, sym, String, eq_iff, eq_refl, Bool, true, false, Option,
  none, some, List, [], ◌∷◌, ◌&&◌, ◌⊎◌, inl, inr, if◌then◌else◌, Bool-cases, arith, subst,
}
use tailscale_derp.Portmap.Wire.{same_bytes, same_bytes_refl}
use tailscale_derp.Certs.Names.{
  normalize_names, same_names, contains_names, same_string_slice, listed,
}
use tailscale_derp.Certs.{
  Certificate, Manager, Directory, Host, Updated, renew_before, lasts, set_current, make_error,
  generate, load_existing, made, replace, certificate_names, update_locked, update_endpoint_ips,
  is_set, add_name, add_names, actual_names,
}

abbrev pub has_bytes : List ℕ → List (List ℕ) → Bool
has_bytes b bs = any bs (λ c. same_bytes c b)

-- A name is one of the certificate's: an address among its IP addresses, another among its DNS names.
abbrev pub Holds : Certificate → String → Option (List ℕ) → Type 0
Holds c n none = listed n c.dns_names ≡ true
Holds c n (some b) = has_bytes b c.ip_addresses ≡ true

-- A certificate for names: it holds each, or the names that are read back from it have the same normal
-- forms.
abbrev pub For : Host → List String → Certificate → Type 0
For host names c =
    All (λ n. Holds c n (host.address_bytes n)) names
    ⊎ (same_names host.parse_addr (actual_names host c) names ≡ true)

-- A certificate for the manager's names and endpoints; or one from which the manager's names are read
-- back, where there are no endpoints.
abbrev pub Covers : Host → List String → List String → Certificate → Type 0
Covers host base endpoints c =
    For host (certificate_names host base endpoints) c
    ⊎ ((endpoints ≡ []) × (contains_names host.parse_addr (actual_names host c) base ≡ true))

pub record IsCovering (host : Host) (m : Manager) : Type 0 where
  pub certificate : Certificate
  pub is_current : m.current ≡ some certificate
  pub ends : m.valid_to ≡ certificate.not_after
  pub covers : Covers host m.base_names m.endpoints certificate

-- What an update to these endpoints leaves: the manager as it was, after an error; or a certificate
-- for them that is not due for renewal.
abbrev pub Renewed : Host → ℕ → List String → Manager → Updated → Type 0
Renewed host now endpoints m (some e, m') = m' ≡ m
Renewed host now endpoints m (none, m') =
    IsCovering host m'
    × (m'.endpoints ≡ endpoints)
    × (m'.base_names ≡ m.base_names)
    × (lasts now m'.valid_to ≡ true)

same_slice-eq : (xs ys : List String) → same_string_slice xs ys ≡ true → xs ≡ ys
unfolding same_string_slice
same_slice-eq [] [] h = refl
same_slice-eq [] (y ∷ ys) h = ground (arith, h)
same_slice-eq (x ∷ xs) [] h = ground (arith, h)
same_slice-eq (x ∷ xs) (y ∷ ys) h = ground (arith, h, eq_iff x y, same_slice-eq xs ys)

kept_certificate : (b : Bool) (d c : Certificate) → (if b then none else some d) ≡ some c → d ≡ c
kept_certificate true d c h = absurd (ground (arith, h))
kept_certificate false d c h = cc

added-Holds :
    (n m : String) (b : Option (List ℕ)) (c : Certificate) (o : Option (List ℕ))
    → Holds c m o
    → Holds (add_name n b c) m o
added-Holds n m none c none h = ground (arith, h)
added-Holds n m none c (some a) h = h
added-Holds n m (some b) c none h = h
added-Holds n m (some b) c (some a) h = ground (arith, h)

new-Holds : (n : String) (b : Option (List ℕ)) (c : Certificate) → Holds (add_name n b c) n b
new-Holds n none c = ground (arith, eq_refl n)
new-Holds n (some b) c = ground (arith, same_bytes_refl b)

all-added :
    (host : Host) (n : String) (b : Option (List ℕ)) (c : Certificate) (ns : List String)
    → All (λ m. Holds c m (host.address_bytes m)) ns
    → All (λ m. Holds (add_name n b c) m (host.address_bytes m)) ns
all-added host n b c [] h = tt
all-added host n b c (m ∷ ns) (h, hs) =
    (added-Holds n m b c (host.address_bytes m) h, all-added host n b c ns hs)

add_names-Holds :
    (host : Host) (ns : List String) (c : Certificate)
    → All (λ n. Holds (add_names host ns c) n (host.address_bytes n)) ns
unfolding add_names
add_names-Holds host [] c = tt
add_names-Holds host (n ∷ ns) c = (
  new-Holds n (host.address_bytes n) (add_names host ns c),
  all-added host n (host.address_bytes n) (add_names host ns c) ns (add_names-Holds host ns c),
)

added-end :
    (n : String) (b : Option (List ℕ)) (c : Certificate) → (add_name n b c).not_after ≡ c.not_after
added-end n none c = refl
added-end n (some b) c = refl

add_names-end :
    (host : Host) (ns : List String) (c : Certificate)
    → (add_names host ns c).not_after ≡ c.not_after
unfolding add_names
add_names-end host [] c = refl
add_names-end host (n ∷ ns) c =
    added-end n (host.address_bytes n) (add_names host ns c) ∙ add_names-end host ns c

module _ (host : Host) (years : (n : ℕ) → n + renew_before < host.add_year n) (now : ℕ) where
  set-Renewed :
      (endpoints : List String) (c : Certificate) (m : Manager)
      → lasts now c.not_after ≡ true
      → Covers host m.base_names endpoints c
      → Renewed host now endpoints m (none, set_current c endpoints m)
  unfolding set_current
  set-Renewed endpoints c m l h =
      (record { certificate = c; is_current = refl; ends = refl; covers = h }, refl, refl, l)

  lasts_year : lasts now (host.add_year now) ≡ true
  lasts_year = ground (arith, years now)

  generate-lasts : (names : List String) → lasts now (generate host now names).not_after ≡ true
  unfolding generate
  generate-lasts names =
      rw
        (add_names-end host names
          record { dns_names = []; ip_addresses = []; not_after = host.add_year now })
        lasts_year

  generate-Holds :
      (names : List String)
      → All (λ n. Holds (generate host now names) n (host.address_bytes n)) names
  unfolding generate
  generate-Holds names = add_names-Holds host names _

  made-Renewed :
      (endpoints : List String) (e : Option String) (m : Manager)
      → Renewed host now endpoints m
          (made host now (certificate_names host m.base_names endpoints) endpoints e m)
  unfolding made
  made-Renewed endpoints (some e) m = refl
  made-Renewed endpoints none m =
      let names = certificate_names host m.base_names endpoints in
      set-Renewed endpoints (generate host now names) m (generate-lasts names)
        (inl (inl (generate-Holds names)))

  -- A certificate that loads has the names that were asked for.
  load_existing-same :
      (names : List String) (o : Option Certificate) (c : Certificate)
      → load_existing host now names o ≡ some c
      → same_names host.parse_addr (actual_names host c) names ≡ true
  unfolding load_existing
  load_existing-same names none c h = absurd (ground (arith, h))
  load_existing-same names (some d) c h =
      elim (Bool-cases (same_names host.parse_addr (actual_names host d) names)) [
        | inl q ↦
            subst
              (λ (e : Certificate). same_names host.parse_addr (actual_names host e) names ≡ true)
              (kept_certificate _ d c h) q
        | inr q ↦ absurd (ground (arith, simp q at h))
      ]

  replace-Renewed :
      (d : Directory) (endpoints : List String) (o : Option Certificate) (m : Manager)
      → ((c : Certificate)
          → o ≡ some c
          → same_names host.parse_addr
              (actual_names host c)
              (certificate_names host m.base_names endpoints)
            ≡ true)
      → Renewed host now endpoints m
          (replace host d now (certificate_names host m.base_names endpoints) endpoints o m)
  unfolding replace
  replace-Renewed d endpoints none m h = made-Renewed endpoints (make_error d) m
  replace-Renewed d endpoints (some c) m h = elim (Bool-cases (lasts now c.not_after)) [
    | inl q ↦ rw q (set-Renewed endpoints c m q (inl (inr (h c refl))))
    | inr q ↦ rw q (made-Renewed endpoints (make_error d) m)
  ]

  pub update_locked-Renewed :
      (d : Directory) (endpoints : List String) (m : Manager)
      → Renewed host now endpoints m (update_locked host d now endpoints m)
  unfolding update_locked
  update_locked-Renewed d endpoints m =
      replace-Renewed d endpoints _ m
        (load_existing-same (certificate_names host m.base_names endpoints) d.certificate)

  all_three : (a b c : Bool) → (a && b && c) ≡ true → (a ≡ true) × (c ≡ true)
  all_three a b c h = ground (arith, h)

  pub update-Renewed :
      (d : Directory) (ips : List String) (m : Manager)
      → IsCovering host m
      → Renewed host now
          (normalize_names host.parse_addr ips)
          m
          (update_endpoint_ips host d now ips m)
  unfolding update_endpoint_ips
  update-Renewed d ips m h =
      let wanted = normalize_names host.parse_addr ips in
      elim (Bool-cases
        (same_string_slice wanted m.endpoints && is_set m.current && lasts now m.valid_to)) [
          | inl q ↦
              let (a, b) = all_three _ _ _ q in
              rw q (h, sym (same_slice-eq wanted m.endpoints a), refl, b)
          | inr q ↦ rw q (update_locked-Renewed d wanted m)
        ]
