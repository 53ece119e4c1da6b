-- ===== src/Devices/Admission.antt =====
-- Admission while the API fails: what was synced last counts until its time is over.
use tailscale_derp.Base.{
  ℕ, ◌+◌, ◌≡◌, ◌≤◌, ◌<◌, refl, sym, ap, subst, ◌∙◌, arith, inl, inr, String, str_eq, eq_iff,
  eq_refl, Bool, true, false, not, Option, none, some, List, [], ◌∷◌, ◌||◌, if◌then◌else◌, if_elim,
  Bool-cases, find, remove, put, find-remove, find-remove_other, any, All,
}
use tailscale_derp.Derpmap.{ApiConfig}
use tailscale_derp.Derpmap.Sync.{is_configured}
use tailscale_derp.Devices.{
  DeviceCache, DeviceStore, RawDevice, Clock, name_is, cache_entry, record_failure,
  refresh_instance, refresh_each, refresh, is_fresh, entry_admits, allowed,
}

-- Each name stands in the cache once.
abbrev pub IsUnique : List (String × DeviceCache) → Type 0
IsUnique [] = Unit
IsUnique ((k, v) ∷ xs) = (find (name_is k) xs ≡ none) × IsUnique xs

name_apart :
    (a b : String) → str_eq a b ≡ false → (s : String) → str_eq s a ≡ true → str_eq s b ≡ false
name_apart a b h s q = subst (λ x. str_eq x b ≡ false) (sym ((eq_iff s a).0 q)) h

remove-none :
    (is : String → Bool) (xs : List (String × DeviceCache)) → find is xs ≡ none → remove is xs ≡ xs
unfolding find remove
remove-none is [] h = refl
remove-none is ((k, v) ∷ xs) h = elim (Bool-cases (is k)) [
  | inl q ↦ ground (arith, q, h)
  | inr q ↦ simp q (ap (λ ys. (k, v) ∷ ys) (remove-none is xs (simp q at h)))
]

remove-IsUnique :
    (name : String) (xs : List (String × DeviceCache))
    → IsUnique xs
    → IsUnique (remove (name_is name) xs)
unfolding remove
remove-IsUnique name [] h = tt
remove-IsUnique name ((k, v) ∷ xs) h = elim (Bool-cases (str_eq k name)) [
  | inl q ↦ simp q (remove-IsUnique name xs h.1)
  | inr q ↦ simp q (
    find-remove_other (name_is name) (name_is k) xs (name_apart name k (flipped k name q)) ∙ h.0,
    remove-IsUnique name xs h.1,
  )
]
  where
    flipped : (a b : String) → str_eq a b ≡ false → str_eq b a ≡ false
    flipped a b q = elim (Bool-cases (str_eq b a)) [
      | inl r ↦
          absurd (differ (subst (λ x. str_eq a x ≡ true) (sym ((eq_iff b a).0 r)) (eq_refl a)) q)
      | inr r ↦ r
    ]
      where
        differ : {c : Bool} → c ≡ true → c ≡ false → ⊥
        differ x y = ground (arith, x, y)

abbrev admits : (DeviceCache → Bool) → Option DeviceCache → Bool
admits p none = false
admits p (some c) = p c

-- A test on the entries alone: the named entry, and the others.
any-remove :
    (p : DeviceCache → Bool) (name : String) (xs : List (String × DeviceCache))
    → IsUnique xs
    → any xs (λ e. p e.1)
      ≡ (admits p (find (name_is name) xs) || any (remove (name_is name) xs) (λ e. p e.1))
unfolding find remove
any-remove p name [] h = refl
any-remove p name ((k, v) ∷ xs) h = elim (Bool-cases (str_eq k name)) [
  | inl q ↦
      simp
        (
          q,
          remove-none (name_is name) xs
              (subst (λ x. find (name_is x) xs ≡ none) ((eq_iff k name).0 q) h.0),
        )
        refl
  | inr q ↦ simp q (ground (arith, any-remove p name xs h.1))
]

any-put :
    (p : DeviceCache → Bool) (name : String) (c : DeviceCache) (xs : List (String × DeviceCache))
    → IsUnique xs
    → p c ≡ admits p (find (name_is name) xs)
    → any (put (name_is name) name c xs) (λ e. p e.1) ≡ any xs (λ e. p e.1)
unfolding put
any-put p name c xs h q = ground (arith, q, any-remove p name xs h)

same_admission :
    (clock : Clock) (ttl : ℕ) (key : String) (now at : ℕ) (why : String) (o : Option DeviceCache)
    → entry_admits clock ttl key now ("", record (cache_entry o) { last_attempt = at; err = why })
      ≡ admits (λ c. entry_admits clock ttl key now ("", c)) o
unfolding entry_admits cache_entry is_fresh
same_admission clock ttl key now at why none = refl
same_admission clock ttl key now at why (some c) = refl

-- An operation that keeps who is admitted, and when.
pub record SameAdmission (clock : Clock) (s s' : DeviceStore) : Type 0 where
  pub unique : IsUnique s'.cache
  pub same : (key : String) (now : ℕ) → allowed clock key now s' ≡ allowed clock key now s

record_failure-SameAdmission :
    (clock : Clock) (at : ℕ) (name why : String) (s : DeviceStore)
    → IsUnique s.cache
    → SameAdmission clock s (record_failure at name why s)
unfolding record_failure allowed entry_admits put
record_failure-SameAdmission clock at name why s h = record {
  unique = (find-remove (name_is name) s.cache, remove-IsUnique name s.cache h);
  same = λ key now.
      any-put (λ c. entry_admits clock s.ttl key now ("", c)) name
        (record (cache_entry (find (name_is name) s.cache)) { last_attempt = at; err = why })
        s.cache h (same_admission clock s.ttl key now at why (find (name_is name) s.cache));
}

SameAdmission-trans :
    (clock : Clock) (a b c : DeviceStore)
    → SameAdmission clock a b
    → SameAdmission clock b c
    → SameAdmission clock a c
SameAdmission-trans clock a b c h k = record {
  unique = k.unique;
  same = λ key now. k.same key now ∙ h.same key now;
}

refresh_instance-SameAdmission :
    (clock : Clock) (at : ℕ) (c : ApiConfig) (o : Option (List RawDevice)) (s : DeviceStore)
    → o ≡ none
    → IsUnique s.cache
    → SameAdmission clock s (refresh_instance clock at c o s)
unfolding refresh_instance
refresh_instance-SameAdmission clock at c none s q h =
    record_failure-SameAdmission clock at c.name _ s h
refresh_instance-SameAdmission clock at c (some raw) s q h = ground (arith, q)

refresh_each-SameAdmission :
    (clock : Clock) (list : ApiConfig → ℕ × Option (List RawDevice)) (cs : List ApiConfig)
    (s : DeviceStore)
    → ((c : ApiConfig) → (list c).1 ≡ none)
    → IsUnique s.cache
    → SameAdmission clock s (refresh_each clock list cs s)
unfolding refresh_each
refresh_each-SameAdmission clock list [] s down h = record { unique = h; same = λ key now. refl }
refresh_each-SameAdmission clock list (c ∷ cs) s down h =
    let why : String = "tailnet and selected API credentials are required" in
    let s' =
      if not (is_configured c)
      then record_failure (list c).0 c.name why s
      else refresh_instance clock (list c).0 c (list c).1 s in
    let first : SameAdmission clock s s' =
      if_elim (SameAdmission clock s) (not (is_configured c))
        (record_failure (list c).0 c.name why s) (refresh_instance clock (list c).0 c (list c).1 s)
        (λ _. record_failure-SameAdmission clock (list c).0 c.name why s h)
        (λ _. refresh_instance-SameAdmission clock (list c).0 c (list c).1 s (down c) h) in
    SameAdmission-trans clock s s' (refresh_each clock list cs s') first
      (refresh_each-SameAdmission clock list cs s' down first.unique)

-- A refresh in which the API gives no devices, on a cache with distinct names, keeps the names
-- distinct and admits whom the cache admitted before, at any time.
pub refresh-SameAdmission :
    (clock : Clock) (list : ApiConfig → ℕ × Option (List RawDevice)) (s : DeviceStore)
    → ((c : ApiConfig) → (list c).1 ≡ none)
    → IsUnique s.cache
    → SameAdmission clock s (refresh clock list s)
unfolding refresh
refresh-SameAdmission clock list s down h = refresh_each-SameAdmission clock list s.configs s down h

abbrev pub IsSyncedBy : ℕ → String × DeviceCache → Type 0
IsSyncedBy t e = e.1.last_success ≤ t

stale_admits :
    (clock : Clock) (key : String) (ttl t now : ℕ) (xs : List (String × DeviceCache))
    → t + ttl < now
    → All (IsSyncedBy t) xs
    → any xs (entry_admits clock ttl key now) ≡ false
unfolding entry_admits is_fresh
stale_admits clock key ttl t now [] h k = refl
stale_admits clock key ttl t now ((name, c) ∷ xs) h k =
    ground (arith, k.0, h, stale_admits clock key ttl t now xs h k.1)

-- After a refresh in which the API gives no devices, on a cache with distinct names, nobody is
-- admitted once the time to live has passed since each last success.
pub refresh-allowed :
    (clock : Clock) (list : ApiConfig → ℕ × Option (List RawDevice)) (s : DeviceStore)
    (key : String) (t now : ℕ)
    → ((c : ApiConfig) → (list c).1 ≡ none)
    → IsUnique s.cache
    → All (IsSyncedBy t) s.cache
    → t + s.ttl < now
    → allowed clock key now (refresh clock list s) ≡ false
unfolding allowed
refresh-allowed clock list s key t now down h k q =
    (refresh-SameAdmission clock list s down h).same key now
    ∙ stale_admits clock key s.ttl t now s.cache q k
