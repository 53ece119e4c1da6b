-- ===== src/Devices/Management/Cache.antt =====
-- internal/ops/device_management.go: a device that is deleted, or no longer authorized, is not
-- admitted by the instance's entry of the cache, without waiting for the next sync.
use tailscale_derp.Base.{
  ℕ, ◌≡◌, refl, String, str_eq, eq_refl, Bool, true, false, Option, none, some, List, [], ◌∷◌, ◌⊎◌,
  inl, inr, Bool-cases, All, arith, ◌∙◌, sym, ap, subst, find, find-put,
}
use tailscale_derp.Derpmap.Sync.{
  Instance, missing, instance_at, unknown_instance, unconfigured_instance, unreadable, cancelled,
  too_many_conflicts, unpatched, refused,
}
use tailscale_derp.Devices.{Device, DeviceCache, DeviceStore, Clock, name_is, device_admits}
use tailscale_derp.Devices.Management.{
  Action, set_authorized, delete, Call, Failure, Api, World, update_device, remove_device,
  change_entry, update_cached_device, remove_cached_device, settle, answered, at_instance, perform,
}

-- The keys of a map differ, and the device of this ID has this key only.
abbrev pub IsUnique : List (String × Device) → Type 0
IsUnique [] = Unit
IsUnique ((k, d) ∷ xs) = (find (name_is k) xs ≡ none) × IsUnique xs

abbrev pub OnlyAt : String → String → List (String × Device) → Type 0
OnlyAt id key xs = All (λ x. (str_eq x.1.node_id id ≡ false) ⊎ (x.0 ≡ key)) xs

both_ways : (b : Bool) → b ≡ true → b ≡ false → ⊥
both_ways b h k = ground arith

some-eq : (a b : Device) → some a ≡ some b → a ≡ b
some-eq a b h = cc

module _ (id key : String) where
  find-remove_device :
      (d : Device) (xs : List (String × Device))
      → IsUnique xs
      → OnlyAt id key xs
      → find (name_is key) xs ≡ some d
      → str_eq d.node_id id ≡ true
      → find (name_is key) (remove_device id xs) ≡ none
  unfolding find remove_device
  find-remove_device d [] u o f h = refl
  find-remove_device d ((k, e) ∷ xs) u (o, os) f h = elim (Bool-cases (str_eq e.node_id id)) [
    | inl q ↦ rw q (elim o [
      | inl r ↦ absurd (both_ways _ q r)
      | inr r ↦ subst (λ (s : String). find (name_is s) xs ≡ none) r u.0
    ])
    | inr q ↦ rw q (elim (Bool-cases (str_eq k key)) [
      | inl p ↦ absurd (
          both_ways _ h
            (ap (λ (x : Device). str_eq x.node_id id) (sym (some-eq e d (simp p at f))) ∙ q))
      | inr p ↦ simp p (find-remove_device d xs u.1 os (simp p at f) h)
    ])
  ]

  find-update_device :
      (g : Device → Device) (d : Device) (xs : List (String × Device))
      → OnlyAt id key xs
      → find (name_is key) xs ≡ some d
      → str_eq d.node_id id ≡ true
      → find (name_is key) (update_device g id xs) ≡ some (g d)
  unfolding find update_device
  find-update_device g d [] o f h = ground arith
  find-update_device g d ((k, e) ∷ xs) (o, os) f h = elim (Bool-cases (str_eq e.node_id id)) [
    | inl q ↦ rw q (elim o [
      | inl r ↦ absurd (both_ways _ q r)
      | inr r ↦
          let p : str_eq k key ≡ true = subst (λ (s : String). str_eq k s ≡ true) r (eq_refl k) in
          simp p (ap (λ (x : Device). some (g x)) (some-eq e d (simp p at f)))
    ])
    | inr q ↦ rw q (elim (Bool-cases (str_eq k key)) [
      | inl p ↦ absurd (
          both_ways _ h
            (ap (λ (x : Device). str_eq x.node_id id) (sym (some-eq e d (simp p at f))) ∙ q))
      | inr p ↦ simp p (find-update_device g d xs os (simp p at f) h)
    ])
  ]

-- An action that takes a device's admission away.
pub data Revokes : Action → Type 0 where
  by_deletion : Revokes delete
  by_authorization : Revokes (set_authorized false)

module _ (clock : Clock) (now : ℕ) (key : String) where
  -- The instance's entry does not admit the key.
  abbrev pub Refuses : String → DeviceStore → Type 0
  Refuses name s =
      (e : DeviceCache) × (find (name_is name) s.cache ≡ some e)
      × (device_admits clock now (find (name_is key) e.devices) ≡ false)

  changed-Refuses :
      (f : List (String × Device) → List (String × Device)) (name : String) (e : DeviceCache)
      (s : DeviceStore)
      → device_admits clock now (find (name_is key) (f e.devices)) ≡ false
      → Refuses name (change_entry f name (some e) s)
  unfolding change_entry
  changed-Refuses f name e s h = (
    record e { devices = f e.devices },
    find-put (name_is name) name (record e { devices = f e.devices }) s.cache (eq_refl name),
    h,
  )

  module _ (api : Api) (id name : String) (d : Device) (e : DeviceCache) (s : DeviceStore)
      (at_name : find (name_is name) s.cache ≡ some e) (unique : IsUnique e.devices)
      (only : OnlyAt id key e.devices) (at_key : find (name_is key) e.devices ≡ some d)
      (is_id : str_eq d.node_id id ≡ true) where
    settle-Refuses :
        (a : Action) (text : String)
        → Revokes a
        → Refuses name
            (settle api record { instance_name = name; device_id = id; action = a } a text s)
    unfolding settle update_cached_device remove_cached_device
    settle-Refuses _ text by_deletion = rw at_name (
        changed-Refuses (remove_device id) name e s
          (rw (find-remove_device id key d e.devices unique only at_key is_id) refl))
    settle-Refuses _ text by_authorization = rw at_name (
        changed-Refuses (update_device (λ x. record x { authorized = false }) id) name e s (
          rw
            (find-update_device id key (λ x. record x { authorized = false }) d e.devices only
              at_key is_id)
            refl))

some_none : {A : Type 0} (f : Failure) → some f ≡ none → A
some_none f h = absurd (ground (arith, h))

module _ (clock : Clock) (now : ℕ) (key : String) (api : Api) (a : Action) (id name : String) where
  abbrev the_call : Call
  the_call = record { instance_name = name; device_id = id; action = a }

  answered-Refuses :
      (o : Option Failure) (w : World)
      → (answered api the_call o w).0 ≡ none
      → ((text : String) → Refuses clock now key name (settle api the_call a text w.store))
      → Refuses clock now key name (answered api the_call o w).1.store
  unfolding answered
  answered-Refuses none w h f = f _
  answered-Refuses (some x) w h f = some_none x h

  at_instance-Refuses :
      (i : Instance) (w : World)
      → (at_instance api i the_call w).0 ≡ none
      → ((text : String) → Refuses clock now key name (settle api the_call a text w.store))
      → Refuses clock now key name (at_instance api i the_call w).1.store
  unfolding at_instance
  at_instance-Refuses (instance_at cfg) w h f = answered-Refuses _ w h f
  at_instance-Refuses (missing unknown_instance) w h f = some_none _ h
  at_instance-Refuses (missing unconfigured_instance) w h f = some_none _ h
  at_instance-Refuses (missing too_many_conflicts) w h f = some_none _ h
  at_instance-Refuses (missing (unreadable x)) w h f = some_none _ h
  at_instance-Refuses (missing (cancelled x)) w h f = some_none _ h
  at_instance-Refuses (missing (unpatched x)) w h f = some_none _ h
  at_instance-Refuses (missing (refused x)) w h f = some_none _ h

-- When a call that deletes a device, or takes its authorization away, gives no error, the instance's
-- entry of the cache does not admit the device's key at any time, though no sync has come between; for
-- an entry that holds the device under that key, and no other device of its ID.
pub perform-Refuses :
    (clock : Clock) (now : ℕ) (api : Api) (a : Action) (w : World) (id name key : String)
    (d : Device) (e : DeviceCache)
    → Revokes a
    → find (name_is name) w.store.cache ≡ some e
    → IsUnique e.devices
    → OnlyAt id key e.devices
    → find (name_is key) e.devices ≡ some d
    → str_eq d.node_id id ≡ true
    → (perform api record { instance_name = name; device_id = id; action = a } w).0 ≡ none
    → Refuses clock now key name
        (perform api record { instance_name = name; device_id = id; action = a } w).1.store
unfolding perform
perform-Refuses clock now api a w id name key d e revokes at_name unique only at_key is_id h =
    at_instance-Refuses clock now key api a id name _ w h (λ text.
      settle-Refuses clock now key api id name d e w.store at_name unique only at_key is_id a text
        revokes)
