-- ===== src/Devices/Management/Effects.antt =====
-- internal/ops/device_management.go: what a call without error makes of the cache, and the status of one
-- that fails, each said on its own.
use tailscale_derp.Base.{
  ℕ, ◌≡◌, ◌≢◌, refl, sym, ap, ◌==◌, String, str_eq, eq_iff, eq_refl, subst, true, false, Option,
  none, some, List, [], ◌∷◌, ◌++◌, ◌⊎◌, inl, inr, if◌then◌else◌, Bool-cases, find, find-put,
  find-put_other, arith,
}
use tailscale_derp.Portmap.Address.{Addr}
use tailscale_derp.Devices.{Device, DeviceCache, DeviceStore, name_is}
use tailscale_derp.Devices.Management.{
  Action, set_authorized, set_key, set_name, set_ipv4, set_tags, set_subnet_routes, delete, expire,
  get_routes, get_attributes, set_attribute, delete_attribute, Call, Failure, unknown, unconfigured,
  api_error, other, Api, settle, update_device, remove_device, change_entry, update_cached_device,
  remove_cached_device, update_cached_ipv4, replace_ipv4, is_4_text,
}
use tailscale_derp.Devices.Management.Handlers.{write_tailscale_api_error}

-- The status that answers a failure: an API error has its own, but a conflict for a failed condition.
abbrev pub StatusOf : Failure → ℕ → Type 0
StatusOf unknown n = n ≡ 404
StatusOf unconfigured n = n ≡ 503
StatusOf (other why) n = n ≡ 502
StatusOf (api_error s m) n = ((s ≡ 412) × (n ≡ 409)) ⊎ ((s ≢ 412) × (n ≡ s))

pub write_tailscale_api_error-StatusOf :
    (f : Failure) → StatusOf f (write_tailscale_api_error f).status
unfolding write_tailscale_api_error
write_tailscale_api_error-StatusOf unknown = refl
write_tailscale_api_error-StatusOf unconfigured = refl
write_tailscale_api_error-StatusOf (other why) = refl
write_tailscale_api_error-StatusOf (api_error s m) = elim (Bool-cases (s == 412)) [
  | inl q ↦ inl (ground (arith, q), rw q refl)
  | inr q ↦ inr (λ e. ground (arith, q, e), rw q refl)
]

-- The first device of an ID changes by `R`, and nothing else does.
pub data FirstChanged (R : Device → Device → Type 0) (id : String)
    : List (String × Device) → List (String × Device) → Type 0 where
  no_device : FirstChanged R id [] []
  changed :
      (k : String) (d e : Device) (rest : List (String × Device))
      → str_eq d.node_id id ≡ true
      → R d e
      → FirstChanged R id ((k, d) ∷ rest) ((k, e) ∷ rest)
  kept :
      (k : String) (d : Device) (xs ys : List (String × Device))
      → str_eq d.node_id id ≡ false
      → FirstChanged R id xs ys
      → FirstChanged R id ((k, d) ∷ xs) ((k, d) ∷ ys)

-- The first device of an ID is gone, and nothing else is.
pub data FirstGone (id : String) : List (String × Device) → List (String × Device) → Type 0 where
  no_device : FirstGone id [] []
  dropped :
      (k : String) (d : Device) (rest : List (String × Device))
      → str_eq d.node_id id ≡ true
      → FirstGone id ((k, d) ∷ rest) rest
  kept :
      (k : String) (d : Device) (xs ys : List (String × Device))
      → str_eq d.node_id id ≡ false
      → FirstGone id xs ys
      → FirstGone id ((k, d) ∷ xs) ((k, d) ∷ ys)

-- The addresses that are not IPv4.
abbrev pub others : (String → Option Addr) → List String → List String
others parse [] = []
others parse (a ∷ rest) = if is_4_text (parse a) then others parse rest else a ∷ others parse rest

-- The other addresses in their order, with this one among them.
pub record WithIpv4 (parse : String → Option Addr) (ipv4 : String) (old new : List String)
    : Type 0 where
  pub before : List String
  pub after : List String
  pub placed : new ≡ before ++ (ipv4 ∷ after)
  pub rest : before ++ after ≡ others parse old

-- What a call without error makes of an entry's devices.
abbrev pub Follows :
    (String → Option Addr)
    → Action
    → String
    → String
    → List (String × Device)
    → List (String × Device)
    → Type 0
Follows parse (set_authorized b) now id = FirstChanged (λ d e. e ≡ record d { authorized = b }) id
Follows parse (set_key b) now id = FirstChanged (λ d e. e ≡ record d { key_expiry_disabled = b }) id
Follows parse (set_name n) now id = FirstChanged (λ d e. e ≡ record d { name = n }) id
Follows parse (set_tags ts) now id = FirstChanged (λ d e. e ≡ record d { tags = ts }) id
Follows parse expire now id = FirstChanged (λ d e. e ≡ record d { expires = now }) id
Follows parse (set_ipv4 a) now id =
    FirstChanged
      (λ d e. (e ≡ record d { addresses = e.addresses }) × WithIpv4 parse a d.addresses e.addresses)
      id
Follows parse delete now id = FirstGone id
Follows parse get_routes now id = λ xs ys. ys ≡ xs
Follows parse get_attributes now id = λ xs ys. ys ≡ xs
Follows parse (set_subnet_routes rs) now id = λ xs ys. ys ≡ xs
Follows parse (set_attribute k v t m) now id = λ xs ys. ys ≡ xs
Follows parse (delete_attribute k) now id = λ xs ys. ys ≡ xs

-- The entry of the call's instance has the devices that follow; the other entries, and the rest of the
-- store, are as they were. Without an entry nothing changes.
abbrev pub EntryFollows :
    (List (String × Device) → List (String × Device) → Type 0)
    → String
    → Option DeviceCache
    → DeviceStore
    → DeviceStore
    → Type 0
EntryFollows F name none s s' = s' ≡ s
EntryFollows F name (some e) s s' =
    (s' ≡ record s { cache = s'.cache })
    × ((name' : String)
        → str_eq name name' ≡ false
        → find (name_is name') s'.cache ≡ find (name_is name') s.cache)
    × ((devices : List (String × Device)) × (F e.devices devices
          × (find (name_is name) s'.cache ≡ some (record e { devices = devices }))))

abbrev pub CacheFollows : Api → Call → Action → String → DeviceStore → DeviceStore → Type 0
CacheFollows api c a now s s' =
    EntryFollows (Follows api.parse_addr a now c.device_id) c.instance_name
      (find (name_is c.instance_name) s.cache) s s'

update_device-FirstChanged :
    (R : Device → Device → Type 0) (f : Device → Device) (id : String)
    → ((d : Device) → R d (f d))
    → (xs : List (String × Device)) → FirstChanged R id xs (update_device f id xs)
unfolding update_device
update_device-FirstChanged R f id h [] = FirstChanged.no_device
update_device-FirstChanged R f id h ((k, d) ∷ xs) = elim (Bool-cases (str_eq d.node_id id)) [
  | inl q ↦ rw q (changed k d (f d) xs q (h d))
  | inr q ↦ rw q (FirstChanged.kept k d xs _ q (update_device-FirstChanged R f id h xs))
]

remove_device-FirstGone :
    (id : String) (xs : List (String × Device)) → FirstGone id xs (remove_device id xs)
unfolding remove_device
remove_device-FirstGone id [] = FirstGone.no_device
remove_device-FirstGone id ((k, d) ∷ xs) = elim (Bool-cases (str_eq d.node_id id)) [
  | inl q ↦ rw q (dropped k d xs q)
  | inr q ↦ rw q (FirstGone.kept k d xs _ q (remove_device-FirstGone id xs))
]

replace-others :
    (parse : String → Option Addr) (ipv4 : String) (xs : List String)
    → replace_ipv4 parse ipv4 true xs ≡ others parse xs
unfolding replace_ipv4
replace-others parse ipv4 [] = refl
replace-others parse ipv4 (a ∷ xs) = elim (Bool-cases (is_4_text (parse a))) [
  | inl q ↦ rw q (replace-others parse ipv4 xs)
  | inr q ↦ rw q (ap (λ (ys : List String). a ∷ ys) (replace-others parse ipv4 xs))
]

replace-WithIpv4 :
    (parse : String → Option Addr) (ipv4 : String) (xs : List String)
    → WithIpv4 parse ipv4 xs (replace_ipv4 parse ipv4 false xs)
unfolding replace_ipv4
replace-WithIpv4 parse ipv4 [] = record { before = []; after = []; placed = refl; rest = refl }
replace-WithIpv4 parse ipv4 (a ∷ xs) = elim (Bool-cases (is_4_text (parse a))) [
  | inl q ↦ record {
    before = [];
    after = replace_ipv4 parse ipv4 true xs;
    placed = rw q refl;
    rest = rw q (replace-others parse ipv4 xs);
  }
  | inr q ↦
      let r = replace-WithIpv4 parse ipv4 xs in
      record {
        before = a ∷ r.before;
        after = r.after;
        placed = rw q (ap (λ (ys : List String). a ∷ ys) r.placed);
        rest = rw q (ap (λ (ys : List String). a ∷ ys) r.rest);
      }
]

apart :
    (name name' : String)
    → str_eq name name' ≡ false
    → (k : String) → str_eq k name ≡ true
    → str_eq k name' ≡ false
apart name name' p k q =
    subst (λ (s : String). str_eq s name' ≡ false) (sym ((eq_iff k name).0 q)) p

change_entry-EntryFollows :
    (F : List (String × Device) → List (String × Device) → Type 0)
    (f : List (String × Device) → List (String × Device)) (name : String) (o : Option DeviceCache)
    (s : DeviceStore)
    → ((xs : List (String × Device)) → F xs (f xs))
    → EntryFollows F name o s (change_entry f name o s)
unfolding change_entry
change_entry-EntryFollows F f name none s h = refl
change_entry-EntryFollows F f name (some e) s h = (
  refl,
  λ name' p.
      find-put_other (name_is name) (name_is name') name (record e { devices = f e.devices })
        s.cache (apart name name' p) (eq_refl name),
  (
    f e.devices,
    (
      h e.devices,
      find-put (name_is name) name (record e { devices = f e.devices }) s.cache (eq_refl name),
    ),
  ),
)

same-EntryFollows :
    (name : String) (o : Option DeviceCache) (s : DeviceStore)
    → find (name_is name) s.cache ≡ o
    → EntryFollows (λ xs ys. ys ≡ xs) name o s s
same-EntryFollows name none s h = refl
same-EntryFollows name (some e) s h = (refl, λ name' p. refl, (e.devices, (refl, h)))

module _ (api : Api) (c : Call) (now : String) (s : DeviceStore) where
  updates :
      (R : Device → Device → Type 0) (f : Device → Device)
      → ((d : Device) → R d (f d))
      → EntryFollows
          (FirstChanged R c.device_id)
          c.instance_name
          (find (name_is c.instance_name) s.cache)
          s
          (update_cached_device c.instance_name c.device_id f s)
  unfolding update_cached_device
  updates R f h =
      change_entry-EntryFollows _ (update_device f c.device_id) c.instance_name _ s
        (update_device-FirstChanged R f c.device_id h)

  pub settle-CacheFollows : (a : Action) → CacheFollows api c a now s (settle api c a now s)
  unfolding settle remove_cached_device update_cached_ipv4
  settle-CacheFollows (set_authorized b) = updates _ _ (λ d. refl)
  settle-CacheFollows (set_key b) = updates _ _ (λ d. refl)
  settle-CacheFollows (set_name n) = updates _ _ (λ d. refl)
  settle-CacheFollows (set_tags ts) = updates _ _ (λ d. refl)
  settle-CacheFollows expire = updates _ _ (λ d. refl)
  settle-CacheFollows (set_ipv4 a) =
      updates _ (λ d. record d { addresses = replace_ipv4 api.parse_addr a false d.addresses })
        (λ d. (refl, replace-WithIpv4 api.parse_addr a d.addresses))
  settle-CacheFollows delete =
      change_entry-EntryFollows _ (remove_device c.device_id) c.instance_name _ s
        (remove_device-FirstGone c.device_id)
  settle-CacheFollows get_routes = same-EntryFollows c.instance_name _ s refl
  settle-CacheFollows get_attributes = same-EntryFollows c.instance_name _ s refl
  settle-CacheFollows (set_subnet_routes rs) = same-EntryFollows c.instance_name _ s refl
  settle-CacheFollows (set_attribute k v t m) = same-EntryFollows c.instance_name _ s refl
  settle-CacheFollows (delete_attribute k) = same-EntryFollows c.instance_name _ s refl
