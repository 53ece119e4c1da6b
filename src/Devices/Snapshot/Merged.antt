-- ===== src/Devices/Snapshot/Merged.antt =====
-- internal/ops/devices.go: the merged list loses no instance's device.
use tailscale_derp.Base.{
  ℕ, ◌≡◌, refl, String, str_eq, eq_iff, eq_refl, Bool, true, false, not, Option, none, some, List,
  [], ◌∷◌, ◌++◌, ◌&&◌, ◌||◌, ◌⊎◌, inl, inr, if◌then◌else◌, Bool-cases, arith, ◌∙◌, sym, ap, subst,
  find, put, any, All, find-put, find-put_other, if_elim,
}
use tailscale_derp.Derpmap.{ApiConfig}
use tailscale_derp.Devices.{
  Device, DeviceOrigin, DeviceCache, DeviceStore, Clock, name_is, cache_entry,
}
use tailscale_derp.Devices.Snapshot.{
  is_in, origin_key, is_blank_origin, origin_keys, append_new_origins, append_unique_origins,
  join_device, merge_devices, merge_entries, only_devices, snapshot,
}

abbrev pub Has : String → List DeviceOrigin → Type 0
Has x os = is_in x (origin_keys os) ≡ true

Has-head :
    (x : String) (o : DeviceOrigin) (os : List DeviceOrigin) → origin_key o ≡ x → Has x (o ∷ os)
unfolding origin_keys
Has-head x o os h = rw h (simp (eq_refl x) refl)

Has-tail : (x : String) (o : DeviceOrigin) (os : List DeviceOrigin) → Has x os → Has x (o ∷ os)
unfolding origin_keys
Has-tail x o os h = ground (arith, h)

Has-append : (x : String) (xs ys : List DeviceOrigin) → Has x xs → Has x (xs ++ ys)
unfolding origin_keys
Has-append x [] ys h = ground (arith, h)
Has-append x (o ∷ xs) ys h = ground (arith, h, Has-append x xs ys)

Has-last : (o : DeviceOrigin) (xs : List DeviceOrigin) → Has (origin_key o) (xs ++ (o ∷ []))
unfolding origin_keys
Has-last o [] = Has-head (origin_key o) o [] refl
Has-last o (x ∷ xs) = Has-tail (origin_key o) x (xs ++ (o ∷ [])) (Has-last o xs)

-- What has been seen stands among the values.
Seen : List DeviceOrigin → List String → Type 0
Seen values seen = (x : String) → is_in x seen ≡ true → Has x values

new-keeps :
    (x : String) (rest values : List DeviceOrigin) (seen : List String)
    → Has x values
    → Has x (append_new_origins values seen rest)
unfolding append_new_origins
new-keeps x [] values seen h = h
new-keeps x (o ∷ rest) values seen h = new-keeps x rest _ _ (
    if_elim (Has x) (not (is_blank_origin o) && not (is_in (origin_key o) seen)) _ _
      (λ q. Has-append x values (o ∷ []) h) (λ q. h))

-- An origin that names an instance and a node is among these.
abbrev pub Shown : List DeviceOrigin → DeviceOrigin → Type 0
Shown os o = (is_blank_origin o ≡ true) ⊎ Has (origin_key o) os

grown-Seen :
    (o : DeviceOrigin) (values : List DeviceOrigin) (seen : List String) (b : Bool)
    → Seen values seen
    → (x : String) → is_in x (if b then origin_key o ∷ seen else seen) ≡ true
    → Has x (if b then values ++ (o ∷ []) else values)
unfolding Seen
grown-Seen o values seen false h x q = h x q
grown-Seen o values seen true h x q = elim (Bool-cases (str_eq (origin_key o) x)) [
  | inl p ↦
      subst (λ (y : String). Has y (values ++ (o ∷ []))) ((eq_iff (origin_key o) x).0 p)
        (Has-last o values)
  | inr p ↦ Has-append x values (o ∷ []) (h x (simp p at q))
]

grown-Shown :
    (o : DeviceOrigin) (values : List DeviceOrigin) (seen : List String)
    → Seen values seen
    → Shown
        (if not (is_blank_origin o) && not (is_in (origin_key o) seen)
          then values ++ (o ∷ [])
          else values)
        o
unfolding Seen
grown-Shown o values seen h = elim (Bool-cases (is_blank_origin o)) [
  | inl p ↦ inl p
  | inr p ↦ elim (Bool-cases (is_in (origin_key o) seen)) [
    | inl q ↦ rw (p, q) (inr (h (origin_key o) q))
    | inr q ↦ rw (p, q) (inr (Has-last o values))
  ]
]

new-Shown :
    (rest values : List DeviceOrigin) (seen : List String)
    → Seen values seen
    → All (Shown (append_new_origins values seen rest)) rest
unfolding append_new_origins Seen
new-Shown [] values seen h = tt
new-Shown (o ∷ rest) values seen h =
    (kept (grown-Shown o values seen h), new-Shown rest _ _ (grown-Seen o values seen _ h))
  where
    kept :
        Shown
          (if not (is_blank_origin o) && not (is_in (origin_key o) seen)
            then values ++ (o ∷ [])
            else values)
          o
        → Shown (append_new_origins values seen (o ∷ rest)) o
    kept (inl p) = inl p
    kept (inr q) = inr (new-keeps (origin_key o) rest _ _ q)

all-Shown : (os : List DeviceOrigin) → All (Shown os) os
all-Shown [] = tt
all-Shown (o ∷ os) = (inr (Has-head (origin_key o) o os refl), later os (all-Shown os))
  where
    later : (xs : List DeviceOrigin) → All (Shown os) xs → All (Shown (o ∷ os)) xs
    later [] h = tt
    later (x ∷ xs) (inl p, h) = (inl p, later xs h)
    later (x ∷ xs) (inr q, h) = (inr (Has-tail (origin_key x) o os q), later xs h)

join-keeps :
    (x : String) (d old : Device) → Has x old.origins → Has x (join_device d (some old)).origins
unfolding join_device append_unique_origins
join-keeps x d old h = new-keeps x d.origins old.origins (origin_keys old.origins) h

join-Shown : (d : Device) (o : Option Device) → All (Shown (join_device d o).origins) d.origins
unfolding join_device append_unique_origins Seen
join-Shown d none = all-Shown d.origins
join-Shown d (some old) = new-Shown d.origins old.origins (origin_keys old.origins) (λ x q. q)

-- The key holds a device with this origin.
abbrev pub Listed : String → String → List (String × Device) → Type 0
Listed k x merged = (m : Device) × (find (name_is k) merged ≡ some m) × Has x m.origins

other_name : (k k' j : String) → str_eq k k' ≡ false → str_eq j k' ≡ true → str_eq j k ≡ false
other_name k k' j p q = elim (Bool-cases (str_eq j k)) [
  | inl r ↦ absurd (clash (subst (λ (y : String). str_eq y k' ≡ true) ((eq_iff j k).0 r) q))
  | inr r ↦ r
]
  where
    clash : str_eq k k' ≡ true → ⊥
    clash h = ground (arith, h, p)

put-Listed :
    (k x k' : String) (d : Device) (merged : List (String × Device))
    → Listed k x merged
    → Listed k x (put (name_is k') k' (join_device d (find (name_is k') merged)) merged)
put-Listed k x k' d merged (m, f, h) = elim (Bool-cases (str_eq k k')) [
  | inl p ↦
      subst
        (λ (y : String).
          Listed k x (put (name_is y) y (join_device d (find (name_is y) merged)) merged))
        ((eq_iff k k').0 p)
        (
          join_device d (some m),
          find-put (name_is k) k _ merged (eq_refl k)
              ∙ ap (λ (o : Option Device). some (join_device d o)) f,
          join-keeps x d m h,
        )
  | inr p ↦ (
    m,
    find-put_other (name_is k') (name_is k) k' _ merged (λ j q. other_name k k' j p q) (eq_refl k')
        ∙ f,
    h,
  )
]

merge-Listed :
    (k x : String) (rest merged : List (String × Device))
    → Listed k x merged
    → Listed k x (merge_devices merged rest)
unfolding merge_devices
merge-Listed k x [] merged h = h
merge-Listed k x ((k', d) ∷ rest) merged h = merge-Listed k x rest _ (put-Listed k x k' d merged h)

-- Each origin of a device stands in the merged device of its key.
abbrev pub Carried : List (String × Device) → String × Device → Type 0
Carried merged (k, d) =
    All (λ o. (is_blank_origin o ≡ true) ⊎ Listed k (origin_key o) merged) d.origins

carried :
    (k : String) (d m : Device) (merged : List (String × Device)) (os : List DeviceOrigin)
    → find (name_is k) merged ≡ some m
    → All (Shown m.origins) os
    → All (λ o. (is_blank_origin o ≡ true) ⊎ Listed k (origin_key o) merged) os
carried k d m merged [] f h = tt
carried k d m merged (o ∷ os) f (inl p, h) = (inl p, carried k d m merged os f h)
carried k d m merged (o ∷ os) f (inr q, h) = (inr (m, f, q), carried k d m merged os f h)

module _ (k : String) (rest merged : List (String × Device)) where
  merge-each :
      (os : List DeviceOrigin)
      → All (λ o. (is_blank_origin o ≡ true) ⊎ Listed k (origin_key o) merged) os
      → All
          (λ o. (is_blank_origin o ≡ true) ⊎ Listed k (origin_key o) (merge_devices merged rest))
          os
  merge-each [] h = tt
  merge-each (o ∷ os) (inl p, h) = (inl p, merge-each os h)
  merge-each (o ∷ os) (inr q, h) =
      (inr (merge-Listed k (origin_key o) rest merged q), merge-each os h)

merge-Carried :
    (rest merged : List (String × Device)) → All (Carried (merge_devices merged rest)) rest
unfolding merge_devices
merge-Carried [] merged = tt
merge-Carried ((k, d) ∷ rest) merged =
    let joined = join_device d (find (name_is k) merged) in
    let next = put (name_is k) k joined merged in
    (
      merge-each k rest next d.origins (
          carried k d joined next d.origins (find-put (name_is k) k joined merged (eq_refl k))
            (join-Shown d (find (name_is k) merged))),
      merge-Carried rest next,
    )

-- The device list has a device with this origin.
abbrev pub InList : List Device → DeviceOrigin → Type 0
InList ds o =
    (is_blank_origin o ≡ true) ⊎ (any ds (λ d. is_in (origin_key o) (origin_keys d.origins)) ≡ true)

abbrev pub AllIn : List Device → List (String × Device) → Type 0
AllIn ds entries = All (λ e. All (InList ds) e.1.origins) entries

any-Listed :
    (k x : String) (merged : List (String × Device)) (m : Device)
    → find (name_is k) merged ≡ some m
    → Has x m.origins
    → any (only_devices merged) (λ d. is_in x (origin_keys d.origins)) ≡ true
unfolding find only_devices
any-Listed k x [] m f h = ground (arith, f)
any-Listed k x ((k', d) ∷ rest) m f h = elim (Bool-cases (str_eq k' k)) [
  | inl p ↦
      or_left _ _ (subst (λ (y : Device). Has x y.origins) (sym (some-eq d m (simp p at f))) h)
  | inr p ↦ or_right _ _ (any-Listed k x rest m (simp p at f) h)
]
  where
    some-eq : (a b : Device) → some a ≡ some b → a ≡ b
    some-eq a b e = cc

    or_left : (a b : Bool) → a ≡ true → a || b ≡ true
    or_left a b e = ground arith

    or_right : (a b : Bool) → b ≡ true → a || b ≡ true
    or_right a b e = ground arith

module _ (cache : List (String × DeviceCache)) where
  entries-Listed :
      (k x : String) (cs : List ApiConfig) (merged : List (String × Device))
      → Listed k x merged
      → Listed k x (merge_entries cache cs merged)
  unfolding merge_entries
  entries-Listed k x [] merged h = h
  entries-Listed k x (c ∷ cs) merged h =
      entries-Listed k x cs _
        (merge-Listed k x (cache_entry (find (name_is c.name) cache)).devices merged h)

  in_list :
      (k : String) (cs : List ApiConfig) (merged : List (String × Device)) (os : List DeviceOrigin)
      → All (λ o. (is_blank_origin o ≡ true) ⊎ Listed k (origin_key o) merged) os
      → All (InList (only_devices (merge_entries cache cs merged))) os
  in_list k cs merged [] h = tt
  in_list k cs merged (o ∷ os) (inl p, h) = (inl p, in_list k cs merged os h)
  in_list k cs merged (o ∷ os) (inr q, h) =
      let (m, f, g) = entries-Listed k (origin_key o) cs merged q in
      (inr (any-Listed k (origin_key o) _ m f g), in_list k cs merged os h)

  devices-AllIn :
      (cs : List ApiConfig) (merged ds : List (String × Device))
      → All (Carried merged) ds
      → AllIn (only_devices (merge_entries cache cs merged)) ds
  devices-AllIn cs merged [] h = tt
  devices-AllIn cs merged ((k, d) ∷ ds) (h, hs) =
      (in_list k cs merged d.origins h, devices-AllIn cs merged ds hs)

  entries-AllIn :
      (cs : List ApiConfig) (merged : List (String × Device))
      → All
          (λ c.
            AllIn
              (only_devices (merge_entries cache cs merged))
              (cache_entry (find (name_is c.name) cache)).devices)
          cs
  unfolding merge_entries
  entries-AllIn [] merged = tt
  entries-AllIn (c ∷ cs) merged =
      let ds = (cache_entry (find (name_is c.name) cache)).devices in
      (
        devices-AllIn cs (merge_devices merged ds) ds (merge-Carried ds merged),
        entries-AllIn cs (merge_devices merged ds),
      )

-- Each device that the cache of a configured instance holds is in the list that a snapshot gives: for
-- each of its origins with an instance and a node, a listed device has that origin.
pub snapshot-AllIn :
    (clock : Clock) (now : ℕ) (s : DeviceStore)
    → All
        (λ c.
          AllIn
            (snapshot clock now s).devices
            (cache_entry (find (name_is c.name) s.cache)).devices)
        s.configs
unfolding snapshot
snapshot-AllIn clock now s = entries-AllIn s.cache s.configs []
