-- ===== src/Devices/Management/Bounds.antt =====
-- internal/ops/device_management.go: what the checks of a device request let through.
use tailscale_derp.Base.{
  trim_space, eq_iff, ◌||◌, ℕ, ◌≡◌, ◌≢◌, ◌≤◌, refl, String, str_eq, Bool, true, false, not, Option,
  none, some, List, [], ◌∷◌, if◌then◌else◌, All, length, arith, ltb,
}
use tailscale_derp.Portmap.Address.{Addr, is_4}
use tailscale_derp.Devices.Management.{
  AttributeValue, Action, set_authorized, set_key, set_name, set_ipv4, set_tags, set_subnet_routes,
  delete, expire, get_routes, get_attributes, set_attribute, delete_attribute, Api,
}
use tailscale_derp.Devices.Management.Handlers.{Decoders, check_name, check_ipv4}
use tailscale_derp.Devices.Management.Handlers.Checks.{
  has_prefix, byte_length, bad_tag, check_tags, validate_tags, validate_routes,
  validate_attribute_key, valid_name, or_else,
}

-- Lengths are those of the UTF-8 text.
pub record GoodTag (t : String) : Type 0 where
  pub prefixed : has_prefix t "tag:" ≡ true
  pub filled : byte_length t ≢ 4
  pub short : byte_length t ≤ 253
  pub bare : trim_space t ≡ t

pub record GoodKey (k : String) : Type 0 where
  pub filled : str_eq k "" ≡ false
  pub short : byte_length k ≤ 253
  pub bare : trim_space k ≡ k

-- What an action that reaches the API carries.
pub data Checked (api : Api) (dec : Decoders) : Action → Type 0 where
  authorized : (b : Bool) → Checked api dec (set_authorized b)
  key : (b : Bool) → Checked api dec (set_key b)
  name : (n : String) → str_eq n "" ≡ false → byte_length n ≤ 256 → Checked api dec (set_name n)
  tags : (ts : List String) → All GoodTag ts → length ts ≤ 64 → Checked api dec (set_tags ts)
  routes :
      (rs : List String)
      → All (λ r. dec.is_prefix r ≡ true) rs
      → Checked api dec (set_subnet_routes rs)
  ipv4 : (a : Addr) → is_4 a ≡ true → Checked api dec (set_ipv4 (dec.show_addr a))
  attribute :
      (k : String) (v : AttributeValue) (text : String) (t : ℕ) (comment : String)
      → GoodKey k
      → api.parse_time text ≡ some t
      → Checked api dec (set_attribute k v t comment)
  no_attribute : (k : String) → GoodKey k → Checked api dec (delete_attribute k)
  deletion : Checked api dec delete
  expiry : Checked api dec expire
  reading_routes : Checked api dec get_routes
  reading_attributes : Checked api dec get_attributes

-- A check that passes has passed each of its tests.
passed :
    (b : Bool) (why : String) (rest : Option String)
    → (if b then some why else rest) ≡ none
    → (b ≡ false) × (rest ≡ none)
passed b why rest h = ground arith

passed_last :
    (b : Bool) (why : String) (rest : Option String)
    → (if b then rest else some why) ≡ none
    → (b ≡ true) × (rest ≡ none)
passed_last b why rest h = ground arith

bad_tag-GoodTag : (t : String) → bad_tag t ≡ false → GoodTag t
unfolding bad_tag
bad_tag-GoodTag t h = record {
  prefixed = ground (arith, h);
  filled = λ e. ground (arith, h, e);
  short = ground (arith, h);
  bare = (eq_iff (trim_space t) t).0 (ground (arith, h));
}

key_tests :
    (k : String)
    → (str_eq k "" || ltb 253 (byte_length k) || not (str_eq (trim_space k) k)) ≡ false
    → GoodKey k
key_tests k h = record {
  filled = ground (arith, h);
  short = ground (arith, h);
  bare = (eq_iff (trim_space k) k).0 (ground (arith, h));
}

pub validate_attribute_key-GoodKey : (k : String) → validate_attribute_key k ≡ none → GoodKey k
unfolding validate_attribute_key
validate_attribute_key-GoodKey k h =
    key_tests k
      (passed (str_eq k "" || ltb 253 (byte_length k) || not (str_eq (trim_space k) k)) _ none h).0

check_tags-All : (ts : List String) → check_tags ts ≡ none → All GoodTag ts
unfolding check_tags
check_tags-All [] h = tt
check_tags-All (t ∷ ts) h =
    let (a, b) = passed (bad_tag t) _ (check_tags ts) h in
    (bad_tag-GoodTag t a, check_tags-All ts b)

le_of : (n : ℕ) → ltb 64 n ≡ false → n ≤ 64
le_of n h = ground arith

pub validate_tags-All :
    (ts : List String) → validate_tags ts ≡ none → All GoodTag ts × (length ts ≤ 64)
unfolding validate_tags
validate_tags-All ts h =
    let (a, b) = passed (ltb 64 (length ts)) _ (check_tags ts) h in
    (check_tags-All ts b, le_of (length ts) a)

pub validate_routes-All :
    (p : String → Bool) (rs : List String) → validate_routes p rs ≡ none → All (λ r. p r ≡ true) rs
unfolding validate_routes
validate_routes-All p [] h = tt
validate_routes-All p (r ∷ rs) h =
    let (a, b) = passed_last (p r) _ (validate_routes p rs) h in (a, validate_routes-All p rs b)

pub check_name-short :
    (n : String) → check_name n ≡ none → (str_eq n "" ≡ false) × (byte_length n ≤ 256)
unfolding check_name valid_name
check_name-short n h =
    name_tests n (passed_last (not (str_eq n "" || ltb 256 (byte_length n))) _ none h).0
  where
    name_tests :
        (n : String)
        → not (str_eq n "" || ltb 256 (byte_length n)) ≡ true
        → (str_eq n "" ≡ false) × (byte_length n ≤ 256)
    name_tests n h = (ground (arith, h), ground (arith, h))

pub check_ipv4-is_4 : (a : Addr) → check_ipv4 a ≡ none → is_4 a ≡ true
unfolding check_ipv4
check_ipv4-is_4 a h = (passed_last (is_4 a) _ none h).0

pub first_none : (a b : Option String) → or_else a b ≡ none → a ≡ none
first_none none b h = refl
first_none (some x) b h = h
