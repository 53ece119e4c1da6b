-- ===== src/Devices/Management/Handlers/Checks.antt =====
-- internal/ops/device_management.go: the checks of tags, routes, attributes and names. A length is
-- that of the UTF-8 text, as Go's len gives it.
use Prim.Native.Char.{Char, code}
use tailscale_derp.Base.{
  ℕ, ◌+◌, ◌==◌, ltb, String, str_eq, trim_space, Bool, true, false, not, Option, none, some, List,
  [], ◌∷◌, ◌&&◌, ◌||◌, if◌then◌else◌, length,
}
use tailscale_derp.Devices.Management.{
  Attribute, Api, AttributeValue, decode_device_attribute_value,
}

unfoldable pub char_bytes : Char → ℕ
char_bytes c =
    if ltb (code c) 0x80
    then 1
    else if ltb (code c) 0x800
    then 2
    else if ltb (code c) 0x10000
    then 3
    else 4

unfoldable pub byte_length : String → ℕ
unfolding char_bytes
byte_length String.[] = 0
byte_length (String.◌∷◌ c s) = char_bytes c + byte_length s

unfoldable pub has_prefix : String → String → Bool
has_prefix s String.[] = true
has_prefix String.[] (String.◌∷◌ d t) = false
has_prefix (String.◌∷◌ c s) (String.◌∷◌ d t) = code c == code d && has_prefix s t

abbrev pub max_device_tags : ℕ
max_device_tags = 64

unfoldable pub bad_tag : String → Bool
unfolding byte_length has_prefix
bad_tag tag =
    ltb 253 (byte_length tag)
    || not (has_prefix tag "tag:")
    || not (str_eq (trim_space tag) tag)
    || byte_length tag == 4

unfoldable pub check_tags : List String → Option String
unfolding bad_tag
check_tags [] = none
check_tags (t ∷ ts) =
    let rest = check_tags ts in
    if bad_tag t then some "tags must be non-empty tag: values" else rest

unfoldable pub validate_tags : List String → Option String
unfolding check_tags
validate_tags tags =
    if ltb max_device_tags (length tags)
    then some "at most 64 tags are allowed"
    else check_tags tags

-- netip.ParsePrefix is a parameter: whether it reads the route.
unfoldable pub validate_routes : (String → Bool) → List String → Option String
validate_routes is_prefix [] = none
validate_routes is_prefix (r ∷ rs) =
    let rest = validate_routes is_prefix rs in if is_prefix r then rest else some "invalid route"

unfoldable pub validate_attribute_key : String → Option String
unfolding byte_length
validate_attribute_key key =
    if str_eq key "" || ltb 253 (byte_length key) || not (str_eq (trim_space key) key)
    then some "a valid attribute key is required"
    else none

unfoldable pub check_value : Option ℕ → Option AttributeValue → Option String
check_value none v = some "a valid RFC3339 expiry is required"
check_value (some t) none = some "attribute value must be valid JSON"
check_value (some t) (some v) = none

abbrev pub or_else : Option String → Option String → Option String
or_else (some why) b = some why
or_else none b = b

unfoldable pub validate_device_attribute : Api → Attribute → Option String
unfolding validate_attribute_key check_value decode_device_attribute_value
validate_device_attribute api a =
    or_else (validate_attribute_key a.key) (
      check_value (api.parse_time a.expiry) (decode_device_attribute_value api.decode_json a.value))

-- handleSetDeviceName's test of a trimmed name.
unfoldable pub valid_name : String → Bool
unfolding byte_length
valid_name name = not (str_eq name "" || ltb 256 (byte_length name))
