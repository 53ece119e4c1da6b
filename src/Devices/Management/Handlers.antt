-- ===== src/Devices/Management/Handlers.antt =====
-- internal/ops/device_management.go and tailnet_api.go: the handlers of device requests, with their
-- validation and status codes. A body is read by a decoder, which also says whether anything follows.
pub mod Checks
use tailscale_derp.Base.{
  ℕ, ◌≡◌, ◌==◌, leb, ltb, String, str_eq, trim_space, Bool, true, false, not, Option, none, some,
  List, [], ◌∷◌, ◌&&◌, ◌||◌, ◌⊎◌, inl, inr, if◌then◌else◌, is_some,
}
use tailscale_derp.Portmap.Address.{Addr, is_4}
use tailscale_derp.Devices.Management.{
  Attribute, Action, set_authorized, set_key, set_name, set_ipv4, set_tags, set_subnet_routes,
  delete, expire, get_routes, get_attributes, set_attribute, delete_attribute, Call, Failure,
  AttributeValue, decode_device_attribute_value, unknown, unconfigured, api_error, other, Api,
  World, perform, is_4_text,
}
use tailscale_derp.Devices.Management.Handlers.Checks.{
  validate_tags, validate_routes, validate_attribute_key, validate_device_attribute, valid_name,
}

pub record HttpRequest : Type 0 where
  pub method : String
  pub instance_name : String
  pub device_id : String
  pub body : String

pub record Response : Type 0 where
  pub status : ℕ
  pub message : String

-- What the decoder makes of a body: a value, and whether it is all of the body, or its error.
abbrev pub Decoded : Type 0 → Type 0
Decoded A = (A × Bool) ⊎ String

pub record Decoders : Type 0 where
  pub authorized : String → Decoded Bool
  pub name : String → Decoded String
  pub tags : String → Decoded (List String)
  pub key_expiry_disabled : String → Decoded Bool
  pub routes : String → Decoded (List String)
  pub attribute : String → Decoded Attribute
  pub attribute_key : String → Decoded String
  pub ipv4 : String → Decoded String
  pub is_prefix : String → Bool
  pub show_addr : Addr → String

-- decodeManagementRequest.
unfoldable pub decode_management_request : {A : Type 0} → Decoded A → A ⊎ String
decode_management_request (inr why) = inr why
decode_management_request (inl (a, true)) = inl a
decode_management_request (inl (a, false)) = inr "request body must contain one JSON object"

abbrev pub if_empty : String → String → String
if_empty a b = if str_eq a "" then b else a

-- writeTailscaleAPIError.
unfoldable pub write_tailscale_api_error : Failure → Response
write_tailscale_api_error unknown = record { status = 404; message = "unknown API instance" }
write_tailscale_api_error unconfigured = record {
  status = 503;
  message = "API instance is not configured";
}
write_tailscale_api_error (api_error s m) = record {
  status = if s == 412 then 409 else s;
  message = if_empty m "Tailscale API request failed";
}
write_tailscale_api_error (other why) = record {
  status = 502;
  message = "Tailscale API request failed";
}

abbrev pub bad_request : String → World → Response × World
bad_request why w = (record { status = 400; message = why }, w)

abbrev pub not_allowed : String → World → Response × World
not_allowed why w = (record { status = 405; message = why }, w)

unfoldable pub respond : Option Failure × World → Response × World
unfolding write_tailscale_api_error
respond (none, w) = (record { status = 200; message = "ok" }, w)
respond (some f, w) = (write_tailscale_api_error f, w)

unfoldable pub require : String → String → World → Response × World → Response × World
require method wanted w rest = if not (str_eq method wanted) then not_allowed wanted w else rest

pub data Handler : Type 0 where
  authorized_handler name_handler tags_handler key_handler delete_handler : Handler
  routes_handler attributes_handler expire_handler ipv4_handler : Handler

abbrev pub bad_address : String
bad_address = "a valid IPv4 address is required"

unfoldable pub address_of : Option Addr → Addr ⊎ String
address_of none = inr bad_address
address_of (some a) = inl a

unfoldable pub parse_ipv4 : (String → Option Addr) → String ⊎ String → Addr ⊎ String
unfolding address_of
parse_ipv4 parse (inr why) = inr why
parse_ipv4 parse (inl text) = address_of (parse text)

unfoldable pub check_ipv4 : Addr → Option String
unfolding is_4
check_ipv4 a = if is_4 a then none else some bad_address

unfoldable pub trimmed : String ⊎ String → String ⊎ String
unfolding trim_space
trimmed (inr why) = inr why
trimmed (inl name) = inl (trim_space name)

unfoldable pub check_name : String → Option String
unfolding valid_name
check_name n =
    if valid_name n then none else some "a device name of at most 256 characters is required"

unfoldable pub no_check : {A : Type 0} → A → Option String
no_check a = none

module _ (api : Api) (dec : Decoders) where
  unfoldable pub act : HttpRequest → Action → World → Response × World
  unfolding respond perform
  act r a w = respond (
      perform api record { instance_name = r.instance_name; device_id = r.device_id; action = a } w)

  unfoldable pub after_check : HttpRequest → Action → Option String → World → Response × World
  unfolding act
  after_check r a (some why) w = bad_request why w
  after_check r a none w = act r a w

  -- A request that is decoded and then checked, and the action that it asks for.
  unfoldable pub act_checked :
      {A : Type 0}
      → (A → Option String)
      → (A → Action)
      → HttpRequest
      → A ⊎ String
      → World
      → Response × World
  unfolding after_check
  act_checked check action r (inr why) w = bad_request why w
  act_checked check action r (inl a) w = after_check r (action a) (check a) w

  -- setDeviceAttribute reads the expiry and the value again before its call.
  unfoldable pub act_attribute :
      HttpRequest → Attribute → Option ℕ → Option AttributeValue → World → Response × World
  unfolding act write_tailscale_api_error
  act_attribute r a none v w =
      (write_tailscale_api_error (other "a valid RFC3339 expiry is required"), w)
  act_attribute r a (some t) none w =
      (write_tailscale_api_error (other "attribute value must be valid JSON"), w)
  act_attribute r a (some t) (some v) w = act r (set_attribute a.key v t a.comment) w

  unfoldable pub attribute_checked :
      HttpRequest → Attribute → Option String → World → Response × World
  unfolding act_attribute decode_device_attribute_value
  attribute_checked r a (some why) w = bad_request why w
  attribute_checked r a none w =
      act_attribute r a (api.parse_time a.expiry)
        (decode_device_attribute_value api.decode_json a.value) w

  unfoldable pub handle_set_attribute : HttpRequest → Attribute ⊎ String → World → Response × World
  unfolding attribute_checked validate_device_attribute
  handle_set_attribute r (inr why) w = bad_request why w
  handle_set_attribute r (inl a) w = attribute_checked r a (validate_device_attribute api a) w

  unfoldable pub handle_device_routes : HttpRequest → World → Response × World
  unfolding act act_checked decode_management_request validate_routes
  handle_device_routes r w =
      if str_eq r.method "GET"
      then act r get_routes w
      else if str_eq r.method "PUT"
      then act_checked (validate_routes dec.is_prefix) set_subnet_routes r
          (decode_management_request (dec.routes r.body)) w
      else not_allowed "GET or PUT required" w

  unfoldable pub handle_device_attributes : HttpRequest → World → Response × World
  unfolding act act_checked decode_management_request handle_set_attribute validate_attribute_key
  handle_device_attributes r w =
      if str_eq r.method "GET"
      then act r get_attributes w
      else if str_eq r.method "POST"
      then handle_set_attribute r (decode_management_request (dec.attribute r.body)) w
      else if str_eq r.method "DELETE"
      then act_checked validate_attribute_key delete_attribute r
          (decode_management_request (dec.attribute_key r.body)) w
      else not_allowed "GET, POST, or DELETE required" w

  unfoldable pub handle : Handler → HttpRequest → World → Response × World
  unfolding require act act_checked decode_management_request validate_tags trimmed check_name
      parse_ipv4 check_ipv4 handle_device_routes handle_device_attributes no_check
  handle authorized_handler r w =
      require r.method "PUT" w (
        act_checked no_check set_authorized r (decode_management_request (dec.authorized r.body)) w)
  handle name_handler r w =
      require r.method "PUT" w (
        act_checked check_name set_name r (trimmed (decode_management_request (dec.name r.body))) w)
  handle tags_handler r w =
      require r.method "PUT" w
        (act_checked validate_tags set_tags r (decode_management_request (dec.tags r.body)) w)
  handle key_handler r w = require r.method "PUT" w (
      act_checked no_check set_key r (decode_management_request (dec.key_expiry_disabled r.body)) w)
  handle delete_handler r w = require r.method "DELETE" w (act r delete w)
  handle expire_handler r w = require r.method "POST" w (act r expire w)
  handle ipv4_handler r w = require r.method "PUT" w (
      act_checked check_ipv4 (λ a. set_ipv4 (dec.show_addr a)) r
        (parse_ipv4 api.parse_addr (decode_management_request (dec.ipv4 r.body))) w)
  handle routes_handler r w = handle_device_routes r w
  handle attributes_handler r w = handle_device_attributes r w
