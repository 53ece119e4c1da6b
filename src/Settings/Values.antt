-- ===== src/Settings/Values.antt =====
-- cmd/tailscale-derp/main.go: the values of options.
use Prim.Native.Char.{Char, code}
use tailscale_derp.Base.{
  ℕ, ◌==◌, String, str_eq, trim_space, to_lower, equal_fold, parse_uint, atoi, Bool, true, false,
  not, Option, none, some, List, [], ◌∷◌, ◌++◌, ◌||◌, ◌&&◌, if◌then◌else◌, any, ℤ, pos, negsuc,
}
use tailscale_derp.Settings.{Result, ok, err, duration}

abbrev pub one_of : String → List String → Bool
one_of s ss = any ss (λ t. str_eq s t)

-- parseBoolValue.
unfoldable pub parse_bool_value : String → Result Bool
unfolding trim_space to_lower
parse_bool_value value =
    let v = trim_space (to_lower value) in
    if one_of v ("1" ∷ "true" ∷ "yes" ∷ "on" ∷ [])
    then ok true
    else if one_of v ("0" ∷ "false" ∷ "no" ∷ "off" ∷ "" ∷ [])
    then ok false
    else err "invalid boolean value"

-- A number of seconds that must be positive, as a duration.
unfoldable pub positive_of : Option ℤ → Result ℤ
unfolding duration
positive_of none = err "must be a positive number"
positive_of (some (negsuc n)) = err "must be a positive number"
positive_of (some (pos n)) = if n == 0 then err "must be a positive number" else ok (duration n)

unfoldable pub positive_seconds : String → Result ℤ
unfolding positive_of atoi
positive_seconds value = positive_of (atoi value)

abbrev pub integer_of : Option ℤ → Result ℤ
integer_of none = err "must be an integer"
integer_of (some n) = ok n

abbrev pub into_first : Char → List String → List String
into_first c [] = String.◌∷◌ c String.[] ∷ []
into_first c (w ∷ ws) = String.◌∷◌ c w ∷ ws

-- strings.Split at commas.
unfoldable pub split_commas : String → List String
split_commas String.[] = "" ∷ []
split_commas (String.◌∷◌ c s) =
    let rest = split_commas s in if code c == 44 then "" ∷ rest else into_first c rest

-- The parts that are left when each is cleaned and blank ones are dropped.
unfoldable pub clean_parts : (String → String) → List String → List String
clean_parts clean [] = []
clean_parts clean (p ∷ ps) =
    let rest = clean_parts clean ps in if str_eq (clean p) "" then rest else clean p ∷ rest

unfoldable pub split_all : (String → String) → List String → List String
unfolding clean_parts split_commas
split_all clean [] = []
split_all clean (v ∷ vs) = clean_parts clean (split_commas v) ++ split_all clean vs

abbrev pub is_blank : String → Bool
is_blank s = str_eq (trim_space s) ""

-- validateExternalPort.
unfoldable pub check_port : Option ℕ → Bool
check_port none = false
check_port (some n) = not (n == 0)

unfoldable pub validate_external_port : String → Bool
unfolding check_port parse_uint equal_fold
validate_external_port value =
    str_eq value "" || equal_fold value "auto" || check_port (parse_uint 0xffff value)

-- validateOptionalPortBinding, over net.SplitHostPort's port.
unfoldable pub check_binding : Option String → Bool
unfolding check_port parse_uint
check_binding none = false
check_binding (some port) = check_port (parse_uint 0xffff port)

unfoldable pub validate_optional_port_binding : (String → Option String) → String → Bool
unfolding check_binding trim_space
validate_optional_port_binding split value =
    str_eq value "" || str_eq (trim_space value) value && check_binding (split value)
