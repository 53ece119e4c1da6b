-- ===== src/Portmap/Routes.antt =====
-- internal/portmap/network.go: the default route of /proc/net/route and the addresses that an
-- interface offers. Parameters: the file's lines, the addresses of an interface (each one none where
-- netip.ParsePrefix fails), and the source address that the system picks towards an address.
pub mod Least
use Prim.Native.Char.{Char, code}
use tailscale_derp.Base.{
  ℕ, ◌+◌, ◌-◌, ◌*◌, ◌/◌, ◌%◌, ◌^◌, ◌≡◌, ◌==◌, leb, ltb, String, str_eq, is_space, Bool, true, false,
  not, Option, none, some, List, [], ◌∷◌, ◌&&◌, ◌||◌, ◌⊎◌, inl, inr, if◌then◌else◌, ℤ, pos, negsuc,
  atoi, ◌+++◌,
}
use tailscale_derp.Portmap.{Error}
use tailscale_derp.Portmap.Address.{
  Addr, invalid, v4, v6, unmap, is_4, is_public_ipv4, is_public_ipv6,
}

abbrev pub max_int : ℕ
max_int = 2 ^ 63 - 1

unfoldable pub less : ℤ → ℤ → Bool
less (pos a) (pos b) = ltb a b
less (pos a) (negsuc b) = false
less (negsuc a) (pos b) = true
less (negsuc a) (negsuc b) = ltb b a

abbrev pub glue : Char → List String → List String
glue c [] = String.◌∷◌ c String.[] ∷ []
glue c (w ∷ ws) = String.◌∷◌ c w ∷ ws

abbrev pub full : List String → List String
full [] = []
full (w ∷ ws) = if str_eq w "" then ws else w ∷ ws

-- The words of a text, the first one empty where a space comes first.
unfoldable pub split_words : String → List String
unfolding is_space
split_words String.[] = "" ∷ []
split_words (String.◌∷◌ c s) =
    let rest = split_words s in if is_space c then "" ∷ full rest else glue c rest

-- strings.Fields.
unfoldable pub fields : String → List String
unfolding split_words
fields s = full (split_words s)

unfoldable pub hex_digit : Char → Option ℕ
hex_digit c =
    if leb 48 (code c) && leb (code c) 57
    then some (code c - 48)
    else if leb 97 (code c) && leb (code c) 102
    then some (code c - 97 + 10)
    else if leb 65 (code c) && leb (code c) 70
    then some (code c - 65 + 10)
    else none

abbrev pub push_digit : ℕ → Option ℕ → Option ℕ
push_digit acc none = none
push_digit acc (some d) = some ((acc * 16) % 2 ^ 64 + d)

abbrev pub and_then : Option ℕ → (ℕ → Option ℕ) → Option ℕ
and_then none f = none
and_then (some n) f = f n

unfoldable pub hex_from : String → ℕ → Option ℕ
unfolding hex_digit
hex_from String.[] acc = some acc
hex_from (String.◌∷◌ c s) acc = and_then (push_digit acc (hex_digit c)) (λ n. hex_from s n)

-- parseRouteHex: 64 bits, so the digits before the last sixteen are lost.
unfoldable pub parse_route_hex : String → Option ℕ
unfolding hex_from
parse_route_hex s = hex_from s 0

abbrev pub two_digits : Option ℕ → Option ℕ → Option (List ℕ) → Option (List ℕ)
two_digits (some a) (some b) (some rest) = some ((a * 16 + b) ∷ rest)
two_digits _ _ _ = none

-- hex.DecodeString, its bytes.
unfoldable pub hex_bytes : String → Option (List ℕ)
unfolding hex_digit
hex_bytes String.[] = some []
hex_bytes (String.◌∷◌ c String.[]) = none
hex_bytes (String.◌∷◌ c (String.◌∷◌ d s)) = two_digits (hex_digit c) (hex_digit d) (hex_bytes s)

pub record Route : Type 0 where
  pub interface_name : String
  pub gateway : Addr
  pub metric : ℤ

abbrev pub is_up_gateway : Option ℕ → Bool
is_up_gateway none = false
is_up_gateway (some flags) = not (flags / 2 % 2 == 0)

-- The little-endian gateway and the metric, both of which must be read.
unfoldable pub route_of : String → Option (List ℕ) → Option ℤ → Option Route
route_of name (some (a ∷ b ∷ c ∷ d ∷ [])) (some metric) = some record {
  interface_name = name;
  gateway = v4 (((d * 256 + c) * 256 + b) * 256 + a);
  metric = metric;
}
route_of name _ _ = none

unfoldable pub wanted_interface : String → String → Bool
wanted_interface wanted name = str_eq wanted "" || str_eq wanted "auto" || str_eq name wanted

-- What the loop makes of a line's fields before it compares the metric.
unfoldable pub read_fields : String → List String → Option Route
unfolding route_of parse_route_hex hex_bytes atoi wanted_interface
read_fields wanted (name ∷ destination ∷ gateway ∷ flags ∷ refs ∷ uses ∷ metric ∷ rest) =
    if str_eq destination "00000000"
      && wanted_interface wanted name
      && is_up_gateway (parse_route_hex flags)
    then route_of name (hex_bytes gateway) (atoi metric)
    else none
read_fields wanted _ = none

abbrev pub best_metric : Option Route → ℤ
best_metric none = pos max_int
best_metric (some r) = r.metric

unfoldable pub better : Option Route → Option Route → Option Route
unfolding less
better best none = best
better best (some r) = if less r.metric (best_metric best) then some r else best

unfoldable pub scan_routes : String → List String → Option Route → Option Route
unfolding better read_fields fields
scan_routes wanted [] best = best
scan_routes wanted (line ∷ lines) best =
    scan_routes wanted lines (better best (read_fields wanted (fields line)))

abbrev pub found_route : Option Route → Route ⊎ Error
found_route none = inr ("IPv4 default gateway not found" ∷ [])
found_route (some r) = inl r

-- defaultRoute on the lines of the table.
unfoldable pub default_route : String → List String → Route ⊎ Error
unfolding scan_routes
default_route wanted lines = found_route (scan_routes wanted lines none)

-- sourceIPv4 on an interface: its first IPv4 address. An address is none where ParsePrefix fails.
unfoldable pub first_address : (Addr → Bool) → List (Option Addr) → Option Addr
first_address p [] = none
first_address p (none ∷ rest) = first_address p rest
first_address p (some a ∷ rest) = let found = first_address p rest in if p a then some a else found

pub record System : Type 0 where
  pub route_lines : List String ⊎ Error
  pub addresses : String → List (Option Addr) ⊎ Error
  pub source_towards : Addr → Addr ⊎ Error
  pub source_6 : Addr ⊎ Error
  pub show : Addr → String

abbrev pub or_error : String → Option Addr → Addr ⊎ Error
or_error why none = inr (why ∷ [])
or_error why (some a) = inl a

abbrev pub bind {ℓ κ} : {A : Type ℓ} {B : Type κ} → A ⊎ Error → (A → B ⊎ Error) → B ⊎ Error
bind (inl a) f = f a
bind (inr e) f = inr e

abbrev pub is_named : String → Bool
is_named name = not (str_eq name "" || str_eq name "auto")

abbrev pub no_local : String
no_local = "cannot determine local IPv4 address"

unfoldable pub source_ipv4 : System → Addr → String → Addr ⊎ Error
unfolding first_address is_4 unmap
source_ipv4 sys gateway name =
    if is_named name
    then bind (sys.addresses name)
        (λ addresses. or_error "interface has no IPv4 address" (first_address is_4 addresses))
    else bind (sys.source_towards gateway)
        (λ a. if is_4 (unmap a) then inl (unmap a) else inr (no_local ∷ []))

unfoldable pub table_route : System → String → Route ⊎ Error
unfolding default_route
table_route sys name = bind sys.route_lines (default_route name)

-- defaultGateway.
unfoldable pub default_gateway : System → String → Addr ⊎ Error
unfolding table_route
default_gateway sys name = bind (table_route sys name) (λ r. inl r.gateway)

unfoldable pub first_public : System → String → Addr ⊎ Error
unfolding first_address is_public_ipv4
first_public sys name = bind (sys.addresses name) (λ addresses.
    or_error "interface has no public IPv4 address" (first_address is_public_ipv4 addresses))

-- publicIPv4: on the named interface, or on that of the default route.
unfoldable pub public_ipv4 : System → String → Addr ⊎ Error
unfolding table_route first_public
public_ipv4 sys name =
    if is_named name
    then first_public sys name
    else bind (table_route sys "auto") (λ r. first_public sys r.interface_name)

-- netip.Addr's Compare, none before IPv4 before IPv6.
unfoldable pub address_less : Addr → Addr → Bool
address_less invalid invalid = false
address_less invalid (v4 b) = true
address_less invalid (v6 b) = true
address_less (v4 a) invalid = false
address_less (v4 a) (v4 b) = ltb a b
address_less (v4 a) (v6 b) = true
address_less (v6 a) invalid = false
address_less (v6 a) (v4 b) = false
address_less (v6 a) (v6 b) = ltb a b

unfoldable pub candidates : List (Option Addr) → List Addr
unfolding is_public_ipv6
candidates [] = []
candidates (none ∷ rest) = candidates rest
candidates (some a ∷ rest) =
    let more = candidates rest in if is_public_ipv6 a then a ∷ more else more

unfoldable pub insert : Addr → List Addr → List Addr
unfolding address_less
insert a [] = a ∷ []
insert a (b ∷ bs) = let rest = insert a bs in if address_less b a then b ∷ rest else a ∷ b ∷ bs

-- sort.Slice; addresses that compare equal are the same.
unfoldable pub sort : List Addr → List Addr
unfolding insert
sort [] = []
sort (a ∷ as') = insert a (sort as')

abbrev pub first_of : List Addr → Option Addr
first_of [] = none
first_of (a ∷ as') = some a

abbrev pub if_public : Addr → Addr ⊎ Error
if_public a =
    if is_public_ipv6 a then inl a else inr ("cannot determine a public IPv6 address" ∷ [])

-- publicIPv6: the least public address of the named interface, or the system's source address.
unfoldable pub public_ipv6 : System → String → Addr ⊎ Error
unfolding candidates sort is_public_ipv6
public_ipv6 sys name =
    if is_named name
    then bind (sys.addresses name) (λ addresses.
      or_error "interface has no public IPv6 address" (first_of (sort (candidates addresses))))
    else bind sys.source_6 if_public

-- networkFingerprint.
unfoldable pub network_fingerprint : System → String → String ⊎ Error
unfolding table_route source_ipv4
network_fingerprint sys name = bind (table_route sys name) (λ r.
    bind (source_ipv4 sys r.gateway r.interface_name)
      (λ a. inl (r.interface_name +++ "|" +++ sys.show r.gateway +++ "|" +++ sys.show a)))
