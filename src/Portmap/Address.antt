-- ===== src/Portmap/Address.antt =====
-- internal/portmap/portmap.go and network.go: which addresses are public. An address is a number
-- below 2 ^ 32 or 2 ^ 128, as netip.Addr holds it; IPv6 zones are not modelled.
pub mod Public
use tailscale_derp.Base.{
  ℕ, ◌+◌, ◌*◌, ◌-◌, ◌/◌, ◌%◌, ◌^◌, ◌<◌, ◌≤◌, ◌≡◌, refl, ap, ◌∙◌, sym, Bool, true, false, not, ◌&&◌,
  ◌||◌, List, [], ◌∷◌, arith, leb, ◌==◌, if◌then◌else◌, any, inl, inr, ◌⊎◌, Bool-cases,
}

pub data Addr : Type 0 where
  invalid : Addr
  v4 v6 : ℕ → Addr

abbrev pub is_4in6 : ℕ → Bool
is_4in6 n = n / 2 ^ 32 == 0xffff

unfoldable pub unmap : Addr → Addr
unmap invalid = invalid
unmap (v4 n) = v4 n
unmap (v6 n) = if is_4in6 n then v4 (n % 2 ^ 32) else v6 n

unfoldable pub is_4 : Addr → Bool
is_4 (v4 n) = true
is_4 invalid = false
is_4 (v6 n) = false

unfoldable pub is_6 : Addr → Bool
is_6 (v6 n) = true
is_6 invalid = false
is_6 (v4 n) = false

-- netip's IsGlobalUnicast: not unspecified, broadcast, loopback, multicast or link-local.
unfoldable pub unicast_v4 : ℕ → Bool
unicast_v4 n =
    not (n == 0 || n == 0xffffffff || n / 2 ^ 24 == 127 || n / 2 ^ 28 == 14 || n / 2 ^ 16 == 0xa9fe)

unfoldable pub unicast_v6 : ℕ → Bool
unfolding unicast_v4
unicast_v6 n =
    if is_4in6 n
    then not
        (n % 2 ^ 32 / 2 ^ 24 == 127 || n % 2 ^ 32 / 2 ^ 28 == 14 || n % 2 ^ 32 / 2 ^ 16 == 0xa9fe)
    else not (n == 0 || n == 1 || n / 2 ^ 120 == 0xff || n / 2 ^ 118 == 0x3fa)

unfoldable pub is_global_unicast : Addr → Bool
unfolding unicast_v4 unicast_v6
is_global_unicast invalid = false
is_global_unicast (v4 n) = unicast_v4 n
is_global_unicast (v6 n) = unicast_v6 n

-- A prefix: its address and the number of bits behind it, so 10.0.0.0/8 has 24.
abbrev pub Prefix : Type 0
Prefix = ℕ × ℕ

abbrev pub contains : ℕ → Prefix → Bool
contains n (base, rest) = n / 2 ^ rest == base / 2 ^ rest

abbrev pub ip4 : ℕ → ℕ → ℕ → ℕ → ℕ
ip4 a b c d = ((a * 256 + b) * 256 + c) * 256 + d

unfoldable pub non_public_ipv4 : List Prefix
non_public_ipv4 =
    (ip4 0 0 0 0, 24)
    ∷ (ip4 10 0 0 0, 24)
    ∷ (ip4 100 64 0 0, 22)
    ∷ (ip4 127 0 0 0, 24)
    ∷ (ip4 169 254 0 0, 16)
    ∷ (ip4 172 16 0 0, 20)
    ∷ (ip4 192 0 0 0, 8)
    ∷ (ip4 192 0 2 0, 8)
    ∷ (ip4 192 168 0 0, 16)
    ∷ (ip4 198 18 0 0, 17)
    ∷ (ip4 198 51 100 0, 8)
    ∷ (ip4 203 0 113 0, 8)
    ∷ (ip4 224 0 0 0, 28)
    ∷ (ip4 240 0 0 0, 28)
    ∷ []

-- fc00::/7 and 2001:db8::/32.
unfoldable pub non_public_ipv6 : List Prefix
non_public_ipv6 = (0xfc * 2 ^ 120, 121) ∷ (0x20010db8 * 2 ^ 96, 96) ∷ []

public_v4 : Addr → Bool
unfolding non_public_ipv4 is_global_unicast
public_v4 (v4 n) = is_global_unicast (v4 n) && not (any non_public_ipv4 (contains n))
public_v4 invalid = false
public_v4 (v6 n) = false

unfoldable pub is_public_ipv4 : Addr → Bool
unfolding public_v4 unmap
is_public_ipv4 a = public_v4 (unmap a)

unfoldable pub is_public_ipv6 : Addr → Bool
unfolding non_public_ipv6 is_global_unicast
is_public_ipv6 (v6 n) = is_global_unicast (v6 n) && not (any non_public_ipv6 (contains n))
is_public_ipv6 invalid = false
is_public_ipv6 (v4 n) = false

-- The special-purpose blocks, first and last address of each.
abbrev pub special_blocks : List (ℕ × ℕ)
special_blocks =
    (0, ip4 0 255 255 255)
    ∷ (ip4 10 0 0 0, ip4 10 255 255 255)
    ∷ (ip4 100 64 0 0, ip4 100 127 255 255)
    ∷ (ip4 127 0 0 0, ip4 127 255 255 255)
    ∷ (ip4 169 254 0 0, ip4 169 254 255 255)
    ∷ (ip4 172 16 0 0, ip4 172 31 255 255)
    ∷ (ip4 192 0 0 0, ip4 192 0 0 255)
    ∷ (ip4 192 0 2 0, ip4 192 0 2 255)
    ∷ (ip4 192 168 0 0, ip4 192 168 255 255)
    ∷ (ip4 198 18 0 0, ip4 198 19 255 255)
    ∷ (ip4 198 51 100 0, ip4 198 51 100 255)
    ∷ (ip4 203 0 113 0, ip4 203 0 113 255)
    ∷ (ip4 224 0 0 0, ip4 255 255 255 255)
    ∷ []

abbrev pub within : ℕ → ℕ × ℕ → Bool
within n (lo, hi) = leb lo n && leb n hi
