-- ===== src/Portmap/Address/Public.antt =====
-- IsPublicIPv4 against the address ranges of the special-purpose blocks.
use tailscale_derp.Base.{
  ℕ, ◌+◌, ◌*◌, ◌%◌, ◌^◌, ◌<◌, ◌≤◌, ◌≡◌, Bool, true, false, not, ◌||◌, arith, any, any-drop, inl,
  inr, ◌⊎◌, Bool-cases,
}
use tailscale_derp.Portmap.Address.{
  v4, v6, is_4in6, unicast_v4, contains, within, ip4, special_blocks, is_public_ipv4,
  non_public_ipv4,
}

-- A prefix with 8, 16, 17, 20, 22 or 24 bits behind it holds one interval of addresses.
contains_8 : (n k : ℕ) → contains n (k * 2 ^ 8, 8) ≡ within n (k * 2 ^ 8, k * 2 ^ 8 + 255)
contains_8 n k = ground arith

contains_16 : (n k : ℕ) → contains n (k * 2 ^ 16, 16) ≡ within n (k * 2 ^ 16, k * 2 ^ 16 + 0xffff)
contains_16 n k = ground arith

contains_17 : (n k : ℕ) → contains n (k * 2 ^ 17, 17) ≡ within n (k * 2 ^ 17, k * 2 ^ 17 + 0x1ffff)
contains_17 n k = ground arith

contains_20 : (n k : ℕ) → contains n (k * 2 ^ 20, 20) ≡ within n (k * 2 ^ 20, k * 2 ^ 20 + 0xfffff)
contains_20 n k = ground arith

contains_22 : (n k : ℕ) → contains n (k * 2 ^ 22, 22) ≡ within n (k * 2 ^ 22, k * 2 ^ 22 + 0x3fffff)
contains_22 n k = ground arith

contains_24 : (n k : ℕ) → contains n (k * 2 ^ 24, 24) ≡ within n (k * 2 ^ 24, k * 2 ^ 24 + 0xffffff)
contains_24 n k = ground arith

contains_top :
    (n : ℕ)
    → n < 2 ^ 32
    → (contains n (ip4 224 0 0 0, 28) || (contains n (ip4 240 0 0 0, 28) || false))
      ≡ (within n (ip4 224 0 0 0, ip4 255 255 255 255) || false)
contains_top n h = ground arith

or_cong : {a b c d : Bool} → a ≡ b → c ≡ d → (a || c) ≡ (b || d)
or_cong p q = λ i. p i || q i

blocks : (n : ℕ) → n < 2 ^ 32 → any non_public_ipv4 (contains n) ≡ any special_blocks (within n)
unfolding non_public_ipv4
blocks n h = or_cong (contains_24 n 0) (
    or_cong (contains_24 n 10) (
      or_cong (contains_22 n 401) (
        or_cong (contains_24 n 127) (
          or_cong (contains_16 n 43518) (
            or_cong (contains_20 n 2753) (
              or_cong (contains_8 n 12582912) (
                or_cong (contains_8 n 12582914) (
                  or_cong (contains_16 n 49320) (
                    or_cong (contains_17 n 25353) (
                      or_cong (contains_8 n 12989284)
                        (or_cong (contains_8 n 13303921) (contains_top n h))))))))))))

or_left : {a : Bool} (b : Bool) → a ≡ true → (a || b) ≡ true
or_left b h = ground arith

within_of : (n lo hi : ℕ) → lo ≤ n → n ≤ hi → within n (lo, hi) ≡ true
within_of n lo hi p q = ground arith

-- The four blocks that hold what IsGlobalUnicast refuses among IPv4 addresses.
refused_blocks :
    (n : ℕ)
    → n < 2 ^ 32
    → unicast_v4 n ≡ false
    → (within n (0, ip4 0 255 255 255) ≡ true)
      ⊎ (within n (ip4 127 0 0 0, ip4 127 255 255 255) ≡ true)
      ⊎ (within n (ip4 169 254 0 0, ip4 169 254 255 255) ≡ true)
      ⊎ (within n (ip4 224 0 0 0, ip4 255 255 255 255) ≡ true)
unfolding unicast_v4
refused_blocks n h e = ground arith

refused_unicast : (n : ℕ) → n < 2 ^ 32 → unicast_v4 n ≡ false → any special_blocks (within n) ≡ true
refused_unicast n h e = elim (refused_blocks n h e) [
  | inl p ↦ any-drop 0 special_blocks (within n) (or_left _ p)
  | inr (inl p) ↦ any-drop 3 special_blocks (within n) (or_left _ p)
  | inr (inr (inl p)) ↦ any-drop 4 special_blocks (within n) (or_left _ p)
  | inr (inr (inr p)) ↦ any-drop 12 special_blocks (within n) (or_left _ p)
]

-- An IPv4 address, plain or mapped into IPv6, is public exactly if it lies in none of the thirteen
-- special-purpose blocks, given by their first and last addresses.
pub is_public_ipv4_blocks :
    (n : ℕ)
    → n < 2 ^ 32
    → (is_public_ipv4 (v4 n) ≡ not (any special_blocks (within n)))
      × (is_public_ipv4 (v6 (0xffff * 2 ^ 32 + n)) ≡ not (any special_blocks (within n)))
unfolding is_public_ipv4
is_public_ipv4_blocks n h = (plain, rw (mapped, low) plain)
  where
    plain : is_public_ipv4 (v4 n) ≡ not (any special_blocks (within n))
    plain = elim (Bool-cases (unicast_v4 n)) [
      | inl e ↦ rw (blocks n h) (ground (arith, e))
      | inr e ↦ rw (blocks n h, refused_unicast n h e) (ground (arith, e))
    ]

    mapped : is_4in6 (0xffff * 2 ^ 32 + n) ≡ true
    mapped = ground arith

    low : (0xffff * 2 ^ 32 + n) % 2 ^ 32 ≡ n
    low = omega arith
