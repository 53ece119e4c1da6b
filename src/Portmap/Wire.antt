-- ===== src/Portmap/Wire.antt =====
-- internal/portmap: byte sequences, as encoding/binary's BigEndian and netip.Addr lay them out.
use tailscale_derp.Base.{
  ℕ, zero, suc, ◌+◌, ◌*◌, ◌/◌, ◌%◌, ◌^◌, ◌<◌, ◌==◌, ◌≡◌, refl, ap, ◌∙◌, List, [], ◌∷◌, ◌++◌, arith,
  length, length-append, take, drop, Bool, true, false, ◌&&◌,
}
use tailscale_derp.Portmap.Address.{Addr, invalid, v4, v6}

-- The low k bytes of a number, the highest first.
unfoldable pub put_bytes : ℕ → ℕ → List ℕ
put_bytes zero n = []
put_bytes (suc k) n = put_bytes k (n / 256) ++ (n % 256 ∷ [])

unfoldable pub read_from : List ℕ → ℕ → ℕ
read_from [] acc = acc
read_from (b ∷ bs) acc = read_from bs (acc * 256 + b)

unfoldable pub read_bytes : List ℕ → ℕ
unfolding read_from
read_bytes bs = read_from bs 0

-- bs[from:from+n].
abbrev pub slice : ℕ → ℕ → List ℕ → List ℕ
slice from n bs = take n (drop from bs)

abbrev pub first_byte : List ℕ → ℕ
first_byte [] = 0
first_byte (b ∷ bs) = b

abbrev pub byte_at : ℕ → List ℕ → ℕ
byte_at i bs = first_byte (drop i bs)

unfoldable pub same_bytes : List ℕ → List ℕ → Bool
same_bytes [] [] = true
same_bytes (a ∷ as') (b ∷ bs) = a == b && same_bytes as' bs
same_bytes [] (b ∷ bs) = false
same_bytes (a ∷ as') [] = false

-- netip.Addr's As16: an IPv4 address is mapped into IPv6, and no address is sixteen zeros.
unfoldable pub as_16 : Addr → List ℕ
unfolding put_bytes
as_16 invalid = put_bytes 16 0
as_16 (v4 n) = put_bytes 16 (0xffff * 2 ^ 32 + n)
as_16 (v6 n) = put_bytes 16 n

-- netip.AddrFromSlice of sixteen bytes.
unfoldable pub addr_from_16 : List ℕ → Addr
unfolding read_bytes
addr_from_16 bs = v6 (read_bytes bs)

pub length-put_bytes : (k n : ℕ) → length (put_bytes k n) ≡ k
unfolding put_bytes
length-put_bytes zero n = refl
length-put_bytes (suc k) n =
    omega
      (arith, length-append (put_bytes k (n / 256)) (n % 256 ∷ []), length-put_bytes k (n / 256))

read_from-append :
    (xs ys : List ℕ) (acc : ℕ) → read_from (xs ++ ys) acc ≡ read_from ys (read_from xs acc)
unfolding read_from
read_from-append [] ys acc = refl
read_from-append (x ∷ xs) ys acc = read_from-append xs ys (acc * 256 + x)

pub read_bytes-put_bytes : (k n : ℕ) → n < 256 ^ k → read_bytes (put_bytes k n) ≡ n
unfolding put_bytes read_from read_bytes
read_bytes-put_bytes zero n h = omega (arith, h)
read_bytes-put_bytes (suc k) n h =
    read_from-append (put_bytes k (n / 256)) (n % 256 ∷ []) 0
    ∙ ap (λ (t : ℕ). t * 256 + n % 256) (read_bytes-put_bytes k (n / 256) (omega (arith, h)))
    ∙ omega arith

pub same_bytes-eq : (xs ys : List ℕ) → same_bytes xs ys ≡ true → xs ≡ ys
unfolding same_bytes
same_bytes-eq [] [] h = refl
same_bytes-eq [] (y ∷ ys) h = ground arith
same_bytes-eq (x ∷ xs) [] h = ground arith
same_bytes-eq (x ∷ xs) (y ∷ ys) h = ground (arith, same_bytes-eq xs ys)

pub same_bytes_refl : (xs : List ℕ) → same_bytes xs xs ≡ true
unfolding same_bytes
same_bytes_refl [] = refl
same_bytes_refl (x ∷ xs) = ground (arith, same_bytes_refl xs)
