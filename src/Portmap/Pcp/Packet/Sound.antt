-- ===== src/Portmap/Pcp/Packet/Sound.antt =====
-- internal/portmap/pcp.go: a response made for a request is read as it was meant, and is refused for
-- another request.
use tailscale_derp.Base.{
  ℕ, ◌≢◌, ◌⊎◌, ◌+◌, ◌*◌, ◌^◌, ◌<◌, ◌==◌, ◌≡◌, refl, ltb, List, ◌∷◌, ◌++◌, true, false, length,
  arith, drop, take, drop-append, take-append, ◌∙◌, ap, length-append, take-append_more,
}
use mathlib.Core.List.{append_assoc}
use tailscale_derp.Portmap.{PortRequest}
use tailscale_derp.Portmap.Address.{Addr, unmap, v6, v4, invalid}
use tailscale_derp.Portmap.Pcp.Packet.{
  granted, read_response, fits, gateway_reply, map_packet, protocol_number,
}
use tailscale_derp.Portmap.Wire.{
  put_bytes, read_bytes, slice, first_byte, byte_at, as_16, addr_from_16, length-put_bytes,
  read_bytes-put_bytes, same_bytes_refl,
}

==_refl : (a : ℕ) → (a == a) ≡ true
==_refl a = ground arith

length-as_16 : (a : Addr) → length (as_16 a) ≡ 16
unfolding as_16
length-as_16 invalid = length-put_bytes 16 0
length-as_16 (v4 n) = length-put_bytes 16 (0xffff * 2 ^ 32 + n)
length-as_16 (v6 n) = length-put_bytes 16 n

drop-two :
    (m k : ℕ) (xs ys zs : List ℕ)
    → m ≡ length xs + (length ys + k)
    → drop m (xs ++ (ys ++ zs)) ≡ drop k zs
drop-two m k xs ys zs h =
    drop-append m (length ys + k) xs (ys ++ zs) h ∙ drop-append (length ys + k) k ys zs refl

-- What a gateway copies from the request.
copied :
    (source : Addr) (r : PortRequest) (ep l : ℕ) (nonce : List ℕ)
    → length nonce ≡ 12
    → slice 24 18 (map_packet source r ep l nonce)
      ≡ nonce ++ (protocol_number r.protocol ∷ 0 ∷ 0 ∷ 0 ∷ put_bytes 2 r.internal_port)
unfolding map_packet put_bytes
copied source r ep l nonce h =
    ap (take 18) (drop-append 16 0 (as_16 source) _ (omega (arith, length-as_16 source)))
    ∙ take-append_more 18 6 nonce _ (omega (arith, h))

module _ (r : PortRequest) (nonce rest : List ℕ) (l port ip : ℕ) where
  abbrev tail_bytes : List ℕ
  tail_bytes =
      protocol_number r.protocol
      ∷ 0
      ∷ 0
      ∷ 0
      ∷ (put_bytes 2 r.internal_port ++ (put_bytes 2 port ++ put_bytes 16 ip))

  abbrev laid_out : List ℕ
  laid_out = 2 ∷ 0x81 ∷ 0 ∷ 0 ∷ (put_bytes 4 l ++ (rest ++ (nonce ++ tail_bytes)))

  gateway_reply-laid_out :
      (source : Addr) (ep life : ℕ)
      → length nonce ≡ 12
      → gateway_reply (map_packet source r ep life nonce) l rest port ip ≡ laid_out
  gateway_reply-laid_out source ep life h =
      ap
        (λ (t : List ℕ).
          2
          ∷ 0x81
          ∷ 0
          ∷ 0
          ∷ (put_bytes 4 l ++ (rest ++ (t ++ (put_bytes 2 port ++ put_bytes 16 ip)))))
        (copied source r ep life nonce h)
      ∙ ap (λ (t : List ℕ). 2 ∷ 0x81 ∷ 0 ∷ 0 ∷ (put_bytes 4 l ++ (rest ++ t)))
          (append_assoc nonce _ _)

  laid_nonce : length nonce ≡ 12 → length rest ≡ 16 → slice 24 12 laid_out ≡ nonce
  unfolding put_bytes
  laid_nonce h k =
      ap (take 12) (drop-append 16 0 rest (nonce ++ tail_bytes) (omega (arith, k)))
      ∙ take-append 12 nonce tail_bytes h

  module _ (h : length nonce ≡ 12) (k : length rest ≡ 16) where
    laid_protocol : byte_at 36 laid_out ≡ protocol_number r.protocol
    unfolding put_bytes
    laid_protocol =
        ap (λ (t : List ℕ). first_byte t)
          (drop-two 28 0 rest nonce tail_bytes (omega (arith, h, k)))

    laid_internal : r.internal_port < 2 ^ 16 → read_bytes (slice 40 2 laid_out) ≡ r.internal_port
    unfolding put_bytes
    laid_internal b =
        ap (λ (t : List ℕ). read_bytes (take 2 t))
          (drop-two 32 4 rest nonce tail_bytes (omega (arith, h, k)))
        ∙ read_bytes-put_bytes 2 r.internal_port (omega (arith, b))

    laid_port : port < 2 ^ 16 → read_bytes (slice 42 2 laid_out) ≡ port
    unfolding put_bytes
    laid_port b =
        ap (λ (t : List ℕ). read_bytes (take 2 t))
          (drop-two 34 6 rest nonce tail_bytes (omega (arith, h, k)))
        ∙ read_bytes-put_bytes 2 port (omega (arith, b))

    laid_ip : ip < 2 ^ 128 → read_bytes (slice 44 16 laid_out) ≡ ip
    unfolding put_bytes
    laid_ip b =
        ap (λ (t : List ℕ). read_bytes (take 16 t))
          (drop-two 36 8 rest nonce tail_bytes (omega (arith, h, k)))
        ∙ read_bytes-put_bytes 16 ip (omega (arith, b))

    laid_lifetime : l < 2 ^ 32 → read_bytes (slice 4 4 laid_out) ≡ l
    unfolding put_bytes
    laid_lifetime b = read_bytes-put_bytes 4 l (omega (arith, b))

    laid_length : ltb (length laid_out) 60 ≡ false
    unfolding put_bytes
    laid_length =
        ground
          (arith, length-append rest (nonce ++ tail_bytes), length-append nonce tail_bytes, h, k)

    laid-read_response :
        r.internal_port < 2 ^ 16
        → port < 2 ^ 16
        → ip < 2 ^ 128
        → l < 2 ^ 32
        → read_response r nonce laid_out
          ≡ granted record { ip = unmap (v6 ip); port = port; lifetime = l }
    unfolding read_response fits addr_from_16
    laid-read_response bi bp bip bl =
        simp
          (
            laid_length,
            laid_protocol,
            laid_internal bi,
            laid_port bp,
            laid_ip bip,
            laid_lifetime bl,
            laid_nonce h k,
            same_bytes_refl nonce,
            ==_refl (protocol_number r.protocol),
            ==_refl r.internal_port,
          )
          refl

-- A gateway's response to a request, made from the request's bytes by RFC 6887, is read as the
-- address, port and lifetime that the gateway put in, if these and the internal port fit their
-- fields and the nonce has its twelve bytes; `rest` is the epoch and the reserved bytes.
pub read_response-gateway_reply :
    (source : Addr) (r : PortRequest) (asked life : ℕ) (nonce rest : List ℕ) (l port ip : ℕ)
    → length nonce ≡ 12
    → length rest ≡ 16
    → r.internal_port < 2 ^ 16
    → port < 2 ^ 16
    → ip < 2 ^ 128
    → l < 2 ^ 32
    → read_response r nonce (gateway_reply (map_packet source r asked life nonce) l rest port ip)
      ≡ granted record { ip = unmap (v6 ip); port = port; lifetime = l }
read_response-gateway_reply source r asked life nonce rest l port ip h k bi bp bip bl =
    ap (read_response r nonce) (gateway_reply-laid_out r nonce rest l port ip source asked life h)
    ∙ laid-read_response r nonce rest l port ip h k bi bp bip bl

-- Two requests differ in what a response must copy.
abbrev pub Differs : PortRequest → List ℕ → PortRequest → List ℕ → Type 0
Differs r nonce r' nonce' =
    (nonce ≢ nonce') ⊎ ((r.protocol ≢ r'.protocol) ⊎ (r.internal_port ≢ r'.internal_port))
