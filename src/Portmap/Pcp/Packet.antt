-- ===== src/Portmap/Pcp/Packet.antt =====
-- internal/portmap/pcp.go: the MAP request and the reading of its response.
pub mod Sound
use tailscale_derp.Base.{
  ℕ, ◌<◌, ◌==◌, ◌≡◌, refl, ltb, List, [], ◌∷◌, ◌++◌, Bool, true, false, not, ◌||◌, length,
  if◌then◌else◌, Bool-cases, inl, inr, arith, drop, take, drop-append, take-append, ◌∙◌, ap, sym,
  length-append,
}
use tailscale_derp.Portmap.{PortRequest, Protocol, tcp, udp, Error}
use tailscale_derp.Portmap.Address.{Addr, unmap, v6}
use tailscale_derp.Portmap.Wire.{
  put_bytes, read_bytes, slice, byte_at, same_bytes, as_16, addr_from_16, length-put_bytes,
  read_bytes-put_bytes, same_bytes-eq, same_bytes_refl,
}

pub data PcpError : Type 0 where
  network_error : Error → PcpError
  invalid_response mismatch : PcpError
  result_code not_granted : ℕ → PcpError

pub record PcpMapResponse : Type 0 where
  pub ip : Addr
  pub port : ℕ
  pub lifetime : ℕ

pub data Reply : Type 0 where
  granted : PcpMapResponse → Reply
  refused : PcpError → Reply

abbrev pub protocol_number : Protocol → ℕ
protocol_number tcp = 6
protocol_number udp = 17

-- The 60 bytes of a request: header, nonce, protocol, ports, and no suggested address.
unfoldable pub map_packet : Addr → PortRequest → ℕ → ℕ → List ℕ → List ℕ
unfolding put_bytes as_16
map_packet source request external_port lifetime nonce =
    2
    ∷ 1
    ∷ 0
    ∷ 0
    ∷ (put_bytes 4 lifetime
        ++ (as_16 source
            ++ (nonce
                ++ (protocol_number request.protocol
                    ∷ 0
                    ∷ 0
                    ∷ 0
                    ∷ (put_bytes 2 request.internal_port
                        ++ (put_bytes 2 external_port ++ put_bytes 16 0))))))

-- The response fits the request: its nonce, protocol and internal port.
unfoldable pub fits : PortRequest → List ℕ → List ℕ → Bool
unfolding same_bytes read_bytes
fits request nonce response = not (
    not (same_bytes (slice 24 12 response) nonce)
    || not (byte_at 36 response == protocol_number request.protocol)
    || not (read_bytes (slice 40 2 response) == request.internal_port))

-- What pcpMap makes of the bytes that it read. Sixteen bytes are always an address.
unfoldable pub read_response : PortRequest → List ℕ → List ℕ → Reply
unfolding fits addr_from_16 unmap read_bytes
read_response request nonce response =
    if ltb (length response) 60 || not (byte_at 0 response == 2) || not (byte_at 1 response == 0x81)
    then refused invalid_response
    else if not (byte_at 3 response == 0)
    then refused (result_code (byte_at 3 response))
    else if not (fits request nonce response)
    then refused mismatch
    else granted record {
      ip = unmap (addr_from_16 (slice 44 16 response));
      port = read_bytes (slice 42 2 response);
      lifetime = read_bytes (slice 4 4 response);
    }

-- A gateway's answer to a request, after RFC 6887: the nonce, the protocol and the internal port are
-- those of the request; `rest` is what follows the lifetime in the header, twelve bytes of it
-- reserved.
abbrev pub gateway_reply : List ℕ → ℕ → List ℕ → ℕ → ℕ → List ℕ
gateway_reply request lifetime rest port ip =
    2
    ∷ 0x81
    ∷ 0
    ∷ 0
    ∷ (put_bytes 4 lifetime
        ++ (rest ++ (slice 24 18 request ++ (put_bytes 2 port ++ put_bytes 16 ip))))
