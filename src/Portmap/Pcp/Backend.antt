-- ===== src/Portmap/Pcp/Backend.antt =====
-- internal/portmap/pcp.go: the backend with its table of nonces. The socket, the clock, the routing
-- table and the random source are parameters, and may depend on all calls made before.
pub mod Released
pub mod Nonces
use tailscale_derp.Base.{
  ℕ, ◌+◌, ◌*◌, ◌/◌, ◌^◌, ◌%◌, ◌≡◌, ◌==◌, ltb, String, List, [], ◌∷◌, Bool, true, false, not, ◌&&◌,
  Option, none, some, ◌⊎◌, inl, inr, if◌then◌else◌, find, remove, put,
}
use tailscale_derp.Portmap.{
  PortRequest, Request, Lease, Mapping, Closure, pcp_release, natpmp_release, upnp_release,
  Protocol, tcp, udp, Error,
}
use tailscale_derp.Portmap.Routes.{System, default_gateway, source_ipv4}
use tailscale_derp.Portmap.Address.{Addr}
use tailscale_derp.Portmap.Client.{same_addr}
use tailscale_derp.Portmap.Wire.{same_bytes}
use tailscale_derp.Portmap.Pcp.Packet.{
  PcpError, PcpMapResponse, Reply, granted, refused, network_error, not_granted, map_packet,
  read_response,
}
use tailscale_derp.Portmap.Pcp.Exchange.{
  Round, Outcome, received, gave_up, out_of_rounds, exchange, millisecond,
}

pub record PcpLeaseKey : Type 0 where
  pub gateway : Addr
  pub source : Addr
  pub protocol : Protocol
  pub internal_port : ℕ

-- A call of pcpMap and what came of it.
pub record Call : Type 0 where
  pub gateway : Addr
  pub source : Addr
  pub request : PortRequest
  pub external_port : ℕ
  pub lifetime : ℕ
  pub nonce : List ℕ
  pub reply : Reply

-- The nonces of the backend, and the calls that it made, newest first.
pub record PcpState : Type 0 where
  pub nonces : List (PcpLeaseKey × List ℕ)
  pub calls : List Call

-- The socket of one call: whether dialling fails, the time, the context's deadline and the rounds.
pub record Socket : Type 0 where
  pub dial_error : Option Error
  pub now : ℕ
  pub context_deadline : Option ℕ
  pub timeout : Error
  pub rounds : ℕ → Round

pub record Machine : Type 0 where
  pub system : System
  pub open_socket : Addr → List ℕ → List Call → Socket
  pub random : PcpState → List ℕ ⊎ Error
  pub clock : List Call → ℕ

pub data PcpResult {ℓ} (A : Type ℓ) : Type ℓ where
  done : A → PcpResult A
  failed : PcpError → PcpResult A

abbrev pub second : ℕ
second = 1000 * millisecond

abbrev pub hour : ℕ
hour = 3600 * second

unfoldable pub normalized_lifetime : ℕ → ℕ
normalized_lifetime value = if value == 0 then 2 * hour else value

unfoldable pub same_protocol : Protocol → Protocol → Bool
same_protocol tcp tcp = true
same_protocol udp udp = true
same_protocol tcp udp = false
same_protocol udp tcp = false

unfoldable pub same_key : PcpLeaseKey → PcpLeaseKey → Bool
unfolding same_addr same_protocol
same_key a b =
    same_addr a.gateway b.gateway
    && same_addr a.source b.source
    && same_protocol a.protocol b.protocol
    && a.internal_port == b.internal_port

unfoldable pub earlier : Option ℕ → ℕ → ℕ
earlier none d = d
earlier (some c) d = if ltb c d then c else d

unfoldable pub read_outcome : PortRequest → List ℕ → Outcome → Reply
unfolding read_response
read_outcome request nonce (received bytes) = read_response request nonce bytes
read_outcome request nonce (gave_up e) = refused (network_error e)
read_outcome request nonce out_of_rounds = refused (network_error [])

-- The dialling, and the loop with its three seconds and five rounds.
unfoldable pub converse : PortRequest → List ℕ → Socket → Option Error → Reply
unfolding read_outcome exchange earlier
converse request nonce s (some e) = refused (network_error e)
converse request nonce s none = read_outcome request nonce (
    exchange s.rounds (earlier s.context_deadline (s.now + 3 * second)) s.timeout 5 0 s.now
      (250 * millisecond))

unfoldable pub set_nonces : List (PcpLeaseKey × List ℕ) → PcpState → PcpState
set_nonces ns st = record st { nonces = ns }

unfoldable pub note_call : Call → PcpState → PcpState
note_call c st = record st { calls = c ∷ st.calls }

-- (b *pcpBackend) removeNonce: only the nonce that is still there.
unfoldable pub drop_nonce : PcpLeaseKey → List ℕ → Option (List ℕ) → PcpState → PcpState
unfolding same_key set_nonces remove same_bytes
drop_nonce key nonce none st = st
drop_nonce key nonce (some current) st =
    if same_bytes current nonce then set_nonces (remove (same_key key) st.nonces) st else st

unfoldable pub remove_nonce : PcpLeaseKey → List ℕ → PcpState → PcpState
unfolding drop_nonce same_key find
remove_nonce key nonce st = drop_nonce key nonce (find (same_key key) st.nonces) st

unfoldable pub key_of : Addr → Addr → PortRequest → PcpLeaseKey
key_of gateway source request = record {
  gateway = gateway;
  source = source;
  protocol = request.protocol;
  internal_port = request.internal_port;
}

unfoldable pub requested_port : PortRequest → ℕ
requested_port r = if r.external_port == 0 then r.internal_port else r.external_port

module _ (mc : Machine) where
  -- The random bytes for a key that has no nonce yet.
  unfoldable pub new_nonce :
      PcpLeaseKey → List ℕ ⊎ Error → PcpState → PcpResult (List ℕ × Bool) × PcpState
  unfolding set_nonces put same_key
  new_nonce key (inl bytes) st =
      (done (bytes, true), set_nonces (put (same_key key) key bytes st.nonces) st)
  new_nonce key (inr e) st = (failed (network_error e), st)

  unfoldable pub known_nonce :
      PcpLeaseKey → Option (List ℕ) → PcpState → PcpResult (List ℕ × Bool) × PcpState
  unfolding new_nonce
  known_nonce key (some bytes) st = (done (bytes, false), st)
  known_nonce key none st = new_nonce key (mc.random st) st

  -- (b *pcpBackend) nonce: the bytes, and whether they are new.
  unfoldable pub nonce_of : PcpLeaseKey → PcpState → PcpResult (List ℕ × Bool) × PcpState
  unfolding known_nonce find same_key
  nonce_of key st = known_nonce key (find (same_key key) st.nonces) st

  -- A request over a socket of its own, and the gateway's reply.
  unfoldable pub call_of : Addr → Addr → PortRequest → ℕ → ℕ → List ℕ → PcpState → Call
  unfolding converse map_packet
  call_of gateway source request port lifetime nonce st =
      let socket =
        mc.open_socket gateway (map_packet source request port lifetime nonce) st.calls in
      record {
        gateway = gateway;
        source = source;
        request = request;
        external_port = port;
        lifetime = lifetime;
        nonce = nonce;
        reply = converse request nonce socket socket.dial_error;
      }

  unfoldable pub pcp_map : Addr → Addr → PortRequest → ℕ → ℕ → List ℕ → PcpState → Reply × PcpState
  unfolding call_of note_call
  pcp_map gateway source request port lifetime nonce st =
      let call = call_of gateway source request port lifetime nonce st in
      (call.reply, note_call call st)

  unfoldable pub after_release :
      PcpLeaseKey → List ℕ → Reply × PcpState → Option PcpError × PcpState
  unfolding remove_nonce
  after_release key nonce (granted m, st) = (none, remove_nonce key nonce st)
  after_release key nonce (refused e, st) = (some e, st)

  -- The release closure: a request of lifetime 0 for the port that was granted.
  unfoldable pub release_pcp : Option Closure → PcpState → Option PcpError × PcpState
  unfolding pcp_map after_release key_of
  release_pcp (some (pcp_release gateway source request port nonce)) st =
      after_release (key_of gateway source request) nonce
        (pcp_map gateway source request port 0 nonce st)
  release_pcp (some (natpmp_release request port)) st = (none, st)
  release_pcp (some (upnp_release service port protocol)) st = (none, st)
  release_pcp none st = (none, st)

  -- The lease of an answer, refused where the port is strict and another was granted.
  unfoldable pub take_lease : ℕ → PortRequest → Lease → PcpState → PcpResult Lease × PcpState
  unfolding release_pcp
  take_lease requested request lease st =
      if request.strict && not (lease.external_port == requested)
      then (failed (not_granted requested), (release_pcp lease.release st).1)
      else (done lease, st)

  unfoldable pub settle :
      Addr → Addr → PortRequest → ℕ → List ℕ → Bool → Reply × PcpState → PcpResult Lease × PcpState
  unfolding take_lease remove_nonce key_of
  settle gateway source request requested nonce created (refused e, st) =
      (failed e, if created then remove_nonce (key_of gateway source request) nonce st else st)
  settle gateway source request requested nonce created (granted m, st) =
      take_lease requested request
        record {
          protocol = request.protocol;
          internal_port = request.internal_port;
          external_port = m.port;
          external_ip = m.ip;
          expires_at = mc.clock st.calls + m.lifetime * second;
          release = some (pcp_release gateway source request m.port nonce);
        }
        st

  unfoldable pub ask :
      Addr
      → Addr
      → PortRequest
      → ℕ
      → PcpResult (List ℕ × Bool) × PcpState
      → PcpResult Lease × PcpState
  unfolding settle pcp_map requested_port
  ask gateway source request lifetime (failed e, st) = (failed e, st)
  ask gateway source request lifetime (done (nonce, created), st) =
      settle gateway source request (requested_port request) nonce created (
        pcp_map gateway source request (requested_port request) (lifetime / second % 2 ^ 32) nonce
          st)

  -- (b *pcpBackend) acquire.
  unfoldable pub acquire : Addr → Addr → PortRequest → ℕ → PcpState → PcpResult Lease × PcpState
  unfolding ask nonce_of key_of
  acquire gateway source request lifetime st =
      ask gateway source request lifetime (nonce_of (key_of gateway source request) st)

  -- The STUN lease, without which the DERP lease is released again.
  unfoldable pub with_stun : Lease → PcpResult Lease × PcpState → PcpResult Mapping × PcpState
  unfolding release_pcp
  with_stun derp (done stun, st) =
      (done record { method = ""; derp = some derp; stun = some stun }, st)
  with_stun derp (failed e, st) = (failed e, (release_pcp derp.release st).1)

  unfoldable pub with_derp :
      Addr
      → Addr
      → Option PortRequest
      → ℕ
      → PcpResult Lease × PcpState
      → PcpResult Mapping × PcpState
  unfolding with_stun acquire
  with_derp gateway source stun lifetime (failed e, st) = (failed e, st)
  with_derp gateway source none lifetime (done derp, st) =
      (done record { method = ""; derp = some derp; stun = none }, st)
  with_derp gateway source (some r) lifetime (done derp, st) =
      with_stun derp (acquire gateway source r lifetime st)

  unfoldable pub with_source :
      Request → Addr → Addr ⊎ Error → PcpState → PcpResult Mapping × PcpState
  unfolding with_derp acquire normalized_lifetime
  with_source r gateway (inr e) st = (failed (network_error e), st)
  with_source r gateway (inl source) st =
      let lifetime = normalized_lifetime r.lifetime in
      with_derp gateway source r.stun lifetime (acquire gateway source r.derp lifetime st)

  unfoldable pub with_route :
      Request → Addr ⊎ Error → (Addr → Addr ⊎ Error) → PcpState → PcpResult Mapping × PcpState
  unfolding with_source
  with_route r (inr e) source st = (failed (network_error e), st)
  with_route r (inl gateway) source st = with_source r gateway (source gateway) st

  -- (b *pcpBackend) Map.
  unfoldable pub map_pcp : Request → PcpState → PcpResult Mapping × PcpState
  unfolding with_route default_gateway source_ipv4
  map_pcp r st =
      with_route r (default_gateway mc.system r.interface_name)
        (λ gateway. source_ipv4 mc.system gateway r.interface_name) st
