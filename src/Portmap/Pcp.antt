-- ===== src/Portmap/Pcp.antt =====
-- internal/portmap/pcp.go: the packets of PCP, the exchange with the gateway and the backend.
-- A packet is a list of bytes; a port is below 2 ^ 16 and a nonce has 12 bytes.
pub mod Packet
pub mod Exchange
pub mod Backend
