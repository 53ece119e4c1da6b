-- ===== src/Lib.antt =====
-- Verification of tailscale-derp: a DERP relay that publishes its own external endpoint.
--
-- The program keeps the relay reachable behind a home gateway. The endpoint manager asks the
-- mapping client for port mappings, or finds public addresses, has the validator check the
-- candidate over loopback, and publishes it into the DERP map of each tailnet's policy. The
-- traffic persister keeps totals across restarts, and the tracker counts what each peer sends and
-- receives. What the manager calls (mapper, validator, certificates, policies) it is given as
-- interfaces.
--
-- Files, and the code that each models:
-- - Base: shared names, tests on numbers and texts, lists, signed integers.
-- - Traffic: internal/traffic/traffic.go. Counters are 64-bit and wrap; the files are a disk state
--   with a temporary file, and each step of a save may fail. Laws is on one save and load, History on
--   the goroutine of Start.
-- - Portmap: internal/portmap/portmap.go, the types and releases; Portmap.Address has the public
--   address tests of portmap.go and network.go, Portmap.Client the client (Client.Map is map_client)
--   over any backends. What is asked, given and released is a log, newest first.
-- - Portmap.Pcp: internal/portmap/pcp.go. Packet has the bytes of the request and the reading of the
--   response (over Portmap.Wire), Exchange the loop of pcpMap, Backend the nonces, acquire and Map.
--   Portmap.Natpmp and Portmap.Upnp are natpmp.go and upnp.go; what both do is Portmap.Ports. Each
--   backend keeps a log of what it asks its gateway for. Portmap.Routes is network.go.
-- - Endpoint: internal/endpoint/manager.go. The record Manager is the struct with a log of the calls
--   made; Interfaces has the interfaces as functions of that log, Failures has fail, publish,
--   releaseActive and applyPartialValidation, Draft the first half of reconcile up to the candidate,
--   Operations the rest of it, Upkeep Check, Sync, maintain and loop. History is any sequence of calls;
--   opMu makes each call one step; the fail of maintain and the release at the end of loop, which run
--   outside it, are part of the step of maintain and of the end. Laws has the proofs on mappings and
--   failures.
-- - Endpoint.Validator: internal/endpoint/validator.go, over a parameter for the network.
-- - Derpmap: internal/ops/derpmap.go, patchDERPMap on HuJSON trees with comments (objectMember is
--   object_member, and so on); Derpmap.Written is on the node that is written, and Derpmap.Sync has
--   reconcileDERPMap and the calls of internal/ops/tailnet_api.go that it makes.
-- - Tracker: internal/tracker/tracker.go, the peers and their connections; Sound has the agreement of
--   the two maps, Runs any sequence of calls.
-- - Devices: internal/ops/devices.go, the device cache, its refresh and the admission of clients;
--   Devices.Snapshot the list merged over the instances and the verifier. Devices.Management is
--   internal/ops/device_management.go with the device parts of tailnet_api.go: the calls and the cache
--   (perform is all of setDeviceName and its like), Handlers the HTTP handlers, Checks their checks,
--   Bounds and Effects what the checks let through and what a call makes of the cache.
-- - Settings: cmd/tailscale-derp/main.go and config_model.go, the configuration: File is toUCIConfig,
--   with Lookup for the options of an instance, Apply applyUCIConfig, Override the flags and
--   buildConfig, Checks validateConfig.
-- - Peers: internal/ops/peers.go, the identities of peers. A lookup is a goroutine, and so three
--   steps: it begins, answers and gives its slot back; Sound has what any sequence of them keeps,
--   Details the answer of handlePeerDetails.
-- - Certs: internal/cert/manager.go, the self-signed certificate. Names has the normal form of names,
--   Covers the names that the certificate in use has, Started a new manager and its updates.
--
-- Loops are recursion on lists, and on the three attempts that an update of a policy has. The retries
-- of PCP have five rounds as fuel, which its three seconds with growing delays never use up. Times are
-- numbers, and what a clock gives is an argument.
--
-- Parameters: the client's mapping backends, the gateway's answers, the NAT-PMP and UPnP packages,
-- the network, TLS, STUN and X.509, netip, the hujson package, the tailnet's API, tailscaled's answer
-- on a peer, the JSON codec and the file system. Of hujson it is assumed that a literal reads as what
-- it was made of, of the JSON codec, in one theorem, that it reads back what it writes, and of the
-- calendar that a year is longer than thirty days.
--
-- Not modelled: internal/derpserver, a copy of another project's package; the reading of the text of a
-- UCI file; the handlers of a policy document and of the status, around the calls that are modelled;
-- the hash and the files of the certificate; HTTP routing, sockets, the service script and the start
-- of the process, which are input and output.
pub mod Base
pub mod Certs
pub mod Derpmap
pub mod Devices
pub mod Endpoint
pub mod Peers
pub mod Portmap
pub mod Settings
pub mod Tracker
pub mod Traffic
