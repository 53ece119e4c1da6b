-- ===== src/Peers/Tests.antt =====
-- Runs of the identity resolver at concrete inputs.
use tailscale_derp.Base.{◌≡◌, refl, none, some, [], find}
use tailscale_derp.Devices.{name_is}
use tailscale_derp.Tracker.{PeerInfo}
use tailscale_derp.Peers.{
  PeerIdentity, IdentityResolver, new_identity_resolver, resolve, finish_lookup, Reached, start,
  later, resolves, answers,
}
use tailscale_derp.Peers.Sound.{IsSound, reached-IsSound, Answered, resolve-Answered}

abbrev me : PeerIdentity
me = record {
  source = "local_tailscaled";
  name = "phone";
  hostname = "";
  user = "";
  node_id = "n1";
  addresses = [];
  os = "";
  client_version = "";
  tags = [];
  sources = [];
}

-- A lookup of a key begins, and answers.
abbrev begun : IdentityResolver
begun = (resolve "a" 10 new_identity_resolver).1

abbrev answered : IdentityResolver
answered = finish_lookup "a" (some me) 11 begun

begun-Reached : Reached begun
begun-Reached = later new_identity_resolver begun start (resolves new_identity_resolver "a" 10)

answered-Reached : Reached answered
unfolding resolve new_identity_resolver
answered-Reached = later begun answered begun-Reached (answers begun "a" (some me) 11 refl)

resolves_later : (resolve "a" 12 answered).0 ≡ some me
unfolding resolve finish_lookup new_identity_resolver
resolves_later = refl

reached-IsSound_example : IsSound answered
reached-IsSound_example = reached-IsSound answered answered-Reached

resolve-Answered_example :
    Answered 12 (resolve "a" 12 answered).0 (find (name_is "a") answered.cache)
resolve-Answered_example = resolve-Answered answered "a" 12 answered-Reached

abbrev peer : PeerInfo
peer = record {
  public_key = "a";
  remote_addr = "";
  connected_at = 1;
  connections = [];
  bytes_recv = 0;
  bytes_sent = 0;
  recv_bytes_per_sec = none;
  sent_bytes_per_sec = none;
}
