-- ===== src/Tracker.antt =====
-- internal/tracker/tracker.go: the peers with at least one connection, and their byte counts.
-- The two maps hold connections by number and peers by key. A panic, of a nil peer or of an empty
-- list of connections, is `none`. Counters are int64, kept modulo 2 ^ 64; a rate is the bytes and the
-- time that the source divides. Times are numbers and stay so where the source formats them.
pub mod Sound
pub mod Runs
pub mod Tests
use tailscale_derp.Base.{
  ℕ, ◌+◌, ◌-◌, ◌≡◌, ◌==◌, ltb, leb, String, str_eq, Bool, true, false, not, Option, none, some,
  List, [], ◌∷◌, if◌then◌else◌, is_empty, find, remove, put, length,
}
use tailscale_derp.Traffic.{add64, sub64}

pub record Connection : Type 0 where
  pub remote_addr : String
  pub connected_at : ℕ

pub record PeerState : Type 0 where
  pub connections : List (ℕ × Connection)
  pub recv : ℕ
  pub sent : ℕ
  pub last_recv : ℕ
  pub last_sent : ℕ
  pub last_sample : ℕ
  pub recv_rate : Option (ℕ × ℕ)
  pub sent_rate : Option (ℕ × ℕ)

pub record PeerTracker : Type 0 where
  pub peers : List (String × PeerState)
  pub connections : List (ℕ × String)

pub record PeerInfo : Type 0 where
  pub public_key : String
  pub remote_addr : String
  pub connected_at : ℕ
  pub connections : List Connection
  pub bytes_recv : ℕ
  pub bytes_sent : ℕ
  pub recv_bytes_per_sec : Option (ℕ × ℕ)
  pub sent_bytes_per_sec : Option (ℕ × ℕ)

abbrev pub sample_interval : ℕ
sample_interval = 5

unfoldable pub new_peer_tracker : PeerTracker
new_peer_tracker = record { peers = []; connections = [] }

abbrev pub key_is : String → String → Bool
key_is key k = str_eq k key

abbrev pub id_is : ℕ → ℕ → Bool
id_is id n = n == id

unfoldable pub known_peer : ℕ → Option PeerState → PeerState
known_peer connected_at (some p) = p
known_peer connected_at none = record {
  connections = [];
  recv = 0;
  sent = 0;
  last_recv = 0;
  last_sent = 0;
  last_sample = connected_at;
  recv_rate = none;
  sent_rate = none;
}

abbrev pub add_connection : ℕ → Connection → PeerState → PeerState
add_connection id c p = record p { connections = put (id_is id) id c p.connections }

unfoldable pub register : ℕ → String → String → ℕ → PeerTracker → PeerTracker
unfolding known_peer
register id public_key remote_addr connected_at t = record t {
  peers =
      put (key_is public_key) public_key
        (add_connection id (record { remote_addr = remote_addr; connected_at = connected_at })
          (known_peer connected_at (find (key_is public_key) t.peers)))
        t.peers;
  connections = put (id_is id) id public_key t.connections;
}

unfoldable pub store_peer :
    String → PeerState → List (String × PeerState) → List (String × PeerState)
store_peer key p peers =
    if is_empty p.connections then remove (key_is key) peers else put (key_is key) key p peers

unfoldable pub drop_connection : ℕ → String → Option PeerState → PeerTracker → Option PeerTracker
unfolding store_peer
drop_connection id key none t = none
drop_connection id key (some p) t = some (record t {
  connections = remove (id_is id) t.connections;
  peers = store_peer key (record p { connections = remove (id_is id) p.connections }) t.peers;
})

unfoldable pub unregister_key : ℕ → Option String → PeerTracker → Option PeerTracker
unfolding drop_connection
unregister_key id none t = some t
unregister_key id (some key) t = drop_connection id key (find (key_is key) t.peers) t

unfoldable pub unregister : ℕ → PeerTracker → Option PeerTracker
unfolding unregister_key
unregister id t = unregister_key id (find (id_is id) t.connections) t

-- Receive and Send add to one counter of the connection's peer.
unfoldable pub change_peer :
    (PeerState → PeerState) → String → Option PeerState → PeerTracker → Option PeerTracker
change_peer f key none t = none
change_peer f key (some p) t = some (record t { peers = put (key_is key) key (f p) t.peers })

unfoldable pub change_key :
    (PeerState → PeerState) → Option String → PeerTracker → Option PeerTracker
unfolding change_peer
change_key f none t = some t
change_key f (some key) t = change_peer f key (find (key_is key) t.peers) t

abbrev pub count_recv : ℕ → PeerState → PeerState
count_recv bytes p = record p { recv = add64 p.recv bytes }

abbrev pub count_sent : ℕ → PeerState → PeerState
count_sent bytes p = record p { sent = add64 p.sent bytes }

unfoldable pub receive : ℕ → ℕ → PeerTracker → Option PeerTracker
unfolding change_key
receive id bytes t = change_key (count_recv bytes) (find (id_is id) t.connections) t

unfoldable pub send : ℕ → ℕ → PeerTracker → Option PeerTracker
unfolding change_key
send id bytes t = change_key (count_sent bytes) (find (id_is id) t.connections) t

unfoldable pub sample : ℕ → PeerState → PeerState
sample now p =
    if leb (p.last_sample + sample_interval) now
    then record p {
      recv_rate = some (sub64 p.recv p.last_recv, now - p.last_sample);
      sent_rate = some (sub64 p.sent p.last_sent, now - p.last_sample);
      last_recv = p.recv;
      last_sent = p.sent;
      last_sample = now;
    }
    else p

unfoldable pub insert : {A : Type 0} → (A → A → Bool) → A → List A → List A
insert less x [] = x ∷ []
insert less x (y ∷ ys) = let rest = insert less x ys in if less y x then y ∷ rest else x ∷ y ∷ ys

unfoldable pub sort : {A : Type 0} → (A → A → Bool) → List A → List A
unfolding insert
sort less [] = []
sort less (x ∷ xs) = insert less x (sort less xs)

abbrev pub values : List (ℕ × Connection) → List Connection
values [] = []
values ((id, c) ∷ cs) = c ∷ values cs

abbrev pub last_of : Connection → List Connection → Connection
last_of c [] = c
last_of c (d ∷ ds) = last_of d ds

-- `connections[0]` and `connections[len-1]` of an empty list are a panic.
unfoldable pub info_of : String → PeerState → List Connection → Option PeerInfo
info_of key p [] = none
info_of key p (c ∷ cs) = some (record {
  public_key = key;
  remote_addr = (last_of c cs).remote_addr;
  connected_at = c.connected_at;
  connections = c ∷ cs;
  bytes_recv = p.recv;
  bytes_sent = p.sent;
  recv_bytes_per_sec = p.recv_rate;
  sent_bytes_per_sec = p.sent_rate;
})

unfoldable pub peer_info : String → PeerState → Option PeerInfo
unfolding info_of sort
peer_info key p = info_of key p (values (sort (λ a b. ltb a.0 b.0) p.connections))

unfoldable pub sampled : ℕ → List (String × PeerState) → List (String × PeerState)
unfolding sample
sampled now [] = []
sampled now ((key, p) ∷ ps) = (key, sample now p) ∷ sampled now ps

abbrev pub add_info : Option PeerInfo → Option (List PeerInfo) → Option (List PeerInfo)
add_info none rest = none
add_info (some i) none = none
add_info (some i) (some is) = some (i ∷ is)

unfoldable pub collect : List (String × PeerState) → Option (List PeerInfo)
unfolding peer_info
collect [] = some []
collect ((key, p) ∷ ps) = add_info (peer_info key p) (collect ps)

abbrev pub answer :
    (String → String → Bool)
    → PeerTracker
    → Option (List PeerInfo)
    → Option (List PeerInfo × PeerTracker)
answer less t none = none
answer less t (some is) = some (sort (λ a b. less a.public_key b.public_key) is, t)

-- GetAll: the peers in the order of their keys, which `less` is, and the tracker with new rates.
unfoldable pub get_all :
    (String → String → Bool) → ℕ → PeerTracker → Option (List PeerInfo × PeerTracker)
unfolding sampled collect
get_all less now t =
    answer less (record t { peers = sampled now t.peers }) (collect (sampled now t.peers))
