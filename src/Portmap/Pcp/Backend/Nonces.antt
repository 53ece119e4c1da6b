-- ===== src/Portmap/Pcp/Backend/Nonces.antt =====
-- internal/portmap/pcp.go: the table of nonces. A renewal must carry the nonce of the mapping that it
-- renews, and so must a release.
use tailscale_derp.Base.{
  ℕ, ◌/◌, ◌%◌, ◌^◌, ◌≡◌, ◌≢◌, ◌==◌, List, Bool, true, false, not, ◌&&◌, Option, none, some, ◌⊎◌,
  inl, inr, refl, Bool-cases, arith, ◌∙◌, find, find-put, find-put_other, find-remove_other, sym,
}
use tailscale_derp.Portmap.{PortRequest, Lease, pcp_release, Error, Protocol, tcp, udp}
use tailscale_derp.Portmap.Address.{Addr, v4, v6, invalid}
use tailscale_derp.Portmap.Client.{same_addr}
use tailscale_derp.Portmap.Pcp.Packet.{Reply, granted, refused}
use tailscale_derp.Portmap.Pcp.Backend.{
  PcpLeaseKey, PcpState, Machine, PcpResult, done, failed, drop_nonce, remove_nonce, pcp_map,
  new_nonce, known_nonce, nonce_of, after_release, release_pcp, take_lease, settle, ask, acquire,
  key_of, set_nonces, note_call, requested_port, same_key, same_protocol, call_of, second,
}

same_addr-eq : (a b : Addr) → same_addr a b ≡ true → a ≡ b
unfolding same_addr
same_addr-eq invalid invalid h = refl
same_addr-eq (v4 a) (v4 b) h = ground arith
same_addr-eq (v6 a) (v6 b) h = ground arith
same_addr-eq invalid (v4 b) h = ground arith
same_addr-eq invalid (v6 b) h = ground arith
same_addr-eq (v4 a) invalid h = ground arith
same_addr-eq (v4 a) (v6 b) h = ground arith
same_addr-eq (v6 a) invalid h = ground arith
same_addr-eq (v6 a) (v4 b) h = ground arith

same_protocol-eq : (a b : Protocol) → same_protocol a b ≡ true → a ≡ b
unfolding same_protocol
same_protocol-eq tcp tcp h = refl
same_protocol-eq udp udp h = refl
same_protocol-eq tcp udp h = ground arith
same_protocol-eq udp tcp h = ground arith

same_addr_refl : (a : Addr) → same_addr a a ≡ true
unfolding same_addr
same_addr_refl invalid = refl
same_addr_refl (v4 a) = ground arith
same_addr_refl (v6 a) = ground arith

same_protocol_refl : (p : Protocol) → same_protocol p p ≡ true
unfolding same_protocol
same_protocol_refl tcp = refl
same_protocol_refl udp = refl

same_key-eq : (a b : PcpLeaseKey) → same_key a b ≡ true → a ≡ b
unfolding same_key
same_key-eq a b h = ground (
  arith,
  same_addr-eq a.gateway b.gateway,
  same_addr-eq a.source b.source,
  same_protocol-eq a.protocol b.protocol,
)

same_key_refl : (a : PcpLeaseKey) → same_key a a ≡ true
unfolding same_key
same_key_refl a =
    ground (arith, same_addr_refl a.gateway, same_addr_refl a.source, same_protocol_refl a.protocol)

abbrev pub held : PcpLeaseKey → PcpState → Option (List ℕ)
held key st = find (same_key key) st.nonces

-- A key that another test finds is not this one.
apart :
    (key other : PcpLeaseKey)
    → other ≢ key
    → (k : PcpLeaseKey) → same_key key k ≡ true
    → same_key other k ≡ false
apart key other ne k h = elim (Bool-cases (same_key other k)) [
  | inl q ↦ absurd (ne (same_key-eq other k q ∙ sym (same_key-eq key k h)))
  | inr q ↦ q
]

drop_nonce-others :
    (key other : PcpLeaseKey) (nonce : List ℕ) (o : Option (List ℕ)) (st : PcpState)
    → other ≢ key
    → held other (drop_nonce key nonce o st) ≡ held other st
unfolding drop_nonce set_nonces
drop_nonce-others key other nonce none st ne = refl
drop_nonce-others key other nonce (some c) st ne =
    ground (arith, find-remove_other (same_key key) (same_key other) st.nonces (apart key other ne))

remove_nonce-others :
    (key other : PcpLeaseKey) (nonce : List ℕ) (st : PcpState)
    → other ≢ key
    → held other (remove_nonce key nonce st) ≡ held other st
unfolding remove_nonce
remove_nonce-others key other nonce st ne = drop_nonce-others key other nonce _ st ne

module _ (mc : Machine) (other key : PcpLeaseKey) (ne : other ≢ key) where
  new_nonce-others :
      (r : List ℕ ⊎ Error) (st : PcpState) → held other (new_nonce mc key r st).1 ≡ held other st
  unfolding new_nonce set_nonces
  new_nonce-others (inl b) st =
      find-put_other (same_key key) (same_key other) key b st.nonces (apart key other ne)
        (same_key_refl key)
  new_nonce-others (inr e) st = refl

  known_nonce-others :
      (o : Option (List ℕ)) (st : PcpState) → held other (known_nonce mc key o st).1 ≡ held other st
  unfolding known_nonce
  known_nonce-others none st = new_nonce-others (mc.random st) st
  known_nonce-others (some b) st = refl

  after_release-others :
      (nonce : List ℕ) (x : Reply × PcpState)
      → held other (after_release mc key nonce x).1 ≡ held other x.1
  unfolding after_release
  after_release-others nonce (granted m, st) = remove_nonce-others key other nonce st ne
  after_release-others nonce (refused e, st) = refl

-- The table after an acquire: what it holds for other keys is what it held, and a lease's nonce is
-- kept, the old one where there was one.
pub record NoncesKept (key : PcpLeaseKey) (gateway source : Addr) (request : PortRequest)
    (old : PcpState) (l : Lease) (st : PcpState) : Type 0 where
  pub nonce : List ℕ
  pub kept : held key st ≡ some nonce
  pub released_by : l.release ≡ some (pcp_release gateway source request l.external_port nonce)
  pub reused : (held key old ≡ none) ⊎ (held key old ≡ some nonce)

module _ (mc : Machine) (gateway source : Addr) (request : PortRequest) where
  abbrev pub key : PcpLeaseKey
  key = key_of gateway source request

  module _ (other : PcpLeaseKey) (ne : other ≢ key) where
    take_lease-others :
        (requested port : ℕ) (l : Lease) (nonce : List ℕ) (st : PcpState)
        → l.release ≡ some (pcp_release gateway source request port nonce)
        → held other (take_lease mc requested request l st).1 ≡ held other st
    unfolding take_lease release_pcp pcp_map note_call
    take_lease-others requested port l nonce st h =
        elim (Bool-cases (request.strict && not (l.external_port == requested))) [
          | inl q ↦
              rw (q, h)
                (after_release-others mc other key ne nonce
                  (pcp_map mc gateway source request port 0 nonce st))
          | inr q ↦ rw q refl
        ]

    settle-others :
        (requested : ℕ) (nonce : List ℕ) (created : Bool) (r : Reply) (st : PcpState)
        → held other (settle mc gateway source request requested nonce created (r, st)).1
          ≡ held other st
    unfolding settle
    settle-others requested nonce true (refused e) st = remove_nonce-others key other nonce st ne
    settle-others requested nonce false (refused e) st = refl
    settle-others requested nonce created (granted m) st =
        take_lease-others requested m.port _ nonce st refl

    ask-others :
        (lifetime : ℕ) (x : PcpResult (List ℕ × Bool) × PcpState)
        → held other (ask mc gateway source request lifetime x).1 ≡ held other x.1
    unfolding ask pcp_map note_call
    ask-others lifetime (failed e, st) = refl
    ask-others lifetime (done (nonce, created), st) =
        let c =
          call_of mc gateway source request (requested_port request) (lifetime / second % 2 ^ 32)
            nonce st in
        settle-others (requested_port request) nonce created c.reply (note_call c st)

    acquire-others :
        (lifetime : ℕ) (st : PcpState)
        → held other (acquire mc gateway source request lifetime st).1 ≡ held other st
    unfolding acquire nonce_of
    acquire-others lifetime st =
        ask-others lifetime (nonce_of mc key st)
        ∙ known_nonce-others mc other key ne (held key st) st

  module _ (old : PcpState) where
    -- A nonce for the key is in the table, the old one where there was one.
    abbrev Ready : PcpResult (List ℕ × Bool) × PcpState → Type 0
    Ready (failed e, st) = Unit
    Ready (done (nonce, created), st) =
        (held key st ≡ some nonce) × ((held key old ≡ none) ⊎ (held key old ≡ some nonce))

    abbrev pub Kept : PcpResult Lease × PcpState → Type 0
    Kept (failed e, st) = Unit
    Kept (done l, st) = NoncesKept key gateway source request old l st

    new_nonce-Ready : (r : List ℕ ⊎ Error) → held key old ≡ none → Ready (new_nonce mc key r old)
    unfolding new_nonce set_nonces
    new_nonce-Ready (inl b) h =
        (find-put (same_key key) key b old.nonces (same_key_refl key), inl h)
    new_nonce-Ready (inr e) h = tt

    known_nonce-Ready : (o : Option (List ℕ)) → held key old ≡ o → Ready (known_nonce mc key o old)
    unfolding known_nonce
    known_nonce-Ready none h = new_nonce-Ready (mc.random old) h
    known_nonce-Ready (some b) h = (h, inr h)

    take_lease-Kept :
        (requested : ℕ) (l : Lease) (nonce : List ℕ) (st : PcpState)
        → l.release ≡ some (pcp_release gateway source request l.external_port nonce)
        → held key st ≡ some nonce
        → (held key old ≡ none) ⊎ (held key old ≡ some nonce)
        → Kept (take_lease mc requested request l st)
    unfolding take_lease
    take_lease-Kept requested l nonce st h k r =
        elim (Bool-cases (request.strict && not (l.external_port == requested))) [
          | inl q ↦ rw q tt
          | inr q ↦ rw q (record { nonce = nonce; kept = k; released_by = h; reused = r })
        ]

    settle-Kept :
        (requested : ℕ) (nonce : List ℕ) (created : Bool) (r : Reply) (st : PcpState)
        → held key st ≡ some nonce
        → (held key old ≡ none) ⊎ (held key old ≡ some nonce)
        → Kept (settle mc gateway source request requested nonce created (r, st))
    unfolding settle
    settle-Kept requested nonce created (refused e) st k r = tt
    settle-Kept requested nonce created (granted m) st k r =
        take_lease-Kept requested _ nonce st refl k r

    ask-Kept :
        (lifetime : ℕ) (x : PcpResult (List ℕ × Bool) × PcpState)
        → Ready x
        → Kept (ask mc gateway source request lifetime x)
    unfolding ask pcp_map note_call
    ask-Kept lifetime (failed e, st) h = tt
    ask-Kept lifetime (done (nonce, created), st) h =
        let c =
          call_of mc gateway source request (requested_port request) (lifetime / second % 2 ^ 32)
            nonce st in
        settle-Kept (requested_port request) nonce created c.reply (note_call c st) h.0 h.1

-- An acquire leaves the nonce of any other key as it was. If it gives a lease, the nonce that the
-- lease's closure carries is kept under its key, and it is the one that was kept before, if any.
pub acquire-NoncesKept :
    (mc : Machine) (gateway source : Addr) (request : PortRequest) (lifetime : ℕ) (st : PcpState)
    (other : PcpLeaseKey)
    → other ≢ key_of gateway source request
    → Kept mc gateway source request st (acquire mc gateway source request lifetime st)
      × (held other (acquire mc gateway source request lifetime st).1 ≡ held other st)
unfolding acquire nonce_of
acquire-NoncesKept mc gateway source request lifetime st other ne = (
  ask-Kept mc gateway source request st lifetime _
      (known_nonce-Ready mc gateway source request st _ refl),
  acquire-others mc gateway source request other ne lifetime st,
)
