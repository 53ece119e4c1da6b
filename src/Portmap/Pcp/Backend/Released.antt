-- ===== src/Portmap/Pcp/Backend/Released.antt =====
-- internal/portmap/pcp.go: what the backend has asked the gateway for is either in the mapping that
-- it returns or given back.
use tailscale_derp.Base.{
  ℕ, ◌/◌, ◌%◌, ◌^◌, ◌≡◌, ◌==◌, List, [], ◌∷◌, ◌++◌, Bool, true, false, not, ◌&&◌, Option, none,
  some, ◌⊎◌, inl, inr, refl, Bool-cases, arith, ◌∙◌, ap,
}
use tailscale_derp.Portmap.{PortRequest, Request, Lease, Mapping, Closure, pcp_release, Error}
use tailscale_derp.Portmap.Routes.{default_gateway, source_ipv4}
use tailscale_derp.Portmap.Address.{Addr}
use tailscale_derp.Portmap.Pcp.Packet.{PcpError, PcpMapResponse, Reply, granted, refused}
use tailscale_derp.Portmap.Pcp.Backend.{
  PcpLeaseKey, Call, PcpState, Machine, PcpResult, done, failed, drop_nonce, remove_nonce, pcp_map,
  call_of, second, new_nonce, known_nonce, nonce_of, after_release, release_pcp, take_lease, settle,
  ask, acquire, with_stun, with_derp, with_source, with_route, map_pcp, key_of, set_nonces,
  note_call, requested_port,
}

-- A call that takes back what another was granted.
pub record GivesBack (g : Call) (port : ℕ) (r : Call) : Type 0 where
  pub gateway_is : r.gateway ≡ g.gateway
  pub source_is : r.source ≡ g.source
  pub request_is : r.request ≡ g.request
  pub nonce_is : r.nonce ≡ g.nonce
  pub port_is : r.external_port ≡ port
  pub lifetime_is : r.lifetime ≡ 0

abbrev pub Some : (Call → Type 0) → List Call → Type 0
Some P [] = ⊥
Some P (c ∷ cs) = P c ⊎ Some P cs

-- Nothing is left of a call on the gateway: it was itself a release, it was refused, or a later call
-- gave back the port that was granted.
pub data Spent (later : List Call) (c : Call) : Type 0 where
  was_release : c.lifetime ≡ 0 → Spent later c
  was_refused : (e : PcpError) → c.reply ≡ refused e → Spent later c
  was_returned :
      (m : PcpMapResponse) → c.reply ≡ granted m → Some (GivesBack c m.port) later → Spent later c

-- Calls, newest first, of which each is spent by those after it.
abbrev pub AllSpent : List Call → List Call → Type 0
AllSpent later [] = Unit
AllSpent later (c ∷ older) = Spent later c × AllSpent (c ∷ later) older

-- A lease is that of a call: its port and address, and a closure that releases just that. A strict
-- one has the port that was asked for.
pub record Holds (l : Lease) (c : Call) : Type 0 where
  pub answer : PcpMapResponse
  pub was_granted : c.reply ≡ granted answer
  pub port_is : l.external_port ≡ answer.port
  pub ip_is : l.external_ip ≡ answer.ip
  pub asked_for : c.external_port ≡ requested_port c.request
  pub strict_port : (c.request.strict && not (answer.port == c.external_port)) ≡ false
  pub releases : l.release ≡ some (pcp_release c.gateway c.source c.request answer.port c.nonce)

data Traced (old : List Call) : PcpResult Lease → List Call → Type 0 where
  no_call : (e : PcpError) (now : List Call) → now ≡ old → Traced old (failed e) now
  one_refused :
      (c : Call) (e d : PcpError) (now : List Call)
      → c.reply ≡ refused d
      → now ≡ c ∷ old
      → Traced old (failed e) now
  one_returned :
      (c r : Call) (e : PcpError) (m : PcpMapResponse) (now : List Call)
      → c.reply ≡ granted m
      → GivesBack c m.port r
      → now ≡ r ∷ c ∷ old
      → Traced old (failed e) now
  one_held :
      (c : Call) (l : Lease) (now : List Call) → Holds l c → now ≡ c ∷ old → Traced old (done l) now

-- The leases of a mapping are those of the calls, newest first.
abbrev pub HoldsAll : Option Lease → Option Lease → List Call → Type 0
HoldsAll (some d) none (c ∷ []) = Holds d c
HoldsAll (some d) (some s) (b ∷ c ∷ []) = Holds d c × Holds s b
HoldsAll _ _ _ = ⊥

-- What a Map leaves: after an error each of its calls is spent; a mapping holds what was granted,
-- by one call for each lease.
abbrev pub Settled : List Call → PcpResult Mapping → List Call → Type 0
Settled old (failed e) now = (new : List Call) × (now ≡ new ++ old) × AllSpent [] new
Settled old (done m) now = (new : List Call) × (now ≡ new ++ old) × HoldsAll m.derp m.stun new

calls-drop_nonce :
    (key : PcpLeaseKey) (nonce : List ℕ) (found : Option (List ℕ)) (st : PcpState)
    → (drop_nonce key nonce found st).calls ≡ st.calls
unfolding drop_nonce set_nonces
calls-drop_nonce key nonce none st = refl
calls-drop_nonce key nonce (some current) st = ground arith

calls-remove_nonce :
    (key : PcpLeaseKey) (nonce : List ℕ) (st : PcpState)
    → (remove_nonce key nonce st).calls ≡ st.calls
unfolding remove_nonce
calls-remove_nonce key nonce st = calls-drop_nonce key nonce _ st

module _ (mc : Machine) where
  calls-new_nonce :
      (key : PcpLeaseKey) (r : List ℕ ⊎ Error) (st : PcpState)
      → (new_nonce mc key r st).1.calls ≡ st.calls
  unfolding new_nonce set_nonces
  calls-new_nonce key (inl b) st = refl
  calls-new_nonce key (inr e) st = refl

  calls-known_nonce :
      (key : PcpLeaseKey) (o : Option (List ℕ)) (st : PcpState)
      → (known_nonce mc key o st).1.calls ≡ st.calls
  unfolding known_nonce
  calls-known_nonce key none st = calls-new_nonce key _ st
  calls-known_nonce key (some b) st = refl

  calls-after_release :
      (key : PcpLeaseKey) (nonce : List ℕ) (x : Reply × PcpState)
      → (after_release mc key nonce x).1.calls ≡ x.1.calls
  unfolding after_release
  calls-after_release key nonce (granted m, st) = calls-remove_nonce key nonce st
  calls-after_release key nonce (refused e, st) = refl

  calls-nonce_of : (key : PcpLeaseKey) (st : PcpState) → (nonce_of mc key st).1.calls ≡ st.calls
  unfolding nonce_of
  calls-nonce_of key st = calls-known_nonce key _ st

  release-calls :
      (o : Option Closure) (g src : Addr) (r : PortRequest) (port : ℕ) (nonce : List ℕ)
      (st : PcpState)
      → o ≡ some (pcp_release g src r port nonce)
      → (release_pcp mc o st).1.calls ≡ call_of mc g src r port 0 nonce st ∷ st.calls
  unfolding release_pcp pcp_map note_call
  release-calls o g src r port nonce st h =
      rw h (calls-after_release (key_of g src r) nonce (pcp_map mc g src r port 0 nonce st))

  release-GivesBack :
      (c : Call) (port : ℕ) (st : PcpState)
      → GivesBack c port (call_of mc c.gateway c.source c.request port 0 c.nonce st)
  unfolding call_of
  release-GivesBack c port st = record {
    gateway_is = refl;
    source_is = refl;
    request_is = refl;
    nonce_is = refl;
    port_is = refl;
    lifetime_is = refl;
  }

  take_lease-Traced :
      (old : List Call) (c : Call) (l : Lease) (m : PcpMapResponse) (st : PcpState)
      → ((c.request.strict && not (l.external_port == c.external_port)) ≡ false → Holds l c)
      → l.release ≡ some (pcp_release c.gateway c.source c.request m.port c.nonce)
      → c.reply ≡ granted m
      → st.calls ≡ c ∷ old
      → Traced old
          (take_lease mc c.external_port c.request l st).0
          (take_lease mc c.external_port c.request l st).1.calls
  unfolding take_lease
  take_lease-Traced old c l m st h k g e =
      elim (Bool-cases (c.request.strict && not (l.external_port == c.external_port))) [
        | inl q ↦ rw q (
            one_returned c (call_of mc c.gateway c.source c.request m.port 0 c.nonce st) _ m _ g
              (release-GivesBack c m.port st)
              (release-calls l.release _ _ _ _ _ st k
                ∙ ap
                    (λ (t : List Call).
                      call_of mc c.gateway c.source c.request m.port 0 c.nonce st ∷ t)
                    e))
        | inr q ↦ rw q (one_held c l st.calls (h q) e)
      ]

  settle-Traced :
      (old : List Call) (c : Call) (created : Bool) (st : PcpState)
      → c.external_port ≡ requested_port c.request
      → st.calls ≡ c ∷ old
      → (r : Reply) → c.reply ≡ r
      → Traced old
          (settle mc c.gateway c.source c.request c.external_port c.nonce created (r, st)).0
          (settle mc c.gateway c.source c.request c.external_port c.nonce created (r, st)).1.calls
  unfolding settle
  settle-Traced old c true st a e (refused d) g =
      one_refused c d d _ g (calls-remove_nonce _ _ st ∙ e)
  settle-Traced old c false st a e (refused d) g = one_refused c d d _ g e
  settle-Traced old c created st a e (granted m) g =
      take_lease-Traced old c _ m st
        (λ q. record {
          answer = m;
          was_granted = g;
          port_is = refl;
          ip_is = refl;
          asked_for = a;
          strict_port = q;
          releases = refl;
        })
        refl g e

  ask-Traced :
      (gateway source : Addr) (request : PortRequest) (lifetime : ℕ) (old : List Call)
      (x : PcpResult (List ℕ × Bool) × PcpState)
      → x.1.calls ≡ old
      → Traced old
          (ask mc gateway source request lifetime x).0
          (ask mc gateway source request lifetime x).1.calls
  unfolding ask pcp_map note_call
  ask-Traced gateway source request lifetime old (failed e, st) h = no_call e st.calls h
  ask-Traced gateway source request lifetime old (done (nonce, created), st) h =
      let port = requested_port request in
      let c = call_of mc gateway source request port (lifetime / second % 2 ^ 32) nonce st in
      settle-Traced old c created (note_call c st) refl (ap (λ (t : List Call). c ∷ t) h) c.reply
        refl

  acquire-Traced :
      (gateway source : Addr) (request : PortRequest) (lifetime : ℕ) (st : PcpState)
      → Traced st.calls
          (acquire mc gateway source request lifetime st).0
          (acquire mc gateway source request lifetime st).1.calls
  unfolding acquire
  acquire-Traced gateway source request lifetime st =
      ask-Traced gateway source request lifetime st.calls _ (calls-nonce_of _ st)

  spent :
      (old now : List Call) (e : PcpError)
      → Traced old (failed e) now
      → (new : List Call) × (now ≡ new ++ old) × AllSpent [] new
  spent old now e (no_call _ _ h) = ([], h, tt)
  spent old now e (one_refused c _ d _ g h) = (c ∷ [], h, (was_refused d g, tt))
  spent old now e (one_returned c r _ m _ g b h) =
      (r ∷ c ∷ [], h, (was_release b.lifetime_is, (was_returned m g (inl b), tt)))

  -- The STUN lease failed and the DERP lease was released.
  spent_both :
      (old between now : List Call) (e d : PcpError) (c r : Call) (l : Lease) (h : Holds l c)
      → between ≡ c ∷ old
      → Traced between (failed e) now
      → GivesBack c h.answer.port r
      → Settled old (failed d) (r ∷ now)
  spent_both old between now e d c r l h b (no_call _ _ a) g = (
    r ∷ c ∷ [],
    ap (λ (t : List Call). r ∷ t) (a ∙ b),
    (was_release g.lifetime_is, (was_returned h.answer h.was_granted (inl g), tt)),
  )
  spent_both old between now e d c r l h b (one_refused x _ y _ z a) g = (
    r ∷ x ∷ c ∷ [],
    ap (λ (t : List Call). r ∷ t) (a ∙ ap (λ (t : List Call). x ∷ t) b),
    (
      was_release g.lifetime_is,
      (was_refused y z, (was_returned h.answer h.was_granted (inr (inl g)), tt)),
    ),
  )
  spent_both old between now e d c r l h b (one_returned x y _ m _ z k a) g = (
    r ∷ y ∷ x ∷ c ∷ [],
    ap (λ (t : List Call). r ∷ t) (a ∙ ap (λ (t : List Call). y ∷ x ∷ t) b),
    (
      was_release g.lifetime_is,
      (
        was_release k.lifetime_is,
        (was_returned m z (inl k), (was_returned h.answer h.was_granted (inr (inr (inl g))), tt)),
      ),
    ),
  )

  with_stun-Settled :
      (old between : List Call) (c : Call) (l : Lease) (r : PcpResult Lease) (st : PcpState)
      → Holds l c
      → between ≡ c ∷ old
      → Traced between r st.calls
      → Settled old (with_stun mc l (r, st)).0 (with_stun mc l (r, st)).1.calls
  unfolding with_stun
  with_stun-Settled old between c l (failed e) st h b t =
      rw (release-calls l.release _ _ _ _ _ st h.releases)
        (spent_both old between st.calls e e c _ l h b t (release-GivesBack c h.answer.port st))
  with_stun-Settled old between c l (done s) st h b (one_held x _ _ k a) =
      (x ∷ c ∷ [], a ∙ ap (λ (t : List Call). x ∷ t) b, (h, k))

  with_derp-Settled :
      (gateway source : Addr) (stun : Option PortRequest) (lifetime : ℕ) (old : List Call)
      (r : PcpResult Lease) (st : PcpState)
      → Traced old r st.calls
      → Settled old
          (with_derp mc gateway source stun lifetime (r, st)).0
          (with_derp mc gateway source stun lifetime (r, st)).1.calls
  unfolding with_derp
  with_derp-Settled gateway source stun lifetime old (failed e) st t = spent old st.calls e t
  with_derp-Settled gateway source none lifetime old (done l) st (one_held c _ _ h a) =
      (c ∷ [], a, h)
  with_derp-Settled gateway source (some r) lifetime old (done l) st (one_held c _ _ h a) =
      with_stun-Settled old st.calls c l _ _ h a (acquire-Traced gateway source r lifetime st)

  with_source-Settled :
      (r : Request) (gateway : Addr) (x : Addr ⊎ Error) (st : PcpState)
      → Settled st.calls (with_source mc r gateway x st).0 (with_source mc r gateway x st).1.calls
  unfolding with_source
  with_source-Settled r gateway (inr e) st = ([], refl, tt)
  with_source-Settled r gateway (inl source) st =
      with_derp-Settled gateway source r.stun _ st.calls _ _
        (acquire-Traced gateway source r.derp _ st)

  with_route-Settled :
      (r : Request) (x : Addr ⊎ Error) (source : Addr → Addr ⊎ Error) (st : PcpState)
      → Settled st.calls (with_route mc r x source st).0 (with_route mc r x source st).1.calls
  unfolding with_route
  with_route-Settled r (inr e) source st = ([], refl, tt)
  with_route-Settled r (inl gateway) source st = with_source-Settled r gateway (source gateway) st

-- Map makes calls after those before it. If it fails, each of them was a release, was refused, or
-- was granted a port that a later one gave back with the same gateway, source, request and nonce.
-- If it gives a mapping, there is one call for each lease, which has the granted port and address
-- and a closure that releases just that grant, and the requested port where the request was strict.
pub map_pcp-Settled :
    (mc : Machine) (r : Request) (st : PcpState)
    → Settled st.calls (map_pcp mc r st).0 (map_pcp mc r st).1.calls
unfolding map_pcp
map_pcp-Settled mc r st =
    with_route-Settled mc r (default_gateway mc.system r.interface_name)
      (λ gateway. source_ipv4 mc.system gateway r.interface_name) st
