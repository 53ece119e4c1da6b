-- ===== src/Portmap/Ports/Released.antt =====
-- internal/portmap/natpmp.go and upnp.go: what was granted is in the mapping or was removed.
use tailscale_derp.Base.{
  ℕ, ◌≡◌, [], ◌∷◌, ◌++◌, Option, none, some, ◌⊎◌, inl, inr, refl, ◌∙◌, ap, sym, false, not, ◌&&◌,
  ◌==◌,
}
use mathlib.Core.List.{append_assoc}
use tailscale_derp.Portmap.{PortRequest, Protocol, Lease, Mapping, Closure, Error}
use tailscale_derp.Portmap.Ports.{
  Act, added, removed, Acts, with_stun, with_derp, map_ports, requested_port,
}

-- A removal of this mapping.
abbrev pub Removes : ℕ → Protocol → ℕ → Act → Type 0
Removes service p port (removed s q port' e) = (s ≡ service) × (q ≡ p) × (port' ≡ port)
Removes service p port (added s r asked granted) = ⊥

abbrev pub Some : (Act → Type 0) → Acts → Type 0
Some P [] = ⊥
Some P (a ∷ as') = P a ⊎ Some P as'

-- Nothing is left of an act: a grant was removed later.
abbrev pub Gone : Acts → Act → Type 0
Gone later (removed s p port e) = Unit
Gone later (added s r asked none) = Unit
Gone later (added s r asked (some port)) = Some (Removes s r.protocol port) later

Some-more : (P : Act → Type 0) (l m : Acts) → Some P l → Some P (l ++ m)
Some-more P [] m h = absurd h
Some-more P (a ∷ l) m (inl h) = inl h
Some-more P (a ∷ l) m (inr h) = inr (Some-more P l m h)

abbrev pub AllGone : Acts → Acts → Type 0
AllGone later [] = Unit
AllGone later (a ∷ older) = Gone later a × AllGone (a ∷ later) older

Gone-more : (a : Act) (l m : Acts) → Gone l a → Gone (l ++ m) a
Gone-more (removed s p port e) l m g = tt
Gone-more (added s r asked none) l m g = tt
Gone-more (added s r asked (some port)) l m g = Some-more (Removes s r.protocol port) l m g

pub AllGone-more : (x l m : Acts) → AllGone l x → AllGone (l ++ m) x
AllGone-more [] l m g = tt
AllGone-more (a ∷ x) l m g = (Gone-more a l m g.0, AllGone-more x (a ∷ l) m g.1)

append-AllGone :
    (P : Act → Type 0) (x a later : Acts)
    → AllGone later x
    → ((l : Acts) → Some P l → AllGone l a)
    → Some P later
    → AllGone later (x ++ a)
append-AllGone P [] a later g f h = f later h
append-AllGone P (b ∷ x) a later g f h = (g.0, append-AllGone P x a (b ∷ later) g.1 f (inr h))

module _ (closure : ℕ → PortRequest → ℕ → Closure) (service : ℕ) where
  -- A lease has the port that the service granted, the requested one where that was strict, and the
  -- closure for it.
  pub record Lent (r : PortRequest) (l : Lease) : Type 0 where
    pub releases : l.release ≡ some (closure service r l.external_port)
    pub strict_port : (r.strict && not (l.external_port == requested_port r)) ≡ false

  -- The act that granted it, and the one before it where the first attempt was refused.
  abbrev pub Granted : PortRequest → ℕ → Acts → Type 0
  Granted r port [] = ⊥
  Granted r port (a ∷ []) = (asked : ℕ) × (a ≡ added service r asked (some port))
  Granted r port (a ∷ b ∷ []) =
      (asked : ℕ) × (first : ℕ) × (a ≡ added service r asked (some port))
      × (b ≡ added service r first none)
  Granted r port (a ∷ b ∷ c ∷ rest) = ⊥

  abbrev pub Kind : PortRequest → Lease ⊎ Error → Acts → Type 0
  Kind r (inl l) new = Lent r l × Granted r l.external_port new
  Kind r (inr e) new = AllGone [] new

  abbrev pub Traced : PortRequest → Acts → Lease ⊎ Error → Acts → Type 0
  Traced r old res now = (new : Acts) × (now ≡ new ++ old) × Kind r res new

  abbrev pub HoldsAll : PortRequest → Option PortRequest → Mapping → Acts → Type 0
  HoldsAll d none m new =
      (l : Lease) × (m.derp ≡ some l) × (m.stun ≡ none) × Lent d l × Granted d l.external_port new
  HoldsAll d (some r) m new =
      (l : Lease) × (s : Lease) × (m.derp ≡ some l)
      × (m.stun ≡ some s)
      × Lent d l
      × Lent r s
      × (a : Acts) × (b : Acts) × (new ≡ b ++ a)
      × Granted d l.external_port a
      × Granted r s.external_port b

  abbrev pub Settled : PortRequest → Option PortRequest → Acts → Mapping ⊎ Error → Acts → Type 0
  Settled d r old (inl m) now = (new : Acts) × (now ≡ new ++ old) × HoldsAll d r m new
  Settled d r old (inr e) now = (new : Acts) × (now ≡ new ++ old) × AllGone [] new

  Granted-AllGone :
      (r : PortRequest) (port : ℕ) (a : Acts) (later : Acts)
      → Granted r port a
      → Some (Removes service r.protocol port) later
      → AllGone later a
  Granted-AllGone r port [] later g h = absurd g
  Granted-AllGone r port (a ∷ []) later (asked, e) h = rw e (h, tt)
  Granted-AllGone r port (a ∷ b ∷ []) later (asked, first, e, f) h = rw (e, f) (h, (tt, tt))
  Granted-AllGone r port (a ∷ b ∷ c ∷ rest) later g h = absurd g

  module _ (release : Option Closure → Acts → Acts)
      (acquire : PortRequest → Acts → (Lease ⊎ Error) × Acts)
      (released : (r : PortRequest) (port : ℕ) (acts : Acts)
        → (e : Option Error) × (release (some (closure service r port)) acts
            ≡ removed service r.protocol port e ∷ acts))
      (traced : (r : PortRequest) (acts : Acts)
        → Traced r acts (acquire r acts).0 (acquire r acts).1) where
    with_stun-Settled :
        (d r : PortRequest) (old between : Acts) (l : Lease) (x : Lease ⊎ Error) (acts : Acts)
        → Traced d old (inl l) between
        → Traced r between x acts
        → Settled d
            (some r)
            old
            (with_stun release acquire l (x, acts)).0
            (with_stun release acquire l (x, acts)).1
    unfolding with_stun
    with_stun-Settled d r old between l (inl s) acts (a, ea, (la, ga)) (b, eb, (lb, gb)) = (
      b ++ a,
      eb ∙ ap (λ (t : Acts). b ++ t) ea ∙ sym (append_assoc b a old),
      (l, s, refl, refl, la, lb, a, b, refl, ga, gb),
    )
    with_stun-Settled d r old between l (inr e) acts (a, ea, (la, ga)) (b, eb, gone) =
        let (e', er) = released d l.external_port acts in
        let rel : Act = removed service d.protocol l.external_port e' in
        (
          rel ∷ (b ++ a),
          ap (λ (o : Option Closure). release o acts) la.releases
              ∙ er
              ∙ ap (λ (t : Acts). rel ∷ t)
                  (eb ∙ ap (λ (t : Acts). b ++ t) ea ∙ sym (append_assoc b a old)),
          (
            tt,
            append-AllGone (Removes service d.protocol l.external_port) b a (rel ∷ [])
                (AllGone-more b [] (rel ∷ []) gone)
                (λ later h. Granted-AllGone d l.external_port a later ga h)
                (inl (refl, refl, refl)),
          ),
        )

    with_derp-Settled :
        (d : PortRequest) (r : Option PortRequest) (old : Acts) (x : Lease ⊎ Error) (acts : Acts)
        → Traced d old x acts
        → Settled d r old
            (with_derp release acquire r (x, acts)).0
            (with_derp release acquire r (x, acts)).1
    unfolding with_derp
    with_derp-Settled d r old (inr e) acts t = t
    with_derp-Settled d none old (inl l) acts (a, ea, (la, ga)) = (a, ea, (l, refl, refl, la, ga))
    with_derp-Settled d (some r) old (inl l) acts t =
        with_stun-Settled d r old acts l _ _ t (traced r acts)

    pub map_ports-Settled :
        (d : PortRequest) (r : Option PortRequest) (acts : Acts)
        → Settled d r acts
            (map_ports release acquire d r acts).0
            (map_ports release acquire d r acts).1
    unfolding map_ports
    map_ports-Settled d r acts = with_derp-Settled d r acts _ _ (traced d acts)
