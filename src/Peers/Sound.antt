-- ===== src/Peers/Sound.antt =====
-- internal/ops/peers.go: the bound on lookups, and what a pending entry waits for.
use tailscale_derp.Base.{
  ℕ, suc, ◌+◌, ◌≡◌, ◌≤◌, ◌<◌, refl, sym, ap, subst, ltb, String, str_eq, eq_iff, eq_refl, Bool,
  true, false, Option, none, some, List, [], ◌∷◌, ◌⊎◌, inl, inr, Bool-cases, find, put, find-put,
  find-put_other, arith, length,
}
use tailscale_derp.Devices.{name_is}
use tailscale_derp.Devices.Snapshot.{is_in}
use tailscale_derp.Peers.{
  PeerIdentity, IdentityEntry, IdentityResolver, new_identity_resolver, waiting, begin_lookup,
  is_current, resolve_entry, resolve, answer_entry, write_answer, drop_one, finish_lookup,
  free_slot, keep_active, prune, Move, resolves, answers, leaves, prunes, Reached, start, later,
}

-- A pending entry has no identity yet, and a lookup of its key that has not answered.
abbrev pub Backed : String → List String → Option IdentityEntry → Type 0
Backed key looking none = Unit
Backed key looking (some e) =
    (e.pending ≡ false) ⊎ ((e.identity ≡ none) × (is_in key looking ≡ true))

-- At most two lookups hold slots, and each slot is held by one.
pub record IsSound (r : IdentityResolver) : Type 0 where
  pub held : r.slots ≡ length r.looking + r.leaving
  pub bounded : r.slots ≤ 2
  pub backed : (key : String) → Backed key r.looking (find (name_is key) r.cache)

apart :
    (key other : String)
    → str_eq key other ≡ false
    → (k : String) → str_eq k key ≡ true
    → str_eq k other ≡ false
apart key other p k q = subst (λ (s : String). str_eq s other ≡ false) (sym ((eq_iff k key).0 q)) p

more-Backed :
    (k key : String) (looking : List String) (o : Option IdentityEntry)
    → Backed key looking o
    → Backed key (k ∷ looking) o
more-Backed k key looking none h = h
more-Backed k key looking (some e) (inl p) = inl p
more-Backed k key looking (some e) (inr (i, q)) = inr (i, ground (arith, q))

put-Backed :
    (k key : String) (e : IdentityEntry) (cache : List (String × IdentityEntry))
    (looking : List String)
    → Backed k looking (some e)
    → Backed key looking (find (name_is key) cache)
    → Backed key looking (find (name_is key) (put (name_is k) k e cache))
put-Backed k key e cache looking new old = elim (Bool-cases (str_eq k key)) [
  | inl p ↦
      subst (λ (s : String). Backed s looking (find (name_is s) (put (name_is k) k e cache)))
        ((eq_iff k key).0 p) (rw (find-put (name_is k) k e cache (eq_refl k)) new)
  | inr p ↦ rw (find-put_other (name_is k) (name_is key) k e cache (apart k key p) (eq_refl k)) old
]

begin_lookup-IsSound :
    (key : String) (r : IdentityResolver) → IsSound r → IsSound (begin_lookup key r)
unfolding begin_lookup
begin_lookup-IsSound key r h = elim (Bool-cases (ltb r.slots 2)) [
  | inr q ↦ rw q h
  | inl q ↦ rw q (record {
    held = omega (arith, h.held);
    bounded = ground arith;
    backed = λ k.
        put-Backed key k waiting r.cache (key ∷ r.looking) (inr (refl, ground (arith, eq_refl key)))
          (more-Backed key k r.looking _ (h.backed k));
  })
]

resolve_entry-IsSound :
    (key : String) (now : ℕ) (o : Option IdentityEntry) (r : IdentityResolver)
    → IsSound r
    → IsSound (resolve_entry key now o r).1
unfolding resolve_entry
resolve_entry-IsSound key now none r h = begin_lookup-IsSound key r h
resolve_entry-IsSound key now (some e) r h = elim (Bool-cases (is_current now e)) [
  | inl q ↦ rw q h
  | inr q ↦ rw q (begin_lookup-IsSound key r h)
]

length-drop_one :
    (key : String) (ks : List String)
    → is_in key ks ≡ true
    → length ks ≡ suc (length (drop_one key ks))
length-drop_one key [] h = ground (arith, h)
length-drop_one key (k ∷ ks) h = elim (Bool-cases (str_eq k key)) [
  | inl p ↦ simp p refl
  | inr p ↦ simp p (ap (λ (n : ℕ). suc n) (length-drop_one key ks (simp p at h)))
]

is_in-drop_one :
    (key other : String) (ks : List String)
    → str_eq key other ≡ false
    → is_in other ks ≡ true
    → is_in other (drop_one key ks) ≡ true
is_in-drop_one key other [] d h = h
is_in-drop_one key other (k ∷ ks) d h = elim (Bool-cases (str_eq k key)) [
  | inl p ↦ simp p (simp (apart key other d k p) at h)
  | inr p ↦ simp p (elim (Bool-cases (str_eq k other)) [
    | inl q ↦ simp q refl
    | inr q ↦ simp q (is_in-drop_one key other ks d (simp q at h))
  ])
]

dropped-Backed :
    (key other : String) (looking : List String) (o : Option IdentityEntry)
    → str_eq key other ≡ false
    → Backed other looking o
    → Backed other (drop_one key looking) o
dropped-Backed key other looking none d h = h
dropped-Backed key other looking (some e) d (inl p) = inl p
dropped-Backed key other looking (some e) d (inr (i, q)) =
    inr (i, is_in-drop_one key other looking d q)

answer-done :
    (identity : Option PeerIdentity) (now : ℕ) → (answer_entry identity now).pending ≡ false
unfolding answer_entry
answer-done none now = refl
answer-done (some i) now = refl

-- The entry of the key that was looked up waits for nothing.
written-same :
    (key : String) (entry : IdentityEntry) (o : Option IdentityEntry)
    (cache : List (String × IdentityEntry)) (looking : List String)
    → entry.pending ≡ false
    → find (name_is key) cache ≡ o
    → Backed key looking (find (name_is key) (write_answer key entry o cache))
unfolding write_answer
written-same key entry none cache looking d e = rw e tt
written-same key entry (some c) cache looking d e = elim (Bool-cases c.pending) [
  | inl q ↦ simp q (rw (find-put (name_is key) key entry cache (eq_refl key)) (inl d))
  | inr q ↦ simp q (rw e (inl q))
]

written-other :
    (key other : String) (entry : IdentityEntry) (o : Option IdentityEntry)
    (cache : List (String × IdentityEntry))
    → str_eq key other ≡ false
    → find (name_is other) (write_answer key entry o cache) ≡ find (name_is other) cache
unfolding write_answer
written-other key other entry none cache d = refl
written-other key other entry (some c) cache d = elim (Bool-cases c.pending) [
  | inl q ↦ simp q (
      find-put_other (name_is key) (name_is other) key entry cache (apart key other d)
        (eq_refl key))
  | inr q ↦ simp q refl
]

finish_lookup-IsSound :
    (key : String) (identity : Option PeerIdentity) (now : ℕ) (r : IdentityResolver)
    → is_in key r.looking ≡ true
    → IsSound r
    → IsSound (finish_lookup key identity now r)
unfolding finish_lookup
finish_lookup-IsSound key identity now r q h = record {
  held = omega (arith, h.held, length-drop_one key r.looking q);
  bounded = h.bounded;
  backed = λ k. elim (Bool-cases (str_eq key k)) [
    | inl p ↦
        subst
          (λ (s : String). Backed s (drop_one key r.looking) (
            find (name_is s)
              (write_answer key (answer_entry identity now) (find (name_is key) r.cache) r.cache)))
          ((eq_iff key k).0 p)
          (written-same key (answer_entry identity now) _ r.cache _ (answer-done identity now) refl)
    | inr p ↦
        rw (written-other key k (answer_entry identity now) (find (name_is key) r.cache) r.cache p)
          (dropped-Backed key k r.looking (find (name_is k) r.cache) p (h.backed k))
  ];
}

free_slot-IsSound :
    (r : IdentityResolver) (n : ℕ) → r.leaving ≡ suc n → IsSound r → IsSound (free_slot r)
unfolding free_slot
free_slot-IsSound r n e h = record {
  held = omega (arith, h.held, e);
  bounded = omega (arith, h.bounded);
  backed = h.backed;
}

pub inactive-none :
    (active : String → Bool) (key : String) (cache : List (String × IdentityEntry))
    → active key ≡ false
    → find (name_is key) (keep_active active cache) ≡ none
unfolding keep_active find
inactive-none active key [] h = refl
inactive-none active key ((k, e) ∷ rest) h = elim (Bool-cases (str_eq k key)) [
  | inl p ↦
      rw (subst (λ (s : String). active s ≡ false) (sym ((eq_iff k key).0 p)) h)
        (inactive-none active key rest h)
  | inr p ↦ elim (Bool-cases (active k)) [
    | inl a ↦ rw a (simp p (inactive-none active key rest h))
    | inr a ↦ rw a (inactive-none active key rest h)
  ]
]

kept-Backed :
    (active : String → Bool) (key : String) (cache : List (String × IdentityEntry))
    (looking : List String)
    → Backed key looking (find (name_is key) cache)
    → Backed key looking (find (name_is key) (keep_active active cache))
unfolding keep_active find
kept-Backed active key [] looking h = tt
kept-Backed active key ((k, e) ∷ rest) looking h = elim (Bool-cases (active k)) [
  | inl a ↦ rw a (elim (Bool-cases (str_eq k key)) [
    | inl p ↦ rw p (rw p at h)
    | inr p ↦ rw p (kept-Backed active key rest looking (rw p at h))
  ])
  | inr a ↦ rw a (elim (Bool-cases (str_eq k key)) [
    | inl p ↦
        rw
          (inactive-none active key rest
            (subst (λ (s : String). active s ≡ false) ((eq_iff k key).0 p) a))
          tt
    | inr p ↦ kept-Backed active key rest looking (rw p at h)
  ])
]

move-IsSound : {r s : IdentityResolver} → Move r s → IsSound r → IsSound s
unfolding resolve prune
move-IsSound (resolves r key now) h = resolve_entry-IsSound key now (find (name_is key) r.cache) r h
move-IsSound (answers r key identity now q) h = finish_lookup-IsSound key identity now r q h
move-IsSound (leaves r n e) h = free_slot-IsSound r n e h
move-IsSound (prunes r active) h = record {
  held = h.held;
  bounded = h.bounded;
  backed = λ k. kept-Backed active k r.cache r.looking (h.backed k);
}

-- However calls of resolve and prune and the ends of lookups follow one another, at most two lookups
-- hold slots, each slot is held by one of them, and each entry that is pending has no identity yet and
-- a lookup of its key that has still to answer.
pub reached-IsSound : (r : IdentityResolver) → Reached r → IsSound r
unfolding new_identity_resolver find
reached-IsSound _ start = record { held = refl; bounded = omega arith; backed = λ k. tt }
reached-IsSound _ (later r s before m) = move-IsSound m (reached-IsSound r before)

-- What resolve answers with: an identity of an entry whose time is not over.
abbrev pub Answered : ℕ → Option PeerIdentity → Option IdentityEntry → Type 0
Answered now none o = Unit
Answered now (some i) none = ⊥
Answered now (some i) (some e) = (e.identity ≡ some i) × (e.pending ≡ false) × (now < e.expires)

current :
    (now : ℕ) (e : IdentityEntry) (i : PeerIdentity)
    → is_current now e ≡ true
    → e.identity ≡ some i
    → (e.pending ≡ false) ⊎ (e.identity ≡ none)
    → (e.identity ≡ some i) × (e.pending ≡ false) × (now < e.expires)
unfolding is_current
current now e i q h (inl p) = (h, p, ground (arith, q, p))
current now e i q h (inr n) = absurd (ground (arith, h, n))

weak :
    (key : String) (ks : List String) (e : IdentityEntry)
    → Backed key ks (some e)
    → (e.pending ≡ false) ⊎ (e.identity ≡ none)
weak key ks e (inl p) = inl p
weak key ks e (inr (i, q)) = inr i

shown :
    (now : ℕ) (e : IdentityEntry) (o : Option PeerIdentity)
    → e.identity ≡ o
    → is_current now e ≡ true
    → (e.pending ≡ false) ⊎ (e.identity ≡ none)
    → Answered now o (some e)
shown now e none h q b = tt
shown now e (some i) h q b = current now e i q h b

entry-Answered :
    (key : String) (now : ℕ) (ks : List String) (o : Option IdentityEntry) (r : IdentityResolver)
    → Backed key ks o
    → Answered now (resolve_entry key now o r).0 o
unfolding resolve_entry
entry-Answered key now ks none r b = tt
entry-Answered key now ks (some e) r b = elim (Bool-cases (is_current now e)) [
  | inl q ↦ rw q (shown now e e.identity refl q (weak key ks e b))
  | inr q ↦ rw q tt
]

-- An identity that resolve answers with, in any state that is reached, is that of the key's entry,
-- which is not pending and whose time is not over.
pub resolve-Answered :
    (r : IdentityResolver) (key : String) (now : ℕ)
    → Reached r
    → Answered now (resolve key now r).0 (find (name_is key) r.cache)
unfolding resolve
resolve-Answered r key now h =
    entry-Answered key now r.looking (find (name_is key) r.cache) r
      ((reached-IsSound r h).backed key)
