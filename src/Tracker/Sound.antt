-- ===== src/Tracker/Sound.antt =====
-- The two maps agree, so that no operation panics.
use tailscale_derp.Base.{
  ℕ, ◌≡◌, refl, sym, ap, subst, ◌∙◌, ◌⊎◌, inl, inr, arith, ◌==◌, ==_iff, String, str_eq, eq_iff,
  eq_refl, Bool, true, false, Option, none, some, List, [], ◌∷◌, if_elim, Bool-cases, is_empty,
  is_some, All, find, remove, put, find-remove, find-remove_other, find-put, find-put_other,
  find-filled,
}
use tailscale_derp.Tracker.{
  PeerTracker, PeerState, Connection, key_is, id_is, known_peer, add_connection, register,
  store_peer, drop_connection, change_peer, change_key,
}

abbrev pub has_id : ℕ → Option PeerState → Bool
has_id id none = false
has_id id (some p) = is_some (find (id_is id) p.connections)

abbrev pub IsFilled : String × PeerState → Type 0
IsFilled e = is_empty e.1.connections ≡ false

-- Each connection is one of its peer's, and each peer has one.
pub record Agree (t : PeerTracker) : Type 0 where
  pub owned :
      (id : ℕ) (key : String)
      → find (id_is id) t.connections ≡ some key
      → has_id id (find (key_is key) t.peers) ≡ true
  pub filled : All IsFilled t.peers

All-remove :
    (is : String → Bool) (xs : List (String × PeerState))
    → All IsFilled xs
    → All IsFilled (remove is xs)
unfolding remove
All-remove is [] h = tt
All-remove is ((k, v) ∷ xs) h =
    if_elim (All IsFilled) (is k) (remove is xs) ((k, v) ∷ remove is xs) (λ _. All-remove is xs h.1)
      (λ _. (h.0, All-remove is xs h.1))

All-put :
    (is : String → Bool) (k : String) (p : PeerState) (xs : List (String × PeerState))
    → is_empty p.connections ≡ false
    → All IsFilled xs
    → All IsFilled (put is k p xs)
unfolding put
All-put is k p xs q h = (q, All-remove is xs h)

key_apart :
    (key k : String)
    → str_eq key k ≡ false
    → (s : String) → str_eq s key ≡ true
    → str_eq s k ≡ false
key_apart key k h s q = subst (λ x. str_eq x k ≡ false) (sym ((eq_iff s key).0 q)) h

id_apart : (a b : ℕ) → (a == b) ≡ false → (n : ℕ) → (n == a) ≡ true → (n == b) ≡ false
id_apart a b h n q = ground arith

-- Another key of the peers, or another number of the connections, finds what it found.
data Found {V : Type 0} (key k : String) (new : Option V) (xs ys : List (String × V)) : Type 0 where
  here : key ≡ k → find (key_is k) ys ≡ new → Found key k new xs ys
  elsewhere : find (key_is k) ys ≡ find (key_is k) xs → Found key k new xs ys

put-Found :
    (key k : String) (p : PeerState) (xs : List (String × PeerState))
    → Found key k (some p) xs (put (key_is key) key p xs)
put-Found key k p xs = elim (Bool-cases (str_eq key k)) [
  | inl q ↦ here ((eq_iff key k).0 q) (
      subst (λ x. find (key_is x) (put (key_is key) key p xs) ≡ some p) ((eq_iff key k).0 q)
        (find-put (key_is key) key p xs (eq_refl key)))
  | inr q ↦
      elsewhere (find-put_other (key_is key) (key_is k) key p xs (key_apart key k q) (eq_refl key))
]

remove-Found :
    (key k : String) (xs : List (String × PeerState)) → Found key k none xs (remove (key_is key) xs)
remove-Found key k xs = elim (Bool-cases (str_eq key k)) [
  | inl q ↦ here ((eq_iff key k).0 q) (
      subst (λ x. find (key_is x) (remove (key_is key) xs) ≡ none) ((eq_iff key k).0 q)
        (find-remove (key_is key) xs))
  | inr q ↦ elsewhere (find-remove_other (key_is key) (key_is k) xs (key_apart key k q))
]

-- What stays of the connections when `id` is put or removed.
id_put :
    {V : Type 0} (id n : ℕ) (v : V) (xs : List (ℕ × V))
    → ((id ≡ n) × (find (id_is n) (put (id_is id) id v xs) ≡ some v))
      ⊎ (find (id_is n) (put (id_is id) id v xs) ≡ find (id_is n) xs)
id_put id n v xs = elim (Bool-cases (id == n)) [
  | inl q ↦ inl (
    (==_iff id n).0 q,
    subst (λ x. find (id_is x) (put (id_is id) id v xs) ≡ some v) ((==_iff id n).0 q)
        (find-put (id_is id) id v xs (ground arith)),
  )
  | inr q ↦ inr (find-put_other (id_is id) (id_is n) id v xs (id_apart id n q) (ground arith))
]

id_remove :
    {V : Type 0} (id n : ℕ) (xs : List (ℕ × V))
    → (find (id_is n) (remove (id_is id) xs) ≡ none)
      ⊎ (((id == n) ≡ false) × (find (id_is n) (remove (id_is id) xs) ≡ find (id_is n) xs))
id_remove id n xs = elim (Bool-cases (id == n)) [
  | inl q ↦ inl (
      subst (λ x. find (id_is x) (remove (id_is id) xs) ≡ none) ((==_iff id n).0 q)
        (find-remove (id_is id) xs))
  | inr q ↦ inr (q, find-remove_other (id_is id) (id_is n) xs (id_apart id n q))
]

some_of : {V : Type 0} (o : Option V) (v : V) → o ≡ some v → is_some o ≡ true
some_of o v q = subst (λ x. is_some x ≡ true) (sym q) refl

has-put :
    (id n : ℕ) (c : Connection) (xs : List (ℕ × Connection))
    → is_some (find (id_is n) xs) ≡ true
    → is_some (find (id_is n) (put (id_is id) id c xs)) ≡ true
has-put id n c xs h = elim (id_put id n c xs) [
  | inl (e, q) ↦ some_of _ c q
  | inr q ↦ subst (λ x. is_some x ≡ true) (sym q) h
]

has-known :
    (at n : ℕ) (o : Option PeerState)
    → has_id n o ≡ true
    → is_some (find (id_is n) (known_peer at o).connections) ≡ true
unfolding known_peer
has-known at n none h = ground arith
has-known at n (some p) h = h

-- The peer of `key` is changed to one that has each connection it had.
has-changed :
    (key k : String) (n : ℕ) (p : PeerState) (xs : List (String × PeerState))
    → (has_id n (find (key_is key) xs) ≡ true → has_id n (some p) ≡ true)
    → has_id n (find (key_is k) xs) ≡ true
    → has_id n (find (key_is k) (put (key_is key) key p xs)) ≡ true
has-changed key k n p xs f h = elim (put-Found key k p xs) [
  | here e q ↦
      subst (λ x. has_id n x ≡ true) (sym q)
        (f (subst (λ x. has_id n (find (key_is x) xs) ≡ true) (sym e) h))
  | elsewhere q ↦ subst (λ x. has_id n x ≡ true) (sym q) h
]

none_some : {P : Type 0} (a : String) → ◌≡◌ {A = Option String} none (some a) → P
none_some a q = absurd (ground (arith, q))

some_injective : (a b : String) → ◌≡◌ {A = Option String} (some a) (some b) → a ≡ b
some_injective a b q = ground (arith, q)

pub register-Agree :
    (id : ℕ) (key addr : String) (at : ℕ) (t : PeerTracker)
    → Agree t
    → Agree (register id key addr at t)
unfolding register put
register-Agree id key addr at t h =
    let c : Connection = record { remote_addr = addr; connected_at = at } in
    let p = add_connection id c (known_peer at (find (key_is key) t.peers)) in
    record {
      owned = λ n k q. elim (id_put id n key t.connections) [
        | inl (e, r) ↦
            subst (λ x. has_id n (find (key_is x) (put (key_is key) key p t.peers)) ≡ true)
              (some_injective key k (sym r ∙ q))
              (subst (λ x. has_id n x ≡ true)
                (sym (find-put (key_is key) key p t.peers (eq_refl key)))
                (subst (λ m. has_id m (some p) ≡ true) e
                  (some_of _ c (find-put (id_is id) id c _ (ground arith)))))
        | inr r ↦
            has-changed key k n p t.peers
              (λ g. has-put id n c _ (has-known at n (find (key_is key) t.peers) g))
              (h.owned n k (sym r ∙ q))
      ];
      filled = All-put (key_is key) key p t.peers refl h.filled;
    }

find-IsFilled :
    (is : String → Bool) (p : PeerState) (xs : List (String × PeerState))
    → find is xs ≡ some p
    → All IsFilled xs
    → is_empty p.connections ≡ false
unfolding find known_peer
find-IsFilled is p [] q h = ground arith
find-IsFilled is p ((k, v) ∷ xs) q h = elim (Bool-cases (is k)) [
  | inl e ↦ subst (λ x. is_empty x.connections ≡ false) (some-peer v p (simp e at q)) h.0
  | inr e ↦ find-IsFilled is p xs (simp e at q) h.1
]
  where
    some-peer : (a b : PeerState) → ◌≡◌ {A = Option PeerState} (some a) (some b) → a ≡ b
    some-peer a b r = ap (known_peer 0) r

-- An operation does not panic, and the maps agree after it.
pub data Fine : Option PeerTracker → Type 0 where
  fine : (t : PeerTracker) → Agree t → Fine (some t)

change_peer-Fine :
    (f : PeerState → PeerState) (key : String) (o : Option PeerState) (t : PeerTracker)
    → ((p : PeerState) → (f p).connections ≡ p.connections)
    → find (key_is key) t.peers ≡ o
    → is_some o ≡ true
    → Agree t
    → Fine (change_peer f key o t)
unfolding change_peer
change_peer-Fine f key none t k q s h = ground arith
change_peer-Fine f key (some p) t k q s h = fine _ (record {
  owned = λ n l r.
      has-changed key l n (f p) t.peers
        (λ g.
          subst (λ x. is_some (find (id_is n) x) ≡ true) (sym (k p))
            (subst (λ x. has_id n x ≡ true) q g))
        (h.owned n l r);
  filled =
      All-put (key_is key) key (f p) t.peers
        (subst (λ x. is_empty x ≡ false) (sym (k p))
          (find-IsFilled (key_is key) p t.peers q h.filled))
        h.filled;
})

pub has-some : (n : ℕ) (o : Option PeerState) → has_id n o ≡ true → is_some o ≡ true
has-some n none h = h
has-some n (some p) h = refl

pub change_key-Fine :
    (f : PeerState → PeerState) (id : ℕ) (o : Option String) (t : PeerTracker)
    → ((p : PeerState) → (f p).connections ≡ p.connections)
    → find (id_is id) t.connections ≡ o
    → Agree t
    → Fine (change_key f o t)
unfolding change_key
change_key-Fine f id none t k q h = fine t h
change_key-Fine f id (some key) t k q h =
    change_peer-Fine f key _ t k refl (has-some id _ (h.owned id key q)) h

store_peer-IsFilled :
    (key : String) (p : PeerState) (xs : List (String × PeerState))
    → All IsFilled xs
    → All IsFilled (store_peer key p xs)
unfolding store_peer
store_peer-IsFilled key p xs h =
    if_elim (All IsFilled) (is_empty p.connections) (remove (key_is key) xs)
      (put (key_is key) key p xs) (λ _. All-remove (key_is key) xs h)
      (λ e. All-put (key_is key) key p xs e h)

store_peer-has :
    (key k : String) (n : ℕ) (p : PeerState) (xs : List (String × PeerState))
    → (has_id n (find (key_is key) xs) ≡ true → has_id n (some p) ≡ true)
    → has_id n (find (key_is k) xs) ≡ true
    → has_id n (find (key_is k) (store_peer key p xs)) ≡ true
unfolding store_peer
store_peer-has key k n p xs f h =
    if_elim (λ ys. has_id n (find (key_is k) ys) ≡ true) (is_empty p.connections)
      (remove (key_is key) xs) (put (key_is key) key p xs)
      (λ e. elim (remove-Found key k xs) [
        | here r q ↦ absurd (
            not_filled e (
              find-filled (id_is n) p.connections
                (f (subst (λ x. has_id n (find (key_is x) xs) ≡ true) (sym r) h))))
        | elsewhere q ↦ subst (λ x. has_id n x ≡ true) (sym q) h
      ])
      (λ _. has-changed key k n p xs f h)
  where
    not_filled : {b : Bool} → b ≡ true → b ≡ false → ⊥
    not_filled q r = ground (arith, q, r)

pub drop_connection-Fine :
    (id : ℕ) (key : String) (o : Option PeerState) (t : PeerTracker)
    → find (key_is key) t.peers ≡ o
    → is_some o ≡ true
    → Agree t
    → Fine (drop_connection id key o t)
unfolding drop_connection
drop_connection-Fine id key none t q s h = ground arith
drop_connection-Fine id key (some p) t q s h =
    let left = record p { connections = remove (id_is id) p.connections } in
    fine
      (record t {
        connections = remove (id_is id) t.connections;
        peers = store_peer key left t.peers;
      })
      (record {
        owned = λ n l r. elim (id_remove id n t.connections) [
          | inl e ↦ none_some l (sym e ∙ r)
          | inr (a, e) ↦
              store_peer-has key l n left t.peers
                (λ g.
                  subst (λ x. is_some x ≡ true)
                    (sym (find-remove_other (id_is id) (id_is n) p.connections (id_apart id n a)))
                    (subst (λ x. has_id n x ≡ true) q g))
                (h.owned n l (sym e ∙ r))
        ];
        filled = store_peer-IsFilled key left t.peers h.filled;
      })
