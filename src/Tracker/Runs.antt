-- ===== src/Tracker/Runs.antt =====
-- Any run of the tracker's operations.
use tailscale_derp.Base.{
  ℕ, ◌≡◌, refl, sym, subst, arith, String, Bool, true, false, Option, none, some, leb, ◌+◌, ◌∙◌,
  Bool-cases, inl, inr, List, [], ◌∷◌, ltb, if_elim, is_empty, is_some, All, find,
}
use tailscale_derp.Tracker.{
  PeerTracker, PeerState, Connection, PeerInfo, new_peer_tracker, key_is, id_is, register,
  unregister, unregister_key, receive, send, sample, insert, sort, values, info_of, peer_info,
  sampled, add_info, collect, answer, get_all, sample_interval, count_recv, count_sent,
}
use tailscale_derp.Tracker.Sound.{
  Agree, IsFilled, Fine, fine, has_id, register-Agree, change_key-Fine, drop_connection-Fine,
  has-some,
}

pub data Call : Type 0 where
  register_call : ℕ → String → String → ℕ → Call
  unregister_call get_all_call : ℕ → Call
  receive_call send_call : ℕ → ℕ → Call

abbrev pub tracker_of : Option (List PeerInfo × PeerTracker) → Option PeerTracker
tracker_of none = none
tracker_of (some (is, t)) = some t

module _ (less : String → String → Bool) where
  unfoldable pub step : Call → PeerTracker → Option PeerTracker
  step (register_call id key addr at) t = some (register id key addr at t)
  step (unregister_call id) t = unregister id t
  step (receive_call id bytes) t = receive id bytes t
  step (send_call id bytes) t = send id bytes t
  step (get_all_call now) t = tracker_of (get_all less now t)

  unfoldable pub run_from : List Call → Option PeerTracker → Option PeerTracker
  unfolding step
  run_from cs none = none
  run_from [] (some t) = some t
  run_from (c ∷ cs) (some t) = run_from cs (step c t)

  insert-filled :
      {A : Type 0} (le : A → A → Bool) (x : A) (xs : List A) → is_empty (insert le x xs) ≡ false
  unfolding insert
  insert-filled le x [] = refl
  insert-filled le x (y ∷ ys) =
      if_elim (λ zs. is_empty zs ≡ false) (le y x) (y ∷ insert le x ys) (x ∷ y ∷ ys) (λ _. refl)
        (λ _. refl)

  sort-filled :
      {A : Type 0} (le : A → A → Bool) (xs : List A)
      → is_empty xs ≡ false
      → is_empty (sort le xs) ≡ false
  unfolding sort
  sort-filled le [] h = h
  sort-filled le (x ∷ xs) h = insert-filled le x (sort le xs)

  info_of-some :
      (key : String) (p : PeerState) (xs : List (ℕ × Connection))
      → is_empty xs ≡ false
      → is_some (info_of key p (values xs)) ≡ true
  unfolding info_of
  info_of-some key p [] h = ground arith
  info_of-some key p ((id, c) ∷ xs) h = refl

  add_info-some :
      (a : Option PeerInfo) (b : Option (List PeerInfo))
      → is_some a ≡ true
      → is_some b ≡ true
      → is_some (add_info a b) ≡ true
  add_info-some none b h k = h
  add_info-some (some i) none h k = k
  add_info-some (some i) (some is) h k = refl

  collect-some : (xs : List (String × PeerState)) → All IsFilled xs → is_some (collect xs) ≡ true
  unfolding collect peer_info
  collect-some [] h = refl
  collect-some ((key, p) ∷ ps) h =
      add_info-some (peer_info key p) (collect ps)
        (info_of-some key p _ (sort-filled (λ a b. ltb a.0 b.0) p.connections h.0))
        (collect-some ps h.1)

  sample-connections : (now : ℕ) (p : PeerState) → (sample now p).connections ≡ p.connections
  unfolding sample
  sample-connections now p =
      if_elim (λ (q : PeerState). q.connections ≡ p.connections)
        (leb (p.last_sample + sample_interval) now) _ p (λ _. refl) (λ _. refl)

  sampled-IsFilled :
      (now : ℕ) (xs : List (String × PeerState)) → All IsFilled xs → All IsFilled (sampled now xs)
  unfolding sampled
  sampled-IsFilled now [] h = tt
  sampled-IsFilled now ((key, p) ∷ ps) h = (
    subst (λ x. is_empty x ≡ false) (sym (sample-connections now p)) h.0,
    sampled-IsFilled now ps h.1,
  )

  has-sampled :
      (now n : ℕ) (is : String → Bool) (xs : List (String × PeerState))
      → has_id n (find is (sampled now xs)) ≡ has_id n (find is xs)
  unfolding sampled find
  has-sampled now n is [] = refl
  has-sampled now n is ((key, p) ∷ ps) = elim (Bool-cases (is key)) [
    | inl q ↦ simp (q, find, sample-connections now p) refl
    | inr q ↦ simp (q, find) (has-sampled now n is ps)
  ]

  sampled-Agree :
      (now : ℕ) (t : PeerTracker) → Agree t → Agree (record t { peers = sampled now t.peers })
  sampled-Agree now t h = record {
    owned = λ id key q. has-sampled now id (key_is key) t.peers ∙ h.owned id key q;
    filled = sampled-IsFilled now t.peers h.filled;
  }

  answer-Fine :
      (t : PeerTracker) (o : Option (List PeerInfo))
      → is_some o ≡ true
      → Agree t
      → Fine (tracker_of (answer less t o))
  answer-Fine t none q h = ground arith
  answer-Fine t (some is) q h = fine t h

  unregister_key-Fine :
      (id : ℕ) (o : Option String) (t : PeerTracker)
      → find (id_is id) t.connections ≡ o
      → Agree t
      → Fine (unregister_key id o t)
  unfolding unregister_key
  unregister_key-Fine id none t q h = fine t h
  unregister_key-Fine id (some key) t q h =
      drop_connection-Fine id key _ t refl (has-some id _ (h.owned id key q)) h

  step-Fine : (c : Call) (t : PeerTracker) → Agree t → Fine (step c t)
  unfolding step unregister receive send get_all
  step-Fine (register_call id key addr at) t h = fine _ (register-Agree id key addr at t h)
  step-Fine (unregister_call id) t h = unregister_key-Fine id _ t refl h
  step-Fine (receive_call id bytes) t h =
      change_key-Fine (count_recv bytes) id _ t (λ p. refl) refl h
  step-Fine (send_call id bytes) t h = change_key-Fine (count_sent bytes) id _ t (λ p. refl) refl h
  step-Fine (get_all_call now) t h =
      answer-Fine (record t { peers = sampled now t.peers }) _
        (collect-some _ (sampled-IsFilled now t.peers h.filled)) (sampled-Agree now t h)

  run_from-Fine : (cs : List Call) (o : Option PeerTracker) → Fine o → Fine (run_from cs o)
  unfolding run_from
  run_from-Fine [] _ (fine t h) = fine t h
  run_from-Fine (c ∷ cs) _ (fine t h) = run_from-Fine cs (step c t) (step-Fine c t h)

  new-Agree : Agree new_peer_tracker
  unfolding new_peer_tracker find
  new-Agree = record { owned = λ id key q. ground (arith, q); filled = tt }

  -- A new tracker after any calls, in any order and with any numbers and keys, numbers used again
  -- included, has not panicked, each connection is one of its peer's, and each peer has one.
  pub run_from-new : (cs : List Call) → Fine (run_from cs (some new_peer_tracker))
  run_from-new cs = run_from-Fine cs (some new_peer_tracker) (fine new_peer_tracker new-Agree)
