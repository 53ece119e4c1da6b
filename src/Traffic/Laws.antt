-- ===== src/Traffic/Laws.antt =====
-- What Save and Load mean for the totals that Total reports.
use tailscale_derp.Base.{
  ℕ, ◌≡◌, ◌≢◌, ◌⊎◌, refl, String, eq_iff, true, false, Option, none, some, arith, Bool-cases, inl,
  inr,
}
use tailscale_derp.Traffic.{
  saved, next_persisted, Stats, Persister, Codec, ReadFile, contents, not_exist, SaveIo, Metrics,
  Error, new_persister, current_session, advance, total, total_enabled, load, save, save_files,
  load_read, Disk, add64, sub64,
}

-- The three counters of a Stats, without the time of the save.
abbrev pub counters : Stats → ℕ × ℕ × ℕ
counters s = (s.bytes_recv, s.bytes_sent, s.accepts)

-- `b + (c - o)`, then on to a later reading `l` from `c`, is `b + (l - o)`: wrapped or not.
add64-sub64_chain : (b o c l : ℕ) → add64 (add64 b (sub64 c o)) (sub64 l c) ≡ add64 b (sub64 l o)
add64-sub64_chain b o c l = omega arith

advance_chain :
    (base current later offset : Stats) (now : ℕ)
    → counters (
        advance
          (record (advance base current offset) { saved_at = now })
          later
          (record current { saved_at = 0 }))
      ≡ counters (advance base later offset)
unfolding advance
advance_chain b c l o now i = (
  add64-sub64_chain b.bytes_recv o.bytes_recv c.bytes_recv l.bytes_recv i,
  add64-sub64_chain b.bytes_sent o.bytes_sent c.bytes_sent l.bytes_sent i,
  add64-sub64_chain b.accepts o.accepts c.accepts l.accepts i,
)

total-saved :
    (p : Persister) (m : Metrics) (now : ℕ) (later : Metrics)
    → counters (total (some (saved p m now)) later) ≡ counters (total (some p) later)
unfolding saved next_persisted total total_enabled
total-saved p m now later = elim (Bool-cases p.enabled) [
  | inl e ↦
      rw e (advance_chain p.persisted (current_session m) (current_session later) p.offset now)
  | inr e ↦ rw e refl
]

restarted_total :
    (p : Persister) (m : Metrics) (now interval : ℕ) (start later : Metrics)
    → p.enabled ≡ true
    → counters (
        total
          (some (record (new_persister true p.path interval) {
            persisted = next_persisted p m now;
            offset = current_session start;
          }))
          later)
      ≡ counters (advance (total (some p) m) (current_session later) (current_session start))
unfolding new_persister next_persisted total total_enabled advance
restarted_total p m now interval start later on = rw on

module _ (c : Codec) where
  open c use {Text, marshal, unmarshal}

  -- The two outcomes of Save: nothing that counts has changed, or all of it is done.
  abbrev pub Kept : Persister → Disk c → Persister × Disk c × Option Error → Type 0
  Kept p d r = (r.0 ≡ p) × (r.1.file ≡ d.file)

  abbrev pub Done : Persister → Metrics → ℕ → Persister × Disk c × Option Error → Type 0
  Done p m now r =
      (r.0 ≡ saved p m now)
      × (r.1.file ≡ contents (marshal (next_persisted p m now)))
      × (r.1.temporary ≡ not_exist)
      × (p.enabled ≡ true)

  -- A save that is disabled, has no path or fails at any step leaves the persister and the file as
  -- they were; only a save that reports no error on an enabled persister replaces both.
  pub save_outcomes :
      (p : Persister) (m : Metrics) (now : ℕ) (io : SaveIo) (partial : ReadFile Text) (d : Disk c)
      → Kept p d (save c p m now io partial d) × ((save c p m now io partial d).2 ≢ none)
        ⊎ Kept p d (save c p m now io partial d) × (p.enabled ≡ false)
        ⊎ Done p m now (save c p m now io partial d) × ((save c p m now io partial d).2 ≡ none)
  unfolding save save_files
  save_outcomes p m now io partial d = ground arith

  -- Whatever Save does, and whether it fails or not, Total reports the same counters after it as
  -- it would have without it, now and at every later reading of the session metrics.
  pub total-save :
      (p : Persister) (m : Metrics) (now : ℕ) (io : SaveIo) (partial : ReadFile Text) (d : Disk c)
      (later : Metrics)
      → counters (total (some (save c p m now io partial d).0) later)
        ≡ counters (total (some p) later)
  total-save p m now io partial d later = elim (save_outcomes p m now io partial d) [
    | inl (k, e) ↦ rw (k.0)
    | inr (inl (k, e)) ↦ rw (k.0)
    | inr (inr (done, e)) ↦ rw (done.0) (total-saved p m now later)
  ]

  load_marshal :
      (path : String) (interval : ℕ) (start : Metrics) (s : Stats)
      → ((s : Stats) → unmarshal (marshal s) ≡ some s)
      → path ≢ ""
      → load c (new_persister true path interval) start (contents (marshal s)) ≡ (
        record (new_persister true path interval) { persisted = s; offset = current_session start },
        none,
      )
  unfolding load load_read new_persister
  load_marshal path interval start s codec h = ground (arith, codec s, eq_iff path "")

  -- A persister that was saved, loaded by a new process from the file that the save left: the new
  -- totals go on from the ones at the save, by what the new session has counted since its start.
  pub total-load-save :
      (p : Persister) (m : Metrics) (now : ℕ) (io : SaveIo) (partial : ReadFile Text) (d : Disk c)
      (interval : ℕ) (start later : Metrics)
      → ((s : Stats) → unmarshal (marshal s) ≡ some s)
      → p.enabled ≡ true
      → p.path ≢ ""
      → (save c p m now io partial d).2 ≡ none
      → let restarted =
          load c (new_persister true p.path interval) start (save c p m now io partial d).1.file in
        (restarted.1 ≡ none)
        × (counters (total (some restarted.0) later)
            ≡ counters (advance (total (some p) m) (current_session later) (current_session start)))
  total-load-save p m now io partial d interval start later codec on path good =
      elim (save_outcomes p m now io partial d) [
        | inl (k, e) ↦ absurd (e good)
        | inr (inl (k, off)) ↦ cc
        | inr (inr (done, e)) ↦
            rw (done.1, load_marshal p.path interval start (next_persisted p m now) codec path)
              (refl, restarted_total p m now interval start later on)
      ]
