-- ===== src/Traffic/History.antt =====
-- The goroutine of Start: any number of ticks, with saves that succeed or fail, and a last save.
use tailscale_derp.Base.{◌≡◌, refl, ◌∙◌, some, List, [], ◌∷◌, arith}
use tailscale_derp.Traffic.{
  Persister, Codec, Metrics, total, Disk, Round, save_round, rounds, start,
}
use tailscale_derp.Traffic.Laws.{counters, total-save}

module _ (c : Codec) where
  open c use {Text, marshal, unmarshal}

  total-rounds :
      (p : Persister) (d : Disk c) (rs : List (Round c)) (later : Metrics)
      → counters (total (some (rounds c p d rs).0) later) ≡ counters (total (some p) later)
  unfolding rounds
  total-rounds p d [] later = refl
  total-rounds p d (r ∷ rs) later =
      total-rounds (save_round c p d r).0 (save_round c p d r).1 rs later
      ∙ total-save c p r.metrics r.now r.io r.partial d later

  -- The whole run of the saving goroutine, any ticks with saves that succeed or fail in any
  -- pattern and the save at the end of the context, leaves every later total as it was.
  pub total-start :
      (p : Persister) (d : Disk c) (ticks : List (Round c)) (last : Round c) (later : Metrics)
      → counters (total (some (start c p d ticks last).0) later) ≡ counters (total (some p) later)
  unfolding start
  total-start p d ticks last later = ground (
    arith,
    total-save c (rounds c p d ticks).0 last.metrics last.now last.io last.partial
        (rounds c p d ticks).1 later,
    total-rounds p d ticks later,
  )
