-- ===== src/Portmap/Pcp/Exchange.antt =====
-- internal/portmap/pcp.go, the loop of pcpMap: the request is written again each time that the read
-- times out. Times are nanoseconds. What the context, the socket and the clock do in each round is a
-- parameter.
use tailscale_derp.Base.{
  ℕ, zero, suc, ◌+◌, ◌*◌, ◌≤◌, ◌<◌, ltb, List, Option, none, some, if◌then◌else◌, arith, Bool-cases,
  inl, inr, ◌≢◌, ◌^◌,
}
use tailscale_derp.Portmap.{Error}

pub data Read : Type 0 where
  got : List ℕ → Read
  timed_out : Read
  broke : Error → Read

-- One round: whether the context is done, whether the write fails and how long it took, what the
-- read gives, and how long after its deadline a timeout is seen.
pub record Round : Type 0 where
  pub cancelled : Option Error
  pub write_error : Option Error
  pub write_time : ℕ
  pub read : Read
  pub late : ℕ

pub data Outcome : Type 0 where
  received : List ℕ → Outcome
  gave_up : Error → Outcome
  out_of_rounds : Outcome

abbrev pub millisecond : ℕ
millisecond = 10 ^ 6

abbrev pub min : ℕ → ℕ → ℕ
min a b = if ltb a b then a else b

unfoldable pub next_delay : ℕ → ℕ
next_delay d = if ltb d (1000 * millisecond) then d * 2 else d

-- What follows the read: the end, or the time at which the next round begins.
unfoldable pub after_read : Read → ℕ → ℕ → Error → Option Outcome × ℕ
after_read (got bytes) now deadline timeout = (some (received bytes), now)
after_read (broke e) now deadline timeout = (some (gave_up e), now)
after_read timed_out now deadline timeout =
    (if ltb now deadline then none else some (gave_up timeout), now)

-- The context and the write come before the read.
unfoldable pub unless_failed :
    Option Error → Option Error → ℕ → Option Outcome × ℕ → Option Outcome × ℕ
unless_failed (some e) w now result = (some (gave_up e), now)
unless_failed none (some e) now result = (some (gave_up e), now)
unless_failed none none now result = result

unfoldable pub one_round : Round → ℕ → ℕ → ℕ → Error → Option Outcome × ℕ
unfolding after_read unless_failed
one_round r now delay deadline timeout =
    unless_failed r.cancelled r.write_error now
      (after_read r.read (min deadline (now + r.write_time + delay) + r.late) deadline timeout)

module _ (rounds : ℕ → Round) (deadline : ℕ) (timeout : Error) where
  unfoldable pub go_on : (ℕ → Outcome) → Option Outcome × ℕ → Outcome
  go_on next (some o, now) = o
  go_on next (none, now) = next now

  -- The loop on fuel: the rounds that are left, the number of this one, the time and the delay.
  unfoldable pub exchange : ℕ → ℕ → ℕ → ℕ → Outcome
  unfolding go_on one_round next_delay
  exchange zero i now delay = out_of_rounds
  exchange (suc fuel) i now delay =
      go_on (λ now'. exchange fuel (i + 1) now' (next_delay delay))
        (one_round (rounds i) now delay deadline timeout)

  -- The time that so many rounds cover.
  unfoldable pub covered : ℕ → ℕ → ℕ
  unfolding next_delay
  covered zero delay = 0
  covered (suc fuel) delay = delay + covered fuel (next_delay delay)

  Next : ℕ → ℕ → Option Outcome × ℕ → Type 0
  Next now delay (some o, t) = o ≢ out_of_rounds
  Next now delay (none, t) = (now + delay ≤ t) × (t < deadline)

  received-out : (b : List ℕ) → received b ≢ out_of_rounds
  received-out b h = cc

  gave_up-out : (e : Error) → gave_up e ≢ out_of_rounds
  gave_up-out e h = cc

  after_read-Next :
      (r : Read) (now delay w late : ℕ)
      → Next now delay (after_read r (min deadline (now + w + delay) + late) deadline timeout)
  unfolding Next after_read
  after_read-Next (got b) now delay w late = received-out b
  after_read-Next (broke e) now delay w late = gave_up-out e
  after_read-Next timed_out now delay w late =
      elim (Bool-cases (ltb (min deadline (now + w + delay) + late) deadline)) [
        | inl q ↦ rw q (ground arith, ground arith)
        | inr q ↦ rw q (gave_up-out timeout)
      ]

  unless_failed-Next :
      (c w : Option Error) (now delay : ℕ) (x : Option Outcome × ℕ)
      → Next now delay x
      → Next now delay (unless_failed c w now x)
  unfolding Next unless_failed
  unless_failed-Next (some e) w now delay x h = gave_up-out e
  unless_failed-Next none (some e) now delay x h = gave_up-out e
  unless_failed-Next none none now delay x h = h

  go_on-ends :
      (next : ℕ → Outcome) (now delay : ℕ) (x : Option Outcome × ℕ)
      → Next now delay x
      → ((t : ℕ) → now + delay ≤ t → t < deadline → next t ≢ out_of_rounds)
      → go_on next x ≢ out_of_rounds
  unfolding Next go_on
  go_on-ends next now delay (some o, t) h k = h
  go_on-ends next now delay (none, t) h k = k t h.0 h.1

  exchange-covered :
      (fuel i now delay : ℕ)
      → deadline < now + covered (suc fuel) delay
      → exchange (suc fuel) i now delay ≢ out_of_rounds
  unfolding exchange covered one_round
  exchange-covered zero i now delay h =
      go_on-ends _ now delay _
        (unless_failed-Next _ _ now delay _ (after_read-Next (rounds i).read now delay _ _))
        (λ t a b. absurd (omega (arith, h, a, b)))
  exchange-covered (suc fuel) i now delay h =
      go_on-ends _ now delay _
        (unless_failed-Next _ _ now delay _ (after_read-Next (rounds i).read now delay _ _))
        (λ t a b. exchange-covered fuel (i + 1) t (next_delay delay) (omega (arith, h, a, b)))

-- Where the deadline is at most three seconds away, the request is written at most five times:
-- whatever the socket, the context and the clock do, the loop ends within five rounds, with a
-- response or an error.
pub exchange-ends :
    (rounds : ℕ → Round) (deadline : ℕ) (timeout : Error) (now : ℕ)
    → deadline ≤ now + 3000 * millisecond
    → exchange rounds deadline timeout 5 0 now (250 * millisecond) ≢ out_of_rounds
unfolding covered next_delay
exchange-ends rounds deadline timeout now h =
    exchange-covered rounds deadline timeout 4 0 now (250 * millisecond) (omega (arith, h))
