-- ===== src/Portmap/Client/Trace.antt =====
-- What the client does to the gateway while it tries the methods.
use mathlib.Core.List.{append_assoc}
use tailscale_derp.Base.{
  ◌≡◌, refl, sym, String, Option, none, some, List, [], ◌∷◌, ◌++◌, arith, inl, inr, Option-cases,
}
use tailscale_derp.Portmap.{
  Request, Lease, Mapping, asked, got, called, Log, Network, release_lease, release_mapping,
}
use tailscale_derp.Portmap.Client.{
  Client, MapError, Answer, Result, ok, err, failed, mapped, validate_mapping, settle, try_method,
  map_loop, map_client,
}

-- The calls, newest first, of the closures of a mapping: the DERP lease's, then the STUN lease's.
abbrev pub closure_calls : Option Lease → Log
closure_calls none = []
closure_calls (some l) = elim l.release [ none ↦ [] | some c ↦ called c ∷ [] ]

abbrev pub undo_calls : Mapping → Log
undo_calls m = closure_calls m.stun ++ closure_calls m.derp

-- The log grows from `base` by requests that gave no mapping, and by mappings whose closures are
-- called at once.
pub data Clean (base : Log) : Log → Type 0 where
  start : Clean base base
  silent : {log : Log} (method : String) → Clean base log → Clean base (asked method ∷ log)
  undone :
      {log : Log} (method : String) (m : Mapping)
      → Clean base log
      → Clean base (undo_calls m ++ got m ∷ asked method ∷ log)

-- After an error the log is clean. After a success it is clean up to the last request, which gave
-- the mapping that is returned, under the name of its method.
abbrev pub Settled : Log → Result Mapping × Log → Type 0
Settled base (err es, log) = Clean base log
Settled base (ok m, log) =
    (before : Log) × (given : Mapping) × Clean base before
    × (log ≡ got given ∷ asked m.method ∷ before)
    × (m ≡ record given { method = m.method })

release_lease_log :
    (net : Network) (l : Option Lease) (log : Log)
    → (release_lease net l log).1 ≡ closure_calls l ++ log
unfolding release_lease
release_lease_log net none log = refl
release_lease_log net (some l) log = ground arith

release_mapping_log :
    (net : Network) (m : Mapping) (log : Log)
    → (release_mapping net (some m) log).1 ≡ undo_calls m ++ log
unfolding release_mapping
release_mapping_log net m log =
    rw
      (
        release_lease_log net m.stun (release_lease net m.derp log).1,
        release_lease_log net m.derp log,
      )
      (sym (append_assoc (closure_calls m.stun) (closure_calls m.derp) log))

settle-Settled :
    (net : Network) (base : Log) (method : String) (r : Request) (a : Answer) (log : Log)
    → Clean base log
    → Settled base (settle net method r a (asked method ∷ log))
unfolding settle
settle-Settled net base method r (failed e) log c = silent method c
settle-Settled net base method r (mapped none) log c = silent method c
settle-Settled net base method r (mapped (some m)) log c =
    elim (Option-cases (validate_mapping (some m) r)) [
      | inl e ↦ rw (e, settle) (log, m, c, refl, refl)
      | inr (why, e) ↦
          rw (e, settle, release_mapping_log net m (got m ∷ asked method ∷ log)) (undone method m c)
    ]

-- A method with no backend leaves the log alone.
try_method-Settled :
    (net : Network) (base : Log) (method : String) (b : Option (Request → Log → Answer))
    (r : Request) (log : Log)
    → Clean base log
    → Settled base (try_method net method b r log)
unfolding try_method
try_method-Settled net base method none r log c = c
try_method-Settled net base method (some b) r log c =
    settle-Settled net base method r (b r (asked method ∷ log)) log c

loop_Settled :
    (net : Network) (base : Log) (backends : String → Option (Request → Log → Answer))
    (ms : List String) (errs : List MapError) (r : Request) (log : Log)
    → Clean base log
    → Settled base (map_loop net backends ms errs r log)
unfolding map_loop
loop_Settled net base backends [] [] r log c = c
loop_Settled net base backends [] (e ∷ es) r log c = c
loop_Settled net base backends (x ∷ ms) errs r log c =
    go (λ es log' q. loop_Settled net base backends ms (errs ++ es) r log' q)
      (try_method net x (backends x) r log).0 (try_method-Settled net base x (backends x) r log c)
      refl
  where
    go :
        ((es : List MapError) (log' : Log)
          → Clean base log'
          → Settled base (map_loop net backends ms (errs ++ es) r log'))
        → (result : Result Mapping) → Settled base (result, (try_method net x (backends x) r log).1)
        → (try_method net x (backends x) r log).0 ≡ result
        → Settled base (map_loop net backends (x ∷ ms) errs r log)
    go rec (ok mapping) s e = rw (e, map_loop) s
    go rec (err es) s e = rw (e, map_loop) (rec es _ s)

-- Every mapping that a backend gives is either returned, or refused with all its closures called at
-- once, whatever they answer: after an error each mapping that was given was refused so, and after a
-- success each but the one returned. Nothing is asked of a later method once one has succeeded.
pub map_client-Settled :
    (net : Network) (c : Client) (r : Request) (log : Log) → Settled log (map_client net c r log)
unfolding map_client
map_client-Settled net c r log = loop_Settled net log c.backends c.methods [] r log start
