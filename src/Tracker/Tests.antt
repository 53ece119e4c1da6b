-- ===== src/Tracker/Tests.antt =====
-- A run of the tracker: a connection's number that is used again, and a peer that goes.
use tailscale_derp.Base.{String, Bool, false, some, List, [], ◌∷◌}
use tailscale_derp.Tracker.{new_peer_tracker}
use tailscale_derp.Tracker.Sound.{Fine}
use tailscale_derp.Tracker.Runs.{
  Call, register_call, unregister_call, receive_call, send_call, get_all_call, run_from,
  run_from-new,
}

abbrev never : String → String → Bool
never a b = false

abbrev calls : List Call
calls =
    register_call 1 "nodekey:a" "192.0.2.1:1000" 100
    ∷ register_call 1 "nodekey:b" "192.0.2.2:1000" 101
    ∷ receive_call 1 512
    ∷ get_all_call 200
    ∷ unregister_call 1
    ∷ send_call 1 64
    ∷ get_all_call 300
    ∷ []

run_from-new_example : Fine (run_from never calls (some new_peer_tracker))
run_from-new_example = run_from-new never calls
