-- ===== src/Traffic/Tests.antt =====
-- Runs of the traffic persister at concrete inputs.
use tailscale_derp.Base.{
  ◌≡◌, refl, ◌≢◌, ◌⊎◌, String, eq_iff, true, false, none, some, [], ◌∷◌, arith,
}
use tailscale_derp.Traffic.{
  saved, next_persisted, Stats, Persister, Codec, not_exist, SaveIo, Metrics, advance,
  current_session, total, load, save, new_persister, zero_stats, Disk, Round, start,
}
use tailscale_derp.Traffic.Laws.{counters, Kept, Done, save_outcomes, total-save, total-load-save}
use tailscale_derp.Traffic.History.{total-start}

abbrev plain : Codec
plain = record { Text = Stats; marshal = λ s. s; unmarshal = λ s. some s }

abbrev counting : Persister
counting = record (new_persister true "/tmp/traffic.json" 60) {
  persisted = record { bytes_recv = 100; bytes_sent = 50; accepts = 3; saved_at = 7 };
  offset = record { bytes_recv = 10; bytes_sent = 5; accepts = 1; saved_at = 0 };
}

abbrev no_files : Disk plain
no_files = record { file = not_exist; temporary = not_exist }

abbrev works : SaveIo
works = record { mkdir = true; write = true; rename = true }

abbrev no_rename : SaveIo
no_rename = record { mkdir = true; write = true; rename = false }

abbrev reading : Metrics
reading = some (30, 25, 2)

abbrev later : Metrics
later = some (40, 26, 4)

totals_after_save :
    counters (total (some (save plain counting reading 8 works not_exist no_files).0) later)
    ≡ (130, 71, 6)
unfolding save saved next_persisted total advance current_session new_persister
totals_after_save = refl

-- A session counter that went back wraps around below zero and up again.
total_wraps :
    counters (total (some (record counting { persisted = zero_stats })) none)
    ≡ (18446744073709551606, 18446744073709551611, 18446744073709551615)
unfolding total advance current_session new_persister
total_wraps = refl

total-save_example :
    counters (total (some (save plain counting reading 8 works not_exist no_files).0) later)
    ≡ counters (total (some counting) later)
total-save_example = total-save plain counting reading 8 works not_exist no_files later

path_given : ◌≢◌ {A = String} "/tmp/traffic.json" ""
path_given = ground (arith, eq_iff "/tmp/traffic.json" "")

saves_fine : (save plain counting reading 8 works not_exist no_files).2 ≡ none
unfolding save new_persister
saves_fine = refl

total-load-save_example :
    let restarted =
      load plain
        (new_persister true counting.path 60)
        none
        (save plain counting reading 8 works not_exist no_files).1.file in
    (restarted.1 ≡ none)
    × (counters (total (some restarted.0) later)
        ≡ counters (
            advance (total (some counting) reading) (current_session later) (current_session none)))
unfolding new_persister
total-load-save_example =
    total-load-save plain counting reading 8 works not_exist no_files 60 none later (λ s. refl) refl
      path_given saves_fine

abbrev tick : Round plain
tick = record { metrics = reading; now = 8; io = works; partial = not_exist }

abbrev failing : Round plain
failing = record { metrics = later; now = 9; io = no_rename; partial = not_exist }

total-start_example :
    counters (total (some (start plain counting no_files (failing ∷ tick ∷ []) failing).0) later)
    ≡ counters (total (some counting) later)
total-start_example = total-start plain counting no_files (failing ∷ tick ∷ []) failing later

save_outcomes_example :
    let r = save plain counting reading 8 no_rename not_exist no_files in
    Kept plain counting no_files r × (r.2 ≢ none)
    ⊎ Kept plain counting no_files r × (counting.enabled ≡ false)
    ⊎ Done plain counting reading 8 r × (r.2 ≡ none)
save_outcomes_example = save_outcomes plain counting reading 8 no_rename not_exist no_files
