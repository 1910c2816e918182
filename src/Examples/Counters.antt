-- ===== src/Examples/Counters.antt =====
-- The health counters and the warning board at concrete inputs.
use zephyr_applications.Common.{
  ℕ, true, false, List, [], ◌∷◌, arith, ◌≡◌, refl, ◌+◌, ◌≤◌, ◌⊎◌, length, if◌then◌else◌, none, some,
  u32,
}
use zephyr_applications.Common.{replicate}
use zephyr_applications.Health.Blob.{Counters, InRange}
use zephyr_applications.Health.Edge.{
  Seen, Advancing, events, edge_init, rising, both, one, events-eq-rising,
}
use zephyr_applications.Health.Board.{Board, refresh, health_board_publish, health_board_clear}
use zephyr_applications.Health.Board.Lookup.{lookup, IsBoard}
use zephyr_applications.Health.Board.Publish.{publish_lookup, before}
use zephyr_applications.Health.Board.Long.{long_source_never_found}
use zephyr_applications.Health.Store.{Config, Store, health_flush, health_init, no_warnings}
use zephyr_applications.Health.Store.Events.{
  Step, run, ticks, presses, mismatches, total_presses, total_mismatches, run_totals,
}
use zephyr_applications.Health.Store.Persist.{Carried, reboot_lem}
use zephyr_applications.Lockstep.Defs.{eq_bytes}

abbrev counters : Counters
counters = record {
  presses = 85000;
  mismatch_events = 12;
  uptime_s = 86400;
  boots = 3;
  flashes = 1;
  otas = 1;
  fw_sha = 1 ∷ 2 ∷ 3 ∷ 4 ∷ 5 ∷ 6 ∷ 7 ∷ 8 ∷ [];
  button_swaps = 2;
}

counters-InRange : InRange counters
counters-InRange = ground arith

-- Released, one loop open, both open, both open again.
abbrev seen : List Seen
seen = (11, 1, 1) ∷ (12, 2, 1) ∷ (13, 2, 2) ∷ (14, 2, 2) ∷ []

seen-Advancing : Advancing 10 seen
seen-Advancing = ground arith

abbrev relay : List ℕ
relay = 114 ∷ 101 ∷ 108 ∷ []

abbrev other : List ℕ
other = 120 ∷ []

abbrev warnings : Board
warnings = record {
  dropped = 0;
  w = record { src = other; msg = []; level = 2; count = 1; first_ms = 100; last_ms = 100 } ∷ [];
}

warnings-IsBoard : IsBoard warnings.w
warnings-IsBoard = ground arith

abbrev config : Config
config = record {
  button_rated_ops = 100000;
  button_warn_pct = 80;
  mismatch_warn_min = 50;
  mismatch_warn_per_1000 = 20;
  flush_min_s = 60;
  flush_max_s = 600;
  fw = 9 ∷ 2 ∷ 3 ∷ 4 ∷ 5 ∷ 6 ∷ 7 ∷ 8 ∷ [];
  stop_code = 2;
  button_msg = λ pct. pct ∷ [];
  mismatch_msg = λ m p. m ∷ p ∷ [];
}

-- Two presses wait to be folded in.
abbrev store : Store
store = record {
  counters = counters;
  board = warnings;
  dirty = false;
  uptime_at_boot_s = 86400;
  last_flush_ms = 600000;
  flushes = 1;
  flush_fails = 0;
  edge = edge_init;
  press_delta = 2;
  mismatch_delta = 0;
  saved = none;
}

-- The unit after the flush and a power cycle.
abbrev store_later : Store
store_later = record store { saved = (health_flush store 700000 false).saved; board = no_warnings }

abbrev steps : List Step
steps =
    Step.tick 1 1 1
    ∷ Step.tick 2 2 2
    ∷ Step.poll 660000 true
    ∷ Step.tick 3 1 2
    ∷ Step.flush 700000 false
    ∷ []

events-eq-rising_example :
    events edge_init 2 ((10, 1, 1) ∷ seen)
    ≡ record { press = false; mismatch = false } ∷ rising 2 (both 2 1 1) (one 2 1 1) seen
events-eq-rising_example = events-eq-rising 2 10 1 1 seen (seen-Advancing)

run_totals_example :
    (total_presses (run config store steps)
      ≡ u32 (total_presses store + presses (events store.edge config.stop_code (ticks steps))))
    × (total_mismatches (run config store steps)
        ≡ u32 (
            total_mismatches store + mismatches (events store.edge config.stop_code (ticks steps))))
run_totals_example = run_totals config store steps

reboot_lem_example :
    let c = (health_flush store 700000 false).counters in
    let d = (health_init config store_later 3000 true).counters in Carried config c d
reboot_lem_example = reboot_lem config store store_later 700000 3000 true (counters-InRange) refl

publish_lookup_example :
    let r = health_board_publish warnings relay 1 none 5000 in
    ((r.1 ≡ false)
      × (r.0 ≡ record warnings { dropped = u32 (warnings.dropped + 1) })
      × (lookup warnings.w relay ≡ none)
      × (8 ≤ length warnings.w))
    ⊎ ((r.1 ≡ true)
        × (r.0.dropped ≡ warnings.dropped)
        × (lookup r.0.w other ≡ (
            if eq_bytes relay other
            then some (refresh (before warnings relay 5000) 1 none 5000)
            else lookup warnings.w other)))
publish_lookup_example =
    publish_lookup warnings relay other 1 none 5000 (warnings-IsBoard) (ground arith) (ground arith)

long_source_never_found_example :
    (health_board_clear warnings (replicate 20 97) ≡ warnings)
    × (length (health_board_publish warnings (replicate 20 97) 1 none 5000).0.w
        ≡ length warnings.w + 1)
long_source_never_found_example =
    long_source_never_found warnings (replicate 20 97) 1 none 5000 (warnings-IsBoard) (ground arith)
      (ground arith) (ground arith)
