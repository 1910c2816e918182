-- ===== src/Health/Store.antt =====
-- The counters, their persistence and the board, held together: health.c. Every operation that the
-- lock guards is one step; the uptime is the argument `now_ms`, read once for each operation.
pub mod Events
pub mod Persist
use zephyr_applications.Common.{
  ℕ, ◌+◌, ◌-◌, ◌*◌, ◌/◌, Bool, true, false, ◌&&◌, ◌||◌, not, ltb, leb, ◌==◌, if◌then◌else◌, List,
  [], ◌∷◌, Option, none, some, u32, sub32, length, replicate,
}
use zephyr_applications.Lockstep.Defs.{eq_bytes}
use zephyr_applications.Health.Blob.{Counters, health_encode, health_decode, health_blob_len}
use zephyr_applications.Health.Edge.{HealthEdge, EdgeOut, edge_init}
use zephyr_applications.Health.Edge as Edge
use zephyr_applications.Health.Levels.{button_level, mismatch_level, flush_due}
use zephyr_applications.Health.Board.{Board, health_board_publish, health_board_level}

-- The Kconfig values, the eight bytes that `fw_identity` derives from the build, the STOP code, and
-- the two texts that snprintf prints.
pub record Config : Type 0 where
  pub button_rated_ops : ℕ
  pub button_warn_pct : ℕ
  pub mismatch_warn_min : ℕ
  pub mismatch_warn_per_1000 : ℕ
  pub flush_min_s : ℕ
  pub flush_max_s : ℕ
  pub fw : List ℕ
  pub stop_code : ℕ
  pub button_msg : ℕ → List ℕ
  pub mismatch_msg : ℕ → ℕ → List ℕ

-- The file's variables, and `saved`: the blob under `HEALTH_SETTINGS_KEY`, if there is one.
pub record Store : Type 0 where
  pub counters : Counters
  pub board : Board
  pub dirty : Bool
  pub uptime_at_boot_s : ℕ  -- uint32_t
  pub last_flush_ms : ℕ
  pub flushes : ℕ  -- uint32_t
  pub flush_fails : ℕ  -- uint32_t
  pub edge : HealthEdge
  pub press_delta : ℕ  -- a 32-bit atomic
  pub mismatch_delta : ℕ  -- a 32-bit atomic
  pub saved : Option (List ℕ)

abbrev pub no_counters : Counters
no_counters = record {
  presses = 0;
  mismatch_events = 0;
  uptime_s = 0;
  boots = 0;
  flashes = 0;
  otas = 0;
  fw_sha = replicate 8 0;
  button_swaps = 0;
}

abbrev pub no_warnings : Board
no_warnings = record { dropped = 0; w = [] }

abbrev pub bump : Bool → ℕ → ℕ
bump flag n = if flag then u32 (n + 1) else n

-- The tick observer.
unfoldable pub observe : Config → Store → ℕ → ℕ → ℕ → Store
observe k st tick verdict0 verdict1 =
    let (edge, e) = Edge.observe st.edge tick verdict0 verdict1 k.stop_code in
    record st {
      edge = edge;
      press_delta = bump e.press st.press_delta;
      mismatch_delta = bump e.mismatch st.mismatch_delta;
    }

abbrev pub uptime_s : ℕ → ℕ
uptime_s now_ms = u32 (now_ms / 1000)

unfoldable pub fold_locked : Store → ℕ → Store
fold_locked st now_ms =
    let p = st.press_delta in
    let m = st.mismatch_delta in
    let moved = not (p == 0) || not (m == 0) in
    let c = st.counters in
    let counted = record c {
      presses = u32 (c.presses + p);
      mismatch_events = u32 (c.mismatch_events + m);
    } in
    let kept = if moved then counted else c in
    record st {
      press_delta = 0;
      mismatch_delta = 0;
      counters = record kept { uptime_s = u32 (st.uptime_at_boot_s + uptime_s now_ms) };
      dirty = moved || st.dirty;
    }

-- `failed` tells that `settings_save_one` returned an error; else it has stored the blob.
unfoldable pub flush_locked : Store → ℕ → Bool → Store
flush_locked st now_ms failed =
    let folded = fold_locked st now_ms in
    if failed
    then record folded { last_flush_ms = now_ms; flush_fails = u32 (st.flush_fails + 1) }
    else record folded {
      last_flush_ms = now_ms;
      flushes = u32 (st.flushes + 1);
      dirty = false;
      saved = some (health_encode folded.counters);
    }

-- "button_wear" and "loop_mismatch"
abbrev pub button_wear : List ℕ
button_wear = 98 ∷ 117 ∷ 116 ∷ 116 ∷ 111 ∷ 110 ∷ 95 ∷ 119 ∷ 101 ∷ 97 ∷ 114 ∷ []

abbrev pub loop_mismatch : List ℕ
loop_mismatch = 108 ∷ 111 ∷ 111 ∷ 112 ∷ 95 ∷ 109 ∷ 105 ∷ 115 ∷ 109 ∷ 97 ∷ 116 ∷ 99 ∷ 104 ∷ []

unfoldable pub evaluate_locked : Config → Store → ℕ → Store
evaluate_locked k st now_ms =
    let (level, pct) = button_level st.counters.presses k.button_rated_ops k.button_warn_pct in
    let worn =
      (health_board_publish st.board button_wear level (some (k.button_msg pct)) now_ms).0 in
    let mismatched =
      mismatch_level st.counters.mismatch_events st.counters.presses k.mismatch_warn_min
        k.mismatch_warn_per_1000 in
    let text = k.mismatch_msg st.counters.mismatch_events st.counters.presses in
    record st { board = (health_board_publish worn loop_mismatch mismatched (some text) now_ms).0 }

-- What `settings_load_subtree` and `health_decode` leave in `counters`: `health_settings_set` refuses
-- a blob of another length.
unfoldable pub loaded_counters : Option (List ℕ) → Counters
loaded_counters none = no_counters
loaded_counters (some blob) = elim (health_decode blob) [ none ↦ no_counters | some c ↦ c ]

-- The counters of the boot: one boot more, and one flash more if the build is another one.
abbrev pub booted : Config → Counters → Counters
booted k c =
    let d = record c { boots = u32 (c.boots + 1) } in
    if eq_bytes k.fw c.fw_sha then d else record d { flashes = u32 (c.flashes + 1); fw_sha = k.fw }

unfoldable pub health_init : Config → Store → ℕ → Bool → Store
health_init k st now_ms failed =
    let c = booted k (loaded_counters st.saved) in
    let fresh = record st {
      counters = c;
      board = no_warnings;
      edge = edge_init;
      press_delta = 0;
      mismatch_delta = 0;
      flushes = 0;
      flush_fails = 0;
      uptime_at_boot_s = sub32 c.uptime_s (uptime_s now_ms);
    } in
    flush_locked (evaluate_locked k fresh now_ms) now_ms failed

-- The uptime never runs back, so that the difference is not negative.
unfoldable pub health_poll : Config → Store → ℕ → Bool → Store
health_poll k st now_ms failed =
    let seen = evaluate_locked k (fold_locked st now_ms) now_ms in
    if flush_due seen.dirty (u32 ((now_ms - seen.last_flush_ms) / 1000)) k.flush_min_s k.flush_max_s
    then flush_locked seen now_ms failed
    else seen

abbrev pub health_flush : Store → ℕ → Bool → Store
health_flush st now_ms failed = flush_locked st now_ms failed

unfoldable pub health_publish : Store → List ℕ → ℕ → Option (List ℕ) → ℕ → Store × Bool
health_publish st src level msg now_ms =
    let (board, ok) = health_board_publish st.board src level msg now_ms in
    (record st { board = board }, ok)

abbrev pub health_level : Store → ℕ
health_level st = health_board_level st.board

unfoldable pub health_reset_button : Config → Store → ℕ → Bool → Store
health_reset_button k st now_ms failed =
    let folded = fold_locked st now_ms in
    let c = folded.counters in
    let swaps = if ltb c.button_swaps 255 then c.button_swaps + 1 else c.button_swaps in
    let reset = record folded {
      counters = record c { presses = 0; mismatch_events = 0; button_swaps = swaps };
    } in
    flush_locked (evaluate_locked k reset now_ms) now_ms failed

unfoldable pub health_reset_all : Config → Store → ℕ → Bool → Store
health_reset_all k st now_ms failed =
    let reset = record st {
      press_delta = 0;
      mismatch_delta = 0;
      counters = record no_counters { fw_sha = k.fw };
      uptime_at_boot_s = sub32 0 (uptime_s now_ms);
    } in
    flush_locked (evaluate_locked k reset now_ms) now_ms failed
