-- ===== src/Health/Levels.antt =====
-- The wear thresholds and the flush policy of health_logic.c.
use zephyr_applications.Common.{
  ℕ, ◌*◌, ◌/◌, ◌^◌, ◌≤◌, ◌<◌, ◌≡◌, Bool, true, ◌&&◌, ◌||◌, ltb, leb, ◌==◌, if◌then◌else◌, arith,
  ◌⊎◌, u64, ◌↔◌, max,
}

abbrev pub health_ok : ℕ
health_ok = 0

abbrev pub health_warn : ℕ
health_warn = 1

abbrev pub health_crit : ℕ
health_crit = 2

-- The level, and what `*pct_out` gets.
unfoldable pub button_level : ℕ → ℕ → ℕ → ℕ × ℕ
button_level presses rated_ops warn_pct =
    let p = u64 (presses * 100) / rated_ops in
    let pct = if ltb 0 rated_ops then if ltb 999 p then 999 else p else 0 in
    (
      if rated_ops == 0
          then health_ok
          else if leb 100 pct
          then health_crit
          else if ltb 0 warn_pct && leb warn_pct pct
          then health_warn
          else health_ok,
      pct,
    )

unfoldable pub mismatch_level : ℕ → ℕ → ℕ → ℕ → ℕ
mismatch_level mismatch_events presses min_events per_1000 =
    let basis = if ltb presses 1000 then 1000 else presses in
    let allowed = u64 (basis * per_1000) / 1000 in
    if (per_1000 == 0) || ltb mismatch_events min_events
    then health_ok
    else if ltb allowed mismatch_events
    then health_warn
    else health_ok

unfoldable pub flush_due : Bool → ℕ → ℕ → ℕ → Bool
flush_due dirty since_last_flush_s min_interval_s max_interval_s =
    let stretched = if ltb max_interval_s min_interval_s then min_interval_s else max_interval_s in
    if leb stretched since_last_flush_s
    then true
    else dirty && leb min_interval_s since_last_flush_s

mul_of_le-div : (k a r : ℕ) → 0 < r → k ≤ a / r → k * r ≤ a
mul_of_le-div k a r pos h = grind arith

le-div_of_mul : (k a r : ℕ) → 0 < r → k * r ≤ a → k ≤ a / r
le-div_of_mul k a r pos h = grind arith

-- For all 32-bit counts the button is critical exactly from the rated number of operations on, and
-- warns, below that, exactly from the warning percentage on; no product overflows. A rating of 0
-- disables both, and a warning percentage of 0 disables the warning.
pub button_level_lem :
    (presses rated_ops warn_pct : ℕ)
    → presses < 2 ^ 32
    → ((rated_ops ≡ 0) × (button_level presses rated_ops warn_pct ≡ (0, 0)))
      ⊎ ((0 < rated_ops)
          × (((rated_ops ≤ presses) × ((button_level presses rated_ops warn_pct).0 ≡ 2))
              ⊎ ((presses < rated_ops)
                  × (0 < warn_pct)
                  × (warn_pct * rated_ops ≤ presses * 100)
                  × ((button_level presses rated_ops warn_pct).0 ≡ 1))
              ⊎ ((presses < rated_ops)
                  × ((warn_pct ≡ 0) ⊎ (presses * 100 < warn_pct * rated_ops))
                  × ((button_level presses rated_ops warn_pct).0 ≡ 0))))
unfolding button_level
button_level_lem presses rated_ops warn_pct h = ground (
  arith,
  mul_of_le-div 100 (presses * 100) rated_ops,
  le-div_of_mul 100 (presses * 100) rated_ops,
  mul_of_le-div warn_pct (presses * 100) rated_ops,
  le-div_of_mul warn_pct (presses * 100) rated_ops,
)

-- For all 32-bit counts a mismatch warning is up exactly if there were at least `min_events`
-- mismatches and, per 1000 presses (presses counted as 1000 at least), more than `per_1000` of them;
-- a rate of 0 disables it.
pub mismatch_level_lem :
    (mismatch_events presses min_events per_1000 : ℕ)
    → presses < 2 ^ 32
    → per_1000 < 2 ^ 32
    → (mismatch_level mismatch_events presses min_events per_1000 ≡ 1) ↔ (
        (0 < per_1000)
        × (min_events ≤ mismatch_events)
        × (max presses 1000 * per_1000 < mismatch_events * 1000))
unfolding mismatch_level
mismatch_level_lem mismatch_events presses min_events per_1000 h k =
    let fits : max presses 1000 * per_1000 < 2 ^ 64 = grind arith in ground arith

-- A flush is due exactly if the state is dirty and the shorter interval has passed, or the longer one
-- has passed, a longer one below the shorter counting as the shorter.
pub flush_due_lem :
    (dirty : Bool) (since min_interval_s max_interval_s : ℕ)
    → (flush_due dirty since min_interval_s max_interval_s ≡ true)
      ↔ (((dirty ≡ true) × (min_interval_s ≤ since)) ⊎ (max min_interval_s max_interval_s ≤ since))
unfolding flush_due
flush_due_lem dirty since min_interval_s max_interval_s = ground arith
