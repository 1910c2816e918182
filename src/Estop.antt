-- ===== src/Estop.antt =====
-- The stop-switch decision: applications/protective_stop/src/estop_verdict.{c,h}, and the sampling
-- of one channel, estop_channel_sample of estop_gpio.c. A C `int` is its 32-bit pattern, so that
-- `^`, `|` and `&` act on it as in C and a negative value is one from 2 ^ 31 on.
pub mod Decide
pub mod History
pub mod Priming
use Prim.Native.Nat.{bit_and, bit_or, bit_xor}
use zephyr_applications.Common.{
  ℕ, ◌+◌, ◌^◌, Bool, true, false, ◌&&◌, ltb, leb, ◌==◌, if◌then◌else◌, List, [], ◌∷◌,
}
use zephyr_applications.Pstop.{Codes}

-- `estop_state_t`; the two streaks are `uint8_t`.
pub record EstopState : Type 0 where
  pub high_ok : Bool
  pub low_ok : Bool
  pub primed_high : Bool
  pub primed_low : Bool
  pub closed_streak : ℕ
  pub open_streak : ℕ
  pub settled : Bool

abbrev pub loop_reclose_debounce_ticks : ℕ
loop_reclose_debounce_ticks = 3

abbrev pub loop_boot_open_confirm_ticks : ℕ
loop_boot_open_confirm_ticks = 5

abbrev pub estop_state_init : EstopState
estop_state_init = record {
  high_ok = false;
  low_ok = false;
  primed_high = false;
  primed_low = false;
  closed_streak = 0;
  open_streak = 0;
  settled = false;
}

-- A `uint8_t` streak that stops at 255.
abbrev bump_streak : ℕ → ℕ
bump_streak n = if ltb n 255 then n + 1 else n

-- The update of the flags, the debounce and the warm-up.
abbrev pub track : EstopState → ℕ → ℕ → EstopState
track st rb_hi rb_lo =
    let high = rb_hi == 1 in
    let low = rb_lo == 0 in
    let closed_next = bump_streak st.closed_streak in
    let open_next = bump_streak st.open_streak in
    if high && low
    then record {
      high_ok = high;
      low_ok = low;
      primed_high = true;
      primed_low = true;
      closed_streak = closed_next;
      open_streak = 0;
      settled = if leb loop_reclose_debounce_ticks closed_next then true else st.settled;
    }
    else record {
      high_ok = high;
      low_ok = low;
      primed_high = true;
      primed_low = true;
      closed_streak = 0;
      open_streak = open_next;
      settled = if leb loop_boot_open_confirm_ticks open_next then true else st.settled;
    }

-- `k_estop_msg[i]`, an array of two.
abbrev estop_msg : Codes → ℕ → ℕ
estop_msg c i = if i == 0 then c.ok else c.stop

-- The two expressions of the decision, before the override.
abbrev pub raw_message : Codes → ℕ → ℕ → ℕ → ℕ
raw_message c core_id rb_hi rb_lo =
    if core_id == 0
    then estop_msg c (bit_and (bit_or (bit_xor rb_hi 1) rb_lo) 1)
    else if (rb_hi == 1) && (rb_lo == 0)
    then c.ok
    else c.stop

unfoldable pub estop_decide : Codes → EstopState → ℕ → ℕ → ℕ → EstopState × ℕ
estop_decide c st core_id rb_hi rb_lo =
    let msg = raw_message c core_id rb_hi rb_lo in
    let st' = track st rb_hi rb_lo in
    let raw_closed = st'.high_ok && st'.low_ok in
    (st', if raw_closed && leb loop_reclose_debounce_ticks st'.closed_streak then msg else c.stop)

unfoldable pub estop_channels_primed : EstopState → EstopState → Bool
estop_channels_primed a b =
    a.primed_high && a.primed_low && b.primed_high && b.primed_low && a.settled && b.settled

-- `rb < 0` on the bit pattern of an `int`.
abbrev pub is_negative : ℕ → Bool
is_negative rb = leb (2 ^ 31) rb

-- `estop_channel_sample`: the two readbacks, each 0, 1 or a negative error, are what the driver
-- returns for the phase that was driven.
unfoldable pub estop_channel_sample : Codes → ℕ → EstopState → ℕ → ℕ → EstopState × ℕ
estop_channel_sample c core_id st read_hi read_lo =
    let rb_hi : ℕ = if is_negative read_hi then 0 else read_hi in
    let rb_lo : ℕ = if is_negative read_lo then 1 else read_lo in
    estop_decide c st core_id rb_hi rb_lo

-- A channel fed one pair of fresh reads per tick, from the boot state: the final state and the
-- verdict of the last tick (STOP before the first).
unfoldable pub feed : Codes → ℕ → EstopState × ℕ → List (ℕ × ℕ) → EstopState × ℕ
feed c core_id s [] = s
feed c core_id s ((hi, lo) ∷ reads) = feed c core_id (estop_decide c s.0 core_id hi lo) reads
