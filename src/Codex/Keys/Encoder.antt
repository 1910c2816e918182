-- ===== src/Codex/Keys/Encoder.antt =====
-- encoder_poll and encoder_switch_poll of codex_keys/src/main.c. The counts are read as integers.
use zephyr_applications.Common.{
  ◌∷◌, eq_bool, ◌==◌, ℕ, ◌-◌, ◌+◌, Bool, true, false, not, ltb, if◌then◌else◌, List, [], Option,
  none, some, min, replicate,
}
use zephyr_applications.Common.Int.{ℤ, pos_part, neg_part}

-- encoder_last and encoder_synced
pub record Encoder : Type 0 where
  pub encoder_last : ℤ
  pub encoder_synced : Bool

-- encoder_poll: `reading` is none if the sensor cannot be read; the events are the steps that are
-- sent, true for clockwise. One count is one step, a fall of the count is clockwise, and at most
-- ENCODER_STEPS_PER_POLL steps are sent.
unfoldable pub encoder_poll : Encoder → Option ℤ → Encoder × List Bool
encoder_poll st none = (st, [])
encoder_poll st (some val) =
    let up = pos_part val + neg_part st.encoder_last in
    let down = pos_part st.encoder_last + neg_part val in
    let turned = record st { encoder_last = val } in
    if not st.encoder_synced
    then (record { encoder_last = val; encoder_synced = true }, [])
    else if ltb up down
    then (turned, replicate (min (down - up) 8) true)
    else (turned, replicate (min (up - down) 8) false)

-- encoder_switch_poll: the kept `was_pressed`, what the pin reads, none for an error, and the event
-- that is sent, true for CODEX_ACT_PRESS. The switch is active-low.
unfoldable pub encoder_switch_poll : Bool → Option ℕ → Bool × List Bool
encoder_switch_poll was_pressed none = (was_pressed, [])
encoder_switch_poll was_pressed (some val) =
    let pressed = val == 0 in
    if eq_bool pressed was_pressed then (was_pressed, []) else (pressed, pressed ∷ [])
