-- ===== src/Estop/Decide.antt =====
-- One decision of estop_verdict.c, and one sample of estop_gpio.c: what it takes to answer OK.
use zephyr_applications.Common.{
  ℕ, ◌≤◌, ◌≡◌, ◌≢◌, ◌↔◌, ◌⊎◌, inl, inr, true, arith, leb, ◌==◌, if◌then◌else◌, Bool-cases,
}
use zephyr_applications.Pstop.{Codes}
use zephyr_applications.Estop.{
  EstopState, estop_decide, estop_channel_sample, raw_message, is_negative,
}

abbrev pub IsHealthy : ℕ → ℕ → Type 0
IsHealthy hi lo = (hi ≡ 1) × (lo ≡ 0)

-- On a closed loop both expressions answer OK.
raw_message_closed :
    (c : Codes) (core_id hi lo : ℕ) → hi ≡ 1 → lo ≡ 0 → raw_message c core_id hi lo ≡ c.ok
raw_message_closed c core_id hi lo p q = elim (Bool-cases (core_id == 0)) [
  | inl z ↦ rw (z, p, q)
  | inr z ↦ rw (z, p, q)
]

module _ (c : Codes) (st : EstopState) (core_id hi lo : ℕ) where
  -- The override decides alone unless the loop reads closed.
  pub decide_closed :
      IsHealthy hi lo
      → (estop_decide c st core_id hi lo).1 ≡ (if leb 2 st.closed_streak then c.ok else c.stop)
  unfolding estop_decide
  decide_closed h = ground (arith, raw_message_closed c core_id hi lo h.0 h.1)

  pub decide_open : ¬ IsHealthy hi lo → (estop_decide c st core_id hi lo).1 ≡ c.stop
  unfolding estop_decide
  decide_open h = ground arith

pub IsHealthy-cases : (hi lo : ℕ) → IsHealthy hi lo ⊎ (¬ IsHealthy hi lo)
IsHealthy-cases hi lo = ground arith

-- A decision answers OK exactly if both fresh reads are healthy and the streak before it is two at
-- least, and otherwise STOP.
pub decide_ok_streak :
    (c : Codes) (st : EstopState) (core_id hi lo : ℕ)
    → c.ok ≢ c.stop
    → (((estop_decide c st core_id hi lo).1 ≡ c.ok) ↔ (IsHealthy hi lo × (2 ≤ st.closed_streak)))
      × (((estop_decide c st core_id hi lo).1 ≡ c.ok)
          ⊎ ((estop_decide c st core_id hi lo).1 ≡ c.stop))
decide_ok_streak c st core_id hi lo ne = elim (IsHealthy-cases hi lo) [
  | inl h ↦ ground (arith, decide_closed c st core_id hi lo h)
  | inr h ↦ ground (arith, decide_open c st core_id hi lo h)
]

-- A sample with a read error in either phase answers STOP, in every state of the channel.
pub estop_channel_sample_error :
    (c : Codes) (core_id : ℕ) (st : EstopState) (read_hi read_lo : ℕ)
    → (is_negative read_hi ≡ true) ⊎ (is_negative read_lo ≡ true)
    → (estop_channel_sample c core_id st read_hi read_lo).1 ≡ c.stop
unfolding estop_channel_sample
estop_channel_sample_error c core_id st read_hi read_lo e =
    decide_open c st core_id _ _ (not_healthy e)
  where
    not_healthy :
        (is_negative read_hi ≡ true) ⊎ (is_negative read_lo ≡ true)
        → ¬ IsHealthy
            (if is_negative read_hi then 0 else read_hi)
            (if is_negative read_lo then 1 else read_lo)
    not_healthy e h = ground arith

-- The verdict of a sample is STOP, or it is OK and the driver read 1 and 0 with two healthy ticks
-- right before.
pub sample_cases :
    (c : Codes) (core_id : ℕ) (st : EstopState) (read_hi read_lo : ℕ)
    → ((estop_channel_sample c core_id st read_hi read_lo).1 ≡ c.stop)
      ⊎ (((estop_channel_sample c core_id st read_hi read_lo).1 ≡ c.ok)
          × IsHealthy read_hi read_lo
          × (2 ≤ st.closed_streak))
unfolding estop_channel_sample
sample_cases c core_id st read_hi read_lo =
    let hi : ℕ = if is_negative read_hi then 0 else read_hi in
    let lo : ℕ = if is_negative read_lo then 1 else read_lo in
    elim (IsHealthy-cases hi lo) [
      | inl h ↦ ground (arith, decide_closed c st core_id hi lo h)
      | inr h ↦ inl (decide_open c st core_id hi lo h)
    ]
