-- ===== src/Estop/History.antt =====
-- The verdict of estop_verdict.c as a function of every read since boot.
use zephyr_applications.Common.{
  ℕ, ◌+◌, min, ◌≡◌, refl, inl, inr, ◌&&◌, arith, leb, ◌==◌, if◌then◌else◌, List, [], ◌∷◌,
}
use zephyr_applications.Pstop.{Codes}
use zephyr_applications.Estop.{EstopState, estop_decide, feed, estop_state_init, track}
use zephyr_applications.Estop.Decide.{IsHealthy-cases, decide_closed, decide_open}

-- How many healthy reads end a history, `n` of them having come right before it.
abbrev pub healthy_run : ℕ → List (ℕ × ℕ) → ℕ
healthy_run n [] = n
healthy_run n ((hi, lo) ∷ reads) = healthy_run (if (hi == 1) && (lo == 0) then n + 1 else 0) reads

closed_streak-track :
    (st : EstopState) (n hi lo : ℕ)
    → st.closed_streak ≡ min n 255
    → (track st hi lo).closed_streak ≡ min (if (hi == 1) && (lo == 0) then n + 1 else 0) 255
closed_streak-track st n hi lo h = ground arith

-- What the state and the verdict say of a run of `n` healthy reads.
abbrev Agrees : Codes → ℕ → EstopState × ℕ → Type 0
Agrees c n s = (s.0.closed_streak ≡ min n 255) × (s.1 ≡ (if leb 3 n then c.ok else c.stop))

pub closed_streak-decide :
    (c : Codes) (core_id n hi lo : ℕ) (st : EstopState)
    → st.closed_streak ≡ min n 255
    → (estop_decide c st core_id hi lo).0.closed_streak
      ≡ min (if (hi == 1) && (lo == 0) then n + 1 else 0) 255
unfolding estop_decide
closed_streak-decide c core_id n hi lo st h = closed_streak-track st n hi lo h

decide-Agrees :
    (c : Codes) (core_id n hi lo : ℕ) (st : EstopState)
    → st.closed_streak ≡ min n 255
    → Agrees c (if (hi == 1) && (lo == 0) then n + 1 else 0) (estop_decide c st core_id hi lo)
decide-Agrees c core_id n hi lo st h = (
  closed_streak-decide c core_id n hi lo st h,
  elim (IsHealthy-cases hi lo) [
    | inl e ↦ ground (arith, h, decide_closed c st core_id hi lo e)
    | inr e ↦ ground (arith, decide_open c st core_id hi lo e)
  ],
)

feed-Agrees :
    (c : Codes) (core_id n : ℕ) (s : EstopState × ℕ) (reads : List (ℕ × ℕ))
    → Agrees c n s
    → Agrees c (healthy_run n reads) (feed c core_id s reads)
unfolding feed
feed-Agrees c core_id n s [] h = h
feed-Agrees c core_id n s ((hi, lo) ∷ reads) h =
    feed-Agrees c core_id (if (hi == 1) && (lo == 0) then n + 1 else 0)
      (estop_decide c s.0 core_id hi lo) reads (decide-Agrees c core_id n hi lo s.0 h.0)

-- From boot, after any history of reads and on either core, the verdict is OK if at least three
-- healthy reads end the history, and STOP otherwise; a saturated streak changes nothing.
pub feed-eq-healthy_run :
    (c : Codes) (core_id : ℕ) (reads : List (ℕ × ℕ))
    → (feed c core_id (estop_state_init, c.stop) reads).1
      ≡ (if leb 3 (healthy_run 0 reads) then c.ok else c.stop)
feed-eq-healthy_run c core_id reads =
    (feed-Agrees c core_id 0 (estop_state_init, c.stop) reads (refl, refl)).1
