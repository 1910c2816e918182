-- ===== src/Estop/Priming.antt =====
-- The boot warm-up of estop_verdict.c: nothing may be sent until both channels have settled.
use zephyr_applications.Common.{
  subst, ℕ, ◌≤◌, ◌<◌, ◌≡◌, ◌⊎◌, inl, inr, true, false, arith, List, [], ◌∷◌,
}
use zephyr_applications.Pstop.{Codes}
use zephyr_applications.Estop.{EstopState, estop_decide, feed, estop_state_init}
use zephyr_applications.Estop.Decide.{IsHealthy, decide_closed, decide_open}

-- What holds of a channel between two ticks.
pub record IsConsistent (st : EstopState) : Type 0 where
  pub one_streak : (st.closed_streak ≡ 0) ⊎ (st.open_streak ≡ 0)
  pub closed_fits : st.closed_streak ≤ 255
  pub open_fits : st.open_streak ≤ 255
  pub closed_settles : st.settled ≡ false → st.closed_streak < 3
  pub open_settles : st.settled ≡ false → st.open_streak < 5
  pub settled_sampled : st.settled ≡ true → (st.primed_high ≡ true) × (st.primed_low ≡ true)

-- A channel is consistent after boot and keeps that on every decision: the two streaks never count
-- at once, neither leaves its byte, and a settled channel has sampled both phases.
pub decide-IsConsistent :
    (c : Codes) (core_id hi lo : ℕ) (st : EstopState)
    → IsConsistent st
    → IsConsistent (estop_decide c st core_id hi lo).0
unfolding estop_decide
decide-IsConsistent c core_id hi lo st v = ground arith

init-IsConsistent : IsConsistent estop_state_init
init-IsConsistent = ground arith

pub feed-IsConsistent :
    (c : Codes) (core_id : ℕ) (s : EstopState × ℕ) (reads : List (ℕ × ℕ))
    → IsConsistent s.0
    → IsConsistent (feed c core_id s reads).0
unfolding feed
feed-IsConsistent c core_id s [] v = v
feed-IsConsistent c core_id s ((hi, lo) ∷ reads) v =
    feed-IsConsistent c core_id (estop_decide c s.0 core_id hi lo) reads
      (decide-IsConsistent c core_id hi lo s.0 v)

-- What settling means for the message of the same tick.
settle_step :
    (c : Codes) (core_id hi lo : ℕ) (st : EstopState)
    → IsConsistent st
    → st.settled ≡ false
    → (estop_decide c st core_id hi lo).0.settled ≡ true
    → (IsHealthy hi lo × (st.closed_streak ≡ 2))
      ⊎ ((¬ IsHealthy hi lo) × ((estop_decide c st core_id hi lo).0.open_streak ≡ 5))
unfolding estop_decide
settle_step c core_id hi lo st v f t = ground arith

-- The tick on which a channel fed from boot settles is either a healthy one that answers OK, or
-- the fifth consecutive one that is not healthy, and answers STOP: no glitch of fewer open reads can
-- put a STOP before the first OK.
pub first_settled :
    (c : Codes) (core_id hi lo : ℕ) (reads : List (ℕ × ℕ)) {st : EstopState}
    → (feed c core_id (estop_state_init, c.stop) reads).0 ≡ st
    → st.settled ≡ false
    → (estop_decide c st core_id hi lo).0.settled ≡ true
    → (IsHealthy hi lo × ((estop_decide c st core_id hi lo).1 ≡ c.ok))
      ⊎ (((estop_decide c st core_id hi lo).0.open_streak ≡ 5)
          × ((estop_decide c st core_id hi lo).1 ≡ c.stop))
first_settled c core_id hi lo reads {st} e f t = elim (settle_step c core_id hi lo st v f t) [
  | inl p ↦ inl (p.0, rw (decide_closed c st core_id hi lo p.0, p.1))
  | inr p ↦ inr (p.1, decide_open c st core_id hi lo p.0)
]
  where
    v : IsConsistent st
    v =
        subst IsConsistent e
          (feed-IsConsistent c core_id (estop_state_init, c.stop) reads init-IsConsistent)
