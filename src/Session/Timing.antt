-- ===== src/Session/Timing.antt =====
-- When a session sends, and when its watchdog gives the link up.
use zephyr_applications.Common.{ℕ, ◌+◌, ◌*◌, ◌^◌, ◌≤◌, ◌<◌, ◌≡◌, ◌⊎◌, true, false, arith, max}
use zephyr_applications.Pstop.{Wire}
use zephyr_applications.Session.{
  Session, idle, bonding, bonded, rejected, send_period_ms, rebond_after_ms, due, watchdog, rebond,
}

-- The send period lies between 100 ms and 1000 ms, and wherever the machine's window allows for it
-- (at least 200 ms) two periods fit into the window.
pub send_period_bounds :
    (s : Session)
    → (100 ≤ send_period_ms s)
      × (send_period_ms s ≤ 1000)
      × ((s.hb_ms < 200) ⊎ (2 * send_period_ms s ≤ s.hb_ms))
unfolding send_period_ms
send_period_bounds s = ground arith

-- For every window a 32-bit field can hold, the watchdog waits at least 500 ms longer than the five
-- windows after which the machine drops the bond, and at least 2500 ms; it waits no longer than
-- these ask for, so nothing wraps.
pub rebond_after_outlasts :
    (s : Session) → s.hb_ms < 2 ^ 32 → rebond_after_ms s ≡ max 2500 (s.hb_ms * 5 + 500)
unfolding rebond_after_ms
rebond_after_outlasts s h = ground arith

-- A session whose last transmission and last BOND are five seconds old is due, in whatever state
-- it is, unless the machine has rejected it. The clock has 64 bits.
pub due_liveness :
    (s : Session) (now_ms : ℕ)
    → now_ms < 2 ^ 64
    → s.last_bond_ms + 5000 ≤ now_ms
    → s.last_send_ms + 5000 ≤ now_ms
    → (due s now_ms ≡ true) ⊎ ((due s now_ms ≡ false) × (s.state ≡ rejected))
unfolding due
due_liveness s now_ms h b t = ground arith

-- A session that is bonding has no second BOND due within five seconds of its last one, and a
-- bonded one nothing within 100 ms of its last frame. The clock has 64 bits and is not before
-- either time.
pub due_spacing :
    (s : Session) (now_ms : ℕ)
    → now_ms < 2 ^ 64
    → s.last_bond_ms ≤ now_ms
    → s.last_send_ms ≤ now_ms
    → due s now_ms ≡ true
    → (s.state ≡ idle)
      ⊎ ((s.state ≡ bonding) × (s.last_bond_ms + 5000 ≤ now_ms))
      ⊎ ((s.state ≡ bonded) × (s.last_send_ms + 100 ≤ now_ms))
unfolding due
due_spacing s now_ms h b t d = ground arith

-- The watchdog starts a session afresh exactly if it is bonded and its last reply is as old as the
-- machine's five windows and 500 ms, and no younger than 2500 ms; else it changes nothing. The
-- window has 32 bits, the clock 64, and it is not before the last reply.
pub watchdog_lem :
    (w : Wire) (s : Session) (now_ms : ℕ)
    → s.hb_ms < 2 ^ 32
    → now_ms < 2 ^ 64
    → s.last_reply_ms ≤ now_ms
    → ((s.state ≡ bonded)
        × (s.last_reply_ms + max 2500 (s.hb_ms * 5 + 500) ≤ now_ms)
        × (watchdog w s now_ms ≡ rebond w s))
      ⊎ ((¬ ((s.state ≡ bonded) × (s.last_reply_ms + max 2500 (s.hb_ms * 5 + 500) ≤ now_ms)))
          × (watchdog w s now_ms ≡ s))
unfolding watchdog
watchdog_lem w s now_ms h n l = ground arith
