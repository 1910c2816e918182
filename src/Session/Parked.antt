-- ===== src/Session/Parked.antt =====
-- A session that the machine has rejected stays silent until it is restarted.
use zephyr_applications.Common.{ℕ, ◌≡◌, Bool, false, arith, List, [], ◌∷◌}
use zephyr_applications.Pstop.{Wire, Codes}
use zephyr_applications.Session.{Session, rejected, due, Datagram, poll, watchdog, commit_send}
use zephyr_applications.Session.Life.{poll-settle}

-- What befalls an open session between two restarts.
pub data Event : Type 0 where
  send : (sent_all : Bool) (e now_ms : ℕ) → Event
  drain : (now_ms : ℕ) → List Datagram → Event
  check : (now_ms : ℕ) → Event

unfoldable pub step : Codes → Wire → Session → Event → Session
step c w s (send sent_all e now_ms) = (commit_send s sent_all e now_ms).0
step c w s (drain now_ms ds) = poll c w s now_ms ds
step c w s (check now_ms) = watchdog w s now_ms

unfoldable pub run : Codes → Wire → Session → List Event → Session
run c w s [] = s
run c w s (ev ∷ evs) = run c w (step c w s ev) evs

step-rejected :
    (c : Codes) (w : Wire) (s : Session) (ev : Event)
    → s.state ≡ rejected
    → (step c w s ev).state ≡ rejected
unfolding step commit_send watchdog
step-rejected c w s (send sent_all e now_ms) h = ground arith
step-rejected c w s (drain now_ms ds) h = ground (arith, poll-settle c w s now_ms ds)
step-rejected c w s (check now_ms) h = ground arith

run-rejected :
    (c : Codes) (w : Wire) (s : Session) (evs : List Event)
    → s.state ≡ rejected
    → (run c w s evs).state ≡ rejected
unfolding run
run-rejected c w s [] h = h
run-rejected c w s (ev ∷ evs) h = run-rejected c w (step c w s ev) evs (step-rejected c w s ev h)

-- Once parked, a session is still parked after any sequence of sends, arrivals and watchdog turns,
-- and is due to send at no time.
pub parked_stays :
    (c : Codes) (w : Wire) (s : Session) (evs : List Event) (now_ms : ℕ)
    → s.state ≡ rejected
    → ((run c w s evs).state ≡ rejected) × (due (run c w s evs) now_ms ≡ false)
unfolding due
parked_stays c w s evs now_ms h = ground (arith, run-rejected c w s evs h)
