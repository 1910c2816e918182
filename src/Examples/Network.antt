-- ===== src/Examples/Network.antt =====
-- A session with its machine and the retained log at concrete inputs.
use zephyr_applications.Common.{
  ◌++◌, ℕ, true, false, List, [], ◌∷◌, ◌≡◌, refl, ◌⊎◌, length, get_or, last, length-replicate,
}
use zephyr_applications.Examples.Samples.{codes, wire, session, datagram, stranger}
use zephyr_applications.Session.{bonding, bonded, rejected, due, poll, send_period_ms}
use zephyr_applications.Session.Life.{poll-settle, settle, has_unbond, has_trusted, drained}
use zephyr_applications.Session.Parked.{parked_stays, Event, run}
use zephyr_applications.Session.Frames.{Attempt}
use zephyr_applications.Pstop.{Wire, Reply}
use zephyr_applications.LogRing.{
  LogRing, log_ring_write, log_ring_copy, log_ring_valid, log_ring_reset,
}
use zephyr_applications.LogRing.Write.{log_ring_write_lem, IsRing, held}
use zephyr_applications.LogRing.Copy.{log_ring_copy_lem}
use zephyr_applications.Common.{replicate}

-- A failed send, a drain with a reply, a turn of the watchdog.
abbrev events : List Event
events = Event.send false 11 9500 ∷ Event.drain 9600 (datagram 1 ∷ []) ∷ Event.check 9900 ∷ []

abbrev attempts : List Attempt
attempts =
    record { verdict = 1; role = 1; now_ms = 9100; sent_all = true; err = 0 }
    ∷ record { verdict = 2; role = 1; now_ms = 9200; sent_all = false; err = 11 }
    ∷ record { verdict = 2; role = 1; now_ms = 9300; sent_all = true; err = 0 }
    ∷ []

-- Both kinds of message have their counter behind the two names.
abbrev long_reply : List ℕ → Reply
long_reply bytes = record {
  message = get_or bytes 1 0;
  counter = get_or bytes 6 0;
  stamp = get_or bytes 2 0;
  heartbeat_timeout = 0;
  checksum = 0;
  calculated_checksum = 0;
}

abbrev long_wire : Wire
long_wire = record wire {
  create_bond = λ now me remote counter. 3 ∷ now ∷ 0 ∷ me ∷ remote ∷ counter ∷ [];
  decode = long_reply;
}

due_now : due (session bonded) 9600 ≡ true
unfolding due send_period_ms
due_now = refl

abbrev ring : LogRing
ring =
    log_ring_reset (record { magic = 0; head = 0; wrapped = 0; check = 0; buf = replicate 4096 0 })

ring_full : length ring.buf ≡ 4096
unfolding log_ring_reset
ring_full = length-replicate {A = ℕ} 4096 0

ring-IsRing : IsRing ring
unfolding log_ring_valid log_ring_reset
ring-IsRing = record { valid = refl; full = ring_full }

poll-settle_example :
    (poll codes wire (session bonding) 9500 (datagram 1 ∷ stranger ∷ [])).state
    ≡ settle
        (session bonding).state
        (has_unbond codes wire (session bonding) (drained (datagram 1 ∷ stranger ∷ [])))
        (has_trusted wire (session bonding) (drained (datagram 1 ∷ stranger ∷ [])))
poll-settle_example = poll-settle codes wire (session bonding) 9500 (datagram 1 ∷ stranger ∷ [])

parked_stays_example :
    ((run codes wire (session rejected) events).state ≡ rejected)
    × (due (run codes wire (session rejected) events) 9900 ≡ false)
parked_stays_example = parked_stays codes wire (session rejected) events 9900 refl

log_ring_write_lem_example :
    IsRing (log_ring_write ring (5 ∷ 6 ∷ []))
    × (held (log_ring_write ring (5 ∷ 6 ∷ [])) ≡ last 4096 (held ring ++ (5 ∷ 6 ∷ [])))
log_ring_write_lem_example = log_ring_write_lem ring (5 ∷ 6 ∷ []) (ring-IsRing)

log_ring_copy_lem_example :
    ((log_ring_valid ring ≡ false) × (log_ring_copy ring 2 ≡ []))
    ⊎ ((log_ring_valid ring ≡ true) × (log_ring_copy ring 2 ≡ last 2 (held ring)))
log_ring_copy_lem_example = log_ring_copy_lem ring 2 ring_full
