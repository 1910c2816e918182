-- ===== src/Examples/Uploads.antt =====
-- The upload loop of the camera, and the reports of the key pad.
use zephyr_applications.Common.{
  ℕ, true, false, List, [], ◌∷◌, arith, ◌≡◌, refl, ◌*◌, length, take, none, some, All,
  length-replicate,
}
use zephyr_applications.Camera.{
  Next, Answer, Kind, loop_init, turn, prusa_camera_next, step, kind_of,
}
use zephyr_applications.Camera.Order.{Event, InOrder, run-InOrder}
use zephyr_applications.Camera.Stopped.{Quiet, quiet_turns, stop_is_silent}
use zephyr_applications.Common.{replicate, length-replicate, ◌++◌}
use zephyr_applications.Codex.{codex_hid_send}
use zephyr_applications.Codex.Fragments.{received, codex_hid_send-received}

-- A camera-info that is taken, a snapshot, a kick, a camera-info that fails.
abbrev events : List Event
events =
    Event.turns false true (Answer.http 200)
    ∷ Event.turns false true (Answer.http 204)
    ∷ Event.kicks
    ∷ Event.turns true true Answer.other_errno
    ∷ []

abbrev later : List Quiet
later = (true, Answer.http 200, false) ∷ (true, Answer.http 200, false) ∷ []

forbidden : prusa_camera_next (Answer.http 403) ≡ Next.next_stop
unfolding prusa_camera_next
forbidden = refl

asks_info : (turn loop_init false true (Answer.http 403) false).1 ≡ some Kind.info
unfolding turn step kind_of
asks_info = refl

run-InOrder_example : InOrder loop_init false events
run-InOrder_example = run-InOrder events

stop_is_silent_example :
    All (λ k. k ≡ none) (quiet_turns (turn loop_init false true (Answer.http 403) false).0 later)
stop_is_silent_example =
    stop_is_silent loop_init false (Answer.http 403) false Kind.info later forbidden asks_info

codex_hid_send-received_example :
    (reports : List (List ℕ)) × (codex_hid_send (replicate 100 65) 2 ≡ some reports)
    × (received reports ≡ take (61 * 2) ((replicate 100 65) ++ (10 ∷ [])))
    × All (λ r. length r ≡ 63) reports
codex_hid_send-received_example =
    codex_hid_send-received (replicate 100 65) 2 (ground (arith, length-replicate {A = ℕ} 100 65))
