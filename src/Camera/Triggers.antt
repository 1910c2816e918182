-- ===== src/Camera/Triggers.antt =====
-- The triggers of the service and their seconds.
use zephyr_applications.Common.{ℕ, ◌≡◌, ◌↔◌, some, arith}
use zephyr_applications.Camera.{
  Trigger, ten_sec, thirty_sec, sixty_sec, ten_min, prusa_camera_trigger_seconds,
  prusa_camera_trigger_from_seconds,
}

-- A number of seconds has a trigger exactly if it is the trigger's number of seconds.
pub trigger_from_seconds_iff :
    (s : ℕ) (t : Trigger)
    → (prusa_camera_trigger_from_seconds s ≡ some t) ↔ (prusa_camera_trigger_seconds t ≡ s)
unfolding prusa_camera_trigger_from_seconds prusa_camera_trigger_seconds
trigger_from_seconds_iff s ten_sec = ground arith
trigger_from_seconds_iff s thirty_sec = ground arith
trigger_from_seconds_iff s sixty_sec = ground arith
trigger_from_seconds_iff s ten_min = ground arith
