-- ===== src/Examples/Panel.antt =====
-- The indicators and the joystick at concrete inputs.
use zephyr_applications.Common.{
  true, false, [], ◌∷◌, arith, ◌≡◌, refl, ◌+◌, ◌<◌, length, get_or, get_elem?, some,
  length-replicate,
}
use zephyr_applications.Common.{replicate, ◌%◌}
use zephyr_applications.Examples.Samples.{codes}
use zephyr_applications.Common.Int.{ℤ, pos}
use zephyr_applications.Session.{bonded}
use zephyr_applications.Ring.Pixels.{Rgb, rgb}
use zephyr_applications.Ring.{
  RingSlot, RingInput, show, pixel, configured_slots, amber_level, ring_frame,
}
use zephyr_applications.Ring.Segments.{owner}
use zephyr_applications.Ring.Frame.{ring_frame-pixel}
use zephyr_applications.Ring.Status.{Iface, steps, status_cycle_ms}
use zephyr_applications.Ring.Status.Blink.{status_readable, read_digits, duration}
use zephyr_applications.Teleop.{Floats, Limits, Input, State}

abbrev dark : Rgb
dark = rgb 0 0 0

abbrev machine : RingSlot
machine = record { configured = true; state = bonded; last_msg = 1; last_reply_ms = 9000 }

-- One fresh machine and one that never replied.
abbrev panel : RingInput
panel = record {
  now_ms = 9500;
  slots = machine ∷ record machine { last_reply_ms = 0 } ∷ [];
  mismatch = false;
  locate = false;
  uplink_up = true;
  wave_head = 5;
  offset = 2;
}

two : length (configured_slots panel.slots) ≡ 2
unfolding configured_slots
two = refl

-- Numbers of the stick stand for their own value.
abbrev floats : Floats ℤ
floats = record { zero = pos 0; of_int = λ v. v; mul = λ a _. a; div = λ a _. a }

abbrev limits : Limits ℤ
limits = record { max_linear = pos 1; max_angular = pos 2 }

abbrev pushed : Input
pushed = record { enable = true; mod_on = false; grasp = false; x = pos 0; y = pos 600; rz = pos 0 }

abbrev released : Input
released = record pushed { enable = false }

abbrev moving : State
moving = record { active = true; blocked = false; armed = true; mod_on = false; grasp = false }

ring_frame-pixel_example :
    (s : RingSlot) × (get_elem?
        (configured_slots panel.slots)
        (owner (length (configured_slots panel.slots)) 3)
      ≡ some s)
    × (get_or (ring_frame codes panel (replicate 16 dark)).1 ((3 + panel.offset % 16) % 16) dark
        ≡ pixel panel (show codes panel (amber_level panel) s) 3)
ring_frame-pixel_example =
    ring_frame-pixel codes panel (replicate 16 dark) 3 dark refl refl (ground (arith, two))
      (ground (arith, two)) (ground arith) (length-replicate 16 dark)

status_readable_example :
    (read_digits 0 0 (steps Iface.ethernet 42 false) ≡ 42)
    × (duration (steps Iface.ethernet 42 false) < 20000)
    × (status_cycle_ms Iface.ethernet 42 false ≡ duration (steps Iface.ethernet 42 false))
status_readable_example = status_readable Iface.ethernet 42 (ground arith) (ground arith)
