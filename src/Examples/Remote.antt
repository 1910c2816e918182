-- ===== src/Examples/Remote.antt =====
-- The settings and the WiFi supervisor of a remote.
use zephyr_applications.Common.{ℕ, true, false, Bool, List, [], ◌∷◌, arith, refl, ◌≤◌, get_or, some}
use zephyr_applications.Common.Text.{codes}
use mathlib.Core.List.{Memᴰ}
use zephyr_applications.Settings.{Name, Image, WifiNet, no_net, app_settings_init}
use zephyr_applications.Settings.Sound.{Call, calls, IsStored, calls-IsStored}
use zephyr_applications.Wifi.{Wifi, wifi_init, request_of}
use zephyr_applications.Wifi.Ethernet.{Event, step}
use zephyr_applications.Wifi.Turns.{stalled, stalled_asks_each}

abbrev home : WifiNet
home = record { ssid = codes "home"; pass = codes "longenough" }

abbrev office : WifiNet
office = record { ssid = codes "office"; pass = [] }

-- A ring offset that is out of range, and an operator.
abbrev written : List (Name × Image)
written =
    (Name.ring_off_name, Image.byte_image 77) ∷ (Name.operator_name, Image.flag_image true) ∷ []

-- A peer, an offset whose write fails, two networks.
abbrev changes : List Call
changes =
    Call.set_peer 1 167772167 8890 42 false
    ∷ Call.set_ring_offset 5 true
    ∷ Call.wifi_set_all (home ∷ office ∷ []) 2
    ∷ []

fits : 2 ≤ 4
fits = ground arith

-- The first network is asked for, and joined.
abbrev asks : Event
asks = Event.poll (home ∷ office ∷ []) false false 3000 false

abbrev joins : Event
joins = Event.poll (home ∷ office ∷ []) false true 6000 false

abbrev joined_state : Wifi
joined_state = step (step wifi_init asks) joins

abbrev polls : List (ℕ × Bool)
polls =
    (10000, false)
    ∷ (20000, false)
    ∷ (30000, true)
    ∷ (40000, false)
    ∷ (50000, false)
    ∷ (60000, false)
    ∷ (70000, false)
    ∷ (80000, false)
    ∷ (90000, false)
    ∷ (100000, false)
    ∷ (110000, false)
    ∷ (120000, false)
    ∷ []

calls-IsStored_example : IsStored (some (1 ∷ 2 ∷ 3 ∷ 4 ∷ 5 ∷ 6 ∷ [])) (
    calls
      (record {
        mem = app_settings_init (some (1 ∷ 2 ∷ 3 ∷ 4 ∷ 5 ∷ 6 ∷ [])) written;
        saved = written;
      })
      changes)
calls-IsStored_example =
    calls-IsStored (some (1 ∷ 2 ∷ 3 ∷ 4 ∷ 5 ∷ 6 ∷ [])) written changes (tt, (tt, (fits, tt)))

stalled_asks_each_example :
    Memᴰ
      (request_of (get_or (home ∷ no_net ∷ office ∷ no_net ∷ []) 2 no_net))
      (stalled (home ∷ no_net ∷ office ∷ no_net ∷ []) wifi_init polls)
stalled_asks_each_example =
    stalled_asks_each 10000 0 (home ∷ no_net ∷ office ∷ no_net ∷ []) wifi_init polls 2
      (ground arith, refl) refl (ground arith)
      (
        ground arith,
        ground arith,
        (
          ground arith,
          ground arith,
          (
            ground arith,
            ground arith,
            (
              ground arith,
              ground arith,
              (
                ground arith,
                ground arith,
                (
                  ground arith,
                  ground arith,
                  (
                    ground arith,
                    ground arith,
                    (
                      ground arith,
                      ground arith,
                      (
                        ground arith,
                        ground arith,
                        (
                          ground arith,
                          ground arith,
                          (ground arith, ground arith, (ground arith, ground arith, tt)),
                        ),
                      ),
                    ),
                  ),
                ),
              ),
            ),
          ),
        ),
      )
      (ground arith)
