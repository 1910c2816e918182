-- ===== src/Examples/Shared.antt =====
-- The clock and the count of the resets.
use zephyr_applications.Common.{
  true, false, List, [], ◌∷◌, arith, ◌≡◌, refl, ◌^◌, ◌-◌, ◌*◌, none, some,
}
use zephyr_applications.Common.{◌/◌, ◌%◌}
use zephyr_applications.Common.Int.{pos}
use zephyr_applications.Common.Text.{codes}
use zephyr_applications.Support.Time.{
  Config, Clock, Answers, Server, inet, all_done, in_progress, set_clock_from_sntp, app_time_now,
  set_realtime,
}
use zephyr_applications.Support.Time.Alive.{Waiting, Event, sync_due, timeout_due, resolved}
use zephyr_applications.Support.Time.Now.{set_clock_from_sntp-app_time_now}
use zephyr_applications.Support.Resets.{Cause, app_reset_reason_boot}
use zephyr_applications.Support.Resets.Count.{
  End, stall, reset, boots, crashes, crash_count-crashes,
}

-- The server is given by its name.
abbrev config : Config
config = record {
  resync_sec = 3600;
  retry_sec = 60;
  timeout_ms = 5000;
  long_max = 2 ^ 31 - 1;
  literal = none;
  net_ipv4 = true;
  net_ipv6 = false;
  sockaddr_in = 16;
  sockaddr_in6 = 28;
}

abbrev idle : Clock
idle = record {
  sntp_addr = none;
  sntp_addrlen = 0;
  started = true;
  synced = false;
  ipv4_up = false;
}

abbrev nothing : Waiting
nothing = record { sync = false; timeout = false; dns = false }

abbrev answers : Answers
answers = record { init_fails = false; send_fails = false; dns_fails = false; port_fails = false }

abbrev server : Server
server = record { family = inet; bytes = 10 ∷ 0 ∷ 0 ∷ 1 ∷ [] }

-- The name is resolved, and the query that follows times out.
abbrev events : List Event
events =
    sync_due answers
    ∷ resolved answers in_progress (some (record { server = server; ai_addrlen = 16 }))
    ∷ resolved answers all_done none
    ∷ timeout_due
    ∷ []

abbrev power_up : Cause
power_up = record { fails = false; is_zero = false; power_on = true; unexpected = false }

abbrev by_software : Cause
by_software = record { fails = false; is_zero = false; power_on = false; unexpected = false }

abbrev brown_out : Cause
brown_out = record { fails = false; is_zero = false; power_on = false; unexpected = true }

abbrev resets : List (End × Cause)
resets =
    (stall 2 (some (codes "lockstep")), by_software)
    ∷ (reset, by_software)
    ∷ (reset, brown_out)
    ∷ []

set_clock_from_sntp-app_time_now_example :
    (let (after, calls, success) = set_clock_from_sntp config idle 1800000000 2147483648 false in
      (calls ≡ set_realtime 1800000000 (2147483648 * 1000000000 / 2 ^ 32) ∷ [])
      × (app_time_now after (some (pos 1800000000, pos (2147483648 * 1000000000 / 2 ^ 32)))
          ≡ (1800000000, 2147483648 * 1000000000 / 2 ^ 32)))
set_clock_from_sntp-app_time_now_example =
    set_clock_from_sntp-app_time_now config idle 1800000000 2147483648 (ground arith) (ground arith)
      (ground arith)

crash_count-crashes_example :
    boots (app_reset_reason_boot power_up none) resets ≡ crashes resets % 2 ^ 16
crash_count-crashes_example =
    crash_count-crashes power_up none resets refl (refl, (refl, (refl, tt)))
