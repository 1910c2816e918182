-- ===== src/Lockstep/Round.antt =====
-- A round of the threaded comparator, `comparator_thread` of lockstep.c.
use zephyr_applications.Common.{ℕ, ◌+◌, ◌-◌, Bool, ◌&&◌, not, if◌then◌else◌, u32, sub32, ltb}
use zephyr_applications.Pstop.{Codes, Wire}
use zephyr_applications.Lockstep.Defs.{Diag, Lockstep, Env, Effects}
use zephyr_applications.Lockstep.Tick.{run_tick_body}

abbrev pub pstop_sampler_deadline_ms : ℕ
pstop_sampler_deadline_ms = 80

abbrev worse : ℕ → ℕ → ℕ
worse latency_ms so_far = if ltb so_far latency_ms then latency_ms else so_far

-- `record_latency` for the samplers whose completion was taken in time.
unfoldable pub record_latency : Lockstep → ℕ → Bool → Bool → Diag
record_latency l now_ms taken_a taken_b =
    let d = l.diag in
    record d {
      latency_max_a =
          if taken_a
          then worse (sub32 l.channel_a.done_ms (u32 now_ms)) d.latency_max_a
          else d.latency_max_a;
      latency_max_b =
          if taken_b
          then worse (sub32 l.channel_b.done_ms (u32 now_ms)) d.latency_max_b
          else d.latency_max_b;
    }

-- The end of a round of `comparator_thread`, from the two takes on: `taken_a` and `taken_b` tell
-- which samplers gave their semaphore before the deadline, `end_ms` is the uptime read after that.
-- What the samplers did in between is already in the state.
unfoldable pub finish_round :
    Codes → Wire → Env → Lockstep → ℕ → ℕ → Bool → Bool → ℕ → Lockstep × Effects
finish_round c w env l now_ms gen taken_a taken_b end_ms =
    run_tick_body c w env (record l { diag = record_latency l now_ms taken_a taken_b }) now_ms gen
      (not taken_a) (not taken_b)
      (if taken_a && taken_b then 0 else u32 (end_ms - (now_ms + pstop_sampler_deadline_ms)))
