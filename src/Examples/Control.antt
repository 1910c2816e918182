-- ===== src/Examples/Control.antt =====
-- The e-stop loops and the lockstep comparator at concrete inputs.
use zephyr_applications.Common.{
  ℕ, true, false, List, [], ◌∷◌, ◌≡◌, ◌≢◌, refl, ◌⊎◌, leb, if◌then◌else◌,
}
use zephyr_applications.Examples.Samples.{
  codes, codes-IsDistinct, wire, wire-TellsType, env, device,
}
use zephyr_applications.Lockstep.Safety.{
  AreClosed, tick_safety, tick_no_false_mismatch, begun, sampled_a, sampled_b, frame,
}
use zephyr_applications.Lockstep.Past.{after_ticks}
use zephyr_applications.Lockstep.Defs.{Lockstep, Env}
use zephyr_applications.Lockstep.Tick.{serve_replies}
use zephyr_applications.Session.{poll, watchdog}
use zephyr_applications.Lockstep.Defs.{eq_bytes, active_due, Slot}
use zephyr_applications.Estop.{
  estop_state_init, estop_channels_primed, estop_decide, feed, estop_channel_sample, EstopState,
}
use zephyr_applications.Estop.History.{feed-eq-healthy_run, healthy_run}
use zephyr_applications.Lockstep.Tick.{
  tick, tick_sync, run_tick_body, sampler_pass_a, sampler_pass_b, begin_tick, samplers_published,
  comparator_pass, find_mismatch, encode_a, encode_b, serve_rebond, serve_reconfigure, transmitted,
}
use zephyr_applications.Lockstep.Defs.{each_slot}
use zephyr_applications.Session.{due, send_period_ms, build, bonded}
use mathlib.Core.List.{Memᴰ}

-- The frame that the tick sends: an OK with counter 42.
abbrev sent_frame : List ℕ
sent_frame = 1 ∷ 1 ∷ 9800 ∷ 8990 ∷ 9 ∷ 7 ∷ 42 ∷ 40 ∷ []

abbrev booted : Lockstep
booted = record device {
  channel_a = record (device.channel_a) { estop = estop_state_init };
  channel_b = record (device.channel_b) { estop = estop_state_init };
}

-- Two ticks in which both loops read closed.
abbrev past : List (Env × ℕ)
past = (env, 9600) ∷ (env, 9700) ∷ []

tick_sends :
    Memᴰ (0, sent_frame) (tick codes wire env (after_ticks codes wire booted past) 9800).1.sent
unfolding after_ticks tick tick_sync run_tick_body sampler_pass_a sampler_pass_b begin_tick
    samplers_published comparator_pass estop_channels_primed estop_channel_sample estop_decide
    find_mismatch each_slot encode_a encode_b serve_rebond serve_reconfigure serve_replies poll
    watchdog due send_period_ms eq_bytes transmitted build
tick_sends = Memᴰ.head refl

same_verdict : (sampled_a codes wire env device 10000).1 ≡ (sampled_b codes wire env device 10000).1
unfolding begin_tick estop_channel_sample estop_decide
same_verdict = refl

-- A glitch, then two healthy reads.
abbrev reads : List (ℕ × ℕ)
reads = (0, 0) ∷ (1, 0) ∷ (1, 0) ∷ []

abbrev fresh : EstopState
fresh = record {
  high_ok = true;
  low_ok = true;
  primed_high = true;
  primed_low = true;
  closed_streak = 2;
  open_streak = 0;
  settled = false;
}

fed : (feed codes 0 (estop_state_init, codes.stop) reads).0 ≡ fresh
unfolding feed estop_decide
fed = refl

settles : (estop_decide codes fresh 0 1 0).0.settled ≡ true
unfolding estop_decide
settles = refl

tick_safety_example :
    (let l = after_ticks codes wire booted past in
      let (st_a, verdict_a) = sampled_a codes wire env l 9800 in
      let (st_b, verdict_b) = sampled_b codes wire env l 9800 in
      (t : Slot) × Memᴰ t (begun codes wire env l 9800).slots
      × (active_due t ≡ true)
      × (sent_frame ≡ frame codes wire env l 9800 t verdict_a)
      × (estop_channels_primed st_a st_b ≡ true)
      × (((t.session.state ≢ bonded) × (sent_frame ≡ frame codes wire env l 9800 t codes.bond))
          ⊎ ((t.session.state ≡ bonded)
              × (verdict_a ≡ verdict_b)
              × ((verdict_a ≡ codes.stop) ⊎ AreClosed env past))))
tick_safety_example =
    tick_safety codes wire env booted past 9800 0 sent_frame (codes-IsDistinct) (wire-TellsType)
      refl refl tick_sends

tick_no_false_mismatch_example : (tick codes wire env device 10000).0.mismatches ≡ device.mismatches
tick_no_false_mismatch_example = tick_no_false_mismatch codes wire env device 10000 same_verdict

feed-eq-healthy_run_example :
    (feed codes 1 (estop_state_init, codes.stop) reads).1
    ≡ (if leb 3 (healthy_run 0 reads) then codes.ok else codes.stop)
feed-eq-healthy_run_example = feed-eq-healthy_run codes 1 reads
