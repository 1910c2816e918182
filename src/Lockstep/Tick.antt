-- ===== src/Lockstep/Tick.antt =====
-- The steps of one tick of lockstep.c, and the tick.
use zephyr_applications.Common.{
  ℕ, ◌+◌, Bool, true, false, ◌&&◌, ◌||◌, not, ◌==◌, if◌then◌else◌, List, [], ◌∷◌, Option, none,
  some, u32,
}
use zephyr_applications.Pstop.{Codes, Wire}
use zephyr_applications.Estop.{estop_channel_sample, estop_channels_primed, EstopState}
use zephyr_applications.Session.{
  Ret, session_open, session_close, due, build, commit_send, poll, rebond, watchdog,
}
use zephyr_applications.Lockstep.Defs.{
  Slot, Channel, Diag, timeout, content, Lockstep, Env, Effects, no_effects, active_due, eq_bytes,
  first_diff, each_slot,
}

abbrev pub is_ok : Ret → Bool
is_ok Ret.ok = true
is_ok _ = false

-- `slot_apply_config`, for slot `i`. The other fields of the slot stay as they are.
unfoldable pub slot_apply_config : Codes → Wire → Env → ℕ → Slot → Slot
slot_apply_config c w env i s =
    let closed = if s.active then session_close s.session else s.session in
    let shut = record closed { sock = none } in
    let opened = session_open c w (env.socket i) shut i (env.peer i) in
    if (env.peer i).configured
    then record s { session = opened.0; active = is_ok opened.1 }
    else record s { session = shut; active = false }

-- The requests of a slot, consumed at the start of a tick: first the reconfiguration, then the
-- rebond, which only an active slot takes.
unfoldable pub serve_reconfigure : Codes → Wire → Env → ℕ → Slot → Slot
serve_reconfigure c w env i s =
    let t = record s { reconfigure_request = false } in
    if s.reconfigure_request then slot_apply_config c w env i t else t

unfoldable pub serve_rebond : Wire → ℕ → Slot → Slot
serve_rebond w i s =
    let t = record s { rebond_request = false } in
    if s.active && s.rebond_request then record t { session = rebond w s.session } else t

abbrev pub set_due : ℕ → ℕ → Slot → Slot
set_due now_ms i s = record s { is_due = s.active && due s.session now_ms }

unfoldable pub begin_tick : Codes → Wire → Env → Lockstep → ℕ → Lockstep
begin_tick c w env l now_ms = record l {
  slots =
      each_slot (set_due now_ms) 0
        (each_slot (serve_rebond w) 0 (each_slot (serve_reconfigure c w env) 0 l.slots));
  tick_now_ms = now_ms;
  tick_role = if env.is_operator then env.role_operator else env.role_stop_only;
  tick_gen = u32 (l.tick_gen + 1);
}

-- The frames that a sampler writes, into its own buffers.
unfoldable pub encode_a : Codes → Wire → ℕ → ℕ → ℕ → ℕ → ℕ → Slot → Slot
encode_a c w me verdict role now_ms i s =
    if active_due s then record s { frame_a = build c w me s.session verdict role now_ms } else s

unfoldable pub encode_b : Codes → Wire → ℕ → ℕ → ℕ → ℕ → ℕ → Slot → Slot
encode_b c w me verdict role now_ms i s =
    if active_due s then record s { frame_b = build c w me s.session verdict role now_ms } else s

abbrev publish : EstopState × ℕ → ℕ → ℕ → Channel
publish sampled done_ms gen = record {
  estop = sampled.0;
  verdict = sampled.1;
  gen = gen;
  done_ms = u32 done_ms;
}

-- `sampler_pass(0, gen)` and `sampler_pass(1, gen)`
unfoldable pub sampler_pass_a : Codes → Wire → Env → Lockstep → ℕ → Lockstep
sampler_pass_a c w env l gen =
    let sampled = estop_channel_sample c 0 l.channel_a.estop env.read_hi_a env.read_lo_a in
    record l {
      slots = each_slot (encode_a c w env.device_id sampled.1 l.tick_role l.tick_now_ms) 0 l.slots;
      channel_a = publish sampled env.uptime_ms gen;
    }

unfoldable pub sampler_pass_b : Codes → Wire → Env → Lockstep → ℕ → Lockstep
sampler_pass_b c w env l gen =
    let sampled = estop_channel_sample c 1 l.channel_b.estop env.read_hi_b env.read_lo_b in
    record l {
      slots = each_slot (encode_b c w env.device_id sampled.1 l.tick_role l.tick_now_ms) 0 l.slots;
      channel_b = publish sampled env.uptime_ms gen;
    }

unfoldable pub samplers_published : Lockstep → ℕ → Bool
samplers_published l gen = (l.channel_a.gen == gen) && (l.channel_b.gen == gen)

-- The first loop of `comparator_pass`: the first active and due slot whose frames differ.
unfoldable pub find_mismatch : ℕ → List Slot → Option (ℕ × Slot)
find_mismatch i [] = none
find_mismatch i (s ∷ ss) =
    let later = find_mismatch (i + 1) ss in
    if active_due s && not (eq_bytes s.frame_a s.frame_b) then some (i, s) else later

unfoldable pub record_mismatch : Env → Lockstep → ℕ → Slot → Diag
record_mismatch env l i s = record (l.diag) {
  mismatch_slot = i;
  mismatch_offset = first_diff s.frame_a s.frame_b;
  mismatch_verdict_a = l.channel_a.verdict;
  mismatch_verdict_b = l.channel_b.verdict;
  mismatch_uptime_ms = env.uptime_ms;
  last_kind = content;
}

unfoldable pub record_late : Env → Lockstep → Bool → Bool → ℕ → Diag
record_late env l late_a late_b late_by_ms = record (l.diag) {
  late_a = late_a;
  late_b = late_b;
  late_by_ms = late_by_ms;
  late_uptime_ms = env.uptime_ms;
  last_kind = timeout;
}

-- The second loop of `comparator_pass`: what it does to a slot, and what it hands to the network.
unfoldable pub commit_slot : Env → ℕ → ℕ → Slot → Slot
commit_slot env now_ms i s =
    if active_due s
    then record s { session = (commit_send s.session (env.sent_all i) (env.errno i) now_ms).0 }
    else s

unfoldable pub transmitted : ℕ → List Slot → List (ℕ × List ℕ)
transmitted i [] = []
transmitted i (s ∷ ss) =
    let later = transmitted (i + 1) ss in if active_due s then (i, s.frame_a) ∷ later else later

unfoldable pub comparator_pass : Env → Lockstep → Lockstep × List (ℕ × List ℕ)
comparator_pass env l =
    if not (estop_channels_primed l.channel_a.estop l.channel_b.estop)
    then (record l { gated_ticks = u32 (l.gated_ticks + 1) }, [])
    else elim (find_mismatch 0 l.slots) [
      | some (i, s) ↦
          (record l { mismatches = u32 (l.mismatches + 1); diag = record_mismatch env l i s }, [])
      | none ↦ (
        record l { slots = each_slot (commit_slot env l.tick_now_ms) 0 l.slots },
        transmitted 0 l.slots,
      )
    ]

-- The last loop of `run_tick_body`.
unfoldable pub serve_replies : Codes → Wire → Env → ℕ → ℕ → Slot → Slot
serve_replies c w env now_ms i s =
    if s.active
    then record s { session = watchdog w (poll c w s.session now_ms (env.waiting i)) now_ms }
    else s

abbrev attend : Codes → Wire → Env → ℕ → Lockstep × Effects → Lockstep × Effects
attend c w env now_ms (l, effects) =
    (record l { slots = each_slot (serve_replies c w env now_ms) 0 l.slots }, effects)

-- The comparison, then the observer, which sees only primed ticks.
abbrev compare_and_observe : Env → ℕ → Lockstep → Lockstep × Effects
compare_and_observe env gen l =
    let (l', sent) = comparator_pass env l in
    (
      l',
      record {
        sent = sent;
        observed =
            if env.has_observer && estop_channels_primed l'.channel_a.estop l'.channel_b.estop
            then some (gen, l'.channel_a.verdict, l'.channel_b.verdict)
            else none;
      },
    )

-- `run_tick_body`; `late_a` and `late_b` are the bits of the mask that it is given.
unfoldable pub run_tick_body :
    Codes → Wire → Env → Lockstep → ℕ → ℕ → Bool → Bool → ℕ → Lockstep × Effects
run_tick_body c w env l now_ms gen late_a late_b late_by_ms =
    let late_a' = late_a || not (l.channel_a.gen == gen) in
    let late_b' = late_b || not (l.channel_b.gen == gen) in
    attend c w env now_ms (
      if not late_a' && not late_b' && samplers_published l gen
      then compare_and_observe env gen l
      else (
        record l {
          missed_deadlines = u32 (l.missed_deadlines + 1);
          diag = record_late env l late_a' late_b' late_by_ms;
        },
        no_effects,
      ))

-- `tick_sync`: both samplers, one after the other, between the snapshot and the comparison.
unfoldable pub tick_sync : Codes → Wire → Env → Lockstep → ℕ → Bool → Bool → Lockstep × Effects
tick_sync c w env l now_ms late_a late_b =
    let begun = begin_tick c w env l now_ms in
    let sampled_a = sampler_pass_a c w env begun begun.tick_gen in
    let sampled_b = sampler_pass_b c w env sampled_a begun.tick_gen in
    run_tick_body c w env sampled_b now_ms begun.tick_gen late_a late_b 0

-- `pstop_lockstep_tick`
unfoldable pub tick : Codes → Wire → Env → Lockstep → ℕ → Lockstep × Effects
unfolding tick_sync
tick c w env l now_ms = tick_sync c w env l now_ms false false
