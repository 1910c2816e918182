-- ===== src/Lockstep/Safety.antt =====
-- What a whole synchronous tick of lockstep.c may put on the wire.
use zephyr_applications.Common.{min, ap}
use zephyr_applications.Estop.{estop_state_init}
use zephyr_applications.Estop.History.{healthy_run}
use zephyr_applications.Lockstep.Past.{after_ticks, reads_a, reads_b, ticks-Streaks}
use zephyr_applications.Common.{[], ◌∷◌}
use zephyr_applications.Lockstep.Body.{run_tick_body_outcome}
use zephyr_applications.Session.Frames.{build_unbonded, bonded-cases}
use zephyr_applications.Common.{◌+◌}
use zephyr_applications.Common.{◌≤◌, ◌⊎◌, ◌+◌, u32, refl, sym, ◌∙◌, subst, inl, inr}
use zephyr_applications.Session.Frames.{build_bonded}
use zephyr_applications.Lockstep.Body.{is_primed, Sends, run_tick_body-Sends}
use zephyr_applications.Estop.Decide.{IsHealthy, sample_cases}
use zephyr_applications.Lockstep.Compare.{AllAgree, transmitted_mem, AllAgree-mem}
use zephyr_applications.Common.{false, ◌≢◌, ℕ, ◌≡◌, true, List, arith}
use mathlib.Core.List.{◌∷◌, Memᴰ}
use zephyr_applications.Pstop.{Codes, Wire, IsDistinct, TellsType}
use zephyr_applications.Estop.{estop_channels_primed, estop_channel_sample, EstopState}
use zephyr_applications.Session.{bonded, build}
use zephyr_applications.Lockstep.Defs.{each_slot, Slot, Lockstep, Env, active_due}
use zephyr_applications.Lockstep.Tick.{
  run_tick_body, tick, begin_tick, sampler_pass_a, sampler_pass_b, encode_a, encode_b,
}
use zephyr_applications.Lockstep.Compare.{each_slot_mem}

module _ (c : Codes) (w : Wire) (env : Env) (l : Lockstep) (now_ms : ℕ) where
  abbrev pub begun : Lockstep
  begun = begin_tick c w env l now_ms

  -- What the two samplers decide in the tick.
  abbrev pub sampled_a : EstopState × ℕ
  sampled_a = estop_channel_sample c 0 begun.channel_a.estop env.read_hi_a env.read_lo_a

  abbrev pub sampled_b : EstopState × ℕ
  sampled_b = estop_channel_sample c 1 begun.channel_b.estop env.read_hi_b env.read_lo_b

  -- A slot's frame for a verdict in this tick.
  abbrev pub frame : Slot → ℕ → List ℕ
  frame s verdict = build c w env.device_id s.session verdict begun.tick_role begun.tick_now_ms

  -- The state that the comparator finds.
  abbrev compared : Lockstep
  compared = sampler_pass_b c w env (sampler_pass_a c w env begun begun.tick_gen) begun.tick_gen

  encoded_mem :
      (s : Slot)
      → Memᴰ s compared.slots
      → active_due s ≡ true
      → (t : Slot) × Memᴰ t begun.slots
        × (active_due t ≡ true)
        × (s.frame_a ≡ frame t sampled_a.1)
        × (s.frame_b ≡ frame t sampled_b.1)
  unfolding sampler_pass_a sampler_pass_b encode_a encode_b
  encoded_mem s m e =
      let (j, u, n, p) = each_slot_mem _ 0 s _ m in
      let (k, t, o, q) = each_slot_mem _ 0 u _ n in (t, o, ground arith, ground arith, ground arith)

  sample_not_bond : IsDistinct c → (sampled_a.1 ≢ c.bond) × (sampled_b.1 ≢ c.bond)
  sample_not_bond d = ground (
    arith,
    sample_cases c 0 begun.channel_a.estop env.read_hi_a env.read_lo_a,
    sample_cases c 1 begun.channel_b.estop env.read_hi_b env.read_lo_b,
    d,
  )

  -- Where a bonded slot's two frames agree, so do the two verdicts.
  verdicts_agree :
      (t : Slot)
      → IsDistinct c
      → TellsType w
      → t.session.state ≡ bonded
      → frame t sampled_a.1 ≡ frame t sampled_b.1
      → sampled_a.1 ≡ sampled_b.1
  verdicts_agree t d tells bond e = ground (
    arith,
    sample_not_bond d,
    build_bonded c w env.device_id t.session sampled_a.1 begun.tick_role begun.tick_now_ms bond,
    build_bonded c w env.device_id t.session sampled_b.1 begun.tick_role begun.tick_now_ms bond,
    tells.type_injective sampled_a.1 sampled_b.1 begun.tick_now_ms
        t.session.proto.last_received_stamp (w.device_id env.device_id) t.session.proto.remote_id
        (u32 (t.session.proto.msg_counter + 1)) t.session.proto.last_received_counter
        begun.tick_role,
  )

  -- What is known of a frame `f` that the tick sends: it is what both samplers encoded for one
  -- active and due slot, on primed channels.
  abbrev pub Sound : List ℕ → Type 0
  Sound f =
      (t : Slot) × Memᴰ t begun.slots
      × (active_due t ≡ true)
      × (f ≡ frame t sampled_a.1)
      × (f ≡ frame t sampled_b.1)
      × (estop_channels_primed sampled_a.0 sampled_b.0 ≡ true)

  compared_primed : is_primed compared ≡ estop_channels_primed sampled_a.0 sampled_b.0
  unfolding sampler_pass_a sampler_pass_b
  compared_primed = refl

  Sends-Sound :
      (i : ℕ) (f : List ℕ) (sent : List (ℕ × List ℕ))
      → Sends compared begun.tick_gen false false sent
      → Memᴰ (i, f) sent
      → Sound f
  Sends-Sound i f sent (inl e) m = elim (subst (Memᴰ (i, f)) e m) [ ]
  Sends-Sound i f sent (inr (time, primed, agree, e)) m =
      let (s, n, on, p) = transmitted_mem i 0 f compared.slots (subst (Memᴰ (i, f)) e m) in
      let (t, o, on', q, r) = encoded_mem s n on in
      let same = AllAgree-mem s compared.slots agree n on in
      (t, o, on', p ∙ q, p ∙ same ∙ r, sym compared_primed ∙ primed)

  sent-Sound : (i : ℕ) (f : List ℕ) → Memᴰ (i, f) (tick c w env l now_ms).1.sent → Sound f
  unfolding tick
  sent-Sound i f m =
      Sends-Sound i f _ (run_tick_body-Sends c w env compared now_ms begun.tick_gen false false 0) m

  mutual_verdict :
      (t : Slot)
      → IsDistinct c
      → TellsType w
      → t.session.state ≡ bonded
      → frame t sampled_a.1 ≡ frame t sampled_b.1
      → (sampled_a.1 ≡ sampled_b.1)
        × ((sampled_a.1 ≡ c.stop)
            ⊎ (IsHealthy env.read_hi_a env.read_lo_a
                × IsHealthy env.read_hi_b env.read_lo_b
                × (2 ≤ begun.channel_a.estop.closed_streak)
                × (2 ≤ begun.channel_b.estop.closed_streak)))
  mutual_verdict t d tells bond e = ground (
    arith,
    d,
    verdicts_agree t d tells bond e,
    sample_cases c 0 begun.channel_a.estop env.read_hi_a env.read_lo_a,
    sample_cases c 1 begun.channel_b.estop env.read_hi_b env.read_lo_b,
  )

-- What is known of a frame that a tick sends, in every state.
sent_frame_lem :
    (c : Codes) (w : Wire) (env : Env) (l : Lockstep) (now_ms i : ℕ) (f : List ℕ)
    → IsDistinct c
    → TellsType w
    → Memᴰ (i, f) (tick c w env l now_ms).1.sent
    → (t : Slot) × Memᴰ t (begun c w env l now_ms).slots
      × (active_due t ≡ true)
      × (f ≡ frame c w env l now_ms t (sampled_a c w env l now_ms).1)
      × (estop_channels_primed (sampled_a c w env l now_ms).0 (sampled_b c w env l now_ms).0 ≡ true)
      × (((t.session.state ≢ bonded) × (f ≡ frame c w env l now_ms t c.bond))
          ⊎ ((t.session.state ≡ bonded)
              × ((sampled_a c w env l now_ms).1 ≡ (sampled_b c w env l now_ms).1)
              × (((sampled_a c w env l now_ms).1 ≡ c.stop)
                  ⊎ (IsHealthy env.read_hi_a env.read_lo_a
                      × IsHealthy env.read_hi_b env.read_lo_b
                      × (2 ≤ (begun c w env l now_ms).channel_a.estop.closed_streak)
                      × (2 ≤ (begun c w env l now_ms).channel_b.estop.closed_streak)))))
sent_frame_lem c w env l now_ms i f d tells m =
    let (t, o, on, p, q, primed) = sent-Sound c w env l now_ms i f m in
    (
      t,
      o,
      on,
      p,
      primed,
      elim (bonded-cases t.session) [
        | inl b ↦
            let v = mutual_verdict c w env l now_ms t d tells b (sym p ∙ q) in inr (b, v.0, v.1)
        | inr u ↦ inl (u, p ∙ build_unbonded c w _ t.session _ _ _ u)
      ],
    )

begun_channels :
    (c : Codes) (w : Wire) (env : Env) (l : Lockstep) (now_ms : ℕ)
    → ((begun c w env l now_ms).channel_a ≡ l.channel_a)
      × ((begun c w env l now_ms).channel_b ≡ l.channel_b)
unfolding begin_tick
begun_channels c w env l now_ms = (refl, refl)

-- A streak of two is one of two healthy reads.
long_run : (n streak : ℕ) → streak ≡ min n 255 → 2 ≤ streak → 2 ≤ n
long_run n streak e h = ground (arith, e, h)

-- Both loops read closed in a tick and in the two ticks before, at least.
abbrev pub AreClosed : Env → List (Env × ℕ) → Type 0
AreClosed env past =
    IsHealthy env.read_hi_a env.read_lo_a
    × IsHealthy env.read_hi_b env.read_lo_b
    × (2 ≤ healthy_run 0 (reads_a past))
    × (2 ≤ healthy_run 0 (reads_b past))

streaks-AreClosed :
    (c : Codes) (w : Wire) (env : Env) (boot : Lockstep) (past : List (Env × ℕ)) (now_ms : ℕ)
    → boot.channel_a.estop ≡ estop_state_init
    → boot.channel_b.estop ≡ estop_state_init
    → IsHealthy env.read_hi_a env.read_lo_a
      × IsHealthy env.read_hi_b env.read_lo_b
      × (2 ≤ (begun c w env (after_ticks c w boot past) now_ms).channel_a.estop.closed_streak)
      × (2 ≤ (begun c w env (after_ticks c w boot past) now_ms).channel_b.estop.closed_streak)
    → AreClosed env past
streaks-AreClosed c w env boot past now_ms fresh_a fresh_b (a, b, m, n) =
    let l = after_ticks c w boot past in
    let (same_a, same_b) = begun_channels c w env l now_ms in
    let (run_a, run_b) =
      ticks-Streaks c w boot past 0 0
        (ap (λ st. st.closed_streak) fresh_a, ap (λ st. st.closed_streak) fresh_b) in
    (
      a,
      b,
      long_run (healthy_run 0 (reads_a past)) _ (ap (λ ch. ch.estop.closed_streak) same_a ∙ run_a)
          m,
      long_run (healthy_run 0 (reads_b past)) _ (ap (λ ch. ch.estop.closed_streak) same_b ∙ run_b)
          n,
    )

-- Every frame that a synchronous tick sends, after any run of ticks since both channels were at boot
-- and in every environment, was encoded by both samplers for one active and due slot, on channels
-- that are both primed. If that slot is not bonded, the frame is a BOND and tells no verdict. If it is
-- bonded, the samplers decided the same verdict: STOP, or OK on two loops that both read closed in
-- this very tick and in the two ticks before. The message codes differ from one another, and a frame
-- tells its message type.
pub tick_safety :
    (c : Codes) (w : Wire) (env : Env) (boot : Lockstep) (past : List (Env × ℕ)) (now_ms i : ℕ)
    (f : List ℕ)
    → IsDistinct c
    → TellsType w
    → boot.channel_a.estop ≡ estop_state_init
    → boot.channel_b.estop ≡ estop_state_init
    → Memᴰ (i, f) (tick c w env (after_ticks c w boot past) now_ms).1.sent
    → (let l = after_ticks c w boot past in
        let (st_a, verdict_a) = sampled_a c w env l now_ms in
        let (st_b, verdict_b) = sampled_b c w env l now_ms in
        (t : Slot) × Memᴰ t (begun c w env l now_ms).slots
        × (active_due t ≡ true)
        × (f ≡ frame c w env l now_ms t verdict_a)
        × (estop_channels_primed st_a st_b ≡ true)
        × (((t.session.state ≢ bonded) × (f ≡ frame c w env l now_ms t c.bond))
            ⊎ ((t.session.state ≡ bonded)
                × (verdict_a ≡ verdict_b)
                × ((verdict_a ≡ c.stop) ⊎ AreClosed env past))))
tick_safety c w env boot past now_ms i f d tells fresh_a fresh_b m =
    let (t, o, on, p, primed, told) =
      sent_frame_lem c w env (after_ticks c w boot past) now_ms i f d tells m in
    (
      t,
      o,
      on,
      p,
      primed,
      elim told [
        | inl unbonded ↦ inl unbonded
        | inr (bond, same, inl stops) ↦ inr (bond, same, inl stops)
        | inr (bond, same, inr closed) ↦
            inr
              (bond, same, inr (streaks-AreClosed c w env boot past now_ms fresh_a fresh_b closed))
      ],
    )

-- Two samplers with the same verdict leave equal frames in every slot.
encoded-AllAgree :
    (c : Codes) (w : Wire) (me verdict role now_ms i j : ℕ) (ss : List Slot)
    → AllAgree (
        each_slot
          (encode_b c w me verdict role now_ms)
          i
          (each_slot (encode_a c w me verdict role now_ms) j ss))
unfolding each_slot encode_a encode_b
encoded-AllAgree c w me verdict role now_ms i j [] = tt
encoded-AllAgree c w me verdict role now_ms i j (s ∷ ss) =
    (ground arith, encoded-AllAgree c w me verdict role now_ms (i + 1) (j + 1) ss)

compared-AllAgree :
    (c : Codes) (w : Wire) (env : Env) (l : Lockstep) (now_ms : ℕ)
    → (sampled_a c w env l now_ms).1 ≡ (sampled_b c w env l now_ms).1
    → AllAgree (compared c w env l now_ms).slots
unfolding sampler_pass_a sampler_pass_b
compared-AllAgree c w env l now_ms e =
    rw e (encoded-AllAgree c w env.device_id _ _ _ 0 0 (begun c w env l now_ms).slots)

compared_mismatches :
    (c : Codes) (w : Wire) (env : Env) (l : Lockstep) (now_ms : ℕ)
    → (compared c w env l now_ms).mismatches ≡ l.mismatches
unfolding begin_tick sampler_pass_a sampler_pass_b
compared_mismatches c w env l now_ms = refl

agreeing_mismatches :
    (c : Codes) (w : Wire) (env : Env) (l : Lockstep) (now_ms gen : ℕ)
    → AllAgree l.slots
    → (run_tick_body c w env l now_ms gen false false 0).0.mismatches ≡ l.mismatches
agreeing_mismatches c w env l now_ms gen all =
    elim (run_tick_body_outcome c w env l now_ms gen false false 0) [
      | inl (h, s, n) ↦ n.2
      | inr (inl (h, p, s, n)) ↦ n.2
      | inr (inr (inl (h, p, differ, s, n))) ↦ absurd (differ all)
      | inr (inr (inr (h, p, same, s, n))) ↦ n.2
    ]

-- A tick in which the two samplers decide the same verdict is never counted as a mismatch, whatever
-- the state and the environment.
pub tick_no_false_mismatch :
    (c : Codes) (w : Wire) (env : Env) (l : Lockstep) (now_ms : ℕ)
    → (sampled_a c w env l now_ms).1 ≡ (sampled_b c w env l now_ms).1
    → (tick c w env l now_ms).0.mismatches ≡ l.mismatches
unfolding tick
tick_no_false_mismatch c w env l now_ms e =
    agreeing_mismatches c w env (compared c w env l now_ms) now_ms _
      (compared-AllAgree c w env l now_ms e)
    ∙ compared_mismatches c w env l now_ms
