-- ===== src/Lockstep/Past.antt =====
-- What the loops have read over a run of ticks of lockstep.c.
use zephyr_applications.Common.{
  ℕ, ◌+◌, ◌≡◌, ◌∙◌, ap, false, ◌&&◌, ◌==◌, if◌then◌else◌, List, [], ◌∷◌, min, arith,
}
use zephyr_applications.Pstop.{Codes, Wire}
use zephyr_applications.Estop.{EstopState, estop_channel_sample, is_negative}
use zephyr_applications.Estop.History.{healthy_run, closed_streak-decide}
use zephyr_applications.Lockstep.Defs.{Lockstep, Env}
use zephyr_applications.Lockstep.Tick.{
  tick, begin_tick, sampler_pass_a, sampler_pass_b, run_tick_body, comparator_pass,
}

-- The state after ticks, each in its environment and at its time.
unfoldable pub after_ticks : Codes → Wire → Lockstep → List (Env × ℕ) → Lockstep
after_ticks c w l [] = l
after_ticks c w l ((env, now_ms) ∷ more) = after_ticks c w (tick c w env l now_ms).0 more

-- What the driver returned for the two loops in these ticks.
abbrev pub reads_a : List (Env × ℕ) → List (ℕ × ℕ)
reads_a [] = []
reads_a ((env, now_ms) ∷ more) = (env.read_hi_a, env.read_lo_a) ∷ reads_a more

abbrev pub reads_b : List (Env × ℕ) → List (ℕ × ℕ)
reads_b [] = []
reads_b ((env, now_ms) ∷ more) = (env.read_hi_b, env.read_lo_b) ∷ reads_b more

abbrev next_run : ℕ → ℕ → ℕ → ℕ
next_run n hi lo = if (hi == 1) && (lo == 0) then n + 1 else 0

-- A read error is no healthy read.
sampled_run :
    (n hi lo : ℕ)
    → next_run n (if is_negative hi then 0 else hi) (if is_negative lo then 1 else lo)
      ≡ next_run n hi lo
sampled_run n hi lo = ground arith

sample-streak :
    (c : Codes) (core_id n hi lo : ℕ) (st : EstopState)
    → st.closed_streak ≡ min n 255
    → (estop_channel_sample c core_id st hi lo).0.closed_streak ≡ min (next_run n hi lo) 255
unfolding estop_channel_sample
sample-streak c core_id n hi lo st h =
    closed_streak-decide c core_id n (if is_negative hi then 0 else hi)
      (if is_negative lo then 1 else lo) st h
    ∙ ap (λ m. min m 255) (sampled_run n hi lo)

pass_channels :
    (env : Env) (l : Lockstep)
    → ((comparator_pass env l).0.channel_a ≡ l.channel_a)
      × ((comparator_pass env l).0.channel_b ≡ l.channel_b)
unfolding comparator_pass
pass_channels env l = (ground arith, ground arith)

body_channels :
    (c : Codes) (w : Wire) (env : Env) (l : Lockstep) (now_ms gen : ℕ)
    → ((run_tick_body c w env l now_ms gen false false 0).0.channel_a ≡ l.channel_a)
      × ((run_tick_body c w env l now_ms gen false false 0).0.channel_b ≡ l.channel_b)
unfolding run_tick_body
body_channels c w env l now_ms gen =
    let (a, b) = pass_channels env l in (ground (arith, a), ground (arith, b))

-- A tick leaves each channel as its sample made it.
tick_channels :
    (c : Codes) (w : Wire) (env : Env) (l : Lockstep) (now_ms : ℕ)
    → ((tick c w env l now_ms).0.channel_a.estop
        ≡ (estop_channel_sample c 0 l.channel_a.estop env.read_hi_a env.read_lo_a).0)
      × ((tick c w env l now_ms).0.channel_b.estop
          ≡ (estop_channel_sample c 1 l.channel_b.estop env.read_hi_b env.read_lo_b).0)
unfolding tick begin_tick sampler_pass_a sampler_pass_b
tick_channels c w env l now_ms =
    let begun = begin_tick c w env l now_ms in
    let first = sampler_pass_a c w env begun begun.tick_gen in
    let second = sampler_pass_b c w env first begun.tick_gen in
    let (a, b) = body_channels c w env second now_ms begun.tick_gen in
    (ap (λ x. x.estop) a, ap (λ x. x.estop) b)

-- The two streaks are those of runs of `m` and `n` healthy reads.
abbrev pub Streaks : Lockstep → ℕ → ℕ → Type 0
Streaks l m n =
    (l.channel_a.estop.closed_streak ≡ min m 255) × (l.channel_b.estop.closed_streak ≡ min n 255)

-- After ticks the streaks are those of the healthy reads that end them.
pub ticks-Streaks :
    (c : Codes) (w : Wire) (l : Lockstep) (past : List (Env × ℕ)) (m n : ℕ)
    → Streaks l m n
    → Streaks (after_ticks c w l past) (healthy_run m (reads_a past)) (healthy_run n (reads_b past))
unfolding after_ticks
ticks-Streaks c w l [] m n h = h
ticks-Streaks c w l ((env, now_ms) ∷ more) m n (h, k) =
    let (a, b) = tick_channels c w env l now_ms in
    ticks-Streaks c w (tick c w env l now_ms).0 more (next_run m env.read_hi_a env.read_lo_a)
      (next_run n env.read_hi_b env.read_lo_b)
      (
        ap (λ st. st.closed_streak) a
            ∙ sample-streak c 0 m env.read_hi_a env.read_lo_a l.channel_a.estop h,
        ap (λ st. st.closed_streak) b
            ∙ sample-streak c 1 n env.read_hi_b env.read_lo_b l.channel_b.estop k,
      )
