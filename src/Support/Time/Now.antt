-- ===== src/Support/Time/Now.antt =====
-- The time that is told.
use zephyr_applications.Common.{
  ℕ, ◌*◌, ◌/◌, ◌%◌, ◌^◌, ◌≤◌, ◌<◌, ◌≡◌, refl, sym, ap, subst, Bool, true, false, leb, ltb, List, [],
  ◌∷◌, some, arith,
}
use zephyr_applications.Common.Int.{pos}
use zephyr_applications.Support.Time.{
  Config, Clock, Call, set_realtime, set_clock_from_sntp, app_time_now, sntp_fraction_to_nsec,
}

-- The nanoseconds are the fraction rounded down, and below one second.
nsec_lem :
    (fraction : ℕ)
    → fraction < 2 ^ 32
    → (sntp_fraction_to_nsec fraction ≡ fraction * 1000000000 / 2 ^ 32)
      × (sntp_fraction_to_nsec fraction < 1000000000)
nsec_lem fraction h =
    let nsec = fraction * 1000000000 / 2 ^ 32 in
    let small : nsec < 1000000000 = omega (arith, h) in
    let same : nsec % 2 ^ 32 ≡ nsec = ground (arith, small) in (same, omega (arith, same, small))

clock_set :
    (cfg : Config) (st : Clock) (seconds fraction : ℕ)
    → seconds ≤ cfg.long_max
    → set_clock_from_sntp cfg st seconds fraction false ≡ (
      record st { synced = true },
      set_realtime seconds (sntp_fraction_to_nsec fraction) ∷ [],
      true,
    )
unfolding set_clock_from_sntp
clock_set cfg st seconds fraction h =
    let fits : ltb cfg.long_max seconds ≡ false = ground (arith, h) in rw fits refl

time_read :
    (st : Clock) (sec nsec : ℕ)
    → st.synced ≡ true
    → sec < 2 ^ 32
    → nsec < 1000000000
    → app_time_now st (some (pos sec, pos nsec)) ≡ (sec, nsec)
unfolding app_time_now
time_read st sec nsec synced s n =
    let a : leb (2 ^ 32) sec ≡ false = ground (arith, s) in
    let b : leb 1000000000 nsec ≡ false = ground (arith, n) in rw synced (rw (a, b) refl)

-- A time that SNTP told, if it is before the end of a 32-bit count of seconds and the clock takes it,
-- is the time that app_time_now tells from a clock that reads as it was set, its fraction in
-- nanoseconds rounded down.
pub set_clock_from_sntp-app_time_now :
    (cfg : Config) (st : Clock) (seconds fraction : ℕ)
    → seconds ≤ cfg.long_max
    → seconds < 2 ^ 32
    → fraction < 2 ^ 32
    → (let (after, calls, success) = set_clock_from_sntp cfg st seconds fraction false in
        (calls ≡ set_realtime seconds (fraction * 1000000000 / 2 ^ 32) ∷ [])
        × (app_time_now after (some (pos seconds, pos (fraction * 1000000000 / 2 ^ 32)))
            ≡ (seconds, fraction * 1000000000 / 2 ^ 32)))
set_clock_from_sntp-app_time_now cfg st seconds fraction h s f =
    let (same, small) = nsec_lem fraction f in
    let nsec = fraction * 1000000000 / 2 ^ 32 in
    let less : nsec < 1000000000 = omega (arith, same, small) in
    let Told : Clock × List Call × Bool → Type 0 = λ (after, calls, success).
      (calls ≡ set_realtime seconds nsec ∷ [])
      × (app_time_now after (some (pos seconds, pos nsec)) ≡ (seconds, nsec)) in
    subst Told (sym (clock_set cfg st seconds fraction h)) (
      ap (λ n. set_realtime seconds n ∷ []) same,
      time_read (record st { synced = true }) seconds nsec refl s less,
    )
