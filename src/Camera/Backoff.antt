-- ===== src/Camera/Backoff.antt =====
-- The wait between two turns.
use native.Mathlib.Decide.{dec_le}
use zephyr_applications.Common.{
  ◌⊎◌, inl, inr, zero, suc, refl, ap, ℕ, ◌+◌, ◌*◌, ◌^◌, ◌<◌, ◌≤◌, ◌≡◌, u32, min, max, arith,
}
use zephyr_applications.Camera.{wait_s}

-- The wait for a factor that does not overflow.
abbrev bounded : ℕ → ℕ → ℕ
bounded interval factor = max (min (interval * factor) 600) interval

wait_s-bounded :
    (interval fails factor : ℕ)
    → interval < 2 ^ 26
    → 2 ^ min fails 6 ≡ factor
    → factor ≤ 64
    → wait_s interval fails ≡ bounded interval factor
unfolding wait_s
wait_s-bounded interval fails factor small e few =
    rw e (ap (λ x. max (min x 600) interval) (fits interval factor small few))
  where
    fits : (a b : ℕ) → a < 2 ^ 26 → b ≤ 64 → u32 (a * b) ≡ a * b
    fits a b p q = grind arith

-- The wait is never shorter than the interval nor longer than the greater of the interval and ten
-- minutes, never shorter after more failures, and twice as long after one failure more until one of
-- these bounds is met or six failures are counted. The interval is below 2^26 seconds.
pub wait_s_lem :
    (interval fails : ℕ)
    → interval < 2 ^ 26
    → (interval ≤ wait_s interval fails)
      × (wait_s interval fails ≤ max interval 600)
      × (wait_s interval fails ≤ wait_s interval (fails + 1))
      × ((6 ≤ fails)
          ⊎ (wait_s interval (fails + 1) ≡ max (min (2 * (interval * 2 ^ fails)) 600) interval))
wait_s_lem interval fails small = elim (dec_le 6 fails) [
  | yes many ↦
      let now = wait_s-bounded interval fails 64 small (six fails many) (ground arith) in
      let later =
        wait_s-bounded interval (fails + 1) 64 small (six (fails + 1) (omega arith))
          (ground arith) in
      (omega (arith, now), omega (arith, now), omega (arith, now, later), inl many)
  | no few ↦
      let low : fails < 6 = omega arith in
      let (p, q, r) = factor_lem fails low in
      let now = wait_s-bounded interval fails (2 ^ fails) small p (omega arith) in
      let later = wait_s-bounded interval (fails + 1) (2 * 2 ^ fails) small q r in
      let double : interval * (2 * 2 ^ fails) ≡ 2 * (interval * 2 ^ fails) = grind arith in
      (
        omega (arith, now),
        omega (arith, now),
        omega (arith, now, later, double),
        inr (omega (arith, later, double)),
      )
]
  where
    six : (n : ℕ) → 6 ≤ n → 2 ^ min n 6 ≡ 64
    six n h = ap (λ k. 2 ^ k) (let e : min n 6 ≡ 6 = omega arith in e)

    factor_lem :
        (n : ℕ) → n < 6 → (2 ^ min n 6 ≡ 2 ^ n) × (2 ^ min (n + 1) 6 ≡ 2 * 2 ^ n) × (2 * 2 ^ n ≤ 64)
    factor_lem zero h = (refl, refl, ground arith)
    factor_lem (suc zero) h = (refl, refl, ground arith)
    factor_lem (suc (suc zero)) h = (refl, refl, ground arith)
    factor_lem (suc (suc (suc zero))) h = (refl, refl, ground arith)
    factor_lem (suc (suc (suc (suc zero)))) h = (refl, refl, ground arith)
    factor_lem (suc (suc (suc (suc (suc zero))))) h = (refl, refl, ground arith)
    factor_lem (suc (suc (suc (suc (suc (suc n)))))) h = absurd (omega arith)
