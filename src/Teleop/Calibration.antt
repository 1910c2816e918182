-- ===== src/Teleop/Calibration.antt =====
-- The symmetric calibration range of teleop.c, teleop_cal_symmetric.
use zephyr_applications.Common.{◌≡◌, if◌then◌else◌, Option, none, some, arith}
use zephyr_applications.Common.Int.{ℤ, ◌+ℤ◌, ◌-ℤ◌, ◌≤ℤ◌, ltb_ℤ, to_int16, IsInt16}

abbrev min_ℤ : ℤ → ℤ → ℤ
min_ℤ a b = if ltb_ℤ a b then a else b

-- `none` is the answer false; else the two ends.
unfoldable pub cal_symmetric : ℤ → ℤ → ℤ → ℤ → Option (ℤ × ℤ)
cal_symmetric rest seen_min seen_max min_span =
    let span = to_int16 (min_ℤ (rest -ℤ seen_min) (seen_max -ℤ rest)) in
    if ltb_ℤ span min_span then none else some (to_int16 (rest -ℤ span), to_int16 (rest +ℤ span))

pub span_fits :
    (rest seen_min seen_max : ℤ)
    → IsInt16 seen_min
    → IsInt16 seen_max
    → seen_min ≤ℤ rest
    → rest ≤ℤ seen_max
    → to_int16 (min_ℤ (rest -ℤ seen_min) (seen_max -ℤ rest))
      ≡ min_ℤ (rest -ℤ seen_min) (seen_max -ℤ rest)
span_fits rest seen_min seen_max a b c d = ground arith
