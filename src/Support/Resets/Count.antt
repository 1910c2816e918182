-- ===== src/Support/Resets/Count.antt =====
-- The unexpected resets are counted.
use zephyr_applications.Common.{
  ◌<◌, ℕ, ◌+◌, ◌%◌, ◌^◌, ◌≡◌, refl, ap, sym, ◌∙◌, Bool, true, false, not, ◌&&◌, ◌||◌, if◌then◌else◌,
  List, [], ◌∷◌, Option, none, some, All, arith, subst, ◌<◌, ◌==◌, u16,
}
use zephyr_applications.Support.Resets.{
  Message, Record, rr_none, Cause, app_reset_reason_boot, app_reset_reason_watchdog,
  k_sys_fatal_error_handler, rr_write, judge, judge_cause, accepted,
}

-- How a run of the firmware ends: it stalls, it fails, or it is reset from elsewhere.
pub data End : Type 0 where
  stall : (channel : ℕ) → Option (List ℕ) → End
  fault : (reason : ℕ) → End
  reset : End

-- What the retention area holds then: a reset from elsewhere leaves what the boot wrote.
abbrev pub left : ℕ → Record → End → Record
left crash_count area (stall channel name) = app_reset_reason_watchdog crash_count channel name
left crash_count area (fault reason) = k_sys_fatal_error_handler crash_count reason
left crash_count area reset = area

-- `crash_count` after the boots that follow a boot.
abbrev pub boots : ℕ × Message × Record → List (End × Cause) → ℕ
boots (crash_count, message, area) [] = crash_count
boots (crash_count, message, area) ((end, cause) ∷ more) =
    boots (app_reset_reason_boot cause (some (left crash_count area end))) more

-- What a boot writes.
abbrev unmarked : ℕ → Record
unmarked crash_count = rr_write crash_count rr_none 0 0 none

-- A reset that was not asked for.
abbrev pub is_crash : End → Cause → Bool
is_crash (stall channel name) cause = true
is_crash (fault reason) cause = true
is_crash reset cause = not (cause.fails || cause.is_zero) && cause.unexpected

abbrev pub crashes : List (End × Cause) → ℕ
crashes [] = 0
crashes ((end, cause) ∷ more) = (if is_crash end cause then 1 else 0) + crashes more

-- The power stays on.
abbrev pub IsWarm : End × Cause → Type 0
IsWarm (end, cause) = cause.power_on ≡ false

stall_counts :
    (cause : Cause) (n channel : ℕ) (name : Option (List ℕ))
    → cause.power_on ≡ false
    → (app_reset_reason_boot cause (some (app_reset_reason_watchdog n channel name))).0
      ≡ u16 (n + 1)
unfolding app_reset_reason_boot judge rr_write
stall_counts cause n channel none h = rw h refl
stall_counts cause n channel (some name) h = rw h refl

fault_counts :
    (cause : Cause) (n reason : ℕ)
    → cause.power_on ≡ false
    → (app_reset_reason_boot cause (some (k_sys_fatal_error_handler n reason))).0 ≡ u16 (n + 1)
unfolding app_reset_reason_boot judge rr_write
fault_counts cause n reason h = rw h refl

cause_counts :
    (cause : Cause) (n : ℕ)
    → cause.power_on ≡ false
    → (judge_cause cause n).0 ≡ (if is_crash reset cause then u16 (n + 1) else n)
cause_counts cause n h = ground (arith, h)

accepted-some :
    (cause : Cause) (rec : Record)
    → cause.power_on ≡ false
    → rec.version == 1 ≡ true
    → accepted cause (some rec) ≡ some rec
accepted-some cause rec h v = rw (h, v) refl

reset_counts :
    (cause : Cause) (n : ℕ)
    → cause.power_on ≡ false
    → (app_reset_reason_boot cause (some (unmarked n))).0
      ≡ (if is_crash reset cause then u16 (n + 1) else n)
unfolding app_reset_reason_boot judge rr_write
reset_counts cause n h =
    ap (λ rec. (judge cause rec).0) (accepted-some cause (unmarked n) h refl)
    ∙ cause_counts cause n h

boot_counts :
    (end : End) (cause : Cause) (n : ℕ)
    → cause.power_on ≡ false
    → (app_reset_reason_boot cause (some (left n (unmarked n) end))).0
      ≡ (if is_crash end cause then u16 (n + 1) else n)
boot_counts (stall channel name) cause n h = stall_counts cause n channel name h
boot_counts (fault reason) cause n h = fault_counts cause n reason h
boot_counts reset cause n h = reset_counts cause n h

count_small : (crash : Bool) (n : ℕ) → n < 2 ^ 16 → (if crash then u16 (n + 1) else n) < 2 ^ 16
count_small true n h = omega arith
count_small false n h = h

next_count :
    (crash : Bool) (n m : ℕ)
    → n < 2 ^ 16
    → ((if crash then u16 (n + 1) else n) + m) % 2 ^ 16
      ≡ (n + ((if crash then 1 else 0) + m)) % 2 ^ 16
next_count true n m h = omega arith
next_count false n m h = omega arith

boots_from :
    (n : ℕ) (message : Message) (resets : List (End × Cause))
    → n < 2 ^ 16
    → All IsWarm resets
    → boots (n, message, unmarked n) resets ≡ (n + crashes resets) % 2 ^ 16
unfolding app_reset_reason_boot
boots_from n message [] h warm = ground (arith, h)
boots_from n message ((end, cause) ∷ more) h (first, rest) =
    let step = boot_counts end cause n first in
    let (next, judged) = judge cause (accepted cause (some (left n (unmarked n) end))) in
    let small : next < 2 ^ 16 =
      subst (λ x. x < 2 ^ 16) (sym step) (count_small (is_crash end cause) n h) in
    boots_from next judged more small rest
    ∙ ap (λ x. (x + crashes more) % 2 ^ 16) step
    ∙ next_count (is_crash end cause) n (crashes more) h

zero_add : (n : ℕ) → 0 + n ≡ n
zero_add n = omega arith

powered_up :
    (cause : Cause) (area : Option Record)
    → cause.power_on ≡ true
    → (app_reset_reason_boot cause area).0 ≡ 0
unfolding app_reset_reason_boot judge
powered_up cause none h = ground (arith, h)
powered_up cause (some rec) h = ground (arith, h)

-- After a power-on, `crash_count` is the number of resets since then that were not asked for, in 16
-- bits: every stall, every fault, and every other reset whose cause is known and not an expected one
-- is counted once, at the boot that follows it, however the runs end and whatever the area held
-- before. Every boot finds the area as it was written.
pub crash_count-crashes :
    (cause : Cause) (area : Option Record) (resets : List (End × Cause))
    → cause.power_on ≡ true
    → All IsWarm resets
    → boots (app_reset_reason_boot cause area) resets ≡ crashes resets % 2 ^ 16
unfolding app_reset_reason_boot
crash_count-crashes cause area resets h warm =
    let (n, message) = judge cause (accepted cause area) in
    let zero_count = powered_up cause area h in
    boots_from n message resets (omega (arith, zero_count)) warm
    ∙ ap (λ x. (x + crashes resets) % 2 ^ 16) zero_count
    ∙ ap (λ x. x % 2 ^ 16) (zero_add (crashes resets))
