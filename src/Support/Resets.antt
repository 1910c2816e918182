-- ===== src/Support/Resets.antt =====
-- common/reset_reason/app_reset_reason.c: why the board was reset, and how many resets were not asked
-- for. The retention area is what is read of it at boot and what is written last.
pub mod Count
use zephyr_applications.Common.{
  ℕ, zero, suc, ◌+◌, Bool, true, false, not, ◌&&◌, ◌||◌, ◌==◌, if◌then◌else◌, List, [], ◌∷◌, Option,
  none, some, take, u8, u16,
}

-- rr_mark: RR_NONE, RR_WATCHDOG, RR_FATAL, or what no writer writes.
pub data Mark : Type 0 where
  rr_none rr_watchdog rr_fatal other_mark : Mark

-- rr_record; the name is the bytes before the zero.
pub record Record : Type 0 where
  pub version : ℕ
  pub mark : Mark
  pub wdt_channel : ℕ
  pub crash_count : ℕ
  pub fatal_reason : ℕ
  pub wdt_name : List ℕ

-- rr_write: the record that is written, for the `crash_count` of the file.
unfoldable pub rr_write : ℕ → Mark → ℕ → ℕ → Option (List ℕ) → Record
rr_write crash_count mark wdt_channel fatal_reason none = record {
  version = 1;
  mark = mark;
  wdt_channel = wdt_channel;
  crash_count = crash_count;
  fatal_reason = fatal_reason;
  wdt_name = [];
}
rr_write crash_count mark wdt_channel fatal_reason (some name) = record {
  version = 1;
  mark = mark;
  wdt_channel = wdt_channel;
  crash_count = crash_count;
  fatal_reason = fatal_reason;
  wdt_name = take 15 name;
}

abbrev pub app_reset_reason_watchdog : ℕ → ℕ → Option (List ℕ) → Record
app_reset_reason_watchdog crash_count channel name =
    rr_write crash_count rr_watchdog (u8 channel) 0 name

-- k_sys_fatal_error_handler up to its reset.
abbrev pub k_sys_fatal_error_handler : ℕ → ℕ → Record
k_sys_fatal_error_handler crash_count reason = rr_write crash_count rr_fatal 0 (u16 reason) none

-- What the code asks of hwinfo_get_reset_cause: whether it fails, whether the cause is zero, whether
-- RESET_POR is in it, and whether there is a cause that is not in RR_EXPECTED_CAUSES.
pub record Cause : Type 0 where
  pub fails : Bool
  pub is_zero : Bool
  pub power_on : Bool
  pub unexpected : Bool

-- The record that counts, if one is read.
abbrev pub accepted : Cause → Option Record → Option Record
accepted cause none = none
accepted cause (some rec) = if not cause.power_on && rec.version == 1 then some rec else none

-- The messages of the boot.
pub data Message : Type 0 where
  stalled : List ℕ → ℕ → Message
  fatal_error : ℕ → Message
  unknown powered_on requested unrequested : Message

-- The default branch.
abbrev pub judge_cause : Cause → ℕ → ℕ × Message
judge_cause cause crash_count =
    if cause.fails || cause.is_zero
    then (crash_count, unknown)
    else if cause.power_on
    then (crash_count, powered_on)
    else if cause.unexpected
    then (u16 (crash_count + 1), unrequested)
    else (crash_count, requested)

-- The switch on the mark, for the record that counts.
unfoldable pub judge : Cause → Option Record → ℕ × Message
judge cause none = judge_cause cause 0
judge cause (some rec) = elim rec.mark [
  | rr_watchdog ↦ (u16 (rec.crash_count + 1), stalled (take 15 rec.wdt_name) rec.wdt_channel)
  | rr_fatal ↦ (u16 (rec.crash_count + 1), fatal_error rec.fatal_reason)
  | rr_none ↦ judge_cause cause rec.crash_count
  | other_mark ↦ judge_cause cause rec.crash_count
]

-- app_reset_reason_boot with the area ready: `crash_count`, the message, and the record that is
-- written at the end.
unfoldable pub app_reset_reason_boot : Cause → Option Record → ℕ × Message × Record
app_reset_reason_boot cause area =
    let (crash_count, message) = judge cause (accepted cause area) in
    (crash_count, message, rr_write crash_count rr_none 0 0 none)
