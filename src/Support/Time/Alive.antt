-- ===== src/Support/Time/Alive.antt =====
-- The time is always asked for again.
use zephyr_applications.Common.{
  ℕ, ◌≡◌, Bool, true, false, ◌||◌, if◌then◌else◌, List, [], ◌∷◌, Option, ◌⊎◌, inl, inr, inl, inr,
}
use zephyr_applications.Support.Time.{
  Config, Clock, Call, schedule_sync, reschedule_sync, reschedule_timeout, cancel_timeout,
  close_service, send_query, start_dns, init_query, set_realtime, Answers, Status, canceled, fail,
  all_done, in_progress, other_status, Info, l4_handler, sync_work_handler, sntp_timeout_handler,
  dns_result_cb, sntp_service_handler,
}

-- What the libraries were asked to call back: the sync work, the timeout work, and the resolver.
pub record Waiting : Type 0 where
  pub sync : Bool
  pub timeout : Bool
  pub dns : Bool

abbrev pub asked : Waiting → Call → Waiting
asked w schedule_sync = record w { sync = true }
asked w (reschedule_sync seconds) = record w { sync = true }
asked w (reschedule_timeout ms) = record w { timeout = true }
asked w cancel_timeout = record w { timeout = false }
asked w close_service = w
asked w send_query = w
asked w start_dns = record w { dns = true }
asked w (init_query addr len) = w
asked w (set_realtime sec nsec) = w

abbrev pub all_asked : Waiting → List Call → Waiting
all_asked w [] = w
all_asked w (c ∷ calls) = all_asked (asked w c) calls

-- What calls a handler. The resolver goes on after an address, and is done with any other status.
pub data Event : Type 0 where
  link : (connected : Bool) → Event
  sync_due : Answers → Event
  timeout_due : Event
  resolved : Answers → Status → Option Info → Event
  replied : Option (ℕ × ℕ) → Bool → Event

abbrev pub goes_on : Status → Bool
goes_on in_progress = true
goes_on canceled = false
goes_on fail = false
goes_on all_done = false
goes_on other_status = false

abbrev pub after : Waiting → Clock × List Call → Clock × Waiting
after w (st, calls) = (st, all_asked w calls)

-- A handler that nothing waits for is not called.
abbrev pub step : Config → Clock × Waiting → Event → Clock × Waiting
step cfg (st, w) (link connected) = after w (l4_handler st connected)
step cfg (st, w) (sync_due a) =
    let next = after (record w { sync = false }) (sync_work_handler cfg st a) in
    if w.sync then next else (st, w)
step cfg (st, w) timeout_due =
    let next = after (record w { timeout = false }) (sntp_timeout_handler cfg st) in
    if w.timeout then next else (st, w)
step cfg (st, w) (resolved a status info) =
    let next = after (record w { dns = goes_on status }) (dns_result_cb cfg st a status info) in
    if w.dns then next else (st, w)
step cfg (st, w) (replied read failed) = after w (sntp_service_handler cfg st read failed)

abbrev pub run : Config → Clock × Waiting → List Event → Clock × Waiting
run cfg s [] = s
run cfg s (e ∷ events) = run cfg (step cfg s e) events

abbrev pub waits : Waiting → Bool
waits w = w.sync || w.timeout || w.dns

-- A result of the resolver is one that dns_result_cb knows.
abbrev pub IsKnown : Event → Type 0
IsKnown (link connected) = Unit
IsKnown (sync_due a) = Unit
IsKnown timeout_due = Unit
IsKnown (resolved a canceled info) = Unit
IsKnown (resolved a fail info) = Unit
IsKnown (resolved a all_done info) = Unit
IsKnown (resolved a in_progress info) = Unit
IsKnown (resolved a other_status info) = ⊥
IsKnown (replied read failed) = Unit

-- Whether a result that dns_result_cb does not know has come since the link last came up.
abbrev pub unknown_since : Bool → List Event → Bool
unknown_since seen [] = seen
unknown_since seen (link true ∷ events) = unknown_since false events
unknown_since seen (link false ∷ events) = unknown_since seen events
unknown_since seen (sync_due a ∷ events) = unknown_since seen events
unknown_since seen (timeout_due ∷ events) = unknown_since seen events
unknown_since seen (resolved a canceled info ∷ events) = unknown_since seen events
unknown_since seen (resolved a fail info ∷ events) = unknown_since seen events
unknown_since seen (resolved a all_done info ∷ events) = unknown_since seen events
unknown_since seen (resolved a in_progress info ∷ events) = unknown_since seen events
unknown_since seen (resolved a other_status info ∷ events) = unknown_since true events
unknown_since seen (replied read failed ∷ events) = unknown_since seen events

-- Something is awaited, or an unknown result came.
abbrev Holds : Waiting → Bool → Type 0
Holds w seen = (waits w ≡ true) ⊎ (seen ≡ true)
