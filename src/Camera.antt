-- ===== src/Camera.antt =====
-- The camera's upload loop: prusa_cam/src/connect.c, and what the service's answers mean:
-- common/prusa_camera/prusa_camera_proto.c. The requests themselves are the HTTP client's: a turn of
-- the loop takes the answer to the one request it makes.
pub mod Backoff
pub mod Order
pub mod Stopped
pub mod Triggers
use zephyr_applications.Common.{
  ℕ, ◌+◌, ◌*◌, ◌^◌, Bool, true, false, not, ◌&&◌, ◌||◌, ◌==◌, leb, ltb, if◌then◌else◌, List, [],
  ◌∷◌, Option, none, some, u32, min, max, length,
}

-- What a request returns: an HTTP status, -EINVAL, -EMSGSIZE, or another negative errno.
pub data Answer : Type 0 where
  http : ℕ → Answer
  einval emsgsize other_errno : Answer

-- enum prusa_camera_next
pub data Next : Type 0 where
  next_ok next_retry next_wait next_stop : Next

unfoldable pub prusa_camera_next : Answer → Next
prusa_camera_next (http s) =
    if leb 200 s && ltb s 300
    then next_ok
    else if s == 429 || s == 503
    then next_wait
    else if leb 500 s
    then next_retry
    else next_stop
prusa_camera_next other_errno = next_retry
prusa_camera_next _ = next_stop

abbrev pub is_alnum : ℕ → Bool
is_alnum c = leb 48 c && leb c 57 || leb 65 c && leb c 90 || leb 97 c && leb c 122

abbrev pub all_alnum : List ℕ → Bool
all_alnum [] = true
all_alnum (c ∷ s) = is_alnum c && all_alnum s

unfoldable pub prusa_camera_token_valid : List ℕ → Bool
prusa_camera_token_valid token = if length token == 20 then all_alnum token else false

-- enum prusa_camera_trigger
pub data Trigger : Type 0 where
  ten_sec thirty_sec sixty_sec ten_min : Trigger

unfoldable pub prusa_camera_trigger_seconds : Trigger → ℕ
prusa_camera_trigger_seconds ten_sec = 10
prusa_camera_trigger_seconds thirty_sec = 30
prusa_camera_trigger_seconds sixty_sec = 60
prusa_camera_trigger_seconds ten_min = 600

-- The loop over the table of seconds; none is -EINVAL.
unfoldable pub prusa_camera_trigger_from_seconds : ℕ → Option Trigger
prusa_camera_trigger_from_seconds s =
    if s == 10
    then some ten_sec
    else if s == 30
    then some thirty_sec
    else if s == 60
    then some sixty_sec
    else if s == 600
    then some ten_min
    else none

-- The request of a step.
pub data Kind : Type 0 where
  test info snapshot : Kind

-- The two flags, the variables of the thread, and the count of uploads of `status`.
pub record Loop : Type 0 where
  pub info_stale : Bool
  pub test_requested : Bool
  pub stopped : Bool
  pub fails : ℕ  -- uint32_t
  pub uploads : ℕ

abbrev pub loop_init : Loop
loop_init = record {
  info_stale = true;
  test_requested = false;
  stopped = false;
  fails = 0;
  uploads = 0;
}

-- The seconds until the next turn: doubling with each failure, up to BACKOFF_MAX_S.
unfoldable pub wait_s : ℕ → ℕ → ℕ
wait_s interval fails = max (min (u32 (interval * 2 ^ min fails 6)) 600) interval

-- addr_event and connect_kick
abbrev pub kick : Loop → Loop
kick st = record st { info_stale = true }

-- connect_test
abbrev pub connect_test : Loop → Loop
connect_test st = record st { test_requested = true }

-- The request that a step makes, if it makes one.
unfoldable pub kind_of : Loop → Option Kind
kind_of st =
    if st.test_requested
    then some test
    else if st.stopped
    then none
    else if st.info_stale
    then some info
    else some snapshot

abbrev pub is_ok : Next → Bool
is_ok next_ok = true
is_ok _ = false

abbrev pub is_stop : Next → Bool
is_stop next_stop = true
is_stop _ = false

-- What comes behind the request of a step: the flag of a camera-info that was taken, the stop, the
-- count of uploads.
unfoldable pub after_request : Loop → Kind → Next → Loop
after_request st info next = record st {
  info_stale = if is_ok next then false else st.info_stale;
  stopped = is_stop next;
}
after_request st snapshot next = record st {
  stopped = is_stop next;
  uploads = if is_ok next then u32 (st.uploads + 1) else st.uploads;
}
after_request st test next = record st { stopped = is_stop next }

-- The fails of the thread, by what the step returns.
unfoldable pub count_fails : Loop → Next → Loop
count_fails st next_retry = record st { fails = u32 (st.fails + 1) }
count_fails st next_ok = record st { fails = 0 }
count_fails st next_wait = st
count_fails st next_stop = st

-- step and the switch on what it returns. `during` tells that `kick` runs while the request is in
-- flight.
unfoldable pub step : Loop → Answer → Bool → Loop × Option Kind
step st answer during = elim (kind_of st) [
  | none ↦ (count_fails st next_stop, none)
  | some kind ↦
      let next = prusa_camera_next answer in
      let asked = record st { test_requested = false } in
      let hit = if during then kick asked else asked in
      (count_fails (after_request hit kind next) next, some kind)
]

-- One turn of connect_thread: `kicked` tells that the semaphore was given before the wait was over.
unfoldable pub turn : Loop → (kicked has_token : Bool) → Answer → Bool → Loop × Option Kind
turn st kicked has_token answer during =
    let woken = record st {
      stopped = if kicked && not st.test_requested then false else st.stopped;
    } in
    if has_token then step woken answer during else (woken, none)
