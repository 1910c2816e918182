-- ===== src/Lockstep/Defs.antt =====
-- The state of lockstep.c and what a tick reads from outside.
use zephyr_applications.Common.{
  ℕ, suc, ◌+◌, Bool, true, false, ◌&&◌, ◌==◌, if◌then◌else◌, List, [], ◌∷◌, Option, none,
}
use zephyr_applications.Estop.{EstopState}
use zephyr_applications.Session.{Session, Peer, SocketApi, Datagram}

-- One entry of `sessions`, `slot_active`, `tick_due`, `frames[0]`, `frames[1]`, and the slot's bit in
-- `rebond_requests` and `reconfigure_requests`.
pub record Slot : Type 0 where
  pub session : Session
  pub active : Bool
  pub is_due : Bool
  pub frame_a : List ℕ
  pub frame_b : List ℕ
  pub rebond_request : Bool
  pub reconfigure_request : Bool

-- One entry of `estop`, `sampler_verdict`, `sampler_gen` and `sampler_done_ms`.
pub record Channel : Type 0 where
  pub estop : EstopState
  pub verdict : ℕ
  pub gen : ℕ
  pub done_ms : ℕ

-- `enum pstop_lockstep_event`
pub data DiagEvent : Type 0 where
  no_event timeout content : DiagEvent

-- `struct pstop_lockstep_diag`; a mask of samplers is a flag for each.
pub record Diag : Type 0 where
  pub last_kind : DiagEvent
  pub late_a : Bool
  pub late_b : Bool
  pub late_by_ms : ℕ
  pub late_uptime_ms : ℕ
  pub mismatch_slot : ℕ
  pub mismatch_offset : ℕ
  pub mismatch_verdict_a : ℕ
  pub mismatch_verdict_b : ℕ
  pub mismatch_uptime_ms : ℕ
  pub latency_max_a : ℕ
  pub latency_max_b : ℕ

pub record Lockstep : Type 0 where
  pub slots : List Slot
  pub channel_a : Channel
  pub channel_b : Channel
  pub tick_now_ms : ℕ
  pub tick_role : ℕ
  pub tick_gen : ℕ  -- uint32_t
  pub mismatches : ℕ  -- uint32_t
  pub missed_deadlines : ℕ  -- uint32_t
  pub gated_ticks : ℕ  -- uint32_t
  pub diag : Diag

-- What a tick reads: the peer table and the sockets that opening gets, the readbacks of both
-- channels, the outcome of each send, the datagrams that wait, the role, the device id, the uptime.
pub record Env : Type 0 where
  pub peer : ℕ → Peer
  pub socket : ℕ → SocketApi
  pub read_hi_a : ℕ
  pub read_lo_a : ℕ
  pub read_hi_b : ℕ
  pub read_lo_b : ℕ
  pub sent_all : ℕ → Bool
  pub errno : ℕ → ℕ
  pub waiting : ℕ → List Datagram
  pub is_operator : Bool
  pub role_operator : ℕ  -- PSTOP_AUX_ROLE_OPERATOR
  pub role_stop_only : ℕ  -- PSTOP_AUX_ROLE_STOP_ONLY
  pub device_id : ℕ
  pub uptime_ms : ℕ
  pub has_observer : Bool  -- a tick observer is set

-- What a tick does outside: the frames handed to the network, each with its slot, and the call of
-- the tick observer with the generation and the two verdicts.
pub record Effects : Type 0 where
  pub sent : List (ℕ × List ℕ)
  pub observed : Option (ℕ × ℕ × ℕ)

abbrev pub no_effects : Effects
no_effects = record { sent = []; observed = none }

abbrev pub active_due : Slot → Bool
active_due s = s.active && s.is_due

-- `memcmp(a, b, PSTOP_MESSAGE_SIZE) == 0` of two frame buffers.
unfoldable pub eq_bytes : List ℕ → List ℕ → Bool
eq_bytes [] [] = true
eq_bytes [] (_ ∷ _) = false
eq_bytes (_ ∷ _) [] = false
eq_bytes (a ∷ as') (b ∷ bs) = (a == b) && eq_bytes as' bs

-- The scan of `record_mismatch`: the first index at which two buffers differ, or their length.
unfoldable pub first_diff : List ℕ → List ℕ → ℕ
first_diff [] bs = 0
first_diff (_ ∷ _) [] = 0
first_diff (a ∷ as') (b ∷ bs) = let later = first_diff as' bs in if a == b then suc later else 0

-- `for (int slot = 0; slot < PSTOP_MAX_MACHINES; slot++)`, from slot `i` on.
unfoldable pub each_slot : (ℕ → Slot → Slot) → ℕ → List Slot → List Slot
each_slot f i [] = []
each_slot f i (s ∷ ss) = f i s ∷ each_slot f (i + 1) ss
