-- ===== src/Examples/Samples.antt =====
-- Concrete values of the model's parameters and states.
use zephyr_applications.Common.{ℕ, true, false, List, [], ◌∷◌, some, none, replicate, get_or, arith}
use zephyr_applications.Pstop.{Codes, IsDistinct, Reply, Wire, TellsType}
use zephyr_applications.Estop.{EstopState}
use zephyr_applications.Session.{SessState, bonded, Session, Peer, Datagram}
use zephyr_applications.Lockstep.Defs.{Slot, Channel, no_event, Lockstep, Env}

abbrev pub codes : Codes
codes = record { ok = 1; stop = 2; bond = 3; unbond = 4; unknown = 0 }

pub codes-IsDistinct : IsDistinct codes
codes-IsDistinct = ground arith

abbrev reply : List ℕ → Reply
reply bytes = record {
  message = get_or bytes 1 0;
  counter = get_or bytes 2 0;
  stamp = get_or bytes 3 0;
  heartbeat_timeout = get_or bytes 4 0;
  checksum = get_or bytes 5 0;
  calculated_checksum = get_or bytes 5 0;
}

-- A message is the list of its fields, and a frame puts the role first.
abbrev pub wire : Wire
wire = record {
  create_bond = λ now me remote counter. 3 ∷ now ∷ me ∷ remote ∷ counter ∷ [];
  create_generic = λ code now stamp me remote counter received.
      code ∷ now ∷ stamp ∷ me ∷ remote ∷ counter ∷ received ∷ [];
  encode_role = λ msg role. role ∷ msg;
  encode = λ msg. msg;
  decode = reply;
  proto_init = record {
    msg_counter = 0;
    last_received_counter = 0;
    last_received_stamp = 0;
    remote_id = 0;
  };
  device_id = λ id. id;
}

pub wire-TellsType : TellsType wire
wire-TellsType = record { type_injective = λ a b now stamp me remote counter received role e. cc e }

abbrev pub peer : Peer
peer = record { ip = 10; port = 8890; id = 7; configured = true }

-- A session that got its last reply at 9000 ms, with a window of one second.
abbrev pub session : SessState → Session
session st = record {
  slot = 0;
  sock = some 3;
  peer_addr = record { ip = 10; port = 8890 };
  peer_id = 7;
  proto = record {
    msg_counter = 41;
    last_received_counter = 40;
    last_received_stamp = 8990;
    remote_id = 7;
  };
  state = st;
  hb_ms = 1000;
  last_send_ms = 9000;
  last_reply_ms = 9000;
  last_bond_ms = 2000;
  sent = 41;
  replies = 40;
  send_fail = 0;
  rebonds = 0;
  unbonds = 0;
  last_msg = 1;
}

-- A datagram of 48 bytes from the peer, that says `code`.
abbrev pub datagram : ℕ → Datagram
datagram code = record { from = record { ip = 10; port = 8890 }; bytes = 0 ∷ code ∷ replicate 46 0 }

-- The same bytes from a stranger.
abbrev pub stranger : Datagram
stranger = record { from = record { ip = 66; port = 8890 }; bytes = 0 ∷ 4 ∷ replicate 46 0 }

-- A channel whose loop has read closed for a while.
abbrev pub closed : EstopState
closed = record {
  high_ok = true;
  low_ok = true;
  primed_high = true;
  primed_low = true;
  closed_streak = 20;
  open_streak = 0;
  settled = true;
}

abbrev channel : Channel
channel = record { estop = closed; verdict = 1; gen = 5; done_ms = 9400 }

abbrev pub slot : Slot
slot = record {
  session = session bonded;
  active = true;
  is_due = true;
  frame_a = 1 ∷ [];
  frame_b = 1 ∷ [];
  rebond_request = false;
  reconfigure_request = false;
}

abbrev pub device : Lockstep
device = record {
  slots = slot ∷ [];
  channel_a = channel;
  channel_b = channel;
  tick_now_ms = 9400;
  tick_role = 1;
  tick_gen = 5;
  mismatches = 0;
  missed_deadlines = 0;
  gated_ticks = 0;
  diag = record {
    last_kind = no_event;
    late_a = false;
    late_b = false;
    late_by_ms = 0;
    late_uptime_ms = 0;
    mismatch_slot = 0;
    mismatch_offset = 0;
    mismatch_verdict_a = 0;
    mismatch_verdict_b = 0;
    mismatch_uptime_ms = 0;
    latency_max_a = 0;
    latency_max_b = 0;
  };
}

-- Both loops read closed, and every send succeeds.
abbrev pub env : Env
env = record {
  peer = λ _. peer;
  socket = λ _. record {
    socket = some 3;
    socket_errno = 0;
    bind_error = none;
    htons = λ x. x;
    htonl = λ x. x;
  };
  read_hi_a = 1;
  read_lo_a = 0;
  read_hi_b = 1;
  read_lo_b = 0;
  sent_all = λ _. true;
  errno = λ _. 0;
  waiting = λ _. [];
  is_operator = true;
  role_operator = 1;
  role_stop_only = 2;
  device_id = 9;
  uptime_ms = 10000;
  has_observer = true;
}
