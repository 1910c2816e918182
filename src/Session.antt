-- ===== src/Session.antt =====
-- One session with one machine: applications/protective_stop/src/session.{c,h}. A function that
-- changes `*s` returns the new session. The kernel's and the network's answers (a socket, the bytes
-- sent, the datagrams that wait, errno) are arguments.
pub mod Timing
pub mod Life
pub mod Frames
pub mod Parked
use zephyr_applications.Common.{
  ℕ, ◌+◌, ◌*◌, ◌/◌, Bool, true, false, ◌&&◌, not, ltb, leb, ◌==◌, if◌then◌else◌, List, [], ◌∷◌,
  Option, none, some, u32, u64, sub64, length,
}
use zephyr_applications.Pstop.{Codes, Reply, Proto, Wire}

pub data SessState : Type 0 where
  idle bonding bonded rejected : SessState

abbrev pub is_idle : SessState → Bool
is_idle idle = true
is_idle _ = false

abbrev pub is_bonding : SessState → Bool
is_bonding bonding = true
is_bonding _ = false

abbrev pub is_bonded : SessState → Bool
is_bonded bonded = true
is_bonded _ = false

abbrev pub is_rejected : SessState → Bool
is_rejected rejected = true
is_rejected _ = false

-- `struct sockaddr_in`, in network order.
pub record Addr : Type 0 where
  pub ip : ℕ
  pub port : ℕ

-- `struct pstop_peer`
pub record Peer : Type 0 where
  pub ip : ℕ
  pub port : ℕ
  pub id : ℕ
  pub configured : Bool

-- `struct pstop_session`; a socket of -1 is `none`.
pub record Session : Type 0 where
  pub slot : ℕ
  pub sock : Option ℕ
  pub peer_addr : Addr
  pub peer_id : ℕ
  pub proto : Proto
  pub state : SessState
  pub hb_ms : ℕ  -- uint32_t
  pub last_send_ms : ℕ  -- uint64_t
  pub last_reply_ms : ℕ  -- uint64_t
  pub last_bond_ms : ℕ  -- uint64_t
  pub sent : ℕ  -- uint32_t
  pub replies : ℕ  -- uint32_t
  pub send_fail : ℕ  -- uint32_t
  pub rebonds : ℕ  -- uint32_t
  pub unbonds : ℕ  -- uint32_t
  pub last_msg : ℕ

abbrev pub pstop_max_machines : ℕ
pstop_max_machines = 4

abbrev pub pstop_message_size : ℕ
pstop_message_size = 48

abbrev pub pstop_min_send_period_ms : ℕ
pstop_min_send_period_ms = 100

abbrev pub pstop_max_send_period_ms : ℕ
pstop_max_send_period_ms = 1000

abbrev pub pstop_bond_retry_ms : ℕ
pstop_bond_retry_ms = 5000

abbrev pub pstop_rebond_floor_ms : ℕ
pstop_rebond_floor_ms = 2500

abbrev pub pstop_rebond_machine_max_missed : ℕ
pstop_rebond_machine_max_missed = 5

abbrev pub pstop_rebond_jitter_margin_ms : ℕ
pstop_rebond_jitter_margin_ms = 500

-- What a call returns: 0, -EINVAL, or -errno.
pub data Ret : Type 0 where
  ok : Ret
  einval : Ret
  errno : ℕ → Ret

-- What the network answers to `pstop_session_open`: a descriptor or an errno from `zsock_socket`,
-- and nothing or an errno from `zsock_bind`; `htons` and `htonl` are the byte swaps.
pub record SocketApi : Type 0 where
  pub socket : Option ℕ
  pub socket_errno : ℕ
  pub bind_error : Option ℕ
  pub htons : ℕ → ℕ
  pub htonl : ℕ → ℕ

-- `slot` is a C int that the caller has found to be nonnegative.
unfoldable pub session_open : Codes → Wire → SocketApi → Session → ℕ → Peer → Session × Ret
session_open c w api s0 slot peer =
    let s = record s0 { sock = none } in
    if leb pstop_max_machines slot then (s, einval) else elim api.socket [
      | none ↦ (s, errno api.socket_errno)
      | some sock ↦ elim api.bind_error [
        | some e ↦ (s, errno e)
        | none ↦ (
          record {
            slot = slot;
            sock = some sock;
            peer_addr = record { ip = api.htonl peer.ip; port = api.htons peer.port };
            peer_id = peer.id;
            proto = record (w.proto_init) { remote_id = w.device_id peer.id };
            state = idle;
            hb_ms = 0;
            last_send_ms = 0;
            last_reply_ms = 0;
            last_bond_ms = 0;
            sent = 0;
            replies = 0;
            send_fail = 0;
            rebonds = 0;
            unbonds = 0;
            last_msg = c.unknown;
          },
          ok,
        )
      ]
    ]

unfoldable pub session_close : Session → Session
session_close s = elim s.sock [ none ↦ s | some _ ↦ record s { sock = none; state = idle } ]

unfoldable pub send_period_ms : Session → ℕ
send_period_ms s =
    let period = s.hb_ms / 2 in
    let raised = if ltb period pstop_min_send_period_ms then pstop_min_send_period_ms else period in
    if s.hb_ms == 0
    then pstop_min_send_period_ms
    else if ltb pstop_max_send_period_ms raised
    then pstop_max_send_period_ms
    else raised

unfoldable pub rebond_after_ms : Session → ℕ
rebond_after_ms s =
    let derived =
      u64 (u64 (s.hb_ms * pstop_rebond_machine_max_missed) + pstop_rebond_jitter_margin_ms) in
    if ltb derived pstop_rebond_floor_ms then pstop_rebond_floor_ms else derived

unfoldable pub due : Session → ℕ → Bool
unfolding send_period_ms
due s now_ms =
    if is_rejected s.state
    then false
    else if is_bonding s.state
    then leb pstop_bond_retry_ms (sub64 now_ms s.last_bond_ms)
    else if is_idle s.state
    then true
    else leb (send_period_ms s) (sub64 now_ms s.last_send_ms)

-- `me` is what `app_settings_effective_device_id` returns.
unfoldable pub build : Codes → Wire → ℕ → Session → ℕ → ℕ → ℕ → List ℕ
build c w me s verdict role now_ms =
    let type = if is_bonded s.state then verdict else c.bond in
    let next = u32 (s.proto.msg_counter + 1) in
    let msg =
      if type == c.bond
      then w.create_bond now_ms (w.device_id me) s.proto.remote_id next
      else w.create_generic type now_ms s.proto.last_received_stamp (w.device_id me)
          s.proto.remote_id next s.proto.last_received_counter in
    w.encode (w.encode_role msg role)

-- The bond bookkeeping of a frame that was sent.
abbrev note_sent : SessState → ℕ → Session → Session
note_sent idle now_ms s = record s { state = bonding; last_bond_ms = now_ms }
note_sent bonding now_ms s = record s { last_bond_ms = now_ms }
note_sent _ now_ms s = s

-- `sent_all` tells whether `zsock_sendto` took the whole frame; `e` is errno where it did not.
unfoldable pub commit_send : Session → Bool → ℕ → ℕ → Session × Ret
commit_send s sent_all e now_ms =
    if sent_all
    then (
      note_sent s.state now_ms (record s {
        proto = record (s.proto) { msg_counter = u32 (s.proto.msg_counter + 1) };
        last_send_ms = now_ms;
        sent = u32 (s.sent + 1);
      }),
      ok,
    )
    else (record s { send_fail = u32 (s.send_fail + 1) }, errno e)

-- A datagram as `zsock_recvfrom` hands it over: its source and its bytes, 48 at most.
pub record Datagram : Type 0 where
  pub from : Addr
  pub bytes : List ℕ

abbrev pub from_peer : Session → Datagram → Bool
from_peer s d = (d.from.ip == s.peer_addr.ip) && (d.from.port == s.peer_addr.port)

abbrev pub checksum_ok : Reply → Bool
checksum_ok msg = msg.checksum == msg.calculated_checksum

abbrev park : Session → ℕ → Session
park s message = record s { state = rejected; last_msg = message; unbonds = u32 (s.unbonds + 1) }

abbrev adopt : Session → Reply → ℕ → Session
adopt s msg now_ms = record s {
  proto = record (s.proto) { last_received_counter = msg.counter; last_received_stamp = msg.stamp };
  last_reply_ms = now_ms;
  last_msg = msg.message;
  replies = u32 (s.replies + 1);
  hb_ms = if msg.heartbeat_timeout == 0 then s.hb_ms else msg.heartbeat_timeout;
  state = bonded;
}

-- The body of the loop of `pstop_session_poll`, for a datagram of the right size.
unfoldable pub receive : Codes → Wire → Session → ℕ → Datagram → Session
receive c w s now_ms d =
    let msg = w.decode d.bytes in
    if not (from_peer s d)
    then s
    else if not (checksum_ok msg)
    then s
    else if msg.message == c.unbond
    then park s msg.message
    else if is_rejected s.state
    then s
    else adopt s msg now_ms

-- The list is what waits at the socket; a datagram of another size, or none, ends the drain.
unfoldable pub poll : Codes → Wire → Session → ℕ → List Datagram → Session
unfolding receive
poll c w s now_ms [] = s
poll c w s now_ms (d ∷ ds) =
    let rest = poll c w (receive c w s now_ms d) now_ms ds in
    if length d.bytes == pstop_message_size then rest else s

unfoldable pub rebond : Wire → Session → Session
rebond w s = record s {
  state = idle;
  hb_ms = 0;
  rebonds = u32 (s.rebonds + 1);
  proto = record (w.proto_init) { remote_id = w.device_id s.peer_id };
}

unfoldable pub watchdog : Wire → Session → ℕ → Session
unfolding rebond_after_ms rebond
watchdog w s now_ms =
    if not (is_bonded s.state)
    then s
    else if ltb (sub64 now_ms s.last_reply_ms) (rebond_after_ms s)
    then s
    else rebond w s
