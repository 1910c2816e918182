-- ===== src/Session/Life.antt =====
-- The bond state machine of session.c.
use zephyr_applications.Common.{
  ℕ, ◌≡◌, refl, ◌≢◌, ◌⊎◌, inl, inr, Bool, false, arith, if◌then◌else◌, Bool-cases, List, [], ◌∷◌,
  length, ◌==◌, ◌&&◌, ◌||◌,
}
use zephyr_applications.Pstop.{Wire, Codes}
use zephyr_applications.Session.{
  Session, SessState, idle, bonding, bonded, rejected, Datagram, receive, poll, from_peer,
  checksum_ok, is_rejected, watchdog, commit_send, pstop_message_size,
}

-- A datagram that the session may act on: from the bonded peer, with a checksum that verifies.
abbrev pub is_trusted : Wire → Session → Datagram → Bool
is_trusted w s d = from_peer s d && checksum_ok (w.decode d.bytes)

-- The moves that the protocol allows: a BOND goes out, a reply confirms it, UNBOND parks from
-- anywhere, a silent bond is given up. Only a restart leaves `rejected`.
abbrev pub Move : SessState → SessState → Type 0
Move a b =
    (a ≡ b)
    ⊎ ((a ≡ idle) × (b ≡ bonding))
    ⊎ ((a ≢ rejected) × (b ≡ bonded))
    ⊎ (b ≡ rejected)
    ⊎ ((a ≡ bonded) × (b ≡ idle))

module _ (c : Codes) (w : Wire) (s : Session) (now_ms : ℕ) where
  commit_send-Move :
      (sent_all : Bool) (e : ℕ) → Move s.state (commit_send s sent_all e now_ms).0.state
  unfolding commit_send
  commit_send-Move sent_all e = ground arith

  receive-Move : (d : Datagram) → Move s.state (receive c w s now_ms d).state
  unfolding receive
  receive-Move d = ground arith

  watchdog-Move : Move s.state (watchdog w s now_ms).state
  unfolding watchdog
  watchdog-Move = ground arith

-- Whatever arrives or falls due, a session's state changes by a move of the protocol: on a sent or
-- failed frame, on a received datagram, and on a turn of the watchdog.
pub operations_Move :
    (c : Codes) (w : Wire) (s : Session) (sent_all : Bool) (e now_ms : ℕ) (d : Datagram)
    → Move s.state (commit_send s sent_all e now_ms).0.state
      × Move s.state (receive c w s now_ms d).state
      × Move s.state (watchdog w s now_ms).state
operations_Move c w s sent_all e now_ms d = (
  commit_send-Move c w s now_ms sent_all e,
  receive-Move c w s now_ms d,
  watchdog-Move c w s now_ms,
)

-- A datagram from another address, or with a checksum that does not verify, changes nothing.
pub receive-untrusted :
    (c : Codes) (w : Wire) (s : Session) (now_ms : ℕ) (d : Datagram)
    → is_trusted w s d ≡ false
    → receive c w s now_ms d ≡ s
unfolding receive
receive-untrusted c w s now_ms d h = ground arith

-- The reading of the datagrams that a drain takes: those before the first of another size.
abbrev pub drained : List Datagram → List Datagram
drained [] = []
drained (d ∷ ds) = if length d.bytes == pstop_message_size then d ∷ drained ds else []

-- One of the datagrams is a trusted UNBOND.
abbrev pub has_unbond : Codes → Wire → Session → List Datagram → Bool
has_unbond c w s [] = false
has_unbond c w s (d ∷ ds) =
    (is_trusted w s d && ((w.decode d.bytes).message == c.unbond)) || has_unbond c w s ds

-- One of the datagrams is trusted.
abbrev pub has_trusted : Wire → Session → List Datagram → Bool
has_trusted w s [] = false
has_trusted w s (d ∷ ds) = is_trusted w s d || has_trusted w s ds

-- The state of a session after a drain, from what it was and what arrived.
abbrev pub settle : SessState → Bool → Bool → SessState
settle st unbond trusted =
    if is_rejected st || unbond then rejected else if trusted then bonded else st

receive-peer :
    (c : Codes) (w : Wire) (s : Session) (now_ms : ℕ) (d : Datagram)
    → (receive c w s now_ms d).peer_addr ≡ s.peer_addr
unfolding receive
receive-peer c w s now_ms d = ground arith

receive-settle :
    (c : Codes) (w : Wire) (s : Session) (now_ms : ℕ) (d : Datagram)
    → (receive c w s now_ms d).state
      ≡ settle s.state (has_unbond c w s (d ∷ [])) (has_trusted w s (d ∷ []))
unfolding receive
receive-settle c w s now_ms d = ground arith

settle-settle :
    (a : SessState) (u t u' t' : Bool) → settle (settle a u t) u' t' ≡ settle a (u || u') (t || t')
settle-settle a u t u' t' = ground arith

has_unbond-peer :
    (c : Codes) (w : Wire) (s t : Session)
    → s.peer_addr ≡ t.peer_addr
    → (ds : List Datagram) → has_unbond c w s ds ≡ has_unbond c w t ds
has_unbond-peer c w s t e [] = refl
has_unbond-peer c w s t e (d ∷ ds) = ground (arith, e, has_unbond-peer c w s t e ds)

has_trusted-peer :
    (w : Wire) (s t : Session)
    → s.peer_addr ≡ t.peer_addr
    → (ds : List Datagram) → has_trusted w s ds ≡ has_trusted w t ds
has_trusted-peer w s t e [] = refl
has_trusted-peer w s t e (d ∷ ds) = ground (arith, e, has_trusted-peer w s t e ds)

-- After a drain the session is parked if it was, or if any trusted datagram of the drain is an
-- UNBOND, wherever it stands among the others; otherwise it is bonded if any trusted datagram
-- came, and unchanged in its state if none did.
pub poll-settle :
    (c : Codes) (w : Wire) (s : Session) (now_ms : ℕ) (ds : List Datagram)
    → (poll c w s now_ms ds).state
      ≡ settle s.state (has_unbond c w s (drained ds)) (has_trusted w s (drained ds))
unfolding poll
poll-settle c w s now_ms [] = ground arith
poll-settle c w s now_ms (d ∷ ds) =
    let t = receive c w s now_ms d in
    let same = receive-peer c w s now_ms d in
    elim (Bool-cases (length d.bytes == pstop_message_size)) [
      | inl full ↦ rw full (
          ground (
            arith,
            poll-settle c w t now_ms ds,
            receive-settle c w s now_ms d,
            has_unbond-peer c w t s same (drained ds),
            has_trusted-peer w t s same (drained ds),
            settle-settle s.state (is_trusted w s d && ((w.decode d.bytes).message == c.unbond))
                (is_trusted w s d) (has_unbond c w s (drained ds)) (has_trusted w s (drained ds)),
          ))
      | inr runt ↦ rw runt (ground arith)
    ]
