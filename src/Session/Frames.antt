-- ===== src/Session/Frames.antt =====
-- The frames that a session builds, and the counters that reach the machine.
use zephyr_applications.Common.{
  ℕ, zero, suc, ◌+◌, ◌≡◌, ◌≢◌, ◌⊎◌, Bool, arith, u32, if◌then◌else◌, List, [], ◌∷◌,
}
use zephyr_applications.Pstop.{Wire, Codes}
use zephyr_applications.Session.{Session, bonded, build, commit_send}

-- Before the bond a session's frame is a BOND with the next counter, the same for every verdict, so
-- no verdict can reach a machine; once bonded it carries the verdict (one that is no BOND), with the
-- received stamp and counter. The role is on both.
pub build_lem :
    (c : Codes) (w : Wire) (me : ℕ) (s : Session) (verdict role now_ms : ℕ)
    → verdict ≢ c.bond
    → ((s.state ≢ bonded)
        × (build c w me s verdict role now_ms
            ≡ w.encode (
                w.encode_role
                  (w.create_bond now_ms
                    (w.device_id me)
                    s.proto.remote_id
                    (u32 (s.proto.msg_counter + 1)))
                  role)))
      ⊎ ((s.state ≡ bonded)
          × (build c w me s verdict role now_ms
              ≡ w.encode (
                  w.encode_role
                    (w.create_generic verdict now_ms s.proto.last_received_stamp
                      (w.device_id me)
                      s.proto.remote_id
                      (u32 (s.proto.msg_counter + 1))
                      s.proto.last_received_counter)
                    role)))
unfolding build
build_lem c w me s verdict role now_ms h = ground arith

pub build_bonded :
    (c : Codes) (w : Wire) (me : ℕ) (s : Session) (verdict role now_ms : ℕ)
    → s.state ≡ bonded
    → verdict ≢ c.bond
    → build c w me s verdict role now_ms
      ≡ w.encode (
          w.encode_role
            (w.create_generic verdict now_ms s.proto.last_received_stamp
              (w.device_id me)
              s.proto.remote_id
              (u32 (s.proto.msg_counter + 1))
              s.proto.last_received_counter)
            role)
unfolding build
build_bonded c w me s verdict role now_ms b h = ground arith

pub build_unbonded :
    (c : Codes) (w : Wire) (me : ℕ) (s : Session) (verdict role now_ms : ℕ)
    → s.state ≢ bonded
    → build c w me s verdict role now_ms ≡ build c w me s c.bond role now_ms
unfolding build
build_unbonded c w me s verdict role now_ms h = ground arith

pub bonded-cases : (s : Session) → (s.state ≡ bonded) ⊎ (s.state ≢ bonded)
bonded-cases s = ground arith

-- An attempt to send: the verdict and the role, the time, whether the network took the frame, errno.
pub record Attempt : Type 0 where
  pub verdict : ℕ
  pub role : ℕ
  pub now_ms : ℕ
  pub sent_all : Bool
  pub err : ℕ

-- The frames that went out, in order: each is built, and committed with what the network answers.
unfoldable pub frames_sent : Codes → Wire → ℕ → Session → List Attempt → List (List ℕ)
frames_sent c w me s [] = []
frames_sent c w me s (a ∷ rest) =
    let later = frames_sent c w me (commit_send s a.sent_all a.err a.now_ms).0 rest in
    if a.sent_all then build c w me s a.verdict a.role a.now_ms ∷ later else later

-- The counters that the machine decodes.
abbrev pub counters : Wire → List (List ℕ) → List ℕ
counters w [] = []
counters w (f ∷ fs) = (w.decode f).counter ∷ counters w fs

abbrev pub successes : List Attempt → ℕ
successes [] = 0
successes (a ∷ rest) = if a.sent_all then suc (successes rest) else successes rest

-- `k` counters after `n`, in 32 bits.
abbrev pub consecutive : ℕ → ℕ → List ℕ
consecutive n zero = []
consecutive n (suc k) = u32 (n + 1) ∷ consecutive (u32 (n + 1)) k
