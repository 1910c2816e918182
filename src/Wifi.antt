-- ===== src/Wifi.antt =====
-- wifi.c: the supervisor that joins the stored networks in turn, and leaves WiFi while Ethernet is
-- up. The network library's answers are arguments: whether Ethernet is ready, whether the interface
-- is connected, whether it refuses a connect request. Every run of the handler polls again after
-- POLL_MS.
pub mod Turns
pub mod Ethernet
use zephyr_applications.Common.{
  ℕ, zero, suc, ◌+◌, ◌-◌, ◌%◌, Bool, true, false, not, ◌&&◌, ◌||◌, ◌==◌, ltb, if◌then◌else◌, List,
  [], ◌∷◌, ◌++◌, Option, none, some, length, get_or,
}
use zephyr_applications.Settings.{WifiNet, no_net, wifi_max}

-- The file's variables; none stands for -1.
pub record Wifi : Type 0 where
  pub active_idx : Option ℕ
  pub reload : Bool
  pub trying : Option ℕ
  pub attempt_ms : ℕ
  pub next_idx : ℕ

-- The security type of a request: WPA2 with a key, or none.
pub data Security : Type 0 where
  psk_security no_security : Security

-- What is asked of the interface.
pub data Request : Type 0 where
  disconnect_request : Request
  connect_request : (ssid psk : List ℕ) → Security → Request

abbrev pub is_some : Option ℕ → Bool
is_some none = false
is_some (some n) = true

abbrev pub is_empty : List ℕ → Bool
is_empty [] = true
is_empty (c ∷ s) = false

-- disconnect
abbrev pub disconnect : Wifi → Wifi
disconnect st = record st { active_idx = none; trying = none }

-- The loop of try_next over what is left of its `PSTOP_WIFI_MAX` rounds: the first entry with a
-- name.
unfoldable pub pick : List WifiNet → ℕ → ℕ → Option ℕ
pick nets idx zero = none
pick nets idx (suc left) =
    let later = pick nets ((idx + 1) % 4) left in
    if is_empty (get_or nets idx no_net).ssid then later else some idx

abbrev pub request_of : WifiNet → Request
request_of net =
    connect_request net.ssid net.pass (if is_empty net.pass then no_security else psk_security)

unfoldable pub try_next : List WifiNet → Wifi → ℕ → Bool → Wifi × List Request
try_next nets st now refused = elim (pick nets (st.next_idx % 4) wifi_max) [
  | none ↦ (st, [])
  | some idx ↦ (
    record st {
      next_idx = (idx + 1) % 4;
      trying = if refused then none else some idx;
      attempt_ms = now;
    },
    request_of (get_or nets idx no_net) ∷ [],
  )
]

-- The branch without a connection: a network that is lost, or an attempt that takes too long, makes
-- way for the next one.
unfoldable pub unconnected : List WifiNet → Wifi → ℕ → Bool → Wifi × List Request
unconnected nets st now refused =
    let lost =
      if is_some st.active_idx then record st { active_idx = none; trying = none } else st in
    let tried = try_next nets (record lost { trying = none }) now refused in
    let asked = if is_some lost.trying then disconnect_request ∷ tried.1 else tried.1 in
    if not (is_some lost.trying) || ltb 20000 (now - lost.attempt_ms)
    then (tried.0, asked)
    else (lost, [])

abbrev pub same_idx : Option ℕ → Option ℕ → Bool
same_idx none none = true
same_idx (some a) (some b) = a == b
same_idx _ _ = false

-- The branches on the uplink.
unfoldable pub on_uplink : List WifiNet → Wifi → Bool → Bool → ℕ → Bool → Wifi × List Request
on_uplink nets st true connected now refused =
    if is_some st.active_idx || is_some st.trying
    then (record (disconnect st) { next_idx = 0 }, disconnect_request ∷ [])
    else (st, [])
on_uplink nets st false true now refused =
    if is_some st.trying && not (same_idx st.active_idx st.trying)
    then (record st { active_idx = st.trying }, [])
    else (st, [])
on_uplink nets st false false now refused = unconnected nets st now refused

-- supervise, with the requests it makes.
unfoldable pub supervise :
    List WifiNet → Wifi → (ethernet connected : Bool) → ℕ → Bool → Wifi × List Request
supervise nets st ethernet connected now refused =
    let fresh = record (disconnect st) { next_idx = 0; reload = false } in
    let joining = on_uplink nets fresh ethernet connected now refused in
    if st.reload
    then (joining.0, disconnect_request ∷ joining.1)
    else on_uplink nets st ethernet connected now refused

unfoldable pub pstop_wifi_reload : Wifi → Wifi
pstop_wifi_reload st = record st { reload = true }

abbrev pub wifi_init : Wifi
wifi_init = record {
  active_idx = none;
  reload = false;
  trying = none;
  attempt_ms = 0;
  next_idx = 0;
}
