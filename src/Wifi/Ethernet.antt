-- ===== src/Wifi/Ethernet.antt =====
-- What the supervisor's variables say in every state that it reaches.
use zephyr_applications.Common.{
  refl, ◌⊎◌, inl, inr, Bool-cases, Option-cases, some, true, false, none, inr, inl, Bool-cases,
  if◌then◌else◌, none, true, Bool, some, List, ℕ, ◌≡◌, arith,
}
use zephyr_applications.Settings.{WifiNet}
use zephyr_applications.Wifi.{
  same_idx, Wifi, wifi_init, supervise, on_uplink, unconnected, try_next, pstop_wifi_reload,
  disconnect, is_some, wifi_init,
}

-- The network that is reported as joined is the one that was asked for last.
abbrev pub IsJoined : Wifi → Type 0
IsJoined st = (st.active_idx ≡ none) ⊎ (st.active_idx ≡ st.trying)

-- What happens to the supervisor: a poll with the answers it gets, or a new list of networks.
pub data Event : Type 0 where
  poll : (nets : List WifiNet) (ethernet connected : Bool) (now : ℕ) (refused : Bool) → Event
  reloaded : Event

abbrev pub step : Wifi → Event → Wifi
step st (poll nets ethernet connected now refused) =
    (supervise nets st ethernet connected now refused).0
step st reloaded = pstop_wifi_reload st

pub data Reached : Wifi → Type 0 where
  start : Reached wifi_init
  next : {st : Wifi} → Reached st → (e : Event) → Reached (step st e)

try_next_idle :
    (nets : List WifiNet) (st : Wifi) (now : ℕ) (refused : Bool)
    → (try_next nets st now refused).0.active_idx ≡ st.active_idx
unfolding try_next
try_next_idle nets st now refused = ground arith

unconnected_idle :
    (nets : List WifiNet) (st : Wifi) (now : ℕ) (refused : Bool)
    → (unconnected nets st now refused).0.active_idx ≡ none
unfolding unconnected
unconnected_idle nets st now refused = ground (
  arith,
  try_next_idle nets
      (record (if is_some st.active_idx
        then record st { active_idx = none; trying = none }
        else st) { trying = none })
      now refused,
)

on_uplink-IsJoined :
    (nets : List WifiNet) (st : Wifi) (ethernet connected : Bool) (now : ℕ) (refused : Bool)
    → IsJoined st
    → IsJoined (on_uplink nets st ethernet connected now refused).0
unfolding on_uplink
on_uplink-IsJoined nets st true connected now refused h = ground (arith, h)
on_uplink-IsJoined nets st false true now refused h = elim (Option-cases st.trying) [
  | inl idle ↦ ground (arith, h, idle)
  | inr (i, asked) ↦ elim (Bool-cases (same_idx st.active_idx (some i))) [
    | inl same ↦ ground (arith, h, asked, same)
    | inr apart ↦ inr (ground (arith, asked, apart))
  ]
]
on_uplink-IsJoined nets st false false now refused h = inl (unconnected_idle nets st now refused)

step-IsJoined : (st : Wifi) (e : Event) → IsJoined st → IsJoined (step st e)
unfolding supervise pstop_wifi_reload
step-IsJoined st (poll nets ethernet connected now refused) h =
    let fresh = record (disconnect st) { next_idx = 0; reload = false } in
    let after = on_uplink-IsJoined nets fresh ethernet connected now refused (inl refl) in
    let going = on_uplink-IsJoined nets st ethernet connected now refused h in
    elim (Bool-cases st.reload) [
      | inl r ↦ ground (arith, r, after)
      | inr r ↦ ground (arith, r, going)
    ]
step-IsJoined st reloaded h = h

every_Reached : (st : Wifi) → Reached st → IsJoined st
every_Reached _ start = inl refl
every_Reached _ (next {st} r e) = step-IsJoined st e (every_Reached st r)

-- In every state that polls and reloads reach, a network that is reported as joined is the one that
-- was asked for last; and a poll that finds Ethernet ready leaves none joined and none tried.
pub Reached-IsJoined :
    (st : Wifi) (nets : List WifiNet) (connected : Bool) (now : ℕ) (refused : Bool)
    → Reached st
    → IsJoined st
      × ((supervise nets st true connected now refused).0.active_idx ≡ none)
      × ((supervise nets st true connected now refused).0.trying ≡ none)
unfolding supervise on_uplink
Reached-IsJoined st nets connected now refused r = (every_Reached st r, ground arith, ground arith)
