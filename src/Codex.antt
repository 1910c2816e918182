-- ===== src/Codex.antt =====
-- The reports of codex_keys/src/codex_hid.c: a JSON text is sent in fragments, and the payload of a
-- fragment is taken out again. The Bluetooth library is what it answers to each report.
pub mod Fragments
pub mod Json
pub mod Receive
pub mod Rpc
pub mod Keys
pub mod Served
use zephyr_applications.Common.{
  ℕ, zero, suc, ◌+◌, ◌-◌, Bool, true, false, not, ◌&&◌, ◌||◌, ◌==◌, leb, ltb, if◌then◌else◌, List,
  [], ◌∷◌, ◌++◌, Option, none, some, length, take, drop, replicate, get_or, min,
}

-- PAYLOAD_MAX and CODEX_JSON_MAX
abbrev pub payload_max : ℕ
payload_max = 61

abbrev pub codex_json_max : ℕ
codex_json_max = 512

-- set_report for an output report with the report id: the payload that goes to rx_append; none if the
-- report is ignored.
unfoldable pub set_report : List ℕ → Option (List ℕ)
set_report bytes =
    let body = if leb 3 (length bytes) && get_or bytes 0 0 == 6 then 1 else 0 in
    let payload_len = min (get_or bytes (body + 1) 0) payload_max in
    if ltb (length bytes) (body + 2) || not (get_or bytes body 0 == 2)
    then none
    else if ltb (length bytes) (body + 2 + payload_len)
    then none
    else some (take payload_len (drop (body + 2) bytes))

-- A report of REPORT_BODY_LEN bytes with a fragment in it.
abbrev pub report : List ℕ → List ℕ
report chunk = 2 ∷ length chunk ∷ (chunk ++ replicate (payload_max - length chunk) 0)

-- The loop of codex_hid_send over what is left of the text, on fuel; `sends` counts the reports that
-- the library takes before it refuses one.
unfoldable pub send_loop : ℕ → List ℕ → ℕ → List (List ℕ)
send_loop zero text sends = []
send_loop (suc fuel) [] sends = []
send_loop (suc fuel) (c ∷ s) zero = []
send_loop (suc fuel) (c ∷ s) (suc sends) =
    report (take payload_max (c ∷ s)) ∷ send_loop fuel (drop payload_max (c ∷ s)) sends

-- codex_hid_send: the reports that are sent, none if the text is too long.
unfoldable pub codex_hid_send : List ℕ → ℕ → Option (List (List ℕ))
codex_hid_send json sends =
    let framed = json ++ (10 ∷ []) in
    if leb codex_json_max (length framed)
    then none
    else some (send_loop codex_json_max framed sends)
