-- ===== src/Codex/Rpc.antt =====
-- codex_keys/src/codex_rpc.c: the requests of the host and the events of the keys. `dec` is what
-- snprintf prints for a number. A response is the text that goes to codex_hid_send.
pub mod Answers
use zephyr_applications.Common.{
  ◌==◌, ◌-◌, ℕ, ◌+◌, Bool, true, false, ◌||◌, leb, ltb, if◌then◌else◌, List, [], ◌∷◌, ◌++◌, Option,
  none, some, length, take,
}
use zephyr_applications.Common.Text.{codes}
use zephyr_applications.Codex.{codex_json_max}
use zephyr_applications.Codex.Json.{codex_json_member, codex_json_str_eq}

-- FIRMWARE_VERSION
abbrev pub firmware_version : List ℕ
firmware_version = codes "0.1.0-qtpy"

-- send_result: nothing is sent if the text does not fit its buffer of 256 bytes.
unfoldable pub send_result : List ℕ → List ℕ → Option (List ℕ)
send_result id result =
    let response = codes "{\"id\":" ++ (id ++ (codes ",\"result\":" ++ (result ++ codes "}"))) in
    if leb 256 (length response) then none else some response

-- The id that is echoed: its text if it is shorter than ID_MAX, else null.
unfoldable pub echoed_id : Option (List ℕ) → List ℕ
echoed_id none = codes "null"
echoed_id (some raw_id) = if ltb (length raw_id) 24 then raw_id else codes "null"

abbrev pub version_result : List ℕ
version_result = codes "{\"version\":\"0.1.0-qtpy\"}"

abbrev pub status_result : List ℕ
status_result =
    codes
      "{\"version\":\"0.1.0-qtpy\",\"profile_index\":0,\"layer_index\":1,\"battery\":100,\"is_charging\":false}"

abbrev pub unknown_method : List ℕ
unknown_method = codes ",\"error\":{\"code\":-32601,\"message\":\"Method not found\"}}"

-- The methods that are only acknowledged.
abbrev pub is_acknowledged : Option (List ℕ) → Bool
is_acknowledged method =
    codex_json_str_eq method (codes "v.oai.thstatus")
    || codex_json_str_eq method (codes "v.oai.rgbcfg")
    || codex_json_str_eq method (codes "lights.preview")
    || codex_json_str_eq method (codes "host.focused_app")

-- The branches on the method; the last text is cut to its buffer of 128 bytes.
unfoldable pub respond : Option (List ℕ) → List ℕ → Option (List ℕ)
respond method id =
    if codex_json_str_eq method (codes "sys.version")
    then send_result id version_result
    else if codex_json_str_eq method (codes "device.status")
    then send_result id status_result
    else if is_acknowledged method
    then send_result id (codes "{\"ok\":true}")
    else some (take 127 (codes "{\"id\":" ++ (id ++ unknown_method)))

unfoldable pub handle_request : List ℕ → Option (List ℕ)
handle_request json = elim (codex_json_member json (codes "method")) [
  | none ↦ none
  | some method ↦ respond (some method) (echoed_id (codex_json_member json (codes "id")))
]

-- What strncpy and the readers of a C string see of the bytes.
unfoldable pub before_nul : List ℕ → List ℕ
before_nul [] = []
before_nul (c ∷ s) = let rest = before_nul s in if c == 0 then [] else c ∷ rest

-- codex_rpc_handle: a request that is still pending is kept, and the new one is dropped. `pending`
-- is the C string in the buffer.
unfoldable pub codex_rpc_handle : List ℕ → List ℕ → List ℕ
codex_rpc_handle [] json = take (codex_json_max - 1) (before_nul json)
codex_rpc_handle (c ∷ pending) json = c ∷ pending

-- pending_work_handler: the response, and what is pending after it.
unfoldable pub pending_work_handler : List ℕ → Option (List ℕ) × List ℕ
pending_work_handler pending = (handle_request pending, [])

-- codex_rpc_send_key: the message, cut to its buffer of 128 bytes; `agent` is none for -1.
unfoldable pub codex_rpc_send_key : (ℕ → List ℕ) → List ℕ → ℕ → Option ℕ → List ℕ
codex_rpc_send_key dec key action none = take 127 (
    codes "{\"method\":\"v.oai.hid\",\"params\":{\"k\":\""
    ++ (key ++ (codes "\",\"act\":" ++ (dec action ++ codes "}}"))))
codex_rpc_send_key dec key action (some agent) = take 127 (
    codes "{\"method\":\"v.oai.hid\",\"params\":{\"k\":\""
    ++ (key
        ++ (codes "\",\"act\":"
            ++ (dec action ++ (codes ",\"ag\":" ++ (dec agent ++ codes "}}"))))))
