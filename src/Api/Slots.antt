-- ===== src/Api/Slots.antt =====
-- api.c: set_slot, clear_slot and the routes of the machine table.
use zephyr_applications.Common.{
  ℕ, ◌%◌, ◌^◌, Bool, true, false, ◌||◌, ◌==◌, leb, ltb, if◌then◌else◌, List, ◌++◌, Option, none,
  some,
}
use zephyr_applications.Common.Text.{codes}
use zephyr_applications.Http.{http_parse_u32, http_parse_ipv4}
use zephyr_applications.Http.Query.{Value, found, enoent, http_query_get, http_query_flag}
use zephyr_applications.Settings.{
  Outcome, done, bad_argument, write_failed, app_settings_set_peer, app_settings_clear_peer,
  max_machines,
}
use zephyr_applications.Api.{
  Host, Device, Response, reply, request_reconfigure, request_rebond, dotted, error_text, true_text,
}

-- A value of the query that the parser takes.
abbrev pub parsed : (Option (List ℕ) → Option ℕ) → Value → Option ℕ
parsed parse (found v) = parse (some v)
parsed parse _ = none

-- PSTOP_DEFAULT_MACHINE_ID
abbrev pub default_machine_id : ℕ
default_machine_id = 16909060

-- The three values of a slot, or the text of the error.
pub data Fields : Type 0 where
  fields : (ip port id : ℕ) → Fields
  refused : List ℕ → Fields

abbrev pub port_of : Value → Option ℕ
port_of v = elim (parsed http_parse_u32 v) [
  | none ↦ none
  | some port ↦ if ltb port 1 || ltb 65535 port then none else some port
]

abbrev pub id_of : Value → Option ℕ
id_of enoent = some default_machine_id
id_of v = elim (parsed http_parse_u32 v) [
  | none ↦ none
  | some id ↦ if id == 0 then none else some id
]

-- The checks of set_slot.
unfoldable pub slot_fields : List ℕ → Fields
slot_fields url = elim (parsed http_parse_ipv4 (http_query_get url (codes "ip") 24)) [
  | none ↦ refused (codes "bad or missing ip")
  | some ip ↦ elim (port_of (http_query_get url (codes "port") 24)) [
    | none ↦ refused (codes "bad or missing port")
    | some port ↦ elim (id_of (http_query_get url (codes "id") 24)) [
      | none ↦ refused (codes "bad id")
      | some id ↦ fields ip port id
    ]
  ]
]

-- set_slot: what it answers, and the three values if it succeeds.
pub data Stored : Type 0 where
  stored : (ip port id : ℕ) → Stored
  failed_with : Outcome → List ℕ → Stored

unfoldable pub set_slot : Device → ℕ → List ℕ → Bool → Stored × Device
set_slot dev slot url failed = elim (slot_fields url) [
  | refused err ↦ (failed_with bad_argument err, dev)
  | fields ip port id ↦
      let (ret, settings) = app_settings_set_peer dev.settings slot ip (port % 2 ^ 16) id failed in
      let after = record dev { settings = settings } in
      elim ret [
        | done ↦ (stored ip port id, request_reconfigure after slot)
        | bad_argument ↦ (failed_with bad_argument (codes "settings write failed"), after)
        | write_failed ↦ (failed_with write_failed (codes "settings write failed"), after)
      ]
]

unfoldable pub clear_slot : Device → ℕ → Bool → Bool × Device
clear_slot dev slot failed =
    let (ret, settings) = app_settings_clear_peer dev.settings slot failed in
    let after = record dev { settings = settings } in
    elim ret [
      | done ↦ (true, request_reconfigure after slot)
      | bad_argument ↦ (false, after)
      | write_failed ↦ (false, after)
    ]

abbrev pub status_of : Outcome → ℕ
status_of bad_argument = 400
status_of _ = 500

-- What a failed set_slot answers, and `body` of the values otherwise.
abbrev pub slot_reply : Host → (ℕ → ℕ → ℕ → List ℕ) → Stored → Response
slot_reply h body (stored ip port id) = reply h.cap 200 (body ip port id)
slot_reply h body (failed_with ret err) = reply h.cap (status_of ret) (error_text err)

unfoldable pub pstop_api_pstop_peer : Host → Device → List ℕ → Bool → Response × Device
pstop_api_pstop_peer h dev url failed =
    let (ok, cleared) = clear_slot dev 0 failed in
    let (ret, put) = set_slot dev 0 url failed in
    if http_query_flag url (codes "clear")
    then (
      reply h.cap (if ok then 200 else 500)
          (codes "{\"ok\":" ++ true_text ok ++ codes ",\"cleared\":true}"),
      cleared,
    )
    else (
      slot_reply h
          (λ ip port id.
            codes "{\"ok\":true,\"ip\":\""
            ++ dotted h ip
            ++ codes "\",\"port\":"
            ++ h.dec port
            ++ codes "}")
          ret,
      put,
    )

-- The route once the slot is known.
unfoldable pub peers_of : Host → Device → ℕ → List ℕ → Bool → Response × Device
peers_of h dev slot url failed =
    let (ok, cleared) = clear_slot dev slot failed in
    let (ret, put) = set_slot dev slot url failed in
    let named = codes "\"slot\":" ++ h.dec slot in
    if leb max_machines slot
    then (reply h.cap 400 (error_text (codes "slot out of range")), dev)
    else if http_query_flag url (codes "rebond")
    then (
      reply h.cap 200 (codes "{\"ok\":true," ++ named ++ codes ",\"rebond\":true}"),
      request_rebond dev slot,
    )
    else if http_query_flag url (codes "clear")
    then (
      reply h.cap (if ok then 200 else 500)
          (codes "{\"ok\":" ++ true_text ok ++ codes "," ++ named ++ codes ",\"cleared\":true}"),
      cleared,
    )
    else (
      slot_reply h
          (λ ip port id.
            codes "{\"ok\":true,"
            ++ named
            ++ codes ",\"ip\":\""
            ++ dotted h ip
            ++ codes "\",\"port\":"
            ++ h.dec port
            ++ codes ",\"id\":"
            ++ h.dec id
            ++ codes "}")
          ret,
      put,
    )

unfoldable pub pstop_api_pstop_peers : Host → Device → List ℕ → Bool → Response × Device
pstop_api_pstop_peers h dev url failed =
    elim (parsed http_parse_u32 (http_query_get url (codes "slot") 8)) [
      | none ↦ (reply h.cap 400 (error_text (codes "missing slot")), dev)
      | some slot ↦ peers_of h dev slot url failed
    ]
