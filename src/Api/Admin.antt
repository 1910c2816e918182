-- ===== src/Api/Admin.antt =====
-- api.c: the routes behind the administrator's password, the list of networks apart, and the two
-- routes of the LED ring.
use zephyr_applications.Common.{
  ◌∷◌, [], ℕ, ◌+◌, Bool, true, false, not, ◌==◌, ltb, if◌then◌else◌, List, [], ◌++◌, Option, none,
  some,
}
use zephyr_applications.Common.Text.{codes}
use zephyr_applications.Lockstep.Defs.{eq_bytes}
use zephyr_applications.Http.{http_parse_u32}
use zephyr_applications.Http.Query.{Value, found, http_query_get, http_query_flag}
use zephyr_applications.Settings.{
  done, bad_argument, write_failed, app_settings_set_operator, app_settings_set_ring_offset,
  app_settings_set_device_id, app_settings_effective_device_id,
}
use zephyr_applications.Health.Store as HealthStore
use zephyr_applications.Api.{
  Host, Device, Response, reply, guarded, request_reconfigure, error_text, true_text,
}
use zephyr_applications.Api.Slots.{parsed}

-- role_str
abbrev pub role_str : Device → List ℕ
role_str dev = if dev.settings.mem.is_operator then codes "operator" else codes "stop_only"

abbrev pub write_error : Host → Response
write_error h = reply h.cap 500 (error_text (codes "settings write failed"))

-- The role that the query names.
abbrev pub role_of : List ℕ → Option Bool
role_of val =
    if eq_bytes val (codes "operator")
    then some true
    else if eq_bytes val (codes "stop_only")
    then some false
    else none

abbrev pub set_role : Host → Device → Bool → Bool → Response × Device
set_role h dev op failed =
    let (ret, settings) = app_settings_set_operator dev.settings op failed in
    let after = record dev { settings = settings } in
    elim ret [
      | done ↦ (
        reply h.cap 200
            (codes "{\"ok\":true,\"role\":\"" ++ role_str after ++ codes "\",\"applied\":true}"),
        after,
      )
      | bad_argument ↦ (write_error h, after)
      | write_failed ↦ (write_error h, after)
    ]

unfoldable pub post_role : Host → Device → List ℕ → Bool → Response × Device
post_role h dev url failed = elim (http_query_get url (codes "role") 16) [
  | found val ↦ elim (role_of val) [
    | none ↦ (reply h.cap 400 (error_text (codes "role must be stop_only or operator")), dev)
    | some op ↦ set_role h dev op failed
  ]
  | _ ↦ (reply h.cap 400 (error_text (codes "missing role")), dev)
]

unfoldable pub pstop_api_role :
    Host → Device → (post : Bool) → List ℕ → Option (List ℕ) → Bool → Response × Device
pstop_api_role h dev post url auth failed = guarded h auth dev (
    if post
    then post_role h dev url failed
    else (reply h.cap 200 (codes "{\"ok\":true,\"role\":\"" ++ role_str dev ++ codes "\"}"), dev))

-- How many slots are active.
abbrev pub count_active : List Bool → ℕ
count_active [] = 0
count_active (true ∷ slots) = count_active slots + 1
count_active (false ∷ slots) = count_active slots

-- pstop_api_admin_status; `fw_ver` and `fw_sha` are of the build, `uptime` is what k_uptime_get
-- answers.
unfoldable pub pstop_api_admin_status :
    Host → Device → Option (List ℕ) → (fw_ver fw_sha : List ℕ) → (uptime : ℕ) → Response × Device
pstop_api_admin_status h dev auth fw_ver fw_sha uptime = guarded h auth dev (
  reply h.cap 200 (
      codes "{\"ok\":true,\"fw_ver\":\""
      ++ fw_ver
      ++ codes "\",\"fw_sha\":\""
      ++ fw_sha
      ++ codes "\",\"uptime_ms\":"
      ++ h.dec uptime
      ++ codes ",\"device_id\":"
      ++ h.dec (app_settings_effective_device_id dev.settings)
      ++ codes ",\"role\":\""
      ++ role_str dev
      ++ codes "\",\"sessions\":"
      ++ h.dec (count_active dev.active)
      ++ codes "}"),
  dev,
)

unfoldable pub pstop_api_admin_restart : Host → Device → Option (List ℕ) → Response × Device
pstop_api_admin_restart h dev auth = guarded h auth dev (
  record (reply h.cap 200 (codes "{\"ok\":true,\"message\":\"rebooting in 500 ms\"}")) {
    restart = true;
  },
  dev,
)

unfoldable pub pstop_api_ring_offset : Host → Device → List ℕ → Bool → Response × Device
pstop_api_ring_offset h dev url failed =
    let bad = reply h.cap 400 (error_text (codes "n must be 0..15")) in
    elim (parsed http_parse_u32 (http_query_get url (codes "n") 8)) [
      | none ↦ (bad, dev)
      | some n ↦
          let (ret, settings) = app_settings_set_ring_offset dev.settings n failed in
          let after = record dev { settings = settings } in
          let good =
            reply h.cap 200 (codes "{\"ok\":true,\"ring_offset\":" ++ h.dec n ++ codes "}") in
          if ltb 15 n then (bad, dev) else elim ret [
            | done ↦ (good, after)
            | bad_argument ↦ (write_error h, after)
            | write_failed ↦ (write_error h, after)
          ]
    ]

-- leds_locate of leds.c, with RING_LOCATE_TIMEOUT_MS
abbrev pub leds_locate : Device → Bool → ℕ → Device
leds_locate dev on now_ms = record dev { locate_until_ms = if on then now_ms + 300000 else 0 }

abbrev pub switch : List ℕ → Option Bool
switch val =
    if eq_bytes val (codes "0")
    then some false
    else if eq_bytes val (codes "1")
    then some true
    else none

unfoldable pub pstop_api_ring_led1 : Host → Device → List ℕ → ℕ → Response × Device
pstop_api_ring_led1 h dev url now_ms =
    let bad : Response × Device = (reply h.cap 400 (error_text (codes "on must be 0 or 1")), dev) in
    elim (http_query_get url (codes "on") 4) [
      | found val ↦ elim (switch val) [
        | none ↦ bad
        | some on ↦ (
          reply h.cap 200 (
              codes "{\"ok\":true,\"ring_led1\":"
              ++ h.dec (if on then 1 else 0)
              ++ codes ",\"ring_offset\":"
              ++ h.dec dev.settings.mem.ring_offset
              ++ codes "}"),
          leds_locate dev on now_ms,
        )
      ]
      | _ ↦ bad
    ]

-- `what` of the query; an empty text if it is missing or too long.
abbrev pub text_or_empty : Value → List ℕ
text_or_empty (found val) = val
text_or_empty _ = []

-- The reset answers success exactly if the flush that ends it was stored.
unfoldable pub reset_counters :
    Host → HealthStore.Config → Device → List ℕ → ℕ → Bool → Response × Device
reset_counters h k dev what now_ms failed =
    let answer = reply h.cap (if failed then 500 else 200) (
      codes "{\"ok\":" ++ true_text (not failed) ++ codes ",\"reset\":\"" ++ what ++ codes "\"}") in
    if eq_bytes what (codes "button")
    then (
      answer,
      record dev { health = HealthStore.health_reset_button k dev.health now_ms failed },
    )
    else if eq_bytes what (codes "all")
    then (answer, record dev { health = HealthStore.health_reset_all k dev.health now_ms failed })
    else (reply h.cap 400 (error_text (codes "what must be button or all")), dev)

unfoldable pub pstop_api_health_reset :
    Host → HealthStore.Config → Device → List ℕ → Option (List ℕ) → ℕ → Bool → Response × Device
pstop_api_health_reset h k dev url auth now_ms failed = guarded h auth dev (
    if not (http_query_flag url (codes "confirm"))
    then (reply h.cap 400 (error_text (codes "confirm=1 required")), dev)
    else reset_counters h k dev (text_or_empty (http_query_get url (codes "what") 8)) now_ms failed)

-- A response without a body.
abbrev pub plain_ok : Response
plain_ok = record { status = 200; body = []; auth_challenge = false; restart = false }

-- The response and the size of the dump, which the caller sends.
unfoldable pub pstop_api_coredump : Host → Device → Option (List ℕ) → (Response × ℕ) × Device
pstop_api_coredump h dev auth =
    let (rsp, after) = guarded h auth dev (
      if dev.crash == 0
      then (reply h.cap 404 (error_text (codes "no coredump")), dev)
      else (plain_ok, dev)) in
    ((rsp, if rsp.status == 200 then dev.crash else 0), after)

unfoldable pub pstop_api_admin_page : Host → Device → Option (List ℕ) → Response × Device
pstop_api_admin_page h dev auth = guarded h auth dev (plain_ok, dev)

-- Every session starts afresh under a new id.
abbrev pub reconfigure_all : Device → Device
reconfigure_all dev =
    request_reconfigure (request_reconfigure (request_reconfigure (request_reconfigure dev 0) 1) 2)
      3

unfoldable pub settings_body : Host → Device → Response
settings_body h dev = reply h.cap 200 (
    codes "{\"ok\":true,\"ring_offset\":"
    ++ h.dec dev.settings.mem.ring_offset
    ++ codes ",\"device_id\":"
    ++ h.dec (app_settings_effective_device_id dev.settings)
    ++ codes ",\"device_id_pinned\":"
    ++ true_text (not (dev.settings.mem.device_id == 0))
    ++ codes "}")

-- The second member; `failed` tells that its write fails.
unfoldable pub post_device_id : Host → Device → Option ℕ → Bool → Response × Device
post_device_id h dev none failed = (settings_body h dev, dev)
post_device_id h dev (some id) failed =
    let (ret, settings) = app_settings_set_device_id dev.settings id failed in
    let after = record dev { settings = settings } in
    elim ret [
      | done ↦ let all = reconfigure_all after in (settings_body h all, all)
      | bad_argument ↦ (write_error h, after)
      | write_failed ↦ (write_error h, after)
    ]

-- The members of a settings object: the ring offset first; each has its own write.
unfoldable pub post_settings :
    Host → Device → Option ℕ × Option ℕ → (fails_first fails_second : Bool) → Response × Device
post_settings h dev (none, none) fails_first fails_second = (
  reply h.cap 400 (error_text (codes "expected a JSON object with ring_offset and/or device_id")),
  dev,
)
post_settings h dev (none, some id) fails_first fails_second =
    post_device_id h dev (some id) fails_second
post_settings h dev (some offset, id) fails_first fails_second =
    let (ret, settings) = app_settings_set_ring_offset dev.settings offset fails_first in
    let after = record dev { settings = settings } in
    let rest = post_device_id h after id fails_second in
    if ltb 15 offset
    then (reply h.cap 400 (error_text (codes "ring_offset must be 0..15")), dev)
    else elim ret [
      | done ↦ rest
      | bad_argument ↦ (write_error h, after)
      | write_failed ↦ (write_error h, after)
    ]

abbrev pub members : Option (Option ℕ × Option ℕ) → Option ℕ × Option ℕ
members none = (none, none)
members (some found_members) = found_members

unfoldable pub pstop_api_admin_settings :
    Host
    → Device
    → (post : Bool) → List ℕ
    → Option (List ℕ)
    → (fails_first fails_second : Bool) → Response × Device
pstop_api_admin_settings h dev post body auth fails_first fails_second = guarded h auth dev (
    if post
    then post_settings h dev (members (h.settings_json body)) fails_first fails_second
    else (settings_body h dev, dev))

-- pstop_verbose_set of verbose.c: without the filters, switching on is an error.
abbrev pub pstop_verbose_set : Host → Device → Bool → Bool × Device
pstop_verbose_set h dev on =
    if h.filtering then (true, record dev { verbose = on }) else (not on, dev)

unfoldable pub pstop_api_admin_verbose :
    Host → Device → (toggle : Bool) → Option (List ℕ) → Response × Device
pstop_api_admin_verbose h dev toggle auth =
    let (set_ok, after) = pstop_verbose_set h dev (not dev.verbose) in
    let toggled =
      if set_ok
      then reply h.cap 200
          (codes "{\"ok\":true,\"verbose\":" ++ true_text after.verbose ++ codes "}")
      else reply h.cap 501 (error_text (codes "verbose logging not built in")) in
    guarded h auth dev (
      if toggle
      then (toggled, after)
      else (reply h.cap 200 (codes "{\"verbose\":" ++ true_text dev.verbose ++ codes "}"), dev))
