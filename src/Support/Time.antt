-- ===== src/Support/Time.antt =====
-- common/time/app_time.c: the clock is set by SNTP. A handler returns the calls that it makes of the
-- work queue and of the network libraries, whose answers are arguments. The port is not modelled.
pub mod Alive
pub mod Now
pub mod Twice
use zephyr_applications.Common.{
  ℕ, ◌+◌, ◌*◌, ◌/◌, ◌%◌, ◌^◌, Bool, true, false, not, ◌&&◌, ◌||◌, ◌==◌, leb, ltb, if◌then◌else◌,
  List, [], ◌∷◌, ◌++◌, Option, none, some,
}
use zephyr_applications.Common.Int.{ℤ, pos, negsuc}

-- The Kconfig values, what net_ipaddr_parse reads of CONFIG_APP_TIME_SNTP_SERVER, and LONG_MAX.
pub data Family : Type 0 where
  inet inet6 other_family : Family

pub record Server : Type 0 where
  pub family : Family
  pub bytes : List ℕ

pub record Config : Type 0 where
  pub resync_sec : ℕ
  pub retry_sec : ℕ
  pub timeout_ms : ℕ
  pub long_max : ℕ
  pub literal : Option Server
  pub net_ipv4 : Bool
  pub net_ipv6 : Bool
  pub sockaddr_in : ℕ
  pub sockaddr_in6 : ℕ

-- The file's variables; the address is none while it is zeroed.
pub record Clock : Type 0 where
  pub sntp_addr : Option Server
  pub sntp_addrlen : ℕ
  pub started : Bool
  pub synced : Bool
  pub ipv4_up : Bool

pub data Call : Type 0 where
  schedule_sync : Call
  reschedule_sync : (seconds : ℕ) → Call
  reschedule_timeout : (ms : ℕ) → Call
  cancel_timeout close_service send_query start_dns : Call
  init_query : Option Server → ℕ → Call
  set_realtime : (tv_sec tv_nsec : ℕ) → Call

-- l4_handler, with whether the event is the one of a connection.
abbrev pub l4_handler : Clock → Bool → Clock × List Call
l4_handler st connected =
    (record st { ipv4_up = connected }, if connected then schedule_sync ∷ [] else [])

abbrev pub sntp_fraction_to_nsec : ℕ → ℕ
sntp_fraction_to_nsec fraction = fraction * 1000000000 / 2 ^ 32 % 2 ^ 32

abbrev pub schedule_next : Config → Bool → Call
schedule_next cfg success = reschedule_sync (if success then cfg.resync_sec else cfg.retry_sec)

-- set_clock_from_sntp, with whether sys_clock_settime fails: the calls, and whether it is set.
unfoldable pub set_clock_from_sntp :
    Config → Clock → (seconds fraction : ℕ) → Bool → Clock × List Call × Bool
set_clock_from_sntp cfg st seconds fraction failed =
    let calls = set_realtime seconds (sntp_fraction_to_nsec fraction) ∷ [] in
    if ltb cfg.long_max seconds
    then (st, [], false)
    else if failed
    then (st, calls, false)
    else (record st { synced = true }, calls, true)

-- What the libraries answer where a query starts.
pub record Answers : Type 0 where
  pub init_fails : Bool
  pub send_fails : Bool
  pub dns_fails : Bool
  pub port_fails : Bool

-- start_sntp_query: the calls, and whether it fails.
unfoldable pub start_sntp_query : Config → Clock → Answers → List Call × Bool
start_sntp_query cfg st a =
    let init = init_query st.sntp_addr st.sntp_addrlen in
    if a.init_fails
    then (init ∷ [], true)
    else if a.send_fails
    then (init ∷ send_query ∷ close_service ∷ [], true)
    else (init ∷ send_query ∷ reschedule_timeout cfg.timeout_ms ∷ [], false)

-- A query that cannot start is tried again later.
abbrev pub start_or_retry : Config → Clock → Answers → List Call
start_or_retry cfg st a =
    let (calls, failed) = start_sntp_query cfg st a in
    calls ++ (if failed then schedule_next cfg false ∷ [] else [])

abbrev pub no_address : Clock → Clock
no_address st = record st { sntp_addr = none; sntp_addrlen = 0 }

-- The length for a family that is built in.
abbrev pub family_len : Config → Family → Option ℕ
family_len cfg inet = if cfg.net_ipv4 then some cfg.sockaddr_in else none
family_len cfg inet6 = if cfg.net_ipv6 then some cfg.sockaddr_in6 else none
family_len cfg other_family = none

unfoldable pub parse_sntp_server_addr : Config → Clock → Answers → Clock × Bool
parse_sntp_server_addr cfg st a = elim cfg.literal [
  | none ↦ (no_address st, false)
  | some server ↦ elim (family_len cfg server.family) [
    | none ↦ (record st { sntp_addr = some server; sntp_addrlen = 0 }, false)
    | some len ↦ (record st { sntp_addr = some server; sntp_addrlen = len }, not a.port_fails)
  ]
]

pub data Status : Type 0 where
  canceled fail all_done in_progress other_status : Status

pub record Info : Type 0 where
  pub server : Server
  pub ai_addrlen : ℕ

abbrev pub is_inet : Family → Bool
is_inet inet = true
is_inet inet6 = false
is_inet other_family = false

-- dns_result_cb with an address: the first one of IPv4 is kept.
abbrev pub take_address : Config → Clock → Option Info → Clock
take_address cfg st none = st
take_address cfg st (some info) =
    if not (st.sntp_addrlen == 0)
    then st
    else if cfg.net_ipv4 && is_inet info.server.family
    then record st { sntp_addr = some info.server; sntp_addrlen = info.ai_addrlen }
    else st

unfoldable pub dns_result_cb : Config → Clock → Answers → Status → Option Info → Clock × List Call
dns_result_cb cfg st a canceled info = (st, schedule_next cfg false ∷ [])
dns_result_cb cfg st a fail info = (st, schedule_next cfg false ∷ [])
dns_result_cb cfg st a all_done info =
    let query = start_or_retry cfg st a in
    (st, if st.sntp_addrlen == 0 then schedule_next cfg false ∷ [] else query)
dns_result_cb cfg st a in_progress info = (take_address cfg st info, [])
dns_result_cb cfg st a other_status info = (st, [])

unfoldable pub sync_work_handler : Config → Clock → Answers → Clock × List Call
sync_work_handler cfg st a =
    let (parsed, is_literal) = parse_sntp_server_addr cfg st a in
    if not st.ipv4_up
    then (st, schedule_next cfg false ∷ [])
    else if is_literal
    then (parsed, start_or_retry cfg parsed a)
    else (no_address parsed, start_dns ∷ (if a.dns_fails then schedule_next cfg false ∷ [] else []))

abbrev pub sntp_timeout_handler : Config → Clock → Clock × List Call
sntp_timeout_handler cfg st = (st, close_service ∷ schedule_next cfg false ∷ [])

-- sntp_service_handler, with what sntp_read_async reads, none for an error.
unfoldable pub sntp_service_handler : Config → Clock → Option (ℕ × ℕ) → Bool → Clock × List Call
sntp_service_handler cfg st none failed =
    (st, close_service ∷ cancel_timeout ∷ schedule_next cfg false ∷ [])
sntp_service_handler cfg st (some (seconds, fraction)) failed =
    let (after, calls, success) = set_clock_from_sntp cfg st seconds fraction failed in
    (after, calls ++ (close_service ∷ cancel_timeout ∷ schedule_next cfg success ∷ []))

-- app_time_start: whether the callback is registered, and the status asked for again.
unfoldable pub app_time_start : Clock → Clock × Bool
app_time_start st = (record st { started = true }, not st.started)

-- app_time_now, with what sys_clock_gettime reads, none for an error.
unfoldable pub app_time_now : Clock → Option (ℤ × ℤ) → ℕ × ℕ
app_time_now st none = (0, 0)
app_time_now st (some (pos sec, pos nsec)) =
    if not st.synced || leb (2 ^ 32) sec || leb 1000000000 nsec then (0, 0) else (sec, nsec)
app_time_now st (some (pos sec, negsuc n)) = (0, 0)
app_time_now st (some (negsuc n, nsec)) = (0, 0)
