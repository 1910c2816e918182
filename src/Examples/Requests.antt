-- ===== src/Examples/Requests.antt =====
-- Requests to the HTTP interface of a remote.
use zephyr_applications.Common.{
  ℕ, true, false, List, [], ◌∷◌, arith, ◌≡◌, ◌≢◌, refl, inr, ◌+◌, length, ltb, if◌then◌else◌,
  Option, none, some, All,
}
use zephyr_applications.Common.Text.{codes}
use zephyr_applications.Common.{replicate, ◌++◌, ◌↔◌}
use zephyr_applications.Lockstep.Defs.{eq_bytes}
use zephyr_applications.Http.Query.{http_query_get}
use zephyr_applications.Http.Query.Pairs.{http_query_get-query_text, query_text, first_value}
use zephyr_applications.Http.Auth.{
  credentials_ok, diff_of, http_basic_auth_ok, behind, credentials_ok,
}
use zephyr_applications.Http.Auth.Meaning.{http_basic_auth_ok_lem}
use zephyr_applications.Settings.{WifiNet, no_net, blank}
use zephyr_applications.Wifi.{wifi_init}
use zephyr_applications.Health.Edge.{edge_init}
use zephyr_applications.Health.Store.{Config, Store, no_counters, no_warnings}
use zephyr_applications.Api.{Host, Device, finish, empty_out, too_large}
use zephyr_applications.Api.Whole.{finish-printed, printed, joined}
use zephyr_applications.Api.Admin.{pstop_api_coredump}
use zephyr_applications.Api.Access.{AdminRequest, serve, refusal, credentials_right, serve-refusal}
use zephyr_applications.Api.Networks.{pstop_api_admin_wifi, wifi_from_json, plain_string}
use zephyr_applications.Api.Masked.{
  pstop_api_admin_wifi-Alike, listed_back, list_head, list_tail, masked, given, IsNamed,
}
use zephyr_applications.Api.{admin_ok, out_printf}
use zephyr_applications.Api.Networks.{wifi_body, print_nets, print_net}
use zephyr_applications.Api.Slots.{pstop_api_pstop_peer, pstop_api_pstop_peers}
use zephyr_applications.Api.Reconfigure.{IsTold, pstop_api_pstop_peers-IsTold}

abbrev host : Host
host = record {
  password = codes "secret";
  decode = λ text.
      if eq_bytes text (codes "YWRtaW46c2VjcmV0") then some (codes "admin:secret") else none;
  dec = λ n. (48 + n) ∷ [];
  settings_json = λ body. none;
  wifi_json = λ body. some [];
  cap = 1024;
  filtering = true;
}

abbrev right_header : List ℕ
right_header = codes "Basic YWRtaW46c2VjcmV0"

abbrev wrong_header : List ℕ
wrong_header = codes "Basic YWRtaW46"

wrong : credentials_right host (some wrong_header) ≡ false
unfolding http_basic_auth_ok behind eq_bytes
wrong = refl

abbrev home : WifiNet
home = record { ssid = codes "home"; pass = codes "longenough" }

abbrev office : WifiNet
office = record { ssid = codes "office"; pass = [] }

named : All IsNamed (home ∷ office ∷ [])
unfolding plain_string
named = (refl, (refl, tt))

abbrev config : Config
config = record {
  button_rated_ops = 100000;
  button_warn_pct = 80;
  mismatch_warn_min = 50;
  mismatch_warn_per_1000 = 20;
  flush_min_s = 60;
  flush_max_s = 600;
  fw = replicate 8 1;
  stop_code = 2;
  button_msg = λ pct. pct ∷ [];
  mismatch_msg = λ m p. m ∷ p ∷ [];
}

abbrev store : Store
store = record {
  counters = no_counters;
  board = no_warnings;
  dirty = false;
  uptime_at_boot_s = 0;
  last_flush_ms = 0;
  flushes = 0;
  flush_fails = 0;
  edge = edge_init;
  press_delta = 0;
  mismatch_delta = 0;
  saved = none;
}

abbrev remote_with : List WifiNet → Device
remote_with nets = record {
  settings = record { mem = record (blank 16777221) { wifi = nets }; saved = [] };
  reconfigure = replicate 4 false;
  rebond = replicate 4 false;
  active = replicate 4 false;
  wifi = record wifi_init { active_idx = some 0; trying = some 0 };
  health = store;
  locate_until_ms = 0;
  verbose = false;
  crash = 4096;
}

abbrev remote : Device
remote = remote_with (home ∷ office ∷ no_net ∷ no_net ∷ [])

-- A JSON library that reads the list.
abbrev reader : Host
reader = record host { wifi_json = λ body. some (given (masked (home ∷ office ∷ []))) }

let_in : admin_ok reader (some right_header) ≡ none
unfolding admin_ok http_basic_auth_ok behind eq_bytes credentials_ok diff_of
let_in = refl

listed : (pstop_api_admin_wifi reader remote false [] (some right_header) 4).0.status ≡ 200
unfolding pstop_api_admin_wifi admin_ok http_basic_auth_ok behind eq_bytes wifi_body print_nets
    print_net out_printf finish credentials_ok diff_of
listed = refl

-- The same names, another password.
abbrev repainted : Device
repainted = remote_with (record home { pass = codes "quite other" } ∷ office ∷ no_net ∷ no_net ∷ [])

http_query_get-query_text_example :
    http_query_get
      ((codes "/api/pstop_peers")
        ++ (b'?' ∷ query_text (codes "ip", codes "10.0.0.7") ((codes "port", codes "8890") ∷ [])))
      (codes "port")
      24
    ≡ first_value
        (codes "port")
        24
        ((codes "ip", codes "10.0.0.7") ∷ ((codes "port", codes "8890") ∷ []))
http_query_get-query_text_example =
    http_query_get-query_text (codes "/api/pstop_peers") (codes "port") 24
      (codes "ip", codes "10.0.0.7") ((codes "port", codes "8890") ∷ []) (ground arith)
      (ground arith) (ground arith)
      (record { key_plain = ground arith; key_no_amp = ground arith; value_no_amp = ground arith })
      (
        record { key_plain = ground arith; key_no_amp = ground arith; value_no_amp = ground arith },
        tt,
      )

http_basic_auth_ok_lem_example :
    (http_basic_auth_ok host.decode (some right_header) (codes "admin") (codes "secret") ≡ true) ↔ (
      (text : List ℕ) × (right_header ≡ codes "Basic " ++ text)
      × (host.decode text ≡ some ((codes "admin") ++ (b':' ∷ (codes "secret"))))
      × ((codes "secret") ≢ []))
http_basic_auth_ok_lem_example =
    http_basic_auth_ok_lem host.decode right_header (codes "admin") (codes "secret")

finish-printed_example :
    finish 64 (printed 64 empty_out (codes "[" ∷ codes "1" ∷ codes "]" ∷ [])) 200 ≡ (
      if ltb (length (joined (codes "[" ∷ codes "1" ∷ codes "]" ∷ []))) 64
      then record {
        status = 200;
        body = joined (codes "[" ∷ codes "1" ∷ codes "]" ∷ []);
        auth_challenge = false;
        restart = false;
      }
      else record { status = 500; body = too_large; auth_challenge = false; restart = false })
finish-printed_example =
    finish-printed 64 200 (codes "[" ∷ codes "1" ∷ codes "]" ∷ []) (ground arith)

serve-refusal_example :
    (serve host config remote (some wrong_header) (AdminRequest.wifi_request true (codes "{}") 4)
      ≡ (refusal host, remote))
    × ((pstop_api_coredump host remote (some wrong_header)).0.1 ≡ 0)
serve-refusal_example =
    serve-refusal host config remote (some wrong_header)
      (AdminRequest.wifi_request true (codes "{}") 4) (ground arith) wrong

pstop_api_admin_wifi-Alike_example :
    (pstop_api_admin_wifi host remote false ([]) (some right_header) 4).0
    ≡ (pstop_api_admin_wifi host repainted false ([]) (some right_header) 4).0
pstop_api_admin_wifi-Alike_example =
    pstop_api_admin_wifi-Alike host remote repainted ([]) (some right_header) 4
      (refl, refl, (refl, refl, (refl, refl, (refl, refl, tt)))) refl

listed_back_example :
    (list : List ℕ) × (networks : List (Option (List ℕ) × Option (List ℕ))) × ((pstop_api_admin_wifi
        reader remote false []
        (some right_header)
        4).0.body
      ≡ list_head ++ (list ++ list_tail reader remote.wifi.active_idx))
    × (reader.wifi_json (codes "{\"networks\":[" ++ (list ++ codes "]}")) ≡ some networks)
    × (wifi_from_json remote.settings.mem.wifi networks ≡ inr remote.settings.mem.wifi)
listed_back_example =
    listed_back reader remote (some right_header) 4 2 (home ∷ office ∷ []) refl refl named
      (((λ e. ground (arith, e)), tt), (tt, tt)) refl (ground arith) let_in listed

pstop_api_pstop_peers-IsTold_example :
    IsTold 2 remote
      (pstop_api_pstop_peers host remote
        (codes "/api/pstop_peers?slot=2&ip=10.0.0.7&port=8890")
        false).1
    × IsTold 2 remote
        (pstop_api_pstop_peer host remote
          (codes "/api/pstop_peers?slot=2&ip=10.0.0.7&port=8890")
          false).1
pstop_api_pstop_peers-IsTold_example =
    pstop_api_pstop_peers-IsTold host remote (codes "/api/pstop_peers?slot=2&ip=10.0.0.7&port=8890")
      false 2 refl
