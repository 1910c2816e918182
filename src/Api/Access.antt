-- ===== src/Api/Access.antt =====
-- The routes behind the administrator's password.
use zephyr_applications.Wifi.{is_empty}
use zephyr_applications.Common.Text.{codes}
use zephyr_applications.Common.{
  ap, List-cases, ◌<◌, if◌then◌else◌, ℕ, ◌≡◌, inl, inr, Bool, true, false, List, Option, some,
  arith,
}
use zephyr_applications.Http.Auth.{http_basic_auth_ok}
use zephyr_applications.Health.Store as HealthStore
use zephyr_applications.Api.{Host, Device, Response, admin_ok, admin_user, reply, finish}
use zephyr_applications.Api.Admin.{
  pstop_api_role, pstop_api_admin_status, pstop_api_admin_restart, pstop_api_health_reset,
  pstop_api_coredump, pstop_api_admin_page, pstop_api_admin_settings, pstop_api_admin_verbose,
}
use zephyr_applications.Api.Networks.{pstop_api_admin_wifi}

-- A request to one of the routes, with the answers that its writes get.
pub data AdminRequest : Type 0 where
  role_request : (post : Bool) → (url : List ℕ) → (failed : Bool) → AdminRequest
  status_request : (fw_ver fw_sha : List ℕ) → (uptime : ℕ) → AdminRequest
  restart_request : AdminRequest
  health_reset_request : (url : List ℕ) → (now_ms : ℕ) → (failed : Bool) → AdminRequest
  coredump_request : AdminRequest
  page_request : AdminRequest
  settings_request :
      (post : Bool) → (body : List ℕ) → (fails_first fails_second : Bool) → AdminRequest
  wifi_request : (post : Bool) → (body : List ℕ) → (writes : ℕ) → AdminRequest
  verbose_request : (toggle : Bool) → AdminRequest

abbrev pub serve :
    Host → HealthStore.Config → Device → Option (List ℕ) → AdminRequest → Response × Device
serve h k dev auth (role_request post url failed) = pstop_api_role h dev post url auth failed
serve h k dev auth (status_request fw_ver fw_sha uptime) =
    pstop_api_admin_status h dev auth fw_ver fw_sha uptime
serve h k dev auth restart_request = pstop_api_admin_restart h dev auth
serve h k dev auth (health_reset_request url now_ms failed) =
    pstop_api_health_reset h k dev url auth now_ms failed
serve h k dev auth coredump_request =
    let ((rsp, size), after) = pstop_api_coredump h dev auth in (rsp, after)
serve h k dev auth page_request = pstop_api_admin_page h dev auth
serve h k dev auth (settings_request post body fails_first fails_second) =
    pstop_api_admin_settings h dev post body auth fails_first fails_second
serve h k dev auth (wifi_request post body writes) =
    pstop_api_admin_wifi h dev post body auth writes
serve h k dev auth (verbose_request toggle) = pstop_api_admin_verbose h dev toggle auth

-- The credentials of a header are right: there is a password and the header gives it.
abbrev pub credentials_right : Host → Option (List ℕ) → Bool
credentials_right h auth = http_basic_auth_ok h.decode auth admin_user h.password

-- The answer without right credentials, which asks for them only if some can be right.
abbrev pub refusal : Host → Response
refusal h =
    if is_empty h.password
    then record {
      status = 403;
      body = codes "{\"ok\":false,\"error\":\"admin disabled: no password configured\"}";
      auth_challenge = false;
      restart = false;
    }
    else record {
      status = 401;
      body = codes "{\"ok\":false,\"error\":\"unauthorized\"}";
      auth_challenge = true;
      restart = false;
    }

admin_ok-refusal :
    (h : Host) (auth : Option (List ℕ))
    → 100 < h.cap
    → credentials_right h auth ≡ false
    → admin_ok h auth ≡ some (refusal h)
unfolding admin_ok reply finish
admin_ok-refusal h auth big wrong = elim (List-cases h.password) [
  | inl e ↦ ground (arith, e, big)
  | inr (p, ps, e) ↦ ground (arith, e, big, wrong)
]

coredump-refusal :
    (h : Host) (dev : Device) (auth : Option (List ℕ))
    → admin_ok h auth ≡ some (refusal h)
    → pstop_api_coredump h dev auth ≡ ((refusal h, 0), dev)
unfolding pstop_api_coredump
coredump-refusal h dev auth e = elim (List-cases h.password) [
  | inl n ↦ ground (arith, e, n)
  | inr (p, ps, n) ↦ ground (arith, e, n)
]

-- Without the administrator's credentials no route behind the password does anything: the firmware's
-- state is what it was, no restart is ordered, no core dump is sent, and the answer is 403 if no
-- password is configured and otherwise 401 with the challenge. The response buffer has more than 100
-- bytes.
pub serve-refusal :
    (h : Host) (k : HealthStore.Config) (dev : Device) (auth : Option (List ℕ)) (req : AdminRequest)
    → 100 < h.cap
    → credentials_right h auth ≡ false
    → (serve h k dev auth req ≡ (refusal h, dev)) × ((pstop_api_coredump h dev auth).0.1 ≡ 0)
unfolding pstop_api_role pstop_api_admin_status pstop_api_admin_restart pstop_api_health_reset
    pstop_api_admin_page pstop_api_admin_settings pstop_api_admin_verbose pstop_api_admin_wifi
serve-refusal h k dev auth req big wrong =
    (refused req, ap (λ r. r.0.1) (coredump-refusal h dev auth none_let_in))
  where
    none_let_in : admin_ok h auth ≡ some (refusal h)
    none_let_in = admin_ok-refusal h auth big wrong

    refused : (req : AdminRequest) → serve h k dev auth req ≡ (refusal h, dev)
    refused (role_request post url failed) = ground (arith, none_let_in)
    refused (status_request fw_ver fw_sha uptime) = ground (arith, none_let_in)
    refused restart_request = ground (arith, none_let_in)
    refused (health_reset_request url now_ms failed) = ground (arith, none_let_in)
    refused coredump_request = ap (λ r. (r.0.0, r.1)) (coredump-refusal h dev auth none_let_in)
    refused page_request = ground (arith, none_let_in)
    refused (settings_request post body fails_first fails_second) = ground (arith, none_let_in)
    refused (wifi_request post body writes) = ground (arith, none_let_in)
    refused (verbose_request toggle) = ground (arith, none_let_in)
