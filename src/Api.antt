-- ===== src/Api.antt =====
-- api.c: what the handlers share. A response body is built by an appender that never sends a text
-- cut short, and every administrative handler asks for the credentials first. What snprintf prints
-- for `%u`, the base64 decoder and the JSON parser are the libraries': members of `Host`.
pub mod Whole
pub mod Slots
pub mod Admin
pub mod Networks
pub mod Access
pub mod Masked
pub mod Reconfigure
use zephyr_applications.Common.{
  ℕ, ◌+◌, ◌-◌, ◌*◌, ◌/◌, ◌%◌, ◌^◌, Bool, true, false, not, ◌||◌, leb, if◌then◌else◌, List, [], ◌∷◌,
  ◌++◌, Option, none, some, length, set,
}
use zephyr_applications.Common.Text.{codes}
use zephyr_applications.Http.Auth.{http_basic_auth_ok}
use zephyr_applications.Settings.{Settings}
use zephyr_applications.Wifi.{Wifi}
use zephyr_applications.Health.Store as HealthStore

-- struct out, its `cap` apart: what is in the buffer, and whether something did not fit.
pub record Out : Type 0 where
  pub text : List ℕ
  pub overflow : Bool

abbrev pub empty_out : Out
empty_out = record { text = []; overflow = false }

-- out_printf; `piece` is what vsnprintf would print into a buffer that is large enough.
unfoldable pub out_printf : ℕ → Out → List ℕ → Out
out_printf cap o piece =
    if o.overflow
    then o
    else if leb (cap - length o.text) (length piece)
    then record o { overflow = true }
    else record o { text = o.text ++ piece }

-- struct pstop_api_response and the body that it tells the length of.
pub record Response : Type 0 where
  pub status : ℕ
  pub body : List ℕ
  pub auth_challenge : Bool
  pub restart : Bool

abbrev pub too_large : List ℕ
too_large = codes "{\"ok\":false,\"error\":\"response too large\"}"

unfoldable pub finish : ℕ → Out → ℕ → Response
finish cap o status =
    let replaced = out_printf cap empty_out too_large in
    if o.overflow
    then record { status = 500; body = replaced.text; auth_challenge = false; restart = false }
    else record { status = status; body = o.text; auth_challenge = false; restart = false }

unfoldable pub reply : ℕ → ℕ → List ℕ → Response
reply cap status body =
    finish cap
      (if leb cap (length body)
        then record { text = []; overflow = true }
        else record { text = body; overflow = false })
      status

-- What the handlers take from the build and from the libraries: the administrator's password
-- (CONFIG_PROTECTIVE_STOP_ADMIN_PASSWORD), the base64 decoder, the decimal digits that snprintf
-- prints, the members that json_obj_parse found in a settings object (none if it reports an error)
-- and in a list of networks (none if that is not the member it found), the capacity of the response
-- buffer, and whether runtime log filtering is built in.
pub record Host : Type 0 where
  pub password : List ℕ
  pub decode : List ℕ → Option (List ℕ)
  pub dec : ℕ → List ℕ
  pub settings_json : List ℕ → Option (Option ℕ × Option ℕ)
  pub wifi_json : List ℕ → Option (List (Option (List ℕ) × Option (List ℕ)))
  pub cap : ℕ
  pub filtering : Bool

-- The state of the firmware that the handlers read and change. `reconfigure` and `rebond` are the
-- comparator's request bits; `crash` is the size of the stored core dump.
pub record Device : Type 0 where
  pub settings : Settings
  pub reconfigure : List Bool
  pub rebond : List Bool
  pub active : List Bool
  pub wifi : Wifi
  pub health : HealthStore.Store
  pub locate_until_ms : ℕ
  pub verbose : Bool
  pub crash : ℕ

-- PSTOP_API_ADMIN_USER
abbrev pub admin_user : List ℕ
admin_user = codes "admin"

-- admin_ok: none lets the request through.
unfoldable pub admin_ok : Host → Option (List ℕ) → Option Response
admin_ok h auth = elim h.password [
  | [] ↦ some (
      reply h.cap 403 (codes "{\"ok\":false,\"error\":\"admin disabled: no password configured\"}"))
  | p ∷ ps ↦
      if http_basic_auth_ok h.decode auth admin_user (p ∷ ps)
      then none
      else some (record (reply h.cap 401 (codes "{\"ok\":false,\"error\":\"unauthorized\"}")) {
        auth_challenge = true;
      })
]

-- A handler behind admin_ok.
abbrev pub guarded : Host → Option (List ℕ) → Device → Response × Device → Response × Device
guarded h auth dev served = elim (admin_ok h auth) [ some refusal ↦ (refusal, dev) | none ↦ served ]

abbrev pub request_reconfigure : Device → ℕ → Device
request_reconfigure dev slot = record dev { reconfigure = set dev.reconfigure slot true }

abbrev pub request_rebond : Device → ℕ → Device
request_rebond dev slot = record dev { rebond = set dev.rebond slot true }

abbrev pub true_text : Bool → List ℕ
true_text true = codes "true"
true_text false = codes "false"

-- "%u.%u.%u.%u" of an address in host byte order
abbrev pub dotted : Host → ℕ → List ℕ
dotted h ip =
    h.dec (ip / 2 ^ 24 % 256)
    ++ codes "."
    ++ h.dec (ip / 2 ^ 16 % 256)
    ++ codes "."
    ++ h.dec (ip / 2 ^ 8 % 256)
    ++ codes "."
    ++ h.dec (ip % 256)

abbrev pub error_text : List ℕ → List ℕ
error_text err = codes "{\"ok\":false,\"error\":\"" ++ err ++ codes "\"}"
