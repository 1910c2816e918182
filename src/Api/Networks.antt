-- ===== src/Api/Networks.antt =====
-- api.c: the list of stored networks, plain_string to pstop_api_admin_wifi.
use zephyr_applications.Common.{
  inr, ◌⊎◌, inl, ℕ, Bool, true, false, not, ◌||◌, ◌==◌, ltb, if◌then◌else◌, List, [], ◌∷◌, ◌++◌,
  Option, none, some, length, replicate, drop,
}
use zephyr_applications.Common.Text.{codes}
use zephyr_applications.Lockstep.Defs.{eq_bytes}
use zephyr_applications.Settings.{
  WifiNet, no_net, done, bad_argument, write_failed, app_settings_wifi_set_all, wifi_max,
}
use zephyr_applications.Wifi.{pstop_wifi_reload, is_empty}
use zephyr_applications.Api.{
  Host, Device, Response, Out, empty_out, out_printf, finish, reply, guarded, error_text,
}
use zephyr_applications.Api.Admin.{write_error}

-- WIFI_MASK
abbrev pub wifi_mask : List ℕ
wifi_mask = codes "********"

unfoldable pub plain_string : List ℕ → Bool
plain_string [] = true
plain_string (c ∷ s) =
    let rest = plain_string s in if c == b'"' || c == b'\\' || ltb c 32 then false else rest

-- The password that is stored for a name: the entries in order, the first that has it.
unfoldable pub stored_pass : List WifiNet → List ℕ → List ℕ
stored_pass [] ssid = []
stored_pass (net ∷ nets) ssid =
    let later = stored_pass nets ssid in if eq_bytes net.ssid ssid then net.pass else later

abbrev pub ssid_ok : List ℕ → Bool
ssid_ok ssid = not (is_empty ssid || ltb 32 (length ssid) || not (plain_string ssid))

abbrev pub pass_ok : List ℕ → Bool
pass_ok pass =
    is_empty pass || not (ltb (length pass) 8 || ltb 64 (length pass) || not (plain_string pass))

-- One network of the request: what is stored for it, or the text of the error.
unfoldable pub net_from_json : List WifiNet → Option (List ℕ) × Option (List ℕ) → List ℕ ⊎ WifiNet
net_from_json old (none, pass) = inl (codes "ssid must be 1..32 plain characters")
net_from_json old (some ssid, pass) =
    let given : List ℕ = elim pass [ none ↦ [] | some p ↦ p ] in
    if not (ssid_ok ssid)
    then inl (codes "ssid must be 1..32 plain characters")
    else if eq_bytes given wifi_mask
    then inr (record { ssid = ssid; pass = stored_pass old ssid })
    else if not (pass_ok given)
    then inl (codes "pass must be empty (open network) or 8..64 plain characters")
    else inr (record { ssid = ssid; pass = given })

unfoldable pub nets_from_json :
    List WifiNet → List (Option (List ℕ) × Option (List ℕ)) → List ℕ ⊎ List WifiNet
nets_from_json old [] = inr []
nets_from_json old (net ∷ more) = elim (net_from_json old net) [
  | inl err ↦ inl err
  | inr new ↦ elim (nets_from_json old more) [ inl err ↦ inl err | inr rest ↦ inr (new ∷ rest) ]
]

-- wifi_from_json: the entries behind the last network are empty.
unfoldable pub wifi_from_json :
    List WifiNet → List (Option (List ℕ) × Option (List ℕ)) → List ℕ ⊎ List WifiNet
wifi_from_json old networks = elim (nets_from_json old networks) [
  | inl err ↦ inl err
  | inr nets ↦ inr (nets ++ drop (length nets) (replicate wifi_max no_net))
]

-- One round of the loop that prints the list; an entry without a name is passed over.
unfoldable pub print_net : ℕ → Out × Bool → WifiNet → Out × Bool
print_net cap (o, first) net =
    let comma = if first then [] else codes "," in
    let shown = if is_empty net.pass then [] else wifi_mask in
    let text =
      comma ++ codes "{\"ssid\":\"" ++ net.ssid ++ codes "\",\"pass\":\"" ++ shown ++ codes "\"}" in
    if is_empty net.ssid then (o, first) else (out_printf cap o text, false)

unfoldable pub print_nets : ℕ → Out × Bool → List WifiNet → Out × Bool
print_nets cap o [] = o
print_nets cap o (net ∷ nets) = print_nets cap (print_net cap o net) nets

-- "%d" of the entry that is joined, -1 for none
abbrev pub idx_text : Host → Option ℕ → List ℕ
idx_text h none = codes "-1"
idx_text h (some i) = h.dec i

unfoldable pub wifi_body : Host → Device → Response
wifi_body h dev =
    let opened = out_printf h.cap empty_out (codes "{\"ok\":true,\"networks\":[") in
    let (listed, first) = print_nets h.cap (opened, true) dev.settings.mem.wifi in
    let closed =
      out_printf h.cap listed
        (codes "],\"active_idx\":" ++ idx_text h dev.wifi.active_idx ++ codes "}") in
    finish h.cap closed 200

-- `writes` counts the writes of entries that succeed before one fails.
unfoldable pub post_wifi : Host → Device → List ℕ → ℕ → Response × Device
post_wifi h dev body writes = elim (h.wifi_json body) [
  | none ↦ (
    reply h.cap 400
        (error_text (codes "expected {\\\"networks\\\":[{\\\"ssid\\\",\\\"pass\\\"}]}, at most 4")),
    dev,
  )
  | some networks ↦ elim (wifi_from_json dev.settings.mem.wifi networks) [
    | inl err ↦ (reply h.cap 400 (error_text err), dev)
    | inr nets ↦
        let (ret, settings) = app_settings_wifi_set_all dev.settings nets writes in
        let after = record dev { settings = settings } in
        let reloaded = record after { wifi = pstop_wifi_reload dev.wifi } in
        elim ret [
          | done ↦ (wifi_body h reloaded, reloaded)
          | bad_argument ↦ (write_error h, after)
          | write_failed ↦ (write_error h, after)
        ]
  ]
]

unfoldable pub pstop_api_admin_wifi :
    Host → Device → (post : Bool) → List ℕ → Option (List ℕ) → ℕ → Response × Device
pstop_api_admin_wifi h dev post body auth writes =
    guarded h auth dev (if post then post_wifi h dev body writes else (wifi_body h dev, dev))
