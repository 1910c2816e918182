-- ===== src/Api/Masked.antt =====
-- The list of networks as it is shown and sent back.
use zephyr_applications.Common.Text.{codes}
use zephyr_applications.Common.{
  Bool-cases, ltb, ap₂, ◌⊎◌, ◌<◌, ◌+◌, zero, suc, sym, none, append_assoc, append-nil, inl, false,
  replicate, List-cases, length, inr, map, drop, Option-cases, ℕ, ◌≡◌, ◌≢◌, refl, ap, ◌∙◌, Bool,
  true, List, [], ◌∷◌, ◌++◌, Option, some, All, arith, if◌then◌else◌,
}
use zephyr_applications.Lockstep.Compare.{eq_bytes→eq, eq_bytes_refl}
use zephyr_applications.Settings.{no_net, WifiNet}
use zephyr_applications.Wifi.{is_empty}
use zephyr_applications.Api.Whole.{printed, joined, finish-printed}
use zephyr_applications.Api.{
  too_large, finish, out_printf, false, Device, length, Host, empty_out, admin_ok, Out,
}
use zephyr_applications.Api.Networks.{
  wifi_body, net_from_json, nets_from_json, wifi_from_json, pstop_api_admin_wifi, wifi_mask,
  stored_pass, ssid_ok, print_net, print_nets, idx_text,
}

-- A network as the list shows it: the mask in the place of the password.
abbrev pub shown : WifiNet → Option (List ℕ) × Option (List ℕ)
shown net = (some net.ssid, some (if is_empty net.pass then [] else wifi_mask))

-- No two networks have the same name.
abbrev pub IsDistinct : List WifiNet → Type 0
IsDistinct [] = Unit
IsDistinct (net ∷ nets) = All (λ other. other.ssid ≢ net.ssid) nets × IsDistinct nets

abbrev pub IsNamed : WifiNet → Type 0
IsNamed net = ssid_ok net.ssid ≡ true

-- Two lists that differ in nothing but what the passwords are.
abbrev pub Alike : List WifiNet → List WifiNet → Type 0
Alike [] [] = Unit
Alike [] (b ∷ bs) = ⊥
Alike (a ∷ as') [] = ⊥
Alike (a ∷ as') (b ∷ bs) = (a.ssid ≡ b.ssid) × (is_empty a.pass ≡ is_empty b.pass) × Alike as' bs

print_nets-Alike :
    (cap : ℕ) (o : Out × Bool) (as' bs : List WifiNet)
    → Alike as' bs
    → print_nets cap o as' ≡ print_nets cap o bs
unfolding print_nets print_net
print_nets-Alike cap o [] [] h = refl
print_nets-Alike cap o [] (b ∷ bs) h = absurd h
print_nets-Alike cap o (a ∷ as') [] h = absurd h
print_nets-Alike cap (o, first) (a ∷ as') (b ∷ bs) (e, p, h) =
    let same : print_net cap (o, first) a ≡ print_net cap (o, first) b = ground (arith, e, p) in
    ap (λ x. print_nets cap x as') same ∙ print_nets-Alike cap (print_net cap (o, first) b) as' bs h

-- What a GET of the list shows does not depend on the passwords: two states whose lists have the
-- same names and the same entries without a password, and the same network joined, get the same
-- answer, status and body.
pub pstop_api_admin_wifi-Alike :
    (h : Host) (dev other : Device) (body : List ℕ) (auth : Option (List ℕ)) (writes : ℕ)
    → Alike dev.settings.mem.wifi other.settings.mem.wifi
    → dev.wifi.active_idx ≡ other.wifi.active_idx
    → (pstop_api_admin_wifi h dev false body auth writes).0
      ≡ (pstop_api_admin_wifi h other false body auth writes).0
unfolding pstop_api_admin_wifi wifi_body
pstop_api_admin_wifi-Alike h dev other body auth writes alike joined =
    let opened = out_printf h.cap empty_out (codes "{\"ok\":true,\"networks\":[") in
    let same =
      print_nets-Alike h.cap (opened, true) dev.settings.mem.wifi other.settings.mem.wifi alike in
    elim (Option-cases (admin_ok h auth)) [
      | inl let_in ↦ ground (arith, let_in, same, joined)
      | inr (rsp, refused) ↦ ground (arith, refused)
    ]

-- Every network's password is found under its name.
abbrev AllFound : List WifiNet → List WifiNet → Type 0
AllFound old nets = All (λ net. stored_pass old net.ssid ≡ net.pass) nets

found_behind :
    (first : WifiNet) (old nets : List WifiNet)
    → All (λ other. other.ssid ≢ first.ssid) nets
    → AllFound old nets
    → AllFound (first ∷ old) nets
unfolding stored_pass
found_behind first old [] ne h = tt
found_behind first old (net ∷ nets) ne h = (
  ground (arith, ne.0, h.0, eq_bytes→eq first.ssid net.ssid),
  found_behind first old nets ne.1 h.1,
)

IsDistinct-AllFound : (nets back : List WifiNet) → IsDistinct nets → AllFound (nets ++ back) nets
unfolding stored_pass
IsDistinct-AllFound [] back h = tt
IsDistinct-AllFound (net ∷ nets) back h = (
  ground (arith, eq_bytes_refl net.ssid),
  found_behind net (nets ++ back) nets h.0 (IsDistinct-AllFound nets back h.1),
)

net_from_json-shown :
    (old : List WifiNet) (net : WifiNet)
    → IsNamed net
    → stored_pass old net.ssid ≡ net.pass
    → net_from_json old (shown net) ≡ inr net
unfolding net_from_json
net_from_json-shown old net named found_pass = elim (List-cases net.pass) [
  | inl none_stored ↦ ground (arith, named, none_stored)
  | inr (p, ps, e) ↦ ground (arith, named, found_pass, e, eq_bytes_refl wifi_mask)
]

nets_from_json-shown :
    (old nets : List WifiNet)
    → All IsNamed nets
    → AllFound old nets
    → nets_from_json old (map shown nets) ≡ inr nets
unfolding nets_from_json
nets_from_json-shown old [] named h = refl
nets_from_json-shown old (net ∷ nets) named h =
    ground
      (arith, net_from_json-shown old net named.0 h.0, nets_from_json-shown old nets named.1 h.1)

nets_back :
    (nets : List WifiNet)
    → All IsNamed nets
    → IsDistinct nets
    → (let stored = nets ++ drop (length nets) (replicate 4 no_net) in
        wifi_from_json stored (map shown nets) ≡ inr stored)
unfolding wifi_from_json
nets_back nets named distinct =
    let back = drop (length nets) (replicate 4 no_net) in
    let read =
      nets_from_json-shown (nets ++ back) nets named (IsDistinct-AllFound nets back distinct) in
    ground (arith, read)

-- A JSON object with a name and a password, behind a comma unless it is the first.
abbrev pub json_net : Bool → List ℕ × List ℕ → List ℕ
json_net first (ssid, pass) =
    (if first then [] else codes ",")
    ++ codes "{\"ssid\":\""
    ++ ssid
    ++ codes "\",\"pass\":\""
    ++ pass
    ++ codes "\"}"

abbrev pub json_nets : Bool → List (List ℕ × List ℕ) → List (List ℕ)
json_nets first [] = []
json_nets first (net ∷ nets) = json_net first net ∷ json_nets false nets

-- The pairs that a list of objects gives to the handler.
abbrev pub given : List (List ℕ × List ℕ) → List (Option (List ℕ) × Option (List ℕ))
given [] = []
given ((ssid, pass) ∷ nets) = (some ssid, some pass) ∷ given nets

-- The JSON library reads a request with these objects as what they say.
abbrev pub ReadsList : Host → List (List ℕ × List ℕ) → Type 0
ReadsList h nets =
    h.wifi_json (codes "{\"networks\":[" ++ (joined (json_nets true nets) ++ codes "]}"))
    ≡ some (given nets)

-- The names, with the mask for each password that is not empty.
abbrev pub masked : List WifiNet → List (List ℕ × List ℕ)
masked [] = []
masked (net ∷ nets) = (net.ssid, if is_empty net.pass then [] else wifi_mask) ∷ masked nets

given-masked : (nets : List WifiNet) → given (masked nets) ≡ map shown nets
given-masked [] = refl
given-masked (net ∷ nets) = ap (λ x. shown net ∷ x) (given-masked nets)

IsNamed-is_empty : (net : WifiNet) → IsNamed net → is_empty net.ssid ≡ false
IsNamed-is_empty net h = ground (arith, h)

printed-append :
    (cap : ℕ) (o : Out) (xs ys : List (List ℕ))
    → printed cap o (xs ++ ys) ≡ printed cap (printed cap o xs) ys
printed-append cap o [] ys = refl
printed-append cap o (x ∷ xs) ys = printed-append cap (out_printf cap o x) xs ys

net_printed :
    (cap : ℕ) (o : Out) (first : Bool) (net : WifiNet)
    → IsNamed net
    → print_net cap (o, first) net ≡ (
      out_printf cap o (json_net first (net.ssid, if is_empty net.pass then [] else wifi_mask)),
      false,
    )
unfolding print_net
net_printed cap o first net named = rw (IsNamed-is_empty net named) refl

nobody_printed : (cap n : ℕ) (o : Out × Bool) → print_nets cap o (replicate n no_net) ≡ o
unfolding print_nets print_net
nobody_printed cap zero o = refl
nobody_printed cap (suc n) (o, first) = nobody_printed cap n (o, first)

nets_printed :
    (cap n : ℕ) (o : Out) (first : Bool) (nets : List WifiNet)
    → All IsNamed nets
    → (print_nets cap (o, first) (nets ++ replicate n no_net)).0
      ≡ printed cap o (json_nets first (masked nets))
unfolding print_nets
nets_printed cap n o first [] named = ap {B = Out} (λ x. x.0) (nobody_printed cap n (o, first))
nets_printed cap n o first (net ∷ nets) (named, rest) =
    ap {B = Out} (λ x. (print_nets cap x (nets ++ replicate n no_net)).0)
      (net_printed cap o first net named)
    ∙ nets_printed cap n
        (out_printf cap o (json_net first (net.ssid, if is_empty net.pass then [] else wifi_mask)))
        false nets rest

-- What stands around the list in the body.
abbrev pub list_head : List ℕ
list_head = codes "{\"ok\":true,\"networks\":["

abbrev pub list_tail : Host → Option ℕ → List ℕ
list_tail h idx = codes "],\"active_idx\":" ++ idx_text h idx ++ codes "}"

body_printed :
    (h : Host) (dev : Device) (nets : List WifiNet) (n : ℕ)
    → dev.settings.mem.wifi ≡ nets ++ replicate n no_net
    → All IsNamed nets
    → wifi_body h dev
      ≡ finish h.cap
          (printed h.cap empty_out
            (list_head ∷ (json_nets true (masked nets) ++ (list_tail h dev.wifi.active_idx ∷ []))))
          200
unfolding wifi_body
body_printed h dev nets n stored named =
    let opened = out_printf h.cap empty_out list_head in
    let tail = list_tail h dev.wifi.active_idx in
    let listed =
      ap {B = Out} (λ x. (print_nets h.cap (opened, true) x).0) stored
      ∙ nets_printed h.cap n opened true nets named in
    ap (λ o. finish h.cap (out_printf h.cap o tail) 200) listed
    ∙ ap (λ o. finish h.cap o 200)
        (sym (printed-append h.cap opened (json_nets true (masked nets)) (tail ∷ [])))

joined-append : (xs ys : List (List ℕ)) → joined (xs ++ ys) ≡ joined xs ++ joined ys
joined-append [] ys = refl
joined-append (x ∷ xs) ys =
    ap (λ t. x ++ t) (joined-append xs ys) ∙ sym (append_assoc x (joined xs) (joined ys))

sent_whole :
    (cap : ℕ) (pieces : List (List ℕ))
    → length too_large < cap
    → (finish cap (printed cap empty_out pieces) 200).status ≡ 200
    → (finish cap (printed cap empty_out pieces) 200).body ≡ joined pieces
sent_whole cap pieces big ok =
    let e = finish-printed cap 200 pieces big in
    elim (Bool-cases (ltb (length (joined pieces)) cap)) [
      | inl fits ↦ ground (arith, e, fits, ok)
      | inr over ↦ ground (arith, e, over, ok)
    ]

blank_entries : (m k n : ℕ) → m + n ≡ k → drop m (replicate k no_net) ≡ replicate n no_net
blank_entries zero k n e =
    ap (λ i. replicate i no_net) (let same : k ≡ n = omega (arith, e) in same)
blank_entries (suc m) zero n e = absurd (omega (arith, e))
blank_entries (suc m) (suc k) n e = blank_entries m k n (omega (arith, e))

get_answer :
    (h : Host) (dev : Device) (auth : Option (List ℕ)) (writes : ℕ)
    → admin_ok h auth ≡ none
    → (pstop_api_admin_wifi h dev false [] auth writes).0 ≡ wifi_body h dev
unfolding pstop_api_admin_wifi
get_answer h dev auth writes let_in = ground (arith, let_in)

-- The list in the body of a GET, sent back in a request as it stands, is read as the networks that are
-- stored, the passwords included: the mask in the place of a password keeps it. The GET is answered
-- whole, with 200; the JSON library reads the objects of the request as what they say; the stored
-- networks have names that the handler takes, no two the same, and the entries behind them are empty.
pub listed_back :
    (h : Host) (dev : Device) (auth : Option (List ℕ)) (writes n : ℕ) (nets : List WifiNet)
    → dev.settings.mem.wifi ≡ nets ++ replicate n no_net
    → length nets + n ≡ 4
    → All IsNamed nets
    → IsDistinct nets
    → ReadsList h (masked nets)
    → length too_large < h.cap
    → admin_ok h auth ≡ none
    → (pstop_api_admin_wifi h dev false [] auth writes).0.status ≡ 200
    → (list : List ℕ) × (networks : List (Option (List ℕ) × Option (List ℕ)))
      × ((pstop_api_admin_wifi h dev false [] auth writes).0.body
          ≡ list_head ++ (list ++ list_tail h dev.wifi.active_idx))
      × (h.wifi_json (codes "{\"networks\":[" ++ (list ++ codes "]}")) ≡ some networks)
      × (wifi_from_json dev.settings.mem.wifi networks ≡ inr dev.settings.mem.wifi)
listed_back h dev auth writes n nets stored four named distinct reads big let_in ok =
    let list = joined (json_nets true (masked nets)) in
    let tail = list_tail h dev.wifi.active_idx in
    let pieces = list_head ∷ (json_nets true (masked nets) ++ (tail ∷ [])) in
    let answer = get_answer h dev auth writes let_in ∙ body_printed h dev nets n stored named in
    let whole = sent_whole h.cap pieces big (ap {B = ℕ} (λ r. r.status) (sym answer) ∙ ok) in
    let blank = blank_entries (length nets) 4 n four in
    let kept : dev.settings.mem.wifi ≡ nets ++ drop (length nets) (replicate 4 no_net) =
      stored ∙ ap (λ back. nets ++ back) (sym blank) in
    let back = nets_back nets named distinct in
    (
      list,
      given (masked nets),
      ap {B = List ℕ} (λ r. r.body) answer
          ∙ whole
          ∙ ap (λ x. list_head ++ x)
              (joined-append (json_nets true (masked nets)) (tail ∷ [])
                ∙ ap (λ x. list ++ x) (append-nil tail)),
      reads,
      ap₂ (λ old networks. wifi_from_json old networks) kept (given-masked nets)
          ∙ back
          ∙ ap {B = List ℕ ⊎ List WifiNet} inr (sym kept),
    )
