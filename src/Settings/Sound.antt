-- ===== src/Settings/Sound.antt =====
-- The settings in memory against the records that are stored.
use native.Mathlib.Decide.{dec_le}
use zephyr_applications.Common.{
  drop-length, zero, suc, append_assoc, ap₂, length-set, ◌↔◌, take_nil, take-append-drop, inr, suc,
  inl, set, min, leb, drop, ◌+◌, take, All, true, Bool-cases, ◌<◌, ℕ, ◌≤◌, ◌≡◌, refl, sym, ap, ◌∙◌,
  Bool, List, [], ◌∷◌, ◌++◌, Option, arith, false, length,
}
use zephyr_applications.Settings.{
  write_failed, peer_image, byte_image, peers_name, ring_off_name, net_image, wifi_name, word_image,
  flag_image, put_peer, device_id_name, operator_name, set_nets, Settings, Peer, no_peer, Memory,
  Name, Image, WifiNet, pstop_settings_set, load, sane, app_settings_init, blank, derive_device_id,
  app_settings_set_peer, app_settings_clear_peer, app_settings_set_device_id,
  app_settings_set_ring_offset, app_settings_wifi_set_all, app_settings_set_operator, save_one,
}

-- The setters that the firmware calls, with what the writes answer.
pub data Call : Type 0 where
  set_peer : ℕ → ℕ → ℕ → ℕ → Bool → Call
  clear_peer : ℕ → Bool → Call
  set_device_id : ℕ → Bool → Call
  set_ring_offset : ℕ → Bool → Call
  wifi_set_all : List WifiNet → ℕ → Call
  set_operator : Bool → Bool → Call

abbrev pub call : Settings → Call → Settings
call st (set_peer slot ip port id failed) = (app_settings_set_peer st slot ip port id failed).1
call st (clear_peer slot failed) = (app_settings_clear_peer st slot failed).1
call st (set_device_id id failed) = (app_settings_set_device_id st id failed).1
call st (set_ring_offset offset failed) = (app_settings_set_ring_offset st offset failed).1
call st (wifi_set_all nets writes) = (app_settings_wifi_set_all st nets writes).1
call st (set_operator op failed) = (app_settings_set_operator st op failed).1

abbrev pub calls : Settings → List Call → Settings
calls st [] = st
calls st (c ∷ cs) = calls (call st c) cs

-- At most as many networks as there are entries.
abbrev pub Fits : Call → Type 0
Fits (wifi_set_all nets writes) = length nets ≤ 4
Fits _ = Unit

-- The memory is what a start would load.
abbrev pub IsStored : Option (List ℕ) → Settings → Type 0
IsStored hwinfo st = st.mem ≡ app_settings_init hwinfo st.saved

load-append : (m : Memory) (xs ys : List (Name × Image)) → load m (xs ++ ys) ≡ load (load m xs) ys
unfolding load
load-append m [] ys = refl
load-append m ((name, image) ∷ xs) ys = load-append (pstop_settings_set m name image false).1 xs ys

-- One more record is the handler on what was loaded, and then the check of the ring offset.
init-snoc :
    (hwinfo : Option (List ℕ)) (saved : List (Name × Image)) (name : Name) (image : Image)
    → app_settings_init hwinfo (saved ++ ((name, image) ∷ []))
      ≡ sane (pstop_settings_set (load (blank (derive_device_id hwinfo)) saved) name image false).1
unfolding app_settings_init load
init-snoc hwinfo saved name image =
    ap sane (load-append (blank (derive_device_id hwinfo)) saved ((name, image) ∷ []))

-- One more write is kept: the handler and the check of the offset commute on what the write changes.
write-IsStored :
    (hwinfo : Option (List ℕ)) (st : Settings) (name : Name) (image : Image) (next : Memory)
    → IsStored hwinfo st
    → ((m : Memory) → st.mem ≡ sane m → next ≡ sane (pstop_settings_set m name image false).1)
    → IsStored hwinfo (record { mem = next; saved = save_one st name image })
unfolding app_settings_init
write-IsStored hwinfo st name image next h f =
    f (load (blank (derive_device_id hwinfo)) st.saved) h
    ∙ sym (init-snoc hwinfo st.saved name image)

put_peer-IsStored :
    (hwinfo : Option (List ℕ)) (st : Settings) (slot : ℕ) (peer : Peer) (failed : Bool)
    → IsStored hwinfo st
    → IsStored hwinfo (put_peer st slot peer failed).1
unfolding put_peer pstop_settings_set sane
put_peer-IsStored hwinfo st slot peer true h = ground arith
put_peer-IsStored hwinfo st slot peer false h = elim (Bool-cases (leb 4 slot)) [
  | inl out ↦ ground (arith, out, h)
  | inr inside ↦ rw inside (
      write-IsStored hwinfo st (peers_name slot) (peer_image peer)
        (record st.mem { peers = set st.mem.peers slot peer }) h
        (λ m e. ap {A = Memory} (λ x. record x { peers = set x.peers slot peer }) e ∙ ground arith))
]

set_device_id-IsStored :
    (hwinfo : Option (List ℕ)) (st : Settings) (id : ℕ) (failed : Bool)
    → IsStored hwinfo st
    → IsStored hwinfo (app_settings_set_device_id st id failed).1
unfolding app_settings_set_device_id pstop_settings_set sane
set_device_id-IsStored hwinfo st id true h = h
set_device_id-IsStored hwinfo st id false h =
    write-IsStored hwinfo st device_id_name (word_image id) (record st.mem { device_id = id }) h
      (λ m e. ap {A = Memory} (λ x. record x { device_id = id }) e ∙ ground arith)

set_operator-IsStored :
    (hwinfo : Option (List ℕ)) (st : Settings) (op failed : Bool)
    → IsStored hwinfo st
    → IsStored hwinfo (app_settings_set_operator st op failed).1
unfolding app_settings_set_operator pstop_settings_set sane
set_operator-IsStored hwinfo st op true h = h
set_operator-IsStored hwinfo st op false h =
    write-IsStored hwinfo st operator_name (flag_image op) (record st.mem { is_operator = op }) h
      (λ m e. ap {A = Memory} (λ x. record x { is_operator = op }) e ∙ ground arith)

set_ring_offset-IsStored :
    (hwinfo : Option (List ℕ)) (st : Settings) (offset : ℕ) (failed : Bool)
    → IsStored hwinfo st
    → IsStored hwinfo (app_settings_set_ring_offset st offset failed).1
unfolding app_settings_set_ring_offset pstop_settings_set sane
set_ring_offset-IsStored hwinfo st offset true h = ground arith
set_ring_offset-IsStored hwinfo st offset false h = elim (Bool-cases (leb 16 offset)) [
  | inl out ↦ ground (arith, out, h)
  | inr inside ↦ rw inside (
      write-IsStored hwinfo st ring_off_name (byte_image offset)
        (record st.mem { ring_offset = offset }) h
        (λ m e. ap {A = Memory} (λ x. record x { ring_offset = offset }) e ∙ ground arith))
]

set_nets-IsStored :
    (hwinfo : Option (List ℕ)) (st : Settings) (i : ℕ) (nets : List WifiNet) (writes : ℕ)
    → i + length nets ≤ 4
    → IsStored hwinfo st
    → IsStored hwinfo (set_nets st i nets writes).1
unfolding set_nets pstop_settings_set sane
set_nets-IsStored hwinfo st i [] writes fits h = h
set_nets-IsStored hwinfo st i (net ∷ nets) zero fits h = h
set_nets-IsStored hwinfo st i (net ∷ nets) (suc writes) fits h =
    let mem = record st.mem { wifi = set st.mem.wifi i net } in
    set_nets-IsStored hwinfo
      (record { mem = mem; saved = save_one st (wifi_name i) (net_image net) }) (i + 1) nets writes
      (omega arith)
      (write-IsStored hwinfo st (wifi_name i) (net_image net) mem h
        (λ m e. ap {A = Memory} (λ x. record x { wifi = set x.wifi i net }) e ∙ ground arith))

call-IsStored :
    (hwinfo : Option (List ℕ)) (st : Settings) (c : Call)
    → Fits c
    → IsStored hwinfo st
    → IsStored hwinfo (call st c)
unfolding app_settings_set_peer app_settings_clear_peer app_settings_wifi_set_all
call-IsStored hwinfo st (set_peer slot ip port id failed) fits h =
    put_peer-IsStored hwinfo st slot (record { ip = ip; port = port; id = id; configured = true })
      failed h
call-IsStored hwinfo st (clear_peer slot failed) fits h =
    put_peer-IsStored hwinfo st slot no_peer failed h
call-IsStored hwinfo st (set_device_id id failed) fits h =
    set_device_id-IsStored hwinfo st id failed h
call-IsStored hwinfo st (set_ring_offset offset failed) fits h =
    set_ring_offset-IsStored hwinfo st offset failed h
call-IsStored hwinfo st (wifi_set_all nets writes) fits h =
    set_nets-IsStored hwinfo st 0 nets writes (omega arith) h
call-IsStored hwinfo st (set_operator op failed) fits h =
    set_operator-IsStored hwinfo st op failed h

-- After any calls of the setters, writes that fail included, a restart finds the settings that the
-- memory holds: what `app_settings_init` loads from the records then stored is the memory of now.
-- The settings started from the records, and no list of networks is longer than four.
pub calls-IsStored :
    (hwinfo : Option (List ℕ)) (records : List (Name × Image)) (cs : List Call)
    → All Fits cs
    → IsStored hwinfo
        (calls (record { mem = app_settings_init hwinfo records; saved = records }) cs)
calls-IsStored hwinfo records cs fits =
    walk (record { mem = app_settings_init hwinfo records; saved = records }) cs fits refl
  where
    walk :
        (st : Settings) (cs : List Call)
        → All Fits cs
        → IsStored hwinfo st
        → IsStored hwinfo (calls st cs)
    walk st [] fits h = h
    walk st (c ∷ cs) fits h = walk (call st c) cs fits.1 (call-IsStored hwinfo st c fits.0 h)

set-here :
    (xs : List WifiNet) (i : ℕ) (v : WifiNet)
    → i < length xs
    → take (suc i) (set xs i v) ≡ take i xs ++ (v ∷ [])
set-here [] i v h = absurd (omega arith)
set-here (x ∷ xs) zero v h = refl
set-here (x ∷ xs) (suc i) v h = ap (λ t. x ∷ t) (set-here xs i v (omega arith))

drop-set : (xs : List WifiNet) (i j : ℕ) (v : WifiNet) → i < j → drop j (set xs i v) ≡ drop j xs
drop-set [] i j v h = refl
drop-set (x ∷ xs) i zero v h = absurd (omega arith)
drop-set (x ∷ xs) zero (suc j) v h = refl
drop-set (x ∷ xs) (suc i) (suc j) v h = drop-set xs i j v (omega arith)

set_nets_lem :
    (st : Settings) (i : ℕ) (nets : List WifiNet) (writes : ℕ)
    → i + length nets ≤ length st.mem.wifi
    → (set_nets st i nets writes).1.mem.wifi
      ≡ take i st.mem.wifi ++ (take writes nets ++ drop (i + min writes (length nets)) st.mem.wifi)
unfolding set_nets
set_nets_lem st i [] writes h =
    sym (take-append-drop i st.mem.wifi)
    ∙ ap (λ t. take i st.mem.wifi ++ t)
        (ap (λ k. drop k st.mem.wifi) (let e : i ≡ i + min writes 0 = omega arith in e)
          ∙ ap (λ t. t ++ drop (i + min writes 0) st.mem.wifi) (sym (take_nil writes)))
set_nets_lem st i (net ∷ nets) zero h =
    sym (take-append-drop i st.mem.wifi)
    ∙ ap (λ k. take i st.mem.wifi ++ drop k st.mem.wifi)
        (let e : i ≡ i + min 0 (suc (length nets)) = omega arith in e)
set_nets_lem st i (net ∷ nets) (suc writes) h =
    let w = st.mem.wifi in
    let st' : Settings = record {
      mem = record st.mem { wifi = set w i net };
      saved = save_one st (wifi_name i) (net_image net);
    } in
    let n = i + 1 + min writes (length nets) in
    set_nets_lem st' (i + 1) nets writes (ground (arith, length-set w i net))
    ∙ ap₂ (λ a b. a ++ (take writes nets ++ b))
        (ap (λ k. take k (set w i net)) (let e : i + 1 ≡ suc i = omega arith in e)
          ∙ set-here w i net (omega arith))
        (drop-set w i n net (omega arith))
    ∙ append_assoc (take i w) (net ∷ []) (take writes nets ++ drop n w)
    ∙ ap (λ k. take i w ++ ((net ∷ []) ++ (take writes nets ++ drop k w)))
        (let e : n ≡ i + min (suc writes) (suc (length nets)) = omega arith in e)

set_nets_outcome :
    (st : Settings) (i : ℕ) (nets : List WifiNet) (writes : ℕ)
    → ((set_nets st i nets writes).0 ≡ write_failed) ↔ (writes < length nets)
unfolding set_nets
set_nets_outcome st i [] writes = ground arith
set_nets_outcome st i (net ∷ nets) zero = ground arith
set_nets_outcome st i (net ∷ nets) (suc writes) =
    let (fwd, bwd) =
      set_nets_outcome
        (record {
          mem = record st.mem { wifi = set st.mem.wifi i net };
          saved = save_one st (wifi_name i) (net_image net);
        })
        (i + 1) nets writes in
    (λ h. omega (arith, fwd h), λ h. bwd (omega (arith, h)))

drop-min : (w n : ℕ) (xs : List WifiNet) → length xs ≤ n → drop (0 + min w n) xs ≡ drop w xs
drop-min w n xs h = elim (dec_le w n) [
  | yes le ↦ ap (λ k. drop k xs) (omega arith)
  | no gt ↦ drop-length (0 + min w n) xs (omega arith) ∙ sym (drop-length w xs (omega arith))
]

-- A list of networks that is written replaces the entries one by one, up to the first write that
-- fails: the entries before it are new, the others are as they were, and the error is told. The
-- list has as many networks as there are entries.
pub wifi_set_all_stops :
    (st : Settings) (nets : List WifiNet) (writes : ℕ)
    → length nets ≡ length st.mem.wifi
    → ((app_settings_wifi_set_all st nets writes).1.mem.wifi
        ≡ take writes nets ++ drop writes st.mem.wifi)
      × (((app_settings_wifi_set_all st nets writes).0 ≡ write_failed) ↔ (writes < length nets))
unfolding app_settings_wifi_set_all
wifi_set_all_stops st nets writes e = (
  set_nets_lem st 0 nets writes (omega (arith, e))
      ∙ ap (λ t. take writes nets ++ t)
          (drop-min writes (length nets) st.mem.wifi (omega (arith, e))),
  set_nets_outcome st 0 nets writes,
)
