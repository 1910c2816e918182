-- ===== src/Settings.antt =====
-- app_settings.c: the settings in memory and the records that the settings library keeps under
-- "pstop/". `saved` lists the records in the order they were written; loading hands them to the
-- handler in that order. A `bool` argument `failed` of an operation tells that
-- `settings_save_one` returned an error and wrote nothing.
pub mod Sound
use Prim.Native.Nat.{suc, bit_or}
use zephyr_applications.Common.{
  ℕ, zero, suc, ◌+◌, ◌*◌, ◌^◌, ◌-◌, Bool, true, false, not, ◌||◌, ◌==◌, ltb, leb, if◌then◌else◌,
  List, [], ◌∷◌, ◌++◌, Option, none, some, length, get_or, set, replicate, drop,
}

pub data Errno : Type 0 where
  einval eio enoent : Errno

-- struct pstop_peer
pub record Peer : Type 0 where
  pub ip : ℕ  -- uint32_t
  pub port : ℕ  -- uint16_t
  pub id : ℕ  -- uint32_t
  pub configured : Bool

-- struct pstop_wifi_net; the texts are cut at their terminating zero.
pub record WifiNet : Type 0 where
  pub ssid : List ℕ
  pub pass : List ℕ

abbrev pub no_peer : Peer
no_peer = record { ip = 0; port = 0; id = 0; configured = false }

abbrev pub no_net : WifiNet
no_net = record { ssid = []; pass = [] }

-- The file's variables.
pub record Memory : Type 0 where
  pub peers : List Peer
  pub device_id : ℕ
  pub derived_id : ℕ
  pub is_operator : Bool
  pub ring_offset : ℕ
  pub wifi : List WifiNet

-- The names under "pstop/", `slot` behind wifi/ and peers/ as atoi reads it and not negative.
pub data Name : Type 0 where
  device_id_name operator_name ring_off_name : Name
  wifi_name peers_name : ℕ → Name
  other_name : Name

-- The bytes of a record, as the variable that has that many bytes reads them; `other_size` is a
-- record of another length.
pub data Image : Type 0 where
  word_image : ℕ → Image
  flag_image : Bool → Image
  byte_image : ℕ → Image
  net_image : WifiNet → Image
  peer_image : Peer → Image
  other_size : Image

-- PSTOP_MAX_MACHINES and PSTOP_WIFI_MAX
abbrev pub max_machines : ℕ
max_machines = 4

abbrev pub wifi_max : ℕ
wifi_max = 4

-- pstop_settings_set: the error, if there is one, and the memory after it. `unread` tells that the
-- library's `read_cb` failed, which writes nothing. The strings of a network's image end before its
-- last bytes, which the code sets to zero.
unfoldable pub pstop_settings_set : Memory → Name → Image → Bool → Option Errno × Memory
pstop_settings_set m device_id_name (word_image v) unread =
    if unread then (some eio, m) else (none, record m { device_id = v })
pstop_settings_set m operator_name (flag_image v) unread =
    if unread then (some eio, m) else (none, record m { is_operator = v })
pstop_settings_set m ring_off_name (byte_image v) unread =
    if unread then (some eio, m) else (none, record m { ring_offset = v })
pstop_settings_set m (wifi_name i) (net_image v) unread =
    if leb wifi_max i
    then (some einval, m)
    else if unread
    then (some eio, m)
    else (none, record m { wifi = set m.wifi i v })
pstop_settings_set m (peers_name i) (peer_image v) unread =
    if leb max_machines i
    then (some einval, m)
    else if unread
    then (some eio, m)
    else (none, record m { peers = set m.peers i v })
pstop_settings_set m other_name image unread = (some enoent, m)
pstop_settings_set m name image unread = (some einval, m)

-- derive_device_id: `hwinfo` is what hwinfo_get_device_id filled in, none if it failed.
unfoldable pub derive_device_id : Option (List ℕ) → ℕ
derive_device_id none = 3232235781  -- FALLBACK_ID
derive_device_id (some mac) =
    let n = length mac in
    if ltb n 3
    then 3232235781
    else bit_or 16777216 (
        bit_or (get_or mac (n - 3) 0 * 2 ^ 16)
          (bit_or (get_or mac (n - 2) 0 * 2 ^ 8) (get_or mac (n - 1) 0)))

abbrev pub blank : ℕ → Memory
blank derived = record {
  peers = replicate max_machines no_peer;
  device_id = 0;
  derived_id = derived;
  is_operator = false;
  ring_offset = 0;
  wifi = replicate wifi_max no_net;
}

-- settings_load_subtree: the handler on every record; the library goes on after an error.
unfoldable pub load : Memory → List (Name × Image) → Memory
load m [] = m
load m ((name, image) ∷ more) = load (pstop_settings_set m name image false).1 more

-- A stored ring offset that is out of range counts as 0.
unfoldable pub sane : Memory → Memory
sane m = if leb 16 m.ring_offset then record m { ring_offset = 0 } else m

-- app_settings_init, when the library starts and loads.
unfoldable pub app_settings_init : Option (List ℕ) → List (Name × Image) → Memory
app_settings_init hwinfo saved = sane (load (blank (derive_device_id hwinfo)) saved)

-- What runs: the memory and the records.
pub record Settings : Type 0 where
  pub mem : Memory
  pub saved : List (Name × Image)

abbrev pub save_one : Settings → Name → Image → List (Name × Image)
save_one st name image = st.saved ++ ((name, image) ∷ [])

-- The errno of a failed write is the library's: eio stands for it.
pub data Outcome : Type 0 where
  done bad_argument write_failed : Outcome

unfoldable pub app_settings_peer_get : Settings → ℕ → Option Peer
app_settings_peer_get st slot =
    if leb max_machines slot then none else some (get_or st.mem.peers slot no_peer)

unfoldable pub put_peer : Settings → ℕ → Peer → Bool → Outcome × Settings
put_peer st slot peer failed =
    if leb max_machines slot then (bad_argument, st) else if failed then (write_failed, st) else (
      done,
      record {
        mem = record st.mem { peers = set st.mem.peers slot peer };
        saved = save_one st (peers_name slot) (peer_image peer);
      },
    )

unfoldable pub app_settings_set_peer : Settings → ℕ → ℕ → ℕ → ℕ → Bool → Outcome × Settings
app_settings_set_peer st slot ip port id failed =
    put_peer st slot (record { ip = ip; port = port; id = id; configured = true }) failed

unfoldable pub app_settings_clear_peer : Settings → ℕ → Bool → Outcome × Settings
app_settings_clear_peer st slot failed = put_peer st slot no_peer failed

unfoldable pub app_settings_set_device_id : Settings → ℕ → Bool → Outcome × Settings
app_settings_set_device_id st id failed = if failed then (write_failed, st) else (
  done,
  record {
    mem = record st.mem { device_id = id };
    saved = save_one st device_id_name (word_image id);
  },
)

unfoldable pub app_settings_effective_device_id : Settings → ℕ
app_settings_effective_device_id st =
    if st.mem.device_id == 0 then st.mem.derived_id else st.mem.device_id

unfoldable pub app_settings_set_ring_offset : Settings → ℕ → Bool → Outcome × Settings
app_settings_set_ring_offset st offset failed =
    if leb 16 offset then (bad_argument, st) else if failed then (write_failed, st) else (
      done,
      record {
        mem = record st.mem { ring_offset = offset };
        saved = save_one st ring_off_name (byte_image offset);
      },
    )

unfoldable pub app_settings_wifi_get : Settings → ℕ → Option WifiNet
app_settings_wifi_get st idx =
    if leb wifi_max idx then none else some (get_or st.mem.wifi idx no_net)

-- The loop of app_settings_wifi_set_all from entry `i`: it stops at the first write that fails, and
-- `writes` counts the writes that succeed before that.
unfoldable pub set_nets : Settings → ℕ → List WifiNet → ℕ → Outcome × Settings
set_nets st i [] writes = (done, st)
set_nets st i (net ∷ nets) zero = (write_failed, st)
set_nets st i (net ∷ nets) (suc writes) =
    set_nets
      (record {
        mem = record st.mem { wifi = set st.mem.wifi i net };
        saved = save_one st (wifi_name i) (net_image net);
      })
      (i + 1) nets writes

unfoldable pub app_settings_wifi_set_all : Settings → List WifiNet → ℕ → Outcome × Settings
app_settings_wifi_set_all st nets writes = set_nets st 0 nets writes

unfoldable pub app_settings_set_operator : Settings → Bool → Bool → Outcome × Settings
app_settings_set_operator st op failed = if failed then (write_failed, st) else (
  done,
  record {
    mem = record st.mem { is_operator = op };
    saved = save_one st operator_name (flag_image op);
  },
)
