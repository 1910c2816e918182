-- ===== src/Codex/Keys.antt =====
-- codex_keys/src/main.c: the scan of the keys, the events that it sends, the pads whose lights it
-- sets, and the rotary encoder. A mask of pressed keys is the list of its twelve bits; what a driver
-- reads is an argument.
pub mod View
pub mod Encoder
pub mod Turning
use zephyr_applications.Common.{
  ℕ, zero, suc, ◌+◌, ◌/◌, ◌%◌, ◌^◌, Bool, true, false, not, ◌&&◌, ◌==◌, eq_bool, if◌then◌else◌,
  List, [], ◌∷◌, ◌++◌, Option, none, some, take, drop,
}
use zephyr_applications.Common.Text.{codes}

-- One entry of key_map; `agent` is none for -1.
pub record Key : Type 0 where
  pub id : List ℕ
  pub agent : Option ℕ

abbrev agent_key : List ℕ → ℕ → Key
agent_key id slot = record { id = id; agent = some slot }

abbrev command_key : List ℕ → Key
command_key id = record { id = id; agent = none }

abbrev pub key_map : List Key
key_map =
    agent_key (codes "AG00") 0
    ∷ agent_key (codes "AG01") 1
    ∷ agent_key (codes "AG02") 2
    ∷ agent_key (codes "AG03") 3
    ∷ agent_key (codes "AG04") 4
    ∷ agent_key (codes "AG05") 5
    ∷ command_key (codes "ACT06")
    ∷ command_key (codes "ACT07")
    ∷ command_key (codes "ACT08")
    ∷ command_key (codes "ACT09")
    ∷ command_key (codes "ACT10")
    ∷ command_key (codes "ACT12")
    ∷ []

-- What codex_rpc_send_key is called with: the key and the action, CODEX_ACT_PRESS or
-- CODEX_ACT_RELEASE.
pub record KeyEvent : Type 0 where
  pub key : Key
  pub pressed : Bool

-- The four keys of a pad, active-low on the pins 4 to 7 of its port.
abbrev pub pad_bits : ℕ → List Bool
pad_bits raw =
    (raw / 2 ^ 4 % 2 == 0)
    ∷ (raw / 2 ^ 5 % 2 == 0)
    ∷ (raw / 2 ^ 6 % 2 == 0)
    ∷ (raw / 2 ^ 7 % 2 == 0)
    ∷ []

-- keypads_scan: what the ports of the pads read, none for an error, which ends the scan.
unfoldable pub keypads_scan : List (Option ℕ) → Option (List Bool)
keypads_scan [] = some []
keypads_scan (none ∷ raws) = none
keypads_scan (some raw ∷ raws) = elim (keypads_scan raws) [
  | none ↦ none
  | some rest ↦ some (pad_bits raw ++ rest)
]

-- The loop of report_keys over the keys, and their bits now and before.
unfoldable pub report_keys : List Key → List Bool → List Bool → List KeyEvent
report_keys [] now before = []
report_keys (key ∷ keys) [] before = []
report_keys (key ∷ keys) (n ∷ now) [] = []
report_keys (key ∷ keys) (n ∷ now) (b ∷ before) =
    let rest = report_keys keys now before in
    if eq_bool n b then rest else record { key = key; pressed = n } ∷ rest

abbrev pub same_bits : List Bool → List Bool → Bool
same_bits [] [] = true
same_bits [] (b ∷ bs) = false
same_bits (a ∷ as') [] = false
same_bits (a ∷ as') (b ∷ bs) = eq_bool a b && same_bits as' bs

-- leds_update: for each pad the lights that are set, none if its keys are as they were.
unfoldable pub leds_update : ℕ → List Bool → List Bool → List (Option (List Bool))
leds_update zero pressed before = []
leds_update (suc pads) pressed before =
    let rest = leds_update pads (drop 4 pressed) (drop 4 before) in
    if same_bits (take 4 pressed) (take 4 before) then none ∷ rest else some (take 4 pressed) ∷ rest

-- The body of main's loop after the scan: the mask that is kept, what leds_update sets, and the
-- events.
unfoldable pub after_scan :
    List Bool → Option (List Bool) → List Bool × (List (Option (List Bool)) × List KeyEvent)
after_scan prev_mask none = (prev_mask, ([], []))
after_scan prev_mask (some mask) =
    if same_bits mask prev_mask
    then (prev_mask, ([], []))
    else (mask, (leds_update 3 mask prev_mask, report_keys key_map mask prev_mask))

-- The scan in the loop of main.
abbrev pub scan_step :
    List Bool → List (Option ℕ) → List Bool × (List (Option (List Bool)) × List KeyEvent)
scan_step prev_mask raws = after_scan prev_mask (keypads_scan raws)
