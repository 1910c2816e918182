-- ===== src/Codex/Keys/View.antt =====
-- What the host knows of the keys.
use zephyr_applications.Common.{
  ◌==◌, ◌%◌, ◌^◌, map, ◌/◌, ◌&&◌, ℕ, ◌≡◌, Bool, true, not, if◌then◌else◌, List, [], ◌∷◌, ◌++◌,
  Option, none, some, length,
}
use zephyr_applications.Lockstep.Defs.{eq_bytes}
use zephyr_applications.Codex.Keys.{Key, KeyEvent, key_map, scan_step}

-- The host holds a key down from its press to its release.
abbrev pub heard : (List ℕ → Bool) → List KeyEvent → List ℕ → Bool
heard down [] id = down id
heard down (e ∷ es) id = heard (λ k. if eq_bytes e.key.id k then e.pressed else down k) es id

-- The host's view is the mask.
abbrev pub Shows : (List ℕ → Bool) → List Key → List Bool → Type 0
Shows down [] bits = Unit
Shows down (key ∷ keys) [] = ⊥
Shows down (key ∷ keys) (b ∷ bits) = (down key.id ≡ b) × Shows down keys bits

-- No other key has the key's id.
abbrev differs : Key → List Key → Bool
differs key [] = true
differs key (k ∷ keys) =
    not (eq_bytes key.id k.id) && (not (eq_bytes k.id key.id) && differs key keys)

abbrev distinct : List Key → Bool
distinct [] = true
distinct (key ∷ keys) = differs key keys && distinct keys

-- The scans of the main loop: the mask in the end, and all the events.
abbrev pub scans : List Bool → List (List (Option ℕ)) → List Bool × List KeyEvent
scans prev_mask [] = (prev_mask, [])
scans prev_mask (raws ∷ more) =
    let (mask, (lit, events)) = scan_step prev_mask raws in
    let (last, later) = scans mask more in (last, events ++ later)

-- A scan reads three pads.
abbrev ThreePads : List (Option ℕ) → Type 0
ThreePads raws = length raws ≡ 3

-- What the host knows after a scan step.
abbrev Seen : (List ℕ → Bool) → List Bool × (List (Option (List Bool)) × List KeyEvent) → Type 0
Seen down (mask, (lit, events)) = Shows (heard down events) key_map mask

abbrev pins : List ℕ
pins = 4 ∷ 5 ∷ 6 ∷ 7 ∷ []

-- A key is down if its pin of its pad reads low: four keys to a pad, on the pins 4 to 7 in order.
abbrev pub is_low : ℕ → ℕ → Bool
is_low raw pin = raw / 2 ^ pin % 2 == 0

-- The keys as a scan reads them, pad by pad; none if a pad cannot be read.
abbrev pub levels : List (Option ℕ) → Option (List Bool)
levels (some a ∷ some b ∷ some c ∷ []) =
    some (map (is_low a) pins ++ (map (is_low b) pins ++ map (is_low c) pins))
levels _ = none

-- The keys as the last scan that succeeded read them.
abbrev pub last_levels : List Bool → List (List (Option ℕ)) → List Bool
last_levels mask [] = mask
last_levels mask (raws ∷ more) =
    last_levels (elim (levels raws) [ none ↦ mask | some read ↦ read ]) more
