-- ===== src/Ring/Status/Blink.antt =====
-- What an observer can read from the status pixel.
use zephyr_applications.Common.{
  inr, inl, Bool-cases, ap, ℕ, zero, suc, ◌+◌, ◌-◌, ◌*◌, ◌^◌, ◌≤◌, ◌<◌, ◌≡◌, ◌≢◌, refl, Bool, true,
  false, ◌&&◌, ltb, ◌==◌, if◌then◌else◌, List, [], ◌∷◌, arith, ◌⊎◌,
}
use zephyr_applications.Ring.Pixels.{rgb}
use zephyr_applications.Ring.Status.{
  Iface, no_iface, ethernet, wifi, Step, steps, walk, status_cycle_ms, status_pixel,
}

abbrev pub duration : List Step → ℕ
duration [] = 0
duration ((on, ms) ∷ rest) = ms + duration rest

-- Whether the light is on at a time, counted from the start of the steps.
abbrev pub lit_at : List Step → ℕ → Bool
lit_at [] t = false
lit_at ((on, ms) ∷ rest) t = if ltb t ms then on else lit_at rest (t - ms)

walk_measures :
    (ss : List Step) (at : ℕ)
    → at + duration ss < 2 ^ 32
    → (walk ss (2 ^ 32 - 1) at).0 ≡ at + duration ss
unfolding walk
walk_measures [] at h = ground arith
walk_measures ((on, ms) ∷ rest) at h = ground (arith, walk_measures rest (at + ms))

walk-lit_at :
    (ss : List Step) (t at : ℕ)
    → at ≤ t
    → t < 2 ^ 32 - 1
    → at + duration ss < 2 ^ 32
    → (walk ss t at).1 ≡ lit_at ss (t - at)
unfolding walk
walk-lit_at [] t at a b h = refl
walk-lit_at ((on, ms) ∷ rest) t at a b h =
    let split : t - (at + ms) ≡ t - at - ms = omega arith in
    ground (arith, walk-lit_at rest t (at + ms), ap (lit_at rest) split)

-- A reader of the blinks: the digits shown so far, and the count of blinks of the current one.
abbrev pub read_digits : ℕ → ℕ → List Step → ℕ
read_digits number digit [] = number * 10 + digit
read_digits number digit ((true, ms) ∷ rest) =
    read_digits number (if ms == 550 then 0 else digit + 1) rest
read_digits number digit ((false, ms) ∷ rest) =
    read_digits (if ms == 550 then number * 10 + digit else number) (if ms == 550 then 0 else digit)
      rest

-- How many octets below a bound are not read back.
unreadable : (ℕ → Bool) → ℕ → ℕ
unreadable reads zero = 0
unreadable reads (suc octet) =
    let fewer = unreadable reads octet in if reads octet then fewer else fewer + 1

reads_each :
    (reads : ℕ → Bool) (bound octet : ℕ)
    → octet < bound
    → unreadable reads bound ≡ 0
    → reads octet ≡ true
unfolding unreadable
reads_each reads zero octet inside none_fails = absurd (omega arith)
reads_each reads (suc last) octet inside none_fails = elim (Bool-cases (reads octet)) [
  | inl reading ↦ reading
  | inr failing ↦ ground (arith, reads_each reads last octet)
]

abbrev readable : Iface → ℕ → Bool
readable iface octet =
    (read_digits 0 0 (steps iface octet false) == octet)
    && ltb (duration (steps iface octet false)) 20000

readable_ethernet : unreadable (readable ethernet) 256 ≡ 0
unfolding unreadable steps
readable_ethernet = refl

readable_wifi : unreadable (readable wifi) 256 ≡ 0
unfolding unreadable steps
readable_wifi = refl

cycle_lem :
    (iface : Iface) (octet : ℕ) → octet < 256 → iface ≢ no_iface → (readable iface octet ≡ true)
cycle_lem no_iface octet h ne = absurd (ne refl)
cycle_lem ethernet octet h ne = reads_each (readable ethernet) 256 octet h readable_ethernet
cycle_lem wifi octet h ne = reads_each (readable wifi) 256 octet h readable_wifi

-- While there is an uplink and no fault, whatever the octet, an observer who counts the blinks of one cycle reads it back: each digit is as
-- many short blinks as it says, or one long one for 0, with the digit gap between digits. The cycle
-- takes less than 20 s.
pub status_readable :
    (iface : Iface) (octet : ℕ)
    → octet < 256
    → iface ≢ no_iface
    → (read_digits 0 0 (steps iface octet false) ≡ octet)
      × (duration (steps iface octet false) < 20000)
      × (status_cycle_ms iface octet false ≡ duration (steps iface octet false))
unfolding status_cycle_ms
status_readable iface octet h ne =
    ground (arith, cycle_lem iface octet h ne, walk_measures (steps iface octet false) 0)

-- At each moment of a cycle the pixel is lit in the colour of its uplink exactly where the blink
-- steps are on, and dark elsewhere.
pub status_pixel-lit_at :
    (iface : Iface) (octet t_ms : ℕ)
    → octet < 256
    → iface ≢ no_iface
    → t_ms < status_cycle_ms iface octet false
    → ((lit_at (steps iface octet false) t_ms ≡ false)
        × (status_pixel iface octet false t_ms ≡ rgb 0 0 0))
      ⊎ ((lit_at (steps iface octet false) t_ms ≡ true)
          × (((iface ≡ ethernet) × (status_pixel iface octet false t_ms ≡ rgb 0 0 48))
              ⊎ ((iface ≡ wifi) × (status_pixel iface octet false t_ms ≡ rgb 48 48 0))))
unfolding status_pixel
status_pixel-lit_at iface octet t_ms h ne t =
    ground (arith, status_readable iface octet h ne, walk-lit_at (steps iface octet false) t_ms 0)
