-- ===== src/Ring/Status.antt =====
-- The onboard status pixel of ring.c: the uplink's last octet, blinked digit by digit.
pub mod Blink
use zephyr_applications.Common.{
  ℕ, zero, suc, ◌+◌, ◌-◌, ◌*◌, ◌/◌, ◌%◌, ◌^◌, Bool, true, false, ◌&&◌, not, ltb, leb, ◌==◌,
  if◌then◌else◌, List, [], ◌∷◌, ◌++◌, u32,
}
use zephyr_applications.Ring.Pixels.{Rgb, rgb}

-- `enum status_iface`
pub data Iface : Type 0 where
  no_iface ethernet wifi : Iface

abbrev pub status_brightness : ℕ
status_brightness = 48

abbrev pub status_on_ms : ℕ
status_on_ms = 180

abbrev pub status_off_ms : ℕ
status_off_ms = 220

abbrev pub status_zero_ms : ℕ
status_zero_ms = 550

abbrev pub status_digit_gap_ms : ℕ
status_digit_gap_ms = 550

abbrev pub status_cycle_gap_ms : ℕ
status_cycle_gap_ms = 1500

abbrev pub status_strobe_ms : ℕ
status_strobe_ms = 120

-- One `STEP(on, ms)` of `walk`.
abbrev pub Step : Type 0
Step = Bool × ℕ

-- The digits of the octet, leading zeros left out.
abbrev pub octet_digits : ℕ → List ℕ
octet_digits octet =
    let last : List ℕ = octet % 10 ∷ [] in
    let tens : List ℕ = if leb 10 octet then (octet / 10 % 10) ∷ last else last in
    if leb 100 octet then (octet / 100) ∷ tens else tens

-- The inner loop: `n` blinks, of which `b` are done.
abbrev blinks : ℕ → ℕ → List Step → List Step
blinks b zero rest = rest
blinks b (suc n) rest =
    let next : List Step = (true, status_on_ms) ∷ blinks (b + 1) n rest in
    if ltb 0 b then (false, status_off_ms) ∷ next else next

-- The loop over the digits, of which `d` are done.
abbrev digit_steps : ℕ → List ℕ → List Step → List Step
digit_steps d [] rest = rest
digit_steps d (digit ∷ digits) rest =
    let later = digit_steps (d + 1) digits rest in
    let shown : List Step =
      if digit == 0 then (true, status_zero_ms) ∷ later else blinks 0 digit later in
    if ltb 0 d then (false, status_digit_gap_ms) ∷ shown else shown

-- The steps that `walk` takes, in order.
unfoldable pub steps : Iface → ℕ → Bool → List Step
steps iface octet true = (true, status_strobe_ms) ∷ (false, status_strobe_ms) ∷ []
steps no_iface octet false = (false, 1000) ∷ []
steps _ octet false = digit_steps 0 (octet_digits octet) ((false, status_cycle_gap_ms) ∷ [])

abbrev uint32_max : ℕ
uint32_max = 2 ^ 32 - 1

-- `walk`, from `at` on: what it returns, and `*lit`.
unfoldable pub walk : List Step → ℕ → ℕ → ℕ × Bool
walk [] t_ms at = (at, false)
walk ((on, ms) ∷ rest) t_ms at =
    let later = walk rest t_ms (u32 (at + ms)) in
    if not (t_ms == uint32_max) && ltb t_ms (u32 (at + ms)) then (at, on) else later

unfoldable pub status_cycle_ms : Iface → ℕ → Bool → ℕ
unfolding walk steps
status_cycle_ms iface octet fault = (walk (steps iface octet fault) uint32_max 0).0

abbrev iface_colour : Iface → Rgb
iface_colour ethernet = rgb 0 0 status_brightness
iface_colour wifi = rgb status_brightness status_brightness 0
iface_colour no_iface = rgb 0 0 0

unfoldable pub status_pixel : Iface → ℕ → Bool → ℕ → Rgb
status_pixel iface octet fault t_ms =
    let lit = (walk (steps iface octet fault) t_ms 0).1 in
    if not lit then rgb 0 0 0 else if fault then rgb status_brightness 0 0 else iface_colour iface
