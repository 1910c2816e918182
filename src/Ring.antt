-- ===== src/Ring.antt =====
-- The 16-LED status ring and the status pixel: applications/protective_stop/src/ring.{c,h}.
-- An array of pixels is a list; `for` loops are recursions on the rounds left.
pub mod Pixels
pub use Pixels.{Rgb, rgb}
pub mod Mismatch
pub mod Status
pub mod Segments
pub mod Frame
pub mod Colours
use zephyr_applications.Common.{
  ℕ, zero, suc, ◌+◌, ◌-◌, ◌*◌, ◌/◌, ◌%◌, Bool, true, false, ◌&&◌, not, ltb, leb, ◌==◌,
  if◌then◌else◌, List, [], ◌∷◌, u32, length, get_or, set, replicate, sub64,
}
use zephyr_applications.Pstop.{Codes}
use zephyr_applications.Session.{SessState, is_bonded}

abbrev pub ring_leds : ℕ
ring_leds = 16

abbrev pub ring_brightness : ℕ
ring_brightness = 40

abbrev pub ring_link_fresh_ms : ℕ
ring_link_fresh_ms = 2000

abbrev pub ring_amber_on_ms : ℕ
ring_amber_on_ms = 160

abbrev pub ring_amber_off_ms : ℕ
ring_amber_off_ms = 200

abbrev pub ring_amber_rest_ms : ℕ
ring_amber_rest_ms = 900

abbrev pub white_level : ℕ
white_level = ring_brightness / 2

abbrev pub amber_green_pct : ℕ
amber_green_pct = 40

abbrev pub wave_floor_pct : ℕ
wave_floor_pct = 55

abbrev pub wave_pct : List ℕ
wave_pct = 170 ∷ 135 ∷ 105 ∷ 80 ∷ 65 ∷ []

-- `struct ring_slot`; the state is a session's.
pub record RingSlot : Type 0 where
  pub configured : Bool
  pub state : SessState
  pub last_msg : ℕ
  pub last_reply_ms : ℕ

-- `struct ring_input`
pub record RingInput : Type 0 where
  pub now_ms : ℕ
  pub slots : List RingSlot
  pub mismatch : Bool
  pub locate : Bool
  pub uplink_up : Bool
  pub wave_head : ℕ
  pub offset : ℕ

-- `enum ring_state`, and its values.
pub data RingState : Type 0 where
  idle unreachable bond ok stop mismatched located : RingState

abbrev pub rank : RingState → ℕ
rank idle = 0
rank unreachable = 1
rank bond = 2
rank ok = 3
rank stop = 4
rank mismatched = 5
rank located = 6

unfoldable pub scale : ℕ → ℕ → ℕ
scale v pct = let s = u32 (v * pct) / 100 in if ltb 255 s then 255 else s

unfoldable pub amber_on : ℕ → ℕ → Bool
amber_on now_ms n =
    let group = ring_amber_on_ms + ring_amber_off_ms in
    let phase = now_ms % (n * group + ring_amber_rest_ms) in
    if leb (n * group) phase then false else ltb (phase % group) ring_amber_on_ms

unfoldable pub is_fresh : RingInput → RingSlot → Bool
is_fresh inp s =
    is_bonded s.state
    && ltb 0 s.last_reply_ms
    && leb s.last_reply_ms inp.now_ms
    && ltb (inp.now_ms - s.last_reply_ms) ring_link_fresh_ms

-- What a slot shows: its state, its base colour, and whether the wave runs over it.
pub record Show : Type 0 where
  pub st : RingState
  pub c : Rgb
  pub wave : Bool

unfoldable pub show : Codes → RingInput → ℕ → RingSlot → Show
show c inp amber s =
    if not (is_fresh inp s)
    then record { st = unreachable; c = rgb amber (scale amber amber_green_pct) 0; wave = false }
    else if s.last_msg == c.stop
    then record { st = stop; c = rgb ring_brightness 0 0; wave = true }
    else if s.last_msg == c.ok
    then record { st = ok; c = rgb 0 ring_brightness 0; wave = true }
    else record { st = bond; c = rgb 0 0 ring_brightness; wave = false }

-- The pixel at `p` of a segment; the head of the wave is a byte below `ring_leds`.
unfoldable pub pixel : RingInput → Show → ℕ → Rgb
unfolding scale
pixel inp sh p =
    let d = (inp.wave_head + ring_leds - p) % ring_leds in
    let pct = get_or wave_pct d wave_floor_pct in
    let base = sh.c in
    if sh.wave then rgb (scale base.r pct) (scale base.g pct) (scale base.b pct) else base

-- `for (p = start; p < start + count; p++) logical[p] = f(p)`
unfoldable pub paint : (ℕ → Rgb) → ℕ → ℕ → List Rgb → List Rgb
paint f zero p logical = logical
paint f (suc count) p logical = paint f count (p + 1) (set logical p (f p))

unfoldable pub configured_slots : List RingSlot → List RingSlot
configured_slots [] = []
configured_slots (s ∷ ss) =
    let rest = configured_slots ss in if s.configured then s ∷ rest else rest

abbrev pub seg_start : ℕ → ℕ → ℕ
seg_start n j = j * ring_leds / n

-- `if (st > worst) worst = st;`
unfoldable pub worse : RingState → RingState → RingState
worse worst st = if ltb (rank worst) (rank st) then st else worst

-- The loop over the configured slots from number `j` of `n` on.
unfoldable pub segments :
    Codes → RingInput → ℕ → ℕ → ℕ → List RingSlot → RingState → List Rgb → RingState × List Rgb
segments c inp amber n j [] worst logical = (worst, logical)
segments c inp amber n j (s ∷ ss) worst logical =
    let sh = show c inp amber s in
    segments c inp amber n (j + 1) ss (worse worst sh.st)
      (paint (pixel inp sh) (seg_start n (j + 1) - seg_start n j) (seg_start n j) logical)

abbrev pub fill : Rgb → List Rgb
fill c = replicate ring_leds c

abbrev pub amber_level : RingInput → ℕ
amber_level inp =
    if amber_on inp.now_ms (if inp.uplink_up then 1 else 3) then ring_brightness else 0

unfoldable pub compose : Codes → RingInput → RingState × List Rgb
compose c inp =
    let n = length (configured_slots inp.slots) in
    if inp.locate
    then (located, set (fill (rgb 0 0 0)) 0 (rgb ring_brightness ring_brightness ring_brightness))
    else if inp.mismatch
    then (mismatched, fill (rgb ring_brightness 0 ring_brightness))
    else if n == 0
    then (idle, fill (rgb white_level white_level white_level))
    else segments c inp (amber_level inp) n 0 (configured_slots inp.slots) idle (fill (rgb 0 0 0))

-- The loop of `ring_frame`, from logical pixel `i` on.
unfoldable pub rotate : ℕ → ℕ → List Rgb → List Rgb → List Rgb
rotate offset i [] out = out
rotate offset i (px ∷ rest) out =
    rotate offset (i + 1) rest (set out ((i + offset % ring_leds) % ring_leds) px)

-- `out` is what the caller's buffer held.
unfoldable pub ring_frame : Codes → RingInput → List Rgb → RingState × List Rgb
ring_frame c inp out =
    let composed = compose c inp in (composed.0, rotate inp.offset 0 composed.1 out)
