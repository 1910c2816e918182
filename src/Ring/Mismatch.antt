-- ===== src/Ring/Mismatch.antt =====
-- The persistence filter of the purple ring, `ring_mismatch_update` of ring.c.
use zephyr_applications.Common.{
  sym, subst, ◌≢◌, ◌⊎◌, ◌^◌, ℕ, suc, ◌+◌, ◌≤◌, ◌<◌, ◌≡◌, refl, Bool, true, false, ◌&&◌, ltb, leb,
  ◌==◌, if◌then◌else◌, List, [], ◌∷◌, u64, sub64, arith, All,
}

abbrev pub ring_mismatch_window_ms : ℕ
ring_mismatch_window_ms = 250

abbrev pub ring_mismatch_persist_frames : ℕ
ring_mismatch_persist_frames = 3

abbrev pub ring_mismatch_hold_ms : ℕ
ring_mismatch_hold_ms = 300

-- `struct ring_mismatch`
pub record MismatchFilter : Type 0 where
  pub last_count : ℕ
  pub streak : ℕ
  pub window_start_ms : ℕ
  pub advanced : Bool
  pub until_ms : ℕ

unfoldable pub mismatch_init : ℕ → MismatchFilter
mismatch_init count = record {
  last_count = count;
  streak = 0;
  window_start_ms = 0;
  advanced = false;
  until_ms = 0;
}

abbrev hold : ℕ → ℕ
hold now_ms = u64 (now_ms + ring_mismatch_hold_ms)

-- The first `if` of `ring_mismatch_update`.
abbrev note_count : MismatchFilter → ℕ → ℕ → MismatchFilter
note_count m count now_ms = if count == m.last_count then m else record m {
  last_count = count;
  advanced = true;
  until_ms = if leb ring_mismatch_persist_frames m.streak then hold now_ms else m.until_ms;
}

-- The second one, which closes a window.
abbrev close_window : MismatchFilter → ℕ → MismatchFilter
close_window m now_ms =
    let longer = if ltb m.streak ring_mismatch_persist_frames then m.streak + 1 else m.streak in
    if ltb (sub64 now_ms m.window_start_ms) ring_mismatch_window_ms then m else record m {
      streak = if m.advanced then longer else 0;
      until_ms =
          if m.advanced && leb ring_mismatch_persist_frames longer then hold now_ms else m.until_ms;
      advanced = false;
      window_start_ms = now_ms;
    }

unfoldable pub mismatch_update : MismatchFilter → ℕ → ℕ → MismatchFilter × Bool
mismatch_update m count now_ms =
    let m' = close_window (note_count m count now_ms) now_ms in (m', ltb now_ms m'.until_ms)

-- A frame is the counter's value and the time.
unfoldable pub paints : MismatchFilter → List (ℕ × ℕ) → List Bool
paints m [] = []
paints m ((count, now_ms) ∷ frames) =
    let (m', on) = mismatch_update m count now_ms in on ∷ paints m' frames

-- How often the counter differs from the frame before.
abbrev pub changes : ℕ → List (ℕ × ℕ) → ℕ
changes last [] = 0
changes last ((count, now_ms) ∷ frames) =
    if count == last then changes count frames else suc (changes count frames)

-- With `k` changes still to come, fewer than three will have been seen.
record Calm (m : MismatchFilter) (k : ℕ) : Type 0 where
  few : m.streak + (if m.advanced then 1 else 0) + k < 3
  dark : m.until_ms ≡ 0

Calm-update :
    (m : MismatchFilter) (count now_ms k : ℕ)
    → Calm m (if count == m.last_count then k else suc k)
    → Calm (mismatch_update m count now_ms).0 k
      × ((mismatch_update m count now_ms).1 ≡ false)
      × ((mismatch_update m count now_ms).0.last_count ≡ count)
unfolding mismatch_update
Calm-update m count now_ms k h = ground arith

Calm-paints :
    (m : MismatchFilter) (frames : List (ℕ × ℕ))
    → Calm m (changes m.last_count frames)
    → All (λ on. on ≡ false) (paints m frames)
unfolding paints
Calm-paints m [] h = tt
Calm-paints m ((count, now_ms) ∷ frames) h =
    let u = Calm-update m count now_ms (changes count frames) h in
    let m' = (mismatch_update m count now_ms).0 in
    (u.1, Calm-paints m' frames (subst (λ k. Calm m' (changes k frames)) (sym u.2) u.0))

-- A counter that moves in fewer than three frames after the filter was set up never paints the ring
-- purple, whatever the times of the frames.
pub blip_never_paints :
    (count : ℕ) (frames : List (ℕ × ℕ))
    → changes count frames < 3
    → All (λ on. on ≡ false) (paints (mismatch_init count) frames)
unfolding mismatch_init
blip_never_paints count frames h = Calm-paints _ frames (record { few = omega arith; dark = refl })

-- A frame is painted only while an earlier hold still lasts, or with a full streak of three and a
-- counter that moved in this frame or earlier in the window; the latter holds the paint for 300 ms
-- from this frame on. The clock is 300 ms or more away from its wrap.
pub paint_needs_streak :
    (m : MismatchFilter) (count now_ms : ℕ)
    → now_ms + 300 < 2 ^ 64
    → (mismatch_update m count now_ms).1 ≡ true
    → (now_ms < m.until_ms)
      ⊎ ((3 ≤ (mismatch_update m count now_ms).0.streak)
          × ((mismatch_update m count now_ms).0.until_ms ≡ now_ms + 300)
          × ((count ≢ m.last_count) ⊎ (m.advanced ≡ true)))
unfolding mismatch_update
paint_needs_streak m count now_ms fits on = ground arith
