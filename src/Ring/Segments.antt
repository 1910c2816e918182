-- ===== src/Ring/Segments.antt =====
-- Which slot each pixel of the ring shows, in ring.c.
use native.Mathlib.Decide.{ℕ_discrete}
use native.Mathlib.Nat.{add-zero}
use mathlib.Core.Option.{some-injective}
use zephyr_applications.Common.{
  ap, subst, some, get_elem?, ℕ, zero, suc, ◌+◌, ◌-◌, ◌*◌, ◌/◌, ◌≤◌, ◌<◌, ◌≡◌, refl, ◌⊎◌, inl,
  false, List, [], ◌∷◌, length, get_or, set, arith, length-set, get_or-set_self, get_or-set_ne, ◌∙◌,
}
use zephyr_applications.Pstop.{Codes}
use zephyr_applications.Ring.{
  Rgb, RingSlot, RingInput, RingState, idle, paint, segments, seg_start, show, pixel, rgb,
  configured_slots, compose, amber_level, fill,
}

length-paint : (f : ℕ → Rgb) (count p : ℕ) (px : List Rgb) → length (paint f count p px) ≡ length px
unfolding paint
length-paint f zero p px = refl
length-paint f (suc count) p px =
    length-paint f count (p + 1) (set px p (f p)) ∙ length-set px p (f p)

-- Painting a run of pixels leaves the others.
paint_outside :
    (f : ℕ → Rgb) (count p q : ℕ) (px : List Rgb) (d : Rgb)
    → (q < p) ⊎ (p + count ≤ q)
    → get_or (paint f count p px) q d ≡ get_or px q d
unfolding paint
paint_outside f zero p q px d h = refl
paint_outside f (suc count) p q px d h =
    paint_outside f count (p + 1) q (set px p (f p)) d (omega arith)
    ∙ get_or-set_ne px p q (f p) d (omega arith)

paint_inside :
    (f : ℕ → Rgb) (count p q : ℕ) (px : List Rgb) (d : Rgb)
    → p ≤ q
    → q < p + count
    → q < length px
    → get_or (paint f count p px) q d ≡ f q
unfolding paint
paint_inside f zero p q px d h k l = absurd (omega arith)
paint_inside f (suc count) p q px d h k l = elim (ℕ_discrete p q) [
  | yes e ↦ rw (← e) (
      paint_outside f count (p + 1) p (set px p (f p)) d (inl (omega arith))
      ∙ get_or-set_self px p (f p) d (omega arith))
  | no ne ↦
      paint_inside f count (p + 1) q (set px p (f p)) d (omega arith) (omega arith)
        (omega (arith, length-set px p (f p)))
]

seg_start_mono : (n j : ℕ) → seg_start n j ≤ seg_start n (j + 1)
seg_start_mono n j = grind arith

seg_start-le-leds : (n j : ℕ) → 0 < n → j ≤ n → seg_start n j ≤ 16
seg_start-le-leds n j pos h = grind arith

module _ (c : Codes) (inp : RingInput) (amber n : ℕ) where
  pub length-segments :
      (j : ℕ) (ss : List RingSlot) (worst : RingState) (px : List Rgb)
      → length (segments c inp amber n j ss worst px).1 ≡ length px
  unfolding segments
  length-segments j [] worst px = refl
  length-segments j (s ∷ ss) worst px = length-segments (j + 1) ss _ _ ∙ length-paint _ _ _ px

  segments_before :
      (j : ℕ) (ss : List RingSlot) (worst : RingState) (px : List Rgb) (p : ℕ) (d : Rgb)
      → p < seg_start n j
      → get_or (segments c inp amber n j ss worst px).1 p d ≡ get_or px p d
  unfolding segments
  segments_before j [] worst px p d h = refl
  segments_before j (s ∷ ss) worst px p d h =
      segments_before (j + 1) ss _ _ p d (omega (arith, seg_start_mono n j))
      ∙ paint_outside _ _ _ p px d (inl h)

  pub segments-pixel :
      (j k : ℕ) (ss : List RingSlot) (worst : RingState) (px : List Rgb) (p : ℕ) (d : Rgb)
      (s : RingSlot)
      → j + length ss ≡ n
      → length px ≡ 16
      → get_elem? ss k ≡ some s
      → seg_start n (j + k) ≤ p
      → p < seg_start n (j + k + 1)
      → get_or (segments c inp amber n j ss worst px).1 p d ≡ pixel inp (show c inp amber s) p
  unfolding segments
  segments-pixel j k [] worst px p d s e l g lo hi = cc
  segments-pixel j zero (t ∷ ss) worst px p d s e l g lo hi =
      let start : seg_start n j ≤ p = subst (λ x. seg_start n x ≤ p) (add-zero j) lo in
      let end : p < seg_start n (j + 1) = subst (λ x. p < seg_start n (x + 1)) (add-zero j) hi in
      let room : seg_start n (j + 1) ≤ 16 =
        seg_start-le-leds n (j + 1) (omega arith) (omega arith) in
      segments_before (j + 1) ss _ _ p d end
      ∙ paint_inside (pixel inp (show c inp amber t)) (seg_start n (j + 1) - seg_start n j)
          (seg_start n j) p px d start (omega arith) (omega arith)
      ∙ ap (λ u. pixel inp (show c inp amber u) p) (some-injective t s g)
  segments-pixel j (suc k) (t ∷ ss) worst px p d s e l g lo hi =
      let shift : j + suc k ≡ j + 1 + k = omega arith in
      segments-pixel (j + 1) k ss _ _ p d s (omega arith) (length-paint _ _ _ px ∙ l) g
        (subst (λ x. seg_start n x ≤ p) shift lo) (subst (λ x. p < seg_start n (x + 1)) shift hi)

-- With one to four machines every pixel lies in exactly one machine's segment.
abbrev pub owner : ℕ → ℕ → ℕ
owner n p = ((p + 1) * n - 1) / 16

pub owner_lem :
    (n p : ℕ)
    → 0 < n
    → n ≤ 4
    → p < 16
    → (owner n p < n) × (seg_start n (owner n p) ≤ p) × (p < seg_start n (owner n p + 1))
owner_lem zero p pos few h = absurd (omega arith)
owner_lem (suc zero) p pos few h = omega arith
owner_lem (suc (suc zero)) p pos few h = omega arith
owner_lem (suc (suc (suc zero))) p pos few h = omega arith
owner_lem (suc (suc (suc (suc zero)))) p pos few h = omega arith
owner_lem (suc (suc (suc (suc (suc n))))) p pos few h = absurd (omega arith)

pub compose-segments :
    (c : Codes) (inp : RingInput)
    → inp.locate ≡ false
    → inp.mismatch ≡ false
    → 0 < length (configured_slots inp.slots)
    → compose c inp
      ≡ segments c inp
          (amber_level inp)
          (length (configured_slots inp.slots))
          0
          (configured_slots inp.slots)
          idle
          (fill (rgb 0 0 0))
unfolding compose
compose-segments c inp e f pos = ground arith

pub get_elem?-lt :
    (ss : List RingSlot) (k : ℕ) → k < length ss → (s : RingSlot) × (get_elem? ss k ≡ some s)
get_elem?-lt [] k h = absurd (omega arith)
get_elem?-lt (s ∷ ss) zero h = (s, refl)
get_elem?-lt (s ∷ ss) (suc k) h = get_elem?-lt ss k (omega arith)
