-- ===== src/Ring/Frame.antt =====
-- The rotation of the ring into physical order, and what each physical pixel shows.
use native.Mathlib.Nat.{add-zero}
use native.Mathlib.Nat.{zero-add}
use zephyr_applications.Common.{
  ap, some, get_elem?, false, subst, ℕ, zero, suc, ◌+◌, ◌%◌, ◌≤◌, ◌<◌, ◌≡◌, refl, List, [], ◌∷◌,
  length, get_or, set, arith, length-set, get_or-set_self, get_or-set_ne, sym, ◌∙◌,
}
use zephyr_applications.Ring.Segments.{
  length-segments, segments-pixel, compose-segments, get_elem?-lt, owner, owner_lem,
}
use zephyr_applications.Ring.{
  seg_start, rgb, fill, idle, RingState, amber_level, show, pixel, RingSlot, configured_slots,
  compose, RingInput, Codes, ring_frame, Rgb, rotate,
}

-- Rotation writes logical pixel `p` at `(p + offset) % 16`, and later writes leave it.
rotate_before :
    (o i p : ℕ) (xs out : List Rgb) (d : Rgb)
    → p < i
    → i + length xs ≤ 16
    → get_or (rotate o i xs out) ((p + o % 16) % 16) d ≡ get_or out ((p + o % 16) % 16) d
unfolding rotate
rotate_before o i p [] out d h l = refl
rotate_before o i p (x ∷ xs) out d h l =
    rotate_before o (i + 1) p xs (set out ((i + o % 16) % 16) x) d (omega arith) (omega arith)
    ∙ get_or-set_ne out ((i + o % 16) % 16) ((p + o % 16) % 16) x d (omega arith)

rotate_at :
    (o i k : ℕ) (xs out : List Rgb) (d : Rgb)
    → k < length xs
    → i + length xs ≤ 16
    → length out ≡ 16
    → get_or (rotate o i xs out) ((i + k + o % 16) % 16) d ≡ get_or xs k d
unfolding rotate
rotate_at o i k [] out d h l m = absurd (omega arith)
rotate_at o i zero (x ∷ xs) out d h l m =
    subst
      (λ y. get_or (rotate o (i + 1) xs (set out ((i + o % 16) % 16) x)) ((y + o % 16) % 16) d ≡ x)
      (sym (add-zero i))
      (rotate_before o (i + 1) i xs (set out ((i + o % 16) % 16) x) d (omega arith) (omega arith)
        ∙ get_or-set_self out ((i + o % 16) % 16) x d (omega arith))
rotate_at o i (suc k) (x ∷ xs) out d h l m =
    let shift : i + suc k ≡ i + 1 + k = omega arith in
    subst
      (λ y.
        get_or (rotate o (i + 1) xs (set out ((i + o % 16) % 16) x)) ((y + o % 16) % 16) d
        ≡ get_or xs k d)
      (sym shift)
      (rotate_at o (i + 1) k xs (set out ((i + o % 16) % 16) x) d (omega arith) (omega arith)
        (length-set out _ x ∙ m))

length-compose : (c : Codes) (inp : RingInput) → length (compose c inp).1 ≡ 16
unfolding compose
length-compose c inp = ground (
  arith,
  length-segments c inp (amber_level inp) (length (configured_slots inp.slots)) 0
      (configured_slots inp.slots) idle (fill (rgb 0 0 0)),
)

-- With no locate and no fault, and one to four machines configured, physical pixel
-- `(p + offset) % 16` shows, for each logical pixel `p`, the colour of the configured machine whose
-- segment holds `p`, whatever the buffer held before.
pub ring_frame-pixel :
    (c : Codes) (inp : RingInput) (out : List Rgb) (p : ℕ) (d : Rgb)
    → inp.locate ≡ false
    → inp.mismatch ≡ false
    → 0 < length (configured_slots inp.slots)
    → length (configured_slots inp.slots) ≤ 4
    → p < 16
    → length out ≡ 16
    → (s : RingSlot) × (get_elem?
          (configured_slots inp.slots)
          (owner (length (configured_slots inp.slots)) p)
        ≡ some s)
      × (get_or (ring_frame c inp out).1 ((p + inp.offset % 16) % 16) d
          ≡ pixel inp (show c inp (amber_level inp) s) p)
unfolding ring_frame
ring_frame-pixel c inp out p d e f pos few lt l =
    let n = length (configured_slots inp.slots) in
    let (inside, lo, hi) = owner_lem n p pos few lt in
    let (s, g) = get_elem?-lt (configured_slots inp.slots) (owner n p) inside in
    let at_logical : get_or (rotate inp.offset 0 (compose c inp).1 out) ((p + inp.offset % 16) % 16)
          d
        ≡ get_or (compose c inp).1 p d =
      rw zero-add at (
        rotate_at inp.offset 0 p (compose c inp).1 out d (omega (arith, length-compose c inp))
          (omega (arith, length-compose c inp)) l) in
    (
      s,
      g,
      at_logical
          ∙ ap (λ (x : RingState × List Rgb). get_or x.1 p d) (compose-segments c inp e f pos)
          ∙ segments-pixel c inp (amber_level inp) n 0 (owner n p) (configured_slots inp.slots) idle
              (fill (rgb 0 0 0)) p d s (zero-add n) refl g
              (subst (λ x. seg_start n x ≤ p) (sym (zero-add (owner n p))) lo)
              (subst (λ x. p < seg_start n (x + 1)) (sym (zero-add (owner n p))) hi),
    )
