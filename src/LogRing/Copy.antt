-- ===== src/LogRing/Copy.antt =====
-- Copying a log ring out: the newest bytes that fit, oldest first.
use native.Mathlib.Decide.{dec_le}
use zephyr_applications.Common.{
  ◌⊎◌, ℕ, ◌+◌, ◌-◌, ◌≤◌, ◌<◌, min, ◌≡◌, sym, ap, ap₂, ◌∙◌, true, false, ◌==◌, List, [], ◌++◌, arith,
  inl, inr, length, take, drop, last, length-append, length-take, length-drop, take-length,
  drop-length, drop-append_le, drop-append_ge, drop-drop, drop-take, append-nil, Bool-cases,
}
use zephyr_applications.LogRing.{span, pieces, LogRing, log_ring_copy, log_ring_valid}
use zephyr_applications.LogRing.Write.{held}

module _ (buf : List ℕ) (full : length buf ≡ 4096) where
  pieces_flat : (s t : ℕ) → s + t ≤ 4096 → pieces buf s t ≡ take t (drop s buf)
  pieces_flat s t h =
      let one : min (4096 - s) t ≡ t = omega arith in
      let none_left : t - min (4096 - s) t ≡ 0 = omega arith in
      ap₂ (λ a b. take a (drop s buf) ++ take b buf) one none_left
      ∙ append-nil (take t (drop s buf))

  pieces_round :
      (s t : ℕ) → 4096 ≤ s + t → s ≤ 4096 → pieces buf s t ≡ drop s buf ++ take (s + t - 4096) buf
  pieces_round s t h k =
      let one : min (4096 - s) t ≡ 4096 - s = omega arith in
      let left : t - min (4096 - s) t ≡ s + t - 4096 = omega arith in
      ap₂ (λ a b. take a (drop s buf) ++ take b buf) one left
      ∙ ap (λ u. u ++ take (s + t - 4096) buf)
          (take-length (4096 - s) (drop s buf) (omega (arith, length-drop {0} s buf)))

  -- A ring that has not wrapped.
  flat_all : (h cap : ℕ) → h ≤ 4096 → h ≤ cap → pieces buf 0 h ≡ last cap (take h buf)
  flat_all h cap k l =
      let short : length (take h buf) - cap ≡ 0 = omega (arith, length-take {0} h buf) in
      pieces_flat 0 h (omega arith) ∙ sym (ap (λ n. drop n (take h buf)) short)

  flat_cut : (h cap : ℕ) → h ≤ 4096 → cap ≤ h → pieces buf (h - cap) cap ≡ last cap (take h buf)
  flat_cut h cap k l =
      let over : length (take h buf) - cap ≡ h - cap = omega (arith, length-take {0} h buf) in
      pieces_flat (h - cap) cap (omega arith)
      ∙ ap (λ n. take n (drop (h - cap) buf)) (let e : cap ≡ h - (h - cap) = omega arith in e)
      ∙ sym (drop-take (h - cap) h buf)
      ∙ sym (ap (λ n. drop n (take h buf)) over)

  -- A ring that has wrapped at `h`.
  length-round : (h : ℕ) → h ≤ 4096 → length (drop h buf ++ take h buf) ≡ 4096
  length-round h k = omega (
    arith,
    length-append {0} (drop h buf) (take h buf),
    length-drop {0} h buf,
    length-take {0} h buf,
  )

  round_all :
      (h cap : ℕ) → h ≤ 4096 → 4096 ≤ cap → pieces buf h 4096 ≡ last cap (drop h buf ++ take h buf)
  round_all h cap k l =
      let short : length (drop h buf ++ take h buf) - cap ≡ 0 = omega (arith, length-round h k) in
      pieces_round h 4096 (omega arith) k
      ∙ ap (λ n. drop h buf ++ take n buf) (let e : h + 4096 - 4096 ≡ h = omega arith in e)
      ∙ sym (ap (λ n. drop n (drop h buf ++ take h buf)) short)

  round_tail :
      (h cap : ℕ)
      → h ≤ 4096
      → cap ≤ h
      → pieces buf (h - cap) cap ≡ last cap (drop h buf ++ take h buf)
  round_tail h cap k l =
      let over : length (drop h buf ++ take h buf) - cap ≡ 4096 - cap =
        omega (arith, length-round h k) in
      let inner : 4096 - cap - length (drop h buf) ≡ length (take h buf) - cap =
        omega (arith, length-drop {0} h buf, length-take {0} h buf) in
      flat_cut h cap k l
      ∙ sym (
          ap (λ n. drop n (drop h buf ++ take h buf)) over
          ∙ drop-append_ge (4096 - cap) (drop h buf) (take h buf)
              (omega (arith, length-drop {0} h buf))
          ∙ ap (λ n. drop n (take h buf)) inner)

  round_cut :
      (h cap : ℕ)
      → h < cap
      → cap ≤ 4096
      → pieces buf (h + (4096 - cap)) cap ≡ last cap (drop h buf ++ take h buf)
  round_cut h cap k l =
      let over : length (drop h buf ++ take h buf) - cap ≡ 4096 - cap =
        omega (arith, length-round h (omega arith)) in
      pieces_round (h + (4096 - cap)) cap (omega arith) (omega arith)
      ∙ ap₂ (λ a n. a ++ take n buf) (sym (drop-drop h (4096 - cap) buf))
          (let e : h + (4096 - cap) + cap - 4096 ≡ h = omega arith in e)
      ∙ sym (
          ap (λ n. drop n (drop h buf ++ take h buf)) over
          ∙ drop-append_le (4096 - cap) (drop h buf) (take h buf)
              (omega (arith, length-drop {0} h buf)))

-- What is copied, for a head inside the ring.
span-last :
    (r : LogRing) (cap : ℕ)
    → length r.buf ≡ 4096
    → r.head < 4096
    → pieces r.buf (span r cap).0 (span r cap).1 ≡ last cap (held r)
span-last r cap full h = elim (Bool-cases (r.wrapped == 0)) [
  | inl z ↦ elim (dec_le r.head cap) [
    | yes fits ↦
        at r cap 0 r.head (ground arith) (ground arith)
        ∙ flat_all r.buf full r.head cap (omega arith) fits
        ∙ ap (last cap) (sym (flat_held r z))
    | no over ↦
        at r cap (r.head - cap) cap (ground arith) (ground arith)
        ∙ flat_cut r.buf full r.head cap (omega arith) (omega arith)
        ∙ ap (last cap) (sym (flat_held r z))
  ]
  | inr z ↦ elim (dec_le 4096 cap) [
    | yes fits ↦
        at r cap r.head 4096 (ground arith) (ground arith)
        ∙ round_all r.buf full r.head cap (omega arith) fits
        ∙ ap (last cap) (sym (round_held r z))
    | no over ↦ elim (dec_le cap r.head) [
      | yes low ↦
          at r cap (r.head - cap) cap (ground arith) (ground arith)
          ∙ round_tail r.buf full r.head cap (omega arith) low
          ∙ ap (last cap) (sym (round_held r z))
      | no high ↦
          at r cap (r.head + (4096 - cap)) cap (ground arith) (ground arith)
          ∙ round_cut r.buf full r.head cap (omega arith) (omega arith)
          ∙ ap (last cap) (sym (round_held r z))
    ]
  ]
]
  where
    at :
        (r : LogRing) (cap s t : ℕ)
        → (span r cap).0 ≡ s
        → (span r cap).1 ≡ t
        → pieces r.buf (span r cap).0 (span r cap).1 ≡ pieces r.buf s t
    at r cap s t p q = ap₂ (pieces r.buf) p q

    flat_held : (r : LogRing) → (r.wrapped == 0) ≡ true → held r ≡ take r.head r.buf
    flat_held r z = rw z

    round_held :
        (r : LogRing) → (r.wrapped == 0) ≡ false → held r ≡ drop r.head r.buf ++ take r.head r.buf
    round_held r z = rw z

valid_head : (r : LogRing) → log_ring_valid r ≡ true → r.head < 4096
unfolding log_ring_valid
valid_head r v = ground arith

last_zero : (xs : List ℕ) → last 0 xs ≡ []
last_zero xs = drop-length (length xs - 0) xs (omega arith)

-- A copy of a valid ring hands out the newest bytes that it holds, at most `cap` of them, oldest
-- first; an invalid header hands out nothing. The buffer has 4096 bytes.
pub log_ring_copy_lem :
    (r : LogRing) (cap : ℕ)
    → length r.buf ≡ 4096
    → ((log_ring_valid r ≡ false) × (log_ring_copy r cap ≡ []))
      ⊎ ((log_ring_valid r ≡ true) × (log_ring_copy r cap ≡ last cap (held r)))
unfolding log_ring_copy
log_ring_copy_lem r cap full = elim (Bool-cases (log_ring_valid r)) [
  | inr bad ↦ inl (bad, ground arith)
  | inl good ↦
      inr (good, ground (arith, span-last r cap full (valid_head r good), last_zero (held r)))
]
