-- ===== src/LogRing/Contents.antt =====
-- What a log ring holds: the last bytes written, oldest first.
use zephyr_applications.Common.{
  ℕ, ◌+◌, ◌-◌, ◌≤◌, ◌<◌, ◌≡◌, sym, ap, ap₂, ◌∙◌, ◌==◌, if◌then◌else◌, List, [], ◌++◌, arith, inl,
  inr, length, take, drop, last, length-append, length-take, length-drop, take-length, drop-length,
  take-append_le, drop-append_le, drop-append_ge, drop-drop, last_short, append-nil, append_assoc,
  Bool-cases,
}
use zephyr_applications.LogRing.{blit}

-- The bytes held, oldest first.
abbrev pub contents : ℕ → ℕ → List ℕ → List ℕ
contents head wrapped buf = if wrapped == 0 then take head buf else drop head buf ++ take head buf

module _ (buf xs : List ℕ) (h : ℕ) (full : length buf ≡ 4096) (fits : h + length xs ≤ 4096) where
  length-take_head : length (take h buf) ≡ h
  length-take_head = omega (arith, length-take {0} h buf)

  pub length-blit : length (blit buf h xs) ≡ 4096
  length-blit = omega (
    arith,
    length-append {0} (take h buf) (xs ++ drop (h + length xs) buf),
    length-append {0} xs (drop (h + length xs) buf),
    length-drop {0} (h + length xs) buf,
    length-take_head,
  )

  -- What was written stands before the new head, the old tail behind it.
  blit-split : blit buf h xs ≡ (take h buf ++ xs) ++ drop (h + length xs) buf
  blit-split = sym (append_assoc (take h buf) xs (drop (h + length xs) buf))

  length-front : length (take h buf ++ xs) ≡ h + length xs
  length-front = omega (arith, length-append {0} (take h buf) xs, length-take_head)

  take-blit : take (h + length xs) (blit buf h xs) ≡ take h buf ++ xs
  take-blit =
      ap (take (h + length xs)) blit-split
      ∙ take-append_le (h + length xs) (take h buf ++ xs) (drop (h + length xs) buf)
          (omega (arith, length-front))
      ∙ take-length (h + length xs) (take h buf ++ xs) (omega (arith, length-front))

  drop-blit : drop (h + length xs) (blit buf h xs) ≡ drop (h + length xs) buf
  drop-blit =
      ap (drop (h + length xs)) blit-split
      ∙ drop-append_ge (h + length xs) (take h buf ++ xs) (drop (h + length xs) buf)
          (omega (arith, length-front))
      ∙ ap (λ n. drop n (drop (h + length xs) buf))
          (let e : h + length xs - length (take h buf ++ xs) ≡ 0 = omega (arith, length-front) in e)

  -- The old contents of a ring that has wrapped, and then the new bytes, cut to the ring's size.
  last_wrapped :
      last 4096 ((drop h buf ++ take h buf) ++ xs) ≡ drop (h + length xs) buf ++ (take h buf ++ xs)
  last_wrapped =
      let excess : length ((drop h buf ++ take h buf) ++ xs) - 4096 ≡ length xs = omega (
        arith,
        length-append {0} (drop h buf ++ take h buf) xs,
        length-append {0} (drop h buf) (take h buf),
        length-drop {0} h buf,
        length-take_head,
      ) in
      ap (λ n. drop n ((drop h buf ++ take h buf) ++ xs)) excess
      ∙ ap (drop (length xs)) (append_assoc (drop h buf) (take h buf) xs)
      ∙ drop-append_le (length xs) (drop h buf) (take h buf ++ xs)
          (omega (arith, length-drop {0} h buf))
      ∙ ap (λ t. t ++ (take h buf ++ xs)) (drop-drop h (length xs) buf)

  -- One `memcpy` appends to the contents, whether or not it reaches the end of the buffer.
  pub contents-blit :
      (wrapped : ℕ)
      → h + length xs < 4096
      → contents (h + length xs) wrapped (blit buf h xs) ≡ last 4096 (contents h wrapped buf ++ xs)
  contents-blit wrapped lt = elim (Bool-cases (wrapped == 0)) [
    | inl e ↦
        rw e (take-blit ∙ sym (last_short 4096 (take h buf ++ xs) (omega (arith, length-front))))
    | inr e ↦ rw e (ap₂ ◌++◌ drop-blit take-blit ∙ sym last_wrapped)
  ]

  pub contents-blit_end :
      (wrapped : ℕ)
      → h + length xs ≡ 4096
      → contents 0 1 (blit buf h xs) ≡ last 4096 (contents h wrapped buf ++ xs)
  contents-blit_end wrapped e =
      let empty : drop (h + length xs) buf ≡ [] = drop-length (h + length xs) buf (omega arith) in
      let whole : blit buf h xs ≡ take h buf ++ xs =
        blit-split ∙ ap (λ t. (take h buf ++ xs) ++ t) empty ∙ append-nil (take h buf ++ xs) in
      append-nil (blit buf h xs) ∙ whole ∙ elim (Bool-cases (wrapped == 0)) [
        | inl z ↦ rw z (sym (last_short 4096 (take h buf ++ xs) (omega (arith, length-front))))
        | inr z ↦ rw z (sym (last_wrapped ∙ ap (λ t. t ++ (take h buf ++ xs)) empty))
      ]
