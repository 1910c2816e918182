-- ===== src/Common/Slices.antt =====
-- Prefixes and suffixes of lists: how `take`, `drop` and `++` meet.
use Prim.Native.Nat.{ℕ, zero, suc, ◌+◌, ◌-◌, ◌≤◌}
use mathlib.Core.Path.{◌≡◌, refl, ap, sym, ◌∙◌}
use mathlib.Core.List.{List, [], ◌∷◌, ◌++◌}
use native.Mathlib.Omega.{arith}
use native.Mathlib.Decide.{dec_le}
use zephyr_applications.Common.Lists.{length, take, drop, length-append, length-drop}

module _ {ℓ} {A : Type ℓ} where
  pub take-length : (n : ℕ) (xs : List A) → length xs ≤ n → take n xs ≡ xs
  take-length zero [] h = refl
  take-length zero (x ∷ xs) h = absurd (omega arith)
  take-length (suc n) [] h = refl
  take-length (suc n) (x ∷ xs) h = ap (λ t. x ∷ t) (take-length n xs (omega arith))

  pub drop-length : (n : ℕ) (xs : List A) → length xs ≤ n → drop n xs ≡ []
  drop-length zero [] h = refl
  drop-length zero (x ∷ xs) h = absurd (omega arith)
  drop-length (suc n) [] h = refl
  drop-length (suc n) (x ∷ xs) h = drop-length n xs (omega arith)

  pub take-append_le : (n : ℕ) (xs ys : List A) → n ≤ length xs → take n (xs ++ ys) ≡ take n xs
  take-append_le zero xs ys h = refl
  take-append_le (suc n) [] ys h = absurd (omega arith)
  take-append_le (suc n) (x ∷ xs) ys h = ap (λ t. x ∷ t) (take-append_le n xs ys (omega arith))

  pub drop-append_le :
      (n : ℕ) (xs ys : List A) → n ≤ length xs → drop n (xs ++ ys) ≡ drop n xs ++ ys
  drop-append_le zero xs ys h = refl
  drop-append_le (suc n) [] ys h = absurd (omega arith)
  drop-append_le (suc n) (x ∷ xs) ys h = drop-append_le n xs ys (omega arith)

  pub drop-append_ge :
      (n : ℕ) (xs ys : List A) → length xs ≤ n → drop n (xs ++ ys) ≡ drop (n - length xs) ys
  drop-append_ge n [] ys h = ap (λ k. drop k ys) (omega arith)
  drop-append_ge zero (x ∷ xs) ys h = absurd (omega arith)
  drop-append_ge (suc n) (x ∷ xs) ys h =
      drop-append_ge n xs ys (omega arith) ∙ ap (λ k. drop k ys) (omega arith)

  pub take_nil : (n : ℕ) → ◌≡◌ {A = List A} (take n []) []
  take_nil zero = refl
  take_nil (suc n) = refl

  pub drop_nil : (n : ℕ) → ◌≡◌ {A = List A} (drop n []) []
  drop_nil zero = refl
  drop_nil (suc n) = refl

  pub drop-drop : (m n : ℕ) (xs : List A) → drop n (drop m xs) ≡ drop (m + n) xs
  drop-drop zero n xs = ap (λ k. drop k xs) (omega arith)
  drop-drop (suc m) n [] = drop_nil n ∙ sym (drop_nil (suc m + n))
  drop-drop (suc m) n (x ∷ xs) =
      drop-drop m n xs
      ∙ ap (λ k. drop k (x ∷ xs)) (let e : suc (m + n) ≡ suc m + n = omega arith in e)

  pub drop-take : (n m : ℕ) (xs : List A) → drop n (take m xs) ≡ take (m - n) (drop n xs)
  drop-take zero m xs = ap (λ k. take k xs) (omega arith)
  drop-take (suc n) zero xs =
      ap (λ k. take k (drop (suc n) xs)) (let e : 0 ≡ 0 - suc n = omega arith in e)
  drop-take (suc n) (suc m) [] = sym (take_nil (suc m - suc n))
  drop-take (suc n) (suc m) (x ∷ xs) = drop-take n m xs ∙ ap (λ k. take k (drop n xs)) (omega arith)

  -- The last `n` elements.
  abbrev pub last : ℕ → List A → List A
  last n xs = drop (length xs - n) xs

  pub last_short : (n : ℕ) (xs : List A) → length xs ≤ n → last n xs ≡ xs
  last_short n xs h = ap (λ k. drop k xs) (let e : length xs - n ≡ 0 = omega arith in e)

  -- Cutting twice is cutting once.
  pub last-append_left : (n : ℕ) (xs ys : List A) → last n (last n xs ++ ys) ≡ last n (xs ++ ys)
  last-append_left n xs ys = elim (dec_le (length xs) n) [
    | yes h ↦ ap (λ t. last n (t ++ ys)) (last_short n xs h)
    | no h ↦
        let d = length xs - n in
        let cut : length (drop d xs ++ ys) - n ≡ length ys =
          omega (arith, length-append {ℓ} (drop d xs) ys, length-drop {ℓ} d xs) in
        let all : d + length ys ≡ length (xs ++ ys) - n = omega (arith, length-append {ℓ} xs ys) in
        ap (λ k. drop k (drop d xs ++ ys)) cut
        ∙ ap (drop (length ys)) (sym (drop-append_le d xs ys (omega arith)))
        ∙ drop-drop d (length ys) (xs ++ ys)
        ∙ ap (λ k. drop k (xs ++ ys)) all
  ]

  pub last-append_right : (n : ℕ) (xs ys : List A) → last n (xs ++ last n ys) ≡ last n (xs ++ ys)
  last-append_right n xs ys = elim (dec_le (length ys) n) [
    | yes h ↦ ap (λ t. last n (xs ++ t)) (last_short n ys h)
    | no h ↦
        let d = length ys - n in
        let short : length (xs ++ drop d ys) - n ≡ length xs =
          omega (arith, length-append {ℓ} xs (drop d ys), length-drop {ℓ} d ys) in
        let long : length (xs ++ ys) - n ≡ length xs + d = omega (arith, length-append {ℓ} xs ys) in
        ap (λ k. drop k (xs ++ drop d ys)) short
        ∙ drop-append_ge (length xs) xs (drop d ys) (omega arith)
        ∙ ap (λ k. drop k (drop d ys)) (let e : length xs - length xs ≡ 0 = omega arith in e)
        ∙ ap (λ k. drop k ys) (let e : d ≡ length xs + d - length xs = omega arith in e)
        ∙ sym (drop-append_ge (length xs + d) xs ys (omega arith))
        ∙ ap (λ k. drop k (xs ++ ys)) (sym long)
  ]
