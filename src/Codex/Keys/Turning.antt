-- ===== src/Codex/Keys/Turning.antt =====
-- The steps of the encoder against its counts.
use zephyr_applications.Common.{
  ap, sym, subst, ℕ, zero, suc, ◌+◌, ◌-◌, ◌≤◌, ◌≡◌, refl, Bool, true, false, List, [], ◌∷◌, ◌++◌,
  some, min, replicate, arith, ltb, Bool-cases, inl, inr,
}
use zephyr_applications.Common.Int.{ℤ, pos_part, neg_part}
use zephyr_applications.Codex.Keys.Encoder.{Encoder, encoder_poll}

-- How many of the steps go one way.
abbrev pub steps : Bool → List Bool → ℕ
steps clockwise [] = 0
steps true (true ∷ es) = suc (steps true es)
steps true (false ∷ es) = steps true es
steps false (true ∷ es) = steps false es
steps false (false ∷ es) = suc (steps false es)

-- The polls, which all read a count: the state in the end and all the steps.
abbrev pub polls : Encoder → List ℤ → Encoder × List Bool
polls st [] = (st, [])
polls st (val ∷ vals) =
    let (next, es) = encoder_poll st (some val) in
    let (last, later) = polls next vals in (last, es ++ later)

-- No count is more than eight away from the one before.
abbrev pub Slow : ℤ → List ℤ → Type 0
Slow at [] = Unit
Slow at (val ∷ vals) =
    (pos_part val + neg_part at ≤ pos_part at + neg_part val + 8)
    × (pos_part at + neg_part val ≤ pos_part val + neg_part at + 8)
    × Slow val vals

steps-append : (way : Bool) (xs ys : List Bool) → steps way (xs ++ ys) ≡ steps way xs + steps way ys
steps-append way [] ys = omega arith
steps-append true (true ∷ xs) ys = omega (arith, steps-append true xs ys)
steps-append true (false ∷ xs) ys = steps-append true xs ys
steps-append false (true ∷ xs) ys = steps-append false xs ys
steps-append false (false ∷ xs) ys = omega (arith, steps-append false xs ys)

steps-replicate :
    (n : ℕ)
    → (steps true (replicate n true) ≡ n)
      × (steps false (replicate n true) ≡ 0)
      × (steps true (replicate n false) ≡ 0)
      × (steps false (replicate n false) ≡ n)
steps-replicate zero = (refl, refl, refl, refl)
steps-replicate (suc n) =
    let (a, b, c, d) = steps-replicate n in (omega (arith, a), b, c, omega (arith, d))

min_small : (n : ℕ) → n ≤ 8 → min n 8 ≡ n
min_small n h = ground (arith, h)

turned_steps :
    (up down : ℕ)
    → up ≤ down
    → down ≤ up + 8
    → (up + steps true (replicate (min (down - up) 8) true)
        ≡ down + steps false (replicate (min (down - up) 8) true))
      × (down + steps true (replicate (min (down - up) 8) false)
          ≡ up + steps false (replicate (min (down - up) 8) false))
turned_steps up down h k =
    let m = min_small (down - up) (omega (arith, h, k)) in
    let (a, b, c, d) = steps-replicate (min (down - up) 8) in
    (omega (arith, a, b, m, h, k), omega (arith, c, d, m, h, k))

poll_steps :
    (st : Encoder) (val : ℤ)
    → st.encoder_synced ≡ true
    → Slow st.encoder_last (val ∷ [])
    → (let (next, es) = encoder_poll st (some val) in
        (pos_part val + neg_part st.encoder_last + steps true es
          ≡ pos_part st.encoder_last + neg_part val + steps false es)
        × (next.encoder_last ≡ val)
        × (next.encoder_synced ≡ true))
unfolding encoder_poll
poll_steps st val sync (fast, slow, u) =
    let up = pos_part val + neg_part st.encoder_last in
    let down = pos_part st.encoder_last + neg_part val in
    elim (Bool-cases (ltb up down)) [
      | inl fell ↦
          rw sync (rw fell ((turned_steps up down (ground (arith, fell)) slow).0, refl, refl))
      | inr rose ↦
          rw sync (rw rose ((turned_steps down up (ground (arith, rose)) fast).1, refl, refl))
    ]

-- No step of the dial is lost or made up while it turns at most eight steps between two polls: the
-- count read last, less the count read first, is the steps anticlockwise less the steps clockwise
-- that were sent. The encoder has been read once before, and every poll reads a count.
pub polls-steps :
    (st : Encoder) (vals : List ℤ)
    → st.encoder_synced ≡ true
    → Slow st.encoder_last vals
    → (let (last, es) = polls st vals in
        pos_part last.encoder_last + neg_part st.encoder_last + steps true es
        ≡ pos_part st.encoder_last + neg_part last.encoder_last + steps false es)
polls-steps st [] sync slow = omega arith
polls-steps st (val ∷ vals) sync slow =
    let (next, es) = encoder_poll st (some val) in
    let (now, at, still) = poll_steps st val sync (slow.0, slow.1, tt) in
    let later = polls-steps next vals still (subst (λ x. Slow x vals) (sym at) slow.2) in
    let (last, more) = polls next vals in
    omega (
      arith,
      now,
      later,
      ap pos_part at,
      ap neg_part at,
      steps-append true es more,
      steps-append false es more,
    )
