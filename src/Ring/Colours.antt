-- ===== src/Ring/Colours.antt =====
-- What the colours of ring.c mean, and which state the ring reports.
use zephyr_applications.Common.{sym, subst, length}
use zephyr_applications.Ring.{fill, rgb}
use zephyr_applications.Common.{
  length, ℕ, ◌+◌, ◌≤◌, ◌<◌, ◌≡◌, ◌≢◌, ◌⊎◌, inl, inr, false, List, [], ◌∷◌, arith, All,
}
use zephyr_applications.Pstop.{Codes}
use zephyr_applications.Session.{bonded}
use zephyr_applications.Ring.{
  Rgb, RingSlot, RingInput, RingState, rank, worse, segments, show, is_fresh, configured_slots,
  compose, amber_level,
}

-- A machine's segment shows OK only for a bonded session whose last reply is less than two seconds
-- old and was OK, and STOP only for such a session whose last reply was STOP; a stale or unbonded one
-- always shows unreachable.
pub show_cases :
    (c : Codes) (inp : RingInput) (amber : ℕ) (s : RingSlot)
    → let sh = show c inp amber s in
      ((sh.st ≡ RingState.unreachable) × (is_fresh inp s ≡ false) × (sh.wave ≡ false))
      ⊎ ((s.state ≡ bonded)
          × (0 < s.last_reply_ms)
          × (s.last_reply_ms ≤ inp.now_ms)
          × (inp.now_ms < s.last_reply_ms + 2000)
          × (((sh.st ≡ RingState.stop) × (s.last_msg ≡ c.stop))
              ⊎ ((sh.st ≡ RingState.ok) × (s.last_msg ≡ c.ok) × (s.last_msg ≢ c.stop))
              ⊎ ((sh.st ≡ RingState.bond) × (s.last_msg ≢ c.ok) × (s.last_msg ≢ c.stop))))
unfolding show is_fresh
show_cases c inp amber s = ground arith

worse-rank :
    (worst st : RingState)
    → (rank worst ≤ rank (worse worst st)) × (rank st ≤ rank (worse worst st))
unfolding worse
worse-rank worst st = ground arith

All-empty {ℓ} : {A : Type ℓ} (P : A → Type 0) (xs : List A) → length xs ≡ 0 → All P xs
All-empty P [] h = tt
All-empty P (x ∷ xs) h = absurd (omega arith)

module _ (c : Codes) (inp : RingInput) (amber n : ℕ) where
  segments_worst :
      (j : ℕ) (ss : List RingSlot) (worst : RingState) (px : List Rgb)
      → (rank worst ≤ rank (segments c inp amber n j ss worst px).0)
        × All (λ s. rank (show c inp amber s).st ≤ rank (segments c inp amber n j ss worst px).0) ss
  unfolding segments
  segments_worst j [] worst px = (omega arith, tt)
  segments_worst j (s ∷ ss) worst px =
      let w = worse-rank worst (show c inp amber s).st in
      let (a, b) = segments_worst (j + 1) ss (worse worst (show c inp amber s).st) _ in
      (omega arith, (omega arith, b))

  show-rank : (k : ℕ) (ss : List RingSlot) → 4 ≤ k → All (λ s. rank (show c inp amber s).st ≤ k) ss
  unfolding show
  show-rank k [] h = tt
  show-rank k (s ∷ ss) h = (ground arith, show-rank k ss h)

compose_state :
    (c : Codes) (inp : RingInput)
    → ((compose c inp).0 ≡ RingState.located)
      ⊎ ((compose c inp).0 ≡ RingState.mismatched)
      ⊎ (length (configured_slots inp.slots) ≡ 0)
      ⊎ ((compose c inp).0
          ≡ (segments c inp
              (amber_level inp)
              (length (configured_slots inp.slots))
              0
              (configured_slots inp.slots)
              RingState.idle
              (fill (rgb 0 0 0))).0)
unfolding compose
compose_state c inp = ground arith

-- The reported state ranks at least as high, in the order of `enum ring_state`, as what any
-- configured machine's segment shows, also in locate mode and under a sampler fault.
pub compose_worst :
    (c : Codes) (inp : RingInput)
    → All
        (λ s. rank (show c inp (amber_level inp) s).st ≤ rank (compose c inp).0)
        (configured_slots inp.slots)
compose_worst c inp = elim (compose_state c inp) [
  | inl e ↦ raise (sym e) (show-rank c inp _ 0 6 (configured_slots inp.slots) (omega arith))
  | inr (inl e) ↦ raise (sym e) (show-rank c inp _ 0 5 (configured_slots inp.slots) (omega arith))
  | inr (inr (inl z)) ↦ All-empty _ (configured_slots inp.slots) z
  | inr (inr (inr e)) ↦
      raise (sym e) (segments_worst c inp (amber_level inp) _ 0 (configured_slots inp.slots) _ _).1
]
  where
    raise :
        {a b : RingState}
        → a ≡ b
        → All (λ s. rank (show c inp (amber_level inp) s).st ≤ rank a) (configured_slots inp.slots)
        → All (λ s. rank (show c inp (amber_level inp) s).st ≤ rank b) (configured_slots inp.slots)
    raise e h =
        subst
          (λ k.
            All (λ s. rank (show c inp (amber_level inp) s).st ≤ rank k)
              (configured_slots inp.slots))
          e h
