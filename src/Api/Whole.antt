-- ===== src/Api/Whole.antt =====
-- A response body is never cut short.
use zephyr_applications.Common.{
  inl, inr, Bool-cases, ◌⊎◌, ◌⊎◌, ℕ, ◌+◌, ◌-◌, ◌<◌, ◌≤◌, ◌≡◌, refl, sym, ap, true, false, leb, ltb,
  if◌then◌else◌, List, [], ◌∷◌, ◌++◌, append_assoc, append-nil, length, length-append, arith,
}
use zephyr_applications.Api.{Out, empty_out, out_printf, finish, too_large}

-- The pieces of a body, printed one after the other.
abbrev pub printed : ℕ → Out → List (List ℕ) → Out
printed cap o [] = o
printed cap o (piece ∷ more) = printed cap (out_printf cap o piece) more

abbrev pub joined : List (List ℕ) → List ℕ
joined [] = []
joined (piece ∷ more) = piece ++ joined more

printed-overflow :
    (cap : ℕ) (t : List ℕ) (pieces : List (List ℕ))
    → printed cap (record { text = t; overflow = true }) pieces
      ≡ record { text = t; overflow = true }
unfolding out_printf
printed-overflow cap t [] = refl
printed-overflow cap t (piece ∷ more) = printed-overflow cap t more

-- What the pieces leave of an appender that holds `t`.
abbrev Outcome : ℕ → List ℕ → List (List ℕ) → Out → Type 0
Outcome cap t pieces o =
    ((length t + length (joined pieces) < cap)
      × (o ≡ record { text = t ++ joined pieces; overflow = false }))
    ⊎ ((cap ≤ length t + length (joined pieces)) × (o.overflow ≡ true))

printed_lem :
    (cap : ℕ) (t : List ℕ) (pieces : List (List ℕ))
    → length t < cap
    → Outcome cap t pieces (printed cap (record { text = t; overflow = false }) pieces)
unfolding out_printf
printed_lem cap t [] lt =
    inl (
      omega arith,
      ap {A = List ℕ} (λ x. record { text = x; overflow = false }) (sym (append-nil t)),
    )
printed_lem cap t (piece ∷ more) lt = elim (Bool-cases (leb (cap - length t) (length piece))) [
  | inl over ↦ inr (
    ground (arith, over, length-append piece (joined more)),
    ground (arith, over, printed-overflow cap t more),
  )
  | inr fits ↦
      let len = length-append t piece in
      let len2 = length-append piece (joined more) in
      elim (printed_lem cap (t ++ piece) more (ground (arith, fits, len))) [
        | inl (l, e) ↦ inl (
          ground (arith, l, len, len2),
          ground (arith, fits, e, append_assoc t piece (joined more)),
        )
        | inr (l, e) ↦ inr (ground (arith, l, len, len2), ground (arith, fits, e))
      ]
]

-- However a body is printed piece by piece: if it fits the buffer with its terminating zero, it is
-- sent whole with the handler's status; if it does not, a status 500 and the text of the error are
-- sent and none of the body. The buffer holds more bytes than that text.
pub finish-printed :
    (cap code : ℕ) (pieces : List (List ℕ))
    → length too_large < cap
    → finish cap (printed cap empty_out pieces) code ≡ (
        if ltb (length (joined pieces)) cap
        then record { status = code; body = joined pieces; auth_challenge = false; restart = false }
        else record { status = 500; body = too_large; auth_challenge = false; restart = false })
unfolding finish out_printf
finish-printed cap code pieces big = elim (printed_lem cap [] pieces (omega arith)) [
  | inl (l, e) ↦ ground (arith, l, e, big)
  | inr (l, e) ↦ ground (arith, l, e, big)
]
