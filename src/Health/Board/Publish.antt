-- ===== src/Health/Board/Publish.antt =====
-- What publishing and clearing do to the board, as operations on the abstract map.
use zephyr_applications.Common.{
  Option-cases, ℕ, ◌+◌, ◌≤◌, ◌<◌, ◌≡◌, ◌⊎◌, inl, inr, sym, ◌∙◌, ap, true, false, if◌then◌else◌,
  List, [], ◌∷◌, ◌++◌, Option, none, some, u32, length, get_or, set, arith,
}
use native.Mathlib.Decide.{dec_le}
use zephyr_applications.Lockstep.Defs.{eq_bytes}
use zephyr_applications.Lockstep.Compare.{eq_bytes→eq}
use zephyr_applications.Health.Board.{
  Warning, Board, find, health_board_clear, refresh, new_warning, health_board_publish,
}
use zephyr_applications.Health.Board.Lookup.{
  IsShort, lookup, IsBoard, take_short, find-none, lookup-set, lookup_append, lookup-remove_at,
}
use zephyr_applications.Health.Board.Entries.{find-some}

-- Clearing a short source takes its warning off the board, and no other one. The board has one
-- entry for a source, each short.
pub clear_lookup :
    (b : Board) (src other : List ℕ)
    → IsBoard b.w
    → IsShort src
    → lookup (health_board_clear b src).w other
      ≡ (if eq_bytes src other then none else lookup b.w other)
unfolding health_board_clear
clear_lookup b src other v s = elim (Option-cases (find b.w src)) [
  | inl h ↦ ground (arith, find-none b.w src v s h, eq_bytes→eq src other)
  | inr (i, h) ↦ ground (arith, lookup-remove_at b.w src other i v s h)
]

-- What the board holds for a source before it is refreshed.
abbrev pub before : Board → List ℕ → ℕ → Warning
before b src now_ms = elim (lookup b.w src) [ none ↦ new_warning src now_ms | some x ↦ x ]

abbrev pub fresh_entry : List ℕ → ℕ → Option (List ℕ) → ℕ → Warning
fresh_entry src level msg now_ms = refresh (new_warning src now_ms) level msg now_ms

abbrev pub next_entry : Board → List ℕ → ℕ → ℕ → Option (List ℕ) → ℕ → Warning
next_entry b src i level msg now_ms =
    refresh (get_or b.w i (new_warning src now_ms)) level msg now_ms

-- The three ways in which a publish at a level above 0 ends.
module _ (b : Board) (src : List ℕ) (level : ℕ) (msg : Option (List ℕ)) (now_ms : ℕ) where
  pub publish_known :
      (i : ℕ)
      → 0 < level
      → find b.w src ≡ some i
      → health_board_publish b src level msg now_ms
        ≡ (record b { w = set b.w i (next_entry b src i level msg now_ms) }, true)
  unfolding health_board_publish
  publish_known i pos h = ground arith

  pub publish_full :
      0 < level
      → find b.w src ≡ none
      → 8 ≤ length b.w
      → health_board_publish b src level msg now_ms
        ≡ (record b { dropped = u32 (b.dropped + 1) }, false)
  unfolding health_board_publish
  publish_full pos h full = ground arith

  pub publish_room :
      0 < level
      → find b.w src ≡ none
      → length b.w < 8
      → health_board_publish b src level msg now_ms
        ≡ (record b { w = b.w ++ (fresh_entry src level msg now_ms ∷ []) }, true)
  unfolding health_board_publish
  publish_room pos h room = ground arith

before_known :
    (b : Board) (src : List ℕ) (now_ms i : ℕ)
    → IsBoard b.w
    → IsShort src
    → find b.w src ≡ some i
    → before b src now_ms ≡ get_or b.w i (new_warning src now_ms)
before_known b src now_ms i v s h =
    ground (arith, find-some b.w src i (new_warning src now_ms) v s h)

before_new :
    (b : Board) (src : List ℕ) (now_ms : ℕ)
    → lookup b.w src ≡ none
    → before b src now_ms ≡ new_warning src now_ms
before_new b src now_ms h = ground arith

-- Publishing a warning for a short source refreshes the source's entry, or makes one, and touches
-- no other source; only a source without an entry is refused, and only on a full board, which is
-- then unchanged but for the count of refusals. The board has one entry for a source, each short.
pub publish_lookup :
    (b : Board) (src other : List ℕ) (level : ℕ) (msg : Option (List ℕ)) (now_ms : ℕ)
    → IsBoard b.w
    → IsShort src
    → 0 < level
    → let r = health_board_publish b src level msg now_ms in
      ((r.1 ≡ false)
        × (r.0 ≡ record b { dropped = u32 (b.dropped + 1) })
        × (lookup b.w src ≡ none)
        × (8 ≤ length b.w))
      ⊎ ((r.1 ≡ true)
          × (r.0.dropped ≡ b.dropped)
          × (lookup r.0.w other ≡ (
              if eq_bytes src other
              then some (refresh (before b src now_ms) level msg now_ms)
              else lookup b.w other)))
publish_lookup b src other level msg now_ms v s pos = elim (Option-cases (find b.w src)) [
  | inl h ↦ elim (dec_le 8 (length b.w)) [
    | yes full ↦
        let e = publish_full b src level msg now_ms pos h full in
        inl (ap (λ r. r.1) e, ap (λ r. r.0) e, find-none b.w src v s h, full)
    | no room ↦
        let e = publish_room b src level msg now_ms pos h (omega arith) in
        let free = find-none b.w src v s h in
        inr (
          ap (λ r. r.1) e,
          ap (λ r. r.0.dropped) e,
          ap (λ r. lookup r.0.w other) e
              ∙ appended free
              ∙ ap (λ x. answer (refresh x level msg now_ms)) (sym (before_new b src now_ms free)),
        )
  ]
  | inr (i, h) ↦
      let e = publish_known b src level msg now_ms i pos h in
      inr (
        ap (λ r. r.1) e,
        ap (λ r. r.0.dropped) e,
        ap (λ r. lookup r.0.w other) e
            ∙ lookup-set b.w src other i (next_entry b src i level msg now_ms) v s h
                (find-some b.w src i (new_warning src now_ms) v s h).1
            ∙ ap (λ x. answer (refresh x level msg now_ms))
                (sym (before_known b src now_ms i v s h)),
      )
]
  where
    answer : Warning → Option Warning
    answer y = if eq_bytes src other then some y else lookup b.w other

    appended :
        lookup b.w src ≡ none
        → lookup (b.w ++ (fresh_entry src level msg now_ms ∷ [])) other
          ≡ answer (fresh_entry src level msg now_ms)
    appended free =
        ground (arith, take_short src s, lookup_append b.w other (fresh_entry src level msg now_ms))
