-- ===== src/Health/Board/Kept.antt =====
-- The invariant of the board.
use zephyr_applications.Common.{
  subst, length-set, Option-cases, ℕ, zero, suc, ◌≤◌, ◌<◌, ◌≡◌, inl, inr, refl, sym, true, List,
  Option, none, length, arith,
}
use native.Mathlib.Decide.{dec_le}
use zephyr_applications.Health.Board.{
  Warning, Board, find, health_board_clear, new_warning, health_board_publish,
}
use zephyr_applications.Health.Board.Lookup.{IsShort, lookup, IsBoard, take_short, find-none}
use zephyr_applications.Health.Board.Entries.{
  find-some, set-IsBoard, append-IsBoard, remove_at-IsBoard, length-append_one, length-remove_at,
}
use zephyr_applications.Health.Board.Publish.{
  fresh_entry, next_entry, publish_known, publish_full, publish_room,
}

-- The board between two operations: one entry for a source, at most eight entries.
abbrev pub IsKept : Board → Type 0
IsKept b = IsBoard b.w × (length b.w ≤ 8)

clear-IsKept :
    (b : Board) (src : List ℕ) → IsKept b → IsShort src → IsKept (health_board_clear b src)
unfolding health_board_clear
clear-IsKept b src (v, l) s = elim (Option-cases (find b.w src)) [
  | inl h ↦ ground (arith, v, l, h)
  | inr (i, h) ↦ ground (arith, h, remove_at-IsBoard b.w src i v s h, length-remove_at b.w i)
]

publish_ok :
    (b : Board) (src : List ℕ) (msg : Option (List ℕ)) (now_ms : ℕ)
    → health_board_publish b src 0 msg now_ms ≡ (health_board_clear b src, true)
unfolding health_board_publish
publish_ok b src msg now_ms = refl

raise-IsKept :
    (b : Board) (src : List ℕ) (level : ℕ) (msg : Option (List ℕ)) (now_ms : ℕ)
    → IsKept b
    → IsShort src
    → 0 < level
    → IsKept (health_board_publish b src level msg now_ms).0
raise-IsKept b src level msg now_ms (v, l) s pos = elim (Option-cases (find b.w src)) [
  | inl h ↦ elim (dec_le 8 (length b.w)) [
    | yes full ↦
        subst (λ r. IsKept r.0) (sym (publish_full b src level msg now_ms pos h full)) (v, l)
    | no room ↦
        subst (λ r. IsKept r.0) (sym (publish_room b src level msg now_ms pos h (omega arith)))
          (
            append-IsBoard b.w new v (short_entry s) (free h),
            omega (arith, length-append_one b.w new),
          )
  ]
  | inr (i, h) ↦
      subst (λ r. IsKept r.0) (sym (publish_known b src level msg now_ms i pos h))
        (
          set-IsBoard b.w src i (next i) v s h
              (find-some b.w src i (new_warning src now_ms) v s h).1,
          omega (arith, length-set {A = Warning} b.w i (next i)),
        )
]
  where
    new : Warning
    new = fresh_entry src level msg now_ms

    next : ℕ → Warning
    next i = next_entry b src i level msg now_ms

    short_entry : IsShort src → IsShort new.src
    short_entry s = ground (arith, take_short src s)

    free : find b.w src ≡ none → lookup b.w new.src ≡ none
    free h = ground (arith, take_short src s, find-none b.w src v s h)

-- Publishing, at any level, and clearing keep the board: short sources, one entry for each, at most
-- eight entries. The source published or cleared is short.
pub board-IsKept :
    (b : Board) (src : List ℕ) (level : ℕ) (msg : Option (List ℕ)) (now_ms : ℕ)
    → IsKept b
    → IsShort src
    → IsKept (health_board_publish b src level msg now_ms).0 × IsKept (health_board_clear b src)
board-IsKept b src zero msg now_ms v s =
    (subst (λ r. IsKept r.0) (sym (publish_ok b src msg now_ms)) kept, kept)
  where
    kept : IsKept (health_board_clear b src)
    kept = clear-IsKept b src v s
board-IsKept b src (suc level) msg now_ms v s =
    (raise-IsKept b src (suc level) msg now_ms v s (omega arith), clear-IsKept b src v s)
