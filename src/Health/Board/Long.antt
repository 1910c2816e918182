-- ===== src/Health/Board/Long.antt =====
-- Sources too long for an entry, and the level of the board.
use zephyr_applications.Common.{
  length-take, ℕ, ◌+◌, ◌≤◌, ◌<◌, ◌≡◌, ◌⊎◌, inl, inr, refl, ap, false, ltb, if◌then◌else◌, List, [],
  ◌∷◌, Option, none, length, take, All, Bool-cases, arith,
}
use mathlib.Core.List.{Memᴰ}
use zephyr_applications.Lockstep.Compare.{eq_bytes→eq}
use zephyr_applications.Health.Board.{
  Warning, Board, same_src, find, health_board_clear, refresh, new_warning, health_board_publish,
  worst_level, health_board_level,
}
use zephyr_applications.Health.Board.Lookup.{IsShort, IsBoard}
use zephyr_applications.Health.Board.Entries.{length-append_one}

long_differs : (a src : List ℕ) → IsShort a → 16 ≤ length src → same_src a src ≡ false
long_differs a src s long = elim (Bool-cases (same_src a src)) [
  | inr h ↦ h
  | inl h ↦ absurd (
      omega (
        arith,
        ap length (eq_bytes→eq (take 16 a) (take 16 src) h),
        length-take {0} 16 a,
        length-take {0} 16 src,
        s,
        long,
      ))
]

long_missing :
    (xs : List Warning) (src : List ℕ) → IsBoard xs → 16 ≤ length src → find xs src ≡ none
unfolding find
long_missing [] src v long = refl
long_missing (x ∷ xs) src v long =
    ground (arith, long_differs x.src src v.0 long, long_missing xs src v.2 long)

-- A source of 16 bytes or more is never found again: on a board with room, clearing it changes
-- nothing, and publishing a warning for it adds an entry, whatever the board holds. The board has
-- one entry for a source, each short.
pub long_source_never_found :
    (b : Board) (src : List ℕ) (level : ℕ) (msg : Option (List ℕ)) (now_ms : ℕ)
    → IsBoard b.w
    → 16 ≤ length src
    → 0 < level
    → length b.w < 8
    → (health_board_clear b src ≡ b)
      × (length (health_board_publish b src level msg now_ms).0.w ≡ length b.w + 1)
unfolding health_board_publish health_board_clear
long_source_never_found b src level msg now_ms v long pos room = ground (
  arith,
  long_missing b.w src v long,
  length-append_one b.w (refresh (new_warning src now_ms) level msg now_ms),
)

worst_level_bound :
    (k : ℕ) (xs : List Warning)
    → (k ≤ worst_level k xs) × All (λ (x : Warning). x.level ≤ worst_level k xs) xs
unfolding worst_level
worst_level_bound k [] = ground arith
worst_level_bound k (x ∷ xs) =
    let n = if ltb k x.level then x.level else k in
    let (h, all) = worst_level_bound n xs in (ground (arith, h), (ground (arith, h), all))

worst_level_attained :
    (k : ℕ) (xs : List Warning)
    → (worst_level k xs ≡ k) ⊎ ((x : Warning) × Memᴰ x xs × (x.level ≡ worst_level k xs))
unfolding worst_level
worst_level_attained k [] = inl refl
worst_level_attained k (x ∷ xs) =
    let n = if ltb k x.level then x.level else k in
    elim (worst_level_attained n xs) [
      | inr (y, m, e) ↦ inr (y, Memᴰ.tail m, e)
      | inl e ↦ elim (Bool-cases (ltb k x.level)) [
        | inl h ↦ inr (x, Memᴰ.head refl, ground (arith, e))
        | inr h ↦ inl (ground (arith, e))
      ]
    ]

-- The board's level is that of its worst entry: no entry is above it, and one has it, or it is 0.
pub board_level_lem :
    (b : Board)
    → All (λ (x : Warning). x.level ≤ health_board_level b) b.w
      × ((health_board_level b ≡ 0)
          ⊎ ((x : Warning) × Memᴰ x b.w × (x.level ≡ health_board_level b)))
unfolding health_board_level
board_level_lem b = ((worst_level_bound 0 b.w).1, worst_level_attained 0 b.w)
