-- ===== src/Health/Board.antt =====
-- The warning board of health_logic.c: one entry per source. A C string is the list of its bytes
-- before the NUL; the entries are `w[0]` to `w[n - 1]`, so that `n` is their number, and what an
-- entry beyond them still holds is not kept (a new entry is cleared before it is written).
pub mod Lookup
pub mod Entries
pub mod Publish
pub mod Kept
pub mod Long
use zephyr_applications.Common.{
  ℕ, zero, suc, ◌+◌, ◌-◌, Bool, true, false, ltb, leb, ◌==◌, if◌then◌else◌, List, [], ◌∷◌, ◌++◌,
  Option, none, some, u32, length, take, get_or, set,
}
use zephyr_applications.Lockstep.Defs.{eq_bytes}

abbrev pub health_max_warnings : ℕ
health_max_warnings = 8

abbrev pub health_src_len : ℕ
health_src_len = 16

abbrev pub health_msg_len : ℕ
health_msg_len = 64

-- `struct health_warning`
pub record Warning : Type 0 where
  pub src : List ℕ
  pub msg : List ℕ
  pub level : ℕ
  pub count : ℕ  -- uint32_t
  pub first_ms : ℕ
  pub last_ms : ℕ

-- `struct health_board`
pub record Board : Type 0 where
  pub dropped : ℕ  -- uint32_t
  pub w : List Warning

-- `strncmp(a, b, HEALTH_SRC_LEN) == 0`
abbrev pub same_src : List ℕ → List ℕ → Bool
same_src a b = eq_bytes (take health_src_len a) (take health_src_len b)

-- The index of the source's entry; -1 is `none`.
unfoldable pub find : List Warning → List ℕ → Option ℕ
find [] src = none
find (x ∷ xs) src =
    let later = find xs src in
    if same_src x.src src then some 0 else elim later [ none ↦ none | some i ↦ some (suc i) ]

-- `strncpy` into `cap` bytes and the NUL at the last; a null pointer is `none`.
abbrev pub copy_str : Option (List ℕ) → ℕ → List ℕ
copy_str none cap = []
copy_str (some src) cap = take (cap - 1) src

-- The loop of `health_board_clear`: what comes after the entry moves down by one.
unfoldable pub remove_at : ℕ → List Warning → List Warning
remove_at i [] = []
remove_at zero (x ∷ xs) = xs
remove_at (suc i) (x ∷ xs) = x ∷ remove_at i xs

unfoldable pub health_board_clear : Board → List ℕ → Board
health_board_clear b src = elim (find b.w src) [
  | none ↦ b
  | some i ↦ record b { w = remove_at i b.w }
]

-- The four writes that end `health_board_publish`.
abbrev pub refresh : Warning → ℕ → Option (List ℕ) → ℕ → Warning
refresh x level msg now_ms = record x {
  msg = copy_str msg health_msg_len;
  level = level;
  count = u32 (x.count + 1);
  last_ms = now_ms;
}

abbrev pub new_warning : List ℕ → ℕ → Warning
new_warning src now_ms = record {
  src = copy_str (some src) health_src_len;
  msg = [];
  level = 0;
  count = 0;
  first_ms = now_ms;
  last_ms = 0;
}

-- Returns false for -ENOMEM. A level is 0, 1 or 2.
unfoldable pub health_board_publish : Board → List ℕ → ℕ → Option (List ℕ) → ℕ → Board × Bool
health_board_publish b src level msg now_ms =
    if level == 0 then (health_board_clear b src, true) else elim (find b.w src) [
      | none ↦
          if leb health_max_warnings (length b.w)
          then (record b { dropped = u32 (b.dropped + 1) }, false)
          else (
            record b { w = b.w ++ (refresh (new_warning src now_ms) level msg now_ms ∷ []) },
            true,
          )
      | some i ↦ (
        record b {
          w = set b.w i (refresh (get_or b.w i (new_warning src now_ms)) level msg now_ms);
        },
        true,
      )
    ]

-- The loop of `health_board_level`.
unfoldable pub worst_level : ℕ → List Warning → ℕ
worst_level worst [] = worst
worst_level worst (x ∷ xs) = worst_level (if ltb worst x.level then x.level else worst) xs

unfoldable pub health_board_level : Board → ℕ
health_board_level b = worst_level 0 b.w
