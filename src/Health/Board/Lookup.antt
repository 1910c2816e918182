-- ===== src/Health/Board/Lookup.antt =====
-- The board as a finite map from short sources to warnings.
use zephyr_applications.Common.{
  ap₂, take-length, ℕ, zero, suc, ◌≤◌, ◌≡◌, refl, if◌then◌else◌, List, [], ◌∷◌, ◌++◌, Option, none,
  some, length, take, set, arith,
}
use zephyr_applications.Lockstep.Defs.{eq_bytes}
use zephyr_applications.Lockstep.Compare.{eq_bytes→eq, eq_bytes_refl}
use zephyr_applications.Health.Board.{Warning, same_src, find, remove_at}

-- A source that an entry holds whole.
abbrev pub IsShort : List ℕ → Type 0
IsShort src = length src ≤ 15

-- The abstract map: what the board holds for a source.
abbrev pub lookup : List Warning → List ℕ → Option Warning
lookup [] src = none
lookup (x ∷ xs) src = if eq_bytes x.src src then some x else lookup xs src

-- Sources are short, and each has one entry.
abbrev pub IsBoard : List Warning → Type 0
IsBoard [] = Unit
IsBoard (x ∷ xs) = IsShort x.src × (lookup xs x.src ≡ none) × IsBoard xs

pub take_short : (src : List ℕ) → IsShort src → take 16 src ≡ src
take_short src h = take-length 16 src (omega (arith, h))

pub same_src_lem : (a b : List ℕ) → IsShort a → IsShort b → same_src a b ≡ eq_bytes a b
same_src_lem a b h k = ap₂ eq_bytes (take_short a h) (take_short b k)

-- What `find` answers, and where.
pub find-none :
    (xs : List Warning) (src : List ℕ)
    → IsBoard xs
    → IsShort src
    → find xs src ≡ none
    → lookup xs src ≡ none
unfolding find
find-none [] src v s h = refl
find-none (x ∷ xs) src v s h = ground (arith, same_src_lem x.src src v.0 s, find-none xs src v.2 s)

-- After an entry of `src` is rewritten, `src` maps to the new entry, and nothing else changes.
pub lookup-set :
    (xs : List Warning) (src other : List ℕ) (i : ℕ) (y : Warning)
    → IsBoard xs
    → IsShort src
    → find xs src ≡ some i
    → y.src ≡ src
    → lookup (set xs i y) other ≡ (if eq_bytes src other then some y else lookup xs other)
unfolding find
lookup-set [] src other i y v s h e = ground arith
lookup-set (x ∷ xs) src other zero y v s h e =
    ground (arith, same_src_lem x.src src v.0 s, eq_bytes→eq x.src src)
lookup-set (x ∷ xs) src other (suc i) y v s h e = ground (
  arith,
  same_src_lem x.src src v.0 s,
  eq_bytes→eq x.src other,
  eq_bytes→eq src other,
  eq_bytes_refl src,
  lookup-set xs src other i y v.2 s,
)

pub lookup_append :
    (xs : List Warning) (other : List ℕ) (y : Warning)
    → lookup xs y.src ≡ none
    → lookup (xs ++ (y ∷ [])) other ≡ (if eq_bytes y.src other then some y else lookup xs other)
lookup_append [] other y h = refl
lookup_append (x ∷ xs) other y h = ground (
  arith,
  eq_bytes→eq x.src other,
  eq_bytes→eq y.src other,
  eq_bytes_refl y.src,
  lookup_append xs other y,
)

-- After an entry of `src` is removed, `src` maps to nothing, and nothing else changes.
pub lookup-remove_at :
    (xs : List Warning) (src other : List ℕ) (i : ℕ)
    → IsBoard xs
    → IsShort src
    → find xs src ≡ some i
    → lookup (remove_at i xs) other ≡ (if eq_bytes src other then none else lookup xs other)
unfolding find remove_at
lookup-remove_at [] src other i v s h = ground arith
lookup-remove_at (x ∷ xs) src other zero v s h =
    ground (arith, same_src_lem x.src src v.0 s, eq_bytes→eq x.src src, eq_bytes→eq src other)
lookup-remove_at (x ∷ xs) src other (suc i) v s h = ground (
  arith,
  same_src_lem x.src src v.0 s,
  eq_bytes→eq x.src other,
  eq_bytes→eq src other,
  eq_bytes_refl src,
  lookup-remove_at xs src other i v.2 s,
)
