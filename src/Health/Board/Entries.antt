-- ===== src/Health/Board/Entries.antt =====
-- Rewriting, adding and removing one entry of the board.
use zephyr_applications.Common.{
  ℕ, zero, suc, ◌+◌, ◌≤◌, ◌≡◌, refl, List, [], ◌∷◌, ◌++◌, none, some, length, get_or, set, arith,
}
use zephyr_applications.Lockstep.Compare.{eq_bytes→eq, eq_bytes_refl}
use zephyr_applications.Health.Board.{Warning, find, remove_at}
use zephyr_applications.Health.Board.Lookup.{
  IsShort, lookup, IsBoard, same_src_lem, lookup-set, lookup_append, lookup-remove_at,
}

pub find-some :
    (xs : List Warning) (src : List ℕ) (i : ℕ) (d : Warning)
    → IsBoard xs
    → IsShort src
    → find xs src ≡ some i
    → (lookup xs src ≡ some (get_or xs i d)) × ((get_or xs i d).src ≡ src)
unfolding find
find-some [] src i d v s h = ground arith
find-some (x ∷ xs) src zero d v s h =
    ground (arith, same_src_lem x.src src v.0 s, eq_bytes→eq x.src src)
find-some (x ∷ xs) src (suc i) d v s h =
    ground (arith, same_src_lem x.src src v.0 s, find-some xs src i d v.2 s)

pub set-IsBoard :
    (xs : List Warning) (src : List ℕ) (i : ℕ) (y : Warning)
    → IsBoard xs
    → IsShort src
    → find xs src ≡ some i
    → y.src ≡ src
    → IsBoard (set xs i y)
unfolding find
set-IsBoard [] src i y v s h e = tt
set-IsBoard (x ∷ xs) src zero y v s h e =
    ground (arith, same_src_lem x.src src v.0 s, eq_bytes→eq x.src src)
set-IsBoard (x ∷ xs) src (suc i) y v s h e = ground (
  arith,
  same_src_lem x.src src v.0 s,
  eq_bytes→eq src x.src,
  eq_bytes_refl src,
  lookup-set xs src x.src i y v.2 s,
  set-IsBoard xs src i y v.2 s,
)

pub append-IsBoard :
    (xs : List Warning) (y : Warning)
    → IsBoard xs
    → IsShort y.src
    → lookup xs y.src ≡ none
    → IsBoard (xs ++ (y ∷ []))
append-IsBoard [] y v s h = (s, refl, tt)
append-IsBoard (x ∷ xs) y v s h = ground (
  arith,
  eq_bytes→eq y.src x.src,
  eq_bytes_refl y.src,
  lookup_append xs x.src y,
  append-IsBoard xs y v.2 s,
)

pub remove_at-IsBoard :
    (xs : List Warning) (src : List ℕ) (i : ℕ)
    → IsBoard xs
    → IsShort src
    → find xs src ≡ some i
    → IsBoard (remove_at i xs)
unfolding find remove_at
remove_at-IsBoard [] src i v s h = tt
remove_at-IsBoard (x ∷ xs) src zero v s h = v.2
remove_at-IsBoard (x ∷ xs) src (suc i) v s h =
    ground (arith, lookup-remove_at xs src x.src i v.2 s, remove_at-IsBoard xs src i v.2 s)

pub length-append_one : (xs : List Warning) (y : Warning) → length (xs ++ (y ∷ [])) ≡ length xs + 1
length-append_one [] y = refl
length-append_one (x ∷ xs) y = ground (arith, length-append_one xs y)

pub length-remove_at : (xs : List Warning) (i : ℕ) → length (remove_at i xs) ≤ length xs
unfolding remove_at
length-remove_at [] i = ground arith
length-remove_at (x ∷ xs) zero = ground arith
length-remove_at (x ∷ xs) (suc i) = ground (arith, length-remove_at xs i)
