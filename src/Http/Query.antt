-- ===== src/Http/Query.antt =====
-- http_query_get and http_query_flag of http_util.c: one value out of the query part of a URL. A
-- URL, a key and a value are C strings; no pointer is null.
pub mod Pairs
use zephyr_applications.Common.{
  ℕ, zero, suc, ◌+◌, ◌-◌, ◌*◌, ◌^◌, Bool, true, false, ◌&&◌, ◌||◌, not, ltb, leb, ◌==◌,
  if◌then◌else◌, List, [], ◌∷◌, Option, none, some, length,
}

-- The value that was copied, or an errno.
pub data Value : Type 0 where
  found : List ℕ → Value
  einval enoent enospc : Value

-- `strchr(url, '?')`, and one further.
unfoldable pub after_mark : List ℕ → Option (List ℕ)
after_mark [] = none
after_mark (c ∷ s) = let later = after_mark s in if c == b'?' then some s else later

-- The pairs that the loop walks over: what stands between the ampersands.
unfoldable pub segments : List ℕ → List (List ℕ)
segments [] = [] ∷ []
segments (c ∷ s) = elim (segments s) [
  | [] ↦ []
  | seg ∷ segs ↦ if c == b'&' then [] ∷ seg ∷ segs else (c ∷ seg) ∷ segs
]

-- The three tests on a pair, and its value: the key in front, then `=`.
unfoldable pub value_of : List ℕ → List ℕ → Option (List ℕ)
value_of [] [] = none
value_of [] (c ∷ v) = if c == b'=' then some v else none
value_of (k ∷ ks) [] = none
value_of (k ∷ ks) (c ∷ cs) = let rest = value_of ks cs in if k == c then rest else none

-- The loop; an empty rest ends it, as a pair without a value does.
unfoldable pub scan : List ℕ → ℕ → List (List ℕ) → Value
scan key out_len [] = enoent
scan key out_len (pair ∷ pairs) = elim (value_of key pair) [
  | some v ↦ if leb out_len (length v) then enospc else found v
  | none ↦ scan key out_len pairs
]

unfoldable pub http_query_get : List ℕ → List ℕ → ℕ → Value
http_query_get url key out_len =
    if out_len == 0
    then einval
    else elim (after_mark url) [ none ↦ enoent | some p ↦ scan key out_len (segments p) ]

abbrev pub is_one : Value → Bool
is_one (found (c ∷ [])) = c == b'1'
is_one _ = false

unfoldable pub http_query_flag : List ℕ → List ℕ → Bool
http_query_flag url key = is_one (http_query_get url key 4)
