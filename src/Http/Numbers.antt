-- ===== src/Http/Numbers.antt =====
-- The parser of 32-bit numbers against an unbounded reference.
use zephyr_applications.Common.{
  ℕ, ◌+◌, ◌*◌, ◌^◌, ◌<◌, ◌≤◌, ◌≡◌, refl, ltb, leb, if◌then◌else◌, List, [], ◌∷◌, Option, none, some,
  u64, arith, Option-cases, inl, inr,
}
use native.Mathlib.Decide.{dec_le}
use zephyr_applications.Http.{hex_digit, parse_digits, is_hex_prefix, http_parse_u32}

-- The number that the digits write in a base, however large; none if one of them is no digit of it.
abbrev pub number : ℕ → ℕ → List ℕ → Option ℕ
number base v [] = some v
number base v (c ∷ s) = elim (hex_digit c) [
  | none ↦ none
  | some d ↦ let rest = number base (v * base + d) s in if leb base d then none else rest
]

-- A number that fits in 32 bits.
abbrev pub fitting : Option ℕ → Option ℕ
fitting none = none
fitting (some n) = if ltb n (2 ^ 32) then some n else none

-- Reading on makes no number smaller.
number_grows : (base v : ℕ) (s : List ℕ) → 0 < base → 2 ^ 32 ≤ v → fitting (number base v s) ≡ none
number_grows base v [] pos big = ground arith
number_grows base v (c ∷ s) pos big = elim (Option-cases (hex_digit c)) [
  | inl e ↦ ground (arith, e)
  | inr (d, e) ↦ ground (arith, e, number_grows base (v * base + d) s pos (grind arith))
]

mul_small : (v base : ℕ) → base ≤ 16 → v < 2 ^ 32 → v * base < 2 ^ 36
mul_small v base small fits = grind arith

exact : (base v d : ℕ) → base ≤ 16 → v < 2 ^ 32 → d < base → u64 (u64 (v * base) + d) ≡ v * base + d
exact base v d small fits digit = omega (arith, mul_small v base small fits)

parse-number :
    (base v : ℕ) (s : List ℕ)
    → 0 < base
    → base ≤ 16
    → v < 2 ^ 32
    → parse_digits base v s ≡ fitting (number base v s)
unfolding parse_digits
parse-number base v [] pos small fits = ground arith
parse-number base v (c ∷ s) pos small fits = elim (Option-cases (hex_digit c)) [
  | inl e ↦ ground (arith, e)
  | inr (d, e) ↦ elim (dec_le base d) [
    | yes over ↦ ground (arith, e)
    | no digit ↦
        let same = exact base v d small fits (omega arith) in
        elim (dec_le (2 ^ 32) (v * base + d)) [
          | yes big ↦ ground (arith, e, same, number_grows base (v * base + d) s pos big)
          | no less ↦
              ground (arith, e, same, parse-number base (v * base + d) s pos small (omega arith))
        ]
  ]
]

-- What a string of a number says: decimal, or hexadecimal behind `0x` or `0X`; a string without a
-- digit says nothing.
abbrev pub reference : List ℕ → Option ℕ
reference [] = none
reference (a ∷ []) = number 10 0 (a ∷ [])
reference (a ∷ b ∷ []) = if is_hex_prefix a b then none else number 10 0 (a ∷ b ∷ [])
reference (a ∷ b ∷ c ∷ s) =
    if is_hex_prefix a b then number 16 0 (c ∷ s) else number 10 0 (a ∷ b ∷ c ∷ s)

-- The parser, which stops at the first digit that leaves 32 bits, agrees on every string with a
-- reference that reads the whole number without bound and then asks whether it fits.
pub http_parse_u32-reference : (s : List ℕ) → http_parse_u32 (some s) ≡ fitting (reference s)
unfolding http_parse_u32
http_parse_u32-reference [] = refl
http_parse_u32-reference (a ∷ []) =
    parse-number 10 0 (a ∷ []) (omega arith) (omega arith) (omega arith)
http_parse_u32-reference (a ∷ b ∷ []) =
    ground (arith, parse-number 10 0 (a ∷ b ∷ []) (omega arith) (omega arith) (omega arith))
http_parse_u32-reference (a ∷ b ∷ c ∷ s) = ground (
  arith,
  parse-number 10 0 (a ∷ b ∷ c ∷ s) (omega arith) (omega arith) (omega arith),
  parse-number 16 0 (c ∷ s) (omega arith) (omega arith) (omega arith),
)
