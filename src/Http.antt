-- ===== src/Http.antt =====
-- The number parsers that the HTTP handlers share: applications/common/http_util/http_util.c. A C
-- string is the list of its bytes before the NUL, a null pointer is `none`; the destination is never
-- null. The answer `none` is -EINVAL.
pub mod Numbers
pub mod Address
pub mod Query
pub mod Auth
use zephyr_applications.Common.{
  ℕ, zero, suc, ◌+◌, ◌-◌, ◌*◌, ◌^◌, Bool, true, false, ◌&&◌, ◌||◌, not, ltb, leb, ◌==◌,
  if◌then◌else◌, List, [], ◌∷◌, Option, none, some, u32, u64,
}

abbrev pub is_digit : ℕ → Bool
is_digit c = leb 48 c && leb c 57

-- The value of a hexadecimal digit; -1 is `none`.
unfoldable pub hex_digit : ℕ → Option ℕ
hex_digit c =
    if is_digit c
    then some (c - 48)
    else if leb 97 c && leb c 102
    then some (c - 97 + 10)
    else if leb 65 c && leb c 70
    then some (c - 65 + 10)
    else none

-- The loop of `http_parse_u32`, with what was read so far.
unfoldable pub parse_digits : ℕ → ℕ → List ℕ → Option ℕ
parse_digits base v [] = some v
parse_digits base v (c ∷ s) = elim (hex_digit c) [
  | none ↦ none
  | some d ↦
      let next = u64 (u64 (v * base) + d) in
      let rest = parse_digits base next s in
      if leb base d || ltb (2 ^ 32 - 1) next then none else rest
]

-- `0x` or `0X` in front.
abbrev pub is_hex_prefix : ℕ → ℕ → Bool
is_hex_prefix a b = (a == 48) && ((b == 120) || (b == 88))

abbrev pub parse_hex : List ℕ → Option ℕ
parse_hex [] = none
parse_hex (c ∷ s) = parse_digits 16 0 (c ∷ s)

unfoldable pub http_parse_u32 : Option (List ℕ) → Option ℕ
http_parse_u32 none = none
http_parse_u32 (some []) = none
http_parse_u32 (some (a ∷ [])) = parse_digits 10 0 (a ∷ [])
http_parse_u32 (some (a ∷ b ∷ s)) =
    if is_hex_prefix a b then parse_hex s else parse_digits 10 0 (a ∷ b ∷ s)

-- The inner loop of `http_parse_ipv4`: the octet, how many digits it had, and what is left.
unfoldable pub read_octet : ℕ → ℕ → List ℕ → Option (ℕ × ℕ × List ℕ)
read_octet v digits [] = some (v, digits, [])
read_octet v digits (c ∷ s) =
    let next = v * 10 + (c - 48) in
    let rest = read_octet next (digits + 1) s in
    if is_digit c
    then if ltb 255 next || ltb 3 (digits + 1) then none else rest
    else some (v, digits, c ∷ s)

-- The dot behind each octet but the last.
abbrev pub skip_dot : List ℕ → Option (List ℕ)
skip_dot [] = none
skip_dot (c ∷ s) = if c == 46 then some s else none

-- The outer loop, with the number of octets still to come behind this one.
unfoldable pub read_octets : ℕ → ℕ → List ℕ → Option ℕ
read_octets zero ip s = elim (read_octet 0 0 s) [
  | none ↦ none
  | some (v, digits, []) ↦ if digits == 0 then none else some (u32 (ip * 256) + v)
  | some (v, digits, c ∷ rest) ↦ none
]
read_octets (suc left) ip s = elim (read_octet 0 0 s) [
  | none ↦ none
  | some (v, digits, rest) ↦ elim (skip_dot rest) [
    | none ↦ none
    | some more ↦
        let ip' = read_octets left (u32 (ip * 256) + v) more in if digits == 0 then none else ip'
  ]
]

unfoldable pub http_parse_ipv4 : Option (List ℕ) → Option ℕ
http_parse_ipv4 none = none
http_parse_ipv4 (some s) = read_octets 3 0 s
